-- ===== src/Tickets/Warnings/Once.antt =====
-- How often a ticket is warned about (apps/tickets/tasks.py).
use kanzan.Prelude.{
  ℕ, ◌+◌, ◌≤◌, ◌≡◌, refl, Bool, true, false, ◌&&◌, List, [], ◌∷◌, ◌++◌, ◌==◌, leb, if◌then◌else◌,
  any, All, arith, Bool-cases, inl, inr,
}
use mathlib.Core.Path.{subst, sym}
use kanzan.Tickets.Rows.{Breach, response_breach, resolution_breach}
use kanzan.Tickets.Breach.Rules.{Watched}
use kanzan.Tickets.Warnings.Exact.{any-append}
use kanzan.Tickets.Warnings.{
  Notice, today_start, already_warned, warn, warn_all, check_tenant_sla_warnings,
}

-- The notices name the ticket.
abbrev pub names : ℕ → List Notice → Bool
names pk = any (λ n. n.ticket == pk)

warn-names :
    (b : Breach) (now pk : ℕ) (notices : List Notice) (w : Watched)
    → already_warned now notices pk ≡ true
    → names pk (warn b now notices w) ≡ false
unfolding warn
warn-names b now pk notices w h = elim (Bool-cases (w.ticket.pk == pk)) [
  | inl e ↦ let same : w.ticket.pk ≡ pk = ground arith in ground (arith, same, h)
  | inr e ↦ ground (arith, e)
]

warn_all-names :
    (b : Breach) (now pk : ℕ) (notices : List Notice) (ws : List Watched)
    → already_warned now notices pk ≡ true
    → names pk (warn_all b now notices ws) ≡ false
unfolding warn_all
warn_all-names b now pk notices [] h = refl
warn_all-names b now pk notices (w ∷ ws) h =
    let rest = warn_all b now notices ws in
    ground (
      arith,
      warn_all-names b now pk notices ws h,
      warn-names b now pk notices w h,
      any-append (λ n. n.ticket == pk) (warn b now notices w) rest,
    )

already_warned-names :
    (now pk : ℕ) (ws : List Watched) (notices : List Notice)
    → already_warned now notices pk ≡ true
    → names pk (check_tenant_sla_warnings now ws notices) ≡ false
unfolding check_tenant_sla_warnings
already_warned-names now pk ws notices h = ground (
  arith,
  any-append (λ n. n.ticket == pk) (warn_all response_breach now notices ws)
      (warn_all resolution_breach now notices ws),
  warn_all-names response_breach now pk notices ws h,
  warn_all-names resolution_breach now pk notices ws h,
)

-- A notice about the ticket since the start of a day.
abbrev recent : ℕ → ℕ → Notice → Bool
recent start pk n = leb start n.created_at && n.ticket == pk

-- The notices that a run sends are of the time of the run.
module _ (start now pk : ℕ) (h : start ≤ now) where
  warn-recent :
      (b : Breach) (notices : List Notice) (w : Watched)
      → any (recent start pk) (warn b now notices w) ≡ names pk (warn b now notices w)
  unfolding warn
  warn-recent b notices w = ground (arith, h)

  warn_all-recent :
      (b : Breach) (notices : List Notice) (ws : List Watched)
      → any (recent start pk) (warn_all b now notices ws) ≡ names pk (warn_all b now notices ws)
  unfolding warn_all
  warn_all-recent b notices [] = refl
  warn_all-recent b notices (w ∷ ws) =
      let sent = warn b now notices w in
      let rest = warn_all b now notices ws in
      ground (
        arith,
        warn_all-recent b notices ws,
        warn-recent b notices w,
        any-append (λ n. n.ticket == pk) sent rest,
        any-append (recent start pk) sent rest,
      )

  check_tenant_sla_warnings-recent :
      (ws : List Watched) (notices : List Notice)
      → any (recent start pk) (check_tenant_sla_warnings now ws notices)
        ≡ names pk (check_tenant_sla_warnings now ws notices)
  unfolding check_tenant_sla_warnings
  check_tenant_sla_warnings-recent ws notices =
      let first = warn_all response_breach now notices ws in
      let second = warn_all resolution_breach now notices ws in
      ground (
        arith,
        warn_all-recent response_breach notices ws,
        warn_all-recent resolution_breach notices ws,
        any-append (λ n. n.ticket == pk) first second,
        any-append (recent start pk) first second,
      )

-- A run of the task: its time, and the rows that it finds.
pub record Run : Type 0 where
  pub now : ℕ
  pub rows : List Watched

-- How many of the runs warn about the ticket, where each run stores what it sends.
unfoldable pub runs_warning : ℕ → List Run → List Notice → ℕ
runs_warning pk [] notices = 0
runs_warning pk (r ∷ rs) notices =
    let sent = check_tenant_sla_warnings r.now r.rows notices in
    (if names pk sent then 1 else 0) + runs_warning pk rs (sent ++ notices)

abbrev IsToday : ℕ → List Run → Type 0
IsToday start = All (λ r. today_start r.now ≡ start)

recent-append :
    (start pk : ℕ) (sent notices : List Notice)
    → any (recent start pk) notices ≡ true
    → any (recent start pk) (sent ++ notices) ≡ true
recent-append start pk sent notices h = ground (arith, h, any-append (recent start pk) sent notices)

-- After a warning the runs of the day are silent about the ticket.
runs_warning-recent :
    (start pk : ℕ) (rs : List Run) (notices : List Notice)
    → IsToday start rs
    → any (recent start pk) notices ≡ true
    → runs_warning pk rs notices ≡ 0
unfolding runs_warning already_warned
runs_warning-recent start pk [] notices day h = refl
runs_warning-recent start pk (r ∷ rs) notices day h =
    let sent = check_tenant_sla_warnings r.now r.rows notices in
    let warned : already_warned r.now notices pk ≡ true =
      subst (λ s. any (recent s pk) notices ≡ true) (sym day.0) h in
    ground (
      arith,
      already_warned-names r.now pk r.rows notices warned,
      runs_warning-recent start pk rs (sent ++ notices) day.1
          (recent-append start pk sent notices h),
    )

-- Of the runs of one day, whatever rows each finds, at most one warns about a ticket: after a
-- warning about one limit none follows that day about either limit.
pub runs_warning_once :
    (start pk : ℕ) (rs : List Run) (notices : List Notice)
    → All (λ r. today_start r.now ≡ start) rs
    → runs_warning pk rs notices ≤ 1
unfolding runs_warning
runs_warning_once start pk [] notices day = omega arith
runs_warning_once start pk (r ∷ rs) notices day =
    let sent = check_tenant_sla_warnings r.now r.rows notices in
    elim (Bool-cases (names pk sent)) [
      | inr e ↦ ground (arith, e, runs_warning_once start pk rs (sent ++ notices) day.1)
      | inl e ↦
          let past : start ≤ r.now = omega (arith, day.0) in
          let stored : any (recent start pk) (sent ++ notices) ≡ true = ground (
            arith,
            e,
            check_tenant_sla_warnings-recent start r.now pk past r.rows notices,
            any-append (recent start pk) sent notices,
          ) in
          ground (arith, e, runs_warning-recent start pk rs (sent ++ notices) day.1 stored)
    ]
