-- ===== src/Tickets/Warnings/Exact.antt =====
-- Which tickets are warned about (apps/tickets/tasks.py).
use kanzan.Prelude.{
  ℕ, ◌+◌, ◌-◌, ◌*◌, ◌%◌, ◌≡◌, refl, Bool, true, false, ◌&&◌, ◌||◌, not, Option, none, some, List,
  [], ◌∷◌, ◌++◌, ◌==◌, any, arith, ltb, leb, Bool-cases, inl, inr,
}
use kanzan.Sla.Clock.{minute, day}
use kanzan.Tickets.Rows.{Breach, response_breach, resolution_breach}
use kanzan.Tickets.Pause.{is_missing}
use kanzan.Tickets.Breach.Rules.{Watched}
use kanzan.Tickets.Warnings.{
  Notice, already_warned, is_approaching, warn, warn_all, check_tenant_sla_warnings,
}

abbrev pub same_breach : Breach → Breach → Bool
same_breach Breach.response_breach Breach.response_breach = true
same_breach Breach.resolution_breach Breach.resolution_breach = true
same_breach _ _ = false

abbrev pub is_about : ℕ → Breach → Notice → Bool
is_about pk b n = n.ticket == pk && same_breach b n.breach

-- A row of the ticket that is found, with an assignee.
abbrev is_found : ℕ → Breach → ℕ → Watched → Bool
is_found pk b now w =
    w.ticket.pk == pk && (is_approaching b now w && not (is_missing w.ticket.assignee))

-- A deadline that is ahead by at most 15 minutes, where the limit is neither flagged as exceeded nor
-- met.
abbrev pub is_near : ℕ → Option ℕ → Bool → Option ℕ → Bool
is_near now (some due) false none = ltb now due && leb due (now + 15 * minute)
is_near now _ _ _ = false

-- The row of the ticket is in use, open and assigned, and the deadline is near.
abbrev pub is_due : ℕ → Breach → ℕ → Watched → Bool
is_due pk b now w =
    let t = w.ticket in
    let response =
      is_near now t.sla_first_response_due t.sla_response_breached t.first_responded_at in
    let resolution = is_near now t.sla_resolution_due t.sla_resolution_breached t.resolved_at in
    t.pk == pk
    && (not w.is_deleted
        && (elim t.status [ none ↦ true | some s ↦ not s.is_closed ]
            && (elim t.assignee [ none ↦ false | some _ ↦ true ] && elim b [
              | Breach.response_breach ↦ response
              | Breach.resolution_breach ↦ resolution
            ])))

-- A warning about the ticket was made since the day began.
abbrev pub is_noticed : ℕ → ℕ → Notice → Bool
is_noticed pk now n = n.ticket == pk && leb (now - now % day) n.created_at

is_due-is_found : (b : Breach) (pk now : ℕ) (w : Watched) → is_due pk b now w ≡ is_found pk b now w
unfolding is_approaching
is_due-is_found Breach.response_breach pk now w = ground arith
is_due-is_found Breach.resolution_breach pk now w = ground arith

any-is_found :
    (b : Breach) (pk now : ℕ) (ws : List Watched)
    → any (is_found pk b now) ws ≡ any (is_due pk b now) ws
any-is_found b pk now [] = refl
any-is_found b pk now (w ∷ ws) = rw (any-is_found b pk now ws, is_due-is_found b pk now w) refl

any-is_noticed :
    (pk now : ℕ) (ns : List Notice) → already_warned now ns pk ≡ any (is_noticed pk now) ns
unfolding already_warned
any-is_noticed pk now [] = refl
any-is_noticed pk now (n ∷ ns) = ground (arith, any-is_noticed pk now ns)

pub any-append :
    (p : Notice → Bool) (ns ms : List Notice) → any p (ns ++ ms) ≡ (any p ns || any p ms)
any-append p [] ms = refl
any-append p (n ∷ ns) ms = ground (arith, any-append p ns ms)

warn-about :
    (b c : Breach) (now pk : ℕ) (notices : List Notice) (w : Watched)
    → any (is_about pk b) (warn c now notices w) ≡ (
        same_breach b c
        && (w.ticket.pk == pk
            && (not (already_warned now notices pk) && not (is_missing w.ticket.assignee))))
unfolding warn
warn-about b c now pk notices w = elim (Bool-cases (w.ticket.pk == pk)) [
  | inl e ↦ let same : w.ticket.pk ≡ pk = ground arith in ground (arith, same)
  | inr e ↦ ground (arith, e)
]

warn_all-about :
    (b c : Breach) (now pk : ℕ) (notices : List Notice) (ws : List Watched)
    → any (is_about pk b) (warn_all c now notices ws)
      ≡ (same_breach b c && (any (is_found pk c now) ws && not (already_warned now notices pk)))
unfolding warn_all
warn_all-about b c now pk notices [] = ground arith
warn_all-about b c now pk notices (w ∷ ws) =
    let rest = warn_all c now notices ws in
    ground (
      arith,
      warn_all-about b c now pk notices ws,
      warn-about b c now pk notices w,
      any-append (is_about pk b) (warn c now notices w) rest,
    )

check_tenant_sla_warnings-is_found :
    (b : Breach) (now pk : ℕ) (ws : List Watched) (notices : List Notice)
    → any (is_about pk b) (check_tenant_sla_warnings now ws notices)
      ≡ (any (is_found pk b now) ws && not (already_warned now notices pk))
unfolding check_tenant_sla_warnings
check_tenant_sla_warnings-is_found b now pk ws notices =
    let first = warn_all response_breach now notices ws in
    let second = warn_all resolution_breach now notices ws in
    elim b
      as (λ b.
        any (is_about pk b) (check_tenant_sla_warnings now ws notices)
        ≡ (any (is_found pk b now) ws && not (already_warned now notices pk))) [
          | Breach.response_breach ↦ ground (
            arith,
            any-append (is_about pk response_breach) first second,
            warn_all-about response_breach response_breach now pk notices ws,
            warn_all-about response_breach resolution_breach now pk notices ws,
          )
          | Breach.resolution_breach ↦ ground (
            arith,
            any-append (is_about pk resolution_breach) first second,
            warn_all-about resolution_breach response_breach now pk notices ws,
            warn_all-about resolution_breach resolution_breach now pk notices ws,
          )
        ]

-- A run warns about a limit of a ticket exactly when one of its rows is in use, not closed and
-- assigned, has the deadline ahead by at most 15 minutes, with the limit neither flagged as exceeded nor
-- met, and no warning about the ticket was made since the day began.
pub check_tenant_sla_warnings-is_due :
    (b : Breach) (now pk : ℕ) (ws : List Watched) (notices : List Notice)
    → any (is_about pk b) (check_tenant_sla_warnings now ws notices)
      ≡ (any (is_due pk b now) ws && not (any (is_noticed pk now) notices))
check_tenant_sla_warnings-is_due b now pk ws notices =
    rw (← any-is_found b pk now ws, ← any-is_noticed pk now notices)
      (check_tenant_sla_warnings-is_found b now pk ws notices)
