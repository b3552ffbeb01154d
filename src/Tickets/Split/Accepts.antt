-- ===== src/Tickets/Split/Accepts.antt =====
-- The selections of comments that a split accepts (apps/tickets/services.py).
use kanzan.Prelude.{
  ℕ, ◌+◌, ◌<◌, ◌≤◌, ◌≡◌, ◌≢◌, ◌↔◌, inl, inr, refl, Bool, true, false, ◌&&◌, Option, none, some,
  List, [], ◌∷◌, ◌==◌, if◌then◌else◌, arith, All, any, keep, length, is_in, Bool-cases,
  Option-cases,
}
use kanzan.Tickets.Merge.{Comment, comment_of}
use mathlib.Core.Path.{subst}
use kanzan.Sla.Clock.{Zones, Tenant}
use kanzan.Tickets.Rows.{Status, Priority}
use kanzan.Tickets.Escalate.{SlaPolicy}
use kanzan.Tickets.Merge.{Filed, Desk, ok}
use kanzan.Tickets.Split.{
  NewTicket, Keys, is_selected, all_belong, has_queue, default_status, split_with, split_ticket,
  child_of, split_off, given_or,
}

-- How many rows hang on the ticket and have the key.
abbrev owned : ℕ → ℕ → List Comment → ℕ
owned source i cs = length (keep (λ c. comment_of source c && c.pk == i) cs)

-- The keys of the comments are distinct.
abbrev pub HasKeys : List Comment → Type 0
HasKeys [] = Unit
HasKeys (c ∷ cs) = All (λ b. (b.pk == c.pk) ≡ false) cs × HasKeys cs

selected : ℕ → List ℕ → List Comment → ℕ
selected source ids cs = length (keep (is_selected source ids) cs)

selected-cons :
    (source i : ℕ) (ids : List ℕ) (cs : List Comment)
    → selected source (i ∷ ids) cs
      ≡ (if is_in i ids then 0 else owned source i cs) + selected source ids cs
unfolding selected
selected-cons source i ids [] = ground arith
selected-cons source i ids (c ∷ cs) = ground (arith, selected-cons source i ids cs)

is_owned : ℕ → ℕ → Comment → Bool
is_owned source i c = comment_of source c && c.pk == i

owned_none :
    (source i : ℕ) (cs : List Comment) → All (λ c. (c.pk == i) ≡ false) cs → owned source i cs ≡ 0
owned_none source i [] h = refl
owned_none source i (c ∷ cs) h = ground (arith, owned_none source i cs h.1)

-- Under distinct keys a comment is counted once.
owned-any :
    (source i : ℕ) (cs : List Comment)
    → HasKeys cs
    → owned source i cs ≡ (if any (is_owned source i) cs then 1 else 0)
unfolding is_owned
owned-any source i [] h = refl
owned-any source i (c ∷ cs) h = elim (Bool-cases (c.pk == i)) [
  | inl e ↦
      let same : c.pk ≡ i = ground arith in
      let none_left : owned source i cs ≡ 0 =
        owned_none source i cs (subst (λ k. All (λ b. (b.pk == k) ≡ false) cs) same h.0) in
      ground (arith, owned-any source i cs h.1, none_left, e)
  | inr e ↦ ground (arith, owned-any source i cs h.1, e)
]

-- The keys are distinct, and each is the key of a comment on the ticket.
abbrev pub IsSelection : ℕ → List Comment → List ℕ → Type 0
IsSelection source cs [] = Unit
IsSelection source cs (i ∷ ids) =
    (is_in i ids ≡ false)
    × (any (λ c. comment_of source c && c.pk == i) cs ≡ true)
    × IsSelection source cs ids

selected_none : (source : ℕ) (cs : List Comment) → selected source [] cs ≡ 0
unfolding selected
selected_none source [] = refl
selected_none source (c ∷ cs) = ground (arith, selected_none source cs)

selected_le :
    (source : ℕ) (ids : List ℕ) (cs : List Comment)
    → HasKeys cs
    → selected source ids cs ≤ length ids
selected_le source [] cs h = ground (arith, selected_none source cs)
selected_le source (i ∷ ids) cs h =
    ground
      (arith, selected_le source ids cs h, selected-cons source i ids cs, owned-any source i cs h)

IsSelection-selected :
    (source : ℕ) (ids : List ℕ) (cs : List Comment)
    → HasKeys cs
    → IsSelection source cs ids
    → selected source ids cs ≡ length ids
unfolding is_owned
IsSelection-selected source [] cs h sel = selected_none source cs
IsSelection-selected source (i ∷ ids) cs h sel = ground (
  arith,
  IsSelection-selected source ids cs h sel.2,
  selected-cons source i ids cs,
  owned-any source i cs h,
  sel.0,
  sel.1,
)

selected-IsSelection :
    (source : ℕ) (ids : List ℕ) (cs : List Comment)
    → HasKeys cs
    → selected source ids cs ≡ length ids
    → IsSelection source cs ids
unfolding is_owned
selected-IsSelection source [] cs h e = tt
selected-IsSelection source (i ∷ ids) cs h e =
    let bound = selected_le source ids cs h in
    let step = selected-cons source i ids cs in
    let once = owned-any source i cs h in
    (ground arith, ground arith, selected-IsSelection source ids cs h (ground arith))

all_belong_iff :
    (source : ℕ) (ids : List ℕ) (cs : List Comment)
    → HasKeys cs
    → (all_belong source ids cs ≡ true) ↔ IsSelection source cs ids
unfolding all_belong selected
all_belong_iff source ids cs h = (
  λ e. selected-IsSelection source ids cs h (ground (arith, e)),
  λ sel. ground (arith, IsSelection-selected source ids cs h sel),
)

default_status-some :
    (statuses : List Status)
    → 0 < length statuses
    → (s : Status) × (default_status statuses ≡ some s)
unfolding default_status
default_status-some [] h = absurd (omega arith)
default_status-some (s ∷ statuses) h = elim (Option-cases (default_status (s ∷ statuses))) [
  | inl e ↦ absurd (ground (arith, e))
  | inr found ↦ found
]

default_status-length :
    (statuses : List Status) (s : Status) → default_status statuses ≡ some s → 0 < length statuses
unfolding default_status
default_status-length [] s e = cc
default_status-length (t ∷ statuses) s e = omega arith

given_or-some :
    (o : Option (Option Priority)) (p : Priority)
    → o ≢ some none
    → (q : Priority) × (given_or o p ≡ some q)
given_or-some none p h = (p, refl)
given_or-some (some none) p h = absurd (h refl)
given_or-some (some (some q)) p h = (q, refl)

module _ (z : Zones) (tenant : Tenant) where
  split_with-ok :
      (policies : List SlaPolicy) (o : Option Status) (queues : List ℕ) (source : Filed)
      (ids : List ℕ) (actor : ℕ) (fields : NewTicket) (keys : Keys) (now : ℕ) (d : Desk)
      (child : Filed) (d' : Desk)
      → split_with z tenant policies o queues source ids actor fields keys now d ≡ ok child d'
      → (s : Status) × (o ≡ some s)
        × (has_queue queues fields.queue ≡ true)
        × (fields.priority ≢ some none)
  split_with-ok policies none queues source ids actor fields keys now d child d' e = cc
  split_with-ok policies (some s) queues source ids actor fields keys now d child d' e =
      (s, refl, ground (arith, e), λ missing. absurd (ground (arith, e, missing)))

  -- Where the keys of the comments are distinct, a split succeeds exactly when a comment is selected,
  -- none twice, each hangs on the source, the tenant has a status, the queue that is given, if any,
  -- exists, and the priority is not given as None.
  pub split_ticket_accepts :
      (policies : List SlaPolicy) (statuses : List Status) (queues : List ℕ) (source : Filed)
      (ids : List ℕ) (actor : ℕ) (fields : NewTicket) (keys : Keys) (now : ℕ) (d : Desk)
      → HasKeys d.comments
      → ((child : Filed) × (d' : Desk) × (split_ticket z tenant policies statuses queues source ids
              actor fields keys now d
            ≡ ok child d'))
        ↔ ((0 < length ids)
            × (0 < length statuses)
            × (has_queue queues fields.queue ≡ true)
            × (fields.priority ≢ some none)
            × IsSelection source.ticket.pk d.comments ids)
  unfolding split_ticket
  split_ticket_accepts policies statuses queues source [] actor fields keys now d h =
      (λ r. cc (r.2), λ c. absurd (omega (arith, c.0)))
  split_ticket_accepts policies statuses queues source (i ∷ ids) actor fields keys now d h =
      let belong = all_belong_iff source.ticket.pk (i ∷ ids) d.comments h in
      let o = default_status statuses in
      (
        λ (child, d', e).
            let accepted : all_belong source.ticket.pk (i ∷ ids) d.comments ≡ true =
              ground (arith, e) in
            let (s, found, queue, priority) =
              split_with-ok policies o queues source (i ∷ ids) actor fields keys now d child d'
                (ground (arith, e)) in
            (
              omega arith,
              default_status-length statuses s found,
              queue,
              priority,
              belong.0 accepted,
            ),
        λ (_, some_status, queue, priority, sel).
            let (s, found) = default_status-some statuses some_status in
            let (p, given) = given_or-some fields.priority source.ticket.priority priority in
            let child = child_of z tenant policies source s p fields actor keys now in
            (
              child,
              split_off source child (i ∷ ids) actor keys d,
              ground (arith, belong.1 sel, found, queue, given),
            ),
      )
