-- ===== src/Tickets/Split/Rejoins.antt =====
-- A split that is taken back by a merge (apps/tickets/services.py).
use kanzan.Prelude.{
  ℕ, ◌≡◌, ◌≢◌, refl, Bool, false, Option, none, some, List, [], ◌∷◌, ◌++◌, map, arith, All,
  Bool-cases, Option-cases, inl, inr,
}
use mathlib.Core.Path.{subst, sym}
use kanzan.Sla.Clock.{Zones, Tenant}
use kanzan.Tickets.Rows.{Status, Ticket}
use kanzan.Tickets.Escalate.{SlaPolicy, initialize_sla}
use kanzan.Tickets.Merge.{
  Filed, Signal, signal_entry, Comment, Desk, ok, update, comment_of, comment_to, activity_of,
  activity_to, attachment_of, attachment_to, merge_comment, merge_activity, merged, merge_tickets,
}
use kanzan.Tickets.Merge.Moves.{comment_to_self}
use kanzan.Tickets.Split.{
  NewTicket, Keys, is_selected, default_status, child_ticket, child_comment, source_comment,
  given_or, child_activity, source_activity, split_off, split_with, split_ticket,
}

-- No row of a table hangs on a ticket.
abbrev pub NoneOf : {A : Type 0} → (ℕ → A → Bool) → ℕ → List A → Type 0
NoneOf of t = All (λ a. of t a ≡ false)

update-none :
    {A : Type 0} (p : A → Bool) (write : A → A) (l : List A)
    → All (λ a. p a ≡ false) l
    → update p write l ≡ l
unfolding update
update-none p write [] h = refl
update-none p write (a ∷ l) h = ground (arith, update-none p write l h.1)

-- Comments that are moved off to a new ticket and all moved back.
update-update :
    (s child : ℕ) (ids : List ℕ) (cs : List Comment)
    → NoneOf comment_of child cs
    → update (comment_of child) (comment_to s) (update (is_selected s ids) (comment_to child) cs)
      ≡ cs
unfolding update
update-update s child ids [] h = refl
update-update s child ids (c ∷ cs) h = elim (Bool-cases (is_selected s ids c)) [
  | inl e ↦
      let back : comment_to s c ≡ c = comment_to_self s c (ground (arith, e)) in
      ground (arith, update-update s child ids cs h.1, back, e, h.0)
  | inr e ↦ ground (arith, update-update s child ids cs h.1, e, h.0)
]

-- What a split that succeeds has done.
abbrev IsSplit : Filed → List ℕ → ℕ → Keys → Desk → Filed → Desk → Type 0
IsSplit source ids actor keys d child d' =
    (child.ticket.pk ≡ keys.child)
    × (child.tenant ≡ source.tenant)
    × (d' ≡ split_off source child ids actor keys d)

module _ (z : Zones) (tenant : Tenant) where
  initialize_sla-pk :
      (policies : List SlaPolicy) (now : ℕ) (t : Ticket)
      → (initialize_sla z tenant policies now t).pk ≡ t.pk
  unfolding initialize_sla
  initialize_sla-pk policies now t = ground arith

  split_with-IsSplit :
      (policies : List SlaPolicy) (o : Option Status) (queues : List ℕ) (source : Filed)
      (ids : List ℕ) (actor : ℕ) (fields : NewTicket) (keys : Keys) (now : ℕ) (d : Desk)
      (child : Filed) (d' : Desk)
      → split_with z tenant policies o queues source ids actor fields keys now d ≡ ok child d'
      → IsSplit source ids actor keys d child d'
  split_with-IsSplit policies none queues source ids actor fields keys now d child d' e = cc
  split_with-IsSplit policies (some status) queues source ids actor fields keys now d child d' e =
      elim (Option-cases (given_or fields.priority source.ticket.priority)) [
        | inl missing ↦ absurd (ground (arith, e, missing))
        | inr (p, given) ↦ ground (
          arith,
          e,
          given,
          initialize_sla-pk policies now (child_ticket source status p fields actor keys.child now),
        )
      ]

  split_ticket-IsSplit :
      (policies : List SlaPolicy) (statuses : List Status) (queues : List ℕ) (source : Filed)
      (ids : List ℕ) (actor : ℕ) (fields : NewTicket) (keys : Keys) (now : ℕ) (d : Desk)
      (child : Filed) (d' : Desk)
      → split_ticket z tenant policies statuses queues source ids actor fields keys now d
        ≡ ok child d'
      → IsSplit source ids actor keys d child d'
  unfolding split_ticket
  split_ticket-IsSplit policies statuses queues source [] actor fields keys now d child d' e = cc
  split_ticket-IsSplit policies statuses queues source (i ∷ ids) actor fields keys now d child d'
        e =
      split_with-IsSplit policies (default_status statuses) queues source (i ∷ ids) actor fields
        keys now d child d' (ground (arith, e))

-- The tables are as before, but for what the split and the merge add.
abbrev pub IsRejoined : Signal → Filed → Filed → ℕ → Keys → ℕ → Desk → Desk → Type 0
IsRejoined signal source child actor keys key d d'' =
    (d''.comments
      ≡ merge_comment source child actor key
        ∷ comment_to source.ticket.pk (child_comment source keys actor)
        ∷ source_comment source keys actor
        ∷ d.comments)
    × (d''.activities
        ≡ merge_activity source child actor key
          ∷ (map (signal_entry child) signal.entries
              ++ (activity_to source.ticket.pk (child_activity source keys actor)
                  ∷ source_activity source keys actor
                  ∷ d.activities)))
    × (d''.attachments ≡ d.attachments)

-- The tables after a split and a merge.
split_off-merged :
    (signal : Signal) (statuses : List Status) (source child : Filed) (ids : List ℕ)
    (actor key now : ℕ) (keys : Keys) (d : Desk)
    → child.ticket.pk ≡ keys.child
    → source.ticket.pk ≢ keys.child
    → NoneOf comment_of keys.child d.comments
    → NoneOf activity_of keys.child d.activities
    → NoneOf attachment_of keys.child d.attachments
    → IsRejoined signal source child actor keys key d (
        merged signal statuses source child actor key now (split_off source child ids actor keys d))
unfolding merged split_off update
split_off-merged signal statuses source child ids actor key now keys d e other cs as_ ats =
    let s = source.ticket.pk in
    (
      ground (arith, update-update s keys.child ids d.comments cs, e, other),
      ground
          (arith, update-none (activity_of keys.child) (activity_to s) d.activities as_, e, other),
      ground (
        arith,
        update-none (attachment_of keys.child) (attachment_to s) d.attachments ats,
        e,
        other,
      ),
    )

module _ (z : Zones) (tenant : Tenant) where
  -- When a split succeeds under a new key, with which no row of the tables hangs on a ticket, and the
  -- child is then merged into its source, the merge succeeds, and every comment, entry of the
  -- timeline and attachment of every ticket is back where it was; before them stand, on the source,
  -- the two comments and entries of the split, with the child's moved to it, and the entry of the
  -- merge, and on the child the comment about the merge and the entries that the pause signal of its
  -- save writes.
  pub split_ticket-merge_tickets :
      (signal : Signal) (policies : List SlaPolicy) (statuses : List Status) (queues : List ℕ)
      (source : Filed) (ids : List ℕ) (actor : ℕ) (fields : NewTicket) (keys : Keys) (now : ℕ)
      (d : Desk) (child : Filed) (d' : Desk) (key later : ℕ)
      → source.ticket.pk ≢ keys.child
      → NoneOf comment_of keys.child d.comments
      → NoneOf activity_of keys.child d.activities
      → NoneOf attachment_of keys.child d.attachments
      → split_ticket z tenant policies statuses queues source ids actor fields keys now d
        ≡ ok child d'
      → (d'' : Desk) × (merge_tickets signal statuses source child actor key later d'
          ≡ ok source d'')
        × IsRejoined signal source child actor keys key d d''
  unfolding merge_tickets
  split_ticket-merge_tickets signal policies statuses queues source ids actor fields keys now d
        child d' key later other cs as_ ats e =
      let (pk, same, split) =
        split_ticket-IsSplit z tenant policies statuses queues source ids actor fields keys now d
          child d' e in
      (
        merged signal statuses source child actor key later d',
        ground (arith, pk, same, other),
        subst
            (λ e.
              IsRejoined signal source child actor keys key d
                (merged signal statuses source child actor key later e))
            (sym split)
            (split_off-merged signal statuses source child ids actor key later keys d pk other cs
              as_ ats),
      )
