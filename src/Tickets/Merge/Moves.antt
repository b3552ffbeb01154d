-- ===== src/Tickets/Merge/Moves.antt =====
-- Where the rows of a ticket are after it is merged into another one (apps/tickets/services.py).
use kanzan.Prelude.{
  ℕ, ◌≡◌, ◌≢◌, refl, ap, Bool, true, false, ◌||◌, List, [], ◌∷◌, ◌++◌, ◌==◌, if◌then◌else◌, keep,
  map, arith, Bool-cases, inl, inr,
}
use kanzan.Tickets.Rows.{Status, Event}
use kanzan.Tickets.Merge.{
  Filed, Signal, signal_entry, Comment, Activity, Attachment, Desk, update, comment_of, comment_to,
  activity_of, activity_to, attachment_of, attachment_to, merged, merge_tickets, merge_comment,
  merge_activity, ok, merge_tickets, merge_comment, merge_activity, ok,
}

-- A table whose rows hang on tickets: the test whether a row hangs on one, and the move to one.
pub record Hanging (A : Type 0) : Type 0 where
  pub of : ℕ → A → Bool
  pub to : ℕ → A → A
  pub of-to : (s p x : ℕ) (a : A) → of s a ≡ true → of x (to p a) ≡ (p == x)
  pub of_one : (s x : ℕ) (a : A) → of s a ≡ true → of x a ≡ (s == x)
  pub to_self : (p : ℕ) (a : A) → of p a ≡ true → to p a ≡ a

module _ {A : Type 0} (h : Hanging A) where
  -- The rows of a ticket, where those of `s` were moved to `p`.
  abbrev pub rows_after : ℕ → ℕ → ℕ → List A → List A
  rows_after s p x l =
      if x == p
      then map (h.to p) (keep (λ a. h.of p a || h.of s a) l)
      else if x == s
      then []
      else keep (h.of x) l

  pub keep-update :
      (s p x : ℕ) (l : List A)
      → p ≢ s
      → keep (h.of x) (update (h.of s) (h.to p) l) ≡ rows_after s p x l
  unfolding update
  keep-update s p x [] other = ground arith
  keep-update s p x (a ∷ l) other = elim (Bool-cases (h.of s a)) [
    | inl e ↦
        ground (
          arith,
          keep-update s p x l other,
          h.of-to s p x a e,
          h.of_one s x a e,
          h.of_one s p a e,
          e,
        )
    | inr e ↦ elim (Bool-cases (h.of p a)) [
      | inl f ↦ ground (arith, keep-update s p x l other, h.of_one p x a f, h.to_self p a f, e, f)
      | inr f ↦ ground (arith, keep-update s p x l other, e, f)
    ]
  ]

pub comment_of-to :
    (s p x : ℕ) (c : Comment) → comment_of s c ≡ true → comment_of x (comment_to p c) ≡ (p == x)
comment_of-to s p x c e = ground arith

pub comment_of_one : (s x : ℕ) (c : Comment) → comment_of s c ≡ true → comment_of x c ≡ (s == x)
comment_of_one s x c e = ground arith

pub comment_to_self : (p : ℕ) (c : Comment) → comment_of p c ≡ true → comment_to p c ≡ c
comment_to_self p c e =
    let same : p ≡ c.object_id = ground arith in ap (λ t. record c { object_id = t }) same

abbrev pub comments : Hanging Comment
comments = record {
  of = comment_of;
  to = comment_to;
  of-to = comment_of-to;
  of_one = comment_of_one;
  to_self = comment_to_self;
}

pub activity_of-to :
    (s p x : ℕ) (a : Activity) → activity_of s a ≡ true → activity_of x (activity_to p a) ≡ (p == x)
activity_of-to s p x a e = refl

pub activity_of_one : (s x : ℕ) (a : Activity) → activity_of s a ≡ true → activity_of x a ≡ (s == x)
activity_of_one s x a e = ground arith

pub activity_to_self : (p : ℕ) (a : Activity) → activity_of p a ≡ true → activity_to p a ≡ a
activity_to_self p a e =
    let same : p ≡ a.ticket = ground arith in ap (λ t. record a { ticket = t }) same

abbrev pub activities : Hanging Activity
activities = record {
  of = activity_of;
  to = activity_to;
  of-to = activity_of-to;
  of_one = activity_of_one;
  to_self = activity_to_self;
}

pub attachment_of-to :
    (s p x : ℕ) (a : Attachment)
    → attachment_of s a ≡ true
    → attachment_of x (attachment_to p a) ≡ (p == x)
attachment_of-to s p x a e = ground arith

pub attachment_of_one :
    (s x : ℕ) (a : Attachment) → attachment_of s a ≡ true → attachment_of x a ≡ (s == x)
attachment_of_one s x a e = ground arith

pub attachment_to_self : (p : ℕ) (a : Attachment) → attachment_of p a ≡ true → attachment_to p a ≡ a
attachment_to_self p a e =
    let same : p ≡ a.object_id = ground arith in ap (λ t. record a { object_id = t }) same

abbrev pub attachments : Hanging Attachment
attachments = record {
  of = attachment_of;
  to = attachment_to;
  of-to = attachment_of-to;
  of_one = attachment_of_one;
  to_self = attachment_to_self;
}

-- The entries of the signal are those of the secondary ticket.
keep-signal_entry :
    (x : ℕ) (secondary : Filed) (es : List (ℕ × Event)) (l : List Activity)
    → keep (activity_of x) (map (signal_entry secondary) es ++ l)
      ≡ (if x == secondary.ticket.pk then map (signal_entry secondary) es else [])
        ++ keep (activity_of x) l
keep-signal_entry x secondary [] l = ground arith
keep-signal_entry x secondary (e ∷ es) l = ground (arith, keep-signal_entry x secondary es l)

append_nil : {A : Type 0} (l : List A) → l ++ [] ≡ l
append_nil [] = refl
append_nil (a ∷ l) = ground (arith, append_nil l)

keep-merged_activities :
    (signal : Signal) (primary secondary : Filed) (actor key x : ℕ) (l : List Activity)
    → primary.ticket.pk ≢ secondary.ticket.pk
    → let p = primary.ticket.pk in
      let s = secondary.ticket.pk in
      keep (activity_of x) (
        merge_activity primary secondary actor key
        ∷ (map (signal_entry secondary) signal.entries ++ update (activity_of s) (activity_to p) l))
      ≡ (if x == p
          then merge_activity primary secondary actor key
            ∷ map (activity_to p) (keep (λ a. activity_of p a || activity_of s a) l)
          else if x == s
          then map (signal_entry secondary) signal.entries
          else keep (activity_of x) l)
keep-merged_activities signal primary secondary actor key x l other =
    let p = primary.ticket.pk in
    let s = secondary.ticket.pk in
    let entries = map (signal_entry secondary) signal.entries in
    let tail = update (activity_of s) (activity_to p) l in
    let split = keep-signal_entry x secondary signal.entries tail in
    let moved = keep-update activities s p x l other in
    elim (Bool-cases (x == p)) [
      | inl at ↦
          let not_s : (x == s) ≡ false = ground (arith, other) in
          let own : (p == x) ≡ true = ground arith in rw (own, split, moved, at, not_s) refl
      | inr away ↦
          let not_own : (p == x) ≡ false = ground arith in
          elim (Bool-cases (x == s)) [
            | inl at_s ↦ rw (not_own, split, moved, away, at_s) (append_nil entries)
            | inr off ↦ rw (not_own, split, moved, away, off) refl
          ]
    ]

-- When a ticket is merged into another one of its tenant, the comments of the secondary ticket, its
-- entries of the timeline and its attachments hang on the primary one, between those that hung
-- there before, in their order and otherwise unchanged; the secondary ticket keeps only the comment
-- about the merge and the entries that the pause signal of its save writes, the primary one has the
-- entry about the merge, and the rows of every other ticket stay.
pub merge_tickets-rows_after :
    (signal : Signal) (statuses : List Status) (primary secondary : Filed) (actor key now x : ℕ)
    (d : Desk)
    → primary.ticket.pk ≢ secondary.ticket.pk
    → primary.tenant ≡ secondary.tenant
    → let p = primary.ticket.pk in
      let s = secondary.ticket.pk in
      (d' : Desk) × (merge_tickets signal statuses primary secondary actor key now d
        ≡ ok primary d')
      × (keep (comment_of x) d'.comments ≡ (
          if x == p
          then map (comment_to p) (keep (λ c. comment_of p c || comment_of s c) d.comments)
          else if x == s
          then merge_comment primary secondary actor key ∷ []
          else keep (comment_of x) d.comments))
      × (keep (activity_of x) d'.activities ≡ (
          if x == p
          then merge_activity primary secondary actor key
            ∷ map (activity_to p) (keep (λ a. activity_of p a || activity_of s a) d.activities)
          else if x == s
          then map (signal_entry secondary) signal.entries
          else keep (activity_of x) d.activities))
      × (keep (attachment_of x) d'.attachments ≡ (
          if x == p
          then map
              (attachment_to p)
              (keep (λ a. attachment_of p a || attachment_of s a) d.attachments)
          else if x == s
          then []
          else keep (attachment_of x) d.attachments))
unfolding merge_tickets merged
merge_tickets-rows_after signal statuses primary secondary actor key now x d other same =
    let p = primary.ticket.pk in
    let s = secondary.ticket.pk in
    (
      merged signal statuses primary secondary actor key now d,
      ground arith,
      ground (arith, keep-update comments s p x d.comments other),
      keep-merged_activities signal primary secondary actor key x d.activities other,
      keep-update attachments s p x d.attachments other,
    )
