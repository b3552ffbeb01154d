-- ===== src/Tickets/Merge/Tests.antt =====
-- Merges of two concrete tickets.
use kanzan.Prelude.{none, some, ◌≡◌, refl, ◌||◌, [], ◌∷◌, ◌==◌, if◌then◌else◌, map, keep, arith}
use kanzan.Tickets.Rows.{Event}
use kanzan.Tickets.Samples.{closed_status, statuses, filed, desk}
use kanzan.Tickets.Merge.{
  Desk, Signal, signal_entry, comment_of, comment_to, activity_of, activity_to, attachment_of,
  attachment_to, merge_comment, merge_activity, merge_tickets, ok,
}
use kanzan.Tickets.Merge.Moves.{merge_tickets-rows_after}
use kanzan.Tickets.Merge.Twice.{row_of, IsMerged, merge_tickets_both_ways}

-- The signal of a save that ends a pause.
abbrev resuming : Signal
resuming = record { paused_at = some none; dues = none; entries = (21, Event.sla_resumed) ∷ [] }

merge_tickets-rows_after_example :
    (d' : Desk) × (merge_tickets resuming statuses (filed 31) (filed 32) 4 9 500 desk
      ≡ ok (filed 31) d')
    × (keep (comment_of 31) d'.comments ≡ (
        if 31 == 31
        then map (comment_to 31) (keep (λ c. comment_of 31 c || comment_of 32 c) desk.comments)
        else if 31 == 32
        then merge_comment (filed 31) (filed 32) 4 9 ∷ []
        else keep (comment_of 31) desk.comments))
    × (keep (activity_of 31) d'.activities ≡ (
        if 31 == 31
        then merge_activity (filed 31) (filed 32) 4 9
          ∷ map (activity_to 31) (keep (λ a. activity_of 31 a || activity_of 32 a) desk.activities)
        else if 31 == 32
        then map (signal_entry (filed 32)) resuming.entries
        else keep (activity_of 31) desk.activities))
    × (keep (attachment_of 31) d'.attachments ≡ (
        if 31 == 31
        then map
            (attachment_to 31)
            (keep (λ a. attachment_of 31 a || attachment_of 32 a) desk.attachments)
        else if 31 == 32
        then []
        else keep (attachment_of 31) desk.attachments))
merge_tickets-rows_after_example =
    merge_tickets-rows_after resuming statuses (filed 31) (filed 32) 4 9 500 31 desk (omega arith)
      refl

merge_tickets_both_ways_example :
    (d' : Desk) × (d'' : Desk) × (merge_tickets resuming statuses (filed 31) (filed 32) 4 9 500 desk
      ≡ ok (filed 31) d')
    × (merge_tickets resuming statuses (filed 32) (filed 31) 4 10 600 d' ≡ ok (filed 32) d'')
    × IsMerged closed_status 31 (row_of 32 d''.tickets)
    × IsMerged closed_status 32 (row_of 31 d''.tickets)
merge_tickets_both_ways_example =
    merge_tickets_both_ways resuming resuming statuses closed_status (filed 31) (filed 32)
      (filed 31) (filed 32) (filed 31) (filed 32) 4 9 10 500 600 desk refl (omega arith) refl refl
      refl refl refl refl
