-- ===== src/Tickets/Split/Tests.antt =====
-- A concrete split, taken back by a merge.
use kanzan.Prelude.{ℕ, ◌≡◌, ◌≢◌, ◌<◌, ◌↔◌, refl, true, none, some, [], ◌∷◌, length, arith}
use kanzan.Sla.Samples.{only_utc, shop_tenant}
use kanzan.Tickets.Rows.{Priority}
use kanzan.Tickets.Samples.{statuses, open_status, filed, desk}
use kanzan.Tickets.Merge.{Filed, Signal, Desk, merge_tickets, ok}
use kanzan.Tickets.Split.{
  NewTicket, Keys, all_belong, default_status, has_queue, split_off, child_of, split_ticket,
}
use kanzan.Tickets.Split.Accepts.{IsSelection, split_ticket_accepts}
use kanzan.Tickets.Split.Rejoins.{IsRejoined, split_ticket-merge_tickets}

abbrev fields : NewTicket
fields = record { subject = "toner"; queue = none; priority = some (some Priority.high) }

abbrev keys : Keys
keys = record { child = 33; number = 33; on_source = 8; on_child = 9 }

-- Neither status pauses the clock.
abbrev quiet : Signal
quiet = record { paused_at = none; dues = none; entries = [] }

abbrev child : Filed
child = child_of only_utc shop_tenant [] (filed 31) open_status Priority.high fields 4 keys 500

abbrev after_split : Desk
after_split = split_off (filed 31) child (1 ∷ []) 4 keys desk

split_of_one :
    split_ticket only_utc shop_tenant [] statuses [] (filed 31) (1 ∷ []) 4 fields keys 500 desk
    ≡ ok child after_split
unfolding split_ticket all_belong default_status
split_of_one = refl

split_ticket_accepts_example :
    ((c : Filed) × (d' : Desk) × (split_ticket only_utc shop_tenant [] statuses []
          (filed 31)
          (1 ∷ [])
          4
          fields
          keys
          500
          desk
        ≡ ok c d'))
    ↔ ((0 < length {A = ℕ} (1 ∷ []))
        × (0 < length statuses)
        × (has_queue [] none ≡ true)
        × (fields.priority ≢ some none)
        × IsSelection 31 desk.comments (1 ∷ []))
split_ticket_accepts_example =
    split_ticket_accepts only_utc shop_tenant [] statuses [] (filed 31) (1 ∷ []) 4 fields keys 500
      desk (ground arith)

split_ticket-merge_tickets_example :
    (d'' : Desk) × (merge_tickets quiet statuses (filed 31) child 4 10 600 after_split
      ≡ ok (filed 31) d'')
    × IsRejoined quiet (filed 31) child 4 keys 10 desk d''
split_ticket-merge_tickets_example =
    split_ticket-merge_tickets only_utc shop_tenant quiet [] statuses [] (filed 31) (1 ∷ []) 4
      fields keys 500 desk child after_split 10 600 (omega arith) (ground arith) tt tt split_of_one
