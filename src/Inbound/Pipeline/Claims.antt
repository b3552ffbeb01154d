-- ===== src/Inbound/Pipeline/Claims.antt =====
-- What a step does to the key of its row (apps/inbound_email/services.py).
use kanzan.Prelude.{
  ℕ, ◌≡◌, ◌⊎◌, refl, Bool, true, false, Option, none, some, List, Bool-cases, Option-cases, inl,
  inr,
}
use kanzan.Inbound.Rows.{
  Status, pending, processing, ticket_created, reply_added, parked_in_hub, sent, rejected, bounced,
  failed, InboundEmail, find_existing_ticket,
}
use kanzan.Inbound.Pipeline.{
  Db, Site, Verdict, legitimate, bounce, auto_reply, Step, tenant_of, bounced_for, routed,
  handle_bounce, add_reply_to_ticket, create_ticket_from_email, deliver, is_duplicate, claim,
  accepted, find_or_create_contact,
}

-- The email has been delivered.
abbrev pub is_done : Status → Bool
is_done pending = false
is_done processing = false
is_done ticket_created = true
is_done reply_added = true
is_done parked_in_hub = true
is_done sent = false
is_done rejected = false
is_done bounced = false
is_done failed = false

-- The step delivers the row under its key.
abbrev pub Holds : List InboundEmail → ℕ → InboundEmail → Type 0
Holds emails pk e' =
    (t : ℕ) × (e'.tenant ≡ some t)
    × (e'.idempotency_key ≡ some (t, e'.message_id))
    × (is_duplicate pk (t, e'.message_id) emails ≡ false)

abbrev pub StepHolds : Db → InboundEmail → Option Step → Type 0
StepHolds db e none = Unit {0}
StepHolds db e (some r) = (r.0.pk ≡ e.pk) × Holds db.emails e.pk r.0 × (r.1.emails ≡ db.emails)

-- The row of a step, against the row that it starts from: nothing is delivered and the key stays, or
-- the key is that of the row's tenant and message, and no other row has it.
abbrev pub Settles : List InboundEmail → InboundEmail → InboundEmail → Type 0
Settles emails e e' =
    (e'.pk ≡ e.pk)
    × (((e'.idempotency_key ≡ e.idempotency_key) × (is_done e'.status ≡ false))
        ⊎ Holds emails e.pk e')

-- The step settles its row, and leaves the other rows to the write at its end.
abbrev pub StepSettles : Db → InboundEmail → Option Step → Type 0
StepSettles db e none = Unit {0}
StepSettles db e (some r) = Settles db.emails e r.0 × (r.1.emails ≡ db.emails)

-- The row that a delivery starts from has its key.
abbrev pub HasKey : List InboundEmail → InboundEmail → ℕ → Type 0
HasKey emails e t =
    (e.tenant ≡ some t)
    × (e.idempotency_key ≡ some (t, e.message_id))
    × (is_duplicate e.pk (t, e.message_id) emails ≡ false)

add_reply_to_ticket-StepHolds :
    (ticket t : ℕ) (e : InboundEmail) (db : Db)
    → HasKey db.emails e t
    → StepHolds db e (some (add_reply_to_ticket ticket e db))
unfolding add_reply_to_ticket
add_reply_to_ticket-StepHolds ticket t e db (a, b, c) = elim (Bool-cases e.reply_is_empty) [
  | inl empty ↦ rw empty (refl, (t, a, b, c), refl)
  | inr text ↦ rw text (refl, (t, a, b, c), refl)
]

create_ticket_from_email-StepHolds :
    (site : Site) (pk tenant t : ℕ) (e : InboundEmail) (db : Db)
    → HasKey db.emails e t
    → StepHolds db e (create_ticket_from_email site pk tenant e db)
unfolding create_ticket_from_email
create_ticket_from_email-StepHolds site pk tenant t e db (a, b, c) =
    elim (Bool-cases (site.has_status tenant)) [
      | inl on ↦ rw on (refl, (t, a, b, c), refl)
      | inr off ↦ rw off tt
    ]

deliver-StepHolds :
    (site : Site) (pk t : ℕ) (e : InboundEmail) (db : Db)
    → HasKey db.emails e t
    → StepHolds db e (deliver site pk t e db)
unfolding deliver
deliver-StepHolds site pk t e db h =
    let known = record db { contacts = find_or_create_contact t e.sender db.contacts } in
    elim (Bool-cases (site.has_user t)) [
      | inr off ↦ rw off tt
      | inl on ↦ elim (Option-cases (find_existing_ticket db.emails db.tickets t e)) [
        | inr (ticket, found) ↦ rw (on, found) (add_reply_to_ticket-StepHolds ticket t e known h)
        | inl new ↦ elim (Bool-cases (site.inbox_hub_enabled t)) [
          | inl hub ↦ rw (on, new, hub) (refl, (t, h.0, h.1, h.2), refl)
          | inr direct ↦
              rw (on, new, direct) (create_ticket_from_email-StepHolds site pk t t e known h)
        ]
      ]
    ]

Settles_of_StepHolds :
    (db : Db) (e : InboundEmail) (o : Option Step) → StepHolds db e o → StepSettles db e o
Settles_of_StepHolds db e none h = tt
Settles_of_StepHolds db e (some r) (p, h, same) = ((p, inr h), same)

claim-StepSettles :
    (site : Site) (raced : Bool) (pk t : ℕ) (e : InboundEmail) (db : Db)
    → e.tenant ≡ some t
    → is_done e.status ≡ false
    → StepSettles db e (claim site raced pk t e db)
unfolding claim
claim-StepSettles site raced pk t e db at new =
    elim (Bool-cases (is_duplicate e.pk (t, e.message_id) db.emails)) [
      | inl twice ↦ rw twice ((refl, inl (refl, refl)), refl)
      | inr once ↦ elim (Bool-cases raced) [
        | inl lost ↦ rw (once, lost) tt
        | inr won ↦
            let keyed = record e { idempotency_key = some (t, e.message_id) } in
            rw (once, won)
              (Settles_of_StepHolds db e (deliver site pk t keyed db)
                (deliver-StepHolds site pk t keyed db (at, refl, once)))
      ]
    ]

bounced_for-StepSettles :
    (site : Site) (e : InboundEmail) (db : Db) (o : Option ℕ)
    → StepSettles db e (some (bounced_for site e db o))
bounced_for-StepSettles site e db none = ((refl, inl (refl, refl)), refl)
bounced_for-StepSettles site e db (some t) = ((refl, inl (refl, refl)), refl)

routed-StepSettles :
    (site : Site) (raced : Bool) (pk : ℕ) (e : InboundEmail) (db : Db) (v : Verdict) (o : Option ℕ)
    → is_done e.status ≡ false
    → StepSettles db e (routed site raced pk e db v o)
unfolding handle_bounce
routed-StepSettles site raced pk e db bounce o new =
    bounced_for-StepSettles site e db (tenant_of site e)
routed-StepSettles site raced pk e db auto_reply o new = ((refl, inl (refl, refl)), refl)
routed-StepSettles site raced pk e db legitimate none new = ((refl, inl (refl, refl)), refl)
routed-StepSettles site raced pk e db legitimate (some t) new =
    claim-StepSettles site raced pk t (record e { tenant = some t }) db refl new

-- Every step that is accepted settles its row.
pub accepted-StepSettles :
    (site : Site) (raced : Bool) (pk : ℕ) (e : InboundEmail) (db : Db)
    → is_done e.status ≡ false
    → StepSettles db e (accepted site raced pk e db)
unfolding accepted
accepted-StepSettles site raced pk e db new =
    routed-StepSettles site raced pk e db (site.verdict e) (tenant_of site e) new
