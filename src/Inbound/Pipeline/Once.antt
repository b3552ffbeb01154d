-- ===== src/Inbound/Pipeline/Once.antt =====
-- No message is delivered twice (apps/inbound_email/services.py and tasks.py).
use kanzan.Prelude.{
  ℕ, zero, suc, ◌≡◌, refl, sym, ap, ◌∙◌, Bool, true, Option, none, some, List, [], ◌∷◌, ◌==◌,
  if◌then◌else◌, All, map, keep, first, get_elem?, arith, Bool-cases, Option-cases, inl, inr,
}
use mathlib.Core.Path.{subst}
use kanzan.Inbound.Rows.{failed, processing, InboundEmail}
use kanzan.Inbound.Pipeline.{
  Db, Site, Step, accepted, is_waiting, write, written, handled, attempted, process_inbound_email,
  mark_inbound_failed, process_inbound_email_task,
}
use kanzan.Inbound.Pipeline.Unique.{IsOwn, IsHolder, IsClaimed, write-IsClaimed}
use kanzan.Inbound.Pipeline.Claims.{is_done, StepSettles, accepted-StepSettles}

-- What a transaction stores keeps the claims.
written-IsClaimed :
    (db : Db) (pk : ℕ) (e : InboundEmail) (o : Option Step) (after : Db)
    → IsClaimed db.emails
    → first (keep (λ r. r.pk == pk) db.emails) ≡ some e
    → StepSettles db (record e { status = processing }) o
    → written o ≡ some after
    → IsClaimed after.emails
written-IsClaimed db pk e none after c found s w = cc
written-IsClaimed db pk e (some (e', db')) after c found (s, same) w =
    let here : after ≡ record db' { emails = write e' db'.emails } = ground arith in
    let emails : write e' db.emails ≡ after.emails =
      ap (write e') (sym same) ∙ ap (λ (d : Db). d.emails) (sym here) in
    subst IsClaimed emails (write-IsClaimed db.emails pk e e' c found s)

handled-IsClaimed :
    (site : Site) (raced : Bool) (pk email : ℕ) (db : Db) (o : Option InboundEmail) (after : Db)
    → IsClaimed db.emails
    → first (keep (λ e. e.pk == email) db.emails) ≡ o
    → handled site raced pk db o ≡ some after
    → IsClaimed after.emails
handled-IsClaimed site raced pk email db none after c found h = cc
handled-IsClaimed site raced pk email db (some e) after c found h =
    elim (Bool-cases (is_waiting e.status)) [
      | inl waits ↦
          let taken = record e { status = processing } in
          written-IsClaimed db email e (accepted site raced pk taken db) after c found
            (accepted-StepSettles site raced pk taken db refl) (rw waits at h)
      | inr over ↦
          let same : db ≡ after = ground arith in subst (λ (d : Db). IsClaimed d.emails) same c
    ]

All-map-IsOwn :
    (email : ℕ) (es : List InboundEmail)
    → All IsOwn es
    → All IsOwn (map (λ e. if e.pk == email then record e { status = failed } else e) es)
All-map-IsOwn email [] h = tt
All-map-IsOwn email (e ∷ es) h = (
  elim (Bool-cases (e.pk == email)) [ inl here ↦ rw here (inl refl) | inr other ↦ rw other h.0 ],
  All-map-IsOwn email es h.1,
)

All-map-IsHolder :
    (email pk : ℕ) (k : ℕ × ℕ) (es : List InboundEmail)
    → All (IsHolder k pk) es
    → All (IsHolder k pk) (map (λ e. if e.pk == email then record e { status = failed } else e) es)
All-map-IsHolder email pk k [] h = tt
All-map-IsHolder email pk k (e ∷ es) h = (
  elim (Bool-cases (e.pk == email)) [ inl here ↦ rw here h.0 | inr other ↦ rw other h.0 ],
  All-map-IsHolder email pk k es h.1,
)

mark_inbound_failed-IsClaimed :
    (email : ℕ) (db : Db) → IsClaimed db.emails → IsClaimed (mark_inbound_failed email db).emails
unfolding mark_inbound_failed
mark_inbound_failed-IsClaimed email db c = record {
  own = All-map-IsOwn email db.emails c.own;
  unique = λ k. let (p, held) = c.unique k in (p, All-map-IsHolder email p k db.emails held);
}

process_inbound_email_task-IsClaimed :
    (site : Site) (last raced : Bool) (pk email : ℕ) (db : Db)
    → IsClaimed db.emails
    → IsClaimed (process_inbound_email_task site last raced pk email db).emails
unfolding process_inbound_email_task process_inbound_email
process_inbound_email_task-IsClaimed site last raced pk email db c =
    let o = first (keep (λ e. e.pk == email) db.emails) in
    elim (Option-cases (handled site raced pk db o)) [
      | inr (after, h) ↦
          subst (λ m. IsClaimed (attempted last email db m).emails) (sym h)
            (handled-IsClaimed site raced pk email db o after c refl h)
      | inl raises ↦
          subst (λ m. IsClaimed (attempted last email db m).emails) (sym raises)
            (elim (Bool-cases last) [
              | inl final ↦ rw final (mark_inbound_failed-IsClaimed email db c)
              | inr again ↦ rw again c
            ])
    ]

-- An attempt of the task: whether it is the last, whether another transaction stores the key in
-- between, the key of a new ticket, and the email.
abbrev pub Attempt : Type 0
Attempt = Bool × (Bool × (ℕ × ℕ))

-- Attempts one after another.
abbrev pub attempts : Site → List Attempt → Db → Db
attempts site [] db = db
attempts site ((last, (raced, (pk, email))) ∷ ts) db =
    attempts site ts (process_inbound_email_task site last raced pk email db)

attempts-IsClaimed :
    (site : Site) (ts : List Attempt) (db : Db)
    → IsClaimed db.emails
    → IsClaimed (attempts site ts db).emails
attempts-IsClaimed site [] db c = c
attempts-IsClaimed site ((last, (raced, (pk, email))) ∷ ts) db c =
    attempts-IsClaimed site ts (process_inbound_email_task site last raced pk email db)
      (process_inbound_email_task-IsClaimed site last raced pk email db c)

All-get_elem? {ℓ} :
    (P : InboundEmail → Type ℓ) (es : List InboundEmail) (i : ℕ) (e : InboundEmail)
    → get_elem? es i ≡ some e
    → All P es
    → P e
All-get_elem? P [] i e at h = cc
All-get_elem? P (r ∷ es) zero e at h = let same : r ≡ e = ground arith in subst P same h.0
All-get_elem? P (r ∷ es) (suc i) e at h = All-get_elem? P es i e at h.1

-- After any attempts of the task, with retries and races between them, on rows whose claims agree,
-- two rows that were delivered (as a ticket, a reply or a row of the hub) for one tenant and with
-- one message id are the same row.
pub attempts_once :
    (site : Site) (ts : List Attempt) (db : Db) (i j t : ℕ) (a b : InboundEmail)
    → IsClaimed db.emails
    → get_elem? (attempts site ts db).emails i ≡ some a
    → get_elem? (attempts site ts db).emails j ≡ some b
    → is_done a.status ≡ true
    → is_done b.status ≡ true
    → a.tenant ≡ some t
    → b.tenant ≡ some t
    → a.message_id ≡ b.message_id
    → a.pk ≡ b.pk
attempts_once site ts db i j t a b c at bt da d_b ta tb m =
    let es = (attempts site ts db).emails in
    let claims = attempts-IsClaimed site ts db c in
    let own_a = All-get_elem? IsOwn es i a at claims.own in
    let own_b = All-get_elem? IsOwn es j b bt claims.own in
    let (p, held) = claims.unique (t, a.message_id) in
    let held_a = All-get_elem? (IsHolder (t, a.message_id) p) es i a at held in
    let held_b = All-get_elem? (IsHolder (t, a.message_id) p) es j b bt held in ground arith
