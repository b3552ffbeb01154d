-- ===== src/Hub/Park/Idempotent.antt =====
-- Parking an email twice, and the deadlines it starts with (apps/inbox_hub/services.py).
use kanzan.Prelude.{
  ℕ, ◌+◌, ◌*◌, ◌≡◌, ◌⊎◌, refl, true, ◌==◌, Option, none, some, List, ◌∷◌, arith, inl, inr,
  Option-cases, ◌∙◌,
}
use kanzan.Sla.Clock.{minute}
use kanzan.Hub.Store.{HubEmail, Db, find, save}
use kanzan.Hub.Store.Rows.{find-save_self}
use kanzan.Hub.Park.{
  parked, new_row, mark_parked, announce, park_email_in_hub, HubEmailSla, queue_policy,
  department_policy, policy_of, with_deadlines, initialize_hub_sla,
}

same_key : (k : ℕ) → (k == k) ≡ true
same_key k = ground arith

parked_new :
    (pk inbound tenant : ℕ) (contact : Option ℕ) (es : List HubEmail)
    → parked inbound (new_row pk inbound tenant contact ∷ es)
      ≡ some (new_row pk inbound tenant contact)
unfolding parked
parked_new pk inbound tenant contact es = rw (same_key inbound) refl

parked_again :
    (inbound tenant user pk : ℕ) (contact : Option ℕ) (db : Db) (e : HubEmail)
    → parked inbound db.emails ≡ some e
    → park_email_in_hub inbound tenant contact user pk db ≡ (e, mark_parked inbound db)
unfolding park_email_in_hub
parked_again inbound tenant user pk contact db e h = rw (h, park_email_in_hub) refl

-- The tables after a first call.
created :
    (inbound tenant user pk : ℕ) (contact : Option ℕ) (db : Db)
    → parked inbound db.emails ≡ none
    → park_email_in_hub inbound tenant contact user pk db ≡ (
      new_row pk inbound tenant contact,
      announce (new_row pk inbound tenant contact) user (
          mark_parked inbound
            (record db { emails = new_row pk inbound tenant contact ∷ db.emails })),
    )
unfolding park_email_in_hub
created inbound tenant user pk contact db h = rw (h, park_email_in_hub) refl

-- After `park_email_in_hub` the email has its row, which the call returns. A further call for the
-- same email, whatever its other arguments, returns this row and only marks the email as parked
-- again: no row, log entry, broadcast or commit hook is added.
park_email_in_hub_twice :
    (inbound tenant tenant' user user' pk pk' : ℕ) (contact contact' : Option ℕ) (db : Db)
    → let (e, db') = park_email_in_hub inbound tenant contact user pk db in
      (parked inbound db'.emails ≡ some e)
      × (park_email_in_hub inbound tenant' contact' user' pk' db' ≡ (e, mark_parked inbound db'))
park_email_in_hub_twice inbound tenant tenant' user user' pk pk' contact contact' db =
    elim (Option-cases (parked inbound db.emails)) [
      | inr (e, h) ↦
          rw (parked_again inbound tenant user pk contact db e h)
            (h, parked_again inbound tenant' user' pk' contact' (mark_parked inbound db) e h)
      | inl h ↦
          let e = new_row pk inbound tenant contact in
          let here = parked_new pk inbound tenant contact db.emails in
          rw (created inbound tenant user pk contact db h)
            (here, parked_again inbound tenant' user' pk' contact' _ e here)
    ]

module _ (policies : List HubEmailSla) (e : HubEmail) where
  policy_of-queue_policy :
      (p : HubEmailSla) → queue_policy policies e ≡ some p → policy_of policies e ≡ some p
  unfolding policy_of
  policy_of-queue_policy p h = rw (h, policy_of) refl

  policy_of-department_policy :
      queue_policy policies e ≡ none → policy_of policies e ≡ department_policy policies e
  unfolding policy_of
  policy_of-department_policy h = rw (h, policy_of) refl

initialize_hub_sla-policy :
    (policies : List HubEmailSla) (e : HubEmail) (p : HubEmailSla) (now : ℕ) (db : Db)
    → policy_of policies e ≡ some p
    → initialize_hub_sla policies now e db
      ≡ (with_deadlines p now e, record db { emails = save e.pk (with_deadlines p now) db.emails })
unfolding initialize_hub_sla
initialize_hub_sla-policy policies e p now db h = rw (h, initialize_hub_sla) refl

-- A row that is up to date gets the deadlines of the policy of its queue and priority, whatever
-- the policies of its department are; without one, it gets those of its department's policy.
initialize_hub_sla-find :
    (policies : List HubEmailSla) (e : HubEmail) (p : HubEmailSla) (now : ℕ) (db : Db)
    → find e.pk db.emails ≡ some e
    → (queue_policy policies e ≡ some p)
      ⊎ ((queue_policy policies e ≡ none) × (department_policy policies e ≡ some p))
    → let (e', db') = initialize_hub_sla policies now e db in
      (find e.pk db'.emails ≡ some e')
      × (e'.sla_response_due_at ≡ some (now + p.response_minutes * minute))
      × (e'.sla_resolution_due_at ≡ some (now + p.resolution_minutes * minute))
initialize_hub_sla-find policies e p now db h (inl q) =
    rw (initialize_hub_sla-policy policies e p now db (policy_of-queue_policy policies e p q))
      (find-save_self e.pk (with_deadlines p now) e db.emails (λ r. refl) h, refl, refl)
initialize_hub_sla-find policies e p now db h (inr (q, d)) =
    rw
      (initialize_hub_sla-policy policies e p now db (policy_of-department_policy policies e q ∙ d))
      (find-save_self e.pk (with_deadlines p now) e db.emails (λ r. refl) h, refl, refl)
