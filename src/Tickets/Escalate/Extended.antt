-- ===== src/Tickets/Escalate/Extended.antt =====
-- How far an escalation moves a deadline (apps/tickets/services.py, apps/tickets/sla.py).
use kanzan.Prelude.{
  ℕ, ◌-◌, ◌*◌, ◌/◌, ◌≤◌, min, max, ◌≡◌, ◌⊎◌, refl, Option, none, some, leb, if◌then◌else◌, arith,
  inl, inr,
}
use kanzan.Prelude.Int.{pos}
use kanzan.Sla.Clock.{Zones, Tenant, minute, get_business_config}
use kanzan.Sla.Count.{elapsed_business_minutes}
use kanzan.Sla.Add.{add_business_time}
use kanzan.Sla.Add.Elapsed.{HasRoom, ConvertsBack, elapsed_business_minutes-add_business_time}
use kanzan.Tickets.Escalate.{min_extension, extend_deadline}

-- What the extension starts from: a deadline that is still to come, or else the time of the
-- escalation.
abbrev pub base : ℕ → Option ℕ → ℕ
base now none = now
base now (some due) = if leb due now then now else due

-- The extension: the policy's time where there was no deadline, the grace where it has passed, and
-- otherwise half of the remaining time within its bounds.
abbrev pub extension : ℕ → Option ℕ → ℕ → ℕ
extension now none policy_minutes = policy_minutes * minute
extension now (some due) policy_minutes =
    if leb due now
    then min_extension
    else max min_extension (min ((due - now) / 2) (policy_minutes * minute))

module _ (z : Zones) (tenant : Tenant) where
  extend_deadline-base :
      (now : ℕ) (due : Option ℕ) (policy_minutes : ℕ)
      → extend_deadline z tenant now due policy_minutes
        ≡ add_business_time z (base now due) (extension now due policy_minutes) tenant
  unfolding extend_deadline
  extend_deadline-base now none policy_minutes = refl
  extend_deadline-base now (some due) policy_minutes = ground arith

  extension_bounds :
      (now : ℕ) (due : Option ℕ) (policy_minutes : ℕ)
      → (extension now due policy_minutes ≤ max min_extension (policy_minutes * minute))
        × ((due ≡ none) ⊎ (min_extension ≤ extension now due policy_minutes))
  extension_bounds now none policy_minutes = (omega arith, inl refl)
  extension_bounds now (some due) policy_minutes = (ground arith, inr (ground arith))

  -- Where the business hours leave room for it, an escalation puts a deadline after the later of
  -- the time of the escalation and the old deadline, by a business time of at most the policy's
  -- minutes or 15, whichever is more, and, where a deadline was set before, of at least 15 minutes.
  pub extend_deadline_bounds :
      (now : ℕ) (due : Option ℕ) (policy_minutes : ℕ)
      → HasRoom z (extension now due policy_minutes) (get_business_config z tenant)
      → ConvertsBack z
          (base now due)
          (extension now due policy_minutes)
          (get_business_config z tenant)
      → (n : ℕ) × (elapsed_business_minutes z
            (base now due)
            (extend_deadline z tenant now due policy_minutes)
            (some tenant)
          ≡ some (pos n))
        × (n ≤ max min_extension (policy_minutes * minute))
        × ((due ≡ none) ⊎ (min_extension ≤ n))
  extend_deadline_bounds now due policy_minutes room same =
      let n = extension now due policy_minutes in
      let b = extension_bounds now due policy_minutes in
      (
        n,
        rw (extend_deadline-base now due policy_minutes)
            (elapsed_business_minutes-add_business_time z tenant (base now due) n room same),
        b.0,
        b.1,
      )
