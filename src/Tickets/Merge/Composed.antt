-- ===== src/Tickets/Merge/Composed.antt =====
-- apps/tickets/signals.py in a merge: what `handle_sla_pause_on_status_change` writes in the save of
-- the secondary ticket. The keys of its entries follow the given one.
use kanzan.Prelude.{arith, ◌≡◌, ℕ, ◌+◌, Bool, true, false, Option, none, some, List, [], ◌∷◌, ◌++◌}
use kanzan.Sla.Clock.{Zones, Tenant}
use kanzan.Sla.Count.{Pause}
use kanzan.Tickets.Rows.{Status, Event, Effect}
use kanzan.Tickets.Status.{pauses}
use kanzan.Tickets.Pause.{Clock, handle_sla_pause}
use kanzan.Tickets.Merge.{Filed, Desk, Outcome, Signal, closed_by, first_closed, merge_tickets}

-- The entries of the timeline: `log_sla_change` writes one too.
abbrev pub entries : ℕ → List Effect → List (ℕ × Event)
entries key [] = []
entries key (Effect.ticket_activity e ∷ effects) = entries (key + 1) effects ++ ((key, e) ∷ [])
entries key (Effect.log_sla_change a b ∷ effects) =
    entries (key + 1) effects ++ ((key, Event.status_changed) ∷ [])
entries key (_ ∷ effects) = entries key effects

abbrev pub moves_dues : List Effect → Bool
moves_dues [] = false
moves_dues (Effect.log_sla_change a b ∷ effects) = true
moves_dues (_ ∷ effects) = moves_dues effects

abbrev pub pauses_or_resumes : List Effect → Bool
pauses_or_resumes [] = false
pauses_or_resumes (Effect.ticket_activity e ∷ effects) = true
pauses_or_resumes (_ ∷ effects) = pauses_or_resumes effects

abbrev pub when {ℓ} : {A : Type ℓ} → Bool → A → Option A
when true a = some a
when false a = none

-- The fields that are saved are those of the instance.
unfoldable pub signal_of : ℕ → Clock × List Effect → Signal
signal_of key (s, effects) = record {
  paused_at = when (pauses_or_resumes effects) s.ticket.sla_paused_at;
  dues = when (moves_dues effects) (s.ticket.sla_first_response_due, s.ticket.sla_resolution_due);
  entries = entries key effects;
}

module _ (z : Zones) (tenant : Tenant) where
  -- `merge_tickets` with the pauses of the secondary ticket; none when the signal raises, and all is
  -- rolled back
  unfoldable pub merge_with_pauses :
      List Pause → List Status → Filed → Filed → ℕ → ℕ → ℕ → Desk → Option (Outcome Filed)
  merge_with_pauses rows statuses primary secondary actor key now d =
      elim (handle_sla_pause z tenant (pauses secondary.ticket.status) now
        (record { ticket = closed_by (first_closed statuses) now secondary.ticket; rows = rows })) [
          | none ↦ none
          | some r ↦
              some (merge_tickets (signal_of key r) statuses primary secondary actor key now d)
        ]

  -- Where neither the status that the secondary ticket leaves nor the one it is closed with pauses
  -- the clock, the signal writes nothing.
  merge_with_pauses_quiet :
      (rows : List Pause) (statuses : List Status) (primary secondary : Filed) (actor key now : ℕ)
      (d : Desk)
      → pauses secondary.ticket.status ≡ false
      → pauses (closed_by (first_closed statuses) now secondary.ticket).status ≡ false
      → merge_with_pauses rows statuses primary secondary actor key now d
        ≡ some (
            merge_tickets
              (record { paused_at = none; dues = none; entries = [] })
              statuses
              primary
              secondary
              actor
              key
              now
              d)
  unfolding merge_with_pauses signal_of handle_sla_pause
  merge_with_pauses_quiet rows statuses primary secondary actor key now d old new =
      ground (arith, old, new)
