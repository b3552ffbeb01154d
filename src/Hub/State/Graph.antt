-- ===== src/Hub/State/Graph.antt =====
-- The life cycle of apps/inbox_hub/state_machine.py as a relation.
use kanzan.Prelude.{◌≡◌, refl, true, false, arith, not}
use kanzan.Hub.State.{
  State, converted_to_ticket, dismissed, same_state, can_transition, is_terminal,
}

pub same_state_sound : (a b : State) → same_state a b ≡ true → a ≡ b
unfolding same_state
same_state_sound a b h = ground arith

-- The legal changes of state, one after another.
pub data Reach : State → State → Type 0 where
  here : {s : State} → Reach s s
  step : {s t u : State} → can_transition s t ≡ true → Reach t u → Reach s u

can_transition-terminal : (s t : State) → is_terminal s ≡ true → can_transition s t ≡ false
unfolding can_transition
can_transition-terminal s t h = ground arith

can_transition-dismissed : (s : State) → can_transition s dismissed ≡ not (is_terminal s)
unfolding can_transition
can_transition-dismissed s = ground arith

pub can_transition-converted_to_ticket :
    (s : State) → can_transition s converted_to_ticket ≡ not (is_terminal s)
unfolding can_transition
can_transition-converted_to_ticket s = ground arith

-- A state can be left for each of the two terminal states exactly if it is not terminal itself.
can_transition-finish :
    (s : State)
    → (can_transition s dismissed ≡ not (is_terminal s))
      × (can_transition s converted_to_ticket ≡ not (is_terminal s))
can_transition-finish s = (can_transition-dismissed s, can_transition-converted_to_ticket s)

-- A terminal state is kept by every sequence of legal changes of state.
Reach-is_terminal : (s t : State) → is_terminal s ≡ true → Reach s t → s ≡ t
Reach-is_terminal s t h here = refl
Reach-is_terminal s t h (step {t = u} ok r) = cc (can_transition-terminal s u h)
