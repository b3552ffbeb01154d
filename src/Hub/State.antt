-- ===== src/Hub/State.antt =====
-- apps/inbox_hub/state_machine.py and HubEmail.State of apps/inbox_hub/models.py.
pub mod Graph
use kanzan.Prelude.{ℕ, Bool, true, false, List, [], ◌∷◌, ◌==◌, if◌then◌else◌, any}

pub data State : Type 0 where
  new assigned in_progress pending_agent awaiting_customer : State
  escalated resolved converted_to_ticket dismissed : State

abbrev number : State → ℕ
number new = 0
number assigned = 1
number in_progress = 2
number pending_agent = 3
number awaiting_customer = 4
number escalated = 5
number resolved = 6
number converted_to_ticket = 7
number dismissed = 8

-- `a == b`
unfoldable pub same_state : State → State → Bool
same_state a b = number a == number b

-- `ALLOWED_TRANSITIONS`
unfoldable pub allowed_transitions : State → List State
allowed_transitions new = assigned ∷ escalated ∷ dismissed ∷ converted_to_ticket ∷ []
allowed_transitions assigned =
    new ∷ in_progress ∷ pending_agent ∷ awaiting_customer ∷ escalated ∷ resolved ∷ dismissed
    ∷ converted_to_ticket ∷ []
allowed_transitions in_progress =
    pending_agent ∷ awaiting_customer ∷ escalated ∷ resolved ∷ dismissed ∷ converted_to_ticket ∷ []
allowed_transitions pending_agent =
    in_progress ∷ awaiting_customer ∷ escalated ∷ resolved ∷ dismissed ∷ converted_to_ticket ∷ []
allowed_transitions awaiting_customer =
    in_progress ∷ pending_agent ∷ escalated ∷ resolved ∷ dismissed ∷ converted_to_ticket ∷ []
allowed_transitions escalated =
    assigned ∷ in_progress ∷ resolved ∷ dismissed ∷ converted_to_ticket ∷ []
allowed_transitions resolved = in_progress ∷ converted_to_ticket ∷ dismissed ∷ []
allowed_transitions converted_to_ticket = []
allowed_transitions dismissed = []

unfoldable pub can_transition : State → State → Bool
unfolding same_state allowed_transitions
can_transition old_state new_state =
    if same_state old_state new_state
    then false
    else any (λ s. same_state s new_state) (allowed_transitions old_state)

-- A row in one of these states is closed.
abbrev pub is_terminal : State → Bool
is_terminal converted_to_ticket = true
is_terminal dismissed = true
is_terminal _ = false
