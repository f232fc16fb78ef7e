-- ===== src/Domain/States.antt =====
-- app/domain/tasks.py: which task states are terminal, which hold a slot, and which single steps
-- the state machine allows.
use human_llm_gateway.Prelude.{Bool, false, List, [], ◌∷◌, if◌then◌else◌}
use human_llm_gateway.Domain.Enums.{
  TaskState, received, waiting_human, forwarding_llm, response_ready, responding, state_in,
}

abbrev pub terminal_states : List TaskState
terminal_states =
    TaskState.completed ∷ TaskState.failed ∷ TaskState.timed_out ∷ TaskState.cancelled ∷ []

abbrev pub slot_holding_states : List TaskState
slot_holding_states = received ∷ waiting_human ∷ forwarding_llm ∷ response_ready ∷ responding ∷ []

-- `_ALLOWED_TRANSITIONS.get(from_state, frozenset())`
abbrev pub allowed_transitions : TaskState → List TaskState
allowed_transitions received =
    waiting_human ∷ forwarding_llm ∷ TaskState.failed ∷ TaskState.cancelled ∷ []
allowed_transitions waiting_human =
    response_ready ∷ forwarding_llm ∷ TaskState.timed_out ∷ TaskState.failed ∷ TaskState.cancelled
    ∷ []
allowed_transitions forwarding_llm =
    response_ready ∷ responding ∷ TaskState.failed ∷ TaskState.cancelled ∷ []
allowed_transitions response_ready = responding ∷ TaskState.failed ∷ TaskState.cancelled ∷ []
allowed_transitions responding = TaskState.completed ∷ TaskState.failed ∷ TaskState.cancelled ∷ []
allowed_transitions _ = []

abbrev pub is_terminal : TaskState → Bool
is_terminal state = state_in state terminal_states

abbrev pub holds_slot : TaskState → Bool
holds_slot state = state_in state slot_holding_states

unfoldable pub can_transition : TaskState → TaskState → Bool
can_transition from_state to_state =
    if is_terminal from_state then false else state_in to_state (allowed_transitions from_state)
