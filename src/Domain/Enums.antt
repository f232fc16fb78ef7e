-- ===== src/Domain/Enums.antt =====
-- The enumerations of app/domain/enums.py that tasks, keys and users are made of, and the errors
-- of app/domain/errors.py.
use human_llm_gateway.Prelude.{
  ℕ, String, Bool, true, false, Option, List, [], ◌∷◌, ◌||◌, ◌≡◌, arith,
}

pub data UserRole : Type 0 where
  admin user : UserRole

pub data DeliveryMode : Type 0 where
  web im : DeliveryMode

pub data ReplyStrategy : Type 0 where
  human llm human_fallback_llm : ReplyStrategy

pub data InferenceProtocol : Type 0 where
  openai_chat openai_responses anthropic_messages type_safe_systemone : InferenceProtocol

pub data TaskState : Type 0 where
  received waiting_human forwarding_llm response_ready responding : TaskState
  completed failed timed_out cancelled : TaskState

pub data DraftSource : Type 0 where
  manual llm_source : DraftSource

pub data DraftState : Type 0 where
  editing submitted discarded : DraftState

pub data TaskEventType : Type 0 where
  created delivered reply_submitted reply_rejected_late fallback stream : TaskEventType
  completed failed cancelled timed_out : TaskEventType

pub data ActorType : Type 0 where
  system user im upstream caller : ActorType

pub data OutboxDeliveryState : Type 0 where
  pending delivered acked failed : OutboxDeliveryState

pub data ConnectionState : Type 0 where
  stopped starting online auth_required error : ConnectionState

pub data InboundResult : Type 0 where
  accepted duplicate late unbound unhandled bound : InboundResult

pub data DomainErrorCode : Type 0 where
  invalid_request invalid_api_key model_not_found rate_limit_exceeded : DomainErrorCode
  request_timeout payload_too_large upstream_error context_length_exceeded : DomainErrorCode
  unsupported_parameter conflict not_found forbidden unauthorized : DomainErrorCode
  validation_failed invalid_invitation : DomainErrorCode

-- The message texts are left out: the code and the status decide what a caller sees.
pub record DomainError : Type 0 where
  pub code : DomainErrorCode
  pub status_code : ℕ
  pub public_code : Option String

-- Equality of two states, as a test.
abbrev pub same_state : TaskState → TaskState → Bool
same_state received received = true
same_state waiting_human waiting_human = true
same_state forwarding_llm forwarding_llm = true
same_state response_ready response_ready = true
same_state responding responding = true
same_state TaskState.completed TaskState.completed = true
same_state TaskState.failed TaskState.failed = true
same_state TaskState.timed_out TaskState.timed_out = true
same_state TaskState.cancelled TaskState.cancelled = true
same_state _ _ = false

pub same_state_sound : (a b : TaskState) → same_state a b ≡ true → a ≡ b
same_state_sound a b h = ground arith

-- `state in {...}`
abbrev pub state_in : TaskState → List TaskState → Bool
state_in s [] = false
state_in s (x ∷ xs) = same_state s x || state_in s xs

abbrev pub is_human : ReplyStrategy → Bool
is_human human = true
is_human _ = false

abbrev pub is_llm : ReplyStrategy → Bool
is_llm llm = true
is_llm _ = false

abbrev pub is_admin : UserRole → Bool
is_admin admin = true
is_admin UserRole.user = false

abbrev pub is_editing : DraftState → Bool
is_editing editing = true
is_editing _ = false

abbrev pub is_pending : OutboxDeliveryState → Bool
is_pending pending = true
is_pending _ = false

abbrev pub is_responses : InferenceProtocol → Bool
is_responses openai_responses = true
is_responses _ = false

abbrev pub is_systemone : InferenceProtocol → Bool
is_systemone type_safe_systemone = true
is_systemone _ = false

abbrev pub is_im : DeliveryMode → Bool
is_im DeliveryMode.im = true
is_im web = false
