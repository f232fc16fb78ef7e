-- ===== src/Examples/Invitations.antt =====
-- A code with one use left.
use human_llm_gateway.Prelude.{true, refl, none, some, [], ◌∷◌, arith}
use human_llm_gateway.Invitations.Codes
use human_llm_gateway.Invitations.Uses.{IsBounded, consumed, CodeStep-IsBounded}
use human_llm_gateway.Invitations.Consumed.{Consumption, atomic_consume_lem}

abbrev code : Codes.InvitationCode
code = record {
  id = 1;
  created_by_user_id = 7;
  code_hash = "hash";
  code_prefix = "ABCDEFGH";
  note = none;
  max_uses = 3;
  used_count = 2;
  expires_at = some 100;
  revoked_at = none;
}

abbrev stored : Codes.CodeDb
stored = record { codes = code ∷ []; audits = [] }

stored-IsBounded : IsBounded stored
stored-IsBounded = ((omega arith, omega arith, omega arith), tt)

CodeStep-IsBounded_example : IsBounded (Codes.atomic_consume 50 1 stored).1
CodeStep-IsBounded_example = CodeStep-IsBounded (consumed 50 1 refl) stored-IsBounded

atomic_consume_lem_example : Consumption 50 (some code) true (some (record code { used_count = 3 }))
unfolding Codes.get_code Codes.atomic_consume
atomic_consume_lem_example = atomic_consume_lem 50 1 stored (omega arith)
