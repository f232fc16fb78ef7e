-- ===== src/Examples/Results.antt =====
-- The value of a result that is known to be one.
use human_llm_gateway.Result.{Result, ok, err}

abbrev pub value_or {ℓ} : {A : Type ℓ} → A → Result A → A
value_or default (ok a) = a
value_or default (err e) = default
