-- ===== src/Result.antt =====
-- What a service call raises: a domain error, or an exception of Python's own. A raised error
-- carries no database, since the caller's transaction is not committed.
use mathlib.Core.Path.{subst}
use human_llm_gateway.Prelude.{◌≡◌, refl, ap, Bool, true, false, Option, none, some, ℕ, String}
use human_llm_gateway.Domain.Enums.{DomainError, DomainErrorCode}

pub data Failure : Type 0 where
  domain : DomainError → Failure
  value_error : Failure
  missing_row : Failure
  integrity_error : Failure

pub data Result {κ} (B : Type κ) : Type κ where
  err : Failure → Result B
  ok : B → Result B

infixl 5 ◌>>=◌ ◌>>◌
abbrev pub ◌>>=◌ {μ κ} : {B : Type μ} {C : Type κ} → Result B → (B → Result C) → Result C
err failure >>= next = err failure
ok b >>= next = next b

-- A call for its effect.
abbrev pub ◌>>◌ {κ} : {C : Type κ} → Result (Unit {0}) → Result C → Result C
call >> rest = call >>= λ nothing. rest

-- `raise DomainError(code, …, status_code=…)`
abbrev pub raise {ℓ} : {A : Type ℓ} → DomainErrorCode → ℕ → Result A
raise code status = err (domain (record { code = code; status_code = status; public_code = none }))

abbrev pub raise_public {ℓ} : {A : Type ℓ} → DomainErrorCode → ℕ → String → Result A
raise_public code status public =
    err (domain (record { code = code; status_code = status; public_code = some public }))

-- `if test: raise …`
abbrev pub refuse_if : Bool → Result (Unit {0}) → Result (Unit {0})
refuse_if true raised = raised
refuse_if false raised = ok tt

-- A row that must be there: `session.refresh`, `scalar_one`.
abbrev pub required {ℓ} : {A : Type ℓ} → Option A → Result A
required none = err missing_row
required (some a) = ok a

pub ok-injective {ℓ} : {A : Type ℓ} {a b : A} → ok a ≡ ok b → a ≡ b
ok-injective h = cc

-- What a successful chain of calls returned on the way.
pub >>=-eq-ok {μ κ} :
    {B : Type μ} {C : Type κ} (call : Result B) (next : B → Result C) {c : C}
    → (call >>= next) ≡ ok c
    → (b : B) × (call ≡ ok b) × (next b ≡ ok c)
>>=-eq-ok (err failure) next h = cc
>>=-eq-ok (ok b) next h = (b, refl, h)

-- A chain that succeeds has passed its test.
pub refuse_if-passed {ℓ} :
    {B : Type ℓ} (b : Bool) (e : Failure) (r : Result B) {x : B}
    → (refuse_if b (err e) >> r) ≡ ok x
    → (b ≡ false) × (r ≡ ok x)
refuse_if-passed true e r h = cc
refuse_if-passed false e r h = (refl, h)

pub refuse_if-last : (b : Bool) (e : Failure) → refuse_if b (err e) ≡ ok tt → b ≡ false
refuse_if-last true e h = cc
refuse_if-last false e h = refl

pub required-ok {ℓ} : {A : Type ℓ} (o : Option A) {a : A} → required o ≡ ok a → o ≡ some a
required-ok none h = cc
required-ok (some a) h = ap some (ok-injective h)

-- A property of the value, for a call that succeeds.
abbrev pub Returns {ℓ κ} : {B : Type ℓ} → (B → Type κ) → Result B → Type κ
Returns P (err failure) = Unit
Returns P (ok b) = P b

pub Returns->>= {ℓ μ κ} :
    {B : Type ℓ} {C : Type μ} (P : C → Type κ) (call : Result B) (next : B → Result C)
    → ((b : B) → Returns P (next b))
    → Returns P (call >>= next)
Returns->>= P (err failure) next h = tt
Returns->>= P (ok b) next h = h b

pub returned {ℓ κ} :
    {B : Type ℓ} (P : B → Type κ) (call : Result B) {b : B} → Returns P call → call ≡ ok b → P b
returned P (err failure) h e = cc
returned P (ok x) h e = subst P (ok-injective e) h

-- A property of the value, through a function of it.
pub Returns-map {ℓ μ κ ν} :
    {B : Type ℓ} {C : Type μ} (P : B → Type κ) (Q : C → Type ν) (f : B → C) (call : Result B)
    → ((b : B) → P b → Q (f b))
    → Returns P call
    → Returns Q (call >>= λ b. ok (f b))
Returns-map P Q f (err failure) step h = tt
Returns-map P Q f (ok b) step h = step b h
