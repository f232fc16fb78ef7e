-- ===== src/Invitations/Consumed.antt =====
-- When a code is consumed.
use mathlib.Core.Option
use human_llm_gateway.Prelude.{
  ℕ, ◌+◌, ◌≤◌, ◌<◌, is_none, true, ◌≡◌, refl, ap, ◌∙◌, Bool, false, Option, none, some, List, arith,
  Bool-cases, inl, inr, if◌then◌else◌,
}
use human_llm_gateway.Table.Rows.{count_where, update_row, find_where}
use human_llm_gateway.Table.Counts.{count_mono, find-update, find-none, find-meets}
use human_llm_gateway.Table.Keys.{lone-met, lone-unmet}
use human_llm_gateway.Invitations.Codes

-- The code that a key names, as it can be used.
abbrev pub usable_code : ℕ → Option Codes.InvitationCode → Bool
usable_code now none = false
usable_code now (some r) = Codes.is_usable now r

-- The stored code behind a try to consume it.
abbrev pub after_consume : ℕ → Codes.InvitationCode → Codes.InvitationCode
after_consume now r = if Codes.is_usable now r then Codes.consume_values r else r

consumed-found :
    (now i : ℕ) (found : Option Codes.InvitationCode) (a : Codes.CodeDb)
    → count_where (Codes.code_has_id i) a.codes ≤ 1
    → Codes.get_code a i ≡ found
    → (Codes.atomic_consume now i a).0 ≡ usable_code now found
unfolding Codes.atomic_consume Codes.get_code
consumed-found now i none a unique found = ground (
  arith,
  find-none (Codes.code_has_id i) a.codes found,
  count_mono (Codes.consume_condition now i) (Codes.code_has_id i) a.codes (λ r. ground arith),
)
consumed-found now i (some r) a unique found =
    let p = Codes.consume_condition now i in
    let q = Codes.code_has_id i in
    let key = find-meets q a.codes r found in
    elim (Bool-cases (Codes.is_usable now r)) [
      | inl usable ↦
          rw
            (
              lone-met p q a.codes r (λ x h. ground arith) unique found (rw (key, usable) refl),
              usable,
            )
            refl
      | inr unusable ↦
          rw
            (
              lone-unmet p q a.codes r (λ x h. ground arith) unique found (rw (key, unusable) refl),
              unusable,
            )
            refl
    ]

consumed-row :
    (now i : ℕ) (found : Option Codes.InvitationCode) (rows : List Codes.InvitationCode)
    → find_where (Codes.code_has_id i) rows ≡ found
    → Option.map (update_row (Codes.consume_condition now i) Codes.consume_values) found
      ≡ Option.map (after_consume now) found
consumed-row now i none rows e = refl
consumed-row now i (some r) rows e = ap some (rw (find-meets (Codes.code_has_id i) rows r e) refl)

consumed-stored :
    (now i : ℕ) (a : Codes.CodeDb)
    → Codes.get_code (Codes.atomic_consume now i a).1 i
      ≡ Option.map (after_consume now) (Codes.get_code a i)
unfolding Codes.atomic_consume Codes.get_code
consumed-stored now i a =
    find-update (Codes.code_has_id i) (Codes.consume_condition now i) Codes.consume_values a.codes
      (λ r. ground arith)
    ∙ consumed-row now i (Codes.get_code a i) a.codes refl

-- The time of expiry, if there is one, lies ahead.
pub data Unexpired (now : ℕ) : Option ℕ → Type 0 where
  never : Unexpired now none
  ahead : {t : ℕ} → now < t → Unexpired now (some t)

-- Why a code cannot be consumed.
pub data Refusal (now : ℕ) (r : Codes.InvitationCode) : Type 0 where
  revoked : (t : ℕ) → r.revoked_at ≡ some t → Refusal now r
  expired : (t : ℕ) → r.expires_at ≡ some t → t ≤ now → Refusal now r
  used_up : r.max_uses ≤ r.used_count → Refusal now r

-- The code that was there, whether it was consumed, and the code that is there now.
pub data Consumption (now : ℕ)
    : Option Codes.InvitationCode → Bool → Option Codes.InvitationCode → Type 0 where
  consumed :
      (r : Codes.InvitationCode)
      → r.revoked_at ≡ none
      → Unexpired now r.expires_at
      → r.used_count < r.max_uses
      → Consumption now (some r) true (some (record r { used_count = r.used_count + 1 }))
  refused : (r : Codes.InvitationCode) → Refusal now r → Consumption now (some r) false (some r)
  missing : Consumption now none false none

none-is : (o : Option ℕ) → is_none o ≡ true → o ≡ none
none-is none h = refl
none-is (some t) h = cc

some-is : (o : Option ℕ) → is_none o ≡ false → (t : ℕ) × (o ≡ some t)
some-is none h = cc
some-is (some t) h = (t, refl)

unexpired : (now : ℕ) (o : Option ℕ) → Codes.not_past now o ≡ true → Unexpired now o
unexpired now none h = never
unexpired now (some t) h = ahead (ground arith)

past : (now : ℕ) (o : Option ℕ) → Codes.not_past now o ≡ false → (t : ℕ) × (o ≡ some t) × (t ≤ now)
past now none h = cc
past now (some t) h = (t, refl, ground arith)

refusal : (now : ℕ) (r : Codes.InvitationCode) → Codes.is_usable now r ≡ false → Refusal now r
refusal now r h = elim (Bool-cases (is_none r.revoked_at)) [
  | inl live ↦ elim (Bool-cases (Codes.not_past now r.expires_at)) [
    | inl in_time ↦ used_up (ground arith)
    | inr over ↦ let (t, e, le) = past now r.expires_at over in expired t e le
  ]
  | inr gone ↦ let (t, e) = some-is r.revoked_at gone in revoked t e
]

consumption :
    (now : ℕ) (r : Codes.InvitationCode)
    → Consumption now (some r) (Codes.is_usable now r) (some (after_consume now r))
consumption now r = elim (Bool-cases (Codes.is_usable now r)) [
  | inl usable ↦ rw usable (
      consumed r (none-is r.revoked_at (ground arith)) (unexpired now r.expires_at (ground arith))
        (ground arith))
  | inr unusable ↦ rw unusable (refused r (refusal now r unusable))
]

found-Consumption :
    (now : ℕ) (found : Option Codes.InvitationCode)
    → Consumption now found (usable_code now found) (Option.map (after_consume now) found)
found-Consumption now none = missing
found-Consumption now (some r) = consumption now r

-- Where a key names one code at most, a try to consume it succeeds if the code is there, is not
-- revoked, has not expired and has a use left, and adds one use to it and changes nothing else
-- in it; and it fails and leaves the code as it is, if the code is not there, is revoked, has
-- expired or has no use left.
pub atomic_consume_lem :
    (now i : ℕ) (a : Codes.CodeDb)
    → count_where (Codes.code_has_id i) a.codes ≤ 1
    → Consumption now
        (Codes.get_code a i)
        (Codes.atomic_consume now i a).0
        (Codes.get_code (Codes.atomic_consume now i a).1 i)
atomic_consume_lem now i a unique =
    rw (consumed-found now i (Codes.get_code a i) a unique refl, consumed-stored now i a)
      (found-Consumption now (Codes.get_code a i))
