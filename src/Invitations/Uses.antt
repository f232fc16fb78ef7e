-- ===== src/Invitations/Uses.antt =====
-- How often a code is used.
use human_llm_gateway.Prelude.{
  ℕ, ◌+◌, ◌≤◌, ◌≡◌, sym, String, Bool, true, false, ◌||◌, Option, none, some, List, [], ◌∷◌, ◌==◌,
  ltb, bit, arith, All, Bool-cases, inl, inr, is_none, not, if-holds,
}
use mathlib.Core.Path.{subst}
use human_llm_gateway.Result.{
  ok, integrity_error, >>=-eq-ok, ok-injective, refuse_if-passed, refuse_if-last,
}
use human_llm_gateway.Table.Rows.{count_where, update_where, update_row, delete_where, find_where}
use human_llm_gateway.Table.Counts.{All-update}
use human_llm_gateway.Invitations.Codes

abbrev pub IsWithin : Codes.InvitationCode → Type 0
IsWithin r =
    (1 ≤ r.max_uses) × (r.used_count ≤ r.max_uses) × (r.max_uses ≤ Codes.max_invitation_uses)

-- Every code allows one use to a thousand, and was used no more often.
abbrev pub IsBounded : Codes.CodeDb → Type 0
IsBounded db = All IsWithin db.codes

-- The calls that write the table of codes.
pub data CodeStep (a b : Codes.CodeDb) : Type 0 where
  created :
      (now : ℕ) (code : Codes.NewCode) (actor : ℕ) (note : Option String) (expires_at : Option ℕ)
      (max_uses : ℕ) (row : Codes.InvitationCode)
      → Codes.create now code actor note expires_at max_uses a ≡ ok (row, b)
      → CodeStep a b
  updated :
      (now : ℕ) (row : Codes.InvitationCode) (actor : ℕ) (fields : Codes.CodeFields)
      → Codes.update now row actor fields a ≡ ok b
      → CodeStep a b
  revoked :
      (now : ℕ) (row : Codes.InvitationCode) (actor : ℕ)
      → b ≡ Codes.revoke now row actor a
      → CodeStep a b
  deleted :
      (row : Codes.InvitationCode) (actor : ℕ) → Codes.delete row actor a ≡ ok b → CodeStep a b
  consumed : (now i : ℕ) → b ≡ (Codes.atomic_consume now i a).1 → CodeStep a b

All-delete {ℓ κ} :
    {A : Type ℓ} (P : A → Type κ) (p : A → Bool) (xs : List A)
    → All P xs
    → All P (delete_where p xs)
All-delete P p [] h = tt
All-delete P p (x ∷ xs) h = elim (Bool-cases (p x)) [
  | inl gone ↦ rw gone (All-delete P p xs h.1)
  | inr kept ↦ rw kept (h.0, All-delete P p xs h.1)
]

create-IsBounded :
    (now : ℕ) (code : Codes.NewCode) (actor : ℕ) (note : Option String) (expires_at : Option ℕ)
    (max_uses : ℕ) (a : Codes.CodeDb) {r : Codes.InvitationCode × Codes.CodeDb}
    → IsBounded a
    → Codes.create now code actor note expires_at max_uses a ≡ ok r
    → IsBounded r.1
unfolding Codes.create Codes.audit_code
create-IsBounded now code actor text expires_at max_uses a bounded h =
    let (some_use, h1) = refuse_if-passed (max_uses == 0) _ _ h in
    let (few, h2) = refuse_if-passed (ltb Codes.max_invitation_uses max_uses) _ _ h1 in
    let (_, _, h3) = >>=-eq-ok (Codes.validate_expiry now expires_at) _ h2 in
    subst (λ (r : Codes.InvitationCode × Codes.CodeDb). IsBounded r.1) (ok-injective h3)
      ((ground arith, omega arith, ground arith), bounded)

-- The fields of an update that passed its tests.
uses_checked :
    (row : Codes.InvitationCode) (new : Option ℕ) (r : Codes.InvitationCode)
    → Codes.check_max_uses row new ≡ ok tt
    → (1 ≤ r.max_uses) × (r.max_uses ≤ Codes.max_invitation_uses)
    → (1 ≤ Codes.option_or r.max_uses new)
      × (Codes.option_or r.max_uses new ≤ Codes.max_invitation_uses)
uses_checked row none r h old = old
uses_checked row (some uses) r h old =
    let passed =
      refuse_if-last (uses == 0 || (ltb Codes.max_invitation_uses uses || ltb uses row.used_count))
        _ h in
    (ground arith, ground arith)

unbroken :
    (r : Codes.InvitationCode) (n : ℕ)
    → bit (Codes.breaks_check r) + n ≡ 0
    → r.used_count ≤ r.max_uses
unbroken r n h = ground (arith, h)

checked-IsWithin :
    (row : Codes.InvitationCode) (fields : Codes.CodeFields) (x : Codes.InvitationCode)
    → Codes.check_max_uses row fields.new_max_uses ≡ ok tt
    → IsWithin x
    → let y = update_row (Codes.code_has_id row.id) (Codes.field_values fields) x in
      y.used_count ≤ y.max_uses → IsWithin y
checked-IsWithin row fields x checked (low, used, high) =
    elim (Bool-cases (Codes.code_has_id row.id x)) [
      | inl met ↦ rw met (λ fits.
          let (low2, high2) = uses_checked row fields.new_max_uses x checked (low, high) in
          (low2, fits, high2))
      | inr other ↦ rw other (λ fits. (low, used, high))
    ]

checked-All :
    (row : Codes.InvitationCode) (fields : Codes.CodeFields) (rows : List Codes.InvitationCode)
    → Codes.check_max_uses row fields.new_max_uses ≡ ok tt
    → All IsWithin rows
    → let later = update_where (Codes.code_has_id row.id) (Codes.field_values fields) rows in
      count_where Codes.breaks_check later ≡ 0 → All IsWithin later
checked-All row fields [] checked h none_breaks = tt
checked-All row fields (x ∷ xs) checked (within, h) none_breaks = (
  checked-IsWithin row fields x checked within (
      unbroken (update_row (Codes.code_has_id row.id) (Codes.field_values fields) x)
        (count_where Codes.breaks_check
          (update_where (Codes.code_has_id row.id) (Codes.field_values fields) xs))
        none_breaks),
  checked-All row fields xs checked h (omega (arith, none_breaks)),
)

update-IsBounded :
    (now : ℕ) (row : Codes.InvitationCode) (actor : ℕ) (fields : Codes.CodeFields)
    (a : Codes.CodeDb) {b : Codes.CodeDb}
    → IsBounded a
    → Codes.update now row actor fields a ≡ ok b
    → IsBounded b
unfolding Codes.update Codes.audit_code
update-IsBounded now row actor fields a bounded h =
    let (_, _, h1) = >>=-eq-ok (Codes.check_expiry now fields.new_expires_at) _ h in
    let (_, checked, h2) = >>=-eq-ok (Codes.check_max_uses row fields.new_max_uses) _ h1 in
    let later = update_where (Codes.code_has_id row.id) (Codes.field_values fields) a.codes in
    let (stored, flushed, h3) = >>=-eq-ok (Codes.flush_codes later a) _ h2 in
    let (unbroken_all, made) =
      refuse_if-passed (not (count_where Codes.breaks_check later == 0)) integrity_error _
        flushed in
    let within = checked-All row fields a.codes checked bounded (ground (arith, unbroken_all)) in
    subst IsBounded (ok-injective h3) (
      if-holds IsBounded (Codes.has_fields fields) (subst IsBounded (ok-injective made) within)
        (subst IsBounded (ok-injective made) within))

audited-IsBounded :
    (i actor : ℕ) (x : Bool × Codes.CodeDb)
    → IsBounded x.1
    → IsBounded (Codes.audit_revoked i actor x) × IsBounded (Codes.audit_deleted i actor x)
unfolding Codes.audit_code
audited-IsBounded i actor (true, db) h = (h, h)
audited-IsBounded i actor (false, db) h = (h, h)

delete_found-IsBounded :
    (found : Option Codes.InvitationCode) (a : Codes.CodeDb)
    → IsBounded a
    → IsBounded (Codes.delete_found found a).1
delete_found-IsBounded none a bounded = bounded
delete_found-IsBounded (some row) a bounded =
    All-delete IsWithin (Codes.code_has_id row.id) a.codes bounded

consume-IsWithin :
    (now i : ℕ) (r : Codes.InvitationCode)
    → IsWithin r
    → IsWithin (update_row (Codes.consume_condition now i) Codes.consume_values r)
consume-IsWithin now i r (low, used, high) = elim (Bool-cases (Codes.consume_condition now i r)) [
  | inl met ↦ rw met (low, ground arith, high)
  | inr other ↦ rw other (low, used, high)
]

-- Where every invitation code allows one use to a thousand and was used no more often than it
-- allows, every call that writes the codes leaves it so.
pub CodeStep-IsBounded : {a b : Codes.CodeDb} → CodeStep a b → IsBounded a → IsBounded b
unfolding Codes.revoke Codes.revoke_row Codes.delete Codes.delete_row Codes.atomic_consume
CodeStep-IsBounded {a} (created now code actor text expires_at max_uses row h) bounded =
    create-IsBounded now code actor text expires_at max_uses a bounded h
CodeStep-IsBounded {a} (updated now row actor fields h) bounded =
    update-IsBounded now row actor fields a bounded h
CodeStep-IsBounded {a} (revoked now row actor e) bounded =
    subst IsBounded (sym e)
      (audited-IsBounded row.id actor (Codes.revoke_row now row.id a) (
        All-update IsWithin (Codes.revoke_condition row.id) (Codes.revoke_values now)
          (λ r h. if-holds IsWithin (Codes.revoke_condition row.id r) h h) a.codes bounded)).0
CodeStep-IsBounded {a} (deleted row actor h) bounded =
    let (_, made) = refuse_if-passed (is_none row.revoked_at) _ _ h in
    subst IsBounded (ok-injective made)
      (audited-IsBounded row.id actor (Codes.delete_row row.id a)
        (delete_found-IsBounded (find_where (Codes.is_revoked_code row.id) a.codes) a bounded)).1
CodeStep-IsBounded {a} (consumed now i e) bounded = subst IsBounded (sym e) (
    All-update IsWithin (Codes.consume_condition now i) Codes.consume_values
      (consume-IsWithin now i) a.codes bounded)
