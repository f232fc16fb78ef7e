-- ===== src/Invitations/Codes.antt =====
-- app/repositories/invitations.py and app/services/invitation_service.py, on the table of the codes
-- and the audit log. Numbers are not negative: a number of uses below one is refused as zero is. The
-- code with its prefix and its digest, the primary key, and the functions on texts that Unicode tables
-- or digests decide are arguments.
use text.Mathlib.Text.{◌==◌ as str_eq}
use human_llm_gateway.Prelude.{
  ℕ, ◌+◌, ◌*◌, String, Bool, true, false, ◌&&◌, ◌||◌, Option, none, some, List, [], ◌∷◌, ◌++◌, ◌==◌,
  ltb, leb, is_none, not, strip, stripped, take_chars, if◌then◌else◌,
}
use human_llm_gateway.Prelude.Text.{text_length}
use human_llm_gateway.Domain.Enums.{not_found, conflict, validation_failed, invalid_invitation}
use human_llm_gateway.Model.Db.{AuditEntry}
use human_llm_gateway.Result.{Result, ok, err, integrity_error, ◌>>=◌, ◌>>◌, raise, refuse_if}
use human_llm_gateway.Table.Rows.{count_where, update_where, select_where, delete_where, find_where}

-- app/repositories/models/auth.py, without the time of the last change, which nothing reads.
pub record InvitationCode : Type 0 where
  pub id : ℕ
  pub created_by_user_id : ℕ
  pub code_hash : String
  pub code_prefix : String
  pub note : Option String
  pub max_uses : ℕ
  pub used_count : ℕ
  pub expires_at : Option ℕ
  pub revoked_at : Option ℕ

pub record CodeDb : Type 0 where
  pub codes : List InvitationCode
  pub audits : List AuditEntry

abbrev pub code_has_id : ℕ → InvitationCode → Bool
code_has_id i r = r.id == i

-- `session.get(InvitationCode, invitation_id)`
unfoldable pub get_code : CodeDb → ℕ → Option InvitationCode
get_code db i = find_where (code_has_id i) db.codes

unfoldable pub find_candidates : CodeDb → String → List InvitationCode
find_candidates db prefix = select_where (λ r. str_eq r.code_prefix prefix) db.codes

abbrev pub not_past : ℕ → Option ℕ → Bool
not_past now none = true
not_past now (some expires_at) = ltb now expires_at

abbrev pub is_usable : ℕ → InvitationCode → Bool
is_usable now r = is_none r.revoked_at && (not_past now r.expires_at && ltb r.used_count r.max_uses)

abbrev pub consume_values : InvitationCode → InvitationCode
consume_values r = record r { used_count = r.used_count + 1 }

abbrev pub execute_codes :
    (InvitationCode → Bool) → (InvitationCode → InvitationCode) → CodeDb → Bool × CodeDb
execute_codes condition values db = (
  count_where condition db.codes == 1,
  record db { codes = update_where condition values db.codes },
)

abbrev pub consume_condition : ℕ → ℕ → InvitationCode → Bool
consume_condition now i r = code_has_id i r && is_usable now r

unfoldable pub atomic_consume : ℕ → ℕ → CodeDb → Bool × CodeDb
atomic_consume now i = execute_codes (consume_condition now i) consume_values

abbrev pub revoke_condition : ℕ → InvitationCode → Bool
revoke_condition i r = code_has_id i r && is_none r.revoked_at

abbrev pub revoke_values : ℕ → InvitationCode → InvitationCode
revoke_values now r = record r { revoked_at = some now }

unfoldable pub revoke_row : ℕ → ℕ → CodeDb → Bool × CodeDb
revoke_row now i = execute_codes (revoke_condition i) (revoke_values now)

abbrev pub is_revoked_code : ℕ → InvitationCode → Bool
is_revoked_code i r = code_has_id i r && not (is_none r.revoked_at)

abbrev pub delete_found : Option InvitationCode → CodeDb → Bool × CodeDb
delete_found none db = (false, db)
delete_found (some row) db =
    (true, record db { codes = delete_where (code_has_id row.id) db.codes })

unfoldable pub delete_row : ℕ → CodeDb → Bool × CodeDb
delete_row i db = delete_found (find_where (is_revoked_code i) db.codes) db

abbrev pub max_invitation_uses : ℕ
max_invitation_uses = 1000

-- Five years of 365 days, in microseconds.
abbrev pub max_expiry : ℕ
max_expiry = 5 * 365 * 24 * 60 * 60 * 1000000

unfoldable pub validate_expiry : ℕ → Option ℕ → Result (Unit {0})
validate_expiry now none = ok tt
validate_expiry now (some expires_at) =
    refuse_if (leb expires_at now) (raise validation_failed 400)
    >> refuse_if (ltb (now + max_expiry) expires_at) (raise validation_failed 400)

unfoldable pub audit_code : String → ℕ → ℕ → CodeDb → CodeDb
audit_code action i actor_user_id db = record db {
  audits =
      db.audits
      ++ record {
        action = action;
        resource_type = "invitation";
        resource_id = i;
        actor_user_id = some actor_user_id;
        owner_user_id = none;
      }
        ∷ [];
}

-- `note.strip() or None if note is not None else None`
abbrev pub clean_note : Option String → Option String
clean_note none = none
clean_note (some note) = stripped note

pub record NewCode : Type 0 where
  pub new_id : ℕ
  pub new_prefix : String
  pub new_hash : String

abbrev pub new_row : NewCode → ℕ → Option String → Option ℕ → ℕ → InvitationCode
new_row code actor_user_id note expires_at max_uses = record {
  id = code.new_id;
  created_by_user_id = actor_user_id;
  code_hash = code.new_hash;
  code_prefix = code.new_prefix;
  note = clean_note note;
  max_uses = max_uses;
  used_count = 0;
  expires_at = expires_at;
  revoked_at = none;
}

unfoldable pub create :
    ℕ → NewCode → ℕ → Option String → Option ℕ → ℕ → CodeDb → Result (InvitationCode × CodeDb)
create now code actor_user_id note expires_at max_uses db = do
  refuse_if (max_uses == 0) (raise validation_failed 400)
  refuse_if (ltb max_invitation_uses max_uses) (raise validation_failed 400)
  validate_expiry now expires_at
  let row = new_row code actor_user_id note expires_at max_uses
  ok (
    row,
    audit_code "invitation.created" row.id actor_user_id (record db { codes = row ∷ db.codes }),
  )

abbrev pub or_not_found : Option InvitationCode → Result InvitationCode
or_not_found none = raise not_found 404
or_not_found (some row) = ok row

unfoldable pub get : CodeDb → ℕ → Result InvitationCode
get db i = or_not_found (get_code db i)

-- The fields that an update has; a field that is not there is left.
pub record CodeFields : Type 0 where
  pub new_note : Option (Option String)
  pub new_expires_at : Option (Option ℕ)
  pub new_max_uses : Option ℕ

abbrev pub has_fields : CodeFields → Bool
has_fields fields =
    not (is_none fields.new_note && (is_none fields.new_expires_at && is_none fields.new_max_uses))

abbrev pub check_expiry : ℕ → Option (Option ℕ) → Result (Unit {0})
check_expiry now none = ok tt
check_expiry now (some expires_at) = validate_expiry now expires_at

abbrev pub check_max_uses : InvitationCode → Option ℕ → Result (Unit {0})
check_max_uses row none = ok tt
check_max_uses row (some max_uses) =
    refuse_if (max_uses == 0 || (ltb max_invitation_uses max_uses || ltb max_uses row.used_count))
      (raise validation_failed 400)

abbrev pub option_or {ℓ} : {A : Type ℓ} → A → Option A → A
option_or old none = old
option_or old (some new) = new

abbrev pub clean_field : Option (Option String) → Option (Option String)
clean_field none = none
clean_field (some note) = some (clean_note note)

abbrev pub field_values : CodeFields → InvitationCode → InvitationCode
field_values fields r = record r {
  note = option_or r.note (clean_field fields.new_note);
  expires_at = option_or r.expires_at fields.new_expires_at;
  max_uses = option_or r.max_uses fields.new_max_uses;
}

-- The constraint `used_count <= max_uses` of the table, which a stored row breaks if its count is
-- higher than that of the loaded one.
abbrev pub breaks_check : InvitationCode → Bool
breaks_check r = ltb r.max_uses r.used_count

abbrev pub flush_codes : List InvitationCode → CodeDb → Result CodeDb
flush_codes codes db =
    refuse_if (not (count_where breaks_check codes == 0)) (err integrity_error)
    >> ok (record db { codes = codes })

abbrev pub audit_changed : ℕ → Bool → ℕ → CodeDb → CodeDb
audit_changed i changed actor_user_id db =
    if changed then audit_code "invitation.updated" i actor_user_id db else db

unfoldable pub update : ℕ → InvitationCode → ℕ → CodeFields → CodeDb → Result CodeDb
update now row actor_user_id fields db = do
  check_expiry now fields.new_expires_at
  check_max_uses row fields.new_max_uses
  stored ← flush_codes (update_where (code_has_id row.id) (field_values fields) db.codes) db
  ok (audit_changed row.id (has_fields fields) actor_user_id stored)

abbrev pub audit_revoked : ℕ → ℕ → Bool × CodeDb → CodeDb
audit_revoked i actor_user_id (true, db) = audit_code "invitation.revoked" i actor_user_id db
audit_revoked i actor_user_id (false, db) = db

unfoldable pub revoke : ℕ → InvitationCode → ℕ → CodeDb → CodeDb
revoke now row actor_user_id db = audit_revoked row.id actor_user_id (revoke_row now row.id db)

abbrev pub audit_deleted : ℕ → ℕ → Bool × CodeDb → CodeDb
audit_deleted i actor_user_id (true, db) = audit_code "invitation.deleted" i actor_user_id db
audit_deleted i actor_user_id (false, db) = db

unfoldable pub delete : InvitationCode → ℕ → CodeDb → Result CodeDb
delete row actor_user_id db = do
  refuse_if (is_none row.revoked_at) (raise conflict 409)
  ok (audit_deleted row.id actor_user_id (delete_row row.id db))

-- The first candidate that the digest accepts.
abbrev pub first_verified :
    (String → String → Bool) → String → List InvitationCode → Option InvitationCode
first_verified verify code rows = find_where (λ r. verify code r.code_hash) rows

abbrev pub or_invalid : Option InvitationCode → Result InvitationCode
or_invalid none = raise invalid_invitation 400
or_invalid (some row) = ok row

unfoldable pub match_plaintext :
    (String → String) → (String → String → Bool) → CodeDb → String → Result InvitationCode
match_plaintext upper verify db plaintext = do
  let normalized = strip (upper plaintext)
  refuse_if (ltb (text_length normalized) 8) (raise invalid_invitation 400)
  or_invalid (first_verified verify normalized (find_candidates db (take_chars 8 normalized)))
