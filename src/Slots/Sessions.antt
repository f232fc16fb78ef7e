-- ===== src/Slots/Sessions.antt =====
-- Which users the tokens of sessions lead to: after app/services/auth_service.py ended a session, and
-- after app/services/user_service.py disabled a user.
use human_llm_gateway.Prelude.{
  ℕ, ◌≡◌, ◌≢◌, refl, Bool, true, false, Option, none, some, List, [], ◌∷◌, arith, is_none,
  if◌then◌else◌, ltb, ◌||◌, not, String, Bool-cases, inl, inr, ◌==◌, ap, some-injective,
  none-ne-some,
}
use mathlib.Core.Path.{subst}
use human_llm_gateway.Model.Account.{User, AuthSession}
use human_llm_gateway.Model.Db.{Db}
use human_llm_gateway.Result.{ok}
use human_llm_gateway.Table.Rows.{count_where, find_where, update_where, update_row}
use human_llm_gateway.Repositories.Users as Users
use human_llm_gateway.Services.Governance.{ImpactCounts, disable_user}
use human_llm_gateway.Services.Sessions.{
  get_by_token_hash, has_token_hash, revoked, unrevoked_session, user_of_session, active_user,
  get_user_by_token, logout, revoke_found, revoke_session,
}
use human_llm_gateway.Slots.Revoked.{is_out, disable_user-IsRevoked}

some-if : (b : Bool) (v u : User) → (if b then some v else none) ≡ some u → (v ≡ u) × (b ≡ true)
some-if true v u h = (some-injective _ _ h, refl)
some-if false v u h = absurd (none-ne-some u h)

active_user-some : (v u : User) → active_user (some v) ≡ some u → (v ≡ u) × (v.is_active ≡ true)
active_user-some v u h = some-if v.is_active v u h

-- Where nobody with a key is active or has a slot, no active user that is found has that key.
no_active :
    (i k : ℕ) (us : List User) (u : User)
    → count_where (is_out i) us ≡ 0
    → active_user (find_where (λ v. v.id == k) us) ≡ some u
    → u.id ≢ i
no_active i k [] u none_out h = cc
no_active i k (v ∷ us) u none_out h = elim (Bool-cases (v.id == k)) [
  | inl here ↦
      let (same, active) = active_user-some v u (rw here at h) in
      subst (λ x. x.id ≢ i) same (ground arith)
  | inr other ↦ no_active i k us u (ground arith) (rw other at h)
]

token_hash-revoked :
    (h : String) (id now : ℕ) (s : AuthSession)
    → has_token_hash h (update_row (unrevoked_session id) (revoked now) s) ≡ has_token_hash h s
token_hash-revoked h id now s = ground arith

revoked-found :
    (h : String) (now id : ℕ) (ss : List AuthSession) (row : AuthSession)
    → find_where (has_token_hash h) ss ≡ some row
    → find_where (has_token_hash h) (update_where (unrevoked_session id) (revoked now) ss)
      ≡ some (update_row (unrevoked_session id) (revoked now) row)
revoked-found h now id [] row found = cc
revoked-found h now id (s ∷ ss) row found = elim (Bool-cases (has_token_hash h s)) [
  | inl here ↦
      rw (token_hash-revoked h id now s, here)
        (ap (λ r. some (update_row (unrevoked_session id) (revoked now) r))
          (some-injective _ _ (rw here at found)))
  | inr other ↦
      rw (token_hash-revoked h id now s, other) (revoked-found h now id ss row (rw other at found))
]

revoked-none :
    (id now later : ℕ) (db : Db) (row : AuthSession)
    → row.id ≡ id
    → user_of_session later db (some (update_row (unrevoked_session id) (revoked now) row)) ≡ none
revoked-none id now later db row same = ground arith

after_logout :
    (h : String) (now later : ℕ) (db : Db) (row : Option AuthSession)
    → find_where (has_token_hash h) db.sessions ≡ row
    → let out = revoke_found now row db in
      user_of_session later out (find_where (has_token_hash h) out.sessions) ≡ none
unfolding revoke_session
after_logout h now later db none found = rw found refl
after_logout h now later db (some row) found =
    rw (revoked-found h now row.id db.sessions row found)
      (revoked-none row.id now later (revoke_found now (some row) db) row refl)

-- Once a caller logged out with a token, that token leads to no user at any time.
pub logout-IsLoggedOut :
    (hash_session_token : String → String) (now later : ℕ) (token : String) (db : Db)
    → get_user_by_token hash_session_token later token (logout hash_session_token now token db)
      ≡ none
unfolding get_user_by_token logout get_by_token_hash
logout-IsLoggedOut hash_session_token now later token db =
    after_logout (hash_session_token token) now later db _ refl

session-user :
    (now : ℕ) (db : Db) (s : Option AuthSession) (u : User)
    → user_of_session now db s ≡ some u
    → (k : ℕ) × (active_user (Users.get db k) ≡ some u)
session-user now db none u h = cc
session-user now db (some row) u h =
    elim (Bool-cases (not (is_none row.revoked_at) || ltb row.expires_at now)) [
      | inl over ↦ absurd (none-ne-some u (rw over at h))
      | inr live ↦ (row.user_id, rw live at h)
    ]

-- After a successful disable_user on a user whose loaded row is active, no token leads to that
-- user at any time.
pub disable_user-get_user_by_token :
    (hash_session_token : String → String) (now later : ℕ) (token : String) (u : User) (actor : ℕ)
    (db : Db) {r : ImpactCounts × Db} {v : User}
    → u.is_active ≡ true
    → disable_user now u actor db ≡ ok r
    → get_user_by_token hash_session_token later token r.1 ≡ some v
    → v.id ≢ u.id
unfolding get_user_by_token Users.get
disable_user-get_user_by_token hash now later token u actor db {r} {v} active done found =
    let (k, seen) = session-user later r.1 _ v found in
    no_active u.id k r.1.users v (disable_user-IsRevoked now u actor db active done).user seen
