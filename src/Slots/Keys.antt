-- ===== src/Slots/Keys.antt =====
-- Which keys of callers are accepted (app/repositories/api_keys.py), after
-- app/services/user_service.py disabled a user.
use human_llm_gateway.Prelude.{
  ℕ, ◌≡◌, ◌≢◌, refl, Bool, true, ◌&&◌, Option, none, some, List, [], ◌∷◌, arith, String, Bool-cases,
  inl, inr, some-injective, none-ne-some,
}
use mathlib.Core.Path.{subst}
use human_llm_gateway.Model.Account.{User, ApiKey}
use human_llm_gateway.Model.Db.{Db}
use human_llm_gateway.Result.{ok}
use human_llm_gateway.Table.Rows.{count_where, select_where}
use human_llm_gateway.Repositories.Accounts.{enabled_of}
use human_llm_gateway.Repositories.Users as Users
use human_llm_gateway.Repositories.Keys.{
  authenticate, authenticate_among, with_owner, find_by_prefix, is_api_key_format,
}
use human_llm_gateway.Services.Governance.{ImpactCounts, disable_user}
use human_llm_gateway.Slots.Revoked.{disable_user-IsRevoked}

with_owner-some : (row k : ApiKey) (owner : Option User) → with_owner row owner ≡ some k → row ≡ k
with_owner-some row k none h = absurd (none-ne-some k h)
with_owner-some row k (some owner) h = elim (Bool-cases owner.is_active) [
  | inl active ↦ some-injective _ _ (rw active at h)
  | inr idle ↦ absurd (none-ne-some k (rw idle at h))
]

-- Among candidates of which none is an enabled key of a user, no key of that user is accepted.
among-others :
    (i : ℕ) (verify : String → String → Bool) (db : Db) (plaintext : String) (ks : List ApiKey)
    (k : ApiKey)
    → count_where (enabled_of i) ks ≡ 0
    → authenticate_among verify db plaintext ks ≡ some k
    → k.owner_user_id ≢ i
among-others i verify db plaintext [] k none_enabled h = absurd (none-ne-some k h)
among-others i verify db plaintext (row ∷ rows) k none_enabled h =
    elim (Bool-cases (row.is_enabled && verify plaintext row.key_hash)) [
      | inl taken ↦
          subst (λ (x : ApiKey). x.owner_user_id ≢ i)
            (with_owner-some row k (Users.get db row.owner_user_id) (rw taken at h)) (ground arith)
      | inr passed ↦ among-others i verify db plaintext rows k (ground arith) (rw passed at h)
    ]

count-select {ℓ} :
    {A : Type ℓ} (p q : A → Bool) (xs : List A)
    → count_where q xs ≡ 0
    → count_where q (select_where p xs) ≡ 0
count-select p q [] h = refl
count-select p q (x ∷ xs) h = elim (Bool-cases (p x)) [
  | inl met ↦ rw met (ground (arith, count-select p q xs))
  | inr other ↦ rw other (ground (arith, count-select p q xs))
]

-- After a successful disable_user on a user whose loaded row is active, no text authenticates as
-- a key of that user.
pub disable_user-authenticate :
    (verify_api_key : String → String → Bool) (now : ℕ) (plaintext : String) (u : User) (actor : ℕ)
    (db : Db) {r : ImpactCounts × Db} {k : ApiKey}
    → u.is_active ≡ true
    → disable_user now u actor db ≡ ok r
    → authenticate verify_api_key r.1 plaintext ≡ some k
    → k.owner_user_id ≢ u.id
unfolding authenticate find_by_prefix
disable_user-authenticate verify now plaintext u actor db {r} {k} active done found =
    elim (Bool-cases (is_api_key_format plaintext)) [
      | inl formed ↦
          among-others u.id verify r.1 plaintext _ k
            (count-select _ (enabled_of u.id) r.1.api_keys
              (disable_user-IsRevoked now u actor db active done).keys)
            (rw formed at found)
      | inr other ↦ absurd (none-ne-some k (rw other at found))
    ]
