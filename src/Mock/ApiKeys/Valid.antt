-- ===== src/Mock/ApiKeys/Valid.antt =====
-- The keys of the store: names within their bounds and distinct, revocations kept.
use wasm_hooks.Common.{
  ℕ, ◌≤◌, ◌≡◌, refl, String, false, List, [], ◌∷◌, Option, none, some, arith, Bool-cases, inl, inr,
  All, Distinct, All-append, Distinct-append, Absent-of_any, Distinct-modify_first, any,
  All-modify_first, ◌==◌,
}
use wasm_hooks.Text.{utf16_length, is_empty}
use wasm_hooks.Clock.{to_iso_string}
use wasm_hooks.Clock.Laws.{is_empty-to_iso_string}
use wasm_hooks.Json.{Json, null, bool, whole, fraction, str, arr, obj, Record, lookup}
use wasm_hooks.Entity.ApiKey.{key_name_max}
use wasm_hooks.Mock.Db.{Db, StoredApiKey}
use wasm_hooks.Mock.ApiKeys.{
  check_name, refused, accepted, Draws, NameCheck, new_key, revoke, insert_key, create_named,
  create_api_key, revoke_api_key, has_id, first_date,
}

-- A time of revocation is no empty text.
abbrev pub IsDated : Option String → Type 0
IsDated none = Unit
IsDated (some at) = is_empty at ≡ false

pub record KeyIsValid (k : StoredApiKey) : Type 0 where
  pub name_low : 1 ≤ utf16_length k.name
  pub name_high : utf16_length k.name ≤ key_name_max
  pub dated : IsDated k.revoked_at

abbrev pub KeysAreValid : List StoredApiKey → Type 0
KeysAreValid ks = All KeyIsValid ks × Distinct (λ k. k.name) ks

-- A name that passes is the text of the body, of a length within the bounds.
pub check_name-accepted :
    (v : Option Json) (name : String)
    → check_name v ≡ accepted name
    → (v ≡ some (str name)) × (1 ≤ utf16_length name) × (utf16_length name ≤ key_name_max)
unfolding check_name
check_name-accepted none name h = cc
check_name-accepted (some (str s)) name h = ground arith
check_name-accepted (some null) name h = cc
check_name-accepted (some (bool b)) name h = cc
check_name-accepted (some (whole z)) name h = cc
check_name-accepted (some (fraction s)) name h = cc
check_name-accepted (some (arr vs)) name h = cc
check_name-accepted (some (obj fs)) name h = cc

module _ {F : Type 0} (db : Db F) (v : KeysAreValid db.api_keys) where
  insert_key-AreValid :
      (k : StoredApiKey) → KeyIsValid k → KeysAreValid (insert_key k db).1.api_keys
  unfolding insert_key
  insert_key-AreValid k ok = elim (Bool-cases (any (λ j. j.name == k.name) db.api_keys)) [
    | inl taken ↦ rw taken v
    | inr free ↦ rw free (
      All-append KeyIsValid db.api_keys (k ∷ []) v.0 (ok, tt),
      Distinct-append (λ x. x.name) db.api_keys k v.1
          (Absent-of_any (λ x. x.name) k.name db.api_keys free),
    )
  ]

  create_named-AreValid :
      (c : NameCheck) (o : Option Json) (draws : Draws) (now : ℕ)
      → check_name o ≡ c
      → KeysAreValid (create_named c draws now db).1.api_keys
  unfolding create_named new_key
  create_named-AreValid (refused detail) o draws now h = v
  create_named-AreValid (accepted name) o draws now h =
      let (same, low, high) = check_name-accepted o name h in
      insert_key-AreValid (new_key name draws now)
        (record { name_low = low; name_high = high; dated = tt })

  -- A new key keeps the keys valid.
  pub create_api_key-AreValid :
      (body : Record) (draws : Draws) (now : ℕ)
      → KeysAreValid (create_api_key body draws now db).1.api_keys
  unfolding create_api_key
  create_api_key-AreValid body draws now =
      create_named-AreValid (check_name (lookup "name" body)) (lookup "name" body) draws now refl

  first_date-IsDated :
      (now : ℕ) (o : Option String) → IsDated o → IsDated (first_date o (to_iso_string now))
  unfolding first_date
  first_date-IsDated now none h = is_empty-to_iso_string now
  first_date-IsDated now (some at) h = h

  revoke-IsValid : (now : ℕ) (k : StoredApiKey) → KeyIsValid k → KeyIsValid (revoke now k)
  unfolding revoke
  revoke-IsValid now k ok = record {
    name_low = ok.name_low;
    name_high = ok.name_high;
    dated = first_date-IsDated now k.revoked_at ok.dated;
  }

  same_name : (now : ℕ) (k : StoredApiKey) → (revoke now k).name ≡ k.name
  unfolding revoke
  same_name now k = refl

  -- So does a revocation.
  pub revoke_api_key-AreValid :
      (id : String) (now : ℕ) → KeysAreValid (revoke_api_key id now db).1.api_keys
  unfolding revoke_api_key
  revoke_api_key-AreValid id now = elim (Bool-cases (any (has_id id) db.api_keys)) [
    | inl hit ↦ rw hit (
      All-modify_first KeyIsValid (has_id id) (revoke now) db.api_keys (revoke-IsValid now) v.0,
      Distinct-modify_first (λ x. x.name) (has_id id) (revoke now) db.api_keys (same_name now) v.1,
    )
    | inr miss ↦ rw miss v
  ]
