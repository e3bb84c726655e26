-- ===== src/Mock/ApiKeys/Laws.antt =====
-- Revocation: a revoked key opens nothing, and revoking again changes nothing.
use wasm_hooks.Common.{
  ℕ, ◌≤◌, ltb, if◌then◌else◌, ◌≡◌, refl, ◌∙◌, String, Bool, true, false, ◌&&◌, List, [], ◌∷◌, ◌++◌,
  Option, none, some, arith, Bool-cases, inl, inr, any, find, modify_first, ◌==◌, eq_iff,
  any_of_find, All-find, any-modify_first, modify_first_twice, any-modify_first_same,
}
use wasm_hooks.Clock.{to_iso_string}
use wasm_hooks.Clock.Laws.{is_empty-to_iso_string}
use wasm_hooks.Mock.Db.{Db, StoredApiKey}
use wasm_hooks.Text.{utf16_length}
use wasm_hooks.Entity.ApiKey.{key_name_max}
use wasm_hooks.Mock.Http.{is_truthy, status_of}
use wasm_hooks.Json.{Record, lookup, str}
use wasm_hooks.Mock.ApiKeys.{
  has_id, first_date, revoke, revoke_api_key, insert_key, create_named, create_api_key, check_name,
  new_key, Draws, NameCheck, refused, accepted,
}
use wasm_hooks.Mock.ApiKeys.Valid.{KeyIsValid, KeysAreValid, IsDated}

first_date-IsTruthy :
    (now : ℕ) (o : Option String) → IsDated o → is_truthy (first_date o (to_iso_string now)) ≡ true
unfolding first_date
first_date-IsTruthy now none h = rw (is_empty-to_iso_string now) refl
first_date-IsTruthy now (some at) h = rw h refl

revoke_twice : (now later : ℕ) (k : StoredApiKey) → revoke later (revoke now k) ≡ revoke now k
unfolding revoke
revoke_twice now later k = rw (keeps_first k.revoked_at) refl
  where
    keeps_first :
        (o : Option String)
        → first_date (first_date o (to_iso_string now)) (to_iso_string later)
          ≡ first_date o (to_iso_string now)
    keeps_first none = refl
    keeps_first (some at) = refl

module _ {F : Type 0} (db : Db F) (id : String) (now : ℕ) where
  -- A second revocation answers as the first and writes nothing: the first date stays.
  pub revoke_api_key_twice :
      (later : ℕ)
      → revoke_api_key id later (revoke_api_key id now db).1
        ≡ ((revoke_api_key id now db).0, (revoke_api_key id now db).1)
  unfolding revoke_api_key revoke first_date
  revoke_api_key_twice later = elim (Bool-cases (any (has_id id) db.api_keys)) [
    | inl hit ↦ rw hit (
        rw
          (any-modify_first_same (has_id id) (has_id id) (revoke now) db.api_keys (λ k. refl) ∙ hit)
          (rw
            (modify_first_twice (has_id id) (revoke now) (revoke later) db.api_keys (λ k. refl)
              (revoke_twice now later))
            refl))
    | inr miss ↦ rw miss (rw miss refl)
  ]

-- Some key with the token is revoked.
abbrev pub Refuses : String → List StoredApiKey → Type 0
Refuses token ks = any (λ k. is_truthy k.revoked_at && k.token == token) ks ≡ true

revoke-Refuses :
    (token : String) (p : StoredApiKey → Bool) (now : ℕ) (ks : List StoredApiKey)
    → Refuses token ks
    → Refuses token (modify_first p (revoke now) ks)
unfolding revoke first_date
revoke-Refuses token p now [] h = h
revoke-Refuses token p now (k ∷ ks) h = ground (arith, revoke-Refuses token p now ks)

any-append :
    (q : StoredApiKey → Bool) (ks : List StoredApiKey) (k : StoredApiKey)
    → any q ks ≡ true
    → any q (ks ++ k ∷ []) ≡ true
any-append q [] k h = cc
any-append q (j ∷ ks) k h = ground (arith, any-append q ks k)

module _ {F : Type 0} (db : Db F) (token : String) where
  pub revoke_api_key-Refuses :
      (id : String) (now : ℕ)
      → Refuses token db.api_keys
      → Refuses token (revoke_api_key id now db).1.api_keys
  unfolding revoke_api_key
  revoke_api_key-Refuses id now h = ground (arith, revoke-Refuses token (has_id id) now db.api_keys)

  insert_key-Refuses :
      (k : StoredApiKey) → Refuses token db.api_keys → Refuses token (insert_key k db).1.api_keys
  unfolding insert_key
  insert_key-Refuses k h =
      ground (arith, any-append (λ j. is_truthy j.revoked_at && j.token == token) db.api_keys k)

  pub create_api_key-Refuses :
      (body : Record) (draws : Draws) (now : ℕ)
      → Refuses token db.api_keys
      → Refuses token (create_api_key body draws now db).1.api_keys
  unfolding create_api_key create_named
  create_api_key-Refuses body draws now h = go (check_name (lookup "name" body))
    where
      go : (c : NameCheck) → Refuses token (create_named c draws now db).1.api_keys
      go (refused detail) = h
      go (accepted name) = insert_key-Refuses (new_key name draws now) h

  -- The revocation of a key that is there.
  pub revoke_api_key-revokes :
      (id : String) (now : ℕ) (k : StoredApiKey)
      → KeysAreValid db.api_keys
      → find (has_id id) db.api_keys ≡ some k
      → k.token ≡ token
      → Refuses token (revoke_api_key id now db).1.api_keys
  unfolding revoke_api_key revoke
  revoke_api_key-revokes id now k v found e = rw (any_of_find (has_id id) db.api_keys k found) (
      any-modify_first (has_id id) (λ j. is_truthy j.revoked_at && j.token == token) (revoke now)
        db.api_keys k found
        (rw
          (first_date-IsTruthy now k.revoked_at
            (All-find KeyIsValid (has_id id) db.api_keys k v.0 found).dated)
          ((eq_iff k.token token).1 e)))

-- A name of a length that the API takes is refused only if a key has it.
pub create_api_key-named :
    {F : Type 0} (db : Db F) (name : String) (draws : Draws) (now : ℕ)
    → 1 ≤ utf16_length name
    → utf16_length name ≤ key_name_max
    → status_of (create_api_key (("name", str name) ∷ []) draws now db).0
      ≡ (if any (λ k. k.name == name) db.api_keys then 409 else 201)
unfolding create_api_key create_named insert_key new_key check_name
create_api_key-named db name draws now low high =
    let not_short : ltb (utf16_length name) 1 ≡ false = ground arith in
    let not_long : ltb key_name_max (utf16_length name) ≡ false = ground arith in
    rw not_short (rw not_long (ground arith))
