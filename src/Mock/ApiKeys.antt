-- ===== src/Mock/ApiKeys.antt =====
-- web/src/mocks/operator-tenants.ts: the handlers of /api-keys and of the console sessions. The
-- random bytes of `crypto.getRandomValues` are arguments.
pub mod Ends
pub mod Tokens
pub mod Valid
pub mod Laws
use Prim.Native.String
use wasm_hooks.Common.{
  ℕ, zero, suc, ◌+◌, ◌*◌, ◌/◌, ◌%◌, ltb, if◌then◌else◌, ◌==◌, String, Bool, true, false, List, [],
  ◌∷◌, ◌++◌, map, Option, none, some, any, find, modify_first, sort,
}
use wasm_hooks.Text.{concat, decimal, utf16_length}
use wasm_hooks.Json.{Json, null, bool, whole, fraction, str, arr, obj, Record, lookup}
use wasm_hooks.Clock.{to_iso_string}
use wasm_hooks.Entity.Tenant.{ConsoleSession}
use wasm_hooks.Entity.ApiKey.{ApiKey, ApiKeyCreated, key_name_max}
use wasm_hooks.Mock.Db.{Db, StoredApiKey}
use wasm_hooks.Mock.Http.{Reply, json, fail, no_content}
use wasm_hooks.Mock.Tenants.{Detail, invalid, tenant_not_found, rejected, has_external_id}

abbrev pub base62 : String
base62 = "0123456789ABCDEFGHIJKLMNOPQRSTUVWXYZabcdefghijklmnopqrstuvwxyz"

abbrev pub hex_alphabet : String
hex_alphabet = "0123456789abcdef"

-- `alphabet[i]`, as a text of one character; empty behind the end.
pub letter : String → ℕ → String
letter String.[] i = ""
letter (String.◌∷◌ c s) zero = String.◌∷◌ c ""
letter (String.◌∷◌ c s) (suc i) = letter s i

-- `randomText`, from the bytes that were drawn; the alphabets are ASCII.
unfoldable pub random_text : String → List ℕ → String
unfolding letter utf16_length
random_text alphabet bytes = concat (map (λ b. letter alphabet (b % utf16_length alphabet)) bytes)

unfoldable pub public_key : StoredApiKey → ApiKey
public_key k = k.key

-- The checks of a new key's name: its complaint, or the name.
pub data NameCheck : Type 0 where
  refused : String → NameCheck
  accepted : String → NameCheck

pub check_name : Option Json → NameCheck
check_name none = refused "body.name: Field required"
check_name (some (str s)) =
    if ltb (utf16_length s) 1
    then refused "body.name: String should have at least 1 character"
    else if ltb key_name_max (utf16_length s)
    then refused (
        concat
          ("body.name: String should have at most " ∷ decimal key_name_max ∷ " characters" ∷ []))
    else accepted s
check_name (some v) = refused "body.name: Input should be a valid string"

-- The draws for a new key: 16 bytes for the identifier and 32 for the token.
pub record Draws : Type 0 where
  pub id_bytes : List ℕ
  pub token_bytes : List ℕ

unfoldable pub new_key : String → Draws → ℕ → StoredApiKey
unfolding random_text
new_key name draws now = record {
  key = record {
    id = concat ("key_" ∷ random_text hex_alphabet draws.id_bytes ∷ []);
    name = name;
    created_at = to_iso_string now;
    revoked_at = none;
  };
  token = concat ("whk_" ∷ random_text base62 draws.token_bytes ∷ []);
}

abbrev pub has_id : String → StoredApiKey → Bool
has_id id k = k.id == id

-- `key.revoked_at ??= new Date().toISOString()`
pub first_date : Option String → String → Option String
first_date none now = some now
first_date (some at) now = some at

pub revoke : ℕ → StoredApiKey → StoredApiKey
unfolding first_date
revoke now k = record k {
  key = record (k.key) { revoked_at = first_date k.revoked_at (to_iso_string now) };
}

module _ {F : Type 0} where
  -- `GET /api-keys`; `collate` is `localeCompare` as a test.
  unfoldable pub list_api_keys : (String → String → Bool) → Db F → Reply (List ApiKey) × Db F
  unfolding public_key
  list_api_keys collate db =
      (json 200 (map public_key (sort (λ a b. collate a.created_at b.created_at) db.api_keys)), db)

  pub insert_key : StoredApiKey → Db F → Reply ApiKeyCreated × Db F
  insert_key k db =
      if any (λ j. j.name == k.name) db.api_keys
      then (fail 409 "Ключ с таким именем уже есть" (some k.name), db)
      else (
        json 201 (record { key = public_key k; token = k.token }),
        record db { api_keys = db.api_keys ++ k ∷ [] },
      )

  pub create_named : NameCheck → Draws → ℕ → Db F → Reply ApiKeyCreated × Db F
  unfolding insert_key new_key
  create_named (refused detail) draws now db = rejected detail db
  create_named (accepted name) draws now db = insert_key (new_key name draws now) db

  -- `POST /api-keys`
  unfoldable pub create_api_key : Record → Draws → ℕ → Db F → Reply ApiKeyCreated × Db F
  unfolding create_named insert_key check_name lookup
  create_api_key body draws now db = create_named (check_name (lookup "name" body)) draws now db

  -- `DELETE /api-keys/:keyId`
  unfoldable pub revoke_api_key : String → ℕ → Db F → Reply (Unit {0}) × Db F
  unfolding revoke
  revoke_api_key id now db =
      if any (has_id id) db.api_keys
      then (no_content, record db { api_keys = modify_first (has_id id) (revoke now) db.api_keys })
      else (fail 404 "Ключ не найден" (some id), db)
