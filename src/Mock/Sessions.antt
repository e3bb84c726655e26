-- ===== src/Mock/Sessions.antt =====
-- web/src/mocks/operator-tenants.ts: the console sessions that the mock API issues.
pub mod Laws
use Prim.Native.String
use wasm_hooks.Common.{
  ℕ, ◌+◌, ◌*◌, ◌/◌, nat_eq, String, Bool, List, [], ◌∷◌, Option, none, some, any, Char, code, ◌&&◌,
  if◌then◌else◌,
}
use wasm_hooks.Common.Int.{pos}
use wasm_hooks.Text.{concat, is_empty}
use wasm_hooks.Clock.{to_iso_string}
use wasm_hooks.Json.{Json, str, whole, obj, of_props, Record}
use wasm_hooks.Json.Stringify.{stringify}
use wasm_hooks.Entity.Tenant.{ConsoleSession}
use wasm_hooks.Mock.Db.{Db}
use wasm_hooks.Mock.Http.{Reply, json, fail}
use wasm_hooks.Mock.Tenants.{has_external_id, tenant_not_found}

-- What the browser brings: a `TextEncoder`, and `btoa` of a text of bytes.
pub record Encoder : Type 0 where
  pub encode : String → List ℕ
  pub btoa : List ℕ → String

-- `SESSION_TTL_MS`
abbrev pub session_ttl_ms : ℕ
session_ttl_ms = 60 * 60 * 1000

-- The alphabet of base64 as that of URLs.
url_letter : Char → String
url_letter c =
    if nat_eq (code c) 0x2b then "-" else if nat_eq (code c) 0x2f then "_" else String.◌∷◌ c ""

pub to_url : String → String
unfolding url_letter
to_url String.[] = ""
to_url (String.◌∷◌ c s) = String.◌++◌ (url_letter c) (to_url s)

-- `s.replace(/=+$/, "")`
pub without_padding : String → String
without_padding String.[] = ""
without_padding (String.◌∷◌ c s) =
    let rest = without_padding s in
    if is_empty rest && nat_eq (code c) 0x3d then "" else String.◌∷◌ c rest

-- `base64Url`
unfoldable pub base64_url : Encoder → Json → String
unfolding to_url without_padding
base64_url encoder value =
    without_padding (to_url (encoder.btoa (encoder.encode (stringify value))))

abbrev pub jwt_header : Json
jwt_header = obj (of_props (("alg", str "HS256") ∷ ("typ", str "JWT") ∷ []))

-- The claims of a token, at a time and until a time.
abbrev pub console_claims : String → ℕ → ℕ → Record
console_claims external_id expires_at now =
    ("sub", str external_id)
    ∷ ("aud", str "tenant-console")
    ∷ ("iss", str "wasmhooks-control-plane")
    ∷ ("iat", whole (pos (now / 1000)))
    ∷ ("exp", whole (pos (expires_at / 1000)))
    ∷ []

-- `consoleToken`
unfoldable pub console_token : Encoder → String → ℕ → ℕ → String
unfolding base64_url
console_token encoder external_id expires_at now = concat (
    base64_url encoder jwt_header
    ∷ "."
    ∷ base64_url encoder (obj (of_props (console_claims external_id expires_at now)))
    ∷ ".mock-signature"
    ∷ [])

module _ {F : Type 0} where
  -- `POST /tenants/:externalId/console-sessions`
  unfoldable pub create_console_session : Encoder → String → ℕ → Db F → Reply ConsoleSession × Db F
  unfolding console_token
  create_console_session encoder external_id now db =
      if any (has_external_id external_id) db.tenants
      then (
        json 201 (record {
          token = console_token encoder external_id (now + session_ttl_ms) now;
          expires_at = to_iso_string (now + session_ttl_ms);
        }),
        db,
      )
      else (fail 404 tenant_not_found (some external_id), db)
