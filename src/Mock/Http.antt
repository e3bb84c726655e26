-- ===== src/Mock/Http.antt =====
-- web/src/mocks/http.ts: replies, problems, and the check of the bearer token.
pub mod Bearer
pub mod Ends
use wasm_hooks.Common.{
  ℕ, String, Bool, false, not, ◌&&◌, List, [], ◌∷◌, Option, none, some, code, any, if◌then◌else◌,
  ◌==◌,
}
use wasm_hooks.Text.{is_empty, is_space, trim_start, strip}
use wasm_hooks.Mock.Db.{Db, StoredApiKey}

-- A response with a JSON body, a problem document, or no body. `headers` are those added to the
-- content type.
pub data Reply (A : Type 0) : Type 0 where
  json : (status : ℕ) (body : A) → Reply A
  problem :
      (status : ℕ) (title : String) (detail : Option String) (headers : List (String × String))
      → Reply A
  no_content : Reply A

abbrev pub status_of : {A : Type 0} → Reply A → ℕ
status_of (json status body) = status
status_of (problem status title detail headers) = status
status_of no_content = 204

-- `problem(status, title, detail)`
abbrev pub fail : {A : Type 0} → ℕ → String → Option String → Reply A
fail status title detail = problem status title detail []

-- The longest front without white space, `\S+`.
pub word : String → String
word String.[] = ""
word (String.◌∷◌ c s) = let rest = word s in if is_space (code c) then "" else String.◌∷◌ c rest

pub starts_with_space : String → Bool
starts_with_space String.[] = false
starts_with_space (String.◌∷◌ c s) = is_space (code c)

-- What follows "Bearer": white space, then the token.
pub after_scheme : Option String → Option String
unfolding word starts_with_space trim_start
after_scheme none = none
after_scheme (some s) =
    let token = word (trim_start s) in
    if starts_with_space s && not (is_empty token) then some token else none

-- `/^Bearer\s+(\S+)/.exec(header)[1]`
unfoldable pub bearer_token : String → Option String
unfolding after_scheme strip
bearer_token header = after_scheme (strip "Bearer" header)

abbrev header_text : Option String → String
header_text none = ""
header_text (some s) = s

-- A date in `revoked_at` that counts as true: not null and not the empty text.
abbrev pub is_truthy : Option String → Bool
is_truthy none = false
is_truthy (some s) = not (is_empty s)

accepts : List StoredApiKey → Option String → Bool
accepts keys none = false
accepts keys (some token) = not (any (λ k. is_truthy k.revoked_at && k.token == token) keys)

-- `hasBearer`: a token that no revoked key has.
unfoldable pub has_bearer : List StoredApiKey → Option String → Bool
unfolding accepts bearer_token
has_bearer keys authorization = accepts keys (bearer_token (header_text authorization))

abbrev pub unauthorized : {A : Type 0} → Reply A
unauthorized = problem 401 "Не авторизован" none (("WWW-Authenticate", "Bearer") ∷ [])

-- `authed(resolver)`
unfoldable pub authed :
    {F A : Type 0} → Option String → (Db F → Reply A × Db F) → Db F → Reply A × Db F
authed authorization resolver db =
    let answer = resolver db in
    if has_bearer db.api_keys authorization then answer else (unauthorized, db)
