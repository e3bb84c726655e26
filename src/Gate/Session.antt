-- ===== src/Gate/Session.antt =====
-- web/src/features/console-session: what the console shows of a tenant's session (model/use-tenant-session.ts and
-- ui/tenant-session-info.tsx), the end of a session by its button (ui/sign-out-button.tsx), and
-- the page of entry (ui/tenant-entry-redirect.tsx).
pub mod Laws
use wasm_hooks.Common.{
  ℕ, ◌*◌, String, Bool, true, false, not, List, [], ◌∷◌, Option, none, some, keep, if◌then◌else◌,
  ◌==◌,
}
use wasm_hooks.Common.Int.{ℤ}
use wasm_hooks.Api.Session.{ConsoleKind, operator, tenant, Storage, get_token, clear_token}
use wasm_hooks.Gate.Fragment.{
  SearchParams, Location, adopt_token_from_fragment, mock_tenant_token, mock_tenant,
}
use wasm_hooks.Gate.Jwt.{Codec, JwtClaims, Number, deadline, read_jwt_claims, exp_of}
use wasm_hooks.Json.{Json}
use wasm_hooks.Queries.{Query, KeyPart, words, key_of, begins_with}

-- `TenantSession`; its end is kept as the number of seconds whose thousandfold `new Date` is given.
pub record TenantSession : Type 0 where
  pub tenant : Option String
  pub expires_at : Option Number

abbrev sub_of : Option JwtClaims → Option String
sub_of none = none
sub_of (some c) = c.sub

pub session_of : Codec → Option String → Option TenantSession
unfolding read_jwt_claims
session_of codec none = none
session_of codec (some token) =
    let claims = read_jwt_claims codec token in
    if token == mock_tenant_token
    then some (record { tenant = some mock_tenant; expires_at = none })
    else some (record { tenant = sub_of claims; expires_at = exp_of claims })

-- `useTenantSession`
unfoldable pub tenant_session : {S : Type 0} → Storage S → Codec → Option S → Option TenantSession
unfolding session_of get_token
tenant_session storage codec s = session_of codec (get_token storage tenant s)

-- A name, or what stands for one that is missing.
abbrev pub name_or_missing : Option String → String
name_or_missing none = "тенант не указан в токене"
name_or_missing (some name) = name

-- `TenantName`
abbrev pub tenant_name : Option TenantSession → Option String
tenant_name none = none
tenant_name (some s) = some (name_or_missing s.tenant)

-- `TenantSessionInfo`: the time that it shows.
abbrev pub session_end : Option TenantSession → Option Number
session_end none = none
session_end (some s) = s.expires_at

-- The prefix `[kind]` of the keys of a console.
abbrev pub console_key : ConsoleKind → List KeyPart
console_key operator = words ("operator" ∷ [])
console_key tenant = words ("tenant" ∷ [])

-- The cache, as its entries.
abbrev pub Cache : Type 0
Cache = List (Query × Json)

-- `removeQueries({ queryKey: [kind] })`
unfoldable pub remove_queries : ConsoleKind → Cache → Cache
remove_queries kind cache = keep (λ e. not (begins_with (console_key kind) (key_of e.0))) cache

-- The click of `SignOutButton`.
unfoldable pub sign_out :
    {S : Type 0} → Storage S → ConsoleKind → Option S → Cache → Option S × Cache
unfolding clear_token remove_queries
sign_out storage kind s cache = (clear_token storage kind s, remove_queries kind cache)

-- The effect of `TenantEntryRedirect`: the token of the address is kept, and the router goes to the page.
unfoldable pub enter :
    {S : Type 0}
    → Storage S
    → SearchParams
    → String
    → Location
    → Option S
    → Option S × Location × String
unfolding adopt_token_from_fragment
enter storage url page at s =
    let (s', at') = adopt_token_from_fragment storage url at s in (s', at', page)
