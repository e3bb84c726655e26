-- ===== src/Gate/Jwt.antt =====
-- web/src/shared/lib/jwt.ts: the claims of a token that the browser reads without a check of its signature.
pub mod Laws
use Prim.Native.String
use wasm_hooks.Common.{
  ℕ, ◌+◌, ◌-◌, ◌*◌, ◌/◌, leb, nat_eq, zero, suc, String, Bool, true, false, List, Option, none,
  some, Char, code, if◌then◌else◌,
}
use wasm_hooks.Common.Int.{ℤ, pos, negsuc}
use wasm_hooks.Text.{is_empty, utf16_length}
use wasm_hooks.Json.{Json, null, whole, fraction, str, obj, props, lookup}

-- What the browser brings: `atob`, which may throw, a `TextDecoder`, `JSON.parse`, which may throw, and of a number
-- that is no integer the least integer not below 1000 times it.
pub record Codec : Type 0 where
  pub atob : String → Option (List ℕ)
  pub decode : List ℕ → String
  pub parse : String → Option Json
  pub milliseconds : String → ℤ

-- The number of a claim.
pub data Number : Type 0 where
  integer : ℤ → Number
  fractional : String → Number

pub record JwtClaims : Type 0 where
  pub sub : Option String
  pub exp : Option Number

-- The alphabet of URLs as that of base64.
base64_letter : Char → String
base64_letter c =
    if nat_eq (code c) 0x2d then "+" else if nat_eq (code c) 0x5f then "/" else String.◌∷◌ c ""

pub to_base64 : String → String
unfolding base64_letter
to_base64 String.[] = ""
to_base64 (String.◌∷◌ c s) = String.◌++◌ (base64_letter c) (to_base64 s)

unfoldable pub equals : ℕ → String → String
equals zero s = s
equals (suc k) s = equals k (String.◌++◌ s "=")

-- `base64.padEnd(Math.ceil(base64.length / 4) * 4, "=")`
pub padded : String → String
unfolding equals utf16_length
padded s = equals ((utf16_length s + 3) / 4 * 4 - utf16_length s) s

pub decoded : Codec → Option (List ℕ) → Option String
decoded codec none = none
decoded codec (some bytes) = some (codec.decode bytes)

-- `decodeBase64Url`
unfoldable pub decode_base64_url : Codec → String → Option String
unfolding decoded padded to_base64
decode_base64_url codec segment = decoded codec (codec.atob (padded (to_base64 segment)))

-- The text before the first dot,
pub before_dot : String → String
before_dot String.[] = ""
before_dot (String.◌∷◌ c s) =
    let rest = before_dot s in if nat_eq (code c) 0x2e then "" else String.◌∷◌ c rest

-- and `token.split(".")[1]`.
unfoldable pub payload : String → Option String
unfolding before_dot
payload String.[] = none
payload (String.◌∷◌ c s) =
    let rest = payload s in if nat_eq (code c) 0x2e then some (before_dot s) else rest

-- `z.string().nullish()` and `z.number().nullish()`, with `?? null`: `none` where they fail.
pub sub_claim : Option Json → Option (Option String)
sub_claim none = some none
sub_claim (some null) = some none
sub_claim (some (str s)) = some (some s)
sub_claim (some v) = none

pub exp_claim : Option Json → Option (Option Number)
exp_claim none = some none
exp_claim (some null) = some none
exp_claim (some (whole z)) = some (some (integer z))
exp_claim (some (fraction s)) = some (some (fractional s))
exp_claim (some v) = none

both_claims : Option (Option String) → Option (Option Number) → Option JwtClaims
both_claims (some sub) (some exp) = some (record { sub = sub; exp = exp })
both_claims _ _ = none

-- `claimsSchema.safeParse`
unfoldable pub parse_claims : Option Json → Option JwtClaims
unfolding both_claims sub_claim exp_claim lookup
parse_claims (some (obj fs)) =
    both_claims (sub_claim (lookup "sub" (props fs))) (exp_claim (lookup "exp" (props fs)))
parse_claims _ = none

json_of : Codec → Option String → Option Json
json_of codec none = none
json_of codec (some s) = codec.parse s

pub claims_of : Codec → Option String → Option JwtClaims
unfolding parse_claims json_of decode_base64_url
claims_of codec none = none
claims_of codec (some segment) =
    let claims = parse_claims (json_of codec (decode_base64_url codec segment)) in
    if is_empty segment then none else claims

-- `readJwtClaims`; whatever throws gives null.
unfoldable pub read_jwt_claims : Codec → String → Option JwtClaims
unfolding claims_of payload
read_jwt_claims codec token = claims_of codec (payload token)

-- What `exp * 1000` is compared with: the least whole number that is not below it, since a time is whole. Nothing else is
-- taken from it where it has a fraction.
unfoldable pub deadline : Codec → Number → ℤ
deadline codec (integer (pos n)) = pos (n * 1000)
deadline codec (integer (negsuc n)) = negsuc (n * 1000 + 999)
deadline codec (fractional s) = codec.milliseconds s

-- `at <= now`
abbrev pub reached : ℤ → ℕ → Bool
reached (pos at) now = leb at now
reached (negsuc at) now = true

abbrev pub exp_of : Option JwtClaims → Option Number
exp_of none = none
exp_of (some c) = c.exp

pub exp_reached : Codec → Option Number → ℕ → Bool
unfolding deadline
exp_reached codec none now = false
exp_reached codec (some n) now = reached (deadline codec n) now

-- `isJwtExpired`
unfoldable pub is_jwt_expired : Codec → String → ℕ → Bool
unfolding exp_reached read_jwt_claims
is_jwt_expired codec token now = exp_reached codec (exp_of (read_jwt_claims codec token)) now
