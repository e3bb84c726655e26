-- ===== src/Mock/Sessions/Laws.antt =====
-- The console sessions of the mock API, as the console reads their tokens.
use Prim.Native.String
use Prim.Native.String.append
use text.Mathlib.TextLemmas.{append_assoc}
use wasm_hooks.Common.{
  ℕ, zero, suc, ◌+◌, ◌*◌, ◌/◌, ◌≤◌, leb, ◌≡◌, refl, ap, ◌∙◌, String, true, false, List, [], ◌∷◌,
  some, arith, Bool-cases, inl, inr, any, code,
}
use wasm_hooks.Common.Int.{pos}
use wasm_hooks.Clock.{to_iso_string}
use wasm_hooks.Json.{Json, obj, of_props, lookup}
use wasm_hooks.Json.Stringify.{stringify}
use wasm_hooks.Entity.Tenant.{ConsoleSession}
use wasm_hooks.Gate.Jwt.{
  Codec, JwtClaims, integer, equals, parse_claims, read_jwt_claims, is_jwt_expired, deadline,
  payload,
}
use wasm_hooks.Gate.Jwt.Laws.{
  Letter, plus, slash, other, text_of, url_text, IsBase64, is_plain-nat_eq, payload-token, prefixed,
  read_jwt_claims-url_text,
}
use wasm_hooks.Mock.Db.{Db}
use wasm_hooks.Mock.Http.{json}
use wasm_hooks.Mock.Http.Ends.{Ends}
use wasm_hooks.Mock.Tenants.{has_external_id}
use wasm_hooks.Mock.Sessions.{
  Encoder, to_url, without_padding, base64_url, jwt_header, console_claims, console_token,
  session_ttl_ms, create_console_session,
}

pub create_console_session-Ends :
    {F : Type 0} (db : Db F) (encoder : Encoder) (id : String) (now : ℕ)
    → Ends 201 (create_console_session encoder id now db).0
unfolding create_console_session
create_console_session-Ends db encoder id now =
    elim (Bool-cases (any (has_external_id id) db.tenants)) [
      | inl found ↦ rw found refl
      | inr missing ↦ rw missing (omega arith)
    ]

to_url-text_of : (ls : List Letter) → to_url (text_of ls) ≡ url_text ls
unfolding to_url
to_url-text_of [] = refl
to_url-text_of (plus ∷ ls) = prefixed "-" (to_url-text_of ls)
to_url-text_of (slash ∷ ls) = prefixed "_" (to_url-text_of ls)
to_url-text_of (other c p ∷ ls) =
    let (not_plus, not_minus, not_dot, not_slash, not_equals, not_low) =
      is_plain-nat_eq (code c) p in
    rw (not_plus, not_slash) (prefixed c (to_url-text_of ls))

to_url-one_more : (s : String) → to_url (String.◌++◌ s "=") ≡ String.◌++◌ (to_url s) "="
unfolding to_url
to_url-one_more String.[] = refl
to_url-one_more (String.◌∷◌ c s) =
    rw (append.cons c s "=") (rw (to_url-one_more s) (rw (append_assoc _ (to_url s) "=") refl))

to_url-equals : (k : ℕ) (s : String) → to_url (equals k s) ≡ equals k (to_url s)
unfolding equals
to_url-equals zero s = refl
to_url-equals (suc k) s =
    to_url-equals k (String.◌++◌ s "=") ∙ ap (λ t. equals k t) (to_url-one_more s)

without_padding-one_more : (s : String) → without_padding (String.◌++◌ s "=") ≡ without_padding s
unfolding without_padding
without_padding-one_more String.[] = refl
without_padding-one_more (String.◌∷◌ c s) =
    rw (append.cons c s "=") (rw (without_padding-one_more s) refl)

without_padding-equals : (k : ℕ) (s : String) → without_padding (equals k s) ≡ without_padding s
unfolding equals
without_padding-equals zero s = refl
without_padding-equals (suc k) s =
    without_padding-equals k (String.◌++◌ s "=") ∙ without_padding-one_more s

without_padding-url_text : (ls : List Letter) → without_padding (url_text ls) ≡ url_text ls
unfolding without_padding
without_padding-url_text [] = refl
without_padding-url_text (plus ∷ ls) = ground (arith, without_padding-url_text ls)
without_padding-url_text (slash ∷ ls) = ground (arith, without_padding-url_text ls)
without_padding-url_text (other c p ∷ ls) =
    let (not_plus, not_minus, not_dot, not_slash, not_equals, not_low) =
      is_plain-nat_eq (code c) p in
    ground (arith, without_padding-url_text ls)

-- A text in base64, put in the alphabet of URLs without its padding.
url-IsBase64 : (s : String) (b : IsBase64 s) → without_padding (to_url s) ≡ url_text b.letters
url-IsBase64 s b = rw b.text (
    rw (to_url-equals b.pad (text_of b.letters)) (
      rw (to_url-text_of b.letters)
        (without_padding-equals b.pad (url_text b.letters) ∙ without_padding-url_text b.letters)))

-- The encoder and the codec of a browser give a value back: `btoa` gives a text in base64, and `atob`, `TextDecoder` and
-- `JSON.parse` undo what `btoa`, `TextEncoder` and `JSON.stringify` do.
pub record Restores (encoder : Encoder) (codec : Codec) (v : Json) : Type 0 where
  pub in_base64 : IsBase64 (encoder.btoa (encoder.encode (stringify v)))
  pub atob_btoa :
      codec.atob (encoder.btoa (encoder.encode (stringify v))) ≡ some (encoder.encode (stringify v))
  pub decode_encode : codec.decode (encoder.encode (stringify v)) ≡ stringify v
  pub parse_stringify : codec.parse (stringify v) ≡ some v

-- The claims of a token as a value.
abbrev pub claims_json : String → ℕ → ℕ → Json
claims_json id expires_at now = obj (of_props (console_claims id expires_at now))

-- `expires_at / 1000`, whole.
abbrev pub issued_claims : String → ℕ → JwtClaims
issued_claims id expires_at = record {
  sub = some id;
  exp = some (integer (pos (expires_at / 1000)));
}

module _ (encoder : Encoder) (codec : Codec) (id : String) (expires_at now : ℕ)
    (header : IsBase64 (encoder.btoa (encoder.encode (stringify jwt_header))))
    (back : Restores encoder codec (claims_json id expires_at now)) where
  console_token-payload :
      payload (console_token encoder id expires_at now) ≡ some (url_text back.in_base64.letters)
  unfolding console_token base64_url
  console_token-payload =
      rw (url-IsBase64 (encoder.btoa (encoder.encode (stringify jwt_header))) header) (
        rw (url-IsBase64 _ back.in_base64)
          (payload-token header.letters back.in_base64.letters "mock-signature"))

  pub console_token-read_jwt_claims :
      read_jwt_claims codec (console_token encoder id expires_at now)
      ≡ some (issued_claims id expires_at)
  unfolding parse_claims lookup
  console_token-read_jwt_claims =
      read_jwt_claims-url_text codec (console_token encoder id expires_at now) _ back.in_base64 _
        (claims_json id expires_at now) console_token-payload back.atob_btoa
        (rw back.decode_encode back.parse_stringify)

  console_token-is_jwt_expired :
      (t : ℕ)
      → is_jwt_expired codec (console_token encoder id expires_at now) t
        ≡ leb (expires_at / 1000 * 1000) t
  unfolding is_jwt_expired deadline
  console_token-is_jwt_expired t = rw console_token-read_jwt_claims refl

whole_second-early : (at t : ℕ) → t + 1000 ≤ at → leb (at / 1000 * 1000) t ≡ false
whole_second-early at t h = ground arith

whole_second-late : (at t : ℕ) → at ≤ t → leb (at / 1000 * 1000) t ≡ true
whole_second-late at t h = ground arith

module _ {F : Type 0} (db : Db F) (encoder : Encoder) (codec : Codec) (id : String) (now : ℕ)
    (header : IsBase64 (encoder.btoa (encoder.encode (stringify jwt_header))))
    (back : Restores encoder codec (claims_json id (now + session_ttl_ms) now)) where
  -- For a tenant that exists, in a browser whose encoder and decoder give the claims back, the mock API issues a session
  -- whose token the console reads as one of that tenant, expired from an hour after the issue on at the latest, and
  -- not expired before the last second of that hour.
  pub create_console_session-is_jwt_expired :
      any (has_external_id id) db.tenants ≡ true
      → (s : ConsoleSession) × ((create_console_session encoder id now db).0 ≡ json 201 s)
        × (read_jwt_claims codec s.token ≡ some (issued_claims id (now + session_ttl_ms)))
        × ((t : ℕ) → t + 1000 ≤ now + session_ttl_ms → is_jwt_expired codec s.token t ≡ false)
        × ((t : ℕ) → now + session_ttl_ms ≤ t → is_jwt_expired codec s.token t ≡ true)
  unfolding create_console_session
  create_console_session-is_jwt_expired found = (
    record {
      token = console_token encoder id (now + session_ttl_ms) now;
      expires_at = to_iso_string (now + session_ttl_ms);
    },
    rw found refl,
    console_token-read_jwt_claims encoder codec id (now + session_ttl_ms) now header back,
    λ t early.
        console_token-is_jwt_expired encoder codec id (now + session_ttl_ms) now header back t
        ∙ whole_second-early (now + session_ttl_ms) t early,
    λ t late.
        console_token-is_jwt_expired encoder codec id (now + session_ttl_ms) now header back t
        ∙ whole_second-late (now + session_ttl_ms) t late,
  )
