-- ===== src/Examples/Log.antt =====
-- Sessions and the log of invocations at concrete inputs.
use wasm_hooks.Common.{
  ℕ, ◌+◌, ◌≤◌, ltb, ◌≡◌, refl, true, false, List, [], ◌∷◌, none, some, All, arith, any, length,
  IsSorted, ◌⊎◌,
}
use wasm_hooks.Common.Int.{pos}
use wasm_hooks.Json.Stringify.{stringify}
use wasm_hooks.Entity.Invocation.{parse_outcome, Invocation, ok, timeout}
use wasm_hooks.Entity.Tenant.{ConsoleSession}
use wasm_hooks.Gate.Jwt.{Codec, equals, read_jwt_claims, is_jwt_expired}
use wasm_hooks.Gate.Jwt.Laws.{Letter, other, IsBase64}
use wasm_hooks.Mock.Http.{json}
use wasm_hooks.Mock.Log.{LogQuery, select}
use wasm_hooks.Mock.Log.Laws.{AreNumbered}
use wasm_hooks.Mock.Log.Listing.{is_newer, is_number, is_wanted, select-newest, select_complete}
use wasm_hooks.Mock.Random.{next_seed, draw}
use wasm_hooks.Mock.Random.Laws.{draw-bounds, IsInt32, IsUint32}
use wasm_hooks.Mock.Seed.{initial_state}
use wasm_hooks.Mock.Server.{Request, invocations_list, run}
use wasm_hooks.Mock.Server.Numbered.{reachable-AreNumbered}
use wasm_hooks.Mock.Sessions.{Encoder, create_console_session, session_ttl_ms}
use wasm_hooks.Mock.Sessions.Laws.{
  claims_json, issued_claims, create_console_session-is_jwt_expired,
}
use wasm_hooks.Examples.Data.{start, browser, floats, noon}

-- An encoder for which every text is one byte group, and the codec that knows the claims of one token.
abbrev short : Encoder
short = record { encode = λ s. 0 ∷ 0 ∷ 0 ∷ []; btoa = λ bytes. "AAAA" }

abbrev knowing : Codec
knowing = record {
  atob = λ s. some (0 ∷ 0 ∷ 0 ∷ []);
  decode = λ bytes. stringify (claims_json "merchant-a" (noon + session_ttl_ms) noon);
  parse = λ s. some (claims_json "merchant-a" (noon + session_ttl_ms) noon);
  milliseconds = λ s. pos 0;
}

abbrev letter : Letter
letter = other "A" refl

four : IsBase64 "AAAA"
unfolding equals
four = record {
  letters = letter ∷ letter ∷ letter ∷ letter ∷ [];
  pad = 0;
  text = refl;
  few = omega arith;
  groups = refl;
  filled = refl;
}

create_console_session-is_jwt_expired_example :
    (s : ConsoleSession) × ((create_console_session short "merchant-a" noon start).0 ≡ json 201 s)
    × (read_jwt_claims knowing s.token ≡ some (issued_claims "merchant-a" (noon + session_ttl_ms)))
    × ((t : ℕ) → t + 1000 ≤ noon + session_ttl_ms → is_jwt_expired knowing s.token t ≡ false)
    × ((t : ℕ) → noon + session_ttl_ms ≤ t → is_jwt_expired knowing s.token t ≡ true)
create_console_session-is_jwt_expired_example =
    create_console_session-is_jwt_expired start short knowing "merchant-a" noon four
      (record { in_base64 = four; atob_btoa = refl; decode_encode = refl; parse_stringify = refl })
      refl

abbrev entry : ℕ → Invocation Unit
entry n = record {
  seq = n;
  ts = "2026-09-25T00:00:00.000Z";
  hook = "checkout.discount";
  module_hash = none;
  outcome = ok;
  reason = none;
  error = none;
  duration_ms = tt;
  cold_start = false;
  idempotency_key = none;
  logs = [];
}

abbrev entries : List (Invocation Unit)
entries = entry 1 ∷ record (entry 2) { outcome = timeout } ∷ entry 3 ∷ entry 4 ∷ []

-- Two entries of the outcome `ok`.
abbrev two_ok : LogQuery
two_ok = record { outcome = some "ok"; hook = none; limit = some "2" }

select-newest_example :
    let shown = select (λ s. pos 2) two_ok entries in
    IsSorted is_newer shown × All (λ i. is_wanted two_ok i ≡ true) shown × (length shown ≤ 2)
unfolding AreNumbered
select-newest_example =
    select-newest (λ s. pos 2) two_ok 1 2 entries (refl, (refl, (refl, (refl, tt)))) refl

select_complete_example :
    let shown = select (λ s. pos 2) two_ok entries in
    (any (is_number 1) shown ≡ true) ⊎ ((length shown ≡ 2) × All (λ i. ltb 1 i.seq ≡ true) shown)
unfolding AreNumbered parse_outcome
select_complete_example =
    select_complete (λ s. pos 2) two_ok 1 2 entries (refl, (refl, (refl, (refl, tt)))) refl 1 refl

abbrev look : Request
look = record {
  call = invocations_list two_ok;
  authorization = some "Bearer whk_mockBootstrapKey000000000000000";
  now = noon;
}

reachable-AreNumbered_example :
    AreNumbered 1 (run browser (look ∷ look ∷ []) (initial_state floats noon (pos 42))).invocations
reachable-AreNumbered_example = reachable-AreNumbered browser noon (pos 42) (look ∷ look ∷ [])

draw-bounds_example : IsInt32 (next_seed (pos 42)) × IsUint32 (draw (next_seed (pos 42)))
draw-bounds_example = draw-bounds (pos 42)
