-- ===== src/Api/Client/Laws.antt =====
-- What a request returns, and what it does to the tokens.
use wasm_hooks.Common.{
  ℕ, ◌≤◌, ◌≡◌, refl, String, Bool, true, false, ◌&&◌, not, Option, none, some, arith, Bool-cases,
  inl, inr, is_some, nat_eq, if◌then◌else◌,
}
use wasm_hooks.Json.{Json}
use wasm_hooks.Api.Session.{Storage, StorageLaws, console_for_path, get_token}
use wasm_hooks.Api.Session.Laws.{beside, get_token-clear_token}
use wasm_hooks.Api.Client.{
  Options, Sent, Response, Fetched, answered, failed, Parsed, parsed, unfit, Method, returned,
  is_ok, accept, read_body, read_payload, payload_of, settle_request, outgoing, api_request,
}

-- The response of a fetch is 401.
abbrev pub is_unauthorized : Fetched → Bool
is_unauthorized (answered response) = nat_eq response.status 401
is_unauthorized (failed message) = false

is_ok-range : (n : ℕ) → is_ok n ≡ true → (200 ≤ n) × (n ≤ 299)
unfolding is_ok
is_ok-range n h = (ground arith, ground arith)

ok_other : (n : ℕ) → is_ok n ≡ true → nat_eq n 401 ≡ false
unfolding is_ok
ok_other n h = ground arith

module _ {T : Type 0} (path : String) (options : Options T) where
  -- A response that is ok and whose payload is the value for the schema.
  abbrev pub Brings : T → Fetched → Type 0
  Brings v fetched =
      (response : Response) × (payload : Option Json) × (fetched ≡ answered response)
      × (200 ≤ response.status)
      × (response.status ≤ 299)
      × (payload_of response ≡ some payload)
      × (options.schema payload ≡ parsed v)

  accept-returned :
      (method : Method) (status : ℕ) (p : Parsed T) (v : T)
      → accept path method status p ≡ returned v
      → p ≡ parsed v
  unfolding accept
  accept-returned method status (parsed w) v e = cc
  accept-returned method status (unfit complaint) v e = cc

  read_payload-returned :
      (status : ℕ) (o : Option (Option Json)) (v : T)
      → read_payload path options status o ≡ returned v
      → (payload : Option Json) × (o ≡ some payload) × (options.schema payload ≡ parsed v)
  unfolding read_payload
  read_payload-returned status none v e = cc
  read_payload-returned status (some payload) v e =
      (payload, refl, accept-returned options.method status (options.schema payload) v e)

  module _ {S : Type 0} (storage : Storage S) where
    settle_request-returned :
        (fetched : Fetched) (s : Option S) (v : T)
        → (settle_request storage path options fetched s).0 ≡ returned v
        → Brings v fetched
    unfolding settle_request read_body
    settle_request-returned (failed message) s v e = cc
    settle_request-returned (answered response) s v e = elim (Bool-cases (is_ok response.status)) [
      | inl good ↦
          let (payload, shown, fits) =
            read_payload-returned response.status (payload_of response) v (ground arith) in
          let (low, high) = is_ok-range response.status good in
          (response, payload, refl, low, high, shown, fits)
      | inr bad ↦ elim (Bool-cases (nat_eq response.status 401 && not (is_some options.token))) [
        | inl out ↦ cc
        | inr other ↦ cc
      ]
    ]

    -- What the tokens are after an answer.
    settle_request-get_token :
        (laws : StorageLaws storage) (fetched : Fetched) (s : Option S)
        → let kind = console_for_path path in
          let s' = (settle_request storage path options fetched s).1 in
          (get_token storage kind s' ≡ (
            if is_unauthorized fetched && not (is_some options.token)
            then none
            else get_token storage kind s))
          × (get_token storage (beside kind) s' ≡ get_token storage (beside kind) s)
    unfolding settle_request
    settle_request-get_token laws (failed message) s = (refl, refl)
    settle_request-get_token laws (answered response) s =
        let cleared = get_token-clear_token storage laws (console_for_path path) s in
        elim (Bool-cases (is_ok response.status)) [
          | inl good ↦
              let other : nat_eq response.status 401 ≡ false = ok_other response.status good in
              rw (good, other) (refl, refl)
          | inr bad ↦
              elim (Bool-cases (nat_eq response.status 401 && not (is_some options.token))) [
                | inl out ↦ rw (bad, out) cleared
                | inr stays ↦ rw (bad, stays) (refl, refl)
              ]
        ]

module _ {T S W : Type 0} (storage : Storage S) (fetch : Sent → W → Fetched × W) (path : String)
    (options : Options T) (s : Option S) (w : W) where
  abbrev reply : Fetched
  reply = (fetch (outgoing storage path options s) w).0

  -- A request returns a value only from a response with a status from 200 to 299 whose payload, as JSON,
  -- is that value for the schema.
  pub api_request-returned :
      (v : T)
      → (api_request storage fetch path options s w).0 ≡ returned v
      → Brings path options v reply
  unfolding api_request
  api_request-returned v e = settle_request-returned path options storage reply s v e

  -- A request leaves the other console's token alone, and takes away its own console's token exactly if the
  -- answer is 401 and no token was given.
  pub api_request-get_token :
      StorageLaws storage
      → let kind = console_for_path path in
        let s' = (api_request storage fetch path options s w).1 in
        (get_token storage kind s' ≡ (
          if is_unauthorized reply && not (is_some options.token)
          then none
          else get_token storage kind s))
        × (get_token storage (beside kind) s' ≡ get_token storage (beside kind) s)
  unfolding api_request
  api_request-get_token laws = settle_request-get_token path options storage laws reply s
