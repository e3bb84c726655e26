-- ===== src/Api/Client.antt =====
-- web/src/shared/api/http.ts: `apiRequest`. `fetch` is a function on the state of the world outside; a schema is a
-- function on a payload. A query's numbers are integers.
pub mod Laws
use wasm_hooks.Common.{
  ℕ, leb, nat_eq, if◌then◌else◌, ◌&&◌, not, String, Bool, true, false, List, [], ◌∷◌, Option, none,
  some, or_else, is_some, get_or_else,
}
use wasm_hooks.Common.Int.{ℤ}
use wasm_hooks.Text.{concat, decimal, is_empty}
use wasm_hooks.Json.{
  Json, null, bool, whole, fraction, str, arr, obj, Record, props, lookup, to_text,
}
use wasm_hooks.Api.Session.{ConsoleKind, Storage, console_for_path, get_token, clear_token}

pub data Method : Type 0 where
  get post put patch delete : Method

unfoldable pub method_text : Method → String
method_text get = "GET"
method_text post = "POST"
method_text put = "PUT"
method_text patch = "PATCH"
method_text delete = "DELETE"

pub data Body : Type 0 where
  no_body form_data : Body
  json_body : Json → Body

pub data QueryValue : Type 0 where
  undefined : QueryValue
  word : String → QueryValue
  number : ℤ → QueryValue

-- The loop of `apiUrl`: the parameters that are set.
unfoldable pub query_params : List (String × QueryValue) → List (String × String)
unfolding to_text
query_params [] = []
query_params ((key, undefined) ∷ query) = query_params query
query_params ((key, word s) ∷ query) =
    let rest = query_params query in if is_empty s then rest else (key, s) ∷ rest
query_params ((key, number z) ∷ query) = (key, to_text (whole z)) ∷ query_params query

-- What a payload is for a schema: a value, or the text of the complaint.
pub data Parsed (T : Type 0) : Type 0 where
  parsed : T → Parsed T
  unfit : String → Parsed T

-- `RequestOptions`, without the signal that aborts.
pub record Options (T : Type 0) : Type 0 where
  pub schema : Option Json → Parsed T
  pub method : Method
  pub body : Body
  pub query : List (String × QueryValue)
  pub token : Option String

-- What `fetch` is given,
pub record Sent : Type 0 where
  pub path : String
  pub params : List (String × String)
  pub verb : Method
  pub authorization : Option String
  pub content_type : Option String
  pub content : Body

-- and what it gives: a response, whose body is JSON or is not, or a failure.
pub record Response : Type 0 where
  pub status : ℕ
  pub payload : Option Json

pub data Fetched : Type 0 where
  answered : Response → Fetched
  failed : String → Fetched

-- What `apiRequest` throws: an `ApiError`, or any other value.
pub data Thrown : Type 0 where
  api_error : (status : ℕ) (message : String) (detail : Option String) → Thrown
  other_error : (message : String) → Thrown

pub data Result (T : Type 0) : Type 0 where
  returned : T → Result T
  thrown : Thrown → Result T

-- `problemSchema`
pub record Problem : Type 0 where
  pub title : Option String
  pub detail : Option String

-- A field that is a text, null or not there.
nullish_text : Option Json → Option (Option String)
nullish_text none = some none
nullish_text (some null) = some none
nullish_text (some (str s)) = some (some s)
nullish_text (some v) = none

nullish_number : Option Json → Bool
nullish_number none = true
nullish_number (some null) = true
nullish_number (some (whole z)) = true
nullish_number (some (fraction s)) = true
nullish_number (some v) = false

problem_fields : Bool → Option (Option String) → Option (Option String) → Option Problem
problem_fields true (some title) (some detail) = some (record { title = title; detail = detail })
problem_fields _ _ _ = none

-- `problemSchema.safeParse`
unfoldable pub read_problem : Json → Option Problem
unfolding nullish_text nullish_number problem_fields lookup
read_problem (obj fs) =
    problem_fields
      (is_some (nullish_text (lookup "type" (props fs)))
        && nullish_number (lookup "status" (props fs)))
      (nullish_text (lookup "title" (props fs))) (nullish_text (lookup "detail" (props fs)))
read_problem v = none

-- `response.ok`
unfoldable pub is_ok : ℕ → Bool
is_ok status = leb 200 status && leb status 299

unfoldable pub authorization_of : Option String → Option String
authorization_of none = none
authorization_of (some token) =
    if is_empty token then none else some (concat ("Bearer " ∷ token ∷ []))

content_type_of : Body → Option String
content_type_of (json_body v) = some "application/json"
content_type_of body = none

unfoldable pub sent_of : {T : Type 0} → String → Options T → Option String → Sent
unfolding authorization_of content_type_of query_params
sent_of path options token = record {
  path = path;
  params = query_params options.query;
  verb = options.method;
  authorization = authorization_of token;
  content_type = content_type_of options.body;
  content = options.body;
}

-- The error of a response that is not ok.
problem_title : Option Problem → Option String
problem_title none = none
problem_title (some p) = p.title

problem_detail : Option Problem → Option String
problem_detail none = none
problem_detail (some p) = p.detail

unfoldable pub error_of : Response → Thrown
unfolding read_problem problem_title problem_detail decimal
error_of response =
    let problem = read_problem (get_or_else response.payload null) in
    api_error response.status
      (get_or_else (problem_title problem) (concat ("HTTP " ∷ decimal response.status ∷ [])))
      (problem_detail problem)

pub accept : {T : Type 0} → String → Method → ℕ → Parsed T → Result T
unfolding method_text
accept path method status (parsed v) = returned v
accept path method status (unfit complaint) = thrown (
    api_error status
      (concat ("Ответ " ∷ method_text method ∷ " " ∷ path ∷ " не соответствует контракту" ∷ []))
      (some complaint))

sent_json : Option Json → Option (Option Json)
sent_json none = none
sent_json (some v) = some (some v)

-- The payload, `undefined` for 204; `none` where the body is no JSON and `response.json()` throws.
unfoldable pub payload_of : Response → Option (Option Json)
unfolding sent_json
payload_of response = if nat_eq response.status 204 then some none else sent_json response.payload

pub read_payload : {T : Type 0} → String → Options T → ℕ → Option (Option Json) → Result T
unfolding accept
read_payload path options status none = thrown (other_error "SyntaxError")
read_payload path options status (some v) = accept path options.method status (options.schema v)

-- The value of a response that is ok.
unfoldable pub read_body : {T : Type 0} → String → Options T → Response → Result T
unfolding read_payload payload_of
read_body path options response = read_payload path options response.status (payload_of response)

module _ {S T : Type 0} (storage : Storage S) where
  -- What follows the answer.
  pub settle_request : String → Options T → Fetched → Option S → Result T × Option S
  unfolding error_of read_body clear_token is_ok
  settle_request path options (failed message) s = (thrown (other_error message), s)
  settle_request path options (answered response) s =
      let good = read_body path options response in
      let cleared = clear_token storage (console_for_path path) s in
      if is_ok response.status
      then (good, s)
      else if nat_eq response.status 401 && not (is_some options.token)
      then (thrown (error_of response), cleared)
      else (thrown (error_of response), s)

  -- What is sent: with the token that is given, or else with the console's own.
  unfoldable pub outgoing : String → Options T → Option S → Sent
  unfolding sent_of get_token console_for_path
  outgoing path options s =
      sent_of path options (or_else options.token (get_token storage (console_for_path path) s))

  -- `apiRequest`; `W` is the state of the world that `fetch` changes.
  unfoldable pub api_request :
      {W : Type 0}
      → (Sent → W → Fetched × W)
      → String
      → Options T
      → Option S
      → W
      → Result T × Option S × W
  unfolding settle_request outgoing
  api_request fetch path options s w =
      let (fetched, w') = fetch (outgoing path options s) w in
      let (result, s') = settle_request path options fetched s in (result, s', w')
