-- ===== src/Mock/Log.antt =====
-- web/src/mocks/db.ts and handlers.ts: the log of invocations. Its entries are drawn with floating-point numbers, which
-- are an interface; the state of the generator goes through every draw in the order of the source's calls.
pub mod Laws
pub mod Listing
use wasm_hooks.Common.{
  ℕ, zero, suc, ◌+◌, ◌-◌, ◌*◌, ltb, String, Bool, true, false, not, ◌&&◌, ◌||◌, List, [], ◌∷◌, ◌++◌,
  Option, none, some, keep, take, length, if◌then◌else◌, ◌==◌,
}
use wasm_hooks.Common.Int.{ℤ, pos, negsuc}
use wasm_hooks.Text.{concat, decimal, is_empty}
use wasm_hooks.Clock.{to_iso_string}
use wasm_hooks.Json.{lookup}
use wasm_hooks.Entity.Hook.{Binding}
use wasm_hooks.Entity.Invocation.{
  Invocation, Outcome, ok, no_handler, timeout, handler_error, unavailable, outcome_is,
  parse_outcome,
}
use wasm_hooks.Mock.Db.{Db}
use wasm_hooks.Mock.Http.{Reply, json}
use wasm_hooks.Mock.Random.{next_seed, draw}

-- The operations of floating-point numbers, with the literals of the source as their texts; `ratio n` is
-- n / 4294967296, and `print` is the text of a number that is no integer.
pub record Floats (F : Type 0) : Type 0 where
  pub literal : String → F
  pub ratio : ℤ → F
  pub plus : F → F → F
  pub minus : F → F → F
  pub times : F → F → F
  pub over : F → F → F
  pub is_less : F → F → Bool
  pub round : F → F
  -- an integer, if the number is one
  pub to_integer : F → Option ℤ
  pub print : F → String

-- An entry of `OUTCOME_WEIGHTS`.
pub record OutcomeWeight : Type 0 where
  pub outcome : Outcome
  pub weight : String
  pub reason : Option String
  pub error : Option String

abbrev pub first_weight : OutcomeWeight
first_weight = record { outcome = ok; weight = "0.86"; reason = none; error = none }

-- `OUTCOME_WEIGHTS`
abbrev pub outcome_weights : List OutcomeWeight
outcome_weights =
    first_weight
    ∷ record { outcome = timeout; weight = "0.05"; reason = none; error = none }
    ∷ record {
      outcome = handler_error;
      weight = "0.04";
      reason = some "trap";
      error = some "wasm error: unreachable";
    }
    ∷ record {
      outcome = handler_error;
      weight = "0.02";
      reason = some "invalid_output";
      error = some "result does not match output schema";
    }
    ∷ record {
      outcome = unavailable;
      weight = "0.02";
      reason = some "pool_saturated";
      error = some "no free instance for this tenant";
    }
    ∷ record { outcome = no_handler; weight = "0.01"; reason = none; error = none }
    ∷ []

-- The entry at a distance from the end of the log: `new Date(now - k * 30_000)`.
abbrev pub moment : ℕ → ℕ → String
moment now k = to_iso_string (now - k * 30000)

abbrev pub has_run : Outcome → Bool
has_run outcome = not (outcome_is outcome no_handler) && not (outcome_is outcome unavailable)

abbrev pub last_invocation : {F : Type 0} → List (Invocation F) → Option (Invocation F)
last_invocation [] = none
last_invocation (i ∷ []) = some i
last_invocation (i ∷ j ∷ is) = last_invocation (j ∷ is)

-- `Date.now() - Date.parse(ts) < 4_000`; a text that is no date gives NaN, which is not less.
abbrev pub is_recent : (String → Option ℕ) → ℕ → String → Bool
is_recent parse_date now ts = before (parse_date ts)
  where
    before : Option ℕ → Bool
    before none = false
    before (some at) = ltb now (at + 4000)

module _ {F : Type 0} (floats : Floats F) where
  -- `random()`: a number, and the state after it.
  unfoldable pub random_number : ℤ → F × ℤ
  unfolding draw next_seed
  random_number seed = (floats.ratio (draw (next_seed seed)), next_seed seed)

  -- The loop on the weights.
  unfoldable pub choose : F → List OutcomeWeight → OutcomeWeight
  choose roll [] = first_weight
  choose roll (w ∷ ws) =
      let rest = choose (floats.minus roll (floats.literal w.weight)) ws in
      if floats.is_less roll (floats.literal w.weight) then w else rest

  -- A draw that is made only where a test holds, as the right side of `&&` is.
  drawn_if : Bool → ℤ → Option F × ℤ
  unfolding random_number
  drawn_if true seed = (some (random_number seed).0, (random_number seed).1)
  drawn_if false seed = (none, seed)

  below_literal : Option F → String → Bool
  below_literal none bound = false
  below_literal (some x) bound = floats.is_less x (floats.literal bound)

  duration_of : Outcome → F → F
  duration_of outcome x =
      if outcome_is outcome timeout
      then floats.plus (floats.literal "50") (floats.times x (floats.literal "2"))
      else floats.plus (floats.literal "0.3") (floats.times x (floats.literal "2.5"))

  -- `Math.round(x * 100) / 100`
  hundredths : F → F
  hundredths x =
      floats.over (floats.round (floats.times x (floats.literal "100"))) (floats.literal "100")

  logs_of : Option F → List String
  logs_of none = []
  logs_of (some x) =
      concat (
        "info: discount computed: "
        ∷ (if floats.is_less x (floats.literal "0.5") then "0" else "10")
        ∷ [])
      ∷ []

  -- `makeInvocation`
  unfoldable pub make_invocation : ℕ → String → Option String → ℤ → Invocation F × ℤ
  unfolding choose random_number drawn_if below_literal duration_of hundredths logs_of decimal
  make_invocation seq ts module_hash seed =
      let (roll, s1) = random_number seed in
      let chosen = choose roll outcome_weights in
      let (x, s2) = random_number s1 in
      let ran = has_run chosen.outcome in
      let (cold, s3) = drawn_if ran s2 in
      let (value, s4) = drawn_if (outcome_is chosen.outcome ok) s3 in
      (
        record {
          seq = seq;
          ts = ts;
          hook = "checkout.discount";
          module_hash = if ran then module_hash else none;
          outcome = chosen.outcome;
          reason = chosen.reason;
          error = chosen.error;
          duration_ms = hundredths (duration_of chosen.outcome x);
          cold_start = below_literal cold "0.05";
          idempotency_key =
              some (concat ("order-" ∷ decimal (1000 + seq) ∷ ":checkout.discount" ∷ []));
          logs = logs_of value;
        },
        s4,
      )

  -- The entries from number `seq` on, `k` of them, up to the present.
  unfoldable pub past_invocations : ℕ → ℕ → ℕ → String → ℤ → List (Invocation F) × ℤ
  unfolding make_invocation
  past_invocations zero seq now hash seed = ([], seed)
  past_invocations (suc k) seq now hash seed =
      let (first, s) = make_invocation seq (moment now (suc k)) (some hash) seed in
      let (rest, s') = past_invocations k (seq + 1) now hash s in (first ∷ rest, s')

  -- `initialInvocations`
  unfoldable pub initial_invocations : String → ℕ → ℤ → List (Invocation F) × ℤ
  unfolding past_invocations
  initial_invocations hash now seed = past_invocations 60 1 now hash seed

  unfoldable pub append_invocation :
      ℕ → Option Binding → Option (Invocation F) → (String → Option ℕ) → Db F → Db F
  unfolding make_invocation
  append_invocation now none last parse_date db = db
  append_invocation now (some b) none parse_date db = db
  append_invocation now (some b) (some last) parse_date db =
      let (next, seed) =
        make_invocation (last.seq + 1) (to_iso_string now) b.active_module_hash db.random in
      if is_recent parse_date now last.ts
      then db
      else record db { invocations = db.invocations ++ next ∷ []; random = seed }

  -- `tickInvocations`
  unfoldable pub tick_invocations : (String → Option ℕ) → ℕ → Db F → Db F
  unfolding append_invocation lookup
  tick_invocations parse_date now db =
      append_invocation now (lookup "checkout.discount" db.bindings)
        (last_invocation db.invocations) parse_date db

-- The parameters of the listing.
pub record LogQuery : Type 0 where
  pub outcome : Option String
  pub hook : Option String
  pub limit : Option String

-- `outcomeSchema.safeParse(params.get("outcome"))`
abbrev pub wanted_outcome : Option String → Option Outcome
wanted_outcome none = none
wanted_outcome (some s) = parse_outcome s

-- `Number(params.get("limit") ?? 100)`, as an index of `slice`.
abbrev pub limit_of : (String → ℤ) → Option String → ℤ
limit_of to_index none = pos 100
limit_of to_index (some s) = to_index s

module _ {F : Type 0} where
  abbrev pub has_outcome : Option Outcome → Invocation F → Bool
  has_outcome none i = true
  has_outcome (some o) i = outcome_is i.outcome o

  abbrev pub has_hook : Option String → Invocation F → Bool
  has_hook none i = true
  has_hook (some hook) i = is_empty hook || i.hook == hook

  -- `toReversed`, onto a list.
  abbrev pub reverse_onto : List (Invocation F) → List (Invocation F) → List (Invocation F)
  reverse_onto [] acc = acc
  reverse_onto (i ∷ is) acc = reverse_onto is (i ∷ acc)

  -- `slice(0, limit)`: a negative limit counts from the end.
  abbrev pub slice : ℤ → List (Invocation F) → List (Invocation F)
  slice (pos n) is = take n is
  slice (negsuc n) is = take (length is - suc n) is

  unfoldable pub select : (String → ℤ) → LogQuery → List (Invocation F) → List (Invocation F)
  unfolding parse_outcome
  select to_index query log = slice (limit_of to_index query.limit) (
      reverse_onto
        (keep (has_hook query.hook) (keep (has_outcome (wanted_outcome query.outcome)) log)) [])

  -- `GET /tenant/invocations`
  unfoldable pub list_invocations :
      Floats F
      → (String → Option ℕ)
      → (String → ℤ)
      → LogQuery
      → ℕ
      → Db F
      → Reply (List (Invocation F)) × Db F
  unfolding tick_invocations select
  list_invocations floats parse_date to_index query now db =
      let ticked = tick_invocations floats parse_date now db in
      (json 200 (select to_index query ticked.invocations), ticked)
