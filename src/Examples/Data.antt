-- ===== src/Examples/Data.antt =====
-- The state and the bodies of the examples.
use wasm_hooks.Common.{ℕ, String, List, true, none, some, [], ◌∷◌, map}
use wasm_hooks.Common.Int.{pos}
use wasm_hooks.Text.{text_le}
use wasm_hooks.Json.{whole, str, arr, obj, Record, of_elems, of_props}
use wasm_hooks.Mock.Db.{Db}
use wasm_hooks.Mock.Seed.{initial_db}
use wasm_hooks.Mock.Log.{Floats}
use wasm_hooks.Mock.Sessions.{Encoder}
use wasm_hooks.Mock.Server.{Platform}

abbrev pub start : Db Unit
start = initial_db [] (pos 0)

abbrev pub encoder : Encoder
encoder = record { encode = λ s. []; btoa = λ bytes. "" }

-- Floating-point numbers of which there is one.
abbrev pub floats : Floats Unit
floats = record {
  literal = λ s. tt;
  ratio = λ n. tt;
  plus = λ x y. tt;
  minus = λ x y. tt;
  times = λ x y. tt;
  over = λ x y. tt;
  is_less = λ x y. true;
  round = λ x. tt;
  to_integer = λ x. some (pos 1);
  print = λ x. "1";
}

abbrev pub browser : Platform Unit
browser = record {
  collate = text_le;
  digest = λ bytes. bytes;
  encoder = encoder;
  floats = floats;
  parse_date = λ s. none;
  to_index = λ s. pos 100;
}

-- 2026-09-25T00:00:00Z
abbrev pub noon : ℕ
noon = 1790294400000

abbrev pub new_shop : Record
new_shop =
    ("external_id", str "merchant-c")
    ∷ ("name", str "Shop C")
    ∷ ("rate_limit_rps", whole (pos 5))
    ∷ []

abbrev pub faster : Record
faster = ("rate_limit_rps", whole (pos 9)) ∷ []

-- A definition of a hook, with its list of effects.
abbrev pub definition : List String → Record
definition effects =
    (
      "input_schema",
      obj (of_props (("type", str "object") ∷ ("required", arr (of_elems (str "a" ∷ []))) ∷ [])),
    )
    ∷ ("output_schema", obj (of_props (("type", str "object") ∷ [])))
    ∷ ("timeout_ms", whole (pos 50))
    ∷ ("memory_max_pages", whole (pos 64))
    ∷ ("allowed_host_functions", arr (of_elems []))
    ∷ ("allowed_effect_types", arr (of_elems (map str effects)))
    ∷ ("sample_input", obj (of_props (("a", whole (pos 1)) ∷ [])))
    ∷ []
