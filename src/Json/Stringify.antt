-- ===== src/Json/Stringify.antt =====
-- `JSON.stringify(v)` without indentation.
use Prim.Native.String
use wasm_hooks.Common.{ℕ, suc, String, Bool, true, false, [], ◌∷◌, code, ltb, nat_eq, if◌then◌else◌}
use wasm_hooks.Common.Int.{ℤ, pos, negsuc}
use wasm_hooks.Text.{concat, decimal, hexadecimal, pad_start}
use wasm_hooks.Json.{
  Json, null, bool, whole, fraction, str, arr, obj, Items, nil, cons, Fields, end, field,
}

-- A character below U+0020 without a short form.
control : ℕ → String
unfolding hexadecimal pad_start
control c = concat ("\\u" ∷ pad_start 4 (hexadecimal c) ∷ [])

escape : String → String
unfolding control
escape String.[] = ""
escape (String.◌∷◌ c s) =
    let rest = escape s in
    let n = code c in
    if nat_eq n 0x22
    then String.◌++◌ "\\\"" rest
    else if nat_eq n 0x5c
    then String.◌++◌ "\\\\" rest
    else if nat_eq n 8
    then String.◌++◌ "\\b" rest
    else if nat_eq n 9
    then String.◌++◌ "\\t" rest
    else if nat_eq n 10
    then String.◌++◌ "\\n" rest
    else if nat_eq n 12
    then String.◌++◌ "\\f" rest
    else if nat_eq n 13
    then String.◌++◌ "\\r" rest
    else if ltb n 0x20
    then String.◌++◌ (control n) rest
    else String.◌∷◌ c rest

quote : String → String
unfolding escape
quote s = concat ("\"" ∷ escape s ∷ "\"" ∷ [])

number_text : ℤ → String
unfolding decimal
number_text (pos n) = decimal n
number_text (negsuc n) = concat ("-" ∷ decimal (suc n) ∷ [])

truth_text : Bool → String
truth_text true = "true"
truth_text false = "false"

unfoldable mutual
  unfolding quote number_text truth_text

  pub stringify : Json → String
  stringify null = "null"
  stringify (bool b) = truth_text b
  stringify (whole z) = number_text z
  stringify (fraction s) = s
  stringify (str s) = quote s
  stringify (arr nil) = "[]"
  stringify (arr (cons v vs)) = concat ("[" ∷ stringify v ∷ stringify_items vs ∷ [])
  stringify (obj end) = "{}"
  stringify (obj (field k v fs)) =
      concat ("{" ∷ quote k ∷ ":" ∷ stringify v ∷ stringify_fields fs ∷ [])

  -- The elements after the first, and the bracket.
  pub stringify_items : Items → String
  stringify_items nil = "]"
  stringify_items (cons v vs) = concat ("," ∷ stringify v ∷ stringify_items vs ∷ [])

  pub stringify_fields : Fields → String
  stringify_fields end = "}"
  stringify_fields (field k v fs) =
      concat ("," ∷ quote k ∷ ":" ∷ stringify v ∷ stringify_fields fs ∷ [])
