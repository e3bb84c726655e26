-- ===== src/Json.antt =====
-- JSON values as `response.json()` and `request.json()` give them, and what the code does with
-- them: property access, `in`, `String(v)` and `JSON.stringify`. An object is the list of its
-- properties, with distinct keys, in JavaScript's order. A number is an integer or the text of a
-- number that is no integer.
pub mod Stringify
use Prim.Native.String
use wasm_hooks.Common.{
  ℕ, suc, ◌+◌, String, Bool, true, false, ◌&&◌, ◌||◌, not, List, [], ◌∷◌, map, Option, none, some,
  code, ltb, nat_eq, if◌then◌else◌, is_some, any, ◌==◌,
}
use wasm_hooks.Common.Int.{ℤ, pos, negsuc}
use wasm_hooks.Text.{concat, decimal, hexadecimal, pad_start}

mutual
  pub data Json : Type 0 where
    null : Json
    bool : Bool → Json
    whole : ℤ → Json
    fraction : String → Json
    str : String → Json
    arr : Items → Json
    obj : Fields → Json

  pub data Items : Type 0 where
    nil : Items
    cons : Json → Items → Items

  pub data Fields : Type 0 where
    end : Fields
    field : String → Json → Fields → Fields

-- An object's properties, as an association list.
abbrev pub Record : Type 0
Record = List (String × Json)

abbrev pub props : Fields → Record
props end = []
props (field k v fs) = (k, v) ∷ props fs

abbrev pub of_props : Record → Fields
of_props [] = end
of_props ((k, v) ∷ fs) = field k v (of_props fs)

abbrev pub elems : Items → List Json
elems nil = []
elems (cons v vs) = v ∷ elems vs

abbrev pub of_elems : List Json → Items
of_elems [] = nil
of_elems (v ∷ vs) = cons v (of_elems vs)

-- `record[key]` on own properties; `none` is `undefined`.
unfoldable pub lookup {ℓ} : {V : Type ℓ} → String → List (String × V) → Option V
lookup key [] = none
lookup key ((k, v) ∷ fs) = let rest = lookup key fs in if k == key then some v else rest

-- The names that every object has by its prototype.
abbrev object_prototype : List String
object_prototype =
    "constructor" ∷ "__defineGetter__" ∷ "__defineSetter__" ∷ "hasOwnProperty" ∷ "__lookupGetter__"
    ∷ "__lookupSetter__" ∷ "isPrototypeOf" ∷ "propertyIsEnumerable" ∷ "toString" ∷ "valueOf"
    ∷ "__proto__" ∷ "toLocaleString" ∷ []

abbrev pub inherited : String → Bool
inherited key = any (λ k. k == key) object_prototype

-- `key in record`
unfoldable pub has_property : String → Record → Bool
unfolding lookup
has_property key fs = is_some (lookup key fs) || inherited key

abbrev minus : String → String
minus s = concat ("-" ∷ s ∷ [])

abbrev int_text : ℤ → String
int_text (pos n) = decimal n
int_text (negsuc n) = minus (decimal (suc n))

abbrev bool_text : Bool → String
bool_text true = "true"
bool_text false = "false"

-- The pieces of an array's text, with commas between.
abbrev pub join : String → List String → String
join sep [] = ""
join sep (s ∷ []) = s
join sep (s ∷ t ∷ ss) = concat (s ∷ sep ∷ join sep (t ∷ ss) ∷ [])

-- `String(v)`: an array joins its elements, an object has one text.
unfoldable mutual
  pub to_text : Json → String
  to_text null = "null"
  to_text (bool b) = bool_text b
  to_text (whole z) = int_text z
  to_text (fraction s) = s
  to_text (str s) = s
  to_text (arr vs) = join "," (to_texts vs)
  to_text (obj fs) = "[object Object]"

  pub to_texts : Items → List String
  to_texts nil = []
  to_texts (cons null vs) = "" ∷ to_texts vs
  to_texts (cons v vs) = to_text v ∷ to_texts vs
