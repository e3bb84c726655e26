-- ===== src/Contract/Shape.antt =====
-- The types of JSON values that web/src/shared/api/contract.gen.ts and contract.ts are about, as data: which values a
-- type holds, and TypeScript's `A extends B` for these types.
pub mod Bools
pub mod Laws
use wasm_hooks.Common.{
  String, Bool, true, false, not, ◌&&◌, ◌||◌, List, [], ◌∷◌, Option, none, some, all, ◌==◌,
  if◌then◌else◌,
}
use wasm_hooks.Json.{Json, null, bool, whole, fraction, str, arr, obj, props, elems, lookup}

mutual
  -- `table s` is `{ [key: string]: s }`.
  pub data Shape : Type 0 where
    string number boolean nothing unknown : Shape
    literal : String → Shape
    table list : Shape → Shape
    either : Shape → Shape → Shape
    object : Props → Shape

  -- The properties of an object type, optional ones (`name?: T`) marked.
  pub data Props : Type 0 where
    done : Props
    prop : (name : String) (is_optional : Bool) → Shape → Props → Props

-- A property as the source writes it, `name: T` or `name?: T`, and an object type of such.
pub record Property : Type 0 where
  pub key : String
  pub optional : Bool
  pub type : Shape

abbrev pub need : String → Shape → Property
need key s = record { key = key; optional = false; type = s }

abbrev pub may : String → Shape → Property
may key s = record { key = key; optional = true; type = s }

abbrev pub props_of : List Property → Props
props_of [] = done
props_of (p ∷ ps) = prop p.key p.optional p.type (props_of ps)

abbrev pub object_of : List Property → Shape
object_of ps = object (props_of ps)

abbrev pub is_text : Json → Bool
is_text (str s) = true
is_text v = false

abbrev pub is_number : Json → Bool
is_number (whole z) = true
is_number (fraction s) = true
is_number v = false

abbrev pub is_boolean : Json → Bool
is_boolean (bool b) = true
is_boolean v = false

abbrev pub is_null : Json → Bool
is_null null = true
is_null v = false

abbrev pub is_word : String → Json → Bool
is_word w (str s) = s == w
is_word w v = false

abbrev pub is_object : Json → Bool
is_object (obj fs) = true
is_object v = false

abbrev pub all_elements : (Json → Bool) → Json → Bool
all_elements p (arr vs) = all p (elems vs)
all_elements p v = false

abbrev pub all_values : (Json → Bool) → Json → Bool
all_values p (obj fs) = all (λ e. p e.1) (props fs)
all_values p v = false

-- A property of a value; `none` is `undefined`.
abbrev pub field_of : String → Json → Option Json
field_of key (obj fs) = lookup key (props fs)
field_of key v = none

abbrev pub test_field : Bool → (Json → Bool) → Option Json → Bool
test_field is_optional p none = is_optional
test_field is_optional p (some v) = p v

abbrev pub has_prop : String → Props → Bool
has_prop key done = false
has_prop key (prop name is_optional s ps) = name == key || has_prop key ps

-- Every property of an object is one of the type's.
abbrev pub only_known : Props → Json → Bool
only_known ps (obj fs) = all (λ e. has_prop e.0 ps) (props fs)
only_known ps v = false

-- The JSON values of a type. TypeScript lets an object have more properties than its type names; `exact` asks for
-- objects that have no more.
unfoldable mutual
  unfolding lookup

  pub conforms : (exact : Bool) → Shape → Json → Bool
  conforms exact string v = is_text v
  conforms exact number v = is_number v
  conforms exact boolean v = is_boolean v
  conforms exact nothing v = is_null v
  conforms exact unknown v = true
  conforms exact (literal w) v = is_word w v
  conforms exact (table s) v = all_values (λ w. conforms exact s w) v
  conforms exact (list s) v = all_elements (λ w. conforms exact s w) v
  conforms exact (either s t) v = conforms exact s v || conforms exact t v
  conforms exact (object ps) v =
      is_object v && (not exact || only_known ps v) && conforms_props exact ps v

  pub conforms_props : (exact : Bool) → Props → Json → Bool
  conforms_props exact done v = true
  conforms_props exact (prop name is_optional s ps) v =
      test_field is_optional (λ w. conforms exact s w) (field_of name v)
      && conforms_props exact ps v

-- Each member of a union passes the test.
abbrev pub members : (Shape → Bool) → Shape → Bool
members p (either a b) = members p a && members p b
members p a = p a

abbrev pub is_text_type : Shape → Bool
is_text_type string = true
is_text_type (literal w) = true
is_text_type a = false

abbrev pub is_number_type : Shape → Bool
is_number_type number = true
is_number_type a = false

abbrev pub is_boolean_type : Shape → Bool
is_boolean_type boolean = true
is_boolean_type a = false

abbrev pub is_null_type : Shape → Bool
is_null_type nothing = true
is_null_type a = false

abbrev pub is_literal_type : String → Shape → Bool
is_literal_type w (literal v) = v == w
is_literal_type w a = false

abbrev pub table_type : (Shape → Bool) → Shape → Bool
table_type p (table a) = p a
table_type p a = false

abbrev pub list_type : (Shape → Bool) → Shape → Bool
list_type p (list a) = p a
list_type p a = false

abbrev pub object_type : (Props → Bool) → Shape → Bool
object_type p (object ps) = p ps
object_type p a = false

-- A property of the object type that is compared: it is there, optional only if it may be, and of a type that fits; or it is
-- not there, and may be absent.
abbrev pub fits_field : String → Bool → (Shape → Bool) → Props → Bool
fits_field name is_optional p done = is_optional
fits_field name is_optional p (prop key left a ps) =
    if key == name then (not left || is_optional) && p a else fits_field name is_optional p ps

-- `A extends B`, written `fits B A`, for the types of the contract: an object type does not extend a `table`, which
-- no check needs.
unfoldable mutual
  pub fits : Shape → Shape → Bool
  fits unknown a = true
  fits (either b c) a = members (λ x. fits b x || fits c x) a
  fits string a = members is_text_type a
  fits number a = members is_number_type a
  fits boolean a = members is_boolean_type a
  fits nothing a = members is_null_type a
  fits (literal w) a = members (is_literal_type w) a
  fits (table b) a = members (table_type (λ x. fits b x)) a
  fits (list b) a = members (list_type (λ x. fits b x)) a
  fits (object qs) a = members (object_type (λ ps. fits_props qs ps)) a

  pub fits_props : Props → Props → Bool
  fits_props done ps = true
  fits_props (prop name is_optional s qs) ps =
      fits_field name is_optional (λ x. fits s x) ps && fits_props qs ps
