-- ===== src/Contract/Zod/Laws.antt =====
-- What the input type of a schema says of the schema.
use wasm_hooks.Common.{
  String, Bool, true, false, ◌&&◌, ◌||◌, ◌≡◌, refl, List, [], ◌∷◌, Option, none, some, any, inl,
  inr,
}
use wasm_hooks.Json.{Json}
use wasm_hooks.Contract.Shape.{
  conforms, conforms_props, is_word, is_object, is_null, field_of, test_field,
}
use wasm_hooks.Contract.Shape.Bools.{
  and-true, or-true, and-intro, or_left, or_right, all_elements-both, all_values-both,
}
use wasm_hooks.Contract.Zod.{
  Zod, z_string, z_boolean, z_unknown, z_datetime, z_number, z_enum, z_array, z_record, z_nullish,
  z_nullable, z_optional, z_fallback, z_object, ZodFields, z_end, z_field, ZodLaws, input_of,
  inputs_of, refined, refined_fields, may_be_absent, test_fields, union_of,
}

module _ (is_datetime : String → Bool) (accepts : Zod → Option Json → Bool)
    (zod : ZodLaws is_datetime accepts) where
  -- A field that may be left out is accepted where it is.
  may_be_absent-accepts : (s : Zod) → may_be_absent s ≡ true → accepts s none ≡ true
  may_be_absent-accepts (z_nullish s) h = rw (zod.on_nullish s none) refl
  may_be_absent-accepts (z_optional s) h = rw (zod.on_optional s none) refl
  may_be_absent-accepts (z_fallback s d) h =
      rw (zod.on_fallback s d none) (may_be_absent-accepts s h)
  may_be_absent-accepts _ h = cc

  union_of-any :
      (w : String) (ws : List String) (v : Json)
      → conforms false (union_of w ws) v ≡ true
      → any (λ u. is_word u v) (w ∷ ws) ≡ true
  unfolding conforms
  union_of-any w [] v h = or_left _ _ h
  union_of-any w (u ∷ ws) v h = elim (or-true (is_word w v) (conforms false (union_of u ws) v) h) [
    | inl here ↦ or_left _ _ here
    | inr there ↦ or_right _ _ (union_of-any u ws v there)
  ]

  null_or :
      (n c r a : Bool)
      → (c ≡ true → r ≡ true → a ≡ true)
      → (c || n) ≡ true
      → (n || r) ≡ true
      → (n || a) ≡ true
  null_or true c r a f h k = refl
  null_or false c r a f h k = f (or_nothing c h) k
    where
      or_nothing : (b : Bool) → (b || false) ≡ true → b ≡ true
      or_nothing true e = refl
      or_nothing false e = e

  -- A field is accepted if its value is, or if it may be left out and is.
  test_field-accepts :
      (s : Zod) (o : Option Json)
      → ((v : Json)
          → conforms false (input_of s) v ≡ true
          → refined is_datetime s v ≡ true
          → accepts s (some v) ≡ true)
      → test_field (may_be_absent s) (λ w. conforms false (input_of s) w) o ≡ true
      → test_field true (λ w. refined is_datetime s w) o ≡ true
      → accepts s o ≡ true
  test_field-accepts s none f c r = may_be_absent-accepts s c
  test_field-accepts s (some v) f c r = f v c r

  mutual
    unfolding conforms input_of refined

    -- A schema accepts each value of its input type that meets its refinements.
    pub input_of-accepts :
        (s : Zod) (v : Json)
        → conforms false (input_of s) v ≡ true
        → refined is_datetime s v ≡ true
        → accepts s (some v) ≡ true
    input_of-accepts z_string v c r = rw (zod.on_string (some v)) c
    input_of-accepts z_boolean v c r = rw (zod.on_boolean (some v)) c
    input_of-accepts z_unknown v c r = zod.on_unknown v
    input_of-accepts z_datetime v c r = rw (zod.on_datetime (some v)) r
    input_of-accepts (z_number checks) v c r =
        rw (zod.on_number checks (some v)) (and-intro _ _ c r)
    input_of-accepts (z_enum w ws) v c r = rw (zod.on_enum w ws (some v)) (union_of-any w ws v c)
    input_of-accepts (z_array s) v c r = rw (zod.on_array s (some v)) (
        all_elements-both (λ w. conforms false (input_of s) w) (λ w. refined is_datetime s w)
          (λ w. accepts s (some w)) v (λ w f g. input_of-accepts s w f g) c r)
    input_of-accepts (z_record s) v c r = rw (zod.on_record s (some v)) (
        all_values-both (λ w. conforms false (input_of s) w) (λ w. refined is_datetime s w)
          (λ w. accepts s (some w)) v (λ w f g. input_of-accepts s w f g) c r)
    input_of-accepts (z_nullish s) v c r = rw (zod.on_nullish s (some v)) (
        null_or (is_null v) (conforms false (input_of s) v) (refined is_datetime s v)
          (accepts s (some v)) (λ f g. input_of-accepts s v f g) c r)
    input_of-accepts (z_nullable s) v c r = rw (zod.on_nullable s (some v)) (
        null_or (is_null v) (conforms false (input_of s) v) (refined is_datetime s v)
          (accepts s (some v)) (λ f g. input_of-accepts s v f g) c r)
    input_of-accepts (z_optional s) v c r =
        rw (zod.on_optional s (some v)) (input_of-accepts s v c r)
    input_of-accepts (z_fallback s d) v c r =
        rw (zod.on_fallback s d (some v)) (input_of-accepts s v c r)
    input_of-accepts (z_object fs) v c r =
        let (front, fields) =
          and-true (is_object v && true) (conforms_props false (inputs_of fs) v) c in
        rw (zod.on_object fs (some v))
          (and-intro _ _ (and-true (is_object v) true front).0 (inputs_of-accepts fs v fields r))

    inputs_of-accepts :
        (fs : ZodFields) (v : Json)
        → conforms_props false (inputs_of fs) v ≡ true
        → refined_fields is_datetime fs v ≡ true
        → test_fields accepts fs v ≡ true
    inputs_of-accepts z_end v c r = refl
    inputs_of-accepts (z_field name s fs) v c r =
        let (type, types) = and-true _ (conforms_props false (inputs_of fs) v) c in
        let (fine, fines) = and-true _ (refined_fields is_datetime fs v) r in
        and-intro _ _
          (test_field-accepts s (field_of name v) (λ w f g. input_of-accepts s w f g) type fine)
          (inputs_of-accepts fs v types fines)
