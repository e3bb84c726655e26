-- ===== src/Contract/Shape/Laws.antt =====
-- A type that extends another holds no value that the other does not hold.
use wasm_hooks.Common.{
  ◌≡◌, refl, String, Bool, true, false, not, ◌&&◌, ◌||◌, [], ◌∷◌, Option, none, some, all, ◌==◌,
  arith, Bool-cases, inl, inr, eq_iff, subst, ◌⊎◌,
}
use wasm_hooks.Json.{Json, null, bool, whole, fraction, str, arr, obj, Record, props, lookup}
use wasm_hooks.Contract.Shape.{
  Shape, string, number, boolean, nothing, unknown, literal, table, list, either, object, Props,
  done, prop, conforms, conforms_props, fits, fits_props, members, is_text_type, is_number_type,
  is_boolean_type, is_null_type, is_literal_type, table_type, list_type, object_type, fits_field,
  is_text, is_number, is_boolean, is_null, is_word, is_object, all_elements, all_values, field_of,
  has_prop, only_known, test_field,
}
use wasm_hooks.Contract.Shape.Bools.{
  and-true, or-true, and-intro, or_left, or_right, all_elements_sound, all_values_sound,
}

-- A test of the members of a union is a test of the values, if it is one for each type.
members_sound :
    (p : Shape → Bool) (v : Json) (q : Bool)
    → ((x : Shape) → p x ≡ true → conforms true x v ≡ true → q ≡ true)
    → (a : Shape) → members p a ≡ true
    → conforms true a v ≡ true
    → q ≡ true
unfolding conforms
members_sound p v q one (either a b) h c =
    elim (or-true (conforms true a v) (conforms true b v) c) [
      | inl left ↦ members_sound p v q one a (and-true (members p a) (members p b) h).0 left
      | inr right ↦ members_sound p v q one b (and-true (members p a) (members p b) h).1 right
    ]
members_sound p v q one string h c = one string h c
members_sound p v q one number h c = one number h c
members_sound p v q one boolean h c = one boolean h c
members_sound p v q one nothing h c = one nothing h c
members_sound p v q one unknown h c = one unknown h c
members_sound p v q one (literal w) h c = one (literal w) h c
members_sound p v q one (table a) h c = one (table a) h c
members_sound p v q one (list a) h c = one (list a) h c
members_sound p v q one (object ps) h c = one (object ps) h c

-- What a field that fits says of a value: its property passes the test, or the type has no such property.
fits_field_sound :
    (name : String) (is_optional : Bool) (p : Shape → Bool) (q : Json → Bool) (v : Json)
    → ((x : Shape) → p x ≡ true → (w : Json) → conforms true x w ≡ true → q w ≡ true)
    → (ps : Props) → fits_field name is_optional p ps ≡ true
    → conforms_props true ps v ≡ true
    → (test_field is_optional q (field_of name v) ≡ true)
      ⊎ ((has_prop name ps ≡ false) × (is_optional ≡ true))
unfolding conforms
fits_field_sound name is_optional p q v one done h c = inr (refl, h)
fits_field_sound name is_optional p q v one (prop key left a ps) h c =
    let (first, rest) =
      and-true (test_field left (λ w. conforms true a w) (field_of key v))
        (conforms_props true ps v) c in
    elim (Bool-cases (key == name)) [
      | inl same ↦
          let (may, type) : ((not left || is_optional) ≡ true) × (p a ≡ true) =
            and-true (not left || is_optional) (p a) (ground arith) in
          inl (
            subst (λ k. test_field is_optional q (field_of k v) ≡ true) ((eq_iff key name).0 same)
              (go left is_optional may (one a type) (field_of key v) first))
      | inr differs ↦ elim (fits_field_sound name is_optional p q v one ps (ground arith) rest) [
        | inl passes ↦ inl passes
        | inr (lacks, may) ↦ inr (rw (differs, lacks) refl, may)
      ]
    ]
  where
    go :
        (left right : Bool)
        → (not left || right) ≡ true
        → ((w : Json) → conforms true a w ≡ true → q w ≡ true)
        → (o : Option Json) → test_field left (λ w. conforms true a w) o ≡ true
        → test_field right q o ≡ true
    go left right may f none t = ground arith
    go left right may f (some w) t = f w t

-- A property that the type does not name is not there.
only_known-lookup :
    (name : String) (ps : Props) (v : Json)
    → only_known ps v ≡ true
    → has_prop name ps ≡ false
    → field_of name v ≡ none
unfolding lookup
only_known-lookup name ps (obj fs) h lacks = go (props fs) h
  where
    go : (es : Record) → all (λ e. has_prop e.0 ps) es ≡ true → lookup name es ≡ none
    go [] h = refl
    go ((key, w) ∷ es) h = elim (Bool-cases (key == name)) [
      | inl same ↦
          let known : has_prop name ps ≡ true =
            subst (λ k. has_prop k ps ≡ true) ((eq_iff key name).0 same) (and-true _ _ h).0 in
          cc
      | inr differs ↦ rw differs (go es (and-true _ _ h).1)
    ]
only_known-lookup name ps null h lacks = refl
only_known-lookup name ps (bool b) h lacks = refl
only_known-lookup name ps (whole z) h lacks = refl
only_known-lookup name ps (fraction s) h lacks = refl
only_known-lookup name ps (str s) h lacks = refl
only_known-lookup name ps (arr vs) h lacks = refl

-- What the tests of a type without unions say of its values.
module _ (v : Json) where
  abbrev Sound : (Shape → Bool) → Bool → Type 0
  Sound p q = (x : Shape) → p x ≡ true → conforms true x v ≡ true → q ≡ true

  is_text_type-Sound : Sound is_text_type (is_text v)
  unfolding conforms
  is_text_type-Sound string h c = c
  is_text_type-Sound (literal w) h c = text_of_word w v c
    where
      text_of_word : (w : String) (u : Json) → is_word w u ≡ true → is_text u ≡ true
      text_of_word w (str s) k = refl
      text_of_word w _ k = cc
  is_text_type-Sound _ h c = cc

  is_number_type-Sound : Sound is_number_type (is_number v)
  unfolding conforms
  is_number_type-Sound number h c = c
  is_number_type-Sound _ h c = cc

  is_boolean_type-Sound : Sound is_boolean_type (is_boolean v)
  unfolding conforms
  is_boolean_type-Sound boolean h c = c
  is_boolean_type-Sound _ h c = cc

  is_null_type-Sound : Sound is_null_type (is_null v)
  unfolding conforms
  is_null_type-Sound nothing h c = c
  is_null_type-Sound _ h c = cc

  is_literal_type-Sound : (w : String) → Sound (is_literal_type w) (is_word w v)
  unfolding conforms
  is_literal_type-Sound w (literal u) h c = subst (λ z. is_word z v ≡ true) ((eq_iff u w).0 h) c
  is_literal_type-Sound w _ h c = cc

  table_type-Sound :
      (p : Shape → Bool) (q : Json → Bool)
      → ((x : Shape) → p x ≡ true → (u : Json) → conforms true x u ≡ true → q u ≡ true)
      → Sound (table_type p) (all_values q v)
  unfolding conforms
  table_type-Sound p q f (table a) h c = all_values_sound (λ u. conforms true a u) q v (f a h) c
  table_type-Sound p q f _ h c = cc

  list_type-Sound :
      (p : Shape → Bool) (q : Json → Bool)
      → ((x : Shape) → p x ≡ true → (u : Json) → conforms true x u ≡ true → q u ≡ true)
      → Sound (list_type p) (all_elements q v)
  unfolding conforms
  list_type-Sound p q f (list a) h c = all_elements_sound (λ u. conforms true a u) q v (f a h) c
  list_type-Sound p q f _ h c = cc

  object_type-Sound :
      (p : Props → Bool) (q : Bool)
      → ((ps : Props)
          → p ps ≡ true
          → only_known ps v ≡ true
          → conforms_props true ps v ≡ true
          → q ≡ true)
      → Sound (object_type p) (is_object v && true && q)
  unfolding conforms
  object_type-Sound p q f (object ps) h c =
      let (front, fields) =
        and-true (is_object v && only_known ps v) (conforms_props true ps v) c in
      let (is_obj, known) = and-true (is_object v) (only_known ps v) front in
      and-intro _ _ (and-intro _ _ is_obj refl) (f ps h known fields)
  object_type-Sound p q f _ h c = cc

mutual
  unfolding fits conforms

  -- A value of a type, without properties that the type does not name, is a value of every type that the
  -- type extends.
  pub fits-conforms :
      (b a : Shape) (v : Json)
      → fits b a ≡ true
      → conforms true a v ≡ true
      → conforms false b v ≡ true
  fits-conforms unknown a v h c = refl
  fits-conforms string a v h c =
      members_sound is_text_type v (is_text v) (is_text_type-Sound v) a h c
  fits-conforms number a v h c =
      members_sound is_number_type v (is_number v) (is_number_type-Sound v) a h c
  fits-conforms boolean a v h c =
      members_sound is_boolean_type v (is_boolean v) (is_boolean_type-Sound v) a h c
  fits-conforms nothing a v h c =
      members_sound is_null_type v (is_null v) (is_null_type-Sound v) a h c
  fits-conforms (literal w) a v h c =
      members_sound (is_literal_type w) v (is_word w v) (is_literal_type-Sound v w) a h c
  fits-conforms (table b) a v h c =
      members_sound (table_type (λ x. fits b x)) v (all_values (λ w. conforms false b w) v)
        (table_type-Sound v (λ x. fits b x) (λ w. conforms false b w)
          (λ x f w k. fits-conforms b x w f k))
        a h c
  fits-conforms (list b) a v h c =
      members_sound (list_type (λ x. fits b x)) v (all_elements (λ w. conforms false b w) v)
        (list_type-Sound v (λ x. fits b x) (λ w. conforms false b w)
          (λ x f w k. fits-conforms b x w f k))
        a h c
  fits-conforms (either b d) a v h c =
      members_sound (λ x. fits b x || fits d x) v (conforms false b v || conforms false d v)
        (λ x f k. elim (or-true (fits b x) (fits d x) f) [
          | inl left ↦ or_left _ _ (fits-conforms b x v left k)
          | inr right ↦ or_right _ _ (fits-conforms d x v right k)
        ])
        a h c
  fits-conforms (object qs) a v h c =
      members_sound (object_type (λ ps. fits_props qs ps)) v
        (is_object v && true && conforms_props false qs v)
        (object_type-Sound v (λ ps. fits_props qs ps) (conforms_props false qs v)
          (λ ps f known k. fits_props-conforms qs ps v f known k))
        a h c

  fits_props-conforms :
      (qs ps : Props) (v : Json)
      → fits_props qs ps ≡ true
      → only_known ps v ≡ true
      → conforms_props true ps v ≡ true
      → conforms_props false qs v ≡ true
  fits_props-conforms done ps v h known c = refl
  fits_props-conforms (prop name is_optional s qs) ps v h known c =
      let (first, rest) =
        and-true (fits_field name is_optional (λ x. fits s x) ps) (fits_props qs ps) h in
      and-intro _ _
        (elim (fits_field_sound name is_optional (λ x. fits s x) (λ w. conforms false s w) v
          (λ x f w k. fits-conforms s x w f k) ps first c) [
            | inl passes ↦ passes
            | inr (lacks, may) ↦ rw (only_known-lookup name ps v known lacks) may
          ])
        (fits_props-conforms qs ps v rest known c)
