-- ===== src/Mock/Hooks/Valid.antt =====
-- The hook definitions of the store: names of the pattern, distinct and within their length,
-- limits within their ranges.
use wasm_hooks.Common.{
  ℕ, ◌≤◌, ◌≡◌, refl, String, true, false, List, [], ◌∷◌, Option, none, some, arith, Bool-cases,
  Option-cases, inl, inr, All, Distinct, All-append, Distinct-append, Absent-of_any, All-find,
  All-replace_first, Distinct-replace_first, find-eq-some, find, any, eq_iff,
}
use wasm_hooks.Common.Int.{ℤ, below, above}
use wasm_hooks.Text.{utf16_length}
use wasm_hooks.Json.{Record, Json, null, bool, whole, fraction, str, arr, obj, lookup, has_property}
use wasm_hooks.Entity.Hook.{
  HookSpec, OperatorHook, Range, hook_name_matches, hook_name_max, timeout_ms_range,
  memory_pages_range,
}
use wasm_hooks.Mock.Db.{Db}
use wasm_hooks.Mock.Hooks.Check.{
  body_error, hook_error, spec_of, name_of, spec_fields, required_fields, missing_error,
  named_error, hook_name_error, range_error, object_error, number_of,
}
use wasm_hooks.Mock.Hooks.{
  has_name, new_hook, replaced, narrowed, same_spec, create_hook, create_checked, create_defined,
  insert_hook, put_hook, replace_checked, replace_defined, replace_found, widen_hook, store_hook,
}

abbrev pub IsWithin : Range → ℤ → Type 0
IsWithin range z = (below z range.low ≡ false) × (above z range.high ≡ false)

pub record SpecIsValid (s : HookSpec) : Type 0 where
  pub timeout : IsWithin timeout_ms_range s.timeout_ms
  pub memory : IsWithin memory_pages_range s.memory_max_pages

pub record HookIsValid (h : OperatorHook) : Type 0 where
  pub pattern : hook_name_matches h.name ≡ true
  pub name_high : utf16_length h.name ≤ hook_name_max
  pub spec_valid : SpecIsValid h.spec

abbrev pub HooksAreValid : List OperatorHook → Type 0
HooksAreValid hs = All HookIsValid hs × Distinct (λ h. h.name) hs

-- A body without complaint passed each check.
pub record BodyChecks (body : Record) (required : List String) : Type 0 where
  pub present : missing_error body required ≡ none
  pub named : named_error body ≡ none
  pub timeout_ok : range_error "timeout_ms" timeout_ms_range (lookup "timeout_ms" body) ≡ none
  pub memory_ok :
      range_error "memory_max_pages" memory_pages_range (lookup "memory_max_pages" body) ≡ none
  pub input_ok : object_error "input_schema" (lookup "input_schema" body) ≡ none
  pub output_ok : object_error "output_schema" (lookup "output_schema" body) ≡ none
  pub sample_ok : object_error "sample_input" (lookup "sample_input" body) ≡ none

pub body_error-none :
    (body : Record) (allowed required : List String)
    → body_error body allowed required ≡ none
    → BodyChecks body required
unfolding body_error
body_error-none body allowed required h = ground arith

range_error-IsWithin :
    (field : String) (range : Range) (v : Option Json)
    → range_error field range v ≡ none
    → IsWithin range (number_of v)
unfolding range_error number_of
range_error-IsWithin field range (some (whole z)) h = ground arith
range_error-IsWithin field range none h = cc
range_error-IsWithin field range (some null) h = cc
range_error-IsWithin field range (some (bool b)) h = cc
range_error-IsWithin field range (some (fraction s)) h = cc
range_error-IsWithin field range (some (str s)) h = cc
range_error-IsWithin field range (some (arr vs)) h = cc
range_error-IsWithin field range (some (obj fs)) h = cc

pub spec_of-IsValid :
    (body : Record) (required : List String) → BodyChecks body required → SpecIsValid (spec_of body)
unfolding spec_of
spec_of-IsValid body required c = record {
  timeout =
      range_error-IsWithin "timeout_ms" timeout_ms_range (lookup "timeout_ms" body) c.timeout_ok;
  memory =
      range_error-IsWithin "memory_max_pages" memory_pages_range (lookup "memory_max_pages" body)
        c.memory_ok;
}

missing_error-name :
    (body : Record) (keys : List String)
    → missing_error body ("name" ∷ keys) ≡ none
    → has_property "name" body ≡ true
unfolding missing_error
missing_error-name body keys h = ground arith

pub name_of-IsValid :
    (body : Record) (keys : List String)
    → BodyChecks body ("name" ∷ keys)
    → (hook_name_matches (name_of body) ≡ true) × (utf16_length (name_of body) ≤ hook_name_max)
unfolding named_error hook_name_error
name_of-IsValid body keys c = ground (arith, missing_error-name body keys c.present, c.named)

module _ {F : Type 0} (db : Db F) (v : HooksAreValid db.hooks) where
  insert_hook-AreValid :
      (h : OperatorHook) → HookIsValid h → HooksAreValid (insert_hook h db).1.hooks
  unfolding insert_hook
  insert_hook-AreValid h ok = elim (Bool-cases (any (has_name h.name) db.hooks)) [
    | inl taken ↦ rw taken v
    | inr free ↦ rw free (
      All-append HookIsValid db.hooks (h ∷ []) v.0 (ok, tt),
      Distinct-append (λ x. x.name) db.hooks h v.1
          (Absent-of_any (λ x. x.name) h.name db.hooks free),
    )
  ]

  create_defined-AreValid :
      (o : Option String) (name : String) (spec : HookSpec) (now : ℕ)
      → HookIsValid (new_hook name spec now)
      → HooksAreValid (create_defined o name spec now db).1.hooks
  unfolding create_defined
  create_defined-AreValid none name spec now ok = insert_hook-AreValid (new_hook name spec now) ok
  create_defined-AreValid (some d) name spec now ok = v

  -- A creation keeps the hooks valid.
  pub create_hook-AreValid :
      (body : Record) (now : ℕ) → HooksAreValid (create_hook body now db).1.hooks
  unfolding create_hook create_checked new_hook
  create_hook-AreValid body now =
      elim (Option-cases (body_error body ("name" ∷ spec_fields) ("name" ∷ required_fields))) [
        | inl fine ↦
            let c = body_error-none body ("name" ∷ spec_fields) ("name" ∷ required_fields) fine in
            let (matches, short) = name_of-IsValid body required_fields c in
            rw fine (
              create_defined-AreValid (hook_error (spec_of body)) (name_of body) (spec_of body) now
                (record {
                  pattern = matches;
                  name_high = short;
                  spec_valid = spec_of-IsValid body ("name" ∷ required_fields) c;
                }))
        | inr (d, wrong) ↦ rw wrong v
      ]

  store_hook-AreValid :
      (current : OperatorHook) (name : String) (spec : HookSpec) (now : ℕ)
      → SpecIsValid spec
      → find (has_name name) db.hooks ≡ some current
      → HooksAreValid (store_hook current name spec now db).1.hooks
  unfolding store_hook replaced
  store_hook-AreValid current name spec now ok found =
      elim (Bool-cases (same_spec current.spec spec)) [
        | inl same ↦ rw same v
        | inr other ↦
            let h = All-find HookIsValid (has_name name) db.hooks current v.0 found in
            rw other (
              All-replace_first HookIsValid (has_name name) (replaced current spec now) db.hooks v.0
                  (record { pattern = h.pattern; name_high = h.name_high; spec_valid = ok }),
              Distinct-replace_first (λ x. x.name) name (replaced current spec now) db.hooks v.1
                  ((eq_iff _ _).0 (find-eq-some (has_name name) db.hooks current found)),
            )
      ]

  widen_hook-AreValid :
      (xs : List String) (current : OperatorHook) (name : String) (spec : HookSpec) (now : ℕ)
      → SpecIsValid spec
      → find (has_name name) db.hooks ≡ some current
      → HooksAreValid (widen_hook xs current name spec now db).1.hooks
  unfolding widen_hook
  widen_hook-AreValid [] current name spec now ok found =
      store_hook-AreValid current name spec now ok found
  widen_hook-AreValid (x ∷ xs) current name spec now ok found = v

  replace_found-AreValid :
      (o : Option OperatorHook) (name : String) (spec : HookSpec) (now : ℕ)
      → SpecIsValid spec
      → find (has_name name) db.hooks ≡ o
      → HooksAreValid (replace_found o name spec now db).1.hooks
  unfolding replace_found
  replace_found-AreValid none name spec now ok found = v
  replace_found-AreValid (some h) name spec now ok found =
      widen_hook-AreValid (narrowed h.spec spec) h name spec now ok found

  -- So does a replacement.
  pub put_hook-AreValid :
      (name : String) (body : Record) (now : ℕ) → HooksAreValid (put_hook name body now db).1.hooks
  unfolding put_hook replace_checked replace_defined
  put_hook-AreValid name body now =
      elim (Option-cases (body_error body spec_fields required_fields)) [
        | inl fine ↦ rw fine (
            defined (hook_error (spec_of body)) (
              spec_of-IsValid body required_fields
                (body_error-none body spec_fields required_fields fine)))
        | inr (d, wrong) ↦ rw wrong v
      ]
    where
      defined :
          (o : Option String)
          → SpecIsValid (spec_of body)
          → HooksAreValid (replace_defined o name (spec_of body) now db).1.hooks
      defined none ok = replace_found-AreValid _ name (spec_of body) now ok refl
      defined (some d) ok = v
