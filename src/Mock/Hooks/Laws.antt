-- ===== src/Mock/Hooks/Laws.antt =====
-- Creation of hooks, and the two comparisons of a replacement.
use wasm_hooks.Common.{
  ℕ, ◌≡◌, ◌≢◌, refl, String, Bool, true, false, List, [], ◌∷◌, ◌++◌, Option, none, some, arith,
  Bool-cases, inl, inr, any, find, eq_iff, ◌==◌, is_some, if◌then◌else◌, sort, insert_sorted,
  find-append_none, find-append_other, subst, eq_refl,
}
use wasm_hooks.Json.{Record}
use wasm_hooks.Entity.Hook.{HookSpec, OperatorHook}
use wasm_hooks.Text.{text_le}
use wasm_hooks.Mock.Db.{Db}
use wasm_hooks.Mock.Http.{json, status_of}
use wasm_hooks.Mock.Hooks.Check.{
  body_error, hook_error, spec_of, name_of, spec_fields, required_fields,
}
use wasm_hooks.Mock.Hooks.{
  has_name, contains, same_spec, missing_from, narrowed, new_hook, create_hook, create_checked,
  create_defined, insert_hook, get_hook, found_hook,
}

pub other_name :
    (name other : String)
    → name ≢ other
    → (h : OperatorHook) → has_name name h ≡ true
    → has_name other h ≡ false
other_name name other ne h e = ground (arith, eq_iff h.name name, eq_iff h.name other)

module _ {F : Type 0} (db : Db F) (body : Record) (now : ℕ) where
  abbrev complaint : Option String
  complaint = body_error body ("name" ∷ spec_fields) ("name" ∷ required_fields)

  abbrev is_taken : Bool
  is_taken = any (has_name (name_of body)) db.hooks

  status_defined :
      (o : Option String)
      → status_of (create_defined o (name_of body) (spec_of body) now db).0
        ≡ (if is_some o then 422 else if is_taken then 409 else 201)
  unfolding create_defined insert_hook new_hook
  status_defined (some d) = refl
  status_defined none = elim (Bool-cases is_taken) [ inl e ↦ rw e refl | inr e ↦ rw e refl ]

  status_checked :
      (o : Option String)
      → status_of (create_checked o body now db).0 ≡ (
          if is_some o
          then 422
          else if is_some (hook_error (spec_of body))
          then 422
          else if is_taken
          then 409
          else 201)
  unfolding create_checked
  status_checked (some d) = refl
  status_checked none = status_defined (hook_error (spec_of body))

  -- A creation is refused with 422 for a malformed body or definition and with 409 for a name that is taken,
  -- and otherwise answers 201.
  pub create_hook-status : status_of (create_hook body now db).0 ≡ (
      if is_some complaint
      then 422
      else if is_some (hook_error (spec_of body))
      then 422
      else if is_taken
      then 409
      else 201)
  unfolding create_hook
  create_hook-status = status_checked complaint

  pub create_hook-Reads :
      complaint ≡ none
      → hook_error (spec_of body) ≡ none
      → is_taken ≡ false
      → let h = new_hook (name_of body) (spec_of body) now in
        let after = (create_hook body now db).1 in
        ((create_hook body now db).0 ≡ json 201 h)
        × (get_hook (name_of body) after ≡ (json 200 h, after))
        × ((other : String)
            → name_of body ≢ other
            → (get_hook other after).0 ≡ (get_hook other db).0)
  unfolding create_hook create_checked create_defined insert_hook new_hook get_hook found_hook
  create_hook-Reads ok fine free = (
    rw (ok, fine, free) refl,
    rw (ok, fine, free)
        (rw (find-append_none (has_name (name_of body)) db.hooks fresh free ((eq_iff _ _).1 refl))
          refl),
    λ other ne.
        rw (ok, fine, free)
          (rw
            (find-append_other (has_name other) db.hooks fresh
              (other_name _ other ne fresh ((eq_iff _ _).1 refl)))
            (same_answer other (find (has_name other) db.hooks))),
  )
    where
      fresh : OperatorHook
      fresh = new_hook (name_of body) (spec_of body) now

      same_answer :
          (other : String) (o : Option OperatorHook)
          → (found_hook other o (record db { hooks = db.hooks ++ fresh ∷ [] })).0
            ≡ (found_hook other o db).0
      same_answer other none = refl
      same_answer other (some h) = refl

  -- A well-formed creation under a name that is free answers 201 with the new hook, which is then read
  -- back under that name; a name that is another one reads as before.
  pub create_hook-get_hook :
      (other : String)
      → complaint ≡ none
      → hook_error (spec_of body) ≡ none
      → is_taken ≡ false
      → name_of body ≢ other
      → let h = new_hook (name_of body) (spec_of body) now in
        let after = (create_hook body now db).1 in
        ((create_hook body now db).0 ≡ json 201 h)
        × (get_hook (name_of body) after ≡ (json 200 h, after))
        × ((get_hook other after).0 ≡ (get_hook other db).0)
  create_hook-get_hook other ok fine free ne =
      let (answer, read, others) = create_hook-Reads ok fine free in (answer, read, others other ne)

-- A definition has the same texts as itself.
pub same_spec_refl : (s : HookSpec) → same_spec s s ≡ true
unfolding same_spec
same_spec_refl s = simp eq_refl

-- Every name of the one list is in the other.
abbrev pub Covers : List String → List String → Type 0
Covers new old = (x : String) → contains old x ≡ true → contains new x ≡ true

missing_from-nil : (new old : List String) → missing_from new old ≡ [] → Covers new old
unfolding missing_from
missing_from-nil new [] h x e = cc
missing_from-nil new (y ∷ old) h x e = elim (Bool-cases (contains new y)) [
  | inl has ↦ elim (Bool-cases (y == x)) [
    | inl here ↦ subst (λ z. contains new z ≡ true) ((eq_iff y x).0 here) has
    | inr there ↦ missing_from-nil new old (ground arith) x (ground arith)
  ]
  | inr lacks ↦ absurd (ground arith)
]

sort-nil : (xs : List String) → sort text_le xs ≡ [] → xs ≡ []
unfolding sort insert_sorted
sort-nil [] h = refl
sort-nil (x ∷ xs) h = absurd (inserted (sort text_le xs) h)
  where
    inserted : (ys : List String) → insert_sorted text_le x ys ≢ []
    inserted [] e = cc
    inserted (y ∷ ys) e = ground arith

append-nil_parts : (xs ys : List String) → xs ++ ys ≡ [] → (xs ≡ []) × (ys ≡ [])
append-nil_parts [] ys h = (refl, h)
append-nil_parts (x ∷ xs) ys h = cc

-- If nothing is narrowed, the new definition allows all that the old one allows.
pub narrowed-nil :
    (old new : HookSpec)
    → narrowed old new ≡ []
    → Covers new.allowed_host_functions old.allowed_host_functions
      × Covers new.allowed_effect_types old.allowed_effect_types
unfolding narrowed
narrowed-nil old new h =
    let (hosts, effects) = append-nil_parts _ _ (sort-nil _ h) in
    (missing_from-nil _ _ hosts, missing_from-nil _ _ effects)

Covers-missing_from : (new old : List String) → Covers new old → missing_from new old ≡ []
unfolding missing_from
Covers-missing_from new [] c = refl
Covers-missing_from new (y ∷ old) c =
    rw (c y (rw (eq_refl y) refl)) (Covers-missing_from new old (λ x e. c x (ground arith)))

-- A definition that allows all that the old one does narrows nothing.
pub narrowed_of_Covers :
    (old new : HookSpec)
    → Covers new.allowed_host_functions old.allowed_host_functions
    → Covers new.allowed_effect_types old.allowed_effect_types
    → narrowed old new ≡ []
unfolding narrowed sort
narrowed_of_Covers old new hosts effects =
    rw (Covers-missing_from _ _ hosts) (rw (Covers-missing_from _ _ effects) refl)

-- A definition narrows nothing of itself.
pub narrowed_self : (s : HookSpec) → narrowed s s ≡ []
narrowed_self s = narrowed_of_Covers s s (λ x e. e) (λ x e. e)
