-- ===== src/Mock/Hooks/Replace.antt =====
-- `PUT /hooks/:name` on a hook that is there.
use wasm_hooks.Common.{
  ℕ, ◌≤◌, ◌≡◌, ◌≢◌, refl, sym, subst, ◌∙◌, String, true, [], Option, none, some, arith, Bool-cases,
  inl, inr, find, eq_iff, if◌then◌else◌, find-eq-some, any_of_find, find-replace_first,
  find-replace_first_other,
}
use wasm_hooks.Json.{Record}
use wasm_hooks.Entity.Hook.{HookSpec, OperatorHook}
use wasm_hooks.Mock.Hooks.Due.{spec_texts, due_hook, same_spec-texts, same_spec-same_texts}
use wasm_hooks.Mock.Db.{Db}
use wasm_hooks.Mock.Http.{json}
use wasm_hooks.Mock.Hooks.Check.{body_error, hook_error, spec_of, spec_fields, required_fields}
use wasm_hooks.Mock.Hooks.{
  has_name, same_spec, narrowed, replaced, put_hook, replace_checked, replace_defined,
  replace_found, widen_hook, store_hook, get_hook, found_hook,
}
use wasm_hooks.Mock.Hooks.Laws.{Covers, narrowed-nil, narrowed_self, same_spec_refl, other_name}

-- The hook that a replacement leaves: the new definition under the next version, or, where the
-- definition has the same text, the hook as it was.
abbrev pub after_put : OperatorHook → HookSpec → ℕ → OperatorHook
after_put current spec now =
    if same_spec current.spec spec then current else replaced current spec now

after_put-due :
    (current : OperatorHook) (spec : HookSpec) (now : ℕ)
    → after_put current spec now ≡ due_hook current spec now
unfolding replaced
after_put-due current spec now = rw (same_spec-same_texts current.spec spec) refl

after_put-texts :
    (current : OperatorHook) (spec : HookSpec) (now : ℕ)
    → spec_texts (after_put current spec now).spec ≡ spec_texts spec
unfolding replaced
after_put-texts current spec now = elim (Bool-cases (same_spec current.spec spec)) [
  | inl same ↦ rw same (same_spec-texts current.spec spec same)
  | inr other ↦ rw other refl
]

-- What a hook keeps through replacements.
pub record Evolves (old new : OperatorHook) : Type 0 where
  pub same_name : new.name ≡ old.name
  pub same_created : new.created_at ≡ old.created_at
  pub version_up : old.def_version ≤ new.def_version
  pub hosts : Covers new.allowed_host_functions old.allowed_host_functions
  pub effects : Covers new.allowed_effect_types old.allowed_effect_types

pub Evolves-refl : (h : OperatorHook) → Evolves h h
Evolves-refl h = record {
  same_name = refl;
  same_created = refl;
  version_up = omega arith;
  hosts = λ x e. e;
  effects = λ x e. e;
}

replaced-Evolves :
    (h : OperatorHook) (spec : HookSpec) (now : ℕ)
    → narrowed h.spec spec ≡ []
    → Evolves h (replaced h spec now)
unfolding replaced
replaced-Evolves h spec now e =
    let (wide_hosts, wide_effects) = narrowed-nil h.spec spec e in
    record {
      same_name = refl;
      same_created = refl;
      version_up = omega arith;
      hosts = wide_hosts;
      effects = wide_effects;
    }

module _ {F : Type 0} (db : Db F) (name : String) (current : OperatorHook)
    (found : find (has_name name) db.hooks ≡ some current) (spec : HookSpec) (now : ℕ) where
  current_name : current.name ≡ name
  current_name = (eq_iff _ _).0 (find-eq-some (has_name name) db.hooks current found)

  replaced_name : has_name name (replaced current spec now) ≡ true
  unfolding replaced
  replaced_name = (eq_iff _ _).1 current_name

  pub store_hook-find :
      find (has_name name) (store_hook current name spec now db).1.hooks
      ≡ some (after_put current spec now)
  unfolding store_hook
  store_hook-find = elim (Bool-cases (same_spec current.spec spec)) [
    | inl same ↦ rw same found
    | inr other ↦ rw other (
        find-replace_first (has_name name) (replaced current spec now) db.hooks
          (any_of_find (has_name name) db.hooks current found) replaced_name)
  ]

  pub store_hook-find_other :
      (other : String)
      → name ≢ other
      → find (has_name other) (store_hook current name spec now db).1.hooks
        ≡ find (has_name other) db.hooks
  unfolding store_hook
  store_hook-find_other other ne = elim (Bool-cases (same_spec current.spec spec)) [
    | inl same ↦ rw same refl
    | inr differs ↦ rw differs (
        find-replace_first_other (has_name name) (has_name other) (replaced current spec now)
          db.hooks (other_name name other ne) replaced_name)
  ]

  store_hook-reply : (store_hook current name spec now db).0 ≡ json 200 (after_put current spec now)
  unfolding store_hook
  store_hook-reply = elim (Bool-cases (same_spec current.spec spec)) [
    | inl same ↦ rw same refl
    | inr other ↦ rw other refl
  ]

  -- Storing the same definition once more.
  store_hook_again :
      (later : ℕ) (db' : Db F)
      → store_hook (after_put current spec now) name spec later db'
        ≡ (json 200 (after_put current spec now), db')
  unfolding store_hook replaced
  store_hook_again later db' = elim (Bool-cases (same_spec current.spec spec)) [
    | inl same ↦ rw same (rw same refl)
    | inr other ↦ rw other (rw (same_spec_refl spec) refl)
  ]

  after_put-narrowed :
      narrowed current.spec spec ≡ [] → narrowed (after_put current spec now).spec spec ≡ []
  unfolding replaced
  after_put-narrowed wide = elim (Bool-cases (same_spec current.spec spec)) [
    | inl same ↦ rw same wide
    | inr other ↦ rw other (narrowed_self spec)
  ]

  pub after_put-Evolves :
      narrowed current.spec spec ≡ [] → Evolves current (after_put current spec now)
  after_put-Evolves wide = elim (Bool-cases (same_spec current.spec spec)) [
    | inl same ↦ rw same (Evolves-refl current)
    | inr other ↦ rw other (replaced-Evolves current spec now wide)
  ]

module _ {F : Type 0} (name : String) (body : Record)
    (ok : body_error body spec_fields required_fields ≡ none)
    (fine : hook_error (spec_of body) ≡ none) where
  put_hook-store :
      (db : Db F) (current : OperatorHook) (now : ℕ)
      → find (has_name name) db.hooks ≡ some current
      → narrowed current.spec (spec_of body) ≡ []
      → put_hook name body now db ≡ store_hook current name (spec_of body) now db
  unfolding put_hook replace_checked replace_defined replace_found widen_hook
  put_hook-store db current now found wide = rw ok (rw fine (rw found (rw wide refl)))

  module _ (db : Db F) (current : OperatorHook) (now : ℕ)
      (found : find (has_name name) db.hooks ≡ some current)
      (wide : narrowed current.spec (spec_of body) ≡ []) where
    abbrev result : OperatorHook
    result = after_put current (spec_of body) now

    abbrev after : Db F
    after = (put_hook name body now db).1

    put_hook-find : find (has_name name) after.hooks ≡ some result
    put_hook-find =
        subst (λ r. find (has_name name) r.1.hooks ≡ some result)
          (sym (put_hook-store db current now found wide))
          (store_hook-find db name current found (spec_of body) now)

    pub put_hook-Reads :
        ((put_hook name body now db).0 ≡ json 200 result)
        × (get_hook name after ≡ (json 200 result, after))
        × ((other : String) → name ≢ other → (get_hook other after).0 ≡ (get_hook other db).0)
    unfolding get_hook found_hook
    put_hook-Reads = (
      rw (put_hook-store db current now found wide)
          (store_hook-reply db name current found (spec_of body) now),
      rw put_hook-find (answer result),
      λ other ne.
          subst (λ r. (get_hook other r.1).0 ≡ (get_hook other db).0)
            (sym (put_hook-store db current now found wide))
            (rw (store_hook-find_other db name current found (spec_of body) now other ne)
              (same_answer other (find (has_name other) db.hooks))),
    )
      where
        answer : (h : OperatorHook) → found_hook name (some h) after ≡ (json 200 h, after)
        answer h = refl

        same_answer :
            (other : String) (o : Option OperatorHook)
            → (found_hook other o (store_hook current name (spec_of body) now db).1).0
              ≡ (found_hook other o db).0
        same_answer other none = refl
        same_answer other (some h) = refl

    -- A well-formed replacement that narrows nothing answers 200 with a hook whose definition has the JSON texts of the body's:
    -- the hook as it was if its definition has those texts, and else the hook with the body's definition, the next
    -- version and the time of the change. That hook is then read back under its name; another name reads as before.
    pub put_hook-get_hook :
        (other : String)
        → name ≢ other
        → let h = due_hook current (spec_of body) now in
          ((put_hook name body now db).0 ≡ json 200 h)
          × (spec_texts h.spec ≡ spec_texts (spec_of body))
          × (get_hook name after ≡ (json 200 h, after))
          × ((get_hook other after).0 ≡ (get_hook other db).0)
    put_hook-get_hook other ne =
        let (answer, read, others) = put_hook-Reads in
        let same = after_put-due current (spec_of body) now in
        (
          rw (← same) answer,
          rw (← same) (after_put-texts current (spec_of body) now),
          rw (← same) read,
          others other ne,
        )

    -- Sending the same definition again answers 200 with the same hook and writes nothing.
    pub put_hook_twice : (later : ℕ) → put_hook name body later after ≡ (json 200 result, after)
    put_hook_twice later =
        put_hook-store after result later put_hook-find
          (after_put-narrowed db name current found (spec_of body) now wide)
        ∙ store_hook_again db name current found (spec_of body) now later after
