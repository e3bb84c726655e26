-- ===== src/Mock/Hooks/Survive.antt =====
-- What no `PUT /hooks/:name` takes away.
use wasm_hooks.Common.{
  ℕ, ◌≡◌, refl, sym, ap, subst, ◌∙◌, String, List, [], ◌∷◌, Option, none, some, arith, Bool-cases,
  inl, inr, find, eq_iff, ◌==◌, some-inj,
}
use wasm_hooks.Json.{Record}
use wasm_hooks.Entity.Hook.{OperatorHook}
use wasm_hooks.Mock.Db.{Db}
use wasm_hooks.Mock.Hooks.Check.{body_error, hook_error, spec_of, spec_fields, required_fields}
use wasm_hooks.Mock.Hooks.{
  has_name, narrowed, put_hook, replace_checked, replace_defined, replace_found, widen_hook,
  store_hook,
}
use wasm_hooks.Mock.Hooks.Replace.{
  Evolves, Evolves-refl, after_put, after_put-Evolves, store_hook-find, store_hook-find_other,
}

-- Whatever a replacement of one hook brings, every hook that is there stays, under its name, with
-- its time of creation, a version that does not fall, and all its capabilities.
module _ {F : Type 0} (db : Db F) (name other : String) (body : Record) (now : ℕ) (h : OperatorHook)
    (here : find (has_name other) db.hooks ≡ some h) where
  abbrev Survives : Db F → Type 0
  Survives db' = (h' : OperatorHook) × (find (has_name other) db'.hooks ≡ some h') × Evolves h h'

  unchanged : Survives db
  unchanged = (h, here, Evolves-refl h)

  store_hook-Survives :
      (current : OperatorHook)
      → find (has_name name) db.hooks ≡ some current
      → narrowed current.spec (spec_of body) ≡ []
      → Survives (store_hook current name (spec_of body) now db).1
  store_hook-Survives current found wide = elim (Bool-cases (name == other)) [
    | inl same ↦
        let e : name ≡ other = (eq_iff name other).0 same in
        let eq : current ≡ h =
          some-inj (sym found ∙ ap (λ n. find (has_name n) db.hooks) e ∙ here) in
        (
          after_put current (spec_of body) now,
          subst
              (λ n.
                find (has_name n) (store_hook current name (spec_of body) now db).1.hooks
                ≡ some (after_put current (spec_of body) now))
              e (store_hook-find db name current found (spec_of body) now),
          subst (λ c. Evolves c (after_put current (spec_of body) now)) eq
              (after_put-Evolves db name current found (spec_of body) now wide),
        )
    | inr differs ↦ (
      h,
      store_hook-find_other db name current found (spec_of body) now other
            (ground (arith, eq_iff name other))
          ∙ here,
      Evolves-refl h,
    )
  ]

  widen_hook-Survives :
      (xs : List String) (current : OperatorHook)
      → narrowed current.spec (spec_of body) ≡ xs
      → find (has_name name) db.hooks ≡ some current
      → Survives (widen_hook xs current name (spec_of body) now db).1
  unfolding widen_hook
  widen_hook-Survives [] current wide found = store_hook-Survives current found wide
  widen_hook-Survives (x ∷ xs) current wide found = unchanged

  replace_found-Survives :
      (o : Option OperatorHook)
      → find (has_name name) db.hooks ≡ o
      → Survives (replace_found o name (spec_of body) now db).1
  unfolding replace_found
  replace_found-Survives none found = unchanged
  replace_found-Survives (some current) found =
      widen_hook-Survives (narrowed current.spec (spec_of body)) current refl found

  replace_defined-Survives :
      (o : Option String) → Survives (replace_defined o name (spec_of body) now db).1
  unfolding replace_defined
  replace_defined-Survives none = replace_found-Survives (find (has_name name) db.hooks) refl
  replace_defined-Survives (some d) = unchanged

  replace_checked-Survives : (o : Option String) → Survives (replace_checked o name body now db).1
  unfolding replace_checked
  replace_checked-Survives none = replace_defined-Survives (hook_error (spec_of body))
  replace_checked-Survives (some d) = unchanged

  -- No replacement, of this hook or another, takes a hook away: it is found under its name, with the same time of creation, a
  -- version that is not lower and every capability that it had.
  pub put_hook-Evolves : Survives (put_hook name body now db).1
  unfolding put_hook
  put_hook-Evolves = replace_checked-Survives (body_error body spec_fields required_fields)
