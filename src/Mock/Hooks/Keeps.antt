-- ===== src/Mock/Hooks/Keeps.antt =====
-- What a creation or a replacement of a hook that succeeds does to each hook that can be found.
use wasm_hooks.Common.{
  ℕ, ◌≡◌, ◌≢◌, refl, ap, ◌∙◌, sym, String, Bool, true, false, List, [], ◌∷◌, ◌++◌, Option, none,
  some, find, find-append_other, find-append_none, find-replace_first, find-replace_first_other,
  any, any_of_find, if◌then◌else◌, arith, eq_iff, subst, find-eq-some, replace_first,
}
use wasm_hooks.Json.{Record}
use wasm_hooks.Entity.Hook.{OperatorHook, HookSpec}
use wasm_hooks.Mock.Db.{Db}
use wasm_hooks.Mock.Http.{Reply, json, fail}
use wasm_hooks.Mock.Hooks.Check.{
  body_error, hook_error, spec_of, name_of, spec_fields, required_fields,
}
use wasm_hooks.Mock.Hooks.{
  has_name, narrowed, new_hook, insert_hook, create_defined, create_checked, create_hook, replaced,
  same_spec, store_hook, widen_hook, replace_found, replace_defined, replace_checked, put_hook,
}

-- The reply of a mutation of hooks and the state that it leaves, for the queries of one hook: after a success the hook that
-- is answered is read under its name, and a hook of another name is found as before.
abbrev pub Keeps : {F : Type 0} → Db F → Reply OperatorHook × Db F → Type 0
Keeps db (reply, db') =
    (h : OperatorHook) (status : ℕ)
    → reply ≡ json status h
    → (find (has_name h.name) db'.hooks ≡ some h)
      × ((other : String)
          → h.name ≢ other
          → find (has_name other) db'.hooks ≡ find (has_name other) db.hooks)

other_name : (h : OperatorHook) (other : String) → h.name ≢ other → has_name other h ≡ false
other_name h other ne = ground (arith, eq_iff h.name other)

json-same : {s t : ℕ} {h k : OperatorHook} → json s h ≡ json t k → h ≡ k
json-same e = cc

module _ {F : Type 0} (db : Db F) where
  insert_hook-Keeps : (k : OperatorHook) → Keeps db (insert_hook k db)
  unfolding insert_hook
  insert_hook-Keeps k = go (any (has_name k.name) db.hooks) refl
    where
      Found : OperatorHook → Type 0
      Found x =
          (find (has_name x.name) (db.hooks ++ k ∷ []) ≡ some x)
          × ((other : String)
              → x.name ≢ other
              → find (has_name other) (db.hooks ++ k ∷ []) ≡ find (has_name other) db.hooks)

      go :
          (taken : Bool)
          → any (has_name k.name) db.hooks ≡ taken
          → Keeps db (
              if taken
              then (fail 409 "Хук с таким именем уже есть" (some k.name), db)
              else (json 201 k, record db { hooks = db.hooks ++ k ∷ [] }))
      go true e h status answer = absurd (cc)
      go false e h status answer = subst Found (json-same answer) (
        find-append_none (has_name k.name) db.hooks k e ((eq_iff k.name k.name).1 refl),
        λ other ne. find-append_other (has_name other) db.hooks k (other_name k other ne),
      )

  create_defined-Keeps :
      (o : Option String) (name : String) (spec : HookSpec) (now : ℕ)
      → Keeps db (create_defined o name spec now db)
  unfolding create_defined
  create_defined-Keeps none name spec now = insert_hook-Keeps (new_hook name spec now)
  create_defined-Keeps (some d) name spec now = λ h status e. absurd (cc)

  create_checked-Keeps :
      (o : Option String) (body : Record) (now : ℕ) → Keeps db (create_checked o body now db)
  unfolding create_checked
  create_checked-Keeps none body now =
      create_defined-Keeps (hook_error (spec_of body)) (name_of body) (spec_of body) now
  create_checked-Keeps (some d) body now = λ h status e. absurd (cc)

  pub create_hook-Keeps : (body : Record) (now : ℕ) → Keeps db (create_hook body now db)
  unfolding create_hook
  create_hook-Keeps body now =
      create_checked-Keeps (body_error body ("name" ∷ spec_fields) ("name" ∷ required_fields)) body
        now

  module _ (name : String) (spec : HookSpec) (now : ℕ) where
    found_name :
        (current : OperatorHook)
        → find (has_name name) db.hooks ≡ some current
        → current.name ≡ name
    found_name current e =
        (eq_iff current.name name).0 (find-eq-some (has_name name) db.hooks current e)

    store_hook-Keeps :
        (current : OperatorHook)
        → find (has_name name) db.hooks ≡ some current
        → Keeps db (store_hook current name spec now db)
    unfolding store_hook replaced
    store_hook-Keeps current found = go (same_spec current.spec spec)
      where
        after : List OperatorHook
        after = replace_first (has_name name) (replaced current spec now) db.hooks

        named : current.name ≡ name
        named = found_name current found

        Found : List OperatorHook → OperatorHook → Type 0
        Found hs x =
            (find (has_name x.name) hs ≡ some x)
            × ((other : String)
                → x.name ≢ other
                → find (has_name other) hs ≡ find (has_name other) db.hooks)

        go :
            (same : Bool)
            → Keeps db (
                if same
                then (json 200 current, db)
                else (json 200 (replaced current spec now), record db { hooks = after }))
        go true h status e =
            subst (Found db.hooks) (json-same e)
              (ap (λ n. find (has_name n) db.hooks) named ∙ found, λ other ne. refl)
        go false h status e = subst (Found after) (json-same e) (
          ap (λ n. find (has_name n) after) named
              ∙ find-replace_first (has_name name) (replaced current spec now) db.hooks
                  (any_of_find (has_name name) db.hooks current found)
                  ((eq_iff current.name name).1 named),
          λ other ne.
              find-replace_first_other (has_name name) (has_name other) (replaced current spec now)
                db.hooks
                (λ x here.
                  other_name x other
                    (λ same. ne (named ∙ sym ((eq_iff x.name name).0 here) ∙ same)))
                ((eq_iff current.name name).1 named),
        )

    widen_hook-Keeps :
        (lost : List String) (current : OperatorHook)
        → find (has_name name) db.hooks ≡ some current
        → Keeps db (widen_hook lost current name spec now db)
    unfolding widen_hook
    widen_hook-Keeps [] current found = store_hook-Keeps current found
    widen_hook-Keeps (x ∷ xs) current found = λ h status e. absurd (cc)

    replace_found-Keeps :
        (o : Option OperatorHook)
        → find (has_name name) db.hooks ≡ o
        → Keeps db (replace_found o name spec now db)
    unfolding replace_found
    replace_found-Keeps none found = λ h status e. absurd (cc)
    replace_found-Keeps (some current) found =
        widen_hook-Keeps (narrowed current.spec spec) current found

    replace_defined-Keeps : (o : Option String) → Keeps db (replace_defined o name spec now db)
    unfolding replace_defined
    replace_defined-Keeps none = replace_found-Keeps (find (has_name name) db.hooks) refl
    replace_defined-Keeps (some d) = λ h status e. absurd (cc)

  replace_checked-Keeps :
      (o : Option String) (name : String) (body : Record) (now : ℕ)
      → Keeps db (replace_checked o name body now db)
  unfolding replace_checked
  replace_checked-Keeps none name body now =
      replace_defined-Keeps name (spec_of body) now (hook_error (spec_of body))
  replace_checked-Keeps (some d) name body now = λ h status e. absurd (cc)

  pub put_hook-Keeps :
      (name : String) (body : Record) (now : ℕ) → Keeps db (put_hook name body now db)
  unfolding put_hook
  put_hook-Keeps name body now =
      replace_checked-Keeps (body_error body spec_fields required_fields) name body now
