-- ===== src/Mock/Bindings/Active.antt =====
-- A binding's active module is a validated version of its hook, under its own hash.
use wasm_hooks.Common.{
  ℕ, ◌≡◌, ◌≢◌, refl, ap, sym, subst, ◌∙◌, String, false, List, [], ◌∷◌, ◌++◌, Option, none, some,
  arith, Bool-cases, inl, inr, All, find, find-map, find-append_some, eq_iff, ◌==◌, Absent,
  Distinct,
}
use wasm_hooks.Json.{lookup}
use wasm_hooks.Entity.Hook.{Binding}
use wasm_hooks.Entity.Module.{validating, validated, status_is}
use wasm_hooks.Mock.Db.{PendingModule}
use wasm_hooks.Mock.Modules.{settle, settle_modules}
use wasm_hooks.Mock.Modules.Settle.{settle_final, settle-IsSettled}
use wasm_hooks.Mock.Bindings.{set_binding, is_version}

abbrev pub IsActive : List PendingModule → String → Option String → Option String → Type 0
IsActive ms hook none hash = hash ≡ none
IsActive ms hook (some id) hash =
    (m : PendingModule) × (find (is_version id hook) ms ≡ some m)
    × (m.status ≡ validated)
    × (hash ≡ some m.content_hash)

abbrev pub Points : List PendingModule → String × Binding → Type 0
Points ms (hook, b) = IsActive ms hook b.active_module_id b.active_module_hash

abbrev pub BindingsAreValid : List PendingModule → List (String × Binding) → Type 0
BindingsAreValid ms bs = All (Points ms) bs × Distinct (λ e. e.0) bs

validated-final : (m : PendingModule) → m.status ≡ validated → status_is m.status validating ≡ false
validated-final m e = rw e refl

IsActive-settle :
    (now : ℕ) (ms : List PendingModule) (hook : String) (id hash : Option String)
    → IsActive ms hook id hash
    → IsActive (settle_modules now ms) hook id hash
IsActive-settle now ms hook none hash h = h
IsActive-settle now ms hook (some id) hash (m, found, ready, same) = (
  m,
  find-map (is_version id hook) (settle now) ms m same_version found
      ∙ ap some (settle_final now m (validated-final m ready)),
  ready,
  same,
)
  where
    same_version : (n : PendingModule) → is_version id hook (settle now n) ≡ is_version id hook n
    same_version n = let s = settle-IsSettled now n in rw (s.same_id, s.same_hook) refl

-- Validation of other modules keeps the bindings valid,
pub BindingsAreValid-settle :
    (now : ℕ) (ms : List PendingModule) (bs : List (String × Binding))
    → BindingsAreValid ms bs
    → BindingsAreValid (settle_modules now ms) bs
BindingsAreValid-settle now ms bs (h, d) = (go bs h, d)
  where
    go :
        (cs : List (String × Binding))
        → All (Points ms) cs
        → All (Points (settle_modules now ms)) cs
    go [] h = tt
    go ((hook, b) ∷ cs) (p, h) =
        (IsActive-settle now ms hook b.active_module_id b.active_module_hash p, go cs h)

IsActive-append :
    (ms : List PendingModule) (n : PendingModule) (hook : String) (id hash : Option String)
    → IsActive ms hook id hash
    → IsActive (ms ++ n ∷ []) hook id hash
IsActive-append ms n hook none hash h = h
IsActive-append ms n hook (some id) hash (m, found, ready, same) =
    (m, find-append_some (is_version id hook) ms (n ∷ []) m found, ready, same)

-- and so does an upload.
pub BindingsAreValid-append :
    (ms : List PendingModule) (n : PendingModule) (bs : List (String × Binding))
    → BindingsAreValid ms bs
    → BindingsAreValid (ms ++ n ∷ []) bs
BindingsAreValid-append ms n bs (h, d) = (go bs h, d)
  where
    go : (cs : List (String × Binding)) → All (Points ms) cs → All (Points (ms ++ n ∷ [])) cs
    go [] h = tt
    go ((hook, b) ∷ cs) (p, h) =
        (IsActive-append ms n hook b.active_module_id b.active_module_hash p, go cs h)

module _ (ms : List PendingModule) where
  pub lookup-Points :
      (name : String) (bs : List (String × Binding)) (b : Binding)
      → All (Points ms) bs
      → lookup name bs ≡ some b
      → Points ms (name, b)
  unfolding lookup
  lookup-Points name [] b h e = absurd (cc)
  lookup-Points name ((k, c) ∷ bs) b (p, h) e = elim (Bool-cases (k == name)) [
    | inl hit ↦
        let same : c ≡ b = ground arith in
        subst (λ x. Points ms (name, x)) same
          (subst (λ n. Points ms (n, c)) ((eq_iff k name).0 hit) p)
    | inr miss ↦ lookup-Points name bs b h (ground arith)
  ]

  pub set_binding-Points :
      (name : String) (b : Binding) (bs : List (String × Binding))
      → All (Points ms) bs
      → Points ms (name, b)
      → All (Points ms) (set_binding name b bs)
  unfolding set_binding
  set_binding-Points name b [] h p = (p, tt)
  set_binding-Points name b ((k, c) ∷ bs) (q, h) p = elim (Bool-cases (k == name)) [
    | inl hit ↦ rw hit (subst (λ n. Points ms (n, b)) (sym ((eq_iff k name).0 hit)) p, h)
    | inr miss ↦ rw miss (q, set_binding-Points name b bs h p)
  ]

set_binding-Absent :
    (name k : String) (b : Binding) (bs : List (String × Binding))
    → name ≢ k
    → Absent (λ e. e.0) k bs
    → Absent (λ e. e.0) k (set_binding name b bs)
unfolding set_binding
set_binding-Absent name k b [] ne a = (ne, tt)
set_binding-Absent name k b ((j, c) ∷ bs) ne (m, a) =
    ground (arith, set_binding-Absent name k b bs ne a)

pub set_binding-Distinct :
    (name : String) (b : Binding) (bs : List (String × Binding))
    → Distinct (λ e. e.0) bs
    → Distinct (λ e. e.0) (set_binding name b bs)
unfolding set_binding
set_binding-Distinct name b [] d = (tt, tt)
set_binding-Distinct name b ((k, c) ∷ bs) (a, d) = elim (Bool-cases (k == name)) [
  | inl hit ↦ rw hit (a, d)
  | inr miss ↦ rw miss (
    set_binding-Absent name k b bs (λ e. absurd (ground (arith, eq_iff k name))) a,
    set_binding-Distinct name b bs d,
  )
]
