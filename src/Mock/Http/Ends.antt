-- ===== src/Mock/Http/Ends.antt =====
-- How replies end: with one status of success and a value, or with a problem of 400 or more.
use wasm_hooks.Common.{ℕ, ◌≤◌, ◌≡◌, String, Option, arith, Bool-cases, inl, inr}
use wasm_hooks.Mock.Db.{Db}
use wasm_hooks.Mock.Http.{Reply, json, problem, no_content, has_bearer, authed}

abbrev pub Ends : {A : Type 0} → ℕ → Reply A → Type 0
Ends good (json status a) = status ≡ good
Ends good (problem status title detail headers) = 400 ≤ status
Ends good no_content = ⊥

module _ {F : Type 0} (db : Db F) where
  pub authed-Ends :
      {A : Type 0} (good : ℕ) (auth : Option String) (handler : Db F → Reply A × Db F)
      → Ends good (handler db).0
      → Ends good (authed auth handler db).0
  unfolding authed
  authed-Ends good auth handler h = elim (Bool-cases (has_bearer db.api_keys auth)) [
    | inl known ↦ rw known h
    | inr unknown ↦ rw unknown (omega arith)
  ]
