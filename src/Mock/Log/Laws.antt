-- ===== src/Mock/Log/Laws.antt =====
-- The log of invocations as the mock API writes it: what a tick touches, and the numbers of its entries.
use wasm_hooks.Common.Int.{ℤ}
use wasm_hooks.Common.{
  ℕ, zero, suc, ◌+◌, ◌++◌, [], ◌∷◌, some-inj, Bool-cases, inl, inr, ◌≡◌, refl, String, Option, none,
  some, Bool, true, false, if◌then◌else◌, List,
}
use wasm_hooks.Json.{lookup}
use wasm_hooks.Entity.Hook.{Binding}
use wasm_hooks.Entity.Invocation.{Invocation}
use wasm_hooks.Mock.Db.{Db}
use wasm_hooks.Clock.{to_iso_string}
use wasm_hooks.Mock.Log.{
  moment, Floats, make_invocation, past_invocations, initial_invocations, tick_invocations,
  append_invocation, last_invocation, is_recent,
}

module _ {F : Type 0} (floats : Floats F) (parse_date : String → Option ℕ) (now : ℕ)
    (db : Db F) where
  append_invocation-frame :
      (b : Option Binding) (last : Option (Invocation F))
      → let db' = append_invocation floats now b last parse_date db in
        db' ≡ record db { invocations = db'.invocations; random = db'.random }
  unfolding append_invocation
  append_invocation-frame none last = refl
  append_invocation-frame (some b) none = refl
  append_invocation-frame (some b) (some last) = go (is_recent parse_date now last.ts) _ _
    where
      go :
          (recent : Bool) (log : List (Invocation F)) (seed : ℤ)
          → let db' = if recent then db else record db { invocations = log; random = seed } in
            db' ≡ record db { invocations = db'.invocations; random = db'.random }
      go true log seed = refl
      go false log seed = refl

  -- A tick writes the log and the state of the generator alone.
  pub tick-frame :
      let db' = tick_invocations floats parse_date now db in
      db' ≡ record db { invocations = db'.invocations; random = db'.random }
  unfolding tick_invocations
  tick-frame =
      append_invocation-frame (lookup "checkout.discount" db.bindings)
        (last_invocation db.invocations)

-- The entries are numbered one after another, from a number on.
unfoldable pub AreNumbered : {F : Type 0} → ℕ → List (Invocation F) → Type 0
AreNumbered n [] = Unit
AreNumbered n (i ∷ is) = (i.seq ≡ n) × AreNumbered (n + 1) is

module _ {F : Type 0} (floats : Floats F) where
  make_invocation-seq :
      (n : ℕ) (ts : String) (hash : Option String) (seed : ℤ)
      → (make_invocation floats n ts hash seed).0.seq ≡ n
  unfolding make_invocation
  make_invocation-seq n ts hash seed = refl

  past_invocations-AreNumbered :
      (k n now : ℕ) (hash : String) (seed : ℤ)
      → AreNumbered n (past_invocations floats k n now hash seed).0
  unfolding past_invocations AreNumbered
  past_invocations-AreNumbered zero n now hash seed = tt
  past_invocations-AreNumbered (suc k) n now hash seed = (
    make_invocation-seq n (moment now (suc k)) (some hash) seed,
    past_invocations-AreNumbered k (n + 1) now hash _,
  )

  pub initial_invocations-AreNumbered :
      (hash : String) (now : ℕ) (seed : ℤ)
      → AreNumbered 1 (initial_invocations floats hash now seed).0
  unfolding initial_invocations
  initial_invocations-AreNumbered hash now seed = past_invocations-AreNumbered 60 1 now hash seed

  AreNumbered-append :
      (n : ℕ) (log : List (Invocation F)) (last next : Invocation F)
      → AreNumbered n log
      → last_invocation log ≡ some last
      → next.seq ≡ last.seq + 1
      → AreNumbered n (log ++ next ∷ [])
  unfolding AreNumbered
  AreNumbered-append n [] last next h e s = absurd (cc)
  AreNumbered-append n (i ∷ []) last next (p, h) e s =
      let same : i ≡ last = some-inj e in (p, (rw s (rw (← same) (rw p refl)), tt))
  AreNumbered-append n (i ∷ j ∷ is) last next (p, h) e s =
      (p, AreNumbered-append (n + 1) (j ∷ is) last next h e s)

  module _ (parse_date : String → Option ℕ) (now : ℕ) (db : Db F) where
    append_invocation-AreNumbered :
        (n : ℕ) (b : Option Binding) (last : Option (Invocation F))
        → last_invocation db.invocations ≡ last
        → AreNumbered n db.invocations
        → AreNumbered n (append_invocation floats now b last parse_date db).invocations
    unfolding append_invocation
    append_invocation-AreNumbered n none last e h = h
    append_invocation-AreNumbered n (some b) none e h = h
    append_invocation-AreNumbered n (some b) (some last) e h =
        elim (Bool-cases (is_recent parse_date now last.ts)) [
          | inl recent ↦ rw recent h
          | inr old ↦ rw old (
              AreNumbered-append n db.invocations last _ h e (
                make_invocation-seq (last.seq + 1) (to_iso_string now) b.active_module_hash
                  db.random))
        ]

    pub tick-AreNumbered :
        (n : ℕ)
        → AreNumbered n db.invocations
        → AreNumbered n (tick_invocations floats parse_date now db).invocations
    unfolding tick_invocations
    tick-AreNumbered n h =
        append_invocation-AreNumbered n (lookup "checkout.discount" db.bindings) _ refl h
