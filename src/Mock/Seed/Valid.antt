-- ===== src/Mock/Seed/Valid.antt =====
-- The initial state is well formed, and so is every state that requests lead to.
use wasm_hooks.Common.Int.{ℤ}
use wasm_hooks.Common.{ℕ, refl, List, arith, distinct}
use wasm_hooks.Text.{utf16_length}
use wasm_hooks.Entity.Hook.{hook_name_matches}
use wasm_hooks.Entity.Invocation.{Invocation}
use wasm_hooks.Mock.Server.{Platform, Request, run}
use wasm_hooks.Mock.Server.Valid.{IsValid}
use wasm_hooks.Mock.Server.Invariant.{run-IsValid}
use wasm_hooks.Mock.Seed.{initial_db, initial_state}

pub initial_db-IsValid :
    {F : Type 0} (log : List (Invocation F)) (seed : ℤ) → IsValid (initial_db log seed)
unfolding utf16_length hook_name_matches
initial_db-IsValid log seed = record {
  tenants_valid = (
    (
      record { id_low = omega arith; id_high = omega arith; rate = tt; concurrency = tt },
      (record { id_low = omega arith; id_high = omega arith; rate = tt; concurrency = tt }, tt),
    ),
    ((distinct _ _ refl, tt), (tt, tt)),
  );
  keys_valid = (
    (
      record { name_low = omega arith; name_high = omega arith; dated = tt },
      (record { name_low = omega arith; name_high = omega arith; dated = refl }, tt),
    ),
    ((distinct _ _ refl, tt), (tt, tt)),
  );
  hooks_valid = (
    (
      record {
        pattern = refl;
        name_high = omega arith;
        spec_valid = record { timeout = (refl, refl); memory = (refl, refl) };
      },
      (
        record {
          pattern = refl;
          name_high = omega arith;
          spec_valid = record { timeout = (refl, refl); memory = (refl, refl) };
        },
        tt,
      ),
    ),
    ((distinct _ _ refl, tt), (tt, tt)),
  );
  modules_valid = record {
    reports = (refl, (refl, (refl, tt)));
    unique = ((refl, (refl, tt)), ((refl, tt), (tt, tt)));
  };
  bindings_valid = (((_, refl, refl, refl), tt), (tt, tt));
}

-- Whatever requests the mock API serves from its initial state, its state is well formed.
pub reachable-IsValid :
    {F : Type 0} (p : Platform F) (now : ℕ) (seed : ℤ) (rs : List Request)
    → IsValid (run p rs (initial_state p.floats now seed))
unfolding initial_state
reachable-IsValid p now seed rs = run-IsValid p rs _ (initial_db-IsValid _ _)
