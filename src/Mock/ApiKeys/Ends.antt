-- ===== src/Mock/ApiKeys/Ends.antt =====
-- How the replies of the handlers of /api-keys end.
use wasm_hooks.Common.{ℕ, refl, arith, Bool-cases, inl, inr, any, ◌==◌}
use wasm_hooks.Json.{Record, lookup}
use wasm_hooks.Mock.Db.{Db, StoredApiKey}
use wasm_hooks.Mock.ApiKeys.{
  NameCheck, refused, accepted, Draws, check_name, new_key, create_named, create_api_key,
  insert_key,
}
use wasm_hooks.Mock.Http.Ends.{Ends}

module _ {F : Type 0} (db : Db F) where
  insert_key-Ends : (k : StoredApiKey) → Ends 201 (insert_key k db).0
  unfolding insert_key
  insert_key-Ends k = elim (Bool-cases (any (λ j. j.name == k.name) db.api_keys)) [
    | inl taken ↦ rw taken (omega arith)
    | inr free ↦ rw free refl
  ]

  create_named-Ends :
      (c : NameCheck) (draws : Draws) (now : ℕ) → Ends 201 (create_named c draws now db).0
  unfolding create_named
  create_named-Ends (refused d) draws now = omega arith
  create_named-Ends (accepted name) draws now = insert_key-Ends (new_key name draws now)

  pub create_api_key-Ends :
      (body : Record) (draws : Draws) (now : ℕ) → Ends 201 (create_api_key body draws now db).0
  unfolding create_api_key
  create_api_key-Ends body draws now = create_named-Ends (check_name (lookup "name" body)) draws now
