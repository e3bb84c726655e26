-- ===== src/Examples/Server.antt =====
-- Histories of requests.
use wasm_hooks.Common.Int.{pos}
use wasm_hooks.Common.{◌≡◌, refl, [], ◌∷◌, none, some, arith}
use wasm_hooks.Mock.ApiKeys.{revoke_api_key}
use wasm_hooks.Mock.Db.{StoredApiKey}
use wasm_hooks.Mock.Hooks.{get_hook}
use wasm_hooks.Text.{is_space}
use wasm_hooks.Mock.Http.{bearer_token, has_bearer}
use wasm_hooks.Mock.Server.{Request, tenant_create, hook_get, invocations_list, serve, run}
use wasm_hooks.Mock.Server.Valid.{IsValid}
use wasm_hooks.Mock.Server.Revoked.{revoked_forever}
use wasm_hooks.Mock.Server.Refusals.{serve_refused}
use wasm_hooks.Mock.Seed.{initial_state}
use wasm_hooks.Mock.Seed.Valid.{initial_db-IsValid, reachable-IsValid}
use wasm_hooks.Examples.Data.{start, browser, floats, noon, new_shop}

abbrev key_bootstrap : StoredApiKey
key_bootstrap = record {
  key = record {
    id = "key_5f2c9a1e0b7d4c3a";
    name = "bootstrap";
    created_at = "2026-09-05T08:55:00Z";
    revoked_at = none;
  };
  token = "whk_mockBootstrapKey000000000000000";
}

-- A request with the token of the first key,
abbrev creation : Request
creation = record {
  call = tenant_create new_shop;
  authorization = some "Bearer whk_mockBootstrapKey000000000000000";
  now = noon;
}

-- one with the token of a key that is revoked,
abbrev refused_request : Request
refused_request = record creation {
  authorization = some "Bearer whk_mockRevokedKey00000000000000000";
}

-- and one that names a hook that is not there.
abbrev miss : Request
miss = record creation { call = hook_get "nothing" }

-- The log, as the console asks for it.
abbrev look : Request
look = record creation {
  call = invocations_list (record { outcome = none; hook = none; limit = some "100" });
}

reachable-IsValid_example :
    IsValid (run browser (creation ∷ miss ∷ look ∷ []) (initial_state floats noon (pos 42)))
reachable-IsValid_example = reachable-IsValid browser noon (pos 42) (creation ∷ miss ∷ look ∷ [])

serve_refused_example : (serve browser miss start).1 ≡ start
unfolding serve has_bearer get_hook is_space
serve_refused_example = serve_refused browser miss start (omega arith)

revoked_forever_example :
    let after = run browser (miss ∷ []) (revoke_api_key "key_5f2c9a1e0b7d4c3a" noon start).1 in
    serve browser creation after ≡ (401, after)
unfolding bearer_token is_space
revoked_forever_example =
    revoked_forever browser start "key_5f2c9a1e0b7d4c3a" noon key_bootstrap (miss ∷ []) creation
      "Bearer whk_mockBootstrapKey000000000000000"
      (initial_db-IsValid {F = Unit} [] (pos 0)).keys_valid refl refl refl
