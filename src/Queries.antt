-- ===== src/Queries.antt =====
-- web/src/entities/*/api/*.ts and web/src/features/*/api/*.ts: the queries of the console with the keys of their cache
-- entries, and the mutations with what `onSuccess` does to the cache. TanStack Query is not modelled, but for its rule
-- that `invalidateQueries` marks the entries whose keys begin with the given one.
pub mod Same
pub mod Effects
pub mod Fresh
use wasm_hooks.Common.{
  ℕ, ltb, String, Bool, true, false, ◌&&◌, List, [], ◌∷◌, ◌++◌, Option, none, some, any, ◌==◌,
}
use wasm_hooks.Json.{Json, null, Record}
use wasm_hooks.Entity.Hook.{OperatorHook}
use wasm_hooks.Entity.Invocation.{Outcome, outcome_text, outcome_is}
use wasm_hooks.Mock.Db.{Db}
use wasm_hooks.Mock.Http.{Reply, json, problem, no_content, status_of}
use wasm_hooks.Mock.Tenants.{list_tenants, create_tenant, patch_tenant}
use wasm_hooks.Mock.ApiKeys.{Draws, list_api_keys, create_api_key, revoke_api_key}
use wasm_hooks.Mock.Hooks.{list_hooks, get_hook, create_hook, put_hook}
use wasm_hooks.Mock.Modules.{FormField, list_modules, upload_module}
use wasm_hooks.Mock.Bindings.{BindingUpdate, list_tenant_hooks, get_tenant_hook, put_binding}
use wasm_hooks.Mock.Log.{LogQuery, list_invocations}
use wasm_hooks.Mock.Server.{Platform, outcome}
use wasm_hooks.Api.Session.{ConsoleKind, tenant, operator}
use wasm_hooks.Contract.Encode.{
  content_of, items_json, null_or, tenant_json, api_key_json, hook_json, tenant_hook_json,
  module_json, invocation_json,
}

-- `InvocationFilter`
pub record InvocationFilter : Type 0 where
  pub outcome : Option Outcome
  pub hook : Option String

pub data Query : Type 0 where
  api_key_list operator_hook_list tenant_hook_list tenant_list : Query
  operator_hook_detail tenant_hook_detail : (name : String) → Query
  module_list : (hook : String) → Query
  invocation_list : InvocationFilter → Query

-- A part of a key.
pub data KeyPart : Type 0 where
  word : String → KeyPart
  filter : InvocationFilter → KeyPart

abbrev pub words : List String → List KeyPart
words [] = []
words (s ∷ ss) = word s ∷ words ss

-- `apiKeyKeys`
abbrev pub api_keys_key : List KeyPart
api_keys_key = words ("operator" ∷ "api-keys" ∷ [])

-- `operatorHookKeys`
abbrev pub api_key_list_key : List KeyPart
api_key_list_key = words ("operator" ∷ "api-keys" ∷ "list" ∷ [])

abbrev pub operator_hooks_key : List KeyPart
operator_hooks_key = words ("operator" ∷ "hooks" ∷ [])

abbrev pub operator_hook_list_key : List KeyPart
operator_hook_list_key = words ("operator" ∷ "hooks" ∷ "list" ∷ [])

abbrev pub operator_hook_key : String → List KeyPart
operator_hook_key name = words ("operator" ∷ "hooks" ∷ "detail" ∷ name ∷ [])

-- `hookKeys`
abbrev pub hooks_key : List KeyPart
hooks_key = words ("tenant" ∷ "hooks" ∷ [])

abbrev pub hook_list_key : List KeyPart
hook_list_key = words ("tenant" ∷ "hooks" ∷ "list" ∷ [])

abbrev pub hook_key : String → List KeyPart
hook_key name = words ("tenant" ∷ "hooks" ∷ "detail" ∷ name ∷ [])

-- `tenantKeys`
abbrev pub tenants_key : List KeyPart
tenants_key = words ("operator" ∷ "tenants" ∷ [])

abbrev pub tenant_list_key : List KeyPart
tenant_list_key = words ("operator" ∷ "tenants" ∷ "list" ∷ [])

-- `moduleKeys`
abbrev pub modules_key : String → List KeyPart
modules_key hook = words ("tenant" ∷ "modules" ∷ hook ∷ [])

-- `invocationKeys`
abbrev pub invocations_key : InvocationFilter → List KeyPart
invocations_key f = word "tenant" ∷ word "invocations" ∷ filter f ∷ []

abbrev pub key_of : Query → List KeyPart
key_of api_key_list = api_key_list_key
key_of operator_hook_list = operator_hook_list_key
key_of (operator_hook_detail name) = operator_hook_key name
key_of tenant_hook_list = hook_list_key
key_of (tenant_hook_detail name) = hook_key name
key_of tenant_list = tenant_list_key
key_of (module_list hook) = modules_key hook
key_of (invocation_list f) = invocations_key f

-- The console that a query is of.
abbrev pub console_of : Query → ConsoleKind
console_of api_key_list = operator
console_of operator_hook_list = operator
console_of (operator_hook_detail name) = operator
console_of tenant_list = operator
console_of tenant_hook_list = tenant
console_of (tenant_hook_detail name) = tenant
console_of (module_list hook) = tenant
console_of (invocation_list f) = tenant

-- `INVOCATIONS_POLL_MS`
abbrev pub invocations_poll_ms : ℕ
invocations_poll_ms = 5000

-- Whether a query is fetched again and again, whatever its data are: the log of invocations is, each
-- `invocations_poll_ms`.
abbrev pub is_polled : Query → Bool
is_polled (invocation_list f) = true
is_polled _ = false

-- A mutation, with its variables.
pub data Mutation : Type 0 where
  tenant_creation hook_creation : Record → Mutation
  tenant_change : (external_id : String) → Record → Mutation
  hook_replacement : (name : String) → Record → Mutation
  key_issue : Record → Mutation
  key_revocation : (id : String) → Mutation
  upload : (hook : String) → FormField → Mutation
  activation : (hook id : String) → Mutation
  config_saving : (hook : String) → List (String × String) → Mutation

abbrev pub mutation_console : Mutation → ConsoleKind
mutation_console (tenant_creation body) = operator
mutation_console (tenant_change id body) = operator
mutation_console (hook_creation body) = operator
mutation_console (hook_replacement name body) = operator
mutation_console (key_issue body) = operator
mutation_console (key_revocation id) = operator
mutation_console (upload hook field) = tenant
mutation_console (activation hook id) = tenant
mutation_console (config_saving hook config) = tenant

-- What `onSuccess` gives to `invalidateQueries`: of `useCreateTenant` and `usePatchTenant`,
abbrev pub tenant_saved : List (List KeyPart)
tenant_saved = tenants_key ∷ []

-- of `useCreateHook` and `useReplaceHook`,
abbrev pub hook_saved : List (List KeyPart)
hook_saved = operator_hook_list_key ∷ []

-- of `useIssueApiKey`,
abbrev pub key_issued : List (List KeyPart)
key_issued = api_keys_key ∷ []

-- of `useRevokeApiKey`,
abbrev pub key_revoked : List (List KeyPart)
key_revoked = api_keys_key ∷ []

-- of `useUploadModule`,
abbrev pub module_uploaded : String → List (List KeyPart)
module_uploaded hook = modules_key hook ∷ []

-- of `useActivateModule`,
abbrev pub module_activated : String → List (List KeyPart)
module_activated hook = hooks_key ∷ modules_key hook ∷ []

-- and of `useSaveConfig`.
abbrev pub config_saved : List (List KeyPart)
config_saved = hooks_key ∷ []

abbrev pub invalidated : Mutation → List (List KeyPart)
invalidated (tenant_creation body) = tenant_saved
invalidated (tenant_change id body) = tenant_saved
invalidated (hook_creation body) = hook_saved
invalidated (hook_replacement name body) = hook_saved
invalidated (key_issue body) = key_issued
invalidated (key_revocation id) = key_revoked
invalidated (upload hook field) = module_uploaded hook
invalidated (activation hook id) = module_activated hook
invalidated (config_saving hook config) = config_saved

abbrev pub same_part : KeyPart → KeyPart → Bool
same_part (word s) (word t) = s == t
same_part (word s) (filter f) = false
same_part (filter f) (word t) = false
same_part (filter f) (filter g) = same_outcome f.outcome g.outcome && same_hook f.hook g.hook
  where
    same_outcome : Option Outcome → Option Outcome → Bool
    same_outcome none none = true
    same_outcome (some o) (some o') = outcome_is o o'
    same_outcome _ _ = false

    same_hook : Option String → Option String → Bool
    same_hook none none = true
    same_hook (some s) (some t) = s == t
    same_hook _ _ = false

-- Whether a key begins with another.
abbrev pub begins_with : List KeyPart → List KeyPart → Bool
begins_with [] key = true
begins_with (p ∷ ps) [] = false
begins_with (p ∷ ps) (k ∷ ks) = same_part p k && begins_with ps ks

-- Whether the success of a mutation has the entry of a query fetched again.
unfoldable pub is_invalidated : Mutation → Query → Bool
is_invalidated m q = any (λ k. begins_with k (key_of q)) (invalidated m)

abbrev outcome_word : Option Outcome → Option String
unfolding outcome_text
outcome_word none = none
outcome_word (some o) = some (outcome_text o)

-- `limit: 100`, with the filter.
abbrev pub log_query : InvocationFilter → LogQuery
unfolding outcome_word
log_query f = record { outcome = outcome_word f.outcome; hook = f.hook; limit = some "100" }

-- The entry of an answered hook.
unfoldable pub entry_of : Reply OperatorHook → Option (Query × Json)
entry_of (json status h) = some (operator_hook_detail h.name, hook_json h)
entry_of (problem status title detail headers) = none
entry_of no_content = none

module _ {F : Type 0} (p : Platform F) where
  -- The mutation at the API, of a request that is authorised: the status, and the state after it.
  unfoldable pub perform : Mutation → Draws → ℕ → Db F → ℕ × Db F
  perform (tenant_creation body) draws now db = outcome (create_tenant body now db)
  perform (tenant_change id body) draws now db = outcome (patch_tenant id body now db)
  perform (hook_creation body) draws now db = outcome (create_hook body now db)
  perform (hook_replacement name body) draws now db = outcome (put_hook name body now db)
  perform (key_issue body) draws now db = outcome (create_api_key body draws now db)
  perform (key_revocation id) draws now db = outcome (revoke_api_key id now db)
  perform (upload hook field) draws now db = outcome (upload_module p.digest hook field now db)
  perform (activation hook id) draws now db =
      outcome (put_binding hook (record { active_module_id = some id; config = none }) now db)
  perform (config_saving hook config) draws now db =
      outcome (put_binding hook (record { active_module_id = none; config = some config }) now db)

  -- What `setQueryData` of `onSuccess` puts into the cache.
  unfoldable pub set_data : Mutation → ℕ → Db F → Option (Query × Json)
  unfolding entry_of
  set_data (hook_creation body) now db = entry_of (create_hook body now db).0
  set_data (hook_replacement name body) now db = entry_of (put_hook name body now db).0
  set_data _ now db = none

  -- What the API answers to a query that is authorised.
  unfoldable pub read : Query → ℕ → Db F → ℕ × Option Json
  read api_key_list now db = content_of (items_json api_key_json) (list_api_keys p.collate db).0
  read operator_hook_list now db = content_of (items_json hook_json) (list_hooks p.collate db).0
  read (operator_hook_detail name) now db = content_of hook_json (get_hook name db).0
  read tenant_list now db = content_of (items_json tenant_json) (list_tenants p.collate db).0
  read tenant_hook_list now db =
      content_of (items_json (null_or tenant_hook_json)) (list_tenant_hooks db).0
  read (tenant_hook_detail name) now db = content_of tenant_hook_json (get_tenant_hook name db).0
  read (module_list hook) now db =
      content_of (items_json module_json) (list_modules p.collate hook now db).0
  read (invocation_list f) now db =
      content_of (items_json (invocation_json p.floats))
        (list_invocations p.floats p.parse_date p.to_index (log_query f) now db).0
