-- ===== src/Mock/Seed.antt =====
-- web/src/mocks/db.ts: the state that the mock API starts with (`initialDb`).
pub mod Valid
use Prim.Native.String
use wasm_hooks.Common.{
  ℕ, zero, suc, ◌*◌, String, Bool, true, false, List, [], ◌∷◌, map, Option, none, some,
}
use wasm_hooks.Common.Int.{ℤ, pos}
use wasm_hooks.Text.{concat}
use wasm_hooks.Json.{Json, whole, str, arr, obj, Record, of_elems, of_props}
use wasm_hooks.Entity.Hook.{OperatorHook, HookSpec, Binding}
use wasm_hooks.Entity.Module.{Module, ValidationReport, validated, rejected}
use wasm_hooks.Entity.Tenant.{Tenant}
use wasm_hooks.Entity.Invocation.{Invocation}
use wasm_hooks.Mock.Db.{Db, PendingModule, StoredApiKey}
use wasm_hooks.Mock.Log.{Floats, initial_invocations}
use wasm_hooks.Mock.Modules.{checks_ok, checks_rejected, http_import_detail}

-- `TENANTS`
abbrev pub seed_tenants : List Tenant
seed_tenants =
    record {
      external_id = "merchant-a";
      name = "Магазин A";
      rate_limit_rps = pos 0;
      concurrency_limit = pos 0;
      created_at = "2026-09-05T09:00:00Z";
      updated_at = "2026-09-05T09:00:00Z";
    }
    ∷ record {
      external_id = "merchant-b";
      name = "Магазин B";
      rate_limit_rps = pos 50;
      concurrency_limit = pos 4;
      created_at = "2026-09-12T12:30:00Z";
      updated_at = "2026-09-19T08:15:00Z";
    }
    ∷ []

-- `API_KEYS`
abbrev pub seed_api_keys : List StoredApiKey
seed_api_keys =
    record {
      key = record {
        id = "key_5f2c9a1e0b7d4c3a";
        name = "bootstrap";
        created_at = "2026-09-05T08:55:00Z";
        revoked_at = none;
      };
      token = "whk_mockBootstrapKey000000000000000";
    }
    ∷ record {
      key = record {
        id = "key_a1b2c3d4e5f60718";
        name = "old-shop-backend";
        created_at = "2026-09-08T10:00:00Z";
        revoked_at = some "2026-09-15T17:20:00Z";
      };
      token = "whk_mockRevokedKey00000000000000000";
    }
    ∷ []

abbrev object : Record → Json
object fs = obj (of_props fs)

abbrev array : List Json → Json
array vs = arr (of_elems vs)

-- `{ type: … }`
abbrev typed : String → Record → Json
typed type more = object (("type", str type) ∷ more)

abbrev number : ℕ → Json
number n = whole (pos n)

abbrev discount_input : Record
discount_input =
    ("type", str "object")
    ∷ ("required", array (str "cart_total" ∷ str "customer" ∷ []))
    ∷ (
      "properties",
      object (
          ("cart_total", typed "number" (("minimum", number 0) ∷ []))
          ∷ (
            "customer",
            typed "object" (
                ("required", array (str "id" ∷ str "lifetime_spend" ∷ []))
                ∷ (
                  "properties",
                  object (("id", typed "string" []) ∷ ("lifetime_spend", typed "number" []) ∷ []),
                )
                ∷ []),
          )
          ∷ []),
    )
    ∷ []

abbrev discount_output : Record
discount_output =
    ("type", str "object")
    ∷ ("required", array (str "discount_percent" ∷ []))
    ∷ (
      "properties",
      object (
          (
            "discount_percent",
            typed "integer" (("minimum", number 0) ∷ ("maximum", number 100) ∷ []),
          )
          ∷ ("reason", typed "string" [])
          ∷ []),
    )
    ∷ []

abbrev discount_sample : Record
discount_sample =
    ("cart_total", number 1500)
    ∷ ("customer", object (("id", str "c-42") ∷ ("lifetime_spend", number 2400) ∷ []))
    ∷ []

abbrev validate_input : Record
validate_input =
    ("type", str "object")
    ∷ ("required", array (str "order" ∷ []))
    ∷ ("properties", object (("order", typed "object" []) ∷ []))
    ∷ []

abbrev validate_output : Record
validate_output =
    ("type", str "object")
    ∷ ("required", array (str "valid" ∷ []))
    ∷ ("properties", object (("valid", typed "boolean" []) ∷ ("message", typed "string" []) ∷ []))
    ∷ []

abbrev validate_sample : Record
validate_sample = ("order", object (("id", str "o-1") ∷ ("items", array []) ∷ [])) ∷ []

abbrev pub validate_spec : HookSpec
validate_spec = record {
  input_schema = validate_input;
  output_schema = validate_output;
  timeout_ms = pos 100;
  memory_max_pages = pos 64;
  allowed_host_functions = [];
  allowed_effect_types = "order.flag" ∷ [];
  sample_input = validate_sample;
}

-- `HOOKS`
abbrev pub seed_hooks : List OperatorHook
seed_hooks =
    record {
      name = "checkout.discount";
      def_version = 3;
      spec = record {
        input_schema = discount_input;
        output_schema = discount_output;
        timeout_ms = pos 50;
        memory_max_pages = pos 64;
        allowed_host_functions = [];
        allowed_effect_types = [];
        sample_input = discount_sample;
      };
      created_at = "2026-09-05T10:00:00Z";
      updated_at = "2026-09-17T16:20:00Z";
    }
    ∷ record {
      name = "order.validate";
      def_version = 1;
      spec = validate_spec;
      created_at = "2026-09-20T09:30:00Z";
      updated_at = "2026-09-20T09:30:00Z";
    }
    ∷ []

abbrev repeat : ℕ → String → String
repeat zero s = ""
repeat (suc n) s = String.◌++◌ s (repeat n s)

abbrev front : ℕ → String → String
front zero s = ""
front (suc n) String.[] = ""
front (suc n) (String.◌∷◌ c s) = String.◌∷◌ c (front n s)

-- `hash(seed)`
abbrev pub seed_hash : String → String
seed_hash seed = concat ("sha256:" ∷ front 64 (repeat 8 seed) ∷ [])

abbrev pub passed_report : ValidationReport
passed_report = record { ok = true; checks = checks_ok }

abbrev settled : Module → PendingModule
settled m = record { base = m; validates_at = 0; reject_reason = none }

-- `initialModules`
abbrev pub seed_modules : List PendingModule
seed_modules =
    settled (record {
      id = "mod_01";
      hook = "checkout.discount";
      content_hash = seed_hash "3f1a9c2e";
      size_bytes = 131204;
      status = validated;
      validation_report = some passed_report;
      uploaded_at = "2026-09-10T09:12:00Z";
    })
    ∷ settled (record {
      id = "mod_02";
      hook = "checkout.discount";
      content_hash = seed_hash "9b7d04f1";
      size_bytes = 139560;
      status = validated;
      validation_report = some passed_report;
      uploaded_at = "2026-09-18T14:40:00Z";
    })
    ∷ settled (record {
      id = "mod_03";
      hook = "checkout.discount";
      content_hash = seed_hash "c2e88a10";
      size_bytes = 152977;
      status = rejected;
      validation_report = some (record { ok = false; checks = checks_rejected http_import_detail });
      uploaded_at = "2026-09-22T11:05:00Z";
    })
    ∷ []

abbrev pub seed_binding : Binding
seed_binding = record {
  active_module_id = some "mod_02";
  active_module_hash = some (seed_hash "9b7d04f1");
  config = ("threshold", "1000") ∷ ("percent", "10") ∷ [];
  config_version = 7;
  updated_at = "2026-09-18T14:45:00Z";
}

-- The initial state with a log of invocations, and the state of the generator after it.
abbrev pub initial_db : {F : Type 0} → List (Invocation F) → ℤ → Db F
initial_db log seed = record {
  hooks = seed_hooks;
  modules = seed_modules;
  bindings = ("checkout.discount", seed_binding) ∷ [];
  invocations = log;
  tenants = seed_tenants;
  api_keys = seed_api_keys;
  random = seed;
}

-- `initialDb`, at a time and in a state of the generator: at first the state of `mulberry32(42)`.
unfoldable pub initial_state : {F : Type 0} → Floats F → ℕ → ℤ → Db F
unfolding initial_invocations
initial_state floats now seed =
    let (log, s) = initial_invocations floats (seed_hash "9b7d04f1") now seed in initial_db log s

-- `mulberry32(42)`
abbrev pub first_seed : ℤ
first_seed = pos 42

-- `resetDb`, which does not start the generator again.
unfoldable pub reset_db : {F : Type 0} → Floats F → ℕ → Db F → Db F
unfolding initial_state
reset_db floats now db = initial_state floats now db.random
