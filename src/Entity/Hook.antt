-- ===== src/Entity/Hook.antt =====
-- web/src/entities/hook/model: hook definitions and bindings, and the names that a hook may have.
use wasm_hooks.Common.{
  ℕ, String, Bool, true, false, ◌&&◌, ◌||◌, List, code, leb, nat_eq, Option, if◌then◌else◌,
}
use wasm_hooks.Common.Int.{ℤ}
use wasm_hooks.Json.{Record}

abbrev pub hook_name_max : ℕ
hook_name_max = 128

pub record Range : Type 0 where
  pub low : ℕ
  pub high : ℕ

abbrev pub timeout_ms_range : Range
timeout_ms_range = record { low = 1; high = 30000 }

abbrev pub memory_pages_range : Range
memory_pages_range = record { low = 16; high = 16384 }

is_lower : ℕ → Bool
is_lower c = leb b'a' c && leb c b'z'

is_word : ℕ → Bool
unfolding is_lower
is_word c = is_lower c || (leb b'0' c && leb c b'9') || nat_eq c b'_'

mutual
  unfolding is_lower is_word

  -- `/^[a-z][a-z0-9_]*(\.[a-z][a-z0-9_]*)*$/`: at the first letter of a part,
  at_start : String → Bool
  at_start String.[] = false
  at_start (String.◌∷◌ c s) = is_lower (code c) && in_part s

  -- and behind it.
  in_part : String → Bool
  in_part String.[] = true
  in_part (String.◌∷◌ c s) =
      let more = in_part s in
      let next = at_start s in if nat_eq (code c) b'.' then next else is_word (code c) && more

-- `HOOK_NAME_PATTERN.test(name)`
unfoldable pub hook_name_matches : String → Bool
unfolding at_start in_part is_lower is_word
hook_name_matches name = at_start name

pub record HookSpec : Type 0 where
  pub input_schema : Record
  pub output_schema : Record
  pub timeout_ms : ℤ
  pub memory_max_pages : ℤ
  pub allowed_host_functions : List String
  pub allowed_effect_types : List String
  pub sample_input : Record

pub record OperatorHook : Type 0 where
  pub name : String
  pub def_version : ℕ
  pub spec : HookSpec
  pub open spec use *
  pub created_at : String
  pub updated_at : String

pub record Binding : Type 0 where
  pub active_module_id : Option String
  pub active_module_hash : Option String
  pub config : List (String × String)
  pub config_version : ℕ
  pub updated_at : String

-- The hook as the tenant sees it, with the tenant's binding.
pub record TenantHook : Type 0 where
  pub hook : OperatorHook
  pub binding : Option Binding
