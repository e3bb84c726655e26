-- ===== src/Examples/Bindings.antt =====
-- Updates of a binding.
use wasm_hooks.Common.{◌≡◌, refl, [], ◌∷◌, some}
use wasm_hooks.Json.{lookup}
use wasm_hooks.Json.Stringify.{stringify}
use wasm_hooks.Entity.Hook.{Binding}
use wasm_hooks.Mock.Bindings.{BindingUpdate, put_binding}
use wasm_hooks.Mock.Bindings.Laws.{put_binding_twice}
use wasm_hooks.Mock.Bindings.Version.{put_binding-version, due_version}
use wasm_hooks.Mock.Seed.{seed_hash}
use wasm_hooks.Clock.{to_iso_string}
use wasm_hooks.Examples.Data.{start, noon}

abbrev back : BindingUpdate
back = record { active_module_id = some "mod_01"; config = some (("percent", "15") ∷ []) }

abbrev back_binding : Binding
back_binding = record {
  active_module_id = some "mod_01";
  active_module_hash = some (seed_hash "3f1a9c2e");
  config = ("percent", "15") ∷ [];
  config_version = 8;
  updated_at = to_iso_string noon;
}

put_binding-version_example :
    8 ≡ due_version (some (("percent", "15") ∷ [])) (lookup "checkout.discount" start.bindings)
unfolding put_binding stringify
put_binding-version_example =
    put_binding-version "checkout.discount" noon start back back_binding refl

put_binding_twice_example :
    put_binding "checkout.discount" back 5 (put_binding "checkout.discount" back noon start).1
    ≡ put_binding "checkout.discount" back noon start
put_binding_twice_example = put_binding_twice "checkout.discount" back noon 5 start
