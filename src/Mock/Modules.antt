-- ===== src/Mock/Modules.antt =====
-- web/src/mocks/db.ts and handlers.ts: uploaded modules, and their validation, which ends at a set time. `now` is the
-- time of a call in milliseconds; `digest` is SHA-256 of `crypto.subtle`, from bytes to bytes.
pub mod Ends
pub mod Settle
pub mod Laws
use wasm_hooks.Common.{
  ℕ, ◌+◌, ltb, nat_eq, if◌then◌else◌, ◌==◌, String, Bool, true, false, not, ◌&&◌, ◌||◌, List, [],
  ◌∷◌, ◌++◌, map, length, Option, none, some, any, keep, find, sort,
}
use wasm_hooks.Text.{concat, decimal, hexadecimal, pad_start, includes}
use wasm_hooks.Clock.{to_iso_string}
use wasm_hooks.Entity.Module.{
  Module, ModuleStatus, validating, validated, rejected, status_is, ValidationCheck,
  ValidationReport, fetch, compile, exports, imports, sample_call, max_module_bytes,
}
use wasm_hooks.Mock.Db.{Db, PendingModule, public_module}
use wasm_hooks.Mock.Http.{Reply, json, fail, is_truthy}
use wasm_hooks.Mock.Hooks.{has_name, hook_not_found}

abbrev pub http_import_detail : String
http_import_detail =
    "import extism:host/env.http_request is not allowed; import extism:host/env.http_status_code is not allowed; import extism:host/env.http_headers is not allowed"

abbrev pub validation_ms : ℕ
validation_ms = 3000

abbrev pub passed : ValidationCheck
passed = record { name = fetch; ok = true; detail = none }

unfoldable pub checks_ok : List ValidationCheck
checks_ok =
    passed
    ∷ record passed { name = compile }
    ∷ record passed { name = exports }
    ∷ record passed { name = imports }
    ∷ record passed { name = sample_call }
    ∷ []

unfoldable pub checks_rejected : String → List ValidationCheck
checks_rejected detail =
    passed
    ∷ record passed { name = compile }
    ∷ record passed { name = exports }
    ∷ record { name = imports; ok = false; detail = some detail }
    ∷ record { name = sample_call; ok = false; detail = some "skipped" }
    ∷ []

abbrev pub with_status : ModuleStatus → ValidationReport → PendingModule → PendingModule
with_status status report m = record m {
  base = record (m.base) { status = status; validation_report = some report };
}

pub verdict : Option String → PendingModule → PendingModule
verdict none m = with_status validated (record { ok = true; checks = checks_ok }) m
verdict (some reason) m =
    if is_truthy (some reason)
    then with_status rejected (record { ok = false; checks = checks_rejected reason }) m
    else with_status validated (record { ok = true; checks = checks_ok }) m

-- One round of `settleModules`.
unfoldable pub settle : ℕ → PendingModule → PendingModule
unfolding verdict
settle now m =
    if not (status_is m.status validating) || ltb now m.validates_at
    then m
    else verdict m.reject_reason m

abbrev pub settle_modules : ℕ → List PendingModule → List PendingModule
settle_modules now ms = map (settle now) ms

-- The module that `addUploadedModule` pushes.
unfoldable pub new_module : ℕ → String → String → ℕ → String → ℕ → PendingModule
new_module count hook content_hash size file_name now = record {
  base = record {
    id = concat ("mod_" ∷ pad_start 2 (decimal (count + 1)) ∷ []);
    hook = hook;
    content_hash = content_hash;
    size_bytes = size;
    status = validating;
    validation_report = none;
    uploaded_at = to_iso_string now;
  };
  validates_at = now + validation_ms;
  reject_reason = if includes file_name "http" then some http_import_detail else none;
}

-- The `file` part of the form: absent, a text, or a file.
pub record File : Type 0 where
  pub file_name : String
  pub bytes : List ℕ

pub data FormField : Type 0 where
  absent : FormField
  text : String → FormField
  file : File → FormField

-- `sha256`
unfoldable pub content_hash_of : (List ℕ → List ℕ) → List ℕ → String
content_hash_of digest bytes =
    concat ("sha256:" ∷ concat (map (λ b. pad_start 2 (hexadecimal b)) (digest bytes)) ∷ [])

abbrev pub has_content : String → String → PendingModule → Bool
has_content hook hash m = m.hook == hook && m.content_hash == hash

module _ {F : Type 0} where
  abbrev pub knows_hook : String → Db F → Bool
  knows_hook name db = any (has_name name) db.hooks

  -- `GET /tenant/hooks/:hook/modules`, newest first by `localeCompare`.
  unfoldable pub list_modules :
      (String → String → Bool) → String → ℕ → Db F → Reply (List Module) × Db F
  unfolding settle public_module
  list_modules collate name now db =
      let settled = settle_modules now db.modules in
      if knows_hook name db
      then (
        json 200 (
            map public_module (
              sort (λ a b. collate b.uploaded_at a.uploaded_at)
                (keep (λ m. m.hook == name) settled))),
        record db { modules = settled },
      )
      else (fail 404 hook_not_found (some name), db)

  unfoldable pub store_module : String → String → ℕ → String → ℕ → Db F → Reply Module × Db F
  unfolding new_module public_module
  store_module name hash size file_name now db =
      let m = new_module (length db.modules) name hash size file_name now in
      if any (has_content name hash) db.modules
      then (fail 409 "Такая версия уже загружена" (some hash), db)
      else (json 201 (public_module m), record db { modules = db.modules ++ m ∷ [] })

  unfoldable pub upload_file :
      (List ℕ → List ℕ) → String → FormField → ℕ → Db F → Reply Module × Db F
  unfolding store_module content_hash_of
  upload_file digest name absent now db =
      (fail 422 "Некорректный запрос" (some "body.file: Field required"), db)
  upload_file digest name (text s) now db =
      (fail 422 "Некорректный запрос" (some "body.file: Field required"), db)
  upload_file digest name (file f) now db =
      if ltb max_module_bytes (length f.bytes)
      then (fail 413 "Модуль слишком большой" none, db)
      else if nat_eq (length f.bytes) 0
      then (fail 422 "Пустой модуль" none, db)
      else store_module name (content_hash_of digest f.bytes) (length f.bytes) f.file_name now db

  -- `POST /tenant/hooks/:hook/modules`
  unfoldable pub upload_module :
      (List ℕ → List ℕ) → String → FormField → ℕ → Db F → Reply Module × Db F
  unfolding upload_file store_module
  upload_module digest name field now db =
      if knows_hook name db
      then upload_file digest name field now db
      else (fail 404 hook_not_found (some name), db)
