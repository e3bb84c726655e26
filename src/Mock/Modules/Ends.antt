-- ===== src/Mock/Modules/Ends.antt =====
-- How the replies of the handlers of modules end.
use wasm_hooks.Common.{
  ℕ, refl, String, List, arith, Bool-cases, inl, inr, any, Bool, ltb, nat_eq, length,
}
use wasm_hooks.Mock.Db.{Db}
use wasm_hooks.Mock.Modules.{
  FormField, absent, text, file, upload_module, upload_file, store_module, list_modules, knows_hook,
  has_content, content_hash_of,
}
use wasm_hooks.Entity.Module.{max_module_bytes}
use wasm_hooks.Mock.Http.Ends.{Ends}

module _ {F : Type 0} (db : Db F) where
  pub list_modules-Ends :
      (collate : String → String → Bool) (name : String) (now : ℕ)
      → Ends 200 (list_modules collate name now db).0
  unfolding list_modules
  list_modules-Ends collate name now = elim (Bool-cases (knows_hook name db)) [
    | inl known ↦ rw known refl
    | inr unknown ↦ rw unknown (omega arith)
  ]

  store_module-Ends :
      (name hash : String) (size : ℕ) (file_name : String) (now : ℕ)
      → Ends 201 (store_module name hash size file_name now db).0
  unfolding store_module
  store_module-Ends name hash size file_name now =
      elim (Bool-cases (any (has_content name hash) db.modules)) [
        | inl taken ↦ rw taken (omega arith)
        | inr free ↦ rw free refl
      ]

  upload_file-Ends :
      (digest : List ℕ → List ℕ) (name : String) (field : FormField) (now : ℕ)
      → Ends 201 (upload_file digest name field now db).0
  unfolding upload_file
  upload_file-Ends digest name absent now = omega arith
  upload_file-Ends digest name (text s) now = omega arith
  upload_file-Ends digest name (file f) now =
      elim (Bool-cases (ltb max_module_bytes (length f.bytes))) [
        | inl large ↦ rw large (omega arith)
        | inr fits ↦ elim (Bool-cases (nat_eq (length f.bytes) 0)) [
          | inl empty ↦ rw (fits, empty) (omega arith)
          | inr full ↦
              rw (fits, full)
                (store_module-Ends name (content_hash_of digest f.bytes) (length f.bytes)
                  f.file_name now)
        ]
      ]

  pub upload_module-Ends :
      (digest : List ℕ → List ℕ) (name : String) (field : FormField) (now : ℕ)
      → Ends 201 (upload_module digest name field now db).0
  unfolding upload_module
  upload_module-Ends digest name field now = elim (Bool-cases (knows_hook name db)) [
    | inl known ↦ rw known (upload_file-Ends digest name field now)
    | inr unknown ↦ rw unknown (omega arith)
  ]
