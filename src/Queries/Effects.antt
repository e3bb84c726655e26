-- ===== src/Queries/Effects.antt =====
-- What an upload leaves the same to the queries: the modules of the other hooks.
use wasm_hooks.Common.{
  ℕ, ◌≡◌, refl, String, Bool, false, List, [], ◌∷◌, ◌++◌, keep, ◌==◌, arith, length,
}
use wasm_hooks.Mock.Db.{Db, PendingModule}
use wasm_hooks.Mock.Modules.{
  FormField, absent, text, file, upload_module, upload_file, store_module, new_module,
  content_hash_of,
}
use wasm_hooks.Queries.Same.{of_hook}

keep-append_other :
    (p : PendingModule → Bool) (ms : List PendingModule) (m : PendingModule)
    → p m ≡ false
    → keep p (ms ++ m ∷ []) ≡ keep p ms
keep-append_other p [] m h = rw h refl
keep-append_other p (n ∷ ms) m h = ground (arith, keep-append_other p ms m h)

module _ {F : Type 0} (db : Db F) (hook other : String) (differ : (hook == other) ≡ false) where
  store_module-keep :
      (hash : String) (size : ℕ) (file_name : String) (now : ℕ)
      → keep (of_hook other) (store_module hook hash size file_name now db).1.modules
        ≡ keep (of_hook other) db.modules
  unfolding store_module new_module
  store_module-keep hash size file_name now = ground (
    arith,
    keep-append_other (of_hook other) db.modules
        (new_module (length db.modules) hook hash size file_name now)
        (foreign hash size file_name now),
  )
    where
      foreign :
          (hash : String) (size : ℕ) (file_name : String) (now : ℕ)
          → of_hook other (new_module (length db.modules) hook hash size file_name now) ≡ false
      foreign hash size file_name now = differ

  pub upload_module-keep :
      (digest : List ℕ → List ℕ) (field : FormField) (now : ℕ)
      → keep (of_hook other) (upload_module digest hook field now db).1.modules
        ≡ keep (of_hook other) db.modules
  unfolding upload_module upload_file
  upload_module-keep digest absent now = ground arith
  upload_module-keep digest (text s) now = ground arith
  upload_module-keep digest (file f) now =
      ground
        (arith, store_module-keep (content_hash_of digest f.bytes) (length f.bytes) f.file_name now)
