-- ===== src/Upload/Laws.antt =====
-- What the check of the console says of the answer of the API.
use wasm_hooks.Common.{
  ℕ, ◌≤◌, ◌≡◌, String, true, false, List, Option, none, arith, any, leb, ◌&&◌, if◌then◌else◌, not,
  ltb, nat_eq,
}
use wasm_hooks.Mock.Db.{Db}
use wasm_hooks.Mock.Http.{status_of}
use wasm_hooks.Mock.Modules.{File, file, upload_module, knows_hook, has_content, content_hash_of}
use wasm_hooks.Mock.Modules.Laws.{upload_module-status}
use wasm_hooks.Mock.Server.Frames.{upload_module-frame}
use wasm_hooks.Api.Client.{api_error}
use wasm_hooks.Upload.{check_wasm_file, is_upload_unconfirmed}

at_least_400 :
    (n : ℕ) → (if ltb n 400 then true else leb 500 n && not (nat_eq n 501)) ≡ false → 400 ≤ n
at_least_400 n h = ground arith

module _ {F : Type 0} (db : Db F) (digest : List ℕ → List ℕ) (name : String) (f : File)
    (now : ℕ) where
  abbrev status : ℕ
  status = status_of (upload_module digest name (file f) now db).0

  abbrev after : Db F
  after = (upload_module digest name (file f) now db).1

  -- A file that the console lets through is never refused for its size: its upload is answered 404 for
  -- an unknown hook, 409 for content that the hook has, and 201 otherwise.
  pub check_wasm_file-upload_module :
      check_wasm_file f ≡ none
      → status ≡ (
          if not (knows_hook name db)
          then 404
          else if any (has_content name (content_hash_of digest f.bytes)) db.modules
          then 409
          else 201)
  unfolding check_wasm_file
  check_wasm_file-upload_module ok = rw (upload_module-status db digest name f now) (ground arith)

  -- If the console takes the status of an upload's answer for a confirmed refusal, the upload has stored
  -- nothing.
  pub confirmed_refusal :
      (message : String) (detail : Option String)
      → is_upload_unconfirmed (api_error status message detail) ≡ false
      → after ≡ db
  unfolding is_upload_unconfirmed
  confirmed_refusal message detail sure =
      (upload_module-frame db digest name (file f) now).1 (at_least_400 status sure)
