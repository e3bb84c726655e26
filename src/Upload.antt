-- ===== src/Upload.antt =====
-- web/src/features/upload-module/model: the check of a file before its upload, and what an error says
-- of the upload. A file is its name and its bytes.
pub mod Laws
use wasm_hooks.Common.{
  ℕ, ltb, leb, nat_eq, if◌then◌else◌, ◌&&◌, not, String, Bool, true, false, List, [], ◌∷◌, Option,
  none, some, length,
}
use wasm_hooks.Api.Client.{Thrown, api_error, other_error}
use wasm_hooks.Entity.Module.{max_module_bytes}
use wasm_hooks.Mock.Modules.{File}

abbrev pub wasm_magic : List ℕ
wasm_magic = 0x00 ∷ 0x61 ∷ 0x73 ∷ 0x6d ∷ []

-- `WASM_MAGIC.every((byte, i) => head[i] === byte)`
pub has_front : List ℕ → List ℕ → Bool
has_front [] head = true
has_front (byte ∷ magic) [] = false
has_front (byte ∷ magic) (b ∷ head) = let rest = has_front magic head in nat_eq b byte && rest

-- `checkWasmFile`: the complaint.
unfoldable pub check_wasm_file : File → Option String
unfolding has_front
check_wasm_file f =
    if nat_eq (length f.bytes) 0
    then some "Файл пустой"
    else if ltb max_module_bytes (length f.bytes)
    then some "Файл больше 10 МиБ: платформа такой модуль не примет"
    else if has_front wasm_magic f.bytes
    then none
    else some "Это не WebAssembly-модуль: нужен скомпилированный файл .wasm"

-- `isUploadUnconfirmed`: the module may have been stored in spite of the error.
unfoldable pub is_upload_unconfirmed : Thrown → Bool
is_upload_unconfirmed (other_error message) = true
is_upload_unconfirmed (api_error status message detail) =
    if ltb status 400 then true else leb 500 status && not (nat_eq status 501)
