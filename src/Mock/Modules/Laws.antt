-- ===== src/Mock/Modules/Laws.antt =====
-- The store of modules: no content twice for a hook, and reports that agree with the status.
use wasm_hooks.Common.{
  ℕ, ◌≡◌, refl, ◌∙◌, String, Bool, true, false, not, List, [], ◌∷◌, ◌++◌, length, Option, none,
  some, arith, ltb, nat_eq, if◌then◌else◌, Bool-cases, inl, inr, any, All, All-append, eq_iff,
}
use wasm_hooks.Entity.Module.{
  ModuleStatus, uploaded, validating, validated, rejected, archived, max_module_bytes,
}
use wasm_hooks.Mock.Db.{Db, PendingModule}
use wasm_hooks.Mock.Http.{status_of}
use wasm_hooks.Mock.Modules.{
  verdict, settle, settle_modules, new_module, has_content, knows_hook, list_modules, upload_module,
  upload_file, store_module, content_hash_of, FormField, absent, text, file, File,
}
use wasm_hooks.Mock.Modules.Settle.{report_ok, settle-IsSettled}

-- The verdict that a report must hold for a status; archived modules do not occur.
abbrev pub expected_report : ModuleStatus → Option Bool
expected_report uploaded = none
expected_report validating = none
expected_report validated = some true
expected_report rejected = some false
expected_report archived = none

abbrev pub ReportAgrees : PendingModule → Type 0
ReportAgrees m = report_ok m.validation_report ≡ expected_report m.status

-- No other module behind this one has its hook and content.
abbrev pub UniqueContent : List PendingModule → Type 0
UniqueContent [] = Unit
UniqueContent (m ∷ ms) =
    All (λ n. has_content m.hook m.content_hash n ≡ false) ms × UniqueContent ms

pub record ModulesAreValid (ms : List PendingModule) : Type 0 where
  pub reports : All ReportAgrees ms
  pub unique : UniqueContent ms

settle-ReportAgrees : (now : ℕ) (m : PendingModule) → ReportAgrees m → ReportAgrees (settle now m)
unfolding settle verdict
settle-ReportAgrees now m h = ground arith

settle-has_content :
    (now : ℕ) (hook hash : String) (m : PendingModule)
    → has_content hook hash (settle now m) ≡ has_content hook hash m
settle-has_content now hook hash m =
    let s = settle-IsSettled now m in rw (s.same_hook, s.same_hash) refl

settle_modules-lacks :
    (now : ℕ) (hook hash : String) (ms : List PendingModule)
    → All (λ n. has_content hook hash n ≡ false) ms
    → All (λ n. has_content hook hash n ≡ false) (settle_modules now ms)
settle_modules-lacks now hook hash [] h = tt
settle_modules-lacks now hook hash (m ∷ ms) (p, h) =
    (settle-has_content now hook hash m ∙ p, settle_modules-lacks now hook hash ms h)

settle_modules-UniqueContent :
    (now : ℕ) (ms : List PendingModule) → UniqueContent ms → UniqueContent (settle_modules now ms)
settle_modules-UniqueContent now [] h = tt
settle_modules-UniqueContent now (m ∷ ms) (p, h) =
    let s = settle-IsSettled now m in
    (
      rw (s.same_hook, s.same_hash) (settle_modules-lacks now m.hook m.content_hash ms p),
      settle_modules-UniqueContent now ms h,
    )

settle_modules-reports :
    (now : ℕ) (ms : List PendingModule)
    → All ReportAgrees ms
    → All ReportAgrees (settle_modules now ms)
settle_modules-reports now [] h = tt
settle_modules-reports now (m ∷ ms) (p, h) =
    (settle-ReportAgrees now m p, settle_modules-reports now ms h)

-- Validation keeps the modules valid,
pub settle_modules-AreValid :
    (now : ℕ) (ms : List PendingModule)
    → ModulesAreValid ms
    → ModulesAreValid (settle_modules now ms)
settle_modules-AreValid now ms v = record {
  reports = settle_modules-reports now ms v.reports;
  unique = settle_modules-UniqueContent now ms v.unique;
}

UniqueContent-append :
    (ms : List PendingModule) (n : PendingModule)
    → UniqueContent ms
    → any (has_content n.hook n.content_hash) ms ≡ false
    → UniqueContent (ms ++ n ∷ [])
UniqueContent-append [] n u h = (tt, tt)
UniqueContent-append (m ∷ ms) n (p, u) h = (
  All-append (λ k. has_content m.hook m.content_hash k ≡ false) ms (n ∷ []) p
      (
        ground (
          arith,
          eq_iff n.hook m.hook,
          eq_iff n.content_hash m.content_hash,
          eq_iff m.hook n.hook,
          eq_iff m.content_hash n.content_hash,
        ),
        tt,
      ),
  UniqueContent-append ms n u (ground arith),
)

module _ {F : Type 0} (db : Db F) (v : ModulesAreValid db.modules) where
  store_module-AreValid :
      (name hash : String) (size : ℕ) (file_name : String) (now : ℕ)
      → ModulesAreValid (store_module name hash size file_name now db).1.modules
  unfolding store_module new_module
  store_module-AreValid name hash size file_name now =
      elim (Bool-cases (any (has_content name hash) db.modules)) [
        | inl taken ↦ rw taken v
        | inr free ↦ rw free (record {
          reports = All-append ReportAgrees db.modules (_ ∷ []) v.reports (refl, tt);
          unique =
              UniqueContent-append db.modules
                (new_module (length db.modules) name hash size file_name now) v.unique free;
        })
      ]

  -- an upload too,
  pub upload_module-AreValid :
      (digest : List ℕ → List ℕ) (name : String) (field : FormField) (now : ℕ)
      → ModulesAreValid (upload_module digest name field now db).1.modules
  unfolding upload_module upload_file
  upload_module-AreValid digest name absent now = ground arith
  upload_module-AreValid digest name (text s) now = ground arith
  upload_module-AreValid digest name (file f) now = ground (
    arith,
    store_module-AreValid name (content_hash_of digest f.bytes) (length f.bytes) f.file_name now,
  )

  -- and so does a listing.
  pub list_modules-AreValid :
      (collate : String → String → Bool) (name : String) (now : ℕ)
      → ModulesAreValid (list_modules collate name now db).1.modules
  unfolding list_modules
  list_modules-AreValid collate name now = ground (arith, settle_modules-AreValid now db.modules v)

module _ {F : Type 0} (db : Db F) where
  -- An upload is answered 404 for an unknown hook, 422 without a file or with an empty one, 413 above the limit,
  -- 409 for content that the hook has, and else 201.
  pub upload_module-status :
      (digest : List ℕ → List ℕ) (name : String) (f : File) (now : ℕ)
      → status_of (upload_module digest name (file f) now db).0 ≡ (
          if not (knows_hook name db)
          then 404
          else if ltb max_module_bytes (length f.bytes)
          then 413
          else if nat_eq (length f.bytes) 0
          then 422
          else if any (has_content name (content_hash_of digest f.bytes)) db.modules
          then 409
          else 201)
  unfolding upload_module upload_file store_module
  upload_module-status digest name f now = ground arith
