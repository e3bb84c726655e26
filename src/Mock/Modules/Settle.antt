-- ===== src/Mock/Modules/Settle.antt =====
-- The life of a module: validation ends once, at its time, and the verdict stays.
use wasm_hooks.Common.{
  ℕ, ◌+◌, ◌≤◌, ◌<◌, ◌≡◌, refl, String, Bool, true, false, not, List, [], ◌∷◌, Option, none, some,
  arith, ltb, if◌then◌else◌, Bool-cases, inl, inr, ◌⊎◌,
}
use wasm_hooks.Text.{includes}
use wasm_hooks.Entity.Module.{
  ModuleStatus, uploaded, validating, validated, rejected, archived, is_pending, status_is,
  ValidationReport,
}
use wasm_hooks.Mock.Db.{PendingModule}
use wasm_hooks.Mock.Modules.{verdict, settle, settle_modules, new_module, validation_ms}

-- The verdict in a report: everything passed, or not.
abbrev pub report_ok : Option ValidationReport → Option Bool
report_ok none = none
report_ok (some r) = some r.ok

verdict_status :
    (o : Option String) (m : PendingModule)
    → ((verdict o m).status ≡ validated) ⊎ ((verdict o m).status ≡ rejected)
unfolding verdict
verdict_status none m = inl refl
verdict_status (some reason) m = ground arith

-- A settled module is the same module: only its status and its report may differ.
pub record IsSettled (now : ℕ) (m n : PendingModule) : Type 0 where
  pub same_id : n.id ≡ m.id
  pub same_hook : n.hook ≡ m.hook
  pub same_hash : n.content_hash ≡ m.content_hash
  pub same_time : n.validates_at ≡ m.validates_at
  pub moved :
      (n.status ≡ m.status)
      ⊎ ((m.status ≡ validating)
          × (m.validates_at ≤ now)
          × ((n.status ≡ validated) ⊎ (n.status ≡ rejected)))

status_is-validating : (s : ModuleStatus) → status_is s validating ≡ true → s ≡ validating
status_is-validating validating h = refl
status_is-validating uploaded h = cc
status_is-validating validated h = cc
status_is-validating rejected h = cc
status_is-validating archived h = cc

-- A step of validation keeps the module and moves its status only from `validating`, only when its time has
-- come, and only to a verdict.
pub settle-IsSettled : (now : ℕ) (m : PendingModule) → IsSettled now m (settle now m)
unfolding settle verdict
settle-IsSettled now m = ground (arith, status_is-validating m.status)

-- A module that is not in validation stays as it is.
pub settle_final :
    (now : ℕ) (m : PendingModule) → status_is m.status validating ≡ false → settle now m ≡ m
unfolding settle
settle_final now m h = rw h refl

verdict-final :
    (o : Option String) (m : PendingModule) → status_is (verdict o m).status validating ≡ false
unfolding verdict
verdict-final none m = refl
verdict-final (some reason) m = ground arith

-- Settling early makes no difference to settling later.
pub settle-settle :
    (now later : ℕ) (m : PendingModule) → now ≤ later → settle later (settle now m) ≡ settle later m
unfolding settle
settle-settle now later m h = elim (Bool-cases (status_is m.status validating)) [
  | inr other ↦ rw other (rw other refl)
  | inl pending ↦ elim (Bool-cases (ltb now m.validates_at)) [
    | inl early ↦ rw (pending, early) (rw pending refl)
    | inr due ↦
        let still_due : ltb later m.validates_at ≡ false = ground arith in
        rw (pending, due, still_due) (rw (verdict-final m.reject_reason m) refl)
  ]
]

-- Validation at a time and then at a later one gives what validation at the later time alone gives.
pub settle_modules_twice :
    (now later : ℕ) (ms : List PendingModule)
    → now ≤ later
    → settle_modules later (settle_modules now ms) ≡ settle_modules later ms
settle_modules_twice now later [] h = refl
settle_modules_twice now later (m ∷ ms) h =
    rw (settle-settle now later m h) (rw (settle_modules_twice now later ms h) refl)

-- Before its time an uploaded module is pending.
pub new_module-pending :
    (count : ℕ) (hook hash : String) (size : ℕ) (file_name : String) (now later : ℕ)
    → later < now + validation_ms
    → is_pending (settle later (new_module count hook hash size file_name now)).status ≡ true
unfolding settle new_module verdict is_pending
new_module-pending count hook hash size file_name now later early = ground arith

-- From its time on an uploaded module has a verdict: rejected if its file's name includes "http", and
-- validated otherwise, with a report that says the same.
new_module-settle :
    (count : ℕ) (hook hash : String) (size : ℕ) (file_name : String) (now later : ℕ)
    → now + validation_ms ≤ later
    → let m = settle later (new_module count hook hash size file_name now) in
      (m.status ≡ (if includes file_name "http" then rejected else validated))
      × (report_ok m.validation_report ≡ some (not (includes file_name "http")))
unfolding settle new_module verdict is_pending
new_module-settle count hook hash size file_name now later due =
    elim (Bool-cases (includes file_name "http")) [
      | inl http ↦ rw http (ground arith)
      | inr other ↦ rw other (ground arith)
    ]
