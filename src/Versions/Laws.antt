-- ===== src/Versions/Laws.antt =====
-- What the widget says of the versions, and what comes of an activation that it offers.
use wasm_hooks.Common.{
  ℕ, ◌==◌, ◌≡◌, refl, sym, ap, eq_iff, ◌⊎◌, inl, inr, String, Bool, true, false, List, [], ◌∷◌,
  find, find-eq-some, Option, none, some, if◌then◌else◌, Bool-cases,
}
use wasm_hooks.Entity.Module.{
  Module, ModuleStatus, uploaded, validating, validated, rejected, archived, status_is, is_pending,
}
use wasm_hooks.Mock.Db.{Db, PendingModule}
use wasm_hooks.Mock.Http.{status_of}
use wasm_hooks.Mock.Modules.{knows_hook}
use wasm_hooks.Mock.Bindings.{BindingUpdate, put_binding, is_version}
use wasm_hooks.Mock.Bindings.Version.{put_binding-status}
use wasm_hooks.Versions.{
  Focus, FocusKind, on_activated, on_rejected, PanelState, saved, checking, ready, rejected_panel,
  idle, is_active, latest_panel, focused_panel, panel_state, Action, activation, action,
}

-- What a panel says is so: the saved version is the active one, the one under check is pending, the one that is ready is
-- validated and not active, and a rejected one is rejected, or the one that the user asked about.
abbrev pub IsTrue : Option String → Option Focus → PanelState → Type 0
IsTrue active focus (saved m) = is_active active m ≡ true
IsTrue active focus (checking m) = is_pending m.status ≡ true
IsTrue active focus (ready m) = (m.status ≡ validated) × (is_active active m ≡ false)
IsTrue active focus (rejected_panel m) =
    (m.status ≡ rejected) ⊎ (focus ≡ some (record { kind = on_rejected; id = m.id }))
IsTrue active focus idle = Unit

status_is-eq : (s t : ModuleStatus) → status_is s t ≡ true → s ≡ t
status_is-eq uploaded uploaded h = refl
status_is-eq validating validating h = refl
status_is-eq validated validated h = refl
status_is-eq rejected rejected h = refl
status_is-eq archived archived h = refl
status_is-eq _ _ h = cc

latest_panel-IsTrue :
    (ms : List Module) (active : Option String) (focus : Option Focus)
    → IsTrue active focus (latest_panel ms active)
unfolding latest_panel
latest_panel-IsTrue [] active focus = tt
latest_panel-IsTrue (m ∷ ms) active focus = elim (Bool-cases (is_pending m.status)) [
  | inl waits ↦ rw waits waits
  | inr settled ↦ rw settled (elim (Bool-cases (status_is m.status rejected)) [
    | inl bad ↦ rw bad (inl (status_is-eq m.status rejected bad))
    | inr fine ↦ rw fine (elim (Bool-cases (status_is m.status validated)) [
      | inl good ↦ rw good (elim (Bool-cases (is_active active m)) [
        | inl in_use ↦ rw in_use tt
        | inr free ↦ rw free (status_is-eq m.status validated good, free)
      ])
      | inr other ↦ rw other tt
    ])
  ])
]

focused_panel-IsTrue :
    (ms : List Module) (active : Option String) (kind : FocusKind) (id : String) (o : Option Module)
    → find (λ m. m.id == id) ms ≡ o
    → IsTrue active (some (record { kind = kind; id = id })) (focused_panel ms active kind o)
unfolding focused_panel
focused_panel-IsTrue ms active kind id none found =
    latest_panel-IsTrue ms active (some (record { kind = kind; id = id }))
focused_panel-IsTrue ms active on_activated id (some m) found =
    elim (Bool-cases (is_active active m)) [
      | inl in_use ↦ rw in_use in_use
      | inr free ↦
          rw free (latest_panel-IsTrue ms active (some (record { kind = on_activated; id = id })))
    ]
focused_panel-IsTrue ms active on_rejected id (some m) found =
    let same : m.id ≡ id = (eq_iff m.id id).0 (find-eq-some (λ k. k.id == id) ms m found) in
    inr (ap (λ i. some (record { kind = on_rejected; id = i })) (sym same))

-- What the panel says is so, for any versions, active version and focus: the version that it calls saved is the active one,
-- the one under check is pending, the one that it calls ready is validated and not active, and the one that it calls
-- rejected is so, or is the one whose reason the user asked for.
pub panel_state-IsTrue :
    (ms : List Module) (active : Option String) (focus : Option Focus)
    → IsTrue active focus (panel_state ms active focus)
unfolding panel_state
panel_state-IsTrue ms active none = latest_panel-IsTrue ms active none
panel_state-IsTrue ms active (some f) =
    focused_panel-IsTrue ms active f.kind f.id (find (λ m. m.id == f.id) ms) refl

abbrev pub is_activation : Action → Bool
is_activation (activation m) = true
is_activation _ = false

action-validated :
    (active explained : Option String) (m : Module)
    → is_active active m ≡ false
    → is_activation (action active explained m) ≡ status_is m.status validated
unfolding action
action-validated active explained m free =
    rw free (elim (Bool-cases (status_is m.status validated)) [
      | inl good ↦ rw good refl
      | inr other ↦ rw other (elim (Bool-cases (status_is m.status rejected)) [
        | inl bad ↦ rw bad (elim (Bool-cases (is_active explained m)) [
          | inl here ↦ rw here refl
          | inr there ↦ rw there refl
        ])
        | inr neither ↦ rw neither refl
      ])
    ])

-- The request of `useActivateModule`.
abbrev pub activation_of : String → BindingUpdate
activation_of id = record { active_module_id = some id; config = none }

-- The table offers the activation of a version that is not active exactly where the API grants it: for a version of a known
-- hook the request is answered 200 if the row offers it, and 409 otherwise.
pub action-put_binding :
    {F : Type 0} (db : Db F) (hook : String) (m : PendingModule) (active explained : Option String)
    (now : ℕ)
    → knows_hook hook db ≡ true
    → find (is_version m.id hook) db.modules ≡ some m
    → is_active active m.base ≡ false
    → status_of (put_binding hook (activation_of m.id) now db).0
      ≡ (if is_activation (action active explained m.base) then 200 else 409)
action-put_binding db hook m active explained now known found free =
    rw (put_binding-status hook now db (activation_of m.id))
      (rw known (rw found (rw (action-validated active explained m.base free) refl)))
