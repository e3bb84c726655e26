-- ===== src/Dialog/Config/Laws.antt =====
-- What the editor of a configuration sends, and what it says of the answer.
use wasm_hooks.Common.{
  ℕ, ◌+◌, ◌≡◌, refl, String, Bool, true, false, List, [], ◌∷◌, Option, none, some, All,
  if◌then◌else◌, Bool-cases, inl, inr, arith,
}
use wasm_hooks.Text.{concat, decimal}
use wasm_hooks.Json.{lookup}
use wasm_hooks.Entity.Hook.{Binding}
use wasm_hooks.Mock.Db.{Db}
use wasm_hooks.Mock.Http.{json, status_of}
use wasm_hooks.Mock.Modules.{knows_hook}
use wasm_hooks.Mock.Bindings.{BindingUpdate, put_binding, config_changed, next_version}
use wasm_hooks.Mock.Bindings.Version.{put_binding-status, put_binding-next_version}
use wasm_hooks.Form.Config.{BindingConfig, Row, Issue, config_issues, config_from_form, same_config}
use wasm_hooks.Dialog.Confirm.{is_pending}
use wasm_hooks.Dialog.Config.{
  EditorState, EditorEvent, typed_key, typed_value, removed, appended, submitted, given, saved,
  refused, current_config, on_submit, submit_checked, editor_step, editor_run, saved_text,
}

-- The request of `useSaveConfig`.
abbrev pub config_update : BindingConfig → BindingUpdate
config_update c = record { active_module_id = none; config = some c }

-- A configuration that is sent, if one is, is that of rows without a complaint, and the API stores it.
abbrev pub IsStored : {F : Type 0} → Db F → String → ℕ → Option BindingConfig → Type 0
IsStored db hook now none = Unit
IsStored db hook now (some c) =
    ((rows : List Row) × (config_issues rows ≡ []) × (config_from_form rows ≡ c))
    × (status_of (put_binding hook (config_update c) now db).0 ≡ 200)

module _ {F : Type 0} (db : Db F) (hook : String) (now : ℕ) where
  module _ (known : knows_hook hook db ≡ true) (collate : String → String → Bool) where
    checked-IsStored :
        (issues : List Issue) (s : EditorState)
        → config_issues s.rows ≡ issues
        → IsStored db hook now (submit_checked collate issues s).1
    unfolding submit_checked on_submit
    checked-IsStored (i ∷ issues) s e = tt
    checked-IsStored [] s e =
        elim (Bool-cases (same_config (config_from_form s.rows) (current_config s))) [
          | inl same ↦ rw same tt
          | inr other ↦ rw other (
            (s.rows, e, refl),
            rw (put_binding-status hook now db (config_update (config_from_form s.rows)))
                (rw known refl),
          )
        ]

    step-IsStored :
        (e : EditorEvent) (s : EditorState) → IsStored db hook now (editor_step collate e s).1
    unfolding editor_step
    step-IsStored submitted s = elim (Bool-cases (is_pending s.save)) [
      | inl busy ↦ rw busy tt
      | inr free ↦ rw free (checked-IsStored (config_issues s.rows) s refl)
    ]
    step-IsStored (typed_key index key) s = tt
    step-IsStored (typed_value index value) s = tt
    step-IsStored (removed index) s = tt
    step-IsStored appended s = tt
    step-IsStored (given b) s = tt
    step-IsStored (saved b) s = tt
    step-IsStored (refused t) s = tt

    -- Whatever happens to the editor of a hook that is known, every configuration that it sends is that of rows without a
    -- complaint, and the API answers it 200.
    pub editor_run-IsStored :
        (es : List EditorEvent) (s : EditorState)
        → All (IsStored db hook now) (editor_run collate es s)
    unfolding editor_run
    editor_run-IsStored [] s = tt
    editor_run-IsStored (e ∷ es) s =
        (step-IsStored e s, editor_run-IsStored es (editor_step collate e s).0)

  -- What the editor says of an answer is so: of a configuration of another text than that of the binding before, that it is saved
  -- with the next version, and of the same text, that nothing changed.
  pub saved_text-put_binding :
      (old b : Binding) (c : BindingConfig)
      → lookup hook db.bindings ≡ some old
      → (put_binding hook (config_update c) now db).0 ≡ json 200 b
      → saved_text (some old) b ≡ (
          if config_changed (some c) (some old)
          then concat ("Сохранено. Версия конфига: " ∷ decimal (old.config_version + 1) ∷ [])
          else "Изменений нет")
  unfolding saved_text next_version
  saved_text-put_binding old b c before answer =
      said (config_changed (some c) (some old))
        (rw (put_binding-next_version hook now db (config_update c) b answer) (rw before refl))
    where
      said :
          (changed : Bool)
          → b.config_version ≡ next_version (some old) changed
          → saved_text (some old) b ≡ (
              if changed
              then concat ("Сохранено. Версия конфига: " ∷ decimal (old.config_version + 1) ∷ [])
              else "Изменений нет")
      said true e = rw e (ground arith)
      said false e = rw e (ground arith)
