-- ===== src/Dialog/IssueKey/Laws.antt =====
-- What the dialog sends, and what the API answers.
use wasm_hooks.Common.{
  ℕ, ◌≤◌, ◌≡◌, refl, ◌==◌, String, List, [], ◌∷◌, Option, none, some, any, All, if◌then◌else◌,
  Bool-cases, inl, inr, arith,
}
use wasm_hooks.Json.{Record, str}
use wasm_hooks.Text.{trim, utf16_length}
use wasm_hooks.Mock.Db.{Db}
use wasm_hooks.Mock.Http.{status_of}
use wasm_hooks.Entity.ApiKey.{key_name_max}
use wasm_hooks.Mock.ApiKeys.{Draws, create_api_key}
use wasm_hooks.Mock.ApiKeys.Laws.{create_api_key-named}
use wasm_hooks.Dialog.IssueKey.{
  IssueState, IssueEvent, opened, closed, submitted, copy_asked, typed, answered, refused,
  copy_ended, name_error, checked_submit, submit, can_issue, issue_step, issue_run,
}

-- The body of `useIssueApiKey`.
abbrev pub issue_body : String → Record
issue_body name = ("name", str name) ∷ []

-- What the API answers to a name, if the dialog sends one.
abbrev pub IsGranted : {F : Type 0} → Db F → Draws → ℕ → Option String → Type 0
IsGranted db draws now none = Unit
IsGranted db draws now (some name) =
    status_of (create_api_key (issue_body name) draws now db).0
    ≡ (if any (λ k. k.name == name) db.api_keys then 409 else 201)

module _ {F : Type 0} (db : Db F) (draws : Draws) (now : ℕ) where
  name_error-length :
      (name : String)
      → name_error name ≡ none
      → (1 ≤ utf16_length name) × (utf16_length name ≤ key_name_max)
  unfolding name_error utf16_length
  name_error-length String.[] h = absurd (cc)
  name_error-length (String.◌∷◌ c s) h = (ground arith, ground arith)

  name_error-IsGranted :
      (name : String) → name_error name ≡ none → IsGranted db draws now (some name)
  name_error-IsGranted name h =
      let (low, high) = name_error-length name h in create_api_key-named db name draws now low high

  checked_submit-IsGranted :
      (name : String) (o : Option String) (s : IssueState)
      → name_error name ≡ o
      → IsGranted db draws now (checked_submit name o s).1
  unfolding checked_submit
  checked_submit-IsGranted name none s h = name_error-IsGranted name h
  checked_submit-IsGranted name (some e) s h = tt

  issue_step-IsGranted :
      (e : IssueEvent) (s : IssueState) → IsGranted db draws now (issue_step e s).1
  unfolding issue_step submit
  issue_step-IsGranted opened s = tt
  issue_step-IsGranted closed s = tt
  issue_step-IsGranted copy_asked s = tt
  issue_step-IsGranted (typed text) s = tt
  issue_step-IsGranted (answered k) s = tt
  issue_step-IsGranted (refused e) s = tt
  issue_step-IsGranted (copy_ended ok) s = tt
  issue_step-IsGranted submitted s = elim (Bool-cases (can_issue s)) [
    | inl may ↦ rw may (checked_submit-IsGranted (trim s.name) (name_error (trim s.name)) s refl)
    | inr cannot ↦ rw cannot tt
  ]

  -- Whatever happens to the dialog, the API in any state refuses none of the names that it sends for its form: it issues the key,
  -- or answers 409 where a key has that name.
  pub issue_run-IsGranted :
      (es : List IssueEvent) (s : IssueState) → All (IsGranted db draws now) (issue_run es s)
  unfolding issue_run
  issue_run-IsGranted [] s = tt
  issue_run-IsGranted (e ∷ es) s =
      (issue_step-IsGranted e s, issue_run-IsGranted es (issue_step e s).0)
