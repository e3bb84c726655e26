-- ===== src/Dialog/Confirm/Laws.antt =====
-- What a dialog that asks sends: nothing while a request is pending.
use wasm_hooks.Common.{
  ℕ, suc, ◌+◌, ◌≤◌, ◌≡◌, String, true, List, [], ◌∷◌, Option, none, some, if◌then◌else◌, arith,
}
use wasm_hooks.Dialog.Confirm.{
  ConfirmState, ConfirmEvent, opened, closed, confirmed, answered, refused, is_pending, change_open,
  can_confirm, confirm_step, confirm_run,
}

-- How many requests were sent,
abbrev pub sends : List (Option String) → ℕ
sends [] = 0
sends (none ∷ os) = sends os
sends (some id ∷ os) = suc (sends os)

-- how many answers came,
abbrev pub answers : List ConfirmEvent → ℕ
answers [] = 0
answers (answered ∷ es) = suc (answers es)
answers (refused e ∷ es) = suc (answers es)
answers (opened ∷ es) = answers es
answers (closed ∷ es) = answers es
answers (confirmed ∷ es) = answers es

-- and how many wait for one.
abbrev pub waiting : ConfirmState → ℕ
waiting s = if is_pending s.sending then 1 else 0

-- A request that waits for its answer keeps the dialog open.
abbrev pub IsShown : ConfirmState → Type 0
IsShown s = is_pending s.sending ≡ true → s.is_open ≡ true

module _ (id : String) where
  one : Option String → ℕ
  one none = 0
  one (some i) = 1

  step-waiting :
      (e : ConfirmEvent) (s : ConfirmState)
      → let (next, sent) = confirm_step id e s in
        waiting s + one sent ≤ waiting next + answers (e ∷ [])
  unfolding confirm_step change_open can_confirm one
  step-waiting opened s = ground arith
  step-waiting closed s = ground arith
  step-waiting confirmed s = ground arith
  step-waiting answered s = ground arith
  step-waiting (refused e) s = ground arith

  sends-one : (o : Option String) (os : List (Option String)) → sends (o ∷ os) ≡ one o + sends os
  unfolding one
  sends-one none os = omega arith
  sends-one (some i) os = omega arith

  answers-one :
      (e : ConfirmEvent) (es : List ConfirmEvent) → answers (e ∷ es) ≡ answers (e ∷ []) + answers es
  answers-one opened es = omega arith
  answers-one closed es = omega arith
  answers-one confirmed es = omega arith
  answers-one answered es = omega arith
  answers-one (refused e) es = omega arith

  -- Whatever happens to a dialog that asks, each request that it sends, but those that still wait, has had its answer: it never
  -- sends a second one while a first one waits.
  pub confirm_run-sends :
      (es : List ConfirmEvent) (s : ConfirmState)
      → let (last, sent) = confirm_run id es s in waiting s + sends sent ≤ waiting last + answers es
  unfolding confirm_run
  confirm_run-sends [] s = omega arith
  confirm_run-sends (e ∷ es) s =
      let next = (confirm_step id e s).0 in
      let o = (confirm_step id e s).1 in
      omega (
        arith,
        step-waiting e s,
        confirm_run-sends es next,
        sends-one o (confirm_run id es next).1,
        answers-one e es,
      )

  step-IsShown : (e : ConfirmEvent) (s : ConfirmState) → IsShown s → IsShown (confirm_step id e s).0
  unfolding confirm_step change_open can_confirm
  step-IsShown opened s h = ground arith
  step-IsShown closed s h = ground arith
  step-IsShown confirmed s h = ground arith
  step-IsShown answered s h = ground arith
  step-IsShown (refused e) s h = ground arith

  pub confirm_run-IsShown :
      (es : List ConfirmEvent) (s : ConfirmState) → IsShown s → IsShown (confirm_run id es s).0
  unfolding confirm_run
  confirm_run-IsShown [] s h = h
  confirm_run-IsShown (e ∷ es) s h =
      confirm_run-IsShown es (confirm_step id e s).0 (step-IsShown e s h)
