-- ===== src/Gate/Sign/Laws.antt =====
-- What a gate lets in.
use wasm_hooks.Common.{
  String, true, false, ◌≡◌, refl, sym, ap, ◌∙◌, ◌⊎◌, inl, inr, List, [], ◌∷◌, ◌++◌, Option, none,
  some, is_some, Bool-cases,
}
use wasm_hooks.Text.{is_empty, trim}
use wasm_hooks.Api.Client.{Thrown}
use wasm_hooks.Gate.Sign.{
  GateProps, GateState, GateEvent, typed, submitted, verified, adopted, cleared, adopt_token,
  console, on_submit, on_verified, after_verify, gate_step, gate_run, gate_view, gate_view_of,
}

module _ (p : GateProps) (verifies : p.verifies ≡ true) where
  -- The token of a state is that of the state before, or one that was under check, or that of the address.
  abbrev Came : GateState → GateEvent → String → Type 0
  Came s e t =
      (s.token ≡ some t) ⊎ (((e ≡ verified none) × (s.checking ≡ some t)) ⊎ (e ≡ adopted (some t)))

  on_submit-token : (s : GateState) → (on_submit p.verifies s).token ≡ s.token
  unfolding on_submit
  on_submit-token s = elim (Bool-cases (is_empty (trim s.value))) [
    | inl blank ↦ rw blank refl
    | inr given ↦ rw given (rw verifies refl)
  ]

  submitted-token : (s : GateState) → (gate_step p submitted s).token ≡ s.token
  unfolding gate_step
  submitted-token s = elim (Bool-cases (is_some s.checking)) [
    | inl busy ↦ rw busy refl
    | inr idle ↦ rw idle (on_submit-token s)
  ]

  verified-Came :
      (s : GateState) (c : Option String) (o : Option Thrown) (t : String)
      → s.checking ≡ c
      → (on_verified p.rejected_message c o s).token ≡ some t
      → Came s (verified o) t
  unfolding on_verified after_verify
  verified-Came s none o t h e = inl e
  verified-Came s (some c) none t h e = inr (inl (refl, h ∙ e))
  verified-Came s (some c) (some x) t h e = inl e

  adopted-Came :
      (s : GateState) (o : Option String) (t : String)
      → (adopt_token o s).token ≡ some t
      → Came s (adopted o) t
  unfolding adopt_token
  adopted-Came s none t e = inl e
  adopted-Came s (some a) t e = inr (inr (ap adopted e))

  gate_step-Came :
      (s : GateState) (e : GateEvent) (t : String) → (gate_step p e s).token ≡ some t → Came s e t
  unfolding gate_step
  gate_step-Came s (typed x) t h = inl h
  gate_step-Came s submitted t h = inl (sym (submitted-token s) ∙ h)
  gate_step-Came s (verified o) t h = verified-Came s s.checking o t refl h
  gate_step-Came s (adopted o) t h = adopted-Came s o t h
  gate_step-Came s cleared t h = absurd (cc)

  -- The history holds an event that accepts the token, or one that takes it from the address.
  abbrev Accepted : List GateEvent → GateState → String → Type 0
  Accepted es s t =
      (front : List GateEvent) × (back : List GateEvent) × (((es ≡ front ++ verified none ∷ back)
          × ((gate_run p front s).checking ≡ some t))
        ⊎ (es ≡ front ++ adopted (some t) ∷ back))

  either_way :
      (es : List GateEvent) (s : GateState) (t : String)
      → (gate_run p es s).token ≡ some t
      → (s.token ≡ some t) ⊎ Accepted es s t
  unfolding gate_run
  either_way [] s t h = inl h
  either_way (e ∷ es) s t h = elim (either_way es (gate_step p e s) t h) [
    | inl here ↦ elim (gate_step-Came s e t here) [
      | inl before ↦ inl before
      | inr (inl (same, held)) ↦ inr ([], es, inl (ap (λ x. x ∷ es) same, held))
      | inr (inr same) ↦ inr ([], es, inr (ap (λ x. x ∷ es) same))
    ]
    | inr (front, back, inl (same, held)) ↦
        inr (e ∷ front, back, inl (ap (λ xs. e ∷ xs) same, held))
    | inr (front, back, inr same) ↦ inr (e ∷ front, back, inr (ap (λ xs. e ∷ xs) same))
  ]

-- A gate with a check, before which there is no token, holds a token only if the history has an event that accepts it: the end
-- of a check that went well, of the very token that was then under check; or, where an address with a token was opened,
-- the event that takes it from there unchecked.
pub gate_run-accepted :
    (p : GateProps) (es : List GateEvent) (s : GateState) (t : String)
    → p.verifies ≡ true
    → s.token ≡ none
    → (gate_run p es s).token ≡ some t
    → (front : List GateEvent) × (back : List GateEvent) × (((es ≡ front ++ verified none ∷ back)
          × ((gate_run p front s).checking ≡ some t))
        ⊎ (es ≡ front ++ adopted (some t) ∷ back))
gate_run-accepted p es s t verifies closed h = elim (either_way p verifies es s t h) [
  | inl held ↦ absurd (cc)
  | inr accepted ↦ accepted
]

-- A token that is typed, with white space or without, sent and accepted opens the console, whatever the form held.
pub gate_view-console :
    (p : GateProps) (s : GateState) (text : String)
    → p.verifies ≡ true
    → s.checking ≡ none
    → is_empty (trim text) ≡ false
    → (gate_view p (gate_run p (typed text ∷ submitted ∷ verified none ∷ []) s) ≡ console)
      × ((gate_run p (typed text ∷ submitted ∷ verified none ∷ []) s).token ≡ some (trim text))
unfolding gate_view gate_view_of gate_run gate_step on_submit on_verified after_verify
gate_view-console p s text verifies idle given = rw idle (rw given (rw verifies (refl, refl)))
