-- ===== src/Dialog/Shown.antt =====
-- What a dialog shows.
use wasm_hooks.Common.{String, Bool, not, List, map, keep, Option}

-- A button: its text, whether it is disabled, and the event of a click.
pub record Button (E : Type 0) : Type 0 where
  pub text : String
  pub is_disabled : Bool
  pub click : E

pub record DialogView (E : Type 0) : Type 0 where
  pub title : String
  pub paragraphs : List String
  pub alert : Option String
  pub buttons : List (Button E)

abbrev pub button : {E : Type 0} → String → Bool → E → Button E
button text is_disabled click = record { text = text; is_disabled = is_disabled; click = click }

-- The events that a dialog offers.
abbrev pub offers : {E : Type 0} → DialogView E → List E
offers v = map (λ b. b.click) (keep (λ b. not b.is_disabled) v.buttons)
