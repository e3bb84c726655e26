-- ===== src/Clock/Laws.antt =====
-- The text of an instant is not empty.
use Prim.Native.String
use text.Mathlib.TextLemmas.{nil-append, cons-append}
use wasm_hooks.Common.{ℕ, ◌/◌, ◌≡◌, refl, String, List, ◌∷◌, false}
use wasm_hooks.Text.{concat, is_empty, pad_start, decimal}
use wasm_hooks.Clock.{to_iso_string, civil, behind_year}

is_empty-append : (s t : String) → is_empty t ≡ false → is_empty (String.◌++◌ s t) ≡ false
is_empty-append String.[] t h = rw nil-append h
is_empty-append (String.◌∷◌ c s) t h = rw cons-append refl

is_empty-concat :
    (s c : String) (ss : List String) → is_empty c ≡ false → is_empty (concat (s ∷ c ∷ ss)) ≡ false
is_empty-concat s String.[] ss h = cc
is_empty-concat s (String.◌∷◌ d c) ss h = is_empty-append s _ (rw cons-append refl)

pub is_empty-to_iso_string : (now : ℕ) → is_empty (to_iso_string now) ≡ false
unfolding to_iso_string
is_empty-to_iso_string now =
    is_empty-concat (pad_start 4 (decimal (civil (now / 86400000)).year)) "-"
      (behind_year (civil (now / 86400000)) now) refl
