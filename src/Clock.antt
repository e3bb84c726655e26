-- ===== src/Clock.antt =====
-- `new Date(ms).toISOString()` for the years 1970 to 9999, and `Date.parse` of such a text. An
-- instant is its number of milliseconds since 1970.
pub mod Laws
use wasm_hooks.Common.{
  ℕ, ◌+◌, ◌-◌, ◌*◌, ◌/◌, ◌%◌, ◌≡◌, refl, String, Bool, true, ◌&&◌, List, [], ◌∷◌, Option, none,
  some, code, ltb, leb, nat_eq, if◌then◌else◌,
}
use Prim.Native.String
use wasm_hooks.Text.{concat, decimal, pad_start}

-- The day of the month, the month and the year of a day counted from 1970-01-01.
pub record Civil : Type 0 where
  pub year : ℕ
  pub month : ℕ
  pub day : ℕ

-- Years begin in March here, and eras have 400 years.
pub civil : ℕ → Civil
civil days =
    let z : ℕ = days + 719468 in
    let era : ℕ = z / 146097 in
    let doe : ℕ = z % 146097 in
    let yoe : ℕ = (doe + doe / 36524 - doe / 1460 - doe / 146096) / 365 in
    let doy : ℕ = doe + yoe / 100 - 365 * yoe - yoe / 4 in
    let mp : ℕ = (5 * doy + 2) / 153 in
    let month : ℕ = if ltb mp 10 then mp + 3 else mp - 9 in
    record {
      year = yoe + era * 400 + (if leb month 2 then 1 else 0);
      month = month;
      day = doy - (153 * mp + 2) / 5 + 1;
    }

two : ℕ → String
unfolding decimal pad_start
two n = pad_start 2 (decimal n)

-- What stands behind the year and its dash.
pub behind_year : Civil → ℕ → List String
unfolding two
behind_year c ms =
    let s : ℕ = ms / 1000 % 86400 in
    two c.month
    ∷ "-"
    ∷ two c.day
    ∷ "T"
    ∷ two (s / 3600)
    ∷ ":"
    ∷ two (s / 60 % 60)
    ∷ ":"
    ∷ two (s % 60)
    ∷ "."
    ∷ pad_start 3 (decimal (ms % 1000))
    ∷ "Z"
    ∷ []

unfoldable pub to_iso_string : ℕ → String
unfolding civil behind_year two decimal pad_start
to_iso_string ms =
    let c = civil (ms / 86400000) in concat (pad_start 4 (decimal c.year) ∷ "-" ∷ behind_year c ms)

tests :
    (to_iso_string 1767225600000 ≡ "2026-01-01T00:00:00.000Z")
    × (to_iso_string 951827696789 ≡ "2000-02-29T12:34:56.789Z")
unfolding to_iso_string
tests = (refl, refl)
