-- ===== src/Text/Laws.antt =====
-- `trim`, and the order of `sort()`.
use wasm_hooks.Common.{
  zero, suc, ◌≤◌, ◌<◌, ◌/◌, ltb, ℕ, String, true, false, ◌&&◌, ◌≡◌, refl, inl, inr, List, [], ◌∷◌,
  code, arith, Bool-cases,
}
use wasm_hooks.Text.{
  digits_of, is_empty, is_space, trim_start, trim_end, trim, utf16_length, units, units_le, text_le,
}

-- A text that is empty, or begins with no white space.
abbrev pub StartsClean : String → Type 0
StartsClean String.[] = Unit
StartsClean (String.◌∷◌ c s) = is_space (code c) ≡ false

trim_start-StartsClean : (s : String) → StartsClean (trim_start s)
unfolding trim_start
trim_start-StartsClean String.[] = tt
trim_start-StartsClean (String.◌∷◌ c s) = elim (Bool-cases (is_space (code c))) [
  | inl h ↦ rw h (trim_start-StartsClean s)
  | inr h ↦ rw h h
]

trim_start_of_clean : (s : String) → StartsClean s → trim_start s ≡ s
unfolding trim_start
trim_start_of_clean String.[] h = refl
trim_start_of_clean (String.◌∷◌ c s) h = rw h refl

trim_end-StartsClean : (s : String) → StartsClean s → StartsClean (trim_end s)
unfolding trim_end
trim_end-StartsClean String.[] h = tt
trim_end-StartsClean (String.◌∷◌ c s) h = elim (Bool-cases (is_empty (trim_end s))) [
  | inl e ↦ rw (e, h) h
  | inr e ↦ rw e h
]

trim_end_idem : (s : String) → trim_end (trim_end s) ≡ trim_end s
unfolding trim_end
trim_end_idem String.[] = refl
trim_end_idem (String.◌∷◌ c s) = elim (Bool-cases (is_empty (trim_end s) && is_space (code c))) [
  | inl e ↦ rw e refl
  | inr e ↦ rw e (rw (trim_end_idem s) (rw e refl))
]

-- Trimming twice is trimming once.
pub trim_idem : (s : String) → trim (trim s) ≡ trim s
unfolding trim
trim_idem s =
    rw (trim_start_of_clean _ (trim_end-StartsClean _ (trim_start-StartsClean s)))
      (trim_end_idem (trim_start s))

pub units_le_refl : (xs : List ℕ) → units_le xs xs ≡ true
units_le_refl [] = refl
units_le_refl (x ∷ xs) = ground (arith, units_le_refl xs)

pub units_le_total : (xs ys : List ℕ) → units_le xs ys ≡ false → units_le ys xs ≡ true
units_le_total [] ys h = cc
units_le_total (x ∷ xs) [] h = refl
units_le_total (x ∷ xs) (y ∷ ys) h = ground (arith, units_le_total xs ys)

pub units_le_trans :
    (xs ys zs : List ℕ) → units_le xs ys ≡ true → units_le ys zs ≡ true → units_le xs zs ≡ true
units_le_trans [] ys zs h k = refl
units_le_trans (x ∷ xs) [] zs h k = cc
units_le_trans (x ∷ xs) (y ∷ ys) [] h k = cc
units_le_trans (x ∷ xs) (y ∷ ys) (z ∷ zs) h k = ground (arith, units_le_trans xs ys zs)

-- The order of `sort()` is total.
pub text_le_total : (s t : String) → text_le s t ≡ false → text_le t s ≡ true
unfolding text_le
text_le_total s t h = units_le_total (units s) (units t) h

-- It is transitive.
pub text_le_trans : (s t u : String) → text_le s t ≡ true → text_le t u ≡ true → text_le s u ≡ true
unfolding text_le
text_le_trans s t u h k = units_le_trans (units s) (units t) (units u) h k

tests :
    (trim "  a b\n" ≡ "a b")
    × (trim " \t " ≡ "")
    × (utf16_length "aλ" ≡ 2)
    × (text_le "a.b" "a.c" ≡ true)
    × (text_le "b" "a" ≡ false)
unfolding trim utf16_length text_le
tests = (refl, refl, refl, refl, refl)

-- One unit of fuel more than the number is enough for its digits: more fuel gives the same numeral.
pub digits_of_enough : (f g n : ℕ) → n < f → n < g → digits_of f 10 n ≡ digits_of g 10 n
unfolding digits_of
digits_of_enough zero g n h k = absurd (omega arith)
digits_of_enough (suc f) zero n h k = absurd (omega arith)
digits_of_enough (suc f) (suc g) n h k = elim (Bool-cases (ltb n 10)) [
  | inl small ↦ rw small refl
  | inr large ↦
      let ten : 10 ≤ n = ground arith in
      let less : n / 10 < n = omega arith in
      rw large (rw (digits_of_enough f g (n / 10) (omega arith) (omega arith)) refl)
]
