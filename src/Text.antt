-- ===== src/Text.antt =====
-- What the web code uses of JavaScript strings: `length`, `trim`, `includes`, `startsWith`, the
-- order of `sort` without a comparator, template literals, and decimal numbers in them. A text is
-- the native `String` of Unicode scalar values, so lone surrogates are left out; `length` and the
-- sort order go by UTF-16 code units as in JavaScript.
pub mod Laws
use Prim.Native.String
use text.Mathlib.Text.{starts_with}
use wasm_hooks.Common.{
  ◌==◌, Option, none, some, ℕ, zero, suc, ◌+◌, ◌-◌, ◌/◌, ◌%◌, String, Bool, true, false, ◌&&◌, ◌||◌,
  List, [], ◌∷◌, code, ltb, leb, nat_eq, if◌then◌else◌,
}

-- A template literal, as the list of its pieces.
abbrev pub concat : List String → String
concat [] = ""
concat (s ∷ ss) = String.◌++◌ s (concat ss)

abbrev pub is_empty : String → Bool
is_empty String.[] = true
is_empty (String.◌∷◌ c s) = false

-- `s.length`: the number of UTF-16 code units.
unfoldable pub utf16_length : String → ℕ
utf16_length String.[] = 0
utf16_length (String.◌∷◌ c s) = (if ltb (code c) 65536 then 1 else 2) + utf16_length s

-- The white space of `trim` and of `\s`.
unfoldable pub is_space : ℕ → Bool
is_space c =
    (leb 9 c && leb c 13)
    || nat_eq c 32
    || nat_eq c 160
    || nat_eq c 0x1680
    || (leb 0x2000 c && leb c 0x200a)
    || nat_eq c 0x2028
    || nat_eq c 0x2029
    || nat_eq c 0x202f
    || nat_eq c 0x205f
    || nat_eq c 0x3000
    || nat_eq c 0xfeff

unfoldable pub trim_start : String → String
trim_start String.[] = ""
trim_start (String.◌∷◌ c s) =
    let rest = trim_start s in if is_space (code c) then rest else String.◌∷◌ c s

unfoldable pub trim_end : String → String
trim_end String.[] = ""
trim_end (String.◌∷◌ c s) =
    let rest = trim_end s in if is_empty rest && is_space (code c) then "" else String.◌∷◌ c rest

unfoldable pub trim : String → String
unfolding trim_start trim_end is_space
trim s = trim_end (trim_start s)

-- What follows a prefix.
unfoldable pub strip : String → String → Option String
strip String.[] s = some s
strip (String.◌∷◌ c p) String.[] = none
strip (String.◌∷◌ c p) (String.◌∷◌ d s) =
    let rest = strip p s in if String.◌∷◌ c "" == String.◌∷◌ d "" then rest else none

-- `s.includes(t)`
unfoldable pub includes : String → String → Bool
includes String.[] t = is_empty t
includes (String.◌∷◌ c s) t = starts_with (String.◌∷◌ c s) t || includes s t

-- The UTF-16 code units of a text.
unfoldable pub units : String → List ℕ
units String.[] = []
units (String.◌∷◌ c s) =
    if ltb (code c) 65536
    then code c ∷ units s
    else (0xd800 + (code c - 65536) / 1024) ∷ (0xdc00 + (code c - 65536) % 1024) ∷ units s

abbrev pub units_le : List ℕ → List ℕ → Bool
units_le [] ys = true
units_le (x ∷ xs) [] = false
units_le (x ∷ xs) (y ∷ ys) = ltb x y || nat_eq x y && units_le xs ys

-- The order of `sort()` without a comparator.
unfoldable pub text_le : String → String → Bool
unfolding units
text_le s t = units_le (units s) (units t)

digit : ℕ → String
digit n =
    if nat_eq n 0
    then "0"
    else if nat_eq n 1
    then "1"
    else if nat_eq n 2
    then "2"
    else if nat_eq n 3
    then "3"
    else if nat_eq n 4
    then "4"
    else if nat_eq n 5
    then "5"
    else if nat_eq n 6
    then "6"
    else if nat_eq n 7
    then "7"
    else if nat_eq n 8
    then "8"
    else if nat_eq n 9
    then "9"
    else if nat_eq n 10
    then "a"
    else if nat_eq n 11
    then "b"
    else if nat_eq n 12
    then "c"
    else if nat_eq n 13
    then "d"
    else if nat_eq n 14
    then "e"
    else "f"

-- The digits in a base, with one unit of fuel for each digit.
pub digits_of : ℕ → ℕ → ℕ → String
digits_of zero base n = ""
digits_of (suc fuel) base n =
    let front = digits_of fuel base (n / base) in
    if ltb n base then digit n else String.◌++◌ front (digit (n % base))

-- `${n}`; a number has fewer digits than its value and one.
unfoldable pub decimal : ℕ → String
unfolding digits_of digit
decimal n = digits_of (suc n) 10 n

-- `n.toString(16)`
unfoldable pub hexadecimal : ℕ → String
unfolding digits_of digit
hexadecimal n = digits_of (suc n) 16 n

zeros : ℕ → String → String
zeros zero s = s
zeros (suc k) s = String.◌++◌ "0" (zeros k s)

-- `s.padStart(n, "0")`
unfoldable pub pad_start : ℕ → String → String
unfolding zeros utf16_length
pad_start n s = zeros (n - utf16_length s) s
