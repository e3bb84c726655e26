-- ===== src/Common/Keys.antt =====
-- Lists whose elements have distinct keys, and how the stores of the code keep them so.
use mathlib.Core.Path.{◌≡◌, sym, ◌∙◌, subst}
use mathlib.Core.Logic.{◌≢◌, inl, inr}
use mathlib.Core.Bool.{Bool, false}
use mathlib.Core.List.{List, [], ◌∷◌, ◌++◌}
use native.Mathlib.Omega.{arith}
use Prim.Native.String.{String}
use text.Mathlib.Text.{◌==◌}
use text.Mathlib.TextEquality.{eq_iff}
use wasm_hooks.Common.Tests.{Bool-cases}
use wasm_hooks.Common.Lists.{any, All}
use wasm_hooks.Common.Find.{replace_first, modify_first}

module _ {ℓ} {A : Type ℓ} (key : A → String) where
  -- No element has the key.
  abbrev pub Absent : String → List A → Type 0
  Absent k xs = All (λ y. key y ≢ k) xs

  abbrev pub Distinct : List A → Type 0
  Distinct [] = Unit
  Distinct (x ∷ xs) = Absent (key x) xs × Distinct xs

  -- The test of the code, `xs.some((y) => y.key === k)`, decides absence.
  pub Absent-of_any : (k : String) (xs : List A) → any (λ y. key y == k) xs ≡ false → Absent k xs
  Absent-of_any k [] h = tt
  Absent-of_any k (x ∷ xs) h = ground (arith, eq_iff (key x) k, Absent-of_any k xs)

  pub Absent-append :
      (k : String) (xs : List A) (y : A) → Absent k xs → key y ≢ k → Absent k (xs ++ y ∷ [])
  Absent-append k [] y h n = (n, tt)
  Absent-append k (x ∷ xs) y (m, h) n = (m, Absent-append k xs y h n)

  pub Distinct-append :
      (xs : List A) (y : A) → Distinct xs → Absent (key y) xs → Distinct (xs ++ y ∷ [])
  Distinct-append [] y d h = (tt, tt)
  Distinct-append (x ∷ xs) y (a, d) (n, h) =
      (Absent-append (key x) xs y a (λ e. n (sym e)), Distinct-append xs y d h)

  pub Absent-replace_first :
      (p : A → Bool) (k : String) (y : A) (xs : List A)
      → Absent k xs
      → key y ≢ k
      → Absent k (replace_first p y xs)
  Absent-replace_first p k y [] h n = tt
  Absent-replace_first p k y (x ∷ xs) (m, h) n = ground (arith, Absent-replace_first p k y xs h n)

  -- The element found by a key is replaced by one with the same key.
  pub Distinct-replace_first :
      (k : String) (y : A) (xs : List A)
      → Distinct xs
      → key y ≡ k
      → Distinct (replace_first (λ x. key x == k) y xs)
  Distinct-replace_first k y [] d e = tt
  Distinct-replace_first k y (x ∷ xs) (a, d) e = elim (Bool-cases (key x == k)) [
    | inl hit ↦ rw hit (subst (λ t. Absent t xs) ((eq_iff (key x) k).0 hit ∙ sym e) a, d)
    | inr miss ↦ rw miss (
      Absent-replace_first (λ x'. key x' == k) (key x) y xs a (ground (arith, eq_iff (key x) k)),
      Distinct-replace_first k y xs d e,
    )
  ]

  -- An update that keeps the keys.
  pub Absent-modify_first :
      (p : A → Bool) (f : A → A) (k : String) (xs : List A)
      → ((x : A) → key (f x) ≡ key x)
      → Absent k xs
      → Absent k (modify_first p f xs)
  Absent-modify_first p f k [] same h = tt
  Absent-modify_first p f k (x ∷ xs) same (m, h) =
      ground (arith, same x, Absent-modify_first p f k xs same h)

  pub Distinct-modify_first :
      (p : A → Bool) (f : A → A) (xs : List A)
      → ((x : A) → key (f x) ≡ key x)
      → Distinct xs
      → Distinct (modify_first p f xs)
  Distinct-modify_first p f [] same d = tt
  Distinct-modify_first p f (x ∷ xs) same (a, d) = elim (Bool-cases (p x)) [
    | inl hit ↦ rw hit (subst (λ t. Absent t xs) (sym (same x)) a, d)
    | inr miss ↦
        rw miss (Absent-modify_first p f (key x) xs same a, Distinct-modify_first p f xs same d)
  ]
