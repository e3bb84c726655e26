-- ===== src/Common/Find.antt =====
-- Searching and replacing in a list: `find`, `some`, and the store at a found index.
use mathlib.Core.Path.{◌≡◌, refl, subst, ◌∙◌}
use mathlib.Core.Logic.{inl, inr}
use mathlib.Core.Bool.{Bool, true, false}
use mathlib.Core.List.{List, [], ◌∷◌, ◌++◌, map}
use mathlib.Core.Option.{Option, none, some}
use native.Mathlib.Omega.{arith}
use wasm_hooks.Common.Tests.{if◌then◌else◌, Bool-cases}
use wasm_hooks.Common.Lists.{length, any, All}

module _ {ℓ} {A : Type ℓ} where
  -- `xs.find(p)`
  abbrev pub find : (A → Bool) → List A → Option A
  find p [] = none
  find p (x ∷ xs) = let rest = find p xs in if p x then some x else rest

  -- `xs[xs.findIndex(p)] = y`, where some element passes `p`.
  abbrev pub replace_first : (A → Bool) → A → List A → List A
  replace_first p y [] = []
  replace_first p y (x ∷ xs) = let rest = x ∷ replace_first p y xs in if p x then y ∷ xs else rest

  -- An update in place of the first element that passes `p`, as `x.f = v` for `x = xs.find(p)`.
  abbrev pub modify_first : (A → Bool) → (A → A) → List A → List A
  modify_first p f [] = []
  modify_first p f (x ∷ xs) = let rest = x ∷ modify_first p f xs in if p x then f x ∷ xs else rest

  pub find-eq-some : (p : A → Bool) (xs : List A) (x : A) → find p xs ≡ some x → p x ≡ true
  find-eq-some p [] x e = cc
  find-eq-some p (y ∷ xs) x e = ground (arith, find-eq-some p xs x)

  pub find-eq-none_of_any : (p : A → Bool) (xs : List A) → any p xs ≡ false → find p xs ≡ none
  find-eq-none_of_any p [] e = refl
  find-eq-none_of_any p (y ∷ xs) e = ground (arith, find-eq-none_of_any p xs)

  pub any_of_find : (p : A → Bool) (xs : List A) (x : A) → find p xs ≡ some x → any p xs ≡ true
  any_of_find p [] x e = cc
  any_of_find p (y ∷ xs) x e = ground (arith, any_of_find p xs x)

  pub find-append_none :
      (p : A → Bool) (xs : List A) (y : A)
      → any p xs ≡ false
      → p y ≡ true
      → find p (xs ++ y ∷ []) ≡ some y
  find-append_none p [] y e h = ground arith
  find-append_none p (x ∷ xs) y e h = ground (arith, find-append_none p xs y)

  -- A new element that fails the test is not found.
  pub find-append_other :
      (p : A → Bool) (xs : List A) (y : A) → p y ≡ false → find p (xs ++ y ∷ []) ≡ find p xs
  find-append_other p [] y h = ground arith
  find-append_other p (x ∷ xs) y h = ground (arith, find-append_other p xs y)

  pub find-replace_first :
      (p : A → Bool) (y : A) (xs : List A)
      → any p xs ≡ true
      → p y ≡ true
      → find p (replace_first p y xs) ≡ some y
  find-replace_first p y [] e h = cc
  find-replace_first p y (x ∷ xs) e h = ground (arith, find-replace_first p y xs)

  pub find-replace_first_other :
      (p q : A → Bool) (y : A) (xs : List A)
      → ((x : A) → p x ≡ true → q x ≡ false)
      → p y ≡ true
      → find q (replace_first p y xs) ≡ find q xs
  find-replace_first_other p q y [] d h = refl
  find-replace_first_other p q y (x ∷ xs) d h =
      ground (arith, d x, d y, find-replace_first_other p q y xs d h)

  pub length-replace_first :
      (p : A → Bool) (y : A) (xs : List A) → length (replace_first p y xs) ≡ length xs
  length-replace_first p y [] = refl
  length-replace_first p y (x ∷ xs) = ground (arith, length-replace_first p y xs)

module _ {ℓ} {A : Type ℓ} where
  -- The element that an update reaches.
  pub any-modify_first :
      (p q : A → Bool) (f : A → A) (xs : List A) (x : A)
      → find p xs ≡ some x
      → q (f x) ≡ true
      → any q (modify_first p f xs) ≡ true
  any-modify_first p q f [] x e h = cc
  any-modify_first p q f (y ∷ xs) x e h = elim (Bool-cases (p y)) [
    | inl hit ↦ rw hit (ground arith)
    | inr miss ↦ rw miss (ground (arith, any-modify_first p q f xs x (ground arith) h))
  ]

  -- An update whose result it leaves as it is changes nothing the second time.
  pub modify_first_twice :
      (p : A → Bool) (f g : A → A) (xs : List A)
      → ((x : A) → p (f x) ≡ p x)
      → ((x : A) → g (f x) ≡ f x)
      → modify_first p g (modify_first p f xs) ≡ modify_first p f xs
  modify_first_twice p f g [] k e = refl
  modify_first_twice p f g (x ∷ xs) k e = elim (Bool-cases (p x)) [
    | inl hit ↦ rw hit (rw (k x ∙ hit) (rw (e x) refl))
    | inr miss ↦ rw miss (rw miss (rw (modify_first_twice p f g xs k e) refl))
  ]

  pub any-modify_first_same :
      (p q : A → Bool) (f : A → A) (xs : List A)
      → ((x : A) → q (f x) ≡ q x)
      → any q (modify_first p f xs) ≡ any q xs
  any-modify_first_same p q f [] k = refl
  any-modify_first_same p q f (x ∷ xs) k = ground (arith, k x, any-modify_first_same p q f xs k)

module _ {ℓ} {A : Type ℓ} where
  -- An update of all elements that the test does not see.
  pub find-map :
      (p : A → Bool) (f : A → A) (xs : List A) (x : A)
      → ((y : A) → p (f y) ≡ p y)
      → find p xs ≡ some x
      → find p (map f xs) ≡ some (f x)
  find-map p f [] x same e = cc
  find-map p f (y ∷ xs) x same e = elim (Bool-cases (p y)) [
    | inl hit ↦ rw (same y ∙ hit) (ground arith)
    | inr miss ↦ rw (same y ∙ miss) (find-map p f xs x same (ground arith))
  ]

  pub find-append_some :
      (p : A → Bool) (xs ys : List A) (x : A) → find p xs ≡ some x → find p (xs ++ ys) ≡ some x
  find-append_some p [] ys x e = cc
  find-append_some p (y ∷ xs) ys x e = ground (arith, find-append_some p xs ys x)

module _ {ℓ κ} {A : Type ℓ} (P : A → Type κ) where
  pub All-find : (p : A → Bool) (xs : List A) (x : A) → All P xs → find p xs ≡ some x → P x
  All-find p [] x h e = absurd (cc)
  All-find p (y ∷ xs) x (q, h) e = elim (Bool-cases (p y)) [
    | inl hit ↦ subst P (ground arith) q
    | inr miss ↦ All-find p xs x h (ground arith)
  ]

  pub All-replace_first :
      (p : A → Bool) (y : A) (xs : List A) → All P xs → P y → All P (replace_first p y xs)
  All-replace_first p y [] h q = tt
  All-replace_first p y (x ∷ xs) (r, h) q = ground (arith, All-replace_first p y xs h q)

  pub All-modify_first :
      (p : A → Bool) (f : A → A) (xs : List A)
      → ((x : A) → P x → P (f x))
      → All P xs
      → All P (modify_first p f xs)
  All-modify_first p f [] keeps h = tt
  All-modify_first p f (x ∷ xs) keeps (q, h) = elim (Bool-cases (p x)) [
    | inl hit ↦ rw hit (keeps x q, h)
    | inr miss ↦ rw miss (q, All-modify_first p f xs keeps h)
  ]
