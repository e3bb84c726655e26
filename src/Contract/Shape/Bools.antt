-- ===== src/Contract/Shape/Bools.antt =====
-- Tests of Booleans, of elements and of values.
use wasm_hooks.Common.{◌≡◌, refl, Bool, true, false, ◌&&◌, ◌||◌, List, [], ◌∷◌, all, inl, inr, ◌⊎◌}
use wasm_hooks.Json.{Json, null, bool, whole, fraction, str, arr, obj, props, elems}
use wasm_hooks.Contract.Shape.{all_elements, all_values}

pub and-true : (a b : Bool) → (a && b) ≡ true → (a ≡ true) × (b ≡ true)
and-true true b h = (refl, h)
and-true false b h = cc

pub or-true : (a b : Bool) → (a || b) ≡ true → (a ≡ true) ⊎ (b ≡ true)
or-true true b h = inl refl
or-true false b h = inr h

pub and-intro : (a b : Bool) → a ≡ true → b ≡ true → (a && b) ≡ true
and-intro a b h k = rw (h, k) refl

pub or_left : (a b : Bool) → a ≡ true → (a || b) ≡ true
or_left a b h = rw h refl

pub or_right : (a b : Bool) → b ≡ true → (a || b) ≡ true
or_right true b h = refl
or_right false b h = h

all-both {ℓ} :
    {A : Type ℓ} (p r q : A → Bool) (xs : List A)
    → ((x : A) → p x ≡ true → r x ≡ true → q x ≡ true)
    → all p xs ≡ true
    → all r xs ≡ true
    → all q xs ≡ true
all-both p r q [] f h k = refl
all-both p r q (x ∷ xs) f h k =
    let (here, rest) = and-true (p x) (all p xs) h in
    let (too, others) = and-true (r x) (all r xs) k in
    and-intro (q x) (all q xs) (f x here too) (all-both p r q xs f rest others)

pub all_sound {ℓ} :
    {A : Type ℓ} (p q : A → Bool) (xs : List A)
    → ((x : A) → p x ≡ true → q x ≡ true)
    → all p xs ≡ true
    → all q xs ≡ true
all_sound p q [] f h = refl
all_sound p q (x ∷ xs) f h =
    let (here, rest) = and-true (p x) (all p xs) h in
    and-intro (q x) (all q xs) (f x here) (all_sound p q xs f rest)

-- Two tests that hold of each element make one that follows from them.
pub all_elements-both :
    (p r q : Json → Bool) (v : Json)
    → ((w : Json) → p w ≡ true → r w ≡ true → q w ≡ true)
    → all_elements p v ≡ true
    → all_elements r v ≡ true
    → all_elements q v ≡ true
all_elements-both p r q (arr vs) f h k = all-both p r q (elems vs) f h k
all_elements-both p r q _ f h k = cc

pub all_values-both :
    (p r q : Json → Bool) (v : Json)
    → ((w : Json) → p w ≡ true → r w ≡ true → q w ≡ true)
    → all_values p v ≡ true
    → all_values r v ≡ true
    → all_values q v ≡ true
all_values-both p r q (obj fs) f h k =
    all-both (λ e. p e.1) (λ e. r e.1) (λ e. q e.1) (props fs) (λ e. f e.1) h k
all_values-both p r q _ f h k = cc

pub all_elements_sound :
    (p q : Json → Bool) (v : Json)
    → ((w : Json) → p w ≡ true → q w ≡ true)
    → all_elements p v ≡ true
    → all_elements q v ≡ true
all_elements_sound p q (arr vs) f h = all_sound p q (elems vs) f h
all_elements_sound p q null f h = cc
all_elements_sound p q (bool b) f h = cc
all_elements_sound p q (whole z) f h = cc
all_elements_sound p q (fraction s) f h = cc
all_elements_sound p q (str s) f h = cc
all_elements_sound p q (obj fs) f h = cc

pub all_values_sound :
    (p q : Json → Bool) (v : Json)
    → ((w : Json) → p w ≡ true → q w ≡ true)
    → all_values p v ≡ true
    → all_values q v ≡ true
all_values_sound p q (obj fs) f h = all_sound (λ e. p e.1) (λ e. q e.1) (props fs) (λ e. f e.1) h
all_values_sound p q null f h = cc
all_values_sound p q (bool b) f h = cc
all_values_sound p q (whole z) f h = cc
all_values_sound p q (fraction s) f h = cc
all_values_sound p q (str s) f h = cc
all_values_sound p q (arr vs) f h = cc
