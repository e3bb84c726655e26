-- ===== src/Mock/Log/Listing.antt =====
-- What the listing of the log shows: the entries that the parameters ask for, the newest first, as many as the limit
-- allows.
use wasm_hooks.Common.{
  ℕ, zero, suc, ◌+◌, ◌≤◌, ◌<◌, ltb, nat_eq, ◌≡◌, refl, ap, String, Bool, true, false, ◌&&◌, ◌||◌,
  List, [], ◌∷◌, arith, Bool-cases, inl, inr, ◌⊎◌, any, All, All-keep, All-take, keep, keep-All,
  take, length, length-take_le, IsSorted,
}
use wasm_hooks.Common.Int.{ℤ, pos}
use wasm_hooks.Contract.Shape.Bools.{or_left, or_right}
use wasm_hooks.Entity.Invocation.{Invocation}
use wasm_hooks.Mock.Log.{
  LogQuery, select, reverse_onto, has_outcome, has_hook, wanted_outcome, limit_of,
}
use wasm_hooks.Mock.Log.Laws.{AreNumbered}

module _ {F : Type 0} where
  abbrev pub is_older : Invocation F → Invocation F → Bool
  is_older i j = ltb i.seq j.seq

  abbrev pub is_newer : Invocation F → Invocation F → Bool
  is_newer i j = ltb j.seq i.seq

  -- An entry of this number.
  abbrev pub is_number : ℕ → Invocation F → Bool
  is_number n i = nat_eq i.seq n

  -- What the parameters of a listing ask for.
  abbrev pub is_wanted : LogQuery → Invocation F → Bool
  is_wanted query i = has_outcome (wanted_outcome query.outcome) i && has_hook query.hook i

  AreNumbered-above :
      (m n : ℕ) (is : List (Invocation F))
      → AreNumbered n is
      → m < n
      → All (λ i. ltb m i.seq ≡ true) is
  unfolding AreNumbered
  AreNumbered-above m n [] h e = tt
  AreNumbered-above m n (i ∷ is) (p, h) e =
      (ground arith, AreNumbered-above m (n + 1) is h (omega arith))

  AreNumbered-IsSorted :
      (n : ℕ) (is : List (Invocation F)) → AreNumbered n is → IsSorted is_older is
  unfolding AreNumbered
  AreNumbered-IsSorted n [] h = tt
  AreNumbered-IsSorted n (i ∷ is) (p, h) =
      (AreNumbered-above i.seq (n + 1) is h (omega arith), AreNumbered-IsSorted (n + 1) is h)

  IsSorted-keep :
      (le : Invocation F → Invocation F → Bool) (p : Invocation F → Bool) (is : List (Invocation F))
      → IsSorted le is
      → IsSorted le (keep p is)
  IsSorted-keep le p [] h = tt
  IsSorted-keep le p (i ∷ is) (q, h) = elim (Bool-cases (p i)) [
    | inl kept ↦ rw kept (All-keep _ p is q, IsSorted-keep le p is h)
    | inr left ↦ rw left (IsSorted-keep le p is h)
  ]

  IsSorted-take :
      (le : Invocation F → Invocation F → Bool) (k : ℕ) (is : List (Invocation F))
      → IsSorted le is
      → IsSorted le (take k is)
  IsSorted-take le zero is h = tt
  IsSorted-take le (suc k) [] h = tt
  IsSorted-take le (suc k) (i ∷ is) (q, h) = (All-take _ k is q, IsSorted-take le k is h)

  All-and_All :
      (P : Invocation F → Invocation F → Type 0) (i : Invocation F) (is acc : List (Invocation F))
      → All (λ j. P i j) is
      → All (λ j. All (λ a. P a j) acc) is
      → All (λ j. All (λ a. P a j) (i ∷ acc)) is
  All-and_All P i [] acc h k = tt
  All-and_All P i (j ∷ is) acc (p, h) (q, k) = ((p, q), All-and_All P i is acc h k)

  reverse_onto-IsSorted :
      (is acc : List (Invocation F))
      → IsSorted is_older is
      → IsSorted is_newer acc
      → All (λ j. All (λ a. is_older a j ≡ true) acc) is
      → IsSorted is_newer (reverse_onto is acc)
  reverse_onto-IsSorted [] acc h k l = k
  reverse_onto-IsSorted (i ∷ is) acc (p, h) k (q, l) =
      reverse_onto-IsSorted is (i ∷ acc) h (q, k)
        (All-and_All (λ a j. is_older a j ≡ true) i is acc p l)

  All-reverse_onto :
      (P : Invocation F → Type 0) (is acc : List (Invocation F))
      → All P is
      → All P acc
      → All P (reverse_onto is acc)
  All-reverse_onto P [] acc h k = k
  All-reverse_onto P (i ∷ is) acc (p, h) k = All-reverse_onto P is (i ∷ acc) h (p, k)

  keep_both :
      (p q : Invocation F → Bool) (is : List (Invocation F))
      → All (λ i. (p i && q i) ≡ true) (keep q (keep p is))
  keep_both p q is = both (keep p is) (keep-All p is)
    where
      both :
          (js : List (Invocation F))
          → All (λ i. p i ≡ true) js
          → All (λ i. (p i && q i) ≡ true) (keep q js)
      both [] h = tt
      both (j ∷ js) (e, h) = elim (Bool-cases (q j)) [
        | inl kept ↦ rw kept (rw e (rw kept refl), both js h)
        | inr left ↦ rw left (both js h)
      ]

  All-none : (is : List (Invocation F)) → All (λ j. All (λ a. is_older a j ≡ true) []) is
  All-none [] = tt
  All-none (i ∷ is) = (tt, All-none is)

  any-reverse_onto :
      (p : Invocation F → Bool) (is acc : List (Invocation F))
      → any p (reverse_onto is acc) ≡ (any p is || any p acc)
  any-reverse_onto p [] acc = refl
  any-reverse_onto p (i ∷ is) acc = ground (arith, any-reverse_onto p is (i ∷ acc))

  any-keep_both :
      (p q r : Invocation F → Bool) (is : List (Invocation F))
      → any (λ i. (p i && q i) && r i) is ≡ true
      → any r (keep q (keep p is)) ≡ true
  any-keep_both p q r [] h = absurd (cc)
  any-keep_both p q r (i ∷ is) h = ground (arith, any-keep_both p q r is)

  newest_above :
      (n : ℕ) (i : Invocation F) (is : List (Invocation F))
      → All (λ j. is_newer i j ≡ true) is
      → any (is_number n) is ≡ true
      → ltb n i.seq ≡ true
  newest_above n i [] h e = absurd (cc)
  newest_above n i (j ∷ is) (p, h) e = elim (Bool-cases (nat_eq j.seq n)) [
    | inl same ↦ ground arith
    | inr other ↦ newest_above n i is h (ground arith)
  ]

  -- An entry of a list with the newest first is among the first `k`, or those are `k` newer ones.
  take_or_full :
      (n k : ℕ) (is : List (Invocation F))
      → IsSorted is_newer is
      → any (is_number n) is ≡ true
      → (any (is_number n) (take k is) ≡ true)
        ⊎ ((length (take k is) ≡ k) × All (λ i. ltb n i.seq ≡ true) (take k is))
  take_or_full n zero is h e = inr (refl, tt)
  take_or_full n (suc k) [] h e = absurd (cc)
  take_or_full n (suc k) (i ∷ is) (p, h) e = elim (Bool-cases (nat_eq i.seq n)) [
    | inl same ↦ inl (or_left _ _ same)
    | inr other ↦ later (take_or_full n k is h (here other)) (newest_above n i is p (here other))
  ]
    where
      here : nat_eq i.seq n ≡ false → any (is_number n) is ≡ true
      here other = ground arith

      later :
          (any (is_number n) (take k is) ≡ true)
            ⊎ ((length (take k is) ≡ k) × All (λ j. ltb n j.seq ≡ true) (take k is))
          → ltb n i.seq ≡ true
          → (any (is_number n) (take (suc k) (i ∷ is)) ≡ true)
            ⊎ ((length (take (suc k) (i ∷ is)) ≡ suc k)
                × All (λ j. ltb n j.seq ≡ true) (take (suc k) (i ∷ is)))
      later (inl found) above = inl (or_right _ _ found)
      later (inr (full, newer)) above = inr (ap suc full, (above, newer))

  module _ (to_index : String → ℤ) (query : LogQuery) (first k : ℕ) (log : List (Invocation F))
      (numbered : AreNumbered first log) (limit : limit_of to_index query.limit ≡ pos k) where
    kept : List (Invocation F)
    kept = keep (has_hook query.hook) (keep (has_outcome (wanted_outcome query.outcome)) log)

    select-kept : select to_index query log ≡ take k (reverse_onto kept [])
    unfolding select kept
    select-kept = rw limit refl

    kept-IsSorted : IsSorted is_newer (reverse_onto kept [])
    unfolding kept
    kept-IsSorted =
        reverse_onto-IsSorted kept []
          (IsSorted-keep is_older (has_hook query.hook) _ (
            IsSorted-keep is_older (has_outcome (wanted_outcome query.outcome)) log
              (AreNumbered-IsSorted first log numbered)))
          tt (All-none kept)

    -- What a listing shows of a numbered log, with a limit, is asked for, stands with the newest first, and is no more
    -- than the limit.
    pub select-newest :
        let shown = select to_index query log in
        IsSorted is_newer shown × All (λ i. is_wanted query i ≡ true) shown × (length shown ≤ k)
    unfolding kept
    select-newest = rw select-kept (
      IsSorted-take is_newer k (reverse_onto kept []) kept-IsSorted,
      All-take _ k (reverse_onto kept []) (
          All-reverse_onto _ kept []
            (keep_both (has_outcome (wanted_outcome query.outcome)) (has_hook query.hook) log) tt),
      length-take_le k (reverse_onto kept []),
    )

    -- Of a numbered log, the entry of a number that is asked for is shown, unless as many newer ones are as the limit allows.
    pub select_complete :
        (n : ℕ)
        → any (λ i. is_wanted query i && is_number n i) log ≡ true
        → let shown = select to_index query log in
          (any (is_number n) shown ≡ true)
          ⊎ ((length shown ≡ k) × All (λ i. ltb n i.seq ≡ true) shown)
    unfolding kept
    select_complete n h = rw select-kept (
        take_or_full n k (reverse_onto kept []) kept-IsSorted (
          rw (any-reverse_onto (is_number n) kept []) (
            or_left _ _ (
              any-keep_both (has_outcome (wanted_outcome query.outcome)) (has_hook query.hook)
                (is_number n) log h))))
