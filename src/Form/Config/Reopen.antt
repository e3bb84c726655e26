-- ===== src/Form/Config/Reopen.antt =====
-- The form that is opened on a configuration and sent as it stands gives the same configuration.
use wasm_hooks.Common.{
  suc, ◌≡◌, ◌≢◌, refl, sym, ap, ◌∙◌, subst, String, Bool, true, false, not, List, [], ◌∷◌, ◌++◌,
  map, some, arith, if◌then◌else◌, ◌==◌, all, keep, Bool-cases, inl, inr, eq_iff, eq_refl, All,
  All-sort, Absent, Distinct, sort, insert_sorted, length,
}
use mathlib.Core.List.{append_assoc, append-nil}
use wasm_hooks.Text.{is_empty, trim}
use wasm_hooks.Json.{lookup}
use wasm_hooks.Form.Config.{
  BindingConfig, Row, is_blank, set_entry, add_rows, or_blank, config_from_form, form_from_config,
  same_config, same_value,
}

abbrev Entry : Type 0
Entry = String × String

-- The key of an entry is not empty and has no white space at its ends.
abbrev pub IsProper : Entry → Type 0
IsProper e = (trim e.0 ≡ e.0) × (is_empty e.0 ≡ false)

abbrev key_of : Entry → String
key_of e = e.0

abbrev to_row : Entry → Row
to_row e = record { key = e.0; value = e.1 }

set_entry-Absent :
    (k v : String) (c : BindingConfig) → Absent key_of k c → set_entry k v c ≡ c ++ (k, v) ∷ []
unfolding set_entry
set_entry-Absent k v [] a = refl
set_entry-Absent k v ((j, w) ∷ c) (n, a) = ground (arith, eq_iff j k, set_entry-Absent k v c a)

full_row : (e : Entry) → IsProper e → is_blank (to_row e) ≡ false
unfolding is_blank
full_row e (same, full) = rw (same, full) refl

abbrev added : BindingConfig → List Row → BindingConfig
added c rows = add_rows c (keep (λ r. not (is_blank r)) rows)

-- Lookups in a sorted list.
module _ (le : Entry → Entry → Bool) where
  lookup-insert_sorted :
      (k : String) (x : Entry) (ys : List Entry)
      → Absent key_of x.0 ys
      → lookup k (insert_sorted le x ys) ≡ lookup k (x ∷ ys)
  unfolding insert_sorted lookup
  lookup-insert_sorted k x [] a = refl
  lookup-insert_sorted k (i, v) ((j, w) ∷ ys) (n, a) =
      ground (arith, lookup-insert_sorted k (i, v) ys a, eq_iff i k, eq_iff j k)

  length-insert_sorted :
      (x : Entry) (ys : List Entry) → length (insert_sorted le x ys) ≡ suc (length ys)
  unfolding insert_sorted
  length-insert_sorted x [] = refl
  length-insert_sorted x (y ∷ ys) = ground (arith, length-insert_sorted x ys)

  Absent-sort : (k : String) (c : List Entry) → Absent key_of k c → Absent key_of k (sort le c)
  Absent-sort k c a = All-sort le (λ e. key_of e ≢ k) c a

  lookup-sort :
      (k : String) (c : List Entry) → Distinct key_of c → lookup k (sort le c) ≡ lookup k c
  unfolding sort lookup
  lookup-sort k [] d = refl
  lookup-sort k (x ∷ c) (a, d) =
      lookup-insert_sorted k x (sort le c) (Absent-sort x.0 c a)
      ∙ ap (λ o. if x.0 == k then some x.1 else o) (lookup-sort k c d)

  length-sort : (c : List Entry) → length (sort le c) ≡ length c
  unfolding sort
  length-sort [] = refl
  length-sort (x ∷ c) = length-insert_sorted x (sort le c) ∙ ap suc (length-sort c)

  Absent-insert_sorted :
      (k : String) (x : Entry) (ys : List Entry)
      → key_of x ≢ k
      → Absent key_of k ys
      → Absent key_of k (insert_sorted le x ys)
  unfolding insert_sorted
  Absent-insert_sorted k x [] n a = (n, tt)
  Absent-insert_sorted k x (y ∷ ys) n (m, a) = ground (arith, Absent-insert_sorted k x ys n a)

  Distinct-insert_sorted :
      (x : Entry) (ys : List Entry)
      → Absent key_of x.0 ys
      → Distinct key_of ys
      → Distinct key_of (insert_sorted le x ys)
  unfolding insert_sorted
  Distinct-insert_sorted x [] a d = (tt, tt)
  Distinct-insert_sorted x (y ∷ ys) (n, a) (b, d) = elim (Bool-cases (le x y)) [
    | inl first ↦ rw first ((n, a), (b, d))
    | inr later ↦
        rw later (Absent-insert_sorted y.0 x ys (λ e. n (sym e)) b, Distinct-insert_sorted x ys a d)
  ]

  Distinct-sort : (c : List Entry) → Distinct key_of c → Distinct key_of (sort le c)
  unfolding sort
  Distinct-sort [] d = tt
  Distinct-sort (x ∷ c) (a, d) =
      Distinct-insert_sorted x (sort le c) (Absent-sort x.0 c a) (Distinct-sort c d)

All-middle :
    (P : Entry → Type 0) (c : List Entry) (y : Entry) (ys : List Entry) → All P (c ++ y ∷ ys) → P y
All-middle P [] y ys (p, h) = p
All-middle P (x ∷ c) y ys (p, h) = All-middle P c y ys h

Distinct-middle :
    (c : List Entry) (y : Entry) (ys : List Entry)
    → Distinct key_of (c ++ y ∷ ys)
    → Absent key_of y.0 c
Distinct-middle [] y ys d = tt
Distinct-middle (x ∷ c) y ys (a, d) =
    ((λ e. All-middle (λ z. key_of z ≢ x.0) c y ys a (sym e)), Distinct-middle c y ys d)

-- Rows of distinct and proper keys are added at the end, as they are.
added-Distinct :
    (c ys : List Entry)
    → Distinct key_of (c ++ ys)
    → All IsProper ys
    → added c (map to_row ys) ≡ c ++ ys
unfolding add_rows
added-Distinct c [] d ps = sym (append-nil c)
added-Distinct c (y ∷ ys) d (p, ps) = rw (full_row y p) (
    rw (p.0, set_entry-Absent y.0 y.1 c (Distinct-middle c y ys d))
      (added-Distinct (c ++ y ∷ []) ys
          (subst (Distinct key_of) (sym (append_assoc c (y ∷ []) ys)) d) ps
        ∙ append_assoc c (y ∷ []) ys))

lookup-own : (c : List Entry) → Distinct key_of c → All (λ e. lookup e.0 c ≡ some e.1) c
unfolding lookup
lookup-own [] d = tt
lookup-own (x ∷ c) (a, d) = (rw (eq_refl x.0) refl, pass c a (lookup-own c d))
  where
    pass :
        (ys : List Entry)
        → Absent key_of x.0 ys
        → All (λ e. lookup e.0 c ≡ some e.1) ys
        → All (λ e. lookup e.0 (x ∷ c) ≡ some e.1) ys
    pass [] a h = tt
    pass (y ∷ ys) (n, a) (e, h) = (ground (arith, eq_iff x.0 y.0), pass ys a h)

all-same_value :
    (b c : BindingConfig) (ys : List Entry)
    → ((k : String) → lookup k b ≡ lookup k c)
    → All (λ e. lookup e.0 c ≡ some e.1) ys
    → all (λ e. same_value (lookup e.0 b) e.1) ys ≡ true
all-same_value b c [] agree h = refl
all-same_value b c (y ∷ ys) agree (e, h) =
    rw (agree y.0 ∙ e) (rw (eq_refl y.1) (all-same_value b c ys agree h))

module _ (collate : String → String → Bool) (c : BindingConfig) (distinct : Distinct key_of c)
    (proper : All IsProper c) where
  abbrev sorted : List Entry
  sorted = sort (λ a b. collate a.0 b.0) c

  blank_row : (ys : List Entry) → added [] (or_blank (map to_row ys)) ≡ added [] (map to_row ys)
  unfolding or_blank is_blank
  blank_row [] = refl
  blank_row (y ∷ ys) = refl

  config_from_form-form_from_config : config_from_form (form_from_config collate (some c)) ≡ sorted
  unfolding config_from_form form_from_config
  config_from_form-form_from_config =
      blank_row sorted
      ∙ added-Distinct [] sorted (Distinct-sort (λ a b. collate a.0 b.0) c distinct)
          (All-sort (λ a b. collate a.0 b.0) IsProper c proper)

  -- The form that is opened on a configuration whose keys are distinct, not empty and without white space at
  -- their ends, sent as it stands, gives what the console takes for the same configuration.
  pub same_config-form_from_config :
      same_config c (config_from_form (form_from_config collate (some c))) ≡ true
  unfolding same_config
  same_config-form_from_config =
      let le : Entry → Entry → Bool = λ a b. collate a.0 b.0 in
      rw config_from_form-form_from_config (
        rw
          (
            all-same_value sorted c c (λ k. lookup-sort le k c distinct) (lookup-own c distinct),
            length-sort le c,
          )
          (ground arith))
