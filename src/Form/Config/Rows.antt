-- ===== src/Form/Config/Rows.antt =====
-- A form without complaints loses no row.
use wasm_hooks.Common.{
  ℕ, suc, ◌≡◌, ◌≢◌, refl, sym, ap, ◌∙◌, subst, String, Bool, true, false, not, List, [], ◌∷◌, ◌++◌,
  some, arith, if◌then◌else◌, keep, inl, inr, ◌⊎◌, eq_iff, eq_refl,
}
use wasm_hooks.Text.{is_empty, trim}
use wasm_hooks.Json.{lookup}
use wasm_hooks.Form.Config.{
  BindingConfig, Row, Issue, is_blank, is_seen, is_new, complain, row_issues, config_issues,
  set_entry, add_rows, config_from_form,
}

lookup-set_entry : (key v : String) (c : BindingConfig) → lookup key (set_entry key v c) ≡ some v
unfolding lookup set_entry
lookup-set_entry key v [] = rw (eq_refl key) refl
lookup-set_entry key v ((k, w) ∷ c) = ground (arith, lookup-set_entry key v c)

lookup-set_entry_other :
    (key other v : String) (c : BindingConfig)
    → key ≢ other
    → lookup other (set_entry key v c) ≡ lookup other c
unfolding lookup set_entry
lookup-set_entry_other key other v [] ne = ground (arith, eq_iff key other)
lookup-set_entry_other key other v ((k, w) ∷ c) ne =
    ground (arith, lookup-set_entry_other key other v c ne, eq_iff k other, eq_iff k key)

-- The rows that the form keeps, added to the entries of the rows before.
abbrev added : BindingConfig → List Row → BindingConfig
added c rows = add_rows c (keep (λ r. not (is_blank r)) rows)

true-false : true ≡ false → ⊥
true-false e = cc

complain-nil :
    (blank empty twice : Bool) (index : ℕ) (next : List Issue)
    → complain blank empty twice index next ≡ []
    → (next ≡ []) × ((blank ≡ true) ⊎ ((blank ≡ false) × (empty ≡ false) × (twice ≡ false)))
unfolding complain
complain-nil true empty twice index next h = (h, inl refl)
complain-nil false true twice index next h = cc
complain-nil false false true index next h = cc
complain-nil false false false index next h = (h, inr (refl, refl, refl))

blank-is_new : (seen : List String) (r : Row) → is_blank r ≡ true → is_new seen r ≡ false
unfolding is_blank
blank-is_new seen r h = ground arith

-- A form without complaints is so from its second row on: after a blank row with the same keys seen,
-- and after another row with its key, which is new, too.
row_issues-nil :
    (index : ℕ) (seen : List String) (r : Row) (rows : List Row)
    → row_issues index seen (r ∷ rows) ≡ []
    → ((is_blank r ≡ true) × (row_issues (suc index) seen rows ≡ []))
      ⊎ ((is_blank r ≡ false)
          × (is_seen seen (trim r.key) ≡ false)
          × (row_issues (suc index) (trim r.key ∷ seen) rows ≡ []))
unfolding row_issues
row_issues-nil index seen r rows h =
    let from : Bool → Type 0 =
      λ b. row_issues (suc index) (if b then trim r.key ∷ seen else seen) rows ≡ [] in
    let (next, how) =
      complain-nil (is_blank r) (is_empty (trim r.key)) (is_seen seen (trim r.key)) index _ h in
    elim how [
      | inl blank ↦ inl (blank, subst from (blank-is_new seen r blank) next)
      | inr (full, named, once) ↦
          let new : is_new seen r ≡ true = rw (named, once) refl in
          inr (full, once, subst from new next)
    ]

added-blank :
    (c : BindingConfig) (r : Row) (rows : List Row)
    → is_blank r ≡ true
    → added c (r ∷ rows) ≡ added c rows
added-blank c r rows h = rw h refl

added-full :
    (c : BindingConfig) (r : Row) (rows : List Row)
    → is_blank r ≡ false
    → added c (r ∷ rows) ≡ added (set_entry (trim r.key) r.value c) rows
unfolding add_rows
added-full c r rows h = rw h refl

-- The rows that follow leave a key that is seen alone.
lookup-added_seen :
    (index : ℕ) (seen : List String) (c : BindingConfig) (rows : List Row) (k : String)
    → row_issues index seen rows ≡ []
    → is_seen seen k ≡ true
    → lookup k (added c rows) ≡ lookup k c
unfolding add_rows
lookup-added_seen index seen c [] k h here = refl
lookup-added_seen index seen c (r ∷ rows) k h here = elim (row_issues-nil index seen r rows h) [
  | inl (blank, rest) ↦
      ap (lookup k) (added-blank c r rows blank)
      ∙ lookup-added_seen (suc index) seen c rows k rest here
  | inr (full, once, rest) ↦
      let clash : trim r.key ≡ k → true ≡ false =
        λ e. sym here ∙ ap (is_seen seen) (sym e) ∙ once in
      let other : trim r.key ≢ k = λ e. true-false (clash e) in
      ap (lookup k) (added-full c r rows full)
      ∙ lookup-added_seen (suc index) (trim r.key ∷ seen) (set_entry (trim r.key) r.value c) rows k
          rest (ground arith)
      ∙ lookup-set_entry_other (trim r.key) k r.value c other
]

lookup-added :
    (index : ℕ) (seen : List String) (c : BindingConfig) (before after : List Row) (r : Row)
    → row_issues index seen (before ++ r ∷ after) ≡ []
    → is_blank r ≡ false
    → lookup (trim r.key) (added c (before ++ r ∷ after)) ≡ some r.value
lookup-added index seen c [] after r h full = elim (row_issues-nil index seen r after h) [
  | inl (blank, rest) ↦ cc
  | inr (also, once, rest) ↦
      ap (lookup (trim r.key)) (added-full c r after full)
      ∙ lookup-added_seen (suc index) (trim r.key ∷ seen) (set_entry (trim r.key) r.value c) after
          (trim r.key) rest (rw (eq_refl (trim r.key)) refl)
      ∙ lookup-set_entry (trim r.key) r.value c
]
lookup-added index seen c (b ∷ before) after r h full =
    elim (row_issues-nil index seen b (before ++ r ∷ after) h) [
      | inl (blank, rest) ↦
          ap (lookup (trim r.key)) (added-blank c b (before ++ r ∷ after) blank)
          ∙ lookup-added (suc index) seen c before after r rest full
      | inr (also, once, rest) ↦
          ap (lookup (trim r.key)) (added-full c b (before ++ r ∷ after) also)
          ∙ lookup-added (suc index) (trim b.key ∷ seen) (set_entry (trim b.key) b.value c) before
              after r rest full
    ]

-- In a form without complaints every row that is not blank is saved: the configuration has the row's
-- value under its trimmed key.
pub config_from_form-lookup :
    (before after : List Row) (r : Row)
    → config_issues (before ++ r ∷ after) ≡ []
    → is_blank r ≡ false
    → lookup (trim r.key) (config_from_form (before ++ r ∷ after)) ≡ some r.value
unfolding config_issues config_from_form
config_from_form-lookup before after r h full = lookup-added 0 [] [] before after r h full
