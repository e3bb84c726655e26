-- ===== src/Form/StringList/Laws.antt =====
-- The locked items stay.
use wasm_hooks.Common.{
  String, true, false, not, ◌==◌, ◌≡◌, refl, sym, subst, List, [], ◌∷◌, ◌++◌, keep, Bool-cases, inl,
  inr, eq_iff, arith,
}
use wasm_hooks.Text.{trim}
use wasm_hooks.Mock.Hooks.{contains}
use wasm_hooks.Mock.Hooks.Laws.{Covers}
use wasm_hooks.Form.StringList.{
  ListState, ListEvent, typed, removed, added, is_useless, add, remove, list_step, list_run,
}

contains-append :
    (xs ys : List String) (x : String) → contains xs x ≡ true → contains (xs ++ ys) x ≡ true
contains-append [] ys x h = absurd (cc)
contains-append (y ∷ xs) ys x h = ground (arith, contains-append xs ys x)

-- A removal takes out no other text.
contains-keep :
    (xs : List String) (item x : String)
    → (x == item) ≡ false
    → contains xs x ≡ true
    → contains (keep (λ v. not (v == item)) xs) x ≡ true
contains-keep [] item x other h = absurd (cc)
contains-keep (y ∷ xs) item x other h = elim (Bool-cases (y == x)) [
  | inl here ↦
      let same : y ≡ x = (eq_iff y x).0 here in
      rw (subst (λ z. (z == item) ≡ false) (sym same) other) (rw here refl)
  | inr there ↦ elim (Bool-cases (y == item)) [
    | inl out ↦ rw out (contains-keep xs item x other (ground arith))
    | inr stays ↦ rw stays (rw there (contains-keep xs item x other (ground arith)))
  ]
]

add-Covers :
    (locked : List String) (s : ListState) → Covers s.value locked → Covers (add s).value locked
unfolding add
add-Covers locked s c x h = elim (Bool-cases (is_useless s)) [
  | inl useless ↦ rw useless (c x h)
  | inr useful ↦ rw useful (contains-append s.value (trim s.draft ∷ []) x (c x h))
]

list_step-Covers :
    (locked : List String) (e : ListEvent) (s : ListState)
    → Covers s.value locked
    → Covers (list_step locked e s).value locked
unfolding list_step remove
list_step-Covers locked (typed t) s c x h = c x h
list_step-Covers locked added s c x h = add-Covers locked s c x h
list_step-Covers locked (removed item) s c x h = elim (Bool-cases (contains locked item)) [
  | inl fixed ↦ rw fixed (c x h)
  | inr free ↦ elim (Bool-cases (x == item)) [
    | inl same ↦
        let held : contains locked item ≡ true =
          subst (λ z. contains locked z ≡ true) ((eq_iff x item).0 same) h in
        absurd (cc)
    | inr other ↦ rw free (contains-keep s.value item x other (c x h))
  ]
]

pub list_run-Covers :
    (locked : List String) (es : List ListEvent) (s : ListState)
    → Covers s.value locked
    → Covers (list_run locked es s).value locked
unfolding list_run
list_run-Covers locked [] s c x h = c x h
list_run-Covers locked (e ∷ es) s c x h =
    list_run-Covers locked es (list_step locked e s) (list_step-Covers locked e s c) x h
