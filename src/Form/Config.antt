-- ===== src/Form/Config.antt =====
-- web/src/features/edit-binding-config/model/form.ts: the rows of the form of a configuration. A configuration is
-- the list of its properties in their order; the order that JavaScript gives to keys that are numbers is left out.
pub mod Rows
pub mod Reopen
use wasm_hooks.Common.{
  ℕ, suc, nat_eq, String, Bool, true, false, not, ◌&&◌, List, [], ◌∷◌, map, Option, none, some,
  if◌then◌else◌, ◌==◌, any, all, keep, sort, length, get_or_else,
}
use wasm_hooks.Text.{is_empty, trim}
use wasm_hooks.Json.{lookup}

abbrev pub BindingConfig : Type 0
BindingConfig = List (String × String)

pub record Row : Type 0 where
  pub key : String
  pub value : String

-- `isBlank`
unfoldable pub is_blank : Row → Bool
unfolding trim
is_blank r = is_empty (trim r.key) && is_empty r.value

-- A complaint about the key of a row.
pub record Issue : Type 0 where
  pub index : ℕ
  pub message : String

abbrev pub is_seen : List String → String → Bool
is_seen seen key = any (λ k. k == key) seen

abbrev pub is_new : List String → Row → Bool
is_new seen r = not (is_empty (trim r.key)) && not (is_seen seen (trim r.key))

-- The complaints from a row on: the row is blank, or its key is empty or seen, or it is well.
pub complain : (blank empty twice : Bool) → ℕ → List Issue → List Issue
complain true empty twice index next = next
complain false true twice index next = record { index = index; message = "Укажите ключ" } ∷ next
complain false false true index next =
    record { index = index; message = "Такой ключ уже есть" } ∷ next
complain false false false index next = next

-- The check of `configFormSchema` from a row on; `seen` holds the keys of the rows before.
unfoldable pub row_issues : ℕ → List String → List Row → List Issue
unfolding complain
row_issues index seen [] = []
row_issues index seen (r ∷ rows) =
    complain (is_blank r) (is_empty (trim r.key)) (is_seen seen (trim r.key)) index
      (row_issues (suc index) (if is_new seen r then trim r.key ∷ seen else seen) rows)

unfoldable pub config_issues : List Row → List Issue
unfolding row_issues
config_issues rows = row_issues 0 [] rows

-- `formFromConfig`; `collate` is `localeCompare` as a test.
or_blank : List Row → List Row
or_blank [] = record { key = ""; value = "" } ∷ []
or_blank (r ∷ rows) = r ∷ rows

unfoldable pub form_from_config : (String → String → Bool) → Option BindingConfig → List Row
unfolding or_blank
form_from_config collate config = or_blank (
    map (λ e. record { key = e.0; value = e.1 })
      (sort (λ a b. collate a.0 b.0) (get_or_else config [])))

-- A property of an object is set: in its place if it is there, and else at the end.
pub set_entry : String → String → BindingConfig → BindingConfig
set_entry key v [] = (key, v) ∷ []
set_entry key v ((k, w) ∷ entries) =
    let rest = set_entry key v entries in if k == key then (k, v) ∷ entries else (k, w) ∷ rest

-- `Object.fromEntries`, from the entries of the rows before.
pub add_rows : BindingConfig → List Row → BindingConfig
unfolding set_entry trim
add_rows entries [] = entries
add_rows entries (r ∷ rows) = add_rows (set_entry (trim r.key) r.value entries) rows

-- `configFromForm`
unfoldable pub config_from_form : List Row → BindingConfig
unfolding add_rows set_entry is_blank
config_from_form rows = add_rows [] (keep (λ r. not (is_blank r)) rows)

abbrev same_value : Option String → String → Bool
same_value none v = false
same_value (some w) v = w == v

-- `sameConfig`
unfoldable pub same_config : BindingConfig → BindingConfig → Bool
unfolding lookup
same_config a b = nat_eq (length a) (length b) && all (λ e. same_value (lookup e.0 b) e.1) a
