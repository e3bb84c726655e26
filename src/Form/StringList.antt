-- ===== src/Form/StringList.antt =====
-- web/src/shared/ui/string-list-input.tsx: a list of texts that grows by a typed one, and whose items can be taken out
-- unless they are locked.
pub mod Laws
use wasm_hooks.Common.{
  String, Bool, true, false, not, ◌||◌, ◌==◌, List, [], ◌∷◌, ◌++◌, map, keep, if◌then◌else◌,
}
use wasm_hooks.Text.{is_empty, trim}
use wasm_hooks.Mock.Hooks.{contains}

-- The draft, and the parent's list.
pub record ListState : Type 0 where
  pub draft : String
  pub value : List String

-- Typing, the button or the Enter key, and the cross of an item.
pub data ListEvent : Type 0 where
  typed removed : String → ListEvent
  added : ListEvent

-- Whether there is nothing to add: also the test that disables the button.
unfoldable pub is_useless : ListState → Bool
unfolding trim
is_useless s = is_empty (trim s.draft) || contains s.value (trim s.draft)

-- `add`
unfoldable pub add : ListState → ListState
unfolding is_useless trim
add s = if is_useless s then s else record { draft = ""; value = s.value ++ trim s.draft ∷ [] }

unfoldable pub remove : String → ListState → ListState
remove item s = record s { value = keep (λ v. not (v == item)) s.value }

-- One event; a locked item has no cross.
unfoldable pub list_step : List String → ListEvent → ListState → ListState
unfolding add remove
list_step locked (typed s) state = record state { draft = s }
list_step locked (removed item) state =
    let next = remove item state in if contains locked item then state else next
list_step locked added state = add state

unfoldable pub list_run : List String → List ListEvent → ListState → ListState
unfolding list_step
list_run locked [] s = s
list_run locked (e ∷ es) s = list_run locked es (list_step locked e s)

-- An item as it is shown: with a lock, or with a cross.
pub record Item : Type 0 where
  pub text : String
  pub is_locked : Bool

unfoldable pub items : List String → ListState → List Item
items locked s = map (λ v. record { text = v; is_locked = contains locked v }) s.value
