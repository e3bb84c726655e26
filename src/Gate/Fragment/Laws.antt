-- ===== src/Gate/Fragment/Laws.antt =====
-- A token is taken from the address once.
use wasm_hooks.Common.{String, not, List, keep}
use wasm_hooks.Gate.Fragment.{SearchParams, Location, without_mark, with_mark, is_token}

-- The parameters that stay in the address.
abbrev others : List (String × String) → List (String × String)
others params = keep (λ e. not (is_token e)) params

-- The parameters of an address.
unfoldable pub params_of : SearchParams → Location → List (String × String)
unfolding without_mark
params_of url at = url.read (without_mark at.hash)

module _ (url : SearchParams) where
  -- The address that is left by a token.
  left_by : Location → Location
  left_by at = record at { hash = with_mark (url.write (others (url.read (without_mark at.hash)))) }
