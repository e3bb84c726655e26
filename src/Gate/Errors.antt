-- ===== src/Gate/Errors.antt =====
-- web/src/shared/api/describe-error.ts
use wasm_hooks.Common.{ℕ, nat_eq, String, Bool, false, [], ◌∷◌, Option, none, some, if◌then◌else◌}
use wasm_hooks.Text.{concat, is_empty}
use wasm_hooks.Api.Client.{Thrown, api_error, other_error}

-- A detail that counts as true.
abbrev detail_text : Option String → Option String
detail_text none = none
detail_text (some d) = if is_empty d then none else some d

unimplemented : Option String → String
unimplemented none = "Ещё не реализовано на бэкенде"
unimplemented (some d) = concat ("Ещё не реализовано на бэкенде: " ∷ d ∷ [])

detailed : String → Option String → String
detailed message none = message
detailed message (some d) = concat (message ∷ ": " ∷ d ∷ [])

-- `describeError`; everything that the console's requests throw is an `Error`.
unfoldable pub describe_error : Thrown → String
unfolding unimplemented detailed
describe_error (other_error message) = message
describe_error (api_error status message detail) =
    if nat_eq status 501
    then unimplemented (detail_text detail)
    else detailed message (detail_text detail)

-- `error instanceof ApiError && error.status === status`
abbrev pub is_status : ℕ → Thrown → Bool
is_status status (api_error s message detail) = nat_eq s status
is_status status (other_error message) = false
