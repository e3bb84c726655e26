-- ===== src/Entity/Invocation.antt =====
-- web/src/entities/invocation/model: the log of hook calls.
use wasm_hooks.Common.{ℕ, String, Bool, true, false, List, Option, none, some, if◌then◌else◌, ◌==◌}

pub data Outcome : Type 0 where
  ok no_handler timeout handler_error quota_exceeded unavailable : Outcome

-- `outcomeSchema.safeParse` of a text.
unfoldable pub parse_outcome : String → Option Outcome
parse_outcome s =
    if s == "ok"
    then some ok
    else if s == "no_handler"
    then some no_handler
    else if s == "timeout"
    then some timeout
    else if s == "handler_error"
    then some handler_error
    else if s == "quota_exceeded"
    then some quota_exceeded
    else if s == "unavailable"
    then some unavailable
    else none

unfoldable pub outcome_text : Outcome → String
outcome_text ok = "ok"
outcome_text no_handler = "no_handler"
outcome_text timeout = "timeout"
outcome_text handler_error = "handler_error"
outcome_text quota_exceeded = "quota_exceeded"
outcome_text unavailable = "unavailable"

abbrev pub outcome_is : Outcome → Outcome → Bool
outcome_is ok ok = true
outcome_is no_handler no_handler = true
outcome_is timeout timeout = true
outcome_is handler_error handler_error = true
outcome_is quota_exceeded quota_exceeded = true
outcome_is unavailable unavailable = true
outcome_is _ _ = false

-- `F` is the type of floating-point numbers.
pub record Invocation (F : Type 0) : Type 0 where
  pub seq : ℕ
  pub ts : String
  pub hook : String
  pub module_hash : Option String
  pub outcome : Outcome
  pub reason : Option String
  pub error : Option String
  pub duration_ms : F
  pub cold_start : Bool
  pub idempotency_key : Option String
  pub logs : List String
