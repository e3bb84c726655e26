-- ===== src/Gate/Expiry.antt =====
-- web/src/features/console-session/ui/tenant-session-gate.tsx: the timer that ends a session at the time of its token, for a
-- time in whole milliseconds, as the token of a whole number of seconds has it.
pub mod Laws
use wasm_hooks.Common.{ℕ, ◌+◌, ◌-◌, min, Bool, List, [], ◌∷◌, Option, none, some, if◌then◌else◌}
use wasm_hooks.Common.Int.{ℤ, pos, negsuc}
use wasm_hooks.Gate.Jwt.{reached}

abbrev pub max_timer_delay_ms : ℕ
max_timer_delay_ms = 2147483647

-- `expiresAt - Date.now()` where it is positive, or else 0.
abbrev pub left : ℤ → ℕ → ℕ
left (pos at) now = at - now
left (negsuc at) now = 0

-- `Math.min(left, MAX_TIMER_DELAY_MS)`
unfoldable pub delay : ℤ → ℕ → ℕ
delay at now = min (left at now) max_timer_delay_ms

-- What `check` does: it clears the token, or sets a timer.
pub data Check : Type 0 where
  clear : Check
  wait : (ms : ℕ) → Check

unfoldable pub check : ℤ → ℕ → Check
unfolding delay
check at now = if reached at now then clear else wait (delay at now)

-- `check` and the timers that it sets, one for each entry of a list that says how late the timer fires: the time of the
-- clearance, if the list is long enough to reach it.
unfoldable pub clearance : ℤ → List ℕ → ℕ → Option ℕ
unfolding delay
clearance at [] now = if reached at now then some now else none
clearance at (late ∷ lates) now =
    let later = clearance at lates (now + delay at now + late) in
    if reached at now then some now else later
