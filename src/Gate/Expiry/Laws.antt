-- ===== src/Gate/Expiry/Laws.antt =====
-- A session ends, in time, and not before its time.
use wasm_hooks.Common.{
  ℕ, ◌+◌, ◌-◌, ◌*◌, ◌≤◌, ◌<◌, ◌^◌, min, leb, true, ◌≡◌, refl, subst, List, [], ◌∷◌, some,
  if◌then◌else◌, arith, length, Bool-cases, inl, inr,
}
use wasm_hooks.Common.Int.{ℤ, pos, negsuc}
use wasm_hooks.Gate.Jwt.{reached}
use wasm_hooks.Gate.Expiry.{left, delay, max_timer_delay_ms, clear, wait, check, clearance}

-- All that the timers are late.
abbrev pub total : List ℕ → ℕ
total [] = 0
total (late ∷ lates) = late + total lates

-- A session of a token whose end is in whole milliseconds ends: if there are timers enough, the token is cleared, not before its time, and after it by no
-- more than the timers are late.
pub clearance-reached :
    (at : ℤ) (lates : List ℕ) (now : ℕ)
    → left at now ≤ max_timer_delay_ms * length lates
    → (t : ℕ) × (clearance at lates now ≡ some t)
      × (reached at t ≡ true)
      × (t ≤ now + left at now + total lates)
unfolding clearance delay
clearance-reached (negsuc n) [] now h = (now, refl, refl, omega arith)
clearance-reached (negsuc n) (late ∷ lates) now h = (now, refl, refl, omega arith)
clearance-reached (pos n) [] now h =
    let done : leb n now ≡ true = ground arith in (now, rw done refl, done, omega arith)
clearance-reached (pos n) (late ∷ lates) now h = elim (Bool-cases (leb n now)) [
  | inl done ↦ (now, rw done refl, done, omega arith)
  | inr early ↦
      let (t, e, r, b) =
        clearance-reached (pos n) lates (now + min (n - now) max_timer_delay_ms + late)
          (omega arith) in
      let before : now < n = ground arith in (t, rw early e, r, omega arith)
]

-- For an end in whole milliseconds, every timer is set for a time that is not 0 and that a browser's timer can hold, a
-- signed number of 32 bits, and so each brings the end nearer.
pub check-bounds :
    (at : ℤ) (now ms : ℕ)
    → check at now ≡ wait ms
    → (1 ≤ ms) × (ms < 2 ^ 31) × (left at (now + ms) < left at now)
unfolding check delay
check-bounds (negsuc n) now ms e = absurd (cc)
check-bounds (pos n) now ms e = elim (Bool-cases (leb n now)) [
  | inl done ↦ absurd (ground arith)
  | inr early ↦
      let set : wait (min (n - now) max_timer_delay_ms) ≡ wait ms =
        subst (λ b. (if b then clear else wait (min (n - now) max_timer_delay_ms)) ≡ wait ms) early
          e in
      let m : min (n - now) max_timer_delay_ms ≡ ms = cc in
      let before : now < n = ground arith in (omega arith, omega arith, omega arith)
]
