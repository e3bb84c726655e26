-- ===== src/Mock/Random/Laws.antt =====
-- What the generator draws.
use wasm_hooks.Common.{ℕ, ltb, ◌<◌, ◌^◌, ◌≡◌, refl, arith, Bool-cases, inl, inr}
use wasm_hooks.Common.Int.{ℤ, pos, negsuc}
use wasm_hooks.Mock.Random.{to_uint32, signed, to_int32, xor, shift, next_seed, draw, last_mix}

-- The integers with a sign that 32 bits hold, and those without one.
abbrev pub IsInt32 : ℤ → Type 0
IsInt32 (pos n) = n < 2 ^ 31
IsInt32 (negsuc n) = n < 2 ^ 31

abbrev pub IsUint32 : ℤ → Type 0
IsUint32 (pos n) = n < 2 ^ 32
IsUint32 (negsuc n) = ⊥

to_uint32_below : (x : ℤ) → to_uint32 x < 2 ^ 32
unfolding to_uint32
to_uint32_below (pos n) = omega arith
to_uint32_below (negsuc n) = omega arith

signed-IsInt32 : (n : ℕ) → n < 2 ^ 32 → IsInt32 (signed n)
unfolding signed
signed-IsInt32 n h = elim (Bool-cases (ltb n (2 ^ 31))) [
  | inl small ↦ rw small (ground arith)
  | inr large ↦ rw large (ground arith)
]

last_mix-IsUint32 : (t : ℤ) → IsUint32 (last_mix t)
unfolding last_mix shift
last_mix-IsUint32 t = omega (arith, to_uint32_below (xor t (shift t 14)))

-- From whatever number the generator starts, its next state is an integer with a sign that 32 bits hold, and what it draws is
-- one without a sign: not negative, and below the 4294967296 by which it is divided.
pub draw-bounds : (seed : ℤ) → IsInt32 (next_seed seed) × IsUint32 (draw (next_seed seed))
unfolding draw next_seed to_int32
draw-bounds seed = (signed-IsInt32 _ (to_uint32_below _), last_mix-IsUint32 _)

draw_first : draw (next_seed (pos 42)) ≡ pos 2581720956
unfolding draw next_seed
draw_first = refl
