-- ===== src/Mock/Random.antt =====
-- web/src/mocks/db.ts: `mulberry32`, on integers with their signs. An operation on bits takes the 32 bits of its operands,
-- `to_uint32`, and gives the integer with a sign that has the bits of the result, `to_int32`.
pub mod Laws
use Prim.Native.Nat.{bit_or, bit_xor}
use wasm_hooks.Common.{ℕ, ltb, leb, ◌+◌, ◌-◌, ◌*◌, ◌/◌, ◌%◌, ◌^◌, if◌then◌else◌}
use wasm_hooks.Common.Int.{ℤ, pos, negsuc}

-- The 32 bits of an integer, as the number from 0 that they make.
pub to_uint32 : ℤ → ℕ
to_uint32 (pos n) = n % 2 ^ 32
to_uint32 (negsuc n) = 2 ^ 32 - 1 - n % 2 ^ 32

-- The integer with a sign that 32 bits make.
pub signed : ℕ → ℤ
signed n = if ltb n (2 ^ 31) then pos n else negsuc (2 ^ 32 - 1 - n)

-- `x | 0`
pub to_int32 : ℤ → ℤ
unfolding signed to_uint32
to_int32 x = signed (to_uint32 x)

-- `x ^ y`
pub xor : ℤ → ℤ → ℤ
unfolding signed to_uint32
xor x y = signed (bit_xor (to_uint32 x) (to_uint32 y))

-- `x | y`
pub or : ℤ → ℤ → ℤ
unfolding signed to_uint32
or x y = signed (bit_or (to_uint32 x) (to_uint32 y))

-- `x >>> k`
pub shift : ℤ → ℕ → ℤ
unfolding to_uint32
shift x k = pos (to_uint32 x / 2 ^ k)

-- `Math.imul(x, y)`
pub imul : ℤ → ℤ → ℤ
unfolding signed to_uint32
imul x y = signed (to_uint32 x * to_uint32 y % 2 ^ 32)

-- `x + y`, of integers that a number holds exactly.
pub plus : ℤ → ℤ → ℤ
plus (pos a) (pos b) = pos (a + b)
plus (negsuc a) (negsuc b) = negsuc (a + b + 1)
plus (pos a) (negsuc b) = if leb a b then negsuc (b - a) else pos (a - b - 1)
plus (negsuc a) (pos b) = if leb b a then negsuc (a - b) else pos (b - a - 1)

-- The first two lines of the generator: its next state.
unfoldable pub next_seed : ℤ → ℤ
unfolding to_int32 plus
next_seed seed = to_int32 (plus (to_int32 seed) (pos 0x6d2b79f5))

pub first_mix : ℤ → ℤ
unfolding imul xor or shift
first_mix s = imul (xor s (shift s 15)) (or (pos 1) s)

pub second_mix : ℤ → ℤ
unfolding imul xor or shift plus
second_mix t = xor (plus t (imul (xor t (shift t 7)) (or (pos 61) t))) t

-- `(t ^ (t >>> 14)) >>> 0`
pub last_mix : ℤ → ℤ
unfolding xor shift
last_mix t = shift (xor t (shift t 14)) 0

-- What a state draws: the number that is divided by 4294967296.
unfoldable pub draw : ℤ → ℤ
unfolding first_mix second_mix last_mix
draw s = last_mix (second_mix (first_mix s))
