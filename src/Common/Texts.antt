-- ===== src/Common/Texts.antt =====
-- The equality test of texts.
use Prim.Native.String.{String}
use mathlib.Core.Path.{◌≡◌}
use mathlib.Core.Logic.{◌≢◌}
use mathlib.Core.Bool.{false}
use native.Mathlib.Omega.{arith}
use text.Mathlib.Text.{◌==◌}
use text.Mathlib.TextEquality.{eq_iff}

-- Texts that the test tells apart are different.
pub distinct : (s t : String) → (s == t) ≡ false → s ≢ t
distinct s t h = ground (arith, eq_iff s t)
