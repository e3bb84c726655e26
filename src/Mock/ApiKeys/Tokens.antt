-- ===== src/Mock/ApiKeys/Tokens.antt =====
-- The form of random texts.
use wasm_hooks.Common.{◌≡◌, refl, [], ◌∷◌}
use wasm_hooks.Mock.ApiKeys.{random_text}

tests : (random_text "ab" (0 ∷ 3 ∷ 255 ∷ 2 ∷ []) ≡ "abba")
unfolding random_text
tests = refl
