-- ===== src/Mock/Http/Bearer.antt =====
-- The `Authorization` header that the client sends is the one that the mock API reads.
use Prim.Native.String
use Prim.Native.String.append
use text.Mathlib.TextLemmas.{append-nil, append_assoc}
use wasm_hooks.Common.{
  eq_refl, ◌∙◌, ◌≡◌, refl, ap, String, Bool, true, false, not, ◌&&◌, List, some, code, any, ◌==◌,
}
use wasm_hooks.Text.{is_empty, is_space, trim_start, strip}
use wasm_hooks.Mock.Db.{StoredApiKey}
use wasm_hooks.Mock.Http.{
  bearer_token, has_bearer, is_truthy, word, starts_with_space, after_scheme,
}
use wasm_hooks.Api.Client.{authorization_of}

-- A text that holds no white space.
unfoldable pub no_space : String → Bool
no_space String.[] = true
no_space (String.◌∷◌ c s) = let rest = no_space s in not (is_space (code c)) && rest

split_and : (a b : Bool) → (not a && b) ≡ true → (a ≡ false) × (b ≡ true)
split_and true b h = cc
split_and false b h = (refl, h)

word-no_space : (s : String) → no_space s ≡ true → word s ≡ s
unfolding word no_space
word-no_space String.[] h = refl
word-no_space (String.◌∷◌ c s) h =
    let (clean, rest) = split_and (is_space (code c)) (no_space s) h in
    rw clean (rw (word-no_space s rest) refl)

trim_start-no_space : (s : String) → no_space s ≡ true → trim_start s ≡ s
unfolding trim_start no_space
trim_start-no_space String.[] h = refl
trim_start-no_space (String.◌∷◌ c s) h = rw (split_and (is_space (code c)) (no_space s) h).0 refl

strip-append : (p s : String) → strip p (String.◌++◌ p s) ≡ some s
unfolding strip
strip-append String.[] s = rw (append.nil s) refl
strip-append (String.◌∷◌ c p) s =
    rw (append.cons c p s) (rw (eq_refl (String.◌∷◌ c "")) (strip-append p s))

after_space : (token : String) → String.◌++◌ " " token ≡ String.◌∷◌ " " token
after_space token = append.cons " " "" token ∙ ap (String.◌∷◌ " ") (append.nil token)

after_scheme-token :
    (token : String)
    → is_empty token ≡ false
    → no_space token ≡ true
    → after_scheme (some (String.◌∷◌ " " token)) ≡ some token
unfolding after_scheme trim_start starts_with_space is_space
after_scheme-token token full clean =
    rw (trim_start-no_space token clean) (rw (word-no_space token clean) (rw full refl))

bearer_token-append :
    (token : String)
    → is_empty token ≡ false
    → no_space token ≡ true
    → bearer_token (String.◌++◌ "Bearer " token) ≡ some token
unfolding bearer_token
bearer_token-append token full clean =
    ap (λ h. after_scheme (strip "Bearer" h)) (append_assoc "Bearer" " " token)
    ∙ ap after_scheme (strip-append "Bearer" (String.◌++◌ " " token))
    ∙ ap (λ h. after_scheme (some h)) (after_space token)
    ∙ after_scheme-token token full clean

-- A token that is not empty and holds no white space, sent as the client sends it, is let through by the mock
-- API exactly if it is not the token of a revoked key.
pub has_bearer-authorization_of :
    (keys : List StoredApiKey) (token : String)
    → is_empty token ≡ false
    → no_space token ≡ true
    → has_bearer keys (authorization_of (some token))
      ≡ not (any (λ k. is_truthy k.revoked_at && k.token == token) keys)
unfolding has_bearer authorization_of
has_bearer-authorization_of keys token full clean =
    rw full (rw (append-nil token) (rw (bearer_token-append token full clean) refl))
