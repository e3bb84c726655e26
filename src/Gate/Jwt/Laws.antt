-- ===== src/Gate/Jwt/Laws.antt =====
-- Texts in base64, with the alphabet of URLs and without padding, as the reader of a token takes them.
use Prim.Native.String
use Prim.Native.String.append
use wasm_hooks.Common.{
  ℕ, ◌+◌, ◌-◌, ◌*◌, ◌/◌, ◌%◌, ◌<◌, leb, nat_eq, ◌≡◌, refl, ap, ◌∙◌, String, Bool, true, false, ◌&&◌,
  ◌||◌, List, [], ◌∷◌, some, arith, Char, code, length,
}
use wasm_hooks.Text.{is_empty, utf16_length}
use wasm_hooks.Json.{Json}
use wasm_hooks.Gate.Jwt.{
  read_jwt_claims, parse_claims, Codec, to_base64, padded, equals, decoded, decode_base64_url,
  before_dot, payload,
}

-- A digit or a letter.
abbrev pub is_plain : ℕ → Bool
is_plain n = leb 48 n && leb n 57 || (leb 65 n && leb n 90 || leb 97 n && leb n 122)

-- The letters of base64.
pub data Letter : Type 0 where
  plus slash : Letter
  other : (c : Char) → is_plain (code c) ≡ true → Letter

abbrev pub text_of : List Letter → String
text_of [] = ""
text_of (plus ∷ ls) = String.◌∷◌ "+" (text_of ls)
text_of (slash ∷ ls) = String.◌∷◌ "/" (text_of ls)
text_of (other c p ∷ ls) = String.◌∷◌ c (text_of ls)

-- The same in the alphabet of URLs.
abbrev pub url_text : List Letter → String
url_text [] = ""
url_text (plus ∷ ls) = String.◌∷◌ "-" (url_text ls)
url_text (slash ∷ ls) = String.◌∷◌ "_" (url_text ls)
url_text (other c p ∷ ls) = String.◌∷◌ c (url_text ls)

-- A text in base64: letters and padding, in groups of four.
pub record IsBase64 (s : String) : Type 0 where
  pub letters : List Letter
  pub pad : ℕ
  pub text : s ≡ equals pad (text_of letters)
  pub few : pad < 4
  pub groups : (length letters + pad) % 4 ≡ 0
  pub filled : is_empty (text_of letters) ≡ false

-- What a digit or a letter is not.
pub is_plain-nat_eq :
    (n : ℕ)
    → is_plain n ≡ true
    → (nat_eq n 0x2b ≡ false)
      × (nat_eq n 0x2d ≡ false)
      × (nat_eq n 0x2e ≡ false)
      × (nat_eq n 0x2f ≡ false)
      × (nat_eq n 0x3d ≡ false)
      × (nat_eq n 0x5f ≡ false)
is_plain-nat_eq n h =
    (ground arith, ground arith, ground arith, ground arith, ground arith, ground arith)

-- A text of one character before another.
pub prefixed : (c : Char) {s t : String} → s ≡ t → String.◌++◌ (String.◌∷◌ c "") s ≡ String.◌∷◌ c t
prefixed c {s} {t} e = append.cons c "" s ∙ ap (λ u. String.◌∷◌ c u) (append.nil s ∙ e)

to_base64-url_text : (ls : List Letter) → to_base64 (url_text ls) ≡ text_of ls
unfolding to_base64
to_base64-url_text [] = refl
to_base64-url_text (plus ∷ ls) = prefixed "+" (to_base64-url_text ls)
to_base64-url_text (slash ∷ ls) = prefixed "/" (to_base64-url_text ls)
to_base64-url_text (other c p ∷ ls) =
    let (not_plus, not_minus, not_dot, not_slash, not_equals, not_low) =
      is_plain-nat_eq (code c) p in
    rw (not_minus, not_low) (prefixed c (to_base64-url_text ls))

text_of-length : (ls : List Letter) → utf16_length (text_of ls) ≡ length ls
unfolding utf16_length
text_of-length [] = refl
text_of-length (plus ∷ ls) = omega (arith, text_of-length ls)
text_of-length (slash ∷ ls) = omega (arith, text_of-length ls)
text_of-length (other c p ∷ ls) = ground (arith, text_of-length ls)

padded-text :
    (ls : List Letter) (pad : ℕ)
    → pad < 4
    → (length ls + pad) % 4 ≡ 0
    → padded (text_of ls) ≡ equals pad (text_of ls)
unfolding padded
padded-text ls pad few groups =
    rw (text_of-length ls) (ap (λ k. equals k (text_of ls)) (rounded (length ls) pad few groups))
  where
    rounded : (n k : ℕ) → k < 4 → (n + k) % 4 ≡ 0 → (n + 3) / 4 * 4 - n ≡ k
    rounded n k few groups = omega arith

-- A segment is decoded as the text in base64 that it stands for.
pub decode_base64_url-url_text :
    (codec : Codec) (s : String) (b : IsBase64 s)
    → decode_base64_url codec (url_text b.letters) ≡ decoded codec (codec.atob s)
unfolding decode_base64_url
decode_base64_url-url_text codec s b =
    ap (λ t. decoded codec (codec.atob t))
      (rw (to_base64-url_text b.letters)
        (rw (padded-text b.letters b.pad b.few b.groups) (rw (← b.text) refl)))

dotted : (s : String) → String.◌++◌ "." s ≡ String.◌∷◌ "." s
dotted s = prefixed "." refl

before_dot-url_text :
    (ls : List Letter) (rest : String)
    → before_dot (String.◌++◌ (url_text ls) (String.◌∷◌ "." rest)) ≡ url_text ls
unfolding before_dot
before_dot-url_text [] rest = rw (append.nil (String.◌∷◌ "." rest)) refl
before_dot-url_text (plus ∷ ls) rest =
    rw (append.cons "-" (url_text ls) (String.◌∷◌ "." rest))
      (ap (λ s. String.◌∷◌ "-" s) (before_dot-url_text ls rest))
before_dot-url_text (slash ∷ ls) rest =
    rw (append.cons "_" (url_text ls) (String.◌∷◌ "." rest))
      (ap (λ s. String.◌∷◌ "_" s) (before_dot-url_text ls rest))
before_dot-url_text (other c p ∷ ls) rest =
    let (not_plus, not_minus, not_dot, not_slash, not_equals, not_low) =
      is_plain-nat_eq (code c) p in
    rw (append.cons c (url_text ls) (String.◌∷◌ "." rest), not_dot)
      (ap (λ s. String.◌∷◌ c s) (before_dot-url_text ls rest))

payload-after :
    (ls : List Letter) (rest : String)
    → payload (String.◌++◌ (url_text ls) (String.◌∷◌ "." rest)) ≡ some (before_dot rest)
unfolding payload
payload-after [] rest = rw (append.nil (String.◌∷◌ "." rest)) refl
payload-after (plus ∷ ls) rest =
    rw (append.cons "-" (url_text ls) (String.◌∷◌ "." rest)) (payload-after ls rest)
payload-after (slash ∷ ls) rest =
    rw (append.cons "_" (url_text ls) (String.◌∷◌ "." rest)) (payload-after ls rest)
payload-after (other c p ∷ ls) rest =
    let (not_plus, not_minus, not_dot, not_slash, not_equals, not_low) =
      is_plain-nat_eq (code c) p in
    rw (append.cons c (url_text ls) (String.◌∷◌ "." rest), not_dot) (payload-after ls rest)

-- The payload of a token of three segments is the second.
pub payload-token :
    (header claims : List Letter) (signature : String)
    → payload (
        String.◌++◌
          (url_text header)
          (String.◌++◌ "." (String.◌++◌ (url_text claims) (String.◌++◌ "." signature))))
      ≡ some (url_text claims)
payload-token header claims signature = rw (dotted signature) (
    rw (dotted (String.◌++◌ (url_text claims) (String.◌∷◌ "." signature))) (
      rw (payload-after header (String.◌++◌ (url_text claims) (String.◌∷◌ "." signature)))
        (ap (λ s. some s) (before_dot-url_text claims signature))))

url_text-filled :
    (ls : List Letter) → is_empty (text_of ls) ≡ false → is_empty (url_text ls) ≡ false
url_text-filled [] h = h
url_text-filled (plus ∷ ls) h = refl
url_text-filled (slash ∷ ls) h = refl
url_text-filled (other c p ∷ ls) h = refl

-- A token whose payload stands for a text in base64 is read as the claims of that text.
pub read_jwt_claims-url_text :
    (codec : Codec) (token s : String) (b : IsBase64 s) (bytes : List ℕ) (v : Json)
    → payload token ≡ some (url_text b.letters)
    → codec.atob s ≡ some bytes
    → codec.parse (codec.decode bytes) ≡ some v
    → read_jwt_claims codec token ≡ parse_claims (some v)
unfolding read_jwt_claims
read_jwt_claims-url_text codec token s b bytes v at_payload at_atob at_parse = rw at_payload (
    rw (url_text-filled b.letters b.filled)
      (rw (decode_base64_url-url_text codec s b) (rw at_atob (rw at_parse refl))))
