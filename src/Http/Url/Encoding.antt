-- ===== src/Http/Url/Encoding.antt =====
-- Percent-encoded text, as `UrlDecode` and `ExtractKeyFromQuery` of src/service/http_service.cpp read it.
use gate_keeper.Base.{
  ℕ, ◌+◌, ◌*◌, ◌/◌, ◌%◌, ◌<◌, ◌≡◌, refl, ap, ◌∙◌, Bool, true, false, none, some, [], ◌∷◌, ◌++◌,
  Bytes, text, ◌==◌, if◌then◌else◌, arith, Bool-cases, ==_iff, inl, inr,
}
use gate_keeper.Http.Url.{hex_pair, plus, url_decode, until_and, key_from, extract_key_from_query}
use gate_keeper.Json.{hex_digit, literal}
use gate_keeper.Json.Quote.{hex_char}
use gate_keeper.Json.Strings.{hex_digit-hex_char}

-- the percent-encoding of a text, where the test says which bytes stand for themselves
unfoldable pub url_encode : (ℕ → Bool) → Bytes → Bytes
url_encode plain [] = []
url_encode plain (c ∷ s) =
    let rest = url_encode plain s in
    if plain c then c ∷ rest else b'%' ∷ hex_char (c / 16) ∷ hex_char (c % 16) ∷ rest

abbrev pub AllBytes : Bytes → Type 0
AllBytes [] = Unit
AllBytes (c ∷ s) = (c < 256) × AllBytes s

-- a test that lets no character stand for itself that means something in a query
abbrev pub IsPlain : (ℕ → Bool) → Type 0
IsPlain plain = (plain b'%' ≡ false) × (plain b'+' ≡ false) × (plain b'&' ≡ false)

hex_pair_of :
    (a b h1 h2 : ℕ)
    → hex_digit a ≡ some h1
    → hex_digit b ≡ some h2
    → hex_pair a b ≡ some (h1 * 16 + h2)
hex_pair_of a b h1 h2 e e' = ground (arith, e, e')

hex_pair-hex_char : (c : ℕ) → c < 256 → hex_pair (hex_char (c / 16)) (hex_char (c % 16)) ≡ some c
hex_pair-hex_char c small =
    hex_pair_of (hex_char (c / 16)) (hex_char (c % 16)) (c / 16) (c % 16)
      (hex_digit-hex_char (c / 16) (omega arith)) (hex_digit-hex_char (c % 16) (omega arith))
    ∙ ap some (omega arith)

url_decode-percent :
    (a b h : ℕ) (s : Bytes)
    → hex_pair a b ≡ some h
    → url_decode (b'%' ∷ a ∷ b ∷ s) ≡ h ∷ url_decode s
unfolding url_decode
url_decode-percent a b h s e = ground (arith, e)

url_decode-plain :
    (c : ℕ) (s : Bytes) → (c == b'%') ≡ false → url_decode (c ∷ s) ≡ plus c ∷ url_decode s
unfolding url_decode
url_decode-plain c [] h = refl
url_decode-plain c (a ∷ []) h = refl
url_decode-plain c (a ∷ b ∷ s) h = rw h refl

-- a byte that stands for itself is none that does not
apart : (plain : ℕ → Bool) (c k : ℕ) → plain c ≡ true → plain k ≡ false → (c == k) ≡ false
apart plain c k y n = elim (Bool-cases (c == k)) [
  | inl e ↦ absurd (cc (ap plain ((==_iff c k).0 e), y, n))
  | inr d ↦ d
]

plus_self : (c : ℕ) → (c == b'+') ≡ false → plus c ≡ c
plus_self c h = ground (arith, h)

url_decode_nothing : url_decode [] ≡ []
unfolding url_decode
url_decode_nothing = refl

url_decode-url_encode :
    (plain : ℕ → Bool) (s : Bytes)
    → IsPlain plain
    → AllBytes s
    → url_decode (url_encode plain s) ≡ s
unfolding url_encode
url_decode-url_encode plain [] h k = url_decode_nothing
url_decode-url_encode plain (c ∷ s) h k =
    let ih = url_decode-url_encode plain s h k.1 in
    elim (Bool-cases (plain c)) [
      | inl y ↦ rw y (
          url_decode-plain c (url_encode plain s) (apart plain c b'%' y h.0)
          ∙ ap (λ d. d ∷ url_decode (url_encode plain s)) (plus_self c (apart plain c b'+' y h.1))
          ∙ ap (λ t. c ∷ t) ih)
      | inr n ↦ rw n (
          url_decode-percent (hex_char (c / 16)) (hex_char (c % 16)) c (url_encode plain s)
            (hex_pair-hex_char c k.0)
          ∙ ap (λ t. c ∷ t) ih)
    ]

-- what may stand behind a value in a query
abbrev pub EndsValue : Bytes → Type 0
EndsValue [] = Unit
EndsValue (c ∷ s) = (c == b'&') ≡ true

until_and-end : (rest : Bytes) → EndsValue rest → until_and rest ≡ []
unfolding until_and
until_and-end [] h = refl
until_and-end (c ∷ s) h = rw h refl

no_digit : hex_digit b'&' ≡ none
unfolding hex_digit
no_digit = refl

hex_char_no_and : (n : ℕ) → n < 16 → (hex_char n == b'&') ≡ false
hex_char_no_and n h = elim (Bool-cases (hex_char n == b'&')) [
  | inl e ↦
      absurd (cc (ap hex_digit ((==_iff (hex_char n) b'&').0 e), hex_digit-hex_char n h, no_digit))
  | inr d ↦ d
]

until_and-url_encode :
    (plain : ℕ → Bool) (s rest : Bytes)
    → IsPlain plain
    → AllBytes s
    → EndsValue rest
    → until_and (url_encode plain s ++ rest) ≡ url_encode plain s
unfolding url_encode until_and
until_and-url_encode plain [] rest h k e = until_and-end rest e
until_and-url_encode plain (c ∷ s) rest h k e =
    let ih = until_and-url_encode plain s rest h k.1 e in
    elim (Bool-cases (plain c)) [
      | inl y ↦ rw y (rw (apart plain c b'&' y h.2) (ap (λ t. c ∷ t) ih))
      | inr n ↦
          let small = k.0 in
          rw n (
            rw (hex_char_no_and (c / 16) (omega arith), hex_char_no_and (c % 16) (omega arith))
              (ap (λ t. b'%' ∷ hex_char (c / 16) ∷ hex_char (c % 16) ∷ t) ih))
    ]

key_from_front : (s : Bytes) → key_from true (text "key=" ++ s) ≡ url_decode (until_and s)
unfolding key_from literal text
key_from_front s = refl

-- `ExtractKeyFromQuery` finds a percent-encoded key at the front of the query, whichever bytes other
-- than `%`, `+` and `&` the client leaves as they are, and whatever further fields follow.
pub extract_key_from_query-url_encode :
    (plain : ℕ → Bool) (key rest : Bytes)
    → IsPlain plain
    → AllBytes key
    → EndsValue rest
    → extract_key_from_query (text "key=" ++ (url_encode plain key ++ rest)) ≡ key
unfolding extract_key_from_query
extract_key_from_query-url_encode plain key rest h k e =
    key_from_front (url_encode plain key ++ rest)
    ∙ ap url_decode (until_and-url_encode plain key rest h k e)
    ∙ url_decode-url_encode plain key h k
