-- ===== src/Http/Url.antt =====
-- `UrlDecode` and `ExtractKeyFromQuery` of src/service/http_service.cpp.
pub mod Encoding
use gate_keeper.Base.{
  ℕ, ◌+◌, ◌*◌, Bool, true, false, Option, none, some, [], ◌∷◌, Bytes, text, ◌==◌, if◌then◌else◌,
}
use gate_keeper.Json.{hex_digit, literal}

-- the byte of two hexadecimal digits
abbrev pub hex_pair : ℕ → ℕ → Option ℕ
hex_pair a b = elim (hex_digit a) [
  | none ↦ none
  | some h1 ↦ elim (hex_digit b) [ none ↦ none | some h2 ↦ some (h1 * 16 + h2) ]
]

abbrev pub plus : ℕ → ℕ
plus c = if c == b'+' then b' ' else c

unfoldable pub url_decode : Bytes → Bytes
unfolding hex_digit
url_decode [] = []
url_decode (c ∷ []) = plus c ∷ []
url_decode (c ∷ a ∷ []) = plus c ∷ url_decode (a ∷ [])
url_decode (c ∷ a ∷ b ∷ s) =
    let undecoded = plus c ∷ url_decode (a ∷ b ∷ s) in
    let decoded : Bytes = elim (hex_pair a b) [ none ↦ undecoded | some h ↦ h ∷ url_decode s ] in
    if c == b'%' then decoded else undecoded

-- what stands before the next `&`
unfoldable pub until_and : Bytes → Bytes
until_and [] = []
until_and (c ∷ s) = let rest = until_and s in if c == b'&' then [] else c ∷ rest

-- the search from a position, which is the first one or behind a `&` or neither
unfoldable pub key_from : Bool → Bytes → Bytes
unfolding literal url_decode until_and text
key_from at_field [] = []
key_from at_field (c ∷ s) =
    let rest = key_from (c == b'&') s in
    let here : Bytes = elim (literal (text "key=") (c ∷ s)) [
      | none ↦ rest
      | some r ↦ url_decode (until_and r)
    ] in
    if at_field then here else rest

unfoldable pub extract_key_from_query : Bytes → Bytes
unfolding key_from
extract_key_from_query query = key_from true query
