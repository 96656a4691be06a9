-- ===== src/Json/Quote.antt =====
-- src/protocol/response.cpp: quoted strings and the two responses.
use gate_keeper.Base.{ℕ, ◌/◌, ◌%◌, [], ◌∷◌, ◌++◌, Bytes, text, ltb, ◌==◌, if◌then◌else◌, get_or}

pub record Error : Type 0 where
  pub code : Bytes
  pub message : Bytes

abbrev pub hex_char : ℕ → ℕ
unfolding text
hex_char n = get_or (text "0123456789abcdef") n 0

-- the cases of the loop of `QuoteJson`
unfoldable pub quote_char : ℕ → Bytes
unfolding text hex_char
quote_char c =
    if c == b'"'
    then b'\\' ∷ b'"' ∷ []
    else if c == b'\\'
    then b'\\' ∷ b'\\' ∷ []
    else if c == 10
    then b'\\' ∷ b'n' ∷ []
    else if c == 13
    then b'\\' ∷ b'r' ∷ []
    else if c == 9
    then b'\\' ∷ b't' ∷ []
    else if c == 8
    then b'\\' ∷ b'b' ∷ []
    else if c == 12
    then b'\\' ∷ b'f' ∷ []
    else if ltb c 32
    then text "\\u00" ++ (hex_char (c / 16) ∷ hex_char (c % 16) ∷ [])
    else c ∷ []

unfoldable pub quote_body : Bytes → Bytes
unfolding quote_char
quote_body [] = []
quote_body (c ∷ s) = quote_char c ++ quote_body s

unfoldable pub quote_json : Bytes → Bytes
unfolding quote_body
quote_json s = b'"' ∷ (quote_body s ++ (b'"' ∷ []))

unfoldable pub encode_success_response : Bytes → Bytes → Bytes
unfolding quote_json text
encode_success_response id result_json =
    text "{\"id\":"
    ++ (quote_json id ++ (text ",\"ok\":true,\"result\":" ++ (result_json ++ text "}")))

unfoldable pub encode_error_response : Bytes → Error → Bytes
unfolding quote_json text
encode_error_response id error =
    text "{\"id\":"
    ++ (quote_json id
        ++ (text ",\"ok\":false,\"error\":{\"code\":"
            ++ (quote_json error.code
                ++ (text ",\"message\":" ++ (quote_json error.message ++ text "}}")))))
