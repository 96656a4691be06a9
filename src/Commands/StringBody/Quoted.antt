-- ===== src/Commands/StringBody/Quoted.antt =====
-- `QuoteJson` (response.cpp) and the strings of string_body.cpp, together.
use gate_keeper.Base.{
  ℕ, zero, suc, ◌+◌, ◌*◌, ◌/◌, ◌%◌, ◌<◌, ◌≡◌, refl, sym, ◌∙◌, ap, false, some, [], ◌∷◌, ◌++◌, Bytes,
  ltb, length, length-append, arith,
}
use mathlib.Core.List.{append_assoc, append-nil}
use gate_keeper.Commands.StringBody.{hex_loop, unicode, escape, string_loop, string}
use gate_keeper.Json.{done, hex_digit, utf8}
use gate_keeper.Json.Quote.{quote_char, quote_body, quote_json, hex_char}
use gate_keeper.Json.Strings.{hex_digit-hex_char, quote_char_cases, length-quote_body}

unicode-quoted :
    (c : ℕ) (s : Bytes)
    → c < 32
    → unicode (48 ∷ 48 ∷ hex_char (c / 16) ∷ hex_char (c % 16) ∷ s) ≡ done (c ∷ []) s
unfolding unicode utf8 hex_loop
unicode-quoted c s h =
    let a = hex_digit-hex_char (c / 16) (omega arith) in
    let b = hex_digit-hex_char (c % 16) (omega arith) in
    let zeros : hex_digit 48 ≡ some 0 = unfold hex_digit in refl in
    let whole : (c / 16) * 16 + c % 16 ≡ c = omega arith in
    rw (zeros, hex_loop, a, b) (ground arith)

round :
    (fuel : ℕ) (out s : Bytes) (c : ℕ)
    → string_loop (suc fuel) out (quote_char c ++ s) ≡ string_loop fuel (out ++ c ∷ []) s
unfolding string_loop escape
round fuel out s =
    quote_char_cases
      (λ c q. string_loop (suc fuel) out (q ++ s) ≡ string_loop fuel (out ++ c ∷ []) s) refl refl
      refl refl refl refl refl (λ c h. rw (unicode-quoted c s h) refl)
      (λ c n0 n1 h. let printable : ltb c 32 ≡ false = ground arith in rw (n0, n1, printable) refl)

string_loop-quote_body :
    (fuel : ℕ) (out s rest : Bytes)
    → length s < fuel
    → string_loop fuel out (quote_body s ++ (b'"' ∷ rest)) ≡ done (out ++ s) rest
unfolding quote_body
string_loop-quote_body zero out s rest h = absurd (omega arith)
string_loop-quote_body (suc fuel) out [] rest h =
    unfold string_loop in ap (λ o. done o rest) (sym (append-nil out))
string_loop-quote_body (suc fuel) out (c ∷ s) rest h =
    ap (string_loop (suc fuel) out) (append_assoc (quote_char c) (quote_body s) (b'"' ∷ rest))
    ∙ round fuel out (quote_body s ++ (b'"' ∷ rest)) c
    ∙ string_loop-quote_body fuel (out ++ c ∷ []) s rest (omega arith)
    ∙ ap (λ o. done o rest) (append_assoc out (c ∷ []) s)

pub string-quote_json : (s rest : Bytes) → string (quote_json s ++ rest) ≡ done s rest
unfolding string quote_json
string-quote_json s rest =
    let text_of = quote_body s ++ (b'"' ∷ rest) in
    let size : length s < length text_of =
      omega (arith, length-quote_body s, length-append (quote_body s) (b'"' ∷ rest)) in
    ap (λ t. string_loop (length t) [] t) (append_assoc (quote_body s) (b'"' ∷ []) rest)
    ∙ string_loop-quote_body (length text_of) [] s rest size
