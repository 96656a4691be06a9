-- ===== src/Json/Strings.antt =====
-- `QuoteJson` (response.cpp) and `JsonReader::String` (json_reader.cpp), together.
use gate_keeper.Base.{
  ℕ, zero, suc, ◌+◌, ◌*◌, ◌/◌, ◌%◌, ◌≤◌, ◌<◌, ◌≡◌, refl, sym, ◌∙◌, ap, subst, Bool, Bool-cases, inl,
  inr, true, false, none, some, [], ◌∷◌, ◌++◌, Bytes, text, ltb, ◌==◌, length, length-append, arith,
  holds_from, at-holds_from,
}
use mathlib.Core.List.{append_assoc, append-nil}
use gate_keeper.Json.{done, hex_digit, hex_loop, escape, unicode, string_loop, string, utf8}
use gate_keeper.Json.Quote.{quote_char, quote_body, quote_json, hex_char}

abbrev reads_back : ℕ → Bool
reads_back n = elim (hex_digit (hex_char n)) [ none ↦ false | some d ↦ d == n ]

reads_back_table : holds_from reads_back 0 16 ≡ true
unfolding holds_from hex_digit text
reads_back_table = refl

pub hex_digit-hex_char : (n : ℕ) → n < 16 → hex_digit (hex_char n) ≡ some n
hex_digit-hex_char n h = ground (arith, at-holds_from reads_back 16 0 n h reads_back_table)

hex_loop-quoted :
    (c : ℕ) (s : Bytes)
    → c < 32
    → hex_loop 4 0 (48 ∷ 48 ∷ hex_char (c / 16) ∷ hex_char (c % 16) ∷ s) ≡ done c s
unfolding hex_loop
hex_loop-quoted c s h =
    let a = hex_digit-hex_char (c / 16) (omega arith) in
    let b = hex_digit-hex_char (c % 16) (omega arith) in
    let zeros : hex_digit 48 ≡ some 0 = unfold hex_digit in refl in
    let whole : (c / 16) * 16 + c % 16 ≡ c = omega arith in
    rw (zeros, hex_loop, a, b) (ap (λ x. done x s) (omega (arith, whole)))

-- What `QuoteJson` writes for a character: a short escape, an escape of its code, or itself.
pub quote_char_cases :
    (P : ℕ → Bytes → Type 0)
    → P 34 (92 ∷ 34 ∷ [])
    → P 92 (92 ∷ 92 ∷ [])
    → P 10 (92 ∷ 110 ∷ [])
    → P 13 (92 ∷ 114 ∷ [])
    → P 9 (92 ∷ 116 ∷ [])
    → P 8 (92 ∷ 98 ∷ [])
    → P 12 (92 ∷ 102 ∷ [])
    → ((c : ℕ) → c < 32 → P c (92 ∷ 117 ∷ 48 ∷ 48 ∷ hex_char (c / 16) ∷ hex_char (c % 16) ∷ []))
    → ((c : ℕ) → (c == 34) ≡ false → (c == 92) ≡ false → 32 ≤ c → P c (c ∷ []))
    → (c : ℕ) → P c (quote_char c)
unfolding quote_char
quote_char_cases P quote backslash line ret tab back page code plain c =
    let case = λ (k : ℕ) (y : (c == k) ≡ true) (p : P k (quote_char k)).
      let e : k ≡ c = ground arith in subst (λ x. P x (quote_char x)) e p in
    elim (Bool-cases (c == 34)) [
      | inl y ↦ case 34 y quote
      | inr n0 ↦ elim (Bool-cases (c == 92)) [
        | inl y ↦ case 92 y backslash
        | inr n1 ↦ elim (Bool-cases (c == 10)) [
          | inl y ↦ case 10 y line
          | inr n2 ↦ elim (Bool-cases (c == 13)) [
            | inl y ↦ case 13 y ret
            | inr n3 ↦ elim (Bool-cases (c == 9)) [
              | inl y ↦ case 9 y tab
              | inr n4 ↦ elim (Bool-cases (c == 8)) [
                | inl y ↦ case 8 y back
                | inr n5 ↦ elim (Bool-cases (c == 12)) [
                  | inl y ↦ case 12 y page
                  | inr n6 ↦ elim (Bool-cases (ltb c 32)) [
                    | inl y ↦ rw (n0, n1, n2, n3, n4, n5, n6, y) (code c (ground arith))
                    | inr n7 ↦ rw (n0, n1, n2, n3, n4, n5, n6, n7) (plain c n0 n1 (ground arith))
                  ]
                ]
              ]
            ]
          ]
        ]
      ]
    ]

unicode-quoted :
    (c : ℕ) (s : Bytes)
    → c < 32
    → unicode (48 ∷ 48 ∷ hex_char (c / 16) ∷ hex_char (c % 16) ∷ s) ≡ done (c ∷ []) s
unfolding unicode utf8
unicode-quoted c s h = rw (hex_loop-quoted c s h) (ground arith)

round :
    (fuel : ℕ) (out s : Bytes) (c : ℕ)
    → string_loop (suc fuel) out (quote_char c ++ s) ≡ string_loop fuel (out ++ c ∷ []) s
unfolding string_loop escape
round fuel out s =
    quote_char_cases
      (λ c q. string_loop (suc fuel) out (q ++ s) ≡ string_loop fuel (out ++ c ∷ []) s) refl refl
      refl refl refl refl refl (λ c h. rw (unicode-quoted c s h) refl)
      (λ c n0 n1 h. rw (n0, n1) refl)

string_loop-quote_body :
    (fuel : ℕ) (out s rest : Bytes)
    → length s < fuel
    → string_loop fuel out (quote_body s ++ (b'"' ∷ rest)) ≡ done (out ++ s) rest
unfolding quote_body
string_loop-quote_body zero out s rest h = absurd (omega arith)
string_loop-quote_body (suc fuel) out [] rest h =
    unfold string_loop in ap (λ o. done o rest) (sym (append-nil out))
string_loop-quote_body (suc fuel) out (c ∷ s) rest h =
    ap (string_loop (suc fuel) out) (append_assoc (quote_char c) (quote_body s) (b'"' ∷ rest))
    ∙ round fuel out (quote_body s ++ (b'"' ∷ rest)) c
    ∙ string_loop-quote_body fuel (out ++ c ∷ []) s rest (omega arith)
    ∙ ap (λ o. done o rest) (append_assoc out (c ∷ []) s)

length-quote_char : (c : ℕ) → 1 ≤ length (quote_char c)
length-quote_char =
    quote_char_cases (λ c q. 1 ≤ length q) (omega arith) (omega arith) (omega arith) (omega arith)
      (omega arith) (omega arith) (omega arith) (λ c h. omega arith) (λ c n0 n1 h. omega arith)

pub length-quote_body : (s : Bytes) → length s ≤ length (quote_body s)
unfolding quote_body
length-quote_body [] = omega arith
length-quote_body (c ∷ s) =
    omega
      (arith, length-append (quote_char c) (quote_body s), length-quote_char c, length-quote_body s)

-- `JsonReader::String` reads back what `QuoteJson` writes, whatever the string and the text behind it.
pub string-quote_json : (s rest : Bytes) → string (quote_json s ++ rest) ≡ done s rest
unfolding string quote_json
string-quote_json s rest =
    let text_of = quote_body s ++ (b'"' ∷ rest) in
    let size : length s < length text_of =
      omega (arith, length-quote_body s, length-append (quote_body s) (b'"' ∷ rest)) in
    ap (λ t. string_loop (length t) [] t) (append_assoc (quote_body s) (b'"' ∷ []) rest)
    ∙ string_loop-quote_body (length text_of) [] s rest size
