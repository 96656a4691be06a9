-- ===== src/Json/Numbers.antt =====
-- `std::to_string` and the numbers of json_reader.cpp, together.
use gate_keeper.Base.{
  ℕ, zero, suc, ◌+◌, ◌-◌, ◌*◌, ◌/◌, ◌%◌, ◌^◌, ◌≤◌, ◌<◌, ◌≡◌, refl, ◌∙◌, ap, ℤ, pos, negsuc,
  Bool-cases, inl, inr, true, false, [], ◌∷◌, ◌++◌, Bytes, ltb, ◌==◌, arith,
}
use mathlib.Core.List.{append_assoc}
use gate_keeper.Storage.Ttl.{to_int64}
use gate_keeper.Json.{
  done, continue, first, number_loop, number_at, skip, unsigned_number, signed_at, signed_number,
}
use gate_keeper.Storage.Decimal.{u64_mod, digits, to_string, to_string_ℤ, is_digit}
use gate_keeper.Storage.Decimal.RoundTrip.{IsInt64, to_string-Printed}

to_int64_negative : (n : ℕ) → n < 2 ^ 63 → to_int64 (2 ^ 64 - 1 - n) ≡ negsuc n
to_int64_negative n h =
    let big : ltb (2 ^ 64 - 1 - n) (2 ^ 63) ≡ false = ground arith in
    let back : 2 ^ 64 - (2 ^ 64 - 1 - n) - 1 ≡ n = omega arith in rw (big, back) refl

number_loop-end :
    (rest : Bytes) (n : ℕ) → is_digit (first rest) ≡ false → number_loop n rest ≡ done n rest
unfolding number_loop
number_loop-end [] n h = refl
number_loop-end (c ∷ rest) n h = rw h refl

number_loop-digit :
    (v d : ℕ) (rest : Bytes)
    → d < 10
    → v * 10 + d < u64_mod
    → number_loop v ((48 + d) ∷ rest) ≡ number_loop (v * 10 + d) rest
unfolding number_loop
number_loop-digit v d rest h small =
    let digit : is_digit (48 + d) ≡ true = ground arith in
    let value : (v * 10 + (48 + d - 48)) % u64_mod ≡ v * 10 + d = omega arith in
    rw (digit, value) refl

number_loop-digits :
    (fuel n : ℕ) (rest : Bytes)
    → n ≤ fuel
    → n < u64_mod
    → number_loop 0 (digits fuel n ++ rest) ≡ number_loop n rest
unfolding digits
number_loop-digits zero n rest h small =
    number_loop-digit 0 (n % 10) rest (omega arith) (omega arith)
    ∙ ap (λ v. number_loop v rest) (omega arith)
number_loop-digits (suc fuel) n rest h small = elim (Bool-cases (ltb n 10)) [
  | inl e ↦
      let below : n < 10 = ground arith in
      rw e (
        number_loop-digit 0 (n % 10) rest (omega arith) (omega arith)
        ∙ ap (λ v. number_loop v rest) (omega arith))
  | inr e ↦
      let above : 10 ≤ n = ground arith in
      rw e (
        ap (number_loop 0) (append_assoc (digits fuel (n / 10)) ((48 + n % 10) ∷ []) rest)
        ∙ number_loop-digits fuel (n / 10) ((48 + n % 10) ∷ rest) (omega arith) (omega arith)
        ∙ number_loop-digit (n / 10) (n % 10) rest (omega arith) (omega arith)
        ∙ ap (λ v. number_loop v rest) (omega arith))
]

-- the same behind no white space
pub number_loop-to_string :
    (n : ℕ) (rest : Bytes)
    → n < u64_mod
    → is_digit (first rest) ≡ false
    → number_loop 0 (to_string n ++ rest) ≡ done n rest
unfolding to_string
number_loop-to_string n rest small stop =
    number_loop-digits n n rest (omega arith) small ∙ number_loop-end rest n stop

-- a printed number as its first digit and the rest
pub number_head : (n : ℕ) → (c : ℕ) × (s : Bytes) × (to_string n ≡ c ∷ s) × (48 ≤ c) × (c ≤ 57)
number_head n = let p = to_string-Printed n in (p.head, p.rest, p.cons, p.lower, p.upper)

skip-digit : (c : ℕ) (s : Bytes) → 48 ≤ c → c ≤ 57 → skip (c ∷ s) ≡ c ∷ s
unfolding skip
skip-digit c s h k = ground arith

-- Behind white space or none, `UnsignedNumber` reads back what `std::to_string` prints of a
-- `std::uint64_t`.
pub unsigned_number-to_string :
    (n : ℕ) (rest : Bytes)
    → n < u64_mod
    → is_digit (first rest) ≡ false
    → unsigned_number (to_string n ++ rest) ≡ done n rest
unfolding unsigned_number
unsigned_number-to_string n rest small stop =
    let p = to_string-Printed n in
    let front : to_string n ++ rest ≡ p.head ∷ (p.rest ++ rest) = ap (λ s. s ++ rest) p.cons in
    let digit : is_digit p.head ≡ true = ground (arith, p.lower, p.upper) in
    let skipped : skip (to_string n ++ rest) ≡ to_string n ++ rest =
      rw front (skip-digit p.head (p.rest ++ rest) p.lower p.upper) in
    let started : number_at (to_string n ++ rest) ≡ number_loop 0 (to_string n ++ rest) =
      rw front (rw digit refl) in
    ap number_at skipped ∙ started ∙ number_loop-to_string n rest small stop

signed_at-digit :
    (c : ℕ) (s : Bytes)
    → 48 ≤ c
    → c ≤ 57
    → signed_at (c ∷ s) ≡ continue (unsigned_number (c ∷ s)) (λ u r. done (to_int64 u) r)
signed_at-digit c s h k =
    let minus : (c == b'-') ≡ false = ground arith in
    let plus : (c == b'+') ≡ false = ground arith in rw (minus, plus) refl

signed_number-minus :
    (s : Bytes)
    → signed_number (b'-' ∷ s)
      ≡ continue (unsigned_number s) (λ u r. done (to_int64 ((u64_mod - u) % u64_mod)) r)
unfolding signed_number skip
signed_number-minus s = refl

minus_text : (n : ℕ) → to_string_ℤ (negsuc n) ≡ b'-' ∷ to_string (suc n)
unfolding to_string_ℤ
minus_text n = refl

-- `SignedNumber` reads back what `std::to_string` prints of a `std::int64_t`.
pub signed_number-to_string_ℤ :
    (a : ℤ) (rest : Bytes)
    → IsInt64 a
    → is_digit (first rest) ≡ false
    → signed_number (to_string_ℤ a ++ rest) ≡ done a rest
signed_number-to_string_ℤ (pos n) rest h stop =
    let p = to_string-Printed n in
    let front : to_string n ++ rest ≡ p.head ∷ (p.rest ++ rest) = ap (λ s. s ++ rest) p.cons in
    let skipped : skip (to_string n ++ rest) ≡ to_string n ++ rest =
      rw front (skip-digit p.head (p.rest ++ rest) p.lower p.upper) in
    let started : signed_at (to_string n ++ rest)
        ≡ continue (unsigned_number (to_string n ++ rest)) (λ u r. done (to_int64 u) r) =
      rw front (signed_at-digit p.head (p.rest ++ rest) p.lower p.upper) in
    let small : ltb n (2 ^ 63) ≡ true = ground arith in
    unfold signed_number to_string_ℤ in
    ap signed_at skipped
    ∙ started
    ∙ ap (λ r. continue r (λ u r'. done (to_int64 u) r'))
        (unsigned_number-to_string n rest (omega arith) stop)
    ∙ rw small refl
signed_number-to_string_ℤ (negsuc n) rest h stop =
    let wrapped : (u64_mod - suc n) % u64_mod ≡ 2 ^ 64 - 1 - n = omega arith in
    ap (λ t. signed_number (t ++ rest)) (minus_text n)
    ∙ signed_number-minus (to_string (suc n) ++ rest)
    ∙ ap (λ r. continue r (λ u r'. done (to_int64 ((u64_mod - u) % u64_mod)) r'))
        (unsigned_number-to_string (suc n) rest (omega arith) stop)
    ∙ rw wrapped (ap (λ x. done x rest) (to_int64_negative n h))
