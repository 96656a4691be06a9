-- ===== src/Storage/Decimal/RoundTrip.antt =====
-- What `std::to_string` prints, `std::stoull` and `std::stoll` read back (memory_store.cpp).
use gate_keeper.Base.{
  ℕ, zero, suc, ◌+◌, ◌-◌, ◌*◌, ◌/◌, ◌%◌, ◌^◌, ◌≤◌, ◌<◌, ◌≡◌, refl, ap, ℤ, pos, negsuc, true, false,
  none, some, [], ◌∷◌, ◌++◌, arith, Bytes, ltb, ◌==◌, if◌then◌else◌, Bool-cases, inl, inr, length,
  length-append,
}
use gate_keeper.Storage.Decimal.{
  u64_mod, digits, to_string, to_string_ℤ, skip_space, read_digits, read_sign, read_integer, stoull,
  stoll,
}

abbrev AllDigits : Bytes → Type 0
AllDigits [] = Unit
AllDigits (c ∷ s) = (48 ≤ c) × (c ≤ 57) × AllDigits s

AllDigits-append : (a b : Bytes) → AllDigits a → AllDigits b → AllDigits (a ++ b)
AllDigits-append [] b h k = k
AllDigits-append (c ∷ a) b h k = (h.0, h.1, AllDigits-append a b h.2 k)

value_of : Bytes → ℕ → ℕ
value_of [] acc = acc
value_of (c ∷ s) acc = value_of s (acc * 10 + (c - 48))

value_of-append : (a b : Bytes) (acc : ℕ) → value_of (a ++ b) acc ≡ value_of b (value_of a acc)
unfolding value_of
value_of-append [] b acc = refl
value_of-append (c ∷ a) b acc = value_of-append a b (acc * 10 + (c - 48))

read_digits-all :
    (s : Bytes) (acc n : ℕ) → AllDigits s → read_digits s acc n ≡ (value_of s acc, n + length s)
unfolding read_digits value_of
read_digits-all [] acc n h = ap (λ (m : ℕ). (acc, m)) (omega arith)
read_digits-all (c ∷ s) acc n h =
    ground (arith, read_digits-all s (acc * 10 + (c - 48)) (n + 1) h.2)

digits-AllDigits : (fuel n : ℕ) → AllDigits (digits fuel n)
unfolding digits
digits-AllDigits zero n = omega arith
digits-AllDigits (suc fuel) n =
    let rest =
      AllDigits-append (digits fuel (n / 10)) ((48 + n % 10) ∷ []) (digits-AllDigits fuel (n / 10))
        (omega arith) in
    elim (Bool-cases (ltb n 10)) [ inl e ↦ rw e (omega arith) | inr e ↦ rw e rest ]

value_of-digits : (fuel n : ℕ) → n ≤ fuel → value_of (digits fuel n) 0 ≡ n
unfolding digits value_of
value_of-digits zero n h = omega arith
value_of-digits (suc fuel) n h = elim (Bool-cases (ltb n 10)) [
  | inl e ↦ rw e (ground arith)
  | inr e ↦
      rw (e, value_of-append (digits fuel (n / 10)) ((48 + n % 10) ∷ []) 0)
        (ground (arith, value_of-digits fuel (n / 10)))
]

-- A printed number starts with a digit.
pub record Printed (s : Bytes) (n : ℕ) : Type 0 where
  pub head : ℕ
  pub rest : Bytes
  pub cons : s ≡ head ∷ rest
  pub lower : 48 ≤ head
  pub upper : head ≤ 57
  pub some_digit : 0 < length s
  pub reads : (m : ℕ) → read_digits s 0 m ≡ (n, m + length s)

nonempty_digits : (fuel n : ℕ) → 0 < length (digits fuel n)
unfolding digits
nonempty_digits zero n = omega arith
nonempty_digits (suc fuel) n =
    ground (arith, length-append (digits fuel (n / 10)) ((48 + n % 10) ∷ []))

value_of-Printed : (s : Bytes) (n : ℕ) → AllDigits s → 0 < length s → value_of s 0 ≡ n → Printed s n
value_of-Printed [] n h more v = absurd (omega arith)
value_of-Printed (c ∷ s) n h more v = record {
  some_digit = more;
  head = c;
  rest = s;
  cons = refl;
  lower = h.0;
  upper = h.1;
  reads = λ m. rw (← v) (read_digits-all (c ∷ s) 0 m h);
}

pub to_string-Printed : (n : ℕ) → Printed (to_string n) n
unfolding to_string
to_string-Printed n =
    value_of-Printed (digits n n) n (digits-AllDigits n n) (nonempty_digits n n)
      (value_of-digits n n (omega arith))

skip_space-digit : (c : ℕ) (s : Bytes) (n : ℕ) → 48 ≤ c → c ≤ 57 → skip_space (c ∷ s) n ≡ (c ∷ s, n)
unfolding skip_space
skip_space-digit c s n h k = ground arith

read_sign-digit :
    (c : ℕ) (s : Bytes) (n : ℕ) → 48 ≤ c → c ≤ 57 → read_sign (c ∷ s) n ≡ (false, c ∷ s, n)
unfolding read_sign
read_sign-digit c s n h k = ground arith

-- With no white space and no sign.
read_integer_cases :
    (s : Bytes)
    → skip_space s 0 ≡ (s, 0)
    → read_sign s 0 ≡ (false, s, 0)
    → read_integer s ≡ (
        if (read_digits s 0 0).1 == 0
        then none
        else some (false, (read_digits s 0 0).0, (read_digits s 0 0).1))
unfolding read_integer
read_integer_cases s skipped signed = rw (skipped, read_integer, signed)

read_integer-Printed :
    (s : Bytes) (n : ℕ) → Printed s n → read_integer s ≡ some (false, n, length s)
read_integer-Printed s n p =
    let skipped : skip_space s 0 ≡ (s, 0) =
      rw p.cons (skip_space-digit p.head p.rest 0 p.lower p.upper) in
    let signed : read_sign s 0 ≡ (false, s, 0) =
      rw p.cons (read_sign-digit p.head p.rest 0 p.lower p.upper) in
    rw (read_integer_cases s skipped signed, p.reads 0) (ground (arith, p.some_digit))

read_integer-minus :
    (s : Bytes) (n : ℕ) → Printed s n → read_integer (b'-' ∷ s) ≡ some (true, n, suc (length s))
unfolding read_integer
read_integer-minus s n p = rw (p.reads 1) (ground (arith, p.some_digit))

-- `std::stoull` reads back what `std::to_string` prints of a 64-bit number, to its last character.
pub stoull-to_string : (n : ℕ) → n < u64_mod → stoull (to_string n) ≡ some (n, length (to_string n))
unfolding stoull
stoull-to_string n h =
    rw (read_integer-Printed (to_string n) n (to_string-Printed n), stoull) (ground arith)

-- The `std::int64_t` values.
abbrev pub IsInt64 : ℤ → Type 0
IsInt64 (pos n) = n < 2 ^ 63
IsInt64 (negsuc n) = n < 2 ^ 63

-- `std::stoll` reads back what `std::to_string` prints of a signed 64-bit number, to its last
-- character.
pub stoll-to_string_ℤ :
    (a : ℤ) → IsInt64 a → stoll (to_string_ℤ a) ≡ some (a, length (to_string_ℤ a))
unfolding stoll to_string_ℤ
stoll-to_string_ℤ (pos n) h =
    rw (read_integer-Printed (to_string n) n (to_string-Printed n), stoll) (ground arith)
stoll-to_string_ℤ (negsuc n) h =
    rw (read_integer-minus (to_string (suc n)) (suc n) (to_string-Printed (suc n)), stoll)
      (ground arith)
