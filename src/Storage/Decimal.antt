-- ===== src/Storage/Decimal.antt =====
-- `std::to_string`, `std::stoull` and `std::stoll` as src/storage/memory_store.cpp uses them. An
-- exception (`invalid_argument`, `out_of_range`) is `none`; the parsers give the value and the
-- number of characters read. The fuel of `digits` is the number itself, of which each round leaves a
-- tenth.
pub mod RoundTrip
use gate_keeper.Base.{
  ℕ, zero, suc, ◌+◌, ◌-◌, ◌*◌, ◌/◌, ◌%◌, ◌^◌, ℤ, pos, negsuc, Bool, true, false, ◌&&◌, ◌||◌, Option,
  none, some, List, [], ◌∷◌, ◌++◌, Bytes, ltb, leb, ◌==◌, if◌then◌else◌,
}

abbrev pub u64_mod : ℕ
u64_mod = 2 ^ 64

-- the sum of two `std::uint64_t`
abbrev pub add64 : ℕ → ℕ → ℕ
add64 a b = (a + b) % u64_mod

unfoldable pub digits : ℕ → ℕ → Bytes
digits zero n = (48 + n % 10) ∷ []
digits (suc fuel) n =
    let shorter = digits fuel (n / 10) ++ (48 + n % 10) ∷ [] in
    if ltb n 10 then (48 + n % 10) ∷ [] else shorter

unfoldable pub to_string : ℕ → Bytes
unfolding digits
to_string n = digits n n

unfoldable pub to_string_ℤ : ℤ → Bytes
unfolding to_string
to_string_ℤ (pos n) = to_string n
to_string_ℤ (negsuc n) = b'-' ∷ to_string (suc n)

abbrev pub is_digit : ℕ → Bool
is_digit c = leb 48 c && leb c 57

-- the white space of the C locale
abbrev pub is_space : ℕ → Bool
is_space c = c == 32 || (leb 9 c && leb c 13)

-- the white space at the front: what follows it, and its length
unfoldable pub skip_space : Bytes → ℕ → Bytes × ℕ
skip_space [] n = ([], n)
skip_space (c ∷ s) n = if is_space c then skip_space s (n + 1) else (c ∷ s, n)

-- the run of digits at the front, onto a value and a count
unfoldable pub read_digits : Bytes → ℕ → ℕ → ℕ × ℕ
read_digits [] value n = (value, n)
read_digits (c ∷ s) value n =
    if is_digit c then read_digits s (value * 10 + (c - 48)) (n + 1) else (value, n)

-- an optional sign: whether it is `-`, what follows it, and its length
unfoldable pub read_sign : Bytes → ℕ → Bool × Bytes × ℕ
read_sign [] n = (false, [], n)
read_sign (c ∷ s) n =
    if c == b'-'
    then (true, s, n + 1)
    else if c == b'+'
    then (false, s, n + 1)
    else (false, c ∷ s, n)

-- a sign, an absolute value and the number of characters read, unless there are no digits
unfoldable pub read_integer : Bytes → Option (Bool × ℕ × ℕ)
unfolding skip_space read_sign read_digits
read_integer s =
    let (s', spaces) = skip_space s 0 in
    let (negative, s'', before) = read_sign s' spaces in
    let (value, n) = read_digits s'' 0 before in
    if n == before then none else some (negative, value, n)

unfoldable pub stoull : Bytes → Option (ℕ × ℕ)
unfolding read_integer
stoull s = elim (read_integer s) [
  | none ↦ none
  | some (negative, value, n) ↦
      if ltb value u64_mod
      then some (if negative then (u64_mod - value) % u64_mod else value, n)
      else none
]

abbrev pub negate : ℕ → ℤ
negate zero = pos 0
negate (suc n) = negsuc n

unfoldable pub stoll : Bytes → Option (ℤ × ℕ)
unfolding read_integer
stoll s = elim (read_integer s) [
  | none ↦ none
  | some (negative, value, n) ↦
      if negative
      then (if leb value (2 ^ 63) then some (negate value, n) else none)
      else if ltb value (2 ^ 63)
      then some (pos value, n)
      else none
]
