-- ===== src/Json.antt =====
-- `JsonReader` of include/gatekeeper/protocol/json_reader.h and src/protocol/json_reader.cpp. A reader's
-- state is what stands from `pos_` on; `Fail` throws `std::invalid_argument` with a message. A loop on
-- fuel that has none left is `unfinished`, which no call of the source is.
pub mod Quote
pub mod Strings
pub mod Numbers
pub mod Fuel
pub mod Arrays
use Prim.Native.Nat.{bit_or, bit_and}
use gate_keeper.Base.{
  ℕ, zero, suc, ◌+◌, ◌-◌, ◌*◌, ◌/◌, ◌%◌, ◌^◌, ℤ, Bool, true, false, ◌&&◌, ◌||◌, not, Option, none,
  some, List, [], ◌∷◌, ◌++◌, Bytes, text, ltb, leb, ◌==◌, if◌then◌else◌, length,
}
use gate_keeper.Storage.Decimal.{u64_mod, is_digit, is_space}
use gate_keeper.Storage.Ttl.{to_int64}

pub data Read {ℓ} (A : Type ℓ) : Type ℓ where
  done : A → Bytes → Read A
  fail : (message : Bytes) → Read A
  unfinished : Read A

abbrev pub Reader {ℓ} : Type ℓ → Type ℓ
Reader A = Bytes → Read A

abbrev pub continue {ℓ κ} : {A : Type ℓ} {B : Type κ} → Read A → (A → Reader B) → Read B
continue (done a s) f = f a s
continue (fail e) f = fail e
continue unfinished f = unfinished

infixl 5 ◌>>=◌ ◌>>◌
abbrev pub ◌>>=◌ {ℓ κ} : {A : Type ℓ} {B : Type κ} → Reader A → (A → Reader B) → Reader B
◌>>=◌ m f s = continue (m s) f

abbrev pub ◌>>◌ {κ} : {B : Type κ} → Reader (Unit {0}) → Reader B → Reader B
m >> k = m >>= λ _. k

abbrev pub pure {ℓ} : {A : Type ℓ} → A → Reader A
pure a s = done a s

abbrev pub throw {ℓ} : {A : Type ℓ} → Bytes → Reader A
throw e s = fail e

-- `what()` of an exception with a message: a C string, which ends at the first NUL
unfoldable pub what : Bytes → Bytes
what [] = []
what (c ∷ s) = let rest = what s in if c == 0 then [] else c ∷ rest

unfoldable pub skip : Bytes → Bytes
skip [] = []
skip (c ∷ s) = if is_space c then skip s else c ∷ s

-- the next character, or NUL at the end
abbrev pub first : Bytes → ℕ
first [] = 0
first (c ∷ s) = c

unfoldable pub peek : Reader ℕ
unfolding skip
peek s = done (first (skip s)) (skip s)

abbrev pub take_front : ℕ → Reader Bool
take_front c [] = done false []
take_front c (x ∷ s) = if x == c then done true s else done false (x ∷ s)

unfoldable pub take_char : ℕ → Reader Bool
unfolding skip
take_char c s = take_front c (skip s)

unfoldable pub expect : ℕ → Reader (Unit {0})
unfolding take_char text
expect c = do
  taken ← take_char c
  if taken then pure tt else throw (text "expected '" ++ c ∷ b'\'' ∷ [])

abbrev pub end_of : Reader (Unit {0})
end_of [] = done tt []
end_of (c ∷ s) = fail (text "unexpected trailing characters")

unfoldable pub end : Reader (Unit {0})
unfolding skip text
end s = end_of (skip s)

unfoldable pub hex_digit : ℕ → Option ℕ
hex_digit c =
    if leb b'0' c && leb c b'9'
    then some (c - b'0')
    else if leb b'a' c && leb c b'f'
    then some (c - b'a' + 10)
    else if leb b'A' c && leb c b'F'
    then some (c - b'A' + 10)
    else none

abbrev pub or_fail {ℓ κ} : {A : Type ℓ} {B : Type κ} → Bytes → Option A → (A → Read B) → Read B
or_fail message none k = fail message
or_fail message (some a) k = k a

-- the loop of `Hex`, with the digits that are left to read
unfoldable pub hex_loop : ℕ → ℕ → Reader ℕ
unfolding text
hex_loop zero value s = done value s
hex_loop (suc n) value [] = fail (text "incomplete unicode escape")
hex_loop (suc n) value (c ∷ s) =
    or_fail (text "invalid hex in unicode escape") (hex_digit c) λ d. hex_loop n (value * 16 + d) s

abbrev pub hex : Reader ℕ
hex = hex_loop 4 0

-- the bytes that `AppendUtf8` appends
unfoldable pub utf8 : ℕ → Bytes
utf8 code_point =
    if ltb code_point 0x80
    then code_point ∷ []
    else if ltb code_point 0x800
    then bit_or 0xC0 (code_point / 2 ^ 6) ∷ bit_or 0x80 (bit_and code_point 0x3F) ∷ []
    else if ltb code_point 0x10000
    then bit_or 0xE0 (code_point / 2 ^ 12)
      ∷ bit_or 0x80 (bit_and (code_point / 2 ^ 6) 0x3F)
      ∷ bit_or 0x80 (bit_and code_point 0x3F)
      ∷ []
    else bit_or 0xF0 (code_point / 2 ^ 18)
      ∷ bit_or 0x80 (bit_and (code_point / 2 ^ 12) 0x3F)
      ∷ bit_or 0x80 (bit_and (code_point / 2 ^ 6) 0x3F)
      ∷ bit_or 0x80 (bit_and code_point 0x3F)
      ∷ []

abbrev pub is_high_surrogate : ℕ → Bool
is_high_surrogate cp = leb 0xD800 cp && leb cp 0xDBFF

-- the second half of a surrogate pair
unfoldable pub low_surrogate : ℕ → Reader Bytes
unfolding utf8 text
low_surrogate cp (a ∷ b ∷ s) =
    if not (a == b'\\') || not (b == b'u')
    then fail (text "missing low surrogate in unicode escape")
    else continue (hex s) λ low r.
      if ltb low 0xDC00 || ltb 0xDFFF low
      then fail (text "invalid low surrogate in unicode escape")
      else done (utf8 (0x10000 + (cp - 0xD800) * 2 ^ 10 + (low - 0xDC00))) r
low_surrogate cp s = fail (text "missing low surrogate in unicode escape")

unfoldable pub unicode : Reader Bytes
unicode = do cp ← hex; if is_high_surrogate cp then low_surrogate cp else pure (utf8 cp)

-- what stands behind a backslash, decoded
unfoldable pub escape : Reader Bytes
unfolding text
escape [] = fail (text "incomplete escape sequence")
escape (e ∷ s) =
    if e == b'"'
    then done (b'"' ∷ []) s
    else if e == b'\\'
    then done (b'\\' ∷ []) s
    else if e == b'/'
    then done (b'/' ∷ []) s
    else if e == b'b'
    then done (8 ∷ []) s
    else if e == b'f'
    then done (12 ∷ []) s
    else if e == b'n'
    then done (10 ∷ []) s
    else if e == b'r'
    then done (13 ∷ []) s
    else if e == b't'
    then done (9 ∷ []) s
    else if e == b'u'
    then unicode s
    else fail (text "invalid escape sequence: \\" ++ e ∷ [])

-- The loop of `String`, on fuel: a round reads one character at least, so that as many rounds as
-- there are characters are enough.
unfoldable pub string_loop : ℕ → Bytes → Reader Bytes
unfolding text
string_loop fuel out [] = fail (text "unterminated string")
string_loop zero out (c ∷ s) = unfinished
string_loop (suc fuel) out (c ∷ s) =
    let escaped = continue (escape s) (λ bytes r. string_loop fuel (out ++ bytes) r) in
    let more = string_loop fuel (out ++ c ∷ []) s in
    if c == b'"' then done out s else if c == b'\\' then escaped else more

unfoldable pub string : Reader Bytes
unfolding expect string_loop
string = do expect b'"'; λ s. string_loop (length s) [] s

-- the digits at the front, onto a `std::uint64_t`
unfoldable pub number_loop : ℕ → Reader ℕ
number_loop val [] = done val []
number_loop val (c ∷ s) =
    let more = number_loop ((val * 10 + (c - b'0')) % u64_mod) s in
    if is_digit c then more else done val (c ∷ s)

abbrev pub number_at : Reader ℕ
number_at s = if is_digit (first s) then number_loop 0 s else fail (text "expected unsigned number")

unfoldable pub unsigned_number : Reader ℕ
unfolding skip number_loop text
unsigned_number s = number_at (skip s)

abbrev pub signed_at : Reader ℤ
signed_at [] = fail (text "expected signed number")
signed_at (c ∷ s) =
    if c == b'-'
    then continue (unsigned_number s) (λ u r. done (to_int64 ((u64_mod - u) % u64_mod)) r)
    else continue (unsigned_number (if c == b'+' then s else c ∷ s)) (λ u r. done (to_int64 u) r)

-- The negation of the least `std::int64_t` is itself here.
unfoldable pub signed_number : Reader ℤ
unfolding skip unsigned_number text
signed_number s = signed_at (skip s)

-- what follows a literal, if it stands at the front
unfoldable pub literal : Bytes → Bytes → Option Bytes
literal [] s = some s
literal (x ∷ p) [] = none
literal (x ∷ p) (c ∷ s) = if c == x then literal p s else none

abbrev pub boolean_at : Reader Bool
boolean_at s = elim (literal (text "true") s) [
  | some r ↦ done true r
  | none ↦ elim (literal (text "false") s) [
    | some r ↦ done false r
    | none ↦ fail (text "expected boolean value")
  ]
]

unfoldable pub boolean : Reader Bool
unfolding skip literal text
boolean s = boolean_at (skip s)

-- the loop of `StringArray`, on fuel for one round and one for each character
unfoldable pub array_loop : ℕ → List Bytes → Reader (List Bytes)
unfolding string take_char expect text
array_loop zero arr s = unfinished
array_loop (suc fuel) arr s = continue (string s) λ x r. continue (take_char b']' r) λ closed r'.
    let more = continue (expect b',' r') (λ _ r''. array_loop fuel (arr ++ x ∷ []) r'') in
    if closed then done (arr ++ x ∷ []) r' else more

unfoldable pub string_array : Reader (List Bytes)
unfolding array_loop expect take_char
string_array = do
  expect b'['
  closed ← take_char b']'
  if closed then pure [] else λ s. array_loop (suc (length s)) [] s
