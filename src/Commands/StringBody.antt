-- ===== src/Commands/StringBody.antt =====
-- src/domain/kv/string_body.cpp: the reader of the bodies of `SET` and `GET`. A failure has one message.
pub mod Quoted
pub mod Members
use mathlib.Core.Option
use gate_keeper.Base.{
  ℕ, zero, suc, ◌+◌, ◌-◌, ◌*◌, ◌%◌, ◌^◌, Bool, true, false, ◌&&◌, ◌||◌, Option, none, some, List,
  [], ◌∷◌, ◌++◌, Bytes, text, same, ltb, leb, ◌==◌, if◌then◌else◌, length,
}
use gate_keeper.Json.{
  Read, Reader, done, fail, unfinished, continue, ◌>>=◌, ◌>>◌, pure, throw, first, take_front,
  or_fail, hex_digit, utf8, is_high_surrogate, literal, number_loop,
}
use gate_keeper.Storage.Decimal.{is_digit}

pub data BodyValue : Type 0 where
  string_value : (s : Bytes) → BodyValue
  flag : (b : Bool) → BodyValue
  number : (n : ℕ) → BodyValue

-- `std::map`: the members in the order of their names
abbrev pub StringBody : Type 0
StringBody = List (Bytes × BodyValue)

-- `std::less<std::string>`
unfoldable pub less : Bytes → Bytes → Bool
less [] [] = false
less [] (y ∷ b) = true
less (x ∷ a) [] = false
less (x ∷ a) (y ∷ b) = let rest = less a b in if x == y then rest else ltb x y

-- `emplace`, which changes nothing where the name is there
unfoldable pub emplace : Bytes → BodyValue → StringBody → Option StringBody
unfolding same less
emplace k v [] = some ((k, v) ∷ [])
emplace k v ((q, w) ∷ m) =
    let later = Option.map (λ m'. (q, w) ∷ m') (emplace k v m) in
    if same q k then none else if less k q then some ((k, v) ∷ (q, w) ∷ m) else later

unfoldable pub body_error : Bytes
unfolding text
body_error = text "body must contain unique string or boolean fields"

abbrev pub is_blank : ℕ → Bool
is_blank c = c == 32 || c == 9 || c == 10 || c == 13

unfoldable pub skip : Bytes → Bytes
skip [] = []
skip (c ∷ s) = if is_blank c then skip s else c ∷ s

unfoldable pub take_char : ℕ → Reader Bool
unfolding skip
take_char c s = take_front c (skip s)

unfoldable pub expect : ℕ → Reader (Unit {0})
unfolding take_char
expect c = do taken ← take_char c; if taken then pure tt else throw body_error

abbrev pub end_of : Reader (Unit {0})
end_of [] = done tt []
end_of (c ∷ s) = fail body_error

unfoldable pub end : Reader (Unit {0})
unfolding skip
end s = end_of (skip s)

unfoldable pub hex_loop : ℕ → ℕ → Reader ℕ
hex_loop zero value s = done value s
hex_loop (suc n) value [] = fail body_error
hex_loop (suc n) value (c ∷ s) = or_fail body_error (hex_digit c) λ d. hex_loop n (value * 16 + d) s

unfoldable pub low_surrogate : ℕ → Reader Bytes
unfolding literal utf8 hex_loop text
low_surrogate cp s = or_fail body_error (literal (text "\\u") s) λ r.
    continue (hex_loop 4 0 r) λ low r'.
      if ltb low 0xDC00 || ltb 0xDFFF low
      then fail body_error
      else done (utf8 (0x10000 + (cp - 0xD800) * 2 ^ 10 + low - 0xDC00)) r'

unfoldable pub unicode : Reader Bytes
unicode = do
  cp ← hex_loop 4 0
  if is_high_surrogate cp
      then low_surrogate cp
      else if leb 0xDC00 cp && leb cp 0xDFFF
      then throw body_error
      else pure (utf8 cp)

-- what stands behind a backslash, decoded
unfoldable pub escape : Reader Bytes
escape [] = fail body_error
escape (e ∷ s) =
    if e == b'"'
    then done (b'"' ∷ []) s
    else if e == b'\\'
    then done (b'\\' ∷ []) s
    else if e == b'/'
    then done (b'/' ∷ []) s
    else if e == b'b'
    then done (8 ∷ []) s
    else if e == b'f'
    then done (12 ∷ []) s
    else if e == b'n'
    then done (10 ∷ []) s
    else if e == b'r'
    then done (13 ∷ []) s
    else if e == b't'
    then done (9 ∷ []) s
    else if e == b'u'
    then unicode s
    else fail body_error

-- The loop of `String`, on fuel: a round reads one character at least.
unfoldable pub string_loop : ℕ → Bytes → Reader Bytes
string_loop fuel out [] = fail body_error
string_loop zero out (c ∷ s) = unfinished
string_loop (suc fuel) out (c ∷ s) =
    let escaped = continue (escape s) (λ bytes r. string_loop fuel (out ++ bytes) r) in
    let more = string_loop fuel (out ++ c ∷ []) s in
    if c == b'"'
    then done out s
    else if ltb c 32
    then fail body_error
    else if c == b'\\'
    then escaped
    else more

unfoldable pub string : Reader Bytes
unfolding expect
string = do expect b'"'; λ s. string_loop (length s) [] s

-- a value, behind the blanks
unfoldable pub value_at : Reader BodyValue
unfolding string literal text
value_at s =
    if first s == b'"'
    then continue (string s) (λ x r. done (string_value x) r)
    else elim (literal (text "true") s) [
      | some r ↦ done (flag true) r
      | none ↦ elim (literal (text "false") s) [
        | some r ↦ done (flag false) r
        | none ↦
            if is_digit (first s)
            then continue (number_loop 0 s) (λ n r. done (number n) r)
            else fail body_error
      ]
    ]

-- The loop of `Read`, on fuel: a round reads one character at least, or fails.
unfoldable pub members_loop : ℕ → StringBody → Reader StringBody
unfolding string expect skip value_at emplace take_char
members_loop zero body s = unfinished
members_loop (suc fuel) body s = continue (string s) λ key s1. continue (expect b':' s1) λ _ s2.
    continue (value_at (skip s2)) λ value s3. or_fail body_error (emplace key value body) λ body'.
      continue (take_char b'}' s3) λ closed s4.
        let more = continue (expect b',' s4) (λ _ s5. members_loop fuel body' s5) in
        if closed then continue (end s4) (λ _ r. done body' r) else more

unfoldable pub read : Reader StringBody
unfolding expect take_char end members_loop
read = do
  expect b'{'
  closed ← take_char b'}'
  if closed then end >> pure [] else λ s. members_loop (suc (length s)) [] s

-- `ParseStringBody`: the body, or the message of the exception
unfoldable pub parse_string_body : Bytes → Read StringBody
unfolding read
parse_string_body json = read json
