-- ===== src/Commands/Envelope.antt =====
-- src/protocol/json_parser.cpp: the JSON object around a command, with its id, its name and its body. What
-- is read is what stands from `position` on. Whether `char` has a sign is a parameter.
pub mod Objects
pub mod Accepted
use gate_keeper.Base.{
  ℕ, zero, suc, ◌-◌, Bool, true, false, ◌&&◌, ◌||◌, not, Option, none, some, [], ◌∷◌, ◌++◌, Bytes,
  text, same, is_empty, ltb, leb, ◌==◌, if◌then◌else◌, length, take,
}
use gate_keeper.Commands.{Request}
use gate_keeper.Json.{Read, done, fail, unfinished, continue, skip, take_front}
use gate_keeper.Json.Quote.{Error}

-- whether a string was read, its text, and what is left; `position` also moves where none was
pub record Scanned : Type 0 where
  pub ok : Bool
  pub output : Bytes
  pub rest : Bytes

abbrev pub scanned : Bool → Bytes → Bytes → Scanned
scanned ok output rest = record { ok = ok; output = output; rest = rest }

-- what a character behind a backslash stands for
unfoldable pub unescape : ℕ → Option ℕ
unescape e =
    if e == b'"' || (e == b'\\' || e == b'/')
    then some e
    else if e == b'b'
    then some 8
    else if e == b'f'
    then some 12
    else if e == b'n'
    then some 10
    else if e == b'r'
    then some 13
    else if e == b't'
    then some 9
    else none

-- a `char` below 0x20
abbrev pub is_below : Bool → ℕ → Bool
is_below signed_char c = ltb c 0x20 || (signed_char && leb 0x80 c)

-- the loop of `String`
unfoldable pub string_loop : Bool → Bytes → Bytes → Scanned
unfolding unescape
string_loop signed_char output [] = scanned false output []
string_loop signed_char output (c ∷ []) =
    if c == b'"'
    then scanned true output []
    else if is_below signed_char c
    then scanned false output []
    else scanned false (if c == b'\\' then output else output ++ c ∷ []) []
string_loop signed_char output (c ∷ e ∷ s) =
    let plain = string_loop signed_char (output ++ c ∷ []) (e ∷ s) in
    let escaped : Scanned = elim (unescape e) [
      | none ↦ scanned false output s
      | some x ↦ string_loop signed_char (output ++ x ∷ []) s
    ] in
    if c == b'"'
    then scanned true output (e ∷ s)
    else if is_below signed_char c
    then scanned false output (e ∷ s)
    else if c == b'\\'
    then escaped
    else plain

-- `String` behind `Skip`: the first character is taken whatever it is
abbrev pub string_at : Bool → Bytes → Scanned
string_at signed_char [] = scanned false [] []
string_at signed_char (c ∷ s) =
    if c == b'"' then string_loop signed_char [] s else scanned false [] s

unfoldable pub string : Bool → Bytes → Scanned
unfolding skip string_loop
string signed_char s = string_at signed_char (skip s)

-- the loop of `Object`: what is left behind the brace that closes it
unfoldable pub object_loop : ℕ → Bool → Bytes → Option Bytes
object_loop zero quoted s = if quoted then none else some s
object_loop (suc depth) quoted [] = none
object_loop (suc depth) quoted (c ∷ []) =
    let closed = object_loop depth quoted [] in if not quoted && c == b'}' then closed else none
object_loop (suc depth) quoted (c ∷ e ∷ s) =
    let escaped = object_loop (suc depth) quoted s in
    let switched = object_loop (suc depth) (not quoted) (e ∷ s) in
    let opened = object_loop (suc (suc depth)) quoted (e ∷ s) in
    let closed = object_loop depth quoted (e ∷ s) in
    let plain = object_loop (suc depth) quoted (e ∷ s) in
    if quoted && c == b'\\'
    then escaped
    else if c == b'"'
    then switched
    else if not quoted && c == b'{'
    then opened
    else if not quoted && c == b'}'
    then closed
    else plain

-- the text of an object, and what is left
abbrev pub captured : Bytes → Option Bytes → Option (Bytes × Bytes)
captured s none = none
captured s (some rest) = some (take (length s - length rest) s, rest)

abbrev pub object_at : Bytes → Option (Bytes × Bytes)
object_at [] = none
object_at (c ∷ s) = if c == b'{' then captured (c ∷ s) (object_loop 1 false s) else none

unfoldable pub object : Bytes → Option (Bytes × Bytes)
unfolding skip object_loop
object s = object_at (skip s)

-- the members that were read
pub record Seen : Type 0 where
  pub id : Option Bytes
  pub op : Option Bytes
  pub body : Option Bytes

abbrev pub nothing_seen : Seen
nothing_seen = record { id = none; op = none; body = none }

-- the member `id` or `op`
abbrev pub put_text : Bytes → Option Bytes → Scanned → (Bytes → Seen) → Read Seen
put_text key (some v) found put =
    if found.ok
    then fail (key ++ text " must not be repeated")
    else fail (key ++ text " must be a string")
put_text key none found put =
    if found.ok then done (put found.output) found.rest else fail (key ++ text " must be a string")

abbrev pub put_body : Seen → Option Bytes → Option (Bytes × Bytes) → Read Seen
put_body seen none (some (body, rest)) = done (record seen { body = some body }) rest
put_body seen _ _ = fail (text "body must be one JSON object")

-- Another member: a string, or an object behind what the attempt to read a string has taken.
abbrev pub skip_value : Seen → Scanned → Read Seen
skip_value seen found = if found.ok then done seen found.rest else elim (object found.rest) [
  | none ↦ fail (text "invalid JSON value")
  | some (ignored, rest) ↦ done seen rest
]

unfoldable pub value : Bool → Bytes → Seen → Bytes → Read Seen
unfolding string object same text
value signed_char key seen s =
    if same key (text "id")
    then put_text key seen.id (string signed_char s) (λ v. record seen { id = some v })
    else if same key (text "op")
    then put_text key seen.op (string signed_char s) (λ v. record seen { op = some v })
    else if same key (text "body")
    then put_body seen seen.body (object s)
    else skip_value seen (string signed_char s)

-- a member with its colon
unfoldable pub member : Bool → Seen → Bytes → Read Seen
unfolding value
member signed_char seen s =
    let key = string signed_char s in
    let named = continue (take_front b':' (skip key.rest)) λ colon r.
      if colon
      then value signed_char key.output seen r
      else fail (text "invalid JSON object member") in
    if key.ok then named else fail (text "invalid JSON object member")

-- the loop of `Parse`, on fuel: a round reads a character at least
unfoldable pub members_loop : Bool → ℕ → Seen → Bytes → Read Seen
unfolding member
members_loop signed_char zero seen s = unfinished
members_loop signed_char (suc fuel) seen s =
    let more = continue (member signed_char seen (skip s)) λ seen' r.
      continue (take_front b',' (skip r)) λ comma r'.
        let next = members_loop signed_char fuel seen' r' in
        if comma
        then next
        else continue (take_front b'}' r')
            λ closed r''. if closed then done seen' r'' else fail (text "expected ',' or '}'") in
    continue (take_front b'}' (skip s)) λ closed r. if closed then done seen r else more

pub data Parsed : Type 0 where
  accepted : (request : Request) → Parsed
  rejected : (error : Error) → Parsed

abbrev pub refuse : Bytes → Parsed
refuse message = rejected (record { code = text "INVALID_REQUEST"; message = message })

-- the checks at the end of `Parse`
abbrev pub checked : Option Bytes → Option Bytes → Option Bytes → Bytes → Parsed
checked (some id) (some op) (some body) [] =
    if is_empty id || is_empty op
    then refuse (text "request requires non-empty id, non-empty op, and object body")
    else accepted (record { id = id; op = op; body_json = body })
checked _ _ _ _ = refuse (text "request requires non-empty id, non-empty op, and object body")

-- what `Parse` makes of the members, or of the error of their loop
abbrev pub finish : Read Seen → Parsed
finish (fail message) = refuse message
finish unfinished = refuse (text "unfinished")
finish (done seen rest) = checked seen.id seen.op seen.body (skip rest)

unfoldable pub parse : Bool → Bytes → Parsed
unfolding members_loop skip
parse signed_char payload = elim (take_front b'{' (skip payload)) [
  | fail message ↦ refuse message
  | unfinished ↦ refuse (text "unfinished")
  | done opened s ↦
      if opened
      then finish (members_loop signed_char (suc (length s)) nothing_seen s)
      else refuse (text "request must be a JSON object")
]
