-- ===== src/Commands/Envelope/Accepted.antt =====
-- A request that a client writes, as src/protocol/json_parser.cpp reads it.
use gate_keeper.Base.{
  ℕ, suc, ◌-◌, ◌≡◌, refl, sym, ap, ◌∙◌, Bool, true, false, some, [], ◌∷◌, ◌++◌, Bytes, text, same,
  is_empty, ◌==◌, arith, length, take, length-append, take-append, take-length,
}
use mathlib.Core.List.{append_assoc, append-nil}
use gate_keeper.Commands.{Request}
use gate_keeper.Commands.Envelope.{
  scanned, is_below, string_loop, string, object_loop, object, Seen, nothing_seen, value, member,
  members_loop, accepted, finish, parse, captured,
}
use gate_keeper.Commands.Envelope.Objects.{object_loop-append}
use gate_keeper.Json.{done, skip}
use gate_keeper.Json.Quote.{quote_char, quote_body, quote_json}
use gate_keeper.Json.Strings.{quote_char_cases}

-- the request as a client writes it
abbrev pub envelope : Request → Bytes
envelope request =
    text "{\"id\":"
    ++ (quote_json request.id
        ++ (text ",\"op\":"
            ++ (quote_json request.op ++ (text ",\"body\":" ++ (request.body_json ++ text "}")))))

-- a text with no control character, and with no negative `char`
abbrev pub IsPrintable : Bool → Bytes → Type 0
IsPrintable signed_char [] = Unit
IsPrintable signed_char (c ∷ s) = (is_below signed_char c ≡ false) × IsPrintable signed_char s

-- a body that is one object
abbrev pub IsObject : Bytes → Type 0
IsObject [] = ⊥
IsObject (c ∷ s) = (c ≡ b'{') × (object_loop 1 false s ≡ some [])

string_loop-quote :
    (signed_char : Bool) (output rest : Bytes)
    → string_loop signed_char output (b'"' ∷ rest) ≡ scanned true output rest
unfolding string_loop
string_loop-quote signed_char output [] = refl
string_loop-quote signed_char output (c ∷ rest) = refl

string_loop-plain :
    (signed_char : Bool) (output : Bytes) (c e : ℕ) (s : Bytes)
    → (c == 34) ≡ false
    → (c == 92) ≡ false
    → is_below signed_char c ≡ false
    → string_loop signed_char output (c ∷ e ∷ s)
      ≡ string_loop signed_char (output ++ c ∷ []) (e ∷ s)
unfolding string_loop
string_loop-plain signed_char output c e s n n1 h = rw (n, h, n1) refl

round :
    (signed_char : Bool) (output : Bytes) (e : ℕ) (s : Bytes) (c : ℕ)
    → is_below signed_char c ≡ false
    → string_loop signed_char output (quote_char c ++ (e ∷ s))
      ≡ string_loop signed_char (output ++ c ∷ []) (e ∷ s)
unfolding string_loop
round signed_char output e s =
    quote_char_cases
      (λ c q.
        is_below signed_char c ≡ false
        → string_loop signed_char output (q ++ (e ∷ s))
          ≡ string_loop signed_char (output ++ c ∷ []) (e ∷ s))
      (λ k. rw k refl) (λ k. rw k refl) (λ k. absurd (cc)) (λ k. absurd (cc)) (λ k. absurd (cc))
      (λ k. absurd (cc)) (λ k. absurd (cc)) (λ c h k. absurd (ground (arith, h, k)))
      (λ c n0 n1 h k. string_loop-plain signed_char output c e s n0 n1 k)

quote_body-first :
    (s rest : Bytes) → (e : ℕ) × (t : Bytes) × (quote_body s ++ (b'"' ∷ rest) ≡ e ∷ t)
quote_body-first s rest = first_of (quote_body s)
  where
    first_of : (a : Bytes) → (e : ℕ) × (t : Bytes) × (a ++ (b'"' ∷ rest) ≡ e ∷ t)
    first_of [] = (b'"', rest, refl)
    first_of (c ∷ a) = (c, a ++ (b'"' ∷ rest), refl)

string_loop-quote_body :
    (signed_char : Bool) (output s rest : Bytes)
    → IsPrintable signed_char s
    → string_loop signed_char output (quote_body s ++ (b'"' ∷ rest))
      ≡ scanned true (output ++ s) rest
unfolding quote_body
string_loop-quote_body signed_char output [] rest h =
    string_loop-quote signed_char output rest
    ∙ ap (λ t. scanned true t rest) (sym (append-nil output))
string_loop-quote_body signed_char output (c ∷ s) rest h =
    let next = string_loop-quote_body signed_char (output ++ c ∷ []) s rest h.1 in
    let (e, tail, split) = quote_body-first s rest in
    ap (string_loop signed_char output) (append_assoc (quote_char c) (quote_body s) (b'"' ∷ rest))
    ∙ ap (λ t. string_loop signed_char output (quote_char c ++ t)) split
    ∙ round signed_char output e tail c h.0
    ∙ ap (string_loop signed_char (output ++ c ∷ [])) (sym split)
    ∙ next
    ∙ ap (λ t. scanned true t rest) (append_assoc output (c ∷ []) s)

string-quote_json :
    (signed_char : Bool) (s rest : Bytes)
    → IsPrintable signed_char s
    → string signed_char (quote_json s ++ rest) ≡ scanned true s rest
unfolding string quote_json skip
string-quote_json signed_char s rest h =
    ap (string_loop signed_char []) (append_assoc (quote_body s) (b'"' ∷ []) rest)
    ∙ string_loop-quote_body signed_char [] s rest h

object-brace : (s : Bytes) → object (b'{' ∷ s) ≡ captured (b'{' ∷ s) (object_loop 1 false s)
unfolding object skip
object-brace s = refl

object-whole : (body rest : Bytes) → IsObject body → object (body ++ rest) ≡ some (body, rest)
object-whole [] rest h = absurd h
object-whole (c ∷ s) rest (brace, closed) =
    let whole = c ∷ s in
    let size : length (whole ++ rest) - length rest ≡ length whole =
      omega (arith, length-append whole rest) in
    ap (λ x. object (x ∷ (s ++ rest))) brace
    ∙ object-brace (s ++ rest)
    ∙ ap (captured (b'{' ∷ (s ++ rest))) (object_loop-append 1 false s rest [] closed)
    ∙ ap (λ x. captured (x ∷ (s ++ rest)) (some rest)) (sym brace)
    ∙ ap (λ n. some (take n (whole ++ rest), rest)) size
    ∙ ap (λ t. some (t, rest))
        (take-append (length whole) whole rest (omega arith) ∙ take-length whole)

-- the three names
id_named :
    (signed_char : Bool) (t : Bytes)
    → string signed_char (text "\"id\":" ++ t) ≡ scanned true (text "id") (b':' ∷ t)
unfolding string string_loop skip text
id_named true t = refl
id_named false t = refl

op_named :
    (signed_char : Bool) (t : Bytes)
    → string signed_char (text "\"op\":" ++ t) ≡ scanned true (text "op") (b':' ∷ t)
unfolding string string_loop skip text
op_named true t = refl
op_named false t = refl

body_named :
    (signed_char : Bool) (t : Bytes)
    → string signed_char (text "\"body\":" ++ t) ≡ scanned true (text "body") (b':' ∷ t)
unfolding string string_loop skip text
body_named true t = refl
body_named false t = refl

member-named :
    (signed_char : Bool) (seen : Seen) (key s t : Bytes)
    → string signed_char s ≡ scanned true key (b':' ∷ t)
    → member signed_char seen s ≡ value signed_char key seen t
unfolding member skip
member-named signed_char seen key s t e = rw (member, e) refl

abbrev with_id : Bytes → Seen
with_id id = record nothing_seen { id = some id }

abbrev with_op : Bytes → Bytes → Seen
with_op id op = record (with_id id) { op = some op }

member-id :
    (signed_char : Bool) (id rest : Bytes)
    → IsPrintable signed_char id
    → member signed_char nothing_seen (text "\"id\":" ++ (quote_json id ++ rest))
      ≡ done (with_id id) rest
unfolding value same text
member-id signed_char id rest h =
    member-named signed_char nothing_seen (text "id") _ (quote_json id ++ rest)
      (id_named signed_char _)
    ∙ rw (value, string-quote_json signed_char id rest h) refl

member-op :
    (signed_char : Bool) (id op rest : Bytes)
    → IsPrintable signed_char op
    → member signed_char (with_id id) (text "\"op\":" ++ (quote_json op ++ rest))
      ≡ done (with_op id op) rest
unfolding value same text
member-op signed_char id op rest h =
    member-named signed_char (with_id id) (text "op") _ (quote_json op ++ rest)
      (op_named signed_char _)
    ∙ rw (value, string-quote_json signed_char op rest h) refl

member-body :
    (signed_char : Bool) (id op body rest : Bytes)
    → IsObject body
    → member signed_char (with_op id op) (text "\"body\":" ++ (body ++ rest))
      ≡ done (record (with_op id op) { body = some body }) rest
unfolding value same text
member-body signed_char id op body rest h =
    member-named signed_char (with_op id op) (text "body") _ (body ++ rest)
      (body_named signed_char _)
    ∙ rw (value, object-whole body rest h) refl

-- a round on a member that a comma or the last brace follows
members_loop-next :
    (signed_char : Bool) (fuel : ℕ) (seen seen' : Seen) (s t : Bytes)
    → member signed_char seen (b'"' ∷ s) ≡ done seen' (b',' ∷ t)
    → members_loop signed_char (suc fuel) seen (b'"' ∷ s) ≡ members_loop signed_char fuel seen' t
unfolding members_loop skip
members_loop-next signed_char fuel seen seen' s t e = rw e refl

members_loop-last :
    (signed_char : Bool) (fuel : ℕ) (seen seen' : Seen) (s t : Bytes)
    → member signed_char seen (b'"' ∷ s) ≡ done seen' (b'}' ∷ t)
    → members_loop signed_char (suc fuel) seen (b'"' ∷ s) ≡ done seen' t
unfolding members_loop skip
members_loop-last signed_char fuel seen seen' s t e = rw e refl

parse-open :
    (signed_char : Bool) (s : Bytes)
    → parse signed_char (b'{' ∷ s)
      ≡ finish (members_loop signed_char (suc (length s)) nothing_seen s)
unfolding parse skip
parse-open signed_char s = refl

finish-last :
    (id op body : Bytes)
    → is_empty id ≡ false
    → is_empty op ≡ false
    → finish (done (record (with_op id op) { body = some body }) [])
      ≡ accepted (record { id = id; op = op; body_json = body })
unfolding skip
finish-last id op body full full' = rw (full, full') refl

-- behind the first brace
members_loop-envelope :
    (signed_char : Bool) (fuel : ℕ) (id op body : Bytes)
    → IsPrintable signed_char id
    → IsPrintable signed_char op
    → IsObject body
    → members_loop signed_char (suc (suc (suc fuel))) nothing_seen (
        text "\"id\":"
        ++ (quote_json id
            ++ (text ",\"op\":" ++ (quote_json op ++ (text ",\"body\":" ++ (body ++ text "}"))))))
      ≡ done (record (with_op id op) { body = some body }) []
unfolding text
members_loop-envelope signed_char fuel id op body printable printable' one =
    members_loop-next signed_char (suc (suc fuel)) nothing_seen (with_id id) _ _
      (member-id signed_char id _ printable)
    ∙ members_loop-next signed_char (suc fuel) (with_id id) (with_op id op) _ _
        (member-op signed_char id op _ printable')
    ∙ members_loop-last signed_char fuel (with_op id op) _ _ _
        (member-body signed_char id op body _ one)

-- The parser reads back a request that a client writes as one object with its three members in order:
-- the id and the name as `QuoteJson` writes them, where they are not empty and have no control
-- character (and none beyond ASCII where `char` is signed), and any body that is one object.
pub parse-envelope :
    (signed_char : Bool) (request : Request)
    → IsPrintable signed_char request.id
    → IsPrintable signed_char request.op
    → is_empty request.id ≡ false
    → is_empty request.op ≡ false
    → IsObject request.body_json
    → parse signed_char (envelope request) ≡ accepted request
unfolding text
parse-envelope signed_char request printable printable' full full' one =
    let s =
      text "\"id\":"
      ++ (quote_json request.id
          ++ (text ",\"op\":"
              ++ (quote_json request.op
                  ++ (text ",\"body\":" ++ (request.body_json ++ text "}"))))) in
    parse-open signed_char s
    ∙ ap finish (
        members_loop-envelope signed_char _ request.id request.op request.body_json printable
          printable' one)
    ∙ finish-last request.id request.op request.body_json full full'
