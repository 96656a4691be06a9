-- ===== src/Examples/Commands.antt =====
-- Tests on commands as JSON (src/command/dispatcher.cpp), as binary requests
-- (src/service/processor.cpp) and as records of the append-only file (src/storage/aof/).
use gate_keeper.Base.{
  ◌+◌, ℕ, ◌≡◌, ◌≢◌, refl, Bool, true, false, some, List, [], ◌∷◌, ◌++◌, Bytes, text, same, is_empty,
  arith, map, flatten, if◌then◌else◌, ◌||◌, ◌==◌, sym, ◌∙◌, Bool-cases, inl, inr,
}
use gate_keeper.Aof.{
  written, interrupted, refused, AofWriter, append, line_of, is_comment, load, readable,
  nothing_loaded, replay_record,
}
use gate_keeper.Aof.Replay.{Without, IsLine, AllLines, replay_all, load-lines, append-line_of}
use gate_keeper.Commands.{Request}
use gate_keeper.Commands.Dispatcher.{
  LogRecord, registrations, dispatch, normalize_name, is_write_op, any_same,
}
use gate_keeper.Commands.Dispatcher.Names.{dispatch-normalize_name}
use gate_keeper.Commands.Strings
use gate_keeper.Commands.Strings.{stored_reply, shown_value}
use gate_keeper.Examples.{tables, fractions, user}
use gate_keeper.Json.{done, string}
use gate_keeper.Json.{
  string_loop, unfinished, string_array, array_loop, escape, unicode, hex_loop, hex_digit, utf8,
  expect, take_char, skip,
}
use gate_keeper.Json.Arrays.{string_array-enough_fuel}
use gate_keeper.Json.Quote.{quote_json}
use gate_keeper.Json.Strings.{string-quote_json}
use gate_keeper.Maps.{lookup}
use gate_keeper.Protocol.Codec
use gate_keeper.Protocol.Codec.{encode, always, if_absent, set}
use gate_keeper.Service.Processor.{process, run_request}
use gate_keeper.Service.Replies.{
  set_record, key_record, value_reply, status, ok, not_found, write_condition,
}
use gate_keeper.Service.Processor.Replay.{replay-run_request}
use gate_keeper.Service.Processor.Values.{json, found, process-get-set, dispatch-get-set}
use gate_keeper.Storage.Store
use gate_keeper.Storage.Store.{MemoryStore, new_store}
use gate_keeper.Storage.Store.Contents.{admits_value, get-set}
use gate_keeper.Storage.Store.Routing.{new_store-IsStore}

abbrev colour : Bytes
colour = text "\"red\""

string-quote_json_example : string (quote_json colour ++ text "}") ≡ done colour (text "}")
string-quote_json_example = string-quote_json colour (text "}")

abbrev names : Bytes
names = text "[\"a\\u0041\", \"b\"]"

string_array-enough_fuel_example :
    (string_loop 20 [] names ≢ unfinished)
    × (string_loop (20 + 5) [] names ≡ string_loop 20 [] names)
    × (string_array names ≢ unfinished)
string_array-enough_fuel_example =
    string_array-enough_fuel 20 5 [] names (unfold text in omega arith)

string_array-names : string_array names ≡ done (text "aA" ∷ text "b" ∷ []) []
unfolding string_array array_loop string string_loop escape unicode hex_loop hex_digit utf8 expect
    take_char skip text
string_array-names = refl

abbrev log : List LogRecord
log =
    (text "SET", text "{\"key\":\"user:1\",\"value\":\"on\"}")
    ∷ (text "DEL", text "{\"key\":\"user:1\"}")
    ∷ []

-- whether a byte occurs
unfoldable occurs : ℕ → Bytes → Bool
occurs c [] = false
occurs c (x ∷ s) = x == c || occurs c s

Without-occurs : (c : ℕ) (s : Bytes) → occurs c s ≡ false → Without c s
unfolding occurs
Without-occurs c [] h = tt
Without-occurs c (x ∷ s) h = elim (Bool-cases (x == c)) [
  | inl y ↦ absurd (ground (arith, h, y))
  | inr n ↦ (n, Without-occurs c s (sym (rw n refl) ∙ h))
]

as-IsLine :
    (rec : LogRecord)
    → is_comment rec.0 ≡ false
    → occurs b' ' rec.0 ≡ false
    → occurs 10 rec.0 ≡ false
    → occurs 10 rec.1 ≡ false
    → IsLine rec
as-IsLine (op, body) h blank break break' = record {
  plain = h;
  no_blank = Without-occurs b' ' op blank;
  no_break = Without-occurs 10 op break;
  body = Without-occurs 10 body break';
}

log-AllLines : AllLines log
unfolding text is_empty occurs
log-AllLines = (
  as-IsLine (text "SET", text "{\"key\":\"user:1\",\"value\":\"on\"}") refl refl refl refl,
  (as-IsLine (text "DEL", text "{\"key\":\"user:1\"}") refl refl refl refl, tt),
)

load-lines_example :
    load (registrations fractions) (readable (flatten (map line_of log))) 1000 new_store
    ≡ replay_all (registrations fractions) 1000 log (nothing_loaded true []) new_store
load-lines_example = load-lines (registrations fractions) 1000 log new_store log-AllLines

abbrev opened : AofWriter
opened = record { is_open = true; file = [] }

-- three bytes are written, and then the disk is full
append-line_of_example :
    (rest : Bytes) × (opened.file ++ line_of (text "DEL", colour)
      ≡ (append (written 3 ∷ interrupted ∷ refused ∷ []) (text "DEL", colour) opened).1.file
        ++ rest)
    × ((append (written 3 ∷ interrupted ∷ refused ∷ []) (text "DEL", colour) opened).0
        ≡ is_empty rest)
append-line_of_example =
    append-line_of (written 3 ∷ interrupted ∷ refused ∷ []) (text "DEL", colour) opened
      (unfold text is_empty in refl) refl

abbrev lower_case : Request
lower_case = record {
  id = text "1";
  op = text "set";
  body_json = text "{\"key\":\"a\",\"value\":\"b\"}";
}

abbrev upper_case : Request
upper_case = record lower_case { op = normalize_name (text "set") }

dispatch-normalize_name_example :
    ((dispatch (registrations fractions) true lower_case 1000 new_store).0
      ≡ (dispatch (registrations fractions) true upper_case 1000 new_store).0)
    × ((dispatch (registrations fractions) true lower_case 1000 new_store).2
        ≡ (dispatch (registrations fractions) true upper_case 1000 new_store).2)
    × ((dispatch (registrations fractions) true lower_case 1000 new_store).1 ≡ (
        if is_write_op lower_case.op
        then (dispatch (registrations fractions) true upper_case 1000 new_store).1
        else []))
dispatch-normalize_name_example =
    dispatch-normalize_name (registrations fractions) true lower_case Strings.set 1000 new_store
      (unfold lookup normalize_name same text in refl)

not_a_write : is_write_op lower_case.op ≡ false
unfolding is_write_op any_same same text
not_a_write = refl

abbrev kept : LogRecord
kept = (text "SET", set_record user (text "on") always 500)

kept-run_request :
    (run_request fractions true (set user (text "on") always 500) 1000 new_store).1 ≡ kept ∷ []
unfolding run_request
kept-run_request =
    let stored =
      (get-set user (text "on") user (write_condition always) 500 1000 1000 new_store
        new_store-IsStore (omega arith)).0 in
    rw stored refl

replay-run_request_example :
    (replay_record (registrations fractions) kept 1000 (nothing_loaded true []) new_store).1
    ≡ (run_request fractions true (set user (text "on") always 500) 1000 new_store).2
replay-run_request_example =
    replay-run_request fractions 1000 (nothing_loaded true []) new_store
      (set user (text "on") always 500) kept (unfold text is_empty in (refl, omega arith))
      kept-run_request

process-get-set_example :
    (log : List LogRecord) × (m1 : MemoryStore) × (m2 : MemoryStore) × (process fractions true
        (encode (set user (text "on") if_absent 500))
        1000
        new_store
      ≡ some (
        status (
            if admits_value (write_condition if_absent) (Store.get user 1000 new_store).0
            then ok
            else not_found),
        log,
        m1,
      ))
    × (process fractions true (encode (Codec.get user)) 1200 m1
        ≡ some (
          value_reply
              (found fractions true user (text "on") user if_absent 500 1000 1200 new_store),
          [],
          m2,
        ))
process-get-set_example =
    process-get-set fractions true user (text "on") user if_absent 500 1000 1200 new_store
      new_store-IsStore (omega arith) (unfold text in (omega arith, omega arith, omega arith))
      (unfold text in omega arith)

dispatch-get-set_example :
    (log : List LogRecord) × (log' : List LogRecord) × (m1 : MemoryStore) × (m2 : MemoryStore)
    × (dispatch
          (registrations fractions)
          true
          (json (text "SET") (set_record user (text "on") if_absent 500))
          1000
          new_store
        ≡ (
          stored_reply (admits_value (write_condition if_absent) (Store.get user 1000 new_store).0),
          log,
          m1,
        ))
    × (dispatch
          (registrations fractions)
          true
          (json (text "GET") (key_record user (text "}" ∷ [])))
          1200
          m1
        ≡ (
          shown_value
              (found fractions true user (text "on") user if_absent 500 1000 1200 new_store),
          log',
          m2,
        ))
dispatch-get-set_example =
    dispatch-get-set fractions true user (text "on") user if_absent 500 1000 1200 new_store
      new_store-IsStore (omega arith) (unfold text is_empty in refl) (unfold text is_empty in refl)
      (omega arith)
