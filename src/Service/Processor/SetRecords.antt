-- ===== src/Service/Processor/SetRecords.antt =====
-- The `SET` records of `Processor` (src/service/processor.cpp) and the reader of `SET` (string_ops.cpp),
-- together.
use gate_keeper.Base.{
  ℕ, suc, ◌≡◌, ◌<◌, refl, ◌∙◌, ap, Bool-cases, inl, inr, true, false, some, [], ◌∷◌, ◌++◌, Bytes,
  text, same, is_empty, flatten, arith, ltb, ◌==◌,
}
use gate_keeper.Commands.Strings.{set_args, set_from}
use gate_keeper.Commands.StringBody.{
  string_value, flag, number, StringBody, emplace, members_loop, read, parse_string_body, string,
  string_loop, expect, take_char, skip, value_at, end, less,
}
use gate_keeper.Commands.StringBody.Members.{
  members_loop-next, members_loop-last, value_at-to_string, key_and_value, first_two, only_two,
}
use gate_keeper.Json.{done, continue, literal}
use gate_keeper.Json.Quote.{quote_json}
use gate_keeper.Maps.{lookup}
use gate_keeper.Protocol.Codec.{SetCondition, always, if_absent, if_present}
use gate_keeper.Service.Replies.{set_record, condition_part, write_condition}
use gate_keeper.Storage.Decimal.{to_string, u64_mod}

-- the last member of a record with a condition, in a loop that can still make a round
module _ (fuel : ℕ) (key value : Bytes) where
  abbrev with_time : ℕ → StringBody
  with_time n =
      (text "key", string_value key)
      ∷ (text "ttl_ms", number n)
      ∷ (text "value", string_value value)
      ∷ []

  absent_last :
      members_loop (suc fuel) (key_and_value key value) (text "\"if_not_exists\":true}")
      ≡ done ((text "if_not_exists", flag true) ∷ key_and_value key value) []
  unfolding members_loop string string_loop expect take_char skip text value_at literal emplace less
      same end
  absent_last = refl

  present_last :
      members_loop (suc fuel) (key_and_value key value) (text "\"if_exists\":true}")
      ≡ done ((text "if_exists", flag true) ∷ key_and_value key value) []
  unfolding members_loop string string_loop expect take_char skip text value_at literal emplace less
      same end
  present_last = refl

  absent_last_timed :
      (n : ℕ)
      → members_loop (suc fuel) (with_time n) (text "\"if_not_exists\":true}")
        ≡ done ((text "if_not_exists", flag true) ∷ with_time n) []
  unfolding members_loop string string_loop expect take_char skip text value_at literal emplace less
      same end
  absent_last_timed n = refl

  present_last_timed :
      (n : ℕ)
      → members_loop (suc fuel) (with_time n) (text "\"if_exists\":true}")
        ≡ done ((text "if_exists", flag true) ∷ with_time n) []
  unfolding members_loop string string_loop expect take_char skip text value_at literal emplace less
      same end
  present_last_timed n = refl

  timed_named : (s : Bytes) → string (text "\"ttl_ms\":" ++ s) ≡ done (text "ttl_ms") (b':' ∷ s)
  unfolding string string_loop expect take_char skip text
  timed_named s = refl

  timed_fresh :
      (n : ℕ) → emplace (text "ttl_ms") (number n) (key_and_value key value) ≡ some (with_time n)
  unfolding emplace less same text
  timed_fresh n = refl

  timed_next :
      (n : ℕ) (after : Bytes)
      → n < u64_mod
      → members_loop
          (suc fuel)
          (key_and_value key value)
          (text "\"ttl_ms\":" ++ (to_string n ++ (b',' ∷ after)))
        ≡ members_loop fuel (with_time n) after
  timed_next n after small =
      members_loop-next fuel (key_and_value key value) (with_time n) _ (text "ttl_ms")
        (to_string n ++ (b',' ∷ after)) after (number n)
        (timed_named (to_string n ++ (b',' ∷ after))) (value_at-to_string n b',' after small refl)
        (timed_fresh n)

  timed_last :
      (n : ℕ)
      → n < u64_mod
      → members_loop
          (suc fuel)
          (key_and_value key value)
          (text "\"ttl_ms\":" ++ (to_string n ++ (b'}' ∷ [])))
        ≡ done (with_time n) []
  timed_last n small =
      members_loop-last fuel (key_and_value key value) (with_time n) _ (text "ttl_ms")
        (to_string n ++ (b'}' ∷ [])) (number n) (timed_named (to_string n ++ (b'}' ∷ [])))
        (value_at-to_string n b'}' [] small refl) (timed_fresh n)

abbrev condition_member : SetCondition → StringBody → StringBody
condition_member always body = body
condition_member if_absent body = (text "if_not_exists", flag true) ∷ body
condition_member if_present body = (text "if_exists", flag true) ∷ body

-- the record as the reader of `SET` sees it, with no time and with one
read-untimed :
    (key value : Bytes) (c : SetCondition)
    → read (
        flatten (
          (text "{\"key\":" ∷ quote_json key ∷ text ",\"value\":" ∷ quote_json value ∷ [])
          ++ (condition_part c ++ (text "}" ∷ []))))
      ≡ done (condition_member c (key_and_value key value)) []
unfolding flatten text
read-untimed key value always = only_two key value
read-untimed key value if_absent =
    let (fuel, e) = first_two key value (text "\"if_not_exists\":true}") in
    e ∙ absent_last (suc fuel) key value
read-untimed key value if_present =
    let (fuel, e) = first_two key value (text "\"if_exists\":true}") in
    e ∙ present_last (suc fuel) key value

read-timed :
    (key value : Bytes) (c : SetCondition) (n : ℕ)
    → n < u64_mod
    → read (
        flatten (
          (text "{\"key\":" ∷ quote_json key ∷ text ",\"value\":" ∷ quote_json value ∷ [])
          ++ ((text ",\"ttl_ms\":" ∷ to_string n ∷ []) ++ (condition_part c ++ (text "}" ∷ [])))))
      ≡ done (condition_member c (with_time 0 key value n)) []
unfolding flatten text
read-timed key value always n small =
    let (fuel, e) = first_two key value (text "\"ttl_ms\":" ++ (to_string n ++ (b'}' ∷ []))) in
    e ∙ timed_last (suc fuel) key value n small
read-timed key value if_absent n small =
    let after = text "\"if_not_exists\":true}" in
    let (fuel, e) = first_two key value (text "\"ttl_ms\":" ++ (to_string n ++ (b',' ∷ after))) in
    e ∙ timed_next (suc fuel) key value n after small ∙ absent_last_timed fuel key value n
read-timed key value if_present n small =
    let after = text "\"if_exists\":true}" in
    let (fuel, e) = first_two key value (text "\"ttl_ms\":" ++ (to_string n ++ (b',' ∷ after))) in
    e ∙ timed_next (suc fuel) key value n after small ∙ present_last_timed fuel key value n

module _ (key value : Bytes) (full : is_empty key ≡ false) where
  from-untimed :
      (c : SetCondition)
      → set_from (condition_member c (key_and_value key value)) []
        ≡ done (key, value, write_condition c, 0) []
  unfolding set_from lookup same text
  from-untimed always = rw full refl
  from-untimed if_absent = rw full refl
  from-untimed if_present = rw full refl

  from-timed :
      (c : SetCondition) (n : ℕ)
      → (n == 0) ≡ false
      → set_from (condition_member c (with_time 0 key value n)) []
        ≡ done (key, value, write_condition c, n) []
  unfolding set_from lookup same text
  from-timed always n some_time = rw (some_time, full) refl
  from-timed if_absent n some_time = rw (some_time, full) refl
  from-timed if_present n some_time = rw (some_time, full) refl

pub set_args-set_record :
    (key value : Bytes) (c : SetCondition) (ttl_ms : ℕ)
    → is_empty key ≡ false
    → ttl_ms < u64_mod
    → set_args (set_record key value c ttl_ms) ≡ done (key, value, write_condition c, ttl_ms) []
unfolding set_record
set_args-set_record key value c ttl_ms full small = elim (Bool-cases (ltb 0 ttl_ms)) [
  | inl y ↦
      let some_time : (ttl_ms == 0) ≡ false = ground arith in
      rw y (
        unfold set_args parse_string_body in
        ap (λ r. continue r set_from) (read-timed key value c ttl_ms small)
        ∙ from-timed key value full c ttl_ms some_time)
  | inr n ↦
      let zero_time : ttl_ms ≡ 0 = ground arith in
      rw zero_time (
        unfold set_args parse_string_body in
        ap (λ r. continue r set_from) (read-untimed key value c) ∙ from-untimed key value full c)
]
