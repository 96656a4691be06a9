-- ===== src/Commands/StringBody/Members.antt =====
-- The members of a `SET` body, as string_body.cpp reads them.
use gate_keeper.Base.{
  ℕ, suc, ◌+◌, ◌≡◌, ◌<◌, ◌≤◌, refl, sym, ◌∙◌, ap, true, false, some, [], ◌∷◌, ◌++◌, Bytes, text,
  length, arith, ◌==◌,
}
use gate_keeper.Commands.StringBody.{
  BodyValue, string_value, number, StringBody, emplace, members_loop, read, string, string_loop,
  expect, take_char, skip, value_at, end, is_blank,
}
use gate_keeper.Commands.Bodies.{opening}
use gate_keeper.Commands.StringBody.Quoted.{string-quote_json}
use gate_keeper.Json.{done, literal, number_loop}
use gate_keeper.Json.Quote.{quote_json}
use gate_keeper.Json.Numbers.{number_loop-to_string, number_head}
use gate_keeper.Storage.Decimal.{to_string, is_digit, u64_mod}

pub members_loop-next :
    (fuel : ℕ) (body body' : StringBody) (s key v rest : Bytes) (value : BodyValue)
    → string s ≡ done key (b':' ∷ v)
    → value_at (skip v) ≡ done value (b',' ∷ rest)
    → emplace key value body ≡ some body'
    → members_loop (suc fuel) body s ≡ members_loop fuel body' rest
unfolding members_loop expect take_char
members_loop-next fuel body body' s key v rest value named valued fresh =
    rw named (rw valued (rw fresh refl))

pub members_loop-last :
    (fuel : ℕ) (body body' : StringBody) (s key v : Bytes) (value : BodyValue)
    → string s ≡ done key (b':' ∷ v)
    → value_at (skip v) ≡ done value (b'}' ∷ [])
    → emplace key value body ≡ some body'
    → members_loop (suc fuel) body s ≡ done body' []
unfolding members_loop expect take_char end
members_loop-last fuel body body' s key v value named valued fresh =
    rw named (rw valued (rw fresh refl))

value_at-quote_json :
    (s rest : Bytes) → value_at (skip (quote_json s ++ rest)) ≡ done (string_value s) rest
unfolding value_at skip
value_at-quote_json s rest =
    let opens : string (quote_json s ++ rest) ≡ done s rest = string-quote_json s rest in
    unfold quote_json in rw opens refl

value_at-digit :
    (c n : ℕ) (s rest : Bytes)
    → 48 ≤ c
    → c ≤ 57
    → number_loop 0 (c ∷ s) ≡ done n rest
    → value_at (skip (c ∷ s)) ≡ done (number n) rest
unfolding value_at literal text
value_at-digit c n s rest lower upper loop =
    let blank : is_blank c ≡ false = ground arith in
    let quote : (c == 34) ≡ false = ground arith in
    let t : (c == b't') ≡ false = ground arith in
    let f : (c == b'f') ≡ false = ground arith in
    let digit : is_digit c ≡ true = ground arith in
    let skipped : skip (c ∷ s) ≡ c ∷ s = unfold skip in rw blank refl in
    ap value_at skipped ∙ rw (quote, t, f, digit, loop) refl

pub value_at-to_string :
    (n c : ℕ) (rest : Bytes)
    → n < u64_mod
    → is_digit c ≡ false
    → value_at (skip (to_string n ++ (c ∷ rest))) ≡ done (number n) (c ∷ rest)
value_at-to_string n c rest small stop =
    let (head, tail, split, lower, upper) = number_head n in
    let whole : to_string n ++ (c ∷ rest) ≡ head ∷ (tail ++ (c ∷ rest)) =
      ap (λ s. s ++ (c ∷ rest)) split in
    let loop : number_loop 0 (head ∷ (tail ++ (c ∷ rest))) ≡ done n (c ∷ rest) =
      ap (number_loop 0) (sym whole) ∙ number_loop-to_string n (c ∷ rest) small stop in
    ap (λ s. value_at (skip s)) whole
    ∙ value_at-digit head n (tail ++ (c ∷ rest)) (c ∷ rest) lower upper loop

abbrev pub key_and_value : Bytes → Bytes → StringBody
key_and_value key value = (text "key", string_value key) ∷ (text "value", string_value value) ∷ []

-- a `SET` body behind its first two members, in a loop that can still make two rounds
module _ (key value : Bytes) where
  abbrev pub behind : Bytes → Bytes
  behind after = quote_json key ++ (text ",\"value\":" ++ (quote_json value ++ after))

  named_key : (s : Bytes) → string (text "\"key\":" ++ s) ≡ done (text "key") (b':' ∷ s)
  unfolding string string_loop expect take_char skip text
  named_key s = refl

  named_value : (s : Bytes) → string (text "\"value\":" ++ s) ≡ done (text "value") (b':' ∷ s)
  unfolding string string_loop expect take_char skip text
  named_value s = refl

  started :
      (s : Bytes)
      → read (opening s)
        ≡ members_loop (suc (length (text "\"key\":" ++ s))) [] (text "\"key\":" ++ s)
  unfolding read expect take_char skip text
  started s = refl

  long : (s : Bytes) → length (text "\"key\":" ++ s) ≡ suc (suc (suc (length s + 3)))
  unfolding text
  long s = omega arith

  fresh_value :
      emplace (text "value") (string_value value) ((text "key", string_value key) ∷ [])
      ≡ some (key_and_value key value)
  unfolding emplace text
  fresh_value = refl

  pub first_two :
      (after : Bytes)
      → (fuel : ℕ) × (read (opening (behind (b',' ∷ after)))
          ≡ members_loop (suc (suc fuel)) (key_and_value key value) after)
  unfolding text
  first_two after =
      let quoted = quote_json value ++ (b',' ∷ after) in
      let t = text "\"key\":" ++ behind (b',' ∷ after) in
      let n = length (behind (b',' ∷ after)) + 3 in
      (
        n,
        started (behind (b',' ∷ after))
            ∙ members_loop-next (length t) [] ((text "key", string_value key) ∷ []) t (text "key")
                (behind (b',' ∷ after)) (text "\"value\":" ++ quoted) (string_value key)
                (named_key (behind (b',' ∷ after)))
                (value_at-quote_json key (b',' ∷ (text "\"value\":" ++ quoted)))
                (unfold emplace in refl)
            ∙ ap
                (λ k.
                  members_loop k ((text "key", string_value key) ∷ [])
                    (text "\"value\":" ++ quoted))
                (long (behind (b',' ∷ after)))
            ∙ members_loop-next (suc (suc n)) ((text "key", string_value key) ∷ [])
                (key_and_value key value) (text "\"value\":" ++ quoted) (text "value") quoted after
                (string_value value) (named_value quoted) (value_at-quote_json value (b',' ∷ after))
                fresh_value,
      )

  pub only_two : read (opening (behind (b'}' ∷ []))) ≡ done (key_and_value key value) []
  unfolding text
  only_two =
      let quoted = quote_json value ++ (b'}' ∷ []) in
      let t = text "\"key\":" ++ behind (b'}' ∷ []) in
      let n = length (behind (b'}' ∷ [])) + 3 in
      started (behind (b'}' ∷ []))
      ∙ members_loop-next (length t) [] ((text "key", string_value key) ∷ []) t (text "key")
          (behind (b'}' ∷ [])) (text "\"value\":" ++ quoted) (string_value key)
          (named_key (behind (b'}' ∷ [])))
          (value_at-quote_json key (b',' ∷ (text "\"value\":" ++ quoted))) (unfold emplace in refl)
      ∙ ap (λ k. members_loop k ((text "key", string_value key) ∷ []) (text "\"value\":" ++ quoted))
          (long (behind (b'}' ∷ [])))
      ∙ members_loop-last (suc (suc n)) ((text "key", string_value key) ∷ [])
          (key_and_value key value) (text "\"value\":" ++ quoted) (text "value") quoted
          (string_value value) (named_value quoted) (value_at-quote_json value (b'}' ∷ []))
          fresh_value

-- the body of `GET`
pub only_key :
    (key : Bytes)
    → read (opening (quote_json key ++ (b'}' ∷ []))) ≡ done ((text "key", string_value key) ∷ []) []
only_key key =
    let quoted = quote_json key ++ (b'}' ∷ []) in
    let t = text "\"key\":" ++ quoted in
    started key key quoted
    ∙ members_loop-last (length t) [] ((text "key", string_value key) ∷ []) t (text "key") quoted
        (string_value key) (named_key key key quoted) (value_at-quote_json key (b'}' ∷ []))
        (unfold emplace in refl)
