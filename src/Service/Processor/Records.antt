-- ===== src/Service/Processor/Records.antt =====
-- The records that `Processor` (src/service/processor.cpp) quotes, and the readers of the commands that
-- they name (src/domain/), together.
use gate_keeper.Base.{
  ℕ, ◌≡◌, ◌<◌, refl, ℤ, pos, Bool-cases, inl, inr, true, false, [], ◌∷◌, ◌++◌, Bytes, text, same,
  is_empty, flatten, arith, ltb,
}
use gate_keeper.Commands.{members}
use gate_keeper.Commands.Bodies.{opening, members_two, members_three, optional_members_one}
use gate_keeper.Commands.Ttl.{p_expire_member, p_expire_args, no_expire_args}
use gate_keeper.Commands.Counter.{IncrArgs, no_incr_args, incr_member, incr_by_args}
use gate_keeper.Commands.Keys.{keys_member, keys_args}
use gate_keeper.Commands.Reservation.{
  QuotaArgs, no_quota_args, quota_init_member, quota_init_args, rollback_member, rollback_args,
}
use gate_keeper.Json.{done, string, expect, take_char, skip, string_loop}
use gate_keeper.Json.Quote.{quote_json}
use gate_keeper.Json.Strings.{string-quote_json}
use gate_keeper.Json.Numbers.{unsigned_number-to_string, signed_number-to_string_ℤ}
use gate_keeper.Service.Replies.{key_record, ttl_part}
use gate_keeper.Storage.Decimal.{to_string, to_string_ℤ, u64_mod, is_digit}
use gate_keeper.Storage.Decimal.RoundTrip.{IsInt64}

pub p_expire_args-record :
    (key : Bytes) (ttl_ms : ℕ)
    → is_empty key ≡ false
    → ttl_ms < u64_mod
    → p_expire_args (key_record key (text ",\"ttl_ms\":" ∷ to_string ttl_ms ∷ text "}" ∷ []))
      ≡ done (record { key = key; time = ttl_ms; has_time = true }) []
unfolding p_expire_args key_record flatten
p_expire_args-record key ttl_ms full small =
    let number = to_string ttl_ms ++ (b'}' ∷ []) in
    let after = text "\"ttl_ms\":" ++ number in
    let named : string after ≡ done (text "ttl_ms") (b':' ∷ number) =
      unfold string string_loop expect take_char skip text in refl in
    let first : p_expire_member (text "key") no_expire_args (quote_json key ++ (b',' ∷ after))
        ≡ done (record no_expire_args { key = key }) (b',' ∷ after) =
      unfold p_expire_member text same in rw (string-quote_json key (b',' ∷ after)) refl in
    let second : p_expire_member (text "ttl_ms") (record no_expire_args { key = key }) number
        ≡ done (record { key = key; time = ttl_ms; has_time = true }) (b'}' ∷ []) =
      unfold p_expire_member text same in
      rw (unsigned_number-to_string ttl_ms (b'}' ∷ []) small refl) refl in
    let read =
      members_two p_expire_member _ _ _ (quote_json key ++ (b',' ∷ after)) after (text "ttl_ms")
        number first named second in
    rw (p_expire_args, read, full) refl

pub quota_init_args-record :
    (key : Bytes) (amount : ℕ)
    → is_empty key ≡ false
    → amount < u64_mod
    → quota_init_args (key_record key (text ",\"amount\":" ∷ to_string amount ∷ text "}" ∷ []))
      ≡ done (record no_quota_args { key = key; amount = amount; has_amount = true }) []
unfolding quota_init_args key_record flatten
quota_init_args-record key amount full small =
    let number = to_string amount ++ (b'}' ∷ []) in
    let after = text "\"amount\":" ++ number in
    let named : string after ≡ done (text "amount") (b':' ∷ number) =
      unfold string string_loop expect take_char skip text in refl in
    let keyed : QuotaArgs = record no_quota_args { key = key } in
    let whole : QuotaArgs = record keyed { amount = amount; has_amount = true } in
    let first : quota_init_member (text "key") no_quota_args (quote_json key ++ (b',' ∷ after))
        ≡ done keyed (b',' ∷ after) =
      unfold quota_init_member text same in rw (string-quote_json key (b',' ∷ after)) refl in
    let second : quota_init_member (text "amount") keyed number ≡ done whole (b'}' ∷ []) =
      unfold quota_init_member text same in
      rw (unsigned_number-to_string amount (b'}' ∷ []) small refl) refl in
    let read =
      members_two quota_init_member no_quota_args keyed whole (quote_json key ++ (b',' ∷ after))
        after (text "amount") number first named second in
    rw (quota_init_args, read, full) refl

pub rollback_args-record :
    (key id : Bytes)
    → is_empty key ≡ false
    → is_empty id ≡ false
    → rollback_args (key_record key (text ",\"reservation_id\":" ∷ quote_json id ∷ text "}" ∷ []))
      ≡ done (record no_quota_args { key = key; reservation_id = id }) []
unfolding rollback_args key_record flatten
rollback_args-record key id full full' =
    let quoted = quote_json id ++ (b'}' ∷ []) in
    let after = text "\"reservation_id\":" ++ quoted in
    let named : string after ≡ done (text "reservation_id") (b':' ∷ quoted) =
      unfold string string_loop expect take_char skip text in refl in
    let keyed : QuotaArgs = record no_quota_args { key = key } in
    let whole : QuotaArgs = record keyed { reservation_id = id } in
    let first : rollback_member (text "key") no_quota_args (quote_json key ++ (b',' ∷ after))
        ≡ done keyed (b',' ∷ after) =
      unfold rollback_member text same in rw (string-quote_json key (b',' ∷ after)) refl in
    let second : rollback_member (text "reservation_id") keyed quoted ≡ done whole (b'}' ∷ []) =
      unfold rollback_member text same in rw (string-quote_json id (b'}' ∷ [])) refl in
    let read =
      members_two rollback_member no_quota_args keyed whole (quote_json key ++ (b',' ∷ after)) after
        (text "reservation_id") quoted first named second in
    rw (rollback_args, read, full, full') refl

pub keys_args-record :
    (key : Bytes) → keys_args (key_record key (text "}" ∷ [])) ≡ done (key ∷ []) []
unfolding keys_args key_record flatten
keys_args-record key =
    let first : keys_member (text "key") [] (quote_json key ++ (b'}' ∷ []))
        ≡ done (key ∷ []) (b'}' ∷ []) =
      unfold keys_member text same in rw (string-quote_json key (b'}' ∷ [])) refl in
    optional_members_one keys_member [] (key ∷ []) (quote_json key ++ (b'}' ∷ [])) first

-- the first two members of an `INCRBY` record, with what stands behind them
module _ (key : Bytes) (delta : ℤ) (small : IsInt64 delta) where
  abbrev keyed : IncrArgs
  keyed = record { key = key; delta = pos 0; has_delta = false; ttl_ms = 0 }

  abbrev given : IncrArgs
  given = record { key = key; delta = delta; has_delta = true; ttl_ms = 0 }

  incr_key :
      (after : Bytes)
      → incr_member (text "key") no_incr_args (quote_json key ++ (b',' ∷ after))
        ≡ done keyed (b',' ∷ after)
  unfolding incr_member text same
  incr_key after = rw (string-quote_json key (b',' ∷ after)) refl

  incr_named :
      (after : Bytes) → string (text "\"delta\":" ++ after) ≡ done (text "delta") (b':' ∷ after)
  unfolding string string_loop expect take_char skip text
  incr_named after = refl

  incr_delta :
      (c : ℕ) (after : Bytes)
      → is_digit c ≡ false
      → incr_member (text "delta") keyed (to_string_ℤ delta ++ (c ∷ after)) ≡ done given (c ∷ after)
  unfolding incr_member text same
  incr_delta c after stop = rw (signed_number-to_string_ℤ delta (c ∷ after) small stop) refl

  incr_without :
      members incr_member no_incr_args
        (opening (quote_json key ++ (text ",\"delta\":" ++ (to_string_ℤ delta ++ text "}"))))
      ≡ done given []
  unfolding text
  incr_without =
      let number = to_string_ℤ delta ++ (b'}' ∷ []) in
      let after = text "\"delta\":" ++ number in
      members_two incr_member no_incr_args keyed given (quote_json key ++ (b',' ∷ after)) after
        (text "delta") number (incr_key after) (incr_named number) (incr_delta b'}' [] refl)

  incr_with :
      (ttl_ms : ℕ)
      → ttl_ms < u64_mod
      → members incr_member no_incr_args (
          opening (
            quote_json key
            ++ (text ",\"delta\":"
                ++ (to_string_ℤ delta ++ (text ",\"ttl_ms\":" ++ (to_string ttl_ms ++ text "}"))))))
        ≡ done (record given { ttl_ms = ttl_ms }) []
  unfolding text
  incr_with ttl_ms small' =
      let time = to_string ttl_ms ++ (b'}' ∷ []) in
      let after' = text "\"ttl_ms\":" ++ time in
      let number = to_string_ℤ delta ++ (b',' ∷ after') in
      let after = text "\"delta\":" ++ number in
      let named' : string after' ≡ done (text "ttl_ms") (b':' ∷ time) =
        unfold string string_loop expect take_char skip in refl in
      let third : incr_member (text "ttl_ms") given time
          ≡ done (record given { ttl_ms = ttl_ms }) (b'}' ∷ []) =
        unfold incr_member same in
        rw (unsigned_number-to_string ttl_ms (b'}' ∷ []) small' refl) refl in
      members_three incr_member no_incr_args keyed given (record given { ttl_ms = ttl_ms })
        (quote_json key ++ (b',' ∷ after)) after (text "delta") number after' (text "ttl_ms") time
        (incr_key after) (incr_named number) (incr_delta b',' after' refl) named' third

pub incr_by_args-record :
    (key : Bytes) (delta : ℤ) (ttl_ms : ℕ)
    → is_empty key ≡ false
    → IsInt64 delta
    → ttl_ms < u64_mod
    → incr_by_args (
        key_record key
          (text ",\"delta\":" ∷ to_string_ℤ delta ∷ (ttl_part ttl_ms ++ (text "}" ∷ []))))
      ≡ done (record { key = key; delta = delta; has_delta = true; ttl_ms = ttl_ms }) []
unfolding incr_by_args key_record flatten
incr_by_args-record key delta ttl_ms full small small' = elim (Bool-cases (ltb 0 ttl_ms)) [
  | inl y ↦
      let read = incr_with key delta small ttl_ms small' in
      rw y (rw (incr_by_args, read, full) refl)
  | inr n ↦
      let none : ttl_ms ≡ 0 = ground arith in
      let read = incr_without key delta small in rw none (rw (incr_by_args, read, full) refl)
]
