-- ===== src/Storage/Counter.antt =====
-- `IncrBy` of src/storage/memory_store.cpp, on one shard.
pub mod Sums
use gate_keeper.Base.{
  ℕ, ◌+◌, ◌-◌, ◌^◌, ℤ, pos, negsuc, ◌+ℤ◌, ◌-ℤ◌, ltb_ℤ, Bool, true, false, ◌&&◌, ◌||◌, Option, none,
  some, [], Bytes, text, ◌==◌, if◌then◌else◌, length,
}
use gate_keeper.Tables.{TableOps}
use gate_keeper.Storage.Decimal.{to_string_ℤ, stoll}
use gate_keeper.Storage.Entry.{Entry, DataType, none_type, string_type, IncrResult}
use gate_keeper.Storage.Keys.{expiry}
use gate_keeper.Storage.Shard.{StorageShard, look_up}

abbrev pub int64_max : ℤ
int64_max = pos (2 ^ 63 - 1)

abbrev pub int64_min : ℤ
int64_min = negsuc (2 ^ 63 - 1)

-- `(delta > 0 && current > max - delta) || (delta < 0 && current < min - delta)`
unfoldable pub overflows : ℤ → ℤ → Bool
overflows current delta =
    (ltb_ℤ (pos 0) delta && ltb_ℤ (int64_max -ℤ delta) current)
    || (ltb_ℤ delta (pos 0) && ltb_ℤ current (int64_min -ℤ delta))

abbrev pub incr_error : Bytes → Bytes → IncrResult
incr_error code message = record {
  ok = false;
  value = pos 0;
  error_code = code;
  error_message = message;
}

abbrev pub incr_ok : ℤ → IncrResult
incr_ok value = record { ok = true; value = value; error_code = []; error_message = [] }

abbrev pub incr_not_an_integer : IncrResult
incr_not_an_integer =
    incr_error (text "ERR_NOT_AN_INTEGER") (text "value is not an integer or out of range")

-- `stoll` of the whole text, its exceptions included
unfoldable pub whole_integer : Bytes → Option ℤ
whole_integer s = elim (stoll s) [
  | none ↦ none
  | some (value, idx) ↦ if idx == length s then some value else none
]

abbrev pub is_string : DataType → Bool
is_string none_type = false
is_string string_type = true

module _ ⦃T : TableOps⦄ where
  -- the part behind the parse
  unfoldable pub add_delta : Bytes → ℤ → Entry → ℤ → StorageShard → IncrResult × StorageShard
  unfolding overflows
  add_delta key delta e current s =
      if overflows current delta
      then (incr_error (text "ERR_OVERFLOW") (text "increment or decrement would overflow"), s)
      else (
        incr_ok (current +ℤ delta),
        record s {
          entries = T.write key (record e { value = to_string_ℤ (current +ℤ delta) }) s.entries;
        },
      )

  -- `IncrBy` behind the look-up
  unfoldable pub incr_existing :
      Bytes → ℤ → ℕ → ℕ → Option Entry → StorageShard → IncrResult × StorageShard
  incr_existing key delta init_ttl_ms now none s = (
    incr_ok delta,
    record s {
      entries =
          T.insert key
            (record {
              key = key;
              value = to_string_ℤ delta;
              meta = record {
                type = string_type;
                created_at_ms = now;
                expire_at_ms = expiry init_ttl_ms now;
              };
            })
            s.entries;
    },
  )
  incr_existing key delta init_ttl_ms now (some e) s =
      if is_string e.meta.type
      then elim (whole_integer e.value) [
        | none ↦ (incr_not_an_integer, s)
        | some current ↦ add_delta key delta e current s
      ]
      else (
        incr_error (text "WRONGTYPE")
            (text "Operation against a key holding the wrong kind of value"),
        s,
      )

  unfoldable pub incr_by : Bytes → ℤ → ℕ → ℕ → StorageShard → IncrResult × StorageShard
  unfolding look_up incr_existing add_delta
  incr_by key delta init_ttl_ms now s =
      let (existing, s') = look_up key now s in incr_existing key delta init_ttl_ms now existing s'
