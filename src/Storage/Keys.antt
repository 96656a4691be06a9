-- ===== src/Storage/Keys.antt =====
-- `Set`, `Get`, `Del`, `Exists`, `Type` of src/storage/memory_store.cpp, on one shard.
pub mod Values
use gate_keeper.Base.{ℕ, ◌+◌, Bool, true, false, Option, none, some, Bytes, ltb, if◌then◌else◌}
use gate_keeper.Tables.{TableOps}
use gate_keeper.Storage.Decimal.{add64}
use gate_keeper.Storage.Entry.{
  DataType, none_type, string_type, Entry, WriteCondition, always, if_absent, if_present,
}
use gate_keeper.Storage.Shard.{StorageShard, look_up}

-- `ttl_ms > 0 ? now + ttl_ms : 0`
abbrev pub expiry : ℕ → ℕ → ℕ
expiry ttl_ms now = if ltb 0 ttl_ms then add64 now ttl_ms else 0

-- whether the condition lets the write through, for an entry that is there or not
unfoldable pub admits : WriteCondition → Option Entry → Bool
admits if_absent (some e) = false
admits if_present none = false
admits _ _ = true

module _ ⦃T : TableOps⦄ where
  unfoldable pub store_value : Bytes → Bytes → ℕ → ℕ → Option Entry → StorageShard → StorageShard
  store_value key value ttl_ms now none s = record s {
    entries =
        T.insert key
          (record {
            key = key;
            value = value;
            meta = record {
              type = string_type;
              created_at_ms = now;
              expire_at_ms = expiry ttl_ms now;
            };
          })
          s.entries;
  }
  store_value key value ttl_ms now (some e) s = record s {
    entries =
        T.write key
          (record e {
            value = value;
            meta = record (e.meta) { type = string_type; expire_at_ms = expiry ttl_ms now };
          })
          s.entries;
  }

  unfoldable pub set : Bytes → Bytes → WriteCondition → ℕ → ℕ → StorageShard → Bool × StorageShard
  unfolding look_up admits store_value
  set key value condition ttl_ms now s =
      let (existing, s') = look_up key now s in
      if admits condition existing
      then (true, store_value key value ttl_ms now existing s')
      else (false, s')

  unfoldable pub get : Bytes → ℕ → StorageShard → Option Bytes × StorageShard
  unfolding look_up
  get key now s =
      let (existing, s') = look_up key now s in
      (elim existing [ none ↦ none | some e ↦ some e.value ], s')

  unfoldable pub del : Bytes → StorageShard → Bool × StorageShard
  del key s = let (t, found) = T.erase key s.entries in (found, record s { entries = t })

  unfoldable pub exists : Bytes → ℕ → StorageShard → Bool × StorageShard
  unfolding look_up
  exists key now s =
      let (existing, s') = look_up key now s in (elim existing [ none ↦ false | some e ↦ true ], s')

  unfoldable pub type_of : Bytes → ℕ → StorageShard → DataType × StorageShard
  unfolding look_up
  type_of key now s =
      let (existing, s') = look_up key now s in
      (elim existing [ none ↦ none_type | some e ↦ e.meta.type ], s')
