-- ===== src/Storage/Shard.antt =====
-- `StorageShard` of include/gatekeeper/storage/memory_store.h, and the look-up that starts most
-- operations of src/storage/memory_store.cpp. `CurrentTimeMs` is the argument `now`, and what a
-- shard's mutex guards is one step here.
pub mod Live
use gate_keeper.Base.{ℕ, Bool, Option, none, some, Bytes, if◌then◌else◌}
use gate_keeper.Tables.{TableOps}
use gate_keeper.Storage.Entry.{Entry, RateLimitRecord, Reservation, IdempotencyRecord, is_expired}

module _ ⦃T : TableOps⦄ where
  pub record StorageShard : Type 0 where
    pub entries : T.Table Entry
    pub rate_limits : T.Table RateLimitRecord
    pub reservations : T.Table Reservation
    pub idempotency_records : T.Table IdempotencyRecord

  abbrev pub new_shard : StorageShard
  new_shard = record {
    entries = T.empty;
    rate_limits = T.empty;
    reservations = T.empty;
    idempotency_records = T.empty;
  }

  abbrev pub drop_entry : Bytes → StorageShard → StorageShard
  drop_entry key s = record s { entries = (T.erase key s.entries).0 }

  -- `Find`, and `Erase` if the entry has expired: the entry that is left, and the shard
  unfoldable pub look_up : Bytes → ℕ → StorageShard → Option Entry × StorageShard
  unfolding is_expired
  look_up key now s = elim (T.find key s.entries) [
    | none ↦ (none, s)
    | some e ↦ if is_expired e now then (none, drop_entry key s) else (some e, s)
  ]
