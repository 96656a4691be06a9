-- ===== src/Storage/Ttl.antt =====
-- `Expire`, `Ttl`, `Pttl` and `Persist` of src/storage/memory_store.cpp, on one shard.
pub mod Deadlines
use gate_keeper.Base.{
  ℕ, ◌+◌, ◌-◌, ◌/◌, ◌^◌, ltb, ℤ, pos, negsuc, Bool, true, false, Option, none, some, Bytes, ◌==◌,
  if◌then◌else◌,
}
use gate_keeper.Tables.{TableOps}
use gate_keeper.Storage.Decimal.{add64}
use gate_keeper.Storage.Entry.{Entry}
use gate_keeper.Storage.Shard.{StorageShard, look_up, drop_entry}

-- `static_cast<std::int64_t>` of an unsigned value
abbrev pub to_int64 : ℕ → ℤ
to_int64 n = if ltb n (2 ^ 63) then pos n else negsuc (2 ^ 64 - n - 1)

module _ ⦃T : TableOps⦄ where
  -- `existing->meta.expire_at_ms = at`
  abbrev pub set_deadline : Bytes → Entry → ℕ → StorageShard → StorageShard
  set_deadline key e at s = record s {
    entries = T.write key (record e { meta = record (e.meta) { expire_at_ms = at } }) s.entries;
  }

  -- `Expire` behind the look-up
  unfoldable pub expire_existing : Bytes → ℕ → ℕ → Option Entry → StorageShard → Bool × StorageShard
  expire_existing key ttl_ms now none s = (false, s)
  expire_existing key ttl_ms now (some e) s =
      if ttl_ms == 0
      then (true, drop_entry key s)
      else (true, set_deadline key e (add64 now ttl_ms) s)

  unfoldable pub expire : Bytes → ℕ → ℕ → StorageShard → Bool × StorageShard
  unfolding look_up expire_existing
  expire key ttl_ms now s =
      let (existing, s') = look_up key now s in expire_existing key ttl_ms now existing s'

  -- A live entry's deadline is after `now`, so that the difference does not wrap. A quotient by 1000
  -- fits an `std::int64_t`.
  unfoldable pub ttl : Bytes → ℕ → StorageShard → ℤ × StorageShard
  unfolding look_up
  ttl key now s =
      let (existing, s') = look_up key now s in
      (
        elim existing [
          | none ↦ negsuc 1
          | some e ↦
              if e.meta.expire_at_ms == 0
              then negsuc 0
              else pos (add64 (e.meta.expire_at_ms - now) 999 / 1000)
        ],
        s',
      )

  unfoldable pub pttl : Bytes → ℕ → StorageShard → ℤ × StorageShard
  unfolding look_up
  pttl key now s =
      let (existing, s') = look_up key now s in
      (
        elim existing [
          | none ↦ negsuc 1
          | some e ↦
              if e.meta.expire_at_ms == 0 then negsuc 0 else to_int64 (e.meta.expire_at_ms - now)
        ],
        s',
      )

  -- `Persist` behind the look-up
  unfoldable pub persist_existing : Bytes → Option Entry → StorageShard → Bool × StorageShard
  persist_existing key none s = (false, s)
  persist_existing key (some e) s =
      if e.meta.expire_at_ms == 0 then (false, s) else (true, set_deadline key e 0 s)

  unfoldable pub persist : Bytes → ℕ → StorageShard → Bool × StorageShard
  unfolding look_up persist_existing
  persist key now s = let (existing, s') = look_up key now s in persist_existing key existing s'
