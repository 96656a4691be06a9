-- ===== src/Storage/Store.antt =====
-- `MemoryStore` of include/gatekeeper/storage/memory_store.h and src/storage/memory_store.cpp: 64
-- shards, of which a key's FNV-1a hash chooses one, and the two sequence numbers.
pub mod Routing
pub mod Contents
use Prim.Native.Nat.{bit_xor, bit_and}
use gate_keeper.Base.{
  ℕ, zero, suc, ◌+◌, ◌-◌, ◌*◌, ◌/◌, ◌%◌, ◌^◌, ℤ, Bool, true, false, ◌&&◌, not, Option, none, some,
  List, [], ◌∷◌, ◌++◌, Bytes, ltb, leb, ◌==◌, if◌then◌else◌, length, get_or, replicate,
}
use gate_keeper.Base
use gate_keeper.Tables.{TableOps}
use gate_keeper.Storage.Decimal.{u64_mod}
use gate_keeper.Storage.Entry.{
  DataType, Entry, WriteCondition, IncrResult, RateLimitResult, ReservationResult, CommitResult,
  RollbackResult, IdempotencyRecord, IdempotencyBeginResult, IdempotencyCompleteResult,
  IdempotencyFailResult, is_expired,
}
use gate_keeper.Storage.Counter
use gate_keeper.Storage.Idempotency
use gate_keeper.Storage.Keys
use gate_keeper.Storage.Pattern.{match_pattern}
use gate_keeper.Storage.Purge
use gate_keeper.Storage.Quota
use gate_keeper.Storage.RateLimit
use gate_keeper.Storage.RateLimit.{Doubles}
use gate_keeper.Storage.Shard.{StorageShard, new_shard}
use gate_keeper.Storage.Ttl

abbrev pub num_shards : ℕ
num_shards = 64

-- the loop of `GetShard`
unfoldable pub fnv1a : Bytes → ℕ → ℕ
fnv1a [] hash = hash
fnv1a (c ∷ key) hash = fnv1a key (bit_xor hash c * 1099511628211 % u64_mod)

unfoldable pub shard_index : Bytes → ℕ
unfolding fnv1a
shard_index key = bit_and (fnv1a key 14695981039346656037) (num_shards - 1)

module _ ⦃T : TableOps⦄ where
  pub record MemoryStore : Type 0 where
    pub shards : List StorageShard
    pub next_reservation_seq : ℕ
    pub next_idempotency_seq : ℕ

  unfoldable pub new_store : MemoryStore
  new_store = record {
    shards = replicate num_shards new_shard;
    next_reservation_seq = 1;
    next_idempotency_seq = 1;
  }

  abbrev pub get_shard : Bytes → MemoryStore → StorageShard
  get_shard key m = get_or m.shards (shard_index key) new_shard

  abbrev pub put_shard : Bytes → StorageShard → MemoryStore → MemoryStore
  put_shard key s m = record m { shards = Base.set m.shards (shard_index key) s }

  -- an operation on the shard of a key
  unfoldable pub on_shard :
      {A : Type 0} → Bytes → (StorageShard → A × StorageShard) → MemoryStore → A × MemoryStore
  on_shard key f m = let (a, s) = f (get_shard key m) in (a, put_shard key s m)

  unfoldable pub set : Bytes → Bytes → WriteCondition → ℕ → ℕ → MemoryStore → Bool × MemoryStore
  unfolding on_shard
  set key value condition ttl_ms now = on_shard key (Keys.set key value condition ttl_ms now)

  unfoldable pub get : Bytes → ℕ → MemoryStore → Option Bytes × MemoryStore
  unfolding on_shard
  get key now = on_shard key (Keys.get key now)

  unfoldable pub del : Bytes → MemoryStore → Bool × MemoryStore
  unfolding on_shard
  del key = on_shard key (Keys.del key)

  unfoldable pub exists : Bytes → ℕ → MemoryStore → Bool × MemoryStore
  unfolding on_shard
  exists key now = on_shard key (Keys.exists key now)

  unfoldable pub type_of : Bytes → ℕ → MemoryStore → DataType × MemoryStore
  unfolding on_shard
  type_of key now = on_shard key (Keys.type_of key now)

  unfoldable pub expire : Bytes → ℕ → ℕ → MemoryStore → Bool × MemoryStore
  unfolding on_shard
  expire key ttl_ms now = on_shard key (Ttl.expire key ttl_ms now)

  unfoldable pub ttl : Bytes → ℕ → MemoryStore → ℤ × MemoryStore
  unfolding on_shard
  ttl key now = on_shard key (Ttl.ttl key now)

  unfoldable pub pttl : Bytes → ℕ → MemoryStore → ℤ × MemoryStore
  unfolding on_shard
  pttl key now = on_shard key (Ttl.pttl key now)

  unfoldable pub persist : Bytes → ℕ → MemoryStore → Bool × MemoryStore
  unfolding on_shard
  persist key now = on_shard key (Ttl.persist key now)

  unfoldable pub incr_by : Bytes → ℤ → ℕ → ℕ → MemoryStore → IncrResult × MemoryStore
  unfolding on_shard
  incr_by key delta init_ttl_ms now = on_shard key (Counter.incr_by key delta init_ttl_ms now)

  unfoldable pub rate_limit :
      Doubles → Bytes → ℕ → ℕ → ℕ → ℕ → MemoryStore → RateLimitResult × MemoryStore
  unfolding on_shard
  rate_limit D key limit window_ms cost now =
      on_shard key (RateLimit.rate_limit D key limit window_ms cost now)

  unfoldable pub reserve_quota : Bytes → ℕ → ℕ → ℕ → MemoryStore → ReservationResult × MemoryStore
  reserve_quota key amount ttl_ms now m =
      let (result, seq, s) =
        Quota.reserve_quota key amount ttl_ms now m.next_reservation_seq (get_shard key m) in
      (result, record (put_shard key s m) { next_reservation_seq = seq })

  unfoldable pub commit_quota : Bytes → Bytes → ℕ → ℕ → MemoryStore → CommitResult × MemoryStore
  unfolding on_shard
  commit_quota key res_id actual_amount now =
      on_shard key (Quota.commit_quota key res_id actual_amount now)

  unfoldable pub rollback_quota : Bytes → Bytes → ℕ → MemoryStore → RollbackResult × MemoryStore
  unfolding on_shard
  rollback_quota key res_id now = on_shard key (Quota.rollback_quota key res_id now)

  unfoldable pub idem_begin :
      Bytes → Bytes → ℕ → Bytes → ℕ → MemoryStore → IdempotencyBeginResult × MemoryStore
  idem_begin key request_hash ttl_ms owner_token now m =
      let (result, seq, s) =
        Idempotency.idem_begin key request_hash ttl_ms owner_token now m.next_idempotency_seq
          (get_shard key m) in
      (result, record (put_shard key s m) { next_idempotency_seq = seq })

  unfoldable pub idem_complete :
      Bytes → Bytes → ℤ → Bytes → ℕ → MemoryStore → IdempotencyCompleteResult × MemoryStore
  unfolding on_shard
  idem_complete key owner_token response_code response_body now =
      on_shard key (Idempotency.idem_complete key owner_token response_code response_body now)

  unfoldable pub idem_fail :
      Bytes → Bytes → Bytes → ℕ → MemoryStore → IdempotencyFailResult × MemoryStore
  unfolding on_shard
  idem_fail key owner_token error_message now =
      on_shard key (Idempotency.idem_fail key owner_token error_message now)

  unfoldable pub idem_get : Bytes → ℕ → MemoryStore → Option IdempotencyRecord × MemoryStore
  unfolding on_shard
  idem_get key now = on_shard key (Idempotency.idem_get key now)
