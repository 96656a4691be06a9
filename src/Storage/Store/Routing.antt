-- ===== src/Storage/Store/Routing.antt =====
-- `GetShard` of src/storage/memory_store.cpp: every key has one of the 64 shards, and an operation on a
-- key leaves the other shards as they are.
use Prim.Native.Nat.{digits, bit_and-bitwise, bit_and}
use gate_keeper.Base.{
  ℕ, zero, suc, ◌/◌, ◌≤◌, ◌<◌, ◌≡◌, refl, ◌∙◌, min, Bytes, arith, ◌==◌, if◌then◌else◌, length,
  length-set, get_or-set, length-replicate,
}
use gate_keeper.Tables.{TableOps}
use gate_keeper.Storage.Shard.{StorageShard, new_shard}
use gate_keeper.Storage.Store.{
  num_shards, fnv1a, shard_index, MemoryStore, new_store, get_shard, put_shard, on_shard,
}

-- No digit of a conjunction exceeds the second number's.
and_le : (n a b : ℕ) → digits (λ b. zero) min n a b ≤ b
and_le zero a b = omega arith
and_le (suc n) zero b = omega arith
and_le (suc n) (suc a) b = let high = and_le n (suc a / 2) (b / 2) in omega (arith, high)

-- The index of every key is below the number of shards.
pub shard_index-lt : (k : Bytes) → shard_index k < num_shards
unfolding shard_index
shard_index-lt k =
    let hash = fnv1a k 14695981039346656037 in
    let masked : bit_and hash 63 ≤ 63 = rw (bit_and-bitwise hash 63) (and_le hash hash 63) in
    omega (arith, masked)

module _ ⦃T : TableOps⦄ where
  -- A store has its 64 shards.
  pub record IsStore (m : MemoryStore) : Type 0 where
    pub all_shards : length m.shards ≡ num_shards

  pub new_store-IsStore : IsStore new_store
  unfolding new_store
  new_store-IsStore = record { all_shards = length-replicate num_shards new_shard }

  put_shard-IsStore :
      (k : Bytes) (s : StorageShard) (m : MemoryStore) → IsStore m → IsStore (put_shard k s m)
  put_shard-IsStore k s m v = record {
    all_shards = length-set m.shards (shard_index k) s ∙ v.all_shards;
  }

  -- An operation on the shard of a key gives what it gives on that shard alone, keeps the 64
  -- shards, and leaves the shard of every key with another index as it was.
  pub on_shard-IsStore :
      {A : Type 0} (k q : Bytes) (f : StorageShard → A × StorageShard) (m : MemoryStore)
      → IsStore m
      → ((on_shard k f m).0 ≡ (f (get_shard k m)).0)
        × IsStore (on_shard k f m).1
        × (get_shard q (on_shard k f m).1
            ≡ (if shard_index k == shard_index q then (f (get_shard k m)).1 else get_shard q m))
  unfolding on_shard
  on_shard-IsStore k q f m v =
      let s = (f (get_shard k m)).1 in
      (
        refl,
        put_shard-IsStore k s m v,
        get_or-set m.shards (shard_index k) (shard_index q) s new_shard
            (rw v.all_shards (shard_index-lt k)),
      )
