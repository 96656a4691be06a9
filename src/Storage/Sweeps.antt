-- ===== src/Storage/Sweeps.antt =====
-- `DbSize`, `Keys`, `Scan` and `PurgeExpired` of src/storage/memory_store.cpp: the loops over all
-- shards.
use gate_keeper.Base.{
  ℕ, ◌+◌, ◌-◌, ◌*◌, ◌/◌, ◌%◌, ◌^◌, ◌&&◌, not, none, some, List, [], ◌∷◌, ◌++◌, Bytes, ltb, leb,
  ◌==◌, if◌then◌else◌, length, drop,
}
use gate_keeper.Tables.{TableOps}
use gate_keeper.Storage.Entry.{Entry, is_expired}
use gate_keeper.Storage.Pattern.{match_pattern}
use gate_keeper.Storage.Purge
use gate_keeper.Storage.Shard.{StorageShard}
use gate_keeper.Storage.Store.{MemoryStore, num_shards}

module _ ⦃T : TableOps⦄ where
  -- the callbacks of `DbSize` and of `Keys`
  unfoldable pub count_live : ℕ → List (Bytes × Entry) → ℕ → ℕ
  unfolding is_expired
  count_live now [] n = n
  count_live now ((k, e) ∷ l) n = count_live now l (if is_expired e now then n else n + 1)

  unfoldable pub live_keys : Bytes → ℕ → List (Bytes × Entry) → List Bytes → List Bytes
  unfolding is_expired match_pattern
  live_keys pattern now [] matched = matched
  live_keys pattern now ((k, e) ∷ l) matched =
      live_keys pattern now l
        (if not (is_expired e now) && match_pattern pattern k then matched ++ k ∷ [] else matched)

  unfoldable pub count_shards : ℕ → List StorageShard → ℕ → ℕ
  unfolding count_live
  count_shards now [] n = n
  count_shards now (s ∷ ss) n = count_shards now ss (count_live now (T.entries s.entries) n)

  unfoldable pub db_size : ℕ → MemoryStore → ℕ
  unfolding count_shards
  db_size now m = count_shards now m.shards 0

  unfoldable pub keys_of_shards : Bytes → ℕ → List StorageShard → List Bytes → List Bytes
  unfolding live_keys
  keys_of_shards pattern now [] matched = matched
  keys_of_shards pattern now (s ∷ ss) matched =
      keys_of_shards pattern now ss (live_keys pattern now (T.entries s.entries) matched)

  unfoldable pub keys : Bytes → ℕ → MemoryStore → List Bytes
  unfolding keys_of_shards
  keys pattern now m = keys_of_shards pattern now m.shards []

  unfoldable pub purge_shards : ℕ → ℕ → List StorageShard → ℕ × List StorageShard
  purge_shards sample_limit now [] = (0, [])
  purge_shards sample_limit now (s ∷ ss) =
      let (n, s') = Purge.purge_expired sample_limit now s in
      let (total, ss') = purge_shards sample_limit now ss in (n + total, s' ∷ ss')

  unfoldable pub purge_expired : ℕ → ℕ → MemoryStore → ℕ × MemoryStore
  unfolding purge_shards
  purge_expired sample_limit now m =
      let (total, ss) = purge_shards sample_limit now m.shards in (total, record m { shards = ss })

  -- the keys of one `HashTable::Scan` that are still live
  unfoldable pub scanned_live : ℕ → StorageShard → List Bytes → List Bytes → List Bytes
  unfolding is_expired
  scanned_live now s [] result = result
  scanned_live now s (k ∷ ks) result = scanned_live now s ks (elim (T.find k s.entries) [
    | none ↦ result
    | some e ↦ if is_expired e now then result else result ++ k ∷ []
  ])

  -- the loop of `Scan` over the shards from `shard_idx` on: the cursor's two halves, and the keys
  unfoldable pub scan_shards : ℕ → ℕ → List StorageShard → ℕ → ℕ → List Bytes → ℕ × ℕ × List Bytes
  unfolding scanned_live
  scan_shards now count [] shard_idx bucket_cursor result = (shard_idx, bucket_cursor, result)
  scan_shards now count (s ∷ ss) shard_idx bucket_cursor result =
      let (next_bucket_cursor, ks) = T.scan bucket_cursor (count - length result) s.entries in
      let result' = scanned_live now s ks result in
      let rest = scan_shards now count ss (shard_idx + 1) 0 result' in
      if leb count (length result)
      then (shard_idx, bucket_cursor, result)
      else if next_bucket_cursor == 0
      then rest
      else (shard_idx, next_bucket_cursor, result')

  unfoldable pub scan : ℕ → ℕ → ℕ → MemoryStore → ℕ × List Bytes
  unfolding scan_shards
  scan cursor count now m =
      let wanted : ℕ = if count == 0 then 10 else count in
      let shard_idx = cursor / 2 ^ 32 in
      if leb num_shards shard_idx
      then (0, [])
      else (let (idx, bucket_cursor, result) =
            scan_shards now wanted (drop shard_idx m.shards) shard_idx (cursor % 2 ^ 32) [] in
          (if ltb idx num_shards then idx * 2 ^ 32 + bucket_cursor % 2 ^ 32 else 0, result))
