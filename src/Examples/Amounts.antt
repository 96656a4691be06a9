-- ===== src/Examples/Amounts.antt =====
-- Tests on counters and quotas (src/storage/memory_store.cpp).
use gate_keeper.Base.{pos, negsuc, ◌+ℤ◌, ◌-◌, ◌≡◌, refl, true, some, [], ◌∷◌, Bytes, arith}
use gate_keeper.Examples.{tables, hashing, user, entry_of, shard_of, live-shard_of}
use gate_keeper.Storage.Counter.Sums.{IsCounter, count_up, total, count_up-total}
use gate_keeper.Storage.Decimal.{to_string, to_string_ℤ}
use gate_keeper.Storage.Entry.{Entry}
use gate_keeper.Storage.Quota.{reserve_quota, commit_quota, rollback_quota}
use gate_keeper.Storage.Quota.Cycles.{commit-reserve, rollback-reserve, rollback-reserve_late}
use gate_keeper.Storage.Quota.Reserved.{IsLivePool}
use gate_keeper.Storage.Quota.Settled.{IsSettled}
use gate_keeper.Storage.Shard.{StorageShard}
use gate_keeper.Storage.Shard.Live.{live}

abbrev hundred : Entry
hundred = entry_of (to_string 100)

abbrev pool : StorageShard
pool = shard_of hundred

pool-IsLivePool : IsLivePool user 100 1000 pool
pool-IsLivePool = record {
  entry = hundred;
  shown = live-shard_of 1000 hundred;
  holds = record { printed = refl; small = omega arith };
}

abbrev reply_id : Bytes
reply_id = (reserve_quota user 30 500 1000 1 pool).0.reservation_id

abbrev reserved : StorageShard
reserved = (reserve_quota user 30 500 1000 1 pool).2

commit-reserve_example :
    IsSettled user reply_id (100 - 12) (commit_quota user reply_id 12 1200 reserved).1
commit-reserve_example =
    commit-reserve user 100 30 500 1000 1 pool (omega arith) (omega arith) (omega arith)
      pool-IsLivePool (omega arith) 12 1200 (omega arith)

rollback-reserve_example :
    IsSettled user reply_id 100 (rollback_quota user reply_id 1200 reserved).1
rollback-reserve_example =
    rollback-reserve user 100 30 500 1000 1 pool (omega arith) (omega arith) (omega arith)
      pool-IsLivePool (omega arith) 1200 (omega arith)

rollback-reserve_late_example :
    ((rollback_quota user reply_id 1600 reserved).0.rolled_back ≡ true)
    × ((rollback_quota user reply_id 1600 reserved).0.refunded ≡ 30)
    × IsSettled user reply_id (100 - 30) (rollback_quota user reply_id 1600 reserved).1
rollback-reserve_late_example =
    rollback-reserve_late user 100 30 500 1000 1 pool (omega arith) (omega arith) (omega arith)
      pool-IsLivePool (omega arith) 1600 (omega arith)

abbrev forty : Entry
forty = entry_of (to_string_ℤ (pos 40))

forty-IsCounter : IsCounter (pos 40) forty
forty-IsCounter = record { typed = refl; printed = refl; in_range = omega arith }

count_up-total_example :
    (e : Entry) × (live user 1000 (count_up user 1000 (pos 2 ∷ negsuc 6 ∷ []) (shard_of forty))
      ≡ some e)
    × IsCounter (total (pos 40) (pos 2 ∷ negsuc 6 ∷ [])) e
unfolding ◌+ℤ◌
count_up-total_example =
    count_up-total user (pos 2 ∷ negsuc 6 ∷ []) (pos 40) 1000 forty (shard_of forty)
      (live-shard_of 1000 forty) forty-IsCounter (omega arith, refl, (omega arith, refl, tt))
