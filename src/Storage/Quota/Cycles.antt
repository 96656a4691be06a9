-- ===== src/Storage/Quota/Cycles.antt =====
-- Whole reservations of src/storage/memory_store.cpp: `ReserveQuota`, and then `CommitQuota` or
-- `RollbackQuota` with the id of its reply.
use gate_keeper.Base.{ℕ, ◌+◌, ◌-◌, ◌≤◌, ◌<◌, ◌≡◌, subst, true, false, Bytes, arith}
use gate_keeper.Tables.{TableOps}
use gate_keeper.Storage.Decimal.{u64_mod, add64}
use gate_keeper.Storage.Entry.{past}
use gate_keeper.Storage.Quota.{reserve_quota, commit_quota, rollback_quota}
use gate_keeper.Storage.Quota.Committed.{commit_quota-live, commit_quota-expired}
use gate_keeper.Storage.Quota.Reserved.{IsLivePool, IsGranted, reserve_quota-IsGranted}
use gate_keeper.Storage.Quota.RolledBack.{rollback_quota-live, rollback_quota-expired}
use gate_keeper.Storage.Quota.Settled.{IsSettled}
use gate_keeper.Storage.Shard.{StorageShard}

-- Before `now + ttl_ms` the reservation has not expired, and from then on it has.
before_deadline :
    (now ttl_ms later : ℕ)
    → now + ttl_ms < u64_mod
    → later < now + ttl_ms
    → past (add64 now ttl_ms) later ≡ false
before_deadline now ttl_ms later small early = ground arith

after_deadline :
    (now ttl_ms later : ℕ)
    → now + ttl_ms < u64_mod
    → 0 < ttl_ms
    → now + ttl_ms ≤ later
    → past (add64 now ttl_ms) later ≡ true
after_deadline now ttl_ms later small more late = ground arith

module _ ⦃T : TableOps⦄ (k : Bytes) (b amount ttl_ms now seq : ℕ) (s : StorageShard)
    (some_amount : 0 < amount) (some_ttl : 0 < ttl_ms) (small : now + ttl_ms < u64_mod)
    (pool : IsLivePool k b now s) (covered : amount ≤ b) where
  abbrev reserved_id : Bytes
  reserved_id = (reserve_quota k amount ttl_ms now seq s).0.reservation_id

  abbrev reserved_shard : StorageShard
  reserved_shard = (reserve_quota k amount ttl_ms now seq s).2

  granted :
      IsGranted k b amount
        (add64 now ttl_ms)
        (reserve_quota k amount ttl_ms now seq s).0
        reserved_shard
  granted = reserve_quota-IsGranted k b amount ttl_ms now seq s some_amount some_ttl pool covered

  -- A reservation of a positive amount that a live balance covers, committed before its deadline,
  -- costs the actual amount, whatever was reserved: the balance falls by it, to 0 at least, and
  -- the reservation is gone. The deadline must be below 2 ^ 64.
  pub commit-reserve :
      (actual later : ℕ)
      → later < now + ttl_ms
      → IsSettled k reserved_id
          (b - actual)
          (commit_quota k reserved_id actual later reserved_shard).1
  commit-reserve actual later early =
      let left = (reserve_quota k amount ttl_ms now seq s).0.remaining in
      let done =
        commit_quota-live k reserved_id left amount actual (add64 now ttl_ms) later reserved_shard
          granted.pool granted.reservation (before_deadline now ttl_ms later small early)
          (omega (arith, granted.remaining, pool.holds.small)) in
      subst
        (λ n.
          IsSettled k reserved_id (n - actual)
            (commit_quota k reserved_id actual later reserved_shard).1)
        granted.remaining done.settled

  -- A reservation of a positive amount that a live balance covers, rolled back before its
  -- deadline, leaves the balance as it was, and the reservation is gone. The deadline must be
  -- below 2 ^ 64.
  pub rollback-reserve :
      (later : ℕ)
      → later < now + ttl_ms
      → IsSettled k reserved_id b (rollback_quota k reserved_id later reserved_shard).1
  rollback-reserve later early =
      let left = (reserve_quota k amount ttl_ms now seq s).0.remaining in
      let done =
        rollback_quota-live k reserved_id left amount (add64 now ttl_ms) later reserved_shard
          granted.pool granted.reservation (before_deadline now ttl_ms later small early)
          (omega (arith, granted.remaining, pool.holds.small)) in
      subst (λ n. IsSettled k reserved_id n (rollback_quota k reserved_id later reserved_shard).1)
        granted.remaining done.settled

  -- A reservation that is rolled back only after its deadline, with no purge in between, is lost:
  -- the reply says that the amount was refunded, but the balance stays below the one before it by
  -- that amount, and the reservation is gone.
  pub rollback-reserve_late :
      (later : ℕ)
      → now + ttl_ms ≤ later
      → ((rollback_quota k reserved_id later reserved_shard).0.rolled_back ≡ true)
        × ((rollback_quota k reserved_id later reserved_shard).0.refunded ≡ amount)
        × IsSettled k reserved_id (b - amount) (rollback_quota k reserved_id later reserved_shard).1
  rollback-reserve_late later late =
      let left = (reserve_quota k amount ttl_ms now seq s).0.remaining in
      let done =
        rollback_quota-expired k reserved_id left amount (add64 now ttl_ms) later reserved_shard
          granted.pool granted.reservation (after_deadline now ttl_ms later small some_ttl late) in
      let less : left ≡ b - amount = omega (arith, granted.remaining) in
      (
        done.rolled_back,
        done.refunded,
        subst (λ n. IsSettled k reserved_id n (rollback_quota k reserved_id later reserved_shard).1)
            less done.settled,
      )

  -- A commit after the deadline of a reservation that a live balance covered, with no purge in
  -- between, commits nothing and leaves the balance as it was before the reservation, and the
  -- reservation is gone.
  pub commit-reserve_late :
      (actual later : ℕ)
      → now + ttl_ms ≤ later
      → ((commit_quota k reserved_id actual later reserved_shard).0.committed ≡ false)
        × IsSettled k reserved_id b (commit_quota k reserved_id actual later reserved_shard).1
  commit-reserve_late actual later late =
      let left = (reserve_quota k amount ttl_ms now seq s).0.remaining in
      let done =
        commit_quota-expired k reserved_id left amount actual (add64 now ttl_ms) later
          reserved_shard granted.pool granted.reservation
          (after_deadline now ttl_ms later small some_ttl late)
          (omega (arith, granted.remaining, pool.holds.small)) in
      (
        done.0,
        subst
            (λ n.
              IsSettled k reserved_id n (commit_quota k reserved_id actual later reserved_shard).1)
            granted.remaining done.1,
      )
