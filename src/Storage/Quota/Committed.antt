-- ===== src/Storage/Quota/Committed.antt =====
-- `CommitQuota` of src/storage/memory_store.cpp before and after the deadline of a reservation.
use gate_keeper.Base.{ℕ, ◌+◌, ◌-◌, ◌<◌, ◌≡◌, refl, subst₂, true, false, Bytes, arith}
use gate_keeper.Tables.{TableOps}
use gate_keeper.Storage.Decimal.{u64_mod, add64}
use gate_keeper.Storage.Entry.{Reservation, CommitResult, past}
use gate_keeper.Storage.Quota.{
  drop_reservation, refund_target, settle, commit_live, has_expired, commit_quota,
}
use gate_keeper.Storage.Quota.Pools.{IsPool, drop_reservation-IsPool, refund_target-IsPool}
use gate_keeper.Storage.Shard.{StorageShard}
use gate_keeper.Storage.Quota.Reserved.{IsReserved}
use gate_keeper.Storage.Quota.Settled.{
  IsSettled, find_reserved, dropped, written_back, balance_at, at_key,
}

module _ ⦃T : TableOps⦄ where
  settle_lem :
      (actual amount b : ℕ)
      → b + amount < u64_mod
      → settle actual amount b ≡ (amount - actual, b + amount - actual)
  unfolding settle
  settle_lem actual amount b small = ground arith

  -- the result of a settled commit
  pub record IsCommitted (k id : Bytes) (amount actual b : ℕ) (reply : CommitResult)
      (s : StorageShard) : Type 0 where
    pub committed : reply.committed ≡ true
    pub refunded : reply.refunded ≡ amount - actual
    pub remaining : reply.remaining ≡ b + amount - actual
    pub settled : IsSettled k id (b + amount - actual) s

  commit_live_lem :
      (id : Bytes) (res : Reservation) (b actual now : ℕ) (s : StorageShard)
      → IsPool res.key b s
      → b + res.amount < u64_mod
      → IsCommitted res.key id res.amount actual b
          (commit_live id res actual now s).0
          (commit_live id res actual now s).1
  unfolding commit_live
  commit_live_lem id res b actual now s p small =
      rw
        (
          balance_at res.key b (drop_reservation id s) (drop_reservation-IsPool res.key id b s p),
          settle_lem actual res.amount b small,
        )
        (record {
          committed = refl;
          refunded = refl;
          remaining = refl;
          settled = written_back res.key id b (b + res.amount - actual) now s p (omega arith);
        })

  -- `CommitQuota` before the deadline charges the actual amount instead of the reserved one: an amount
  -- up to the reservation refunds the rest; more is taken from the balance, down to 0. The reservation
  -- is gone. The balance with the reserved amount must be below 2 ^ 64.
  pub commit_quota-live :
      (k id : Bytes) (b amount actual deadline now : ℕ) (s : StorageShard)
      → IsPool k b s
      → IsReserved k id amount deadline s
      → past deadline now ≡ false
      → b + amount < u64_mod
      → IsCommitted k id amount actual b
          (commit_quota k id actual now s).0
          (commit_quota k id actual now s).1
  unfolding commit_quota
  commit_quota-live k id b amount actual deadline now s p r before small =
      let live_yet : has_expired r.res now ≡ false = rw r.until before in
      let done =
        commit_live_lem id r.res b actual now s (at_key k id b amount deadline s r p)
          (rw r.holds_amount small) in
      rw (find_reserved k id amount deadline s r, commit_quota, live_yet)
        (subst₂
          (λ x n.
            IsCommitted x id n actual b (commit_live id r.res actual now s).0
              (commit_live id r.res actual now s).1)
          r.for_key r.holds_amount done)

  -- `CommitQuota` from the deadline on commits nothing: the amount goes back to the balance, and the
  -- reservation is gone. The refunded balance must be below 2 ^ 64.
  pub commit_quota-expired :
      (k id : Bytes) (b amount actual deadline now : ℕ) (s : StorageShard)
      → IsPool k b s
      → IsReserved k id amount deadline s
      → past deadline now ≡ true
      → b + amount < u64_mod
      → ((commit_quota k id actual now s).0.committed ≡ false)
        × IsSettled k id (b + amount) (commit_quota k id actual now s).1
  unfolding commit_quota
  commit_quota-expired k id b amount actual deadline now s p r after small =
      let expired : has_expired r.res now ≡ true = rw r.until after in
      let sum : add64 b r.res.amount ≡ b + amount = rw r.holds_amount (omega arith) in
      let back =
        subst₂ (λ x n. IsPool x n (refund_target r.res s)) r.for_key sum
          (refund_target-IsPool b r.res s (at_key k id b amount deadline s r p)) in
      rw (find_reserved k id amount deadline s r, commit_quota, expired)
        (
          refl,
          record {
            pool = drop_reservation-IsPool k id (b + amount) (refund_target r.res s) back;
            gone = dropped id (refund_target r.res s);
          },
        )
