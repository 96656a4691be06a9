-- ===== src/Storage/Quota/RolledBack.antt =====
-- `RollbackQuota` of src/storage/memory_store.cpp before and after the deadline of a reservation.
use gate_keeper.Base.{ℕ, ◌+◌, ◌<◌, ◌≡◌, refl, subst, true, false, Bytes, arith}
use gate_keeper.Tables.{TableOps}
use gate_keeper.Storage.Decimal.{u64_mod, add64, to_string}
use gate_keeper.Storage.Entry.{RollbackResult, past}
use gate_keeper.Storage.Quota.{put_balance, drop_reservation, has_expired, rollback_quota}
use gate_keeper.Storage.Quota.Pools.{IsPool, drop_reservation-IsPool}
use gate_keeper.Storage.Shard.{StorageShard}
use gate_keeper.Storage.Quota.Reserved.{IsReserved}
use gate_keeper.Storage.Quota.Settled.{
  IsSettled, find_reserved, dropped, written_back, balance_at, at_key,
}

module _ ⦃T : TableOps⦄ where
  -- the result of a rollback
  pub record IsRolledBack (k id : Bytes) (amount b : ℕ) (reply : RollbackResult) (s : StorageShard)
      : Type 0 where
    pub rolled_back : reply.rolled_back ≡ true
    pub refunded : reply.refunded ≡ amount
    pub remaining : reply.remaining ≡ b
    pub settled : IsSettled k id b s

  -- `RollbackQuota` before the deadline puts the whole amount back, and the reservation is gone. The
  -- refunded balance must be below 2 ^ 64.
  pub rollback_quota-live :
      (k id : Bytes) (b amount deadline now : ℕ) (s : StorageShard)
      → IsPool k b s
      → IsReserved k id amount deadline s
      → past deadline now ≡ false
      → b + amount < u64_mod
      → IsRolledBack k id amount
          (b + amount)
          (rollback_quota k id now s).0
          (rollback_quota k id now s).1
  unfolding rollback_quota
  rollback_quota-live k id b amount deadline now s p r before small =
      let live_yet : has_expired r.res now ≡ false = rw r.until before in
      let p' = at_key k id b amount deadline s r p in
      let at =
        balance_at r.res.key b (drop_reservation id s)
          (drop_reservation-IsPool r.res.key id b s p') in
      let sum : add64 b r.res.amount ≡ b + amount = rw r.holds_amount (omega arith) in
      rw (find_reserved k id amount deadline s r, rollback_quota, live_yet, at, sum)
        (record {
          rolled_back = refl;
          refunded = r.holds_amount;
          remaining = refl;
          settled =
              subst
                (λ x. IsSettled x id (b + amount) (
                  put_balance r.res.key (T.find r.res.key (drop_reservation id s).entries)
                    (to_string (b + amount)) now (drop_reservation id s)))
                r.for_key (written_back r.res.key id b (b + amount) now s p' small);
        })

  -- `RollbackQuota` from the deadline on loses the amount: the reply claims that it was refunded, but
  -- the balance stays, and the reservation, by which a purge would have refunded it, is gone.
  pub rollback_quota-expired :
      (k id : Bytes) (b amount deadline now : ℕ) (s : StorageShard)
      → IsPool k b s
      → IsReserved k id amount deadline s
      → past deadline now ≡ true
      → IsRolledBack k id amount b (rollback_quota k id now s).0 (rollback_quota k id now s).1
  unfolding rollback_quota
  rollback_quota-expired k id b amount deadline now s p r after =
      let expired : has_expired r.res now ≡ true = rw r.until after in
      let p' = at_key k id b amount deadline s r p in
      let at =
        balance_at r.res.key b (drop_reservation id s)
          (drop_reservation-IsPool r.res.key id b s p') in
      rw (find_reserved k id amount deadline s r, rollback_quota, expired, at)
        (record {
          rolled_back = refl;
          refunded = r.holds_amount;
          remaining = refl;
          settled = record { pool = drop_reservation-IsPool k id b s p; gone = dropped id s };
        })
