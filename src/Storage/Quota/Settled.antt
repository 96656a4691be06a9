-- ===== src/Storage/Quota/Settled.antt =====
-- The steps that `CommitQuota` and `RollbackQuota` of src/storage/memory_store.cpp share.
use gate_keeper.Base.{
  ℕ, ◌<◌, ◌≡◌, refl, sym, subst, true, Option, none, some, Bytes, same, same_iff, same_refl,
}
use gate_keeper.Tables.{TableOps}
use gate_keeper.Storage.Decimal.{u64_mod, to_string}
use gate_keeper.Storage.Entry.{Entry}
use gate_keeper.Storage.Quota.{balance_of, put_balance, drop_reservation, find_reservation}
use gate_keeper.Storage.Quota.Pools.{
  IsPool, balance_of-HoldsBalance, drop_reservation-IsPool, put_balance-IsPool,
}
use gate_keeper.Storage.Shard.{StorageShard}
use gate_keeper.Storage.Quota.Reserved.{IsReserved}

module _ ⦃T : TableOps⦄ where
  pub find_reserved :
      (k id : Bytes) (amount deadline : ℕ) (s : StorageShard)
      (r : IsReserved k id amount deadline s)
      → find_reservation k id s ≡ some r.res
  unfolding find_reservation
  find_reserved k id amount deadline s r =
      let its_key : same r.res.key k ≡ true = (same_iff r.res.key k).1 r.for_key in
      rw (r.found, find_reservation, its_key)

  pub dropped :
      (id : Bytes) (s : StorageShard) → T.find id (drop_reservation id s).reservations ≡ none
  dropped id s = rw (T.find-erase id id s.reservations) (rw (same_refl id))

  -- What a settled reservation leaves: the balance, and no reservation.
  pub record IsSettled (k id : Bytes) (b : ℕ) (s : StorageShard) : Type 0 where
    pub pool : IsPool k b s
    pub gone : T.find id s.reservations ≡ none

  pub reservations-put_balance :
      (k value : Bytes) (target : Option Entry) (now : ℕ) (s : StorageShard)
      → (put_balance k target value now s).reservations ≡ s.reservations
  unfolding put_balance
  reservations-put_balance k value none now s = refl
  reservations-put_balance k value (some e) now s = refl

  -- The last steps of a commit or a rollback: drop the reservation, and write the balance.
  pub written_back :
      (k id : Bytes) (b b' now : ℕ) (s : StorageShard)
      → IsPool k b s
      → b' < u64_mod
      → IsSettled k id b' (
          put_balance k
            (T.find k (drop_reservation id s).entries)
            (to_string b')
            now
            (drop_reservation id s))
  written_back k id b b' now s p small = record {
    pool =
        put_balance-IsPool k b b' now (drop_reservation id s) (drop_reservation-IsPool k id b s p)
          small;
    gone =
        rw
          (reservations-put_balance k (to_string b') (T.find k (drop_reservation id s).entries) now
            (drop_reservation id s))
          (dropped id s);
  }

  pub balance_at :
      (k : Bytes) (b : ℕ) (s : StorageShard) → IsPool k b s → balance_of (T.find k s.entries) ≡ b
  balance_at k b s p = rw p.found (balance_of-HoldsBalance b p.entry p.holds)

  -- A pool and a reservation, seen from the reservation.
  pub at_key :
      (k id : Bytes) (b amount deadline : ℕ) (s : StorageShard)
      (r : IsReserved k id amount deadline s)
      → IsPool k b s
      → IsPool r.res.key b s
  at_key k id b amount deadline s r p = subst (λ x. IsPool x b s) (sym r.for_key) p
