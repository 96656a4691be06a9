-- ===== src/Storage/Quota/Reserved.antt =====
-- `ReserveQuota` of src/storage/memory_store.cpp: what is granted and what is refused.
use gate_keeper.Base.{
  ℕ, ◌+◌, ◌-◌, ◌≤◌, ◌<◌, ◌≡◌, refl, ◌∙◌, true, false, some, Bytes, same_refl, text, arith, ltb,
  ◌==◌,
}
use gate_keeper.Tables.{TableOps}
use gate_keeper.Storage.Decimal.{u64_mod, add64}
use gate_keeper.Storage.Entry.{Entry, Reservation, ReservationResult}
use gate_keeper.Storage.Quota.{
  reservation_name, reserve_error, take_balance, reserve_existing, reserve_quota,
}
use gate_keeper.Storage.Quota.Pools.{
  IsPool, HoldsBalance, whole_balance-HoldsBalance, set_balance-IsPool,
}
use gate_keeper.Storage.Shard.{StorageShard, look_up}
use gate_keeper.Storage.Shard.Live.{live, look_up-live, find-look_up_self}

module _ ⦃T : TableOps⦄ where
  -- The id names a reservation of the key for an amount, until a deadline.
  pub record IsReserved (k id : Bytes) (amount deadline : ℕ) (s : StorageShard) : Type 0 where
    pub res : Reservation
    pub found : T.find id s.reservations ≡ some res
    pub for_key : res.key ≡ k
    pub holds_amount : res.amount ≡ amount
    pub until : res.expire_at_ms ≡ deadline

  -- The live entry of the key holds the balance.
  pub record IsLivePool (k : Bytes) (b now : ℕ) (s : StorageShard) : Type 0 where
    pub entry : Entry
    pub shown : live k now s ≡ some entry
    pub holds : HoldsBalance b entry

  reserve_lem :
      (k : Bytes) (amount ttl_ms now seq : ℕ) (s : StorageShard)
      → 0 < amount
      → 0 < ttl_ms
      → reserve_quota k amount ttl_ms now seq s
        ≡ reserve_existing k amount ttl_ms now seq (look_up k now s).0 (look_up k now s).1
  unfolding reserve_quota
  reserve_lem k amount ttl_ms now seq s a t =
      let a' : (amount == 0) ≡ false = ground arith in
      let t' : (ttl_ms == 0) ≡ false = ground arith in rw (a', reserve_quota, t')

  reserve_pool :
      (k : Bytes) (b amount ttl_ms now seq : ℕ) (s : StorageShard) (p : IsLivePool k b now s)
      → 0 < amount
      → 0 < ttl_ms
      → reserve_quota k amount ttl_ms now seq s
        ≡ take_balance k amount ttl_ms now seq p.entry b (look_up k now s).1
  unfolding reserve_existing
  reserve_pool k b amount ttl_ms now seq s p a t = rw (
    reserve_lem k amount ttl_ms now seq s a t,
    look_up-live k now s,
    p.shown,
    reserve_existing,
    whole_balance-HoldsBalance b p.entry p.holds,
  )

  -- What a granted reservation leaves: the reply, the balance, the reservation.
  pub record IsGranted (k : Bytes) (b amount deadline : ℕ) (reply : ReservationResult)
      (s : StorageShard) : Type 0 where
    pub reserved : reply.reserved ≡ true
    pub remaining : reply.remaining + amount ≡ b
    pub pool : IsPool k reply.remaining s
    pub reservation : IsReserved k reply.reservation_id amount deadline s

  take-IsGranted :
      (k : Bytes) (b amount ttl_ms now seq : ℕ) (e : Entry) (s : StorageShard)
      → T.find k s.entries ≡ some e
      → b < u64_mod
      → amount ≤ b
      → IsGranted k b amount
          (add64 now ttl_ms)
          (take_balance k amount ttl_ms now seq e b s).0
          (take_balance k amount ttl_ms now seq e b s).2
  unfolding take_balance
  take-IsGranted k b amount ttl_ms now seq e s found small covered =
      let covered' : ltb b amount ≡ false = ground arith in
      let id = reservation_name now seq in
      let res : Reservation = record {
        id = id;
        key = k;
        amount = amount;
        created_at_ms = now;
        expire_at_ms = add64 now ttl_ms;
      } in
      let p = set_balance-IsPool k (b - amount) e s found (omega arith) in
      rw covered' (record {
        reserved = refl;
        remaining = omega arith;
        pool = record { entry = p.entry; found = p.found; holds = p.holds };
        reservation = record {
          res = res;
          found = rw (T.find-insert id id res s.reservations) (rw (same_refl id));
          for_key = refl;
          holds_amount = refl;
          until = refl;
        };
      })

  -- `ReserveQuota` of a positive amount that a live balance covers, with a positive time-to-live,
  -- is granted: the balance falls by the amount, and the reservation stands under the id of the
  -- reply until `now + ttl_ms` (in 64 bits).
  pub reserve_quota-IsGranted :
      (k : Bytes) (b amount ttl_ms now seq : ℕ) (s : StorageShard)
      → 0 < amount
      → 0 < ttl_ms
      → IsLivePool k b now s
      → amount ≤ b
      → IsGranted k b amount
          (add64 now ttl_ms)
          (reserve_quota k amount ttl_ms now seq s).0
          (reserve_quota k amount ttl_ms now seq s).2
  reserve_quota-IsGranted k b amount ttl_ms now seq s a t p covered =
      rw (reserve_pool k b amount ttl_ms now seq s p a t) (
        take-IsGranted k b amount ttl_ms now seq p.entry (look_up k now s).1
          (find-look_up_self k now s ∙ look_up-live k now s ∙ p.shown) p.holds.small covered)

  -- `ReserveQuota` of more than a live balance, with a positive time-to-live, is refused: the
  -- reply reports the balance, and only the look-up may have changed the shard.
  pub reserve_quota-refused :
      (k : Bytes) (b amount ttl_ms now seq : ℕ) (s : StorageShard)
      → 0 < ttl_ms
      → IsLivePool k b now s
      → b < amount
      → reserve_quota k amount ttl_ms now seq s ≡ (
        reserve_error true b (text "INSUFFICIENT_QUOTA") (text "insufficient quota balance"),
        seq,
        (look_up k now s).1,
      )
  unfolding take_balance
  reserve_quota-refused k b amount ttl_ms now seq s t p short =
      let short' : ltb b amount ≡ true = ground arith in
      rw (reserve_pool k b amount ttl_ms now seq s p (omega arith) t, take_balance, short')
