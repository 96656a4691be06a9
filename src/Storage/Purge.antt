-- ===== src/Storage/Purge.antt =====
-- `PurgeExpired` of src/storage/memory_store.cpp, on one shard: samples of the expired records of
-- each kind are removed, and the amounts of expired reservations go back to their keys.
pub mod Unseen
use gate_keeper.Base.{
  ℕ, ◌+◌, Bool, ◌&&◌, none, some, List, [], ◌∷◌, ◌++◌, Bytes, ltb, if◌then◌else◌, length,
}
use gate_keeper.Tables.{TableOps}
use gate_keeper.Storage.Decimal.{to_string}
use gate_keeper.Storage.Entry.{
  Entry, RateLimitRecord, Reservation, IdempotencyRecord, is_expired, past,
}
use gate_keeper.Storage.Quota.{
  has_expired, refunded_value, set_balance, insert_balance, drop_reservation,
}
use gate_keeper.Storage.Shard.{StorageShard}

-- The callback of `ForEach`: the keys that pass the test are collected up to the limit.
unfoldable pub sample : {V : Type 0} → (V → Bool) → ℕ → List (Bytes × V) → List Bytes → List Bytes
sample test limit [] found = found
sample test limit ((k, v) ∷ l) found =
    sample test limit l (if ltb (length found) limit && test v then found ++ k ∷ [] else found)

module _ ⦃T : TableOps⦄ where
  unfoldable pub erase_keys : {V : Type 0} → List Bytes → T.Table V → T.Table V
  erase_keys [] t = t
  erase_keys (k ∷ ks) t = erase_keys ks (T.erase k t).0

  -- the body of the loop over the expired reservations
  unfoldable pub release_reservation : ℕ → Bytes → StorageShard → StorageShard
  release_reservation now id s = elim (T.find id s.reservations) [
    | none ↦ s
    | some res ↦ drop_reservation id (elim (T.find res.key s.entries) [
      | some e ↦ set_balance res.key e (refunded_value e.value res.amount) s
      | none ↦ insert_balance res.key (to_string res.amount) now s
    ])
  ]

  unfoldable pub release_all : ℕ → List Bytes → StorageShard → StorageShard
  unfolding release_reservation
  release_all now [] s = s
  release_all now (id ∷ ids) s = release_all now ids (release_reservation now id s)

  unfoldable pub purge_expired : ℕ → ℕ → StorageShard → ℕ × StorageShard
  unfolding sample erase_keys release_all is_expired
  purge_expired sample_limit now s =
      let expired_keys =
        sample (λ (e : Entry). is_expired e now) sample_limit (T.entries s.entries) [] in
      let swept = record s { entries = erase_keys expired_keys s.entries } in
      let expired_reservations =
        sample (λ (r : Reservation). has_expired r now) sample_limit (T.entries swept.reservations)
          [] in
      let released = release_all now expired_reservations swept in
      let expired_idempotencies =
        sample (λ (r : IdempotencyRecord). past r.expire_at_ms now) sample_limit
          (T.entries released.idempotency_records) [] in
      let forgotten = record released {
        idempotency_records = erase_keys expired_idempotencies released.idempotency_records;
      } in
      let expired_rate_limits =
        sample (λ (r : RateLimitRecord). past r.expire_at_ms now) sample_limit
          (T.entries forgotten.rate_limits) [] in
      (
        length expired_keys
            + length expired_reservations
            + length expired_idempotencies
            + length expired_rate_limits,
        record forgotten { rate_limits = erase_keys expired_rate_limits forgotten.rate_limits },
      )
