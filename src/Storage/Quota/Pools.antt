-- ===== src/Storage/Quota/Pools.antt =====
-- The balance of a quota key in src/storage/memory_store.cpp, and what each operation does to it.
use gate_keeper.Base.{ℕ, ◌<◌, ◌≡◌, refl, some, Bytes, same_refl, arith}
use gate_keeper.Tables.{TableOps}
use gate_keeper.Storage.Decimal.{u64_mod, add64, to_string}
use gate_keeper.Storage.Decimal.RoundTrip.{stoull-to_string}
use gate_keeper.Storage.Entry.{Entry, Reservation}
use gate_keeper.Storage.Quota.{
  whole_balance, balance_of, refunded_value, set_balance, put_balance, drop_reservation,
  refund_target,
}
use gate_keeper.Storage.Shard.{StorageShard}

-- The entry holds the printed balance.
pub record HoldsBalance (b : ℕ) (e : Entry) : Type 0 where
  pub printed : e.value ≡ to_string b
  pub small : b < u64_mod

pub whole_balance-HoldsBalance :
    (b : ℕ) (e : Entry) → HoldsBalance b e → whole_balance e.value ≡ some b
unfolding whole_balance
whole_balance-HoldsBalance b e p =
    rw (p.printed, whole_balance, stoull-to_string b p.small) (ground arith)

pub balance_of-HoldsBalance : (b : ℕ) (e : Entry) → HoldsBalance b e → balance_of (some e) ≡ b
unfolding balance_of
balance_of-HoldsBalance b e p = rw (p.printed, balance_of, stoull-to_string b p.small)

pub refunded_value-HoldsBalance :
    (b amount : ℕ) (e : Entry)
    → HoldsBalance b e
    → refunded_value e.value amount ≡ to_string (add64 b amount)
unfolding refunded_value
refunded_value-HoldsBalance b amount e p =
    rw (p.printed, refunded_value, stoull-to_string b p.small)

module _ ⦃T : TableOps⦄ where
  -- The shard has an entry for the key, which holds the balance.
  pub record IsPool (k : Bytes) (b : ℕ) (s : StorageShard) : Type 0 where
    pub entry : Entry
    pub found : T.find k s.entries ≡ some entry
    pub holds : HoldsBalance b entry

  pub set_balance-IsPool :
      (k : Bytes) (b : ℕ) (e : Entry) (s : StorageShard)
      → T.find k s.entries ≡ some e
      → b < u64_mod
      → IsPool k b (set_balance k e (to_string b) s)
  set_balance-IsPool k b e s found small = record {
    entry = record e { value = to_string b };
    found =
        rw (T.find-write k k (record e { value = to_string b }) s.entries, found)
          (rw (same_refl k));
    holds = record { printed = refl; small = small };
  }

  -- Reservations are in another table.
  pub drop_reservation-IsPool :
      (k id : Bytes) (b : ℕ) (s : StorageShard) → IsPool k b s → IsPool k b (drop_reservation id s)
  drop_reservation-IsPool k id b s p = record { entry = p.entry; found = p.found; holds = p.holds }

  pub refund_target-IsPool :
      (b : ℕ) (res : Reservation) (s : StorageShard)
      → IsPool res.key b s
      → IsPool res.key (add64 b res.amount) (refund_target res s)
  unfolding refund_target
  refund_target-IsPool b res s p =
      rw (p.found, refund_target, refunded_value-HoldsBalance b res.amount p.entry p.holds)
        (set_balance-IsPool res.key (add64 b res.amount) p.entry s p.found (omega arith))

  pub put_balance-IsPool :
      (k : Bytes) (b b' now : ℕ) (s : StorageShard)
      → IsPool k b s
      → b' < u64_mod
      → IsPool k b' (put_balance k (T.find k s.entries) (to_string b') now s)
  unfolding put_balance
  put_balance-IsPool k b b' now s p small =
      rw p.found (set_balance-IsPool k b' p.entry s p.found small)
