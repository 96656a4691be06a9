-- ===== src/Storage/Shard/Live.antt =====
-- What a client of src/storage/memory_store.cpp can see of the entries of a shard at a time, and that
-- the look-up with its lazy removal shows it and changes it at no later time.
use gate_keeper.Base.{
  ℕ, ◌≤◌, ◌≡◌, Option, none, some, Bytes, same, same_iff, same_refl, arith, if◌then◌else◌,
}
use gate_keeper.Tables.{TableOps}
use gate_keeper.Storage.Entry.{Entry, past}
use gate_keeper.Storage.Shard.{StorageShard, look_up}

abbrev pub unexpired : ℕ → Option Entry → Option Entry
unexpired now none = none
unexpired now (some e) = if past e.meta.expire_at_ms now then none else some e

module _ ⦃T : TableOps⦄ where
  unfoldable pub live : Bytes → ℕ → StorageShard → Option Entry
  live q now s = unexpired now (T.find q s.entries)

  pub look_up-live : (k : Bytes) (now : ℕ) (s : StorageShard) → (look_up k now s).0 ≡ live k now s
  unfolding look_up live
  look_up-live k now s = ground arith

  pub find-look_up :
      (k q : Bytes) (now : ℕ) (s : StorageShard)
      → T.find q (look_up k now s).1.entries
        ≡ (if same k q then unexpired now (T.find q s.entries) else T.find q s.entries)
  unfolding look_up
  find-look_up k q now s = ground (arith, T.find-erase k q s.entries, same_iff k q)

  pub live-look_up :
      (k q : Bytes) (now later : ℕ) (s : StorageShard)
      → now ≤ later
      → live q later (look_up k now s).1 ≡ live q later s
  unfolding live
  live-look_up k q now later s h = ground (arith, find-look_up k q now s)

  -- The look-up leaves its key with the entry that it returns.
  pub find-look_up_self :
      (k : Bytes) (now : ℕ) (s : StorageShard)
      → T.find k (look_up k now s).1.entries ≡ (look_up k now s).0
  find-look_up_self k now s =
      rw (find-look_up k k now s, look_up-live k now s) (unfold live in rw (same_refl k))

  -- A live entry has not expired.
  pub unexpired-live :
      (k : Bytes) (now : ℕ) (s : StorageShard) (e : Entry)
      → live k now s ≡ some e
      → unexpired now (some e) ≡ some e
  unfolding live
  unexpired-live k now s e found = ground (arith, found)
