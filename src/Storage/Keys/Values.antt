-- ===== src/Storage/Keys/Values.antt =====
-- What `Set`, `Get`, `Del`, `Exists` and `Type` of src/storage/memory_store.cpp show and change.
use gate_keeper.Base.{
  ℕ, ◌≤◌, ◌≡◌, refl, ◌∙◌, Bool-cases, inl, inr, true, false, Option, none, some, Bytes, same,
  same_iff, arith, if◌then◌else◌,
}
use gate_keeper.Tables.{TableOps, is_some}
use gate_keeper.Storage.Entry.{DataType, none_type, Entry, WriteCondition, past}
use gate_keeper.Storage.Keys.{expiry, admits, store_value, set, get, del, exists, type_of}
use gate_keeper.Storage.Shard.{StorageShard, look_up}
use gate_keeper.Storage.Shard.Live.{live, look_up-live, find-look_up_self, live-look_up}

abbrev pub value_of : Option Entry → Option Bytes
value_of none = none
value_of (some e) = some e.value

abbrev pub type_or_none : Option Entry → DataType
type_or_none none = none_type
type_or_none (some e) = e.meta.type

module _ ⦃T : TableOps⦄ where
  -- `Get`, `Exists` and `Type` answer from the live entry of their key, and no read changes what
  -- any key shows at the same or a later time.
  pub reads-live :
      (k q : Bytes) (now later : ℕ) (s : StorageShard)
      → now ≤ later
      → ((get k now s).0 ≡ value_of (live k now s))
        × ((exists k now s).0 ≡ is_some (live k now s))
        × ((type_of k now s).0 ≡ type_or_none (live k now s))
        × (live q later (get k now s).1 ≡ live q later s)
        × (live q later (exists k now s).1 ≡ live q later s)
        × (live q later (type_of k now s).1 ≡ live q later s)
  unfolding get exists type_of
  reads-live k q now later s h =
      let shown = look_up-live k now s in
      let kept = live-look_up k q now later s h in
      (ground (arith, shown), ground (arith, shown), ground (arith, shown), kept, kept, kept)

  stored :
      (k v q : Bytes) (ttl_ms now later : ℕ) (existing : Option Entry) (s : StorageShard)
      → T.find k s.entries ≡ existing
      → value_of (live q later (store_value k v ttl_ms now existing s)) ≡ (
          if same k q
          then (if past (expiry ttl_ms now) later then none else some v)
          else value_of (live q later s))
  unfolding store_value live
  stored k v q ttl_ms now later none s e = rw (T.find-insert k q _ s.entries) (ground arith)
  stored k v q ttl_ms now later (some old) s e = rw (T.find-write k q _ s.entries, e) (ground arith)

  set_lem :
      (k v : Bytes) (c : WriteCondition) (ttl_ms now : ℕ) (s : StorageShard)
      → set k v c ttl_ms now s ≡ (
          if admits c (look_up k now s).0
          then (true, store_value k v ttl_ms now (look_up k now s).0 (look_up k now s).1)
          else (false, (look_up k now s).1))
  unfolding set
  set_lem k v c ttl_ms now s = refl

  -- `Set` writes exactly when its condition admits the live entry of the key. Then the key shows the
  -- new value until the new deadline, and else what it showed; other keys show what they showed.
  pub set-live :
      (k v q : Bytes) (c : WriteCondition) (ttl_ms now later : ℕ) (s : StorageShard)
      → now ≤ later
      → ((set k v c ttl_ms now s).0 ≡ admits c (live k now s))
        × (value_of (live q later (set k v c ttl_ms now s).1) ≡ (
            if same k q
            then (if admits c (live k now s)
                then (if past (expiry ttl_ms now) later then none else some v)
                else value_of (live q later s))
            else value_of (live q later s)))
  set-live k v q c ttl_ms now later s h =
      let kept = live-look_up k q now later s h in
      let wrote =
        stored k v q ttl_ms now later (look_up k now s).0 (look_up k now s).1
          (find-look_up_self k now s) in
      rw (set_lem k v c ttl_ms now s, ← look_up-live k now s)
        (elim (Bool-cases (admits c (look_up k now s).0)) [
          | inl e ↦ rw e (refl, wrote ∙ ground (arith, kept))
          | inr e ↦ rw e (refl, ground (arith, kept))
        ])

  -- `Del` removes its key alone, and says whether the table had it.
  pub del-live :
      (k q : Bytes) (later : ℕ) (s : StorageShard)
      → ((del k s).0 ≡ is_some (T.find k s.entries))
        × (live q later (del k s).1 ≡ (if same k q then none else live q later s))
  unfolding del live
  del-live k q later s =
      (T.erase-found k s.entries, ground (arith, T.find-erase k q s.entries, same_iff k q))
