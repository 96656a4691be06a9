-- ===== src/Storage/Ttl/Deadlines.antt =====
-- Deadlines: `Expire`, `Ttl`, `Pttl` and `Persist` of src/storage/memory_store.cpp.
use gate_keeper.Base.{
  ℕ, ◌+◌, ◌-◌, ◌/◌, ◌^◌, ◌≤◌, ◌<◌, ◌≡◌, refl, ◌∙◌, ℤ, pos, negsuc, Bool, Bool-cases, inl, inr, true,
  false, Option, none, some, Option-cases, Bytes, same, same_iff, same_refl, arith, ltb, ◌==◌,
  if◌then◌else◌,
}
use gate_keeper.Tables.{TableOps, is_some}
use gate_keeper.Storage.Decimal.{add64}
use gate_keeper.Storage.Entry.{Entry}
use gate_keeper.Storage.Shard.{StorageShard, look_up, drop_entry}
use gate_keeper.Storage.Shard.Live.{live, unexpired, look_up-live, find-look_up_self, live-look_up}
use gate_keeper.Storage.Ttl.{
  set_deadline, expire_existing, expire, ttl, pttl, persist_existing, persist, to_int64,
}

-- The entry with another deadline.
abbrev pub with_deadline : ℕ → Entry → Entry
with_deadline at e = record e { meta = record (e.meta) { expire_at_ms = at } }

-- What the time-to-live queries answer for a live entry.
abbrev pub ttl_answer : ℕ → Option Entry → ℤ
ttl_answer now none = negsuc 1
ttl_answer now (some e) =
    if e.meta.expire_at_ms == 0
    then negsuc 0
    else pos (add64 (e.meta.expire_at_ms - now) 999 / 1000)

abbrev pub pttl_answer : ℕ → Option Entry → ℤ
pttl_answer now none = negsuc 1
pttl_answer now (some e) =
    if e.meta.expire_at_ms == 0 then negsuc 0 else to_int64 (e.meta.expire_at_ms - now)

module _ ⦃T : TableOps⦄ where
  live-set_deadline :
      (k q : Bytes) (at later : ℕ) (e : Entry) (s : StorageShard)
      → T.find k s.entries ≡ some e
      → live q later (set_deadline k e at s)
        ≡ (if same k q then unexpired later (some (with_deadline at e)) else live q later s)
  unfolding live
  live-set_deadline k q at later e s found = rw (T.find-write k q _ s.entries, found) (ground arith)

  live-drop_entry :
      (k q : Bytes) (later : ℕ) (s : StorageShard)
      → live q later (drop_entry k s) ≡ (if same k q then none else live q later s)
  unfolding live
  live-drop_entry k q later s = rw (T.find-erase k q s.entries) (ground arith)

  -- The entry of a live key behind `Expire` and behind `Persist`.
  abbrev pub expired_to : ℕ → ℕ → ℕ → Option Entry → Option Entry
  expired_to ttl_ms now later none = none
  expired_to ttl_ms now later (some e) =
      if ttl_ms == 0 then none else unexpired later (some (with_deadline (add64 now ttl_ms) e))

  abbrev pub persisted : Option Entry → Option Entry
  persisted none = none
  persisted (some e) = some (with_deadline 0 e)

  -- whether a live entry has a deadline
  abbrev pub has_deadline : Option Entry → Bool
  has_deadline none = false
  has_deadline (some e) = ltb 0 e.meta.expire_at_ms

  expire_found :
      (k q : Bytes) (ttl_ms now later : ℕ) (found : Option Entry) (s : StorageShard)
      → T.find k s.entries ≡ found
      → ((expire_existing k ttl_ms now found s).0 ≡ is_some found)
        × (live q later (expire_existing k ttl_ms now found s).1
            ≡ (if same k q then expired_to ttl_ms now later found else live q later s))
  unfolding expire_existing
  expire_found k q ttl_ms now later none s e =
      (refl, unfold live in ground (arith, e, same_iff k q))
  expire_found k q ttl_ms now later (some old) s e = elim (Bool-cases (ttl_ms == 0)) [
    | inl z ↦ rw z (refl, live-drop_entry k q later s)
    | inr n ↦ rw n (refl, live-set_deadline k q (add64 now ttl_ms) later old s e)
  ]

  -- `Expire` succeeds exactly on a live key. It removes the key at a time-to-live of 0, and else
  -- moves its deadline to `now + ttl_ms` (in 64 bits) and keeps its value; other keys show what
  -- they showed. This is seen at the same or a later time.
  pub expire-live :
      (k q : Bytes) (ttl_ms now later : ℕ) (s : StorageShard)
      → now ≤ later
      → ((expire k ttl_ms now s).0 ≡ is_some (live k now s))
        × (live q later (expire k ttl_ms now s).1
            ≡ (if same k q then expired_to ttl_ms now later (live k now s) else live q later s))
  expire-live k q ttl_ms now later s h =
      let both =
        expire_found k q ttl_ms now later (look_up k now s).0 (look_up k now s).1
          (find-look_up_self k now s) in
      rw (← look_up-live k now s, ← live-look_up k q now later s h) (unfold expire in both)

  persist_found :
      (k q : Bytes) (later : ℕ) (found : Option Entry) (s : StorageShard)
      → T.find k s.entries ≡ found
      → ((persist_existing k found s).0 ≡ has_deadline found)
        × (live q later (persist_existing k found s).1
            ≡ (if same k q then persisted found else live q later s))
  unfolding persist_existing
  persist_found k q later none s e = (refl, unfold live in ground (arith, e, same_iff k q))
  persist_found k q later (some old) s e = elim (Bool-cases (old.meta.expire_at_ms == 0)) [
    | inl z ↦ rw z (ground arith, unfold live in ground (arith, e, same_iff k q))
    | inr n ↦ rw n (ground arith, live-set_deadline k q 0 later old s e)
  ]

  -- `Persist` succeeds exactly on a live key with a deadline. A live key then has none and keeps
  -- its value at the same and every later time; other keys show what they showed.
  pub persist-live :
      (k q : Bytes) (now later : ℕ) (s : StorageShard)
      → now ≤ later
      → ((persist k now s).0 ≡ has_deadline (live k now s))
        × (live q later (persist k now s).1
            ≡ (if same k q then persisted (live k now s) else live q later s))
  persist-live k q now later s h =
      let both =
        persist_found k q later (look_up k now s).0 (look_up k now s).1
          (find-look_up_self k now s) in
      rw (← look_up-live k now s, ← live-look_up k q now later s h) (unfold persist in both)

  -- `Ttl` and `Pttl` answer from the live entry of their key.
  ttl-pttl :
      (k : Bytes) (now : ℕ) (s : StorageShard)
      → ((ttl k now s).0 ≡ ttl_answer now (live k now s))
        × ((pttl k now s).0 ≡ pttl_answer now (live k now s))
  unfolding ttl pttl
  ttl-pttl k now s =
      let shown = look_up-live k now s in (ground (arith, shown), ground (arith, shown))

  pttl_counted :
      (at later : ℕ) (e : Entry)
      → 0 < at
      → at < 2 ^ 63
      → (pttl_answer later (unexpired later (some (with_deadline at e)))
          ≡ (if ltb later at then pos (at - later) else negsuc 1))
        × (ttl_answer later (unexpired later (some (with_deadline at e)))
            ≡ (if ltb later at then pos ((at - later + 999) / 1000) else negsuc 1))
  pttl_counted at later e more small = (ground arith, ground arith)

  -- After a successful `Expire` with a positive time-to-live, `Pttl` and `Ttl` count down to the
  -- deadline `now + ttl_ms`, in milliseconds and in seconds rounded up, and answer -2 from then
  -- on, for a deadline below 2 ^ 63.
  pub pttl-expire :
      (k : Bytes) (ttl_ms now later : ℕ) (s : StorageShard)
      → now ≤ later
      → 0 < ttl_ms
      → now + ttl_ms < 2 ^ 63
      → (expire k ttl_ms now s).0 ≡ true
      → ((pttl k later (expire k ttl_ms now s).1).0
          ≡ (if ltb later (now + ttl_ms) then pos (now + ttl_ms - later) else negsuc 1))
        × ((ttl k later (expire k ttl_ms now s).1).0 ≡ (
            if ltb later (now + ttl_ms)
            then pos ((now + ttl_ms - later + 999) / 1000)
            else negsuc 1))
  pttl-expire k ttl_ms now later s h more small done = elim (Option-cases (live k now s)) [
    | inl absent ↦ absurd (ground (arith, (expire-live k k ttl_ms now later s h).0, absent, done))
    | inr (e, found) ↦
        let answers = ttl-pttl k later (expire k ttl_ms now s).1 in
        let moved = (expire-live k k ttl_ms now later s h).1 in
        let kept : live k later (expire k ttl_ms now s).1
            ≡ unexpired later (some (with_deadline (now + ttl_ms) e)) =
          moved
          ∙ rw (same_refl k, found)
              (let nonzero : (ttl_ms == 0) ≡ false = ground arith in
                let exact : add64 now ttl_ms ≡ now + ttl_ms = omega arith in rw (nonzero, exact)) in
        let counted = pttl_counted (now + ttl_ms) later e (omega arith) small in
        rw (answers.0, answers.1, kept) (counted.0, counted.1)
  ]
