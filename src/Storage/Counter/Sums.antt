-- ===== src/Storage/Counter/Sums.antt =====
-- `IncrBy` of src/storage/memory_store.cpp adds exactly, or refuses.
use gate_keeper.Base.{
  ℕ, ◌^◌, ◌≤◌, ◌≡◌, refl, ◌∙◌, ℤ, pos, negsuc, ◌+ℤ◌, ◌-ℤ◌, Bool, Bool-cases, inl, inr, true, false,
  none, some, List, [], ◌∷◌, Bytes, same, same_iff, same_refl, text, arith, ltb, if◌then◌else◌,
}
use gate_keeper.Tables.{TableOps}
use gate_keeper.Storage.Counter.{
  overflows, incr_ok, incr_error, whole_integer, add_delta, incr_existing, incr_by,
}
use gate_keeper.Storage.Decimal.{to_string_ℤ}
use gate_keeper.Storage.Decimal.RoundTrip.{IsInt64, stoll-to_string_ℤ}
use gate_keeper.Storage.Entry.{Entry, string_type, IncrResult}
use gate_keeper.Storage.Keys.{expiry}
use gate_keeper.Storage.Shard.{StorageShard, look_up}
use gate_keeper.Storage.Shard.Live.{
  live, unexpired, look_up-live, find-look_up_self, live-look_up, unexpired-live,
}

-- Whether the mathematical sum is an `std::int64_t`.
abbrev pub fits : ℤ → Bool
fits (pos n) = ltb n (2 ^ 63)
fits (negsuc n) = ltb n (2 ^ 63)

fits-IsInt64 : (a : ℤ) → fits a ≡ true → IsInt64 a
fits-IsInt64 (pos n) h = ground arith
fits-IsInt64 (negsuc n) h = ground arith

-- For two `std::int64_t` values, the two tests of the code find exactly the sums that overflow.
pub overflows-fits :
    (a b : ℤ) → IsInt64 a → IsInt64 b → overflows a b ≡ (if fits (a +ℤ b) then false else true)
unfolding overflows ◌+ℤ◌ ◌-ℤ◌
overflows-fits (pos a) (pos b) h k = ground arith
overflows-fits (pos a) (negsuc b) h k = ground arith
overflows-fits (negsuc a) (pos b) h k = ground arith
overflows-fits (negsuc a) (negsuc b) h k = ground arith

whole_integer-to_string_ℤ : (a : ℤ) → IsInt64 a → whole_integer (to_string_ℤ a) ≡ some a
unfolding whole_integer
whole_integer-to_string_ℤ a h = rw (stoll-to_string_ℤ a h, whole_integer) (ground arith)

-- The reply of `IncrBy` to a sum, and the entry behind it.
abbrev pub sum_reply : ℤ → IncrResult
sum_reply sum =
    if fits sum
    then incr_ok sum
    else incr_error (text "ERR_OVERFLOW") (text "increment or decrement would overflow")

abbrev pub counted : Entry → ℤ → Entry
counted e sum = if fits sum then record e { value = to_string_ℤ sum } else e

module _ ⦃T : TableOps⦄ where
  -- The entry holds the printed integer.
  pub record IsCounter (cur : ℤ) (e : Entry) : Type 0 where
    pub typed : e.meta.type ≡ string_type
    pub printed : e.value ≡ to_string_ℤ cur
    pub in_range : IsInt64 cur

  add_delta_lem :
      (k q : Bytes) (cur delta : ℤ) (later : ℕ) (e : Entry) (s : StorageShard)
      → IsInt64 cur
      → IsInt64 delta
      → T.find k s.entries ≡ some e
      → ((add_delta k delta e cur s).0 ≡ sum_reply (cur +ℤ delta))
        × (live q later (add_delta k delta e cur s).1 ≡ (
            if same k q then unexpired later (some (counted e (cur +ℤ delta))) else live q later s))
  unfolding add_delta
  add_delta_lem k q cur delta later e s h d found = elim (Bool-cases (fits (cur +ℤ delta))) [
    | inl y ↦
        rw (overflows-fits cur delta h d, y)
          (refl, unfold live in rw (T.find-write k q _ s.entries, found) (ground arith))
    | inr n ↦
        rw (overflows-fits cur delta h d, n)
          (refl, unfold live in ground (arith, found, same_iff k q))
  ]

  incr_by_lem :
      (k : Bytes) (delta : ℤ) (ttl_ms now : ℕ) (s : StorageShard)
      → incr_by k delta ttl_ms now s
        ≡ incr_existing k delta ttl_ms now (look_up k now s).0 (look_up k now s).1
  unfolding incr_by
  incr_by_lem k delta ttl_ms now s = refl

  incr_counter :
      (k : Bytes) (cur delta : ℤ) (ttl_ms now : ℕ) (e : Entry) (s : StorageShard)
      → IsCounter cur e
      → incr_existing k delta ttl_ms now (some e) s ≡ add_delta k delta e cur s
  unfolding incr_existing
  incr_counter k cur delta ttl_ms now e s c =
      let parsed : whole_integer e.value ≡ some cur =
        rw c.printed (whole_integer-to_string_ℤ cur c.in_range) in
      simp (c.typed, parsed)

  -- `IncrBy` on a live integer: the reply is the exact sum and the key shows it, with its
  -- deadline, if the sum is an `std::int64_t`; else the reply is the overflow error and the key
  -- shows what it showed. Other keys show what they showed at the same or a later time.
  pub incr_by-live :
      (k q : Bytes) (cur delta : ℤ) (ttl_ms now later : ℕ) (e : Entry) (s : StorageShard)
      → now ≤ later
      → live k now s ≡ some e
      → IsCounter cur e
      → IsInt64 delta
      → ((incr_by k delta ttl_ms now s).0 ≡ sum_reply (cur +ℤ delta))
        × (live q later (incr_by k delta ttl_ms now s).1 ≡ (
            if same k q then unexpired later (some (counted e (cur +ℤ delta))) else live q later s))
  incr_by-live k q cur delta ttl_ms now later e s h found c d =
      let looked : (look_up k now s).0 ≡ some e = look_up-live k now s ∙ found in
      let s' = (look_up k now s).1 in
      let step =
        add_delta_lem k q cur delta later e s' c.in_range d (find-look_up_self k now s ∙ looked) in
      rw
        (
          incr_by_lem k delta ttl_ms now s,
          looked,
          incr_counter k cur delta ttl_ms now e s' c,
          ← live-look_up k q now later s h,
        )
        step

  -- `IncrBy` on a key that is not live starts it at the given amount, with the initial deadline.
  pub incr_by-absent :
      (k q : Bytes) (delta : ℤ) (ttl_ms now later : ℕ) (s : StorageShard)
      → now ≤ later
      → live k now s ≡ none
      → ((incr_by k delta ttl_ms now s).0 ≡ incr_ok delta)
        × (live q later (incr_by k delta ttl_ms now s).1 ≡ (
            if same k q
            then unexpired later (
                some (record {
                  key = k;
                  value = to_string_ℤ delta;
                  meta = record {
                    type = string_type;
                    created_at_ms = now;
                    expire_at_ms = expiry ttl_ms now;
                  };
                }))
            else live q later s))
  incr_by-absent k q delta ttl_ms now later s h absent =
      let looked : (look_up k now s).0 ≡ none = look_up-live k now s ∙ absent in
      rw (incr_by_lem k delta ttl_ms now s, looked, ← live-look_up k q now later s h)
        (unfold incr_existing live in
          (refl, rw (T.find-insert k q _ (look_up k now s).1.entries) (ground arith)))

  -- Increments one after the other, at one time.
  unfoldable pub count_up : Bytes → ℕ → List ℤ → StorageShard → StorageShard
  count_up k now [] s = s
  count_up k now (d ∷ ds) s = count_up k now ds (incr_by k d 0 now s).1

  abbrev pub total : ℤ → List ℤ → ℤ
  total cur [] = cur
  total cur (d ∷ ds) = total (cur +ℤ d) ds

  abbrev pub AllFit : ℤ → List ℤ → Type 0
  AllFit cur [] = Unit
  AllFit cur (d ∷ ds) = IsInt64 d × (fits (cur +ℤ d) ≡ true) × AllFit (cur +ℤ d) ds

  -- Any number of increments of a live integer, one after the other at one time, none of which
  -- leaves the `std::int64_t` range, ends at the exact sum.
  pub count_up-total :
      (k : Bytes) (ds : List ℤ) (cur : ℤ) (now : ℕ) (e : Entry) (s : StorageShard)
      → live k now s ≡ some e
      → IsCounter cur e
      → AllFit cur ds
      → (e' : Entry) × (live k now (count_up k now ds s) ≡ some e') × IsCounter (total cur ds) e'
  unfolding count_up
  count_up-total k [] cur now e s found c all = (e, found, c)
  count_up-total k (d ∷ ds) cur now e s found c all =
      let e' : Entry = record e { value = to_string_ℤ (cur +ℤ d) } in
      let step = (incr_by-live k k cur d 0 now now e s (omega arith) found c all.0).1 in
      let fresh : unexpired now (some e) ≡ some e = unexpired-live k now s e found in
      let found' : live k now (incr_by k d 0 now s).1 ≡ some e' =
        step ∙ rw (same_refl k, all.1) (ground (arith, fresh)) in
      count_up-total k ds (cur +ℤ d) now e' (incr_by k d 0 now s).1 found'
        (record { typed = c.typed; printed = refl; in_range = fits-IsInt64 (cur +ℤ d) all.1 }) all.2
