-- ===== src/Storage/RateLimit/Runs.antt =====
-- Runs of `RateLimit` calls (src/storage/memory_store.cpp) in one window.
use gate_keeper.Base.{
  ℕ, ◌+◌, ◌*◌, ◌/◌, ◌^◌, ◌≤◌, ◌<◌, ◌≡◌, refl, ap, ◌∙◌, Bool, true, false, none, some, List, [], ◌∷◌,
  Bytes, arith, ◌==◌, if◌then◌else◌, same_refl,
}
use gate_keeper.Tables.{TableOps}
use native.Mathlib.Nat.{mod-eq_of_lt}
use gate_keeper.Storage.Decimal.{u64_mod, add64}
use gate_keeper.Storage.Entry.{RateLimitRecord, past}
use gate_keeper.Storage.RateLimit.{
  Doubles, windows_passed, window_end, roll, new_record, decide, put_record, rate_limit,
}
use gate_keeper.Storage.RateLimit.Window.{IsWithin, decide-IsDecided, decide-IsWithin}
use gate_keeper.Storage.Shard.{StorageShard}

-- A record of the window with number `idx`.
record InWindow (window_ms idx : ℕ) (r : RateLimitRecord) : Type 0 where
  width : r.window_ms ≡ window_ms
  index : r.current_window_idx ≡ idx
  ends : r.expire_at_ms ≡ (idx + 2) * window_ms

before_end : (now window_ms : ℕ) → 0 < window_ms → now < (now / window_ms + 2) * window_ms
before_end now window_ms pos = omega arith

-- In its own window a record is not moved.
roll_same :
    (r : RateLimitRecord) (window_ms now idx : ℕ)
    → 0 < window_ms
    → now / window_ms ≡ idx
    → idx < u64_mod
    → InWindow window_ms idx r
    → roll r window_ms now ≡ r
unfolding roll
roll_same r window_ms now idx pos here small v =
    let unended : past r.expire_at_ms now ≡ false =
      rw (v.ends, ← here) (ground (arith, before_end now window_ms pos)) in
    let width : (r.window_ms == window_ms) ≡ true = ground (arith, v.width) in
    let none_passed : windows_passed r window_ms now ≡ 0 = rw (here, v.index) (omega arith) in
    rw (unended, width, none_passed)

new-InWindow :
    (key : Bytes) (window_ms now idx : ℕ)
    → 0 < window_ms
    → now / window_ms ≡ idx
    → (idx + 2) * window_ms < u64_mod
    → InWindow window_ms idx (new_record key window_ms now)
new-InWindow key window_ms now idx pos here small = record {
  width = refl;
  index = here;
  ends = rw here (window_end-exact idx window_ms pos small);
}
  where
    window_end-exact :
        (idx window_ms : ℕ)
        → 0 < window_ms
        → (idx + 2) * window_ms < u64_mod
        → window_end idx window_ms ≡ (idx + 2) * window_ms
    window_end-exact idx window_ms pos small =
        let fits : idx + 2 < u64_mod = grind arith in
        let plain : add64 idx 2 ≡ idx + 2 = omega (arith, fits) in rw plain (mod-eq_of_lt small)

-- A charged record stays in its window.
charged_next :
    {window_ms idx : ℕ} (b : Bool) (c : ℕ) (r r' : RateLimitRecord)
    → r' ≡ (if b then record r { current_count = r.current_count + c } else r)
    → InWindow window_ms idx r
    → InWindow window_ms idx r' × (r'.current_count ≡ r.current_count + (if b then c else 0))
charged_next true c r r' e i =
    rw e (record { width = i.width; index = i.index; ends = i.ends }, refl)
charged_next false c r r' e i = rw e (i, omega arith)

-- `if (cost == 0) cost = 1`
abbrev pub charge : ℕ → ℕ
charge cost = if cost == 0 then 1 else cost

module _ (D : Doubles) ⦃T : TableOps⦄ where
  rate_limit_found :
      (k : Bytes) (limit window_ms cost now : ℕ) (r : RateLimitRecord) (s : StorageShard)
      → 0 < limit
      → 0 < window_ms
      → T.find k s.rate_limits ≡ some r
      → rate_limit D k limit window_ms cost now s
        ≡ put_record D k s (decide D (roll r window_ms now) limit window_ms (charge cost) now)
  unfolding rate_limit
  rate_limit_found k limit window_ms cost now r s l w found =
      let l' : (limit == 0) ≡ false = ground arith in
      let w' : (window_ms == 0) ≡ false = ground arith in rw (l', rate_limit, w', found)

  rate_limit_new :
      (k : Bytes) (limit window_ms cost now : ℕ) (s : StorageShard)
      → 0 < limit
      → 0 < window_ms
      → T.find k s.rate_limits ≡ none
      → rate_limit D k limit window_ms cost now s
        ≡ put_record D k
            (record s { rate_limits = T.insert k (new_record k window_ms now) s.rate_limits })
            (decide D (new_record k window_ms now) limit window_ms (charge cost) now)
  unfolding rate_limit
  rate_limit_new k limit window_ms cost now s l w found =
      let l' : (limit == 0) ≡ false = ground arith in
      let w' : (window_ms == 0) ≡ false = ground arith in rw (l', rate_limit, w', found)

  -- The sum of the costs that are charged to the requests of a run, one after the other; a request is
  -- a time and a cost.
  unfoldable pub admitted : Bytes → ℕ → ℕ → List (ℕ × ℕ) → StorageShard → ℕ
  admitted k limit window_ms [] s = 0
  admitted k limit window_ms ((now, cost) ∷ calls) s =
      (if (rate_limit D k limit window_ms cost now s).0.allowed then charge cost else 0)
      + admitted k limit window_ms calls (rate_limit D k limit window_ms cost now s).1

  -- All times lie in the window with number `idx`, in any order, and the costs are below 2 ^ 53.
  abbrev pub InOneWindow : ℕ → ℕ → List (ℕ × ℕ) → Type 0
  InOneWindow window_ms idx [] = Unit
  InOneWindow window_ms idx ((now, cost) ∷ calls) =
      (now / window_ms ≡ idx) × (cost < 2 ^ 53) × InOneWindow window_ms idx calls

  module _ (k : Bytes) (limit window_ms idx : ℕ) (l : 0 < limit) (small : limit < 2 ^ 53)
      (w : 0 < window_ms) (ends : (idx + 2) * window_ms < u64_mod) where
    decided_next :
        (cost now : ℕ) (r : RateLimitRecord)
        → cost < 2 ^ 53
        → IsWithin limit r
        → InWindow window_ms idx r
        → InWindow window_ms idx (decide D r limit window_ms (charge cost) now).1
          × IsWithin limit (decide D r limit window_ms (charge cost) now).1
          × ((decide D r limit window_ms (charge cost) now).1.current_count
              ≡ r.current_count
                + (if (decide D r limit window_ms (charge cost) now).0.allowed
                    then charge cost
                    else 0))
    decided_next cost now r c v i =
        let c' : charge cost < 2 ^ 53 = ground arith in
        let d = decide-IsDecided D r limit window_ms (charge cost) now w small c' v in
        let v' = decide-IsWithin D r limit window_ms (charge cost) now w small c' v in
        let next =
          charged_next (decide D r limit window_ms (charge cost) now).0.allowed (charge cost) r
            (decide D r limit window_ms (charge cost) now).1 d.charged i in
        (next.0, v', next.1)

    put_next :
        (cost now : ℕ) (r : RateLimitRecord) (s : StorageShard) (old : RateLimitRecord)
        → T.find k s.rate_limits ≡ some old
        → T.find k (put_record D k s (decide D r limit window_ms (charge cost) now)).1.rate_limits
          ≡ some (decide D r limit window_ms (charge cost) now).1
    put_next cost now r s old found =
        rw (T.find-write k k (decide D r limit window_ms (charge cost) now).1 s.rate_limits, found)
          (rw (same_refl k))

    admitted_found :
        (calls : List (ℕ × ℕ)) (r : RateLimitRecord) (s : StorageShard)
        → T.find k s.rate_limits ≡ some r
        → IsWithin limit r
        → InWindow window_ms idx r
        → InOneWindow window_ms idx calls
        → r.current_count + admitted k limit window_ms calls s ≤ limit
    unfolding admitted
    admitted_found [] r s found v i all = omega (arith, v.current)
    admitted_found ((now, cost) ∷ calls) r s found v i all =
        let idx_small : idx < u64_mod = grind arith in
        let stays = roll_same r window_ms now idx w all.0 idx_small i in
        let call =
          rate_limit_found k limit window_ms cost now r s l w found
          ∙ ap (λ x. put_record D k s (decide D x limit window_ms (charge cost) now)) stays in
        let next = decided_next cost now r all.1 v i in
        let rest =
          admitted_found calls (decide D r limit window_ms (charge cost) now).1
            (put_record D k s (decide D r limit window_ms (charge cost) now)).1
            (put_next cost now r s r found) next.1 next.0 all.2 in
        rw call (omega (arith, rest, next.2))

    -- Of a run of requests in one window, on a key that has no record, requests of a total cost of
    -- at most the limit are allowed; a cost of 0 counts as 1. This holds for positive limits,
    -- limits and costs below 2 ^ 53 and windows that end before the clock wraps.
    pub admitted-le-limit :
        (calls : List (ℕ × ℕ)) (s : StorageShard)
        → T.find k s.rate_limits ≡ none
        → InOneWindow window_ms idx calls
        → admitted k limit window_ms calls s ≤ limit
    unfolding admitted
    admitted-le-limit [] s absent all = omega arith
    admitted-le-limit ((now, cost) ∷ calls) s absent all =
        let r = new_record k window_ms now in
        let s' : StorageShard = record s { rate_limits = T.insert k r s.rate_limits } in
        let found : T.find k s'.rate_limits ≡ some r =
          rw (T.find-insert k k r s.rate_limits) (rw (same_refl k)) in
        let v : IsWithin limit r = record { current = omega arith; previous = omega arith } in
        let next =
          decided_next cost now r all.1 v (new-InWindow k window_ms now idx w all.0 ends) in
        let rest =
          admitted_found calls (decide D r limit window_ms (charge cost) now).1
            (put_record D k s' (decide D r limit window_ms (charge cost) now)).1
            (put_next cost now r s' r found) next.1 next.0 all.2 in
        rw (rate_limit_new k limit window_ms cost now s l w absent) (omega (arith, rest, next.2))
