-- ===== src/Storage/RateLimit/Window.antt =====
-- One decision of `RateLimit` (src/storage/memory_store.cpp): exact for counts and costs below 2 ^ 53,
-- and what happens to a cost that wraps.
use gate_keeper.Base.{
  ℕ, ◌+◌, ◌-◌, ◌%◌, ◌^◌, ◌≤◌, ◌<◌, ◌≡◌, refl, sym, Bool, Bool-cases, inl, inr, true, false, arith,
  ltb, leb, ◌==◌, if◌then◌else◌,
}
use native.Mathlib.Nat.{mod-lt}
use gate_keeper.Storage.Decimal.{u64_mod, add64}
use gate_keeper.Storage.Entry.{RateLimitRecord, RateLimitResult, past}
use gate_keeper.Storage.RateLimit.{Doubles, restarted, windows_passed, roll, estimate, decide}

-- Neither count passes the limit.
pub record IsWithin (limit : ℕ) (r : RateLimitRecord) : Type 0 where
  pub current : r.current_count ≤ limit
  pub previous : r.previous_count ≤ limit

-- Moving a record to the window of `now` keeps its counts within the limit.
pub roll-IsWithin :
    (limit window_ms now : ℕ) (r : RateLimitRecord)
    → IsWithin limit r
    → IsWithin limit (roll r window_ms now)
unfolding roll
roll-IsWithin limit window_ms now r v = elim (Bool-cases (past r.expire_at_ms now)) [
  | inl e ↦ rw e (record { current = omega arith; previous = omega arith })
  | inr e ↦ rw e (same_window (r.window_ms == window_ms) (windows_passed r window_ms now))
]
  where
    same_window :
        (b : Bool) (n : ℕ)
        → IsWithin limit (
            if b
            then (if n == 1
                then restarted r 0 r.current_count window_ms now
                else if ltb 1 n
                then restarted r 0 0 window_ms now
                else r)
            else restarted r 0 0 window_ms now)
    same_window b n = ground arith

module _ (D : Doubles) where
  estimate-lt : (r : RateLimitRecord) (window_ms now : ℕ) → estimate D r window_ms now < u64_mod
  unfolding estimate
  estimate-lt r window_ms now = omega arith

  -- With small counts the estimate does not wrap: it lies between the current count and the sum of
  -- both counts.
  pub estimate_bounds :
      (r : RateLimitRecord) (window_ms now : ℕ)
      → 0 < window_ms
      → r.previous_count < 2 ^ 53
      → r.current_count < 2 ^ 53
      → (r.current_count ≤ estimate D r window_ms now)
        × (estimate D r window_ms now ≤ r.previous_count + r.current_count)
  unfolding estimate
  estimate_bounds r window_ms now pos small small' =
      let weighted =
        D.weighted_le r.previous_count (now % window_ms) window_ms small (mod-lt now pos) in
      omega (arith, weighted)

  -- What the decision means in numbers that do not wrap.
  pub record IsDecided (r r' : RateLimitRecord) (limit window_ms cost now : ℕ)
      (result : RateLimitResult) : Type 0 where
    pub answered : result.ok ≡ true
    pub exact : result.allowed ≡ leb (estimate D r window_ms now + cost) limit
    pub charged :
        r' ≡ (if result.allowed then record r { current_count = r.current_count + cost } else r)
    pub left :
        result.remaining
        ≡ limit - (estimate D r window_ms now + (if result.allowed then cost else 0))
    pub waits :
        if result.allowed
        then result.retry_after_ms ≡ 0
        else (result.retry_after_ms ≡ window_ms - now % window_ms)

  -- A decision with a positive window, a limit and a cost below 2 ^ 53 and counts within the limit
  -- is exact: the request is allowed exactly if the estimate and the cost stay within the limit,
  -- only an allowed request is charged, and the reply says what is left and, if the request is
  -- denied, when the window ends.
  pub decide-IsDecided :
      (r : RateLimitRecord) (limit window_ms cost now : ℕ)
      → 0 < window_ms
      → limit < 2 ^ 53
      → cost < 2 ^ 53
      → IsWithin limit r
      → IsDecided r
          (decide D r limit window_ms cost now).1
          limit
          window_ms
          cost
          now
          (decide D r limit window_ms cost now).0
  unfolding decide
  decide-IsDecided r limit window_ms cost now pos small small' v =
      let est = estimate D r window_ms now in
      let bounds = estimate_bounds r window_ms now pos (omega arith) (omega arith) in
      let e1 : add64 est cost ≡ est + cost = omega arith in
      let e2 : add64 r.current_count cost ≡ r.current_count + cost = omega arith in
      let wait : (window_ms - now % window_ms == 0) ≡ false = ground (arith, mod-lt now pos) in
      rw e1 (elim (Bool-cases (leb (est + cost) limit)) [
        | inl y ↦
            rw y (record {
              answered = refl;
              exact = sym y;
              charged = rw e2;
              left = refl;
              waits = refl;
            })
        | inr n ↦
            rw (n, wait)
              (record {
                answered = refl;
                exact = sym n;
                charged = refl;
                left = ground arith;
                waits = refl;
              })
      ])

  -- So the counts stay within the limit.
  pub decide-IsWithin :
      (r : RateLimitRecord) (limit window_ms cost now : ℕ)
      → 0 < window_ms
      → limit < 2 ^ 53
      → cost < 2 ^ 53
      → IsWithin limit r
      → IsWithin limit (decide D r limit window_ms cost now).1
  decide-IsWithin r limit window_ms cost now pos small small' v =
      let d = decide-IsDecided r limit window_ms cost now pos small small' v in
      let bounds = estimate_bounds r window_ms now pos (omega arith) (omega arith) in
      rw d.charged (charged_within ((decide D r limit window_ms cost now).0.allowed) d.exact)
    where
      charged_within :
          (b : Bool)
          → b ≡ leb (estimate D r window_ms now + cost) limit
          → IsWithin limit (if b then record r { current_count = r.current_count + cost } else r)
      charged_within true e = record {
        current = ground (arith, estimate_bounds r window_ms now pos (omega arith) (omega arith));
        previous = v.previous;
      }
      charged_within false e = v

  -- A cost that makes the sum of a positive estimate and the cost wrap to 0 is always allowed,
  -- whatever the limit, and where the estimate is the current count, it sets the count back to 0.
  pub decide-wraps :
      (r : RateLimitRecord) (limit window_ms now : ℕ)
      → 0 < estimate D r window_ms now
      → ((decide D r limit window_ms (u64_mod - estimate D r window_ms now) now).0.allowed ≡ true)
        × (estimate D r window_ms now ≡ r.current_count
            → (decide D r limit window_ms
                (u64_mod - estimate D r window_ms now)
                now).1.current_count
              ≡ 0)
  unfolding decide
  decide-wraps r limit window_ms now more =
      let est = estimate D r window_ms now in
      let small = estimate-lt r window_ms now in
      let zero_sum : add64 est (u64_mod - est) ≡ 0 = omega (arith, small) in
      let fits : leb 0 limit ≡ true = ground arith in
      rw (zero_sum, fits) (refl, λ e. omega (arith, e, small))
