-- ===== src/Storage/RateLimit.antt =====
-- `RateLimit` of src/storage/memory_store.cpp, on one shard: the sliding window over the counts of
-- the current and the previous window. The `double` arithmetic of the weight is a parameter.
pub mod Window
pub mod Runs
use gate_keeper.Base.{
  ℕ, ◌+◌, ◌-◌, ◌*◌, ◌/◌, ◌%◌, ◌^◌, ◌≤◌, ◌<◌, Bool, true, false, Option, none, some, [], Bytes, text,
  ltb, leb, ◌==◌, if◌then◌else◌,
}
use gate_keeper.Tables.{TableOps}
use gate_keeper.Storage.Decimal.{u64_mod, add64}
use gate_keeper.Storage.Entry.{RateLimitRecord, RateLimitResult, past}
use gate_keeper.Storage.Shard.{StorageShard}

-- `double`, with the conversions that the code uses. IEEE 754 rounds monotonically, so that an
-- integer below 2 ^ 53, multiplied by a weight of at most 1, does not grow.
pub record Doubles : Type 1 where
  pub Double : Type 0
  pub of_u64 : ℕ → Double
  pub to_u64 : Double → ℕ
  pub sub : Double → Double → Double
  pub mul : Double → Double → Double
  pub div : Double → Double → Double
  pub weighted_le :
      (p e w : ℕ)
      → p < 2 ^ 53
      → e < w
      → to_u64 (mul (of_u64 p) (sub (of_u64 1) (div (of_u64 e) (of_u64 w)))) ≤ p

abbrev pub rate_error : Bytes → RateLimitResult
rate_error message = record {
  ok = false;
  allowed = false;
  remaining = 0;
  retry_after_ms = 0;
  error_code = text "INVALID_ARGUMENTS";
  error_message = message;
}

abbrev pub rate_reply : Bool → ℕ → ℕ → RateLimitResult
rate_reply allowed remaining retry_after_ms = record {
  ok = true;
  allowed = allowed;
  remaining = remaining;
  retry_after_ms = retry_after_ms;
  error_code = [];
  error_message = [];
}

-- `(current_idx + 2) * window_ms`
abbrev pub window_end : ℕ → ℕ → ℕ
window_end current_idx window_ms = add64 current_idx 2 * window_ms % u64_mod

-- a record with the given counts in the window of `now`
abbrev pub restarted : RateLimitRecord → ℕ → ℕ → ℕ → ℕ → RateLimitRecord
restarted r current previous window_ms now = record r {
  current_window_idx = now / window_ms;
  current_count = current;
  previous_count = previous;
  window_ms = window_ms;
  expire_at_ms = window_end (now / window_ms) window_ms;
}

-- `current_idx - record->current_window_idx` of two `std::uint64_t`
abbrev pub windows_passed : RateLimitRecord → ℕ → ℕ → ℕ
windows_passed r window_ms now = (now / window_ms + u64_mod - r.current_window_idx) % u64_mod

-- the record that is there, moved on to the window of `now`
unfoldable pub roll : RateLimitRecord → ℕ → ℕ → RateLimitRecord
roll r window_ms now =
    if past r.expire_at_ms now
    then restarted r 0 0 window_ms now
    else if r.window_ms == window_ms
    then (if windows_passed r window_ms now == 1
        then restarted r 0 r.current_count window_ms now
        else if ltb 1 (windows_passed r window_ms now)
        then restarted r 0 0 window_ms now
        else r)
    else restarted r 0 0 window_ms now

-- `new_rec`
abbrev pub new_record : Bytes → ℕ → ℕ → RateLimitRecord
new_record key window_ms now = record {
  key = key;
  current_window_idx = now / window_ms;
  current_count = 0;
  previous_count = 0;
  window_ms = window_ms;
  expire_at_ms = window_end (now / window_ms) window_ms;
}

module _ (D : Doubles) where
  unfoldable pub estimate : RateLimitRecord → ℕ → ℕ → ℕ
  estimate r window_ms now =
      let weight_prev =
        D.sub (D.of_u64 1) (D.div (D.of_u64 (now % window_ms)) (D.of_u64 window_ms)) in
      add64 (D.to_u64 (D.mul (D.of_u64 r.previous_count) weight_prev)) r.current_count

  -- the decision on the moved record: the result, and the record with the cost counted if allowed
  unfoldable pub decide : RateLimitRecord → ℕ → ℕ → ℕ → ℕ → RateLimitResult × RateLimitRecord
  decide r limit window_ms cost now =
      let estimated_count = estimate r window_ms now in
      if leb (add64 estimated_count cost) limit
      then (
        rate_reply true (limit - add64 estimated_count cost) 0,
        record r { current_count = add64 r.current_count cost },
      )
      else (
        rate_reply false (if leb estimated_count limit then limit - estimated_count else 0) (
            let retry_after = window_ms - now % window_ms in
            if retry_after == 0 then 1 else retry_after),
        r,
      )

  module _ ⦃T : TableOps⦄ where
    abbrev pub put_record :
        Bytes → StorageShard → RateLimitResult × RateLimitRecord → RateLimitResult × StorageShard
    put_record key s (result, r) = (result, record s { rate_limits = T.write key r s.rate_limits })

    unfoldable pub rate_limit :
        Bytes → ℕ → ℕ → ℕ → ℕ → StorageShard → RateLimitResult × StorageShard
    rate_limit key limit window_ms cost now s =
        if limit == 0
        then (rate_error (text "limit must be greater than zero"), s)
        else if window_ms == 0
        then (rate_error (text "window_ms must be greater than zero"), s)
        else (let charge : ℕ = if cost == 0 then 1 else cost in
            elim (T.find key s.rate_limits) [
              | some r ↦ put_record key s (decide (roll r window_ms now) limit window_ms charge now)
              | none ↦
                  let fresh = new_record key window_ms now in
                  put_record key (record s { rate_limits = T.insert key fresh s.rate_limits })
                    (decide fresh limit window_ms charge now)
            ])
