-- ===== src/Examples/Limits.antt =====
-- Tests on rate limits (src/storage/memory_store.cpp).
use gate_keeper.Base.{ℕ, ◌-◌, ◌≤◌, ◌≡◌, refl, true, none, List, [], ◌∷◌, arith}
use gate_keeper.Examples.{tables, hashing, fractions, user}
use gate_keeper.Storage.Decimal.{u64_mod}
use gate_keeper.Storage.Entry.{RateLimitRecord}
use gate_keeper.Storage.RateLimit.{decide, estimate}
use gate_keeper.Storage.RateLimit.Runs.{admitted, admitted-le-limit}
use gate_keeper.Storage.RateLimit.Window.{IsWithin, IsDecided, decide-IsDecided, decide-wraps}
use gate_keeper.Storage.Shard.{new_shard}

-- four requests in the second that starts at 5000, one of them free
abbrev requests : List (ℕ × ℕ)
requests = (5000, 1) ∷ (5100, 2) ∷ (5200, 0) ∷ (5300, 9) ∷ []

nothing_there : tables.find user new_shard.rate_limits ≡ none
nothing_there = rw (tables.find-empty {V = RateLimitRecord} user) refl

admitted-le-limit_example : admitted fractions user 5 1000 requests new_shard ≤ 5
admitted-le-limit_example =
    admitted-le-limit fractions user 5 1000 5 (omega arith) (omega arith) (omega arith)
      (omega arith) requests new_shard nothing_there
      (refl, omega arith, (refl, omega arith, (refl, omega arith, (refl, omega arith, tt))))

abbrev used : RateLimitRecord
used = record {
  key = user;
  current_window_idx = 5;
  current_count = 3;
  previous_count = 4;
  window_ms = 1000;
  expire_at_ms = 7000;
}

used-IsWithin : IsWithin 5 used
used-IsWithin = record { current = omega arith; previous = omega arith }

decide-IsDecided_example :
    IsDecided fractions used
      (decide fractions used 5 1000 1 5500).1
      5
      1000
      1
      5500
      (decide fractions used 5 1000 1 5500).0
decide-IsDecided_example =
    decide-IsDecided fractions used 5 1000 1 5500 (omega arith) (omega arith) (omega arith)
      used-IsWithin

decide-wraps_example :
    ((decide fractions used 5 1000 (u64_mod - estimate fractions used 1000 5500) 5500).0.allowed
      ≡ true)
    × (estimate fractions used 1000 5500 ≡ used.current_count
        → (decide fractions used 5 1000
            (u64_mod - estimate fractions used 1000 5500)
            5500).1.current_count
          ≡ 0)
unfolding estimate
decide-wraps_example = decide-wraps fractions used 5 1000 5500 (omega arith)
