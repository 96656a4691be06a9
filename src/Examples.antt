-- ===== src/Examples.antt =====
-- Data for the tests: the hash table of include/gatekeeper/storage/hash_table.h over a small hash
-- function, fractions for `double`, and shards with one key.
mod Tables
mod Keys
mod Limits
mod Requests
mod Amounts
mod Wire
mod Commands
mod Http
mod Channel
use native.Mathlib.Nat.{div-le_of_le-mul, mul-le-mul_left}
use gate_keeper.Base.{
  ℕ, ◌+◌, ◌-◌, ◌*◌, ◌/◌, ◌^◌, ◌≤◌, ◌<◌, ◌≡◌, refl, Bool, Option, none, some, [], ◌∷◌, Bytes,
  same_refl, text, arith, ltb, length,
}
use gate_keeper.HashTable.{Hashing}
use gate_keeper.Tables.{TableOps}
use gate_keeper.Tables.Hashed.{hashed, string_hashing}
use gate_keeper.Storage.Decimal.{to_string, to_string_ℤ}
use gate_keeper.Storage.Entry.{Entry, string_type, IdempotencyRecord, in_progress, completed}
use gate_keeper.Storage.RateLimit.{Doubles}
use gate_keeper.Storage.Shard.{StorageShard, new_shard}
use gate_keeper.Storage.Shard.Live.{live, unexpired}

-- three quarters full is full
abbrev pub over_load : ℕ → ℕ → Bool
over_load size buckets = ltb (buckets * 3) (size * 4)

instance abbrev pub hashing : Hashing Bytes
hashing = string_hashing length over_load

instance abbrev pub tables : TableOps
tables = hashed length over_load

-- Fractions; the division of whole numbers rounds down.
abbrev pub Fraction : Type 0
Fraction = ℕ × ℕ

pub weighted_bound :
    (p e w : ℕ) → p < 2 ^ 53 → e < w → p * (1 * (1 * w) - e * 1 * 1) / (1 * (1 * (1 * w))) ≤ p
weighted_bound p e w small h =
    div-le_of_le-mul (1 * (1 * (1 * w))) (less_le p (1 * (1 * w) - e * 1 * 1) w (omega arith))
  where
    less_le : (p x w : ℕ) → x ≤ w → p * x ≤ 1 * (1 * (1 * w)) * p
    less_le p x w h = grind (arith, mul-le-mul_left p h)

abbrev pub fractions : Doubles
fractions = record {
  Double = Fraction;
  of_u64 = λ n. (n, 1);
  to_u64 = λ x. x.0 / x.1;
  sub = λ x y. (x.0 * y.1 - y.0 * x.1, x.1 * y.1);
  mul = λ x y. (x.0 * y.0, x.1 * y.1);
  div = λ x y. (x.0 * y.1, x.1 * y.0);
  weighted_le = weighted_bound;
}

abbrev pub user : Bytes
user = text "user:1"

-- a shard with one entry, which never expires
abbrev pub entry_of : Bytes → Entry
entry_of value = record {
  key = user;
  value = value;
  meta = record { type = string_type; created_at_ms = 1000; expire_at_ms = 0 };
}

abbrev pub shard_of : Entry → StorageShard
shard_of e = record new_shard { entries = tables.insert user e tables.empty }

pub live-shard_of : (now : ℕ) (e : Entry) → live user now (shard_of e) ≡ unexpired now (some e)
unfolding live
live-shard_of now e = rw (tables.find-insert user user e tables.empty) (rw (same_refl user))
