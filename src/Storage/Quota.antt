-- ===== src/Storage/Quota.antt =====
-- `ReserveQuota`, `CommitQuota` and `RollbackQuota` of src/storage/memory_store.cpp, on one shard.
pub mod Pools
pub mod Reserved
pub mod Settled
pub mod Committed
pub mod RolledBack
pub mod Cycles
use gate_keeper.Base.{
  ℕ, ◌+◌, ◌-◌, Bool, true, false, ◌&&◌, ◌||◌, not, Option, none, some, [], ◌++◌, Bytes, same, text,
  ltb, leb, ◌==◌, if◌then◌else◌, length,
}
use gate_keeper.Tables.{TableOps}
use gate_keeper.Storage.Decimal.{add64, to_string, stoull}
use gate_keeper.Storage.Entry.{
  Entry, string_type, Reservation, ReservationResult, CommitResult, RollbackResult, past,
}
use gate_keeper.Storage.Shard.{StorageShard, look_up}

abbrev pub reserve_error : Bool → ℕ → Bytes → Bytes → ReservationResult
reserve_error ok remaining code message = record {
  ok = ok;
  reserved = false;
  reservation_id = [];
  remaining = remaining;
  error_code = code;
  error_message = message;
}

abbrev pub commit_error : Bytes → Bytes → CommitResult
commit_error code message = record {
  ok = false;
  committed = false;
  actual_amount = 0;
  refunded = 0;
  remaining = 0;
  error_code = code;
  error_message = message;
}

abbrev pub rollback_error : Bytes → Bytes → RollbackResult
rollback_error code message = record {
  ok = false;
  rolled_back = false;
  refunded = 0;
  remaining = 0;
  error_code = code;
  error_message = message;
}

-- `stoull` of the whole text, its exceptions included
unfoldable pub whole_balance : Bytes → Option ℕ
whole_balance s = elim (stoull s) [
  | none ↦ none
  | some (value, idx) ↦ if idx == length s then some value else none
]

-- `try { balance = std::stoull(target->value); } catch (...) { balance = 0; }`, 0 with no target
unfoldable pub balance_of : Option Entry → ℕ
balance_of none = 0
balance_of (some e) = elim (stoull e.value) [ none ↦ 0 | some (value, idx) ↦ value ]

-- `b += amount` on the text of a balance, or the amount alone where the text is no number
unfoldable pub refunded_value : Bytes → ℕ → Bytes
refunded_value value amount = elim (stoull value) [
  | none ↦ to_string amount
  | some (b, idx) ↦ to_string (add64 b amount)
]

-- "res_" + now + "_" + sequence number
unfoldable pub reservation_name : ℕ → ℕ → Bytes
reservation_name now seq = text "res_" ++ (to_string now ++ (text "_" ++ to_string seq))

module _ ⦃T : TableOps⦄ where
  abbrev pub set_balance : Bytes → Entry → Bytes → StorageShard → StorageShard
  set_balance key e value s = record s {
    entries = T.write key (record e { value = value }) s.entries;
  }

  -- a new entry without a deadline
  abbrev pub insert_balance : Bytes → Bytes → ℕ → StorageShard → StorageShard
  insert_balance key value now s = record s {
    entries =
        T.insert key
          (record {
            key = key;
            value = value;
            meta = record { type = string_type; created_at_ms = now; expire_at_ms = 0 };
          })
          s.entries;
  }

  -- the last part of `CommitQuota` and of `RollbackQuota`
  unfoldable pub put_balance : Bytes → Option Entry → Bytes → ℕ → StorageShard → StorageShard
  put_balance key (some e) value now s = set_balance key e value s
  put_balance key none value now s = insert_balance key value now s

  abbrev pub drop_reservation : Bytes → StorageShard → StorageShard
  drop_reservation id s = record s { reservations = (T.erase id s.reservations).0 }

  -- the part of `ReserveQuota` behind the parse of the balance
  unfoldable pub take_balance :
      Bytes → ℕ → ℕ → ℕ → ℕ → Entry → ℕ → StorageShard → ReservationResult × ℕ × StorageShard
  take_balance key amount ttl_ms now seq e balance s =
      if ltb balance amount
      then (
        reserve_error true balance (text "INSUFFICIENT_QUOTA") (text "insufficient quota balance"),
        seq,
        s,
      )
      else (let res_id = reservation_name now seq in
          let res : Reservation = record {
            id = res_id;
            key = key;
            amount = amount;
            created_at_ms = now;
            expire_at_ms = add64 now ttl_ms;
          } in
          let s' = set_balance key e (to_string (balance - amount)) s in
          (
            record {
              ok = true;
              reserved = true;
              reservation_id = res_id;
              remaining = balance - amount;
              error_code = [];
              error_message = [];
            },
            add64 seq 1,
            record s' { reservations = T.insert res_id res s'.reservations },
          ))

  -- `ReserveQuota` behind the look-up
  unfoldable pub reserve_existing :
      Bytes → ℕ → ℕ → ℕ → ℕ → Option Entry → StorageShard → ReservationResult × ℕ × StorageShard
  reserve_existing key amount ttl_ms now seq none s =
      (reserve_error true 0 (text "INSUFFICIENT_QUOTA") (text "quota key does not exist"), seq, s)
  reserve_existing key amount ttl_ms now seq (some e) s = elim (whole_balance e.value) [
    | none ↦ (
      reserve_error false 0 (text "ERR_NOT_AN_INTEGER") (text "quota balance is not an integer"),
      seq,
      s,
    )
    | some balance ↦ take_balance key amount ttl_ms now seq e balance s
  ]

  -- `seq` is `next_reservation_seq_`, which the result has after the call
  unfoldable pub reserve_quota :
      Bytes → ℕ → ℕ → ℕ → ℕ → StorageShard → ReservationResult × ℕ × StorageShard
  reserve_quota key amount ttl_ms now seq s =
      if amount == 0
      then (
        reserve_error false 0 (text "INVALID_ARGUMENTS") (text "amount must be greater than zero"),
        seq,
        s,
      )
      else if ttl_ms == 0
      then (
        reserve_error false 0 (text "INVALID_ARGUMENTS") (text "ttl_ms must be greater than zero"),
        seq,
        s,
      )
      else (let (existing, s') = look_up key now s in
          reserve_existing key amount ttl_ms now seq existing s')

  -- the refund of an expired reservation to a target that is there
  unfoldable pub refund_target : Reservation → StorageShard → StorageShard
  refund_target res s = elim (T.find res.key s.entries) [
    | none ↦ s
    | some e ↦ set_balance res.key e (refunded_value e.value res.amount) s
  ]

  -- the balance after the actual amount is known: what is refunded, and what remains
  unfoldable pub settle : ℕ → ℕ → ℕ → ℕ × ℕ
  settle actual_amount reserved_amount balance =
      if leb actual_amount reserved_amount
      then (reserved_amount - actual_amount, add64 balance (reserved_amount - actual_amount))
      else (
        0,
        if leb (actual_amount - reserved_amount) balance
            then balance - (actual_amount - reserved_amount)
            else 0,
      )

  -- the part of `CommitQuota` for a reservation that has not expired
  unfoldable pub commit_live :
      Bytes → Reservation → ℕ → ℕ → StorageShard → CommitResult × StorageShard
  commit_live res_id res actual_amount now s =
      let s' = drop_reservation res_id s in
      let target = T.find res.key s'.entries in
      let (refunded, balance) = settle actual_amount res.amount (balance_of target) in
      (
        record {
          ok = true;
          committed = true;
          actual_amount = actual_amount;
          refunded = refunded;
          remaining = balance;
          error_code = [];
          error_message = [];
        },
        put_balance res.key target (to_string balance) now s',
      )

  abbrev pub has_expired : Reservation → ℕ → Bool
  has_expired res now = past res.expire_at_ms now

  -- the reservation under an id, if it is for this key
  unfoldable pub find_reservation : Bytes → Bytes → StorageShard → Option Reservation
  find_reservation key res_id s = elim (T.find res_id s.reservations) [
    | none ↦ none
    | some res ↦ if same res.key key then some res else none
  ]

  unfoldable pub commit_quota : Bytes → Bytes → ℕ → ℕ → StorageShard → CommitResult × StorageShard
  commit_quota key res_id actual_amount now s = elim (find_reservation key res_id s) [
    | none ↦ (
      commit_error (text "RESERVATION_NOT_FOUND") (text "reservation not found or key mismatch"),
      s,
    )
    | some res ↦
        if has_expired res now
        then (
          commit_error (text "RESERVATION_EXPIRED")
              (text "reservation expired and was automatically rolled back"),
          drop_reservation res_id (refund_target res s),
        )
        else commit_live res_id res actual_amount now s
  ]

  unfoldable pub rollback_quota : Bytes → Bytes → ℕ → StorageShard → RollbackResult × StorageShard
  rollback_quota key res_id now s = elim (find_reservation key res_id s) [
    | none ↦ (
      rollback_error (text "RESERVATION_NOT_FOUND") (text "reservation not found or key mismatch"),
      s,
    )
    | some res ↦
        let s' = drop_reservation res_id s in
        let target = T.find res.key s'.entries in
        let balance =
          if has_expired res now then balance_of target else add64 (balance_of target) res.amount in
        (
          record {
            ok = true;
            rolled_back = true;
            refunded = res.amount;
            remaining = balance;
            error_code = [];
            error_message = [];
          },
          if has_expired res now then s' else put_balance res.key target (to_string balance) now s',
        )
  ]
