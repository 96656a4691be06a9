-- ===== src/Storage/Entry.antt =====
-- include/gatekeeper/storage/entry.h and the `WriteCondition` of store.h: the records of the store
-- and the results of its operations.
use gate_keeper.Base.{ℕ, ℤ, Bool, ◌&&◌, ltb, leb, Bytes}

pub data DataType : Type 0 where
  none_type string_type : DataType

-- `expire_at_ms > 0 && now_ms >= expire_at_ms`, the test of all four kinds of record
abbrev pub past : ℕ → ℕ → Bool
past expire_at_ms now_ms = ltb 0 expire_at_ms && leb expire_at_ms now_ms

pub record EntryMetadata : Type 0 where
  pub type : DataType
  pub created_at_ms : ℕ
  pub expire_at_ms : ℕ

pub record Entry : Type 0 where
  pub key : Bytes
  pub value : Bytes
  pub meta : EntryMetadata

unfoldable pub is_expired : Entry → ℕ → Bool
is_expired e now_ms = past e.meta.expire_at_ms now_ms

pub data WriteCondition : Type 0 where
  always if_absent if_present : WriteCondition

pub record IncrResult : Type 0 where
  pub ok : Bool
  pub value : ℤ
  pub error_code : Bytes
  pub error_message : Bytes

pub record RateLimitResult : Type 0 where
  pub ok : Bool
  pub allowed : Bool
  pub remaining : ℕ
  pub retry_after_ms : ℕ
  pub error_code : Bytes
  pub error_message : Bytes

pub record RateLimitRecord : Type 0 where
  pub key : Bytes
  pub current_window_idx : ℕ
  pub current_count : ℕ
  pub previous_count : ℕ
  pub window_ms : ℕ
  pub expire_at_ms : ℕ

pub record Reservation : Type 0 where
  pub id : Bytes
  pub key : Bytes
  pub amount : ℕ
  pub created_at_ms : ℕ
  pub expire_at_ms : ℕ

pub record ReservationResult : Type 0 where
  pub ok : Bool
  pub reserved : Bool
  pub reservation_id : Bytes
  pub remaining : ℕ
  pub error_code : Bytes
  pub error_message : Bytes

pub record CommitResult : Type 0 where
  pub ok : Bool
  pub committed : Bool
  pub actual_amount : ℕ
  pub refunded : ℕ
  pub remaining : ℕ
  pub error_code : Bytes
  pub error_message : Bytes

pub record RollbackResult : Type 0 where
  pub ok : Bool
  pub rolled_back : Bool
  pub refunded : ℕ
  pub remaining : ℕ
  pub error_code : Bytes
  pub error_message : Bytes

pub data IdempotencyStatus : Type 0 where
  none_status in_progress completed failed : IdempotencyStatus

pub record IdempotencyRecord : Type 0 where
  pub key : Bytes
  pub request_hash : Bytes
  pub status : IdempotencyStatus
  pub response_code : ℤ
  pub response_body : Bytes
  pub owner_token : Bytes
  pub created_at_ms : ℕ
  pub expire_at_ms : ℕ

pub data IdempotencyAction : Type 0 where
  execute park replay conflict : IdempotencyAction

pub record IdempotencyBeginResult : Type 0 where
  pub ok : Bool
  pub action : IdempotencyAction
  pub owner_token : Bytes
  pub cached_code : ℤ
  pub cached_response : Bytes
  pub error_code : Bytes
  pub error_message : Bytes

pub record IdempotencyCompleteResult : Type 0 where
  pub ok : Bool
  pub completed : Bool
  pub error_code : Bytes
  pub error_message : Bytes

pub record IdempotencyFailResult : Type 0 where
  pub ok : Bool
  pub failed : Bool
  pub error_code : Bytes
  pub error_message : Bytes
