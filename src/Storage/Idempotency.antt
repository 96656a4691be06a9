-- ===== src/Storage/Idempotency.antt =====
-- `IdemBegin`, `IdemComplete`, `IdemFail` and `IdemGet` of src/storage/memory_store.cpp, on one
-- shard.
pub mod Machine
pub mod Flights
pub mod Replays
use gate_keeper.Base.{
  ℕ, ℤ, pos, Bool, true, false, ◌&&◌, ◌||◌, not, Option, none, some, [], ◌++◌, Bytes, same,
  is_empty, text, ltb, if◌then◌else◌,
}
use gate_keeper.Tables.{TableOps}
use gate_keeper.Storage.Decimal.{add64, to_string}
use gate_keeper.Storage.Entry.{
  IdempotencyRecord, IdempotencyStatus, none_status, in_progress, completed, failed,
  IdempotencyAction, execute, park, replay, conflict, IdempotencyBeginResult,
  IdempotencyCompleteResult, IdempotencyFailResult, past,
}
use gate_keeper.Storage.Keys.{expiry}
use gate_keeper.Storage.Shard.{StorageShard}

abbrev pub begin_error : Bytes → Bytes → IdempotencyBeginResult
begin_error code message = record {
  ok = false;
  action = conflict;
  owner_token = [];
  cached_code = pos 0;
  cached_response = [];
  error_code = code;
  error_message = message;
}

abbrev pub begin_reply : IdempotencyAction → Bytes → ℤ → Bytes → IdempotencyBeginResult
begin_reply action token code response = record {
  ok = true;
  action = action;
  owner_token = token;
  cached_code = code;
  cached_response = response;
  error_code = [];
  error_message = [];
}

abbrev pub complete_reply : Bool → Bytes → Bytes → IdempotencyCompleteResult
complete_reply ok code message = record {
  ok = ok;
  completed = ok;
  error_code = code;
  error_message = message;
}

abbrev pub fail_reply : Bool → Bytes → Bytes → IdempotencyFailResult
fail_reply ok code message = record {
  ok = ok;
  failed = ok;
  error_code = code;
  error_message = message;
}

-- the caller's token, or "idem_" + now + "_" + sequence number
unfoldable pub token_for : Bytes → ℕ → ℕ → Bytes
token_for owner_token now seq =
    if is_empty owner_token
    then text "idem_" ++ (to_string now ++ (text "_" ++ to_string seq))
    else owner_token

-- `next_idempotency_seq_` behind the choice of a token
abbrev pub next_seq : Bytes → ℕ → ℕ
next_seq owner_token seq = if is_empty owner_token then add64 seq 1 else seq

-- `!owner_token.empty() && record->owner_token != owner_token`
unfoldable pub is_stranger : Bytes → IdempotencyRecord → Bool
is_stranger owner_token r = not (is_empty owner_token) && not (same r.owner_token owner_token)

-- `!owner_token.empty() && record->owner_token == owner_token`
unfoldable pub is_owner : Bytes → IdempotencyRecord → Bool
is_owner owner_token r = not (is_empty owner_token) && same r.owner_token owner_token

module _ ⦃T : TableOps⦄ where
  abbrev pub put_idempotency : Bytes → IdempotencyRecord → StorageShard → StorageShard
  put_idempotency key r s = record s { idempotency_records = T.write key r s.idempotency_records }

  -- `Find`, and `Erase` if the record has expired
  unfoldable pub look_up_idempotency :
      Bytes → ℕ → StorageShard → Option IdempotencyRecord × StorageShard
  look_up_idempotency key now s = elim (T.find key s.idempotency_records) [
    | none ↦ (none, s)
    | some r ↦
        if past r.expire_at_ms now
        then (none, record s { idempotency_records = (T.erase key s.idempotency_records).0 })
        else (some r, s)
  ]

  -- the answer for a record that is there with the same request hash
  unfoldable pub begin_existing :
      Bytes
      → ℕ
      → Bytes
      → ℕ
      → ℕ
      → IdempotencyRecord
      → IdempotencyStatus
      → StorageShard
      → IdempotencyBeginResult × ℕ × StorageShard
  begin_existing key ttl_ms owner_token now seq r in_progress s = (
    begin_reply (if is_owner owner_token r then execute else park) r.owner_token (pos 0) [],
    seq,
    s,
  )
  begin_existing key ttl_ms owner_token now seq r completed s =
      (begin_reply replay r.owner_token r.response_code r.response_body, seq, s)
  begin_existing key ttl_ms owner_token now seq r failed s =
      let token = token_for owner_token now seq in
      (
        begin_reply execute token (pos 0) [],
        next_seq owner_token seq,
        put_idempotency key
            (record r {
              status = in_progress;
              owner_token = token;
              created_at_ms = now;
              expire_at_ms = expiry ttl_ms now;
              response_code = pos 0;
              response_body = [];
            })
            s,
      )
  begin_existing key ttl_ms owner_token now seq r none_status s =
      (begin_error (text "ERR_UNKNOWN_STATUS") (text "Unknown idempotency status"), seq, s)

  -- the claim of a key that has no record
  unfoldable pub begin_new :
      Bytes → Bytes → ℕ → Bytes → ℕ → ℕ → StorageShard → IdempotencyBeginResult × ℕ × StorageShard
  begin_new key request_hash ttl_ms owner_token now seq s =
      let token = token_for owner_token now seq in
      (
        begin_reply execute token (pos 0) [],
        next_seq owner_token seq,
        record s {
          idempotency_records =
              T.insert key
                (record {
                  key = key;
                  request_hash = request_hash;
                  status = in_progress;
                  response_code = pos 0;
                  response_body = [];
                  owner_token = token;
                  created_at_ms = now;
                  expire_at_ms = expiry ttl_ms now;
                })
                s.idempotency_records;
        },
      )

  -- `seq` is `next_idempotency_seq_`, which the result has after the call
  unfoldable pub idem_begin :
      Bytes → Bytes → ℕ → Bytes → ℕ → ℕ → StorageShard → IdempotencyBeginResult × ℕ × StorageShard
  idem_begin key request_hash ttl_ms owner_token now seq s =
      let (found, s') = look_up_idempotency key now s in
      elim found [
        | none ↦ begin_new key request_hash ttl_ms owner_token now seq s'
        | some r ↦
            if same r.request_hash request_hash
            then begin_existing key ttl_ms owner_token now seq r r.status s'
            else (
              begin_error (text "ERR_IDEMPOTENCY_CONFLICT")
                  (text "Request hash mismatch for idempotency key"),
              seq,
              s',
            )
      ]

  abbrev pub is_completed : IdempotencyStatus → Bool
  is_completed completed = true
  is_completed _ = false

  unfoldable pub idem_complete :
      Bytes → Bytes → ℤ → Bytes → ℕ → StorageShard → IdempotencyCompleteResult × StorageShard
  idem_complete key owner_token response_code response_body now s =
      elim (T.find key s.idempotency_records) [
        | none ↦
            (complete_reply false (text "ERR_NOT_FOUND") (text "Idempotency record not found"), s)
        | some r ↦
            if past r.expire_at_ms now
            then (
              complete_reply false (text "ERR_EXPIRED") (text "Idempotency record has expired"),
              record s { idempotency_records = (T.erase key s.idempotency_records).0 },
            )
            else if is_stranger owner_token r
            then (complete_reply false (text "ERR_TOKEN_MISMATCH") (text "Owner token mismatch"), s)
            else if is_completed r.status
            then (complete_reply true [] [], s)
            else (
              complete_reply true [] [],
              put_idempotency key
                  (record r {
                    status = completed;
                    response_code = response_code;
                    response_body = response_body;
                  })
                  s,
            )
      ]

  unfoldable pub idem_fail :
      Bytes → Bytes → Bytes → ℕ → StorageShard → IdempotencyFailResult × StorageShard
  idem_fail key owner_token error_message now s = elim (T.find key s.idempotency_records) [
    | none ↦ (fail_reply false (text "ERR_NOT_FOUND") (text "Idempotency record not found"), s)
    | some r ↦
        if past r.expire_at_ms now
        then (
          fail_reply false (text "ERR_EXPIRED") (text "Idempotency record has expired"),
          record s { idempotency_records = (T.erase key s.idempotency_records).0 },
        )
        else if is_stranger owner_token r
        then (fail_reply false (text "ERR_TOKEN_MISMATCH") (text "Owner token mismatch"), s)
        else (
          fail_reply true [] [],
          put_idempotency key (record r { status = failed; response_body = error_message }) s,
        )
  ]

  unfoldable pub idem_get : Bytes → ℕ → StorageShard → Option IdempotencyRecord × StorageShard
  idem_get key now s = look_up_idempotency key now s
