-- ===== src/Service/Processor.antt =====
-- `Processor` of src/service/processor.cpp: what a binary request does to the store, its reply, and the
-- records that it leaves in the append-only file. Requests has the reading of the arguments.
pub mod Records
pub mod SetRecords
pub mod Replay
pub mod Values
use gate_keeper.Base.{
  ℕ, ◌+◌, ◌*◌, ◌^◌, ◌%◌, ◌-◌, ltb, ℤ, pos, Bool, true, false, ◌&&◌, Option, none, some, List, [],
  ◌∷◌, ◌++◌, Bytes, text, flatten, if◌then◌else◌, length,
}
use gate_keeper.Commands.Dispatcher.{LogRecord}
use gate_keeper.Json.Quote.{quote_json}
use gate_keeper.Protocol.Codec.{
  Request, ping, set, get, del, exists, type_of, expire, ttl, incr_by, rate_limit, quota_init,
  quota_get, reserve, commit, rollback, idem_begin, idem_complete, idem_fail, SetCondition,
  to_uint64,
}
use gate_keeper.Protocol.Codec
use gate_keeper.Protocol.Frame.{be16, be32, be64}
use gate_keeper.Protocol.Requests.{Parsed, bad, good, out_of_bounds, parse_request}
use gate_keeper.Storage.Decimal.{to_string, to_string_ℤ, stoull}
use gate_keeper.Storage.Entry.{
  DataType, none_type, string_type, WriteCondition, always, if_absent, if_present, IncrResult,
  RateLimitResult, ReservationResult, CommitResult, RollbackResult, IdempotencyAction, execute,
  park, replay, conflict, IdempotencyBeginResult,
}
use gate_keeper.Storage.RateLimit.{Doubles}
use gate_keeper.Storage.Store
use gate_keeper.Storage.Store.{MemoryStore}
use gate_keeper.Tables.{TableOps}
use gate_keeper.Service.Replies.{
  BinaryStatus, status_code, status, bit, append_if, write_condition, value_reply, ttl_part,
  condition_part, set_record, key_record, type_text, balance_of, action_byte, is_execute,
  is_conflict, ok, error, not_found, denied, conflicting,
}

module _ ⦃T : TableOps⦄ where
  -- a reply, the records that were appended, and the store
  abbrev pub Outcome : Type 0
  Outcome = Bytes × List LogRecord × MemoryStore

  unfoldable pub run_ping : MemoryStore → Outcome
  run_ping m = (status_code ok ∷ (be16 4 ++ text "PONG"), [], m)

  unfoldable pub run_get : Bytes → ℕ → MemoryStore → Outcome
  run_get key now m = let (v, m') = Store.get key now m in (value_reply v, [], m')

  unfoldable pub run_set : Bool → Bytes → Bytes → SetCondition → ℕ → ℕ → MemoryStore → Outcome
  unfolding set_record
  run_set writer key value condition ttl_ms now m =
      let (stored, m') = Store.set key value (write_condition condition) ttl_ms now m in
      if stored
      then (status ok, append_if writer (text "SET") (set_record key value condition ttl_ms), m')
      else (status not_found, [], m')

  unfoldable pub run_del : Bool → Bytes → MemoryStore → Outcome
  unfolding key_record
  run_del writer key m =
      let (deleted, m') = Store.del key m in
      (
        status_code ok ∷ bit deleted ∷ [],
        append_if (deleted && writer) (text "DEL") (key_record key (text "}" ∷ [])),
        m',
      )

  unfoldable pub run_exists : Bytes → ℕ → MemoryStore → Outcome
  run_exists key now m =
      let (found, m') = Store.exists key now m in (status_code ok ∷ bit found ∷ [], [], m')

  unfoldable pub run_type : Bytes → ℕ → MemoryStore → Outcome
  run_type key now m =
      let (type, m') = Store.type_of key now m in
      (status_code ok ∷ (be16 (length (type_text type)) ++ type_text type), [], m')

  unfoldable pub run_expire : Bool → Bytes → ℕ → ℕ → MemoryStore → Outcome
  unfolding key_record
  run_expire writer key ttl_ms now m =
      let (success, m') = Store.expire key ttl_ms now m in
      (
        status_code ok ∷ bit success ∷ [],
        append_if (success && writer) (text "PEXPIRE")
            (key_record key (text ",\"ttl_ms\":" ∷ to_string ttl_ms ∷ text "}" ∷ [])),
        m',
      )

  unfoldable pub run_ttl : Bytes → ℕ → MemoryStore → Outcome
  run_ttl key now m =
      let (ttl_ms, m') = Store.ttl key now m in (status_code ok ∷ be64 (to_uint64 ttl_ms), [], m')

  unfoldable pub run_incr : Bool → Bytes → ℤ → ℕ → ℕ → MemoryStore → Outcome
  unfolding key_record
  run_incr writer key delta init_ttl_ms now m =
      let (res, m') = Store.incr_by key delta init_ttl_ms now m in
      if res.ok
      then (
        status_code ok ∷ be64 (to_uint64 res.value),
        append_if writer (text "INCRBY") (
            key_record key
              (text ",\"delta\":" ∷ to_string_ℤ delta ∷ (ttl_part init_ttl_ms ++ (text "}" ∷ [])))),
        m',
      )
      else (status error, [], m')

  unfoldable pub run_rate_limit : Doubles → Bytes → ℕ → ℕ → ℕ → ℕ → MemoryStore → Outcome
  run_rate_limit D key limit window_ms cost now m =
      let (res, m') = Store.rate_limit D key limit window_ms cost now m in
      if res.ok
      then (
        status_code ok ∷ bit res.allowed ∷ (be64 res.remaining ++ be64 res.retry_after_ms),
        [],
        m',
      )
      else (status error, [], m')

  unfoldable pub run_quota_init : Bool → Bytes → ℕ → ℕ → MemoryStore → Outcome
  unfolding key_record
  run_quota_init writer key amount now m = (
    status ok,
    append_if writer (text "GK.QUOTA_INIT")
        (key_record key (text ",\"amount\":" ∷ to_string amount ∷ text "}" ∷ [])),
    (Store.set key (to_string amount) always 0 now m).1,
  )

  unfoldable pub run_quota_get : Bytes → ℕ → MemoryStore → Outcome
  unfolding stoull
  run_quota_get key now m =
      let (v, m') = Store.get key now m in (status_code ok ∷ be64 (balance_of v), [], m')

  unfoldable pub run_reserve : Bool → Bytes → ℕ → ℕ → ℕ → MemoryStore → Outcome
  run_reserve writer key amount ttl_ms now m =
      let (res, m') = Store.reserve_quota key amount ttl_ms now m in
      if res.ok
      then (
        status_code ok
            ∷ bit res.reserved
            ∷ (be64 res.remaining ++ (be16 (length res.reservation_id) ++ res.reservation_id)),
        append_if (res.reserved && writer) (text "GK.RESERVE") (
            flatten (
              text "{\"key\":\""
              ∷ key
              ∷ text "\",\"amount\":"
              ∷ to_string amount
              ∷ text ",\"ttl_ms\":"
              ∷ to_string ttl_ms
              ∷ text ",\"reservation_id\":\""
              ∷ res.reservation_id
              ∷ text "\"}"
              ∷ [])),
        m',
      )
      else (status error, [], m')

  unfoldable pub run_commit : Bool → Bytes → Bytes → ℕ → ℕ → MemoryStore → Outcome
  run_commit writer key res_id actual_amount now m =
      let (res, m') = Store.commit_quota key res_id actual_amount now m in
      if res.ok
      then (
        status_code ok ∷ bit res.committed ∷ (be64 res.refunded ++ be64 res.remaining),
        append_if writer (text "GK.COMMIT") (
            flatten (
              text "{\"key\":\""
              ∷ key
              ∷ text "\",\"reservation_id\":\""
              ∷ res_id
              ∷ text "\",\"actual_amount\":"
              ∷ to_string actual_amount
              ∷ text "}"
              ∷ [])),
        m',
      )
      else (status error, [], m')

  unfoldable pub run_rollback : Bool → Bytes → Bytes → ℕ → MemoryStore → Outcome
  unfolding key_record
  run_rollback writer key res_id now m =
      let (res, m') = Store.rollback_quota key res_id now m in
      if res.ok
      then (
        status_code ok ∷ bit res.rolled_back ∷ (be64 res.refunded ++ be64 res.remaining),
        append_if writer (text "GK.ROLLBACK")
            (key_record key (text ",\"reservation_id\":" ∷ quote_json res_id ∷ text "}" ∷ [])),
        m',
      )
      else (status error, [], m')

  unfoldable pub run_idem_begin : Bool → Bytes → Bytes → ℕ → Bytes → ℕ → MemoryStore → Outcome
  run_idem_begin writer key request_hash ttl_ms owner_token now m =
      let (res, m') = Store.idem_begin key request_hash ttl_ms owner_token now m in
      if res.ok
      then (
        status_code ok
            ∷ action_byte res.action
            ∷ (be16 (length res.owner_token)
                ++ (res.owner_token
                    ++ (be16 (to_uint64 res.cached_code % 2 ^ 16)
                        ++ (be32 (length res.cached_response) ++ res.cached_response)))),
        append_if (writer && is_execute res.action) (text "GK.IDEM_BEGIN") (
            flatten (
              text "{\"key\":\""
              ∷ key
              ∷ text "\",\"request_hash\":\""
              ∷ request_hash
              ∷ text "\",\"ttl_ms\":"
              ∷ to_string ttl_ms
              ∷ text ",\"owner_token\":\""
              ∷ res.owner_token
              ∷ text "\"}"
              ∷ [])),
        m',
      )
      else (status (if is_conflict res.action then conflicting else error), [], m')

  unfoldable pub run_idem_complete : Bool → Bytes → Bytes → ℕ → Bytes → ℕ → MemoryStore → Outcome
  run_idem_complete writer key owner_token code body now m =
      let (res, m') = Store.idem_complete key owner_token (pos code) body now m in
      if res.ok
      then (
        status_code ok ∷ 1 ∷ [],
        append_if writer (text "GK.IDEM_COMPLETE") (
            flatten (
              text "{\"key\":\""
              ∷ key
              ∷ text "\",\"owner_token\":\""
              ∷ owner_token
              ∷ text "\",\"response_code\":"
              ∷ to_string code
              ∷ text ",\"response_body\":\""
              ∷ body
              ∷ text "\"}"
              ∷ [])),
        m',
      )
      else (status error, [], m')

  unfoldable pub run_idem_fail : Bool → Bytes → Bytes → Bytes → ℕ → MemoryStore → Outcome
  run_idem_fail writer key owner_token error_message now m =
      let (res, m') = Store.idem_fail key owner_token error_message now m in
      if res.ok
      then (
        status_code ok ∷ 1 ∷ [],
        append_if writer (text "GK.IDEM_FAIL") (
            flatten (
              text "{\"key\":\""
              ∷ key
              ∷ text "\",\"owner_token\":\""
              ∷ owner_token
              ∷ text "\"}"
              ∷ [])),
        m',
      )
      else (status error, [], m')

  -- the cases of the `switch`
  unfoldable pub run_request : Doubles → Bool → Request → ℕ → MemoryStore → Outcome
  unfolding run_ping run_get run_set run_del run_exists run_type run_expire run_ttl run_incr
      run_rate_limit run_quota_init run_quota_get run_reserve run_commit run_rollback run_idem_begin
      run_idem_complete run_idem_fail
  run_request D writer ping now m = run_ping m
  run_request D writer (set key value condition ttl_ms) now m =
      run_set writer key value condition ttl_ms now m
  run_request D writer (get key) now m = run_get key now m
  run_request D writer (del key) now m = run_del writer key m
  run_request D writer (exists key) now m = run_exists key now m
  run_request D writer (type_of key) now m = run_type key now m
  run_request D writer (expire key ttl_ms) now m = run_expire writer key ttl_ms now m
  run_request D writer (ttl key) now m = run_ttl key now m
  run_request D writer (incr_by key delta init_ttl_ms) now m =
      run_incr writer key delta init_ttl_ms now m
  run_request D writer (rate_limit key limit window_ms cost) now m =
      run_rate_limit D key limit window_ms cost now m
  run_request D writer (quota_init key amount) now m = run_quota_init writer key amount now m
  run_request D writer (quota_get key) now m = run_quota_get key now m
  run_request D writer (reserve key amount ttl_ms) now m =
      run_reserve writer key amount ttl_ms now m
  run_request D writer (commit key res_id actual_amount) now m =
      run_commit writer key res_id actual_amount now m
  run_request D writer (rollback key res_id) now m = run_rollback writer key res_id now m
  run_request D writer (idem_begin key request_hash ttl_ms owner_token) now m =
      run_idem_begin writer key request_hash ttl_ms owner_token now m
  run_request D writer (idem_complete key owner_token code body) now m =
      run_idem_complete writer key owner_token code body now m
  run_request D writer (idem_fail key owner_token message) now m =
      run_idem_fail writer key owner_token message now m

  -- `Process`; `none` where it reads behind the end of the payload
  unfoldable pub process : Doubles → Bool → Bytes → ℕ → MemoryStore → Option Outcome
  unfolding parse_request run_request
  process D writer payload now m = elim (parse_request payload) [
    | bad ↦ some (status error, [], m)
    | good request ↦ some (run_request D writer request now m)
    | out_of_bounds ↦ none
  ]
