-- ===== src/Service/Http/Quotas.antt =====
-- `HandleQuotaReserve`, `HandleQuotaCommit`, `HandleQuotaRollback` and `HandleQuotaInit` of
-- src/service/http_service.cpp.
use gate_keeper.Base.{
  ℕ, Bool, true, false, ◌&&◌, [], ◌∷◌, Bytes, text, same, is_empty, not, flatten, if◌then◌else◌,
  ◌==◌,
}
use gate_keeper.Commands.{members, seconds, bool_text}
use gate_keeper.Http.{HttpRequest, HttpResponse}
use gate_keeper.Json.{Reader, ◌>>=◌, pure, string, unsigned_number}
use gate_keeper.Service.Http.{
  Clock, respond, succeed, store_error, unsupported, Reply, with_body, check,
}
use gate_keeper.Service.Replies.{append_if, key_record}
use gate_keeper.Storage.Decimal.{to_string}
use gate_keeper.Storage.Entry.{always, ReservationResult, CommitResult, RollbackResult}
use gate_keeper.Storage.Store
use gate_keeper.Storage.Store.{MemoryStore}
use gate_keeper.Tables.{TableOps}

pub record ReserveArgs : Type 0 where
  pub key : Bytes
  pub amount : ℕ
  pub has_amount : Bool
  pub ttl_ms : ℕ
  pub has_ttl : Bool

unfoldable pub reserve_member : Bytes → ReserveArgs → Reader ReserveArgs
unfolding string unsigned_number
reserve_member field a =
    if same field (text "key")
    then (string >>= λ v. pure (record a { key = v }))
    else if same field (text "amount")
    then (unsigned_number >>= λ n. pure (record a { amount = n; has_amount = true }))
    else if same field (text "ttl_ms")
    then (unsigned_number >>= λ n. pure (record a { ttl_ms = n; has_ttl = true }))
    else if same field (text "ttl_seconds")
    then (unsigned_number >>= λ n. pure (record a { ttl_ms = seconds n; has_ttl = true }))
    else unsupported field

unfoldable pub reserve_args : Reader ReserveArgs
unfolding members reserve_member
reserve_args =
    members reserve_member
      (record { key = []; amount = 0; has_amount = false; ttl_ms = 0; has_ttl = false })

pub record SettleArgs : Type 0 where
  pub key : Bytes
  pub res_id : Bytes
  pub actual_amount : ℕ
  pub has_actual : Bool

abbrev pub no_settle_args : SettleArgs
no_settle_args = record { key = []; res_id = []; actual_amount = 0; has_actual = false }

unfoldable pub commit_member : Bytes → SettleArgs → Reader SettleArgs
unfolding string unsigned_number
commit_member field a =
    if same field (text "key")
    then (string >>= λ v. pure (record a { key = v }))
    else if same field (text "reservation_id")
    then (string >>= λ v. pure (record a { res_id = v }))
    else if same field (text "actual_amount")
    then (unsigned_number >>= λ n. pure (record a { actual_amount = n; has_actual = true }))
    else unsupported field

unfoldable pub rollback_member : Bytes → SettleArgs → Reader SettleArgs
unfolding string
rollback_member field a =
    if same field (text "key")
    then (string >>= λ v. pure (record a { key = v }))
    else if same field (text "reservation_id")
    then (string >>= λ v. pure (record a { res_id = v }))
    else unsupported field

pub record InitArgs : Type 0 where
  pub key : Bytes
  pub quota : ℕ
  pub has_quota : Bool
  pub ttl_ms : ℕ

unfoldable pub init_member : Bytes → InitArgs → Reader InitArgs
unfolding string unsigned_number
init_member field a =
    if same field (text "key")
    then (string >>= λ v. pure (record a { key = v }))
    else if same field (text "quota")
    then (unsigned_number >>= λ n. pure (record a { quota = n; has_quota = true }))
    else if same field (text "ttl_ms")
    then (unsigned_number >>= λ n. pure (record a { ttl_ms = n }))
    else if same field (text "ttl_seconds")
    then (unsigned_number >>= λ n. pure (record a { ttl_ms = seconds n }))
    else unsupported field

unfoldable pub commit_args : Reader SettleArgs
unfolding members commit_member
commit_args = members commit_member no_settle_args

unfoldable pub rollback_args : Reader SettleArgs
unfolding members rollback_member
rollback_args = members rollback_member no_settle_args

unfoldable pub init_args : Reader InitArgs
unfolding members init_member
init_args = members init_member (record { key = []; quota = 0; has_quota = false; ttl_ms = 0 })

abbrev pub reserve_response : ReservationResult → HttpResponse
reserve_response res =
    if res.ok
    then if res.reserved
      then succeed (
          text "{\"reserved\":true,\"remaining\":"
          ∷ to_string res.remaining
          ∷ text ",\"reservation_id\":\""
          ∷ res.reservation_id
          ∷ text "\"}"
          ∷ [])
      else respond 429 (text "Too Many Requests") (
          text "{\"reserved\":false,\"remaining\":"
          ∷ to_string res.remaining
          ∷ text ",\"reservation_id\":\"\"}"
          ∷ [])
    else store_error 400 (text "Bad Request") res.error_code res.error_message

abbrev pub commit_response : CommitResult → HttpResponse
commit_response res =
    if res.ok
    then succeed (
        text "{\"committed\":true,\"actual_amount\":"
        ∷ to_string res.actual_amount
        ∷ text ",\"refunded\":"
        ∷ to_string res.refunded
        ∷ text ",\"remaining\":"
        ∷ to_string res.remaining
        ∷ text "}"
        ∷ [])
    else store_error 400 (text "Bad Request") res.error_code res.error_message

abbrev pub rollback_response : RollbackResult → HttpResponse
rollback_response res =
    if res.ok
    then succeed (
        text "{\"rolled_back\":true,\"refunded\":"
        ∷ to_string res.refunded
        ∷ text ",\"remaining\":"
        ∷ to_string res.remaining
        ∷ text "}"
        ∷ [])
    else store_error 400 (text "Bad Request") res.error_code res.error_message

module _ ⦃T : TableOps⦄ where
  unfoldable pub reserve : Bool → Clock → ReserveArgs → MemoryStore → Reply
  unfolding to_string text flatten key_record
  reserve writer clock a m =
      let (res, m') = Store.reserve_quota a.key a.amount a.ttl_ms clock.now m in
      (
        reserve_response res,
        append_if (res.ok && (res.reserved && writer)) (text "GK.RESERVE") (
            key_record a.key (
              text ",\"amount\":"
              ∷ to_string a.amount
              ∷ text ",\"ttl_ms\":"
              ∷ to_string a.ttl_ms
              ∷ text "}"
              ∷ [])),
        m',
      )

  unfoldable pub handle_quota_reserve : Bool → HttpRequest → Clock → MemoryStore → Reply
  unfolding with_body reserve_args reserve
  handle_quota_reserve writer req clock = with_body reserve_args req λ a.
      check (not (is_empty a.key)) (text "key is required") (
        check (a.has_amount && not (a.amount == 0))
          (text "amount is required and must be greater than 0")
          (check (a.has_ttl && not (a.ttl_ms == 0))
            (text "ttl_ms is required and must be greater than 0") (reserve writer clock a)))

  unfoldable pub handle_quota_commit : HttpRequest → Clock → MemoryStore → Reply
  unfolding with_body commit_args text flatten to_string
  handle_quota_commit req clock = with_body commit_args req λ a.
      check (not (is_empty a.key) && (not (is_empty a.res_id) && a.has_actual))
        (text "key, reservation_id, and actual_amount are required")
        λ m.
          let (res, m') = Store.commit_quota a.key a.res_id a.actual_amount clock.now m in
          (commit_response res, [], m')

  unfoldable pub handle_quota_rollback : HttpRequest → Clock → MemoryStore → Reply
  unfolding with_body rollback_args text flatten to_string
  handle_quota_rollback req clock = with_body rollback_args req λ a.
      check (not (is_empty a.key) && not (is_empty a.res_id))
        (text "key and reservation_id are required")
        λ m.
          let (res, m') = Store.rollback_quota a.key a.res_id clock.now m in
          (rollback_response res, [], m')

  unfoldable pub init : Bool → Clock → InitArgs → MemoryStore → Reply
  unfolding to_string text flatten key_record
  init writer clock a m =
      let (set, m') = Store.set a.key (to_string a.quota) always a.ttl_ms clock.now m in
      (
        succeed (
            text "{\"ok\":"
            ∷ bool_text set
            ∷ text ",\"quota\":"
            ∷ to_string a.quota
            ∷ text "}"
            ∷ []),
        append_if writer (text "GK.QUOTA_INIT")
            (key_record a.key (text ",\"amount\":" ∷ to_string a.quota ∷ text "}" ∷ [])),
        m',
      )

  unfoldable pub handle_quota_init : Bool → HttpRequest → Clock → MemoryStore → Reply
  unfolding with_body init_args init
  handle_quota_init writer req clock = with_body init_args req λ a.
      check (not (is_empty a.key) && a.has_quota) (text "key and quota are required")
        (init writer clock a)
