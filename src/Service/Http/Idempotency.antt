-- ===== src/Service/Http/Idempotency.antt =====
-- `HandleIdempotencyBegin`, `HandleIdempotencyComplete` and `HandleIdempotencyFail` of
-- src/service/http_service.cpp.
use gate_keeper.Base.{
  ℕ, ℤ, pos, Bool, true, false, ◌&&◌, ◌||◌, List, [], ◌∷◌, ◌++◌, Bytes, text, same, is_empty, not,
  flatten, if◌then◌else◌,
}
use gate_keeper.Commands.{members, seconds}
use gate_keeper.Commands.Idempotency.{to_int32}
use gate_keeper.Http.{HttpRequest, HttpResponse}
use gate_keeper.Json.{Reader, ◌>>=◌, pure, string, unsigned_number, signed_number}
use gate_keeper.Json.Quote.{quote_json}
use gate_keeper.Service.Http.{Clock, succeed, store_error, unsupported, Reply, with_body, check}
use gate_keeper.Service.Replies.{append_if, key_record}
use gate_keeper.Storage.Decimal.{to_string, to_string_ℤ}
use gate_keeper.Storage.Entry.{
  IdempotencyAction, execute, park, replay, conflict, IdempotencyBeginResult,
}
use gate_keeper.Storage.Store
use gate_keeper.Storage.Store.{MemoryStore}
use gate_keeper.Tables.{TableOps}

pub record BeginArgs : Type 0 where
  pub key : Bytes
  pub request_hash : Bytes
  pub ttl_ms : ℕ
  pub owner_token : Bytes

unfoldable pub begin_member : Bytes → BeginArgs → Reader BeginArgs
unfolding string unsigned_number
begin_member field a =
    if same field (text "key")
    then (string >>= λ v. pure (record a { key = v }))
    else if same field (text "request_hash")
    then (string >>= λ v. pure (record a { request_hash = v }))
    else if same field (text "ttl_ms")
    then (unsigned_number >>= λ n. pure (record a { ttl_ms = n }))
    else if same field (text "ttl_seconds")
    then (unsigned_number >>= λ n. pure (record a { ttl_ms = seconds n }))
    else if same field (text "owner_token")
    then (string >>= λ v. pure (record a { owner_token = v }))
    else unsupported field

unfoldable pub begin_args : Reader BeginArgs
unfolding members begin_member
begin_args =
    members begin_member (record { key = []; request_hash = []; ttl_ms = 0; owner_token = [] })

pub record CompleteArgs : Type 0 where
  pub key : Bytes
  pub owner_token : Bytes
  pub response_code : ℤ
  pub response_body : Bytes

unfoldable pub complete_member : Bytes → CompleteArgs → Reader CompleteArgs
unfolding string signed_number
complete_member field a =
    if same field (text "key")
    then (string >>= λ v. pure (record a { key = v }))
    else if same field (text "owner_token")
    then (string >>= λ v. pure (record a { owner_token = v }))
    else if same field (text "response_code")
    then (signed_number >>= λ n. pure (record a { response_code = to_int32 n }))
    else if same field (text "response_body")
    then (string >>= λ v. pure (record a { response_body = v }))
    else unsupported field

unfoldable pub complete_args : Reader CompleteArgs
unfolding members complete_member
complete_args =
    members complete_member
      (record { key = []; owner_token = []; response_code = pos 200; response_body = [] })

pub record FailArgs : Type 0 where
  pub key : Bytes
  pub owner_token : Bytes
  pub error_message : Bytes

unfoldable pub fail_member : Bytes → FailArgs → Reader FailArgs
unfolding string
fail_member field a =
    if same field (text "key")
    then (string >>= λ v. pure (record a { key = v }))
    else if same field (text "owner_token")
    then (string >>= λ v. pure (record a { owner_token = v }))
    else if same field (text "error_message")
    then (string >>= λ v. pure (record a { error_message = v }))
    else unsupported field

unfoldable pub fail_args : Reader FailArgs
unfolding members fail_member
fail_args = members fail_member (record { key = []; owner_token = []; error_message = [] })

abbrev pub action_text : IdempotencyAction → Bytes
action_text execute = text "\"EXECUTE\""
action_text park = text "\"PARK\""
action_text replay = text "\"REPLAY\""
action_text conflict = text "\"UNKNOWN\""

-- what a replayed response adds to the body
abbrev pub cached_part : IdempotencyBeginResult → IdempotencyAction → List Bytes
cached_part res replay =
    text ",\"response_code\":"
    ∷ to_string_ℤ res.cached_code
    ∷ text ",\"response_body\":"
    ∷ quote_json res.cached_response
    ∷ []
cached_part res _ = []

abbrev pub is_execute : IdempotencyAction → Bool
is_execute execute = true
is_execute _ = false

-- an error of `IdemBegin`
abbrev pub begin_error : IdempotencyAction → Bytes → Bytes → HttpResponse
begin_error conflict code message = store_error 409 (text "Conflict") code message
begin_error _ code message = store_error 400 (text "Bad Request") code message

unfoldable pub begin_response : IdempotencyBeginResult → HttpResponse
unfolding quote_json to_string text flatten
begin_response res =
    if res.ok
    then succeed (
        (text "{\"action\":"
          ∷ action_text res.action
          ∷ text ",\"owner_token\":"
          ∷ quote_json res.owner_token
          ∷ cached_part res res.action)
        ++ (text "}" ∷ []))
    else begin_error res.action res.error_code res.error_message

-- an error of `IdemComplete` or of `IdemFail`
unfoldable pub owner_error : Bytes → Bytes → HttpResponse
unfolding text flatten same
owner_error code message =
    if same code (text "ERR_TOKEN_MISMATCH")
    then store_error 403 (text "Forbidden") code message
    else if same code (text "ERR_NOT_FOUND") || same code (text "ERR_EXPIRED")
    then store_error 404 (text "Not Found") code message
    else store_error 400 (text "Bad Request") code message

module _ ⦃T : TableOps⦄ where
  unfoldable pub begin : Bool → Clock → BeginArgs → MemoryStore → Reply
  unfolding begin_response key_record quote_json to_string
  begin writer clock a m =
      let (res, m') = Store.idem_begin a.key a.request_hash a.ttl_ms a.owner_token clock.now m in
      (
        begin_response res,
        append_if (res.ok && (writer && is_execute res.action)) (text "GK.IDEM_BEGIN") (
            key_record a.key (
              text ",\"request_hash\":"
              ∷ quote_json a.request_hash
              ∷ text ",\"ttl_ms\":"
              ∷ to_string a.ttl_ms
              ∷ text ",\"owner_token\":"
              ∷ quote_json res.owner_token
              ∷ text "}"
              ∷ [])),
        m',
      )

  unfoldable pub handle_idempotency_begin : Bool → HttpRequest → Clock → MemoryStore → Reply
  unfolding with_body begin_args begin
  handle_idempotency_begin writer req clock = with_body begin_args req λ a.
      check (not (is_empty a.key) && not (is_empty a.request_hash))
        (text "key and request_hash are required") (begin writer clock a)

  unfoldable pub complete : Bool → Clock → CompleteArgs → MemoryStore → Reply
  unfolding owner_error key_record quote_json to_string
  complete writer clock a m =
      let (res, m') =
        Store.idem_complete a.key a.owner_token a.response_code a.response_body clock.now m in
      if res.ok
      then (
        succeed (text "{\"completed\":true}" ∷ []),
        append_if writer (text "GK.IDEM_COMPLETE") (
            key_record a.key (
              text ",\"owner_token\":"
              ∷ quote_json a.owner_token
              ∷ text ",\"response_code\":"
              ∷ to_string_ℤ a.response_code
              ∷ text ",\"response_body\":"
              ∷ quote_json a.response_body
              ∷ text "}"
              ∷ [])),
        m',
      )
      else (owner_error res.error_code res.error_message, [], m')

  unfoldable pub handle_idempotency_complete : Bool → HttpRequest → Clock → MemoryStore → Reply
  unfolding with_body complete_args complete
  handle_idempotency_complete writer req clock = with_body complete_args req λ a.
      check (not (is_empty a.key) && not (is_empty a.owner_token))
        (text "key and owner_token are required") (complete writer clock a)

  unfoldable pub fail : Bool → Clock → FailArgs → MemoryStore → Reply
  unfolding owner_error key_record quote_json
  fail writer clock a m =
      let (res, m') = Store.idem_fail a.key a.owner_token a.error_message clock.now m in
      if res.ok
      then (
        succeed (text "{\"failed\":true}" ∷ []),
        append_if writer (text "GK.IDEM_FAIL") (
            key_record a.key (
              text ",\"owner_token\":"
              ∷ quote_json a.owner_token
              ∷ text ",\"error_message\":"
              ∷ quote_json a.error_message
              ∷ text "}"
              ∷ [])),
        m',
      )
      else (owner_error res.error_code res.error_message, [], m')

  unfoldable pub handle_idempotency_fail : Bool → HttpRequest → Clock → MemoryStore → Reply
  unfolding with_body fail_args fail
  handle_idempotency_fail writer req clock = with_body fail_args req λ a.
      check (not (is_empty a.key) && not (is_empty a.owner_token))
        (text "key and owner_token are required") (fail writer clock a)
