-- ===== src/Commands/Idempotency.antt =====
-- src/domain/idempotency/idempotency_ops.cpp: `GK.IDEM_BEGIN`, `GK.IDEM_COMPLETE`, `GK.IDEM_FAIL`,
-- `GK.IDEM_GET`.
use gate_keeper.Base.{
  ℕ, ◌-◌, ◌%◌, ◌^◌, ℤ, pos, negsuc, ltb, not, Option, none, some, List, [], ◌∷◌, ◌++◌, Bytes, text,
  same, is_empty, if◌then◌else◌,
}
use gate_keeper.Commands.{
  CommandResult, succeeded, failed, seconds, Handler, validated, members, require,
}
use gate_keeper.Json.{Reader, ◌>>=◌, ◌>>◌, pure, throw, string, unsigned_number, signed_number}
use gate_keeper.Json.Quote.{quote_json}
use gate_keeper.Protocol.Codec.{to_uint64}
use gate_keeper.Storage.Decimal.{to_string_ℤ}
use gate_keeper.Storage.Entry.{
  IdempotencyAction, execute, park, replay, conflict, IdempotencyStatus, none_status, in_progress,
  completed, failed as failed_status, IdempotencyRecord, IdempotencyBeginResult,
  IdempotencyCompleteResult, IdempotencyFailResult,
}
use gate_keeper.Storage.Store
use gate_keeper.Tables.{TableOps}

unfoldable pub action_to_string : IdempotencyAction → Bytes
action_to_string execute = text "EXECUTE"
action_to_string park = text "PARK"
action_to_string replay = text "REPLAY"
action_to_string conflict = text "CONFLICT"

unfoldable pub status_to_string : IdempotencyStatus → Bytes
status_to_string in_progress = text "IN_PROGRESS"
status_to_string completed = text "COMPLETED"
status_to_string failed_status = text "FAILED"
status_to_string none_status = text "NONE"

-- the variables of the handlers
pub record IdemArgs : Type 0 where
  pub key : Bytes
  pub request_hash : Bytes
  pub ttl_ms : ℕ
  pub owner_token : Bytes
  pub response_code : ℤ
  pub response_body : Bytes
  pub error_message : Bytes

abbrev pub no_idem_args : IdemArgs
no_idem_args = record {
  key = [];
  request_hash = [];
  ttl_ms = 60000;
  owner_token = [];
  response_code = pos 200;
  response_body = [];
  error_message = [];
}

-- `static_cast<int>` of an `std::int64_t`
abbrev pub to_int32 : ℤ → ℤ
to_int32 a =
    let n = to_uint64 a % 2 ^ 32 in if ltb n (2 ^ 31) then pos n else negsuc (2 ^ 32 - n - 1)

unfoldable pub begin_member : Bytes → IdemArgs → Reader IdemArgs
unfolding string unsigned_number
begin_member field a =
    if same field (text "key")
    then (string >>= λ key. pure (record a { key = key }))
    else if same field (text "request_hash")
    then (string >>= λ hash. pure (record a { request_hash = hash }))
    else if same field (text "ttl_ms")
    then (unsigned_number >>= λ n. pure (record a { ttl_ms = n }))
    else if same field (text "ttl_seconds")
    then (unsigned_number >>= λ n. pure (record a { ttl_ms = seconds n }))
    else if same field (text "owner_token")
    then (string >>= λ token. pure (record a { owner_token = token }))
    else throw (text "unsupported GK.IDEM_BEGIN field: " ++ field)

unfoldable pub begin_args : Reader IdemArgs
unfolding members begin_member
begin_args = do
  a ← members begin_member no_idem_args
  require (not (is_empty a.key)) (text "key must not be empty")
  require (not (is_empty a.request_hash)) (text "request_hash must not be empty")
  pure a

unfoldable pub complete_member : Bytes → IdemArgs → Reader IdemArgs
unfolding string signed_number
complete_member field a =
    if same field (text "key")
    then (string >>= λ key. pure (record a { key = key }))
    else if same field (text "owner_token")
    then (string >>= λ token. pure (record a { owner_token = token }))
    else if same field (text "response_code")
    then (signed_number >>= λ n. pure (record a { response_code = to_int32 n }))
    else if same field (text "response_body")
    then (string >>= λ body. pure (record a { response_body = body }))
    else throw (text "unsupported GK.IDEM_COMPLETE field: " ++ field)

-- the tests of `IdemComplete` and `IdemFail`
abbrev owned : IdemArgs → Reader IdemArgs
owned a = do
  require (not (is_empty a.key)) (text "key must not be empty")
  require (not (is_empty a.owner_token)) (text "owner_token must not be empty")
  pure a

unfoldable pub complete_args : Reader IdemArgs
unfolding members complete_member
complete_args = members complete_member no_idem_args >>= owned

unfoldable pub fail_member : Bytes → IdemArgs → Reader IdemArgs
unfolding string
fail_member field a =
    if same field (text "key")
    then (string >>= λ key. pure (record a { key = key }))
    else if same field (text "owner_token")
    then (string >>= λ token. pure (record a { owner_token = token }))
    else if same field (text "error_message")
    then (string >>= λ message. pure (record a { error_message = message }))
    else throw (text "unsupported GK.IDEM_FAIL field: " ++ field)

unfoldable pub fail_args : Reader IdemArgs
unfolding members fail_member
fail_args = members fail_member no_idem_args >>= owned

unfoldable pub get_member : Bytes → Bytes → Reader Bytes
unfolding string
get_member field key =
    if same field (text "key")
    then string
    else throw (text "unsupported GK.IDEM_GET field: " ++ field)

unfoldable pub get_args : Reader Bytes
unfolding members get_member
get_args = do
  key ← members get_member []
  require (not (is_empty key)) (text "key must not be empty")
  pure key

abbrev pub replayed : IdempotencyBeginResult → IdempotencyAction → List Bytes
replayed res replay =
    text ",\"response_code\":"
    ∷ to_string_ℤ res.cached_code
    ∷ text ",\"response_body\":"
    ∷ quote_json res.cached_response
    ∷ []
replayed res _ = []

abbrev pub begin_reply : IdempotencyBeginResult → CommandResult
begin_reply res =
    if res.ok
    then succeeded (
        (text "{\"action\":\""
          ∷ action_to_string res.action
          ∷ text "\""
          ∷ text ",\"owner_token\":"
          ∷ quote_json res.owner_token
          ∷ [])
        ++ (replayed res res.action ++ (text "}" ∷ [])))
    else failed res.error_code res.error_message

abbrev pub complete_reply : IdempotencyCompleteResult → CommandResult
complete_reply res =
    if res.ok
    then succeeded (text "{\"completed\":true}" ∷ [])
    else failed res.error_code res.error_message

abbrev pub fail_reply : IdempotencyFailResult → CommandResult
fail_reply res =
    if res.ok
    then succeeded (text "{\"failed\":true}" ∷ [])
    else failed res.error_code res.error_message

abbrev pub get_reply : Option IdempotencyRecord → CommandResult
get_reply none =
    failed (text "KEY_NOT_FOUND") (text "idempotency record does not exist or has expired")
get_reply (some r) = succeeded (
    text "{\"key\":"
    ∷ quote_json r.key
    ∷ text ",\"status\":\""
    ∷ status_to_string r.status
    ∷ text "\""
    ∷ text ",\"request_hash\":"
    ∷ quote_json r.request_hash
    ∷ text ",\"owner_token\":"
    ∷ quote_json r.owner_token
    ∷ text ",\"response_code\":"
    ∷ to_string_ℤ r.response_code
    ∷ text ",\"response_body\":"
    ∷ quote_json r.response_body
    ∷ text "}"
    ∷ [])

module _ ⦃T : TableOps⦄ where
  unfoldable pub idem_begin : Handler
  unfolding validated
  idem_begin = validated begin_args λ a now m.
      let (res, m') = Store.idem_begin a.key a.request_hash a.ttl_ms a.owner_token now m in
      (begin_reply res, m')

  unfoldable pub idem_complete : Handler
  unfolding validated
  idem_complete = validated complete_args λ a now m.
      let (res, m') =
        Store.idem_complete a.key a.owner_token a.response_code a.response_body now m in
      (complete_reply res, m')

  unfoldable pub idem_fail : Handler
  unfolding validated
  idem_fail = validated fail_args λ a now m.
      let (res, m') = Store.idem_fail a.key a.owner_token a.error_message now m in
      (fail_reply res, m')

  unfoldable pub idem_get : Handler
  unfolding validated
  idem_get =
      validated get_args λ key now m. let (r, m') = Store.idem_get key now m in (get_reply r, m')
