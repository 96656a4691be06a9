-- ===== src/Service/Http/Limits.antt =====
-- `HandleHealthz` and `HandleRateLimitCheck` of src/service/http_service.cpp.
use gate_keeper.Base.{
  ℕ, ◌+◌, ◌/◌, ◌%◌, Bool, true, false, ◌&&◌, [], ◌∷◌, Bytes, text, same, is_empty, not, flatten,
  if◌then◌else◌, ◌==◌,
}
use gate_keeper.Commands.{members, seconds}
use gate_keeper.Http.{HttpRequest, HttpResponse, set_header}
use gate_keeper.Json.{Reader, ◌>>=◌, pure, string, unsigned_number}
use gate_keeper.Service.Http.{Clock, respond, succeed, unsupported, Reply, with_body, check}
use gate_keeper.Storage.Decimal.{u64_mod, to_string}
use gate_keeper.Storage.Entry.{RateLimitResult}
use gate_keeper.Storage.RateLimit.{Doubles}
use gate_keeper.Storage.Store
use gate_keeper.Storage.Store.{MemoryStore}
use gate_keeper.Tables.{TableOps}

pub record CheckArgs : Type 0 where
  pub key : Bytes
  pub tenant : Bytes
  pub subject : Bytes
  pub resource : Bytes
  pub limit : ℕ
  pub has_limit : Bool
  pub window_ms : ℕ
  pub has_window : Bool
  pub cost : ℕ

abbrev pub no_check_args : CheckArgs
no_check_args = record {
  key = [];
  tenant = text "default";
  subject = text "anonymous";
  resource = text "default";
  limit = 0;
  has_limit = false;
  window_ms = 0;
  has_window = false;
  cost = 1;
}

unfoldable pub check_member : Bytes → CheckArgs → Reader CheckArgs
unfolding string unsigned_number
check_member field a =
    if same field (text "key")
    then (string >>= λ v. pure (record a { key = v }))
    else if same field (text "tenant")
    then (string >>= λ v. pure (record a { tenant = v }))
    else if same field (text "subject")
    then (string >>= λ v. pure (record a { subject = v }))
    else if same field (text "resource")
    then (string >>= λ v. pure (record a { resource = v }))
    else if same field (text "limit")
    then (unsigned_number >>= λ n. pure (record a { limit = n; has_limit = true }))
    else if same field (text "window_ms")
    then (unsigned_number >>= λ n. pure (record a { window_ms = n; has_window = true }))
    else if same field (text "window_seconds")
    then (unsigned_number >>= λ n. pure (record a { window_ms = seconds n; has_window = true }))
    else if same field (text "cost")
    then (unsigned_number >>= λ n. pure (record a { cost = n }))
    else unsupported field

unfoldable pub check_args : Reader CheckArgs
unfolding members check_member
check_args = members check_member no_check_args

-- the key of the arguments, or one of their parts
unfoldable pub rate_key : CheckArgs → Bytes
unfolding flatten text
rate_key a =
    if is_empty a.key
    then flatten (text "gk:rate:" ∷ a.tenant ∷ text ":" ∷ a.subject ∷ text ":" ∷ a.resource ∷ [])
    else a.key

-- seconds, rounded up, of the sum in 64 bits
abbrev pub retry_after_sec : ℕ → ℕ
retry_after_sec ms = (ms + 999) % u64_mod / 1000

abbrev pub reset_header : ℕ → HttpResponse → HttpResponse
reset_header sec res = set_header (text "X-RateLimit-Reset") (to_string sec) res

-- the headers that both responses begin with
abbrev pub limit_headers : ℕ → RateLimitResult → HttpResponse → HttpResponse
limit_headers limit res resp =
    set_header (text "X-RateLimit-Remaining") (to_string res.remaining)
      (set_header (text "X-RateLimit-Limit") (to_string limit) resp)

unfoldable pub check_response : CheckArgs → ℕ → RateLimitResult → HttpResponse
unfolding set_header to_string text flatten
check_response a now_sec res =
    let wait = retry_after_sec res.retry_after_ms in
    if res.allowed
    then reset_header ((now_sec + a.window_ms / 1000 + 1) % u64_mod) (
        limit_headers a.limit res (
          succeed (
            text "{\"allowed\":true,\"remaining\":"
            ∷ to_string res.remaining
            ∷ text ",\"retry_after_ms\":0}"
            ∷ [])))
    else set_header (text "Retry-After") (to_string wait) (
        reset_header ((now_sec + wait) % u64_mod) (
          limit_headers a.limit res (
            respond 429 (text "Too Many Requests") (
              text "{\"allowed\":false,\"remaining\":0,\"retry_after_ms\":"
              ∷ to_string res.retry_after_ms
              ∷ text "}"
              ∷ []))))

unfoldable pub handle_healthz : HttpResponse
handle_healthz = succeed (text "{\"status\":\"ok\"}" ∷ [])

module _ ⦃T : TableOps⦄ where
  unfoldable pub check_rate : Doubles → Clock → CheckArgs → MemoryStore → Reply
  unfolding rate_key check_response
  check_rate D clock a m =
      let (res, m') = Store.rate_limit D (rate_key a) a.limit a.window_ms a.cost clock.now m in
      (check_response a clock.now_sec res, [], m')

  unfoldable pub handle_rate_limit_check : Doubles → HttpRequest → Clock → MemoryStore → Reply
  unfolding with_body check_args check_rate
  handle_rate_limit_check D req clock = with_body check_args req λ a.
      check (a.has_limit && not (a.limit == 0))
        (text "limit is required and must be greater than 0")
        (check (a.has_window && not (a.window_ms == 0))
          (text "window_ms is required and must be greater than 0") (check_rate D clock a))
