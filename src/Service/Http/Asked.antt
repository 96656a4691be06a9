-- ===== src/Service/Http/Asked.antt =====
-- The HTTP requests (src/service/http_service.cpp) that ask for what a binary request
-- (src/service/processor.cpp) asks for.
use gate_keeper.Base.{pos, ◌≡◌, true, false, ◌&&◌, ◌==◌, [], ◌∷◌, Bytes, text, is_empty, not}
use gate_keeper.Http.{HttpRequest}
use gate_keeper.Http.Url.{extract_key_from_query}
use gate_keeper.Json.{Reader, done}
use gate_keeper.Protocol.Codec.{
  Request, set, get, del, exists, type_of, expire, rate_limit, quota_init, reserve, commit,
  rollback, idem_begin, idem_complete, idem_fail,
}
use gate_keeper.Service.Http.Keys.{set_args, expire_args, keys_args}
use gate_keeper.Service.Http.Limits.{CheckArgs, check_args, rate_key}
use gate_keeper.Service.Http.Quotas.{reserve_args, commit_args, rollback_args, init_args}
use gate_keeper.Service.Http.Idempotency.{begin_args, complete_args, fail_args}
use gate_keeper.Service.Replies.{write_condition}

-- a request to a path with a body that reads as some arguments
abbrev pub IsPost : {A : Type 0} → Bytes → Reader A → A → HttpRequest → Type 0
IsPost path args a req =
    (req.method ≡ text "POST")
    × (req.path ≡ path)
    × (is_empty req.body ≡ false)
    × ((rest : Bytes) × (args req.body ≡ done a rest))

-- a request to a path with a key in its query that is not empty
abbrev pub IsGet : Bytes → Bytes → HttpRequest → Type 0
IsGet path key req =
    (req.method ≡ text "GET")
    × (req.path ≡ path)
    × (extract_key_from_query req.query ≡ key)
    × (is_empty key ≡ false)

-- The HTTP requests that ask for what a binary request asks for, with arguments that pass their checks.
-- `HandleQuotaInit` is one without a time-to-live.
abbrev pub Asks : Request → HttpRequest → Type 0
Asks (set key value condition ttl_ms) req =
    IsPost (text "/v1/kv/set") set_args
      (record { key = key; value = value; ttl_ms = ttl_ms; condition = write_condition condition })
      req
    × (is_empty key ≡ false)
Asks (get key) req = IsGet (text "/v1/kv/get") key req
Asks (del key) req = IsPost (text "/v1/kv/del") keys_args (key ∷ []) req
Asks (exists key) req = IsPost (text "/v1/kv/exists") keys_args (key ∷ []) req
Asks (type_of key) req = IsGet (text "/v1/kv/type") key req
Asks (expire key ttl_ms) req =
    IsPost (text "/v1/kv/expire") expire_args
      (record { key = key; ttl_ms = ttl_ms; has_ttl = true }) req
    × (is_empty key ≡ false)
Asks (rate_limit key limit window_ms cost) req =
    (a : CheckArgs) × IsPost (text "/v1/rate-limit/check") check_args a req
    × (rate_key a ≡ key)
    × (a.limit ≡ limit)
    × (a.window_ms ≡ window_ms)
    × (a.cost ≡ cost)
    × ((a.has_limit && not (a.limit == 0)) ≡ true)
    × ((a.has_window && not (a.window_ms == 0)) ≡ true)
Asks (quota_init key amount) req =
    IsPost (text "/v1/quota/init") init_args
      (record { key = key; quota = amount; has_quota = true; ttl_ms = 0 }) req
    × (is_empty key ≡ false)
Asks (reserve key amount ttl_ms) req =
    IsPost (text "/v1/quota/reserve") reserve_args
      (record { key = key; amount = amount; has_amount = true; ttl_ms = ttl_ms; has_ttl = true })
      req
    × (is_empty key ≡ false)
    × ((amount == 0) ≡ false)
    × ((ttl_ms == 0) ≡ false)
Asks (commit key res_id actual_amount) req =
    IsPost (text "/v1/quota/commit") commit_args
      (record { key = key; res_id = res_id; actual_amount = actual_amount; has_actual = true }) req
    × (is_empty key ≡ false)
    × (is_empty res_id ≡ false)
Asks (rollback key res_id) req =
    IsPost (text "/v1/quota/rollback") rollback_args
      (record { key = key; res_id = res_id; actual_amount = 0; has_actual = false }) req
    × (is_empty key ≡ false)
    × (is_empty res_id ≡ false)
Asks (idem_begin key request_hash ttl_ms owner_token) req =
    IsPost (text "/v1/idempotency/begin") begin_args
      (record {
        key = key;
        request_hash = request_hash;
        ttl_ms = ttl_ms;
        owner_token = owner_token;
      })
      req
    × (is_empty key ≡ false)
    × (is_empty request_hash ≡ false)
Asks (idem_complete key owner_token code body) req =
    IsPost (text "/v1/idempotency/complete") complete_args
      (record {
        key = key;
        owner_token = owner_token;
        response_code = pos code;
        response_body = body;
      })
      req
    × (is_empty key ≡ false)
    × (is_empty owner_token ≡ false)
Asks (idem_fail key owner_token message) req =
    IsPost (text "/v1/idempotency/fail") fail_args
      (record { key = key; owner_token = owner_token; error_message = message }) req
    × (is_empty key ≡ false)
    × (is_empty owner_token ≡ false)
Asks _ req = ⊥
