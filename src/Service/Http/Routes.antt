-- ===== src/Service/Http/Routes.antt =====
-- `HttpService::Handle` of src/service/http_service.cpp: the handler of a method and a path.
use gate_keeper.Base.{Bool, false, ◌&&◌, ◌||◌, List, [], ◌∷◌, Bytes, text, same, if◌then◌else◌}
use gate_keeper.Http.{HttpRequest, HttpResponse}
use gate_keeper.Service.Http.{Clock, respond, Reply}
use gate_keeper.Service.Http.Limits.{handle_healthz, handle_rate_limit_check}
use gate_keeper.Service.Http.Quotas.{
  handle_quota_reserve, handle_quota_commit, handle_quota_rollback, handle_quota_init,
}
use gate_keeper.Service.Http.Idempotency.{
  handle_idempotency_begin, handle_idempotency_complete, handle_idempotency_fail,
}
use gate_keeper.Service.Http.Keys.{
  handle_kv_set, handle_kv_get, handle_kv_del, handle_kv_exists, handle_kv_type, handle_kv_expire,
  handle_kv_ttl,
}
use gate_keeper.Storage.RateLimit.{Doubles}
use gate_keeper.Storage.Store.{MemoryStore}
use gate_keeper.Tables.{TableOps}

abbrev pub not_allowed : HttpResponse
not_allowed =
    respond 405 (text "Method Not Allowed") (text "{\"error\":\"METHOD_NOT_ALLOWED\"}" ∷ [])

abbrev pub not_found : HttpResponse
not_found = respond 404 (text "Not Found") (text "{\"error\":\"NOT_FOUND\"}" ∷ [])

module _ ⦃T : TableOps⦄ where
  abbrev pub HttpHandler : Type 0
  HttpHandler = HttpRequest → Clock → MemoryStore → Reply

  -- the tests of `Handle`, in their order
  abbrev pub routes : Doubles → Bool → List (Bytes × Bytes × HttpHandler)
  routes D writer =
      (text "GET", text "/healthz", λ req clock m. (handle_healthz, [], m))
      ∷ (text "POST", text "/v1/rate-limit/check", handle_rate_limit_check D)
      ∷ (text "POST", text "/v1/quota/reserve", handle_quota_reserve writer)
      ∷ (text "POST", text "/v1/quota/commit", handle_quota_commit)
      ∷ (text "POST", text "/v1/quota/rollback", handle_quota_rollback)
      ∷ (text "POST", text "/v1/quota/init", handle_quota_init writer)
      ∷ (text "POST", text "/v1/idempotency/begin", handle_idempotency_begin writer)
      ∷ (text "POST", text "/v1/idempotency/complete", handle_idempotency_complete writer)
      ∷ (text "POST", text "/v1/idempotency/fail", handle_idempotency_fail writer)
      ∷ (text "POST", text "/v1/kv/set", handle_kv_set writer)
      ∷ (text "GET", text "/v1/kv/get", handle_kv_get)
      ∷ (text "POST", text "/v1/kv/del", λ req clock. handle_kv_del writer req)
      ∷ (text "POST", text "/v1/kv/exists", handle_kv_exists)
      ∷ (text "GET", text "/v1/kv/type", handle_kv_type)
      ∷ (text "POST", text "/v1/kv/expire", handle_kv_expire writer)
      ∷ (text "GET", text "/v1/kv/ttl", handle_kv_ttl)
      ∷ []

  -- the handler whose method and path are those of the request
  unfoldable pub route :
      List (Bytes × Bytes × HttpHandler) → HttpHandler → HttpRequest → HttpHandler
  route [] otherwise req = otherwise
  route ((method, path, handler) ∷ rest) otherwise req =
      if same req.method method && same req.path path then handler else route rest otherwise req

  unfoldable pub is_path : List (Bytes × Bytes × HttpHandler) → Bytes → Bool
  is_path [] p = false
  is_path ((method, path, handler) ∷ rest) p = same p path || is_path rest p

  unfoldable pub handle : Doubles → Bool → HttpHandler
  unfolding route is_path
  handle D writer req clock m =
      route (routes D writer)
        (λ req clock m.
          ((if is_path (routes D writer) req.path then not_allowed else not_found), [], m))
        req req clock m
