-- ===== src/Service/Http/Agreement.antt =====
-- The requests of src/service/http_service.cpp and the binary requests of src/service/processor.cpp, on
-- one store.
use gate_keeper.Base.{
  ℕ, pos, ◌≡◌, refl, sym, ap, ◌∙◌, Bool, true, false, List, [], ◌∷◌, Bytes, text, same, is_empty,
  not, if◌then◌else◌, Bool-cases, inl, inr,
}
use gate_keeper.Http.{HttpRequest}
use gate_keeper.Http.Url.{extract_key_from_query}
use gate_keeper.Json.{Reader, done}
use gate_keeper.Protocol.Codec.{
  Request, ping, set, get, del, exists, type_of, expire, ttl, incr_by, rate_limit, quota_init,
  quota_get, reserve, commit, rollback, idem_begin, idem_complete, idem_fail, SetCondition,
}
use gate_keeper.Service.Http.{Clock, Reply, with_body, with_key, check}
use gate_keeper.Service.Http.Keys.{
  handle_kv_set, handle_kv_get, handle_kv_del, handle_kv_exists, handle_kv_type, handle_kv_expire,
  SetArgs, set_args, ExpireArgs, expire_args, keys_args, with_keys, del_all, exists_all, no_keys,
}
use gate_keeper.Service.Http.Keys
use gate_keeper.Service.Http.Limits.{handle_rate_limit_check, check_args, check_rate}
use gate_keeper.Service.Http.Quotas.{
  handle_quota_reserve, handle_quota_commit, handle_quota_rollback, handle_quota_init, reserve_args,
  commit_args, rollback_args, init_args,
}
use gate_keeper.Service.Http.Idempotency.{
  handle_idempotency_begin, handle_idempotency_complete, handle_idempotency_fail, begin_args,
  complete_args, fail_args,
}
use gate_keeper.Service.Http.Routes.{route, handle}
use gate_keeper.Service.Processor.{run_request}
use gate_keeper.Storage.RateLimit.{Doubles}
use gate_keeper.Storage.Store
use gate_keeper.Storage.Store.{MemoryStore}
use gate_keeper.Tables.{TableOps}
use gate_keeper.Service.Http.Asked.{Asks}

-- two outcomes with one store
one_store :
    {A B C : Type 0} (b : Bool) (x x' : A) (y y' : B) (z : C)
    → (if◌then◌else◌ {A = A × B × C} b (x, y, z) (x', y', z)).2 ≡ z
one_store true x x' y y' z = refl
one_store false x x' y y' z = refl

module _ ⦃T : TableOps⦄ (D : Doubles) (writer : Bool) (req : HttpRequest) (clock : Clock)
    (m : MemoryStore) where
  with_body-done :
      {A : Type 0} (args : Reader A) (a : A) (rest : Bytes) (run : A → MemoryStore → Reply)
      → is_empty req.body ≡ false
      → args req.body ≡ done a rest
      → with_body args req run m ≡ run a m
  unfolding with_body
  with_body-done args a rest run full e = rw (full, e) refl

  with_keys-done :
      (keys : List Bytes) (rest : Bytes) (run : List Bytes → MemoryStore → Reply)
      → is_empty req.body ≡ false
      → keys_args req.body ≡ done keys rest
      → with_keys req run m
        ≡ check (not (no_keys keys)) (text "key or keys are required") (run keys) m
  unfolding with_keys
  with_keys-done keys rest run full e = rw (full, e) refl

  with_key-query :
      (key : Bytes) (run : Bytes → MemoryStore → Reply)
      → extract_key_from_query req.query ≡ key
      → is_empty key ≡ false
      → with_key req run m ≡ run key m
  unfolding with_key
  with_key-query key run e full = rw e (rw full refl)

  -- the store behind the request
  abbrev after : MemoryStore
  after = (handle D writer req clock m).2

  abbrev Agrees : Request → Type 0
  Agrees r = after ≡ (run_request D writer r clock.now m).2

  after-set :
      (key value : Bytes) (c : SetCondition) (ttl_ms : ℕ)
      → Asks (set key value c ttl_ms) req
      → Agrees (set key value c ttl_ms)
  unfolding handle route same text handle_kv_set run_request
  after-set key value c ttl_ms ((method, path, body, (rest, e)), full) =
      rw (method, path)
        (ap (λ r. r.2) (with_body-done set_args _ rest _ body e)
          ∙ rw full (sym (one_store _ _ _ _ _ _)))

  after-get : (key : Bytes) → Asks (get key) req → Agrees (get key)
  unfolding handle route same text handle_kv_get run_request
  after-get key (method, path, e, full) =
      rw (method, path) (ap (λ r. r.2) (with_key-query key _ e full))

  after-type : (key : Bytes) → Asks (type_of key) req → Agrees (type_of key)
  unfolding handle route same text handle_kv_type run_request
  after-type key (method, path, e, full) =
      rw (method, path) (ap (λ r. r.2) (with_key-query key _ e full))

  after-del : (key : Bytes) → Asks (del key) req → Agrees (del key)
  unfolding handle route same text handle_kv_del run_request
  after-del key (method, path, body, (rest, e)) =
      rw (method, path) (ap (λ r. r.2) (with_keys-done (key ∷ []) rest (Keys.del writer) body e))

  after-exists : (key : Bytes) → Asks (exists key) req → Agrees (exists key)
  unfolding handle route same text handle_kv_exists run_request
  after-exists key (method, path, body, (rest, e)) =
      rw (method, path) (ap (λ r. r.2) (with_keys-done (key ∷ []) rest (Keys.exists clock) body e))

  after-expire :
      (key : Bytes) (ttl_ms : ℕ) → Asks (expire key ttl_ms) req → Agrees (expire key ttl_ms)
  unfolding handle route same text handle_kv_expire run_request
  after-expire key ttl_ms ((method, path, body, (rest, e)), full) =
      rw (method, path) (ap (λ r. r.2) (with_body-done expire_args _ rest _ body e) ∙ rw full refl)

  after-quota_init :
      (key : Bytes) (amount : ℕ) → Asks (quota_init key amount) req → Agrees (quota_init key amount)
  unfolding handle route same text handle_quota_init run_request
  after-quota_init key amount ((method, path, body, (rest, e)), full) =
      rw (method, path) (ap (λ r. r.2) (with_body-done init_args _ rest _ body e) ∙ rw full refl)

  after-reserve :
      (key : Bytes) (amount ttl_ms : ℕ)
      → Asks (reserve key amount ttl_ms) req
      → Agrees (reserve key amount ttl_ms)
  unfolding handle route same text handle_quota_reserve run_request
  after-reserve key amount ttl_ms ((method, path, body, (rest, e)), full, some_amount, some_ttl) =
      rw (method, path)
        (ap (λ r. r.2) (with_body-done reserve_args _ rest _ body e)
          ∙ rw (full, some_amount, some_ttl) (sym (one_store _ _ _ _ _ _)))

  after-commit :
      (key res_id : Bytes) (actual_amount : ℕ)
      → Asks (commit key res_id actual_amount) req
      → Agrees (commit key res_id actual_amount)
  unfolding handle route same text handle_quota_commit run_request
  after-commit key res_id actual_amount ((method, path, body, (rest, e)), full, full') =
      rw (method, path)
        (ap (λ r. r.2) (with_body-done commit_args _ rest _ body e)
          ∙ rw (full, full') (sym (one_store _ _ _ _ _ _)))

  after-rollback :
      (key res_id : Bytes) → Asks (rollback key res_id) req → Agrees (rollback key res_id)
  unfolding handle route same text handle_quota_rollback run_request
  after-rollback key res_id ((method, path, body, (rest, e)), full, full') =
      rw (method, path)
        (ap (λ r. r.2) (with_body-done rollback_args _ rest _ body e)
          ∙ rw (full, full') (sym (one_store _ _ _ _ _ _)))

  after-idem_begin :
      (key request_hash : Bytes) (ttl_ms : ℕ) (owner_token : Bytes)
      → Asks (idem_begin key request_hash ttl_ms owner_token) req
      → Agrees (idem_begin key request_hash ttl_ms owner_token)
  unfolding handle route same text handle_idempotency_begin run_request
  after-idem_begin key request_hash ttl_ms owner_token
        ((method, path, body, (rest, e)), full, full') =
      rw (method, path)
        (ap (λ r. r.2) (with_body-done begin_args _ rest _ body e)
          ∙ rw (full, full') (sym (one_store _ _ _ _ _ _)))

  after-idem_complete :
      (key owner_token : Bytes) (code : ℕ) (response : Bytes)
      → Asks (idem_complete key owner_token code response) req
      → Agrees (idem_complete key owner_token code response)
  unfolding handle route same text handle_idempotency_complete run_request
  after-idem_complete key owner_token code response ((method, path, body, (rest, e)), full, full') =
      rw (method, path)
        (ap (λ r. r.2) (with_body-done complete_args _ rest _ body e)
          ∙ elim (Bool-cases
              (Store.idem_complete key owner_token (pos code) response clock.now m).0.ok) [
                | inl y ↦ rw (full, full', y) refl
                | inr n ↦ rw (full, full', n) refl
              ])

  after-idem_fail :
      (key owner_token message : Bytes)
      → Asks (idem_fail key owner_token message) req
      → Agrees (idem_fail key owner_token message)
  unfolding handle route same text handle_idempotency_fail run_request
  after-idem_fail key owner_token message ((method, path, body, (rest, e)), full, full') =
      rw (method, path)
        (ap (λ r. r.2) (with_body-done fail_args _ rest _ body e)
          ∙ elim (Bool-cases (Store.idem_fail key owner_token message clock.now m).0.ok) [
            | inl y ↦ rw (full, full', y) refl
            | inr n ↦ rw (full, full', n) refl
          ])

  after-rate_limit :
      (key : Bytes) (limit window_ms cost : ℕ)
      → Asks (rate_limit key limit window_ms cost) req
      → Agrees (rate_limit key limit window_ms cost)
  unfolding handle route same text handle_rate_limit_check check_rate run_request
  after-rate_limit key limit window_ms cost
        (
          a,
          (method, path, body, (rest, e)),
          key_eq,
          limit_eq,
          window_eq,
          cost_eq,
          some_limit,
          some_window,
        ) =
      rw (method, path)
        (ap (λ r. r.2) (with_body-done check_args a rest _ body e)
          ∙ rw (some_limit, some_window, key_eq, limit_eq, window_eq, cost_eq)
              (sym (one_store _ _ _ _ _ _)))

  -- An HTTP request that asks for what a binary request asks for leaves the store that the binary
  -- request leaves, at the same time: `SET`, `GET`, `DEL`, `EXISTS`, `TYPE`, `EXPIRE`, `RATE_LIMIT`,
  -- `QUOTA_INIT`, `RESERVE`, `COMMIT`, `ROLLBACK` and the three requests on idempotency records, where
  -- the arguments pass the checks of the HTTP handlers.
  pub handle-run_request :
      (r : Request)
      → Asks r req
      → (handle D writer req clock m).2 ≡ (run_request D writer r clock.now m).2
  handle-run_request ping h = absurd h
  handle-run_request (set key value c ttl_ms) h = after-set key value c ttl_ms h
  handle-run_request (get key) h = after-get key h
  handle-run_request (del key) h = after-del key h
  handle-run_request (exists key) h = after-exists key h
  handle-run_request (type_of key) h = after-type key h
  handle-run_request (expire key ttl_ms) h = after-expire key ttl_ms h
  handle-run_request (ttl key) h = absurd h
  handle-run_request (incr_by key delta init_ttl_ms) h = absurd h
  handle-run_request (rate_limit key limit window_ms cost) h =
      after-rate_limit key limit window_ms cost h
  handle-run_request (quota_init key amount) h = after-quota_init key amount h
  handle-run_request (quota_get key) h = absurd h
  handle-run_request (reserve key amount ttl_ms) h = after-reserve key amount ttl_ms h
  handle-run_request (commit key res_id actual_amount) h = after-commit key res_id actual_amount h
  handle-run_request (rollback key res_id) h = after-rollback key res_id h
  handle-run_request (idem_begin key request_hash ttl_ms owner_token) h =
      after-idem_begin key request_hash ttl_ms owner_token h
  handle-run_request (idem_complete key owner_token code body) h =
      after-idem_complete key owner_token code body h
  handle-run_request (idem_fail key owner_token message) h =
      after-idem_fail key owner_token message h
