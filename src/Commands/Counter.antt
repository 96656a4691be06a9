-- ===== src/Commands/Counter.antt =====
-- src/domain/ratelimit/counter_ops.cpp: `INCR`, `DECR`, `INCRBY`, `GK.RATE_LIMIT`.
use gate_keeper.Base.{
  ℕ, ℤ, pos, negsuc, Bool, true, false, ◌&&◌, ◌||◌, not, [], ◌∷◌, ◌++◌, Bytes, text, same, is_empty,
  if◌then◌else◌,
}
use gate_keeper.Commands.{
  CommandResult, succeeded, failed, bool_text, seconds, Handler, validated, members, nonempty_key,
  require,
}
use gate_keeper.Json.{Reader, ◌>>=◌, ◌>>◌, pure, throw, string, unsigned_number, signed_number}
use gate_keeper.Storage.Decimal.{to_string, to_string_ℤ}
use gate_keeper.Storage.Entry.{IncrResult, RateLimitResult}
use gate_keeper.Storage.RateLimit.{Doubles}
use gate_keeper.Storage.Store
use gate_keeper.Tables.{TableOps}

pub record IncrArgs : Type 0 where
  pub key : Bytes
  pub delta : ℤ
  pub has_delta : Bool
  pub ttl_ms : ℕ

abbrev pub no_incr_args : IncrArgs
no_incr_args = record { key = []; delta = pos 0; has_delta = false; ttl_ms = 0 }

unfoldable pub incr_member : Bytes → IncrArgs → Reader IncrArgs
unfolding string unsigned_number signed_number
incr_member field a =
    if same field (text "key")
    then (string >>= λ key. pure (record a { key = key }))
    else if same field (text "delta") || same field (text "by")
    then (signed_number >>= λ n. pure (record a { delta = n; has_delta = true }))
    else if same field (text "ttl_ms")
    then (unsigned_number >>= λ n. pure (record a { ttl_ms = n }))
    else if same field (text "ttl_seconds")
    then (unsigned_number >>= λ n. pure (record a { ttl_ms = seconds n }))
    else throw (text "unsupported INCRBY field: " ++ field)

unfoldable pub incr_by_args : Reader IncrArgs
unfolding members incr_member
incr_by_args = do
  a ← members incr_member no_incr_args
  require (not (is_empty a.key) && a.has_delta) (text "INCRBY requires key and delta")
  pure a

pub record RateLimitArgs : Type 0 where
  pub key : Bytes
  pub limit : ℕ
  pub has_limit : Bool
  pub window_ms : ℕ
  pub has_window : Bool
  pub cost : ℕ

unfoldable pub rate_limit_member : Bytes → RateLimitArgs → Reader RateLimitArgs
unfolding string unsigned_number
rate_limit_member field a =
    if same field (text "key")
    then (string >>= λ key. pure (record a { key = key }))
    else if same field (text "limit")
    then (unsigned_number >>= λ n. pure (record a { limit = n; has_limit = true }))
    else if same field (text "window_ms")
    then (unsigned_number >>= λ n. pure (record a { window_ms = n; has_window = true }))
    else if same field (text "window_seconds")
    then (unsigned_number >>= λ n. pure (record a { window_ms = seconds n; has_window = true }))
    else if same field (text "cost")
    then (unsigned_number >>= λ n. pure (record a { cost = n }))
    else throw (text "unsupported GK.RATE_LIMIT field: " ++ field)

unfoldable pub rate_limit_args : Reader RateLimitArgs
unfolding members rate_limit_member
rate_limit_args = do
  a ← members rate_limit_member (record {
    key = [];
    limit = 0;
    has_limit = false;
    window_ms = 0;
    has_window = false;
    cost = 1;
  })
  require (not (is_empty a.key) && (a.has_limit && a.has_window))
      (text "GK.RATE_LIMIT requires key, limit and window_ms")
  pure a

abbrev pub incr_reply : IncrResult → CommandResult
incr_reply res =
    if res.ok
    then succeeded (text "{\"value\":" ∷ to_string_ℤ res.value ∷ text "}" ∷ [])
    else failed res.error_code res.error_message

abbrev pub rate_limit_reply : RateLimitResult → CommandResult
rate_limit_reply res =
    if res.ok
    then succeeded (
        text "{\"allowed\":"
        ∷ bool_text res.allowed
        ∷ text ",\"remaining\":"
        ∷ to_string res.remaining
        ∷ text ",\"retry_after_ms\":"
        ∷ to_string res.retry_after_ms
        ∷ text "}"
        ∷ [])
    else failed res.error_code res.error_message

module _ ⦃T : TableOps⦄ where
  unfoldable pub incr : Handler
  unfolding validated
  incr =
      validated (nonempty_key (text "INCR requires key field"))
        λ key now m. let (res, m') = Store.incr_by key (pos 1) 0 now m in (incr_reply res, m')

  unfoldable pub decr : Handler
  unfolding validated
  decr =
      validated (nonempty_key (text "DECR requires key field"))
        λ key now m. let (res, m') = Store.incr_by key (negsuc 0) 0 now m in (incr_reply res, m')

  unfoldable pub incr_by : Handler
  unfolding validated
  incr_by =
      validated incr_by_args λ a now m.
        let (res, m') = Store.incr_by a.key a.delta a.ttl_ms now m in (incr_reply res, m')

  unfoldable pub rate_limit : Doubles → Handler
  unfolding validated
  rate_limit D = validated rate_limit_args λ a now m.
      let (res, m') = Store.rate_limit D a.key a.limit a.window_ms a.cost now m in
      (rate_limit_reply res, m')
