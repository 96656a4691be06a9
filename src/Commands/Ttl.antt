-- ===== src/Commands/Ttl.antt =====
-- src/domain/kv/ttl_ops.cpp: `EXPIRE`, `PEXPIRE`, `TTL`, `PTTL`, `PERSIST`.
use gate_keeper.Base.{
  ℕ, Bool, true, false, ◌&&◌, ◌||◌, not, [], ◌∷◌, ◌++◌, Bytes, text, same, is_empty, if◌then◌else◌,
}
use gate_keeper.Commands.{
  CommandResult, succeeded, seconds, Handler, validated, members, nonempty_key, require,
}
use gate_keeper.Json.{Reader, ◌>>=◌, ◌>>◌, pure, throw, string, unsigned_number}
use gate_keeper.Storage.Decimal.{to_string_ℤ}
use gate_keeper.Storage.Store
use gate_keeper.Tables.{TableOps}

-- the variables of `Expire` and `PExpire`: the key, the time, and whether it was given
pub record ExpireArgs : Type 0 where
  pub key : Bytes
  pub time : ℕ
  pub has_time : Bool

abbrev pub no_expire_args : ExpireArgs
no_expire_args = record { key = []; time = 0; has_time = false }

unfoldable pub expire_member : Bytes → ExpireArgs → Reader ExpireArgs
unfolding string unsigned_number
expire_member field a =
    if same field (text "key")
    then (string >>= λ key. pure (record a { key = key }))
    else if same field (text "ttl_seconds") || same field (text "seconds")
    then (unsigned_number >>= λ n. pure (record a { time = n; has_time = true }))
    else throw (text "unsupported EXPIRE field: " ++ field)

unfoldable pub expire_args : Reader ExpireArgs
unfolding members expire_member
expire_args = do
  a ← members expire_member no_expire_args
  require (not (is_empty a.key) && a.has_time) (text "EXPIRE requires key and ttl_seconds")
  pure a

unfoldable pub p_expire_member : Bytes → ExpireArgs → Reader ExpireArgs
unfolding string unsigned_number
p_expire_member field a =
    if same field (text "key")
    then (string >>= λ key. pure (record a { key = key }))
    else if same field (text "ttl_ms") || same field (text "milliseconds")
    then (unsigned_number >>= λ n. pure (record a { time = n; has_time = true }))
    else throw (text "unsupported PEXPIRE field: " ++ field)

unfoldable pub p_expire_args : Reader ExpireArgs
unfolding members p_expire_member
p_expire_args = do
  a ← members p_expire_member no_expire_args
  require (not (is_empty a.key) && a.has_time) (text "PEXPIRE requires key and ttl_ms")
  pure a

abbrev pub set_reply : Bool → CommandResult
set_reply set = succeeded (text "{\"set\":" ∷ (if set then text "true}" else text "false}") ∷ [])

module _ ⦃T : TableOps⦄ where
  unfoldable pub expire : Handler
  unfolding validated
  expire =
      validated expire_args
        λ a now m. let (set, m') = Store.expire a.key (seconds a.time) now m in (set_reply set, m')

  unfoldable pub p_expire : Handler
  unfolding validated
  p_expire =
      validated p_expire_args
        λ a now m. let (set, m') = Store.expire a.key a.time now m in (set_reply set, m')

  unfoldable pub ttl : Handler
  unfolding validated
  ttl = validated (nonempty_key (text "TTL requires key field")) λ key now m.
      let (n, m') = Store.ttl key now m in
      (succeeded (text "{\"ttl_seconds\":" ∷ to_string_ℤ n ∷ text "}" ∷ []), m')

  unfoldable pub pttl : Handler
  unfolding validated
  pttl = validated (nonempty_key (text "PTTL requires key field")) λ key now m.
      let (n, m') = Store.pttl key now m in
      (succeeded (text "{\"ttl_ms\":" ∷ to_string_ℤ n ∷ text "}" ∷ []), m')

  unfoldable pub persist : Handler
  unfolding validated
  persist = validated (nonempty_key (text "PERSIST requires key field")) λ key now m.
      let (persisted, m') = Store.persist key now m in
      (
        succeeded
            (text "{\"persisted\":" ∷ (if persisted then text "true}" else text "false}") ∷ []),
        m',
      )
