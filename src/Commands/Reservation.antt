-- ===== src/Commands/Reservation.antt =====
-- src/domain/quota/reservation_ops.cpp: `GK.RESERVE`, `GK.COMMIT`, `GK.ROLLBACK`, `GK.QUOTA_INIT`,
-- `GK.QUOTA_GET`.
use gate_keeper.Base.{
  ℕ, Bool, true, false, ◌&&◌, ◌||◌, not, Option, none, some, [], ◌∷◌, ◌++◌, Bytes, text, same,
  is_empty, if◌then◌else◌,
}
use gate_keeper.Commands.{
  CommandResult, succeeded, failed, seconds, Handler, validated, members, nonempty_key, require,
}
use gate_keeper.Json.{Reader, ◌>>=◌, ◌>>◌, pure, throw, string, unsigned_number}
use gate_keeper.Json.Quote.{quote_json}
use gate_keeper.Storage.Decimal.{to_string, stoull}
use gate_keeper.Storage.Entry.{ReservationResult, CommitResult, RollbackResult, always}
use gate_keeper.Storage.Store
use gate_keeper.Tables.{TableOps}

-- the variables of the handlers: the key, the reservation's id, an amount and a time, and whether the
-- amount and the time were given
pub record QuotaArgs : Type 0 where
  pub key : Bytes
  pub reservation_id : Bytes
  pub amount : ℕ
  pub has_amount : Bool
  pub ttl_ms : ℕ
  pub has_ttl : Bool

abbrev pub no_quota_args : QuotaArgs
no_quota_args = record {
  key = [];
  reservation_id = [];
  amount = 0;
  has_amount = false;
  ttl_ms = 0;
  has_ttl = false;
}

unfoldable pub reserve_member : Bytes → QuotaArgs → Reader QuotaArgs
unfolding string unsigned_number
reserve_member field a =
    if same field (text "key")
    then (string >>= λ key. pure (record a { key = key }))
    else if same field (text "amount")
    then (unsigned_number >>= λ n. pure (record a { amount = n; has_amount = true }))
    else if same field (text "ttl_ms")
    then (unsigned_number >>= λ n. pure (record a { ttl_ms = n; has_ttl = true }))
    else if same field (text "ttl_seconds")
    then (unsigned_number >>= λ n. pure (record a { ttl_ms = seconds n; has_ttl = true }))
    else throw (text "unsupported GK.RESERVE field: " ++ field)

unfoldable pub reserve_args : Reader QuotaArgs
unfolding members reserve_member
reserve_args = do
  a ← members reserve_member no_quota_args
  require (not (is_empty a.key) && (a.has_amount && a.has_ttl))
      (text "GK.RESERVE requires key, amount and ttl_ms")
  pure a

unfoldable pub commit_member : Bytes → QuotaArgs → Reader QuotaArgs
unfolding string unsigned_number
commit_member field a =
    if same field (text "key")
    then (string >>= λ key. pure (record a { key = key }))
    else if same field (text "reservation_id")
    then (string >>= λ id. pure (record a { reservation_id = id }))
    else if same field (text "actual_amount") || same field (text "amount")
    then (unsigned_number >>= λ n. pure (record a { amount = n; has_amount = true }))
    else throw (text "unsupported GK.COMMIT field: " ++ field)

unfoldable pub commit_args : Reader QuotaArgs
unfolding members commit_member
commit_args = do
  a ← members commit_member no_quota_args
  require (not (is_empty a.key) && (not (is_empty a.reservation_id) && a.has_amount))
      (text "GK.COMMIT requires key, reservation_id and actual_amount")
  pure a

unfoldable pub rollback_member : Bytes → QuotaArgs → Reader QuotaArgs
unfolding string
rollback_member field a =
    if same field (text "key")
    then (string >>= λ key. pure (record a { key = key }))
    else if same field (text "reservation_id")
    then (string >>= λ id. pure (record a { reservation_id = id }))
    else throw (text "unsupported GK.ROLLBACK field: " ++ field)

unfoldable pub rollback_args : Reader QuotaArgs
unfolding members rollback_member
rollback_args = do
  a ← members rollback_member no_quota_args
  require (not (is_empty a.key) && not (is_empty a.reservation_id))
      (text "GK.ROLLBACK requires key and reservation_id")
  pure a

unfoldable pub quota_init_member : Bytes → QuotaArgs → Reader QuotaArgs
unfolding string unsigned_number
quota_init_member field a =
    if same field (text "key")
    then (string >>= λ key. pure (record a { key = key }))
    else if same field (text "amount") || same field (text "balance")
    then (unsigned_number >>= λ n. pure (record a { amount = n; has_amount = true }))
    else throw (text "unsupported GK.QUOTA_INIT field: " ++ field)

unfoldable pub quota_init_args : Reader QuotaArgs
unfolding members quota_init_member
quota_init_args = do
  a ← members quota_init_member no_quota_args
  require (not (is_empty a.key) && a.has_amount) (text "GK.QUOTA_INIT requires key and amount")
  pure a

abbrev pub reserve_reply : ReservationResult → CommandResult
reserve_reply res =
    if res.ok && res.reserved
    then succeeded (
        text "{\"reserved\":true,\"reservation_id\":"
        ∷ quote_json res.reservation_id
        ∷ text ",\"remaining\":"
        ∷ to_string res.remaining
        ∷ text "}"
        ∷ [])
    else failed res.error_code res.error_message

abbrev pub commit_reply : CommitResult → CommandResult
commit_reply res =
    if res.ok && res.committed
    then succeeded (
        text "{\"committed\":true,\"actual_amount\":"
        ∷ to_string res.actual_amount
        ∷ text ",\"refunded\":"
        ∷ to_string res.refunded
        ∷ text ",\"remaining\":"
        ∷ to_string res.remaining
        ∷ text "}"
        ∷ [])
    else failed res.error_code res.error_message

abbrev pub rollback_reply : RollbackResult → CommandResult
rollback_reply res =
    if res.ok && res.rolled_back
    then succeeded (
        text "{\"rolled_back\":true,\"refunded\":"
        ∷ to_string res.refunded
        ∷ text ",\"remaining\":"
        ∷ to_string res.remaining
        ∷ text "}"
        ∷ [])
    else failed res.error_code res.error_message

abbrev pub balance_reply : Bytes → Option (ℕ × ℕ) → CommandResult
balance_reply key none = failed (text "ERR_NOT_AN_INTEGER") (text "quota balance is not an integer")
balance_reply key (some (balance, n)) =
    succeeded
      (text "{\"key\":" ∷ quote_json key ∷ text ",\"balance\":" ∷ to_string balance ∷ text "}" ∷ [])

abbrev pub quota_get_reply : Bytes → Option Bytes → CommandResult
quota_get_reply key none = failed (text "KEY_NOT_FOUND") (text "quota key does not exist")
quota_get_reply key (some v) = balance_reply key (stoull v)

module _ ⦃T : TableOps⦄ where
  unfoldable pub reserve : Handler
  unfolding validated
  reserve = validated reserve_args λ a now m.
      let (res, m') = Store.reserve_quota a.key a.amount a.ttl_ms now m in (reserve_reply res, m')

  unfoldable pub commit : Handler
  unfolding validated
  commit = validated commit_args λ a now m.
      let (res, m') = Store.commit_quota a.key a.reservation_id a.amount now m in
      (commit_reply res, m')

  unfoldable pub rollback : Handler
  unfolding validated
  rollback = validated rollback_args λ a now m.
      let (res, m') = Store.rollback_quota a.key a.reservation_id now m in (rollback_reply res, m')

  unfoldable pub quota_init : Handler
  unfolding validated
  quota_init = validated quota_init_args λ a now m. (
    succeeded (
        text "{\"initialized\":true,\"key\":"
        ∷ quote_json a.key
        ∷ text ",\"balance\":"
        ∷ to_string a.amount
        ∷ text "}"
        ∷ []),
    (Store.set a.key (to_string a.amount) always 0 now m).1,
  )

  unfoldable pub quota_get : Handler
  unfolding validated
  quota_get =
      validated (nonempty_key (text "GK.QUOTA_GET requires key field"))
        λ key now m. let (val, m') = Store.get key now m in (quota_get_reply key val, m')
