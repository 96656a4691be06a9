-- ===== src/Service/Processor/Replay.antt =====
-- A record of `Processor` (src/service/processor.cpp), replayed by `AofLoader` (aof_loader.cpp) through
-- the dispatcher.
use gate_keeper.Base.{
  ℕ, ℤ, ◌≡◌, ◌<◌, refl, ◌∙◌, ap, Bool, Bool-cases, inl, inr, true, false, some, [], ◌∷◌, ◌++◌,
  Bytes, text, same, is_empty, ◌&&◌,
}
use gate_keeper.Aof.{LoadResult, replay_record}
use gate_keeper.Commands.{Handler, validated}
use gate_keeper.Commands.Dispatcher.{
  LogRecord, registrations, dispatch, dispatch_to, normalize_name,
}
use gate_keeper.Commands.Strings
use gate_keeper.Commands.Keys
use gate_keeper.Commands.Keys.{del_all}
use gate_keeper.Commands.Ttl
use gate_keeper.Commands.Counter
use gate_keeper.Commands.Reservation
use gate_keeper.Maps.{lookup}
use gate_keeper.Protocol.Codec.{
  Request, SetCondition, ping, set, get, del, exists, type_of, expire, ttl, incr_by, rate_limit,
  quota_init, quota_get, reserve, commit, rollback, idem_begin, idem_complete, idem_fail,
}
use gate_keeper.Service.Processor.{run_request}
use gate_keeper.Service.Replies.{append_if, set_record, key_record, ttl_part, write_condition}
use gate_keeper.Service.Processor.Records.{
  p_expire_args-record, quota_init_args-record, rollback_args-record, keys_args-record,
  incr_by_args-record,
}
use gate_keeper.Service.Processor.SetRecords.{set_args-set_record}
use gate_keeper.Storage.Decimal.{u64_mod, to_string, to_string_ℤ}
use gate_keeper.Storage.Entry.{always}
use gate_keeper.Json.Quote.{quote_json}
use gate_keeper.Storage.Decimal.RoundTrip.{IsInt64}
use gate_keeper.Storage.RateLimit.{Doubles}
use gate_keeper.Storage.Store
use gate_keeper.Storage.Store.{MemoryStore}
use gate_keeper.Tables.{TableOps}

-- The requests whose records quote what they hold, with a key that `Validated` handlers accept and with
-- numbers of their types' widths.
abbrev pub IsReplayable : Request → Type 0
IsReplayable (set key value condition ttl_ms) = (is_empty key ≡ false) × (ttl_ms < u64_mod)
IsReplayable (del key) = Unit
IsReplayable (expire key ttl_ms) = (is_empty key ≡ false) × (ttl_ms < u64_mod)
IsReplayable (incr_by key delta init_ttl_ms) =
    (is_empty key ≡ false) × IsInt64 delta × (init_ttl_ms < u64_mod)
IsReplayable (quota_init key amount) = (is_empty key ≡ false) × (amount < u64_mod)
IsReplayable (rollback key res_id) = (is_empty key ≡ false) × (is_empty res_id ≡ false)
IsReplayable _ = ⊥

-- the one record that a test lets through
append_if_one :
    (b : Bool) (op body : Bytes) (rec : LogRecord)
    → append_if b op body ≡ rec ∷ []
    → rec ≡ (op, body)
append_if_one true op body rec e = cc
append_if_one false op body rec e = cc

nothing-one : (rec : LogRecord) → [] ≡ rec ∷ [] → ⊥
nothing-one rec e = cc

module _ ⦃T : TableOps⦄ (D : Doubles) (now : ℕ) (loaded : LoadResult) (m : MemoryStore) where
  -- the store behind a replayed record
  abbrev after : LogRecord → MemoryStore
  after rec = (replay_record (registrations D) rec now loaded m).1

  after-handler :
      (op body : Bytes) (handler : Handler) (m' : MemoryStore)
      → lookup same (normalize_name op) (registrations D) ≡ some handler
      → (handler body now m).1 ≡ m'
      → (rec : LogRecord) → rec ≡ (op, body)
      → after rec ≡ m'
  unfolding dispatch
  after-handler op body handler m' registered run rec e = rw e (
      ap
        (λ h. (dispatch_to false (record { id = text "aof"; op = op; body_json = body }) h now m).2)
        registered
      ∙ run)

  handled-expire :
      (key : Bytes) (ttl_ms : ℕ)
      → IsReplayable (expire key ttl_ms)
      → (Ttl.p_expire
          (key_record key (text ",\"ttl_ms\":" ∷ to_string ttl_ms ∷ text "}" ∷ []))
          now
          m).1
        ≡ (Store.expire key ttl_ms now m).1
  unfolding Ttl.p_expire validated
  handled-expire key ttl_ms h = let read = p_expire_args-record key ttl_ms h.0 h.1 in rw read refl

  after-expire :
      (key : Bytes) (ttl_ms : ℕ) (rec : LogRecord)
      → IsReplayable (expire key ttl_ms)
      → (run_request D true (expire key ttl_ms) now m).1 ≡ rec ∷ []
      → after rec ≡ (run_request D true (expire key ttl_ms) now m).2
  unfolding run_request
  after-expire key ttl_ms rec h e =
      after-handler (text "PEXPIRE") _ Ttl.p_expire _
        (unfold lookup normalize_name same text in refl) (handled-expire key ttl_ms h) rec
        (append_if_one ((Store.expire key ttl_ms now m).0 && true) (text "PEXPIRE") _ rec e)

  handled-del :
      (key : Bytes)
      → IsReplayable (del key)
      → (Keys.del (key_record key (text "}" ∷ [])) now m).1 ≡ (Store.del key m).1
  unfolding Keys.del validated del_all
  handled-del key h = let read = keys_args-record key in rw read refl

  after-del :
      (key : Bytes) (rec : LogRecord)
      → IsReplayable (del key)
      → (run_request D true (del key) now m).1 ≡ rec ∷ []
      → after rec ≡ (run_request D true (del key) now m).2
  unfolding run_request
  after-del key rec h e =
      after-handler (text "DEL") _ Keys.del _ (unfold lookup normalize_name same text in refl)
        (handled-del key h) rec (append_if_one ((Store.del key m).0 && true) (text "DEL") _ rec e)

  handled-quota_init :
      (key : Bytes) (amount : ℕ)
      → IsReplayable (quota_init key amount)
      → (Reservation.quota_init
          (key_record key (text ",\"amount\":" ∷ to_string amount ∷ text "}" ∷ []))
          now
          m).1
        ≡ (Store.set key (to_string amount) always 0 now m).1
  unfolding Reservation.quota_init validated
  handled-quota_init key amount h =
      let read = quota_init_args-record key amount h.0 h.1 in rw read refl

  after-quota_init :
      (key : Bytes) (amount : ℕ) (rec : LogRecord)
      → IsReplayable (quota_init key amount)
      → (run_request D true (quota_init key amount) now m).1 ≡ rec ∷ []
      → after rec ≡ (run_request D true (quota_init key amount) now m).2
  unfolding run_request
  after-quota_init key amount rec h e =
      after-handler (text "GK.QUOTA_INIT") _ Reservation.quota_init _
        (unfold lookup normalize_name same text in refl) (handled-quota_init key amount h) rec
        (append_if_one true (text "GK.QUOTA_INIT") _ rec e)

  handled-set :
      (key value : Bytes) (condition : SetCondition) (ttl_ms : ℕ)
      → IsReplayable (set key value condition ttl_ms)
      → (Strings.set (set_record key value condition ttl_ms) now m).1
        ≡ (Store.set key value (write_condition condition) ttl_ms now m).1
  unfolding Strings.set validated
  handled-set key value condition ttl_ms h =
      let read = set_args-set_record key value condition ttl_ms h.0 h.1 in rw read refl

  after-set :
      (key value : Bytes) (condition : SetCondition) (ttl_ms : ℕ) (rec : LogRecord)
      → IsReplayable (set key value condition ttl_ms)
      → (run_request D true (set key value condition ttl_ms) now m).1 ≡ rec ∷ []
      → after rec ≡ (run_request D true (set key value condition ttl_ms) now m).2
  unfolding run_request
  after-set key value condition ttl_ms rec h =
      elim (Bool-cases (Store.set key value (write_condition condition) ttl_ms now m).0) [
        | inl y ↦ rw y (λ e.
            after-handler (text "SET") _ Strings.set _
              (unfold lookup normalize_name same text in refl)
              (handled-set key value condition ttl_ms h) rec
              (append_if_one true (text "SET") _ rec e))
        | inr n ↦ rw n (λ e. absurd (nothing-one rec e))
      ]

  handled-incr_by :
      (key : Bytes) (delta : ℤ) (init_ttl_ms : ℕ)
      → IsReplayable (incr_by key delta init_ttl_ms)
      → (Counter.incr_by
          (key_record key
            (text ",\"delta\":" ∷ to_string_ℤ delta ∷ (ttl_part init_ttl_ms ++ (text "}" ∷ []))))
          now
          m).1
        ≡ (Store.incr_by key delta init_ttl_ms now m).1
  unfolding Counter.incr_by validated
  handled-incr_by key delta init_ttl_ms h =
      let read = incr_by_args-record key delta init_ttl_ms h.0 h.1 h.2 in rw read refl

  after-incr_by :
      (key : Bytes) (delta : ℤ) (init_ttl_ms : ℕ) (rec : LogRecord)
      → IsReplayable (incr_by key delta init_ttl_ms)
      → (run_request D true (incr_by key delta init_ttl_ms) now m).1 ≡ rec ∷ []
      → after rec ≡ (run_request D true (incr_by key delta init_ttl_ms) now m).2
  unfolding run_request
  after-incr_by key delta init_ttl_ms rec h =
      elim (Bool-cases (Store.incr_by key delta init_ttl_ms now m).0.ok) [
        | inl y ↦ rw y (λ e.
            after-handler (text "INCRBY") _ Counter.incr_by _
              (unfold lookup normalize_name same text in refl)
              (handled-incr_by key delta init_ttl_ms h) rec
              (append_if_one true (text "INCRBY") _ rec e))
        | inr n ↦ rw n (λ e. absurd (nothing-one rec e))
      ]

  handled-rollback :
      (key res_id : Bytes)
      → IsReplayable (rollback key res_id)
      → (Reservation.rollback
          (key_record key (text ",\"reservation_id\":" ∷ quote_json res_id ∷ text "}" ∷ []))
          now
          m).1
        ≡ (Store.rollback_quota key res_id now m).1
  unfolding Reservation.rollback validated
  handled-rollback key res_id h = let read = rollback_args-record key res_id h.0 h.1 in rw read refl

  after-rollback :
      (key res_id : Bytes) (rec : LogRecord)
      → IsReplayable (rollback key res_id)
      → (run_request D true (rollback key res_id) now m).1 ≡ rec ∷ []
      → after rec ≡ (run_request D true (rollback key res_id) now m).2
  unfolding run_request
  after-rollback key res_id rec h = elim (Bool-cases (Store.rollback_quota key res_id now m).0.ok) [
    | inl y ↦ rw y (λ e.
        after-handler (text "GK.ROLLBACK") _ Reservation.rollback _
          (unfold lookup normalize_name same text in refl) (handled-rollback key res_id h) rec
          (append_if_one true (text "GK.ROLLBACK") _ rec e))
    | inr n ↦ rw n (λ e. absurd (nothing-one rec e))
  ]

  -- A record that `Processor` appends for a `SET`, `DEL`, `EXPIRE`, `INCR`, `QUOTA_INIT` or `ROLLBACK`
  -- with a key that is not empty (for `DEL`, any key; for `ROLLBACK`, also an id that is not empty) and
  -- with numbers that fit their types does, replayed at the same time on the same store, what the
  -- request did to the store.
  pub replay-run_request :
      (r : Request) (rec : LogRecord)
      → IsReplayable r
      → (run_request D true r now m).1 ≡ rec ∷ []
      → (replay_record (registrations D) rec now loaded m).1 ≡ (run_request D true r now m).2
  replay-run_request ping rec h e = absurd h
  replay-run_request (set key value condition ttl_ms) rec h e =
      after-set key value condition ttl_ms rec h e
  replay-run_request (get key) rec h e = absurd h
  replay-run_request (del key) rec h e = after-del key rec h e
  replay-run_request (exists key) rec h e = absurd h
  replay-run_request (type_of key) rec h e = absurd h
  replay-run_request (expire key ttl_ms) rec h e = after-expire key ttl_ms rec h e
  replay-run_request (ttl key) rec h e = absurd h
  replay-run_request (incr_by key delta init_ttl_ms) rec h e =
      after-incr_by key delta init_ttl_ms rec h e
  replay-run_request (rate_limit key limit window_ms cost) rec h e = absurd h
  replay-run_request (quota_init key amount) rec h e = after-quota_init key amount rec h e
  replay-run_request (quota_get key) rec h e = absurd h
  replay-run_request (reserve key amount ttl_ms) rec h e = absurd h
  replay-run_request (commit key res_id actual_amount) rec h e = absurd h
  replay-run_request (rollback key res_id) rec h e = after-rollback key res_id rec h e
  replay-run_request (idem_begin key request_hash ttl_ms owner_token) rec h e = absurd h
  replay-run_request (idem_complete key owner_token code body) rec h e = absurd h
  replay-run_request (idem_fail key owner_token message) rec h e = absurd h
