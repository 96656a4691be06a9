-- ===== src/Commands/Dispatcher.antt =====
-- src/command/dispatcher.cpp and src/command/name.cpp: the registry of commands, and `Dispatch` with the
-- records that it appends to the append-only file.
pub mod Names
use gate_keeper.Base.{
  ℕ, ◌+◌, ◌-◌, Bool, true, false, ◌&&◌, ◌||◌, not, Option, none, some, List, [], ◌∷◌, ◌++◌, Bytes,
  text, same, is_empty, ltb, leb, ◌==◌, if◌then◌else◌, map,
}
use gate_keeper.Commands.{Request, CommandResult, succeeded, failed, Handler}
use gate_keeper.Commands.Strings
use gate_keeper.Commands.Keys
use gate_keeper.Commands.Ttl
use gate_keeper.Commands.Counter
use gate_keeper.Commands.Reservation
use gate_keeper.Commands.Idempotency
use gate_keeper.Json.{literal, first}
use gate_keeper.Maps.{lookup}
use gate_keeper.Storage.RateLimit.{Doubles}
use gate_keeper.Storage.Store.{MemoryStore}
use gate_keeper.Tables.{TableOps, is_some}

abbrev pub upper : ℕ → ℕ
upper c = if leb b'a' c && leb c b'z' then c - 32 else c

unfoldable pub normalize_name : Bytes → Bytes
normalize_name [] = []
normalize_name (c ∷ s) = upper c ∷ normalize_name s

-- the names of `IsWriteOp`
abbrev pub write_ops : List Bytes
write_ops =
    text "SET"
    ∷ text "DEL"
    ∷ text "EXPIRE"
    ∷ text "PEXPIRE"
    ∷ text "PERSIST"
    ∷ text "GK.RATE_LIMIT"
    ∷ text "GK.RESERVE"
    ∷ text "GK.COMMIT"
    ∷ text "GK.ROLLBACK"
    ∷ text "GK.QUOTA_INIT"
    ∷ text "GK.IDEM_BEGIN"
    ∷ text "GK.IDEM_COMPLETE"
    ∷ text "GK.IDEM_FAIL"
    ∷ []

unfoldable pub any_same : Bytes → List Bytes → Bool
any_same op [] = false
any_same op (name ∷ names) = same op name || any_same op names

unfoldable pub is_write_op : Bytes → Bool
unfolding any_same
is_write_op op = any_same op write_ops

-- what stands behind the first occurrence of a text
unfoldable pub after : Bytes → Bytes → Option Bytes
after needle [] = literal needle []
after needle (c ∷ s) =
    let later = after needle s in elim (literal needle (c ∷ s)) [ none ↦ later | some r ↦ some r ]

-- what stands before the first occurrence of a character
unfoldable pub before : ℕ → Bytes → Option Bytes
before c [] = none
before c (x ∷ s) =
    let later : Option Bytes = elim (before c s) [ none ↦ none | some r ↦ some (x ∷ r) ] in
    if x == c then some [] else later

-- a text put before the last occurrence of a character
unfoldable pub insert_before_last : ℕ → Bytes → Bytes → Option Bytes
insert_before_last c new [] = none
insert_before_last c new (x ∷ s) = elim (insert_before_last c new s) [
  | some r ↦ some (x ∷ r)
  | none ↦ if x == c then some (new ++ x ∷ s) else none
]

abbrev pub or_else : Bytes → Option Bytes → Bytes
or_else d none = d
or_else d (some s) = s

-- the body of `GK.IDEM_BEGIN` with the token that the store made
unfoldable pub with_token : Bytes → Bytes → Bytes
unfolding after before insert_before_last
with_token body result_json = elim (after (text "\"owner_token\"") body) [
  | some _ ↦ body
  | none ↦ elim (after (text "\"owner_token\":\"") result_json) [
    | none ↦ body
    | some r ↦ elim (before b'"' r) [
      | none ↦ body
      | some token ↦
          or_else body
            (insert_before_last b'}' (text ",\"owner_token\":\"" ++ (token ++ text "\"")) body)
    ]
  ]
]

-- what `Append` is called with: an operation and its body
abbrev pub LogRecord : Type 0
LogRecord = Bytes × Bytes

module _ ⦃T : TableOps⦄ where
  abbrev pub Registry : Type 0
  Registry = List (Bytes × Handler)

  -- `none` where `Register` throws
  unfoldable pub register : Bytes → Handler → Registry → Option Registry
  unfolding normalize_name
  register name handler commands =
      let name' = normalize_name name in
      if is_empty name' || is_some (lookup same name' commands)
      then none
      else some (commands ++ (name', handler) ∷ [])

  unfoldable pub register_all : List (Bytes × Handler) → Registry → Option Registry
  unfolding register
  register_all [] commands = some commands
  register_all ((name, handler) ∷ rest) commands = elim (register name handler commands) [
    | none ↦ none
    | some commands' ↦ register_all rest commands'
  ]

  abbrev pub ping : Handler
  ping body now m = (succeeded (text "{\"pong\":true}" ∷ []), m)

  -- the calls of `Register` in the constructor and in the functions that it calls
  abbrev pub registrations : Doubles → List (Bytes × Handler)
  registrations D =
      (text "PING", ping)
      ∷ (text "SET", Strings.set)
      ∷ (text "GET", Strings.get)
      ∷ (text "DEL", Keys.del)
      ∷ (text "EXISTS", Keys.exists)
      ∷ (text "TYPE", Keys.type_of)
      ∷ (text "DBSIZE", Keys.db_size)
      ∷ (text "KEYS", Keys.keys)
      ∷ (text "SCAN", Keys.scan)
      ∷ (text "EXPIRE", Ttl.expire)
      ∷ (text "PEXPIRE", Ttl.p_expire)
      ∷ (text "TTL", Ttl.ttl)
      ∷ (text "PTTL", Ttl.pttl)
      ∷ (text "PERSIST", Ttl.persist)
      ∷ (text "INCR", Counter.incr)
      ∷ (text "DECR", Counter.decr)
      ∷ (text "INCRBY", Counter.incr_by)
      ∷ (text "GK.RATE_LIMIT", Counter.rate_limit D)
      ∷ (text "GK.RESERVE", Reservation.reserve)
      ∷ (text "GK.COMMIT", Reservation.commit)
      ∷ (text "GK.ROLLBACK", Reservation.rollback)
      ∷ (text "GK.QUOTA_INIT", Reservation.quota_init)
      ∷ (text "GK.QUOTA_GET", Reservation.quota_get)
      ∷ (text "GK.IDEM_BEGIN", Idempotency.idem_begin)
      ∷ (text "GK.IDEM_COMPLETE", Idempotency.idem_complete)
      ∷ (text "GK.IDEM_FAIL", Idempotency.idem_fail)
      ∷ (text "GK.IDEM_GET", Idempotency.idem_get)
      ∷ []

  unfoldable pub new_dispatcher : Doubles → Option Registry
  unfolding register_all
  new_dispatcher D = register_all (registrations D) []

  -- the record that a command leaves in the append-only file
  unfoldable pub logged : Bool → Request → CommandResult → List LogRecord
  unfolding with_token
  logged has_writer request res =
      if res.ok && (has_writer && is_write_op request.op)
      then (if same request.op (text "GK.IDEM_BEGIN")
          then (request.op, with_token request.body_json res.result_json) ∷ []
          else (request.op, request.body_json) ∷ [])
      else []

  abbrev pub dispatch_to :
      Bool
      → Request
      → Option Handler
      → ℕ
      → MemoryStore
      → CommandResult × List LogRecord × MemoryStore
  dispatch_to has_writer request none now m =
      (failed (text "UNKNOWN_COMMAND") (text "unsupported command: " ++ request.op), [], m)
  dispatch_to has_writer request (some handler) now m =
      let (res, m') = handler request.body_json now m in (res, logged has_writer request res, m')

  -- the reply, the records that were appended, and the store
  unfoldable pub dispatch :
      Registry → Bool → Request → ℕ → MemoryStore → CommandResult × List LogRecord × MemoryStore
  unfolding normalize_name lookup logged
  dispatch commands has_writer request now m =
      dispatch_to has_writer request (lookup same (normalize_name request.op) commands) now m
