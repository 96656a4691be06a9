-- ===== src/Service/Http/Keys.antt =====
-- The handlers of keys and values in src/service/http_service.cpp.
use gate_keeper.Base.{
  ℕ, ◌+◌, Bool, true, false, ◌&&◌, ◌||◌, List, [], ◌∷◌, ◌++◌, Bytes, text, same, is_empty, not,
  flatten, if◌then◌else◌, Option, none, some,
}
use gate_keeper.Commands.{members, optional_members, seconds, bool_text}
use gate_keeper.Commands.Dispatcher.{LogRecord}
use gate_keeper.Http.{HttpRequest, HttpResponse}
use gate_keeper.Http.Url.{extract_key_from_query}
use gate_keeper.Json.{Reader, ◌>>=◌, pure, throw, string, string_array, unsigned_number, boolean}
use gate_keeper.Json.Quote.{quote_json}
use gate_keeper.Service.Http.{
  Clock, respond, succeed, unsupported, Reply, parsed, with_body, with_key, check,
}
use gate_keeper.Service.Replies.{append_if, key_record, ttl_part, type_text}
use gate_keeper.Storage.Decimal.{to_string, to_string_ℤ}
use gate_keeper.Storage.Entry.{WriteCondition, always, if_absent, if_present}
use gate_keeper.Storage.Store
use gate_keeper.Storage.Store.{MemoryStore}
use gate_keeper.Tables.{TableOps}

pub record SetArgs : Type 0 where
  pub key : Bytes
  pub value : Bytes
  pub ttl_ms : ℕ
  pub condition : WriteCondition

-- the value of the member `condition`
unfoldable pub condition_named : Bytes → Reader WriteCondition
unfolding text same
condition_named name =
    if same name (text "nx") || same name (text "if_not_exists")
    then pure if_absent
    else if same name (text "xx") || same name (text "if_exists")
    then pure if_present
    else if same name (text "always")
    then pure always
    else throw (text "unsupported condition: " ++ name)

unfoldable pub set_member : Bytes → SetArgs → Reader SetArgs
unfolding string unsigned_number boolean condition_named
set_member field a =
    if same field (text "key")
    then (string >>= λ v. pure (record a { key = v }))
    else if same field (text "value")
    then (string >>= λ v. pure (record a { value = v }))
    else if same field (text "ttl_ms")
    then (unsigned_number >>= λ n. pure (record a { ttl_ms = n }))
    else if same field (text "ttl_seconds")
    then (unsigned_number >>= λ n. pure (record a { ttl_ms = seconds n }))
    else if same field (text "condition")
    then (string >>= λ name. condition_named name >>= λ c. pure (record a { condition = c }))
    else if same field (text "if_not_exists")
    then (boolean >>= λ b. pure (if b then record a { condition = if_absent } else a))
    else if same field (text "if_exists")
    then (boolean >>= λ b. pure (if b then record a { condition = if_present } else a))
    else unsupported field

unfoldable pub set_args : Reader SetArgs
unfolding members set_member
set_args = members set_member (record { key = []; value = []; ttl_ms = 0; condition = always })

abbrev pub condition_part : WriteCondition → List Bytes
condition_part always = []
condition_part if_absent = text ",\"if_not_exists\":true" ∷ []
condition_part if_present = text ",\"if_exists\":true" ∷ []

unfoldable pub set_record : SetArgs → Bytes
unfolding quote_json to_string
set_record a = flatten (
    (text "{\"key\":" ∷ quote_json a.key ∷ text ",\"value\":" ∷ quote_json a.value ∷ [])
    ++ (ttl_part a.ttl_ms ++ (condition_part a.condition ++ (text "}" ∷ []))))

unfoldable pub keys_member : Bytes → List Bytes → Reader (List Bytes)
unfolding string string_array
keys_member field keys =
    if same field (text "key")
    then (string >>= λ key. pure (keys ++ key ∷ []))
    else if same field (text "keys")
    then (string_array >>= λ arr. pure (keys ++ arr))
    else unsupported field

unfoldable pub keys_args : Reader (List Bytes)
unfolding optional_members keys_member
keys_args = optional_members keys_member []

pub record ExpireArgs : Type 0 where
  pub key : Bytes
  pub ttl_ms : ℕ
  pub has_ttl : Bool

unfoldable pub expire_member : Bytes → ExpireArgs → Reader ExpireArgs
unfolding string unsigned_number
expire_member field a =
    if same field (text "key")
    then (string >>= λ v. pure (record a { key = v }))
    else if same field (text "ttl_ms") || same field (text "milliseconds")
    then (unsigned_number >>= λ n. pure (record a { ttl_ms = n; has_ttl = true }))
    else if same field (text "ttl_seconds") || same field (text "seconds")
    then (unsigned_number >>= λ n. pure (record a { ttl_ms = seconds n; has_ttl = true }))
    else unsupported field

unfoldable pub expire_args : Reader ExpireArgs
unfolding members expire_member
expire_args = members expire_member (record { key = []; ttl_ms = 0; has_ttl = false })

-- the key of the query, if it has one
abbrev pub one_key : Bytes → List Bytes
one_key key = if is_empty key then [] else key ∷ []

abbrev pub no_keys : List Bytes → Bool
no_keys [] = true
no_keys (k ∷ ks) = false

abbrev pub value_response : Bytes → Option Bytes → HttpResponse
value_response key none =
    respond 404 (text "Not Found")
      (text "{\"error\":\"KEY_NOT_FOUND\",\"message\":\"key does not exist\"}" ∷ [])
value_response key (some v) =
    succeed (text "{\"key\":" ∷ quote_json key ∷ text ",\"value\":" ∷ quote_json v ∷ text "}" ∷ [])

module _ ⦃T : TableOps⦄ where
  unfoldable pub set : Bool → Clock → SetArgs → MemoryStore → Reply
  unfolding set_record text flatten
  set writer clock a m =
      let (stored, m') = Store.set a.key a.value a.condition a.ttl_ms clock.now m in
      (
        succeed (text "{\"ok\":true,\"set\":" ∷ bool_text stored ∷ text "}" ∷ []),
        append_if (stored && writer) (text "SET") (set_record a),
        m',
      )

  unfoldable pub handle_kv_set : Bool → HttpRequest → Clock → MemoryStore → Reply
  unfolding with_body set_args set
  handle_kv_set writer req clock = with_body set_args req λ a.
      check (not (is_empty a.key)) (text "key is required and must not be empty")
        (set writer clock a)

  unfoldable pub handle_kv_get : HttpRequest → Clock → MemoryStore → Reply
  unfolding with_key quote_json text flatten
  handle_kv_get req clock =
      with_key req
        λ key m. let (v, m') = Store.get key clock.now m in (value_response key v, [], m')

  -- a handler of some keys
  unfoldable pub with_keys : HttpRequest → (List Bytes → MemoryStore → Reply) → MemoryStore → Reply
  unfolding keys_args extract_key_from_query text
  with_keys req run m =
      let run_keys : List Bytes → MemoryStore → Reply =
        λ ks. check (not (no_keys ks)) (text "key or keys are required") (run ks) in
      if is_empty req.body
      then run_keys (one_key (extract_key_from_query req.query)) m
      else parsed (keys_args req.body) run_keys m

  -- the loops of `HandleKvDel` and `HandleKvExists`, the latter at one time
  unfoldable pub del_all : Bool → List Bytes → MemoryStore → ℕ × List LogRecord × MemoryStore
  unfolding key_record text
  del_all writer [] m = (0, [], m)
  del_all writer (k ∷ ks) m =
      let (found, m') = Store.del k m in
      let (deleted, log, m'') = del_all writer ks m' in
      (
        (if found then 1 + deleted else deleted),
        append_if (found && writer) (text "DEL") (key_record k (text "}" ∷ [])) ++ log,
        m'',
      )

  unfoldable pub exists_all : List Bytes → ℕ → MemoryStore → ℕ × MemoryStore
  exists_all [] now m = (0, m)
  exists_all (k ∷ ks) now m =
      let (found, m') = Store.exists k now m in
      let (count, m'') = exists_all ks now m' in ((if found then 1 + count else count), m'')

  unfoldable pub del : Bool → List Bytes → MemoryStore → Reply
  unfolding del_all to_string flatten
  del writer ks m =
      let (deleted, log, m') = del_all writer ks m in
      (succeed (text "{\"deleted\":" ∷ to_string deleted ∷ text "}" ∷ []), log, m')

  unfoldable pub handle_kv_del : Bool → HttpRequest → MemoryStore → Reply
  unfolding with_keys del
  handle_kv_del writer req = with_keys req (del writer)

  unfoldable pub exists : Clock → List Bytes → MemoryStore → Reply
  unfolding exists_all to_string flatten
  exists clock ks m =
      let (count, m') = exists_all ks clock.now m in
      (succeed (text "{\"count\":" ∷ to_string count ∷ text "}" ∷ []), [], m')

  unfoldable pub handle_kv_exists : HttpRequest → Clock → MemoryStore → Reply
  unfolding with_keys exists
  handle_kv_exists req clock = with_keys req (exists clock)

  unfoldable pub handle_kv_type : HttpRequest → Clock → MemoryStore → Reply
  unfolding with_key quote_json flatten
  handle_kv_type req clock = with_key req λ key m.
      let (type, m') = Store.type_of key clock.now m in
      (
        succeed (
            text "{\"key\":"
            ∷ quote_json key
            ∷ text ",\"type\":\""
            ∷ type_text type
            ∷ text "\"}"
            ∷ []),
        [],
        m',
      )

  unfoldable pub expire : Bool → Clock → ExpireArgs → MemoryStore → Reply
  unfolding key_record to_string text flatten
  expire writer clock a m =
      let (ok, m') = Store.expire a.key a.ttl_ms clock.now m in
      (
        succeed (text "{\"ok\":" ∷ bool_text ok ∷ text "}" ∷ []),
        append_if (ok && writer) (text "PEXPIRE")
            (key_record a.key (text ",\"ttl_ms\":" ∷ to_string a.ttl_ms ∷ text "}" ∷ [])),
        m',
      )

  unfoldable pub handle_kv_expire : Bool → HttpRequest → Clock → MemoryStore → Reply
  unfolding with_body expire_args expire
  handle_kv_expire writer req clock = with_body expire_args req λ a.
      check (not (is_empty a.key) && a.has_ttl) (text "key and ttl are required")
        (expire writer clock a)

  unfoldable pub handle_kv_ttl : HttpRequest → Clock → MemoryStore → Reply
  unfolding with_key quote_json to_string flatten
  handle_kv_ttl req clock = with_key req λ key m.
      let (ttl_sec, m') = Store.ttl key clock.now m in
      let (ttl_ms, m'') = Store.pttl key clock.later m' in
      (
        succeed (
            text "{\"key\":"
            ∷ quote_json key
            ∷ text ",\"ttl_seconds\":"
            ∷ to_string_ℤ ttl_sec
            ∷ text ",\"ttl_ms\":"
            ∷ to_string_ℤ ttl_ms
            ∷ text "}"
            ∷ []),
        [],
        m'',
      )
