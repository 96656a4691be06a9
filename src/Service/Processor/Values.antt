-- ===== src/Service/Processor/Values.antt =====
-- What a `SET` and a later `GET` answer, as binary requests (src/service/processor.cpp) and as JSON
-- commands (src/command/dispatcher.cpp, src/domain/kv/string_ops.cpp).
use gate_keeper.Base.{
  ℕ, ◌≡◌, ◌<◌, ◌≤◌, refl, ◌∙◌, ap, Bool, false, Option, some, none, [], ◌∷◌, List, Bytes, text,
  same, is_empty, ◌&&◌, if◌then◌else◌, flatten, Bool-cases, inl, inr,
}
use gate_keeper.Commands.{Request, CommandResult, Handler, validated}
use gate_keeper.Commands.Dispatcher.{
  LogRecord, registrations, dispatch, dispatch_to, normalize_name, logged,
}
use gate_keeper.Commands.StringBody.{parse_string_body}
use gate_keeper.Commands.StringBody.Members.{only_key}
use gate_keeper.Commands.Strings
use gate_keeper.Commands.Strings.{get_args, shown_value, stored_reply}
use gate_keeper.Json.{done}
use gate_keeper.Maps.{lookup}
use gate_keeper.Protocol.Codec
use gate_keeper.Protocol.Codec.{SetCondition, encode}
use gate_keeper.Protocol.Requests.Readback.{IsRequest, parse_request-encode}
use gate_keeper.Service.Processor.{process, run_request}
use gate_keeper.Service.Replies.{
  value_reply, status, ok, not_found, write_condition, set_record, key_record,
}
use gate_keeper.Service.Processor.SetRecords.{set_args-set_record}
use gate_keeper.Storage.Decimal.{u64_mod}
use gate_keeper.Storage.Entry.{past}
use gate_keeper.Storage.Keys.{expiry}
use gate_keeper.Storage.RateLimit.{Doubles}
use gate_keeper.Storage.Store
use gate_keeper.Storage.Store.{MemoryStore}
use gate_keeper.Storage.Store.Contents.{admits_value, get-set}
use gate_keeper.Storage.Store.Routing.{IsStore}
use gate_keeper.Tables.{TableOps}

module _ ⦃T : TableOps⦄ (D : Doubles) (writer : Bool) where
  pub process-encode :
      (r : Codec.Request) (now : ℕ) (m : MemoryStore)
      → IsRequest r
      → process D writer (encode r) now m ≡ some (run_request D writer r now m)
  unfolding process
  process-encode r now m h = rw (process, parse_request-encode r h) refl

  -- what `GET` finds under `q` once `SET` of `k` has been answered
  abbrev pub found : Bytes → Bytes → Bytes → SetCondition → ℕ → ℕ → ℕ → MemoryStore → Option Bytes
  found k v q c ttl_ms now later m =
      if same k q && admits_value (write_condition c) (Store.get k now m).0
      then (if past (expiry ttl_ms now) later then none else some v)
      else (Store.get q later m).0

  run_set_parts :
      (k v : Bytes) (c : SetCondition) (ttl_ms now : ℕ) (m : MemoryStore)
      → run_request D writer (Codec.set k v c ttl_ms) now m ≡ (
        status (if (Store.set k v (write_condition c) ttl_ms now m).0 then ok else not_found),
        (run_request D writer (Codec.set k v c ttl_ms) now m).1,
        (Store.set k v (write_condition c) ttl_ms now m).1,
      )
  unfolding run_request
  run_set_parts k v c ttl_ms now m =
      elim (Bool-cases (Store.set k v (write_condition c) ttl_ms now m).0) [
        | inl y ↦ rw y refl
        | inr n ↦ rw n refl
      ]

  -- A `GET` behind a `SET` as binary requests whose fields fit their lengths: the status of the `SET`
  -- says whether its condition admits what the key shows, and the reply to the `GET`, at the same or a
  -- later time, holds the new value until its deadline, under another key or without the write what
  -- was there before, and says so where there is nothing.
  pub process-get-set :
      (k v q : Bytes) (c : SetCondition) (ttl_ms now later : ℕ) (m : MemoryStore)
      → IsStore m
      → now ≤ later
      → IsRequest (Codec.set k v c ttl_ms)
      → IsRequest (Codec.get q)
      → (log : List LogRecord) × (m1 : MemoryStore) × (m2 : MemoryStore) × (process D writer
            (encode (Codec.set k v c ttl_ms))
            now
            m
          ≡ some (
            status
                (if admits_value (write_condition c) (Store.get k now m).0 then ok else not_found),
            log,
            m1,
          ))
        × (process D writer (encode (Codec.get q)) later m1
            ≡ some (value_reply (found k v q c ttl_ms now later m), [], m2))
  unfolding run_request
  process-get-set k v q c ttl_ms now later m valid order fits fits' =
      let spec = get-set k v q (write_condition c) ttl_ms now later m valid order in
      let setting = process-encode (Codec.set k v c ttl_ms) now m fits in
      let m1 = (Store.set k v (write_condition c) ttl_ms now m).1 in
      let getting = process-encode (Codec.get q) later m1 fits' in
      let m2 = (Store.get q later m1).1 in
      let log = (run_request D writer (Codec.set k v c ttl_ms) now m).1 in
      (
        log,
        m1,
        m2,
        setting
            ∙ ap some (run_set_parts k v c ttl_ms now m)
            ∙ ap (λ b. some (status (if b then ok else not_found), log, m1)) spec.0,
        getting ∙ ap (λ x. some (value_reply x, [], m2)) spec.1,
      )

abbrev pub json : List ℕ → Bytes → Request
json op body = record { id = text "1"; op = op; body_json = body }

module _ ⦃T : TableOps⦄ (D : Doubles) (writer : Bool) where
  get_args-key_record :
      (q : Bytes) → is_empty q ≡ false → get_args (key_record q (text "}" ∷ [])) ≡ done q []
  unfolding get_args key_record flatten parse_string_body lookup same text
  get_args-key_record q full = rw (get_args, only_key q) (rw full refl)

  set_handled :
      (k v : Bytes) (c : SetCondition) (ttl_ms now : ℕ) (m : MemoryStore)
      → is_empty k ≡ false
      → ttl_ms < u64_mod
      → Strings.set (set_record k v c ttl_ms) now m ≡ (
        stored_reply (Store.set k v (write_condition c) ttl_ms now m).0,
        (Store.set k v (write_condition c) ttl_ms now m).1,
      )
  unfolding Strings.set validated
  set_handled k v c ttl_ms now m full small =
      let read = set_args-set_record k v c ttl_ms full small in rw read refl

  get_handled :
      (q : Bytes) (now : ℕ) (m : MemoryStore)
      → is_empty q ≡ false
      → Strings.get (key_record q (text "}" ∷ [])) now m
        ≡ (shown_value (Store.get q now m).0, (Store.get q now m).1)
  unfolding Strings.get validated
  get_handled q now m full = let read = get_args-key_record q full in rw read refl

  dispatched :
      (op body : Bytes) (handler : Handler) (res : CommandResult) (now : ℕ) (m m' : MemoryStore)
      → lookup same (normalize_name op) (registrations D) ≡ some handler
      → handler body now m ≡ (res, m')
      → dispatch (registrations D) writer (json op body) now m
        ≡ (res, logged writer (json op body) res, m')
  unfolding dispatch
  dispatched op body handler res now m m' registered run =
      ap (λ h. dispatch_to writer (json op body) h now m) registered
      ∙ ap (λ p. (p.0, logged writer (json op body) p.0, p.1)) run

  -- A `SET` and a later `GET` as JSON commands, for keys that are not empty: the `SET` answers whether
  -- its condition admits what the key shows, and the `GET`, at the same or a later time, answers the new
  -- value until its deadline, under another key or without the write what was there before, or that
  -- there is nothing.
  pub dispatch-get-set :
      (k v q : Bytes) (c : SetCondition) (ttl_ms now later : ℕ) (m : MemoryStore)
      → IsStore m
      → now ≤ later
      → is_empty k ≡ false
      → is_empty q ≡ false
      → ttl_ms < u64_mod
      → (log : List LogRecord) × (log' : List LogRecord) × (m1 : MemoryStore) × (m2 : MemoryStore)
        × (dispatch (registrations D) writer (json (text "SET") (set_record k v c ttl_ms)) now m
            ≡ (stored_reply (admits_value (write_condition c) (Store.get k now m).0), log, m1))
        × (dispatch
              (registrations D)
              writer
              (json (text "GET") (key_record q (text "}" ∷ [])))
              later
              m1
            ≡ (shown_value (found D writer k v q c ttl_ms now later m), log', m2))
  dispatch-get-set k v q c ttl_ms now later m valid order full full' small =
      let spec = get-set k v q (write_condition c) ttl_ms now later m valid order in
      let m1 = (Store.set k v (write_condition c) ttl_ms now m).1 in
      let m2 = (Store.get q later m1).1 in
      let set_request = json (text "SET") (set_record k v c ttl_ms) in
      let get_request = json (text "GET") (key_record q (text "}" ∷ [])) in
      let setting =
        dispatched (text "SET") (set_record k v c ttl_ms) Strings.set _ now m m1
          (unfold lookup normalize_name same text in refl)
          (set_handled k v c ttl_ms now m full small) in
      let getting =
        dispatched (text "GET") (key_record q (text "}" ∷ [])) Strings.get _ later m1 m2
          (unfold lookup normalize_name same text in refl) (get_handled q later m1 full') in
      (
        logged writer set_request
            (stored_reply (admits_value (write_condition c) (Store.get k now m).0)),
        logged writer get_request (shown_value (found D writer k v q c ttl_ms now later m)),
        m1,
        m2,
        setting ∙ ap (λ b. (stored_reply b, logged writer set_request (stored_reply b), m1)) spec.0,
        getting ∙ ap (λ x. (shown_value x, logged writer get_request (shown_value x), m2)) spec.1,
      )
