-- ===== src/Service/Http.antt =====
-- src/service/http_service.cpp: what the handlers share, the check of the body, its members, and the
-- error responses. A handler that has called the store throws nothing.
pub mod Limits
pub mod Quotas
pub mod Idempotency
pub mod Keys
pub mod Routes
pub mod Asked
pub mod Agreement
use gate_keeper.Base.{
  ℕ, ◌%◌, Bool, true, false, ◌&&◌, List, [], ◌∷◌, ◌++◌, Bytes, text, same, is_empty, not, flatten,
  if◌then◌else◌,
}
use gate_keeper.Commands.{members}
use gate_keeper.Commands.Dispatcher.{LogRecord}
use gate_keeper.Http.{HttpRequest, HttpResponse}
use gate_keeper.Http.Url.{extract_key_from_query}
use gate_keeper.Json.{Read, Reader, done, fail, unfinished, continue, throw, string, what}
use gate_keeper.Storage.Store.{MemoryStore}
use gate_keeper.Tables.{TableOps}

-- `CurrentTimeMs` at the first and at the second call of the store, and the seconds of the system clock
pub record Clock : Type 0 where
  pub now : ℕ
  pub later : ℕ
  pub now_sec : ℕ

abbrev pub respond : ℕ → Bytes → List Bytes → HttpResponse
respond code status body = record {
  status_code = code;
  status_text = status;
  headers = [];
  body = flatten body;
}

abbrev pub succeed : List Bytes → HttpResponse
succeed body = respond 200 (text "OK") body

unfoldable pub bad_request : Bytes → HttpResponse
unfolding text flatten
bad_request message =
    respond 400 (text "Bad Request")
      (text "{\"error\":\"INVALID_ARGUMENTS\",\"message\":\"" ∷ message ∷ text "\"}" ∷ [])

-- an error of the store
abbrev pub store_error : ℕ → Bytes → Bytes → Bytes → HttpResponse
store_error code status error_code error_message =
    respond code status (
      text "{\"error\":\""
      ∷ error_code
      ∷ text "\",\"message\":\""
      ∷ error_message
      ∷ text "\"}"
      ∷ [])

abbrev pub unsupported {ℓ} : {A : Type ℓ} → Bytes → Reader A
unsupported field = throw (text "unsupported field: " ++ field)

-- the one member of a body with a key
unfoldable pub key_member : Bytes → Bytes → Reader Bytes
unfolding string
key_member field key = if same field (text "key") then string else unsupported field

unfoldable pub key_args : Reader Bytes
unfolding members key_member
key_args = members key_member []

module _ ⦃T : TableOps⦄ where
  -- a response, the records that were appended, and the store
  abbrev pub Reply : Type 0
  Reply = HttpResponse × List LogRecord × MemoryStore

  abbrev pub refuse : Bytes → MemoryStore → Reply
  refuse message m = (bad_request message, [], m)

  -- what a handler makes of the members of a body, or of the exception of their reader
  abbrev pub parsed {ℓ} : {A : Type ℓ} → Read A → (A → MemoryStore → Reply) → MemoryStore → Reply
  parsed (done a s) run m = run a m
  parsed (fail e) run m = refuse (text "invalid JSON: " ++ what e) m
  parsed unfinished run m = refuse (text "unfinished") m

  -- a handler that needs a body
  unfoldable pub with_body {ℓ} :
      {A : Type ℓ} → Reader A → HttpRequest → (A → MemoryStore → Reply) → MemoryStore → Reply
  unfolding text what bad_request
  with_body args req run m =
      if is_empty req.body
      then refuse (text "missing JSON body") m
      else parsed (args req.body) run m

  -- `BadRequest` where a test fails
  abbrev pub check : Bool → Bytes → (MemoryStore → Reply) → MemoryStore → Reply
  check b message run m = if b then run m else refuse message m

  -- a handler that takes a key from the query, or from the body where the query has none
  unfoldable pub with_key : HttpRequest → (Bytes → MemoryStore → Reply) → MemoryStore → Reply
  unfolding extract_key_from_query key_args text what bad_request
  with_key req run m =
      let key = extract_key_from_query req.query in
      let run_key : Bytes → MemoryStore → Reply =
        λ k. check (not (is_empty k)) (text "key is required") (run k) in
      if is_empty key && not (is_empty req.body)
      then parsed (key_args req.body) run_key m
      else run_key key m
