-- ===== src/Commands.antt =====
-- src/command/ and src/domain/: the commands that clients send as JSON. Here is what the handlers
-- share: requests and results, the loop over the members of a body, which each handler writes out, and
-- `Validated`. Where a handler throws, it has not called the store yet.
pub mod StringBody
pub mod Strings
pub mod Keys
pub mod Ttl
pub mod Counter
pub mod Reservation
pub mod Idempotency
pub mod Dispatcher
pub mod Bodies
pub mod Envelope
use gate_keeper.Base.{
  ℕ, zero, suc, ◌*◌, ◌%◌, Bool, true, false, List, [], ◌∷◌, ◌++◌, Bytes, text, same, is_empty,
  if◌then◌else◌, length, flatten,
}
use gate_keeper.Json.{
  Read, Reader, done, fail, unfinished, continue, ◌>>=◌, ◌>>◌, pure, throw, string, expect,
  take_char, end, unsigned_number, what,
}
use gate_keeper.Json.Quote.{Error}
use gate_keeper.Storage.Decimal.{u64_mod}
use gate_keeper.Storage.Store.{MemoryStore}
use gate_keeper.Tables.{TableOps}

-- include/gatekeeper/protocol/request.h
pub record Request : Type 0 where
  pub id : Bytes
  pub op : Bytes
  pub body_json : Bytes

-- include/gatekeeper/command/result.h
pub record CommandResult : Type 0 where
  pub ok : Bool
  pub result_json : Bytes
  pub error : Error

abbrev pub succeeded : List Bytes → CommandResult
succeeded parts = record {
  ok = true;
  result_json = flatten parts;
  error = record { code = []; message = [] };
}

abbrev pub failed : Bytes → Bytes → CommandResult
failed code message = record {
  ok = false;
  result_json = [];
  error = record { code = code; message = message };
}

abbrev pub bool_text : Bool → Bytes
bool_text b = if b then text "true" else text "false"

-- a number of seconds as milliseconds
abbrev pub seconds : ℕ → ℕ
seconds n = n * 1000 % u64_mod

-- The loop over the members of a body behind its `{`, on fuel: a round reads two characters at least.
unfoldable pub members_loop {ℓ} : {S : Type ℓ} → ℕ → (Bytes → S → Reader S) → S → Reader S
members_loop zero member state s = unfinished
members_loop (suc fuel) member state s = continue (string s) λ field s1.
    continue (expect b':' s1) λ _ s2. continue (member field state s2) λ state' s3.
      continue (take_char b'}' s3) λ closed s4.
        let more = continue (expect b',' s4) (λ _ s5. members_loop fuel member state' s5) in
        if closed then done state' s4 else more

-- a body with one member at least
unfoldable pub members {ℓ} : {S : Type ℓ} → (Bytes → S → Reader S) → S → Reader S
members member state = do
  expect b'{'
  state' ← (λ s. members_loop (suc (length s)) member state s)
  end
  pure state'

-- a body that may have no members
unfoldable pub optional_members {ℓ} : {S : Type ℓ} → (Bytes → S → Reader S) → S → Reader S
optional_members member state = do
  expect b'{'
  closed ← take_char b'}'
  state' ← (if closed then pure state else λ s. members_loop (suc (length s)) member state s)
  end
  pure state'

-- a body whose one member is `key`, with the message where it has another
unfoldable pub key_only : Bytes → Reader Bytes
key_only message = do
  expect b'{'
  field ← string
  expect b':'
  if same field (text "key") then pure tt else throw message
  key ← string
  expect b'}'
  end
  pure key

-- `throw std::invalid_argument` where a test fails
abbrev pub require : Bool → Bytes → Reader (Unit {0})
require b message = if b then pure tt else throw message

unfoldable pub nonempty_key : Bytes → Reader Bytes
nonempty_key message = do
  key ← key_only message
  if is_empty key then throw (text "key must not be empty") else pure key

module _ ⦃T : TableOps⦄ where
  -- A handler of a body at a time.
  abbrev pub Handler : Type 0
  Handler = Bytes → ℕ → MemoryStore → CommandResult × MemoryStore

  -- what `Validated` makes of the arguments or of the exception
  abbrev pub answer {ℓ} :
      {A : Type ℓ}
      → Read A
      → (A → ℕ → MemoryStore → CommandResult × MemoryStore)
      → ℕ
      → MemoryStore
      → CommandResult × MemoryStore
  answer (done a s) run now m = run a now m
  answer (fail e) run now m = (failed (text "INVALID_ARGUMENTS") (what e), m)
  answer unfinished run now m = (failed (text "UNFINISHED") [], m)

  -- `Validated`: the handler behind its reader of arguments
  unfoldable pub validated {ℓ} :
      {A : Type ℓ} → Reader A → (A → ℕ → MemoryStore → CommandResult × MemoryStore) → Handler
  validated args run body now m = answer (args body) run now m
