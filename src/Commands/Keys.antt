-- ===== src/Commands/Keys.antt =====
-- src/domain/kv/key_ops.cpp: `DEL`, `EXISTS`, `TYPE`, `DBSIZE`, `KEYS`, `SCAN`.
use gate_keeper.Base.{ℕ, ◌+◌, List, [], ◌∷◌, ◌++◌, Bytes, text, same, if◌then◌else◌}
use gate_keeper.Commands.{succeeded, Handler, validated, optional_members, key_only, require}
use gate_keeper.Json.{
  Reader, ◌>>=◌, ◌>>◌, pure, throw, string, string_array, unsigned_number, expect, take_char, end,
}
use gate_keeper.Json.Quote.{quote_json}
use gate_keeper.Storage.Decimal.{to_string}
use gate_keeper.Storage.Entry.{DataType, none_type, string_type}
use gate_keeper.Storage.Store
use gate_keeper.Storage.Store.{MemoryStore}
use gate_keeper.Storage.Sweeps
use gate_keeper.Tables.{TableOps}

-- a member of the body of `Del` and `Exists`
unfoldable pub keys_member : Bytes → List Bytes → Reader (List Bytes)
unfolding string string_array
keys_member field keys =
    if same field (text "key")
    then (string >>= λ key. pure (keys ++ key ∷ []))
    else if same field (text "keys")
    then (string_array >>= λ arr. pure (keys ++ arr))
    else throw (text "unsupported field: " ++ field)

unfoldable pub keys_args : Reader (List Bytes)
unfolding keys_member optional_members
keys_args = optional_members keys_member []

-- `KEYS` takes one member at most
unfoldable pub pattern_args : Reader Bytes
unfolding expect take_char string end
pattern_args = do
  expect b'{'
  closed ← take_char b'}'
  pattern ←
      (if closed then pure (text "*") else do
        field ← string
        expect b':'
        require (same field (text "pattern")) (text "KEYS supports pattern field")
        pattern ← string
        expect b'}'
        pure pattern)
  end
  pure pattern

-- the cursor and the count of `Scan`
unfoldable pub scan_member : Bytes → ℕ × ℕ → Reader (ℕ × ℕ)
unfolding unsigned_number
scan_member field (cursor, count) =
    if same field (text "cursor")
    then (unsigned_number >>= λ n. pure (n, count))
    else if same field (text "count")
    then (unsigned_number >>= λ n. pure (cursor, n))
    else throw (text "unsupported SCAN field: " ++ field)

unfoldable pub scan_args : Reader (ℕ × ℕ)
unfolding scan_member optional_members
scan_args = optional_members scan_member (0, 10)

unfoldable pub no_args : Reader (Unit {0})
unfolding expect end
no_args = do expect b'{'; expect b'}'; end

-- the keys between commas
unfoldable pub quoted_keys : List Bytes → Bytes
unfolding quote_json
quoted_keys [] = []
quoted_keys (k ∷ []) = quote_json k
quoted_keys (k ∷ q ∷ ks) = quote_json k ++ (b',' ∷ quoted_keys (q ∷ ks))

abbrev type_text : DataType → Bytes
type_text none_type = text "none"
type_text string_type = text "string"

module _ ⦃T : TableOps⦄ where
  -- the loops of `Del` and of `Exists` over the keys, with their counts
  unfoldable pub del_all : List Bytes → ℕ → MemoryStore → ℕ × MemoryStore
  del_all [] deleted m = (deleted, m)
  del_all (key ∷ keys) deleted m =
      let (found, m') = Store.del key m in del_all keys (if found then deleted + 1 else deleted) m'

  unfoldable pub del : Handler
  unfolding validated
  del = validated keys_args λ keys now m.
      let (deleted, m') = del_all keys 0 m in
      (succeeded (text "{\"deleted\":" ∷ to_string deleted ∷ text "}" ∷ []), m')

  unfoldable pub exists_all : List Bytes → ℕ → ℕ → MemoryStore → ℕ × MemoryStore
  exists_all [] count now m = (count, m)
  exists_all (key ∷ keys) count now m =
      let (found, m') = Store.exists key now m in
      exists_all keys (if found then count + 1 else count) now m'

  unfoldable pub exists : Handler
  unfolding validated
  exists = validated keys_args λ keys now m.
      let (count, m') = exists_all keys 0 now m in
      (succeeded (text "{\"count\":" ∷ to_string count ∷ text "}" ∷ []), m')

  unfoldable pub type_of : Handler
  unfolding validated
  type_of = validated (key_only (text "TYPE requires key field")) λ key now m.
      let (type, m') = Store.type_of key now m in
      (succeeded (text "{\"type\":\"" ∷ type_text type ∷ text "\"}" ∷ []), m')

  unfoldable pub db_size : Handler
  unfolding validated
  db_size = validated no_args λ _ now m.
      (succeeded (text "{\"size\":" ∷ to_string (Sweeps.db_size now m) ∷ text "}" ∷ []), m)

  unfoldable pub keys : Handler
  unfolding validated
  keys = validated pattern_args λ pattern now m.
      (succeeded (text "{\"keys\":[" ∷ quoted_keys (Sweeps.keys pattern now m) ∷ text "]}" ∷ []), m)

  unfoldable pub scan : Handler
  unfolding validated
  scan = validated scan_args λ (cursor, count) now m.
      let (next_cursor, found) = Sweeps.scan cursor count now m in
      (
        succeeded (
            text "{\"cursor\":"
            ∷ to_string next_cursor
            ∷ text ",\"keys\":["
            ∷ quoted_keys found
            ∷ text "]}"
            ∷ []),
        m,
      )
