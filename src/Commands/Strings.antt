-- ===== src/Commands/Strings.antt =====
-- src/domain/kv/string_ops.cpp: `SET` and `GET`.
use gate_keeper.Base.{
  ℕ, Bool, false, ◌&&◌, ◌||◌, not, Option, none, some, [], ◌∷◌, ◌++◌, Bytes, text, same, is_empty,
  ◌==◌, if◌then◌else◌, length,
}
use gate_keeper.Commands.{CommandResult, succeeded, failed, Handler, validated, require}
use gate_keeper.Commands.StringBody.{
  BodyValue, string_value, flag, number, StringBody, parse_string_body,
}
use gate_keeper.Json.{Reader, ◌>>=◌, ◌>>◌, pure, throw}
use gate_keeper.Json.Quote.{quote_json}
use gate_keeper.Maps.{lookup}
use gate_keeper.Storage.Entry.{WriteCondition, always, if_absent, if_present}
use gate_keeper.Storage.Store
use gate_keeper.Storage.Store.{MemoryStore}
use gate_keeper.Tables.{TableOps}

abbrev as_string : Bytes → Option BodyValue → Reader Bytes
as_string field (some (string_value s)) = pure s
as_string field _ = throw (field ++ text " must be a string")

unfoldable pub required_string : StringBody → Bytes → Reader Bytes
unfolding lookup
required_string body field = as_string field (lookup same field body)

abbrev as_flag : Bytes → Option BodyValue → Reader Bool
as_flag field none = pure false
as_flag field (some (flag b)) = pure b
as_flag field (some v) = throw (field ++ text " must be a boolean")

unfoldable pub flag_of : StringBody → Bytes → Reader Bool
unfolding lookup
flag_of body field = as_flag field (lookup same field body)

abbrev as_ttl : BodyValue → Reader ℕ
as_ttl (number n) = if n == 0 then throw (text "ttl_ms must be greater than zero") else pure n
as_ttl v = throw (text "ttl_ms must be an unsigned integer")

abbrev is_set_field : Bytes → Bool
is_set_field name =
    same name (text "key")
    || same name (text "value")
    || same name (text "if_exists")
    || same name (text "if_not_exists")

-- the loop of `Set` over the members
unfoldable pub ttl_of : StringBody → ℕ → Reader ℕ
ttl_of [] ttl_ms = pure ttl_ms
ttl_of ((name, value) ∷ body) ttl_ms =
    let rest = ttl_of body ttl_ms in
    let with_ttl = as_ttl value >>= λ n. ttl_of body n in
    if is_set_field name
    then rest
    else if same name (text "ttl_ms")
    then with_ttl
    else throw (text "unsupported SET field: " ++ name)

abbrev pub condition_of : Bool → Bool → WriteCondition
condition_of nx xx = if nx then if_absent else if xx then if_present else always

-- `Set` behind its reader
unfoldable pub set_from : StringBody → Reader (Bytes × Bytes × WriteCondition × ℕ)
unfolding ttl_of required_string flag_of
set_from body = do
  ttl_ms ← ttl_of body 0
  key ← required_string body (text "key")
  value ← required_string body (text "value")
  require (not (is_empty key)) (text "key must not be empty")
  nx ← flag_of body (text "if_not_exists")
  xx ← flag_of body (text "if_exists")
  require (not (nx && xx)) (text "SET conditions conflict")
  pure (key, value, condition_of nx xx, ttl_ms)

unfoldable pub set_args : Reader (Bytes × Bytes × WriteCondition × ℕ)
unfolding set_from
set_args = parse_string_body >>= set_from

unfoldable pub get_args : Reader Bytes
unfolding required_string parse_string_body
get_args = do
  body ← parse_string_body
  key ← required_string body (text "key")
  require (length body == 1 && not (is_empty key)) (text "GET requires only a non-empty key")
  pure key

abbrev pub stored_reply : Bool → CommandResult
stored_reply stored =
    succeeded ((if stored then text "{\"stored\":true}" else text "{\"stored\":false}") ∷ [])

module _ ⦃T : TableOps⦄ where
  unfoldable pub set : Handler
  unfolding validated
  set = validated set_args λ (key, value, condition, ttl_ms) now m.
      let (stored, m') = Store.set key value condition ttl_ms now m in (stored_reply stored, m')

  abbrev pub shown_value : Option Bytes → CommandResult
  shown_value none = failed (text "KEY_NOT_FOUND") (text "key does not exist")
  shown_value (some v) = succeeded (text "{\"value\":" ∷ quote_json v ∷ text "}" ∷ [])

  unfoldable pub get : Handler
  unfolding validated
  get =
      validated get_args
        λ key now m. let (value, m') = Store.get key now m in (shown_value value, m')
