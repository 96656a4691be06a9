-- ===== src/Service/Replies.antt =====
-- The statuses and values of the replies of src/service/processor.cpp, and its records for the
-- append-only file.
use gate_keeper.Base.{
  ℕ, ltb, Bool, true, false, Option, none, some, List, [], ◌∷◌, ◌++◌, Bytes, text, flatten,
  if◌then◌else◌, length,
}
use gate_keeper.Commands.Dispatcher.{LogRecord}
use gate_keeper.Json.Quote.{quote_json}
use gate_keeper.Protocol.Codec.{
  Request, ping, set, get, del, exists, type_of, expire, ttl, incr_by, rate_limit, quota_init,
  quota_get, reserve, commit, rollback, idem_begin, idem_complete, idem_fail, SetCondition,
  to_uint64,
}
use gate_keeper.Protocol.Codec
use gate_keeper.Protocol.Frame.{be32}
use gate_keeper.Storage.Decimal.{to_string, stoull}
use gate_keeper.Storage.Entry.{
  DataType, none_type, string_type, WriteCondition, always, if_absent, if_present,
  IdempotencyAction, execute, park, replay, conflict,
}

pub data BinaryStatus : Type 0 where
  ok error not_found denied conflicting : BinaryStatus

abbrev pub status_code : BinaryStatus → ℕ
status_code ok = 0
status_code error = 1
status_code not_found = 2
status_code denied = 3
status_code conflicting = 4

abbrev pub status : BinaryStatus → Bytes
status s = status_code s ∷ []

abbrev pub bit : Bool → ℕ
bit b = if b then 1 else 0

-- `Append`, if there is a writer
abbrev pub append_if : Bool → Bytes → Bytes → List LogRecord
append_if b op body = if b then (op, body) ∷ [] else []

abbrev pub write_condition : SetCondition → WriteCondition
write_condition Codec.always = always
write_condition Codec.if_absent = if_absent
write_condition Codec.if_present = if_present

abbrev pub value_reply : Option Bytes → Bytes
value_reply none = status not_found
value_reply (some v) = status_code ok ∷ (be32 (length v) ++ v)

abbrev pub ttl_part : ℕ → List Bytes
ttl_part ttl_ms = if ltb 0 ttl_ms then text ",\"ttl_ms\":" ∷ to_string ttl_ms ∷ [] else []

abbrev pub condition_part : SetCondition → List Bytes
condition_part Codec.always = []
condition_part Codec.if_absent = text ",\"if_not_exists\":true" ∷ []
condition_part Codec.if_present = text ",\"if_exists\":true" ∷ []

unfoldable pub set_record : Bytes → Bytes → SetCondition → ℕ → Bytes
unfolding quote_json to_string
set_record key value condition ttl_ms = flatten (
    (text "{\"key\":" ∷ quote_json key ∷ text ",\"value\":" ∷ quote_json value ∷ [])
    ++ (ttl_part ttl_ms ++ (condition_part condition ++ (text "}" ∷ []))))

unfoldable pub key_record : Bytes → List Bytes → Bytes
unfolding quote_json
key_record key parts = flatten (text "{\"key\":" ∷ quote_json key ∷ parts)

abbrev pub type_text : DataType → Bytes
type_text none_type = text "none"
type_text string_type = text "string"

-- `std::stoull` with its exceptions caught
abbrev pub balance_of : Option Bytes → ℕ
balance_of none = 0
balance_of (some v) = elim (stoull v) [ none ↦ 0 | some (n, _) ↦ n ]

abbrev pub action_byte : IdempotencyAction → ℕ
action_byte execute = 0
action_byte park = 1
action_byte replay = 2
action_byte conflict = 3

abbrev pub is_execute : IdempotencyAction → Bool
is_execute execute = true
is_execute _ = false

abbrev pub is_conflict : IdempotencyAction → Bool
is_conflict conflict = true
is_conflict _ = false
