-- ===== src/Protocol/Codec.antt =====
-- include/gatekeeper/protocol/gkwp2/binary_codec.h: how clients encode binary requests.
use gate_keeper.Base.{ℕ, ◌-◌, ◌^◌, ℤ, pos, negsuc, [], ◌∷◌, ◌++◌, Bytes, length}
use gate_keeper.Protocol.Frame.{be16, be32, be64}

pub data SetCondition : Type 0 where
  always if_absent if_present : SetCondition

abbrev pub condition_code : SetCondition → ℕ
condition_code always = 0
condition_code if_absent = 1
condition_code if_present = 2

-- What a client asks for.
pub data Request : Type 0 where
  ping : Request
  set : (key value : Bytes) (condition : SetCondition) (ttl_ms : ℕ) → Request
  get : (key : Bytes) → Request
  del : (key : Bytes) → Request
  exists : (key : Bytes) → Request
  type_of : (key : Bytes) → Request
  expire : (key : Bytes) (ttl_ms : ℕ) → Request
  ttl : (key : Bytes) → Request
  incr_by : (key : Bytes) (delta : ℤ) (init_ttl_ms : ℕ) → Request
  rate_limit : (key : Bytes) (limit window_ms cost : ℕ) → Request
  quota_init : (key : Bytes) (amount : ℕ) → Request
  quota_get : (key : Bytes) → Request
  reserve : (key : Bytes) (amount ttl_ms : ℕ) → Request
  commit : (key res_id : Bytes) (actual_amount : ℕ) → Request
  rollback : (key res_id : Bytes) → Request
  idem_begin : (key request_hash : Bytes) (ttl_ms : ℕ) (owner_token : Bytes) → Request
  idem_complete : (key owner_token : Bytes) (response_code : ℕ) (response_body : Bytes) → Request
  idem_fail : (key owner_token error_message : Bytes) → Request

-- `static_cast<std::uint64_t>` of a signed value
abbrev pub to_uint64 : ℤ → ℕ
to_uint64 (pos n) = n
to_uint64 (negsuc n) = 2 ^ 64 - 1 - n

-- a byte string behind its 16-bit length
abbrev pub field16 : Bytes → Bytes → Bytes
field16 s rest = be16 (length s) ++ s ++ rest

-- The 18 encoders, one for each kind of request. `EncodeIncrBy` writes the opcode `Incr`.
unfoldable pub encode : Request → Bytes
encode ping = be16 1
encode (set key value condition ttl_ms) =
    be16 16
    ++ field16 key (be32 (length value) ++ value ++ (be64 ttl_ms ++ condition_code condition ∷ []))
encode (get key) = be16 17 ++ field16 key []
encode (del key) = be16 18 ++ field16 key []
encode (exists key) = be16 19 ++ field16 key []
encode (type_of key) = be16 20 ++ field16 key []
encode (expire key ttl_ms) = be16 21 ++ field16 key (be64 ttl_ms)
encode (ttl key) = be16 22 ++ field16 key []
encode (incr_by key delta init_ttl_ms) =
    be16 32 ++ field16 key (be64 (to_uint64 delta) ++ be64 init_ttl_ms)
encode (rate_limit key limit window_ms cost) =
    be16 256 ++ field16 key (be64 limit ++ be64 window_ms ++ be32 cost)
encode (quota_init key amount) = be16 272 ++ field16 key (be64 amount)
encode (quota_get key) = be16 273 ++ field16 key []
encode (reserve key amount ttl_ms) = be16 257 ++ field16 key (be64 amount ++ be64 ttl_ms)
encode (commit key res_id actual_amount) =
    be16 258 ++ field16 key (field16 res_id (be64 actual_amount))
encode (rollback key res_id) = be16 259 ++ field16 key (field16 res_id [])
encode (idem_begin key request_hash ttl_ms owner_token) =
    be16 288 ++ field16 key (field16 request_hash (be64 ttl_ms ++ field16 owner_token []))
encode (idem_complete key owner_token response_code response_body) =
    be16 289
    ++ field16 key
        (field16 owner_token (be16 response_code ++ be32 (length response_body) ++ response_body))
encode (idem_fail key owner_token error_message) =
    be16 290 ++ field16 key (field16 owner_token (field16 error_message []))
