-- ===== src/Protocol/Requests/Readback.antt =====
-- The encoders of binary_codec.h and the argument reading of `Processor::Process`, together.
use gate_keeper.Base.{
  ℕ, ◌-◌, ◌^◌, ◌<◌, ◌≡◌, refl, ◌∙◌, ap, Bool, false, [], ◌∷◌, ◌++◌, Bytes, arith, ltb,
  if◌then◌else◌, length, drop, length-append,
}
use gate_keeper.Protocol.Codec.{
  Request, ping, set, get, del, exists, type_of, expire, ttl, incr_by, rate_limit, quota_init,
  quota_get, reserve, commit, rollback, idem_begin, idem_complete, idem_fail, condition_code,
  to_uint64, field16, encode,
}
use gate_keeper.Protocol.Decoder.{of_be32, of_be64}
use gate_keeper.Protocol.Frame.{be16, be32, be64}
use gate_keeper.Protocol.Requests.{
  good, with_field, parse_set, optional_token, optional_message, parse_complete, parse_args,
  parse_request,
}
use gate_keeper.Storage.Decimal.RoundTrip.{IsInt64}
use gate_keeper.Storage.Ttl.{to_int64}
use gate_keeper.Protocol.Requests.Fields.{
  with_field-field16, of_be64-be64, of_be32-be32, int64_back, uint64_small, parse_request-be16,
  parse_set-be64, parse_complete-be32, optional_token-field16, optional_message-field16,
}

-- What a request can be, for 16-bit lengths of its fields and the widths of its numbers.
abbrev pub IsRequest : Request → Type 0
IsRequest ping = Unit
IsRequest (set key value condition ttl_ms) =
    (length key < 2 ^ 16) × (length value < 2 ^ 32 - 9) × (ttl_ms < 2 ^ 64)
IsRequest (get key) = length key < 2 ^ 16
IsRequest (del key) = length key < 2 ^ 16
IsRequest (exists key) = length key < 2 ^ 16
IsRequest (type_of key) = length key < 2 ^ 16
IsRequest (expire key ttl_ms) = (length key < 2 ^ 16) × (ttl_ms < 2 ^ 64)
IsRequest (ttl key) = length key < 2 ^ 16
IsRequest (incr_by key delta init_ttl_ms) =
    (length key < 2 ^ 16) × IsInt64 delta × (init_ttl_ms < 2 ^ 64)
IsRequest (rate_limit key limit window_ms cost) =
    (length key < 2 ^ 16) × (limit < 2 ^ 64) × (window_ms < 2 ^ 64) × (cost < 2 ^ 32)
IsRequest (quota_init key amount) = (length key < 2 ^ 16) × (amount < 2 ^ 64)
IsRequest (quota_get key) = length key < 2 ^ 16
IsRequest (reserve key amount ttl_ms) =
    (length key < 2 ^ 16) × (amount < 2 ^ 64) × (ttl_ms < 2 ^ 64)
IsRequest (commit key res_id actual_amount) =
    (length key < 2 ^ 16) × (length res_id < 2 ^ 16) × (actual_amount < 2 ^ 64)
IsRequest (rollback key res_id) = (length key < 2 ^ 16) × (length res_id < 2 ^ 16)
IsRequest (idem_begin key request_hash ttl_ms owner_token) =
    (length key < 2 ^ 16)
    × (length request_hash < 2 ^ 16)
    × (ttl_ms < 2 ^ 64)
    × (length owner_token < 2 ^ 16)
IsRequest (idem_complete key owner_token response_code response_body) =
    (length key < 2 ^ 16)
    × (length owner_token < 2 ^ 16)
    × (response_code < 2 ^ 16)
    × (length response_body < 2 ^ 32)
IsRequest (idem_fail key owner_token error_message) =
    (length key < 2 ^ 16) × (length owner_token < 2 ^ 16) × (length error_message < 2 ^ 16)

enough_bytes : (key : Bytes) (n : ℕ) → ltb (length (field16 key (be64 n))) 10 ≡ false
enough_bytes key n = ground (arith, length-append key (be64 n))

if_false {ℓ} : {A : Type ℓ} (x y : A) (b : Bool) → b ≡ false → (if b then x else y) ≡ y
if_false x y b h = rw h refl

-- `Processor::Process` reads from the bytes of each of the encoders exactly the arguments that the
-- encoder was given, where each byte string fits in its length field, the value of `Set` leaves room
-- for the 9 bytes behind it in 32-bit arithmetic, and each number fits in its type.
pub parse_request-encode : (r : Request) → IsRequest r → parse_request (encode r) ≡ good r
unfolding parse_args encode
parse_request-encode ping h = parse_request-be16 1 [] (omega arith)
parse_request-encode (set key value condition ttl_ms) h =
    let rest = be32 (length value) ++ value ++ (be64 ttl_ms ++ condition_code condition ∷ []) in
    parse_request-be16 16 (field16 key rest) (omega arith)
    ∙ with_field-field16 4 key rest (λ k r. parse_set k r) h.0 (omega arith)
    ∙ parse_set-be64 key value condition ttl_ms h.1 h.2
parse_request-encode (get key) h =
    parse_request-be16 17 (field16 key []) (omega arith)
    ∙ with_field-field16 0 key [] (λ k r. good (get k)) h (omega arith)
parse_request-encode (del key) h =
    parse_request-be16 18 (field16 key []) (omega arith)
    ∙ with_field-field16 0 key [] (λ k r. good (del k)) h (omega arith)
parse_request-encode (exists key) h =
    parse_request-be16 19 (field16 key []) (omega arith)
    ∙ with_field-field16 0 key [] (λ k r. good (exists k)) h (omega arith)
parse_request-encode (type_of key) h =
    parse_request-be16 20 (field16 key []) (omega arith)
    ∙ with_field-field16 0 key [] (λ k r. good (type_of k)) h (omega arith)
parse_request-encode (expire key ttl_ms) h =
    parse_request-be16 21 (field16 key (be64 ttl_ms)) (omega arith)
    ∙ if_false _ _ (ltb (length (field16 key (be64 ttl_ms))) 10) (enough_bytes key ttl_ms)
    ∙ with_field-field16 8 key (be64 ttl_ms) (λ k r. good (expire k (of_be64 r 0))) h.0
        (omega arith)
    ∙ ap (λ n. good (expire key n)) (of_be64-be64 ttl_ms [] h.1)
parse_request-encode (ttl key) h =
    parse_request-be16 22 (field16 key []) (omega arith)
    ∙ with_field-field16 0 key [] (λ k r. good (ttl k)) h (omega arith)
parse_request-encode (incr_by key delta init_ttl_ms) h =
    let rest = be64 (to_uint64 delta) ++ be64 init_ttl_ms in
    parse_request-be16 32 (field16 key rest) (omega arith)
    ∙ with_field-field16 16 key rest
        (λ k r. good (incr_by k (to_int64 (of_be64 r 0)) (of_be64 r 8))) h.0 (omega arith)
    ∙ rw
        (
          of_be64-be64 (to_uint64 delta) (be64 init_ttl_ms) (uint64_small delta h.1),
          of_be64-be64 init_ttl_ms [] h.2,
          int64_back delta h.1,
        )
        refl
parse_request-encode (rate_limit key limit window_ms cost) h =
    let rest = be64 limit ++ be64 window_ms ++ be32 cost in
    parse_request-be16 256 (field16 key rest) (omega arith)
    ∙ with_field-field16 20 key rest
        (λ k r. good (rate_limit k (of_be64 r 0) (of_be64 r 8) (of_be32 r 16))) h.0 (omega arith)
    ∙ rw
        (
          of_be64-be64 limit (be64 window_ms ++ be32 cost) h.1,
          of_be64-be64 window_ms (be32 cost) h.2,
          of_be32-be32 cost [] h.3,
        )
        refl
parse_request-encode (quota_init key amount) h =
    parse_request-be16 272 (field16 key (be64 amount)) (omega arith)
    ∙ if_false _ _ (ltb (length (field16 key (be64 amount))) 10) (enough_bytes key amount)
    ∙ with_field-field16 8 key (be64 amount) (λ k r. good (quota_init k (of_be64 r 0))) h.0
        (omega arith)
    ∙ ap (λ n. good (quota_init key n)) (of_be64-be64 amount [] h.1)
parse_request-encode (quota_get key) h =
    parse_request-be16 273 (field16 key []) (omega arith)
    ∙ with_field-field16 0 key [] (λ k r. good (quota_get k)) h (omega arith)
parse_request-encode (reserve key amount ttl_ms) h =
    let rest = be64 amount ++ be64 ttl_ms in
    parse_request-be16 257 (field16 key rest) (omega arith)
    ∙ with_field-field16 16 key rest (λ k r. good (reserve k (of_be64 r 0) (of_be64 r 8))) h.0
        (omega arith)
    ∙ rw (of_be64-be64 amount (be64 ttl_ms) h.1, of_be64-be64 ttl_ms [] h.2) refl
parse_request-encode (commit key res_id actual_amount) h =
    let rest = field16 res_id (be64 actual_amount) in
    parse_request-be16 258 (field16 key rest) (omega arith)
    ∙ with_field-field16 2 key rest
        (λ k r. with_field 8 r (λ id q. good (commit k id (of_be64 q 0)))) h.0 (omega arith)
    ∙ with_field-field16 8 res_id (be64 actual_amount) (λ id q. good (commit key id (of_be64 q 0)))
        h.1 (omega arith)
    ∙ ap (λ n. good (commit key res_id n)) (of_be64-be64 actual_amount [] h.2)
parse_request-encode (rollback key res_id) h =
    let rest = field16 res_id [] in
    parse_request-be16 259 (field16 key rest) (omega arith)
    ∙ with_field-field16 2 key rest (λ k r. with_field 0 r (λ id q. good (rollback k id))) h.0
        (omega arith)
    ∙ with_field-field16 0 res_id [] (λ id q. good (rollback key id)) h.1 (omega arith)
parse_request-encode (idem_begin key request_hash ttl_ms owner_token) h =
    let body = be64 ttl_ms ++ field16 owner_token [] in
    let rest = field16 request_hash body in
    parse_request-be16 288 (field16 key rest) (omega arith)
    ∙ with_field-field16 2 key rest
        (λ k r.
          with_field 10 r
            (λ hash q. good (idem_begin k hash (of_be64 q 0) (optional_token (drop 8 q)))))
        h.0 (omega arith)
    ∙ with_field-field16 10 request_hash body
        (λ hash q. good (idem_begin key hash (of_be64 q 0) (optional_token (drop 8 q)))) h.1
        (omega arith)
    ∙ rw (of_be64-be64 ttl_ms (field16 owner_token []) h.2, optional_token-field16 owner_token h.3)
        refl
parse_request-encode (idem_complete key owner_token response_code response_body) h =
    let body = be16 response_code ++ be32 (length response_body) ++ response_body in
    let rest = field16 owner_token body in
    parse_request-be16 289 (field16 key rest) (omega arith)
    ∙ with_field-field16 2 key rest (λ k r. with_field 6 r (λ token q. parse_complete k token q))
        h.0 (omega arith)
    ∙ with_field-field16 6 owner_token body (λ token q. parse_complete key token q) h.1
        (omega arith)
    ∙ parse_complete-be32 key owner_token response_code response_body h.2 h.3
parse_request-encode (idem_fail key owner_token error_message) h =
    let rest = field16 owner_token (field16 error_message []) in
    parse_request-be16 290 (field16 key rest) (omega arith)
    ∙ with_field-field16 2 key rest
        (λ k r. with_field 0 r (λ token q. good (idem_fail k token (optional_message q)))) h.0
        (omega arith)
    ∙ with_field-field16 0 owner_token (field16 error_message [])
        (λ token q. good (idem_fail key token (optional_message q))) h.1 (omega arith)
    ∙ ap (λ m. good (idem_fail key owner_token m)) (optional_message-field16 error_message h.2)
