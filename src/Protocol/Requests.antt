-- ===== src/Protocol/Requests.antt =====
-- How `Processor::Process` of src/service/processor.cpp reads the arguments of a binary request.
pub mod Fields
pub mod Readback
use gate_keeper.Base.{
  ℕ, ◌+◌, ◌*◌, ◌^◌, ◌%◌, ◌-◌, ℤ, Bool, true, false, ◌&&◌, ◌||◌, List, [], ◌∷◌, Bytes, ltb, leb,
  ◌==◌, if◌then◌else◌, length, take, drop,
}
use gate_keeper.Protocol.Codec.{
  Request, ping, set, get, del, exists, type_of, expire, ttl, incr_by, rate_limit, quota_init,
  quota_get, reserve, commit, rollback, idem_begin, idem_complete, idem_fail, SetCondition, always,
  if_absent, if_present,
}
use gate_keeper.Protocol.Decoder.{byte_at, of_be16, of_be32, of_be64}
use gate_keeper.Storage.Ttl.{to_int64}

-- The error reply, a request, or a read behind the end of the payload.
pub data Parsed : Type 0 where
  bad : Parsed
  good : (request : Request) → Parsed
  out_of_bounds : Parsed

-- A byte string behind its 16-bit length, with at least `extra` bytes behind it. Where a length is not
-- the first, the test before it has made sure of its two bytes.
unfoldable pub with_field : ℕ → Bytes → (Bytes → Bytes → Parsed) → Parsed
with_field extra p k =
    if ltb (length p) 2
    then bad
    else let n = of_be16 p 0 in
      let q = drop 2 p in if ltb (length q) (n + extra) then bad else k (take n q) (drop n q)

abbrev pub condition_of : ℕ → SetCondition
condition_of b = if b == 1 then if_absent else if b == 2 then if_present else always

-- `val_len + 8 + 1` is a `std::uint32_t`
unfoldable pub parse_set : Bytes → Bytes → Parsed
parse_set key p =
    let val_len = of_be32 p 0 in
    let q = drop 4 p in
    if ltb (length q) ((val_len + 9) % 2 ^ 32)
    then bad
    else if ltb (length q) (val_len + 9)
    then out_of_bounds
    else (let r = drop val_len q in
        good (set key (take val_len q) (condition_of (byte_at r 8)) (of_be64 r 0)))

-- the owner token of `IdemBegin`, which is empty if its bytes are not all there
abbrev pub optional_token : Bytes → Bytes
optional_token p =
    let n = of_be16 p 0 in let q = drop 2 p in if ltb 0 n && leb n (length q) then take n q else []

abbrev pub optional_message : Bytes → Bytes
optional_message p =
    if leb 2 (length p) && leb (2 + of_be16 p 0) (length p)
    then take (of_be16 p 0) (drop 2 p)
    else []

unfoldable pub parse_complete : Bytes → Bytes → Bytes → Parsed
parse_complete key token p =
    let code = of_be16 p 0 in
    let n = of_be32 p 2 in
    let q = drop 6 p in
    if ltb (length q) n then bad else good (idem_complete key token code (take n q))

-- the cases of the `switch`, behind the opcode
unfoldable pub parse_args : ℕ → Bytes → Parsed
parse_args opcode p =
    if opcode == 1
    then good ping
    else if opcode == 17
    then with_field 0 p (λ key r. good (get key))
    else if opcode == 16
    then with_field 4 p (λ key r. parse_set key r)
    else if opcode == 18
    then with_field 0 p (λ key r. good (del key))
    else if opcode == 19
    then with_field 0 p (λ key r. good (exists key))
    else if opcode == 20
    then with_field 0 p (λ key r. good (type_of key))
    else if opcode == 21
    then (if ltb (length p) 10
        then bad
        else with_field 8 p (λ key r. good (expire key (of_be64 r 0))))
    else if opcode == 22
    then with_field 0 p (λ key r. good (ttl key))
    else if opcode == 32
    then with_field 16 p (λ key r. good (incr_by key (to_int64 (of_be64 r 0)) (of_be64 r 8)))
    else if opcode == 256
    then with_field 20 p (λ key r. good (rate_limit key (of_be64 r 0) (of_be64 r 8) (of_be32 r 16)))
    else if opcode == 272
    then (if ltb (length p) 10
        then bad
        else with_field 8 p (λ key r. good (quota_init key (of_be64 r 0))))
    else if opcode == 273
    then with_field 0 p (λ key r. good (quota_get key))
    else if opcode == 257
    then with_field 16 p (λ key r. good (reserve key (of_be64 r 0) (of_be64 r 8)))
    else if opcode == 258
    then with_field 2 p (λ key r. with_field 8 r (λ id q. good (commit key id (of_be64 q 0))))
    else if opcode == 259
    then with_field 2 p (λ key r. with_field 0 r (λ id q. good (rollback key id)))
    else if opcode == 288
    then with_field 2 p (λ key r.
      with_field 10 r
        (λ hash q. good (idem_begin key hash (of_be64 q 0) (optional_token (drop 8 q)))))
    else if opcode == 289
    then with_field 2 p (λ key r. with_field 6 r (λ token q. parse_complete key token q))
    else if opcode == 290
    then with_field 2 p
        (λ key r. with_field 0 r (λ token q. good (idem_fail key token (optional_message q))))
    else bad

unfoldable pub parse_request : Bytes → Parsed
parse_request b = if ltb (length b) 2 then bad else parse_args (of_be16 b 0) (drop 2 b)
