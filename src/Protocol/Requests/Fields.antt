-- ===== src/Protocol/Requests/Fields.antt =====
-- Single fields of the encoders of binary_codec.h and of the argument reading of processor.cpp.
use gate_keeper.Base.{
  ℕ, ◌+◌, ◌-◌, ◌*◌, ◌/◌, ◌%◌, ◌^◌, ◌≤◌, ◌<◌, ◌≡◌, refl, ◌∙◌, ℤ, pos, negsuc, true, false, [], ◌∷◌,
  ◌++◌, Bytes, arith, ltb, leb, length, take, drop, length-append, take-append, take-length,
}
use gate_keeper.Protocol.Codec.{
  set, idem_complete, SetCondition, always, if_absent, if_present, condition_code, to_uint64,
  field16,
}
use gate_keeper.Protocol.Decoder.{byte_at, of_be32, of_be64}
use gate_keeper.Protocol.Frame.{be16, be32, be64}
use gate_keeper.Protocol.Requests.{
  Parsed, good, with_field, condition_of, parse_set, optional_token, optional_message,
  parse_complete, parse_args, parse_request,
}
use gate_keeper.Storage.Decimal.RoundTrip.{IsInt64}
use gate_keeper.Storage.Ttl.{to_int64}

drop-length : (a b : Bytes) → drop (length a) (a ++ b) ≡ b
drop-length [] b = refl
drop-length (x ∷ a) b = drop-length a b

take-length_append : (a b : Bytes) → take (length a) (a ++ b) ≡ a
take-length_append a b = take-append (length a) a b (omega arith) ∙ take-length a

-- A field is read back, with what stands behind it.
pub with_field-field16 :
    (extra : ℕ) (s rest : Bytes) (k : Bytes → Bytes → Parsed)
    → length s < 2 ^ 16
    → extra ≤ length rest
    → with_field extra (field16 s rest) k ≡ k s rest
unfolding with_field
with_field-field16 extra s rest k small enough =
    let size : length s / 256 % 256 * 256 + length s % 256 ≡ length s = omega arith in
    let long : ltb (length (field16 s rest)) 2 ≡ false = ground arith in
    let fits : ltb (length (s ++ rest)) (length s + extra) ≡ false =
      ground (arith, length-append s rest) in
    rw (long, size, fits, take-length_append s rest, drop-length s rest) refl

pub of_be64-be64 : (n : ℕ) (rest : Bytes) → n < 2 ^ 64 → of_be64 (be64 n ++ rest) 0 ≡ n
of_be64-be64 n rest h = omega arith

pub of_be32-be32 : (n : ℕ) (rest : Bytes) → n < 2 ^ 32 → of_be32 (be32 n ++ rest) 0 ≡ n
of_be32-be32 n rest h = omega arith

pub int64_back : (a : ℤ) → IsInt64 a → to_int64 (to_uint64 a) ≡ a
int64_back (pos n) h = ground arith
int64_back (negsuc n) h =
    let big : ltb (2 ^ 64 - 1 - n) (2 ^ 63) ≡ false = ground arith in
    let back : 2 ^ 64 - (2 ^ 64 - 1 - n) - 1 ≡ n = omega arith in rw (big, back) refl

pub uint64_small : (a : ℤ) → IsInt64 a → to_uint64 a < 2 ^ 64
uint64_small (pos n) h = omega arith
uint64_small (negsuc n) h = omega arith

pub parse_request-be16 :
    (n : ℕ) (rest : Bytes) → n < 2 ^ 16 → parse_request (be16 n ++ rest) ≡ parse_args n rest
unfolding parse_request
parse_request-be16 n rest h =
    let long : ltb (length (be16 n ++ rest)) 2 ≡ false = ground arith in
    let code : n / 256 % 256 * 256 + n % 256 ≡ n = omega arith in rw (long, code) refl

condition_back : (c : SetCondition) → condition_of (condition_code c) ≡ c
condition_back always = refl
condition_back if_absent = refl
condition_back if_present = refl

parse_set-be32 :
    (key value tail : Bytes)
    → length value < 2 ^ 32 - 9
    → 9 ≤ length tail
    → parse_set key (be32 (length value) ++ value ++ tail)
      ≡ good (set key value (condition_of (byte_at tail 8)) (of_be64 tail 0))
unfolding parse_set
parse_set-be32 key value tail small long =
    let size = of_be32-be32 (length value) (value ++ tail) (omega arith) in
    let enough : ltb (length (value ++ tail)) ((length value + 9) % 2 ^ 32) ≡ false =
      ground (arith, length-append value tail) in
    let inside : ltb (length (value ++ tail)) (length value + 9) ≡ false =
      ground (arith, length-append value tail) in
    rw (size, enough, inside, take-length_append value tail, drop-length value tail) refl

pub parse_set-be64 :
    (key value : Bytes) (condition : SetCondition) (ttl_ms : ℕ)
    → length value < 2 ^ 32 - 9
    → ttl_ms < 2 ^ 64
    → parse_set key (be32 (length value) ++ value ++ (be64 ttl_ms ++ condition_code condition ∷ []))
      ≡ good (set key value condition ttl_ms)
parse_set-be64 key value condition ttl_ms small fits =
    parse_set-be32 key value (be64 ttl_ms ++ condition_code condition ∷ []) small (omega arith)
    ∙ rw (of_be64-be64 ttl_ms (condition_code condition ∷ []) fits, condition_back condition) refl

pub parse_complete-be32 :
    (key token : Bytes) (code : ℕ) (body : Bytes)
    → code < 2 ^ 16
    → length body < 2 ^ 32
    → parse_complete key token (be16 code ++ be32 (length body) ++ body)
      ≡ good (idem_complete key token code body)
unfolding parse_complete
parse_complete-be32 key token code body small fits =
    let size = of_be32-be32 (length body) body fits in
    let first : code / 256 % 256 * 256 + code % 256 ≡ code = omega arith in
    let enough : ltb (length body) (length body) ≡ false = ground arith in
    rw (size, first, enough, take-length body) refl

pub optional_token-field16 :
    (token : Bytes) → length token < 2 ^ 16 → optional_token (field16 token []) ≡ token
optional_token-field16 [] h = refl
optional_token-field16 (c ∷ t) h =
    let token = c ∷ t in
    let size : length token / 256 % 256 * 256 + length token % 256 ≡ length token = omega arith in
    let some_bytes : ltb 0 (length token) ≡ true = ground arith in
    let fits : leb (length token) (length (token ++ [])) ≡ true =
      ground (arith, length-append token []) in
    rw (size, some_bytes, fits) (take-length_append token [])

pub optional_message-field16 : (m : Bytes) → length m < 2 ^ 16 → optional_message (field16 m []) ≡ m
optional_message-field16 m h =
    let size : length m / 256 % 256 * 256 + length m % 256 ≡ length m = omega arith in
    let long : leb 2 (length (field16 m [])) ≡ true = ground arith in
    let fits : leb (2 + length m) (length (field16 m [])) ≡ true =
      ground (arith, length-append m []) in
    rw (long, size, fits) (take-length_append m [])
