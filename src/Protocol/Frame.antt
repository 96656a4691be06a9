-- ===== src/Protocol/Frame.antt =====
-- include/gatekeeper/protocol/gkwp2/header.h and src/protocol/gkwp2/frame.cpp: the header of 24 bytes in
-- network byte order, and the encoders of whole frames.
use gate_keeper.Base.{
  ℕ, ◌/◌, ◌%◌, ◌^◌, Bool, false, [], ◌∷◌, ◌++◌, Bytes, text, is_empty, if◌then◌else◌, length,
}

abbrev pub k_magic : ℕ
k_magic = 18251

abbrev pub k_version : ℕ
k_version = 2

abbrev pub k_header_size : ℕ
k_header_size = 24

abbrev pub k_max_payload_length : ℕ
k_max_payload_length = 16777216

abbrev pub k_end_stream : ℕ
k_end_stream = 8

pub data MsgType : Type 0 where
  request response event error : MsgType

abbrev pub msg_code : MsgType → ℕ
msg_code request = 1
msg_code response = 2
msg_code event = 3
msg_code error = 4

pub record Header : Type 0 where
  pub magic : ℕ
  pub version : ℕ
  pub flags : ℕ
  pub msg_type : ℕ
  pub reserved : ℕ × ℕ × ℕ
  pub request_id : ℕ
  pub stream_id : ℕ
  pub payload_len : ℕ

pub record Frame : Type 0 where
  pub header : Header
  pub payload : Bytes

-- `htons`, `htonl` and `htobe64`, written to memory
abbrev pub be16 : ℕ → Bytes
be16 n = n / 256 % 256 ∷ n % 256 ∷ []

abbrev pub be32 : ℕ → Bytes
be32 n = be16 (n / 2 ^ 16 % 2 ^ 16) ++ be16 (n % 2 ^ 16)

abbrev pub be64 : ℕ → Bytes
be64 n = be32 (n / 2 ^ 32 % 2 ^ 32) ++ be32 (n % 2 ^ 32)

unfoldable pub encode_frame : Header → Bytes → Bytes
encode_frame h payload =
    be16 h.magic
    ++ (h.version ∷ h.flags ∷ h.msg_type ∷ h.reserved.0 ∷ h.reserved.1 ∷ h.reserved.2 ∷ [])
    ++ be64 h.request_id
    ++ be32 h.stream_id
    ++ be32 (length payload)
    ++ payload

-- the header that the three encoders below fill in
abbrev pub header_of : MsgType → Bool → ℕ → ℕ → Bytes → Header
header_of type end_stream request_id stream_id payload = record {
  magic = k_magic;
  version = k_version;
  flags = if end_stream then k_end_stream else 0;
  msg_type = msg_code type;
  reserved = (0, 0, 0);
  request_id = request_id;
  stream_id = stream_id;
  payload_len = length payload % 2 ^ 32;
}

unfoldable pub encode_response : ℕ → ℕ → Bytes → Bool → Bytes
encode_response request_id stream_id payload end_stream =
    encode_frame (header_of response end_stream request_id stream_id payload) payload

unfoldable pub error_payload : Bytes → Bytes → Bytes
error_payload error_code message =
    text "{\"code\":\"" ++ error_code ++ text "\",\"message\":\"" ++ message ++ text "\"}"

unfoldable pub encode_error : ℕ → ℕ → Bytes → Bytes → Bool → Bytes
encode_error request_id stream_id error_code message end_stream =
    let payload = error_payload error_code message in
    encode_frame (header_of error end_stream request_id stream_id payload) payload

unfoldable pub event_payload : Bytes → Bytes → Bytes
event_payload event_type data_text =
    text "{\"event_type\":\""
    ++ event_type
    ++ text "\",\"data\":"
    ++ (if is_empty data_text then text "{}" else data_text)
    ++ text "}"

unfoldable pub encode_event : ℕ → ℕ → Bytes → Bytes → Bytes
encode_event request_id stream_id event_type data_text =
    let payload = event_payload event_type data_text in
    encode_frame (header_of event false request_id stream_id payload) payload
