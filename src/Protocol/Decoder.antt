-- ===== src/Protocol/Decoder.antt =====
-- src/protocol/gkwp2/decoder.cpp: the decoder that takes the bytes of a connection in pieces.
pub mod Prefixes
pub mod Parses
pub mod Pieces
pub mod Wire
use gate_keeper.Base.{
  ℕ, zero, suc, ◌+◌, ◌*◌, ◌^◌, Bool, true, false, not, Option, none, some, List, [], ◌∷◌, ◌++◌,
  Bytes, text, ltb, ◌==◌, if◌then◌else◌, length, get_or, take, drop,
}
use gate_keeper.Protocol.Frame.{
  Header, Frame, k_magic, k_version, k_header_size, k_max_payload_length,
}

abbrev pub k_max_decoder_buffer_size : ℕ
k_max_decoder_buffer_size = 16777216

pub record Decoder : Type 0 where
  pub buffer : Bytes
  pub read_offset : ℕ

abbrev pub new_decoder : Decoder
new_decoder = record { buffer = []; read_offset = 0 }

abbrev pub byte_at : Bytes → ℕ → ℕ
byte_at b i = get_or b i 0

-- `ntohs`, `ntohl` and `be64toh`, read from memory
abbrev pub of_be16 : Bytes → ℕ → ℕ
of_be16 b i = byte_at b i * 256 + byte_at b (i + 1)

abbrev pub of_be32 : Bytes → ℕ → ℕ
of_be32 b i = of_be16 b i * 2 ^ 16 + of_be16 b (i + 2)

abbrev pub of_be64 : Bytes → ℕ → ℕ
of_be64 b i = of_be32 b i * 2 ^ 32 + of_be32 b (i + 4)

unfoldable pub header_at : Bytes → Header
header_at b = record {
  magic = of_be16 b 0;
  version = byte_at b 2;
  flags = byte_at b 3;
  msg_type = byte_at b 4;
  reserved = (byte_at b 5, byte_at b 6, byte_at b 7);
  request_id = of_be64 b 8;
  stream_id = of_be32 b 16;
  payload_len = of_be32 b 20;
}

-- What the loop finds at the read offset: too few bytes yet, an error, or a frame.
pub data Found : Type 0 where
  short : Found
  invalid : (err_msg : Bytes) → Found
  whole : (frame : Frame) → Found

abbrev pub frame_len : Frame → ℕ
frame_len f = k_header_size + f.header.payload_len

unfoldable pub frame_at : Header → Bytes → Found
frame_at hdr b =
    if not (hdr.magic == k_magic)
    then invalid (text "Invalid GKWP/2 magic bytes")
    else if not (hdr.version == k_version)
    then invalid (text "Unsupported GKWP/2 version")
    else if ltb k_max_payload_length hdr.payload_len
    then invalid (text "Payload length exceeds maximum allowed limit")
    else if ltb (length b) (k_header_size + hdr.payload_len)
    then short
    else whole (record { header = hdr; payload = take hdr.payload_len (drop k_header_size b) })

unfoldable pub next_frame : Bytes → Found
next_frame b = if ltb (length b) k_header_size then short else frame_at (header_at b) b

-- where the loop stops: the frames so far, the read offset, an error
pub record Drained : Type 0 where
  pub frames : List Frame
  pub offset : ℕ
  pub err_msg : Option Bytes

-- The loop, on the bytes from the read offset on. A round takes at least a header, so that a fuel of the
-- number of these bytes is enough.
unfoldable pub drain : ℕ → Bytes → ℕ → Drained
drain zero rest offset = record { frames = []; offset = offset; err_msg = none }
drain (suc fuel) rest offset = elim (next_frame rest) [
  | short ↦ record { frames = []; offset = offset; err_msg = none }
  | invalid m ↦ record { frames = []; offset = offset; err_msg = some m }
  | whole f ↦
      let d = drain fuel (drop (frame_len f) rest) (offset + frame_len f) in
      record { frames = f ∷ d.frames; offset = d.offset; err_msg = d.err_msg }
]

-- the end of `Push`: bytes that were read are forgotten at the end of the buffer, or when many are
unfoldable pub compact : Bytes → ℕ → Decoder
compact buffer offset =
    if offset == 0
    then record { buffer = buffer; read_offset = offset }
    else if offset == length buffer
    then new_decoder
    else if ltb 65536 offset
    then record { buffer = drop offset buffer; read_offset = 0 }
    else record { buffer = buffer; read_offset = offset }

-- the reply of `Push`, with the frames that it appends
pub record Pushed : Type 0 where
  pub ok : Bool
  pub err_msg : Bytes
  pub out_frames : List Frame

unfoldable pub finish : Bytes → Drained → Pushed × Decoder
finish buffer d = elim d.err_msg [
  | none ↦ (record { ok = true; err_msg = []; out_frames = d.frames }, compact buffer d.offset)
  | some m ↦ (
    record { ok = false; err_msg = m; out_frames = d.frames },
    record { buffer = buffer; read_offset = d.offset },
  )
]

unfoldable pub push : Bytes → Decoder → Pushed × Decoder
push incoming s =
    if ltb k_max_decoder_buffer_size (length s.buffer + length incoming)
    then (
      record { ok = false; err_msg = text "Incoming buffer limit exceeded"; out_frames = [] },
      s,
    )
    else (let buffer = s.buffer ++ incoming in
        let rest = drop s.read_offset buffer in
        finish buffer (drain (length rest) rest s.read_offset))

abbrev pub reset : Decoder → Decoder
reset s = new_decoder
