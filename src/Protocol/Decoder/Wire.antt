-- ===== src/Protocol/Decoder/Wire.antt =====
-- Round trips of src/protocol/gkwp2/frame.cpp and decoder.cpp: what the encoders write, the decoder
-- reads, however the connection cuts it.
use gate_keeper.Base.{
  ◌+◌, ◌^◌, ◌≤◌, ◌<◌, ◌≡◌, refl, sym, ◌∙◌, ap, subst, true, false, List, [], ◌∷◌, ◌++◌, flatten,
  Bytes, arith, ltb, length, take, drop, length-append, take-append, take-length, drop-drop,
}
use gate_keeper.Protocol.Frame.{
  Header, Frame, k_magic, k_version, k_header_size, k_max_payload_length, encode_frame,
}
use gate_keeper.Protocol.Decoder.{
  k_max_decoder_buffer_size, new_decoder, header_at, whole, frame_len, frame_at, next_frame,
}
use gate_keeper.Protocol.Decoder.Parses.{Parses}
use gate_keeper.Protocol.Decoder.Pieces.{IsDecoder, pending, push_all, push_all-Parses}

header_path :
    (a b : Header)
    → a.magic ≡ b.magic
    → a.version ≡ b.version
    → a.flags ≡ b.flags
    → a.msg_type ≡ b.msg_type
    → a.reserved ≡ b.reserved
    → a.request_id ≡ b.request_id
    → a.stream_id ≡ b.stream_id
    → a.payload_len ≡ b.payload_len
    → a ≡ b
header_path a b m v f t r i s p = λ j. record {
  magic = m j;
  version = v j;
  flags = f j;
  msg_type = t j;
  reserved = r j;
  request_id = i j;
  stream_id = s j;
  payload_len = p j;
}

-- A frame as the encoders send it.
pub record IsFrame (f : Frame) : Type 0 where
  pub magic : f.header.magic ≡ k_magic
  pub version : f.header.version ≡ k_version
  pub request_id : f.header.request_id < 2 ^ 64
  pub stream_id : f.header.stream_id < 2 ^ 32
  pub sized : f.header.payload_len ≡ length f.payload
  pub fits : length f.payload ≤ k_max_payload_length

header_at-encode_frame :
    (f : Frame) (more : Bytes)
    → IsFrame f
    → header_at (encode_frame f.header f.payload ++ more) ≡ f.header
unfolding header_at encode_frame
header_at-encode_frame f more v =
    header_path (header_at (encode_frame f.header f.payload ++ more)) f.header
      (omega (arith, v.magic)) refl refl refl refl (omega (arith, v.request_id))
      (omega (arith, v.stream_id)) (omega (arith, v.sized, v.fits))

length-encode_frame :
    (h : Header) (payload : Bytes) → length (encode_frame h payload) ≡ 24 + length payload
unfolding encode_frame
length-encode_frame h payload = omega arith

drop-encode_frame :
    (h : Header) (payload more : Bytes) → drop 24 (encode_frame h payload ++ more) ≡ payload ++ more
unfolding encode_frame
drop-encode_frame h payload more = refl

frame_at-encode_frame :
    (f : Frame) (more : Bytes)
    → IsFrame f
    → frame_at f.header (encode_frame f.header f.payload ++ more) ≡ whole f
unfolding frame_at encode_frame
frame_at-encode_frame f more v =
    let size : length (encode_frame f.header f.payload ++ more)
        ≡ 24 + length f.payload + length more =
      length-append (encode_frame f.header f.payload) more
      ∙ ap (λ n. n + length more) (length-encode_frame f.header f.payload) in
    let fits : ltb k_max_payload_length f.header.payload_len ≡ false =
      ground (arith, v.sized, v.fits) in
    let enough : ltb (length (encode_frame f.header f.payload ++ more)) (24 + f.header.payload_len)
        ≡ false =
      ground (arith, size, v.sized) in
    let body : take f.header.payload_len (drop 24 (encode_frame f.header f.payload ++ more))
        ≡ f.payload =
      rw (drop-encode_frame f.header f.payload more, v.sized)
        (take-append (length f.payload) f.payload more (omega arith) ∙ take-length f.payload) in
    rw (v.magic, v.version, fits, enough, body) refl

next_frame-encode_frame :
    (f : Frame) (more : Bytes)
    → IsFrame f
    → next_frame (encode_frame f.header f.payload ++ more) ≡ whole f
unfolding next_frame
next_frame-encode_frame f more v =
    let size =
      length-append (encode_frame f.header f.payload) more
      ∙ ap (λ n. n + length more) (length-encode_frame f.header f.payload) in
    let long : ltb (length (encode_frame f.header f.payload ++ more)) k_header_size ≡ false =
      ground (arith, size) in
    rw (long, header_at-encode_frame f more v) (frame_at-encode_frame f more v)

drop-frame :
    (f : Frame) (more : Bytes)
    → IsFrame f
    → drop (frame_len f) (encode_frame f.header f.payload ++ more) ≡ more
drop-frame f more v =
    sym (drop-drop f.header.payload_len 24 (encode_frame f.header f.payload ++ more))
    ∙ rw (drop-encode_frame f.header f.payload more, v.sized) (drop-whole f.payload more)
  where
    drop-whole : (a b : Bytes) → drop (length a) (a ++ b) ≡ b
    drop-whole [] b = refl
    drop-whole (x ∷ a) b = drop-whole a b

-- frames on the wire
unfoldable pub wire : List Frame → Bytes
wire [] = []
wire (f ∷ fs) = encode_frame f.header f.payload ++ wire fs

abbrev pub AllFrames : List Frame → Type 0
AllFrames [] = Unit
AllFrames (f ∷ fs) = IsFrame f × AllFrames fs

Parses-wire : (fs : List Frame) → AllFrames fs → Parses (wire fs) fs []
unfolding Parses wire next_frame
Parses-wire [] v = (refl, refl)
Parses-wire (f ∷ fs) v = (
  next_frame-encode_frame f (wire fs) v.0,
  subst (λ b. Parses b fs []) (sym (drop-frame f (wire fs) v.0)) (Parses-wire fs v.1),
)

new_decoder-IsDecoder : IsDecoder new_decoder
unfolding next_frame
new_decoder-IsDecoder = record { inside = omega arith; waits = refl }

-- Frames that the encoders send, on a fresh connection and together within the buffer's limit, are
-- decoded in order, with their headers and payloads, however the connection cuts their bytes into
-- pieces: every `Push` succeeds, and at the end no byte is pending.
pub push_all-wire :
    (fs : List Frame) (cs : List Bytes)
    → AllFrames fs
    → flatten cs ≡ wire fs
    → length (wire fs) ≤ k_max_decoder_buffer_size
    → ((push_all cs new_decoder).0 ≡ true)
      × ((push_all cs new_decoder).1 ≡ fs)
      × (pending (push_all cs new_decoder).2 ≡ [])
push_all-wire fs cs v e fits =
    let parsed = subst (λ b. Parses b fs []) (sym e) (Parses-wire fs v) in
    let size : length (flatten cs) ≡ length (wire fs) = ap length e in
    let all =
      push_all-Parses cs new_decoder [] fs new_decoder-IsDecoder (omega (arith, size)) parsed in
    (all.0, all.1, all.2)
