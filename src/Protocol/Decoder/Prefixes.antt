-- ===== src/Protocol/Decoder/Prefixes.antt =====
-- src/protocol/gkwp2/decoder.cpp: what the decoder finds at its read offset stays found when more bytes
-- follow.
use gate_keeper.Base.{
  ℕ, ◌+◌, ◌≤◌, ◌<◌, ◌≡◌, Bool, Bool-cases, inl, inr, true, false, ◌++◌, Bytes, arith, ltb, length,
  take, drop, length-append, get_or-append, take-append, drop-append, length-drop,
}
use gate_keeper.Protocol.Frame.{Header, Frame, k_header_size}
use gate_keeper.Protocol.Decoder.{
  byte_at, header_at, Found, short, invalid, whole, frame_len, frame_at, next_frame,
}

byte-append : (a b : Bytes) (i : ℕ) → i < length a → byte_at (a ++ b) i ≡ byte_at a i
byte-append a b i h = get_or-append a b i 0 h

-- The header depends on its 24 bytes alone.
header_at-append : (a b : Bytes) → k_header_size ≤ length a → header_at (a ++ b) ≡ header_at a
unfolding header_at
header_at-append a b h = rw (
  byte-append a b 0 (omega arith),
  byte-append a b 1 (omega arith),
  byte-append a b 2 (omega arith),
  byte-append a b 3 (omega arith),
  byte-append a b 4 (omega arith),
  byte-append a b 5 (omega arith),
  byte-append a b 6 (omega arith),
  byte-append a b 7 (omega arith),
  byte-append a b 8 (omega arith),
  byte-append a b 9 (omega arith),
  byte-append a b 10 (omega arith),
  byte-append a b 11 (omega arith),
  byte-append a b 12 (omega arith),
  byte-append a b 13 (omega arith),
  byte-append a b 14 (omega arith),
  byte-append a b 15 (omega arith),
  byte-append a b 16 (omega arith),
  byte-append a b 17 (omega arith),
  byte-append a b 18 (omega arith),
  byte-append a b 19 (omega arith),
  byte-append a b 20 (omega arith),
  byte-append a b 21 (omega arith),
  byte-append a b 22 (omega arith),
  byte-append a b 23 (omega arith),
)

abbrev pub is_short : Found → Bool
is_short short = true
is_short (invalid m) = false
is_short (whole f) = false

payload-append :
    (n : ℕ) (a b : Bytes)
    → k_header_size + n ≤ length a
    → take n (drop k_header_size (a ++ b)) ≡ take n (drop k_header_size a)
payload-append n a b h =
    rw (drop-append k_header_size a b (omega arith))
      (take-append n (drop k_header_size a) b (omega (arith, length-drop k_header_size a)))

frame_at-append :
    (h : Header) (a b : Bytes)
    → is_short (frame_at h a) ≡ false
    → frame_at h (a ++ b) ≡ frame_at h a
unfolding frame_at
frame_at-append h a b long = ground (arith, length-append a b, payload-append h.payload_len a b)

-- What is found stays found when more bytes follow.
pub next_frame-append :
    (a b : Bytes) → is_short (next_frame a) ≡ false → next_frame (a ++ b) ≡ next_frame a
unfolding next_frame
next_frame-append a b long = elim (Bool-cases (ltb (length a) k_header_size)) [
  | inl y ↦ absurd (ground (arith, y, long))
  | inr n ↦
      let enough : k_header_size ≤ length a = ground arith in
      let more : ltb (length (a ++ b)) k_header_size ≡ false = ground (arith, length-append a b) in
      rw (more, n, header_at-append a b enough)
        (frame_at-append (header_at a) a b (ground (arith, n, long)))
]

-- A frame that is found is there in full.
frame_at-whole :
    (h : Header) (b : Bytes) (f : Frame) → frame_at h b ≡ whole f → frame_len f ≤ length b
unfolding frame_at
frame_at-whole h b f e = elim (Bool-cases (ltb (length b) (k_header_size + h.payload_len))) [
  | inl y ↦ grind (arith, e, y)
  | inr n ↦ grind (arith, e, n)
]

pub next_frame-whole : (b : Bytes) (f : Frame) → next_frame b ≡ whole f → frame_len f ≤ length b
unfolding next_frame
next_frame-whole b f e = elim (Bool-cases (ltb (length b) k_header_size)) [
  | inl y ↦ absurd (grind (arith, y, e))
  | inr n ↦ frame_at-whole (header_at b) b f (ground (arith, n, e))
]
