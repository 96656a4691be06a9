-- ===== src/Protocol/Decoder/Pieces.antt =====
-- src/protocol/gkwp2/decoder.cpp: the frames that `Push` finds do not depend on how the bytes of a
-- connection are cut into pieces.
use gate_keeper.Base.{
  ℕ, ◌+◌, ◌≤◌, ◌≡◌, refl, sym, ◌∙◌, ap, subst, Bool, Bool-cases, inl, inr, true, false, List, [],
  ◌∷◌, ◌++◌, flatten, Bytes, arith, ltb, ◌==◌, ◌&&◌, length, drop, length-append, drop-append,
  drop-drop, length-drop,
}
use gate_keeper.Protocol.Frame.{Frame}
use gate_keeper.Protocol.Decoder.{
  k_max_decoder_buffer_size, Decoder, short, next_frame, compact, Pushed, finish, push,
}
use gate_keeper.Protocol.Decoder.Parses.{
  Parses, Parses-left, total_len, Parses-total_len, drained, drain-Parses, Parses-Cut,
}
use mathlib.Core.List.{append_assoc, append-nil}

-- the bytes that a decoder has not read
abbrev pub pending : Decoder → Bytes
pending s = drop s.read_offset s.buffer

-- The offset is inside the buffer, and no frame is waiting.
pub record IsDecoder (s : Decoder) : Type 0 where
  pub inside : s.read_offset ≤ length s.buffer
  pub waits : next_frame (pending s) ≡ short

-- Forgetting what was read changes no pending byte.
compact-pending :
    (buffer : Bytes) (offset : ℕ)
    → offset ≤ length buffer
    → (pending (compact buffer offset) ≡ drop offset buffer)
      × ((compact buffer offset).read_offset ≤ length (compact buffer offset).buffer)
      × (length (compact buffer offset).buffer ≤ length buffer)
unfolding compact
compact-pending buffer offset h =
    let nothing : offset ≡ length buffer → [] ≡ drop offset buffer =
      λ e. sym (ap (λ n. drop n buffer) e ∙ drop_all buffer) in
    elim (Bool-cases (offset == 0)) [
      | inl z ↦ rw z (refl, h, omega arith)
      | inr z ↦ elim (Bool-cases (offset == length buffer)) [
        | inl y ↦ rw (z, y) (nothing (ground (arith, y)), omega arith, omega arith)
        | inr n ↦ elim (Bool-cases (ltb 65536 offset)) [
          | inl y ↦ rw (z, n, y) (refl, omega arith, omega (arith, length-drop offset buffer))
          | inr m ↦ rw (z, n, m) (refl, h, omega arith)
        ]
      ]
    ]
  where
    drop_all : (xs : Bytes) → drop (length xs) xs ≡ []
    drop_all [] = refl
    drop_all (x ∷ xs) = drop_all xs

finish-drained :
    (buffer : Bytes) (fs : List Frame) (offset : ℕ)
    → finish buffer (drained fs offset)
      ≡ (record { ok = true; err_msg = []; out_frames = fs }, compact buffer offset)
unfolding finish
finish-drained buffer fs offset = refl

-- What a `Push` without an error does.
pub record IsPushed (s : Decoder) (incoming left : Bytes) (fs : List Frame) (r : Pushed)
    (s' : Decoder) : Type 0 where
  pub succeeded : r.ok ≡ true
  pub found : r.out_frames ≡ fs
  pub is_decoder : IsDecoder s'
  pub remains : pending s' ≡ left
  pub bounded : length s'.buffer ≤ length s.buffer + length incoming

pub push-Parses :
    (s : Decoder) (incoming left : Bytes) (fs : List Frame)
    → IsDecoder s
    → length s.buffer + length incoming ≤ k_max_decoder_buffer_size
    → Parses (pending s ++ incoming) fs left
    → IsPushed s incoming left fs (push incoming s).0 (push incoming s).1
unfolding push
push-Parses s incoming left fs v fits p =
    let fits' : ltb k_max_decoder_buffer_size (length s.buffer + length incoming) ≡ false =
      ground arith in
    let buffer = s.buffer ++ incoming in
    let rest : drop s.read_offset buffer ≡ pending s ++ incoming =
      drop-append s.read_offset s.buffer incoming v.inside in
    let n = total_len fs in
    let known = Parses-total_len (pending s ++ incoming) left fs p in
    let size : length buffer ≡ length s.buffer + length incoming =
      length-append s.buffer incoming in
    let drained_all =
      drain-Parses (length (pending s ++ incoming)) (pending s ++ incoming) left fs s.read_offset
        (omega arith) p in
    let in_buffer : s.read_offset + n ≤ length buffer =
      omega (arith, known.1, size, ap length rest, length-drop s.read_offset buffer, v.inside) in
    let kept = compact-pending buffer (s.read_offset + n) in_buffer in
    let left' : drop (s.read_offset + n) buffer ≡ left =
      sym (drop-drop n s.read_offset buffer) ∙ ap (drop n) rest ∙ sym known.0 in
    rw (fits', push, rest, drained_all, finish-drained buffer fs (s.read_offset + n))
      (record {
        succeeded = refl;
        found = refl;
        is_decoder = record {
          inside = kept.1;
          waits = rw (kept.0, left') (Parses-left (pending s ++ incoming) left fs p);
        };
        remains = kept.0 ∙ left';
        bounded = omega (arith, kept.2, size);
      })

-- Pieces one after the other: whether all succeed, the frames of all, the decoder behind them.
unfoldable pub push_all : List Bytes → Decoder → Bool × List Frame × Decoder
push_all [] s = (true, [], s)
push_all (c ∷ cs) s =
    let (r, s') = push c s in
    let (ok, fs, s'') = push_all cs s' in (r.ok && ok, r.out_frames ++ fs, s'')

no_more :
    (b left : Bytes) (fs : List Frame)
    → next_frame b ≡ short
    → Parses b fs left
    → (fs ≡ []) × (left ≡ b)
unfolding Parses
no_more b left [] e p = (refl, p.1)
no_more b left (f ∷ fs) e p = absurd (cc (e, p.0))

-- However the bytes that follow on a connection are cut into pieces, pushing the pieces one after the
-- other succeeds, gives the frames of the whole, and leaves the rest pending, if the buffer and all
-- pieces together stay within the buffer's limit.
pub push_all-Parses :
    (cs : List Bytes) (s : Decoder) (left : Bytes) (fs : List Frame)
    → IsDecoder s
    → length s.buffer + length (flatten cs) ≤ k_max_decoder_buffer_size
    → Parses (pending s ++ flatten cs) fs left
    → ((push_all cs s).0 ≡ true)
      × ((push_all cs s).1 ≡ fs)
      × (pending (push_all cs s).2 ≡ left)
      × IsDecoder (push_all cs s).2
unfolding push_all flatten
push_all-Parses [] s left fs v fits p =
    let p' = subst (λ b. Parses b fs left) (append-nil (pending s)) p in
    let stop = no_more (pending s) left fs v.waits p' in (refl, sym stop.0, sym stop.1, v)
push_all-Parses (c ∷ cs) s left fs v fits p =
    let sizes = length-append c (flatten cs) in
    let p' = subst (λ b. Parses b fs left) (sym (append_assoc (pending s) c (flatten cs))) p in
    let cut = Parses-Cut (pending s ++ c) (flatten cs) left fs p' in
    let step = push-Parses s c cut.middle cut.first v (omega (arith, sizes)) cut.before in
    let rest =
      push_all-Parses cs (push c s).1 left cut.second step.is_decoder
        (omega (arith, sizes, step.bounded))
        (subst (λ b. Parses (b ++ flatten cs) cut.second left) (sym step.remains) cut.after) in
    (rw (step.succeeded, rest.0) refl, rw (step.found, rest.1) (sym cut.joined), rest.2, rest.3)
