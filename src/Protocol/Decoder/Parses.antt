-- ===== src/Protocol/Decoder/Parses.antt =====
-- src/protocol/gkwp2/decoder.cpp: what the loop of `Push` finds in bytes, and where bytes can be cut.
use gate_keeper.Base.{
  ℕ, zero, suc, ◌+◌, ◌≤◌, ◌≡◌, refl, sym, ◌∙◌, ap, subst, Bool-cases, inl, inr, true, none, List,
  [], ◌∷◌, ◌++◌, Bytes, arith, length, drop, drop-append, drop-drop, length-drop,
}
use gate_keeper.Protocol.Frame.{Frame}
use gate_keeper.Protocol.Decoder.{
  Found, short, invalid, whole, frame_len, next_frame, Drained, drain,
}
use gate_keeper.Protocol.Decoder.Prefixes.{is_short, next_frame-append, next_frame-whole}

-- The bytes hold these frames one after the other, and then too few bytes for another.
unfoldable pub Parses : Bytes → List Frame → Bytes → Type 0
Parses b [] left = (next_frame b ≡ short) × (left ≡ b)
Parses b (f ∷ fs) left = (next_frame b ≡ whole f) × Parses (drop (frame_len f) b) fs left

-- A parse ends where no frame is found.
pub Parses-left : (b left : Bytes) (fs : List Frame) → Parses b fs left → next_frame left ≡ short
unfolding Parses
Parses-left b left [] p = rw p.1 (p.0)
Parses-left b left (f ∷ fs) p = Parses-left (drop (frame_len f) b) left fs p.1

-- the bytes of some frames
abbrev pub total_len : List Frame → ℕ
total_len [] = 0
total_len (f ∷ fs) = frame_len f + total_len fs

pub Parses-total_len :
    (b left : Bytes) (fs : List Frame)
    → Parses b fs left
    → (left ≡ drop (total_len fs) b) × (total_len fs ≤ length b)
unfolding Parses
Parses-total_len b left [] p = (p.1, omega arith)
Parses-total_len b left (f ∷ fs) p =
    let ih = Parses-total_len (drop (frame_len f) b) left fs p.1 in
    (
      ih.0 ∙ drop-drop (total_len fs) (frame_len f) b,
      omega (arith, ih.1, length-drop (frame_len f) b, next_frame-whole b f p.0),
    )

-- the end of a loop without an error
abbrev pub drained : List Frame → ℕ → Drained
drained fs offset = record { frames = fs; offset = offset; err_msg = none }

pub drain-Parses :
    (fuel : ℕ) (b left : Bytes) (fs : List Frame) (offset : ℕ)
    → length b ≤ fuel
    → Parses b fs left
    → drain fuel b offset ≡ drained fs (offset + total_len fs)
unfolding drain Parses
drain-Parses zero b left [] offset h p =
    let e : offset ≡ offset + 0 = omega arith in ap (drained []) e
drain-Parses zero b left (f ∷ fs) offset h p = absurd (omega (arith, next_frame-whole b f p.0))
drain-Parses (suc fuel) b left [] offset h p =
    let e : offset ≡ offset + 0 = omega arith in rw (p.0, drain) (ap (drained []) e)
drain-Parses (suc fuel) b left (f ∷ fs) offset h p =
    let ih =
      drain-Parses fuel (drop (frame_len f) b) left fs (offset + frame_len f)
        (omega (arith, length-drop (frame_len f) b)) p.1 in
    let e : offset + frame_len f + total_len fs ≡ offset + total_len (f ∷ fs) = omega arith in
    rw (p.0, drain, ih) (ap (drained (f ∷ fs)) e)

-- A parse of bytes that were cut in two.
pub record Cut (a b left : Bytes) (fs : List Frame) : Type 0 where
  pub first : List Frame
  pub second : List Frame
  pub middle : Bytes
  pub joined : fs ≡ first ++ second
  pub before : Parses a first middle
  pub after : Parses (middle ++ b) second left

no_frame :
    (a b left : Bytes) (fs : List Frame)
    → next_frame a ≡ short
    → Parses (a ++ b) fs left
    → Cut a b left fs
unfolding Parses
no_frame a b left fs e p = record {
  first = [];
  second = fs;
  middle = a;
  joined = refl;
  before = (e, refl);
  after = p;
}

one_frame :
    (a b left : Bytes) (f : Frame) (fs : List Frame)
    → next_frame a ≡ whole f
    → Cut (drop (frame_len f) a) b left fs
    → Cut a b left (f ∷ fs)
unfolding Parses
one_frame a b left f fs e c = record {
  first = f ∷ c.first;
  second = c.second;
  middle = c.middle;
  joined = ap (λ l. f ∷ l) c.joined;
  before = (e, c.before);
  after = c.after;
}

short_of : (x : Found) → is_short x ≡ true → x ≡ short
short_of short e = refl
short_of (invalid m) e = absurd (ground (arith, e))
short_of (whole f) e = absurd (ground (arith, e))

-- Bytes that parse can be cut anywhere.
pub Parses-Cut : (a b left : Bytes) (fs : List Frame) → Parses (a ++ b) fs left → Cut a b left fs
unfolding Parses
Parses-Cut a b left [] p = elim (Bool-cases (is_short (next_frame a))) [
  | inl y ↦ no_frame a b left [] (short_of (next_frame a) y) (unfold Parses in p)
  | inr n ↦ absurd (ground (arith, next_frame-append a b n, p.0, n))
]
Parses-Cut a b left (f ∷ fs) p = elim (Bool-cases (is_short (next_frame a))) [
  | inl y ↦ no_frame a b left (f ∷ fs) (short_of (next_frame a) y) (unfold Parses in p)
  | inr n ↦
      let here : next_frame a ≡ whole f = sym (next_frame-append a b n) ∙ p.0 in
      let cut = drop-append (frame_len f) a b (next_frame-whole a f here) in
      one_frame a b left f fs here
        (Parses-Cut (drop (frame_len f) a) b left fs (subst (λ x. Parses x fs left) cut p.1))
]
