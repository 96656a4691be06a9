-- ===== src/Json/Fuel.antt =====
-- The fuel of the loop of `JsonReader::String` (src/protocol/json_reader.cpp).
use gate_keeper.Base.{
  ℕ, zero, suc, ◌+◌, ◌*◌, ◌≤◌, ◌≡◌, ◌≢◌, subst, refl, sym, ap, ◌∙◌, Bool, Bool-cases, Option-cases,
  inl, inr, true, false, [], ◌∷◌, ◌++◌, Bytes, ◌==◌, if◌then◌else◌, length, arith,
}
use gate_keeper.Json.{
  Read, Reader, done, fail, unfinished, continue, hex_digit, hex_loop, hex, is_high_surrogate,
  low_surrogate, unicode, escape, string_loop,
}

abbrev pub IsWithin : {A : Type 0} → ℕ → Read A → Type 0
IsWithin n (done a s) = length s ≤ n
IsWithin n (fail e) = Unit
IsWithin n unfinished = ⊥

-- what a reader leaves is no longer than a bound
pub record Leaves {A : Type 0} (n : ℕ) (r : Read A) : Type 0 where
  pub bound : IsWithin n r

pub Leaves-done : {A : Type 0} (n : ℕ) (a : A) (s : Bytes) → length s ≤ n → Leaves n (done a s)
Leaves-done n a s h = record { bound = h }

pub Leaves-fail : {A : Type 0} (n : ℕ) (e : Bytes) → Leaves {A = A} n (fail e)
Leaves-fail n e = record { bound = tt }

pub Leaves-continue :
    {A B : Type 0} (n : ℕ) (r : Read A) (f : A → Reader B)
    → Leaves n r
    → ((a : A) (s : Bytes) → length s ≤ n → Leaves n (f a s))
    → Leaves n (continue r f)
Leaves-continue n (done a s) f h k = k a s h.bound
Leaves-continue n (fail e) f h k = Leaves-fail n e
Leaves-continue n unfinished f h k = absurd h.bound

pub Leaves-if :
    {A : Type 0} (n : ℕ) (b : Bool) (x y : Read A)
    → Leaves n x
    → Leaves n y
    → Leaves n (if b then x else y)
Leaves-if n true x y h k = h
Leaves-if n false x y h k = k

hex_loop-Leaves : (k value : ℕ) (s : Bytes) (n : ℕ) → length s ≤ n → Leaves n (hex_loop k value s)
unfolding hex_loop
hex_loop-Leaves zero value s n h = Leaves-done n value s h
hex_loop-Leaves (suc k) value [] n h = Leaves-fail n _
hex_loop-Leaves (suc k) value (c ∷ s) n h =
    let next = λ (d : ℕ). hex_loop-Leaves k (value * 16 + d) s n (omega arith) in
    elim (Option-cases (hex_digit c)) [
      | inl missing ↦ rw missing (Leaves-fail n _)
      | inr (d, found) ↦ rw found (next d)
    ]

low_surrogate-Leaves : (cp : ℕ) (s : Bytes) (n : ℕ) → length s ≤ n → Leaves n (low_surrogate cp s)
unfolding low_surrogate
low_surrogate-Leaves cp [] n h = Leaves-fail n _
low_surrogate-Leaves cp (a ∷ []) n h = Leaves-fail n _
low_surrogate-Leaves cp (a ∷ b ∷ s) n h = Leaves-if n _ _ _ (Leaves-fail n _) (
    Leaves-continue n (hex s) _ (hex_loop-Leaves 4 0 s n (omega arith))
      (λ low r k. Leaves-if n _ _ _ (Leaves-fail n _) (Leaves-done n _ r k)))

unicode-Leaves : (s : Bytes) (n : ℕ) → length s ≤ n → Leaves n (unicode s)
unfolding unicode
unicode-Leaves s n h = Leaves-continue n (hex s) _ (hex_loop-Leaves 4 0 s n h) λ cp r k.
    elim (Bool-cases (is_high_surrogate cp)) [
      | inl y ↦ rw y (low_surrogate-Leaves cp r n k)
      | inr m ↦ rw m (Leaves-done n _ r k)
    ]

escape-Leaves : (s : Bytes) (n : ℕ) → length s ≤ suc n → Leaves n (escape s)
unfolding escape
escape-Leaves [] n h = Leaves-fail n _
escape-Leaves (e ∷ s) n h =
    let k : length s ≤ n = omega arith in
    Leaves-if n (e == b'"') _ _ (Leaves-done n (b'"' ∷ []) s k) (
      Leaves-if n (e == b'\\') _ _ (Leaves-done n (b'\\' ∷ []) s k) (
        Leaves-if n (e == b'/') _ _ (Leaves-done n (b'/' ∷ []) s k) (
          Leaves-if n (e == b'b') _ _ (Leaves-done n (8 ∷ []) s k) (
            Leaves-if n (e == b'f') _ _ (Leaves-done n (12 ∷ []) s k) (
              Leaves-if n (e == b'n') _ _ (Leaves-done n (10 ∷ []) s k) (
                Leaves-if n (e == b'r') _ _ (Leaves-done n (13 ∷ []) s k) (
                  Leaves-if n (e == b't') _ _ (Leaves-done n (9 ∷ []) s k) (
                    Leaves-if n (e == b'u') (unicode s) _ (unicode-Leaves s n k)
                      (Leaves-fail n _)))))))))

-- two continuations that agree on what a reader leaves
continue-same :
    {A B : Type 0} (n : ℕ) (r : Read A) (f g : A → Reader B)
    → Leaves n r
    → ((a : A) (s : Bytes) → length s ≤ n → f a s ≡ g a s)
    → continue r f ≡ continue r g
continue-same n (done a s) f g h k = k a s h.bound
continue-same n (fail e) f g h k = refl
continue-same n unfinished f g h k = refl

-- a round of the loop, with what its two recursive calls give
abbrev round : Bytes → ℕ → Bytes → Read Bytes → Read Bytes → Read Bytes
round out c s escaped plain =
    if c == b'"' then done out s else if c == b'\\' then escaped else plain

string_loop-round :
    (fuel : ℕ) (out : Bytes) (c : ℕ) (s : Bytes)
    → string_loop (suc fuel) out (c ∷ s)
      ≡ round out c s
          (continue (escape s) (λ bytes r. string_loop fuel (out ++ bytes) r))
          (string_loop fuel (out ++ c ∷ []) s)
unfolding string_loop
string_loop-round fuel out c s = refl

string_loop_nothing : (fuel : ℕ) (out : Bytes) → string_loop fuel out [] ≡ string_loop 0 out []
unfolding string_loop
string_loop_nothing zero out = refl
string_loop_nothing (suc fuel) out = refl

pub Leaves-le : {A : Type 0} (n m : ℕ) (r : Read A) → Leaves n r → n ≤ m → Leaves m r
Leaves-le n m (done a s) h k = Leaves-done m a s (omega (arith, h.bound))
Leaves-le n m (fail e) h k = Leaves-fail m e
Leaves-le n m unfinished h k = absurd h.bound

pub Leaves-finished : {A : Type 0} (n : ℕ) (r : Read A) → Leaves n r → r ≢ unfinished
Leaves-finished n r h e = (subst (Leaves n) e h).bound

pub string_loop-Leaves :
    (fuel : ℕ) (out s : Bytes) → length s ≤ fuel → Leaves fuel (string_loop fuel out s)
unfolding string_loop
string_loop-Leaves zero out [] h = Leaves-fail zero _
string_loop-Leaves (suc fuel) out [] h = Leaves-fail (suc fuel) _
string_loop-Leaves zero out (c ∷ s) h = absurd (omega arith)
string_loop-Leaves (suc fuel) out (c ∷ s) h =
    let escaped =
      Leaves-continue fuel (escape s) (λ bytes r. string_loop fuel (out ++ bytes) r)
        (escape-Leaves s fuel (omega arith))
        (λ bytes r k. string_loop-Leaves fuel (out ++ bytes) r k) in
    let plain = string_loop-Leaves fuel (out ++ c ∷ []) s (omega arith) in
    Leaves-le fuel (suc fuel) _
      (Leaves-if fuel (c == b'"') _ _ (Leaves-done fuel out s (omega arith))
        (Leaves-if fuel (c == b'\\') _ _ escaped plain))
      (omega arith)

string_loop_same :
    (fuel more : ℕ) (out s : Bytes)
    → length s ≤ fuel
    → string_loop (fuel + more) out s ≡ string_loop fuel out s
string_loop_same fuel more out [] h =
    string_loop_nothing (fuel + more) out ∙ sym (string_loop_nothing fuel out)
string_loop_same zero more out (c ∷ s) h = absurd (omega arith)
string_loop_same (suc fuel) more out (c ∷ s) h =
    let escaped =
      continue-same fuel (escape s) (λ bytes r. string_loop (fuel + more) (out ++ bytes) r)
        (λ bytes r. string_loop fuel (out ++ bytes) r) (escape-Leaves s fuel (omega arith))
        (λ bytes r j. string_loop_same fuel more (out ++ bytes) r j) in
    let plain = string_loop_same fuel more (out ++ c ∷ []) s (omega arith) in
    let size : suc fuel + more ≡ suc (fuel + more) = omega arith in
    ap (λ n. string_loop n out (c ∷ s)) size
    ∙ string_loop-round (fuel + more) out c s
    ∙ ap (λ x. round out c s x (string_loop (fuel + more) (out ++ c ∷ []) s)) escaped
    ∙ ap (round out c s _) plain
    ∙ sym (string_loop-round fuel out c s)

pub string_loop-enough_fuel :
    (fuel more : ℕ) (out s : Bytes)
    → length s ≤ fuel
    → (string_loop fuel out s ≢ unfinished)
      × (string_loop (fuel + more) out s ≡ string_loop fuel out s)
string_loop-enough_fuel fuel more out s h =
    (Leaves-finished fuel _ (string_loop-Leaves fuel out s h), string_loop_same fuel more out s h)
