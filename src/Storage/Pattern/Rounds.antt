-- ===== src/Storage/Pattern/Rounds.antt =====
-- `MatchPattern` of src/storage/memory_store.cpp ends: the fuel of the model is enough.
use gate_keeper.Base.{
  ℕ, zero, suc, ◌+◌, ◌*◌, ◌≤◌, ◌<◌, ◌≡◌, refl, Bool, Bool-cases, inl, inr, false, ◌||◌, Option,
  none, some, [], ◌∷◌, Bytes, ◌==◌, length, arith,
}
use gate_keeper.Storage.Pattern.{Cursor, back_up, advance, only_stars, match_loop, enough_fuel}

-- the rounds that the bytes of a string pay for, with a pattern of `n` bytes
abbrev span : ℕ → Bytes → ℕ
span n [] = 0
span n (c ∷ s) = suc n + span n s

span_le : (n : ℕ) (s t : Bytes) → length s ≤ length t → span n s ≤ span n t
span_le n [] t h = omega arith
span_le n (c ∷ s) [] h = absurd (omega arith)
span_le n (c ∷ s) (d ∷ t) h = let ih = span_le n s t (omega arith) in omega (arith, ih)

-- The rounds that are left at most.
abbrev rounds : ℕ → Bytes → Bytes → Option (Bytes × Bytes) → ℕ
rounds n p s none = span n s + suc n + length p
rounds n p s (some (p0, t)) = span n t + length p

-- What is left of the pattern is no longer than the pattern, and the string is a part of the one at the
-- last `*`.
abbrev IsInside : ℕ → Bytes → Bytes → Option (Bytes × Bytes) → Type 0
IsInside n p s none = length p ≤ n
IsInside n p s (some (p0, t)) = (length p ≤ n) × (length p0 ≤ n) × (length s ≤ length t)

-- A round leads to a cursor with fewer rounds left, if to any.
abbrev Shrinks : ℕ → ℕ → Option Cursor → Type 0
Shrinks n fuel none = Unit
Shrinks n fuel (some x) =
    IsInside n x.pattern x.str x.star × (rounds n x.pattern x.str x.star ≤ fuel)

back_up-Shrinks :
    (n fuel : ℕ) (p : Bytes) (c : ℕ) (s : Bytes) (star : Option (Bytes × Bytes))
    → IsInside n p (c ∷ s) star
    → rounds n p (c ∷ s) star ≤ suc fuel
    → Shrinks n fuel (back_up star)
unfolding back_up
back_up-Shrinks n fuel p c s none v h = tt
back_up-Shrinks n fuel p c s (some (p0, [])) v h = tt
back_up-Shrinks n fuel p c s (some (p0, d ∷ t)) v h =
    ((v.1, v.1, omega arith), omega (arith, v.1, h))

read_on-Shrinks :
    (n fuel q c : ℕ) (ps s : Bytes) (star : Option (Bytes × Bytes))
    → IsInside n (q ∷ ps) (c ∷ s) star
    → rounds n (q ∷ ps) (c ∷ s) star ≤ suc fuel
    → Shrinks n fuel (some (record { pattern = ps; str = s; star = star }))
read_on-Shrinks n fuel q c ps s none v h = (omega (arith, v), omega arith)
read_on-Shrinks n fuel q c ps s (some (p0, t)) v h =
    ((omega (arith, v.0), v.1, omega (arith, v.2)), omega arith)

new_star-Shrinks :
    (n fuel q c : ℕ) (ps s : Bytes) (star : Option (Bytes × Bytes))
    → IsInside n (q ∷ ps) (c ∷ s) star
    → rounds n (q ∷ ps) (c ∷ s) star ≤ suc fuel
    → Shrinks n fuel (some (record { pattern = ps; str = c ∷ s; star = some (ps, c ∷ s) }))
new_star-Shrinks n fuel q c ps s none v h =
    ((omega (arith, v), omega (arith, v), omega arith), omega arith)
new_star-Shrinks n fuel q c ps s (some (p0, t)) v h = (
  (omega (arith, v.0), omega (arith, v.0), omega arith),
  let shorter = span_le n (c ∷ s) t v.2 in omega (arith, shorter),
)

advance-Shrinks :
    (n fuel : ℕ) (p : Bytes) (c : ℕ) (s : Bytes) (star : Option (Bytes × Bytes))
    → IsInside n p (c ∷ s) star
    → rounds n p (c ∷ s) star ≤ suc fuel
    → Shrinks n fuel (advance p c s star)
unfolding advance
advance-Shrinks n fuel [] c s star v h = back_up-Shrinks n fuel [] c s star v h
advance-Shrinks n fuel (q ∷ ps) c s star v h = elim (Bool-cases (q == b'?' || q == c)) [
  | inl y ↦ rw y (read_on-Shrinks n fuel q c ps s star v h)
  | inr m ↦ rw m (elim (Bool-cases (q == b'*')) [
    | inl y ↦ rw y (new_star-Shrinks n fuel q c ps s star v h)
    | inr k ↦ rw k (back_up-Shrinks n fuel (q ∷ ps) c s star v h)
  ])
]

some_rounds :
    (n : ℕ) (p : Bytes) (c : ℕ) (s : Bytes) (star : Option (Bytes × Bytes))
    → IsInside n p (c ∷ s) star
    → 0 < rounds n p (c ∷ s) star
some_rounds n p c s none v = omega arith
some_rounds n p c s (some (p0, [])) v = absurd (omega (arith, v.2))
some_rounds n p c s (some (p0, d ∷ t)) v = omega arith

next_answers :
    (n fuel : ℕ) (next : Option Cursor)
    → Shrinks n fuel next
    → ((x : Cursor)
        → IsInside n x.pattern x.str x.star
        → rounds n x.pattern x.str x.star ≤ fuel
        → (b : Bool) × (match_loop fuel x.pattern x.str x.star ≡ some b))
    → (b : Bool) × (elim next [
      | none ↦ some false
      | some x ↦ match_loop fuel x.pattern x.str x.star
    ]
        ≡ some b)
next_answers n fuel none k f = (false, refl)
next_answers n fuel (some x) k f = f x k.0 k.1

-- The loop answers within its rounds.
match_loop-answers :
    (n fuel : ℕ) (p s : Bytes) (star : Option (Bytes × Bytes))
    → IsInside n p s star
    → rounds n p s star ≤ fuel
    → (b : Bool) × (match_loop fuel p s star ≡ some b)
unfolding match_loop
match_loop-answers n zero p [] star v h = (only_stars p, refl)
match_loop-answers n (suc fuel) p [] star v h = (only_stars p, refl)
match_loop-answers n zero p (c ∷ s) star v h = absurd (omega (arith, some_rounds n p c s star v, h))
match_loop-answers n (suc fuel) p (c ∷ s) star v h =
    next_answers n fuel (advance p c s star) (advance-Shrinks n fuel p c s star v h)
      (λ x k g. match_loop-answers n fuel x.pattern x.str x.star k g)

span_mul : (n : ℕ) (s : Bytes) → span n s ≡ length s * suc n
span_mul n [] = omega arith
span_mul n (c ∷ s) = let ih = span_mul n s in grind (arith, ih)

-- The loop of `MatchPattern` answers on the fuel of the model, whatever the pattern and the string
-- are.
pub match_loop-enough_fuel :
    (p s : Bytes) → (b : Bool) × (match_loop (enough_fuel p s) p s none ≡ some b)
match_loop-enough_fuel p s =
    let size = span_mul (length p) s in
    match_loop-answers (length p) (enough_fuel p s) p s none (omega arith) (grind (arith, size))
