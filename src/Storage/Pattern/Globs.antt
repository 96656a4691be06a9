-- ===== src/Storage/Pattern/Globs.antt =====
-- What `MatchPattern` of src/storage/memory_store.cpp accepts, in terms of glob patterns.
use gate_keeper.Base.{
  ℕ, zero, suc, ◌≡◌, refl, sym, ◌∙◌, ap, Bool, Bool-cases, inl, inr, ◌⊎◌, true, false, ◌||◌, Option,
  none, some, [], ◌∷◌, ◌++◌, Bytes, same, same_iff, ◌==◌, arith, subst, Option-cases,
}
use mathlib.Core.List.{append-nil}
use gate_keeper.Storage.Pattern.{
  Cursor, back_up, advance, only_stars, match_loop, enough_fuel, match_pattern,
}

-- A byte of a pattern that stands for one byte of a string.
abbrev stands_for : ℕ → ℕ → Bool
stands_for p c = p == b'?' || p == c

-- The pattern, piece by piece: a `*` stands for any bytes, a `?` for any byte, others for themselves.
pub data Globs : Bytes → Bytes → Type 0 where
  ends : Globs [] []
  byte : (p c : ℕ) (ps s : Bytes) → stands_for p c ≡ true → Globs ps s → Globs (p ∷ ps) (c ∷ s)
  star : (pre : Bytes) (ps s : Bytes) → Globs ps s → Globs (b'*' ∷ ps) (pre ++ s)

-- The pattern behind the last `*` matches some end of the string that it was tried on.
record BehindStar (p0 t : Bytes) : Type 0 where
  pre : Bytes
  post : Bytes
  split : t ≡ pre ++ post
  matches : Globs p0 post

abbrev AtStar : Option (Bytes × Bytes) → Type 0
AtStar none = ⊥
AtStar (some (p0, t)) = BehindStar p0 t

only_stars-Globs : (p : Bytes) → only_stars p ≡ true → Globs p []
unfolding only_stars
only_stars-Globs [] e = ends
only_stars-Globs (q ∷ p) e =
    let is_star : b'*' ≡ q = ground (arith, e) in
    subst (λ x. Globs (x ∷ p) []) is_star (star [] p [] (only_stars-Globs p (ground (arith, e))))

-- A cursor that a round can lead to proves no more than the cursor before it.
abbrev Explains : Bytes → Bytes → Option (Bytes × Bytes) → Option Cursor → Type 0
Explains p s at none = Unit
Explains p s at (some x) = Globs x.pattern x.str ⊎ AtStar x.star → Globs p s ⊎ AtStar at

back_up-Explains : (p s : Bytes) (at : Option (Bytes × Bytes)) → Explains p s at (back_up at)
unfolding back_up
back_up-Explains p s none = tt
back_up-Explains p s (some (p0, [])) = tt
back_up-Explains p s (some (p0, d ∷ t)) = λ k. inr (elim k [
  | inl g ↦ record { pre = d ∷ []; post = t; split = refl; matches = g }
  | inr b ↦ record {
    pre = d ∷ b.pre;
    post = b.post;
    split = ap (λ l. d ∷ l) b.split;
    matches = b.matches;
  }
])

advance-Explains :
    (p : Bytes) (c : ℕ) (s : Bytes) (at : Option (Bytes × Bytes))
    → Explains p (c ∷ s) at (advance p c s at)
unfolding advance
advance-Explains [] c s at = back_up-Explains [] (c ∷ s) at
advance-Explains (q ∷ ps) c s at = elim (Bool-cases (q == b'?' || q == c)) [
  | inl y ↦ rw y (λ k. elim k [ inl g ↦ inl (byte q c ps s y g) | inr b ↦ inr b ])
  | inr m ↦ rw m (elim (Bool-cases (q == b'*')) [
    | inr k ↦ rw k (back_up-Explains (q ∷ ps) (c ∷ s) at)
    | inl y ↦
        let is_star : b'*' ≡ q = ground (arith, y) in
        rw y (λ k. inl (
          subst (λ x. Globs (x ∷ ps) (c ∷ s)) is_star
            (elim k [
              | inl g ↦ star [] ps (c ∷ s) g
              | inr b ↦
                  subst (λ t. Globs (b'*' ∷ ps) t) (sym b.split) (star b.pre ps b.post b.matches)
            ])))
  ])
]

next_Globs :
    (fuel : ℕ) (p s : Bytes) (at : Option (Bytes × Bytes)) (next : Option Cursor)
    → Explains p s at next
    → ((x : Cursor)
        → match_loop fuel x.pattern x.str x.star ≡ some true
        → Globs x.pattern x.str ⊎ AtStar x.star)
    → elim next [ none ↦ some false | some x ↦ match_loop fuel x.pattern x.str x.star ] ≡ some true
    → Globs p s ⊎ AtStar at
next_Globs fuel p s at none k f e = absurd (ground (arith, e))
next_Globs fuel p s at (some x) k f e = k (f x e)

match_loop-Globs :
    (fuel : ℕ) (p s : Bytes) (at : Option (Bytes × Bytes))
    → match_loop fuel p s at ≡ some true
    → Globs p s ⊎ AtStar at
unfolding match_loop
match_loop-Globs zero p [] at e = inl (only_stars-Globs p (ground (arith, e)))
match_loop-Globs (suc fuel) p [] at e = inl (only_stars-Globs p (ground (arith, e)))
match_loop-Globs zero p (c ∷ s) at e = absurd (ground (arith, e))
match_loop-Globs (suc fuel) p (c ∷ s) at e =
    next_Globs fuel p (c ∷ s) at (advance p c s at) (advance-Explains p c s at)
      (λ x h. match_loop-Globs fuel x.pattern x.str x.star h) e

any_string : (s : Bytes) → Globs (b'*' ∷ []) s
any_string s = subst (λ t. Globs (b'*' ∷ []) t) (append-nil s) (star s [] [] ends)

-- `MatchPattern` accepts only strings that the pattern stands for.
pub match_pattern-Globs : (p s : Bytes) → match_pattern p s ≡ true → Globs p s
unfolding match_pattern
match_pattern-Globs p s e = elim (Bool-cases (same p (b'*' ∷ []))) [
  | inl y ↦ subst (λ x. Globs x s) (sym ((same_iff p (b'*' ∷ [])).0 y)) (any_string s)
  | inr n ↦ elim (Option-cases (match_loop (enough_fuel p s) p s none)) [
    | inl m ↦ absurd (ground (arith, e, n, m))
    | inr (b, m) ↦
        let accepted : b ≡ true = ground (arith, e, n, m) in
        elim (match_loop-Globs (enough_fuel p s) p s none (m ∙ ap some accepted)) [
          | inl g ↦ g
          | inr k ↦ absurd k
        ]
  ]
]
