-- ===== src/Maps.antt =====
-- `std::unordered_map` as a list of its pairs, in whatever order it keeps them.
use gate_keeper.Base.{
  ℕ, ◌+◌, ◌≡◌, Bool, Option, none, some, List, [], ◌∷◌, if◌then◌else◌, arith, Bool-cases, inl, inr,
}

module _ {K V : Type 0} (same_key : K → K → Bool) where
  unfoldable pub lookup : K → List (K × V) → Option V
  lookup q [] = none
  lookup q ((k, v) ∷ m) = if same_key k q then some v else lookup q m

  -- the value of a key, or of a new pair, is `v`
  unfoldable pub assign : K → V → List (K × V) → List (K × V)
  assign q v [] = (q, v) ∷ []
  assign q v ((k, w) ∷ m) =
      let rest = assign q v m in if same_key k q then (k, v) ∷ m else (k, w) ∷ rest

  unfoldable pub remove : K → List (K × V) → List (K × V)
  remove q [] = []
  remove q ((k, v) ∷ m) = let rest = remove q m in if same_key k q then m else (k, v) ∷ rest

-- the sum of a measure over all values
unfoldable pub sum_of : {K V : Type 0} → (V → ℕ) → List (K × V) → ℕ
sum_of f [] = 0
sum_of f ((k, v) ∷ m) = f v + sum_of f m

module _ {K V : Type 0} (same_key : K → K → Bool) (f : V → ℕ) where
  pub sum_of-remove :
      (q : K) (v : V) (m : List (K × V))
      → lookup same_key q m ≡ some v
      → sum_of f (remove same_key q m) + f v ≡ sum_of f m
  unfolding lookup remove sum_of
  sum_of-remove q v [] e = absurd (ground (arith, e))
  sum_of-remove q v ((k, w) ∷ m) e = elim (Bool-cases (same_key k q)) [
    | inl y ↦ rw y (grind (arith, e, y))
    | inr n ↦ rw n (let ih = sum_of-remove q v m (grind (arith, e, n)) in omega (arith, ih))
  ]

  pub sum_of-assign :
      (q : K) (v w : V) (m : List (K × V))
      → lookup same_key q m ≡ some w
      → sum_of f (assign same_key q v m) + f w ≡ sum_of f m + f v
  unfolding lookup assign sum_of
  sum_of-assign q v w [] e = absurd (ground (arith, e))
  sum_of-assign q v w ((k, x) ∷ m) e = elim (Bool-cases (same_key k q)) [
    | inl y ↦ rw y (grind (arith, e, y))
    | inr n ↦ rw n (let ih = sum_of-assign q v w m (grind (arith, e, n)) in omega (arith, ih))
  ]

  pub sum_of-assign_new :
      (q : K) (v : V) (m : List (K × V))
      → lookup same_key q m ≡ none
      → sum_of f (assign same_key q v m) ≡ sum_of f m + f v
  unfolding lookup assign sum_of
  sum_of-assign_new q v [] e = omega arith
  sum_of-assign_new q v ((k, x) ∷ m) e = elim (Bool-cases (same_key k q)) [
    | inl y ↦ absurd (grind (arith, e, y))
    | inr n ↦ rw n (let ih = sum_of-assign_new q v m (grind (arith, e, n)) in omega (arith, ih))
  ]
