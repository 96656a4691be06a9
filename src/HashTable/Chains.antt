-- ===== src/HashTable/Chains.antt =====
-- One chain of hash_table.h: the walk, the assignment and the unlinking, and how often a key occurs.
use gate_keeper.Base.{
  ℕ, ◌+◌, ◌≤◌, ◌≡◌, refl, Bool, true, false, Option, none, some, [], ◌∷◌, ◌++◌, arith,
  if◌then◌else◌, length,
}
use gate_keeper.HashTable.{Hashing, Chain, find_in, assign_in, erase_in}

abbrev pub one_if : Bool → ℕ
one_if true = 1
one_if false = 0

-- the first value unless there is none
abbrev pub or_else : {V : Type 0} → Option V → Option V → Option V
or_else none b = b
or_else (some v) b = some v

module _ {K V : Type 0} ⦃h : Hashing K⦄ where
  unfoldable pub count : K → Chain K V → ℕ
  count x [] = 0
  count x ((j, v) ∷ c) = one_if (h.equal j x) + count x c

  pub find_in-eq-none : (x : K) (c : Chain K V) → count x c ≡ 0 → find_in x c ≡ none
  unfolding count find_in
  find_in-eq-none x [] e = refl
  find_in-eq-none x ((j, v) ∷ c) e = ground (arith, find_in-eq-none x c)

  pub count-eq-zero : (x : K) (c : Chain K V) → find_in x c ≡ none → count x c ≡ 0
  unfolding count find_in
  count-eq-zero x [] e = refl
  count-eq-zero x ((j, v) ∷ c) e = ground (arith, count-eq-zero x c)

  pub find_in-append :
      (x : K) (a b : Chain K V) → find_in x (a ++ b) ≡ or_else (find_in x a) (find_in x b)
  unfolding find_in
  find_in-append x [] b = refl
  find_in-append x ((j, v) ∷ a) b = ground (arith, find_in-append x a b)

  pub count-append : (x : K) (a b : Chain K V) → count x (a ++ b) ≡ count x a + count x b
  unfolding count
  count-append x [] b = ground arith
  count-append x ((j, v) ∷ a) b = ground (arith, count-append x a b)

  pub find_in-assign :
      (k x : K) (v old : V) (c : Chain K V)
      → find_in k c ≡ some old
      → find_in x (assign_in k v c) ≡ (if h.equal k x then some v else find_in x c)
  unfolding find_in assign_in
  find_in-assign k x v old [] e = ground arith
  find_in-assign k x v old ((j, w) ∷ c) e =
      ground (arith, find_in-assign k x v old c, h.equal_iff j k, h.equal_iff j x, h.equal_iff k x)

  pub count-assign : (k x : K) (v : V) (c : Chain K V) → count x (assign_in k v c) ≡ count x c
  unfolding count assign_in
  count-assign k x v [] = refl
  count-assign k x v ((j, w) ∷ c) = ground (arith, count-assign k x v c)

  pub find_in-erase :
      (k x : K) (c : Chain K V)
      → count x c ≤ 1
      → find_in x (erase_in k c) ≡ (if h.equal k x then none else find_in x c)
  unfolding find_in erase_in count
  find_in-erase k x [] e = ground arith
  find_in-erase k x ((j, w) ∷ c) e = ground (
    arith,
    find_in-erase k x c,
    find_in-eq-none x c,
    h.equal_iff j k,
    h.equal_iff j x,
    h.equal_iff k x,
  )

  pub count-erase-le : (k x : K) (c : Chain K V) → count x (erase_in k c) ≤ count x c
  unfolding count erase_in
  count-erase-le k x [] = ground arith
  count-erase-le k x ((j, w) ∷ c) = ground (arith, count-erase-le k x c)

  pub length-assign : (k : K) (v : V) (c : Chain K V) → length (assign_in k v c) ≡ length c
  unfolding assign_in
  length-assign k v [] = refl
  length-assign k v ((j, w) ∷ c) = ground (arith, length-assign k v c)

  pub length-erase :
      (k : K) (old : V) (c : Chain K V)
      → find_in k c ≡ some old
      → length (erase_in k c) + 1 ≡ length c
  unfolding erase_in find_in
  length-erase k old [] e = ground arith
  length-erase k old ((j, w) ∷ c) e = ground (arith, length-erase k old c)

  pub assign_in-absent : (k : K) (v : V) (c : Chain K V) → find_in k c ≡ none → assign_in k v c ≡ c
  unfolding assign_in find_in
  assign_in-absent k v [] e = refl
  assign_in-absent k v ((j, w) ∷ c) e = ground (arith, assign_in-absent k v c)
