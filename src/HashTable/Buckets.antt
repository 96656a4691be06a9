-- ===== src/HashTable/Buckets.antt =====
-- Where the nodes of hash_table.h stand, and the change of one bucket.
use gate_keeper.Base.{
  ℕ, zero, suc, ◌+◌, ◌≤◌, ◌<◌, max, ◌≡◌, refl, sym, ◌≢◌, Option, List, [], ◌∷◌, flatten, arith,
  if◌then◌else◌, length, get_or, length-set, get_or-set, length-flatten-set,
}
use gate_keeper.HashTable.{Hashing, Chain, find_in, hash_key, chain_of, put_chain}
use gate_keeper.HashTable.Chains.{one_if, count, find_in-append, count-append, find_in-eq-none}

pub hash_key-lt : {K : Type 0} ⦃h : Hashing K⦄ (k : K) (n : ℕ) → 0 < n → hash_key k n < n
unfolding hash_key
hash_key-lt k n e = omega arith

module _ {K V : Type 0} ⦃h : Hashing K⦄ where
  -- A key occurs at most once, and only in its own bucket.
  abbrev pub IsPlaced : List (Chain K V) → Type 0
  IsPlaced heads =
      (x : K) (i : ℕ)
      → (count x (get_or heads i []) ≤ 1)
        × (hash_key x (length heads) ≢ i → count x (get_or heads i []) ≡ 0)

  unfoldable pub view : List (Chain K V) → K → Option V
  view heads x = find_in x (chain_of heads x)

  absent_in_all :
      (x : K) (heads : List (Chain K V))
      → ((i : ℕ) → count x (get_or heads i []) ≡ 0)
      → count x (flatten heads) ≡ 0
  unfolding flatten count
  absent_in_all x [] e = refl
  absent_in_all x (c ∷ heads) e =
      rw (count-append x c (flatten heads))
        (omega (arith, e 0, absent_in_all x heads (λ i. e (suc i))))

  -- A key that stands in one bucket alone is counted and found in all nodes as in that bucket.
  flatten_at :
      (x : K) (heads : List (Chain K V)) (j : ℕ)
      → ((i : ℕ) → i ≢ j → count x (get_or heads i []) ≡ 0)
      → (find_in x (flatten heads) ≡ find_in x (get_or heads j []))
        × (count x (flatten heads) ≡ count x (get_or heads j []))
  unfolding flatten
  flatten_at x [] j e = (refl, refl)
  flatten_at x (c ∷ heads) zero e =
      let rest = absent_in_all x heads (λ i. e (suc i) (omega arith)) in
      rw (find_in-append x c (flatten heads), count-append x c (flatten heads))
        (ground (arith, rest, find_in-eq-none x (flatten heads) rest))
  flatten_at x (c ∷ heads) (suc j) e =
      let ih = flatten_at x heads j (λ i n. e (suc i) (omega arith)) in
      rw (find_in-append x c (flatten heads), count-append x c (flatten heads))
        (ground (arith, e 0 (omega arith), find_in-eq-none x c (e 0 (omega arith)), ih))

  pub flatten-view :
      (heads : List (Chain K V)) (x : K)
      → IsPlaced heads
      → (find_in x (flatten heads) ≡ view heads x) × (count x (flatten heads) ≤ 1)
  unfolding view
  flatten-view heads x placed =
      let both =
        flatten_at x heads (hash_key x (length heads)) (λ i n. (placed x i).1 (λ e. n (sym e))) in
      (both.0, omega (arith, both.1, (placed x (hash_key x (length heads))).0))

  -- What is known of the buckets: their number, the number of nodes, their places, what is found.
  pub record Holds (n total : ℕ) (f : K → Option V) (heads : List (Chain K V)) : Type 0 where
    pub width : length heads ≡ n
    pub nodes : length (flatten heads) ≡ total
    pub placed : IsPlaced heads
    pub finds : (x : K) → view heads x ≡ f x

  abbrev pub update : (K → Option V) → K → Option V → K → Option V
  update f k v x = if h.equal k x then v else f x

  module _ (heads : List (Chain K V)) (pos : 0 < length heads) (placed : IsPlaced heads)
      (k : K) where
    -- A new chain in the bucket of `k` that differs from the old one at `k` alone.
    pub put_chain-Holds :
        (v : Option V) (c : Chain K V) (total : ℕ)
        → total + length (chain_of heads k) ≡ length (flatten heads) + length c
        → ((x : K) → count x c ≤ max (one_if (h.equal k x)) (count x (chain_of heads k)))
        → ((x : K) → find_in x c ≡ (if h.equal k x then v else find_in x (chain_of heads k)))
        → Holds (length heads) total (update (view heads) k v) (put_chain heads k c)
    unfolding view
    put_chain-Holds v c total sized few found =
        let inside = hash_key-lt k (length heads) pos in
        record {
          width = length-set heads (hash_key k (length heads)) c;
          nodes = omega (arith, length-flatten-set (hash_key k (length heads)) c heads inside);
          placed = λ x i.
              rw (length-set, get_or-set heads (hash_key k (length heads)) i c [] inside)
                (ground (arith, placed x i, few x, h.equal_iff k x));
          finds = λ x.
              rw
                (
                  length-set,
                  get_or-set heads (hash_key k (length heads)) (hash_key x (length heads)) c []
                      inside,
                )
                (ground (arith, found x, h.equal_iff k x));
        }
