-- ===== src/HashTable/Moves.antt =====
-- The loops of `HashTable::Resize` (hash_table.h): where the moved nodes end up.
use gate_keeper.Base.{
  ℕ, zero, suc, ◌+◌, ◌≤◌, ◌<◌, ◌≡◌, refl, ◌⊎◌, inr, none, some, List, [], ◌∷◌, ◌++◌, flatten, arith,
  length, replicate, get_or-replicate, length-replicate,
}
use gate_keeper.HashTable.{
  Hashing, Chain, find_in, hash_key, chain_of, put_chain, move_nodes, move_buckets,
}
use gate_keeper.HashTable.Chains.{or_else, count, find_in-eq-none, count-eq-zero}
use gate_keeper.HashTable.Buckets.{IsPlaced, view, Holds, update, put_chain-Holds, flatten-view}

module _ {K V : Type 0} ⦃h : Hashing K⦄ where
  -- The nodes to move have distinct keys, and none of them stands in the new buckets yet.
  abbrev pub IsFresh : Chain K V → List (Chain K V) → Type 0
  IsFresh c fresh = (x : K) → (count x c ≤ 1) × ((count x c ≡ 0) ⊎ (view fresh x ≡ none))

  -- One node at the front of its new bucket.
  pub push-Holds :
      (k : K) (v : V) (heads : List (Chain K V))
      → 0 < length heads
      → IsPlaced heads
      → view heads k ≡ none
      → Holds
          (length heads)
          (length (flatten heads) + 1)
          (update (view heads) k (some v))
          (put_chain heads k ((k, v) ∷ chain_of heads k))
  unfolding view count find_in
  push-Holds k v heads pos placed absent =
      let missing : count k (chain_of heads k) ≡ 0 = count-eq-zero k (chain_of heads k) absent in
      put_chain-Holds heads pos placed k (some v) ((k, v) ∷ chain_of heads k)
        (length (flatten heads) + 1) (omega arith) (λ x. ground (arith, missing, h.equal_iff k x))
        (λ x. ground arith)

  push-IsFresh :
      (k : K) (v : V) (c : Chain K V) (heads bs' : List (Chain K V))
      → IsFresh ((k, v) ∷ c) heads
      → ((x : K) → view bs' x ≡ update (view heads) k (some v) x)
      → IsFresh c bs'
  unfolding count
  push-IsFresh k v c heads bs' fresh found x = ground (arith, fresh x, found x)

  absent_at_head :
      (k : K) (v : V) (c : Chain K V) (heads : List (Chain K V))
      → IsFresh ((k, v) ∷ c) heads
      → view heads k ≡ none
  unfolding count
  absent_at_head k v c heads fresh = ground (arith, fresh k, h.equal_iff k k)

  -- The inner loop adds its nodes to the new buckets and loses none.
  pub move_nodes-Holds :
      (c : Chain K V) (fresh : List (Chain K V))
      → 0 < length fresh
      → IsPlaced fresh
      → IsFresh c fresh
      → Holds
          (length fresh)
          (length c + length (flatten fresh))
          (λ x. or_else (find_in x c) (view fresh x))
          (move_nodes c fresh)
  unfolding move_nodes find_in count
  move_nodes-Holds [] fresh pos placed new = record {
    width = refl;
    nodes = omega arith;
    placed = placed;
    finds = λ x. refl;
  }
  move_nodes-Holds ((k, v) ∷ c) fresh pos placed new =
      let one = push-Holds k v fresh pos placed (absent_at_head k v c fresh new) in
      let heads = put_chain fresh k ((k, v) ∷ chain_of fresh k) in
      let rest =
        move_nodes-Holds c heads (omega (arith, one.width)) one.placed
          (push-IsFresh k v c fresh heads new one.finds) in
      record {
        width = omega (arith, rest.width, one.width);
        nodes = omega (arith, rest.nodes, one.nodes);
        placed = rest.placed;
        finds = λ x. ground (arith, rest.finds x, one.finds x, new x, find_in-eq-none x c);
      }

  move_nodes-append :
      (a b : Chain K V) (fresh : List (Chain K V))
      → move_nodes (a ++ b) fresh ≡ move_nodes b (move_nodes a fresh)
  unfolding move_nodes
  move_nodes-append [] b fresh = refl
  move_nodes-append ((k, v) ∷ a) b fresh =
      move_nodes-append a b (put_chain fresh k ((k, v) ∷ chain_of fresh k))

  -- The two nested loops move the nodes in the order of `ForEach`.
  pub move_buckets-flatten :
      (heads fresh : List (Chain K V)) → move_buckets heads fresh ≡ move_nodes (flatten heads) fresh
  unfolding move_buckets move_nodes flatten
  move_buckets-flatten [] fresh = refl
  move_buckets-flatten (c ∷ heads) fresh =
      rw (move_nodes-append c (flatten heads) fresh)
        (move_buckets-flatten heads (move_nodes c fresh))

  flatten-replicate : (n : ℕ) → flatten (replicate {A = Chain K V} n []) ≡ []
  unfolding flatten replicate
  flatten-replicate zero = refl
  flatten-replicate (suc n) = flatten-replicate n

  -- Empty buckets.
  pub replicate-Holds : (n : ℕ) → Holds {K = K} {V = V} n 0 (λ x. none) (replicate n [])
  unfolding view count find_in
  replicate-Holds n = record {
    width = length-replicate n [];
    nodes = rw (flatten-replicate n);
    placed = λ x i. rw (get_or-replicate {A = Chain K V} n i []) (omega arith);
    finds = λ x. rw (
        get_or-replicate {A = Chain K V} n (hash_key x (length (replicate {A = Chain K V} n [])))
          []);
  }

  -- All nodes of well-placed buckets, moved to `n` new buckets.
  pub move_buckets-Holds :
      (heads : List (Chain K V)) (n : ℕ)
      → 0 < n
      → IsPlaced heads
      → Holds n (length (flatten heads)) (view heads) (move_buckets heads (replicate n []))
  move_buckets-Holds heads n pos placed =
      let empty = replicate-Holds n in
      let moved =
        move_nodes-Holds (flatten heads) (replicate n []) (omega (arith, empty.width)) empty.placed
          (λ x. ((flatten-view heads x placed).1, inr (empty.finds x))) in
      rw (move_buckets-flatten heads (replicate n [])) (record {
        width = omega (arith, moved.width, empty.width);
        nodes = omega (arith, moved.nodes, empty.nodes);
        placed = moved.placed;
        finds = λ x. ground (arith, moved.finds x, empty.finds x, (flatten-view heads x placed).0);
      })
