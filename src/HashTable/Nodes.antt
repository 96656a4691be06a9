-- ===== src/HashTable/Nodes.antt =====
-- hash_table.h: the change of one node, in a table that has buckets.
use gate_keeper.Base.{
  ℕ, ◌+◌, ◌-◌, ◌≤◌, ◌<◌, max, sym, ◌∙◌, ◌≡◌, refl, Option, none, some, [], arith, if◌then◌else◌,
  length, length-flatten-set,
}
use gate_keeper.HashTable.{
  Hashing, Chain, HashTable, find_in, assign_in, erase_in, hash_key, chain_of, put_chain, find,
  write, push_node,
}
use gate_keeper.HashTable.Chains.{
  one_if, count, find_in-assign, count-assign, find_in-erase, count-erase-le, assign_in-absent,
  length-assign, length-erase,
}
use gate_keeper.HashTable.Buckets.{view, update, put_chain-Holds, hash_key-lt}
use gate_keeper.HashTable.Moves.{push-Holds}
use gate_keeper.HashTable.Models.{IsValid, Models, find-view, Holds-Models}

module _ {K V : Type 0} ⦃h : Hashing K⦄ where
  pub update_same :
      (k q : K) (v : Option V) (t t' : HashTable K V)
      → find q t' ≡ find q t
      → update (λ q. find q t') k v q ≡ update (λ q. find q t) k v q
  update_same k q v t t' e = rw e

  module _ (t : HashTable K V) (valid : IsValid t) (k : K) where
    pub put_chain-Models :
        (v : Option V) (c : Chain K V) (n : ℕ)
        → 0 < length t.buckets
        → n + length (chain_of t.buckets k) ≡ t.size + length c
        → ((q : K) → count q c ≤ max (one_if (h.equal k q)) (count q (chain_of t.buckets k)))
        → ((q : K) → find_in q c ≡ (if h.equal k q then v else find_in q (chain_of t.buckets k)))
        → Models
            (update (λ q. find q t) k v)
            n
            (record { buckets = put_chain t.buckets k c; size = n })
    put_chain-Models v c n pos sized few found =
        let held =
          put_chain-Holds t.buckets pos valid.placed k v c n (omega (arith, valid.sized)) few
            found in
        Holds-Models (length t.buckets) n (update (λ q. find q t) k v)
          (record { buckets = put_chain t.buckets k c; size = n })
          (record {
            width = held.width;
            nodes = held.nodes;
            placed = held.placed;
            finds = λ q. rw (find-view q t) (held.finds q);
          })
          refl

    pub positive : (old : V) → find k t ≡ some old → 0 < length t.buckets
    unfolding find
    positive old found = ground arith

    -- A write through a found pointer changes the value of its key alone.
    pub write-Models :
        (v old : V)
        → find k t ≡ some old
        → Models (update (λ q. find q t) k (some v)) t.size (write k v t)
    unfolding write
    write-Models v old found =
        let c = chain_of t.buckets k in
        let here : find_in k c ≡ some old = unfold view in sym (find-view k t) ∙ found in
        put_chain-Models (some v) (assign_in k v c) t.size (positive old found)
          (omega (arith, length-assign k v c)) (λ q. omega (arith, count-assign k q v c))
          (λ q. find_in-assign k q v old c here)

    -- A write for a key that is not there changes no answer.
    pub write_absent-Models :
        (v : V)
        → 0 < length t.buckets
        → find k t ≡ none
        → Models (λ q. find q t) t.size (write k v t)
    unfolding write
    write_absent-Models v pos absent =
        let c = chain_of t.buckets k in
        let here : find_in k c ≡ none = unfold view in sym (find-view k t) ∙ absent in
        let held =
          put_chain-Models none (assign_in k v c) t.size pos (omega (arith, length-assign k v c))
            (λ q. omega (arith, count-assign k q v c))
            (λ q. rw (assign_in-absent k v c here) (ground (arith, here, h.equal_iff k q))) in
        record {
          valid = held.valid;
          counted = held.counted;
          finds = λ q. ground (arith, held.finds q, absent, h.equal_iff k q);
        }

    pub push_node-Models :
        (v : V)
        → 0 < length t.buckets
        → find k t ≡ none
        → Models (update (λ q. find q t) k (some v)) (t.size + 1) (push_node k v t)
    unfolding push_node
    push_node-Models v pos absent =
        let held = push-Holds k v t.buckets pos valid.placed (rw (find-view k t) at absent) in
        Holds-Models (length t.buckets) (t.size + 1) (update (λ q. find q t) k (some v)) _
          (record {
            width = held.width;
            nodes = omega (arith, held.nodes, valid.sized);
            placed = held.placed;
            finds = λ q. rw (find-view q t) (held.finds q);
          })
          refl

    pub erase_node-Models :
        (old : V)
        → find k t ≡ some old
        → Models (update (λ q. find q t) k none) (t.size - 1) (record {
          buckets = put_chain t.buckets k (erase_in k (chain_of t.buckets k));
          size = t.size - 1;
        })
    erase_node-Models old found =
        let c = chain_of t.buckets k in
        let here : find_in k c ≡ some old = unfold view in sym (find-view k t) ∙ found in
        let pos = positive old found in
        let counted =
          length-flatten-set (hash_key k (length t.buckets)) [] t.buckets
            (hash_key-lt k (length t.buckets) pos) in
        put_chain-Models none (erase_in k c) (t.size - 1) pos
          (omega (arith, counted, valid.sized, length-erase k old c here))
          (λ q. omega (arith, count-erase-le k q c))
          (λ q. find_in-erase k q c (valid.placed q (hash_key k (length t.buckets))).0)
