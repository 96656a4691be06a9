-- ===== src/HashTable/Copies.antt =====
-- The copy constructor of hash_table.h: inserting the nodes of another table one by one.
use gate_keeper.Base.{
  ◌+◌, ◌≤◌, ◌≡◌, refl, sym, ◌⊎◌, inr, none, [], ◌∷◌, flatten, arith, length, replicate,
}
use gate_keeper.HashTable.{
  Hashing, Chain, HashTable, entries, find_in, find, insert, insert_all, copy,
}
use gate_keeper.HashTable.Chains.{or_else, count, find_in-eq-none}
use gate_keeper.HashTable.Buckets.{flatten-view}
use gate_keeper.HashTable.Moves.{replicate-Holds}
use gate_keeper.HashTable.Laws.{insert-Models}
use gate_keeper.HashTable.Models.{IsValid, Models, find-view}

module _ {K V : Type 0} ⦃h : Hashing K⦄ where
  -- Distinct keys that the table does not have.
  abbrev AreNew : Chain K V → HashTable K V → Type 0
  AreNew l t = (q : K) → (count q l ≤ 1) × ((count q l ≡ 0) ⊎ (find q t ≡ none))

  AreNew-insert :
      (k : K) (v : V) (l : Chain K V) (t : HashTable K V)
      → IsValid t
      → AreNew ((k, v) ∷ l) t
      → AreNew l (insert k v t).0
  unfolding count
  AreNew-insert k v l t valid new q = ground (arith, new q, (insert-Models k v t valid).1.finds q)

  head_absent :
      (k : K) (v : V) (l : Chain K V) (t : HashTable K V) → AreNew ((k, v) ∷ l) t → find k t ≡ none
  unfolding count
  head_absent k v l t new = ground (arith, new k, h.equal_iff k k)

  insert_all-Models :
      (l : Chain K V) (t : HashTable K V)
      → IsValid t
      → AreNew l t
      → Models (λ q. or_else (find_in q l) (find q t)) (t.size + length l) (insert_all l t)
  unfolding insert_all find_in count
  insert_all-Models [] t valid new = record {
    valid = valid;
    counted = omega arith;
    finds = λ q. refl;
  }
  insert_all-Models ((k, v) ∷ l) t valid new =
      let one = insert-Models k v t valid in
      let rest =
        insert_all-Models l (insert k v t).0 one.1.valid (AreNew-insert k v l t valid new) in
      record {
        valid = rest.valid;
        counted = ground (arith, rest.counted, one.1.counted, head_absent k v l t new);
        finds = λ q. ground (arith, rest.finds q, one.1.finds q, new q, find_in-eq-none q l);
      }

  -- A copy of a well-formed table answers every `Find` as the original does and has its size.
  pub copy-Models : (t : HashTable K V) → IsValid t → Models (λ q. find q t) t.size (copy t)
  unfolding copy entries
  copy-Models t valid =
      let n = length t.buckets in
      let bare : HashTable K V = record { buckets = replicate n []; size = 0 } in
      let empty = replicate-Holds {V = V} n in
      let nothing : (q : K) → find q bare ≡ none = λ q. rw (find-view q bare) (empty.finds q) in
      let distinct = λ (q : K). flatten-view t.buckets q valid.placed in
      let copied =
        insert_all-Models (flatten t.buckets) bare
          (record { placed = empty.placed; sized = sym empty.nodes })
          (λ q. ((distinct q).1, inr (nothing q))) in
      record {
        valid = copied.valid;
        counted = omega (arith, copied.counted, valid.sized);
        finds = λ q. ground (arith, copied.finds q, nothing q, (distinct q).0, find-view q t);
      }
