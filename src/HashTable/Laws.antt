-- ===== src/HashTable/Laws.antt =====
-- hash_table.h: `Insert`, `Erase` and writes keep the table well formed, and the table is a function
-- from keys.
use gate_keeper.Base.{
  ℕ, ◌+◌, ◌-◌, ◌*◌, ◌<◌, sym, ap, ◌∙◌, ◌≡◌, refl, ◌⊎◌, inl, inr, Bool, true, false, not, Option,
  none, some, List, [], ◌∷◌, arith, if◌then◌else◌, length, Bool-cases, Option-cases,
}
use gate_keeper.HashTable.{
  Hashing, Chain, HashTable, no_buckets, find_in, assign_in, chain_of, put_chain, find, write,
  resize, push_node, insert_node, insert, erase,
}
use gate_keeper.HashTable.Buckets.{view, update}
use gate_keeper.HashTable.Models.{
  IsValid, Models, find-view, resize-Models, added, is_none, replaced, flatten_of_empty,
  length_of_nonempty, nonempty_of_length,
}
use gate_keeper.HashTable.Nodes.{
  positive, write-Models, write_absent-Models, push_node-Models, erase_node-Models,
}

module _ {K V : Type 0} ⦃h : Hashing K⦄ where
  update-Models :
      (k : K) (v : Option V) (n m : ℕ) (t t' u : HashTable K V)
      → ((q : K) → find q t' ≡ find q t)
      → n ≡ m
      → Models (update (λ q. find q t') k v) n u
      → Models (update (λ q. find q t) k v) m u
  update-Models k v n m t t' u e size held = record {
    valid = held.valid;
    counted = held.counted ∙ size;
    finds = λ q. rw (← e q) (held.finds q);
  }

  grow-Models :
      (b : Bool) (n : ℕ) (t : HashTable K V)
      → IsValid t
      → t.size < n ⊎ (0 < length t.buckets)
      → (b ≡ false → 0 < length t.buckets)
      → Models (λ q. find q t) t.size (if b then resize n t else t)
        × (0 < length (if b then resize n t else t).buckets)
  grow-Models true n t valid room pos = resize-Models n t valid room
  grow-Models false n t valid room pos =
      (record { valid = valid; counted = refl; finds = λ q. refl }, pos refl)

  insert_node-Models :
      (k : K) (v : V) (t : HashTable K V)
      → IsValid t
      → 0 < length t.buckets
      → ((insert_node k v t).1 ≡ is_none (find k t))
        × Models
            (update (λ q. find q t) k (some v))
            (t.size + added (is_none (find k t)))
            (insert_node k v t).0
  unfolding insert_node
  insert_node-Models k v t valid pos =
      let here : find k t ≡ find_in k (chain_of t.buckets k) = unfold view in find-view k t in
      elim (Option-cases (find k t)) [
        | inl absent ↦
            let missing : find_in k (chain_of t.buckets k) ≡ none = sym here ∙ absent in
            let over = h.over_load (t.size + 1) (length t.buckets) in
            let grown = grow-Models over (length t.buckets * 2) t valid (inr pos) (λ _. pos) in
            let t' = if over then resize (length t.buckets * 2) t else t in
            rw (missing, insert_node, absent)
              (
                refl,
                update-Models k (some v) (t'.size + 1) (t.size + 1) t t' (push_node k v t')
                    grown.0.finds (omega (arith, grown.0.counted))
                    (push_node-Models t' grown.0.valid k v grown.1 (grown.0.finds k ∙ absent)),
              )
        | inr (old, found) ↦
            let present : find_in k (chain_of t.buckets k) ≡ some old = sym here ∙ found in
            let written = write-Models t valid k v old found in
            rw (present, insert_node, found)
              (
                refl,
                record {
                  valid = written.valid;
                  counted = omega (arith, written.counted);
                  finds = written.finds;
                },
              )
      ]

  -- `Insert` sets the value of its key, changes no other key, keeps the table well formed, adds to
  -- the size only when the key is new, and says whether it was.
  pub insert-Models :
      (k : K) (v : V) (t : HashTable K V)
      → IsValid t
      → ((insert k v t).1 ≡ is_none (find k t))
        × Models
            (update (λ q. find q t) k (some v))
            (t.size + added (is_none (find k t)))
            (insert k v t).0
  unfolding insert
  insert-Models k v t valid =
      let bare = no_buckets t.buckets in
      let t' = if bare then resize 8 t else t in
      let grown =
        grow-Models bare 8 t valid
          (elim (Bool-cases bare) [
            | inl e ↦ inl (omega (arith, flatten_of_empty t.buckets e, valid.sized))
            | inr e ↦ inr (length_of_nonempty t.buckets e)
          ])
          (length_of_nonempty t.buckets) in
      let inserted = insert_node-Models k v t' grown.0.valid grown.1 in
      (
        inserted.0 ∙ ap is_none (grown.0.finds k),
        update-Models k (some v) (t'.size + added (is_none (find k t')))
            (t.size + added (is_none (find k t))) t t' (insert_node k v t').0 grown.0.finds
            (rw (grown.0.finds k) (omega (arith, grown.0.counted))) inserted.1,
      )

  -- `Erase` removes its key alone, keeps the table well formed, and says whether the key was
  -- there.
  pub erase-Models :
      (k : K) (t : HashTable K V)
      → IsValid t
      → ((erase k t).1 ≡ not (is_none (find k t)))
        × Models
            (update (λ q. find q t) k none)
            (t.size - added (not (is_none (find k t))))
            (erase k t).0
  unfolding erase
  erase-Models k t valid =
      let here : find k t ≡ find_in k (chain_of t.buckets k) = unfold view in find-view k t in
      elim (Option-cases (find k t)) [
        | inl absent ↦
            let missing : find_in k (chain_of t.buckets k) ≡ none = sym here ∙ absent in
            let unchanged : Models (update (λ q. find q t) k none) (t.size - 0) t = record {
              valid = valid;
              counted = omega arith;
              finds = λ q. ground (arith, absent, h.equal_iff k q);
            } in
            rw (missing, absent)
              (elim (Bool-cases (no_buckets t.buckets)) [
                | inl e ↦ rw e (refl, unchanged)
                | inr e ↦ rw e (refl, unchanged)
              ])
        | inr (old, found) ↦
            let present : find_in k (chain_of t.buckets k) ≡ some old = sym here ∙ found in
            let bare : no_buckets t.buckets ≡ false =
              nonempty_of_length t.buckets (positive t valid k old found) in
            rw (present, found, bare) (refl, erase_node-Models t valid k old found)
      ]

  put_chain-bare :
      (bs : List (Chain K V)) (k : K) (c : Chain K V) → no_buckets bs ≡ true → put_chain bs k c ≡ bs
  put_chain-bare [] k c e = refl
  put_chain-bare (b ∷ bs) k c e = cc

  write-bare : (k : K) (v : V) (t : HashTable K V) → no_buckets t.buckets ≡ true → write k v t ≡ t
  unfolding write
  write-bare k v t e =
      ap {B = HashTable K V} (λ bs. record { buckets = bs; size = t.size })
        (put_chain-bare t.buckets k (assign_in k v (chain_of t.buckets k)) e)

  -- A write under any key: it replaces the value of a key that is there, and else changes nothing.
  pub write_any-Models :
      (k : K) (v : V) (t : HashTable K V)
      → IsValid t
      → IsValid (write k v t)
        × ((q : K)
            → find q (write k v t) ≡ (if h.equal k q then replaced (find k t) v else find q t))
  write_any-Models k v t valid = elim (Option-cases (find k t)) [
    | inr (old, found) ↦
        let written = write-Models t valid k v old found in
        (written.valid, λ q. ground (arith, written.finds q, found))
    | inl absent ↦ elim (Bool-cases (no_buckets t.buckets)) [
      | inr e ↦
          let written = write_absent-Models t valid k v (length_of_nonempty t.buckets e) absent in
          (written.valid, λ q. ground (arith, written.finds q, absent, h.equal_iff k q))
      | inl e ↦
          let same_table = write-bare k v t e in
          (rw same_table valid, λ q. rw same_table (ground (arith, absent, h.equal_iff k q)))
    ]
  ]
