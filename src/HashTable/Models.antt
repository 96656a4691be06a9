-- ===== src/HashTable/Models.antt =====
-- hash_table.h: when a table is well formed, and what it holds; `Resize` keeps both.
use gate_keeper.Base.{
  ℕ, ◌<◌, ◌≡◌, refl, ◌⊎◌, inl, inr, Bool, true, false, Option, none, some, List, [], ◌∷◌, flatten,
  arith, if◌then◌else◌, length, replicate, leb, ltb, Bool-cases,
}
use gate_keeper.HashTable.{
  Hashing, Chain, HashTable, new, no_buckets, find_in, find, resize, move_buckets,
}
use gate_keeper.HashTable.Buckets.{IsPlaced, view, Holds}
use gate_keeper.HashTable.Moves.{replicate-Holds, move_buckets-Holds}

abbrev pub added : Bool → ℕ
added true = 1
added false = 0

abbrev pub is_none {ℓ} : {V : Type ℓ} → Option V → Bool
is_none none = true
is_none (some v) = false

-- The value of a key that is there is replaced.
abbrev pub replaced {ℓ} : {V : Type ℓ} → Option V → V → Option V
replaced none v = none
replaced (some w) v = some v

module _ {K V : Type 0} where
  pub flatten_of_empty : (bs : List (Chain K V)) → no_buckets bs ≡ true → length (flatten bs) ≡ 0
  unfolding flatten
  flatten_of_empty [] e = refl
  flatten_of_empty (c ∷ bs) e = cc

  pub length_of_nonempty : (bs : List (Chain K V)) → no_buckets bs ≡ false → 0 < length bs
  length_of_nonempty [] e = cc
  length_of_nonempty (c ∷ bs) e = omega arith

  pub nonempty_of_length : (bs : List (Chain K V)) → 0 < length bs → no_buckets bs ≡ false
  nonempty_of_length [] e = absurd (omega arith)
  nonempty_of_length (c ∷ bs) e = refl

module _ {K V : Type 0} ⦃h : Hashing K⦄ where
  -- The nodes stand where their keys hash to, one for each key, and `size_` counts them.
  pub record IsValid (t : HashTable K V) : Type 0 where
    pub placed : IsPlaced t.buckets
    pub sized : t.size ≡ length (flatten t.buckets)

  pub find-view : (q : K) (t : HashTable K V) → find q t ≡ view t.buckets q
  unfolding find view find_in
  find-view q t = ground arith

  -- The table holds `n` entries and answers `Find` as `f` does.
  pub record Models (f : K → Option V) (n : ℕ) (t : HashTable K V) : Type 0 where
    pub valid : IsValid t
    pub counted : t.size ≡ n
    pub finds : (q : K) → find q t ≡ f q

  pub Holds-Models :
      (n total : ℕ) (f : K → Option V) (t : HashTable K V)
      → Holds n total f t.buckets
      → t.size ≡ total
      → Models f total t
  Holds-Models n total f t held sized = record {
    valid = record { placed = held.placed; sized = omega (arith, held.nodes) };
    counted = sized;
    finds = λ q. rw (find-view q t) (held.finds q);
  }

  pub new-Models : (capacity : ℕ) → Models (λ q. none) 0 (new {K = K} {V = V} capacity)
  unfolding new
  new-Models capacity =
      Holds-Models (if ltb capacity 8 then 8 else capacity) 0 (λ q. none) (new capacity)
        (replicate-Holds (if ltb capacity 8 then 8 else capacity)) refl

  -- A rehash of a well-formed table to more buckets than its size, or of a table that has buckets,
  -- changes no answer of `Find` and no size, and leaves at least one bucket.
  pub resize-Models :
      (n : ℕ) (t : HashTable K V)
      → IsValid t
      → t.size < n ⊎ (0 < length t.buckets)
      → Models (λ q. find q t) t.size (resize n t) × (0 < length (resize n t).buckets)
  unfolding resize
  resize-Models n t valid room = elim (Bool-cases (leb n t.size)) [
    | inl small ↦
        rw small (record { valid = valid; counted = refl; finds = λ q. refl }, ground arith)
    | inr large ↦
        let moved = move_buckets-Holds t.buckets n (ground arith) valid.placed in
        let held : Holds n t.size (λ q. find q t) (move_buckets t.buckets (replicate n [])) =
          record {
            width = moved.width;
            nodes = omega (arith, moved.nodes, valid.sized);
            placed = moved.placed;
            finds = λ q. rw (find-view q t) (moved.finds q);
          } in
        rw large (
          Holds-Models n t.size (λ q. find q t)
              (record t { buckets = move_buckets t.buckets (replicate n []) }) held refl,
          ground (arith, moved.width),
        )
  ]
