-- ===== src/HashTable.antt =====
-- include/gatekeeper/storage/hash_table.h: the chained hash table. A bucket's linked nodes are a
-- list; `std::hash` and the `float` load test are parameters (`Hashing`). A `Value*` that `Find` or
-- `Insert` returns is the key under which its node stands, and a write through it is `write`.
pub mod Chains
pub mod Buckets
pub mod Moves
pub mod Models
pub mod Nodes
pub mod Laws
pub mod Copies
pub mod Scans
use gate_keeper.Base.{
  ℕ, zero, suc, ◌+◌, ◌-◌, ◌*◌, ◌%◌, ◌≡◌, ◌↔◌, Bool, true, false, Option, none, some, List, [], ◌∷◌,
  ◌++◌, map, flatten, ltb, leb, if◌then◌else◌, length, get_or, set, drop, replicate,
}

-- The template parameters `Hash` and `KeyEqual`, and the test
-- `float(size + 1) > float(buckets) * max_load_factor_`.
pub record Hashing (K : Type 0) : Type 0 where
  pub equal : K → K → Bool
  pub equal_iff : (a b : K) → (equal a b ≡ true) ↔ (a ≡ b)
  pub hash : K → ℕ
  pub over_load : ℕ → ℕ → Bool

abbrev pub Chain : Type 0 → Type 0 → Type 0
Chain K V = List (K × V)

pub record HashTable (K V : Type 0) : Type 0 where
  pub buckets : List (Chain K V)
  pub size : ℕ

module _ {K V : Type 0} where
  -- the constructor
  unfoldable pub new : ℕ → HashTable K V
  new initial_capacity = record {
    buckets = replicate (if ltb initial_capacity 8 then 8 else initial_capacity) [];
    size = 0;
  }

  -- the nodes in the order in which `ForEach` calls `fn`
  unfoldable pub entries : HashTable K V → List (K × V)
  entries t = flatten t.buckets

  unfoldable pub clear : HashTable K V → HashTable K V
  clear t = record { buckets = map (λ _. []) t.buckets; size = 0 }

  abbrev no_buckets : List (Chain K V) → Bool
  no_buckets [] = true
  no_buckets (c ∷ bs) = false

  -- the move constructor: the new table, and what it leaves behind
  unfoldable pub move_out : HashTable K V → HashTable K V × HashTable K V
  move_out other = (other, record { buckets = []; size = 0 })

-- `Hash{}(key) % buckets_.size()`
unfoldable pub hash_key : {K : Type 0} ⦃h : Hashing K⦄ → K → ℕ → ℕ
hash_key ⦃h⦄ k n = h.hash k % n

module _ {K V : Type 0} ⦃h : Hashing K⦄ where
  -- the walk along a chain of `Find`
  unfoldable pub find_in : K → Chain K V → Option V
  find_in k [] = none
  find_in k ((j, v) ∷ c) = if h.equal j k then some v else find_in k c

  -- `curr->value = std::move(value)` at the first node with the key
  unfoldable pub assign_in : K → V → Chain K V → Chain K V
  assign_in k v [] = []
  assign_in k v ((j, w) ∷ c) = if h.equal j k then (j, v) ∷ c else (j, w) ∷ assign_in k v c

  -- the unlinking of the first node with the key
  unfoldable pub erase_in : K → Chain K V → Chain K V
  erase_in k [] = []
  erase_in k ((j, w) ∷ c) = if h.equal j k then c else (j, w) ∷ erase_in k c

  abbrev pub chain_of : List (Chain K V) → K → Chain K V
  chain_of bs k = get_or bs (hash_key k (length bs)) []

  abbrev pub put_chain : List (Chain K V) → K → Chain K V → List (Chain K V)
  put_chain bs k c = set bs (hash_key k (length bs)) c

  unfoldable pub find : K → HashTable K V → Option V
  find k t = if no_buckets t.buckets then none else find_in k (chain_of t.buckets k)

  -- a write through the pointer that `Find` returned for this key
  unfoldable pub write : K → V → HashTable K V → HashTable K V
  write k v t = record t { buckets = put_chain t.buckets k (assign_in k v (chain_of t.buckets k)) }

  -- the inner loop of `Resize`: each node goes to the front of its new bucket
  unfoldable pub move_nodes : Chain K V → List (Chain K V) → List (Chain K V)
  move_nodes [] fresh = fresh
  move_nodes ((k, v) ∷ c) fresh = move_nodes c (put_chain fresh k ((k, v) ∷ chain_of fresh k))

  unfoldable pub move_buckets : List (Chain K V) → List (Chain K V) → List (Chain K V)
  move_buckets [] fresh = fresh
  move_buckets (c ∷ bs) fresh = move_buckets bs (move_nodes c fresh)

  unfoldable pub resize : ℕ → HashTable K V → HashTable K V
  resize new_capacity t =
      if leb new_capacity t.size
      then t
      else record t { buckets = move_buckets t.buckets (replicate new_capacity []) }

  -- a new node at the front of its bucket
  unfoldable pub push_node : K → V → HashTable K V → HashTable K V
  push_node k v t = record {
    buckets = put_chain t.buckets k ((k, v) ∷ chain_of t.buckets k);
    size = t.size + 1;
  }

  -- `Insert` after its first test
  unfoldable pub insert_node : K → V → HashTable K V → HashTable K V × Bool
  insert_node k v t = elim (find_in k (chain_of t.buckets k)) [
    | some _ ↦ (write k v t, false)
    | none ↦ (
      push_node k v (
          if h.over_load (t.size + 1) (length t.buckets)
          then resize (length t.buckets * 2) t
          else t),
      true,
    )
  ]

  unfoldable pub insert : K → V → HashTable K V → HashTable K V × Bool
  insert k v t = insert_node k v (if no_buckets t.buckets then resize 8 t else t)

  unfoldable pub erase : K → HashTable K V → HashTable K V × Bool
  erase k t = if no_buckets t.buckets then (t, false) else elim (find_in k (chain_of t.buckets k)) [
    | none ↦ (t, false)
    | some _ ↦ (
      record {
        buckets = put_chain t.buckets k (erase_in k (chain_of t.buckets k));
        size = t.size - 1;
      },
      true,
    )
  ]

  -- the copy constructor
  unfoldable pub insert_all : List (K × V) → HashTable K V → HashTable K V
  insert_all [] t = t
  insert_all ((k, v) ∷ l) t = insert_all l (insert k v t).0

  unfoldable pub copy : HashTable K V → HashTable K V
  copy other =
      insert_all (entries other)
        (record { buckets = replicate (length other.buckets) []; size = 0 })

  -- `operator=`; `same_object` is the test `this == &other`
  unfoldable pub assign_copy : Bool → HashTable K V → HashTable K V → HashTable K V
  assign_copy same_object t other = if same_object then t else copy other

-- the move assignment: the table, and what it leaves behind
unfoldable pub assign_move :
    {K V : Type 0} → Bool → HashTable K V → HashTable K V → HashTable K V × HashTable K V
assign_move same_object t other = if same_object then (t, t) else move_out other

unfoldable pub swap : {K V : Type 0} → HashTable K V → HashTable K V → HashTable K V × HashTable K V
swap t other = (other, t)

-- the loop of `Scan` over the buckets from index `i` on
unfoldable pub scan_loop : {K V : Type 0} → List (Chain K V) → ℕ → ℕ → List K → ℕ × List K
scan_loop [] i count result = (i, result)
scan_loop (c ∷ bs) i count result =
    let rest = scan_loop bs (i + 1) count (result ++ map (λ e. e.0) c) in
    if ltb (length result) count then rest else (i, result)

unfoldable pub scan : {K V : Type 0} → ℕ → ℕ → HashTable K V → ℕ × List K
unfolding scan_loop
scan cursor count t =
    if no_buckets t.buckets
    then (0, [])
    else let n = length t.buckets in
      let i = if leb n cursor then 0 else cursor in
      let (j, result) = scan_loop (drop i t.buckets) i count [] in
      (if leb n j then 0 else j, result)
