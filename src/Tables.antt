-- ===== src/Tables.antt =====
-- The interface between the hash table (include/gatekeeper/storage/hash_table.h) and the store
-- (src/storage/memory_store.cpp): tables keyed by byte strings, and what the store relies on.
pub mod Hashed
pub use gate_keeper.HashTable.Models.{replaced}
use gate_keeper.Base.{
  ℕ, ◌+◌, ◌≤◌, ◌≡◌, Bool, true, false, not, Option, none, some, List, [], ◌∷◌, if◌then◌else◌, Bytes,
  same,
}

abbrev pub one_if : Bool → ℕ
one_if true = 1
one_if false = 0

abbrev pub is_some {ℓ} : {V : Type ℓ} → Option V → Bool
is_some none = false
is_some (some v) = true

module _ {V : Type 0} where
  -- the first value under a key, and how often the key occurs
  unfoldable pub first : Bytes → List (Bytes × V) → Option V
  first q [] = none
  first q ((k, v) ∷ l) = if same k q then some v else first q l

  unfoldable pub times : Bytes → List (Bytes × V) → ℕ
  times q [] = 0
  times q ((k, v) ∷ l) = one_if (same k q) + times q l

pub record TableOps : Type 1 where
  pub Table : Type 0 → Type 0
  pub empty : {V : Type 0} → Table V
  pub find : {V : Type 0} → Bytes → Table V → Option V
  pub insert : {V : Type 0} → Bytes → V → Table V → Table V
  -- a write through the pointer that `Find` returned
  pub write : {V : Type 0} → Bytes → V → Table V → Table V
  pub erase : {V : Type 0} → Bytes → Table V → Table V × Bool
  -- the entries in the order of `ForEach`
  pub entries : {V : Type 0} → Table V → List (Bytes × V)
  pub scan : {V : Type 0} → ℕ → ℕ → Table V → ℕ × List Bytes
  pub find-empty : {V : Type 0} (q : Bytes) → find {V = V} q empty ≡ none
  pub find-insert :
      {V : Type 0} (k q : Bytes) (v : V) (t : Table V)
      → find q (insert k v t) ≡ (if same k q then some v else find q t)
  pub find-write :
      {V : Type 0} (k q : Bytes) (v : V) (t : Table V)
      → find q (write k v t) ≡ (if same k q then replaced (find k t) v else find q t)
  pub find-erase :
      {V : Type 0} (k q : Bytes) (t : Table V)
      → find q (erase k t).0 ≡ (if same k q then none else find q t)
  pub erase-found : {V : Type 0} (k : Bytes) (t : Table V) → (erase k t).1 ≡ is_some (find k t)
  pub first-entries : {V : Type 0} (q : Bytes) (t : Table V) → first q (entries t) ≡ find q t
  pub times-entries : {V : Type 0} (q : Bytes) (t : Table V) → times q (entries t) ≤ 1
