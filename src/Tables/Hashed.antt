-- ===== src/Tables/Hashed.antt =====
-- The hash table of include/gatekeeper/storage/hash_table.h fills the store's interface: a table is
-- a `HashTable` with its invariant, made with the default capacity 16.
use gate_keeper.Base.{
  ℕ, ◌≡◌, refl, sym, ◌∙◌, Bool, not, Option, none, some, List, [], ◌∷◌, arith, Bytes, same,
  same_iff,
}
use gate_keeper.HashTable
use gate_keeper.HashTable.{Hashing, HashTable, find_in}
use gate_keeper.HashTable.Chains.{count}
use gate_keeper.HashTable.Buckets.{flatten-view}
use gate_keeper.HashTable.Laws.{insert-Models, erase-Models, write_any-Models}
use gate_keeper.HashTable.Models.{IsValid, find-view, is_none, new-Models}
use gate_keeper.Tables.{TableOps, first, times, is_some}

module _ (hash : Bytes → ℕ) (over_load : ℕ → ℕ → Bool) where
  instance abbrev pub string_hashing : Hashing Bytes
  string_hashing = record { equal = same; equal_iff = same_iff; hash = hash; over_load = over_load }

  pub record Sealed (V : Type 0) : Type 0 where
    pub table : HashTable Bytes V
    pub valid : IsValid table

  module _ {V : Type 0} where
    sealed_insert : Bytes → V → Sealed V → Sealed V
    sealed_insert k v s = record {
      table = (HashTable.insert k v s.table).0;
      valid = (insert-Models k v s.table s.valid).1.valid;
    }

    sealed_write : Bytes → V → Sealed V → Sealed V
    sealed_write k v s = record {
      table = HashTable.write k v s.table;
      valid = (write_any-Models k v s.table s.valid).0;
    }

    sealed_erase : Bytes → Sealed V → Sealed V × Bool
    sealed_erase k s = (
      record {
        table = (HashTable.erase k s.table).0;
        valid = (erase-Models k s.table s.valid).1.valid;
      },
      (HashTable.erase k s.table).1,
    )

    first-find_in : (q : Bytes) (l : List (Bytes × V)) → first q l ≡ find_in q l
    unfolding first find_in
    first-find_in q [] = refl
    first-find_in q ((k, v) ∷ l) = ground (arith, first-find_in q l)

    times-count : (q : Bytes) (l : List (Bytes × V)) → times q l ≡ count q l
    unfolding times count
    times-count q [] = refl
    times-count q ((k, v) ∷ l) = ground (arith, times-count q l)

    erase_found :
        (k : Bytes) (s : Sealed V) → (sealed_erase k s).1 ≡ is_some (HashTable.find k s.table)
    unfolding sealed_erase
    erase_found k s = (erase-Models k s.table s.valid).0 ∙ negated (HashTable.find k s.table)
      where
        negated : (o : Option V) → not (is_none o) ≡ is_some o
        negated none = refl
        negated (some v) = refl

  -- The table of hash_table.h meets every law of the store's interface, whatever the hash function
  -- and the load test are.
  pub hashed : TableOps
  unfolding sealed_insert sealed_write sealed_erase HashTable.entries
  hashed = record {
    Table = Sealed;
    empty = record { table = HashTable.new 16; valid = (new-Models 16).valid };
    find = λ k s. HashTable.find k s.table;
    insert = sealed_insert;
    write = sealed_write;
    erase = sealed_erase;
    entries = λ s. HashTable.entries s.table;
    scan = λ cursor count s. HashTable.scan cursor count s.table;
    find-empty = λ q. (new-Models 16).finds q;
    find-insert = λ k q v s. (insert-Models k v s.table s.valid).1.finds q;
    find-write = λ k q v s. (write_any-Models k v s.table s.valid).1 q;
    find-erase = λ k q s. (erase-Models k s.table s.valid).1.finds q;
    erase-found = erase_found;
    first-entries = λ q s.
        first-find_in q (HashTable.entries s.table)
        ∙ (flatten-view s.table.buckets q s.valid.placed).0
        ∙ sym (find-view q s.table);
    times-entries = λ q s.
        rw (times-count q (HashTable.entries s.table))
          ((flatten-view s.table.buckets q s.valid.placed).1);
  }
