-- ===== src/Examples/Tables.antt =====
-- Tests on the hash table of include/gatekeeper/storage/hash_table.h, with two keys.
use gate_keeper.Base.{
  ℕ, ◌+◌, ◌-◌, ◌<◌, ◌≡◌, refl, ◌∙◌, not, none, some, Bytes, same_refl, text, arith, length,
}
use gate_keeper.Examples.{hashing}
use gate_keeper.HashTable
use gate_keeper.HashTable.{HashTable}
use gate_keeper.HashTable.Buckets.{update}
use gate_keeper.HashTable.Copies.{copy-Models}
use gate_keeper.HashTable.Laws.{insert-Models, erase-Models}
use gate_keeper.HashTable.Models.{IsValid, Models, added, is_none, new-Models}
use gate_keeper.HashTable.Nodes.{positive}
use gate_keeper.HashTable.Scans.{collect, keys, collect-entries}

abbrev other : Bytes
other = text "user:2"

abbrev first_key : Bytes
first_key = text "user:1"

abbrev one_key : HashTable Bytes ℕ
one_key = (HashTable.insert first_key 7 (HashTable.new 16)).0

one_key-IsValid : IsValid one_key
one_key-IsValid = (insert-Models first_key 7 (HashTable.new 16) (new-Models 16).valid).1.valid

abbrev two_keys : HashTable Bytes ℕ
two_keys = (HashTable.insert other 8 one_key).0

two_keys-IsValid : IsValid two_keys
two_keys-IsValid = (insert-Models other 8 one_key one_key-IsValid).1.valid

has_buckets : 0 < length two_keys.buckets
has_buckets =
    positive two_keys two_keys-IsValid other 8
      ((insert-Models other 8 one_key one_key-IsValid).1.finds other ∙ rw (same_refl other) refl)

insert-Models_example :
    ((HashTable.insert other 8 one_key).1 ≡ is_none (HashTable.find other one_key))
    × Models
        (update (λ q. HashTable.find q one_key) other (some 8))
        (one_key.size + added (is_none (HashTable.find other one_key)))
        (HashTable.insert other 8 one_key).0
insert-Models_example = insert-Models other 8 one_key one_key-IsValid

erase-Models_example :
    ((HashTable.erase other two_keys).1 ≡ not (is_none (HashTable.find other two_keys)))
    × Models
        (update (λ q. HashTable.find q two_keys) other none)
        (two_keys.size - added (not (is_none (HashTable.find other two_keys))))
        (HashTable.erase other two_keys).0
erase-Models_example = erase-Models other two_keys two_keys-IsValid

copy-Models_example :
    Models (λ q. HashTable.find q two_keys) two_keys.size (HashTable.copy two_keys)
copy-Models_example = copy-Models two_keys two_keys-IsValid

collect-entries_example :
    collect (length two_keys.buckets) 0 1 two_keys ≡ keys (HashTable.entries two_keys)
collect-entries_example = collect-entries 1 two_keys (omega arith) has_buckets
