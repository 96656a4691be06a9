-- ===== src/Storage/Store/Contents.antt =====
-- The whole store of src/storage/memory_store.cpp as a map from keys: what `Set` and `Del` make of it
-- and what `Get` reads.
use gate_keeper.Base.{
  ℕ, ◌≤◌, ◌≡◌, refl, sym, ◌∙◌, ap, Bool, Bool-cases, inl, inr, true, false, Option, none, some,
  Bytes, same, same_iff, arith, ◌==◌, if◌then◌else◌, ◌&&◌, get_or,
}
use gate_keeper.Tables.{TableOps}
use gate_keeper.Storage.Entry.{Entry, WriteCondition, always, if_absent, if_present, past}
use gate_keeper.Storage.Keys
use gate_keeper.Storage.Keys.{expiry, admits}
use gate_keeper.Storage.Keys.Values.{value_of, reads-live, set-live, del-live}
use gate_keeper.Storage.Shard.{StorageShard, new_shard}
use gate_keeper.Storage.Shard.Live.{live}
use gate_keeper.Storage.Store.{shard_index, MemoryStore, get_shard, on_shard, set, get, del}
use gate_keeper.Storage.Store.Routing.{IsStore, on_shard-IsStore}

-- whether a condition admits what a key shows
abbrev pub admits_value : WriteCondition → Option Bytes → Bool
admits_value always v = true
admits_value if_absent none = true
admits_value if_absent (some v) = false
admits_value if_present none = false
admits_value if_present (some v) = true

admits-value_of : (c : WriteCondition) (o : Option Entry) → admits c o ≡ admits_value c (value_of o)
unfolding admits
admits-value_of always none = refl
admits-value_of always (some e) = refl
admits-value_of if_absent none = refl
admits-value_of if_absent (some e) = refl
admits-value_of if_present none = refl
admits-value_of if_present (some e) = refl

module _ ⦃T : TableOps⦄ where
  -- the value that a client sees under a key at a time
  unfoldable pub shown : Bytes → ℕ → MemoryStore → Option Bytes
  shown q now m = value_of (live q now (get_shard q m))

  same_shard : (k q : Bytes) → same k q ≡ true → (shard_index k == shard_index q) ≡ true
  same_shard k q e =
      let equal : k ≡ q = (same_iff k q).0 e in
      let index : shard_index k ≡ shard_index q = ap shard_index equal in ground (arith, index)

  -- What an operation shows under any key follows from what it does on one shard, if it shows the
  -- same under other keys.
  shown-on_shard :
      {A : Type 0} (k q : Bytes) (later : ℕ) (f : StorageShard → A × StorageShard)
      (change : Option Bytes → Option Bytes) (m : MemoryStore)
      → IsStore m
      → value_of (live q later (f (get_shard k m)).1)
        ≡ change (value_of (live q later (get_shard k m)))
      → (same k q ≡ false → (x : Option Bytes) → change x ≡ x)
      → shown q later (on_shard k f m).1 ≡ change (shown q later m)
  unfolding shown
  shown-on_shard k q later f change m valid here kept =
      let routed = (on_shard-IsStore k q f m valid).2 in
      elim (Bool-cases (shard_index k == shard_index q)) [
        | inl e ↦
            let one_index : shard_index k ≡ shard_index q = ground (arith, e) in
            rw (routed, e)
              (here
                ∙ ap (λ i. change (value_of (live q later (get_or m.shards i new_shard))))
                    one_index)
        | inr n ↦
            let other : same k q ≡ false = elim (Bool-cases (same k q)) [
              | inl e ↦ absurd (ground (arith, n, same_shard k q e))
              | inr e ↦ e
            ] in
            rw (routed, n) (sym (kept other (value_of (live q later (get_shard q m)))))
      ]

  both :
      (a b : Bool) (new old : Option Bytes)
      → (if a then (if b then new else old) else old) ≡ (if a && b then new else old)
  both a b new old = ground arith

  shown-del :
      (k q : Bytes) (now : ℕ) (m : MemoryStore)
      → IsStore m
      → IsStore (del k m).1 × (shown q now (del k m).1 ≡ (if same k q then none else shown q now m))
  unfolding del
  shown-del k q now m valid =
      let gone = (del-live k q now (get_shard k m)).1 in
      (
        (on_shard-IsStore k q (Keys.del k) m valid).1,
        shown-on_shard k q now (Keys.del k) (λ x. if same k q then none else x) m valid
            (ground (arith, gone)) (λ n x. rw n refl),
      )

  -- `Get` returns what its key shows in the map view of the store, and changes at no key what it
  -- shows at the same or a later time.
  pub get-shown :
      (k q : Bytes) (now later : ℕ) (m : MemoryStore)
      → IsStore m
      → now ≤ later
      → ((get k now m).0 ≡ shown k now m) × (shown q later (get k now m).1 ≡ shown q later m)
  unfolding get
  get-shown k q now later m valid h =
      let read = reads-live k q now later (get_shard k m) h in
      (
        (on_shard-IsStore k q (Keys.get k now) m valid).0 ∙ unfold shown in read.0,
        shown-on_shard k q later (Keys.get k now) (λ x. x) m valid (ap value_of read.3)
            (λ n x. refl),
      )

  shown-set :
      (k v q : Bytes) (c : WriteCondition) (ttl_ms now later : ℕ) (m : MemoryStore)
      → IsStore m
      → now ≤ later
      → ((set k v c ttl_ms now m).0 ≡ admits_value c (shown k now m))
        × IsStore (set k v c ttl_ms now m).1
        × (shown q later (set k v c ttl_ms now m).1 ≡ (
            if same k q && admits_value c (shown k now m)
            then (if past (expiry ttl_ms now) later then none else some v)
            else shown q later m))
  unfolding set
  shown-set k v q c ttl_ms now later m valid h =
      let wrote = set-live k v q c ttl_ms now later (get_shard k m) h in
      let routed = on_shard-IsStore k q (Keys.set k v c ttl_ms now) m valid in
      let admitted : admits c (live k now (get_shard k m)) ≡ admits_value c (shown k now m) =
        unfold shown in admits-value_of c (live k now (get_shard k m)) in
      let new : Option Bytes = if past (expiry ttl_ms now) later then none else some v in
      (
        wrote.0 ∙ admitted,
        routed.1,
        shown-on_shard k q later (Keys.set k v c ttl_ms now)
            (λ x. if same k q && admits_value c (shown k now m) then new else x) m valid
            (wrote.1
              ∙ rw admitted (
                  both (same k q) (admits_value c (shown k now m)) new
                    (value_of (live q later (get_shard k m)))))
            (λ n x. rw n refl),
      )

  -- `Set` writes exactly when its condition admits what `Get` finds under its key. Then `Get`
  -- finds the new value at the same or a later time until the new deadline, and else what it found
  -- without the `Set`; under every other key it finds what it found without the `Set`.
  pub get-set :
      (k v q : Bytes) (c : WriteCondition) (ttl_ms now later : ℕ) (m : MemoryStore)
      → IsStore m
      → now ≤ later
      → ((set k v c ttl_ms now m).0 ≡ admits_value c (get k now m).0)
        × ((get q later (set k v c ttl_ms now m).1).0 ≡ (
            if same k q && admits_value c (get k now m).0
            then (if past (expiry ttl_ms now) later then none else some v)
            else (get q later m).0))
  get-set k v q c ttl_ms now later m valid h =
      let wrote = shown-set k v q c ttl_ms now later m valid h in
      let before = (get-shown k q now now m valid (omega arith)).0 in
      let other = (get-shown q q later later m valid (omega arith)).0 in
      let after = (get-shown q q later later (set k v c ttl_ms now m).1 wrote.1 (omega arith)).0 in
      rw (before, other, after) (wrote.0, wrote.2)

  -- After `Del`, `Get` finds nothing under its key, and under every other key what it found
  -- without it.
  pub get-del :
      (k q : Bytes) (now : ℕ) (m : MemoryStore)
      → IsStore m
      → (get q now (del k m).1).0 ≡ (if same k q then none else (get q now m).0)
  get-del k q now m valid =
      let gone = shown-del k q now m valid in
      let other = (get-shown q q now now m valid (omega arith)).0 in
      let after = (get-shown q q now now (del k m).1 gone.0 (omega arith)).0 in
      rw (other, after) gone.1
