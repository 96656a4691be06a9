-- ===== src/HashTable/Scans.antt =====
-- `HashTable::Scan` of hash_table.h: following the cursors visits every node once.
use gate_keeper.Base.{
  ℕ, zero, suc, ◌+◌, ◌≤◌, ◌<◌, ◌≡◌, refl, sym, ap, ◌∙◌, ◌⊎◌, true, false, List, [], ◌∷◌, ◌++◌, map,
  flatten, arith, ltb, leb, ◌==◌, if◌then◌else◌, length, length-append, drop, Bool-cases, inl, inr,
}
use mathlib.Core.List.{append-nil, append_assoc, map-append}
use gate_keeper.HashTable.Models.{nonempty_of_length}
use gate_keeper.HashTable.{Chain, HashTable, entries, scan_loop, scan}

module _ {K V : Type 0} where
  abbrev pub keys : Chain K V → List K
  keys c = map (λ e. e.0) c

  flatten-append : (a b : List (Chain K V)) → flatten (a ++ b) ≡ flatten a ++ flatten b
  unfolding flatten
  flatten-append [] b = refl
  flatten-append (c ∷ a) b = rw (flatten-append a b) (sym (append_assoc c (flatten a) (flatten b)))

  drop-append : (a b : List (Chain K V)) → drop (length a) (a ++ b) ≡ b
  drop-append [] b = refl
  drop-append (c ∷ a) b = drop-append a b

  -- What one call of the loop visits: some first buckets, and at least one where it may.
  record Visited (bs : List (Chain K V)) (i count : ℕ) (acc : List K) : Type 0 where
    front : List (Chain K V)
    back : List (Chain K V)
    parts : bs ≡ front ++ back
    ends : scan_loop bs i count acc ≡ (i + length front, acc ++ keys (flatten front))
    moves : length acc < count → length bs ≡ 0 ⊎ (0 < length front)

  scan_loop-Visited : (bs : List (Chain K V)) (i count : ℕ) (acc : List K) → Visited bs i count acc
  unfolding scan_loop flatten
  scan_loop-Visited [] i count acc = record {
    front = [];
    back = [];
    parts = refl;
    ends = rw (append-nil acc) (ap (λ (n : ℕ). (n, acc)) (omega arith));
    moves = λ _. inl refl;
  }
  scan_loop-Visited (c ∷ bs) i count acc =
      let rest = scan_loop-Visited bs (i + 1) count (acc ++ keys c) in
      let index : i + 1 + length rest.front ≡ i + suc (length rest.front) = omega arith in
      let joined : (acc ++ keys c) ++ keys (flatten rest.front)
          ≡ acc ++ keys (c ++ flatten rest.front) =
        rw (map-append (λ (e : K × V). e.0) c (flatten rest.front)) (append_assoc acc (keys c) _) in
      elim (Bool-cases (ltb (length acc) count)) [
        | inl room ↦ record {
          front = c ∷ rest.front;
          back = rest.back;
          parts = ap (λ x. c ∷ x) rest.parts;
          ends = rw (room, rest.ends) (cc (index, joined));
          moves = λ _. inr (omega arith);
        }
        | inr full ↦ record {
          front = [];
          back = c ∷ bs;
          parts = refl;
          ends = rw (full, append-nil acc) (ap (λ (n : ℕ). (n, acc)) (omega arith));
          moves = λ lt. absurd (ground arith);
        }
      ]

  -- A client that calls `Scan` with the returned cursor until it is 0, for `fuel` calls at most.
  unfoldable pub collect : ℕ → ℕ → ℕ → HashTable K V → List K
  collect zero cursor count t = []
  collect (suc fuel) cursor count t =
      let reply = scan cursor count t in
      let rest = reply.1 ++ collect fuel reply.0 count t in if reply.0 == 0 then reply.1 else rest

  scan_at :
      (count : ℕ) (t : HashTable K V) (a b : List (Chain K V))
      → t.buckets ≡ a ++ b
      → 0 < length b
      → scan (length a) count t ≡ (
          let (j, result) = scan_loop b (length a) count [] in
          (if leb (length t.buckets) j then 0 else j, result))
  unfolding scan
  scan_at count t a b parts more =
      let total = ap length parts ∙ length-append a b in
      let bare = nonempty_of_length t.buckets (omega (arith, total)) in
      let inside : leb (length t.buckets) (length a) ≡ false = ground (arith, total) in
      let rest : drop (length a) t.buckets ≡ b = rw parts (drop-append a b) in
      rw (bare, scan, inside, rest)

  -- One call, and then the calls for the buckets that it left.
  collect_step :
      (fuel count : ℕ) (t : HashTable K V) (a front back : List (Chain K V))
      → t.buckets ≡ a ++ (front ++ back)
      → 0 < length front
      → scan_loop (front ++ back) (length a) count []
        ≡ (length a + length front, keys (flatten front))
      → (0 < length back → collect fuel (length (a ++ front)) count t ≡ keys (flatten back))
      → collect (suc fuel) (length a) count t ≡ keys (flatten (front ++ back))
  unfolding collect
  collect_step fuel count t a front [] parts some_front loop rest =
      let e = scan_at count t a (front ++ []) parts (rw (append-nil front) some_front) in
      let total : length t.buckets ≡ length a + length front =
        ap length parts
        ∙ length-append a (front ++ [])
        ∙ ap (λ x. length a + length x) (append-nil front) in
      let last : leb (length t.buckets) (length a + length front) ≡ true = ground (arith, total) in
      rw (e, loop, last, append-nil front)
  collect_step fuel count t a front (c ∷ back) parts some_front loop rest =
      let e =
        scan_at count t a (front ++ c ∷ back) parts
          (omega (arith, length-append front (c ∷ back))) in
      let total : length t.buckets ≡ length a + (length front + suc (length back)) =
        ap length parts
        ∙ length-append a (front ++ c ∷ back)
        ∙ ap (λ n. length a + n) (length-append front (c ∷ back)) in
      let inner : leb (length t.buckets) (length a + length front) ≡ false =
        ground (arith, total) in
      let more : (length a + length front == 0) ≡ false = ground arith in
      rw (
        e,
        loop,
        inner,
        more,
        ← length-append a front,
        rest (omega arith),
        flatten-append front (c ∷ back),
        map-append (λ (x : K × V). x.0) (flatten front) (flatten (c ∷ back)),
      )

  -- From a cursor before the end, enough calls give the keys of all further buckets.
  collect_from :
      (fuel count : ℕ) (t : HashTable K V) (a b : List (Chain K V))
      → 0 < count
      → t.buckets ≡ a ++ b
      → 0 < length b
      → length b ≤ fuel
      → collect fuel (length a) count t ≡ keys (flatten b)
  collect_from zero count t a b pos parts more enough = absurd (omega arith)
  collect_from (suc fuel) count t a b pos parts more enough =
      let v = scan_loop-Visited b (length a) count [] in
      let moved : 0 < length v.front = ground (arith, v.moves pos) in
      let split = ap length v.parts ∙ length-append v.front v.back in
      let parts' : t.buckets ≡ a ++ (v.front ++ v.back) = parts ∙ ap (λ x. a ++ x) v.parts in
      rw v.parts (
        collect_step fuel count t a v.front v.back parts' moved
          (ap (λ x. scan_loop x (length a) count []) (sym v.parts) ∙ v.ends)
          (λ more'.
            collect_from fuel count t (a ++ v.front) v.back pos
              (parts' ∙ sym (append_assoc a v.front v.back)) more' (omega (arith, split))))

  -- Following the cursors of `Scan` from 0, with a positive count, gives the keys in the order of
  -- `ForEach`, each node once, after as many calls as there are buckets at most, in a table with
  -- at least one bucket.
  pub collect-entries :
      (count : ℕ) (t : HashTable K V)
      → 0 < count
      → 0 < length t.buckets
      → collect (length t.buckets) 0 count t ≡ keys (entries t)
  unfolding entries
  collect-entries count t pos more =
      collect_from (length t.buckets) count t [] t.buckets pos refl more (omega arith)
