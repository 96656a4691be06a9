-- ===== src/Protocol/Streams/Purges.antt =====
-- What `PurgeIdleStreams` of src/protocol/gkwp2/stream_manager.cpp leaves open.
use gate_keeper.Base.{
  ℕ, ◌+◌, ◌≡◌, refl, sym, ◌∙◌, ap, true, false, Bool-cases, Option, none, some, inl, inr, List, [],
  ◌∷◌, ◌==◌, if◌then◌else◌, length, arith,
}
use gate_keeper.Maps.{lookup, remove}
use gate_keeper.Protocol.Streams.{
  Stream, StreamManager, find_stream, is_idle, idle_ids, close_stream, close_all,
  purge_idle_streams,
}

-- No id stands twice in the map.
abbrev pub IsUnique : List (ℕ × Stream) → Type 0
IsUnique [] = Unit
IsUnique ((k, s) ∷ l) = (lookup (λ a b. a == b) k l ≡ none) × IsUnique l

abbrev Avoids : ℕ → List ℕ → Type 0
Avoids k [] = Unit
Avoids k (i ∷ ids) = ((k == i) ≡ false) × Avoids k ids

abbrev remove_all : List ℕ → List (ℕ × Stream) → List (ℕ × Stream)
remove_all [] l = l
remove_all (i ∷ ids) l = remove_all ids (remove (λ a b. a == b) i l)

abbrev active : ℕ → ℕ → List (ℕ × Stream) → List (ℕ × Stream)
active t now [] = []
active t now ((k, s) ∷ l) =
    let rest = active t now l in if is_idle t now s then rest else (k, s) ∷ rest

-- a stream that a purge leaves open
abbrev pub still_open : ℕ → ℕ → Option Stream → Option Stream
still_open t now none = none
still_open t now (some s) = if is_idle t now s then none else some s

idle_ids-Avoids :
    (t now k : ℕ) (l : List (ℕ × Stream))
    → lookup (λ a b. a == b) k l ≡ none
    → Avoids k (idle_ids t now l)
unfolding idle_ids lookup
idle_ids-Avoids t now k [] e = tt
idle_ids-Avoids t now k ((q, s) ∷ l) e = elim (Bool-cases (q == k)) [
  | inl y ↦ absurd (grind (arith, e, y))
  | inr n ↦
      let rest = idle_ids-Avoids t now k l (grind (arith, e, n)) in
      let other : (k == q) ≡ false = ground (arith, n) in
      elim (Bool-cases (is_idle t now s)) [ inl y ↦ rw y (other, rest) | inr a ↦ rw a rest ]
]

remove_all-Avoids :
    (k : ℕ) (s : Stream) (ids : List ℕ) (l : List (ℕ × Stream))
    → Avoids k ids
    → remove_all ids ((k, s) ∷ l) ≡ (k, s) ∷ remove_all ids l
unfolding remove
remove_all-Avoids k s [] l h = refl
remove_all-Avoids k s (i ∷ ids) l h = rw h.0 (remove_all-Avoids k s ids _ h.1)

close_all-remove_all :
    (ids : List ℕ) (m : StreamManager) → (close_all ids m).streams ≡ remove_all ids m.streams
unfolding close_all close_stream
close_all-remove_all [] m = refl
close_all-remove_all (i ∷ ids) m = close_all-remove_all ids (close_stream i m)

remove_first :
    (k : ℕ) (s : Stream) (l : List (ℕ × Stream)) → remove (λ a b. a == b) k ((k, s) ∷ l) ≡ l
unfolding remove
remove_first k s l = let same : (k == k) ≡ true = ground arith in rw same refl

remove_all-idle_ids :
    (t now : ℕ) (l : List (ℕ × Stream))
    → IsUnique l
    → remove_all (idle_ids t now l) l ≡ active t now l
unfolding idle_ids remove
remove_all-idle_ids t now [] u = refl
remove_all-idle_ids t now ((k, s) ∷ l) u = elim (Bool-cases (is_idle t now s)) [
  | inl y ↦
      rw y
        (ap (remove_all (idle_ids t now l)) (remove_first k s l) ∙ remove_all-idle_ids t now l u.1)
  | inr a ↦ rw a (
      remove_all-Avoids k s (idle_ids t now l) l (idle_ids-Avoids t now k l u.0)
      ∙ ap (λ x. (k, s) ∷ x) (remove_all-idle_ids t now l u.1))
]

lookup-active :
    (t now q : ℕ) (l : List (ℕ × Stream))
    → IsUnique l
    → lookup (λ a b. a == b) q (active t now l) ≡ still_open t now (lookup (λ a b. a == b) q l)
unfolding lookup
lookup-active t now q [] u = refl
lookup-active t now q ((k, s) ∷ l) u =
    let ih = lookup-active t now q l u.1 in
    elim (Bool-cases (k == q)) [
      | inl y ↦
          let same : k ≡ q = ground (arith, y) in
          let gone : lookup (λ a b. a == b) q l ≡ none = rw (sym same) u.0 in
          elim (Bool-cases (is_idle t now s)) [
            | inl idle ↦ rw (y, idle) (ih ∙ ap (still_open t now) gone)
            | inr a ↦ rw (y, a) (rw y refl)
          ]
      | inr n ↦ elim (Bool-cases (is_idle t now s)) [
        | inl idle ↦ rw (n, idle) ih
        | inr a ↦ rw (n, a) (rw n ih)
      ]
    ]

length-active :
    (t now : ℕ) (l : List (ℕ × Stream))
    → length (idle_ids t now l) + length (active t now l) ≡ length l
unfolding idle_ids
length-active t now [] = refl
length-active t now ((k, s) ∷ l) = elim (Bool-cases (is_idle t now s)) [
  | inl y ↦ rw y (omega (arith, length-active t now l))
  | inr a ↦ rw a (omega (arith, length-active t now l))
]

-- `PurgeIdleStreams` on a map in which no id stands twice: afterwards each id finds the stream that
-- it found before, unless that stream is idle, and then nothing; the number it returns and the
-- streams that are left are together the streams before.
pub find_stream-purge_idle_streams :
    (now id : ℕ) (m : StreamManager)
    → IsUnique m.streams
    → (find_stream id (purge_idle_streams now m).1
        ≡ still_open m.idle_timeout_ms now (find_stream id m))
      × (length (purge_idle_streams now m).0 + length (purge_idle_streams now m).1.streams
          ≡ length m.streams)
unfolding find_stream purge_idle_streams
find_stream-purge_idle_streams now id m u =
    let t = m.idle_timeout_ms in
    let left =
      close_all-remove_all (idle_ids t now m.streams) m ∙ remove_all-idle_ids t now m.streams u in
    (
      ap (lookup (λ a b. a == b) id) left ∙ lookup-active t now id m.streams u,
      rw left (length-active t now m.streams),
    )
