-- ===== src/Json/Arrays.antt =====
-- The fuel of the loop of `JsonReader::StringArray` (src/protocol/json_reader.cpp).
use gate_keeper.Base.{
  ℕ, zero, suc, ◌+◌, ◌≡◌, ◌≤◌, ◌<◌, ◌≢◌, Bool-cases, inl, inr, List, [], ◌∷◌, ◌++◌, Bytes, ◌==◌,
  if◌then◌else◌, length, arith,
}
use gate_keeper.Storage.Decimal.{is_space}
use gate_keeper.Json.{
  unfinished, pure, throw, continue, skip, take_front, take_char, expect, string, string_loop,
  array_loop, string_array,
}
use gate_keeper.Json.Fuel.{
  Leaves, Leaves-done, Leaves-fail, Leaves-continue, Leaves-if, Leaves-le, Leaves-finished,
  string_loop-Leaves, string_loop-enough_fuel,
}

length-skip : (s : Bytes) → length (skip s) ≤ length s
unfolding skip
length-skip [] = omega arith
length-skip (c ∷ s) =
    let ih = length-skip s in
    elim (Bool-cases (is_space c)) [ inl y ↦ rw y (omega (arith, ih)) | inr n ↦ rw n (omega arith) ]

take_front-Leaves : (c : ℕ) (s : Bytes) (n : ℕ) → length s ≤ n → Leaves n (take_front c s)
take_front-Leaves c [] n h = Leaves-done n _ [] h
take_front-Leaves c (x ∷ s) n h =
    Leaves-if n (x == c) _ _ (Leaves-done n _ s (omega arith)) (Leaves-done n _ (x ∷ s) h)

take_char-Leaves : (c : ℕ) (s : Bytes) (n : ℕ) → length s ≤ n → Leaves n (take_char c s)
unfolding take_char
take_char-Leaves c s n h = take_front-Leaves c (skip s) n (omega (arith, length-skip s))

-- a character at the front that must be `c`
expect_at :
    (c : ℕ) (message t : Bytes) (n : ℕ)
    → length t ≤ suc n
    → Leaves n (continue (take_front c t) (λ taken. if taken then pure tt else throw message))
expect_at c message [] n h = Leaves-fail n _
expect_at c message (x ∷ t) n h = elim (Bool-cases (x == c)) [
  | inl y ↦ rw y (Leaves-done n tt t (omega arith))
  | inr m ↦ rw m (Leaves-fail n _)
]

-- `Expect` reads one character at least, or fails.
expect_front : (c : ℕ) (s : Bytes) (n : ℕ) → length s ≤ suc n → Leaves n (expect c s)
unfolding expect take_char
expect_front c s n h = expect_at c _ (skip s) n (omega (arith, length-skip s))

string-Leaves : (s : Bytes) (n : ℕ) → length s ≤ suc n → Leaves n (string s)
unfolding string
string-Leaves s n h =
    Leaves-continue n (expect b'"' s) _ (expect_front b'"' s n h)
      λ _ r k. Leaves-le (length r) n _ (string_loop-Leaves (length r) [] r (omega arith)) k

array_loop_nothing : (fuel : ℕ) (arr : List Bytes) → Leaves 0 (array_loop (suc fuel) arr [])
unfolding array_loop string expect take_char skip
array_loop_nothing fuel arr = Leaves-fail 0 _

array_loop-Leaves :
    (fuel : ℕ) (arr : List Bytes) (s : Bytes) (n : ℕ)
    → length s ≤ n
    → n < fuel
    → Leaves n (array_loop fuel arr s)
unfolding array_loop
array_loop-Leaves zero arr s n h k = absurd (omega arith)
array_loop-Leaves (suc fuel) arr [] zero h k = array_loop_nothing fuel arr
array_loop-Leaves (suc fuel) arr (c ∷ s) zero h k = absurd (omega arith)
array_loop-Leaves (suc fuel) arr s (suc n) h k =
    Leaves-le n (suc n) _
      (Leaves-continue n (string s) _ (string-Leaves s n h) λ x r h1.
        Leaves-continue n (take_char b']' r) _ (take_char-Leaves b']' r n h1) λ closed r' h2.
          Leaves-if n closed _ _ (Leaves-done n _ r' h2) (
            Leaves-continue n (expect b',' r') _ (expect_front b',' r' n (omega arith))
              λ _ r'' h3. array_loop-Leaves fuel (arr ++ x ∷ []) r'' n h3 (omega arith)))
      (omega arith)

string_array-finished : (s : Bytes) → string_array s ≢ unfinished
unfolding string_array
string_array-finished s =
    let size = length s in
    Leaves-finished size _ (
      Leaves-continue size (expect b'[' s) _ (expect_front b'[' s size (omega arith)) λ _ r h.
        Leaves-continue size (take_char b']' r) _ (take_char-Leaves b']' r size h) λ closed r' h'.
          elim (Bool-cases closed) [
            | inl y ↦ rw y (Leaves-done size [] r' h')
            | inr n ↦
                let loop =
                  array_loop-Leaves (suc (length r')) [] r' (length r') (omega arith)
                    (omega arith) in
                rw n (Leaves-le (length r') size _ loop h')
          ])

-- The loop of `String` ends within as many rounds as there are characters, whatever they are: on that
-- many it is finished, and more rounds change nothing. `StringArray`, whose loop has a round for each
-- character and one, is finished too, whatever it reads.
pub string_array-enough_fuel :
    (fuel more : ℕ) (out s : Bytes)
    → length s ≤ fuel
    → (string_loop fuel out s ≢ unfinished)
      × (string_loop (fuel + more) out s ≡ string_loop fuel out s)
      × (string_array s ≢ unfinished)
string_array-enough_fuel fuel more out s h =
    let (finished, same) = string_loop-enough_fuel fuel more out s h in
    (finished, same, string_array-finished s)
