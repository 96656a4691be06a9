-- ===== src/Aof/Replay.antt =====
-- The file that `AofWriter::Append` builds and `AofLoader::Load`, together (src/storage/aof/).
use gate_keeper.Base.{
  ℕ, zero, suc, ◌≡◌, refl, sym, ◌∙◌, ap, Bool-cases, inl, inr, true, false, some, [], ◌∷◌, ◌++◌,
  List, Bytes, is_empty, arith, ◌==◌, flatten, map, drop, take,
}
use mathlib.Core.List.{append_assoc, append-nil}
use gate_keeper.Aof.{
  WriteOutcome, written, interrupted, refused, AofWriter, write_loop, line_of, append, lines,
  split_line, is_comment, LoadResult, replay_record, load_line, load_lines, load, readable,
  nothing_loaded,
}
use gate_keeper.Commands.Dispatcher.{LogRecord, Registry}
use gate_keeper.Storage.Store.{MemoryStore}
use gate_keeper.Tables.{TableOps}

-- no byte of a kind
abbrev pub Without : ℕ → Bytes → Type 0
Without c [] = Unit
Without c (x ∷ s) = ((x == c) ≡ false) × Without c s

-- A record that keeps to its line: an operation with no blank and no newline that is not empty and does
-- not start a comment, and a body with no newline.
pub record IsLine (rec : LogRecord) : Type 0 where
  pub plain : is_comment rec.0 ≡ false
  pub no_blank : Without b' ' rec.0
  pub no_break : Without 10 rec.0
  pub body : Without 10 rec.1

abbrev pub AllLines : List LogRecord → Type 0
AllLines [] = Unit
AllLines (rec ∷ log) = IsLine rec × AllLines log

lines-append : (s rest : Bytes) → Without 10 s → lines (s ++ (10 ∷ rest)) ≡ s ∷ lines rest
unfolding lines
lines-append [] rest h = refl
lines-append (c ∷ s) rest h = rw (h.0, lines-append s rest h.1) refl

Without-append : (c : ℕ) (a b : Bytes) → Without c a → Without c b → Without c (a ++ b)
Without-append c [] b h k = k
Without-append c (x ∷ a) b h k = (h.0, Without-append c a b h.1 k)

split_line-append :
    (op body : Bytes) → Without b' ' op → split_line (op ++ (b' ' ∷ body)) ≡ some (op, body)
unfolding split_line
split_line-append [] body h = refl
split_line-append (c ∷ op) body h = rw (h.0, split_line, split_line-append op body h.1) refl

not_comment : (op body : Bytes) → is_comment op ≡ false → is_comment (op ++ (b' ' ∷ body)) ≡ false
unfolding is_empty
not_comment [] body h = absurd (ground (arith, h))
not_comment (c ∷ op) body h = h

whole_line : LogRecord → Bytes
whole_line (op, body) = op ++ (b' ' ∷ body)

line_of-append :
    (rec : LogRecord) (rest : Bytes) → line_of rec ++ rest ≡ whole_line rec ++ (10 ∷ rest)
unfolding whole_line
line_of-append (op, body) rest =
    append_assoc op (b' ' ∷ (body ++ (10 ∷ []))) rest
    ∙ ap (λ t. op ++ (b' ' ∷ t)) (append_assoc body (10 ∷ []) rest)
    ∙ sym (append_assoc op (b' ' ∷ body) (10 ∷ rest))

lines-line_of :
    (rec : LogRecord) (rest : Bytes)
    → IsLine rec
    → lines (line_of rec ++ rest) ≡ whole_line rec ∷ lines rest
unfolding whole_line
lines-line_of (op, body) rest h =
    ap lines (line_of-append (op, body) rest)
    ∙ lines-append (op ++ (b' ' ∷ body)) rest
        (Without-append 10 op (b' ' ∷ body) h.no_break (refl, h.body))

module _ ⦃T : TableOps⦄ (commands : Registry) (now : ℕ) where
  -- the records of a log, dispatched in order
  unfoldable pub replay_all : List LogRecord → LoadResult → MemoryStore → LoadResult × MemoryStore
  replay_all [] r m = (r, m)
  replay_all (rec ∷ log) r m =
      let (r', m') = replay_record commands rec now r m in replay_all log r' m'

  load_lines-records :
      (log : List LogRecord) (r : LoadResult) (m : MemoryStore)
      → AllLines log
      → load_lines commands (lines (flatten (map line_of log))) now r m ≡ replay_all log r m
  unfolding load_lines replay_all flatten
  load_lines-records [] r m h = unfold lines in refl
  load_lines-records ((op, body) ∷ log) r m h =
      let spread = lines-line_of (op, body) (flatten (map line_of log)) h.0 in
      let plain : is_comment (whole_line (op, body)) ≡ false =
        unfold whole_line in not_comment op body h.0.plain in
      let parts : split_line (whole_line (op, body)) ≡ some (op, body) =
        unfold whole_line in split_line-append op body h.0.no_blank in
      let (r', m') = replay_record commands (op, body) now r m in
      let replayed : load_line commands (whole_line (op, body)) now r m
          ≡ replay_record commands (op, body) now r m =
        rw (plain, parts) refl in
      ap (λ ls. load_lines commands ls now r m) spread
      ∙ ap (λ p. load_lines commands (lines (flatten (map line_of log))) now p.0 p.1) replayed
      ∙ load_lines-records log r' m' h.1

  -- `Load` of a file that holds the lines of a log replays exactly the log's records, in their order,
  -- where each keeps to its line: its operation has no blank and does not start a comment, and neither
  -- it nor its body has a newline.
  pub load-lines :
      (log : List LogRecord) (m : MemoryStore)
      → AllLines log
      → load commands (readable (flatten (map line_of log))) now m
        ≡ replay_all log (nothing_loaded true []) m
  unfolding load
  load-lines log m h = load_lines-records log (nothing_loaded true []) m h

take-drop : (n : ℕ) (s : Bytes) → take n s ++ drop n s ≡ s
take-drop zero s = refl
take-drop (suc n) [] = refl
take-drop (suc n) (c ∷ s) = ap (λ t. c ∷ t) (take-drop n s)

write_loop-prefix :
    (os : List WriteOutcome) (s : Bytes)
    → (rest : Bytes) × (s ≡ (write_loop os s).1 ++ rest) × ((write_loop os s).0 ≡ is_empty rest)
unfolding write_loop is_empty
write_loop-prefix os [] = ([], refl, refl)
write_loop-prefix [] (c ∷ s) = ([], sym (append-nil (c ∷ s)), refl)
write_loop-prefix (interrupted ∷ os) (c ∷ s) = write_loop-prefix os (c ∷ s)
write_loop-prefix (refused ∷ os) (c ∷ s) = (c ∷ s, refl, refl)
write_loop-prefix (written n ∷ os) (c ∷ s) =
    let (rest, split, all) = write_loop-prefix os (drop n (c ∷ s)) in
    elim (Bool-cases (n == 0)) [
      | inl y ↦ rw y (c ∷ s, refl, refl)
      | inr m ↦ rw m (
        rest,
        sym (take-drop n (c ∷ s))
            ∙ ap (λ t. take n (c ∷ s) ++ t) split
            ∙ sym (append_assoc (take n (c ∷ s)) (write_loop os (drop n (c ∷ s))).1 rest),
        all,
      )
    ]

-- `Append` of a record with an operation, to an open file, adds the record's line or the front of it,
-- and returns true exactly if no byte of the line is missing, whatever `write` answers.
pub append-line_of :
    (os : List WriteOutcome) (rec : LogRecord) (w : AofWriter)
    → is_empty rec.0 ≡ false
    → w.is_open ≡ true
    → (rest : Bytes) × (w.file ++ line_of rec ≡ (append os rec w).1.file ++ rest)
      × ((append os rec w).0 ≡ is_empty rest)
unfolding append
append-line_of os (op, body) w full opened =
    let (rest, split, all) = write_loop-prefix os (line_of (op, body)) in
    rw (full, opened)
      (
        rest,
        ap (λ t. w.file ++ t) split
            ∙ sym (append_assoc w.file (write_loop os (line_of (op, body))).1 rest),
        all,
      )
