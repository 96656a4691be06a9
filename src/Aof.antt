-- ===== src/Aof.antt =====
-- src/storage/aof/: the append-only file. The operating system's `write` is a list of its outcomes.
pub mod Replay
use gate_keeper.Base.{
  ℕ, zero, suc, ◌+◌, ◌-◌, Bool, true, false, ◌&&◌, ◌||◌, not, Option, none, some, List, [], ◌∷◌,
  ◌++◌, Bytes, text, is_empty, ◌==◌, if◌then◌else◌, length, take, drop, flatten, min, leb,
}
use gate_keeper.Commands.{Request, CommandResult}
use gate_keeper.Commands.Dispatcher.{LogRecord, Registry, dispatch}
use gate_keeper.Json.{first}
use gate_keeper.Storage.Store.{MemoryStore}
use gate_keeper.Tables.{TableOps}

-- what `write` returns: a number of bytes, or an error, which is `EINTR` or another
pub data WriteOutcome : Type 0 where
  written : (n : ℕ) → WriteOutcome
  interrupted refused : WriteOutcome

-- the descriptor, open or not, and what the file holds
pub record AofWriter : Type 0 where
  pub is_open : Bool
  pub file : Bytes

-- The loop of `Append`: whether all was written, and what was. Where the outcomes end, the rest is
-- written at once.
unfoldable pub write_loop : List WriteOutcome → Bytes → Bool × Bytes
write_loop os [] = (true, [])
write_loop [] (c ∷ s) = (true, c ∷ s)
write_loop (interrupted ∷ os) (c ∷ s) = write_loop os (c ∷ s)
write_loop (refused ∷ os) (c ∷ s) = (false, [])
write_loop (written n ∷ os) (c ∷ s) =
    let rest = write_loop os (drop n (c ∷ s)) in
    if n == 0 then (false, []) else (rest.0, take n (c ∷ s) ++ rest.1)

abbrev pub line_of : LogRecord → Bytes
line_of (op, body) = op ++ (b' ' ∷ (body ++ (10 ∷ [])))

unfoldable pub append : List WriteOutcome → LogRecord → AofWriter → Bool × AofWriter
unfolding write_loop
append os (op, body) w =
    let (all, bytes) = write_loop os (line_of (op, body)) in
    if is_empty op
    then (false, w)
    else if w.is_open
    then (all, record w { file = w.file ++ bytes })
    else (false, w)

-- `std::getline` until the end of the file: the lines, the last one also if no newline ends it
abbrev pub in_front : ℕ → List Bytes → List Bytes
in_front c [] = (c ∷ []) ∷ []
in_front c (l ∷ ls) = (c ∷ l) ∷ ls

unfoldable pub lines : Bytes → List Bytes
lines [] = []
lines (c ∷ s) = let rest = lines s in if c == 10 then [] ∷ rest else in_front c rest

-- a line at its first blank
unfoldable pub split_line : Bytes → Option LogRecord
split_line [] = none
split_line (c ∷ s) =
    let rest : Option LogRecord = elim (split_line s) [
      | none ↦ none
      | some (op, body) ↦ some (c ∷ op, body)
    ] in
    if c == b' ' then some ([], s) else rest

abbrev pub is_comment : Bytes → Bool
is_comment line = is_empty line || first line == b'#'

pub record LoadResult : Type 0 where
  pub ok : Bool
  pub lines_replayed : ℕ
  pub lines_skipped : ℕ
  pub error_message : Bytes

pub data FileState : Type 0 where
  missing unreadable : FileState
  readable : (contents : Bytes) → FileState

module _ ⦃T : TableOps⦄ where
  abbrev pub count_replayed : Bool → LoadResult → LoadResult
  count_replayed done r =
      if done
      then record r { lines_replayed = r.lines_replayed + 1 }
      else record r { lines_skipped = r.lines_skipped + 1 }

  abbrev pub replay_record :
      Registry → LogRecord → ℕ → LoadResult → MemoryStore → LoadResult × MemoryStore
  replay_record commands (op, body) now r m =
      let (res, log, m') =
        dispatch commands false (record { id = text "aof"; op = op; body_json = body }) now m in
      (count_replayed res.ok r, m')

  abbrev pub replay_line :
      Registry → Option LogRecord → ℕ → LoadResult → MemoryStore → LoadResult × MemoryStore
  replay_line commands none now r m = (count_replayed false r, m)
  replay_line commands (some rec) now r m = replay_record commands rec now r m

  abbrev pub load_line : Registry → Bytes → ℕ → LoadResult → MemoryStore → LoadResult × MemoryStore
  load_line commands line now r m =
      if is_comment line then (r, m) else replay_line commands (split_line line) now r m

  -- the loop of `Load`
  unfoldable pub load_lines :
      Registry → List Bytes → ℕ → LoadResult → MemoryStore → LoadResult × MemoryStore
  unfolding split_line
  load_lines commands [] now r m = (r, m)
  load_lines commands (line ∷ rest) now r m =
      let (r', m') = load_line commands line now r m in load_lines commands rest now r' m'

  abbrev pub nothing_loaded : Bool → Bytes → LoadResult
  nothing_loaded ok error = record {
    ok = ok;
    lines_replayed = 0;
    lines_skipped = 0;
    error_message = error;
  }

  -- `Load`, before the dispatcher has a writer
  unfoldable pub load : Registry → FileState → ℕ → MemoryStore → LoadResult × MemoryStore
  unfolding load_lines lines
  load commands missing now m = (nothing_loaded true [], m)
  load commands unreadable now m =
      (nothing_loaded false (text "failed to open AOF file for reading"), m)
  load commands (readable contents) now m =
      load_lines commands (lines contents) now (nothing_loaded true []) m
