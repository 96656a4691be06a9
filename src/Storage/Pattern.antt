-- ===== src/Storage/Pattern.antt =====
-- `MatchPattern` of src/storage/memory_store.cpp: the glob matcher with one backtracking point.
pub mod Rounds
pub mod Globs
use gate_keeper.Base.{
  ℕ, zero, suc, ◌+◌, ◌*◌, Bool, true, false, ◌&&◌, ◌||◌, Option, none, some, [], ◌∷◌, Bytes, ◌==◌,
  if◌then◌else◌, length, same,
}

-- The loop's variables: what is left of the pattern and of the string, and, once a `*` was met, the
-- pattern behind the last `*` with the string that it was last tried on.
pub record Cursor : Type 0 where
  pub pattern : Bytes
  pub str : Bytes
  pub star : Option (Bytes × Bytes)

-- the branch of the loop that goes back to the last `*` and lets it take one byte more
unfoldable pub back_up : Option (Bytes × Bytes) → Option Cursor
back_up none = none
back_up (some (p, [])) = none
back_up (some (p, c ∷ s)) = some (record { pattern = p; str = s; star = some (p, s) })

-- one round at a byte of the string; `none` is `return false`
unfoldable pub advance : Bytes → ℕ → Bytes → Option (Bytes × Bytes) → Option Cursor
unfolding back_up
advance [] c s star = back_up star
advance (p ∷ ps) c s star =
    if p == b'?' || p == c
    then some (record { pattern = ps; str = s; star = star })
    else if p == b'*'
    then some (record { pattern = ps; str = c ∷ s; star = some (ps, c ∷ s) })
    else back_up star

unfoldable pub only_stars : Bytes → Bool
only_stars [] = true
only_stars (p ∷ ps) = p == b'*' && only_stars ps

-- the loops on fuel; `none` is that the fuel ran out
unfoldable pub match_loop : ℕ → Bytes → Bytes → Option (Bytes × Bytes) → Option Bool
unfolding advance only_stars
match_loop fuel p [] star = some (only_stars p)
match_loop zero p (c ∷ s) star = none
match_loop (suc fuel) p (c ∷ s) star = elim (advance p c s star) [
  | none ↦ some false
  | some n ↦ match_loop fuel n.pattern n.str n.star
]

-- Each round either reads on in the pattern or gives up a byte of the string for good.
abbrev pub enough_fuel : Bytes → Bytes → ℕ
enough_fuel pattern str = (length str + 1) * suc (length pattern) + length pattern

unfoldable pub match_pattern : Bytes → Bytes → Bool
unfolding match_loop
match_pattern pattern str =
    if same pattern (b'*' ∷ [])
    then true
    else elim (match_loop (enough_fuel pattern str) pattern str none) [ none ↦ false | some b ↦ b ]
