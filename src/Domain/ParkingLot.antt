-- ===== src/Domain/ParkingLot.antt =====
-- src/domain/idempotency/parking_lot.cpp: the callers that wait for a request in progress. A call of a
-- callback is an event; the mutex is held during each operation up to the calls.
pub mod Weights
pub mod Calls
pub mod Waiters
use gate_keeper.Base.{
  ℕ, ◌+◌, ℤ, pos, Bool, true, false, ◌&&◌, ◌||◌, not, Option, none, some, List, [], ◌∷◌, ◌++◌,
  Bytes, same, text, is_empty, ltb, leb, ◌==◌, if◌then◌else◌, length,
}
use gate_keeper.Maps.{lookup, assign, remove, sum_of}

-- `callback` says whether the `std::function` is not empty
pub record Waiter : Type 0 where
  pub waiter_id : ℕ
  pub callback : Bool
  pub timeout_at_ms : ℕ

-- `callback(code, body, timed_out)` of a waiter
pub record Wake : Type 0 where
  pub waiter_id : ℕ
  pub code : ℤ
  pub body : Bytes
  pub timed_out : Bool

abbrev pub ParkingLot : Type 0
ParkingLot = List (Bytes × List Waiter)

unfoldable pub has_waiter : ℕ → List Waiter → Bool
has_waiter id [] = false
has_waiter id (w ∷ ws) = w.waiter_id == id || has_waiter id ws

-- `waiters_[key]`: a missing key has the empty list
abbrev pub waiters_at : Option (List Waiter) → List Waiter
waiters_at none = []
waiters_at (some ws) = ws

unfoldable pub park : Bytes → ℕ → Bool → ℕ → ParkingLot → Bool × ParkingLot
unfolding lookup assign has_waiter
park key id callback timeout_at_ms lot =
    if is_empty key || id == 0 || not callback
    then (false, lot)
    else let ws = waiters_at (lookup same key lot) in
      if has_waiter id ws then (false, assign same key ws lot) else (
        true,
        assign same key
            (ws
              ++ record { waiter_id = id; callback = callback; timeout_at_ms = timeout_at_ms } ∷ [])
            lot,
      )

-- the calls of the callbacks, in order
unfoldable pub wake_all : ℤ → Bytes → Bool → List Waiter → List Wake
wake_all code body timed_out [] = []
wake_all code body timed_out (w ∷ ws) =
    let rest = wake_all code body timed_out ws in
    if w.callback
    then record { waiter_id = w.waiter_id; code = code; body = body; timed_out = timed_out } ∷ rest
    else rest

unfoldable pub broadcast_and_unpark : Bytes → ℤ → Bytes → ParkingLot → ℕ × List Wake × ParkingLot
unfolding lookup remove wake_all
broadcast_and_unpark key code body lot = elim (lookup same key lot) [
  | none ↦ (0, [], lot)
  | some to_wake ↦ (length to_wake, wake_all code body false to_wake, remove same key lot)
]

-- the list without the first waiter of that id
unfoldable pub without_waiter : ℕ → List Waiter → List Waiter
without_waiter id [] = []
without_waiter id (w ∷ ws) =
    let rest = without_waiter id ws in if w.waiter_id == id then ws else w ∷ rest

abbrev pub no_waiters : List Waiter → Bool
no_waiters [] = true
no_waiters (w ∷ ws) = false

unfoldable pub cancel : Bytes → ℕ → ParkingLot → Bool × ParkingLot
unfolding lookup assign remove has_waiter without_waiter
cancel key id lot = elim (lookup same key lot) [
  | none ↦ (false, lot)
  | some ws ↦
      if has_waiter id ws
      then (
        true,
        if no_waiters (without_waiter id ws)
            then remove same key lot
            else assign same key (without_waiter id ws) lot,
      )
      else (false, lot)
]

abbrev pub is_timed_out : ℕ → Waiter → Bool
is_timed_out now_ms w = ltb 0 w.timeout_at_ms && leb w.timeout_at_ms now_ms

-- the inner loop: those that time out, and those that stay
unfoldable pub split_timeouts : ℕ → List Waiter → List Waiter × List Waiter
split_timeouts now_ms [] = ([], [])
split_timeouts now_ms (w ∷ ws) =
    let (timed_out, stay) = split_timeouts now_ms ws in
    if is_timed_out now_ms w then (w ∷ timed_out, stay) else (timed_out, w ∷ stay)

-- the outer loop, with the removal of the keys whose lists are empty
unfoldable pub purge_lists : ℕ → ParkingLot → List Waiter × ParkingLot
unfolding split_timeouts
purge_lists now_ms [] = ([], [])
purge_lists now_ms ((k, ws) ∷ lot) =
    let (timed_out, stay) = split_timeouts now_ms ws in
    let (more, lot') = purge_lists now_ms lot in
    (timed_out ++ more, if no_waiters stay then lot' else (k, stay) ∷ lot')

abbrev pub timeout_body : Bytes
timeout_body =
    text
      "{\"error\":{\"code\":\"ERR_GATEWAY_TIMEOUT\",\"message\":\"Upstream execution timed out while parked\"}}"

unfoldable pub purge_timeout : ℕ → ParkingLot → ℕ × List Wake × ParkingLot
unfolding purge_lists wake_all
purge_timeout now_ms lot =
    let (timed_out, lot') = purge_lists now_ms lot in
    (length timed_out, wake_all (pos 504) timeout_body true timed_out, lot')

unfoldable pub waiter_count : Bytes → ParkingLot → ℕ
unfolding lookup
waiter_count key lot = length (waiters_at (lookup same key lot))

unfoldable pub total_waiters : ParkingLot → ℕ
unfolding sum_of
total_waiters lot = sum_of length lot

abbrev pub clear : ParkingLot → ParkingLot
clear lot = []
