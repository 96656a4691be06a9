-- ===== src/Domain/ParkingLot/Calls.antt =====
-- Runs of calls on the parking lot (src/domain/idempotency/parking_lot.cpp), and what they do to the callers.
use gate_keeper.Base.{
  ℕ, ◌+◌, ℤ, pos, pos_part, neg_part, Bool, true, false, ◌&&◌, not, List, [], ◌∷◌, ◌++◌, Bytes,
  same, ◌==◌, if◌then◌else◌,
}
use gate_keeper.Maps.{sum_of}
use gate_keeper.Tables.{one_if}
use gate_keeper.Domain.ParkingLot.{
  Wake, ParkingLot, park, broadcast_and_unpark, cancel, purge_timeout, timeout_body,
}
use gate_keeper.Domain.ParkingLot.Weights.{weight}

-- how many waiters with an id of a set stand in the lists
unfoldable pub waiting : (ℕ → Bool) → ParkingLot → ℕ
unfolding sum_of weight
waiting p lot = sum_of (weight (λ w. one_if (p w.waiter_id))) lot

-- how many waiters have no callback
unfoldable pub silent : ParkingLot → ℕ
unfolding sum_of weight
silent lot = sum_of (weight (λ w. one_if (not w.callback))) lot

-- how many ids of a list are in a set
unfoldable pub picked : (ℕ → Bool) → List ℕ → ℕ
picked p [] = 0
picked p (id ∷ ids) = one_if (p id) + picked p ids

abbrev pub same_code : ℤ → ℤ → Bool
same_code a b = pos_part a == pos_part b && neg_part a == neg_part b

-- the ids of the callbacks that are called with the given arguments
unfoldable pub woken_with : ℤ → Bytes → Bool → List Wake → List ℕ
woken_with code body timed_out [] = []
woken_with code body timed_out (w ∷ ws) =
    let rest = woken_with code body timed_out ws in
    if same_code w.code code
      && same w.body body
      && (if timed_out then w.timed_out else not w.timed_out)
    then w.waiter_id ∷ rest
    else rest

-- A call on the parking lot.
pub data LotCall : Type 0 where
  park_call : (key : Bytes) (id : ℕ) (callback : Bool) (timeout_at_ms : ℕ) → LotCall
  broadcast_call : (key : Bytes) (code : ℤ) (body : Bytes) → LotCall
  cancel_call : (key : Bytes) (id : ℕ) → LotCall
  purge_call : (now_ms : ℕ) → LotCall

-- The ids of those that calls let in, of those whose callbacks they call with the arguments that
-- they are to get, and of those that they cancel; and the number of wakes that they return.
pub record Outcome : Type 0 where
  pub entered : List ℕ
  pub woken : List ℕ
  pub cancelled : List ℕ
  pub told : ℕ

abbrev pub id_if : Bool → ℕ → List ℕ
id_if true id = id ∷ []
id_if false id = []

unfoldable pub lot_step : LotCall → ParkingLot → Outcome × ParkingLot
lot_step (park_call key id callback timeout) lot =
    let (entered, lot') = park key id callback timeout lot in
    (record { entered = id_if entered id; woken = []; cancelled = []; told = 0 }, lot')
lot_step (broadcast_call key code body) lot =
    let (n, wakes, lot') = broadcast_and_unpark key code body lot in
    (
      record { entered = []; woken = woken_with code body false wakes; cancelled = []; told = n },
      lot',
    )
lot_step (cancel_call key id) lot =
    let (left, lot') = cancel key id lot in
    (record { entered = []; woken = []; cancelled = id_if left id; told = 0 }, lot')
lot_step (purge_call now_ms) lot =
    let (n, wakes, lot') = purge_timeout now_ms lot in
    (
      record {
        entered = [];
        woken = woken_with (pos 504) timeout_body true wakes;
        cancelled = [];
        told = n;
      },
      lot',
    )

abbrev pub nothing_done : Outcome
nothing_done = record { entered = []; woken = []; cancelled = []; told = 0 }

abbrev pub both : Outcome → Outcome → Outcome
both a b = record {
  entered = a.entered ++ b.entered;
  woken = a.woken ++ b.woken;
  cancelled = a.cancelled ++ b.cancelled;
  told = a.told + b.told;
}

unfoldable pub lot_run : List LotCall → ParkingLot → Outcome × ParkingLot
unfolding lot_step
lot_run [] lot = (nothing_done, lot)
lot_run (c ∷ cs) lot =
    let (first, lot') = lot_step c lot in
    let (rest, lot'') = lot_run cs lot' in (both first rest, lot'')
