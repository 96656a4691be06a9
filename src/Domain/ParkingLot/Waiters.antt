-- ===== src/Domain/ParkingLot/Waiters.antt =====
-- The balance of src/domain/idempotency/parking_lot.cpp: who parks is woken or cancelled once, or waits.
use gate_keeper.Base.{
  ℕ, ◌+◌, ◌≡◌, refl, ℤ, pos, Bool, Bool-cases, inl, inr, true, false, ◌&&◌, not, List, [], ◌∷◌,
  ◌++◌, Bytes, same, same_refl, if◌then◌else◌, length, length-append, arith, Option-cases,
}
use gate_keeper.Maps.{lookup, sum_of}
use gate_keeper.Tables.{one_if}
use gate_keeper.Domain.ParkingLot.{
  Waiter, ParkingLot, waiters_at, park, wake_all, broadcast_and_unpark, cancel, purge_lists,
  purge_timeout, timeout_body, total_waiters,
}
use gate_keeper.Domain.ParkingLot.Weights.{
  weight, weight-park, weight-broadcast, weight-cancel, weight-purge_lists,
}
use gate_keeper.Domain.ParkingLot.Calls.{
  waiting, silent, picked, same_code, woken_with, LotCall, park_call, broadcast_call, cancel_call,
  purge_call, Outcome, id_if, lot_step, lot_run,
}

picked-append : (p : ℕ → Bool) (a b : List ℕ) → picked p (a ++ b) ≡ picked p a + picked p b
unfolding picked
picked-append p [] b = omega arith
picked-append p (x ∷ a) b = let ih = picked-append p a b in omega (arith, ih)

right_arguments :
    (code : ℤ) (body : Bytes) (timed_out : Bool)
    → (same_code code code && same body body && (if timed_out then timed_out else not timed_out))
      ≡ true
right_arguments code body true = rw (same_refl body) (ground arith)
right_arguments code body false = rw (same_refl body) (ground arith)

-- A list of waiters that all have callbacks: each is called once, with these arguments.
woken_with-wake_all :
    (p : ℕ → Bool) (code : ℤ) (body : Bytes) (timed_out : Bool) (ws : List Waiter)
    → weight (λ w. one_if (not w.callback)) ws ≡ 0
    → (picked p (woken_with code body timed_out (wake_all code body timed_out ws))
        ≡ weight (λ w. one_if (p w.waiter_id)) ws)
      × (length (woken_with code body timed_out (wake_all code body timed_out ws)) ≡ length ws)
unfolding picked woken_with wake_all weight
woken_with-wake_all p code body timed_out [] h = (refl, refl)
woken_with-wake_all p code body timed_out (w ∷ ws) h = elim (Bool-cases w.callback) [
  | inr n ↦ absurd (ground (arith, h, n))
  | inl y ↦
      let (ih, ih') = woken_with-wake_all p code body timed_out ws (ground (arith, h, y)) in
      rw y (rw (right_arguments code body timed_out) (omega (arith, ih), omega (arith, ih')))
]

picked-id_if :
    (p : ℕ → Bool) (b : Bool) (id : ℕ) → picked p (id_if b id) ≡ (if b then one_if (p id) else 0)
unfolding picked
picked-id_if p true id = omega arith
picked-id_if p false id = refl

-- What one call does, where all waiters have callbacks.
abbrev Balanced : (ℕ → Bool) → ParkingLot → Outcome × ParkingLot → Type 0
Balanced p lot (o, lot') =
    (waiting p lot' + picked p o.woken + picked p o.cancelled ≡ waiting p lot + picked p o.entered)
    × (length o.woken ≡ o.told)
    × (silent lot' ≡ 0)

-- Nobody gets in without a callback.
park_callback :
    (key : Bytes) (id : ℕ) (callback : Bool) (timeout : ℕ) (lot : ParkingLot)
    → (park key id callback timeout lot).0 ≡ true
    → callback ≡ true
unfolding park
park_callback key id true timeout lot h = refl
park_callback key id false timeout lot h = ground (arith, h)

park-Balanced :
    (p : ℕ → Bool) (key : Bytes) (id : ℕ) (callback : Bool) (timeout : ℕ) (lot : ParkingLot)
    → silent lot ≡ 0
    → Balanced p lot (lot_step (park_call key id callback timeout) lot)
unfolding lot_step waiting silent picked
park-Balanced p key id callback timeout lot h =
    let ids = weight-park (λ w. one_if (p w.waiter_id)) key id callback timeout lot in
    let mute = weight-park (λ w. one_if (not w.callback)) key id callback timeout lot in
    let it = picked-id_if p (park key id callback timeout lot).0 id in
    let asked = park_callback key id callback timeout lot in
    (omega (arith, ids, it), refl, ground (arith, mute, asked, h))

broadcast_wakes :
    (key : Bytes) (code : ℤ) (body : Bytes) (lot : ParkingLot)
    → ((broadcast_and_unpark key code body lot).0 ≡ length (waiters_at (lookup same key lot)))
      × ((broadcast_and_unpark key code body lot).1
          ≡ wake_all code body false (waiters_at (lookup same key lot)))
unfolding broadcast_and_unpark wake_all
broadcast_wakes key code body lot = elim (Option-cases (lookup same key lot)) [
  | inl e ↦ rw (broadcast_and_unpark, e) (refl, refl)
  | inr (ws, e) ↦ rw (broadcast_and_unpark, e) (refl, refl)
]

broadcast-Balanced :
    (p : ℕ → Bool) (key : Bytes) (code : ℤ) (body : Bytes) (lot : ParkingLot)
    → silent lot ≡ 0
    → Balanced p lot (lot_step (broadcast_call key code body) lot)
unfolding lot_step waiting silent picked
broadcast-Balanced p key code body lot h =
    let ids = weight-broadcast (λ w. one_if (p w.waiter_id)) key code body lot in
    let mute = weight-broadcast (λ w. one_if (not w.callback)) key code body lot in
    let ws = waiters_at (lookup same key lot) in
    let (woken, told) = woken_with-wake_all p code body false ws (omega (arith, mute, h)) in
    let (number, wakes) = broadcast_wakes key code body lot in
    (rw wakes (omega (arith, ids, woken)), rw (wakes, number) told, omega (arith, mute, h))

purge-Balanced :
    (p : ℕ → Bool) (now_ms : ℕ) (lot : ParkingLot)
    → silent lot ≡ 0
    → Balanced p lot (lot_step (purge_call now_ms) lot)
unfolding lot_step waiting silent picked purge_timeout
purge-Balanced p now_ms lot h =
    let ids = weight-purge_lists (λ w. one_if (p w.waiter_id)) now_ms lot in
    let mute = weight-purge_lists (λ w. one_if (not w.callback)) now_ms lot in
    let (woken, told) =
      woken_with-wake_all p (pos 504) timeout_body true (purge_lists now_ms lot).0
        (omega (arith, mute, h)) in
    (omega (arith, ids, woken), told, omega (arith, mute, h))

cancel-Balanced :
    (p : ℕ → Bool) (key : Bytes) (id : ℕ) (lot : ParkingLot)
    → silent lot ≡ 0
    → Balanced p lot (lot_step (cancel_call key id) lot)
unfolding lot_step waiting silent picked
cancel-Balanced p key id lot h =
    let (w, e, ids) = weight-cancel (λ w. one_if (p w.waiter_id)) key id lot in
    let (v, e', mute) = weight-cancel (λ w. one_if (not w.callback)) key id lot in
    let it = picked-id_if p (cancel key id lot).0 id in
    let same_id : w.waiter_id ≡ id = ground (arith, e) in
    let ids' = rw same_id at ids in (omega (arith, ids', it), refl, omega (arith, mute, h))

step-Balanced :
    (p : ℕ → Bool) (c : LotCall) (lot : ParkingLot)
    → silent lot ≡ 0
    → Balanced p lot (lot_step c lot)
step-Balanced p (park_call key id callback timeout) lot h =
    park-Balanced p key id callback timeout lot h
step-Balanced p (broadcast_call key code body) lot h = broadcast-Balanced p key code body lot h
step-Balanced p (cancel_call key id) lot h = cancel-Balanced p key id lot h
step-Balanced p (purge_call now_ms) lot h = purge-Balanced p now_ms lot h

lot_run-waiting :
    (p : ℕ → Bool) (cs : List LotCall) (lot : ParkingLot)
    → silent lot ≡ 0
    → (waiting p (lot_run cs lot).1
          + picked p (lot_run cs lot).0.woken
          + picked p (lot_run cs lot).0.cancelled
        ≡ waiting p lot + picked p (lot_run cs lot).0.entered)
      × (length (lot_run cs lot).0.woken ≡ (lot_run cs lot).0.told)
      × (silent (lot_run cs lot).1 ≡ 0)
unfolding lot_run
lot_run-waiting p [] lot h = unfold picked in (omega arith, refl, h)
lot_run-waiting p (c ∷ cs) lot h =
    let (balance, told, mute) = step-Balanced p c lot h in
    let (balance', told', mute') = lot_run-waiting p cs (lot_step c lot).1 mute in
    let a = (lot_step c lot).0 in
    let b = (lot_run cs (lot_step c lot).1).0 in
    let entered = picked-append p a.entered b.entered in
    let woken = picked-append p a.woken b.woken in
    let cancelled = picked-append p a.cancelled b.cancelled in
    (
      omega (arith, balance, balance', entered, woken, cancelled),
      omega (arith, told, told', length-append a.woken b.woken),
      mute',
    )

picked-everyone : (ids : List ℕ) → picked (λ id. true) ids ≡ length ids
unfolding picked
picked-everyone [] = refl
picked-everyone (id ∷ ids) = let ih = picked-everyone ids in omega (arith, ih)

weight-everyone : (ws : List Waiter) → weight (λ w. 1) ws ≡ length ws
unfolding weight
weight-everyone [] = refl
weight-everyone (w ∷ ws) = let ih = weight-everyone ws in omega (arith, ih)

waiting-everyone : (lot : ParkingLot) → waiting (λ id. true) lot ≡ total_waiters lot
unfolding waiting total_waiters sum_of
waiting-everyone [] = refl
waiting-everyone ((k, ws) ∷ lot) =
    let ih = waiting-everyone lot in omega (arith, ih, weight-everyone ws)

-- In any run of calls on a lot whose waiters all have callbacks, and for any set of ids: those that
-- wait at the end, those that were woken and those that were cancelled are together as many as those
-- that waited at the start and those that parked. A waiter counts as woken where its callback was
-- called with the code and the body of the broadcast and no time-out, or with code 504, the body of
-- the time-out and a time-out. The broadcasts and purges return the number of the waiters that they
-- woke so; hence `TotalWaiters` at the end, with what they returned and the cancelled waiters, is
-- `TotalWaiters` at the start with those that parked. All waiters at the end have callbacks.
pub lot_run-total_waiters :
    (p : ℕ → Bool) (cs : List LotCall) (lot : ParkingLot)
    → silent lot ≡ 0
    → (waiting p (lot_run cs lot).1
          + picked p (lot_run cs lot).0.woken
          + picked p (lot_run cs lot).0.cancelled
        ≡ waiting p lot + picked p (lot_run cs lot).0.entered)
      × (length (lot_run cs lot).0.woken ≡ (lot_run cs lot).0.told)
      × (total_waiters (lot_run cs lot).1
            + (lot_run cs lot).0.told
            + length (lot_run cs lot).0.cancelled
          ≡ total_waiters lot + length (lot_run cs lot).0.entered)
      × (silent (lot_run cs lot).1 ≡ 0)
lot_run-total_waiters p cs lot h =
    let (balance, told, mute) = lot_run-waiting p cs lot h in
    let (all, _, _) = lot_run-waiting (λ id. true) cs lot h in
    let o = (lot_run cs lot).0 in
    let before = waiting-everyone lot in
    let after = waiting-everyone (lot_run cs lot).1 in
    let woken = picked-everyone o.woken in
    let cancelled = picked-everyone o.cancelled in
    let entered = picked-everyone o.entered in
    (balance, told, omega (arith, all, told, before, after, woken, cancelled, entered), mute)
