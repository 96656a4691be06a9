-- ===== src/Domain/ParkingLot/Weights.antt =====
-- A measure of the waiters of src/domain/idempotency/parking_lot.cpp, summed over all lists, and what the
-- operations do to it.
use gate_keeper.Base.{
  ℕ, ◌+◌, ◌≡◌, refl, ℤ, Bool, Bool-cases, Option-cases, inl, inr, true, ◌||◌, not, List, [], ◌∷◌,
  ◌++◌, Bytes, same, is_empty, ◌==◌, if◌then◌else◌, arith,
}
use gate_keeper.Maps.{lookup, assign, sum_of, sum_of-remove, sum_of-assign, sum_of-assign_new}
use gate_keeper.Domain.ParkingLot.{
  Waiter, ParkingLot, has_waiter, waiters_at, park, broadcast_and_unpark, without_waiter,
  no_waiters, cancel, is_timed_out, split_timeouts, purge_lists,
}

-- the sum of a measure over a list of waiters
unfoldable pub weight : (Waiter → ℕ) → List Waiter → ℕ
weight g [] = 0
weight g (w ∷ ws) = g w + weight g ws

-- the waiter of a call of `Park`
abbrev pub new_waiter : ℕ → Bool → ℕ → Waiter
new_waiter id callback timeout = record {
  waiter_id = id;
  callback = callback;
  timeout_at_ms = timeout;
}

module _ (g : Waiter → ℕ) where
  weight-append : (ws vs : List Waiter) → weight g (ws ++ vs) ≡ weight g ws + weight g vs
  unfolding weight
  weight-append [] vs = omega arith
  weight-append (w ∷ ws) vs = let ih = weight-append ws vs in omega (arith, ih)

  weight-no_waiters : (ws : List Waiter) → no_waiters ws ≡ true → weight g ws ≡ 0
  unfolding weight
  weight-no_waiters [] e = refl
  weight-no_waiters (w ∷ ws) e = absurd (ground (arith, e))

  weight-assign :
      (key : Bytes) (ws : List Waiter) (lot : ParkingLot)
      → sum_of (weight g) (assign same key ws lot) + weight g (waiters_at (lookup same key lot))
        ≡ sum_of (weight g) lot + weight g ws
  weight-assign key ws lot = elim (Option-cases (lookup same key lot)) [
    | inl e ↦ rw e (
        let h = sum_of-assign_new same (weight g) key ws lot e in unfold weight in omega (arith, h))
    | inr (old, e) ↦ rw e (sum_of-assign same (weight g) key ws old lot e)
  ]

  -- `Park` adds its own waiter, if it adds one.
  pub weight-park :
      (key : Bytes) (id : ℕ) (callback : Bool) (timeout : ℕ) (lot : ParkingLot)
      → sum_of (weight g) (park key id callback timeout lot).1
        ≡ sum_of (weight g) lot
          + (if (park key id callback timeout lot).0 then g (new_waiter id callback timeout) else 0)
  unfolding park
  weight-park key id callback timeout lot =
      let ws = waiters_at (lookup same key lot) in
      let new = new_waiter id callback timeout in
      elim (Bool-cases (is_empty key || id == 0 || not callback)) [
        | inl y ↦ rw y (omega arith)
        | inr n ↦ rw n (elim (Bool-cases (has_waiter id ws)) [
          | inl y ↦ rw y (omega (arith, weight-assign key ws lot))
          | inr m ↦
              let put = weight-assign key (ws ++ new ∷ []) lot in
              let joined : weight g (ws ++ new ∷ []) ≡ weight g ws + (g new + 0) =
                unfold weight in weight-append ws (new ∷ []) in
              rw m (omega (arith, put, joined))
        ])
      ]

  -- `BroadcastAndUnpark` takes the list of its key.
  pub weight-broadcast :
      (key : Bytes) (code : ℤ) (body : Bytes) (lot : ParkingLot)
      → sum_of (weight g) (broadcast_and_unpark key code body lot).2
          + weight g (waiters_at (lookup same key lot))
        ≡ sum_of (weight g) lot
  unfolding broadcast_and_unpark
  weight-broadcast key code body lot = elim (Option-cases (lookup same key lot)) [
    | inl e ↦ rw (broadcast_and_unpark, e) (unfold weight in omega arith)
    | inr (ws, e) ↦ rw (broadcast_and_unpark, e) (sum_of-remove same (weight g) key ws lot e)
  ]

  weight-without :
      (id : ℕ) (ws : List Waiter)
      → has_waiter id ws ≡ true
      → (w : Waiter) × (w.waiter_id == id ≡ true)
        × (weight g (without_waiter id ws) + g w ≡ weight g ws)
  unfolding has_waiter without_waiter weight
  weight-without id [] h = absurd (ground (arith, h))
  weight-without id (w ∷ ws) h = elim (Bool-cases (w.waiter_id == id)) [
    | inl y ↦ (w, y, rw y (omega arith))
    | inr n ↦
        let (v, same_id, ih) = weight-without id ws (ground (arith, h, n)) in
        (v, same_id, rw n (omega (arith, ih)))
  ]

  -- `Cancel` takes one waiter with its id, if it takes one.
  pub weight-cancel :
      (key : Bytes) (id : ℕ) (lot : ParkingLot)
      → (w : Waiter) × (w.waiter_id == id ≡ true)
        × (sum_of (weight g) (cancel key id lot).1 + (if (cancel key id lot).0 then g w else 0)
            ≡ sum_of (weight g) lot)
  unfolding cancel
  weight-cancel key id lot =
      let anyone = new_waiter id true 0 in
      let itself : id == id ≡ true = ground arith in
      elim (Option-cases (lookup same key lot)) [
        | inl e ↦ (anyone, itself, rw (cancel, e) (omega arith))
        | inr (ws, e) ↦ elim (Bool-cases (has_waiter id ws)) [
          | inr n ↦ (anyone, itself, rw (cancel, e) (rw n (omega arith)))
          | inl y ↦
              let (w, same_id, less) = weight-without id ws y in
              (
                w,
                same_id,
                rw (cancel, e)
                    (rw y (elim (Bool-cases (no_waiters (without_waiter id ws))) [
                      | inl z ↦
                          let gone = sum_of-remove same (weight g) key ws lot e in
                          let empty = weight-no_waiters (without_waiter id ws) z in
                          rw z (omega (arith, gone, less, empty))
                      | inr z ↦
                          let put =
                            sum_of-assign same (weight g) key (without_waiter id ws) ws lot e in
                          rw z (omega (arith, put, less))
                    ])),
              )
        ]
      ]

  weight-split_timeouts :
      (now : ℕ) (ws : List Waiter)
      → weight g (split_timeouts now ws).0 + weight g (split_timeouts now ws).1 ≡ weight g ws
  unfolding split_timeouts weight
  weight-split_timeouts now [] = omega arith
  weight-split_timeouts now (w ∷ ws) =
      let ih = weight-split_timeouts now ws in
      elim (Bool-cases (is_timed_out now w)) [
        | inl y ↦ rw y (omega (arith, ih))
        | inr n ↦ rw n (omega (arith, ih))
      ]

  -- `PurgeTimeout` takes the waiters that it collects.
  pub weight-purge_lists :
      (now : ℕ) (lot : ParkingLot)
      → sum_of (weight g) (purge_lists now lot).1 + weight g (purge_lists now lot).0
        ≡ sum_of (weight g) lot
  unfolding purge_lists sum_of
  weight-purge_lists now [] = unfold weight in omega arith
  weight-purge_lists now ((k, ws) ∷ lot) =
      let ih = weight-purge_lists now lot in
      let split = weight-split_timeouts now ws in
      let joined = weight-append (split_timeouts now ws).0 (purge_lists now lot).0 in
      elim (Bool-cases (no_waiters (split_timeouts now ws).1)) [
        | inl y ↦
            let empty = weight-no_waiters (split_timeouts now ws).1 y in
            rw y (omega (arith, ih, split, joined, empty))
        | inr n ↦ rw n (omega (arith, ih, split, joined))
      ]
