-- ===== src/Storage/Idempotency/Replays.antt =====
-- Completed requests in src/storage/memory_store.cpp: their response is replayed, until `IdemFail`.
use gate_keeper.Base.{
  ℕ, ℤ, ◌≡◌, refl, ap, Bool-cases, inl, inr, true, false, List, [], ◌∷◌, Bytes, same, same_iff,
  same_refl, arith,
}
use gate_keeper.Tables.{TableOps}
use gate_keeper.Storage.Entry.{
  IdempotencyRecord, in_progress, completed, failed, execute, replay, past,
}
use gate_keeper.Storage.Idempotency.{
  begin_reply, is_stranger, put_idempotency, idem_begin, idem_complete, idem_fail, idem_get,
}
use gate_keeper.Storage.Idempotency.Machine.{
  Holds, Holds-put_idempotency, look_up-Holds, idem_begin-Holds, idem_begin-completed,
  idem_begin-failed, idem_complete-Holds, idem_fail-Holds,
}
use gate_keeper.Storage.Idempotency.Flights.{
  IdemCall, begin_call, complete_call, fail_call, get_call, is_foreign, all_foreign, idem_step,
}
use gate_keeper.Storage.Shard.{StorageShard}

module _ ⦃T : TableOps⦄ where
  -- the shard behind a run of calls
  unfoldable pub run_calls : Bytes → List IdemCall → ℕ → StorageShard → StorageShard
  run_calls k [] seq s = s
  run_calls k (c ∷ cs) seq s = let (told, seq', s') = idem_step k c seq s in run_calls k cs seq' s'

  -- A completed record is changed by no foreign call.
  step_completed :
      (k : Bytes) (c : IdemCall) (seq : ℕ) (r : IdempotencyRecord) (s : StorageShard)
      → Holds k r s
      → r.status ≡ completed
      → is_foreign r.owner_token r.expire_at_ms c ≡ true
      → (idem_step k c seq s).2 ≡ s
  unfolding idem_step
  step_completed k (begin_call hash ttl_ms token now) seq r s h e f =
      let before : past r.expire_at_ms now ≡ false = ground (arith, f) in
      elim (Bool-cases (same r.request_hash hash)) [
        | inl y ↦
            let same_hash = (same_iff r.request_hash hash).0 y in
            rw (idem_begin-completed k hash ttl_ms now seq token r s h before same_hash e)
        | inr n ↦ rw (idem_begin-Holds k hash ttl_ms now seq token r s h before, n)
      ]
  step_completed k (complete_call token code body now) seq r s h e f =
      let before : past r.expire_at_ms now ≡ false = ground (arith, f) in
      rw (idem_complete-Holds k token code body now r s h before, e) (ground arith)
  step_completed k (fail_call token message now) seq r s h e f =
      let before : past r.expire_at_ms now ≡ false = ground (arith, f) in
      let stranger : is_stranger token r ≡ true = unfold is_stranger in ground (arith, f) in
      rw (idem_fail-Holds k token message now r s h before, stranger)
  step_completed k (get_call now) seq r s h e f =
      let before : past r.expire_at_ms now ≡ false = ground (arith, f) in
      unfold idem_get in rw (look_up-Holds k now r s h before)

  run_completed :
      (k : Bytes) (cs : List IdemCall) (seq : ℕ) (r : IdempotencyRecord) (s : StorageShard)
      → Holds k r s
      → r.status ≡ completed
      → all_foreign r.owner_token r.expire_at_ms cs ≡ true
      → run_calls k cs seq s ≡ s
  unfolding run_calls
  run_completed k [] seq r s h e f = refl
  run_completed k (c ∷ cs) seq r s h e f =
      let step = step_completed k c seq r s h e (ground (arith, f)) in
      rw step (run_completed k cs (idem_step k c seq s).1 r s h e (ground (arith, f)))

  -- Once the owner of a request in progress has completed it, every later begin with the same hash
  -- before the deadline is answered by the code and the body of that completion, whatever foreign
  -- calls come in between.
  pub idem_begin-idem_complete :
      (k token : Bytes) (code : ℤ) (body : Bytes) (now seq : ℕ) (cs : List IdemCall)
      (ttl_ms later seq' : ℕ) (other : Bytes) (r : IdempotencyRecord) (s : StorageShard)
      → Holds k r s
      → r.status ≡ in_progress
      → r.owner_token ≡ token
      → past r.expire_at_ms now ≡ false
      → all_foreign token r.expire_at_ms cs ≡ true
      → past r.expire_at_ms later ≡ false
      → (idem_begin k r.request_hash ttl_ms other later seq'
          (run_calls k cs seq (idem_complete k token code body now s).1)).0
        ≡ begin_reply replay token code body
  idem_begin-idem_complete k token code body now seq cs ttl_ms later seq' other r s h e own before f
        after =
      let r' : IdempotencyRecord = record r {
        status = completed;
        response_code = code;
        response_body = body;
      } in
      let s' = put_idempotency k r' s in
      let held : Holds k r' s' = Holds-put_idempotency k r r' s h in
      let friend : is_stranger token r ≡ false =
        unfold is_stranger in rw own (ground (arith, same_refl token)) in
      let done : (idem_complete k token code body now s).1 ≡ s' =
        rw (idem_complete-Holds k token code body now r s h before, friend, e) in
      let ran : run_calls k cs seq s' ≡ s' = run_completed k cs seq r' s' held refl (rw own f) in
      rw
        (
          done,
          ran,
          idem_begin-completed k r.request_hash ttl_ms later seq' other r' s' held after refl refl,
        )
        (ap (λ t. begin_reply replay t code body) own)

  -- `IdemFail` by the owner, or with an empty token, undoes a completion that has not expired: it
  -- succeeds, and the next begin with the same hash before the deadline is told to execute again.
  pub idem_begin-idem_fail :
      (k hash token message : Bytes) (now ttl_ms later seq : ℕ) (other : Bytes)
      (r : IdempotencyRecord) (s : StorageShard)
      → Holds k r s
      → r.status ≡ completed
      → r.request_hash ≡ hash
      → is_stranger token r ≡ false
      → past r.expire_at_ms now ≡ false
      → past r.expire_at_ms later ≡ false
      → ((idem_fail k token message now s).0.failed ≡ true)
        × ((idem_begin k hash ttl_ms other later seq (idem_fail k token message now s).1).0.action
            ≡ execute)
  idem_begin-idem_fail k hash token message now ttl_ms later seq other r s h e hashed friend before
        after =
      let r' : IdempotencyRecord = record r { status = failed; response_body = message } in
      let s' = put_idempotency k r' s in
      let held : Holds k r' s' = Holds-put_idempotency k r r' s h in
      rw (idem_fail-Holds k token message now r s h before, friend)
        (refl, rw (idem_begin-failed k hash ttl_ms later seq other r' s' held after hashed refl))
