-- ===== src/Storage/Idempotency/Flights.antt =====
-- Runs of idempotent calls of src/storage/memory_store.cpp on one key: who is told to execute.
use gate_keeper.Base.{
  ℕ, ◌+◌, ℤ, pos, ◌≡◌, refl, Bool, Bool-cases, inl, inr, true, false, not, none, List, [], ◌∷◌,
  Bytes, same, same_refl, is_empty, arith, ◌&&◌,
}
use gate_keeper.Tables.{TableOps, one_if}
use gate_keeper.Storage.Entry.{
  IdempotencyRecord, IdempotencyStatus, none_status, in_progress, completed, failed,
  IdempotencyAction, execute, park, replay, conflict, past,
}
use gate_keeper.Storage.Keys.{expiry}
use gate_keeper.Storage.Idempotency.{
  is_stranger, is_owner, look_up_idempotency, begin_existing, begin_new, idem_begin, idem_complete,
  idem_fail, idem_get, is_completed, token_for,
}
use gate_keeper.Storage.Idempotency.Machine.{
  Holds, Holds-put_idempotency, look_up-Holds, idem_begin-Holds, idem_complete-Holds,
  idem_fail-Holds, unexpired_record, look_up-free,
}
use gate_keeper.Storage.Shard.{StorageShard}

-- A call on the key, with the time at which it runs.
pub data IdemCall : Type 0 where
  begin_call : (request_hash : Bytes) (ttl_ms : ℕ) (owner_token : Bytes) (now : ℕ) → IdemCall
  complete_call : (owner_token : Bytes) (code : ℤ) (body : Bytes) (now : ℕ) → IdemCall
  fail_call : (owner_token : Bytes) (message : Bytes) (now : ℕ) → IdemCall
  get_call : (now : ℕ) → IdemCall

abbrev pub is_execute : IdempotencyAction → Bool
is_execute execute = true
is_execute park = false
is_execute replay = false
is_execute conflict = false

-- A claim that nobody else may take: in progress, or completed.
abbrev pub is_claim : IdempotencyStatus → Bool
is_claim none_status = false
is_claim in_progress = true
is_claim completed = true
is_claim failed = false

-- Before the deadline; a begin that does not come from the owner, a failure that is not admitted, and
-- any completion or read.
abbrev pub is_foreign : Bytes → ℕ → IdemCall → Bool
is_foreign owner deadline (begin_call hash ttl_ms token now) =
    not (past deadline now) && not (not (is_empty token) && same owner token)
is_foreign owner deadline (complete_call token code body now) = not (past deadline now)
is_foreign owner deadline (fail_call token message now) =
    not (past deadline now) && not (is_empty token) && not (same owner token)
is_foreign owner deadline (get_call now) = not (past deadline now)

abbrev pub all_foreign : Bytes → ℕ → List IdemCall → Bool
all_foreign owner deadline [] = true
all_foreign owner deadline (c ∷ cs) = is_foreign owner deadline c && all_foreign owner deadline cs

module _ ⦃T : TableOps⦄ where
  -- one call: whether it is told to execute, the next sequence number, the shard
  unfoldable pub idem_step : Bytes → IdemCall → ℕ → StorageShard → Bool × ℕ × StorageShard
  idem_step k (begin_call hash ttl_ms token now) seq s =
      let (reply, seq', s') = idem_begin k hash ttl_ms token now seq s in
      (is_execute reply.action, seq', s')
  idem_step k (complete_call token code body now) seq s =
      (false, seq, (idem_complete k token code body now s).1)
  idem_step k (fail_call token message now) seq s =
      (false, seq, (idem_fail k token message now s).1)
  idem_step k (get_call now) seq s = (false, seq, (idem_get k now s).1)

  -- how many calls of a run are told to execute
  unfoldable pub executions : Bytes → List IdemCall → ℕ → StorageShard → ℕ
  executions k [] seq s = 0
  executions k (c ∷ cs) seq s =
      let (told, seq', s') = idem_step k c seq s in one_if told + executions k cs seq' s'

  -- The key is claimed by the owner until the deadline.
  pub record IsClaimed (k owner : Bytes) (deadline : ℕ) (s : StorageShard) : Type 0 where
    pub rec : IdempotencyRecord
    pub holds : Holds k rec s
    pub owned : rec.owner_token ≡ owner
    pub until : rec.expire_at_ms ≡ deadline
    pub claims : is_claim rec.status ≡ true

  claim_answer :
      (k : Bytes) (ttl_ms : ℕ) (token : Bytes) (now seq : ℕ) (r : IdempotencyRecord)
      (status : IdempotencyStatus) (s : StorageShard)
      → is_claim status ≡ true
      → is_owner token r ≡ false
      → (is_execute (begin_existing k ttl_ms token now seq r status s).0.action ≡ false)
        × ((begin_existing k ttl_ms token now seq r status s).2 ≡ s)
  unfolding begin_existing
  claim_answer k ttl_ms token now seq r in_progress s c o = (rw o refl, refl)
  claim_answer k ttl_ms token now seq r completed s c o = (refl, refl)
  claim_answer k ttl_ms token now seq r failed s c o = ground (arith, c)
  claim_answer k ttl_ms token now seq r none_status s c o = ground (arith, c)

  -- A begin by anybody but the owner leaves the claim as it is, and is not told to execute.
  begin_foreign :
      (k owner hash : Bytes) (deadline ttl_ms : ℕ) (token : Bytes) (now seq : ℕ) (s : StorageShard)
      (p : IsClaimed k owner deadline s)
      → past deadline now ≡ false
      → (not (is_empty token) && same owner token) ≡ false
      → (is_execute (idem_begin k hash ttl_ms token now seq s).0.action ≡ false)
        × ((idem_begin k hash ttl_ms token now seq s).2 ≡ s)
  begin_foreign k owner hash deadline ttl_ms token now seq s p before foreign =
      let before' : past p.rec.expire_at_ms now ≡ false = rw p.until before in
      let foreign' : is_owner token p.rec ≡ false = unfold is_owner in rw p.owned foreign in
      rw (idem_begin-Holds k hash ttl_ms now seq token p.rec s p.holds before')
        (elim (Bool-cases (same p.rec.request_hash hash)) [
          | inl e ↦
              rw e (claim_answer k ttl_ms token now seq p.rec p.rec.status s p.claims foreign')
          | inr e ↦ rw e (refl, refl)
        ])

  complete_foreign :
      (k owner : Bytes) (deadline : ℕ) (token : Bytes) (code : ℤ) (body : Bytes) (now : ℕ)
      (s : StorageShard) (p : IsClaimed k owner deadline s)
      → past deadline now ≡ false
      → IsClaimed k owner deadline (idem_complete k token code body now s).1
  complete_foreign k owner deadline token code body now s p before =
      let before' : past p.rec.expire_at_ms now ≡ false = rw p.until before in
      rw (idem_complete-Holds k token code body now p.rec s p.holds before')
        (elim (Bool-cases (is_stranger token p.rec)) [
          | inl e ↦ rw e p
          | inr e ↦ rw e (elim (Bool-cases (is_completed p.rec.status)) [
            | inl c ↦ rw c p
            | inr c ↦ rw c (record {
              rec = record p.rec { status = completed; response_code = code; response_body = body };
              holds =
                  Holds-put_idempotency k p.rec
                    (record p.rec {
                      status = completed;
                      response_code = code;
                      response_body = body;
                    })
                    s p.holds;
              owned = p.owned;
              until = p.until;
              claims = refl;
            })
          ])
        ])

  fail_foreign :
      (k owner : Bytes) (deadline : ℕ) (token message : Bytes) (now : ℕ) (s : StorageShard)
      (p : IsClaimed k owner deadline s)
      → past deadline now ≡ false
      → (not (is_empty token) && not (same owner token)) ≡ true
      → (idem_fail k token message now s).1 ≡ s
  fail_foreign k owner deadline token message now s p before foreign =
      let before' : past p.rec.expire_at_ms now ≡ false = rw p.until before in
      let foreign' : is_stranger token p.rec ≡ true = unfold is_stranger in rw p.owned foreign in
      rw (idem_fail-Holds k token message now p.rec s p.holds before', foreign')

  get_foreign :
      (k owner : Bytes) (deadline now : ℕ) (s : StorageShard) (p : IsClaimed k owner deadline s)
      → past deadline now ≡ false
      → (idem_get k now s).1 ≡ s
  unfolding idem_get
  get_foreign k owner deadline now s p before =
      let before' : past p.rec.expire_at_ms now ≡ false = rw p.until before in
      rw (look_up-Holds k now p.rec s p.holds before')

  -- No foreign call takes or ends a claim.
  step_foreign :
      (k owner : Bytes) (deadline : ℕ) (c : IdemCall) (seq : ℕ) (s : StorageShard)
      → IsClaimed k owner deadline s
      → is_foreign owner deadline c ≡ true
      → ((idem_step k c seq s).0 ≡ false) × IsClaimed k owner deadline (idem_step k c seq s).2
  unfolding idem_step
  step_foreign k owner deadline (begin_call hash ttl_ms token now) seq s p f =
      let done =
        begin_foreign k owner hash deadline ttl_ms token now seq s p (ground (arith, f))
          (ground (arith, f)) in
      (done.0, rw done.1 p)
  step_foreign k owner deadline (complete_call token code body now) seq s p f =
      (refl, complete_foreign k owner deadline token code body now s p (ground (arith, f)))
  step_foreign k owner deadline (fail_call token message now) seq s p f = (
    refl,
    rw (fail_foreign k owner deadline token message now s p (ground (arith, f)) (ground (arith, f)))
        p,
  )
  step_foreign k owner deadline (get_call now) seq s p f =
      (refl, rw (get_foreign k owner deadline now s p (ground (arith, f))) p)

  -- While a claim stands, no foreign call is told to execute.
  pub executions-IsClaimed :
      (k owner : Bytes) (deadline : ℕ) (cs : List IdemCall) (seq : ℕ) (s : StorageShard)
      → IsClaimed k owner deadline s
      → all_foreign owner deadline cs ≡ true
      → executions k cs seq s ≡ 0
  unfolding executions
  executions-IsClaimed k owner deadline [] seq s p f = refl
  executions-IsClaimed k owner deadline (c ∷ cs) seq s p f =
      let step = step_foreign k owner deadline c seq s p (ground (arith, f)) in
      let rest =
        executions-IsClaimed k owner deadline cs (idem_step k c seq s).1 (idem_step k c seq s).2
          step.1 (ground (arith, f)) in
      rw step.0 (omega (arith, rest))

  -- The record that a first begin writes.
  begin_new-IsClaimed :
      (k hash : Bytes) (ttl_ms now seq : ℕ) (token : Bytes) (s : StorageShard)
      → (is_execute (begin_new k hash ttl_ms token now seq s).0.action ≡ true)
        × IsClaimed k
            (token_for token now seq)
            (expiry ttl_ms now)
            (begin_new k hash ttl_ms token now seq s).2
  unfolding begin_new
  begin_new-IsClaimed k hash ttl_ms now seq token s =
      let r : IdempotencyRecord = record {
        key = k;
        request_hash = hash;
        status = in_progress;
        response_code = pos 0;
        response_body = [];
        owner_token = token_for token now seq;
        created_at_ms = now;
        expire_at_ms = expiry ttl_ms now;
      } in
      (
        refl,
        record {
          rec = r;
          holds = rw (T.find-insert k k r s.idempotency_records) (rw (same_refl k));
          owned = refl;
          until = refl;
          claims = refl;
        },
      )

  -- Where no record stands, or one that has expired, `IdemBegin` claims the key for its caller.
  pub begin-IsClaimed :
      (k hash : Bytes) (ttl_ms now seq : ℕ) (token : Bytes) (s : StorageShard)
      → unexpired_record now (T.find k s.idempotency_records) ≡ none
      → (is_execute (idem_begin k hash ttl_ms token now seq s).0.action ≡ true)
        × IsClaimed k
            (token_for token now seq)
            (expiry ttl_ms now)
            (idem_begin k hash ttl_ms token now seq s).2
  unfolding idem_begin
  begin-IsClaimed k hash ttl_ms now seq token s free =
      let looked = look_up-free k now s free in
      rw (idem_begin, looked)
        (begin_new-IsClaimed k hash ttl_ms now seq token (look_up_idempotency k now s).1)

  -- Single flight: of a begin on a free key and any further calls before its deadline, exactly one
  -- is told to execute. The further calls may be begins by anybody but the owner, completions,
  -- reads, and failures that a stranger reports under its own token.
  pub executions-begin :
      (k hash : Bytes) (ttl_ms now seq : ℕ) (token : Bytes) (cs : List IdemCall) (s : StorageShard)
      → unexpired_record now (T.find k s.idempotency_records) ≡ none
      → all_foreign (token_for token now seq) (expiry ttl_ms now) cs ≡ true
      → executions k (begin_call hash ttl_ms token now ∷ cs) seq s ≡ 1
  unfolding executions idem_step
  executions-begin k hash ttl_ms now seq token cs s free f =
      let first = begin-IsClaimed k hash ttl_ms now seq token s free in
      let rest =
        executions-IsClaimed k (token_for token now seq) (expiry ttl_ms now) cs
          (idem_begin k hash ttl_ms token now seq s).1 (idem_begin k hash ttl_ms token now seq s).2
          first.1 f in
      rw first.0 (omega (arith, rest))
