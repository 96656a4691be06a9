-- ===== src/Storage/Idempotency/Machine.antt =====
-- The states of an idempotency record in src/storage/memory_store.cpp: claimed, completed, failed, and
-- what `IdemBegin`, `IdemComplete` and `IdemFail` make of each before its deadline.
use gate_keeper.Base.{
  ℕ, ℤ, pos, ◌≡◌, true, false, Option, none, some, [], Bytes, same, same_iff, same_refl, text,
  arith, if◌then◌else◌,
}
use gate_keeper.Tables.{TableOps}
use gate_keeper.Storage.Entry.{
  IdempotencyRecord, IdempotencyStatus, in_progress, completed, failed, execute, park, replay, past,
}
use gate_keeper.Storage.Keys.{expiry}
use gate_keeper.Storage.Idempotency.{
  begin_error, begin_reply, token_for, next_seq, complete_reply, fail_reply, is_stranger, is_owner,
  put_idempotency, look_up_idempotency, begin_existing, idem_begin, idem_complete, idem_fail,
  is_completed,
}
use gate_keeper.Storage.Shard.{StorageShard}

-- the record that still counts at a time
abbrev pub unexpired_record : ℕ → Option IdempotencyRecord → Option IdempotencyRecord
unexpired_record now none = none
unexpired_record now (some r) = if past r.expire_at_ms now then none else some r

module _ ⦃T : TableOps⦄ where
  -- The shard holds the record for the key.
  abbrev pub Holds : Bytes → IdempotencyRecord → StorageShard → Type 0
  Holds k r s = T.find k s.idempotency_records ≡ some r

  pub Holds-put_idempotency :
      (k : Bytes) (r r' : IdempotencyRecord) (s : StorageShard)
      → Holds k r s
      → Holds k r' (put_idempotency k r' s)
  Holds-put_idempotency k r r' s found =
      rw (T.find-write k k r' s.idempotency_records, found) (rw (same_refl k))

  pub look_up-Holds :
      (k : Bytes) (now : ℕ) (r : IdempotencyRecord) (s : StorageShard)
      → Holds k r s
      → past r.expire_at_ms now ≡ false
      → look_up_idempotency k now s ≡ (some r, s)
  unfolding look_up_idempotency
  look_up-Holds k now r s found before = rw (found, look_up_idempotency, before)

  pub look_up-free :
      (k : Bytes) (now : ℕ) (s : StorageShard)
      → unexpired_record now (T.find k s.idempotency_records) ≡ none
      → (look_up_idempotency k now s).0 ≡ none
  unfolding look_up_idempotency
  look_up-free k now s free = ground (arith, free)

  -- `IdemBegin` where an unexpired record stands: another request hash is a conflict and changes
  -- nothing, and the same one is answered by the status.
  pub idem_begin-Holds :
      (k hash : Bytes) (ttl_ms now seq : ℕ) (token : Bytes) (r : IdempotencyRecord)
      (s : StorageShard)
      → Holds k r s
      → past r.expire_at_ms now ≡ false
      → idem_begin k hash ttl_ms token now seq s ≡ (
          if same r.request_hash hash then begin_existing k ttl_ms token now seq r r.status s else (
            begin_error
                (text "ERR_IDEMPOTENCY_CONFLICT")
                (text "Request hash mismatch for idempotency key"),
            seq,
            s,
          ))
  unfolding idem_begin
  idem_begin-Holds k hash ttl_ms now seq token r s found before =
      let looked = look_up-Holds k now r s found before in rw (idem_begin, looked, looked)

  -- The reply to a request whose key has a record with the same hash.
  module _ (k hash : Bytes) (ttl_ms now seq : ℕ) (token : Bytes) (r : IdempotencyRecord)
      (s : StorageShard) (found : Holds k r s) (before : past r.expire_at_ms now ≡ false)
      (same_hash : r.request_hash ≡ hash) where
    begin_same :
        (status : IdempotencyStatus)
        → r.status ≡ status
        → idem_begin k hash ttl_ms token now seq s
          ≡ begin_existing k ttl_ms token now seq r status s
    begin_same status e =
        let h : same r.request_hash hash ≡ true = (same_iff r.request_hash hash).1 same_hash in
        rw (idem_begin-Holds k hash ttl_ms now seq token r s found before, h, e)

    -- A completed request is replayed with the recorded code and body, and nothing changes.
    pub idem_begin-completed :
        r.status ≡ completed
        → idem_begin k hash ttl_ms token now seq s
          ≡ (begin_reply replay r.owner_token r.response_code r.response_body, seq, s)
    unfolding begin_existing
    idem_begin-completed e = begin_same completed e

    -- A request in progress is parked for everyone but its owner, and nothing changes.
    pub idem_begin-in_progress :
        r.status ≡ in_progress
        → idem_begin k hash ttl_ms token now seq s ≡ (
          begin_reply (if is_owner token r then execute else park) r.owner_token (pos 0) [],
          seq,
          s,
        )
    unfolding begin_existing
    idem_begin-in_progress e = begin_same in_progress e

    -- A failed request is handed to the next caller, whose token owns it from then on.
    pub idem_begin-failed :
        r.status ≡ failed
        → idem_begin k hash ttl_ms token now seq s ≡ (
          begin_reply execute (token_for token now seq) (pos 0) [],
          next_seq token seq,
          put_idempotency k
              (record r {
                status = in_progress;
                owner_token = token_for token now seq;
                created_at_ms = now;
                expire_at_ms = expiry ttl_ms now;
                response_code = pos 0;
                response_body = [];
              })
              s,
        )
    unfolding begin_existing
    idem_begin-failed e = begin_same failed e

  -- `IdemComplete` where an unexpired record stands and the caller is no stranger: the response is
  -- recorded, unless one was before.
  pub idem_complete-Holds :
      (k token : Bytes) (code : ℤ) (body : Bytes) (now : ℕ) (r : IdempotencyRecord)
      (s : StorageShard)
      → Holds k r s
      → past r.expire_at_ms now ≡ false
      → idem_complete k token code body now s ≡ (
          if is_stranger token r
          then (complete_reply false (text "ERR_TOKEN_MISMATCH") (text "Owner token mismatch"), s)
          else if is_completed r.status
          then (complete_reply true [] [], s)
          else (
            complete_reply true [] [],
            put_idempotency k
                (record r { status = completed; response_code = code; response_body = body })
                s,
          ))
  unfolding idem_complete
  idem_complete-Holds k token code body now r s found before = rw (found, idem_complete, before)

  pub idem_fail-Holds :
      (k token message : Bytes) (now : ℕ) (r : IdempotencyRecord) (s : StorageShard)
      → Holds k r s
      → past r.expire_at_ms now ≡ false
      → idem_fail k token message now s ≡ (
          if is_stranger token r
          then (fail_reply false (text "ERR_TOKEN_MISMATCH") (text "Owner token mismatch"), s)
          else (
            fail_reply true [] [],
            put_idempotency k (record r { status = failed; response_body = message }) s,
          ))
  unfolding idem_fail
  idem_fail-Holds k token message now r s found before = rw (found, idem_fail, before)
