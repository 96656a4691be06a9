-- ===== src/Examples/Requests.antt =====
-- Tests on idempotent requests (src/storage/memory_store.cpp).
use gate_keeper.Base.{
  pos, ◌≡◌, refl, true, none, List, [], ◌∷◌, Bytes, same_refl, text, is_empty, same,
}
use gate_keeper.Examples.{tables, hashing, user}
use gate_keeper.Storage.Entry.{
  IdempotencyRecord, IdempotencyStatus, in_progress, completed, execute, replay,
}
use gate_keeper.Storage.Idempotency.{
  begin_reply, token_for, is_stranger, idem_begin, idem_complete, idem_fail,
}
use gate_keeper.Storage.Idempotency.Flights.{
  IdemCall, begin_call, complete_call, fail_call, get_call, executions, executions-begin,
}
use gate_keeper.Storage.Idempotency.Machine.{Holds, unexpired_record}
use gate_keeper.Storage.Idempotency.Replays.{
  run_calls, idem_begin-idem_complete, idem_begin-idem_fail,
}
use gate_keeper.Storage.Shard.{StorageShard, new_shard}

abbrev owner : Bytes
owner = text "worker-1"

abbrev digest : Bytes
digest = text "sha256:0a"

abbrev request_of : IdempotencyStatus → IdempotencyRecord
request_of status = record {
  key = user;
  request_hash = digest;
  status = status;
  response_code = pos 200;
  response_body = text "done";
  owner_token = owner;
  created_at_ms = 1000;
  expire_at_ms = 61000;
}

abbrev shard_with : IdempotencyRecord → StorageShard
shard_with r = record new_shard { idempotency_records = tables.insert user r tables.empty }

Holds-shard_with : (r : IdempotencyRecord) → Holds user r (shard_with r)
Holds-shard_with r = rw (tables.find-insert user user r tables.empty) (rw (same_refl user))

-- what a second worker and a slow client may do
abbrev calls : List IdemCall
calls =
    begin_call digest 60000 (text "worker-2") 1100
    ∷ get_call 1200
    ∷ complete_call owner (pos 200) (text "done") 1300
    ∷ begin_call digest 60000 [] 1400
    ∷ fail_call (text "worker-2") (text "late") 1500
    ∷ []

nothing_there : unexpired_record 1000 (tables.find user new_shard.idempotency_records) ≡ none
nothing_there = rw (tables.find-empty {V = IdempotencyRecord} user) refl

executions-begin_example :
    executions user (begin_call digest 60000 owner 1000 ∷ calls) 1 new_shard ≡ 1
unfolding is_empty text same token_for
executions-begin_example =
    executions-begin user digest 60000 1000 1 owner calls new_shard nothing_there refl

idem_begin-idem_complete_example :
    (idem_begin user digest 60000 (text "worker-3") 3000 2 (
      run_calls user calls 1
        (idem_complete user owner
          (pos 201)
          (text "made")
          1050
          (shard_with (request_of in_progress))).1)).0
    ≡ begin_reply replay owner (pos 201) (text "made")
unfolding is_empty text same
idem_begin-idem_complete_example =
    idem_begin-idem_complete user owner (pos 201) (text "made") 1050 1 calls 60000 3000 2
      (text "worker-3") (request_of in_progress) (shard_with (request_of in_progress))
      (Holds-shard_with (request_of in_progress)) refl refl refl refl refl

idem_begin-idem_fail_example :
    ((idem_fail user owner (text "late") 1100 (shard_with (request_of completed))).0.failed ≡ true)
    × ((idem_begin user digest 60000
          (text "worker-2")
          1200
          1
          (idem_fail user owner (text "late") 1100 (shard_with (request_of completed))).1).0.action
        ≡ execute)
unfolding is_stranger is_empty text same
idem_begin-idem_fail_example =
    idem_begin-idem_fail user digest owner (text "late") 1100 60000 1200 1 (text "worker-2")
      (request_of completed) (shard_with (request_of completed))
      (Holds-shard_with (request_of completed)) refl refl refl refl refl
