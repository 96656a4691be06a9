-- ===== src/Protocol/Streams/Limits.antt =====
-- The limit of src/protocol/gkwp2/stream_manager.cpp on the number of open streams.
use gate_keeper.Base.{
  ℕ, ◌+◌, ◌≤◌, ◌≡◌, refl, ◌∙◌, Bool, Bool-cases, Option-cases, inl, inr, List, [], ◌∷◌, leb, ◌==◌,
  if◌then◌else◌, length, arith,
}
use gate_keeper.Maps.{lookup, assign, remove}
use gate_keeper.Tables.{is_some}
use gate_keeper.Protocol.Streams.{
  Stream, StreamManager, open_stream, find_stream, can_open_stream, get_or_create_stream,
  close_stream, close_all, idle_ids, purge_idle_streams,
}

module _ {K V : Type 0} (same_key : K → K → Bool) where
  length-assign :
      (k : K) (v : V) (m : List (K × V))
      → length (assign same_key k v m)
        ≡ (if is_some (lookup same_key k m) then length m else length m + 1)
  unfolding assign lookup
  length-assign k v [] = omega arith
  length-assign k v ((q, w) ∷ m) = elim (Bool-cases (same_key q k)) [
    | inl y ↦ rw y refl
    | inr n ↦ rw n (ground (arith, length-assign k v m))
  ]

  length-remove : (k : K) (m : List (K × V)) → length (remove same_key k m) ≤ length m
  unfolding remove
  length-remove k [] = omega arith
  length-remove k ((q, w) ∷ m) = ground (arith, length-remove k m)

-- `GetOrCreateStream` gives a stream exactly where `CanOpenStream` says so, and stays within the limit.
pub get_or_create_stream-IsBounded :
    (id now : ℕ) (m : StreamManager)
    → length m.streams ≤ m.max_concurrent_streams
    → (is_some (get_or_create_stream id now m).0 ≡ can_open_stream id m)
      × ((get_or_create_stream id now m).1.max_concurrent_streams ≡ m.max_concurrent_streams)
      × (length (get_or_create_stream id now m).1.streams ≤ m.max_concurrent_streams)
unfolding get_or_create_stream can_open_stream find_stream
get_or_create_stream-IsBounded id now m bounded =
    elim (Option-cases (lookup (λ a b. a == b) id m.streams)) [
      | inr (s, e) ↦
          let size =
            length-assign (λ a b. a == b) id (record s { last_activity_ms = now }) m.streams in
          rw (get_or_create_stream, e) (refl, refl, ground (arith, size, e))
      | inl e ↦
          let new : Stream = record {
            id = id;
            state = open_stream;
            last_activity_ms = now;
            fragment_buffer = [];
          } in
          elim (Bool-cases (leb m.max_concurrent_streams (length m.streams))) [
            | inl y ↦ rw (get_or_create_stream, e, y) (ground (arith, y), refl, omega arith)
            | inr n ↦
                rw (get_or_create_stream, e, n)
                  (
                    ground (arith, n),
                    refl,
                    ground (arith, length-assign (λ a b. a == b) id new m.streams, e, n),
                  )
          ]
    ]

close-IsBounded :
    (id : ℕ) (m : StreamManager)
    → ((close_stream id m).max_concurrent_streams ≡ m.max_concurrent_streams)
      × (length (close_stream id m).streams ≤ length m.streams)
unfolding close_stream
close-IsBounded id m = (refl, length-remove (λ a b. a == b) id m.streams)

close_all-IsBounded :
    (ids : List ℕ) (m : StreamManager)
    → ((close_all ids m).max_concurrent_streams ≡ m.max_concurrent_streams)
      × (length (close_all ids m).streams ≤ length m.streams)
unfolding close_all
close_all-IsBounded [] m = (refl, omega arith)
close_all-IsBounded (id ∷ ids) m =
    let rest = close_all-IsBounded ids (close_stream id m) in
    let step = close-IsBounded id m in (rest.0 ∙ step.0, omega (arith, rest.1, step.1))

purge-IsBounded :
    (now : ℕ) (m : StreamManager)
    → ((purge_idle_streams now m).1.max_concurrent_streams ≡ m.max_concurrent_streams)
      × (length (purge_idle_streams now m).1.streams ≤ length m.streams)
unfolding purge_idle_streams
purge-IsBounded now m = close_all-IsBounded (idle_ids m.idle_timeout_ms now m.streams) m

-- A call on the manager.
pub data StreamCall : Type 0 where
  get_call : (stream_id : ℕ) (now_ms : ℕ) → StreamCall
  close_call : (stream_id : ℕ) → StreamCall
  purge_call : (now_ms : ℕ) → StreamCall

unfoldable pub stream_run : List StreamCall → StreamManager → StreamManager
stream_run [] m = m
stream_run (get_call id now ∷ cs) m = stream_run cs (get_or_create_stream id now m).1
stream_run (close_call id ∷ cs) m = stream_run cs (close_stream id m)
stream_run (purge_call now ∷ cs) m = stream_run cs (purge_idle_streams now m).1

-- No run of calls opens more streams than the limit allows, or moves the limit, where the streams
-- at the start are within it.
pub stream_run-IsBounded :
    (cs : List StreamCall) (m : StreamManager)
    → length m.streams ≤ m.max_concurrent_streams
    → ((stream_run cs m).max_concurrent_streams ≡ m.max_concurrent_streams)
      × (length (stream_run cs m).streams ≤ m.max_concurrent_streams)
unfolding stream_run
stream_run-IsBounded [] m bounded = (refl, bounded)
stream_run-IsBounded (get_call id now ∷ cs) m bounded =
    let step = get_or_create_stream-IsBounded id now m bounded in
    let rest =
      stream_run-IsBounded cs (get_or_create_stream id now m).1 (omega (arith, step.1, step.2)) in
    (rest.0 ∙ step.1, omega (arith, rest.1, step.1))
stream_run-IsBounded (close_call id ∷ cs) m bounded =
    let step = close-IsBounded id m in
    let rest = stream_run-IsBounded cs (close_stream id m) (omega (arith, step.0, step.1)) in
    (rest.0 ∙ step.0, omega (arith, rest.1, step.0))
stream_run-IsBounded (purge_call now ∷ cs) m bounded =
    let step = purge-IsBounded now m in
    let rest =
      stream_run-IsBounded cs (purge_idle_streams now m).1 (omega (arith, step.0, step.1)) in
    (rest.0 ∙ step.0, omega (arith, rest.1, step.0))
