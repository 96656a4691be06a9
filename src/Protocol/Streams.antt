-- ===== src/Protocol/Streams.antt =====
-- src/protocol/gkwp2/stream_manager.cpp: the open streams of a connection.
pub mod Limits
pub mod Purges
use gate_keeper.Base.{
  ℕ, ◌+◌, ◌-◌, Bool, true, false, ◌&&◌, ◌||◌, Option, none, some, List, [], ◌∷◌, Bytes, ltb, leb,
  ◌==◌, if◌then◌else◌, length,
}
use gate_keeper.Maps.{lookup, assign, remove}
use gate_keeper.Tables.{is_some}

pub data StreamState : Type 0 where
  idle open_stream half_closed_remote half_closed_local closed : StreamState

pub record Stream : Type 0 where
  pub id : ℕ
  pub state : StreamState
  pub last_activity_ms : ℕ
  pub fragment_buffer : Bytes

pub record StreamManager : Type 0 where
  pub max_concurrent_streams : ℕ
  pub idle_timeout_ms : ℕ
  pub streams : List (ℕ × Stream)

unfoldable pub find_stream : ℕ → StreamManager → Option Stream
unfolding lookup
find_stream stream_id m = lookup (λ a b. a == b) stream_id m.streams

unfoldable pub can_open_stream : ℕ → StreamManager → Bool
can_open_stream stream_id m =
    is_some (find_stream stream_id m) || ltb (length m.streams) m.max_concurrent_streams

abbrev pub put_stream : ℕ → Stream → StreamManager → StreamManager
put_stream stream_id s m = record m { streams = assign (λ a b. a == b) stream_id s m.streams }

-- the stream that the pointer is to, or `nullptr`
unfoldable pub get_or_create_stream : ℕ → ℕ → StreamManager → Option Stream × StreamManager
unfolding assign
get_or_create_stream stream_id now_ms m = elim (find_stream stream_id m) [
  | some s ↦
      let s' : Stream = record s { last_activity_ms = now_ms } in
      (some s', put_stream stream_id s' m)
  | none ↦
      if leb m.max_concurrent_streams (length m.streams)
      then (none, m)
      else (let s : Stream = record {
        id = stream_id;
        state = open_stream;
        last_activity_ms = now_ms;
        fragment_buffer = [];
      } in
          (some s, put_stream stream_id s m))
]

unfoldable pub close_stream : ℕ → StreamManager → StreamManager
unfolding remove
close_stream stream_id m = record m { streams = remove (λ a b. a == b) stream_id m.streams }

abbrev pub is_idle : ℕ → ℕ → Stream → Bool
is_idle idle_timeout_ms now_ms s =
    ltb s.last_activity_ms now_ms && leb idle_timeout_ms (now_ms - s.last_activity_ms)

-- the ids that the first loop of `PurgeIdleStreams` collects
unfoldable pub idle_ids : ℕ → ℕ → List (ℕ × Stream) → List ℕ
idle_ids idle_timeout_ms now_ms [] = []
idle_ids idle_timeout_ms now_ms ((id, s) ∷ m) =
    let rest = idle_ids idle_timeout_ms now_ms m in
    if is_idle idle_timeout_ms now_ms s then id ∷ rest else rest

unfoldable pub close_all : List ℕ → StreamManager → StreamManager
unfolding close_stream
close_all [] m = m
close_all (id ∷ ids) m = close_all ids (close_stream id m)

-- the ids that `on_timeout` is called with, whose number is the reply, and the manager
unfoldable pub purge_idle_streams : ℕ → StreamManager → List ℕ × StreamManager
unfolding idle_ids close_all
purge_idle_streams now_ms m =
    let to_remove = idle_ids m.idle_timeout_ms now_ms m.streams in
    (to_remove, close_all to_remove m)
