-- ===== src/Examples/Wire.antt =====
-- Tests on the wire protocol (src/protocol/gkwp2/), on parked callers (parking_lot.cpp) and on patterns.
use gate_keeper.Base.{
  ℕ, pos, ◌+◌, ◌≤◌, ◌≡◌, refl, Bool, true, false, none, some, List, [], ◌∷◌, Bytes, text, arith,
  length, take, drop, flatten, same, is_empty, ◌==◌,
}
use gate_keeper.Domain.ParkingLot.{
  ParkingLot, total_waiters, park, has_waiter, cancel, broadcast_and_unpark, purge_timeout,
  purge_lists, split_timeouts, wake_all, without_waiter,
}
use gate_keeper.Domain.ParkingLot.Waiters.{lot_run-total_waiters}
use gate_keeper.Domain.ParkingLot.Calls.{
  LotCall, park_call, broadcast_call, cancel_call, purge_call, waiting, picked, silent, woken_with,
  lot_step, lot_run,
}
use gate_keeper.Maps.{lookup, assign, remove}
use gate_keeper.Protocol.Decoder.{new_decoder}
use gate_keeper.Protocol.Decoder.Pieces.{push_all, pending}
use gate_keeper.Protocol.Decoder.Wire.{IsFrame, wire, push_all-wire}
use gate_keeper.Protocol.Frame.{Frame, header_of, response, event, encode_frame}
use gate_keeper.Protocol.Codec.{Request, idem_begin, encode}
use gate_keeper.Protocol.Requests.{good, parse_request}
use gate_keeper.Protocol.Requests.Readback.{IsRequest, parse_request-encode}
use gate_keeper.Protocol.Streams.Purges.{IsUnique, still_open, find_stream-purge_idle_streams}
use gate_keeper.Protocol.Streams.{
  find_stream, purge_idle_streams, Stream, open_stream, StreamManager, can_open_stream,
  get_or_create_stream,
}
use gate_keeper.Protocol.Streams.Limits.{
  get_call, close_call, stream_run, stream_run-IsBounded, get_or_create_stream-IsBounded,
}
use gate_keeper.Storage.Pattern.{match_loop, enough_fuel, match_pattern, advance, only_stars}
use gate_keeper.Storage.Pattern.Globs.{Globs, match_pattern-Globs}
use gate_keeper.Storage.Pattern.Rounds.{match_loop-enough_fuel}
use gate_keeper.Tables.{is_some}

abbrev answer : Frame
answer = record { header = header_of response true 7 1 (79 ∷ 75 ∷ []); payload = 79 ∷ 75 ∷ [] }

abbrev notice : Frame
notice = record { header = header_of event false 8 3 []; payload = [] }

abbrev sent : List Frame
sent = answer ∷ notice ∷ []

answer-IsFrame : IsFrame answer
answer-IsFrame = record {
  magic = refl;
  version = refl;
  request_id = omega arith;
  stream_id = omega arith;
  sized = refl;
  fits = omega arith;
}

notice-IsFrame : IsFrame notice
notice-IsFrame = record {
  magic = refl;
  version = refl;
  request_id = omega arith;
  stream_id = omega arith;
  sized = refl;
  fits = omega arith;
}

-- a header cut in two, and the rest of both frames
abbrev pieces : List Bytes
pieces = take 10 (wire sent) ∷ drop 10 (wire sent) ∷ []

push_all-wire_example :
    ((push_all pieces new_decoder).0 ≡ true)
    × ((push_all pieces new_decoder).1 ≡ sent)
    × (pending (push_all pieces new_decoder).2 ≡ [])
unfolding wire encode_frame flatten
push_all-wire_example =
    push_all-wire sent pieces (answer-IsFrame, (notice-IsFrame, tt)) refl (omega arith)

abbrev lot_calls : List LotCall
lot_calls =
    park_call (text "k") 1 true 0
    ∷ park_call (text "k") 1 true 0
    ∷ park_call (text "k") 2 true 500
    ∷ park_call (text "k") 3 true 0
    ∷ cancel_call (text "k") 1
    ∷ purge_call 600
    ∷ broadcast_call (text "k") (pos 200) (text "done")
    ∷ []

abbrev parked : ParkingLot
parked = (text "j", record { waiter_id = 2; callback = true; timeout_at_ms = 0 } ∷ []) ∷ []

abbrev is_second : ℕ → Bool
is_second id = id == 2

lot_run-total_waiters_example :
    (waiting is_second (lot_run lot_calls parked).1
        + picked is_second (lot_run lot_calls parked).0.woken
        + picked is_second (lot_run lot_calls parked).0.cancelled
      ≡ waiting is_second parked + picked is_second (lot_run lot_calls parked).0.entered)
    × (length (lot_run lot_calls parked).0.woken ≡ (lot_run lot_calls parked).0.told)
    × (total_waiters (lot_run lot_calls parked).1
          + (lot_run lot_calls parked).0.told
          + length (lot_run lot_calls parked).0.cancelled
        ≡ total_waiters parked + length (lot_run lot_calls parked).0.entered)
    × (silent (lot_run lot_calls parked).1 ≡ 0)
lot_run-total_waiters_example =
    lot_run-total_waiters is_second lot_calls parked (unfold silent in refl)

lot_run_woken : (lot_run lot_calls parked).0.woken ≡ 2 ∷ 3 ∷ []
unfolding lot_run text park lookup same assign has_waiter is_empty cancel broadcast_and_unpark
    purge_timeout purge_lists split_timeouts wake_all woken_with without_waiter remove lot_step
lot_run_woken = refl

abbrev one_stream : StreamManager
one_stream = record { max_concurrent_streams = 1; idle_timeout_ms = 100; streams = [] }

stream_run-IsBounded_example :
    ((stream_run
        (get_call 1 0 ∷ get_call 3 5 ∷ close_call 1 ∷ [])
        one_stream).max_concurrent_streams
      ≡ 1)
    × (length (stream_run (get_call 1 0 ∷ get_call 3 5 ∷ close_call 1 ∷ []) one_stream).streams ≤ 1)
stream_run-IsBounded_example =
    stream_run-IsBounded (get_call 1 0 ∷ get_call 3 5 ∷ close_call 1 ∷ []) one_stream (omega arith)

get_or_create_stream-IsBounded_example :
    (is_some (get_or_create_stream 1 5 one_stream).0 ≡ can_open_stream 1 one_stream)
    × ((get_or_create_stream 1 5 one_stream).1.max_concurrent_streams ≡ 1)
    × (length (get_or_create_stream 1 5 one_stream).1.streams ≤ 1)
get_or_create_stream-IsBounded_example = get_or_create_stream-IsBounded 1 5 one_stream (omega arith)

match_loop-enough_fuel_example :
    (b : Bool) × (match_loop
        (enough_fuel (text "a*b") (text "axbxb"))
        (text "a*b")
        (text "axbxb")
        none
      ≡ some b)
match_loop-enough_fuel_example = match_loop-enough_fuel (text "a*b") (text "axbxb")

match_pattern-Globs_example : Globs (text "a*b") (text "axbxb")
unfolding match_pattern match_loop advance only_stars text same
match_pattern-Globs_example = match_pattern-Globs (text "a*b") (text "axbxb") refl

-- a `*` in the key uses up the `*` of the pattern
literal_star : match_pattern (text "*x") (text "*yx") ≡ false
unfolding match_pattern match_loop advance only_stars text same
literal_star = refl

abbrev claim : Request
claim = idem_begin (text "order") (text "hash") 500 (text "owner")

claim-IsRequest : IsRequest claim
unfolding text
claim-IsRequest = (omega arith, omega arith, omega arith, omega arith)

parse_request-encode_example : parse_request (encode claim) ≡ good claim
parse_request-encode_example = parse_request-encode claim claim-IsRequest

abbrev stream_at : ℕ → ℕ → Stream
stream_at id now = record {
  id = id;
  state = open_stream;
  last_activity_ms = now;
  fragment_buffer = [];
}

abbrev two_streams : StreamManager
two_streams = record {
  max_concurrent_streams = 8;
  idle_timeout_ms = 100;
  streams = (1, stream_at 1 20) ∷ (3, stream_at 3 90) ∷ [];
}

two_streams-IsUnique : IsUnique two_streams.streams
unfolding lookup
two_streams-IsUnique = (refl, (refl, tt))

find_stream-purge_idle_streams_example :
    (find_stream 3 (purge_idle_streams 150 two_streams).1
      ≡ still_open 100 150 (find_stream 3 two_streams))
    × (length (purge_idle_streams 150 two_streams).0
          + length (purge_idle_streams 150 two_streams).1.streams
        ≡ 2)
find_stream-purge_idle_streams_example =
    find_stream-purge_idle_streams 150 3 two_streams two_streams-IsUnique
