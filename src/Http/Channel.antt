-- ===== src/Http/Channel.antt =====
-- `HttpChannel` of src/protocol/http/http_channel.cpp. The outcomes of `send` and of `recv` are lists; where
-- the former end, the socket takes everything. The handler works on a state of its own.
pub mod Rounds
pub mod Returns
use gate_keeper.Base.{
  ℕ, zero, suc, ◌+◌, Bool, true, false, ◌&&◌, not, Option, none, some, List, [], ◌∷◌, ◌++◌, Bytes,
  text, is_empty, ltb, leb, ◌==◌, if◌then◌else◌, length, take, drop,
}
use gate_keeper.Http.{HttpRequest, HttpResponse, set_header, has_header, serialize, crlf}
use gate_keeper.Http.Framing.{split_on, Head, read_head, total_request_len, keep_alive}
use gate_keeper.Storage.Decimal.{to_string}
use gate_keeper.Http.Sending.{
  SendOutcome, HttpChannel, new_channel, close, buffer, took, send_now, send, write_loop,
  handle_write, write_if, close_if, taken, again, interrupted, broken,
}

-- the headers that the channel adds to a response
unfoldable pub complete : Bool → HttpResponse → HttpResponse
unfolding set_header has_header to_string text
complete alive res =
    let res1 = set_header (text "Server") (text "GateKeeper/1.0") res in
    let res2 =
      set_header (text "Connection") (if alive then text "keep-alive" else text "close") res1 in
    let res3 =
      if has_header (text "Content-Type") res2
      then res2
      else set_header (text "Content-Type") (text "application/json") res2 in
    set_header (text "Content-Length") (to_string (length res3.body)) res3

abbrev pub no_handler : HttpResponse
no_handler = record {
  status_code = 500;
  status_text = text "Internal Server Error";
  headers = [];
  body = text "{\"error\":\"NO_HANDLER\"}";
}

unfoldable pub too_large : HttpResponse
unfolding set_header to_string text
too_large =
    let body = text "{\"error\":\"HEADER_TOO_LARGE\"}" in
    set_header (text "Content-Length") (to_string (length body)) (
      set_header (text "Content-Type") (text "application/json") (
        set_header (text "Connection") (text "close") (record {
          status_code = 431;
          status_text = text "Request Header Fields Too Large";
          headers = [];
          body = body;
        })))

-- no empty line yet
abbrev pub without_head : HttpChannel → HttpChannel
without_head ch =
    if ltb 16384 (length ch.read_buffer)
    then send (serialize too_large) (record ch { close_after_write = true })
    else ch

-- what a round of `ProcessReadBuffer` comes to: it returns, or goes on
pub data Round (S : Type 0) : Type 0 where
  returned goes_on : HttpChannel → S → Round S

abbrev pub HttpHandler : Type 0 → Type 0
HttpHandler S = HttpRequest → S → HttpResponse × S

-- what `recv` returns: some bytes, the end of the stream, or an error that is `EAGAIN`, `EINTR` or
-- another
pub data RecvOutcome : Type 0 where
  received : (bytes : Bytes) → RecvOutcome
  at_end drained retried failed : RecvOutcome

module _ {S : Type 0} where
  abbrev pub respond : Option (HttpHandler S) → HttpRequest → S → HttpResponse × S
  respond none req s = (no_handler, s)
  respond (some handler) req s = handler req s

  abbrev pub after_send : HttpChannel → S → Round S
  after_send ch s =
      if ch.close_after_write && is_empty ch.write_buffer
      then returned (close ch) s
      else goes_on ch s

  -- a request that has arrived, with the bytes behind its head
  abbrev pub answer : Option (HttpHandler S) → Head → Bytes → HttpChannel → S → Round S
  answer handler h rest ch s =
      let req = record h.request { body = take h.content_length rest } in
      let ch' = record ch { read_buffer = drop (total_request_len h) ch.read_buffer } in
      let alive = keep_alive req in
      let (res, s') = respond handler req s in
      after_send
        (send (serialize (complete alive res))
          (if alive then ch' else record ch' { close_after_write = true }))
        s'

  abbrev pub with_head : Option (HttpHandler S) → Option Head → Bytes → HttpChannel → S → Round S
  with_head handler none rest ch s = returned (close ch) s
  with_head handler (some h) rest ch s =
      if ltb (length ch.read_buffer) (total_request_len h)
      then returned ch s
      else answer handler h rest ch s

  unfoldable pub round : Option (HttpHandler S) → HttpChannel → S → Round S
  unfolding split_on read_head total_request_len keep_alive send complete serialize too_large
  round handler ch s = elim (split_on (crlf ++ crlf) ch.read_buffer) [
    | none ↦ returned (without_head ch) s
    | some (head, rest) ↦ with_head handler (read_head head) rest ch s
  ]

  -- `ProcessReadBuffer`, or `none` where the fuel is not enough
  unfoldable pub process_read_buffer :
      ℕ → Option (HttpHandler S) → HttpChannel → S → Option (HttpChannel × S)
  unfolding round
  process_read_buffer zero handler ch s = none
  process_read_buffer (suc fuel) handler ch s =
      let next : Option (HttpChannel × S) = elim (round handler ch s) [
        | returned ch' s' ↦ some (ch', s')
        | goes_on ch' s' ↦ process_read_buffer fuel handler ch' s'
      ] in
      if ch.closed then some (ch, s) else next

  -- the loop of `HandleRead`, where each call of `ProcessReadBuffer` has the same fuel
  unfoldable pub read_loop :
      ℕ → List RecvOutcome → Option (HttpHandler S) → HttpChannel → S → Option (HttpChannel × S)
  unfolding process_read_buffer
  read_loop fuel [] handler ch s = some (ch, s)
  read_loop fuel (received bytes ∷ os) handler ch s =
      let next : Option (HttpChannel × S) =
        elim (process_read_buffer fuel handler (record ch { read_buffer = ch.read_buffer ++ bytes })
          s) [ none ↦ none | some (ch', s') ↦ read_loop fuel os handler ch' s' ] in
      if ch.closed then some (ch, s) else next
  read_loop fuel (retried ∷ os) handler ch s =
      let next = read_loop fuel os handler ch s in if ch.closed then some (ch, s) else next
  read_loop fuel (drained ∷ os) handler ch s = some (ch, s)
  read_loop fuel (_ ∷ os) handler ch s = some (close ch, s)

  -- `HandleEvents`: what is readable, whether the socket is writable, and whether the peer is gone
  unfoldable pub handle_events :
      ℕ
      → Option (List RecvOutcome)
      → Bool
      → Bool
      → Option (HttpHandler S)
      → HttpChannel
      → S
      → Option (HttpChannel × S)
  unfolding read_loop handle_write
  handle_events fuel readable writable hung_up handler ch s =
      let read : Option (HttpChannel × S) = elim readable [
        | none ↦ some (ch, s)
        | some os ↦ read_loop fuel os handler ch s
      ] in
      let handled : Option (HttpChannel × S) = elim read [
        | none ↦ none
        | some (ch', s') ↦ some (close_if hung_up (write_if writable ch'), s')
      ] in
      if ch.closed then some (ch, s) else handled
