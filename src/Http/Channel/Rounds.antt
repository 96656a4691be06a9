-- ===== src/Http/Channel/Rounds.antt =====
-- The loop of `HttpChannel::ProcessReadBuffer` (src/protocol/http/http_channel.cpp).
use gate_keeper.Base.{
  ℕ, zero, suc, ◌≡◌, refl, ◌∙◌, true, false, Option, none, some, [], ◌++◌, Bytes, is_empty, ltb,
  leb, length, take, arith,
}
use gate_keeper.Http.{serialize, crlf, get_header}
use gate_keeper.Http.Channel.{goes_on, HttpHandler, complete, round, process_read_buffer, with_head}
use gate_keeper.Http.Sending.{HttpChannel, send}
use gate_keeper.Http.Framing.{split_on, Head, read_head, total_request_len, keep_alive}

-- an open channel that keeps its connection, with nothing to write, over a socket that takes everything
abbrev pub idle : Bytes → Bytes → HttpChannel
idle read_buffer sent = record {
  read_buffer = read_buffer;
  write_buffer = [];
  closed = false;
  close_after_write = false;
  wants_write = false;
  sent = sent;
  outcomes = [];
}

-- the head at the front of some bytes, with what stands behind it
abbrev pub HasHead : Bytes → Head → Bytes → Type 0
HasHead bytes h rest =
    (head : Bytes) × (split_on (crlf ++ crlf) bytes ≡ some (head, rest)) × (read_head head ≡ some h)

round-with_head :
    {S : Type 0} (handler : Option (HttpHandler S)) (ch : HttpChannel) (rest : Bytes) (h : Head)
    (s : S)
    → HasHead ch.read_buffer h rest
    → round handler ch s ≡ with_head handler (some h) rest ch s
unfolding round
round-with_head handler ch rest h s (head, front, read) = rw (round, front, read) refl

module _ {S : Type 0} (handler : HttpHandler S) where
  send-idle :
      (bytes read_buffer sent : Bytes)
      → send bytes (idle read_buffer sent) ≡ idle read_buffer (sent ++ bytes)
  unfolding send is_empty
  send-idle bytes read_buffer sent =
      let whole : leb (length bytes) (length bytes) ≡ true = ground arith in rw whole refl

  -- what is sent for a request
  abbrev reply : Head → Bytes → S → Bytes
  reply h rest s =
      serialize
        (complete true (handler (record h.request { body = take h.content_length rest }) s).0)

  keep_alive-body :
      (h : Head) (body : Bytes)
      → keep_alive (record h.request { body = body }) ≡ keep_alive h.request
  unfolding keep_alive get_header
  keep_alive-body h body = refl

  answer-stays :
      (bytes sent rest : Bytes) (h : Head) (s : S)
      → total_request_len h ≡ 0
      → keep_alive h.request ≡ true
      → with_head (some handler) (some h) rest (idle bytes sent) s
        ≡ goes_on
            (idle bytes (sent ++ reply h rest s))
            (handler (record h.request { body = take h.content_length rest }) s).1
  answer-stays bytes sent rest h s nothing alive =
      let alive' = keep_alive-body h (take h.content_length rest) ∙ alive in
      let not_short : ltb (length bytes) 0 ≡ false = ground arith in
      rw (nothing, not_short, alive', send-idle (reply h rest s) bytes sent) refl

  -- A request over a socket that takes everything, whose announced length makes the sum with the length
  -- of its head wrap to 0, and that keeps its connection: `ProcessReadBuffer` answers it again and again
  -- and never returns, whatever the handler does.
  pub process_read_buffer-stuck :
      (fuel : ℕ) (bytes sent rest : Bytes) (h : Head) (s : S)
      → HasHead bytes h rest
      → total_request_len h ≡ 0
      → keep_alive h.request ≡ true
      → process_read_buffer fuel (some handler) (idle bytes sent) s ≡ none
  unfolding process_read_buffer
  process_read_buffer-stuck zero bytes sent rest h s front nothing alive = refl
  process_read_buffer-stuck (suc fuel) bytes sent rest h s front nothing alive =
      rw
        (round-with_head (some handler) (idle bytes sent) rest h s front
          ∙ answer-stays bytes sent rest h s nothing alive)
        (process_read_buffer-stuck fuel bytes (sent ++ reply h rest s) rest h _ front nothing alive)
