-- ===== src/Examples/Channel.antt =====
-- Tests on the channel that frames HTTP requests (src/protocol/http/http_channel.cpp).
use gate_keeper.Base.{
  ℕ, zero, suc, ◌+◌, ◌≡◌, refl, Bool, true, ◌&&◌, none, some, [], ◌∷◌, ◌++◌, Bytes, text, same,
  is_empty, drop, ltb, arith,
}
use gate_keeper.Http.{crlf, get_header}
use gate_keeper.Http.Channel.{HttpHandler, process_read_buffer}
use gate_keeper.Http.Sending.{HttpChannel, taken, again, new_channel}
use gate_keeper.Http.Channel.Rounds.{idle, HasHead, process_read_buffer-stuck}
use gate_keeper.Http.Channel.Returns.{Advances, process_read_buffer-returns}
use gate_keeper.Http.Framing.{
  split_on, Head, read_head, read_lines, read_line, to_lower, trim_end, total_request_len,
  keep_alive,
}
use gate_keeper.Json.{literal, skip}
use gate_keeper.Maps.{lookup}
use gate_keeper.Storage.Decimal.{stoull}

-- counts the requests
abbrev counting : HttpHandler ℕ
counting req n =
    (record { status_code = 200; status_text = text "OK"; headers = []; body = [] }, n + 1)

-- a head of 53 bytes, whose length and the 4 bytes behind it make 2 ^ 64 with the announced length
abbrev endless_head : Bytes
endless_head = text "POST / HTTP/1.1" ++ (crlf ++ text "Content-Length: 18446744073709551559")

abbrev endless : Bytes
endless = endless_head ++ (crlf ++ crlf)

abbrev endless_request : Head
endless_request = record {
  request = record {
    method = text "POST";
    uri = text "/";
    path = text "/";
    query = [];
    version = text "HTTP/1.1";
    headers = (text "content-length", text "18446744073709551559") ∷ [];
    body = [];
  };
  header_end = 53;
  content_length = 18446744073709551559;
}

endless-HasHead : HasHead endless endless_request []
unfolding split_on literal read_head read_lines read_line to_lower trim_end skip lookup stoull same
    text is_empty
endless-HasHead = (endless_head, refl, refl)

process_read_buffer-stuck_example :
    process_read_buffer 1000000 (some counting) (idle endless []) 0 ≡ none
process_read_buffer-stuck_example =
    process_read_buffer-stuck counting 1000000 endless [] [] endless_request 0 endless-HasHead
      (unfold total_request_len in refl) (unfold keep_alive get_header lookup same text in refl)

-- whether the request at the front, if there is one, has a length that is not 0
unfoldable advances : Bytes → Bool
unfolding split_on read_head total_request_len
advances bytes = elim (split_on (crlf ++ crlf) bytes) [
  | none ↦ true
  | some (head, rest) ↦ elim (read_head head) [ none ↦ true | some h ↦ ltb 0 (total_request_len h) ]
]

Advances-advances : (bytes : Bytes) → advances bytes ≡ true → Advances bytes
unfolding advances
Advances-advances bytes e h rest (head, front, read) =
    let e' = rw (advances, front, read) at e in ground (arith, e')

unfoldable all_advance : Bytes → Bool
unfolding advances
all_advance [] = advances []
all_advance (c ∷ s) = advances (c ∷ s) && all_advance s

Advances-all_advance :
    (bytes : Bytes) → all_advance bytes ≡ true → (n : ℕ) → Advances (drop n bytes)
unfolding all_advance
Advances-all_advance [] e zero = Advances-advances [] e
Advances-all_advance [] e (suc n) = Advances-advances [] e
Advances-all_advance (c ∷ s) e zero = Advances-advances (c ∷ s) (ground (arith, e))
Advances-all_advance (c ∷ s) e (suc n) = Advances-all_advance s (ground (arith, e)) n

-- a request with a body and half of the next one, over a socket that takes one byte and is then full
abbrev arrived : HttpChannel
arrived = record (new_channel (taken 1 ∷ again ∷ [])) {
  read_buffer =
      text "PUT /a?b HTTP/1.1"
      ++ (crlf ++ (text "Content-Length: 2" ++ (crlf ++ (crlf ++ text "hiGET /"))));
}

arrived_advances : all_advance arrived.read_buffer ≡ true
unfolding all_advance split_on literal read_head read_lines read_line to_lower trim_end skip lookup
    stoull same text is_empty total_request_len
arrived_advances = refl

process_read_buffer-returns_example :
    (ch : HttpChannel) × (n : ℕ) × (process_read_buffer 60 (some counting) arrived 0 ≡ some (ch, n))
process_read_buffer-returns_example =
    process_read_buffer-returns (some counting) 60 arrived 0 (unfold text in omega arith)
      (Advances-all_advance arrived.read_buffer arrived_advances)
