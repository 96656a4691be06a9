-- ===== src/Http/Sending.antt =====
-- The state of `HttpChannel` and its writes in src/protocol/http/http_channel.cpp. The outcomes of `send`
-- are a list; where they end, the socket takes everything.
use gate_keeper.Base.{
  ℕ, Bool, true, false, ◌&&◌, not, List, [], ◌∷◌, ◌++◌, Bytes, is_empty, leb, ◌==◌, if◌then◌else◌,
  length, take, drop,
}

-- what `send` returns: a number of bytes, or an error that is `EAGAIN`, `EINTR` or another
pub data SendOutcome : Type 0 where
  taken : (n : ℕ) → SendOutcome
  again interrupted broken : SendOutcome

-- the members of the class, with what the socket has taken and what `send` will return
pub record HttpChannel : Type 0 where
  pub read_buffer : Bytes
  pub write_buffer : Bytes
  pub closed : Bool
  pub close_after_write : Bool
  pub wants_write : Bool
  pub sent : Bytes
  pub outcomes : List SendOutcome

abbrev pub new_channel : List SendOutcome → HttpChannel
new_channel outcomes = record {
  read_buffer = [];
  write_buffer = [];
  closed = false;
  close_after_write = false;
  wants_write = false;
  sent = [];
  outcomes = outcomes;
}

abbrev pub close : HttpChannel → HttpChannel
close ch = record ch { closed = true }

-- the end of `Send`: the rest waits until the socket is writable
abbrev pub buffer : Bytes → HttpChannel → HttpChannel
buffer s ch = record ch { write_buffer = ch.write_buffer ++ s; wants_write = true }

-- the bytes that `send` took
abbrev pub took : ℕ → Bytes → HttpChannel → HttpChannel
took n bytes ch =
    if leb (length bytes) n
    then (let ch' = record ch { sent = ch.sent ++ bytes } in
        if ch.close_after_write then close ch' else ch')
    else if n == 0
    then buffer bytes ch
    else buffer (drop n bytes) (record ch { sent = ch.sent ++ take n bytes })

abbrev pub send_now : List SendOutcome → Bytes → HttpChannel → HttpChannel
send_now [] bytes ch = took (length bytes) bytes ch
send_now (taken n ∷ rest) bytes ch = took n bytes (record ch { outcomes = rest })
send_now (again ∷ rest) bytes ch = buffer bytes (record ch { outcomes = rest })
send_now (interrupted ∷ rest) bytes ch = buffer bytes (record ch { outcomes = rest })
send_now (broken ∷ rest) bytes ch = close (record ch { outcomes = rest })

unfoldable pub send : Bytes → HttpChannel → HttpChannel
send bytes ch =
    if ch.closed
    then ch
    else if is_empty ch.write_buffer
    then send_now ch.outcomes bytes ch
    else buffer bytes ch

-- the loop of `HandleWrite`, with the outcomes that are left
unfoldable pub write_loop : List SendOutcome → Bytes → HttpChannel → HttpChannel
write_loop os [] ch = record ch { write_buffer = []; outcomes = os }
write_loop [] (c ∷ s) ch = record ch { write_buffer = []; outcomes = []; sent = ch.sent ++ (c ∷ s) }
write_loop (taken n ∷ os) (c ∷ s) ch =
    write_loop os (drop n (c ∷ s)) (record ch { sent = ch.sent ++ take n (c ∷ s) })
write_loop (again ∷ os) (c ∷ s) ch = record ch { write_buffer = c ∷ s; outcomes = os }
write_loop (interrupted ∷ os) (c ∷ s) ch = write_loop os (c ∷ s) ch
write_loop (broken ∷ os) (c ∷ s) ch = close (record ch { write_buffer = c ∷ s; outcomes = os })

unfoldable pub handle_write : HttpChannel → HttpChannel
unfolding write_loop
handle_write ch =
    let ch' = if ch.closed then ch else write_loop ch.outcomes ch.write_buffer ch in
    if not ch'.closed && is_empty ch'.write_buffer
    then (if ch'.close_after_write then close ch' else record ch' { wants_write = false })
    else ch'

abbrev pub write_if : Bool → HttpChannel → HttpChannel
write_if writable ch = if not ch.closed && writable then handle_write ch else ch

abbrev pub close_if : Bool → HttpChannel → HttpChannel
close_if hung_up ch = if not ch.closed && hung_up then close ch else ch
