-- ===== src/Http/Channel/Returns.antt =====
-- When `HttpChannel::ProcessReadBuffer` (src/protocol/http/http_channel.cpp) returns.
use gate_keeper.Base.{
  ℕ, zero, suc, ◌+◌, ◌<◌, ◌≤◌, ◌≡◌, refl, sym, ap, ◌∙◌, subst, Bool, Bool-cases, Option-cases, inl,
  inr, true, false, ◌&&◌, Option, some, List, [], ◌∷◌, ◌++◌, Bytes, is_empty, ltb, leb, ◌==◌,
  if◌then◌else◌, length, take, drop, drop-drop, length-drop, arith,
}
use gate_keeper.Http.{crlf}
use gate_keeper.Http.Channel.{
  Round, returned, goes_on, HttpHandler, round, process_read_buffer, answer, after_send,
}
use gate_keeper.Http.Sending.{
  HttpChannel, SendOutcome, taken, again, interrupted, broken, send, send_now, took, buffer,
}
use gate_keeper.Http.Channel.Rounds.{HasHead}
use gate_keeper.Http.Framing.{split_on, Head, read_head, total_request_len, keep_alive}

took-read_buffer :
    (n : ℕ) (bytes : Bytes) (ch : HttpChannel) → (took n bytes ch).read_buffer ≡ ch.read_buffer
took-read_buffer n bytes ch = elim (Bool-cases (leb (length bytes) n)) [
  | inl y ↦ rw y (elim (Bool-cases ch.close_after_write) [ inl c ↦ rw c refl | inr c ↦ rw c refl ])
  | inr m ↦ rw m (elim (Bool-cases (n == 0)) [ inl c ↦ rw c refl | inr c ↦ rw c refl ])
]

send_now-read_buffer :
    (os : List SendOutcome) (bytes : Bytes) (ch : HttpChannel)
    → (send_now os bytes ch).read_buffer ≡ ch.read_buffer
send_now-read_buffer [] bytes ch = took-read_buffer (length bytes) bytes ch
send_now-read_buffer (taken n ∷ os) bytes ch =
    took-read_buffer n bytes (record ch { outcomes = os })
send_now-read_buffer (again ∷ os) bytes ch = refl
send_now-read_buffer (interrupted ∷ os) bytes ch = refl
send_now-read_buffer (broken ∷ os) bytes ch = refl

either-read_buffer :
    (b : Bool) (x y : HttpChannel) (v : Bytes)
    → x.read_buffer ≡ v
    → y.read_buffer ≡ v
    → (if b then x else y).read_buffer ≡ v
either-read_buffer true x y v e e' = e
either-read_buffer false x y v e e' = e'

send-read_buffer : (bytes : Bytes) (ch : HttpChannel) → (send bytes ch).read_buffer ≡ ch.read_buffer
unfolding send
send-read_buffer bytes ch = either-read_buffer ch.closed ch _ ch.read_buffer refl (
    either-read_buffer (is_empty ch.write_buffer) (send_now ch.outcomes bytes ch) (buffer bytes ch)
      ch.read_buffer (send_now-read_buffer ch.outcomes bytes ch) refl)

module _ {S : Type 0} (handler : Option (HttpHandler S)) where
  after_send-goes_on :
      (ch ch' : HttpChannel) (s s' : S) → after_send ch s ≡ goes_on ch' s' → ch ≡ ch'
  after_send-goes_on ch ch' s s' e =
      elim (Bool-cases (ch.close_after_write && is_empty ch.write_buffer)) [
        | inl y ↦ let e' = rw y at e in absurd (cc)
        | inr n ↦ let e' = rw n at e in cc
      ]

  answer-goes_on :
      (h : Head) (rest : Bytes) (ch ch' : HttpChannel) (s s' : S)
      → answer handler h rest ch s ≡ goes_on ch' s'
      → ch'.read_buffer ≡ drop (total_request_len h) ch.read_buffer
  answer-goes_on h rest ch ch' s s' e =
      ap (λ c. c.read_buffer) (sym (after_send-goes_on _ ch' _ s' e))
      ∙ send-read_buffer _ _
      ∙ elim (Bool-cases (keep_alive (record h.request { body = take h.content_length rest }))) [
        | inl y ↦ rw y refl
        | inr n ↦ rw n refl
      ]

  -- a round that goes on has taken a request from the front of the buffer
  round-goes_on :
      (ch ch' : HttpChannel) (s s' : S)
      → round handler ch s ≡ goes_on ch' s'
      → (h : Head) × (rest : Bytes) × HasHead ch.read_buffer h rest
        × (total_request_len h ≤ length ch.read_buffer)
        × (ch'.read_buffer ≡ drop (total_request_len h) ch.read_buffer)
  unfolding round
  round-goes_on ch ch' s s' e = elim (Option-cases (split_on (crlf ++ crlf) ch.read_buffer)) [
    | inl missing ↦ let e' = rw (round, missing) at e in absurd (cc)
    | inr ((head, rest), front) ↦ elim (Option-cases (read_head head)) [
      | inl missing ↦ let e' = rw (round, front, missing) at e in absurd (cc)
      | inr (h, read) ↦ elim (Bool-cases (ltb (length ch.read_buffer) (total_request_len h))) [
        | inl y ↦ let e' = rw (round, front, read, y) at e in absurd (cc)
        | inr n ↦
            let e' = rw (round, front, read, n) at e in
            (h, rest, (head, front, read), ground (arith, n), answer-goes_on h rest ch ch' s s' e')
      ]
    ]
  ]

  Round-cases :
      (r : Round S)
      → (P : Type 0) → ((ch : HttpChannel) (s : S) → r ≡ returned ch s → P)
      → ((ch : HttpChannel) (s : S) → r ≡ goes_on ch s → P)
      → P
  Round-cases (returned ch s) P stop more = stop ch s refl
  Round-cases (goes_on ch s) P stop more = more ch s refl

-- No request at the front of the bytes has a head and an announced length that wrap to 0 together.
abbrev pub Advances : Bytes → Type 0
Advances bytes = (h : Head) (rest : Bytes) → HasHead bytes h rest → 0 < total_request_len h

module _ {S : Type 0} (handler : Option (HttpHandler S)) where
  process_read_buffer-goes_on :
      (fuel : ℕ) (ch ch' : HttpChannel) (s s' : S)
      → ch.closed ≡ false
      → round handler ch s ≡ goes_on ch' s'
      → process_read_buffer (suc fuel) handler ch s ≡ process_read_buffer fuel handler ch' s'
  unfolding process_read_buffer
  process_read_buffer-goes_on fuel ch ch' s s' n e = rw (n, e) refl

  -- `ProcessReadBuffer` returns after as many rounds as there are bytes in the buffer and one, whatever
  -- the handler and the socket do, where at no place of the buffer a request stands whose length wraps
  -- to 0.
  pub process_read_buffer-returns :
      (fuel : ℕ) (ch : HttpChannel) (s : S)
      → length ch.read_buffer < fuel
      → ((n : ℕ) → Advances (drop n ch.read_buffer))
      → (ch' : HttpChannel) × (s' : S) × (process_read_buffer fuel handler ch s ≡ some (ch', s'))
  unfolding process_read_buffer
  process_read_buffer-returns zero ch s enough advances = absurd (omega arith)
  process_read_buffer-returns (suc fuel) ch s enough advances =
      let next = process_read_buffer-returns fuel in
      elim (Bool-cases ch.closed) [
        | inl y ↦ (ch, s, rw y refl)
        | inr n ↦
            Round-cases handler (round handler ch s) _ (λ ch' s' e. (ch', s', rw (n, e) refl))
              (λ ch' s' e.
                let (h, rest, front, fits, cut) = round-goes_on handler ch ch' s s' e in
                let forward = advances 0 h rest front in
                let size : length ch'.read_buffer < fuel =
                  subst (λ b. length b < fuel) (sym cut)
                    (omega (arith, length-drop (total_request_len h) ch.read_buffer, fits)) in
                let (ch'', s'', run) = next ch' s' size (λ k.
                  subst (λ b. Advances (drop k b)) (sym cut)
                    (subst Advances (sym (drop-drop k (total_request_len h) ch.read_buffer))
                      (advances (total_request_len h + k)))) in
                (ch'', s'', process_read_buffer-goes_on fuel ch ch' s s' n e ∙ run))
      ]
