-- ===== src/Server/Undecodable.antt =====
-- How `WirelineServer._handle` (src/wireline/server.py) goes on after some reads, and how it ends on
-- bytes that do not decode.
use wireline.Base.{
  ◌+◌, ◌%◌, ◌^◌, ◌≡◌, refl, Bool, true, false, Bool-cases, inl, inr, none, some, List, [], ◌∷◌,
  ◌++◌, ap, ◌∙◌, sym, append_assoc, if◌then◌else◌,
}
use wireline.Base.Bytes.{Bytes}
use wireline.Base.Text.{Text}
use wireline.Errors.{
  ProtocolError, Result, ok, raise, protocol_error, timeout, incomplete_read, other_error,
}
use wireline.Codec.{Crypto, Frame, error, encode}
use wireline.Messages.{Json, encode_error}
use wireline.Session.{
  ServerSession, Reaction, closed, is_over, on_frame, on_protocol_error, on_idle_timeout,
  error_reaction, make_frame, next_seq,
}
use wireline.Server.{Connection, stopped, apply, write_then, proceed, react, give_up, turn, handle}

-- A loop that waits, with a condition that holds then of the session
abbrev IsLive : Connection → Type 0
IsLive c = is_over c.session.state ≡ false

module _ (crypto : Crypto) (json : Json) (secret : Bytes) (later : List (Result Frame × Text)) where
  -- What the later reads make of a connection that waits.
  abbrev continued : Connection → Connection
  continued c =
      let next = handle crypto json secret later c.session in
      record next { written = c.written ++ next.written }

  -- A connection that waits is live, and `c'` is what it becomes with the later reads.
  abbrev Continues : Connection → Connection → Type 0
  Continues c c' = c.ended ≡ none → IsLive c × (c' ≡ continued c)

  proceed-Continues :
      (o : List Bytes × Result (Unit {0})) (s : ServerSession) (next next' : Connection)
      → Continues next next'
      → Continues (proceed o s next) (proceed o s next')
  unfolding proceed
  proceed-Continues (ws, raise e) s next next' h waits = cc
  proceed-Continues (ws, ok _) s next next' h waits =
      let (live, e) = h waits in
      (
        live,
        rw e (
            ap (λ l. record (handle crypto json secret later next.session) { written = l })
              (sym (
                append_assoc ws next.written
                  (handle crypto json secret later next.session).written))),
      )

  stopped-Continues :
      (s : ServerSession) (r : Result (Unit {0})) (c' : Connection) → Continues (stopped s r) c'
  stopped-Continues s r c' waits = cc

  give_up-Continues :
      (o : Reaction × ServerSession)
      → Continues (give_up crypto json secret o) (give_up crypto json secret o)
  unfolding give_up
  give_up-Continues (r, s) =
      proceed-Continues (apply crypto json secret r.frames) s _ _ (stopped-Continues s (ok tt) _)

  react-Continues :
      (o : Result Reaction × ServerSession) (rest rest' : ServerSession → Connection)
      → ((s : ServerSession) → Continues (rest s) (rest' s))
      → Continues (react crypto json secret o rest) (react crypto json secret o rest')
  unfolding react
  react-Continues (raise e, s) rest rest' h = stopped-Continues s (raise e) _
  react-Continues (ok r, s) rest rest' h =
      proceed-Continues (apply crypto json secret r.frames) s _ _ (chosen r.close)
    where
      chosen :
          (b : Bool)
          → Continues
              (if b then stopped s (ok tt) else rest s)
              (if b then stopped s (ok tt) else rest' s)
      chosen true = stopped-Continues s (ok tt) _
      chosen false = h s

  turn-Continues :
      (outcome : Result Frame) (fresh : Text) (s : ServerSession)
      (rest rest' : ServerSession → Connection)
      → ((s' : ServerSession) → Continues (rest s') (rest' s'))
      → Continues
          (turn crypto json secret outcome fresh s rest)
          (turn crypto json secret outcome fresh s rest')
  unfolding turn
  turn-Continues (ok frame) fresh s rest rest' h =
      react-Continues (on_frame json frame fresh s) rest rest' h
  turn-Continues (raise (protocol_error exc)) fresh s rest rest' h =
      give_up-Continues (on_protocol_error json exc s)
  turn-Continues (raise timeout) fresh s rest rest' h = give_up-Continues (on_idle_timeout s)
  turn-Continues (raise incomplete_read) fresh s rest rest' h = stopped-Continues s _ _
  turn-Continues (raise other_error) fresh s rest rest' h = stopped-Continues s _ _

  handle-Continues :
      (os : List (Result Frame × Text)) (s : ServerSession)
      → Continues (handle crypto json secret os s) (handle crypto json secret (os ++ later) s)
  unfolding handle
  handle-Continues [] s = elim (Bool-cases (is_over s.state)) [
    | inl over ↦ rw over (stopped-Continues s (ok tt) _)
    | inr live ↦ rw live (λ _. (live, refl))
  ]
  handle-Continues ((outcome, fresh) ∷ os) s = elim (Bool-cases (is_over s.state)) [
    | inl over ↦ rw over (stopped-Continues s (ok tt) _)
    | inr live ↦ rw live (turn-Continues outcome fresh s _ _ (handle-Continues os))
  ]

module _ (crypto : Crypto) (json : Json) (secret : Bytes) where
  -- The ERROR frame of a session for an exception
  abbrev pub error_frame : ProtocolError → ServerSession → Frame
  error_frame exc s = record {
    msg_type = error;
    seq = s.out_seq;
    payload = encode_error json exc.code exc.message;
    flags = 0;
  }

  pub broken_off :
      (exc : ProtocolError) (fresh : Text) (later : List (Result Frame × Text)) (s : ServerSession)
      (raw : Bytes)
      → is_over s.state ≡ false
      → encode crypto (error_frame exc s) secret ≡ ok raw
      → handle crypto json secret ((raise (protocol_error exc), fresh) ∷ later) s ≡ record {
        session = record s { state = closed; out_seq = (s.out_seq + 1) % 2 ^ 32 };
        written = raw ∷ [];
        ended = some (ok tt);
      }
  unfolding handle turn give_up proceed apply write_then on_protocol_error error_reaction make_frame
      next_seq
  broken_off exc fresh later s raw live e = rw (live, e) refl

  -- If a connection waits for its next frame after some reads, and the next bytes do not decode, then
  -- the server writes what it has written for the reads before and, last of all, one ERROR frame with
  -- the code and the text of the exception, numbered next; the session is closed and the loop ends,
  -- whatever would have been read later. The ERROR frame can be encoded.
  pub undecodable_last :
      (os later : List (Result Frame × Text)) (s : ServerSession) (exc : ProtocolError)
      (fresh : Text) (raw : Bytes)
      → (handle crypto json secret os s).ended ≡ none
      → encode crypto (error_frame exc (handle crypto json secret os s).session) secret ≡ ok raw
      → handle crypto json secret (os ++ (raise (protocol_error exc), fresh) ∷ later) s ≡ record {
        session = record (handle crypto json secret os s).session {
          state = closed;
          out_seq = ((handle crypto json secret os s).session.out_seq + 1) % 2 ^ 32;
        };
        written = (handle crypto json secret os s).written ++ raw ∷ [];
        ended = some (ok tt);
      }
  undecodable_last os later s exc fresh raw waits e =
      let c = handle crypto json secret os s in
      let (live, q) =
        handle-Continues crypto json secret ((raise (protocol_error exc), fresh) ∷ later) os s
          waits in
      q
      ∙ ap (λ (next : Connection). record next { written = c.written ++ next.written })
          (broken_off exc fresh later c.session raw live e)
