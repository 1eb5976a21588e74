-- ===== src/Server/Histories.antt =====
-- What a connection of `WirelineServer` (src/wireline/server.py) is to be after some reads, in the
-- histories of its session.
use wireline.Base.{Option, none, some, length, ℕ, suc, true, false, ◌≡◌, List, [], ◌∷◌, take}
use wireline.Base.Bytes.{Bytes}
use wireline.Base.Text.{Text}
use wireline.Errors.{Exn, Result, ok, raise, protocol_error, timeout}
use wireline.Codec.{Crypto, Frame}
use wireline.Messages.{Json}
use wireline.Session.{ServerSession, on_frame, is_over}
use wireline.Session.Runs.{Event, received, undecodable, idle, run, step}
use wireline.Server.{Connection, apply}

-- How each read of a connection ends, with the nonce that an answer may need
abbrev pub Reads : Type 0
Reads = List (Result Frame × Text)

-- The calls that the ends of the reads ask for, until an exception that ends the connection at once.
unfoldable pub events : Reads → List Event
events [] = []
events ((ok frame, fresh) ∷ os) = received frame fresh ∷ events os
events ((raise (protocol_error exc), fresh) ∷ os) = undecodable exc ∷ events os
events ((raise timeout, fresh) ∷ os) = idle ∷ events os
events ((raise x, fresh) ∷ os) = []

module _ (crypto : Crypto) (json : Json) (secret : Bytes) where
  -- Each of some calls is made while the session is not over.
  abbrev pub Open : List Event → ServerSession → Type 0
  Open [] s = Unit {0}
  Open (e ∷ es) s = (is_over s.state ≡ false) × Open es (step json e s).1

  -- After `n` calls the loop has raised `x`: the read behind them ended so, and the loop does not
  -- catch it; or the last of the calls raised it, or the encoding of one of its frames.
  pub data Raises : ℕ → Reads → ServerSession → Exn → Type 0 where
    by_read :
        {x : Exn} {fresh : Text} {os : Reads} {s : ServerSession}
        → events ((raise x, fresh) ∷ os) ≡ []
        → Raises 0 ((raise x, fresh) ∷ os) s x
    by_call :
        {f : Frame} {fresh : Text} {os : Reads} {s : ServerSession} {x : Exn}
        → (on_frame json f fresh s).0 ≡ raise x
        → Raises 1 ((ok f, fresh) ∷ os) s x
    by_write :
        {o : Result Frame × Text} {os : Reads} {s : ServerSession} {x : Exn} (e : Event)
        → events (o ∷ os) ≡ e ∷ events os
        → (apply crypto json secret (step json e s).0).1 ≡ raise x
        → Raises 1 (o ∷ os) s x
    later :
        {n : ℕ} {o : Result Frame × Text} {os : Reads} {s : ServerSession} {x : Exn} (e : Event)
        → events (o ∷ os) ≡ e ∷ events os
        → Raises n os (step json e s).1 x
        → Raises (suc n) (o ∷ os) s x

  -- All frames of the first `n` calls could be encoded.
  abbrev pub Sent : ℕ → Reads → ServerSession → Type 0
  Sent n os s = (apply crypto json secret (run json (take n (events os)) s).0).1 ≡ ok tt

  -- How the loop stands after `n` calls: it waits for a read behind all of them, or the session is
  -- over, in both cases with all frames sent; or it has raised.
  abbrev pub Ends : ℕ → Reads → ServerSession → ServerSession → Option (Result (Unit {0})) → Type 0
  Ends n os s s' none =
      (n ≡ length os) × (length (events os) ≡ length os) × (is_over s'.state ≡ false) × Sent n os s
  Ends n os s s' (some (ok _)) = (is_over s'.state ≡ true) × Sent n os s
  Ends n os s s' (some (raise x)) = Raises n os s x

  -- A connection that began in session `s` is what the first calls of the history leave behind: each
  -- of them made while the session was not over, their session, the bytes of their frames up to one
  -- that cannot be encoded, and the end that is due.
  pub record Follows (os : Reads) (s : ServerSession) (c : Connection) : Type 0 where
    pub calls : ℕ
    pub in_time : Open (take calls (events os)) s
    pub session_left : c.session ≡ (run json (take calls (events os)) s).1
    pub written_by :
        c.written ≡ (apply crypto json secret (run json (take calls (events os)) s).0).0
    pub ends : Ends calls os s c.session c.ended
