-- ===== src/Session/Runs.antt =====
-- Histories of a session (src/wireline/session.py): what its transports may call, in any order.
use wireline.Base.{ℕ, ◌≡◌, refl, List, [], ◌∷◌, ◌++◌, arith}
use wireline.Base.Text.{Text}
use wireline.Errors.{ProtocolError, Result, raise, ok}
use wireline.Codec.{Frame}
use wireline.Messages.{Json}
use wireline.Session.{
  ServerSession, Reaction, new_session, on_frame, on_protocol_error, on_idle_timeout, ack_frame,
}
use wireline.Session.Invariant.{
  IsValid, on_frame-IsValid, error_reaction-IsValid, new_session-IsValid,
}

-- A call of `on_frame` (with the nonce made for its answer), `on_protocol_error`,
-- `on_idle_timeout` or `ack`.
pub data Event : Type 0 where
  received : Frame → Text → Event
  undecodable : ProtocolError → Event
  idle : Event
  acknowledged : ℕ → Event

unfoldable pub emitted : Result Reaction × ServerSession → List Frame × ServerSession
emitted (ok r, s) = (r.frames, s)
emitted (raise x, s) = ([], s)

module _ (json : Json) where
  -- The frames that a call hands to the transport, and the session after it.
  unfoldable pub step : Event → ServerSession → List Frame × ServerSession
  unfolding emitted on_protocol_error on_idle_timeout ack_frame
  step (received frame fresh) s = emitted (on_frame json frame fresh s)
  step (undecodable exc) s = let (r, s') = on_protocol_error json exc s in (r.frames, s')
  step idle s = let (r, s') = on_idle_timeout s in (r.frames, s')
  step (acknowledged n) s = let (f, s') = ack_frame json n s in (f ∷ [], s')

  unfoldable pub run : List Event → ServerSession → List Frame × ServerSession
  run [] s = ([], s)
  run (e ∷ es) s = let (fs, s') = step e s in let (gs, s'') = run es s' in (fs ++ gs, s'')

  pub emitted-snd : (o : Result Reaction × ServerSession) → (emitted o).1 ≡ o.1
  unfolding emitted
  emitted-snd (ok r, s) = refl
  emitted-snd (raise x, s) = refl

  step-IsValid : (e : Event) (s : ServerSession) → IsValid s → IsValid (step e s).1
  unfolding step
  step-IsValid (received frame fresh) s v =
      rw (emitted-snd (on_frame json frame fresh s)) (on_frame-IsValid json frame fresh s v)
  step-IsValid (undecodable exc) s v = error_reaction-IsValid json exc.code exc.message s
  step-IsValid idle s v = ground arith
  step-IsValid (acknowledged n) s v = ground arith

  pub run_induction :
      (P : ServerSession → Type 0)
      → ((e : Event) (s : ServerSession) → P s → P (step e s).1)
      → (es : List Event) (s : ServerSession) → P s
      → P (run es s).1
  unfolding run
  run_induction P keep [] s h = h
  run_induction P keep (e ∷ es) s h = run_induction P keep es (step e s).1 (keep e s h)

  -- Whatever calls a new session gets, in whatever order, it is in NEW, READY or CLOSED, knows its
  -- client exactly from the handshake on, and numbers its frames in 32 bits.
  pub run-IsValid :
      (es : List Event) (session_id : Text) → IsValid (run es (new_session session_id)).1
  run-IsValid es session_id =
      run_induction IsValid step-IsValid es (new_session session_id)
        (new_session-IsValid session_id)
