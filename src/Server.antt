-- ===== src/Server.antt =====
-- src/wireline/server.py: the loop of `WirelineServer._handle` over one accepted connection.
pub mod Histories
pub mod Traces
pub mod Ends
pub mod Undecodable
mod Tests
use wireline.Base.{Option, none, some, List, [], ◌∷◌, ◌++◌, if◌then◌else◌}
use wireline.Base.Text.{Text}
use wireline.Base.Bytes.{Bytes}
use wireline.Errors.{protocol_error, timeout, raise, Result, ok}
use wireline.Codec.{Crypto, Frame, encode}
use wireline.Messages.{Json}
use wireline.Session.{
  ServerSession, Reaction, new_session, is_over, on_frame, on_protocol_error, on_idle_timeout,
}

-- The session, what was given to `writer.write` call by call, and how the `try` block ended: `none`
-- while the loop waits for the next frame. `_handle` lets no exception out: it closes the writer.
pub record Connection : Type 0 where
  pub session : ServerSession
  pub written : List Bytes
  pub ended : Option (Result (Unit {0}))

abbrev pub stopped : ServerSession → Result (Unit {0}) → Connection
stopped s r = record { session = s; written = []; ended = some r }

abbrev pub waiting : ServerSession → Connection
waiting s = record { session = s; written = []; ended = none }

unfoldable pub write_then :
    Result Bytes → List Bytes × Result (Unit {0}) → List Bytes × Result (Unit {0})
write_then (raise e) later = ([], raise e)
write_then (ok raw) (ws, r) = (raw ∷ ws, r)

-- What follows `_apply`: an exception of `encode` leaves the loop.
unfoldable pub proceed : List Bytes × Result (Unit {0}) → ServerSession → Connection → Connection
proceed (ws, raise e) s next = record { session = s; written = ws; ended = some (raise e) }
proceed (ws, ok _) s next = record next { written = ws ++ next.written }

module _ (crypto : Crypto) (json : Json) (secret : Bytes) where
  -- `_apply`: `_send` hides a connection that is gone, so each frame is tried.
  unfoldable pub apply : List Frame → List Bytes × Result (Unit {0})
  unfolding write_then
  apply [] = ([], ok tt)
  apply (f ∷ fs) = write_then (encode crypto f secret) (apply fs)

  -- `reaction = session.on_frame(frame)` and what follows it
  unfoldable pub react : Result Reaction × ServerSession → (ServerSession → Connection) → Connection
  unfolding proceed apply
  react (raise e, s) rest = stopped s (raise e)
  react (ok r, s) rest = proceed (apply r.frames) s (if r.close then stopped s (ok tt) else rest s)

  -- `await self._apply(writer, session, ...)` and `break`
  unfoldable pub give_up : Reaction × ServerSession → Connection
  unfolding proceed apply
  give_up (r, s) = proceed (apply r.frames) s (stopped s (ok tt))

  -- One turn of the loop, by how `wait_for(read_frame(...))` ended.
  unfoldable pub turn :
      Result Frame → Text → ServerSession → (ServerSession → Connection) → Connection
  unfolding react give_up
  turn (ok frame) fresh s rest = react (on_frame json frame fresh s) rest
  turn (raise (protocol_error exc)) fresh s rest = give_up (on_protocol_error json exc s)
  turn (raise timeout) fresh s rest = give_up (on_idle_timeout s)
  turn (raise x) fresh s rest = stopped s (raise x)

  -- The loop over how each read ends, in order, with the nonce that an answer may need.
  unfoldable pub handle : List (Result Frame × Text) → ServerSession → Connection
  unfolding turn
  handle [] s = if is_over s.state then stopped s (ok tt) else waiting s
  handle ((outcome, fresh) ∷ os) s =
      if is_over s.state then stopped s (ok tt) else turn outcome fresh s (λ s'. handle os s')
