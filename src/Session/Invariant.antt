-- ===== src/Session/Invariant.antt =====
-- What holds of a session of src/wireline/session.py in every state that it can reach.
use wireline.Base.{◌^◌, ◌<◌, ◌≡◌, refl, ◌≢◌, none, arith}
use wireline.Base.Int.{pos}
use wireline.Base.Text.{Text}
use wireline.Errors.{
  ErrorCode, Result, err_seq, protocol_error, incomplete_read, timeout, other_error, raise, ok,
}
use wireline.Codec.{Frame, MsgType, hello, error}
use wireline.Messages.{Json, decode_hello, decode_error}
use wireline.Session.Cases.{advanced, handled, ignored, replayed, dispatched}
use wireline.Session.{
  dispatch, ServerSession, State, Reaction, new, handshake, ready, closing, welcome, on_error,
  dispatch_in, dispatch_new, dispatch_ready, catch, on_frame, error_reaction, new_session,
}

-- The server is never in HANDSHAKE or CLOSING, knows its client exactly from the handshake on, and
-- numbers its frames in 32 bits.
pub record IsValid (s : ServerSession) : Type 0 where
  pub no_handshake : s.state ≢ handshake
  pub no_closing : s.state ≢ closing
  pub introduced : s.state ≡ ready → s.client_id ≢ none
  pub anonymous : s.state ≡ new → s.client_id ≡ none
  pub bounded : s.out_seq < 2 ^ 32

pub new_session-IsValid : (session_id : Text) → IsValid (new_session session_id)
new_session-IsValid session_id = record {
  no_handshake = λ e. cc;
  no_closing = λ e. cc;
  introduced = λ e. cc;
  anonymous = λ e. refl;
  bounded = omega arith;
}

module _ (json : Json) where
  pub error_reaction-IsValid :
      (code : ErrorCode) (message : Text) (s : ServerSession)
      → IsValid (error_reaction json code message s).1
  unfolding error_reaction
  error_reaction-IsValid code message s = ground arith

  welcome-IsValid :
      (r : Result (Text × Text)) (fresh : Text) (s : ServerSession)
      → IsValid s
      → IsValid (welcome json r fresh s).1
  unfolding welcome
  welcome-IsValid (raise e) fresh s v = v
  welcome-IsValid (ok (c, n)) fresh s v = ground arith

  on_error-IsValid :
      (r : Result (ErrorCode × Text)) (s : ServerSession)
      → IsValid s
      → IsValid (on_error json r s).1
  unfolding on_error
  on_error-IsValid (raise e) s v = v
  on_error-IsValid (ok (c, m)) s v = ground arith

  dispatch_ready-IsValid :
      (t : MsgType) (frame : Frame) (s : ServerSession)
      → IsValid s
      → IsValid (dispatch_ready json t frame s).1
  unfolding dispatch_ready
  dispatch_ready-IsValid error frame s v = on_error-IsValid (decode_error json frame.payload) s v
  dispatch_ready-IsValid _ frame s v = ground arith

  dispatch_new-IsValid :
      (t : MsgType) (frame : Frame) (fresh : Text) (s : ServerSession)
      → IsValid s
      → IsValid (dispatch_new json t frame fresh s).1
  unfolding dispatch_new
  dispatch_new-IsValid hello frame fresh s v =
      welcome-IsValid (decode_hello json frame.payload) fresh s v
  dispatch_new-IsValid _ frame fresh s v = v

  dispatch_in-IsValid :
      (st : State) (frame : Frame) (fresh : Text) (s : ServerSession)
      → IsValid s
      → IsValid (dispatch_in json st frame fresh s).1
  unfolding dispatch_in
  dispatch_in-IsValid new frame fresh s v = dispatch_new-IsValid frame.msg_type frame fresh s v
  dispatch_in-IsValid _ frame fresh s v = dispatch_ready-IsValid frame.msg_type frame s v

  catch-IsValid : (o : Result Reaction × ServerSession) → IsValid o.1 → IsValid (catch json o).1
  unfolding catch
  catch-IsValid (ok r, s) v = v
  catch-IsValid (raise (protocol_error e), s) v = error_reaction-IsValid e.code e.message s
  catch-IsValid (raise incomplete_read, s) v = v
  catch-IsValid (raise timeout, s) v = v
  catch-IsValid (raise other_error, s) v = v

  advanced-IsValid :
      (frame : Frame) (s : ServerSession)
      → IsValid s
      → IsValid (record s { last_peer_seq = pos frame.seq })
  advanced-IsValid frame s v = record {
    no_handshake = v.no_handshake;
    no_closing = v.no_closing;
    introduced = v.introduced;
    anonymous = v.anonymous;
    bounded = v.bounded;
  }

  pub on_frame-IsValid :
      (frame : Frame) (fresh : Text) (s : ServerSession)
      → IsValid s
      → IsValid (on_frame json frame fresh s).1
  unfolding dispatch
  on_frame-IsValid frame fresh s v = elim (handled json frame fresh s) [
    | ignored e q ↦ rw q v
    | replayed e l q ↦ rw q (error_reaction-IsValid err_seq _ s)
    | dispatched e l q ↦ rw q (
        catch-IsValid _ (
          dispatch_in-IsValid s.state frame fresh (advanced json frame fresh s)
            (advanced-IsValid frame s v)))
  ]
