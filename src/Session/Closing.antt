-- ===== src/Session/Closing.antt =====
-- When a reaction of `on_frame` (src/wireline/session.py) asks to close the connection.
use wireline.Base.{◌≡◌, refl, sym, false}
use wireline.Base.Text.{Text}
use wireline.Errors.{ErrorCode, Result, protocol_error, raise, ok}
use wireline.Codec.{Frame, MsgType, hello, hello_ack, data_msg, ack, ping, pong, error, bye}
use wireline.Messages.{Json, decode_hello, decode_error}
use wireline.Session.{
  ServerSession, State, Reaction, is_over, new, welcome, on_error, dispatch, dispatch_in,
  dispatch_new, dispatch_ready, catch, on_frame, error_reaction,
}
use wireline.Session.Cases.{advanced, handled, ignored, replayed, dispatched}

-- A reaction, if there is one, asks to close the connection exactly when the session is over.
abbrev pub Agrees : Result Reaction × ServerSession → Type 0
Agrees (ok r, s) = r.close ≡ is_over s.state
Agrees (raise x, s) = Unit {0}

module _ (json : Json) where
  welcome-Agrees :
      (r : Result (Text × Text)) (fresh : Text) (s : ServerSession)
      → Agrees (welcome json r fresh s)
  unfolding welcome is_over
  welcome-Agrees (raise x) fresh s = tt
  welcome-Agrees (ok (c, n)) fresh s = refl

  on_error-Agrees : (r : Result (ErrorCode × Text)) (s : ServerSession) → Agrees (on_error json r s)
  unfolding on_error is_over
  on_error-Agrees (raise x) s = tt
  on_error-Agrees (ok (c, m)) s = refl

  dispatch_ready-Agrees :
      (t : MsgType) (frame : Frame) (s : ServerSession)
      → is_over s.state ≡ false
      → Agrees (dispatch_ready json t frame s)
  unfolding dispatch_ready is_over
  dispatch_ready-Agrees hello frame s o = tt
  dispatch_ready-Agrees hello_ack frame s o = tt
  dispatch_ready-Agrees ping frame s o = sym o
  dispatch_ready-Agrees pong frame s o = sym o
  dispatch_ready-Agrees data_msg frame s o = sym o
  dispatch_ready-Agrees ack frame s o = sym o
  dispatch_ready-Agrees bye frame s o = refl
  dispatch_ready-Agrees error frame s o = on_error-Agrees (decode_error json frame.payload) s

  dispatch_new-Agrees :
      (t : MsgType) (frame : Frame) (fresh : Text) (s : ServerSession)
      → Agrees (dispatch_new json t frame fresh s)
  unfolding dispatch_new
  dispatch_new-Agrees hello frame fresh s = welcome-Agrees (decode_hello json frame.payload) fresh s
  dispatch_new-Agrees _ frame fresh s = tt

  dispatch_in-Agrees :
      (st : State) (frame : Frame) (fresh : Text) (s : ServerSession)
      → is_over s.state ≡ false
      → Agrees (dispatch_in json st frame fresh s)
  unfolding dispatch_in
  dispatch_in-Agrees new frame fresh s o = dispatch_new-Agrees frame.msg_type frame fresh s
  dispatch_in-Agrees _ frame fresh s o = dispatch_ready-Agrees frame.msg_type frame s o

  catch-Agrees : (o : Result Reaction × ServerSession) → Agrees o → Agrees (catch json o)
  unfolding catch error_reaction is_over
  catch-Agrees (ok r, s) h = h
  catch-Agrees (raise (protocol_error e), s) h = refl
  catch-Agrees (raise _, s) h = tt

  pub on_frame-Agrees :
      (frame : Frame) (fresh : Text) (s : ServerSession) → Agrees (on_frame json frame fresh s)
  unfolding dispatch
  on_frame-Agrees frame fresh s = elim (handled json frame fresh s) [
    | ignored e q ↦ rw q (sym e)
    | replayed e l q ↦ rw q (unfold error_reaction is_over in refl)
    | dispatched e l q ↦
        rw q
          (catch-Agrees _ (dispatch_in-Agrees s.state frame fresh (advanced json frame fresh s) e))
  ]
