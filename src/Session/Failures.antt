-- ===== src/Session/Failures.antt =====
-- When `on_frame` of src/wireline/session.py returns, and when it asks to close the connection.
use wireline.Messages.RoundTrip.{decode_hello_crashes, decode_error_raises, decode_hello_raises}
use wireline.Base.{ap, ◌∙◌, true, arith, ◌≡◌, refl, sym, ◌≢◌, false}
use wireline.Base.Int.{leb_ℤ, pos}
use wireline.Base.Text.{Text}
use wireline.Errors.{
  ErrorCode, Result, protocol_error, incomplete_read, timeout, other_error, raise, ok,
  RaisesProtocolErrors,
}
use wireline.Codec.{Frame, MsgType, hello, hello_ack, data_msg, ack, ping, pong, error, bye}
use wireline.Messages.{Json, decode_hello, decode_error, crashed}
use wireline.Session.{
  ServerSession, State, Reaction, is_over, new, welcome, on_error, dispatch, dispatch_in,
  dispatch_new, dispatch_ready, catch, on_frame, error_reaction,
}
use wireline.Session.Cases.{advanced, handled, ignored, replayed, dispatched}

-- The call returned a reaction, and its `close` says whether the session is over.
abbrev pub Returns : Result Reaction × ServerSession → Type 0
Returns (ok r, s) = r.close ≡ is_over s.state
Returns (raise x, s) = ⊥

-- The call returned such a reaction or raised a `ProtocolError`, with the session still open.
abbrev Safe : Result Reaction × ServerSession → Type 0
Safe (ok r, s) = r.close ≡ is_over s.state
Safe (raise (protocol_error e), s) = Unit {0}
Safe (raise incomplete_read, s) = ⊥
Safe (raise timeout, s) = ⊥
Safe (raise other_error, s) = ⊥

new_open : (s : ServerSession) → s.state ≡ new → is_over s.state ≡ true → ⊥
unfolding is_over
new_open s st e = cc (ap is_over st, e)

module _ (json : Json) where
  welcome-Safe :
      (r : Result (Text × Text)) (fresh : Text) (s : ServerSession)
      → RaisesProtocolErrors r
      → Safe (welcome json r fresh s)
  unfolding welcome is_over
  welcome-Safe (raise (protocol_error e)) fresh s h = tt
  welcome-Safe (raise incomplete_read) fresh s h = h
  welcome-Safe (raise timeout) fresh s h = h
  welcome-Safe (raise other_error) fresh s h = h
  welcome-Safe (ok (c, n)) fresh s h = refl

  on_error-Safe :
      (r : Result (ErrorCode × Text)) (s : ServerSession)
      → RaisesProtocolErrors r
      → Safe (on_error json r s)
  unfolding on_error is_over
  on_error-Safe (raise (protocol_error e)) s h = tt
  on_error-Safe (raise incomplete_read) s h = h
  on_error-Safe (raise timeout) s h = h
  on_error-Safe (raise other_error) s h = h
  on_error-Safe (ok (c, m)) s h = refl

  module _ (frame : Frame) (parses : json.loads frame.payload ≢ crashed) where
    dispatch_ready-Safe :
        (t : MsgType) (s : ServerSession)
        → is_over s.state ≡ false
        → Safe (dispatch_ready json t frame s)
    unfolding dispatch_ready is_over
    dispatch_ready-Safe hello s o = tt
    dispatch_ready-Safe hello_ack s o = tt
    dispatch_ready-Safe ping s o = sym o
    dispatch_ready-Safe pong s o = sym o
    dispatch_ready-Safe data_msg s o = sym o
    dispatch_ready-Safe ack s o = sym o
    dispatch_ready-Safe bye s o = refl
    dispatch_ready-Safe error s o =
        on_error-Safe (decode_error json frame.payload) s
          (decode_error_raises json frame.payload parses)

    dispatch_new-Safe :
        (t : MsgType) (fresh : Text) (s : ServerSession) → Safe (dispatch_new json t frame fresh s)
    unfolding dispatch_new
    dispatch_new-Safe hello fresh s =
        welcome-Safe (decode_hello json frame.payload) fresh s
          (decode_hello_raises json frame.payload parses)
    dispatch_new-Safe _ fresh s = tt

    dispatch_in-Safe :
        (st : State) (fresh : Text) (s : ServerSession)
        → is_over s.state ≡ false
        → Safe (dispatch_in json st frame fresh s)
    unfolding dispatch_in
    dispatch_in-Safe new fresh s o = dispatch_new-Safe frame.msg_type fresh s
    dispatch_in-Safe _ fresh s o = dispatch_ready-Safe frame.msg_type s o

    catch-Returns : (o : Result Reaction × ServerSession) → Safe o → Returns (catch json o)
    unfolding catch error_reaction is_over
    catch-Returns (ok r, s) h = h
    catch-Returns (raise (protocol_error e), s) h = refl
    catch-Returns (raise incomplete_read, s) h = h
    catch-Returns (raise timeout, s) h = h
    catch-Returns (raise other_error, s) h = h

    -- Unless the parser fails on the payload in a way that `_load` does not expect, `on_frame`
    -- returns a reaction in every state, and the reaction asks to close the connection exactly when
    -- the session is over.
    pub on_frame-Returns :
        (fresh : Text) (s : ServerSession) → Returns (on_frame json frame fresh s)
    unfolding dispatch
    on_frame-Returns fresh s = elim (handled json frame fresh s) [
      | ignored e q ↦ rw q (sym e)
      | replayed e l q ↦ rw q (unfold error_reaction is_over in refl)
      | dispatched e l q ↦
          rw q (catch-Returns _ (dispatch_in-Safe s.state fresh (advanced json frame fresh s) e))
    ]

  -- A HELLO on a new session whose payload makes the parser raise neither a `UnicodeDecodeError` nor
  -- a `JSONDecodeError` makes `on_frame` raise, with the number accepted and the session still NEW.
  pub on_frame_crashes :
      (frame : Frame) (fresh : Text) (s : ServerSession)
      → frame.msg_type ≡ hello
      → s.state ≡ new
      → leb_ℤ (pos frame.seq) s.last_peer_seq ≡ false
      → json.loads frame.payload ≡ crashed
      → on_frame json frame fresh s
        ≡ (raise other_error, record s { last_peer_seq = pos frame.seq })
  unfolding dispatch dispatch_in dispatch_new welcome catch
  on_frame_crashes frame fresh s t st l c = elim (handled json frame fresh s) [
    | ignored e q ↦ absurd (new_open s st e)
    | replayed e l' q ↦ absurd (ground (arith, l, l'))
    | dispatched e l' q ↦
        let a = advanced json frame fresh s in
        q
        ∙ ap (λ k. catch json (dispatch_in json k frame fresh a)) st
        ∙ ap (λ k. catch json (dispatch_new json k frame fresh a)) t
        ∙ ap (λ r. catch json (welcome json r fresh a)) (decode_hello_crashes json frame.payload c)
  ]
