-- ===== src/Session.antt =====
-- src/wireline/session.py: the server's connection state machine, without I/O.
pub mod Texts
pub mod Cases
pub mod Invariant
pub mod Runs
pub mod Echo
pub mod Numbers
pub mod Replay
pub mod Failures
pub mod Closing
mod Tests
use wireline.Base.Int.{leb_ℤ, ℤ, pos, negsuc}
use wireline.Base.{
  ℕ, ◌+◌, ◌%◌, ◌^◌, Bool, true, false, none, some, List, [], ◌∷◌, if◌then◌else◌, Option,
}
use wireline.Base.Bytes.{Bytes}
use wireline.Base.Text.{Text}
use wireline.Errors.{
  describe, fail, ProtocolError, err_state, err_seq, protocol_error, raise, ErrorCode, Result, ok,
}
use wireline.Codec.{Frame, MsgType, hello, hello_ack, data_msg, ack, ping, pong, error, bye}
use wireline.Messages.{Json, encode_error, encode_ack, decode_hello, decode_error, encode_hello_ack}

pub data State : Type 0 where
  new handshake ready closing closed : State

pub record Reaction : Type 0 where
  pub frames : List Frame
  pub close : Bool
  pub reason : Option Text

pub record ServerSession : Type 0 where
  pub session_id : Text
  pub state : State
  pub client_id : Option Text
  pub peer_nonce : Option Text
  pub out_seq : ℕ
  pub last_peer_seq : ℤ

-- `ServerSession()`: the id is made by `uuid.uuid4`.
abbrev pub new_session : Text → ServerSession
new_session session_id = record {
  session_id = session_id;
  state = new;
  client_id = none;
  peer_nonce = none;
  out_seq = 0;
  last_peer_seq = negsuc 0;
}

-- `Reaction()`, and a reaction with one frame that goes on
abbrev pub silent : Reaction
silent = record { frames = []; close = false; reason = none }

abbrev pub reply : Frame → Reaction
reply frame = record { frames = frame ∷ []; close = false; reason = none }

-- `state in (State.CLOSING, State.CLOSED)`
unfoldable pub is_over : State → Bool
is_over new = false
is_over handshake = false
is_over ready = false
is_over closing = true
is_over closed = true

unfoldable pub next_seq : ServerSession → ℕ × ServerSession
next_seq s = (s.out_seq, record s { out_seq = (s.out_seq + 1) % 2 ^ 32 })

unfoldable pub make_frame : MsgType → Bytes → ℕ → ServerSession → Frame × ServerSession
unfolding next_seq
make_frame msg_type payload flags s =
    let (seq, s') = next_seq s in
    (record { msg_type = msg_type; seq = seq; payload = payload; flags = flags }, s')

-- `Reaction(frames=(self._frame(msg_type, payload),))`
unfoldable pub reply_with : MsgType → Bytes → ServerSession → Result Reaction × ServerSession
unfolding make_frame
reply_with msg_type payload s =
    let (frame, s') = make_frame msg_type payload 0 s in (ok (reply frame), s')

-- Methods change the session, whether or not they raise.
module _ (json : Json) where
  -- `_error`
  unfoldable pub error_reaction : ErrorCode → Text → ServerSession → Reaction × ServerSession
  unfolding make_frame
  error_reaction code message s =
      let (frame, s') =
        make_frame error (encode_error json code message) 0 (record s { state = closed }) in
      (record { frames = frame ∷ []; close = true; reason = some (describe code message) }, s')

  -- `ack`
  unfoldable pub ack_frame : ℕ → ServerSession → Frame × ServerSession
  unfolding make_frame
  ack_frame peer_seq s = make_frame ack (encode_ack json peer_seq) 0 s

  unfoldable pub welcome :
      Result (Text × Text) → Text → ServerSession → Result Reaction × ServerSession
  unfolding reply_with
  welcome (raise e) fresh s = (raise e, s)
  welcome (ok (client_id, peer_nonce)) fresh s =
      reply_with hello_ack (encode_hello_ack json s.session_id none fresh)
        (record s { client_id = some client_id; peer_nonce = some peer_nonce; state = ready })

  -- `fresh` is the nonce that `new_nonce` makes for the answer.
  unfoldable pub on_hello : Frame → Text → ServerSession → Result Reaction × ServerSession
  unfolding welcome
  on_hello frame fresh s = welcome (decode_hello json frame.payload) fresh s

  unfoldable pub on_data : Frame → ServerSession → Result Reaction × ServerSession
  unfolding reply_with
  on_data frame s = reply_with data_msg frame.payload s

  unfoldable pub on_bye : ServerSession → Result Reaction × ServerSession
  unfolding make_frame
  on_bye s =
      let (frame, s') = make_frame bye [] 0 (record s { state = closed }) in
      (ok (record { frames = frame ∷ []; close = true; reason = some Texts.peer_said_bye }), s')

  unfoldable pub on_error :
      Result (ErrorCode × Text) → ServerSession → Result Reaction × ServerSession
  on_error (raise e) s = (raise e, s)
  on_error (ok (code, message)) s = (
    ok (record { frames = []; close = true; reason = some (Texts.peer_reported code message) }),
    record s { state = closed },
  )

  -- the `match` on the type of the frame
  unfoldable pub dispatch_ready : MsgType → Frame → ServerSession → Result Reaction × ServerSession
  unfolding reply_with on_data on_bye on_error
  dispatch_ready hello frame s = (fail err_state Texts.already_completed, s)
  dispatch_ready hello_ack frame s = (fail err_state Texts.server_to_client, s)
  dispatch_ready ping frame s = reply_with pong frame.payload s
  dispatch_ready pong frame s = (ok silent, s)
  dispatch_ready data_msg frame s = on_data frame s
  dispatch_ready ack frame s = (ok silent, s)
  dispatch_ready bye frame s = on_bye s
  dispatch_ready error frame s = on_error (decode_error json frame.payload) s

  unfoldable pub dispatch_new :
      MsgType → Frame → Text → ServerSession → Result Reaction × ServerSession
  unfolding on_hello
  dispatch_new hello frame fresh s = on_hello frame fresh s
  dispatch_new _ frame fresh s = (fail err_state (Texts.not_allowed frame.msg_type), s)

  -- `_dispatch`: by its state, and then by the type of the frame
  unfoldable pub dispatch_in :
      State → Frame → Text → ServerSession → Result Reaction × ServerSession
  unfolding dispatch_new dispatch_ready
  dispatch_in new frame fresh s = dispatch_new frame.msg_type frame fresh s
  dispatch_in _ frame fresh s = dispatch_ready frame.msg_type frame s

  unfoldable pub dispatch : Frame → Text → ServerSession → Result Reaction × ServerSession
  unfolding dispatch_in
  dispatch frame fresh s = dispatch_in s.state frame fresh s

  -- `except ProtocolError as exc: return self._error(exc.code, exc.message)`
  unfoldable pub catch : Result Reaction × ServerSession → Result Reaction × ServerSession
  unfolding error_reaction
  catch (ok r, s) = (ok r, s)
  catch (raise (protocol_error e), s) =
      let (r, s') = error_reaction e.code e.message s in (ok r, s')
  catch (raise x, s) = (raise x, s)

  unfoldable pub on_frame : Frame → Text → ServerSession → Result Reaction × ServerSession
  unfolding is_over error_reaction catch dispatch
  on_frame frame fresh s =
      if is_over s.state
      then (ok (record { frames = []; close = true; reason = some Texts.frame_after_close }), s)
      else if leb_ℤ (pos frame.seq) s.last_peer_seq
      then (let (r, s') =
            error_reaction err_seq (Texts.seq_not_greater frame.seq s.last_peer_seq) s in
          (ok r, s'))
      else catch (dispatch frame fresh (record s { last_peer_seq = pos frame.seq }))

  unfoldable pub on_protocol_error : ProtocolError → ServerSession → Reaction × ServerSession
  unfolding error_reaction
  on_protocol_error exc s = error_reaction exc.code exc.message s

unfoldable pub on_idle_timeout : ServerSession → Reaction × ServerSession
on_idle_timeout s = (
  record { frames = []; close = true; reason = some Texts.idle_timeout },
  record s { state = closed },
)
