-- ===== src/Client.antt =====
-- src/wireline/client.py: `WirelineClient`, one call after the other.
pub mod Invariant
pub mod Lifecycle
pub mod Operations
pub mod Replies
pub mod Pairing
pub mod Talks
pub mod Handshakes
mod Tests
use wireline.Base.Int.{ℤ, negsuc, pos, leb_ℤ}
use wireline.Base.Text.{Text, codes, str_ℕ}
use wireline.Base.Bytes.{Bytes}
use wireline.Base.{
  ℕ, ◌+◌, ◌%◌, ◌^◌, Bool, true, false, Option, none, some, List, [], ◌∷◌, ◌++◌, if◌then◌else◌,
}
use wireline.Errors.{
  ErrorCode, Result, ok, raise, Exn, fail, err_state, err_seq, other_error, ◌>>=◌,
}
use wireline.Codec.{
  Crypto, Frame, MsgType, encode, type_name, hello, hello_ack, data_msg, ack, ping, pong, error,
  bye,
}
use wireline.Messages.{Json, encode_hello, decode_hello_ack, decode_error}
use wireline.Session.{State, new, handshake, ready, closing, closed}

-- `_reader` and `_writer` are set and cleared together: `connected` tells whether they are there,
-- and `written` is what was given to `writer.write` so far, call by call,
-- on this connection.
pub record WirelineClient : Type 0 where
  pub client_id : Text
  pub connected : Bool
  pub written : List Bytes
  pub out_seq : ℕ
  pub last_peer_seq : ℤ
  pub state : State
  pub session_id : Option Text

abbrev pub new_client : Text → WirelineClient
new_client client_id = record {
  client_id = client_id;
  connected = false;
  written = [];
  out_seq = 0;
  last_peer_seq = negsuc 0;
  state = new;
  session_id = none;
}

-- How `drain` or `wait_closed` of the writer ends: it returns, a connection that is gone raises a
-- `ConnectionResetError` or a `BrokenPipeError`, or another exception is raised, such as another
-- `OSError` or a cancellation.
pub data Flushed : Type 0 where
  flushed lost : Flushed
  failed : Exn → Flushed

-- A call's result, and the client after it, whether or not the call raises.
abbrev pub Step : Type 0 → Type 0
Step A = Result A × WirelineClient

unfoldable pub and_then : {A B : Type 0} → Step A → (A → WirelineClient → Step B) → Step B
and_then (raise e, c) next = (raise e, c)
and_then (ok a, c) next = next a c

-- `state.value`
unfoldable pub state_value : State → Text
unfolding codes
state_value new = codes "NEW"
state_value handshake = codes "HANDSHAKE"
state_value ready = codes "READY"
state_value closing = codes "CLOSING"
state_value closed = codes "CLOSED"

-- `state is State.READY`
unfoldable pub is_ready : State → Bool
is_ready ready = true
is_ready _ = false

unfoldable pub not_connected : Text
not_connected = codes "client is not connected"

unfoldable pub replayed_seq : ℕ → Text
replayed_seq seq = codes "replayed seq " ++ (str_ℕ seq ++ codes " from server")

unfoldable pub server_rejected : Text → Text
server_rejected message = codes "server rejected handshake: " ++ message

unfoldable pub expected_hello_ack : MsgType → Text
expected_hello_ack msg_type = codes "expected HELLO_ACK, got " ++ type_name msg_type

unfoldable pub cannot_send : MsgType → State → Text
unfolding state_value
cannot_send msg_type state =
    codes "cannot send " ++ (type_name msg_type ++ (codes " in state " ++ state_value state))

-- `writer.write(...)` and `drain()`; nothing is written when `encode` raises.
unfoldable pub write : Result Bytes → Flushed → WirelineClient → Step (Unit {0})
write (raise e) how c = (raise e, c)
write (ok raw) flushed c = (ok tt, record c { written = c.written ++ (raw ∷ []) })
write (ok raw) lost c = (raise other_error, record c { written = c.written ++ (raw ∷ []) })
write (ok raw) (failed x) c = (raise x, record c { written = c.written ++ (raw ∷ []) })

unfoldable pub next_seq : WirelineClient → ℕ × WirelineClient
next_seq c = (c.out_seq, record c { out_seq = (c.out_seq + 1) % 2 ^ 32 })

-- `_recv`, by how `wait_for(read_frame(...))` ends
unfoldable pub recv : Result Frame → WirelineClient → Step Frame
unfolding replayed_seq not_connected
recv outcome c =
    if c.connected
    then (elim outcome [
      | raise e ↦ (raise e, c)
      | ok frame ↦
          if leb_ℤ (pos frame.seq) c.last_peer_seq
          then (fail err_seq (replayed_seq frame.seq), c)
          else (ok frame, record c { last_peer_seq = pos frame.seq })
    ])
    else (fail err_state not_connected, c)

-- The `wait_closed` of `close`, and what follows it: an exception that is not suppressed leaves the
-- state and the writer as they were.
unfoldable pub shut_down : Flushed → WirelineClient → Step (Unit {0})
shut_down flushed c = (ok tt, record c { connected = false; state = closed })
shut_down lost c = (ok tt, record c { connected = false; state = closed })
shut_down (failed x) c = (raise x, c)

module _ (crypto : Crypto) (secret : Bytes) where
  -- `_send`
  unfoldable pub send : MsgType → Bytes → ℕ → Flushed → WirelineClient → Step (Unit {0})
  unfolding write next_seq not_connected
  send msg_type payload flags how c =
      if c.connected
      then (let (seq, c') = next_seq c in
          let frame : Frame = record {
            msg_type = msg_type;
            seq = seq;
            payload = payload;
            flags = flags;
          } in
          write (encode crypto frame secret) how c')
      else (fail err_state not_connected, c)

  -- The answer is what `wait_for(read_frame(...))` returns or raises.
  unfoldable pub request :
      MsgType → Bytes → ℕ → Flushed → Result Frame → WirelineClient → Step Frame
  unfolding is_ready cannot_send and_then send recv
  request msg_type payload flags how answer c =
      if is_ready c.state
      then and_then (send msg_type payload flags how c) (λ _ c'. recv answer c')
      else (fail err_state (cannot_send msg_type c.state), c)

  abbrev pub ping_server : Bytes → Flushed → Result Frame → WirelineClient → Step Frame
  ping_server payload how answer c = request ping payload 0 how answer c

  unfoldable pub send_data : Bytes → Flushed → Result Frame → WirelineClient → Step Bytes
  unfolding and_then request
  send_data payload how answer c =
      and_then (request data_msg payload 0 how answer c) (λ frame c'. (ok frame.payload, c'))

  -- The BYE of `close`: a connection that is gone is no error there, but the state stays as it was.
  unfoldable pub say_bye : Flushed → WirelineClient → Step (Unit {0})
  unfolding send and_then is_ready
  say_bye flushed c =
      if is_ready c.state
      then and_then (send bye [] 0 flushed c) (λ _ c'. (ok tt, record c' { state = closing }))
      else (ok tt, c)
  say_bye lost c =
      if is_ready c.state
      then and_then (send bye [] 0 flushed c) (λ _ c'. (ok tt, c'))
      else (ok tt, c)
  say_bye (failed x) c = if is_ready c.state then send bye [] 0 (failed x) c else (ok tt, c)

  -- `close`, by how the `drain` of its BYE and its `wait_closed` end
  unfoldable pub close : Flushed → Flushed → WirelineClient → Step (Unit {0})
  unfolding say_bye and_then shut_down
  close drained how c =
      if c.connected then and_then (say_bye drained c) (λ _ c'. shut_down how c') else (ok tt, c)

-- What follows an answer to HELLO.
unfoldable pub rejected : Result (ErrorCode × Text) → WirelineClient → Step (Unit {0})
unfolding server_rejected
rejected (raise e) c = (raise e, c)
rejected (ok (code, message)) c = (fail code (server_rejected message), c)

unfoldable pub welcomed : Result (Text × Text) → WirelineClient → Step (Unit {0})
welcomed (raise e) c = (raise e, c)
welcomed (ok (session_id, nonce)) c =
    (ok tt, record c { session_id = some session_id; state = ready })

unfoldable pub greeted : Json → MsgType → Bytes → WirelineClient → Step (Unit {0})
unfolding rejected welcomed expected_hello_ack
greeted json error payload c = rejected (decode_error json payload) c
greeted json hello_ack payload c = welcomed (decode_hello_ack json payload) c
greeted json msg_type payload c = (fail err_state (expected_hello_ack msg_type), c)

module _ (crypto : Crypto) (secret : Bytes) (json : Json) where
  -- `_handshake`: `fresh` is the nonce that `new_nonce` makes.
  unfoldable pub do_handshake : Text → Flushed → Result Frame → WirelineClient → Step (Unit {0})
  unfolding and_then send recv greeted
  do_handshake fresh how answer c =
      and_then (send crypto secret hello (encode_hello json c.client_id none fresh) 0 how c)
        (λ _ c'.
          and_then (recv answer (record c' { state = handshake }))
            (λ frame c''. greeted json frame.msg_type frame.payload c''))

  -- `connect`, where `open_connection` succeeds; the sequence numbers are those of before.
  unfoldable pub connect : Text → Flushed → Result Frame → WirelineClient → Step (Unit {0})
  unfolding do_handshake
  connect fresh how answer c =
      do_handshake fresh how answer (record c { connected = true; written = [] })
