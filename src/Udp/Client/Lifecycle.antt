-- ===== src/Udp/Client/Lifecycle.antt =====
-- `UdpClient.connect`, `send_data` and `close` of src/wireline/transport/udp.py.
pub mod Greeting
pub mod Meeting
mod Tests
use wireline.Base.{none, some, true, false, List}
use wireline.Base.Text.{Text}
use wireline.Base.Bytes.{Bytes}
use wireline.Errors.{Result, ok, raise, fail, err_state}
use wireline.Codec.{Crypto, Frame, MsgType, hello, hello_ack, data_msg}
use wireline.Messages.{Json, encode_hello, decode_hello_ack}
use wireline.Session.{handshake, ready, closed}
use wireline.Client.{expected_hello_ack}
use wireline.Udp.Client.Requests.{UdpClient, request}

-- The session id of a HELLO_ACK.
unfoldable pub adopt : Result (Text × Text) → UdpClient → UdpClient × Result (Unit {0})
adopt (raise e) c = (c, raise e)
adopt (ok (session_id, nonce)) c = (record c { session_id = some session_id; state = ready }, ok tt)

unfoldable pub check_reply : Json → MsgType → Bytes → UdpClient → UdpClient × Result (Unit {0})
unfolding adopt
check_reply json hello_ack payload c = adopt (decode_hello_ack json payload) c
check_reply json msg_type payload c = (c, fail err_state (expected_hello_ack msg_type))

unfoldable pub greet : Json → UdpClient × Result Frame → UdpClient × Result (Unit {0})
unfolding check_reply
greet json (c, raise e) = (c, raise e)
greet json (c, ok reply) = check_reply json reply.msg_type reply.payload c

unfoldable pub payload_of : UdpClient × Result Frame → UdpClient × Result Bytes
payload_of (c, raise e) = (c, raise e)
payload_of (c, ok reply) = (c, ok reply.payload)

module _ (crypto : Crypto) (json : Json) where
  -- `connect`, with the datagrams that arrive within each timeout. The queue is that of the client.
  unfoldable pub connect : Text → List (List Bytes) → UdpClient → UdpClient × Result (Unit {0})
  unfolding greet
  connect fresh arrivals c = greet json (
      request crypto json hello (encode_hello json c.client_id none fresh) arrivals
        (record c { is_open = true; state = handshake }))

  unfoldable pub send_data : Bytes → List (List Bytes) → UdpClient → UdpClient × Result Bytes
  unfolding payload_of
  send_data payload arrivals c = payload_of (request crypto json data_msg payload arrivals c)

-- `close` leaves `_sendto` set, so a later request is not refused here.
unfoldable pub close : UdpClient → UdpClient
close c = record c { state = closed }
