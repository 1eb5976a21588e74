-- ===== src/Udp/Link/Repeated/Tests.antt =====
-- A repeated BYE at a concrete server.
use wireline.Base.{refl, none, some, [], ◌∷◌, ◌++◌, ◌≡◌, ◌+◌, arith}
use wireline.Base.Int.{pos}
use wireline.Base.Bytes.{Bytes}
use wireline.Errors.{ok, raise, protocol_error, err_state}
use wireline.Codec.{Frame, bye, type_name}
use wireline.Codec.Encoding.{wire_of, encode-IsEncodable}
use wireline.Messages.{encode_ack, encode_error, ack_object, error_object}
use wireline.Session.{ServerSession, ready, new_session}
use wireline.Session.Texts.{not_allowed}
use wireline.Udp.Window.{new_window, get, find}
use wireline.Udp.Server.{Peer, UdpServer, Fresh, find_peer, encode_all}
use wireline.Udp.Client.{await_reply}
use wireline.Udp.Link.Closing.{acknowledges, farewell_frame, refusal_frame}
use wireline.Udp.Link.Repeated.{SaysBye, once, twice, repeated_bye}
use wireline.Fixtures.{toy_crypto, toy_crypto-IsDigest, toy_json, key}

abbrev session : ServerSession
session = record (new_session (1 ∷ [])) { state = ready; out_seq = 2; last_peer_seq = pos 0 }

abbrev peer : Peer
peer = record { session = session; dedup = new_window 4 }

abbrev server : UdpServer
server = record {
  secret = key;
  dedup_size = 4;
  peers = (40, peer) ∷ [];
  duplicates = 0;
  handled = 1;
  sent = [];
}

abbrev fresh : Fresh
fresh = record { session_id = 3 ∷ []; nonce = 4 ∷ [] }

abbrev first_ack : Frame
first_ack = acknowledges toy_crypto toy_json 1 session

abbrev farewell : Frame
farewell = farewell_frame toy_crypto toy_json 1 session

abbrev second_ack : Frame
second_ack = acknowledges toy_crypto toy_json 1 (new_session (3 ∷ []))

abbrev refusal : Frame
refusal = refusal_frame toy_crypto toy_json 1

abbrev both : Frame → Frame → Bytes
both f g = wire_of toy_crypto f key ++ (wire_of toy_crypto g key ++ [])

abbrev farewell_wire : Bytes
farewell_wire = both first_ack farewell

abbrev refusal_wire : Bytes
refusal_wire = both second_ack refusal

first_answer : encode_all toy_crypto toy_json (first_ack ∷ farewell ∷ []) key ≡ ok farewell_wire
unfolding encode_all encode_ack ack_object
first_answer =
    rw
      (
        encode-IsEncodable toy_crypto first_ack key
            (record { fits = omega arith; in_range = omega arith; known = omega arith }),
        encode-IsEncodable toy_crypto farewell key
            (record { fits = omega arith; in_range = omega arith; known = omega arith }),
      )
      refl

second_answer : encode_all toy_crypto toy_json (second_ack ∷ refusal ∷ []) key ≡ ok refusal_wire
unfolding encode_all encode_ack ack_object encode_error error_object not_allowed type_name
second_answer =
    rw
      (
        encode-IsEncodable toy_crypto second_ack key
            (record { fits = omega arith; in_range = omega arith; known = omega arith }),
        encode-IsEncodable toy_crypto refusal key
            (record { fits = omega arith; in_range = omega arith; known = omega arith }),
      )
      refl

peer-SaysBye :
    SaysBye toy_crypto toy_json toy_crypto-IsDigest 40 1 peer server fresh fresh farewell_wire
      refusal_wire
unfolding ack_object error_object not_allowed find_peer get find type_name
peer-SaysBye = record {
  known = refl;
  is_ready = refl;
  ahead = omega arith;
  unseen = refl;
  in_range = omega arith;
  first_answer = first_answer;
  second_answer = second_answer;
  ack_known = refl;
  error_known = refl;
}

abbrev server_once : UdpServer
server_once =
    once toy_crypto toy_json toy_crypto-IsDigest 40 1 peer server fresh fresh farewell_wire
      refusal_wire

abbrev server_twice : UdpServer
server_twice =
    twice toy_crypto toy_json toy_crypto-IsDigest 40 1 peer server fresh fresh farewell_wire
      refusal_wire

repeated_bye_example :
    (server_once.sent ≡ [] ++ (40, farewell_wire) ∷ [])
    × (server_twice.sent ≡ server_once.sent ++ (40, refusal_wire) ∷ [])
    × (server_twice.handled ≡ 1 + 2)
    × (server_twice.duplicates ≡ 0)
    × (find_peer 40 server_twice.peers ≡ none)
    × (await_reply toy_crypto toy_json key 1 (refusal_wire ∷ []) ≡ (
      some (raise (protocol_error (record { code = err_state; message = not_allowed bye }))),
      [],
    ))
repeated_bye_example =
    repeated_bye toy_crypto toy_json toy_crypto-IsDigest 40 1 peer server fresh fresh farewell_wire
      refusal_wire peer-SaysBye
