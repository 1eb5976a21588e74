-- ===== src/Udp/Client/Tests.antt =====
-- The theorems on the client over datagrams at a concrete queue.
use wireline.Base.{true, length, ◌+◌, ◌-◌, ◌^◌, ◌%◌, ◌≤◌, ◌≡◌, refl, some, [], ◌∷◌}
use wireline.Base.Bytes.{Bytes}
use wireline.Errors.{raise, other_error}
use wireline.Codec.{ping, Frame, ack}
use wireline.Framing.{drain, drain_loop, drain_turn, pop}
use wireline.Messages.{encode_ack}
use wireline.Udp.Client.{await_reply, judge, split_datagram, after_drain}
use wireline.Session.{new}
use wireline.Base.{none}
use wireline.Udp.Client.Requests.{UdpClient, request, request_bounded}
use wireline.Udp.Client.Answers.{Answers, Dropped, await_reply_crashes}
use wireline.Fixtures.{toy_crypto, toy_json, copies, key}

-- The ACK of request 7, alone in its datagram: the message had no reply.
abbrev acknowledgement : Frame
acknowledgement = record { msg_type = ack; seq = 7; payload = encode_ack toy_json 7; flags = 0 }

abbrev answer_wire : Bytes
answer_wire =
    87
    ∷ 73
    ∷ 82
    ∷ 69
    ∷ 1
    ∷ 4
    ∷ 0
    ∷ 0
    ∷ 0
    ∷ 0
    ∷ 7
    ∷ 0
    ∷ 0
    ∷ 0
    ∷ 11
    ∷ 0
    ∷ 0
    ∷ 3
    ∷ 97
    ∷ 123
    ∷ 7
    ∷ 97
    ∷ 99
    ∷ 107
    ∷ 95
    ∷ 115
    ∷ 101
    ∷ 113
    ∷ 1
    ∷ 7
    ∷ copies 32 40

abbrev garbage : Bytes
garbage = 1 ∷ 2 ∷ []

garbage-Dropped : Dropped toy_crypto toy_json key 7 (garbage ∷ [])
unfolding judge split_datagram after_drain drain drain_loop drain_turn pop
garbage-Dropped = (refl, tt)

await_reply_crashes_example :
    await_reply toy_crypto toy_json key 7 (garbage ∷ [] ∷ answer_wire ∷ [])
    ≡ (some (raise other_error), answer_wire ∷ [])
await_reply_crashes_example =
    await_reply_crashes toy_crypto toy_json key 7 (garbage ∷ []) (answer_wire ∷ []) garbage-Dropped

abbrev client : UdpClient
client = record {
  secret = key;
  max_retries = 2;
  is_open = true;
  queue = [];
  out_seq = 2 ^ 32 - 1;
  retransmits = 0;
  sent = [];
  client_id = [];
  state = new;
  session_id = none;
}

request_bounded_example :
    (length (request toy_crypto toy_json ping [] ((garbage ∷ []) ∷ []) client).0.sent ≤ 0 + (2 + 1))
    × ((request toy_crypto toy_json ping [] ((garbage ∷ []) ∷ []) client).0.out_seq
        ≡ (2 ^ 32 - 1 + 1) % 2 ^ 32)
request_bounded_example =
    request_bounded toy_crypto toy_json ping [] ((garbage ∷ []) ∷ []) client refl
