-- ===== src/Client/Tests.antt =====
-- The theorems on the client at concrete calls.
use wireline.Base.{refl, arith, ◌≡◌, true, some, List, [], ◌∷◌, map}
use wireline.Base.Int.{pos}
use wireline.Base.Bytes.{Bytes}
use wireline.Errors.{Result, other_error, raise, ok, timeout, fail, err_seq}
use wireline.Codec.{data_msg}
use wireline.Session.{ready, handshake}
use wireline.Messages.{hello_object, hello_ack_object, nonce_or, encode_hello, encode_hello_ack}
use wireline.Client.{WirelineClient, new_client, flushed, failed, replayed_seq}
use wireline.Client.Replies.{Call, Ascending, calls, calls-Ascending}
use wireline.Client.Invariant.{IsValid, new_client-IsValid}
use wireline.Client.Operations.{
  any_failed, Operation, connecting, requesting, closing_now, operate_all, operate_all-IsValid,
}
use wireline.Client.Pairing.{IsPaired}
use wireline.Client.Handshakes.{
  Sound, connecting as connecting_with, connect_agrees, connected_talk, connect_again, welcoming,
  hello_wire, talking as talking_with,
}
use wireline.Server.{Connection}
use wireline.Client.{Step}
use wireline.Session.{closed}
use wireline.Fixtures.{toy_crypto, toy_crypto-IsDigest, toy_json, key, probe}

abbrev talking : WirelineClient
talking = record (new_client (5 ∷ [])) {
  connected = true;
  state = ready;
  session_id = some (1 ∷ []);
}

abbrev asking : Call
asking = record {
  msg_type = data_msg;
  payload = 1 ∷ [];
  flags = 0;
  how = flushed;
  answer = ok probe;
}

-- The second answer is a replay of the first.
calls-Ascending_example :
    Ascending talking.last_peer_seq
      (calls toy_crypto key (asking ∷ asking ∷ []) talking).0
      (calls toy_crypto key (asking ∷ asking ∷ []) talking).1.last_peer_seq
calls-Ascending_example = calls-Ascending toy_crypto key (asking ∷ asking ∷ []) talking

abbrev day : List Operation
day =
    connecting (7 ∷ []) flushed (raise timeout)
    ∷ requesting asking
    ∷ closing_now flushed (failed other_error)
    ∷ []

operate_all-IsValid_example :
    IsValid (any_failed day) (operate_all toy_crypto key toy_json day (new_client (5 ∷ [])))
operate_all-IsValid_example =
    operate_all-IsValid toy_crypto key toy_json day (new_client (5 ∷ []))
      (new_client-IsValid (5 ∷ []))

abbrev stranger : WirelineClient
stranger = new_client (5 ∷ [])

stranger-Sound : Sound toy_crypto key toy_json (7 ∷ []) (1 ∷ []) (3 ∷ []) stranger
unfolding hello_object hello_ack_object nonce_or encode_hello encode_hello_ack
stranger-Sound = record {
  digest = toy_crypto-IsDigest;
  hello_back = refl;
  ack_back = refl;
  hello_fits = omega arith;
  ack_fits = omega arith;
  numbered = omega arith;
}

abbrev greeting_pair : WirelineClient → Connection × Step (Unit {0})
greeting_pair c = (
  welcoming toy_crypto key toy_json (7 ∷ []) (1 ∷ []) (3 ∷ []) c,
  connecting_with toy_crypto key toy_json (7 ∷ []) (1 ∷ []) (3 ∷ []) c,
)

-- What the server reads
abbrev greeting_wire : WirelineClient → Bytes
greeting_wire = hello_wire toy_crypto key toy_json (7 ∷ []) (1 ∷ []) (3 ∷ [])

connect_agrees_example :
    ((greeting_pair stranger).1.1.written ≡ greeting_wire stranger ∷ [])
    × ((greeting_pair stranger).1.0 ≡ ok tt)
    × ((greeting_pair stranger).1.1.session_id ≡ some (1 ∷ []))
    × ((greeting_pair stranger).0.session.client_id ≡ some (5 ∷ []))
    × IsPaired (greeting_pair stranger).1.1 (greeting_pair stranger).0.session
connect_agrees_example =
    connect_agrees toy_crypto key toy_json (7 ∷ []) (1 ∷ []) (3 ∷ []) stranger stranger-Sound refl
      (omega arith)

abbrev notes : List Bytes
notes = (10 ∷ 20 ∷ []) ∷ [] ∷ []

abbrev said : WirelineClient → List (Result Bytes) × List Bytes × WirelineClient
said c = talking_with toy_crypto key toy_json (7 ∷ []) (1 ∷ []) (3 ∷ []) c notes

connected_talk_example :
    ((said stranger).0 ≡ map ok notes)
    × ((said stranger).2.written ≡ greeting_wire stranger ∷ (said stranger).1)
connected_talk_example =
    connected_talk toy_crypto key toy_json (7 ∷ []) (1 ∷ []) (3 ∷ []) stranger stranger-Sound notes
      refl (omega arith) (omega arith, (omega arith, tt))

-- A client that was closed after four frames.
abbrev returning : WirelineClient
returning = record (new_client (5 ∷ [])) {
  out_seq = 4;
  last_peer_seq = pos 3;
  state = closed;
  session_id = some [];
}

returning-Sound : Sound toy_crypto key toy_json (7 ∷ []) (1 ∷ []) (3 ∷ []) returning
unfolding hello_object hello_ack_object nonce_or encode_hello encode_hello_ack
returning-Sound = record {
  digest = toy_crypto-IsDigest;
  hello_back = refl;
  ack_back = refl;
  hello_fits = omega arith;
  ack_fits = omega arith;
  numbered = omega arith;
}

connect_again_example :
    ((greeting_pair returning).1.1.written ≡ greeting_wire returning ∷ [])
    × ((greeting_pair returning).0.session.state ≡ ready)
    × ((greeting_pair returning).1.0 ≡ fail err_seq (replayed_seq 0))
    × ((greeting_pair returning).1.1.state ≡ handshake)
connect_again_example =
    connect_again toy_crypto key toy_json (7 ∷ []) (1 ∷ []) (3 ∷ []) returning returning-Sound 3
      refl
