-- ===== src/Udp/Client/Lifecycle/Tests.antt =====
-- The handshake over datagrams at a concrete client and server.
use wireline.Base.{none, false, [], ◌∷◌, ◌++◌}
use wireline.Base.Bytes.{Bytes}
use wireline.Errors.{Result}
use wireline.Codec.Encoding.{wire_of}
use wireline.Session.{new}
use wireline.Udp.Server.{UdpServer, Fresh}
use wireline.Codec.{Frame}
use wireline.Udp.Client.Requests.{UdpClient}
use wireline.Udp.Client.Lifecycle.Greeting.{hello_frame, acknowledgement, welcome_frame}
use wireline.Udp.Client.Lifecycle.Meeting.{Meeting, connecting, serving}
use wireline.Fixtures.{toy_crypto, toy_crypto-IsDigest, toy_json, key}

abbrev stranger : UdpClient
stranger = record {
  secret = key;
  max_retries = 2;
  is_open = false;
  queue = [];
  out_seq = 0;
  retransmits = 0;
  sent = [];
  client_id = 5 ∷ [];
  state = new;
  session_id = none;
}

abbrev server : UdpServer
server = record { secret = key; dedup_size = 4; peers = []; duplicates = 0; handled = 0; sent = [] }

abbrev made_up : Fresh
made_up = record { session_id = 1 ∷ []; nonce = 3 ∷ [] }

abbrev greeting : Frame
greeting = hello_frame toy_crypto toy_json toy_crypto-IsDigest made_up (5 ∷ []) (7 ∷ []) 0

abbrev acknowledged : Frame
acknowledged = acknowledgement toy_crypto toy_json toy_crypto-IsDigest made_up (5 ∷ []) (7 ∷ []) 0

abbrev welcome : Frame
welcome = welcome_frame toy_crypto toy_json toy_crypto-IsDigest made_up (5 ∷ []) (7 ∷ []) 0

abbrev greeting_wire : Bytes
greeting_wire = wire_of toy_crypto greeting key

abbrev answer_wire : Bytes
answer_wire = wire_of toy_crypto acknowledged key ++ (wire_of toy_crypto welcome key ++ [])

abbrev connection : UdpClient × Result (Unit {0})
connection =
    connecting toy_crypto toy_json toy_crypto-IsDigest made_up (7 ∷ []) stranger 40 server
      greeting_wire answer_wire ((1 ∷ 2 ∷ []) ∷ []) [] []

abbrev met_server : UdpServer
met_server =
    serving toy_crypto toy_json toy_crypto-IsDigest made_up (7 ∷ []) stranger 40 server
      greeting_wire answer_wire ((1 ∷ 2 ∷ []) ∷ []) [] []
