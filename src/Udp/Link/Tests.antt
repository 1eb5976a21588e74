-- ===== src/Udp/Link/Tests.antt =====
-- The exchange over lossy links at a concrete client and server.
use wireline.Base.{ℕ, some, true, false, List, [], ◌∷◌, ◌++◌, Bool}
use wireline.Base.Int.{pos}
use wireline.Base.Bytes.{Bytes}
use wireline.Errors.{Result}
use wireline.Codec.{Frame}
use wireline.Codec.Encoding.{wire_of}
use wireline.Session.{ServerSession, ready, new_session}
use wireline.Udp.Window.{new_window}
use wireline.Udp.Server.{Peer, UdpServer, Fresh}
use wireline.Udp.Client.Requests.{UdpClient}
use wireline.Udp.Link.{LossyLink, Network}
use wireline.Udp.Link.Delivery.{acknowledging, echoing}
use wireline.Udp.Link.Outcomes.{reached, sending, dropped}
use wireline.Fixtures.{toy_crypto, toy_crypto-IsDigest, toy_json, key}

abbrev client : UdpClient
client = record {
  secret = key;
  max_retries = 2;
  is_open = true;
  queue = [];
  out_seq = 1;
  retransmits = 0;
  sent = [];
  client_id = 5 ∷ [];
  state = ready;
  session_id = some (1 ∷ []);
}

abbrev session : ServerSession
session = record (new_session (1 ∷ [])) { state = ready; out_seq = 2; last_peer_seq = pos 0 }

abbrev peer : Peer
peer = record { session = session; dedup = new_window 4 }

abbrev server : UdpServer
server = record {
  secret = key;
  dedup_size = 4;
  peers = (40, peer) ∷ [];
  duplicates = 0;
  handled = 1;
  sent = [];
}

abbrev payload : Bytes
payload = 10 ∷ 20 ∷ []

abbrev fresh : ℕ → Fresh
fresh n = record { session_id = n ∷ []; nonce = n ∷ [] }

abbrev link : LossyLink
link = record { dropped = 0 }

abbrev acknowledged : Frame
acknowledged = acknowledging toy_crypto toy_json 40 1 payload session

abbrev echoed : Frame
echoed = echoing toy_crypto toy_json 40 1 payload session

abbrev answer_wire : Bytes
answer_wire = wire_of toy_crypto acknowledged key ++ (wire_of toy_crypto echoed key ++ [])

-- The first request is lost, then the reply of the second.
abbrev two_losses : List (Bool × Bool)
two_losses = (true, false) ∷ (false, true) ∷ []

abbrev three_losses : List (Bool × Bool)
three_losses = (false, true) ∷ (true, true) ∷ (false, true) ∷ []

abbrev outcome : List (Bool × Bool) → UdpClient × Result Bytes
outcome =
    sending toy_crypto toy_json toy_crypto-IsDigest 40 payload peer answer_wire server client link
      link fresh

abbrev network_after : List (Bool × Bool) → Network × List (List Bytes)
network_after =
    reached toy_crypto toy_json toy_crypto-IsDigest 40 payload peer answer_wire server client link
      link fresh

abbrev draws : List (Bool × Bool)
draws = two_losses ++ (false, false) ∷ []
