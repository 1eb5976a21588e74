-- ===== src/Udp/Server/Tests.antt =====
-- The theorems on the server over datagrams at a concrete peer and datagram.
use wireline.Codec.RoundTrip.{decode-encode}
use wireline.Base.Int.{ℤ, pos}
use wireline.Base.{ap, ◌∙◌, arith, eqb, ℕ, ◌≡◌, ◌≢◌, refl, some, List, [], ◌∷◌}
use wireline.Base.Bytes.{u32_be, of_u32_be, Bytes}
use wireline.Errors.{ok}
use wireline.Codec.{
  type_value, type_of_value, pack_header, u32_at, unknown_flags, parse_type, decode_header, crc_of,
  sign, verify_crc, verify_mac, verify_mac_if, decode_frame, Frame, data_msg, decode, encode,
}
use wireline.Session.{
  dispatch_in, dispatch_ready, is_over, make_frame, next_seq, on_data, on_frame, new_session,
  ServerSession, ready, dispatch, reply_with, catch,
}
use wireline.Udp.Window.{get, find, put, store, evict, remove}
use wireline.Udp.Server.{
  on_decoded, answer, execute, set_peer, peer_or_new, acks_for, after_frame, conclude, send,
  encode_all, Peer, UdpServer, Fresh, find_peer, on_datagram,
}
use wireline.Udp.Server.Once.{retransmission, forged_ignored}
use wireline.Fixtures.{toy_crypto, toy_crypto-IsDigest, toy_json, copies, key}

abbrev plain : Frame
plain = record { msg_type = data_msg; seq = 7; payload = 10 ∷ 20 ∷ []; flags = 0 }

-- A session that answers the frame with an equal one: its own next number is 7.
abbrev talking : ServerSession
talking = record (new_session (1 ∷ [])) { state = ready; out_seq = 7; last_peer_seq = pos 6 }

abbrev peer : List (ℕ × Bytes) → ℤ → ℕ → Peer
peer entries seen next = record {
  session = record talking { last_peer_seq = seen; out_seq = next };
  dedup = record { size = 2; entries = entries };
}

abbrev fresh : Fresh
fresh = record { session_id = 2 ∷ []; nonce = [] }

abbrev server : Peer → ℕ → List (ℕ × Bytes) → UdpServer
server p handled sent = record {
  secret = key;
  dedup_size = 2;
  peers = (40, p) ∷ [];
  duplicates = 0;
  handled = handled;
  sent = sent;
}

abbrev plain_wire : Bytes
plain_wire =
    87
    ∷ 73
    ∷ 82
    ∷ 69
    ∷ 1
    ∷ 3
    ∷ 0
    ∷ 0
    ∷ 0
    ∷ 0
    ∷ 7
    ∷ 0
    ∷ 0
    ∷ 0
    ∷ 2
    ∷ 0
    ∷ 0
    ∷ 0
    ∷ 30
    ∷ 10
    ∷ 20
    ∷ copies 32 149

plain_decodes : decode toy_crypto plain_wire (some key) ≡ ok plain
unfolding decode decode_frame decode_header parse_type type_of_value u32_at of_u32_be unknown_flags
    eqb verify_crc crc_of verify_mac_if verify_mac sign
plain_decodes = refl

abbrev before : UdpServer
before = server (peer [] (pos 6) 7) 0 []

abbrev seen : Peer
seen = peer ((7, plain_wire) ∷ []) (pos 7) 8

abbrev after : UdpServer
after = server seen 1 ((40, plain_wire) ∷ [])

plain_answered : on_datagram toy_crypto toy_json plain_wire 40 fresh before ≡ (after, ok tt)
unfolding on_datagram on_decoded answer execute find_peer set_peer peer_or_new get find put store
    evict remove on_frame dispatch dispatch_in dispatch_ready on_data reply_with make_frame next_seq
    acks_for after_frame conclude send encode_all catch is_over encode pack_header type_value u32_be
    crc_of sign unknown_flags
plain_answered = ap (λ r. on_decoded toy_crypto toy_json r 40 fresh before) plain_decodes ∙ executed
  where
    executed : on_decoded toy_crypto toy_json (ok plain) 40 fresh before ≡ (after, ok tt)
    executed = refl

retransmission_example :
    (bytes : Bytes) × (after.sent ≡ send 40 bytes [])
    × (on_datagram toy_crypto toy_json plain_wire 40 fresh after
        ≡ (record after { duplicates = 1; sent = send 40 bytes after.sent }, ok tt))
unfolding find_peer
retransmission_example =
    retransmission toy_crypto toy_json plain_wire plain_wire 40 fresh fresh plain plain before after
      seen plain_decodes plain_answered refl (omega arith) plain_decodes refl

abbrev forged : Bytes
forged = 0x57 ∷ 0x49 ∷ []

forged_fails : (f : Frame) → encode toy_crypto f key ≢ ok forged
unfolding decode
forged_fails f e =
    absurd (ground (arith, decode-encode toy_crypto toy_crypto-IsDigest f key forged e))

forged_ignored_example : on_datagram toy_crypto toy_json forged 40 fresh before ≡ (before, ok tt)
forged_ignored_example =
    forged_ignored toy_crypto toy_json forged 40 fresh before (omega arith) forged_fails
