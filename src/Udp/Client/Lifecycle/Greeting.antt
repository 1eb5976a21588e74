-- ===== src/Udp/Client/Lifecycle/Greeting.antt =====
-- The handshake of a `UdpClient` with a `UdpServer` that does not know it yet
-- (src/wireline/transport/udp.py), each reading what the other sends.
use wireline.Session.Echo.{ahead_leb}
use wireline.Udp.Server.Peers.{find_peer-set_peer}
use wireline.Udp.Client.{await_reply}
use wireline.Udp.Client.Requests.{
  arrived, transmit, attempts, UdpClient, attempt_once, conclude_wait, flags_of, to_come,
}
use wireline.Codec.RoundTrip.{decode-encode}
use wireline.Udp.Window.{find, put, new_window}
use wireline.Messages.RoundTrip.{decode_hello-encode_hello}
use wireline.Session.{
  reply, catch, welcome, next_seq, ready, dispatch, ServerSession, ack_frame, dispatch_in,
  dispatch_new, is_over, make_frame, new_session, on_frame, on_hello, reply_with,
}
use wireline.Messages.{
  Json, ReadsBack, encode_ack, encode_hello, encode_hello_ack, hello_object, nonce_or,
}
use wireline.Errors.{ok}
use wireline.Base.Int.{pos, negsuc}
use wireline.Base.Text.{Text}
use wireline.Base.Bytes.{Bytes}
use wireline.Base.{
  zero, suc, ◌<◌, List, ◌++◌, ap, ◌∙◌, ◌+◌, ℕ, refl, arith, none, some, [], ◌∷◌, ◌≡◌,
}
use wireline.Codec.{encode, Crypto, IsDigest, Frame, hello, hello_ack, ack}
use wireline.Udp.Server.{
  answer, find_peer, on_datagram, on_decoded, peer_or_new, send, conclude, execute, acks_for,
  after_frame, UdpServer, Fresh, set_peer, Peer, new_peer, encode_all,
}

module _ (crypto : Crypto) (json : Json) (d : IsDigest crypto) (fresh : Fresh)
    (client_id nonce : Text) (seq : ℕ) where
  abbrev pub hello_frame : Frame
  hello_frame = record {
    msg_type = hello;
    seq = seq;
    payload = encode_hello json client_id none nonce;
    flags = 1;
  }

  abbrev pub acknowledgement : Frame
  acknowledgement = record { msg_type = ack; seq = 0; payload = encode_ack json seq; flags = 0 }

  abbrev pub welcome_frame : Frame
  welcome_frame = record {
    msg_type = hello_ack;
    seq = 1;
    payload = encode_hello_ack json fresh.session_id none fresh.nonce;
    flags = 0;
  }

  abbrev pub welcomed_session : ServerSession
  welcomed_session = record (new_session fresh.session_id) {
    client_id = some client_id;
    peer_nonce = some (nonce_or none nonce);
    state = ready;
    out_seq = 2;
    last_peer_seq = pos seq;
  }

  greeted_frame :
      ReadsBack json (hello_object client_id (nonce_or none nonce))
      → on_frame json hello_frame fresh.nonce
          (record (new_session fresh.session_id) { out_seq = 1 })
        ≡ (ok (reply welcome_frame), welcomed_session)
  unfolding on_frame dispatch dispatch_in dispatch_new on_hello welcome reply_with make_frame
      next_seq catch is_over
  greeted_frame back =
      rw
        (
          ahead_leb (negsuc 0) seq (omega arith),
          decode_hello-encode_hello json client_id none nonce back,
        )
        refl

  -- The session does not see the ACK in front, which has taken the number 0.
  module _ (addr : ℕ) (u : UdpServer) (raw : Bytes)
      (hello_known : ReadsBack json (hello_object client_id (nonce_or none nonce)))
      (e : encode_all crypto json (acknowledgement ∷ welcome_frame ∷ []) u.secret ≡ ok raw) where
    abbrev pub kept_peer : Peer
    kept_peer = record { session = welcomed_session; dedup = put seq raw (new_window u.dedup_size) }

    abbrev early_peer : Peer
    early_peer = record { session = welcomed_session; dedup = new_window u.dedup_size }

    executed : execute crypto json hello_frame addr fresh (new_peer fresh u.dedup_size) u ≡ (
      record u {
        handled = u.handled + 1;
        sent = send addr raw u.sent;
        peers = set_peer addr kept_peer (set_peer addr early_peer u.peers);
      },
      ok tt,
    )
    unfolding execute acks_for ack_frame make_frame next_seq after_frame conclude
    executed = rw (greeted_frame hello_known, e) refl

    abbrev with_peer : UdpServer
    with_peer = record u { peers = set_peer addr (new_peer fresh u.dedup_size) u.peers }

    decoded :
        find_peer addr u.peers ≡ none
        → on_decoded crypto json (ok hello_frame) addr fresh u
          ≡ execute crypto json hello_frame addr fresh (new_peer fresh u.dedup_size) with_peer
    unfolding on_decoded peer_or_new answer wireline.Udp.Window.get find
    decoded h = rw h refl

  module _ (addr : ℕ) (u : UdpServer) (hello_raw raw : Bytes)
      (hello_known : ReadsBack json (hello_object client_id (nonce_or none nonce)))
      (s : encode crypto hello_frame u.secret ≡ ok hello_raw)
      (e : encode_all crypto json (acknowledgement ∷ welcome_frame ∷ []) u.secret ≡ ok raw)
      (stranger : find_peer addr u.peers ≡ none) where
    received : on_datagram crypto json hello_raw addr fresh u ≡ (
      record (with_peer addr u raw hello_known e) {
        handled = u.handled + 1;
        sent = send addr raw u.sent;
        peers = set_peer addr (kept_peer addr u raw hello_known e) (
            set_peer addr
              (early_peer addr u raw hello_known e)
              (with_peer addr u raw hello_known e).peers);
      },
      ok tt,
    )
    unfolding on_datagram
    received =
        ap (λ r. on_decoded crypto json r addr fresh u)
          (decode-encode crypto d hello_frame u.secret hello_raw s)
        ∙ decoded addr u raw hello_known e stranger
        ∙ executed addr (with_peer addr u raw hello_known e) raw hello_known e

    pub served :
        ((on_datagram crypto json hello_raw addr fresh u).0.sent ≡ send addr raw u.sent)
        × (find_peer addr (on_datagram crypto json hello_raw addr fresh u).0.peers
            ≡ some (kept_peer addr u raw hello_known e))
        × ((on_datagram crypto json hello_raw addr fresh u).0.secret ≡ u.secret)
        × ((on_datagram crypto json hello_raw addr fresh u).0.handled ≡ u.handled + 1)
        × ((on_datagram crypto json hello_raw addr fresh u).0.duplicates ≡ u.duplicates)
    served = (
      ap (λ o. o.0.sent) received,
      ap (λ o. find_peer addr o.0.peers) received ∙ find_peer-set_peer addr _ _,
      ap (λ o. o.0.secret) received,
      ap (λ o. o.0.handled) received,
      ap (λ o. o.0.duplicates) received,
    )

  -- The first attempt of a request whose answer is among the datagrams that come before its timeout.
  module _ (c : UdpClient) (payload : Bytes) (raw sent_raw : Bytes) (f : Frame)
      (stale later : List Bytes) (arrivals : List (List Bytes))
      (answered : await_reply crypto json c.secret seq (c.queue ++ (stale ++ raw ∷ later))
        ≡ (some (ok f), later))
      (s : encode crypto
          (record { msg_type = hello; seq = seq; payload = payload; flags = 1 })
          c.secret
        ≡ ok sent_raw) where
    pub first_attempt :
        (left : ℕ)
        → 0 < left
        → attempts crypto json left 0 hello payload seq ((stale ++ raw ∷ later) ∷ arrivals) c
          ≡ (record c { sent = c.sent ++ sent_raw ∷ []; queue = later }, ok f)
    unfolding attempts attempt_once transmit conclude_wait arrived to_come flags_of
    first_attempt zero h = absurd (omega arith)
    first_attempt (suc left) h = rw (s, answered) refl
