-- ===== src/Udp/Link/Delivery.antt =====
-- What `UdpServer._on_datagram` (src/wireline/transport/udp.py) does with the copies of a DATA request
-- of a READY peer.
use wireline.Base.{ℕ, zero, suc, ◌+◌, ◌%◌, ◌^◌, ◌≡◌, refl, [], ◌∷◌}
use wireline.Base.Bytes.{Bytes}
use wireline.Base.Int.{◌<ℤ◌, pos}
use wireline.Errors.{ok}
use wireline.Codec.{Crypto, Frame, data_msg, ack}
use wireline.Messages.{Json, encode_ack}
use wireline.Session.{ServerSession, ready, ack_frame, next_seq, make_frame}
use wireline.Session.Echo.{on_data_frame}
use wireline.Udp.Window.{put}
use wireline.Udp.Server.{
  Peer, UdpServer, Fresh, set_peer, send, execute, acks_for, after_frame, conclude, encode_all,
}
use wireline.Udp.Client.Requests.{flags_of}

module _ (crypto : Crypto) (json : Json) (addr seq : ℕ) (payload : Bytes) where
  abbrev pub request_frame : ℕ → Frame
  request_frame attempt = record {
    msg_type = data_msg;
    seq = seq;
    payload = payload;
    flags = flags_of attempt;
  }

  abbrev pub acknowledging : ServerSession → Frame
  acknowledging s = record {
    msg_type = ack;
    seq = s.out_seq;
    payload = encode_ack json seq;
    flags = 0;
  }

  abbrev pub echoing : ServerSession → Frame
  echoing s = record {
    msg_type = data_msg;
    seq = (s.out_seq + 1) % 2 ^ 32;
    payload = payload;
    flags = 0;
  }

  abbrev pub session_after : ServerSession → ServerSession
  session_after s = record s {
    last_peer_seq = pos seq;
    out_seq = ((s.out_seq + 1) % 2 ^ 32 + 1) % 2 ^ 32;
  }

  acks_for_attempt :
      (attempt : ℕ) (s : ServerSession)
      → acks_for crypto json (request_frame attempt) s
        ≡ (acknowledging s ∷ [], record s { out_seq = (s.out_seq + 1) % 2 ^ 32 })
  unfolding acks_for flags_of ack_frame make_frame next_seq
  acks_for_attempt zero s = refl
  acks_for_attempt (suc attempt) s = refl

  module _ (p : Peer) (reply_raw : Bytes) where
    abbrev pub peer_after : Peer
    peer_after = record { session = session_after p.session; dedup = put seq reply_raw p.dedup }

    pub executed :
        (attempt : ℕ) (fresh : Fresh) (u : UdpServer)
        → p.session.state ≡ ready
        → p.session.last_peer_seq <ℤ pos seq
        → encode_all crypto json (acknowledging p.session ∷ echoing p.session ∷ []) u.secret
          ≡ ok reply_raw
        → execute crypto json (request_frame attempt) addr fresh p u ≡ (
          record u {
            handled = u.handled + 1;
            sent = send addr reply_raw u.sent;
            peers =
                set_peer addr peer_after
                  (set_peer addr (record p { session = session_after p.session }) u.peers);
          },
          ok tt,
        )
    unfolding execute after_frame conclude
    executed attempt fresh u r before e =
        rw
          (
            acks_for_attempt attempt p.session,
            on_data_frame json fresh.nonce (request_frame attempt)
                (record p.session { out_seq = (p.session.out_seq + 1) % 2 ^ 32 }) refl r before,
            e,
          )
          refl
