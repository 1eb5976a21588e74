-- ===== src/Udp/Link/Closing.antt =====
-- How a session of `UdpServer` (src/wireline/transport/udp.py) ends on a BYE, known or new.
use wireline.Base.Text.{Text}
use wireline.Base.{some, ℕ, zero, suc, ◌+◌, ◌%◌, ◌^◌, ◌≡◌, refl, true, [], ◌∷◌, arith}
use wireline.Base.Bytes.{Bytes}
use wireline.Base.Int.{◌<ℤ◌, pos, negsuc}
use wireline.Errors.{describe, ok, err_state}
use wireline.Codec.{Crypto, Frame, bye, ack, error}
use wireline.Messages.{Json, encode_ack, encode_error}
use wireline.Session.{
  closed, ServerSession, Reaction, new_session, ready, ack_frame, on_frame, next_seq, make_frame,
  dispatch, dispatch_in, dispatch_new, dispatch_ready, on_bye, error_reaction, catch, is_over,
}
use wireline.Session.Texts.{not_allowed, peer_said_bye}
use wireline.Session.Echo.{ahead_leb}
use wireline.Udp.Server.{
  Peer, UdpServer, Fresh, set_peer, delete_peer, send, execute, acks_for, after_frame, conclude,
  encode_all,
}
use wireline.Udp.Client.Requests.{flags_of}

module _ (crypto : Crypto) (json : Json) (seq : ℕ) where
  abbrev pub bye_frame : ℕ → Frame
  bye_frame attempt = record { msg_type = bye; seq = seq; payload = []; flags = flags_of attempt }

  -- The ACK in front of each answer
  abbrev pub acknowledges : ServerSession → Frame
  acknowledges s = record {
    msg_type = ack;
    seq = s.out_seq;
    payload = encode_ack json seq;
    flags = 0;
  }

  abbrev pub acknowledged : ServerSession → ServerSession
  acknowledged s = record s { out_seq = (s.out_seq + 1) % 2 ^ 32 }

  abbrev pub farewell_frame : ServerSession → Frame
  farewell_frame s = record {
    msg_type = bye;
    seq = (s.out_seq + 1) % 2 ^ 32;
    payload = [];
    flags = 0;
  }

  -- What a session that is new answers to a BYE
  abbrev pub refusal_frame : Frame
  refusal_frame = record {
    msg_type = error;
    seq = 1;
    payload = encode_error json err_state (not_allowed bye);
    flags = 0;
  }

  acks_for_bye :
      (attempt : ℕ) (s : ServerSession)
      → acks_for crypto json (bye_frame attempt) s ≡ (acknowledges s ∷ [], acknowledged s)
  unfolding acks_for flags_of ack_frame make_frame next_seq
  acks_for_bye zero s = refl
  acks_for_bye (suc attempt) s = refl

  abbrev pub saying_bye : ServerSession → Reaction
  saying_bye s = record {
    frames = farewell_frame s ∷ [];
    close = true;
    reason = some peer_said_bye;
  }

  abbrev pub over : ServerSession → ServerSession
  over s = record s {
    last_peer_seq = pos seq;
    state = closed;
    out_seq = ((s.out_seq + 1) % 2 ^ 32 + 1) % 2 ^ 32;
  }

  pub farewell :
      (attempt : ℕ) (fresh : Text) (s : ServerSession)
      → s.state ≡ ready
      → s.last_peer_seq <ℤ pos seq
      → on_frame json (bye_frame attempt) fresh (acknowledged s) ≡ (ok (saying_bye s), over s)
  unfolding on_frame dispatch dispatch_in dispatch_ready on_bye make_frame next_seq catch is_over
  farewell attempt fresh s r h = rw (r, ahead_leb s.last_peer_seq seq h) refl

  abbrev pub refusing : Reaction
  refusing = record {
    frames = refusal_frame ∷ [];
    close = true;
    reason = some (describe err_state (not_allowed bye));
  }

  pub refusal :
      (attempt : ℕ) (fresh session_id : Text)
      → on_frame json (bye_frame attempt) fresh (acknowledged (new_session session_id))
        ≡ (ok refusing, over (new_session session_id))
  unfolding on_frame dispatch dispatch_in dispatch_new error_reaction make_frame next_seq catch
      is_over
  refusal attempt fresh session_id = rw (ahead_leb (negsuc 0) seq (omega arith)) refl

  -- A peer whose session closes on a frame is deleted, and its window with it.
  pub closed_lem :
      (attempt addr : ℕ) (fresh : Fresh) (p : Peer) (f : Frame) (raw : Bytes) (u : UdpServer)
      (r : Reaction) (s' : ServerSession)
      → on_frame json (bye_frame attempt) fresh.nonce (acknowledged p.session) ≡ (ok r, s')
      → r.close ≡ true
      → r.frames ≡ f ∷ []
      → encode_all crypto json (acknowledges p.session ∷ f ∷ []) u.secret ≡ ok raw
      → execute crypto json (bye_frame attempt) addr fresh p u ≡ (
        record u {
          handled = u.handled + 1;
          sent = send addr raw u.sent;
          peers = delete_peer addr (set_peer addr (record p { session = s' }) u.peers);
        },
        ok tt,
      )
  unfolding execute after_frame conclude
  closed_lem attempt addr fresh p f raw u r s' q closes answers e =
      rw (acks_for_bye attempt p.session, q, closes, answers, e) refl
