-- ===== src/Udp/Link/Repeated.antt =====
-- A copy of a BYE that `UdpServer` (src/wireline/transport/udp.py) has answered already.
mod Tests
use wireline.Udp.Link.Closing.{
  bye_frame, acknowledges, farewell_frame, refusal_frame, saying_bye, over, farewell, refusing,
  refusal, closed_lem,
}
use wireline.Udp.Link.Served.{send-encode_all}
use wireline.Udp.Client.Answers.{await_reply-encode_all}
use wireline.Udp.Client.{await_reply, reply_of, is_error, last_frame}
use wireline.Messages.RoundTrip.{decode_error-encode_error}
use wireline.Udp.Window.{get, find}
use wireline.Udp.Server.Peers.{find_peer-delete_peer}
use wireline.Codec.RoundTrip.{decode-encode}
use wireline.Codec.Encoding.{IsEncodable, encode-IsEncodable, wire_of}
use wireline.Base.{
  sym, ◌++◌, ◌<◌, ap, ◌∙◌, none, some, ℕ, zero, suc, ◌+◌, ◌^◌, ◌≡◌, refl, [], ◌∷◌, arith,
}
use wireline.Base.Bytes.{Bytes}
use wireline.Base.Int.{◌<ℤ◌, pos}
use wireline.Errors.{raise, protocol_error, ok, err_state}
use wireline.Codec.{encode, IsDigest, Crypto, bye}
use wireline.Messages.{ReadsBack, ack_object, error_object, Json}
use wireline.Session.{new_session, ready}
use wireline.Session.Texts.{not_allowed}
use wireline.Udp.Server.{
  answer, find_peer, new_peer, on_datagram, on_decoded, peer_or_new, Peer, UdpServer, Fresh,
  set_peer, delete_peer, send, encode_all,
}
use wireline.Udp.Client.Requests.{flags_of}

module _ (crypto : Crypto) (json : Json) (d : IsDigest crypto) (addr seq : ℕ) (p : Peer)
    (u : UdpServer) (fresh fresh' : Fresh) (farewell_raw refusal_raw : Bytes) where
  -- A READY peer that has not said this BYE, and the two answers.
  pub record SaysBye : Type 0 where
    pub known : find_peer addr u.peers ≡ some p
    pub is_ready : p.session.state ≡ ready
    pub ahead : p.session.last_peer_seq <ℤ pos seq
    pub unseen : get seq p.dedup ≡ none
    pub in_range : seq < 2 ^ 32
    pub first_answer :
        encode_all crypto json
          (acknowledges crypto json seq p.session ∷ farewell_frame crypto json seq p.session ∷ [])
          u.secret
        ≡ ok farewell_raw
    pub second_answer :
        encode_all crypto json
          (acknowledges crypto json seq (new_session fresh'.session_id)
            ∷ refusal_frame crypto json seq
            ∷ [])
          u.secret
        ≡ ok refusal_raw
    pub ack_known : ReadsBack json (ack_object seq)
    pub error_known : ReadsBack json (error_object err_state (not_allowed bye))

  abbrev bye_raw : ℕ → Bytes
  bye_raw attempt = wire_of crypto (bye_frame crypto json seq attempt) u.secret

  abbrev pub once : UdpServer
  once = (on_datagram crypto json (bye_raw 0) addr fresh u).0

  abbrev pub twice : UdpServer
  twice = (on_datagram crypto json (bye_raw 1) addr fresh' once).0

  module _ (h : SaysBye) where
    bye_frame-IsEncodable : (attempt : ℕ) → IsEncodable (bye_frame crypto json seq attempt)
    unfolding flags_of
    bye_frame-IsEncodable zero = record {
      fits = omega arith;
      in_range = h.in_range;
      known = omega arith;
    }
    bye_frame-IsEncodable (suc attempt) = record {
      fits = omega arith;
      in_range = h.in_range;
      known = omega arith;
    }

    reads :
        (attempt : ℕ) (made_up : Fresh) (u' : UdpServer)
        → u'.secret ≡ u.secret
        → on_datagram crypto json (bye_raw attempt) addr made_up u'
          ≡ on_decoded crypto json (ok (bye_frame crypto json seq attempt)) addr made_up u'
    unfolding on_datagram
    reads attempt made_up u' same =
        ap (λ r. on_decoded crypto json r addr made_up u')
          (decode-encode crypto d (bye_frame crypto json seq attempt) u'.secret (bye_raw attempt) (
            ap (encode crypto _) same
            ∙ encode-IsEncodable crypto _ u.secret (bye_frame-IsEncodable attempt)))

    abbrev after_one : UdpServer
    after_one = record u {
      handled = u.handled + 1;
      sent = send addr farewell_raw u.sent;
      peers = delete_peer addr (
          set_peer addr (record p { session = over crypto json seq p.session })
            (set_peer addr p u.peers));
    }

    once_lem : on_datagram crypto json (bye_raw 0) addr fresh u ≡ (after_one, ok tt)
    unfolding on_decoded peer_or_new answer
    once_lem =
        reads 0 fresh u refl
        ∙ rw (h.known, h.unseen) refl
        ∙ closed_lem crypto json seq 0 addr fresh p (farewell_frame crypto json seq p.session)
            farewell_raw (record u { peers = set_peer addr p u.peers })
            (saying_bye crypto json seq p.session) (over crypto json seq p.session)
            (farewell crypto json seq 0 fresh.nonce p.session h.is_ready h.ahead) refl refl
            h.first_answer

    abbrev stranger : Peer
    stranger = new_peer fresh' u.dedup_size

    twice_lem : on_datagram crypto json (bye_raw 1) addr fresh' after_one ≡ (
      record after_one {
        handled = u.handled + 1 + 1;
        sent = send addr refusal_raw after_one.sent;
        peers = delete_peer addr (
            set_peer addr
              (record stranger { session = over crypto json seq stranger.session })
              (set_peer addr stranger after_one.peers));
      },
      ok tt,
    )
    unfolding on_decoded peer_or_new answer get find
    twice_lem =
        reads 1 fresh' after_one refl
        ∙ rw
            (find_peer-delete_peer addr (
              set_peer addr (record p { session = over crypto json seq p.session })
                (set_peer addr p u.peers)))
            refl
        ∙ closed_lem crypto json seq 1 addr fresh' stranger (refusal_frame crypto json seq)
            refusal_raw (record after_one { peers = set_peer addr stranger after_one.peers })
            (refusing crypto json seq) (over crypto json seq stranger.session)
            (refusal crypto json seq 1 fresh'.nonce fresh'.session_id) refl refl h.second_answer

    refused : await_reply crypto json u.secret seq (refusal_raw ∷ []) ≡ (
      some (raise (protocol_error (record { code = err_state; message = not_allowed bye }))),
      [],
    )
    unfolding reply_of is_error last_frame
    refused =
        await_reply-encode_all crypto json u.secret d seq [] [] _ _ refusal_raw tt h.ack_known refl
          refl h.second_answer
        ∙ rw (decode_error-encode_error json err_state (not_allowed bye) h.error_known) refl

  -- A copy of a BYE that the server has answered is not answered from the window: when a session
  -- closes, its peer is deleted with its window, so the copy goes to a new session, is counted as
  -- handled and not as a duplicate, and its answer makes `_await_reply` raise ERR_STATE. The peer is
  -- READY and has not said this BYE before, both answers can be encoded, a digest has 32 bytes, and
  -- the JSON module reads back their payloads.
  pub repeated_bye :
      SaysBye
      → (once.sent ≡ u.sent ++ (addr, farewell_raw) ∷ [])
        × (twice.sent ≡ once.sent ++ (addr, refusal_raw) ∷ [])
        × (twice.handled ≡ u.handled + 2)
        × (twice.duplicates ≡ u.duplicates)
        × (find_peer addr twice.peers ≡ none)
        × (await_reply crypto json u.secret seq (refusal_raw ∷ []) ≡ (
          some (raise (protocol_error (record { code = err_state; message = not_allowed bye }))),
          [],
        ))
  repeated_bye h =
      let e = ap (λ o. o.0) (once_lem h) in
      let e' : twice ≡ _ =
        ap (λ u'. (on_datagram crypto json (bye_raw 1) addr fresh' u').0) e
        ∙ ap (λ o. o.0) (twice_lem h) in
      (
        ap (λ u'. u'.sent) e
            ∙ send-encode_all crypto json d addr _ _ u.secret farewell_raw u.sent h.first_answer,
        ap (λ u'. u'.sent) e'
            ∙ send-encode_all crypto json d addr _ _ u.secret refusal_raw _ h.second_answer
            ∙ ap (λ l. l ++ (addr, refusal_raw) ∷ []) (sym (ap (λ u'. u'.sent) e)),
        ap (λ u'. u'.handled) e' ∙ omega arith,
        ap (λ u'. u'.duplicates) e',
        ap (λ u'. find_peer addr u'.peers) e' ∙ find_peer-delete_peer addr _,
        refused h,
      )
