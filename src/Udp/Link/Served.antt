-- ===== src/Udp/Link/Served.antt =====
-- The state of a `UdpServer` (src/wireline/transport/udp.py) while copies of one DATA request arrive.
use wireline.Base.{
  ℕ, zero, suc, ◌+◌, ◌^◌, ◌<◌, ◌≡◌, refl, ap, ◌∙◌, none, some, List, [], ◌∷◌, ◌++◌, arith,
  append_assoc, length, ◌≤◌,
}
use wireline.Base.Bytes.{Bytes}
use wireline.Base.Int.{◌<ℤ◌, pos}
use wireline.Errors.{ok}
use wireline.Udp.Client.Requests.{flags_of}
use wireline.Codec.{max_payload, Crypto, IsDigest, Frame, encode}
use wireline.Codec.Encoding.{IsEncodable, wire_of, encode-IsEncodable}
use wireline.Codec.RoundTrip.{decode-encode}
use wireline.Messages.{Json}
use wireline.Session.{ready}
use wireline.Udp.Window.{get}
use wireline.Udp.Server.{
  Peer, UdpServer, Fresh, find_peer, set_peer, send, peer_or_new, answer, on_decoded, on_datagram,
  encode_all, replay,
}
use wireline.Udp.Server.Peers.{find_peer-set_peer, get-put_self}
use wireline.Udp.Server.Once.{on_decoded-replays}
use wireline.Udp.Client.Answers.{split_empty, split_datagram-encode_all}
use wireline.Udp.Link.Delivery.{
  request_frame, acknowledging, echoing, session_after, peer_after, executed,
}

-- `n` copies of what was sent
unfoldable pub repeated : ℕ → ℕ × Bytes → List (ℕ × Bytes)
repeated zero x = []
repeated (suc n) x = x ∷ repeated n x

module _ (crypto : Crypto) (json : Json) (d : IsDigest crypto) where
  pub send-encode_all :
      (addr : ℕ) (f : Frame) (fs : List Frame) (secret raw : Bytes) (sent : List (ℕ × Bytes))
      → encode_all crypto json (f ∷ fs) secret ≡ ok raw
      → send addr raw sent ≡ sent ++ (addr, raw) ∷ []
  unfolding send
  send-encode_all addr f fs secret [] sent e = absurd (
      ground (
        arith,
        split_empty crypto json secret,
        split_datagram-encode_all crypto json secret d (f ∷ fs) [] e,
      ))
  send-encode_all addr f fs secret (b ∷ bs) sent e = refl

module _ (crypto : Crypto) (json : Json) (d : IsDigest crypto) (addr seq : ℕ) (payload : Bytes)
    (p : Peer) (reply_raw : Bytes) (u : UdpServer) where
  -- A peer that is READY and has not been asked this, and what it would answer.
  pub record Awaits : Type 0 where
    pub known : find_peer addr u.peers ≡ some p
    pub is_ready : p.session.state ≡ ready
    pub ahead : p.session.last_peer_seq <ℤ pos seq
    pub unseen : get seq p.dedup ≡ none
    pub room : 0 < p.dedup.size
    pub fits : length payload ≤ max_payload
    pub in_range : seq < 2 ^ 32
    pub answered :
        encode_all crypto json
          (acknowledging crypto json addr seq payload p.session
            ∷ echoing crypto json addr seq payload p.session
            ∷ [])
          u.secret
        ≡ ok reply_raw

  -- After one execution and `n` replays.
  pub record Served (n : ℕ) (u' : UdpServer) : Type 0 where
    pub same_secret : u'.secret ≡ u.secret
    pub handled_once : u'.handled ≡ u.handled + 1
    pub replayed : u'.duplicates ≡ u.duplicates + n
    pub remembered :
        find_peer addr u'.peers ≡ some (peer_after crypto json addr seq payload p reply_raw)
    pub sent_same : u'.sent ≡ u.sent ++ repeated (suc n) (addr, reply_raw)

  abbrev pub raw_of : ℕ → Bytes
  raw_of attempt = wire_of crypto (request_frame crypto json addr seq payload attempt) u.secret

  pub request_frame-IsEncodable :
      length payload ≤ max_payload
      → seq < 2 ^ 32
      → (attempt : ℕ) → IsEncodable (request_frame crypto json addr seq payload attempt)
  unfolding flags_of
  request_frame-IsEncodable fits in_range zero = record {
    fits = fits;
    in_range = in_range;
    known = omega arith;
  }
  request_frame-IsEncodable fits in_range (suc attempt) = record {
    fits = fits;
    in_range = in_range;
    known = omega arith;
  }

  module _ (a : Awaits) (attempt : ℕ) (fresh : Fresh) where
    reads :
        (u' : UdpServer)
        → u'.secret ≡ u.secret
        → on_datagram crypto json (raw_of attempt) addr fresh u'
          ≡ on_decoded crypto json
              (ok (request_frame crypto json addr seq payload attempt))
              addr
              fresh
              u'
    unfolding on_datagram
    reads u' same =
        ap (λ r. on_decoded crypto json r addr fresh u')
          (decode-encode crypto d (request_frame crypto json addr seq payload attempt) u'.secret
            (raw_of attempt)
            (ap (encode crypto _) same
              ∙ encode-IsEncodable crypto _ u.secret
                  (request_frame-IsEncodable a.fits a.in_range attempt)))

    pub sends :
        (sent : List (ℕ × Bytes)) → send addr reply_raw sent ≡ sent ++ (addr, reply_raw) ∷ []
    sends sent = send-encode_all crypto json d addr _ _ u.secret reply_raw sent a.answered

    abbrev pub kept : Peer
    kept = peer_after crypto json addr seq payload p reply_raw

    abbrev pub with_peer : UdpServer
    with_peer = record u { peers = set_peer addr p u.peers }

    pub first_lem : on_datagram crypto json (raw_of attempt) addr fresh u ≡ (
      record u {
        handled = u.handled + 1;
        sent = send addr reply_raw u.sent;
        peers = set_peer addr kept (
            set_peer addr
              (record p { session = session_after crypto json addr seq payload p.session })
              with_peer.peers);
      },
      ok tt,
    )
    unfolding on_decoded peer_or_new answer
    first_lem =
        reads u refl
        ∙ rw (a.known, a.unseen) refl
        ∙ executed crypto json addr seq payload p reply_raw attempt fresh with_peer a.is_ready
            a.ahead a.answered

    pub first_delivery : Served 0 (on_datagram crypto json (raw_of attempt) addr fresh u).0
    unfolding repeated
    first_delivery = rw first_lem record {
      same_secret = refl;
      handled_once = refl;
      replayed = omega arith;
      remembered = find_peer-set_peer addr kept _;
      sent_same = sends u.sent;
    }

    pub later_lem :
        (n : ℕ) (u' : UdpServer)
        → Served n u'
        → on_datagram crypto json (raw_of attempt) addr fresh u' ≡ (
          record u' { duplicates = u'.duplicates + 1; sent = u'.sent ++ (addr, reply_raw) ∷ [] },
          ok tt,
        )
    unfolding replay
    later_lem n u' s =
        reads u' s.same_secret
        ∙ on_decoded-replays crypto json (request_frame crypto json addr seq payload attempt) _ addr
            fresh kept u' reply_raw s.remembered (get-put_self seq reply_raw p.dedup a.room)
        ∙ ap (λ l. (record u' { duplicates = u'.duplicates + 1; sent = l }, ok tt)) (sends u'.sent)

    append_repeated :
        (n : ℕ) (x : ℕ × Bytes) (sent : List (ℕ × Bytes))
        → (sent ++ repeated n x) ++ x ∷ [] ≡ sent ++ repeated (suc n) x
    unfolding repeated
    append_repeated zero x sent = append_assoc sent [] (x ∷ [])
    append_repeated (suc n) x sent =
        append_assoc sent (x ∷ repeated n x) (x ∷ [])
        ∙ ap (λ l. sent ++ x ∷ l) (append_repeated n x [])

    pub later_delivery :
        (n : ℕ) (u' : UdpServer)
        → Served n u'
        → Served (suc n) (on_datagram crypto json (raw_of attempt) addr fresh u').0
    later_delivery n u' s = rw (later_lem n u' s) record {
      same_secret = s.same_secret;
      handled_once = s.handled_once;
      replayed = omega (arith, s.replayed);
      remembered = s.remembered;
      sent_same =
          ap (λ l. l ++ (addr, reply_raw) ∷ []) s.sent_same
          ∙ append_repeated (suc n) (addr, reply_raw) u.sent;
    }
