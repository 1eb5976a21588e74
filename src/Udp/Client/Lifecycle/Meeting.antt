-- ===== src/Udp/Client/Lifecycle/Meeting.antt =====
-- `UdpClient.connect` against a `UdpServer` that does not know the client yet
-- (src/wireline/transport/udp.py).
use wireline.Session.{handshake}
use wireline.Udp.Client.Lifecycle.{adopt, greet, connect, check_reply}
use wireline.Udp.Client.Answers.{Dropped, await_reply-encode_all}
use wireline.Udp.Client.{is_error, last_frame, reply_of, await_reply}
use wireline.Udp.Client.Requests.{request, UdpClient}
use wireline.Messages.RoundTrip.{decode_hello_ack-encode_hello_ack}
use wireline.Session.{ready}
use wireline.Messages.{
  ack_object, hello_ack_object, Json, ReadsBack, encode_hello, hello_object, nonce_or,
}
use wireline.Errors.{Result, ok}
use wireline.Base.Text.{Text}
use wireline.Base.Bytes.{Bytes}
use wireline.Base.{
  ◌%◌, ◌^◌, true, List, ◌++◌, ap, ◌∙◌, ◌+◌, ℕ, refl, arith, none, some, [], ◌∷◌, ◌≡◌,
}
use wireline.Codec.{encode, Crypto, IsDigest}
use wireline.Udp.Server.{find_peer, on_datagram, UdpServer, Fresh, encode_all}
use wireline.Udp.Client.Lifecycle.Greeting.{
  hello_frame, acknowledgement, welcome_frame, first_attempt,
}

module _ (crypto : Crypto) (json : Json) (d : IsDigest crypto) (fresh : Fresh) (nonce : Text)
    (c : UdpClient) (addr : ℕ) (u : UdpServer) (hello_raw raw : Bytes) (stale later : List Bytes)
    (arrivals : List (List Bytes)) where
  -- A client without queued datagrams, a server with the same secret that does not know its address,
  -- payloads that the JSON module reads back, and frames that can be encoded.
  pub record Meeting : Type 0 where
    pub same_secret : c.secret ≡ u.secret
    pub quiet : c.queue ≡ []
    pub stranger : find_peer addr u.peers ≡ none
    pub hello_known : ReadsBack json (hello_object c.client_id (nonce_or none nonce))
    pub welcome_known :
        ReadsBack json (hello_ack_object fresh.session_id (nonce_or none fresh.nonce))
    pub ack_known : ReadsBack json (ack_object c.out_seq)
    pub asked :
        encode crypto (hello_frame crypto json d fresh c.client_id nonce c.out_seq) u.secret
        ≡ ok hello_raw
    pub answered :
        encode_all crypto json
          (acknowledgement crypto json d fresh c.client_id nonce c.out_seq
            ∷ welcome_frame crypto json d fresh c.client_id nonce c.out_seq
            ∷ [])
          u.secret
        ≡ ok raw
    pub dropped : Dropped crypto json c.secret c.out_seq stale

  abbrev pub connecting : UdpClient × Result (Unit {0})
  connecting = connect crypto json nonce ((stale ++ raw ∷ later) ∷ arrivals) c

  abbrev pub serving : UdpServer
  serving = (on_datagram crypto json hello_raw addr fresh u).0

  module _ (m : Meeting) where
    answer_found :
        await_reply crypto json c.secret c.out_seq (c.queue ++ (stale ++ raw ∷ later))
        ≡ (some (ok (welcome_frame crypto json d fresh c.client_id nonce c.out_seq)), later)
    unfolding reply_of is_error last_frame
    answer_found =
        ap (λ q. await_reply crypto json c.secret c.out_seq (q ++ (stale ++ raw ∷ later))) m.quiet
        ∙ await_reply-encode_all crypto json c.secret d c.out_seq stale later _ _ raw m.dropped
            m.ack_known refl refl (ap (encode_all crypto json _) m.same_secret ∙ m.answered)

    abbrev pub connected : UdpClient
    connected = record c {
      is_open = true;
      state = ready;
      session_id = some fresh.session_id;
      out_seq = (c.out_seq + 1) % 2 ^ 32;
      sent = c.sent ++ hello_raw ∷ [];
      queue = later;
    }

    pub connecting_lem : connecting ≡ (connected, ok tt)
    unfolding connect request greet check_reply adopt
    connecting_lem =
        ap (greet json) (
          first_attempt crypto json d fresh c.client_id nonce c.out_seq
            (record c { is_open = true; state = handshake; out_seq = (c.out_seq + 1) % 2 ^ 32 })
            (encode_hello json c.client_id none nonce) raw hello_raw
            (welcome_frame crypto json d fresh c.client_id nonce c.out_seq) stale later arrivals
            answer_found (ap (encode crypto _) m.same_secret ∙ m.asked) (c.max_retries + 1)
            (omega arith))
        ∙ ap
            (λ r. adopt r (record c {
              is_open = true;
              state = handshake;
              out_seq = (c.out_seq + 1) % 2 ^ 32;
              sent = c.sent ++ hello_raw ∷ [];
              queue = later;
            }))
            (decode_hello_ack-encode_hello_ack json fresh.session_id none fresh.nonce
              m.welcome_known)
