-- ===== src/Client/Handshakes.antt =====
-- The handshake of a `WirelineClient` (src/wireline/client.py) with a new connection of a
-- `WirelineServer` (src/wireline/server.py), and the conversation after it.
use wireline.Session.Echo.{ahead_leb}
use wireline.Codec.Encoding.{wire_of}
use wireline.Session.{
  reply, catch, welcome, dispatch, ServerSession, dispatch_in, dispatch_new, is_over, make_frame,
  new_session, on_frame, on_hello, reply_with,
}
use wireline.Messages.{
  Json, ReadsBack, encode_hello, encode_hello_ack, hello_ack_object, hello_object, nonce_or,
}
use wireline.Client.Pairing.{
  recv-behind, recv-ahead, send-wire_of, reading, serve, IsPaired, reading-wire_of, serve-reply,
}
use wireline.Server.{Connection}
use wireline.Codec.{Crypto, IsDigest, Frame, hello, hello_ack}
use wireline.Errors.{Result, fail, err_seq, ok}
use wireline.Base.Int.{leb_ℤ, negsuc, pos}
use wireline.Base.Text.{Text}
use wireline.Base.Bytes.{Bytes}
use wireline.Base.{
  le→leb, ℕ, ◌+◌, ◌%◌, List, subst, some, [], ◌∷◌, ◌++◌, append-nil, length, refl, arith, ◌≡◌, ◌^◌,
  ◌<◌, ◌≤◌, none, true, ap, sym, ◌∙◌, All, map,
}
use wireline.Framing.Chunks.{concat}
use wireline.Client.{
  handshake, replayed_seq, flushed, next_seq, ready, WirelineClient, Step, connect, do_handshake,
  greeted, welcomed, and_then, recv,
}
use wireline.Client.Talks.{talk, talk_echoes, Short}
use wireline.Messages.RoundTrip.{decode_hello-encode_hello, decode_hello_ack-encode_hello_ack}

module _ (crypto : Crypto) (secret : Bytes) (json : Json) (nonce session_id fresh : Text)
    (c : WirelineClient) where
  abbrev pub hello_payload : Bytes
  hello_payload = encode_hello json c.client_id none nonce

  abbrev pub ack_payload : Bytes
  ack_payload = encode_hello_ack json session_id none fresh

  abbrev pub hello_frame : Frame
  hello_frame = record { msg_type = hello; seq = c.out_seq; payload = hello_payload; flags = 0 }

  abbrev pub answer_frame : Frame
  answer_frame = record { msg_type = hello_ack; seq = 0; payload = ack_payload; flags = 0 }

  -- The bytes that the server reads first
  abbrev pub hello_wire : Bytes
  hello_wire = wire_of crypto hello_frame secret

  -- The server's side of a new connection when it has read them, and what `connect` does.
  abbrev pub welcoming : Connection
  welcoming =
      serve crypto secret json fresh (reading crypto secret hello_wire) (new_session session_id)

  abbrev pub connecting : Step (Unit {0})
  connecting =
      connect crypto secret json nonce flushed (reading crypto secret (concat welcoming.written)) c

  -- The payloads sent after the handshake
  abbrev pub talking : List Bytes → List (Result Bytes) × List Bytes × WirelineClient
  talking ps = talk crypto secret json fresh ps connecting.1 welcoming.session

  -- The JSON library reads the two payloads back, and they fit into frames.
  pub record Sound : Type 0 where
    pub digest : IsDigest crypto
    pub hello_back : ReadsBack json (hello_object c.client_id (nonce_or none nonce))
    pub ack_back : ReadsBack json (hello_ack_object session_id (nonce_or none fresh))
    pub hello_fits : length hello_payload ≤ 2 ^ 20
    pub ack_fits : length ack_payload ≤ 2 ^ 20
    pub numbered : c.out_seq < 2 ^ 32

  module _ (sound : Sound) where
    abbrev pub welcomed_session : ServerSession
    welcomed_session = record (new_session session_id) {
      client_id = some c.client_id;
      peer_nonce = some (nonce_or none nonce);
      state = ready;
      out_seq = 1;
      last_peer_seq = pos c.out_seq;
    }

    on_hello_frame :
        on_frame json hello_frame fresh (new_session session_id)
        ≡ (ok (reply answer_frame), welcomed_session)
    unfolding on_frame dispatch dispatch_in dispatch_new on_hello welcome reply_with make_frame
        next_seq catch is_over
    on_hello_frame =
        rw
          (
            ahead_leb (negsuc 0) c.out_seq (omega arith),
            decode_hello-encode_hello json c.client_id none nonce sound.hello_back,
          )
          refl

    pub welcoming_lem : welcoming ≡ record {
      session = welcomed_session;
      written = wire_of crypto answer_frame secret ∷ [];
      ended = none;
    }
    welcoming_lem =
        ap (λ r. serve crypto secret json fresh r (new_session session_id))
          (reading-wire_of crypto secret sound.digest hello_frame
            (record { fits = sound.hello_fits; in_range = sound.numbered; known = omega arith }))
        ∙ serve-reply crypto secret json fresh hello_frame answer_frame (new_session session_id)
            welcomed_session (unfold is_over in refl) on_hello_frame
            (record { fits = sound.ack_fits; in_range = omega arith; known = omega arith })
            (unfold is_over in refl)

    ack_read : reading crypto secret (concat welcoming.written) ≡ ok answer_frame
    unfolding concat
    ack_read =
        ap (λ o. reading crypto secret (concat (Connection.written o))) welcoming_lem
        ∙ ap (reading crypto secret) (append-nil (wire_of crypto answer_frame secret))
        ∙ reading-wire_of crypto secret sound.digest answer_frame
            (record { fits = sound.ack_fits; in_range = omega arith; known = omega arith })

    -- The client when it has sent its HELLO.
    abbrev pub greeting_client : WirelineClient
    greeting_client = record c {
      connected = true;
      written = wire_of crypto hello_frame secret ∷ [];
      out_seq = (c.out_seq + 1) % 2 ^ 32;
      state = handshake;
    }

    connecting-recv :
        connecting
        ≡ and_then
            (recv (ok answer_frame) greeting_client)
            (λ frame c'. greeted json frame.msg_type frame.payload c')
    unfolding connect do_handshake and_then
    connecting-recv =
        ap (λ r. connect crypto secret json nonce flushed r c) ack_read
        ∙ ap
            (λ o. and_then o (λ _ c'.
              and_then (recv (ok answer_frame) (record c' { state = handshake }))
                (λ frame c''. greeted json frame.msg_type frame.payload c'')))
            (send-wire_of crypto secret hello hello_payload
              (record c { connected = true; written = [] }) refl sound.numbered sound.hello_fits)

    abbrev pub connected_client : WirelineClient
    connected_client = record greeting_client {
      last_peer_seq = pos 0;
      state = ready;
      session_id = some session_id;
    }

    pub connecting_lem : c.last_peer_seq ≡ negsuc 0 → connecting ≡ (ok tt, connected_client)
    unfolding and_then greeted welcomed
    connecting_lem e =
        connecting-recv
        ∙ ap (λ o. and_then o (λ frame c'. greeted json frame.msg_type frame.payload c'))
            (recv-ahead crypto secret answer_frame greeting_client refl (rw e (omega arith)))
        ∙ ap (λ r. welcomed r (record greeting_client { last_peer_seq = pos 0 }))
            (decode_hello_ack-encode_hello_ack json session_id none fresh sound.ack_back)

    paired : c.out_seq + 1 < 2 ^ 32 → IsPaired connected_client welcomed_session
    paired h = record {
      client_ready = refl;
      connected = refl;
      server_ready = refl;
      client_ahead = omega arith;
      server_ahead = omega arith;
    }

    -- If a client that has accepted no frame yet connects to a new connection of the server, which
    -- reads the bytes `hello_wire` and whose answer the client reads, then these bytes are all that
    -- the client has written, and `connect` returns; the client knows the id of that
    -- session and the session the id of that client; both are READY, and each numbers its next
    -- frame above all that the other has accepted. The JSON module reads back the two payloads,
    -- they fit into frames, a digest has 32 bytes, and the next number of the client is below
    -- 2 ^ 32 - 1.
    pub connect_agrees :
        c.last_peer_seq ≡ negsuc 0
        → c.out_seq + 1 < 2 ^ 32
        → (connecting.1.written ≡ hello_wire ∷ [])
          × (connecting.0 ≡ ok tt)
          × (connecting.1.session_id ≡ some session_id)
          × (welcoming.session.client_id ≡ some c.client_id)
          × IsPaired connecting.1 welcoming.session
    connect_agrees e h =
        let q = connecting_lem e in
        (
          ap (λ o. o.1.written) q,
          ap (λ o. o.0) q,
          ap (λ o. o.1.session_id) q,
          ap (λ o. o.session.client_id) welcoming_lem,
          subst (λ c'. IsPaired c' welcoming.session) (ap (λ o. o.1) (sym q))
              (subst (IsPaired connected_client) (ap Connection.session (sym welcoming_lem))
                (paired h)),
        )

    -- After such a handshake `send_data` returns each of the payloads that it is given one after
    -- the other, unchanged, for as many payloads of at most 2 ^ 20 bytes as there are sequence
    -- numbers left below 2 ^ 32; and all that the client has written by then is what the server has
    -- read, the HELLO and the bytes for each payload, in this order.
    pub connected_talk :
        (ps : List Bytes)
        → c.last_peer_seq ≡ negsuc 0
        → c.out_seq + 1 + length ps < 2 ^ 32
        → All (Short crypto secret json fresh) ps
        → ((talking ps).0 ≡ map ok ps) × ((talking ps).2.written ≡ hello_wire ∷ (talking ps).1)
    connected_talk ps e h a =
        let q = connecting_lem e in
        let (_, _, _, _, v) = connect_agrees e (omega arith) in
        let (echoes, wrote) =
          talk_echoes crypto secret json fresh sound.digest ps connecting.1 welcoming.session v
            (omega (arith, ap (λ o. o.1.out_seq) q, h))
            (omega (arith, ap (λ o. o.session.out_seq) welcoming_lem, h)) a in
        (echoes, wrote ∙ ap (λ o. o.1.written ++ (talking ps).1) q)

    refused_again :
        (n : ℕ)
        → c.last_peer_seq ≡ pos n
        → connecting ≡ (fail err_seq (replayed_seq 0), greeting_client)
    refused_again n e =
        connecting-recv
        ∙ ap (λ o. and_then o (λ frame c'. greeted json frame.msg_type frame.payload c'))
            (recv-behind crypto secret answer_frame greeting_client refl
              (ap (leb_ℤ (pos 0)) e ∙ le→leb 0 (n + 0) (omega arith)))
        ∙ unfold and_then in refl

    -- If a client that has accepted a frame before connects to a new connection of the server,
    -- which reads the bytes `hello_wire` and whose answer the client reads, then these bytes are all
    -- that the client has written, `connect` raises ERR_SEQ about number 0, and the client stays in
    -- HANDSHAKE, while the session is READY. The JSON module reads back the two
    -- payloads, they fit into frames, a digest has 32 bytes, and the next number of the client is
    -- below 2 ^ 32.
    pub connect_again :
        (n : ℕ)
        → c.last_peer_seq ≡ pos n
        → (connecting.1.written ≡ hello_wire ∷ [])
          × (welcoming.session.state ≡ ready)
          × (connecting.0 ≡ fail err_seq (replayed_seq 0))
          × (connecting.1.state ≡ handshake)
    connect_again n e = (
      ap (λ o. o.1.written) (refused_again n e),
      ap (λ o. o.session.state) welcoming_lem,
      ap (λ o. o.0) (refused_again n e),
      ap (λ o. o.1.state) (refused_again n e),
    )
