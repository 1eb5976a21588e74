-- ===== src/Client/Pairing.antt =====
-- A `WirelineClient` (src/wireline/client.py) and the connection of `WirelineServer`
-- (src/wireline/server.py) that it talks to: the client reads what the connection writes, and the
-- connection reads bytes that the theorems compare with what the client has written.
use wireline.Session.Echo.{ahead_leb, on_data_frame}
use wireline.Messages.{Json}
use wireline.Base.Text.{Text}
use wireline.Errors.{err_seq, fail, err_state, Result, ok, raise}
use wireline.Base.Int.{leb_ℤ, ◌<ℤ◌, pos}
use wireline.Base.Bytes.{Bytes}
use wireline.Base.{
  if◌then◌else◌, append-nil, ℕ, ◌+◌, ◌%◌, some, [], ◌∷◌, ◌++◌, length, refl, arith, ◌≡◌, ◌^◌, ◌<◌,
  ◌≤◌, none, true, false, ap, ◌∙◌,
}
use wireline.Codec.{MsgType, Crypto, IsDigest, Frame, data_msg}
use wireline.Codec.Encoding.{IsEncodable, wire_of, encode-IsEncodable}
use wireline.Framing.{read_frame}
use wireline.Framing.Stream.{read_frame-pop, of_pop}
use wireline.Framing.Encoded.{pop-wire_of, own_key-Checks}
use wireline.Session.{reply, is_over, ServerSession, ready, on_frame}
use wireline.Server.{proceed, apply, react, turn, write_then, handle, Connection}
use wireline.Framing.Chunks.{concat}
use wireline.Client
use wireline.Client.{
  replayed_seq, cannot_send, is_ready, and_then, next_seq, WirelineClient, Step, recv, request,
  send_data, connect, send, write, new_client,
}

-- Both ends are READY, and each will number its next frame above all that the other has accepted.
pub record IsPaired (c : WirelineClient) (s : ServerSession) : Type 0 where
  pub client_ready : c.state ≡ ready
  pub connected : c.connected ≡ true
  pub server_ready : s.state ≡ ready
  pub client_ahead : s.last_peer_seq <ℤ pos c.out_seq
  pub server_ahead : c.last_peer_seq <ℤ pos s.out_seq

unfoldable pub frame_read : Result (Frame × Bytes) → Result Frame
frame_read (raise e) = raise e
frame_read (ok (f, rest)) = ok f

module _ (crypto : Crypto) (secret : Bytes) where
  -- How one read of a stream ends.
  unfoldable pub reading : Bytes → Result Frame
  unfolding frame_read
  reading stream = frame_read (read_frame crypto stream secret)

  pub reading-wire_of :
      IsDigest crypto → (f : Frame) → IsEncodable f → reading (wire_of crypto f secret) ≡ ok f
  unfolding reading
  reading-wire_of d f h =
      rw
        (
          read_frame-pop crypto secret (wire_of crypto f secret),
          pop-wire_of crypto secret d (some secret) (own_key-Checks crypto secret) f h,
        )
        (unfold of_pop in refl)

  pub send-wire_of :
      (t : MsgType) (p : Bytes) (c : WirelineClient)
      → c.connected ≡ true
      → c.out_seq < 2 ^ 32
      → length p ≤ 2 ^ 20
      → send crypto secret t p 0 Client.flushed c ≡ (
        ok tt,
        record c {
          out_seq = (c.out_seq + 1) % 2 ^ 32;
          written =
              c.written
              ++ (wire_of crypto
                    (record { msg_type = t; seq = c.out_seq; payload = p; flags = 0 })
                    secret
                  ∷ []);
        },
      )
  unfolding send write
  send-wire_of t p c e h k =
      rw
        (
          e,
          encode-IsEncodable crypto
              (record { msg_type = t; seq = c.out_seq; payload = p; flags = 0 }) secret
              (record { fits = k; in_range = h; known = omega arith }),
        )
        refl

  pub recv-ahead :
      (f : Frame) (c : WirelineClient)
      → c.connected ≡ true
      → c.last_peer_seq <ℤ pos f.seq
      → recv (ok f) c ≡ (ok f, record c { last_peer_seq = pos f.seq })
  unfolding recv
  recv-ahead f c e h = rw (e, ahead_leb c.last_peer_seq f.seq h) refl

  pub recv-behind :
      (f : Frame) (c : WirelineClient)
      → c.connected ≡ true
      → leb_ℤ (pos f.seq) c.last_peer_seq ≡ true
      → recv (ok f) c ≡ (fail err_seq (replayed_seq f.seq), c)
  unfolding recv
  recv-behind f c e h = rw (e, h) refl

  request-wire_of :
      (t : MsgType) (p : Bytes) (c : WirelineClient) (f : Frame)
      → c.state ≡ ready
      → c.connected ≡ true
      → c.out_seq < 2 ^ 32
      → length p ≤ 2 ^ 20
      → c.last_peer_seq <ℤ pos f.seq
      → request crypto secret t p 0 Client.flushed (ok f) c ≡ (
        ok f,
        record c {
          out_seq = (c.out_seq + 1) % 2 ^ 32;
          written =
              c.written
              ++ (wire_of crypto
                    (record { msg_type = t; seq = c.out_seq; payload = p; flags = 0 })
                    secret
                  ∷ []);
          last_peer_seq = pos f.seq;
        },
      )
  unfolding request and_then is_ready
  request-wire_of t p c f r e h k a =
      ap
        (λ st.
          if is_ready st
          then and_then (send crypto secret t p 0 Client.flushed c) (λ _ c'. recv (ok f) c')
          else (fail err_state (cannot_send t st), c))
        r
      ∙ ap (λ o. and_then o (λ _ c'. recv (ok f) c')) (send-wire_of t p c e h k)
      ∙ recv-ahead f _ e a

  -- The frames that a ready server answers DATA with, and a new one HELLO.
  module _ (json : Json) (fresh : Text) where
    abbrev pub serve : Result Frame → ServerSession → Connection
    serve outcome s = handle crypto json secret ((outcome, fresh) ∷ []) s

    pub serve-reply :
        (f g : Frame) (s s' : ServerSession)
        → is_over s.state ≡ false
        → on_frame json f fresh s ≡ (ok (reply g), s')
        → IsEncodable g
        → is_over s'.state ≡ false
        → serve (ok f) s
          ≡ record { session = s'; written = wire_of crypto g secret ∷ []; ended = none }
    unfolding handle turn react apply proceed write_then
    serve-reply f g s s' l q h l' = rw (l, q, encode-IsEncodable crypto g secret h, l') refl

    -- One exchange: DATA with the payload, served, and the answer read.
    abbrev pub data_of : Bytes → ℕ → Frame
    data_of payload seq = record { msg_type = data_msg; seq = seq; payload = payload; flags = 0 }

    -- The bytes that the server reads
    abbrev pub heard : Bytes → WirelineClient → Bytes
    heard payload c = wire_of crypto (data_of payload c.out_seq) secret

    abbrev pub served : Bytes → WirelineClient → ServerSession → Connection
    served payload c s = serve (reading (heard payload c)) s

    abbrev pub asked : Bytes → WirelineClient → ServerSession → Step Bytes
    asked payload c s =
        send_data crypto secret payload Client.flushed
          (reading (concat (served payload c s).written)) c

    module _ (d : IsDigest crypto) (payload : Bytes) (c : WirelineClient) (s : ServerSession)
        (v : IsPaired c s) (h : c.out_seq < 2 ^ 32) (k : s.out_seq < 2 ^ 32)
        (l : length payload ≤ 2 ^ 20) where
      pub served_lem : served payload c s ≡ record {
        session = record s { last_peer_seq = pos c.out_seq; out_seq = (s.out_seq + 1) % 2 ^ 32 };
        written = wire_of crypto (data_of payload s.out_seq) secret ∷ [];
        ended = none;
      }
      served_lem =
          ap (λ r. serve r s)
            (reading-wire_of d (data_of payload c.out_seq)
              (record { fits = l; in_range = h; known = omega arith }))
          ∙ serve-reply (data_of payload c.out_seq) (data_of payload s.out_seq) s
              (record s { last_peer_seq = pos c.out_seq; out_seq = (s.out_seq + 1) % 2 ^ 32 })
              (ap is_over v.server_ready ∙ unfold is_over in refl)
              (on_data_frame json fresh (data_of payload c.out_seq) s refl v.server_ready
                v.client_ahead)
              (record { fits = l; in_range = k; known = omega arith })
              (ap is_over v.server_ready ∙ unfold is_over in refl)

      answer_read : reading (concat (served payload c s).written) ≡ ok (data_of payload s.out_seq)
      unfolding concat
      answer_read =
          ap (λ o. reading (concat (Connection.written o))) served_lem
          ∙ ap reading (append-nil (wire_of crypto (data_of payload s.out_seq) secret))
          ∙ reading-wire_of d (data_of payload s.out_seq)
              (record { fits = l; in_range = k; known = omega arith })

      abbrev pub after_asking : WirelineClient
      after_asking = record c {
        out_seq = (c.out_seq + 1) % 2 ^ 32;
        written = c.written ++ (wire_of crypto (data_of payload c.out_seq) secret ∷ []);
        last_peer_seq = pos s.out_seq;
      }

      pub asked_lem : asked payload c s ≡ (ok payload, after_asking)
      unfolding send_data and_then
      asked_lem =
          ap (λ r. send_data crypto secret payload Client.flushed r c) answer_read
          ∙ ap (λ o. and_then o (λ frame c'. (ok frame.payload, c')))
              (request-wire_of data_msg payload c (data_of payload s.out_seq) v.client_ready
                v.connected h l v.server_ahead)
