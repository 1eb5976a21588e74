-- ===== src/Cli/WrongKey.antt =====
-- `wireline send` (src/wireline/__main__.py) with another secret than the server's.
use wireline.Cli.{Flushed}
use wireline.Base.{subst, sym, ◌≡◌, ◌≢◌, refl, ap, ◌∙◌, true, some, [], ◌∷◌, ◌++◌, append-nil}
use wireline.Base.Bytes.{Bytes}
use wireline.Base.Text.{Text, codes}
use wireline.Errors.{code_name, describe, Exn, Result, ok, raise, fail, ProtocolError, err_auth}
use wireline.Codec.{Crypto, IsDigest, Frame, hello, sign}
use wireline.Codec.Texts.{hmac_mismatch}
use wireline.Codec.Encoding.{IsEncodable, wire_of, header_of, encode-IsEncodable}
use wireline.Codec.RoundTrip.{Assembles-wire_of, length-header_of}
use wireline.Codec.Keys.{decode_frame-other_key}
use wireline.Messages.{Json}
use wireline.Session.{new_session, closed, is_over}
use wireline.Framing.Chunks.{concat}
use wireline.Framing.Stream.{read_frame-parts}
use wireline.Server.{Connection}
use wireline.Server.Undecodable.{error_frame, broken_off}
use wireline.Client.{WirelineClient, Step, flushed, connect, do_handshake, and_then, recv}
use wireline.Client.Pairing.{reading, frame_read, serve, send-wire_of}
use wireline.Client.Handshakes.{hello_frame, hello_payload}
use wireline.Cli.{
  Args, Failure, Ran, send_command, within, conclude_main, exit_failed, handler_result, failure_of,
  describe_failure, class_name, with_detail, advice,
}

module _ (crypto : Crypto) (d : IsDigest crypto) (f : Frame) (secret other : Bytes)
    (h : IsEncodable f)
    (differ : sign crypto (header_of crypto f) f.payload other
      ≢ sign crypto (header_of crypto f) f.payload secret) where
  -- A frame that is read under another key
  reading-other_key : reading crypto other (wire_of crypto f secret) ≡ fail err_auth hmac_mismatch
  unfolding reading frame_read
  reading-other_key =
      let a = Assembles-wire_of crypto d f secret h in
      rw
        (
          read_frame-parts crypto other (header_of crypto f) f.payload
              (sign crypto (header_of crypto f) f.payload secret) a.header
              (length-header_of crypto f) a.parsed a.measured a.sealed,
          decode_frame-other_key crypto d f secret other h differ,
        )
        refl

module _ (crypto : Crypto) (json : Json) (nonce session_id fresh : Text) (c : WirelineClient)
    (mine theirs : Bytes) where
  abbrev exc : ProtocolError
  exc = record { code = err_auth; message = hmac_mismatch }

  -- The HELLO of the client, and the ERROR that the server answers it with
  abbrev greeting : Frame
  greeting = hello_frame crypto mine json nonce session_id fresh c

  abbrev refusal : Frame
  refusal = error_frame crypto json theirs exc (new_session session_id)

  -- The two keys give both frames different MACs, and the frames fit.
  pub record Strangers : Type 0 where
    pub digest : IsDigest crypto
    pub greeting_fits : IsEncodable greeting
    pub refusal_fits : IsEncodable refusal
    pub greeting_differs :
        sign crypto (header_of crypto greeting) greeting.payload theirs
        ≢ sign crypto (header_of crypto greeting) greeting.payload mine
    pub refusal_differs :
        sign crypto (header_of crypto refusal) refusal.payload mine
        ≢ sign crypto (header_of crypto refusal) refusal.payload theirs

  -- The bytes that the server reads
  abbrev pub greeting_wire : Bytes
  greeting_wire = wire_of crypto greeting mine

  -- The new connection of the server when it has read them, and what `connect` does.
  abbrev pub accepting : Connection
  accepting =
      serve crypto theirs json fresh (reading crypto theirs greeting_wire) (new_session session_id)

  abbrev pub connecting : Step (Unit {0})
  connecting =
      connect crypto mine json nonce flushed (reading crypto mine (concat accepting.written)) c

  module _ (s : Strangers) where
    accepting_lem : accepting ≡ record {
      session = record (new_session session_id) { state = closed; out_seq = 1 };
      written = wire_of crypto refusal theirs ∷ [];
      ended = some (ok tt);
    }
    accepting_lem =
        ap (λ r. serve crypto theirs json fresh r (new_session session_id))
          (reading-other_key crypto s.digest greeting mine theirs s.greeting_fits
            s.greeting_differs)
        ∙ broken_off crypto json theirs exc fresh [] (new_session session_id)
            (wire_of crypto refusal theirs) (unfold is_over in refl)
            (encode-IsEncodable crypto refusal theirs s.refusal_fits)

    answer_read : reading crypto mine (concat accepting.written) ≡ fail err_auth hmac_mismatch
    unfolding concat
    answer_read =
        ap (λ o. reading crypto mine (concat (Connection.written o))) accepting_lem
        ∙ ap (reading crypto mine) (append-nil (wire_of crypto refusal theirs))
        ∙ reading-other_key crypto s.digest refusal theirs mine s.refusal_fits s.refusal_differs

    refused :
        (connecting.0 ≡ fail err_auth hmac_mismatch) × (connecting.1.written ≡ greeting_wire ∷ [])
    unfolding connect do_handshake and_then recv
    refused =
        subst
          (λ r.
            ((connect crypto mine json nonce flushed r c).0 ≡ fail err_auth hmac_mismatch)
            × ((connect crypto mine json nonce flushed r c).1.written ≡ greeting_wire ∷ []))
          (sym answer_read)
          (rw
            (send-wire_of crypto mine hello
              (hello_payload crypto mine json nonce session_id fresh c)
              (record c { connected = true; written = [] }) refl s.greeting_fits.in_range
              s.greeting_fits.fits)
            (refl, refl))

  module _ (utf8_decode : Bytes → Text) (payload : Bytes) (how drained how' : Flushed)
      (answer : WirelineClient → Result Frame) where
    -- `wireline send` with a connection of the server that is new
    abbrev pub commanding : Ran
    commanding = send_command crypto mine utf8_decode connecting payload how answer drained how'

    unsent :
        (o : Step (Unit {0})) (x : Exn)
        → o.0 ≡ raise x
        → ((send_command crypto mine utf8_decode o payload how answer drained how').0 ≡ [])
          × ((send_command crypto mine utf8_decode o payload how answer drained how').1.0 ≡ raise x)
          × ((send_command crypto mine utf8_decode o payload how answer drained how').1.1 ≡ o.1)
    unfolding send_command within
    unsent (raise e, c') x q = (refl, q, refl)
    unsent (ok _, c') x q = cc

    -- `wireline send` with another secret than the server's prints nothing on the standard output
    -- and ends with status 1 and one line that asks whether the secrets are the same: the server
    -- answers the HELLO with an ERROR under its own key and closes its session, and the client
    -- cannot read that answer either. The client has written the bytes that the server reads and
    -- nothing else, and reads what the server writes. A digest has 32 bytes, the HELLO and the ERROR fit into frames, and the two keys give each of them different MACs.
    pub wrong_secret :
        (others : Exn → Failure) (args : Args)
        → Strangers
        → (commanding.0 ≡ [])
          × (commanding.1.1.written ≡ greeting_wire ∷ [])
          × (accepting.session.state ≡ closed)
          × (conclude_main args (handler_result others commanding.1.0) ≡ record {
            status = some 1;
            stderr =
                (codes "wireline: ProtocolError: ERR_AUTH: hmac mismatch"
                  ++ codes " - do client and server use the same WIRELINE_SECRET?")
                ∷ [];
          })
    unfolding conclude_main handler_result failure_of exit_failed describe_failure class_name
        with_detail advice describe hmac_mismatch codes code_name
    wrong_secret others args s =
        let (refusing, wrote) = refused s in
        let (silent, raised, same) = unsent connecting _ refusing in
        (
          silent,
          ap (λ c'. c'.written) same ∙ wrote,
          ap (λ o. o.session.state) (accepting_lem s),
          ap (λ r. conclude_main args (handler_result others r)) raised,
        )
