-- ===== src/Tools/Sessions/Captured.antt =====
-- The session of tools/make_pcap_fixture.py from its packets to a capture file, and back to frames by
-- the analyser (src/wireline/sniff/).
use wireline.Base.Dict.{lookup}
use wireline.Tools.Sessions.{start}
use wireline.Tools.Sessions.Heard.{heard_nil, heard}
use wireline.Sniff.Dissect.{dissect}
use wireline.Sniff.Flows.Recovered.{reassemble_flows-stream_of}
use wireline.Sniff.Pcap.Writing.{written, read_packets-write_packets}
use wireline.Sniff.Flows.{frames_or_none, reassemble_flows}
use wireline.Sniff.Dissect.{dissect_all, linktype_ethernet, rows_or_error}
use wireline.Sniff.Rows.{Row}
use wireline.Sniff.Pcap.{Floats, read_packets, write_packets}
use wireline.Base.{
  ℕ, inl, map, ◌≡◌, refl, ap, ◌∙◌, sym, List, [], ◌∷◌, ◌++◌, All, take, drop, take-append-drop,
  append_assoc,
}
use wireline.Base.Bytes.{Bytes}
use wireline.Base.Text.{Text}
use wireline.Errors.{bind-eq-ok, ok-injective, ok}
use wireline.Codec.{IsDigest, Crypto, Frame, encode}
use wireline.Codec.Encoding.{IsEncodable, wire_of, IsEncodable-encode}
use wireline.Messages.{Json}
use wireline.Framing.Encoded.{stream_of}
use wireline.Tools.Sessions.{
  play, Way, tcp_session, to_server, to_client, conversation, part, secret, hello_frame,
  welcome_frame, data_frame, bye_frame,
}
use wireline.Tools.Sessions.Heard.{key_of, play-heard, value, spoken, IsComputed}

glued :
    (a a' t t' d d' w b b' : Bytes)
    → a ≡ a'
    → t ≡ t'
    → d ≡ d'
    → t' ++ d' ≡ w
    → b ≡ b'
    → a ++ (t ++ (d ++ b)) ≡ a' ++ (w ++ b')
glued a a' t t' d d' w b b' p q r s u =
    rw (p, q, r, u) (ap (λ l. a' ++ l) (sym (append_assoc t' d' b') ∙ ap (λ l. l ++ b') s))

module _ (crypto : Crypto) (json : Json) (nonce nonce' : Text) where
  -- A frame that was encoded: it is within the limits, and these are its bytes.
  encoded :
      (f : Frame)
      → (raw : Bytes) × (encode crypto f secret ≡ ok raw)
      → IsEncodable f × (value (encode crypto f secret) ≡ wire_of crypto f secret)
  encoded f (raw, e) = let (h, q) = IsEncodable-encode crypto f secret raw e in (h, ap value e ∙ q)

  part_of :
      (f : Bytes → Bytes)
      → (raw : Bytes) × (encode crypto (data_frame crypto json nonce nonce') secret ≡ ok raw)
      → value (part crypto json nonce nonce' f)
        ≡ f (wire_of crypto (data_frame crypto json nonce nonce') secret)
  unfolding part
  part_of f (raw, e) =
      rw e (ap f (IsEncodable-encode crypto (data_frame crypto json nonce nonce') secret raw e).1)

  -- What the two ends say in the session
  abbrev pub client_frames : List Frame
  client_frames =
      hello_frame crypto json nonce nonce'
      ∷ data_frame crypto json nonce nonce'
      ∷ bye_frame crypto json nonce nonce'
      ∷ []

  abbrev pub server_frames : List Frame
  server_frames = welcome_frame crypto json nonce nonce' ∷ data_frame crypto json nonce nonce' ∷ []

  conversation-spoken :
      All IsComputed (conversation crypto json nonce nonce')
      → All IsEncodable client_frames
        × All IsEncodable server_frames
        × (spoken to_server (conversation crypto json nonce nonce')
            ≡ stream_of crypto secret client_frames)
        × (spoken to_client (conversation crypto json nonce nonce')
            ≡ stream_of crypto secret server_frames)
  unfolding conversation stream_of
  conversation-spoken (_, (_, (_, (greeted, (welcomed, (_, (_, (said, (parted, _))))))))) =
      let (fits_hello, asked) = encoded (hello_frame crypto json nonce nonce') greeted in
      let (fits_welcome, answered) = encoded (welcome_frame crypto json nonce nonce') welcomed in
      let (fits_whole, whole) = encoded (data_frame crypto json nonce nonce') said in
      let (fits_bye, left) = encoded (bye_frame crypto json nonce nonce') parted in
      let w = wire_of crypto (data_frame crypto json nonce nonce') secret in
      (
        (fits_hello, (fits_whole, (fits_bye, tt))),
        (fits_welcome, (fits_whole, tt)),
        glued _ _ _ _ _ _ w _ _ asked (part_of (take 30) said) (part_of (drop 30) said)
            (take-append-drop 30 w) (ap (λ l. l ++ []) left),
        rw (answered, whole) refl,
      )

  module _ (d : IsDigest crypto) {T : Type 0} (floats : Floats T) (tick : T → T) (ts : T) where
    -- Rows that carry these bytes in a direction are reassembled to their frames.
    found :
        (way : Way) (fs : List Frame) (packets : List (T × Bytes))
        → All IsEncodable fs
        → heard floats way packets ≡ stream_of crypto secret fs
        → frames_or_none (
            lookup (key_of way) (
              reassemble_flows crypto
                (dissect_all (map (written floats linktype_ethernet) packets))))
          ≡ fs
    found way fs packets fit e =
        reassemble_flows-stream_of crypto d secret fs fit (key_of way)
          (dissect_all (map (written floats linktype_ethernet) packets)) e

    -- If `tcp_session` makes its packets, and `write_packets` a file of them, then the analyser reads
    -- that file without an error, and `reassemble_flows` finds in its rows exactly the frames of the
    -- session: HELLO, DATA and BYE from the client, with the DATA frame that was split between two
    -- segments, and HELLO_ACK and DATA from the server. A digest has 32 bytes.
    pub captured_session :
        (packets : List (T × Bytes)) (snaplen : ℕ) (file : Bytes)
        → tcp_session crypto json nonce nonce' tick ts ≡ ok packets
        → write_packets floats packets linktype_ethernet snaplen ≡ ok file
        → (rows : List (Row T)) × (dissect (read_packets floats file) ≡ inl rows)
          × (frames_or_none (lookup (key_of to_server) (reassemble_flows crypto rows))
              ≡ client_frames)
          × (frames_or_none (lookup (key_of to_client) (reassemble_flows crypto rows))
              ≡ server_frames)
    unfolding tcp_session dissect rows_or_error
    captured_session packets snaplen file made wrote =
        let (r, played, e) =
          bind-eq-ok (play tick (conversation crypto json nonce nonce') (start ts)) _ made in
        let same : r.packets ≡ packets = ok-injective e in
        let (computed, h) =
          play-heard floats tick (conversation crypto json nonce nonce') (start ts) r played in
        let (fit, fit', asked, answered) = conversation-spoken computed in
        (
          dissect_all (map (written floats linktype_ethernet) packets),
          ap dissect
              (read_packets-write_packets floats packets linktype_ethernet snaplen file wrote),
          found to_server client_frames packets fit (
              ap (heard floats to_server) (sym same)
              ∙ h to_server
              ∙ ap (λ l. l ++ spoken to_server (conversation crypto json nonce nonce'))
                  (heard_nil floats to_server)
              ∙ asked),
          found to_client server_frames packets fit' (
              ap (heard floats to_client) (sym same)
              ∙ h to_client
              ∙ ap (λ l. l ++ spoken to_client (conversation crypto json nonce nonce'))
                  (heard_nil floats to_client)
              ∙ answered),
        )
