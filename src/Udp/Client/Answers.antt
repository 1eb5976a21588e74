-- ===== src/Udp/Client/Answers.antt =====
-- Which datagrams `UdpClient._await_reply` (src/wireline/transport/udp.py) takes for an answer.
use wireline.Framing.Drain.{drain_of_none}
use wireline.Framing.{pop}
use wireline.Messages.RoundTrip.{decode_ack-encode_ack}
use wireline.Base.{
  inl, inr, false, inl, inr, ℕ, ◌≡◌, refl, ◌∙◌, some, none, List, [], ◌∷◌, ◌++◌, All, arith,
}
use wireline.Base.Bytes.{Bytes}
use wireline.Base.Int.{pos}
use wireline.Errors.{Result-cases, ok, raise, other_error}
use wireline.Codec.{Crypto, IsDigest, Frame, ack, encode}
use wireline.Codec.Encoding.{IsEncodable, IsEncodable-encode}
use wireline.Framing.Encoded.{buffer, stream_of, drain-stream_of}
use wireline.Messages.{decode_ack, Json, ReadsBack, ack_object, encode_ack}
use wireline.Udp.Server.{encode_all}
use wireline.Udp.Client.{
  is_error, split_datagram, judge, accept, reply_of, settle, await_reply, is_ack, last_frame,
  after_drain,
}

module _ (crypto : Crypto) (json : Json) (secret : Bytes) where
  joined :
      (f : Frame) (fs : List Frame) (raw front rest : Bytes)
      → encode_all crypto json (f ∷ fs) secret ≡ ok raw
      → encode crypto f secret ≡ ok front
      → encode_all crypto json fs secret ≡ ok rest
      → raw ≡ front ++ rest
  unfolding encode_all
  joined f fs raw front rest e q q' = ground arith

  -- What the server joins to one datagram is a sequence of encodable frames.
  encode_all-stream_of :
      (fs : List Frame) (raw : Bytes)
      → encode_all crypto json fs secret ≡ ok raw
      → All IsEncodable fs × (raw ≡ stream_of crypto secret fs)
  unfolding encode_all stream_of
  encode_all-stream_of [] raw e = (tt, ground arith)
  encode_all-stream_of (f ∷ fs) raw e = elim (Result-cases (encode crypto f secret)) [
    | inr (x, q) ↦ absurd (ground arith)
    | inl (front, q) ↦ elim (Result-cases (encode_all crypto json fs secret)) [
      | inr (x, q') ↦ absurd (ground arith)
      | inl (rest, q') ↦
          let (h, r) = IsEncodable-encode crypto f secret front q in
          let (hs, rs) = encode_all-stream_of fs rest q' in
          ((h, hs), joined f fs raw front rest e q q' ∙ rw (r, rs) refl)
    ]
  ]

  pub split_datagram-encode_all :
      IsDigest crypto
      → (fs : List Frame) (raw : Bytes) → encode_all crypto json fs secret ≡ ok raw
      → split_datagram crypto raw secret ≡ ok fs
  unfolding split_datagram after_drain
  split_datagram-encode_all d fs raw e =
      let (h, r) = encode_all-stream_of fs raw e in
      rw (r, drain-stream_of crypto secret d fs h) refl

  abbrev pub Dropped : ℕ → List Bytes → Type 0
  Dropped seq = All (λ datagram. judge json seq (split_datagram crypto datagram secret) ≡ none)

  after-Dropped :
      (seq : ℕ) (stale : List Bytes) (queue : List Bytes)
      → Dropped seq stale
      → await_reply crypto json secret seq (stale ++ queue)
        ≡ await_reply crypto json secret seq queue
  unfolding await_reply settle
  after-Dropped seq [] queue h = refl
  after-Dropped seq (b ∷ stale) queue h = rw h.0 (after-Dropped seq stale queue h.1)

  accept_own :
      (seq : ℕ) (reply : Frame) → accept json seq reply (ok (pos seq)) ≡ some (reply_of json reply)
  unfolding accept
  accept_own seq reply = ground arith

  pub split_empty : split_datagram crypto [] secret ≡ ok []
  unfolding split_datagram after_drain pop
  split_empty =
      rw (drain_of_none crypto (buffer crypto secret []) (buffer crypto secret []) refl) refl

  -- The datagram that `UdpServer` sends for a request ends the wait for its answer, whatever the
  -- datagrams before it that are dropped: with the last of its frames as `reply_of` takes it, and
  -- the datagrams behind it still in the queue; a digest has 32 bytes, and the JSON module reads
  -- back the ACK.
  pub await_reply-encode_all :
      IsDigest crypto
      → (seq : ℕ) (stale later : List Bytes) (f : Frame) (fs : List Frame) (raw : Bytes)
      → Dropped seq stale
      → ReadsBack json (ack_object seq)
      → f.msg_type ≡ ack
      → f.payload ≡ encode_ack json seq
      → encode_all crypto json (f ∷ fs) secret ≡ ok raw
      → await_reply crypto json secret seq (stale ++ raw ∷ later)
        ≡ (some (reply_of json (last_frame f fs)), later)
  unfolding await_reply settle judge is_ack
  await_reply-encode_all d seq stale later f fs raw h back t p e =
      after-Dropped seq stale (raw ∷ later) h
      ∙ rw
          (
            split_datagram-encode_all d (f ∷ fs) raw e,
            t,
            p,
            decode_ack-encode_ack json seq back,
            accept_own seq,
          )
          refl

  -- A datagram without a byte makes `_await_reply` raise an exception that
  -- is neither a `ProtocolError` nor a timeout, whatever the datagrams before it that are dropped.
  pub await_reply_crashes :
      (seq : ℕ) (stale later : List Bytes)
      → Dropped seq stale
      → await_reply crypto json secret seq (stale ++ [] ∷ later) ≡ (some (raise other_error), later)
  unfolding await_reply settle judge
  await_reply_crashes seq stale later h =
      after-Dropped seq stale ([] ∷ later) h ∙ rw split_empty refl

  -- The datagram answers the request: it splits into frames whose first is an ACK with its number,
  -- and whose last is `reply`, not an ERROR.
  abbrev pub Answers : ℕ → Bytes → Frame → Type 0
  Answers seq datagram reply =
      (f : Frame) × (fs : List Frame) × (split_datagram crypto datagram secret ≡ ok (f ∷ fs))
      × (f.msg_type ≡ ack)
      × (decode_ack json f.payload ≡ ok (pos seq))
      × (last_frame f fs ≡ reply)
      × (is_error reply.msg_type ≡ false)
