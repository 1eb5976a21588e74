-- ===== src/Framing/Encoded.antt =====
-- What `FrameBuffer` (src/wireline/transport/framing.py) yields for a stream of encoded frames.
use wireline.Framing.Pop.{pop_of_whole}
use wireline.Codec.Cut.{head_part-wire, length-wire}
use wireline.Framing.Chunks.{receive, concat, receive_chunks}
use wireline.Framing.Turns.{pop-feed_of_frame}
use wireline.Framing.Drain.{drain_of_none, drain_of_some}
use wireline.Codec.RoundTrip.{length-header_of, Assembles-wire_of}
use wireline.Base.{
  Option, none, ◌+◌, ◌-◌, sym, arith, length, take, drop, slice, take-append, drop-append, take_all,
  drop_all, drop-drop, ◌≡◌, refl, ap, ◌∙◌, some, List, [], ◌∷◌, ◌++◌, All,
}
use wireline.Base.Bytes.{Bytes}
use wireline.Errors.{ok}
use wireline.Codec.{decode_header, verify_mac_if, Crypto, IsDigest, Frame, sign}
use wireline.Codec.Encoding.{
  verify_none, Assembles, Assembles-decode_frame, verify_mac_iff, IsEncodable, header_of, wire_of,
}
use wireline.Framing.{
  FrameBuffer, Drained, pop, pop_frame, drain, finished, prepend, new_buffer, frame_size,
}

module _ (crypto : Crypto) (secret : Bytes) where
  abbrev pub buffer : Bytes → FrameBuffer
  buffer s = record { buf = s; secret = some secret }

  abbrev pub keyed : Option Bytes → Bytes → FrameBuffer
  keyed key s = record { buf = s; secret = key }

  -- The bytes of a sequence of frames, one encoding after the other.
  unfoldable pub stream_of : List Frame → Bytes
  stream_of [] = []
  stream_of (f ∷ fs) = wire_of crypto f secret ++ stream_of fs

  module _ (hd p m : Bytes) (f : Frame) (hh : length hd ≡ 19) (a : Assembles crypto hd p m f) where
    drop_front : drop (19 + a.header.length) (hd ++ (p ++ m)) ≡ m
    drop_front =
        sym (drop-drop a.header.length 19 (hd ++ (p ++ m)))
        ∙ ap (drop a.header.length) (drop-append 19 hd (p ++ m) hh)
        ∙ drop-append a.header.length p m a.measured

    payload_slice : slice 19 (19 + a.header.length) (hd ++ (p ++ m)) ≡ p
    payload_slice =
        ap (take (19 + a.header.length - 19)) (drop-append 19 hd (p ++ m) hh)
        ∙ take-append (19 + a.header.length - 19) p m (omega (arith, a.measured))

    mac_slice : slice (19 + a.header.length) (frame_size a.header) (hd ++ (p ++ m)) ≡ m
    mac_slice =
        ap (take (frame_size a.header - (19 + a.header.length))) drop_front
        ∙ take_all (frame_size a.header - (19 + a.header.length)) m (omega (arith, a.sealed))

    pop_frame-parts :
        (key : Option Bytes)
        → verify_mac_if crypto hd p m key ≡ ok tt
        → pop_frame crypto (keyed key (hd ++ (p ++ m))) a.header ≡ ok (some f)
    unfolding pop_frame
    pop_frame-parts key v = rw (
      head_part-wire hd p m hh a.sealed,
      payload_slice,
      mac_slice,
      Assembles-decode_frame crypto hd p m key f a v,
    )

    pop_parts :
        (key : Option Bytes)
        → verify_mac_if crypto hd p m key ≡ ok tt
        → pop crypto (keyed key (hd ++ (p ++ m))) ≡ (keyed key [], ok (some f))
    pop_parts key v =
        let n = length-wire hd p m hh a.sealed in
        pop_of_whole crypto (keyed key (hd ++ (p ++ m))) a.header
          (ap decode_header (head_part-wire hd p m hh a.sealed) ∙ a.parsed)
          (omega (arith, n, a.measured))
        ∙ rw (
          drop_all (frame_size a.header) (hd ++ (p ++ m)) (omega (arith, n, a.measured)),
          pop_frame-parts key v,
        )

  -- A reader that finds its own MACs under the key, or that has no key.
  abbrev pub Checks : Option Bytes → Type 0
  Checks key = (rh p : Bytes) → verify_mac_if crypto rh p (sign crypto rh p secret) key ≡ ok tt

  pub own_key-Checks : Checks (some secret)
  own_key-Checks rh p = (verify_mac_iff crypto rh p _ secret).1 refl

  module _ (digest : IsDigest crypto) where
    module _ (key : Option Bytes) (checks : Checks key) where
      pub pop-wire_of :
          (f : Frame)
          → IsEncodable f
          → pop crypto (keyed key (wire_of crypto f secret)) ≡ (keyed key [], ok (some f))
      unfolding sign
      pop-wire_of f h =
          let s = sign crypto (header_of crypto f) f.payload secret in
          pop_parts (header_of crypto f) f.payload s f (length-header_of crypto f)
            (Assembles-wire_of crypto digest f secret h) key (checks (header_of crypto f) f.payload)

      pop-stream :
          (f : Frame) (rest : Bytes)
          → IsEncodable f
          → pop crypto (keyed key (wire_of crypto f secret ++ rest)) ≡ (keyed key rest, ok (some f))
      pop-stream f rest h =
          pop-feed_of_frame crypto (keyed key (wire_of crypto f secret)) (keyed key []) f rest
            (pop-wire_of f h)

      drain-keyed :
          (fs : List Frame)
          → All IsEncodable fs
          → drain crypto (keyed key (stream_of fs))
            ≡ record { frames = fs; buffer = keyed key []; end = finished }
      unfolding stream_of
      drain-keyed [] h = drain_of_none crypto (keyed key []) (keyed key []) (unfold pop in refl)
      drain-keyed (f ∷ fs) h =
          drain_of_some crypto _ (keyed key (stream_of fs)) f (pop-stream f (stream_of fs) h.0)
          ∙ ap (prepend (f ∷ [])) (drain-keyed fs h.1)

      receive-keyed :
          (fs : List Frame) (cs : List Bytes)
          → All IsEncodable fs
          → concat cs ≡ stream_of fs
          → receive crypto (new_buffer key) cs
            ≡ record { frames = fs; buffer = keyed key []; end = finished }
      receive-keyed fs cs h e =
          let run = receive_chunks crypto key cs in
          let whole = ap (λ s. drain crypto (keyed key s)) e ∙ drain-keyed fs h in
          let end = run.end ∙ ap Drained.end whole in
          λ i. record {
            frames = (run.frames ∙ ap Drained.frames whole) i;
            buffer = (run.buffer end ∙ ap Drained.buffer whole) i;
            end = end i;
          }

    pub drain-stream_of :
        (fs : List Frame)
        → All IsEncodable fs
        → drain crypto (buffer (stream_of fs))
          ≡ record { frames = fs; buffer = buffer []; end = finished }
    drain-stream_of = drain-keyed (some secret) own_key-Checks

    -- However the encodings of a sequence of frames are cut into chunks, the buffer yields exactly
    -- those frames in their order, without an error, and is empty at the end.
    pub receive_encoded :
        (fs : List Frame) (cs : List Bytes)
        → All IsEncodable fs
        → concat cs ≡ stream_of fs
        → receive crypto (new_buffer (some secret)) cs
          ≡ record { frames = fs; buffer = buffer []; end = finished }
    receive_encoded = receive-keyed (some secret) own_key-Checks

    -- A reader without the key finds the same frames.
    pub receive_unkeyed :
        (fs : List Frame) (cs : List Bytes)
        → All IsEncodable fs
        → concat cs ≡ stream_of fs
        → receive crypto (new_buffer none) cs
          ≡ record { frames = fs; buffer = record { buf = []; secret = none }; end = finished }
    receive_unkeyed = receive-keyed none (λ rh p. verify_none crypto rh p _)
