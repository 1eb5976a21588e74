-- ===== src/Framing/Stream.antt =====
-- `read_frame` and `FrameBuffer` of src/wireline/transport/framing.py read the same frames, and
-- read back what `encode` wrote.
use wireline.Base.{
  ◌++◌, [], ap, length-append, take-append, drop-append, take_all, drop_all, ◌+◌, ◌-◌, slice,
  drop-drop, ℕ, zero, suc, ◌≤◌, ◌<◌, ◌≡◌, ◌∙◌, inl, inr, Option, none, some, arith, ltb, ltb→lt,
  lt→ltb, le→ltb_false, ltb_false→le, Bool-cases, length, take, drop, length-drop,
}
use wireline.Base.Bytes.{Bytes}
use wireline.Errors.{◌>>=◌, Result, incomplete_read, raise, ok}
use wireline.Codec.{decode_header, decode_frame, Header, Crypto, Frame}
use wireline.Framing.{
  FrameBuffer, pop, pop_frame, read_frame, readexactly, read_payload, frame_size,
}
use wireline.Framing.Pop.{pop_view, short, refused, part, whole}

-- A pop as a read of a stream that ends: where `pop` waits, the stream is at its end.
unfoldable pub of_pop : FrameBuffer × Result (Option Frame) → Result (Frame × Bytes)
of_pop (b, ok none) = raise incomplete_read
of_pop (b, ok (some f)) = ok (f, b.buf)
of_pop (b, raise x) = raise x

readexactly_ok : (n : ℕ) (s : Bytes) → n ≤ length s → readexactly n s ≡ ok (take n s, drop n s)
unfolding readexactly
readexactly_ok n s h = rw (le→ltb_false (length s) n h)

readexactly_short : (n : ℕ) (s : Bytes) → length s < n → readexactly n s ≡ raise incomplete_read
unfolding readexactly
readexactly_short n s h = rw (lt→ltb (length s) n h)

-- Reading no bytes is reading zero bytes.
read_payload-readexactly : (n : ℕ) (s : Bytes) → read_payload n s ≡ readexactly n s
unfolding read_payload readexactly
read_payload-readexactly zero s = ground arith
read_payload-readexactly (suc n) s = ground arith

module _ (crypto : Crypto) (secret : Bytes) where
  abbrev pub buffer_of : Bytes → FrameBuffer
  buffer_of s = record { buf = s; secret = some secret }

  abbrev read_body : Bytes → Header → Bytes → Result (Frame × Bytes)
  read_body raw_header header rest = do
    (payload, rest') ← readexactly header.length rest
    (mac, rest'') ← readexactly 32 rest'
    frame ← decode_frame crypto raw_header payload mac (some secret)
    ok (frame, rest'')

  read_frame_header :
      (s : Bytes) (h : Header)
      → 19 ≤ length s
      → decode_header (take 19 s) ≡ ok h
      → read_frame crypto s secret ≡ read_body (take 19 s) h (drop 19 s)
  unfolding read_frame
  read_frame_header s h l e =
      rw (readexactly_ok 19 s l, e, read_payload-readexactly h.length (drop 19 s))

  read_body_part :
      (s : Bytes) (h : Header)
      → length s < frame_size h
      → read_body (take 19 s) h (drop 19 s) ≡ raise incomplete_read
  read_body_part s h l = elim (Bool-cases (ltb (length (drop 19 s)) h.length)) [
    | inl e ↦ rw (readexactly_short h.length (drop 19 s) (ltb→lt _ _ e))
    | inr e ↦ rw (
      readexactly_ok h.length (drop 19 s) (ltb_false→le _ _ e),
      readexactly_short 32 (drop h.length (drop 19 s))
          (omega (arith, length-drop h.length (drop 19 s), length-drop 19 s, ltb_false→le _ _ e)),
    )
  ]

  of_pop_frame :
      (b : FrameBuffer) (rest : Bytes) (h : Header)
      → (do
        frame ←
            decode_frame crypto
              (slice 0 19 b.buf)
              (slice 19 (19 + h.length) b.buf)
              (slice (19 + h.length) (frame_size h) b.buf)
              b.secret
        ok (frame, rest))
        ≡ of_pop (record b { buf = rest }, pop_frame crypto b h)
  unfolding of_pop pop_frame
  of_pop_frame b rest h = ground arith

  read_body_whole :
      (s : Bytes) (h : Header)
      → frame_size h ≤ length s
      → read_body (take 19 s) h (drop 19 s)
        ≡ of_pop (
          record { buf = drop (frame_size h) s; secret = some secret },
          pop_frame crypto (buffer_of s) h,
        )
  read_body_whole s h l =
      let e : 19 + h.length - 19 ≡ h.length = omega arith in
      let m : frame_size h - (19 + h.length) ≡ 32 = omega arith in
      let payload = slice 19 (19 + h.length) s in
      let mac = slice (19 + h.length) (frame_size h) s in
      rw
        (
          readexactly_ok h.length (drop 19 s) (omega (arith, length-drop 19 s)),
          readexactly_ok 32 (drop h.length (drop 19 s))
              (omega (arith, length-drop h.length (drop 19 s), length-drop 19 s)),
          drop-drop h.length 19 s,
          drop-drop 32 (19 + h.length) s,
        )
        (rw (e, m) at (of_pop_frame (buffer_of s) (drop (frame_size h) s) h))

  -- On every stream, `read_frame` returns the frame that `pop` takes from a buffer with the same
  -- bytes and leaves the same rest, raises the same error, and finds the end of the stream exactly
  -- where `pop` would wait for more.
  pub read_frame-pop : (s : Bytes) → read_frame crypto s secret ≡ of_pop (pop crypto (buffer_of s))
  read_frame-pop s = elim (pop_view crypto (buffer_of s)) [
    | short l q ↦ rw q (unfold read_frame of_pop in rw (readexactly_short 19 s l))
    | refused x l r q ↦ rw q (unfold read_frame of_pop in rw (readexactly_ok 19 s l, r))
    | part h l r p q ↦ rw q (unfold of_pop in read_frame_header s h l r ∙ read_body_part s h p)
    | whole h r p q ↦ rw q (read_frame_header s h (omega arith) r ∙ read_body_whole s h p)
  ]

  -- A stream that is one whole frame, by its three parts
  pub read_frame-parts :
      (hd p m : Bytes) (h : Header)
      → length hd ≡ 19
      → decode_header hd ≡ ok h
      → length p ≡ h.length
      → length m ≡ 32
      → read_frame crypto (hd ++ (p ++ m)) secret
        ≡ (do frame ← decode_frame crypto hd p m (some secret); ok (frame, []))
  read_frame-parts hd p m h lh e lp lm =
      read_frame_header (hd ++ (p ++ m)) h (omega (arith, length-append hd (p ++ m), lh))
        (ap decode_header (take-append 19 hd (p ++ m) lh) ∙ e)
      ∙ rw (
        take-append 19 hd (p ++ m) lh,
        drop-append 19 hd (p ++ m) lh,
        readexactly_ok h.length (p ++ m) (omega (arith, length-append p m, lp)),
        take-append h.length p m lp,
        drop-append h.length p m lp,
        readexactly_ok 32 m (omega arith),
        take_all 32 m (omega arith),
        drop_all 32 m (omega arith),
      )
