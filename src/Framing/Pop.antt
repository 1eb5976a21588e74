-- ===== src/Framing/Pop.antt =====
-- `FrameBuffer.pop` of src/wireline/transport/framing.py: what it takes, and what more bytes change.
use wireline.Base.{
  ◌+◌, ◌≤◌, ◌<◌, ◌≡◌, refl, ap, ◌∙◌, inl, inr, true, false, none, arith, ltb, ltb→lt, le→ltb_false,
  ltb_false→le, Bool-cases, length, drop, slice, slice-append_le,
}
use wireline.Base.Bytes.{Bytes}
use wireline.Errors.{Result-cases, Exn, raise, ok}
use wireline.Codec.{decode_header, Header, Crypto}
use wireline.Framing.{FrameBuffer, feed, pop, pop_frame, pop_body, frame_size}

module _ (crypto : Crypto) where
  -- How `pop` takes a buffer: too short for a header, a header that is refused, a frame of which
  -- bytes are missing, or a whole frame.
  pub data PopView (b : FrameBuffer) : Type 0 where
    short : length b.buf < 19 → pop crypto b ≡ (b, ok none) → PopView b
    refused :
        (x : Exn)
        → 19 ≤ length b.buf
        → decode_header (slice 0 19 b.buf) ≡ raise x
        → pop crypto b ≡ (b, raise x)
        → PopView b
    part :
        (h : Header)
        → 19 ≤ length b.buf
        → decode_header (slice 0 19 b.buf) ≡ ok h
        → length b.buf < frame_size h
        → pop crypto b ≡ (b, ok none)
        → PopView b
    whole :
        (h : Header)
        → decode_header (slice 0 19 b.buf) ≡ ok h
        → frame_size h ≤ length b.buf
        → pop crypto b ≡ (record b { buf = drop (frame_size h) b.buf }, pop_frame crypto b h)
        → PopView b

  pop_long :
      (b : FrameBuffer)
      → ltb (length b.buf) 19 ≡ false
      → pop crypto b ≡ pop_body crypto b (decode_header (slice 0 19 b.buf))
  unfolding pop
  pop_long b e = rw e

  pop_body_part :
      (b : FrameBuffer) (h : Header)
      → ltb (length b.buf) (frame_size h) ≡ true
      → pop_body crypto b (ok h) ≡ (b, ok none)
  unfolding pop_body
  pop_body_part b h e = rw e

  pop_body_whole :
      (b : FrameBuffer) (h : Header)
      → ltb (length b.buf) (frame_size h) ≡ false
      → pop_body crypto b (ok h)
        ≡ (record b { buf = drop (frame_size h) b.buf }, pop_frame crypto b h)
  unfolding pop_body
  pop_body_whole b h e = rw e

  pop_body_refused : (b : FrameBuffer) (x : Exn) → pop_body crypto b (raise x) ≡ (b, raise x)
  unfolding pop_body
  pop_body_refused b x = refl

  pop_short : (b : FrameBuffer) → ltb (length b.buf) 19 ≡ true → pop crypto b ≡ (b, ok none)
  unfolding pop
  pop_short b e = rw e

  pub pop_view : (b : FrameBuffer) → PopView b
  pop_view b = elim (Bool-cases (ltb (length b.buf) 19)) [
    | inl e ↦ short (ltb→lt _ _ e) (pop_short b e)
    | inr e ↦ elim (Result-cases (decode_header (slice 0 19 b.buf))) [
      | inl (h, eh) ↦ elim (Bool-cases (ltb (length b.buf) (frame_size h))) [
        | inl p ↦
            part h (ltb_false→le _ _ e) eh (ltb→lt _ _ p)
              (pop_long b e ∙ ap (pop_body crypto b) eh ∙ pop_body_part b h p)
        | inr p ↦
            whole h eh (ltb_false→le _ _ p)
              (pop_long b e ∙ ap (pop_body crypto b) eh ∙ pop_body_whole b h p)
      ]
      | inr (x, ex) ↦
          refused x (ltb_false→le _ _ e) ex
            (pop_long b e ∙ ap (pop_body crypto b) ex ∙ pop_body_refused b x)
    ]
  ]

  pub pop_of_refused :
      (b : FrameBuffer) (x : Exn)
      → 19 ≤ length b.buf
      → decode_header (slice 0 19 b.buf) ≡ raise x
      → pop crypto b ≡ (b, raise x)
  pop_of_refused b x e ex =
      pop_long b (le→ltb_false _ _ e) ∙ ap (pop_body crypto b) ex ∙ pop_body_refused b x

  pub pop_of_whole :
      (b : FrameBuffer) (h : Header)
      → decode_header (slice 0 19 b.buf) ≡ ok h
      → frame_size h ≤ length b.buf
      → pop crypto b ≡ (record b { buf = drop (frame_size h) b.buf }, pop_frame crypto b h)
  pop_of_whole b h eh p =
      pop_long b (le→ltb_false _ _ (omega arith))
      ∙ ap (pop_body crypto b) eh
      ∙ pop_body_whole b h (le→ltb_false _ _ p)

  -- More bytes behind a whole frame change nothing of it.
  pub pop_frame-feed :
      (b : FrameBuffer) (h : Header) (more : Bytes)
      → frame_size h ≤ length b.buf
      → pop_frame crypto (feed b more) h ≡ pop_frame crypto b h
  unfolding pop_frame
  pop_frame-feed b h more p = rw (
    slice-append_le 0 19 b.buf more (omega arith) (omega arith),
    slice-append_le 19 (19 + h.length) b.buf more (omega arith) (omega arith),
    slice-append_le (19 + h.length) (frame_size h) b.buf more (omega arith) (omega arith),
  )
