-- ===== src/Framing/Turns.antt =====
-- Each outcome of `FrameBuffer.pop` (src/wireline/transport/framing.py) and what it means for the
-- buffer, before and after more bytes have come.
use wireline.Codec.Layout.{decode_header-Accepts}
use wireline.Base.{
  ◌+◌, ◌≤◌, ◌<◌, ◌≡◌, ap, ◌∙◌, ◌≢◌, none, some, arith, length, length-append, length-drop,
  drop-append_le, slice-append_le,
}
use wireline.Base.Bytes.{Bytes}
use wireline.Errors.{Exn, raise, ok}
use wireline.Codec.{max_payload, decode_header, Header, Crypto, Frame}
use wireline.Framing.{FrameBuffer, feed, pop, pop_frame, frame_size}
use wireline.Framing.Pop.{
  pop_view, short, refused, part, whole, pop_of_whole, pop_of_refused, pop_frame-feed,
}

module _ (crypto : Crypto) where
  pub pop_frame-ne-none : (b : FrameBuffer) (h : Header) → pop_frame crypto b h ≢ ok none
  unfolding pop_frame
  pop_frame-ne-none b h e = ground arith

  -- `pop` waits only while the buffer holds less than one frame of the largest size.
  pub pop_waits :
      (b b' : FrameBuffer)
      → pop crypto b ≡ (b', ok none)
      → (b' ≡ b) × (length b.buf < 51 + max_payload)
  pop_waits b b' e = elim (pop_view crypto b) [
    | short l q ↦ (cc (q, e), omega arith)
    | refused x l r q ↦ absurd (ground arith)
    | part h l r p q ↦ (cc (q, e), omega (arith, (decode_header-Accepts _ h r).fits))
    | whole h r p q ↦ absurd (pop_frame-ne-none b h (cc (q, e)))
  ]

  -- A frame that comes out takes at least 51 bytes with it.
  pub pop_shrinks :
      (b b' : FrameBuffer) (f : Frame)
      → pop crypto b ≡ (b', ok (some f))
      → length b'.buf + 51 ≤ length b.buf
  pop_shrinks b b' f e = elim (pop_view crypto b) [
    | short l q ↦ absurd (ground arith)
    | refused x l r q ↦ absurd (ground arith)
    | part h l r p q ↦ absurd (ground arith)
    | whole h r p q ↦ ground (arith, length-drop (frame_size h) b.buf)
  ]

  -- A frame that is complete comes out as before, whatever follows it.
  pub pop-feed_of_frame :
      (b b' : FrameBuffer) (f : Frame) (more : Bytes)
      → pop crypto b ≡ (b', ok (some f))
      → pop crypto (feed b more) ≡ (feed b' more, ok (some f))
  pop-feed_of_frame b b' f more e = elim (pop_view crypto b) [
    | short l q ↦ absurd (ground arith)
    | refused x l r q ↦ absurd (ground arith)
    | part h l r p q ↦ absurd (ground arith)
    | whole h r p q ↦
        pop_of_whole crypto (feed b more) h
          (ap decode_header (slice-append_le 0 19 b.buf more (omega arith) (omega arith)) ∙ r)
          (omega (arith, length-append b.buf more))
        ∙ rw (pop_frame-feed crypto b h more p, drop-append_le (frame_size h) b.buf more p)
            (cc (q, e))
  ]

  -- An error stays the same error, whatever follows.
  pub pop-feed_of_error :
      (b b' : FrameBuffer) (x : Exn) (more : Bytes)
      → pop crypto b ≡ (b', raise x)
      → (pop crypto (feed b more)).1 ≡ raise x
  pop-feed_of_error b b' x more e = elim (pop_view crypto b) [
    | short l q ↦ absurd (ground arith)
    | refused y l r q ↦
        ap (λ t. t.1)
          (pop_of_refused crypto (feed b more) y (omega (arith, length-append b.buf more))
            (ap decode_header (slice-append_le 0 19 b.buf more (omega arith) (omega arith)) ∙ r))
        ∙ cc (q, e)
    | part h l r p q ↦ absurd (ground arith)
    | whole h r p q ↦
        ap (λ t. t.1)
          (pop_of_whole crypto (feed b more) h
            (ap decode_header (slice-append_le 0 19 b.buf more (omega arith) (omega arith)) ∙ r)
            (omega (arith, length-append b.buf more)))
        ∙ rw (pop_frame-feed crypto b h more p) (cc (q, e))
  ]
