-- ===== src/Framing/Chunks.antt =====
-- `FrameBuffer` (src/wireline/transport/framing.py) under any split of the stream into chunks.
use wireline.Framing.Turns.{pop-feed_of_error, pop-feed_of_frame}
use wireline.Base.{
  sym, Option, append-nil, ◌⊎◌, inl, inr, none, suc, ◌≡◌, refl, ap, ◌∙◌, List, [], ◌∷◌, ◌++◌,
  append_assoc, arith, length,
}
use wireline.Base.Bytes.{Bytes}
use wireline.Errors.{raise, Exn, ok}
use wireline.Codec.{Crypto}
use wireline.Framing.{
  FrameBuffer, Drained, End, feed, pop, drain, finished, raised, stuck, prepend, new_buffer,
}
use wireline.Framing.Drain.{
  raises, yields, waits, popped, drain-ne-stuck, drain_induction, drain_of_none, drain_of_raise,
  drain_of_some,
}

unfoldable pub concat : List Bytes → Bytes
concat [] = []
concat (c ∷ cs) = c ++ concat cs

feed-feed : (b : FrameBuffer) (c d : Bytes) → feed (feed b c) d ≡ feed b (c ++ d)
feed-feed b c d = rw (append_assoc b.buf c d)

-- A reader goes on with the next chunk only if the drain ended without an error.
unfoldable pub receive_turn : End → Drained → Drained → Drained
receive_turn finished d rest = prepend d.frames rest
receive_turn stuck d rest = d
receive_turn (raised x) d rest = d

module _ (crypto : Crypto) where
  drain-feed_finished :
      (b : FrameBuffer) (more : Bytes)
      → (drain crypto b).end ≡ finished
      → drain crypto (feed b more)
        ≡ prepend (drain crypto b).frames (drain crypto (feed (drain crypto b).buffer more))
  drain-feed_finished b more =
      drain_induction crypto
        (λ c.
          (drain crypto c).end ≡ finished
          → drain crypto (feed c more)
            ≡ prepend (drain crypto c).frames (drain crypto (feed (drain crypto c).buffer more)))
        (λ c e. rw (drain_of_none crypto c c e) (λ _. refl))
        (λ c c' x e. rw (drain_of_raise crypto c c' x e) (λ p. cc))
        (λ c c' f e ih. rw (drain_of_some crypto c c' f e) (λ p.
          drain_of_some crypto (feed c more) (feed c' more) f
            (pop-feed_of_frame crypto c c' f more e)
          ∙ ap (prepend (f ∷ [])) (ih p)))
        (suc (length b.buf)) b (omega arith)

  drain_of_raise_fst :
      (b : FrameBuffer) (x : Exn)
      → (pop crypto b).1 ≡ raise x
      → ((drain crypto b).frames ≡ []) × ((drain crypto b).end ≡ raised x)
  drain_of_raise_fst b x h = elim (popped (pop crypto b)) [
    | waits b' e ↦ absurd (ground (arith, ap (λ t. t.1) e))
    | yields b' f e ↦ absurd (ground (arith, ap (λ t. t.1) e))
    | raises b' y e ↦
        rw (drain_of_raise crypto b b' y e) (refl, ap raised (ground (arith, ap (λ t. t.1) e)))
  ]

  drain-feed_raised :
      (b : FrameBuffer) (more : Bytes) (x : Exn)
      → (drain crypto b).end ≡ raised x
      → ((drain crypto (feed b more)).frames ≡ (drain crypto b).frames)
        × ((drain crypto (feed b more)).end ≡ raised x)
  drain-feed_raised b more x =
      drain_induction crypto
        (λ c.
          (drain crypto c).end ≡ raised x
          → ((drain crypto (feed c more)).frames ≡ (drain crypto c).frames)
            × ((drain crypto (feed c more)).end ≡ raised x))
        (λ c e. rw (drain_of_none crypto c c e) (λ p. cc))
        (λ c c' y e. rw (drain_of_raise crypto c c' y e) (λ p.
          let (fs, en) =
            drain_of_raise_fst (feed c more) y (pop-feed_of_error crypto c c' y more e) in
          (fs, en ∙ p)))
        (λ c c' f e ih.
          rw
            (
              drain_of_some crypto c c' f e,
              drain_of_some crypto (feed c more) (feed c' more) f
                  (pop-feed_of_frame crypto c c' f more e),
            )
            (λ p. (ap (λ fs. f ∷ fs) (ih p).0, (ih p).1)))
        (suc (length b.buf)) b (omega arith)

  abbrev IsIdle : FrameBuffer → Type 0
  IsIdle b = pop crypto b ≡ (b, ok none)

  drain-IsIdle :
      (b : FrameBuffer) → (drain crypto b).end ≡ finished → IsIdle (drain crypto b).buffer
  drain-IsIdle b =
      drain_induction crypto (λ c. (drain crypto c).end ≡ finished → IsIdle (drain crypto c).buffer)
        (λ c e. rw (drain_of_none crypto c c e) (λ _. e))
        (λ c c' x e. rw (drain_of_raise crypto c c' x e) (λ p. cc))
        (λ c c' f e ih. rw (drain_of_some crypto c c' f e) ih) (suc (length b.buf)) b (omega arith)

  -- A reader that feeds each chunk as it arrives and drains the buffer, until an error.
  unfoldable pub receive : FrameBuffer → List Bytes → Drained
  receive b [] = record { frames = []; buffer = b; end = finished }
  receive b (c ∷ cs) =
      let d = drain crypto (feed b c) in let rest = receive d.buffer cs in receive_turn d.end d rest

  receive_nil :
      (b : FrameBuffer) → receive b [] ≡ record { frames = []; buffer = b; end = finished }
  unfolding receive
  receive_nil b = refl

  receive_finished :
      (b : FrameBuffer) (c : Bytes) (cs : List Bytes)
      → (drain crypto (feed b c)).end ≡ finished
      → receive b (c ∷ cs)
        ≡ prepend (drain crypto (feed b c)).frames (receive (drain crypto (feed b c)).buffer cs)
  unfolding receive receive_turn
  receive_finished b c cs e =
      let d = drain crypto (feed b c) in ap (λ en. receive_turn en d (receive d.buffer cs)) e

  receive_raised :
      (b : FrameBuffer) (c : Bytes) (cs : List Bytes) (x : Exn)
      → (drain crypto (feed b c)).end ≡ raised x
      → receive b (c ∷ cs) ≡ drain crypto (feed b c)
  unfolding receive receive_turn
  receive_raised b c cs x e =
      let d = drain crypto (feed b c) in ap (λ en. receive_turn en d (receive d.buffer cs)) e

  -- Two runs give the same frames and end alike; unless they raised, they leave the same buffer.
  pub record SameRun (d e : Drained) : Type 0 where
    pub frames : d.frames ≡ e.frames
    pub end : d.end ≡ e.end
    pub buffer : d.end ≡ finished → d.buffer ≡ e.buffer

  End-cases : (e : End) → (e ≡ finished) ⊎ ((e ≡ stuck) ⊎ ((x : Exn) × (e ≡ raised x)))
  End-cases finished = inl refl
  End-cases stuck = inr (inl refl)
  End-cases (raised x) = inr (inr (x, refl))

  receive-drain_idle :
      (b : FrameBuffer) (cs : List Bytes)
      → IsIdle b
      → SameRun (receive b cs) (drain crypto (feed b (concat cs)))
  unfolding concat
  receive-drain_idle b [] idle =
      let n = receive_nil b in
      let e : feed b [] ≡ b = rw (append-nil b.buf) in
      rw (e, drain_of_none crypto b b idle)
        (record {
          frames = ap Drained.frames n;
          end = ap Drained.end n;
          buffer = λ _. ap Drained.buffer n;
        })
  receive-drain_idle b (c ∷ cs) idle = elim (End-cases (drain crypto (feed b c)).end) [
    | inl e ↦
        let d = drain crypto (feed b c) in
        let ih = receive-drain_idle d.buffer cs (drain-IsIdle (feed b c) e) in
        rw
          (
            receive_finished b c cs e,
            ← feed-feed b c (concat cs),
            drain-feed_finished (feed b c) (concat cs) e,
          )
          (record {
            frames = ap (λ fs. d.frames ++ fs) ih.frames;
            end = ih.end;
            buffer = ih.buffer;
          })
    | inr (inl e) ↦ absurd (drain-ne-stuck crypto (feed b c) e)
    | inr (inr (x, e)) ↦
        let (fs, en) = drain-feed_raised (feed b c) (concat cs) x e in
        rw (receive_raised b c cs x e, ← feed-feed b c (concat cs))
          (record {
            frames = sym fs;
            end = e ∙ sym en;
            buffer = λ p. absurd (ground (arith, p, e));
          })
  ]

  -- However a stream is cut into chunks, feeding and draining them one by one gives the frames, and
  -- the error or the leftover bytes, of the whole stream fed at once.
  pub receive_chunks :
      (secret : Option Bytes) (cs : List Bytes)
      → SameRun
          (receive (new_buffer secret) cs)
          (drain crypto (feed (new_buffer secret) (concat cs)))
  receive_chunks secret cs = receive-drain_idle (new_buffer secret) cs (unfold pop in refl)
