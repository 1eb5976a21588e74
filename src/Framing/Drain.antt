-- ===== src/Framing/Drain.antt =====
-- `FrameBuffer.drain` of src/wireline/transport/framing.py: it ends, and what it leaves.
use wireline.Framing.Turns.{pop_shrinks, pop_waits}
use wireline.Base.{
  ℕ, zero, suc, ◌+◌, ◌<◌, ◌≡◌, refl, ap, ◌∙◌, ◌≢◌, Option, none, some, [], ◌∷◌, arith, length,
}
use wireline.Errors.{Exn, Result, raise, ok}
use wireline.Codec.{max_payload, Crypto, Frame}
use wireline.Framing.{
  FrameBuffer, Drained, pop, drain, drain_loop, drain_turn, finished, raised, stuck, prepend,
}

-- The outcomes of `pop`.
pub data Popped (o : FrameBuffer × Result (Option Frame)) : Type 0 where
  waits : (b : FrameBuffer) → o ≡ (b, ok none) → Popped o
  yields : (b : FrameBuffer) (f : Frame) → o ≡ (b, ok (some f)) → Popped o
  raises : (b : FrameBuffer) (x : Exn) → o ≡ (b, raise x) → Popped o

pub popped : (o : FrameBuffer × Result (Option Frame)) → Popped o
popped (b, ok none) = waits b refl
popped (b, ok (some f)) = yields b f refl
popped (b, raise x) = raises b x refl

drain_turn_eq :
    (p q : FrameBuffer → Drained) (o : FrameBuffer × Result (Option Frame))
    → ((b : FrameBuffer) (f : Frame) → o ≡ (b, ok (some f)) → p b ≡ q b)
    → drain_turn p o ≡ drain_turn q o
unfolding drain_turn
drain_turn_eq p q (b, ok none) h = refl
drain_turn_eq p q (b, ok (some f)) h = ap (prepend (f ∷ [])) (h b f refl)
drain_turn_eq p q (b, raise x) h = refl

module _ (crypto : Crypto) where
  -- Any fuel above the length of the buffer gives the same result.
  drain_loop_fuel :
      (n m : ℕ) (b : FrameBuffer)
      → length b.buf < n
      → length b.buf < m
      → drain_loop crypto n b ≡ drain_loop crypto m b
  unfolding drain_loop
  drain_loop_fuel zero m b h k = absurd (omega arith)
  drain_loop_fuel (suc n) zero b h k = absurd (omega arith)
  drain_loop_fuel (suc n) (suc m) b h k = drain_turn_eq _ _ (pop crypto b) λ b' f e.
      let s = pop_shrinks crypto b b' f e in drain_loop_fuel n m b' (omega arith) (omega arith)

  pub drain_of_none :
      (b b' : FrameBuffer)
      → pop crypto b ≡ (b', ok none)
      → drain crypto b ≡ record { frames = []; buffer = b'; end = finished }
  unfolding drain drain_loop
  drain_of_none b b' e = rw e

  pub drain_of_raise :
      (b b' : FrameBuffer) (x : Exn)
      → pop crypto b ≡ (b', raise x)
      → drain crypto b ≡ record { frames = []; buffer = b'; end = raised x }
  unfolding drain drain_loop
  drain_of_raise b b' x e = rw e

  pub drain_of_some :
      (b b' : FrameBuffer) (f : Frame)
      → pop crypto b ≡ (b', ok (some f))
      → drain crypto b ≡ prepend (f ∷ []) (drain crypto b')
  unfolding drain drain_loop
  drain_of_some b b' f e =
      let s = pop_shrinks crypto b b' f e in
      rw e (
        ap (prepend (f ∷ []))
          (drain_loop_fuel (length b.buf) (suc (length b'.buf)) b' (omega arith) (omega arith)))

  -- An induction over the frames that a buffer yields.
  pub drain_induction :
      (P : FrameBuffer → Type 0)
      → ((b : FrameBuffer) → pop crypto b ≡ (b, ok none) → P b)
      → ((b b' : FrameBuffer) (x : Exn) → pop crypto b ≡ (b', raise x) → P b)
      → ((b b' : FrameBuffer) (f : Frame) → pop crypto b ≡ (b', ok (some f)) → P b' → P b)
      → (n : ℕ) (b : FrameBuffer) → length b.buf < n
      → P b
  drain_induction P hn hr hs zero b h = absurd (omega arith)
  drain_induction P hn hr hs (suc n) b h = elim (popped (pop crypto b)) [
    | waits b' e ↦ hn b (e ∙ ap (λ c. (c, ok none)) (pop_waits crypto b b' e).0)
    | yields b' f e ↦
        let s = pop_shrinks crypto b b' f e in
        hs b b' f e (drain_induction P hn hr hs n b' (omega arith))
    | raises b' x e ↦ hr b b' x e
  ]

  -- `drain` ends on every buffer: its loop never runs out of fuel.
  pub drain-ne-stuck : (b : FrameBuffer) → (drain crypto b).end ≢ stuck
  drain-ne-stuck b =
      drain_induction (λ c. (drain crypto c).end ≢ stuck)
        (λ c e. rw (drain_of_none c c e) (λ p. cc))
        (λ c c' x e. rw (drain_of_raise c c' x e) (λ p. cc))
        (λ c c' f e ih. rw (drain_of_some c c' f e) ih) (suc (length b.buf)) b (omega arith)

  -- What is left after a drain that did not raise is less than one frame of the largest size.
  pub drain_leftover :
      (b : FrameBuffer)
      → (drain crypto b).end ≡ finished
      → length (drain crypto b).buffer.buf < 51 + max_payload
  drain_leftover b =
      drain_induction
        (λ c.
          (drain crypto c).end ≡ finished → length (drain crypto c).buffer.buf < 51 + max_payload)
        (λ c e. rw (drain_of_none c c e) (λ _. (pop_waits crypto c c e).1))
        (λ c c' x e. rw (drain_of_raise c c' x e) (λ p. cc))
        (λ c c' f e ih. rw (drain_of_some c c' f e) ih) (suc (length b.buf)) b (omega arith)
