-- ===== src/Server/Ends.antt =====
-- Every connection of `WirelineServer` (src/wireline/server.py) whose peer ends its stream comes to
-- its end.
use wireline.Base.{
  sym, ◌∙◌, none, sym, ◌∙◌, none, ℕ, zero, suc, ◌+◌, ◌<◌, ◌≤◌, ◌≡◌, refl, Bool, true, false,
  Bool-cases, inl, inr, Option, some, List, [], ◌∷◌, length, arith, if◌then◌else◌,
}
use wireline.Base.Bytes.{Bytes}
use wireline.Base.Text.{Text}
use wireline.Errors.{
  Exn, Result, ok, raise, protocol_error, timeout, incomplete_read, other_error, Result-cases,
}
use wireline.Codec.{Crypto, Frame}
use wireline.Messages.{Json}
use wireline.Framing.{read_frame, FrameBuffer, pop}
use wireline.Framing.Turns.{pop_shrinks}
use wireline.Framing.Stream.{read_frame-pop, of_pop, buffer_of}
use wireline.Session.{ServerSession, Reaction, is_over, on_frame}
use wireline.Server.{Connection, stopped, proceed, react, give_up, turn, handle}

abbrev pub IsEnded : Connection → Type 0
IsEnded c = (r : Result (Unit {0})) × (c.ended ≡ some r)

proceed-IsEnded :
    (o : List Bytes × Result (Unit {0})) (s : ServerSession) (next : Connection)
    → IsEnded next
    → IsEnded (proceed o s next)
unfolding proceed
proceed-IsEnded (ws, raise e) s next h = (raise e, refl)
proceed-IsEnded (ws, ok _) s next h = h

unfoldable pub read_then :
    Result (Frame × Bytes)
    → Text
    → (Bytes → List (Result Frame × Text))
    → List (Result Frame × Text)
read_then (raise e) fresh rest = (raise e, fresh) ∷ []
read_then (ok (frame, stream)) fresh rest = (ok frame, fresh) ∷ rest stream

module _ (crypto : Crypto) (secret : Bytes) where
  -- How the reads of a stream end that no timeout interrupts: after an exception there are no more.
  unfoldable pub reads : ℕ → Text → Bytes → List (Result Frame × Text)
  unfolding read_then
  reads zero fresh stream = []
  reads (suc fuel) fresh stream =
      read_then (read_frame crypto stream secret) fresh (reads fuel fresh)

  of_pop_shrinks :
      (b : FrameBuffer) (o : FrameBuffer × Result (Option Frame)) (f : Frame) (rest : Bytes)
      → pop crypto b ≡ o
      → of_pop o ≡ ok (f, rest)
      → length rest + 51 ≤ length b.buf
  unfolding of_pop
  of_pop_shrinks b (b', ok none) f rest q e = cc
  of_pop_shrinks b (b', raise x) f rest q e = cc
  of_pop_shrinks b (b', ok (some g)) f rest q e = ground (arith, pop_shrinks crypto b b' g q)

  read_frame_shrinks :
      (stream : Bytes) (f : Frame) (rest : Bytes)
      → read_frame crypto stream secret ≡ ok (f, rest)
      → length rest + 51 ≤ length stream
  read_frame_shrinks stream f rest e =
      of_pop_shrinks (buffer_of crypto secret stream) (pop crypto (buffer_of crypto secret stream))
        f rest refl (sym (read_frame-pop crypto secret stream) ∙ e)

module _ (crypto : Crypto) (json : Json) (secret : Bytes) where
  react-IsEnded :
      (o : Result Reaction × ServerSession) (rest : ServerSession → Connection)
      → ((s : ServerSession) → IsEnded (rest s))
      → IsEnded (react crypto json secret o rest)
  unfolding react
  react-IsEnded (raise e, s) rest k = (raise e, refl)
  react-IsEnded (ok r, s) rest k =
      proceed-IsEnded _ s (if r.close then stopped s (ok tt) else rest s) (chosen r.close)
    where
      chosen : (b : Bool) → IsEnded (if b then stopped s (ok tt) else rest s)
      chosen true = (ok tt, refl)
      chosen false = k s

  raised-IsEnded :
      (e : Exn) (fresh : Text) (s : ServerSession) (rest : ServerSession → Connection)
      → IsEnded (turn crypto json secret (raise e) fresh s rest)
  unfolding turn give_up
  raised-IsEnded (protocol_error exc) fresh s rest =
      proceed-IsEnded _ _ (stopped _ (ok tt)) (ok tt, refl)
  raised-IsEnded timeout fresh s rest = proceed-IsEnded _ _ (stopped _ (ok tt)) (ok tt, refl)
  raised-IsEnded incomplete_read fresh s rest = (raise incomplete_read, refl)
  raised-IsEnded other_error fresh s rest = (raise other_error, refl)

  cons-IsEnded :
      (outcome : Result Frame) (fresh : Text) (os : List (Result Frame × Text)) (s : ServerSession)
      → IsEnded (turn crypto json secret outcome fresh s (handle crypto json secret os))
      → IsEnded (handle crypto json secret ((outcome, fresh) ∷ os) s)
  unfolding handle
  cons-IsEnded outcome fresh os s h = elim (Bool-cases (is_over s.state)) [
    | inl over ↦ rw over (ok tt, refl)
    | inr live ↦ rw live h
  ]

  ends_by :
      (fuel : ℕ) (fresh : Text) (stream : Bytes) (s : ServerSession)
      → length stream < fuel
      → IsEnded (handle crypto json secret (reads crypto secret fuel fresh stream) s)
  unfolding reads turn
  ends_by zero fresh stream s l = absurd (omega arith)
  ends_by (suc fuel) fresh stream s l = elim (Result-cases (read_frame crypto stream secret)) [
    | inr (e, q) ↦ rw q (
        cons-IsEnded (raise e) fresh [] s (raised-IsEnded e fresh s (handle crypto json secret [])))
    | inl ((f, rest), q) ↦ rw q (
        cons-IsEnded (ok f) fresh (reads crypto secret fuel fresh rest) s (
          react-IsEnded (on_frame json f fresh s)
            (handle crypto json secret (reads crypto secret fuel fresh rest))
            (λ s'.
              ends_by fuel fresh rest s'
                (omega (arith, read_frame_shrinks crypto secret stream f rest q, l)))))
  ]

  -- A peer that sends any bytes, valid or not, and then ends its stream brings its connection to an
  -- end, whatever the state of the session: the loop turns at most once more than there are bytes.
  pub connection_ends :
      (fresh : Text) (stream : Bytes) (s : ServerSession)
      → IsEnded (handle crypto json secret (reads crypto secret (length stream + 1) fresh stream) s)
  connection_ends fresh stream s = ends_by (length stream + 1) fresh stream s (omega arith)
