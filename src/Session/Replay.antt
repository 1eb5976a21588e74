-- ===== src/Session/Replay.antt =====
-- What a session (src/wireline/session.py) does with a frame that it has seen, and once it is over.
use wireline.Base.{◌≤◌, false, List, ◌∷◌, All, ℕ, ◌≡◌, refl, ◌∙◌, ◌⊎◌, inl, inr, true, arith}
use wireline.Base.Int.{leb_ℤ, pos}
use wireline.Base.Text.{Text}
use wireline.Errors.{
  ErrorCode, Result, protocol_error, incomplete_read, timeout, other_error, raise, ok,
}
use wireline.Codec.{Frame, MsgType, hello, error}
use wireline.Messages.{Json, decode_hello, decode_error}
use wireline.Session.{
  ServerSession, State, Reaction, is_over, new, welcome, on_error, dispatch, dispatch_in,
  dispatch_new, dispatch_ready, catch, on_frame, error_reaction,
}
use wireline.Session.Cases.{advanced, handled, ignored, replayed, dispatched}
use wireline.Session.Runs.{
  run_induction, emitted-snd, Event, received, undecodable, idle, acknowledged, step, run, emitted,
}

-- The session is over, or it has accepted the number `n` or a later one.
abbrev Past : ℕ → ServerSession → Type 0
Past n s = (is_over s.state ≡ true) ⊎ (leb_ℤ (pos n) s.last_peer_seq ≡ true)

-- A number that is past stays so when a later one is accepted.
later :
    (n m : ℕ) (s : ServerSession)
    → Past n s
    → is_over s.state ≡ false
    → leb_ℤ (pos m) s.last_peer_seq ≡ false
    → leb_ℤ (pos n) (pos m) ≡ true
later n m s (inl o) e l = ground arith
later n m s (inr h) e l = ground arith

earlier : (n m : ℕ) (s : ServerSession) → n ≤ m → Past m s → Past n s
earlier n m s h (inl o) = inl o
earlier n m s h (inr l) = inr (ground arith)

module _ (json : Json) where
  welcome-last :
      (r : Result (Text × Text)) (fresh : Text) (s : ServerSession)
      → (welcome json r fresh s).1.last_peer_seq ≡ s.last_peer_seq
  unfolding welcome
  welcome-last (raise e) fresh s = refl
  welcome-last (ok (c, n)) fresh s = refl

  on_error-last :
      (r : Result (ErrorCode × Text)) (s : ServerSession)
      → (on_error json r s).1.last_peer_seq ≡ s.last_peer_seq
  unfolding on_error
  on_error-last (raise e) s = refl
  on_error-last (ok (c, m)) s = refl

  dispatch_ready-last :
      (t : MsgType) (frame : Frame) (s : ServerSession)
      → (dispatch_ready json t frame s).1.last_peer_seq ≡ s.last_peer_seq
  unfolding dispatch_ready
  dispatch_ready-last error frame s = on_error-last (decode_error json frame.payload) s
  dispatch_ready-last _ frame s = refl

  dispatch_new-last :
      (t : MsgType) (frame : Frame) (fresh : Text) (s : ServerSession)
      → (dispatch_new json t frame fresh s).1.last_peer_seq ≡ s.last_peer_seq
  unfolding dispatch_new
  dispatch_new-last hello frame fresh s = welcome-last (decode_hello json frame.payload) fresh s
  dispatch_new-last _ frame fresh s = refl

  dispatch_in-last :
      (st : State) (frame : Frame) (fresh : Text) (s : ServerSession)
      → (dispatch_in json st frame fresh s).1.last_peer_seq ≡ s.last_peer_seq
  unfolding dispatch_in
  dispatch_in-last new frame fresh s = dispatch_new-last frame.msg_type frame fresh s
  dispatch_in-last _ frame fresh s = dispatch_ready-last frame.msg_type frame s

  catch-last :
      (o : Result Reaction × ServerSession) → (catch json o).1.last_peer_seq ≡ o.1.last_peer_seq
  unfolding catch
  catch-last (ok r, s) = refl
  catch-last (raise (protocol_error e), s) = refl
  catch-last (raise incomplete_read, s) = refl
  catch-last (raise timeout, s) = refl
  catch-last (raise other_error, s) = refl

  -- The number of a frame that gets to the dispatch becomes the last one accepted.
  dispatched-last :
      (frame : Frame) (fresh : Text) (s : ServerSession)
      → (catch json (dispatch json frame fresh (advanced json frame fresh s))).1.last_peer_seq
        ≡ pos frame.seq
  unfolding dispatch
  dispatched-last frame fresh s =
      catch-last (dispatch_in json s.state frame fresh (advanced json frame fresh s))
      ∙ dispatch_in-last s.state frame fresh (advanced json frame fresh s)

  on_frame-Past :
      (n : ℕ) (frame : Frame) (fresh : Text) (s : ServerSession)
      → Past n s
      → Past n (on_frame json frame fresh s).1
  on_frame-Past n frame fresh s p = elim (handled json frame fresh s) [
    | ignored e q ↦ rw q p
    | replayed e l q ↦ rw q (unfold error_reaction is_over in inl refl)
    | dispatched e l q ↦ rw (q, dispatched-last frame fresh s) (inr (later n frame.seq s p e l))
  ]

  received-Past :
      (frame : Frame) (fresh : Text) (s : ServerSession)
      → Past frame.seq (on_frame json frame fresh s).1
  received-Past frame fresh s = elim (handled json frame fresh s) [
    | ignored e q ↦ rw q (inl e)
    | replayed e l q ↦ rw q (unfold error_reaction is_over in inl refl)
    | dispatched e l q ↦ rw (q, dispatched-last frame fresh s) (inr (ground arith))
  ]

  step-Past : (n : ℕ) (e : Event) (s : ServerSession) → Past n s → Past n (step json e s).1
  unfolding step
  step-Past n (received frame fresh) s p =
      rw (emitted-snd json (on_frame json frame fresh s)) (on_frame-Past n frame fresh s p)
  step-Past n (undecodable exc) s p = unfold is_over in inl refl
  step-Past n idle s p = unfold is_over in inl refl
  step-Past n (acknowledged k) s p = p

  -- No reply to the peer but an ERROR.
  abbrev pub AllErrors : List Frame → Type 0
  AllErrors = All (λ f. f.msg_type ≡ error)

  refused :
      (g : Frame) (fresh : Text) (s : ServerSession)
      → Past g.seq s
      → AllErrors (step json (received g fresh) s).0
        × (is_over (step json (received g fresh) s).1.state ≡ true)
  unfolding step
  refused g fresh s p = elim (handled json g fresh s) [
    | ignored e q ↦ rw q (unfold emitted in (tt, e))
    | replayed e l q ↦ rw q (unfold emitted error_reaction is_over in ((refl, tt), refl))
    | dispatched e l q ↦ absurd (not_past p e l)
  ]
    where
      not_past :
          Past g.seq s → is_over s.state ≡ false → leb_ℤ (pos g.seq) s.last_peer_seq ≡ false → ⊥
      not_past (inl o) e l = ground arith
      not_past (inr h) e l = ground arith

  start :
      (f : Frame) (fresh : Text) (s : ServerSession) → Past f.seq (step json (received f fresh) s).1
  unfolding step
  start f fresh s = rw (emitted-snd json (on_frame json f fresh s)) (received-Past f fresh s)

  -- Once a session has been given a frame, a frame whose number is not greater gets no answer but an
  -- ERROR, and leaves the session over, whatever happened in between: no captured frame of a
  -- connection is executed a second time on it.
  pub replay_refused :
      (s : ServerSession) (f g : Frame) (fresh fresh' : Text) (es : List Event)
      → g.seq ≤ f.seq
      → AllErrors (step json (received g fresh') (run json (received f fresh ∷ es) s).1).0
        × (is_over (step json (received g fresh') (run json (received f fresh ∷ es) s).1).1.state
            ≡ true)
  unfolding run
  replay_refused s f g fresh fresh' es h = refused g fresh' (run json (received f fresh ∷ es) s).1 (
      run_induction json (Past g.seq) (step-Past g.seq) es (step json (received f fresh) s).1
        (earlier g.seq f.seq (step json (received f fresh) s).1 h (start f fresh s)))
