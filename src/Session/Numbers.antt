-- ===== src/Session/Numbers.antt =====
-- The numbers of the frames that a session (src/wireline/session.py) sends.
use wireline.Base.{ℕ, ◌+◌, ◌%◌, ◌^◌, ◌≡◌, refl, sym, ap, List, [], ◌∷◌, ◌++◌}
use wireline.Base.Text.{Text}
use wireline.Errors.{
  ErrorCode, Result, protocol_error, incomplete_read, timeout, other_error, raise, ok,
}
use wireline.Codec.{Frame, MsgType, hello, hello_ack, data_msg, ack, ping, pong, error, bye}
use wireline.Messages.{Json, decode_hello, decode_error}
use wireline.Session.{
  ServerSession, State, Reaction, new, welcome, on_error, dispatch, dispatch_in, dispatch_new,
  dispatch_ready, catch, on_frame, error_reaction,
}
use wireline.Session.Cases.{advanced, handled, ignored, replayed, dispatched}
use wireline.Session.Runs.{
  emitted-snd, Event, received, undecodable, idle, acknowledged, step, run, emitted,
}

-- The frames are numbered one by one from `n`, modulo 2 ^ 32, and the next number is `m`.
abbrev pub Numbered : ℕ → List Frame → ℕ → Type 0
Numbered n [] m = n ≡ m
Numbered n (f ∷ fs) m = (f.seq ≡ n) × Numbered ((n + 1) % 2 ^ 32) fs m

Numbered-append :
    (n k m : ℕ) (fs gs : List Frame) → Numbered n fs k → Numbered k gs m → Numbered n (fs ++ gs) m
Numbered-append n k m [] gs h h' = rw h h'
Numbered-append n k m (f ∷ fs) gs h h' = (h.0, Numbered-append ((n + 1) % 2 ^ 32) k m fs gs h.1 h')

-- A call from a session whose next number was `n`.
abbrev Counts : ℕ → Result Reaction × ServerSession → Type 0
Counts n o = Numbered n (emitted o).0 o.1.out_seq

module _ (json : Json) where
  welcome-Counts :
      (r : Result (Text × Text)) (fresh : Text) (s : ServerSession)
      → Counts s.out_seq (welcome json r fresh s)
  unfolding welcome emitted
  welcome-Counts (raise e) fresh s = refl
  welcome-Counts (ok (c, n)) fresh s = (refl, refl)

  on_error-Counts :
      (r : Result (ErrorCode × Text)) (s : ServerSession) → Counts s.out_seq (on_error json r s)
  unfolding on_error emitted
  on_error-Counts (raise e) s = refl
  on_error-Counts (ok (c, m)) s = refl

  dispatch_ready-Counts :
      (t : MsgType) (frame : Frame) (s : ServerSession)
      → Counts s.out_seq (dispatch_ready json t frame s)
  unfolding dispatch_ready emitted
  dispatch_ready-Counts hello frame s = refl
  dispatch_ready-Counts hello_ack frame s = refl
  dispatch_ready-Counts ping frame s = (refl, refl)
  dispatch_ready-Counts pong frame s = refl
  dispatch_ready-Counts data_msg frame s = (refl, refl)
  dispatch_ready-Counts ack frame s = refl
  dispatch_ready-Counts bye frame s = (refl, refl)
  dispatch_ready-Counts error frame s = on_error-Counts (decode_error json frame.payload) s

  dispatch_new-Counts :
      (t : MsgType) (frame : Frame) (fresh : Text) (s : ServerSession)
      → Counts s.out_seq (dispatch_new json t frame fresh s)
  unfolding dispatch_new emitted
  dispatch_new-Counts hello frame fresh s = welcome-Counts (decode_hello json frame.payload) fresh s
  dispatch_new-Counts _ frame fresh s = refl

  dispatch_in-Counts :
      (st : State) (frame : Frame) (fresh : Text) (s : ServerSession)
      → Counts s.out_seq (dispatch_in json st frame fresh s)
  unfolding dispatch_in
  dispatch_in-Counts new frame fresh s = dispatch_new-Counts frame.msg_type frame fresh s
  dispatch_in-Counts _ frame fresh s = dispatch_ready-Counts frame.msg_type frame s

  catch-Counts :
      (n : ℕ) (o : Result Reaction × ServerSession) → Counts n o → Counts n (catch json o)
  unfolding catch emitted
  catch-Counts n (ok r, s) h = h
  catch-Counts n (raise (protocol_error e), s) h = (sym h, ap (λ k. (k + 1) % 2 ^ 32) h)
  catch-Counts n (raise incomplete_read, s) h = h
  catch-Counts n (raise timeout, s) h = h
  catch-Counts n (raise other_error, s) h = h

  on_frame-Counts :
      (frame : Frame) (fresh : Text) (s : ServerSession)
      → Counts s.out_seq (on_frame json frame fresh s)
  unfolding dispatch
  on_frame-Counts frame fresh s = elim (handled json frame fresh s) [
    | ignored e q ↦ rw q (unfold emitted in refl)
    | replayed e l q ↦ rw q (unfold emitted error_reaction in (refl, refl))
    | dispatched e l q ↦ rw q (
        catch-Counts s.out_seq _
          (dispatch_in-Counts s.state frame fresh (advanced json frame fresh s)))
  ]

  step-Numbered :
      (e : Event) (s : ServerSession)
      → Numbered s.out_seq (step json e s).0 (step json e s).1.out_seq
  unfolding step
  step-Numbered (received frame fresh) s =
      rw (emitted-snd json (on_frame json frame fresh s)) (on_frame-Counts frame fresh s)
  step-Numbered (undecodable exc) s = (refl, refl)
  step-Numbered idle s = refl
  step-Numbered (acknowledged n) s = (refl, refl)

  -- Over any history a session numbers the frames that it sends, replies, acks and errors alike, one
  -- by one from its next number on, modulo 2 ^ 32, and skips none.
  pub run-Numbered :
      (es : List Event) (s : ServerSession)
      → Numbered s.out_seq (run json es s).0 (run json es s).1.out_seq
  unfolding run
  run-Numbered [] s = refl
  run-Numbered (e ∷ es) s =
      Numbered-append s.out_seq (step json e s).1.out_seq _ (step json e s).0 _ (step-Numbered e s)
        (run-Numbered es (step json e s).1)
