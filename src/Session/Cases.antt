-- ===== src/Session/Cases.antt =====
-- The three ways through `on_frame` of src/wireline/session.py.
use wireline.Base.{◌≡◌, inl, inr, true, false, some, [], Bool-cases}
use wireline.Base.Int.{leb_ℤ, pos}
use wireline.Base.Text.{Text}
use wireline.Errors.{err_seq, ok}
use wireline.Codec.{Frame}
use wireline.Messages.{Json}
use wireline.Session.{ServerSession, Reaction, is_over, dispatch, catch, on_frame, error_reaction}

module _ (json : Json) (frame : Frame) (fresh : Text) (s : ServerSession) where
  -- The session as `_dispatch` finds it.
  abbrev pub advanced : ServerSession
  advanced = record s { last_peer_seq = pos frame.seq }

  abbrev pub replay_error : Reaction × ServerSession
  replay_error =
      error_reaction json err_seq (wireline.Session.Texts.seq_not_greater frame.seq s.last_peer_seq)
        s

  pub data Handled : Type 0 where
    ignored :
        is_over s.state ≡ true
        → on_frame json frame fresh s ≡ (
          ok (record {
            frames = [];
            close = true;
            reason = some wireline.Session.Texts.frame_after_close;
          }),
          s,
        )
        → Handled
    replayed :
        is_over s.state ≡ false
        → leb_ℤ (pos frame.seq) s.last_peer_seq ≡ true
        → on_frame json frame fresh s ≡ (ok replay_error.0, replay_error.1)
        → Handled
    dispatched :
        is_over s.state ≡ false
        → leb_ℤ (pos frame.seq) s.last_peer_seq ≡ false
        → on_frame json frame fresh s ≡ catch json (dispatch json frame fresh advanced)
        → Handled

  pub handled : Handled
  unfolding on_frame
  handled = elim (Bool-cases (is_over s.state)) [
    | inl e ↦ ignored e (rw e)
    | inr e ↦ elim (Bool-cases (leb_ℤ (pos frame.seq) s.last_peer_seq)) [
      | inl l ↦ replayed e l (rw (e, l))
      | inr l ↦ dispatched e l (rw (e, l))
    ]
  ]
