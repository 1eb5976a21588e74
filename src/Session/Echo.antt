-- ===== src/Session/Echo.antt =====
-- What a READY session (src/wireline/session.py) answers to DATA.
use wireline.Session.{
  reply, ready, catch, next_seq, reply_with, dispatch, ServerSession, dispatch_in, dispatch_ready,
  is_over, make_frame, on_data, on_frame,
}
use wireline.Messages.{Json}
use wireline.Codec.{data_msg, Frame}
use wireline.Errors.{ok}
use wireline.Base.Int.{◌<ℤ◌, leb_ℤ, ℤ, pos}
use wireline.Base.Text.{Text}
use wireline.Base.{ℕ, ◌+◌, ◌%◌, ◌^◌, ◌≡◌, false, arith, refl}

pub ahead_leb : (n : ℤ) (m : ℕ) → n <ℤ pos m → leb_ℤ (pos m) n ≡ false
ahead_leb n m h = ground arith

module _ (json : Json) (fresh : Text) where
  abbrev pub echo_of : Frame → ServerSession → Frame
  echo_of f s = record { msg_type = data_msg; seq = s.out_seq; payload = f.payload; flags = 0 }

  pub on_data_frame :
      (f : Frame) (s : ServerSession)
      → f.msg_type ≡ data_msg
      → s.state ≡ ready
      → s.last_peer_seq <ℤ pos f.seq
      → on_frame json f fresh s ≡ (
        ok (reply (echo_of f s)),
        record s { last_peer_seq = pos f.seq; out_seq = (s.out_seq + 1) % 2 ^ 32 },
      )
  unfolding on_frame dispatch dispatch_in dispatch_ready on_data reply_with make_frame next_seq
      catch is_over
  on_data_frame f s t r h = rw (t, r, ahead_leb s.last_peer_seq f.seq h) refl
