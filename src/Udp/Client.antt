-- ===== src/Udp/Client.antt =====
-- How `UdpClient` of src/wireline/transport/udp.py finds the answer to a request among datagrams.
pub mod Answers
pub mod Requests
pub mod Lifecycle
mod Tests
use wireline.Base.{
  ℕ, Bool, true, false, Option, none, some, List, [], ◌∷◌, ◌++◌, ◌==◌, if◌then◌else◌, length,
}
use wireline.Base.Int.{pos, ℤ, eqb_ℤ}
use wireline.Base.Text.{Text, codes, str_ℕ}
use wireline.Base.Bytes.{Bytes}
use wireline.Errors.{
  ◌>>◌, protocol_error, other_error, raise, Result, ok, fail, ErrorCode, err_length, ◌>>=◌,
}
use wireline.Codec.{Crypto, Frame, MsgType, ack, error}
use wireline.Messages.{Json, decode_ack, decode_error}
use wireline.Framing.{FrameBuffer, Drained, End, finished, stuck, raised, feed, new_buffer, drain}

unfoldable trailing_bytes : ℕ → Text
trailing_bytes n = str_ℕ n ++ codes " trailing bytes in datagram"

-- What follows the loop over `buffer.drain()`, which never is `stuck`.
unfoldable pub after_drain : End → List Frame → ℕ → Result (List Frame)
unfolding trailing_bytes
after_drain (raised x) frames n = raise x
after_drain stuck frames n = raise other_error
after_drain finished frames n = if n == 0 then ok frames else fail err_length (trailing_bytes n)

-- `msg_type is MsgType.ACK`, `msg_type is MsgType.ERROR`
unfoldable pub is_ack : MsgType → Bool
is_ack ack = true
is_ack _ = false

unfoldable pub is_error : MsgType → Bool
is_error error = true
is_error _ = false

-- `frames[-1]` of a list that begins with `f`
unfoldable pub last_frame : Frame → List Frame → Frame
last_frame f [] = f
last_frame f (g ∷ fs) = last_frame g fs

unfoldable pub split_datagram : Crypto → Bytes → Bytes → Result (List Frame)
unfolding after_drain
split_datagram crypto datagram secret =
    let d = drain crypto (feed (new_buffer (some secret)) datagram) in
    after_drain d.end d.frames (length d.buffer.buf)

module _ (json : Json) where
  -- An ERROR reply becomes an exception.
  unfoldable pub reply_of : Frame → Result Frame
  unfolding is_error
  reply_of f =
      if is_error f.msg_type
      then (do
        (code, message) ← decode_error json f.payload
        raise (protocol_error (record { code = code; message = message })))
      else ok f

  -- The number that the ACK in front names. `none` is `continue`: the datagram is dropped.
  unfoldable pub accept : ℕ → Frame → Result ℤ → Option (Result Frame)
  unfolding reply_of
  accept seq reply (raise (protocol_error e)) = none
  accept seq reply (raise x) = some (raise x)
  accept seq reply (ok n) = if eqb_ℤ n (pos seq) then some (reply_of reply) else none

  -- One datagram, split. Without a frame, `frames[0]` raises an `IndexError`.
  unfoldable pub judge : ℕ → Result (List Frame) → Option (Result Frame)
  unfolding accept is_ack last_frame
  judge seq (raise (protocol_error e)) = none
  judge seq (raise x) = some (raise x)
  judge seq (ok []) = some (raise other_error)
  judge seq (ok (f ∷ fs)) =
      if is_ack f.msg_type then accept seq (last_frame f fs) (decode_ack json f.payload) else none

-- An outcome with the queue behind the datagram, or else the rest of the loop.
unfoldable pub settle :
    Option (Result Frame)
    → List Bytes
    → Option (Result Frame) × List Bytes
    → Option (Result Frame) × List Bytes
settle none queue later = later
settle (some r) queue later = (some r, queue)

-- `_await_reply` over the queue: its result, `none` while it waits for more, and the queue left.
unfoldable pub await_reply :
    Crypto → Json → Bytes → ℕ → List Bytes → Option (Result Frame) × List Bytes
unfolding settle judge split_datagram
await_reply crypto json secret seq [] = (none, [])
await_reply crypto json secret seq (datagram ∷ queue) =
    settle (judge json seq (split_datagram crypto datagram secret)) queue
      (await_reply crypto json secret seq queue)
