-- ===== src/Framing.antt =====
-- src/wireline/transport/framing.py: from a byte stream back to frames.
pub mod Pop
pub mod Turns
pub mod Drain
pub mod Chunks
pub mod Stream
pub mod Encoded
mod Tests
use wireline.Base.{
  ℕ, zero, suc, ◌+◌, Option, none, some, List, [], ◌∷◌, ◌++◌, ◌==◌, ltb, length, take, drop, slice,
  if◌then◌else◌,
}
use wireline.Base.Bytes.{Bytes}
use wireline.Errors.{Exn, incomplete_read, Result, ok, raise, ◌>>=◌}
use wireline.Codec.{Crypto, Header, Frame, header_size, mac_size, decode_header, decode_frame}

-- `StreamReader.readexactly(n)` on the bytes that the peer has still to send before its end of
-- file: the bytes read and the rest.
unfoldable pub readexactly : ℕ → Bytes → Result (Bytes × Bytes)
readexactly n stream =
    if ltb (length stream) n then raise incomplete_read else ok (take n stream, drop n stream)

-- `await reader.readexactly(header.length) if header.length else b""`
unfoldable pub read_payload : ℕ → Bytes → Result (Bytes × Bytes)
unfolding readexactly
read_payload n stream = if n == 0 then ok ([], stream) else readexactly n stream

pub record FrameBuffer : Type 0 where
  pub buf : Bytes
  pub secret : Option Bytes

-- `FrameBuffer(secret)`
abbrev pub new_buffer : Option Bytes → FrameBuffer
new_buffer secret = record { buf = []; secret = secret }

abbrev pub feed : FrameBuffer → Bytes → FrameBuffer
feed b chunk = record b { buf = b.buf ++ chunk }

-- How a loop over `drain()` ends: `pop` returned None, or it raised. `stuck` is neither: the
-- model's fuel ran out.
pub data End : Type 0 where
  finished stuck : End
  raised : Exn → End

pub record Drained : Type 0 where
  pub frames : List Frame
  pub buffer : FrameBuffer
  pub end : End

abbrev pub prepend : List Frame → Drained → Drained
prepend fs d = record d { frames = fs ++ d.frames }

-- `total = HEADER.size + header.length + MAC_SIZE`
abbrev pub frame_size : Header → ℕ
frame_size header = header_size + header.length + mac_size

-- One turn of the loop of `drain`: what `pop` gave, and the loop from there on.
unfoldable pub drain_turn : (FrameBuffer → Drained) → FrameBuffer × Result (Option Frame) → Drained
drain_turn rest (b, ok none) = record { frames = []; buffer = b; end = finished }
drain_turn rest (b, ok (some frame)) = prepend (frame ∷ []) (rest b)
drain_turn rest (b, raise e) = record { frames = []; buffer = b; end = raised e }

module _ (crypto : Crypto) where
  unfoldable pub read_frame : Bytes → Bytes → Result (Frame × Bytes)
  unfolding readexactly read_payload
  read_frame stream secret = do
    (raw_header, rest) ← readexactly header_size stream
    header ← decode_header raw_header
    (payload, rest') ← read_payload header.length rest
    (mac, rest'') ← readexactly mac_size rest'
    frame ← decode_frame crypto raw_header payload mac (some secret)
    ok (frame, rest'')

  -- The frame whose bytes are at the front of the buffer, cut out and checked.
  unfoldable pub pop_frame : FrameBuffer → Header → Result (Option Frame)
  pop_frame b header = do
    frame ←
        decode_frame crypto (slice 0 header_size b.buf)
          (slice header_size (header_size + header.length) b.buf)
          (slice (header_size + header.length) (frame_size header) b.buf) b.secret
    ok (some frame)

  -- The rest of `pop`, once the buffer holds a header. The frame leaves the buffer before its
  -- checks, a bad header stays.
  unfoldable pub pop_body : FrameBuffer → Result Header → FrameBuffer × Result (Option Frame)
  unfolding pop_frame
  pop_body b (raise e) = (b, raise e)
  pop_body b (ok header) =
      if ltb (length b.buf) (frame_size header)
      then (b, ok none)
      else (record b { buf = drop (frame_size header) b.buf }, pop_frame b header)

  unfoldable pub pop : FrameBuffer → FrameBuffer × Result (Option Frame)
  unfolding pop_body
  pop b =
      if ltb (length b.buf) header_size
      then (b, ok none)
      else pop_body b (decode_header (slice 0 header_size b.buf))

  unfoldable pub drain_loop : ℕ → FrameBuffer → Drained
  drain_loop zero b = record { frames = []; buffer = b; end = stuck }
  drain_loop (suc fuel) b = drain_turn (λ rest. drain_loop fuel rest) (pop b)

  -- All that `drain()` yields, run to its end. Each frame takes 51 bytes, so the length of the
  -- buffer is more fuel than there are frames in it.
  unfoldable pub drain : FrameBuffer → Drained
  unfolding drain_loop drain_turn
  drain b = drain_loop (suc (length b.buf)) b
