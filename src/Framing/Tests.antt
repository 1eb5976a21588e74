-- ===== src/Framing/Tests.antt =====
-- Runs of the frame buffer, and its theorems at concrete streams.
use wireline.Base.{
  ◌+◌, ◌<◌, ap, length, eqb, ◌≡◌, refl, ◌≢◌, none, some, List, [], ◌∷◌, ◌++◌, arith, take, drop,
  slice, All,
}
use wireline.Codec.{
  max_payload, type_of_value, u32_at, unknown_flags, parse_type, decode_header, verify_crc,
  verify_mac, verify_mac_if, decode_frame, type_value, pack_header, crc_of, sign, Frame,
}
use wireline.Base.Bytes.{of_u32_be, Bytes, u32_be}
use wireline.Codec.Encoding.{IsEncodable, wire_of}
use wireline.Framing.{Drained, stuck, drain, read_frame, pop, new_buffer, feed, finished}
use wireline.Framing.Drain.{drain_leftover, drain-ne-stuck}
use wireline.Framing.Chunks.{SameRun, concat, receive, receive_chunks}
use wireline.Framing.Encoded.{buffer, stream_of, receive_encoded}
use wireline.Framing.Stream.{of_pop, buffer_of, read_frame-pop}
use wireline.Fixtures.{toy_crypto, toy_crypto-IsDigest, key, probe, farewell}

abbrev two_frames : List Frame
two_frames = probe ∷ farewell ∷ []

abbrev stream : Bytes
stream = wire_of toy_crypto probe key ++ (wire_of toy_crypto farewell key ++ [])

probes_fit : All IsEncodable two_frames
probes_fit = omega arith

-- Three chunks, cut inside the header of the first frame and inside the second frame.
abbrev chunks : List Bytes
chunks = take 7 stream ∷ slice 7 90 stream ∷ drop 90 stream ∷ []

chunks_join : concat chunks ≡ stream_of toy_crypto key two_frames
unfolding concat stream_of pack_header type_value u32_be crc_of sign
chunks_join = refl

receive_encoded_example :
    receive toy_crypto (new_buffer (some key)) chunks
    ≡ record { frames = two_frames; buffer = buffer toy_crypto key []; end = finished }
receive_encoded_example =
    receive_encoded toy_crypto key toy_crypto-IsDigest two_frames chunks probes_fit chunks_join

receive_chunks_example :
    SameRun toy_crypto
      (receive toy_crypto (new_buffer none) chunks)
      (drain toy_crypto (feed (new_buffer none) (concat chunks)))
receive_chunks_example = receive_chunks toy_crypto none chunks

read_frame-pop_example :
    read_frame toy_crypto (take 60 stream) key
    ≡ of_pop (pop toy_crypto (buffer_of toy_crypto key (take 60 stream)))
read_frame-pop_example = read_frame-pop toy_crypto key (take 60 stream)

drain-ne-stuck_example : (drain toy_crypto (buffer_of toy_crypto key stream)).end ≢ stuck
drain-ne-stuck_example = drain-ne-stuck toy_crypto (buffer_of toy_crypto key stream)

drain_cut : drain toy_crypto (buffer_of toy_crypto key (take 60 stream)) ≡ record {
  frames = probe ∷ [];
  buffer = buffer_of toy_crypto key (slice 54 60 stream);
  end = finished;
}
unfolding drain pop decode_frame decode_header parse_type type_of_value u32_at of_u32_be
    unknown_flags eqb verify_crc crc_of verify_mac_if verify_mac sign pack_header type_value u32_be
drain_cut = refl

drain_leftover_example :
    length (drain toy_crypto (buffer_of toy_crypto key (take 60 stream))).buffer.buf
    < 51 + max_payload
drain_leftover_example =
    drain_leftover toy_crypto (buffer_of toy_crypto key (take 60 stream)) (ap Drained.end drain_cut)
