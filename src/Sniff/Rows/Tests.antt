-- ===== src/Sniff/Rows/Tests.antt =====
-- The theorem on the Wireline headers of a payload at a concrete one.
use wireline.Base.{none, ◌≡◌, ◌++◌, ◌∷◌, [], List, map}
use wireline.Codec.Encoding.{wire_of}
use wireline.Framing.{FrameBuffer, drain, finished}
use wireline.Sniff.Rows.{WirelineInfo, try_parse_wireline}
use wireline.Sniff.Rows.Frames.{frame_info, try_parse_wireline-drain}
use wireline.Fixtures.{toy_crypto, key, probe}

-- A frame, and the beginning of another one.
abbrev sniffed : FrameBuffer
sniffed = record { buf = wire_of toy_crypto probe key ++ (0x57 ∷ 0x49 ∷ []); secret = none }

try_parse_wireline-drain_example :
    (beyond : List WirelineInfo) × (try_parse_wireline sniffed.buf
      ≡ map frame_info (drain toy_crypto sniffed).frames ++ beyond)
    × ((drain toy_crypto sniffed).end ≡ finished → beyond ≡ [])
try_parse_wireline-drain_example = try_parse_wireline-drain toy_crypto sniffed
