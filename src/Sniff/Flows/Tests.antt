-- ===== src/Sniff/Flows/Tests.antt =====
-- The theorems on reassembled directions at concrete captures.
use wireline.Base.{eqb, ℕ, none, refl, arith, ◌≡◌, ◌++◌, ◌∷◌, [], List, take, drop}
use wireline.Base.Bytes.{Bytes, u32_be}
use wireline.Base.Text.{Text}
use wireline.Base.Dict.{lookup}
use wireline.Codec.{pack_header, decode_header}
use wireline.Framing.Chunks.{concat}
use wireline.Framing.Encoded.{stream_of}
use wireline.Codec.Encoding.{wire_of, IsEncodable}
use wireline.Framing.{pop, drain, feed, new_buffer}
use wireline.Sniff.Rows.{Row}
use wireline.Sniff.Dissect.{new_row}
use wireline.Sniff.Flows.{flow_key, reassemble_flows, frames_or_none}
use wireline.Sniff.Flows.Directions.{follow, payloads_of, reassemble_flows-follow}
use wireline.Sniff.Flows.Recovered.{reassemble_flows-stream_of, reassemble_flows_restarts}
use wireline.Fixtures.{toy_crypto, toy_crypto-IsDigest, key, probe}

abbrev tcp_row : ℕ → Bytes → Row ℕ
tcp_row port payload = record (new_row 0) {
  l4_proto = 84 ∷ [];
  l4_sport = port;
  l4_dport = 9;
  payload = payload;
}

abbrev wire : Bytes
wire = wire_of toy_crypto probe key

-- One frame in two pieces, and between them a packet of another direction.
abbrev capture : List (Row ℕ)
capture = tcp_row 1 (take 20 wire) ∷ tcp_row 2 (1 ∷ []) ∷ tcp_row 1 (drop 20 wire) ∷ []

abbrev direction : Text
direction = flow_key (tcp_row 1 [])

reassemble_flows-follow_example :
    frames_or_none (lookup direction (reassemble_flows toy_crypto capture))
    ≡ follow toy_crypto (new_buffer none) (payloads_of direction capture)
reassemble_flows-follow_example = reassemble_flows-follow toy_crypto direction capture

probe-IsEncodable : IsEncodable probe
probe-IsEncodable = record { fits = omega arith; in_range = omega arith; known = omega arith }

reassemble_flows-stream_of_example :
    frames_or_none (lookup direction (reassemble_flows toy_crypto capture)) ≡ probe ∷ []
unfolding payloads_of flow_key stream_of concat pack_header eqb u32_be
reassemble_flows-stream_of_example =
    reassemble_flows-stream_of toy_crypto toy_crypto-IsDigest key (probe ∷ [])
      (probe-IsEncodable, tt) direction capture refl

-- 19 bytes that are no header, and a whole frame.
abbrev garbage : Bytes
garbage = 0 ∷ 0 ∷ 0 ∷ 0 ∷ 0 ∷ 0 ∷ 0 ∷ 0 ∷ 0 ∷ 0 ∷ 0 ∷ 0 ∷ 0 ∷ 0 ∷ 0 ∷ 0 ∷ 0 ∷ 0 ∷ 0 ∷ []

abbrev broken : List (Row ℕ)
broken = tcp_row 1 garbage ∷ tcp_row 1 wire ∷ []

reassemble_flows_restarts_example :
    frames_or_none (lookup direction (reassemble_flows toy_crypto broken))
    ≡ (drain toy_crypto (feed (new_buffer none) garbage)).frames ++ (probe ∷ [])
unfolding payloads_of flow_key drain eqb pack_header pop decode_header stream_of concat
reassemble_flows_restarts_example =
    reassemble_flows_restarts toy_crypto toy_crypto-IsDigest key (probe ∷ [])
      (probe-IsEncodable, tt) direction broken garbage (wire ∷ []) _ refl refl refl
