-- ===== src/Tools/Sessions/Tests.antt =====
-- The session of the fixture tool in full, with a concrete checksum and digest.
use wireline.Codec.{encode}
use wireline.Base.{ℕ, ◌+◌, ◌*◌, ◌/◌, ◌%◌, ◌≡◌, refl, inl, List, [], ◌∷◌}
use wireline.Base.Int.{pos}
use wireline.Base.Bytes.{Bytes, u32_be}
use wireline.Codec.{encode, unknown_flags, pack_header, sign}
use wireline.Messages.{encode_hello, encode_hello_ack}
use wireline.Base.Dict.{lookup}
use wireline.Errors.{Result, ok, raise}
use wireline.Sniff.Pcap.{Floats, read_packets, write_packets, write_records, write_record, pack_u32}
use wireline.Sniff.Rows.{Row}
use wireline.Sniff.Dissect.{dissect, linktype_ethernet}
use wireline.Sniff.Flows.{reassemble_flows, frames_or_none}
use wireline.Tools.Packets.{tcp, ipv4}
use wireline.Tools.Sessions.{
  to_server, to_client, tcp_session, play, send_on, c2s, s2c, conversation, part,
}
use wireline.Tools.Sessions.Heard.{key_of}
use wireline.Tools.Sessions.Captured.{client_frames, server_frames, captured_session}
use wireline.Fixtures.{toy_crypto, toy_crypto-IsDigest, toy_json}

abbrev clock : Floats ℕ
clock = record {
  of_parts = λ sec usec. sec * 1000000 + usec;
  seconds = λ t. pos (t / 1000000);
  micros = λ t. pos (t % 1000000);
}

abbrev tick : ℕ → ℕ
tick t = t + 500

abbrev made : Result (List (ℕ × Bytes))
made = tcp_session toy_crypto toy_json (7 ∷ []) (8 ∷ []) tick 1757000000000000

abbrev result_or_nil : {A : Type 0} → Result (List A) → List A
result_or_nil (ok xs) = xs
result_or_nil (raise e) = []

abbrev packets : List (ℕ × Bytes)
packets = result_or_nil made

packets_made : made ≡ ok packets
unfolding tcp_session play send_on c2s s2c tcp ipv4 conversation part encode u32_be encode_hello
    encode_hello_ack unknown_flags pack_header sign
packets_made = refl

abbrev written_file : Result Bytes
written_file = write_packets clock packets linktype_ethernet 65535

abbrev file : Bytes
file = result_or_nil written_file

file_written : written_file ≡ ok file
unfolding tcp_session play send_on c2s s2c tcp ipv4 conversation part encode u32_be encode_hello
    encode_hello_ack unknown_flags pack_header sign write_packets write_records write_record
    pack_u32
file_written = refl

captured_session_example :
    (rows : List (Row ℕ)) × (dissect (read_packets clock file) ≡ inl rows)
    × (frames_or_none (lookup (key_of to_server) (reassemble_flows toy_crypto rows))
        ≡ client_frames toy_crypto toy_json (7 ∷ []) (8 ∷ []))
    × (frames_or_none (lookup (key_of to_client) (reassemble_flows toy_crypto rows))
        ≡ server_frames toy_crypto toy_json (7 ∷ []) (8 ∷ []))
captured_session_example =
    captured_session toy_crypto toy_json (7 ∷ []) (8 ∷ []) toy_crypto-IsDigest clock tick
      1757000000000000 packets 65535 file packets_made file_written
