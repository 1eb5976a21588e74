-- ===== src/Sniff/Pcap/Tests.antt =====
-- The theorems on capture files at concrete packets, with whole microseconds for timestamps.
use wireline.Base.{refl, arith, ℕ, ◌+◌, ◌*◌, ◌/◌, ◌%◌, ◌≡◌, [], ◌∷◌, ◌++◌, map, take, List}
use wireline.Base.Int.{pos}
use wireline.Base.Bytes.{Bytes, little, u32_bytes}
use wireline.Base.Text.{Text}
use wireline.Errors.{ok}
use wireline.Sniff.Pcap.{Floats, read_packets, write_packets, complete, pcap_error}
use wireline.Sniff.Pcap.Reading.{packet_of}
use wireline.Sniff.Pcap.Records.{Record, Fits, record_bytes, records_bytes}
use wireline.Sniff.Pcap.Files.{file_bytes, read_packets_cut}
use wireline.Sniff.Pcap.Writing.{written, read_packets-write_packets}

abbrev clock : Floats ℕ
clock = record {
  of_parts = λ sec usec. sec * 1000000 + usec;
  seconds = λ t. pos (t / 1000000);
  micros = λ t. pos (t % 1000000);
}

abbrev first_record : Record
first_record = record { sec = 5; usec = 7; original = 3; captured = 1 ∷ 2 ∷ [] }

first_record-Fits : Fits first_record
first_record-Fits = record {
  sec = omega arith;
  usec = omega arith;
  original = omega arith;
  captured = omega arith;
}

abbrev unread : Bytes
unread = 0 ∷ 0 ∷ 0 ∷ 0 ∷ 0 ∷ 0 ∷ 0 ∷ 0 ∷ 0 ∷ 0 ∷ 0 ∷ 0 ∷ 0 ∷ 0 ∷ 0 ∷ 0 ∷ []

read_packets_cut_example :
    (message : Text) × (read_packets clock (
        file_bytes little unread 1
          (records_bytes little (first_record ∷ []) ++ take 17 (record_bytes little first_record)))
      ≡ record {
        packets = map (packet_of clock little 1) (first_record ∷ []);
        end = pcap_error message;
      })
unfolding record_bytes u32_bytes
read_packets_cut_example =
    read_packets_cut clock little unread 1 refl (omega arith) (first_record ∷ []) first_record 17
      (first_record-Fits, tt) first_record-Fits (omega arith) (omega arith)

abbrev packets : List (ℕ × Bytes)
packets = (5000007, 1 ∷ 2 ∷ []) ∷ []

abbrev file : Bytes
file =
    0xd4 ∷ 0xc3 ∷ 0xb2 ∷ 0xa1 ∷ 2 ∷ 0 ∷ 4 ∷ 0 ∷ 0 ∷ 0 ∷ 0 ∷ 0 ∷ 0 ∷ 0 ∷ 0 ∷ 0 ∷ 255 ∷ 255 ∷ 0 ∷ 0
    ∷ 1 ∷ 0 ∷ 0 ∷ 0 ∷ 5 ∷ 0 ∷ 0 ∷ 0 ∷ 7 ∷ 0 ∷ 0 ∷ 0 ∷ 2 ∷ 0 ∷ 0 ∷ 0 ∷ 2 ∷ 0 ∷ 0 ∷ 0 ∷ 1 ∷ 2 ∷ []

file-written : write_packets clock packets 1 65535 ≡ ok file
unfolding write_packets u32_bytes
file-written = refl

read_packets-write_packets_example :
    read_packets clock file ≡ record { packets = map (written clock 1) packets; end = complete }
read_packets-write_packets_example =
    read_packets-write_packets clock packets 1 65535 file file-written
