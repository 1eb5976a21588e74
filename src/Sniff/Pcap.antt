-- ===== src/Sniff/Pcap.antt =====
-- src/wireline/sniff/pcap.py: capture files.
pub mod Records
pub mod Reading
pub mod Files
pub mod Writing
mod Tests
use wireline.Codec.{magic}
use wireline.Base.{
  ℕ, zero, suc, ◌+◌, ◌^◌, Bool, false, List, [], ◌∷◌, ◌++◌, ◌==◌, ltb, length, take, drop,
  if◌then◌else◌,
}
use wireline.Base.Bytes.{Bytes, Endian, little, big, u32_bytes, u32_from}
use wireline.Base.Text.{Text, codes, str_ℕ, hex_padded}
use wireline.Base.Int.{ℤ, pos, negsuc}
use wireline.Errors.{Result, ok, raise, other_error, ◌>>=◌, ◌>>◌}

-- The arithmetic on `float` timestamps: `ts_sec + ts_usec / 1_000_000`, `int(timestamp)`, and
-- `int(round((timestamp - sec) * 1_000_000))` where `sec` is `int(timestamp)`.
pub record Floats (T : Type 0) : Type 0 where
  pub of_parts : ℕ → ℕ → T
  pub seconds : T → ℤ
  pub micros : T → ℤ

pub record Packet (T : Type 0) : Type 0 where
  pub timestamp : T
  pub captured : Bytes
  pub original_length : ℕ

-- How the generator `read_packets` ends: at the end of the file, by a `PcapError`, or neither, when
-- the model's fuel has run out.
pub data ReadEnd : Type 0 where
  complete stuck : ReadEnd
  pcap_error : Text → ReadEnd

-- The pairs that `read_packets` yields, and how it ends.
pub record Capture (T : Type 0) : Type 0 where
  pub packets : List (ℕ × Packet T)
  pub end : ReadEnd

abbrev pub magic_le : ℕ
magic_le = 0xa1b2c3d4

abbrev pub magic_be : ℕ
magic_be = 0xd4c3b2a1

abbrev pub file_header_size : ℕ
file_header_size = 24

abbrev pub record_header_size : ℕ
record_header_size = 16

unfoldable pub too_short : ℕ → Text
too_short n = codes "file is " ++ (str_ℕ n ++ codes " bytes, shorter than a pcap header")

unfoldable pub unknown_magic : ℕ → Text
unknown_magic magic = codes "unknown pcap magic " ++ hex_padded 8 magic

unfoldable pub truncated_header : ℕ → Text
truncated_header offset = codes "truncated record header at offset " ++ str_ℕ offset

unfoldable pub truncated_data : ℕ → Text
truncated_data offset = codes "truncated packet data at offset " ++ str_ℕ offset

module _ {T : Type 0} where
  abbrev pub stop : ReadEnd → Capture T
  stop end = record { packets = []; end = end }

  abbrev pub yield_then : ℕ × Packet T → Capture T → Capture T
  yield_then p c = record c { packets = p ∷ c.packets }

-- `struct.pack("<I", n)`: a number that does not fit raises `struct.error`.
unfoldable pub pack_u32 : ℤ → Result Bytes
pack_u32 (negsuc n) = raise other_error
pack_u32 (pos n) = if ltb n (2 ^ 32) then ok (u32_bytes little n) else raise other_error

module _ {T : Type 0} (floats : Floats T) where
  -- `rest` is `raw[offset:]`. Each record takes 16 bytes, so a fuel above the length is enough.
  unfoldable pub read_records : Endian → ℕ → ℕ → ℕ → Bytes → Capture T
  read_records e linktype zero offset rest = stop stuck
  read_records e linktype (suc fuel) offset rest =
      let incl_len = u32_from e rest 8 in
      let body = drop record_header_size rest in
      let packet : Packet T = record {
        timestamp = floats.of_parts (u32_from e rest 0) (u32_from e rest 4);
        captured = take incl_len body;
        original_length = u32_from e rest 12;
      } in
      let more =
        yield_then (linktype, packet)
          (read_records e linktype fuel (offset + record_header_size + incl_len)
            (drop incl_len body)) in
      if length rest == 0
      then stop complete
      else if ltb (length rest) record_header_size
      then stop (pcap_error (truncated_header offset))
      else if ltb (length body) incl_len
      then stop (pcap_error (truncated_data (offset + record_header_size)))
      else more

  unfoldable pub read_file : Endian → Bytes → Capture T
  read_file e raw =
      let rest = drop file_header_size raw in
      read_records e (u32_from e raw 20) (suc (length rest)) file_header_size rest

  unfoldable pub read_packets : Bytes → Capture T
  unfolding read_file
  read_packets raw =
      if ltb (length raw) file_header_size
      then stop (pcap_error (too_short (length raw)))
      else if u32_from little raw 0 == magic_le
      then read_file little raw
      else if u32_from little raw 0 == magic_be
      then read_file big raw
      else stop (pcap_error (unknown_magic (u32_from little raw 0)))

  -- One turn of the loop of `write_packets`.
  unfoldable pub write_record : T × Bytes → Result Bytes
  unfolding pack_u32
  write_record (timestamp, captured) = do
    sec ← pack_u32 (floats.seconds timestamp)
    usec ← pack_u32 (floats.micros timestamp)
    len ← pack_u32 (pos (length captured))
    ok (sec ++ (usec ++ (len ++ (len ++ captured))))

  unfoldable pub write_records : List (T × Bytes) → Result Bytes
  unfolding write_record
  write_records [] = ok []
  write_records (p ∷ ps) = do front ← write_record p; rest ← write_records ps; ok (front ++ rest)

  -- The version is 2.4; the time zone and the accuracy are zero.
  unfoldable pub write_packets : List (T × Bytes) → ℕ → ℕ → Result Bytes
  unfolding pack_u32 write_records
  write_packets packets linktype snaplen = do
    snap ← pack_u32 (pos snaplen)
    link ← pack_u32 (pos linktype)
    records ← write_records packets
    ok (
        u32_bytes little magic_le
        ++ (2 ∷ 0 ∷ 4 ∷ 0 ∷ 0 ∷ 0 ∷ 0 ∷ 0 ∷ 0 ∷ 0 ∷ 0 ∷ 0 ∷ (snap ++ (link ++ records))))
