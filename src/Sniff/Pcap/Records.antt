-- ===== src/Sniff/Pcap/Records.antt =====
-- The records of a capture file, in either byte order, as `read_packets` of
-- src/wireline/sniff/pcap.py reads them.
use wireline.Base.{ℕ, ◌+◌, ◌<◌, ◌^◌, ◌≡◌, refl, arith, List, [], ◌∷◌, ◌++◌, length, drop}
use wireline.Base.Bytes.{Bytes, Endian, little, big, u32_bytes, u32_from}

-- A record of a file: its four fields, one of which is the length of what was captured.
pub record Record : Type 0 where
  pub sec : ℕ
  pub usec : ℕ
  pub original : ℕ
  pub captured : Bytes

-- The fields fit into 32 bits.
pub record Fits (r : Record) : Type 0 where
  pub sec : r.sec < 2 ^ 32
  pub usec : r.usec < 2 ^ 32
  pub original : r.original < 2 ^ 32
  pub captured : length r.captured < 2 ^ 32

unfoldable pub record_bytes : Endian → Record → Bytes
record_bytes e r =
    u32_bytes e r.sec
    ++ (u32_bytes e r.usec
        ++ (u32_bytes e (length r.captured) ++ (u32_bytes e r.original ++ r.captured)))

unfoldable pub records_bytes : Endian → List Record → Bytes
records_bytes e [] = []
records_bytes e (r ∷ rs) = record_bytes e r ++ records_bytes e rs

-- The four numbers of a record header, and what follows it.
pub record IsRecord (e : Endian) (r : Record) (raw rest : Bytes) : Type 0 where
  pub sec : u32_from e raw 0 ≡ r.sec
  pub usec : u32_from e raw 4 ≡ r.usec
  pub measured : u32_from e raw 8 ≡ length r.captured
  pub original : u32_from e raw 12 ≡ r.original
  pub body : drop 16 raw ≡ r.captured ++ rest

pub length-record_bytes :
    (e : Endian) (r : Record) → length (record_bytes e r) ≡ 16 + length r.captured
unfolding record_bytes u32_bytes
length-record_bytes little r = omega arith
length-record_bytes big r = omega arith

pub record_bytes-IsRecord :
    (e : Endian) (r : Record) (rest : Bytes) → Fits r → IsRecord e r (record_bytes e r ++ rest) rest
unfolding record_bytes u32_bytes u32_from
record_bytes-IsRecord little r rest h = record {
  sec = omega (arith, h.sec);
  usec = omega (arith, h.usec);
  measured = omega (arith, h.captured);
  original = omega (arith, h.original);
  body = refl;
}
record_bytes-IsRecord big r rest h = record {
  sec = omega (arith, h.sec);
  usec = omega (arith, h.usec);
  measured = omega (arith, h.captured);
  original = omega (arith, h.original);
  body = refl;
}
