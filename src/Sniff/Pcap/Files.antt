-- ===== src/Sniff/Pcap/Files.antt =====
-- Whole capture files: what `read_packets` of src/wireline/sniff/pcap.py reads of those that
-- `write_packets` or another program wrote, in either byte order, and of those that are cut short.
use wireline.Sniff.Pcap.Reading.{read_records_cut, with_packets, packet_of, read_records-All}
use wireline.Base.Text.{Text}
use wireline.Base.Bytes.{
  u32_be, of_u32_be, u32_from-u32_bytes, u32_from-drop, Bytes, u32_bytes, u32_from,
  length-u32_bytes, Endian, little, big,
}
use wireline.Base.{
  append-nil, map, take, All, refl, sym, ap, ◌∙◌, le→ltb_false, drop-append, drop-drop, suc, ◌+◌,
  ◌^◌, ◌≤◌, ◌<◌, ◌≡◌, List, [], ◌∷◌, ◌++◌, arith, length, drop, length-append, ℕ,
}
use wireline.Sniff.Pcap.{
  stop, ReadEnd, complete, pcap_error, magic_be, magic_le, read_records, read_file, read_packets,
  Floats,
}
use wireline.Sniff.Pcap.Records.{Fits, record_bytes, records_bytes, length-record_bytes, Record}

-- A file of some records: between its magic and its link type stand 16 bytes that are not read.
unfoldable pub file_bytes : Endian → Bytes → ℕ → Bytes → Bytes
file_bytes e unread linktype records =
    u32_bytes e magic_le ++ (unread ++ (u32_bytes e linktype ++ records))

length-records_bytes : (e : Endian) (rs : List Record) → length rs ≤ length (records_bytes e rs)
unfolding records_bytes
length-records_bytes e [] = omega arith
length-records_bytes e (r ∷ rs) = omega (
  arith,
  length-append (record_bytes e r) (records_bytes e rs),
  length-record_bytes e r,
  length-records_bytes e rs,
)

module _ (e : Endian) (unread : Bytes) (linktype : ℕ) (records : Bytes)
    (h : length unread ≡ 16) where
  length-file_bytes : length (file_bytes e unread linktype records) ≡ 24 + length records
  unfolding file_bytes
  length-file_bytes = omega (
    arith,
    h,
    length-append (u32_bytes e magic_le) (unread ++ (u32_bytes e linktype ++ records)),
    length-append unread (u32_bytes e linktype ++ records),
    length-append (u32_bytes e linktype) records,
    length-u32_bytes e magic_le,
    length-u32_bytes e linktype,
  )

  drop20-file_bytes :
      drop 20 (file_bytes e unread linktype records) ≡ u32_bytes e linktype ++ records
  unfolding file_bytes
  drop20-file_bytes =
      sym (drop-drop 16 4 (file_bytes e unread linktype records))
      ∙ ap (drop 16) (
          drop-append 4 (u32_bytes e magic_le) (unread ++ (u32_bytes e linktype ++ records))
            (length-u32_bytes e magic_le))
      ∙ drop-append 16 unread (u32_bytes e linktype ++ records) h

  drop24-file_bytes : drop 24 (file_bytes e unread linktype records) ≡ records
  drop24-file_bytes =
      sym (drop-drop 4 20 (file_bytes e unread linktype records))
      ∙ ap (drop 4) drop20-file_bytes
      ∙ drop-append 4 (u32_bytes e linktype) records (length-u32_bytes e linktype)

  linktype-file_bytes :
      linktype < 2 ^ 32 → u32_from e (file_bytes e unread linktype records) 20 ≡ linktype
  linktype-file_bytes l =
      u32_from-drop e (file_bytes e unread linktype records) 20
      ∙ ap (λ b. u32_from e b 0) drop20-file_bytes
      ∙ u32_from-u32_bytes e linktype records l

module _ {T : Type 0} (floats : Floats T) where
  read_packets_little :
      (raw : Bytes)
      → 24 ≤ length raw
      → u32_from little raw 0 ≡ magic_le
      → read_packets floats raw ≡ read_file floats little raw
  unfolding read_packets
  read_packets_little raw l m = rw (le→ltb_false (length raw) 24 l, m) refl

  read_packets_big :
      (raw : Bytes)
      → 24 ≤ length raw
      → u32_from little raw 0 ≡ magic_be
      → read_packets floats raw ≡ read_file floats big raw
  unfolding read_packets
  read_packets_big raw l m = rw (le→ltb_false (length raw) 24 l, m) refl

  read_packets_magic :
      (e : Endian) (unread : Bytes) (linktype : ℕ) (records : Bytes)
      → length unread ≡ 16
      → read_packets floats (file_bytes e unread linktype records)
        ≡ read_file floats e (file_bytes e unread linktype records)
  unfolding u32_bytes u32_from u32_be of_u32_be
  read_packets_magic little unread linktype records h =
      read_packets_little (file_bytes little unread linktype records)
        (omega (arith, length-file_bytes little unread linktype records h))
        (unfold file_bytes in refl)
  read_packets_magic big unread linktype records h =
      read_packets_big (file_bytes big unread linktype records)
        (omega (arith, length-file_bytes big unread linktype records h)) (unfold file_bytes in refl)

  read_packets-file_bytes :
      (e : Endian) (unread : Bytes) (linktype : ℕ) (records : Bytes)
      → length unread ≡ 16
      → linktype < 2 ^ 32
      → read_packets floats (file_bytes e unread linktype records)
        ≡ read_records floats e linktype (suc (length records)) 24 records
  read_packets-file_bytes e unread linktype records h l =
      read_packets_magic e unread linktype records h
      ∙ unfold read_file in
        rw (
          drop24-file_bytes e unread linktype records h,
          linktype-file_bytes e unread linktype records h l,
        )

  module _ (e : Endian) (unread : Bytes) (linktype : ℕ) (h : length unread ≡ 16)
      (l : linktype < 2 ^ 32) where
    read_packets_from :
        (rs : List Record) (tail : Bytes)
        → All Fits rs
        → (k m : ℕ) × ((end : ReadEnd)
            → read_records floats e linktype (suc k) m tail ≡ stop end
            → read_packets floats (file_bytes e unread linktype (records_bytes e rs ++ tail))
              ≡ record { packets = map (packet_of floats e linktype) rs; end = end })
    read_packets_from rs tail fits =
        let records = records_bytes e rs ++ tail in
        let (k, m, q) =
          read_records-All floats e linktype (suc (length records)) 24 rs tail fits
            (omega (arith, length-records_bytes e rs, length-append (records_bytes e rs) tail)) in
        (
          k,
          m,
          λ end s.
              read_packets-file_bytes e unread linktype records h l
              ∙ q
              ∙ ap (with_packets floats e linktype rs) s
              ∙ ap (λ ps. record { packets = ps; end = end }) (append-nil _),
        )

    -- A file of whole records, written in either byte order, yields the packet of each record in
    -- order, each with the link type of the file, and ends without an error, if the fields fit
    -- into 32 bits.
    pub read_packets-records_bytes :
        (rs : List Record)
        → All Fits rs
        → read_packets floats (file_bytes e unread linktype (records_bytes e rs))
          ≡ record { packets = map (packet_of floats e linktype) rs; end = complete }
    read_packets-records_bytes rs fits =
        let (k, m, q) = read_packets_from rs [] fits in
        ap (λ b. read_packets floats (file_bytes e unread linktype b)) (sym (append-nil _))
        ∙ q complete (unfold read_records in refl)

    -- A file in either byte order that is cut inside a record yields the packets of the records
    -- before it, and then raises a `PcapError`.
    pub read_packets_cut :
        (rs : List Record) (r : Record) (n : ℕ)
        → All Fits rs
        → Fits r
        → 0 < n
        → n < length (record_bytes e r)
        → (message : Text) × (read_packets floats
              (file_bytes e unread linktype (records_bytes e rs ++ take n (record_bytes e r)))
            ≡ record { packets = map (packet_of floats e linktype) rs; end = pcap_error message })
    read_packets_cut rs r n fits fit p q =
        let (k, m, c) = read_packets_from rs (take n (record_bytes e r)) fits in
        let (message, s) =
          read_records_cut floats e linktype k m n r fit p
            (omega (arith, length-record_bytes e r)) in
        (message, c (pcap_error message) s)
