-- ===== src/Sniff/Pcap/Writing.antt =====
-- `write_packets` and `read_packets` of src/wireline/sniff/pcap.py undo one another.
use wireline.Base.{
  ◌++◌, ℕ, refl, sym, ap, ◌∙◌, ◌^◌, ◌<◌, ◌≡◌, List, [], ◌∷◌, map, arith, length, All,
}
use wireline.Errors.{bind-eq-ok, ok-injective, ok}
use wireline.Base.Bytes.{length-u32_bytes, Bytes, u32_bytes, little}
use wireline.Base.Int.{negsuc, ℤ, pos, pos_part}
use wireline.Sniff.Pcap.{
  magic_le, Floats, Packet, write_record, write_records, write_packets, pack_u32, complete,
  read_packets,
}
use wireline.Sniff.Pcap.Records.{Record, Fits, record_bytes, records_bytes}
use wireline.Sniff.Pcap.Reading.{packet_of}
use wireline.Sniff.Pcap.Files.{file_bytes, read_packets-records_bytes}

pack_u32-ok :
    (n : ℤ) (b : Bytes)
    → pack_u32 n ≡ ok b
    → (n ≡ pos (pos_part n)) × (pos_part n < 2 ^ 32) × (b ≡ u32_bytes little (pos_part n))
unfolding pack_u32
pack_u32-ok (pos n) b e = ground (arith)
pack_u32-ok (negsuc n) b e = cc

module _ {T : Type 0} (floats : Floats T) where
  abbrev record_of : T × Bytes → Record
  record_of p = record {
    sec = pos_part (floats.seconds p.0);
    usec = pos_part (floats.micros p.0);
    original = length p.1;
    captured = p.1;
  }

  write_record-record_bytes :
      (p : T × Bytes) (b : Bytes)
      → write_record floats p ≡ ok b
      → Fits (record_of p) × (b ≡ record_bytes little (record_of p))
  unfolding write_record record_bytes
  write_record-record_bytes (t, d) b e =
      let (sec, q, e1) = bind-eq-ok (pack_u32 (floats.seconds t)) _ e in
      let (usec, q', e2) = bind-eq-ok (pack_u32 (floats.micros t)) _ e1 in
      let (len, q'', e3) = bind-eq-ok (pack_u32 (pos (length d))) _ e2 in
      let s = pack_u32-ok (floats.seconds t) sec q in
      let u = pack_u32-ok (floats.micros t) usec q' in
      let n = pack_u32-ok (pos (length d)) len q'' in
      (
        record { sec = s.1; usec = u.1; original = n.1; captured = n.1 },
        sym (ok-injective e3) ∙ rw (s.2, u.2, n.2) refl,
      )

  write_records-records_bytes :
      (ps : List (T × Bytes)) (b : Bytes)
      → write_records floats ps ≡ ok b
      → All Fits (map record_of ps) × (b ≡ records_bytes little (map record_of ps))
  unfolding write_records records_bytes
  write_records-records_bytes [] b e = (tt, sym (ok-injective e))
  write_records-records_bytes (p ∷ ps) b e =
      let (front, q, e1) = bind-eq-ok (write_record floats p) _ e in
      let (rest, q', e2) = bind-eq-ok (write_records floats ps) _ e1 in
      let (h, r) = write_record-record_bytes p front q in
      let (hs, rs) = write_records-records_bytes ps rest q' in
      ((h, hs), sym (ok-injective e2) ∙ rw (r, rs) refl)

  -- A captured packet as it comes back from a file, with the timestamp of its two rounded parts.
  abbrev pub written : ℕ → T × Bytes → ℕ × Packet T
  written linktype p = (
    linktype,
    record {
      timestamp = floats.of_parts (pos_part (floats.seconds p.0)) (pos_part (floats.micros p.0));
      captured = p.1;
      original_length = length p.1;
    },
  )

  map_written :
      (linktype : ℕ) (ps : List (T × Bytes))
      → map (packet_of floats little linktype) (map record_of ps) ≡ map (written linktype) ps
  map_written linktype [] = refl
  map_written linktype (p ∷ ps) = ap (λ l. written linktype p ∷ l) (map_written linktype ps)

  abbrev unread_of : Bytes → Bytes
  unread_of snap = 2 ∷ 0 ∷ 4 ∷ 0 ∷ 0 ∷ 0 ∷ 0 ∷ 0 ∷ 0 ∷ 0 ∷ 0 ∷ 0 ∷ snap

  laid_out :
      (snap link records records' : Bytes) (linktype : ℕ)
      → link ≡ u32_bytes little linktype
      → records ≡ records'
      → u32_bytes little magic_le ++ (unread_of snap ++ (link ++ records))
        ≡ file_bytes little (unread_of snap) linktype records'
  unfolding file_bytes
  laid_out snap link records records' linktype l r = rw (l, r) refl

  -- If `write_packets` succeeds, then `read_packets` yields from its file the packets that it was
  -- given, in order, with their bytes and the link type, and ends without an error; a timestamp
  -- comes back as the one made from its whole seconds and its rounded microseconds.
  pub read_packets-write_packets :
      (ps : List (T × Bytes)) (linktype snaplen : ℕ) (raw : Bytes)
      → write_packets floats ps linktype snaplen ≡ ok raw
      → read_packets floats raw ≡ record { packets = map (written linktype) ps; end = complete }
  unfolding write_packets
  read_packets-write_packets ps linktype snaplen raw e =
      let (snap, q, e1) = bind-eq-ok (pack_u32 (pos snaplen)) _ e in
      let (link, q', e2) = bind-eq-ok (pack_u32 (pos linktype)) _ e1 in
      let (records, q'', e3) = bind-eq-ok (write_records floats ps) _ e2 in
      let s = pack_u32-ok (pos snaplen) snap q in
      let l = pack_u32-ok (pos linktype) link q' in
      let (fits, r) = write_records-records_bytes ps records q'' in
      let size : length (unread_of snap) ≡ 16 =
        rw (s.2) (omega (arith, length-u32_bytes little snaplen)) in
      ap (read_packets floats) (
        sym (ok-injective e3)
        ∙ laid_out snap link records (records_bytes little (map record_of ps)) linktype l.2 r)
      ∙ read_packets-records_bytes floats little (unread_of snap) linktype size l.1
          (map record_of ps) fits
      ∙ ap (λ l. record { packets = l; end = complete }) (map_written linktype ps)
