-- ===== src/Sniff/Pcap/Reading.antt =====
-- What `read_packets` of src/wireline/sniff/pcap.py yields for a file of whole records, and for one
-- that is cut inside a record.
use wireline.Base.Text.{Text}
use wireline.Base.{
  append-nil, subst, ltb→lt, lt→ltb, ltb_false→le, length-take, length-drop, inl, inr, append_assoc,
  Bool-cases, map, le→ltb_false, ne→==_false, ℕ, zero, suc, ◌+◌, ◌<◌, ◌≤◌, ◌≡◌, refl, ap, sym, ◌∙◌,
  arith, List, [], ◌∷◌, ◌++◌, length, take, drop, All, length-append, take-append, drop-append, ltb,
}
use wireline.Base.Bytes.{u32_from-take, Bytes, Endian, u32_from}
use wireline.Sniff.Pcap.{
  Floats, Packet, Capture, stop, yield_then, read_records, pcap_error, truncated_header,
  truncated_data,
}
use wireline.Sniff.Pcap.Records.{
  Record, Fits, record_bytes, records_bytes, IsRecord, length-record_bytes, record_bytes-IsRecord,
}

module _ {T : Type 0} (floats : Floats T) (e : Endian) (linktype : ℕ) where
  abbrev pub packet_of : Record → ℕ × Packet T
  packet_of r = (
    linktype,
    record {
      timestamp = floats.of_parts r.sec r.usec;
      captured = r.captured;
      original_length = r.original;
    },
  )

  -- The packets of some records, and the capture from there on.
  abbrev pub with_packets : List Record → Capture T → Capture T
  with_packets rs c = record c { packets = map packet_of rs ++ c.packets }

  read_records_some :
      (fuel offset : ℕ) (rest more : Bytes) (r : Record)
      → IsRecord e r rest more
      → 16 ≤ length rest
      → read_records floats e linktype (suc fuel) offset rest
        ≡ yield_then
            (packet_of r)
            (read_records floats e linktype fuel (offset + 16 + length r.captured) more)
  unfolding read_records
  read_records_some fuel offset rest more r h l =
      let n = length-append r.captured more in
      rw
        (
          h.measured,
          h.body,
          h.sec,
          h.usec,
          h.original,
          take-append (length r.captured) r.captured more refl,
          drop-append (length r.captured) r.captured more refl,
          le→ltb_false (length rest) 16 l,
          le→ltb_false (length (r.captured ++ more)) (length r.captured) (omega (arith, n)),
          ne→==_false (length rest) 0 (λ z. omega arith),
        )
        refl

  -- Whole records are read one by one, whatever follows them.
  pub read_records-All :
      (fuel offset : ℕ) (rs : List Record) (tail : Bytes)
      → All Fits rs
      → length rs < fuel
      → (k m : ℕ) × (read_records floats e linktype fuel offset (records_bytes e rs ++ tail)
          ≡ with_packets rs (read_records floats e linktype (suc k) m tail))
  unfolding records_bytes
  read_records-All zero offset rs tail h l = absurd (omega arith)
  read_records-All (suc fuel) offset [] tail h l = (fuel, offset, refl)
  read_records-All (suc fuel) offset (r ∷ rs) tail h l =
      let (k, m, q) =
        read_records-All fuel (offset + 16 + length r.captured) rs tail h.1 (omega arith) in
      (k, m, read_first ∙ ap (yield_then (packet_of r)) q)
    where
      rest : Bytes
      rest = (record_bytes e r ++ records_bytes e rs) ++ tail

      more : Bytes
      more = records_bytes e rs ++ tail

      first : IsRecord e r rest more
      first =
          subst (λ b. IsRecord e r b more)
            (sym (append_assoc (record_bytes e r) (records_bytes e rs) tail))
            (record_bytes-IsRecord e r more h.0)

      read_first :
          read_records floats e linktype (suc fuel) offset rest
          ≡ yield_then
              (packet_of r)
              (read_records floats e linktype fuel (offset + 16 + length r.captured) more)
      read_first = read_records_some fuel offset rest more r first (
          omega (
            arith,
            length-append (record_bytes e r ++ records_bytes e rs) tail,
            length-append (record_bytes e r) (records_bytes e rs),
            length-record_bytes e r,
          ))

  read_records_header_cut :
      (fuel offset : ℕ) (rest : Bytes)
      → 0 < length rest
      → length rest < 16
      → read_records floats e linktype (suc fuel) offset rest
        ≡ stop (pcap_error (truncated_header offset))
  unfolding read_records
  read_records_header_cut fuel offset rest p l =
      rw (ne→==_false (length rest) 0 (λ z. omega arith), lt→ltb (length rest) 16 l) refl

  read_records_data_cut :
      (fuel offset : ℕ) (rest : Bytes)
      → 16 ≤ length rest
      → length rest < 16 + u32_from e rest 8
      → read_records floats e linktype (suc fuel) offset rest
        ≡ stop (pcap_error (truncated_data (offset + 16)))
  unfolding read_records
  read_records_data_cut fuel offset rest p l =
      rw
        (
          ne→==_false (length rest) 0 (λ z. omega arith),
          le→ltb_false (length rest) 16 p,
          lt→ltb (length (drop 16 rest)) (u32_from e rest 8) (omega (arith, length-drop 16 rest)),
        )
        refl

  measured-record_bytes :
      (r : Record) → Fits r → u32_from e (record_bytes e r) 8 ≡ length r.captured
  measured-record_bytes r h =
      ap (λ b. u32_from e b 8) (sym (append-nil (record_bytes e r)))
      ∙ (record_bytes-IsRecord e r [] h).measured

  -- A record that is cut short ends the reading with an error.
  pub read_records_cut :
      (fuel offset n : ℕ) (r : Record)
      → Fits r
      → 0 < n
      → n < 16 + length r.captured
      → (message : Text) × (read_records floats e linktype
            (suc fuel)
            offset
            (take n (record_bytes e r))
          ≡ stop (pcap_error message))
  read_records_cut fuel offset n r h p l =
      let rest = take n (record_bytes e r) in
      let size : length rest ≡ n =
        omega (arith, length-take n (record_bytes e r), length-record_bytes e r) in
      elim (Bool-cases (ltb n 16)) [
        | inl short ↦ (
          truncated_header offset,
          read_records_header_cut fuel offset rest (omega arith) (omega (arith, ltb→lt n 16 short)),
        )
        | inr long ↦
            let m =
              u32_from-take e (record_bytes e r) n 8 (omega (arith, ltb_false→le n 16 long))
              ∙ measured-record_bytes r h in
            (
              truncated_data (offset + 16),
              read_records_data_cut fuel offset rest (omega (arith, ltb_false→le n 16 long))
                  (omega (arith, m)),
            )
      ]
