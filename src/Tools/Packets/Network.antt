-- ===== src/Tools/Packets/Network.antt =====
-- The IP and Ethernet layers of src/wireline/sniff/dissect.py on the packets of
-- tools/make_pcap_fixture.py, and whole packets.
use wireline.Sniff.Dissect.{
  hand_on, ethernet_layer, ip_layer, ip_payload, link_layer, linktype_ethernet,
}
use wireline.Sniff.Rows.{mac, Row, ip_str}
use wireline.Base.Bytes.{u16_at, Bytes, u16_be}
use wireline.Base.{
  ◌-◌, ◌*◌, some, arith, le→ltb_false, ne→==_false, get_or, slice, length-append, take-append,
  drop-append, take_all, drop-drop, get_or-drop, ◌+◌, ◌<◌, ◌≡◌, refl, sym, ap, ◌∙◌, [], ◌∷◌, ◌++◌,
  append_assoc, length, take, drop, ℕ,
}
use wireline.Errors.{ok, bind-eq-ok, ok-injective}
use wireline.Tools.Packets.{ethernet, pack_u16, pack_u8, checksum, ip_header, ipv4, fixed}
use wireline.Tools.Packets.Layers.{length-fixed, pack_u8-ok, pack_u16-ok}

abbrev pub ip_bytes : Bytes → Bytes → ℕ → ℕ → ℕ → ℕ → Bytes → Bytes
ip_bytes src dst total ident proto sum payload =
    0x45
    ∷ 0
    ∷ (u16_be total
        ++ (u16_be ident
            ++ (0 ∷ 0 ∷ 64 ∷ proto ∷ (u16_be sum ++ (fixed 4 src ++ (fixed 4 dst ++ payload))))))

-- The header that the checksum is taken of.
abbrev pub ip_header_of : Bytes → Bytes → ℕ → ℕ → ℕ → Bytes
ip_header_of src dst total ident proto =
    ip_header (u16_be total) (u16_be ident) (proto ∷ []) (0 ∷ 0 ∷ []) src dst

ip_joined :
    (src dst payload b1 b2 b3 b4 : Bytes) (total ident proto sum : ℕ)
    → b1 ≡ u16_be total
    → b2 ≡ u16_be ident
    → b3 ≡ proto ∷ []
    → b4 ≡ u16_be sum
    → (take 10 (ip_header b1 b2 b3 (0 ∷ 0 ∷ []) src dst)
          ++ (b4 ++ drop 12 (ip_header b1 b2 b3 (0 ∷ 0 ∷ []) src dst)))
        ++ payload
      ≡ ip_bytes src dst total ident proto sum payload
unfolding ip_header u16_be
ip_joined src dst payload b1 b2 b3 b4 total ident proto sum q1 q2 q3 q4 =
    rw (q1, q2, q3, q4, append_assoc (fixed 4 src) (fixed 4 dst) payload) refl

pub ipv4_ok :
    (src dst payload packet : Bytes) (proto ident : ℕ)
    → ipv4 src dst proto payload ident ≡ ok packet
    → (20 + length payload < 65536)
      × (proto < 256)
      × (packet
          ≡ ip_bytes src dst
              (20 + length payload)
              ident
              proto
              (checksum (ip_header_of src dst (20 + length payload) ident proto))
              payload)
unfolding ipv4
ipv4_ok src dst payload packet proto ident e =
    let (b1, q1, e1) = bind-eq-ok (pack_u16 (20 + length payload)) _ e in
    let (b2, q2, e2) = bind-eq-ok (pack_u16 ident) _ e1 in
    let (b3, q3, e3) = bind-eq-ok (pack_u8 proto) _ e2 in
    let (b4, q4, e4) =
      bind-eq-ok (pack_u16 (checksum (ip_header b1 b2 b3 (0 ∷ 0 ∷ []) src dst))) _ e3 in
    let t = pack_u16-ok (20 + length payload) b1 q1 in
    let p = pack_u8-ok proto b3 q3 in
    let i = (pack_u16-ok ident b2 q2).1 in
    (
      t.0,
      p.0,
      sym (ok-injective e4)
          ∙ ip_joined src dst payload b1 b2 b3 b4 (20 + length payload) ident proto _ t.1 i p.1
              ((pack_u16-ok _ b4 q4).1 ∙ ap u16_be (ap checksum (header_same b1 b2 b3 t.1 i p.1))),
    )
  where
    header_same :
        (b1 b2 b3 : Bytes)
        → b1 ≡ u16_be (20 + length payload)
        → b2 ≡ u16_be ident
        → b3 ≡ proto ∷ []
        → ip_header b1 b2 b3 (0 ∷ 0 ∷ []) src dst
          ≡ ip_header_of src dst (20 + length payload) ident proto
    header_same b1 b2 b3 q1 q2 q3 = rw (q1, q2, q3) refl

module _ (src dst payload : Bytes) (total ident proto sum : ℕ) where
  abbrev pub packet_bytes : Bytes
  packet_bytes = ip_bytes src dst total ident proto sum payload

  source_part : slice 12 16 packet_bytes ≡ fixed 4 src
  unfolding u16_be
  source_part = take-append 4 (fixed 4 src) (fixed 4 dst ++ payload) (length-fixed 4 src)

  target_part : slice 16 20 packet_bytes ≡ fixed 4 dst
  unfolding u16_be
  target_part =
      sym (ap (take 4) (drop-drop 4 12 packet_bytes))
      ∙ ap (take 4) (drop-append 4 (fixed 4 src) (fixed 4 dst ++ payload) (length-fixed 4 src))
      ∙ take-append 4 (fixed 4 dst) payload (length-fixed 4 dst)

  payload_part : drop 20 packet_bytes ≡ payload
  unfolding u16_be
  payload_part =
      sym (drop-drop 4 16 packet_bytes)
      ∙ ap (drop 4) (sym (drop-drop 4 12 packet_bytes))
      ∙ ap (drop 4) (drop-append 4 (fixed 4 src) (fixed 4 dst ++ payload) (length-fixed 4 src))
      ∙ drop-append 4 (fixed 4 dst) payload (length-fixed 4 dst)

  total_part : total < 65536 → u16_at packet_bytes 2 ≡ total
  unfolding u16_be u16_at
  total_part h = omega (arith, h)

  length-packet_bytes : length packet_bytes ≡ 20 + length payload
  unfolding u16_be
  length-packet_bytes = omega (
    arith,
    length-append (fixed 4 src) (fixed 4 dst ++ payload),
    length-append (fixed 4 dst) payload,
    length-fixed 4 src,
    length-fixed 4 dst,
  )

  ip_payload-packet_bytes :
      total ≡ 20 + length payload → total < 65536 → ip_payload packet_bytes ≡ payload
  unfolding ip_payload
  ip_payload-packet_bytes t h =
      let n : total - 20 ≡ length payload = omega arith in
      rw (total_part h, ne→==_false total 0 (λ z. omega arith), payload_part, n)
        (take_all (length payload) payload (omega arith))

  pub ip_layer-packet_bytes :
      {T : Type 0} (row : Row T)
      → total ≡ 20 + length payload
      → total < 65536
      → ip_layer row packet_bytes
        ≡ hand_on
            (record row { l3_src = ip_str (fixed 4 src); l3_dst = ip_str (fixed 4 dst) })
            payload
  unfolding ip_layer
  ip_layer-packet_bytes row t h =
      rw
        (
          le→ltb_false (length packet_bytes) 20 (omega (arith, length-packet_bytes)),
          source_part,
          target_part,
          ip_payload-packet_bytes t h,
        )
        refl

module _ {T : Type 0} (row : Row T) (src dst packet : Bytes) where
  abbrev pub frame_bytes : Bytes
  frame_bytes = ethernet src dst packet

  frame_target : slice 0 6 frame_bytes ≡ fixed 6 dst
  unfolding ethernet
  frame_target = take-append 6 (fixed 6 dst) _ (length-fixed 6 dst)

  frame_rest : drop 6 frame_bytes ≡ fixed 6 src ++ (u16_be 0x0800 ++ packet)
  unfolding ethernet
  frame_rest = drop-append 6 (fixed 6 dst) _ (length-fixed 6 dst)

  frame_source : slice 6 12 frame_bytes ≡ fixed 6 src
  frame_source = ap (take 6) frame_rest ∙ take-append 6 (fixed 6 src) _ (length-fixed 6 src)

  frame_type : drop 12 frame_bytes ≡ u16_be 0x0800 ++ packet
  frame_type =
      sym (drop-drop 6 6 frame_bytes)
      ∙ ap (drop 6) frame_rest
      ∙ drop-append 6 (fixed 6 src) _ (length-fixed 6 src)

  frame_payload : drop 14 frame_bytes ≡ packet
  frame_payload = sym (drop-drop 2 12 frame_bytes) ∙ ap (drop 2) frame_type ∙ unfold u16_be in refl

  frame_ethertype : u16_at frame_bytes 12 ≡ 0x0800
  unfolding u16_at u16_be
  frame_ethertype =
      (λ i. sym (get_or-drop 12 0 frame_bytes 0) i * 256 + sym (get_or-drop 12 1 frame_bytes 0) i)
      ∙ ap (λ b. get_or b 0 0 * 256 + get_or b 1 0) frame_type

  length-frame_bytes : length frame_bytes ≡ 14 + length packet
  unfolding ethernet u16_be
  length-frame_bytes = omega (
    arith,
    length-append (fixed 6 dst) (fixed 6 src ++ (u16_be 0x0800 ++ packet)),
    length-append (fixed 6 src) (u16_be 0x0800 ++ packet),
    length-fixed 6 dst,
    length-fixed 6 src,
  )

  pub link_layer-ethernet :
      link_layer linktype_ethernet row frame_bytes
      ≡ hand_on
          (some (record row { l2_src = mac (fixed 6 src); l2_dst = mac (fixed 6 dst) }))
          packet
  unfolding link_layer ethernet_layer
  link_layer-ethernet =
      rw
        (
          le→ltb_false (length frame_bytes) 14 (omega (arith, length-frame_bytes)),
          frame_ethertype,
          frame_target,
          frame_source,
          frame_payload,
        )
        refl
