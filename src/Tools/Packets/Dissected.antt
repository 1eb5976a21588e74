-- ===== src/Tools/Packets/Dissected.antt =====
-- src/wireline/sniff/dissect.py on whole packets of tools/make_pcap_fixture.py.
use wireline.Tools.Packets.{ipv4, tcp, udp, fixed, ethernet}
use wireline.Tools.Packets.Layers.{tcp_layer-tcp, udp_layer-udp}
use wireline.Tools.Packets.Network.{ipv4_ok, ip_layer-packet_bytes, link_layer-ethernet}
use wireline.Sniff.Dissect.{
  above_ip, above_link, dissect_packet, ip_layer, linktype_ethernet, new_row, proto_tcp, proto_udp,
  transport_layer, with_payload,
}
use wireline.Sniff.Rows.{mac, Row, ip_str, tcp_flags, try_parse_wireline}
use wireline.Errors.{ok}
use wireline.Base.Text.{codes}
use wireline.Base.Bytes.{Bytes, u16_be}
use wireline.Base.{ℕ, ◌+◌, ◌≡◌, some, length, ap, refl, ◌∙◌}

-- The row of a packet whose addresses have been read.
abbrev pub addressed : {T : Type 0} → T → Bytes → Bytes → Bytes → Bytes → Row T
addressed ts smac dmac src dst = record (new_row ts) {
  l2_src = mac (fixed 6 smac);
  l2_dst = mac (fixed 6 dmac);
  l3_src = ip_str (fixed 4 src);
  l3_dst = ip_str (fixed 4 dst);
}

module _ {T : Type 0} (src dst carried ip_packet : Bytes) (proto ident : ℕ) where
  -- What the fixture tool wraps in IP is handed to the transport layer as it was.
  above_ip-ipv4 :
      (row : Row T)
      → ipv4 src dst proto carried ident ≡ ok ip_packet
      → above_ip ip_packet (ip_layer row ip_packet)
        ≡ with_payload (
            transport_layer proto
              (record row { l3_src = ip_str (fixed 4 src); l3_dst = ip_str (fixed 4 dst) })
              carried)
  unfolding above_ip u16_be
  above_ip-ipv4 row e =
      let (short, _, q) = ipv4_ok src dst carried ip_packet proto ident e in
      rw
        (
          q,
          ip_layer-packet_bytes src dst carried (20 + length carried) ident proto _ row refl short,
        )
        refl

  pub dissect_packet-ipv4 :
      (smac dmac : Bytes) (ts : T) (len : ℕ)
      → ipv4 src dst proto carried ident ≡ ok ip_packet
      → dissect_packet linktype_ethernet (record {
        timestamp = ts;
        captured = ethernet smac dmac ip_packet;
        original_length = len;
      })
        ≡ some (with_payload (transport_layer proto (addressed ts smac dmac src dst) carried))
  unfolding dissect_packet above_link
  dissect_packet-ipv4 smac dmac ts len e =
      rw (link_layer-ethernet (new_row ts) smac dmac ip_packet) (ap some (above_ip-ipv4 _ e))

module _ {T : Type 0} (smac dmac src dst payload carried ip_packet : Bytes) (ts : T) (len : ℕ) where
  -- If `tcp` makes a segment of a payload, and `ipv4` a packet of the segment, then the row of
  -- that packet behind an Ethernet header has the addresses, ports and flags that it was built
  -- from, and its payload with the Wireline headers in it.
  pub dissect_packet-tcp :
      (sport dport seq ack flags ident : ℕ)
      → tcp sport dport seq ack flags payload ≡ ok carried
      → ipv4 src dst proto_tcp carried ident ≡ ok ip_packet
      → dissect_packet linktype_ethernet (record {
        timestamp = ts;
        captured = ethernet smac dmac ip_packet;
        original_length = len;
      })
        ≡ some (record (addressed ts smac dmac src dst) {
          l4_proto = codes "TCP";
          l4_sport = sport;
          l4_dport = dport;
          l4_flags = tcp_flags flags;
          payload_len = length payload;
          payload = payload;
          l7 = try_parse_wireline payload;
        })
  unfolding transport_layer with_payload
  dissect_packet-tcp sport dport seq ack flags ident t p =
      dissect_packet-ipv4 src dst carried ip_packet proto_tcp ident smac dmac ts len p
      ∙ ap (λ l. some (with_payload l))
          (tcp_layer-tcp _ sport dport seq ack flags payload carried t)

  pub dissect_packet-udp :
      (sport dport ident : ℕ)
      → udp sport dport payload ≡ ok carried
      → ipv4 src dst proto_udp carried ident ≡ ok ip_packet
      → dissect_packet linktype_ethernet (record {
        timestamp = ts;
        captured = ethernet smac dmac ip_packet;
        original_length = len;
      })
        ≡ some (record (addressed ts smac dmac src dst) {
          l4_proto = codes "UDP";
          l4_sport = sport;
          l4_dport = dport;
          payload_len = length payload;
          payload = payload;
          l7 = try_parse_wireline payload;
        })
  unfolding transport_layer with_payload
  dissect_packet-udp sport dport ident u p =
      dissect_packet-ipv4 src dst carried ip_packet proto_udp ident smac dmac ts len p
      ∙ ap (λ l. some (with_payload l)) (udp_layer-udp _ sport dport payload carried u)
