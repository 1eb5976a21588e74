-- ===== src/Sniff/Dissect.antt =====
-- src/wireline/sniff/dissect.py: a packet taken apart layer by layer.
use wireline.Sniff.Rows.{Row, mac, ip_str, tcp_flags, try_parse_wireline}
use wireline.Sniff.Pcap.{Packet, Capture, ReadEnd, complete}
use wireline.Base.{
  ◌*◌, ◌⊎◌, inl, inr, not, ◌||◌, Option, none, some, ℕ, ◌/◌, ◌%◌, List, [], ◌∷◌, ◌++◌, ◌==◌, ltb,
  leb, length, drop, slice, if◌then◌else◌,
}
use wireline.Base.Bytes.{u16_at, Bytes, byte_at}
use wireline.Base.Text.{Text, codes, str_ℕ, hex_padded}

abbrev pub linktype_loopback : ℕ
linktype_loopback = 0

abbrev pub linktype_ethernet : ℕ
linktype_ethernet = 1

abbrev pub linktype_raw_ip : ℕ
linktype_raw_ip = 101

abbrev pub ethertype_ipv4 : ℕ
ethertype_ipv4 = 0x0800

abbrev pub proto_tcp : ℕ
proto_tcp = 6

abbrev pub proto_udp : ℕ
proto_udp = 17

unfoldable pub non_ipv4 : ℕ → Text
unfolding codes
non_ipv4 ethertype = codes "non-ipv4 ethertype " ++ hex_padded 4 ethertype

unfoldable pub unsupported_linktype : ℕ → Text
unfolding codes
unsupported_linktype linktype = codes "unsupported linktype " ++ str_ℕ linktype

unfoldable pub not_ipv4 : Text
unfolding codes
not_ipv4 = codes "not an ipv4 packet"

unfoldable pub ip_protocol : ℕ → Text
unfolding codes
ip_protocol proto = codes "ip protocol " ++ str_ℕ proto

-- A layer returns from the function with a row or with none, or hands the rest to the next layer.
pub data Layer (A : Type 0) : Type 0 where
  returned : A → Layer A
  hand_on : A → Bytes → Layer A

-- `data[ihl:total_length] if total_length else data[ihl:]`
unfoldable pub ip_payload : Bytes → Bytes
ip_payload packet =
    let ihl = byte_at packet 0 % 16 * 4 in
    let total_length = u16_at packet 2 in
    if total_length == 0 then drop ihl packet else slice ihl total_length packet

module _ {T : Type 0} where
  abbrev pub new_row : T → Row T
  new_row ts = record {
    ts = ts;
    l2_src = [];
    l2_dst = [];
    l3_src = [];
    l3_dst = [];
    l4_proto = [];
    l4_sport = 0;
    l4_dport = 0;
    l4_flags = [];
    payload_len = 0;
    payload = [];
    l7 = [];
    note = [];
  }

  abbrev pub noted : Text → Row T → Row T
  noted text row = record row { note = text }

  -- L2 of an Ethernet packet of at least 14 bytes
  unfoldable pub ethernet_layer : Row T → Bytes → Layer (Option (Row T))
  ethernet_layer row packet =
      let row' = record row { l2_dst = mac (slice 0 6 packet); l2_src = mac (slice 6 12 packet) } in
      if u16_at packet 12 == ethertype_ipv4
      then hand_on (some row') (drop 14 packet)
      else returned (some (noted (non_ipv4 (u16_at packet 12)) row'))

  unfoldable pub link_layer : ℕ → Row T → Bytes → Layer (Option (Row T))
  link_layer linktype row packet =
      if linktype == linktype_ethernet
      then (if ltb (length packet) 14 then returned none else ethernet_layer row packet)
      else if linktype == linktype_loopback
      then hand_on (some row) (drop 4 packet)
      else if linktype == linktype_raw_ip
      then hand_on (some row) packet
      else returned (some (noted (unsupported_linktype linktype) row))

  -- L3: the addresses, and what the packet carries. The protocol is read by the next layer.
  unfoldable pub ip_layer : Row T → Bytes → Layer (Row T)
  ip_layer row packet =
      if ltb (length packet) 20 || not (byte_at packet 0 / 16 == 4)
      then returned (noted not_ipv4 row)
      else hand_on
          (record row {
            l3_src = ip_str (slice 12 16 packet);
            l3_dst = ip_str (slice 16 20 packet);
          })
          (ip_payload packet)

  unfoldable pub tcp_layer : Row T → Bytes → Layer (Row T)
  tcp_layer row segment =
      if ltb (length segment) 20
      then returned row
      else hand_on
          (record row {
            l4_proto = codes "TCP";
            l4_sport = u16_at segment 0;
            l4_dport = u16_at segment 2;
            l4_flags = tcp_flags (byte_at segment 13);
          })
          (drop (byte_at segment 12 / 16 * 4) segment)

  unfoldable pub udp_layer : Row T → Bytes → Layer (Row T)
  udp_layer row datagram =
      if ltb (length datagram) 8
      then returned row
      else hand_on
          (record row {
            l4_proto = codes "UDP";
            l4_sport = u16_at datagram 0;
            l4_dport = u16_at datagram 2;
          })
          (if leb 8 (u16_at datagram 4)
            then slice 8 (u16_at datagram 4) datagram
            else drop 8 datagram)

  unfoldable pub transport_layer : ℕ → Row T → Bytes → Layer (Row T)
  transport_layer proto row carried =
      if proto == proto_tcp
      then tcp_layer row carried
      else if proto == proto_udp
      then udp_layer row carried
      else returned (noted (ip_protocol proto) row)

  -- L7
  unfoldable pub with_payload : Layer (Row T) → Row T
  with_payload (returned row) = row
  with_payload (hand_on row payload) = record row {
    payload_len = length payload;
    payload = payload;
    l7 = try_parse_wireline payload;
  }

  -- From L4 on: `packet` is the IP packet, whose tenth byte is the protocol.
  unfoldable pub above_ip : Bytes → Layer (Row T) → Row T
  above_ip packet (returned row) = row
  above_ip packet (hand_on row carried) =
      with_payload (transport_layer (byte_at packet 9) row carried)

  unfoldable pub above_link : Layer (Option (Row T)) → Option (Row T)
  above_link (returned r) = r
  above_link (hand_on none packet) = none
  above_link (hand_on (some row) packet) = some (above_ip packet (ip_layer row packet))

  -- `_dissect_packet`
  unfoldable pub dissect_packet : ℕ → Packet T → Option (Row T)
  unfolding above_link link_layer
  dissect_packet linktype packet =
      above_link (link_layer linktype (new_row packet.timestamp) packet.captured)

  -- `if row is not None: rows.append(row)`
  unfoldable pub add_row : Option (Row T) → List (Row T) → List (Row T)
  add_row none rows = rows
  add_row (some row) rows = row ∷ rows

  unfoldable pub dissect_all : List (ℕ × Packet T) → List (Row T)
  unfolding add_row dissect_packet
  dissect_all [] = []
  dissect_all ((linktype, packet) ∷ rest) =
      add_row (dissect_packet linktype packet) (dissect_all rest)

  unfoldable pub rows_or_error : ReadEnd → List (Row T) → List (Row T) ⊎ ReadEnd
  rows_or_error complete rows = inl rows
  rows_or_error end rows = inr end

  -- `dissect`, on what `read_packets` yields: its error is that of the reader.
  unfoldable pub dissect : Capture T → List (Row T) ⊎ ReadEnd
  dissect capture = rows_or_error capture.end (dissect_all capture.packets)
