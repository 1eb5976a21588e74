-- ===== src/Tools/Packets/Layers.antt =====
-- The layers of src/wireline/sniff/dissect.py on the packets of tools/make_pcap_fixture.py.
use wireline.Base.Text.{codes}
use wireline.Base.Bytes.{Bytes, u32_be, u16_be, u16_at}
use wireline.Base.{
  ◌+◌, ap, take_all, zero, suc, ◌^◌, ◌<◌, ◌≡◌, refl, sym, ◌∙◌, [], ◌∷◌, ◌++◌, arith, length,
  length-append, length-take, ℕ,
}
use wireline.Errors.{ok, bind-eq-ok, ok-injective}
use wireline.Sniff.Rows.{Row, tcp_flags}
use wireline.Sniff.Dissect.{hand_on, tcp_layer, udp_layer}
use wireline.Tools.Packets.{pack_u8, pack_u16, pack_u32_be, zeros, fixed, tcp, udp}

pub pack_u8-ok : (n : ℕ) (b : Bytes) → pack_u8 n ≡ ok b → (n < 256) × (b ≡ n ∷ [])
unfolding pack_u8
pack_u8-ok n b e = ground arith

pub pack_u16-ok : (n : ℕ) (b : Bytes) → pack_u16 n ≡ ok b → (n < 65536) × (b ≡ u16_be n)
unfolding pack_u16
pack_u16-ok n b e = ground arith

pack_u32_be-ok : (n : ℕ) (b : Bytes) → pack_u32_be n ≡ ok b → (n < 2 ^ 32) × (b ≡ u32_be n)
unfolding pack_u32_be
pack_u32_be-ok n b e = ground arith

length-zeros : (n : ℕ) → length (zeros n) ≡ n
unfolding zeros
length-zeros zero = refl
length-zeros (suc n) = omega (arith, length-zeros n)

pub length-fixed : (n : ℕ) (raw : Bytes) → length (fixed n raw) ≡ n
unfolding fixed
length-fixed n raw =
    omega (arith, length-take n (raw ++ zeros n), length-append raw (zeros n), length-zeros n)

u16_at-u16_be : (n : ℕ) (rest : Bytes) → n < 65536 → u16_at (u16_be n ++ rest) 0 ≡ n
unfolding u16_at u16_be
u16_at-u16_be n rest h = omega arith

-- The twenty bytes of a TCP header with its options left out.
abbrev tcp_bytes : ℕ → ℕ → Bytes → Bytes → ℕ → Bytes → Bytes
tcp_bytes sport dport seq ack flags payload =
    (u16_be sport
      ++ (u16_be dport
          ++ (seq ++ (ack ++ (0x50 ∷ ((flags ∷ []) ++ (255 ∷ 255 ∷ 0 ∷ 0 ∷ 0 ∷ 0 ∷ [])))))))
    ++ payload

tcp_joined :
    (sport dport seq ack flags : ℕ) (payload b1 b2 b3 b4 b5 : Bytes)
    → b1 ≡ u16_be sport
    → b2 ≡ u16_be dport
    → b3 ≡ u32_be seq
    → b4 ≡ u32_be ack
    → b5 ≡ flags ∷ []
    → (b1 ++ (b2 ++ (b3 ++ (b4 ++ (0x50 ∷ (b5 ++ (255 ∷ 255 ∷ 0 ∷ 0 ∷ 0 ∷ 0 ∷ []))))))) ++ payload
      ≡ tcp_bytes sport dport (u32_be seq) (u32_be ack) flags payload
tcp_joined sport dport seq ack flags payload b1 b2 b3 b4 b5 q1 q2 q3 q4 q5 =
    rw (q1, q2, q3, q4, q5) refl

tcp_ok :
    (sport dport seq ack flags : ℕ) (payload segment : Bytes)
    → tcp sport dport seq ack flags payload ≡ ok segment
    → (sport < 65536)
      × (dport < 65536)
      × (segment ≡ tcp_bytes sport dport (u32_be seq) (u32_be ack) flags payload)
unfolding tcp
tcp_ok sport dport seq ack flags payload segment e =
    let (b1, q1, e1) = bind-eq-ok (pack_u16 sport) _ e in
    let (b2, q2, e2) = bind-eq-ok (pack_u16 dport) _ e1 in
    let (b3, q3, e3) = bind-eq-ok (pack_u32_be seq) _ e2 in
    let (b4, q4, e4) = bind-eq-ok (pack_u32_be ack) _ e3 in
    let (b5, q5, e5) = bind-eq-ok (pack_u8 flags) _ e4 in
    let s = pack_u16-ok sport b1 q1 in
    let d = pack_u16-ok dport b2 q2 in
    (
      s.0,
      d.0,
      sym (ok-injective e5)
          ∙ tcp_joined sport dport seq ack flags payload b1 b2 b3 b4 b5 s.1 d.1
              (pack_u32_be-ok seq b3 q3).1 (pack_u32_be-ok ack b4 q4).1 (pack_u8-ok flags b5 q5).1,
    )

abbrev udp_bytes : ℕ → ℕ → Bytes → Bytes
udp_bytes sport dport payload =
    (u16_be sport ++ (u16_be dport ++ (u16_be (8 + length payload) ++ (0 ∷ 0 ∷ [])))) ++ payload

udp_joined :
    (sport dport : ℕ) (payload b1 b2 b3 : Bytes)
    → b1 ≡ u16_be sport
    → b2 ≡ u16_be dport
    → b3 ≡ u16_be (8 + length payload)
    → (b1 ++ (b2 ++ (b3 ++ (0 ∷ 0 ∷ [])))) ++ payload ≡ udp_bytes sport dport payload
udp_joined sport dport payload b1 b2 b3 q1 q2 q3 = rw (q1, q2, q3) refl

module _ {T : Type 0} (row : Row T) where
  pub tcp_layer-tcp :
      (sport dport seq ack flags : ℕ) (payload segment : Bytes)
      → tcp sport dport seq ack flags payload ≡ ok segment
      → tcp_layer row segment
        ≡ hand_on
            (record row {
              l4_proto = codes "TCP";
              l4_sport = sport;
              l4_dport = dport;
              l4_flags = tcp_flags flags;
            })
            payload
  unfolding tcp_layer u16_be u16_at u32_be
  tcp_layer-tcp sport dport seq ack flags payload segment e =
      let (s, d, q) = tcp_ok sport dport seq ack flags payload segment e in
      rw q (ground (arith, s, d))

  udp_layer_bytes :
      (sport dport : ℕ) (payload : Bytes)
      → sport < 65536
      → dport < 65536
      → 8 + length payload < 65536
      → udp_layer row (udp_bytes sport dport payload)
        ≡ hand_on
            (record row { l4_proto = codes "UDP"; l4_sport = sport; l4_dport = dport })
            payload
  unfolding udp_layer u16_be u16_at
  udp_layer_bytes sport dport payload s d n =
      ground (arith, take_all (length payload) payload (omega arith))

  pub udp_layer-udp :
      (sport dport : ℕ) (payload datagram : Bytes)
      → udp sport dport payload ≡ ok datagram
      → udp_layer row datagram
        ≡ hand_on
            (record row { l4_proto = codes "UDP"; l4_sport = sport; l4_dport = dport })
            payload
  unfolding udp
  udp_layer-udp sport dport payload datagram e =
      let (b1, q1, e1) = bind-eq-ok (pack_u16 sport) _ e in
      let (b2, q2, e2) = bind-eq-ok (pack_u16 dport) _ e1 in
      let (b3, q3, e3) = bind-eq-ok (pack_u16 (8 + length payload)) _ e2 in
      let s = pack_u16-ok sport b1 q1 in
      let d = pack_u16-ok dport b2 q2 in
      let n = pack_u16-ok (8 + length payload) b3 q3 in
      ap (udp_layer row)
        (sym (ok-injective e3) ∙ udp_joined sport dport payload b1 b2 b3 s.1 d.1 n.1)
      ∙ udp_layer_bytes sport dport payload s.0 d.0 n.0
