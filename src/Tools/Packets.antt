-- ===== src/Tools/Packets.antt =====
-- tools/make_pcap_fixture.py: Ethernet, IP, TCP and UDP packets, assembled by hand.
pub mod Layers
pub mod Network
pub mod Checksum
pub mod Dissected
mod Tests
use wireline.Base.{
  ℕ, zero, suc, ◌+◌, ◌-◌, ◌*◌, ◌/◌, ◌%◌, ◌^◌, List, [], ◌∷◌, ◌++◌, ◌==◌, ltb, length, take, drop,
  if◌then◌else◌,
}
use wireline.Base.Bytes.{Bytes, u16_be, u32_be}
use wireline.Errors.{Result, ok, raise, other_error, ◌>>=◌, ◌>>◌}

-- `struct.pack` of one number: one that does not fit raises `struct.error`.
unfoldable pub pack_u8 : ℕ → Result Bytes
pack_u8 n = if ltb n 256 then ok (n ∷ []) else raise other_error

unfoldable pub pack_u16 : ℕ → Result Bytes
pack_u16 n = if ltb n 65536 then ok (u16_be n) else raise other_error

unfoldable pub pack_u32_be : ℕ → Result Bytes
pack_u32_be n = if ltb n (2 ^ 32) then ok (u32_be n) else raise other_error

unfoldable pub zeros : ℕ → Bytes
zeros zero = []
zeros (suc n) = 0 ∷ zeros n

-- `struct.pack("6s", raw)`: cut, or filled up with zeros
unfoldable pub fixed : ℕ → Bytes → Bytes
unfolding zeros
fixed n raw = take n (raw ++ zeros n)

-- The sum of the 16-bit words; an odd last byte is followed by a zero.
unfoldable pub sum_words : Bytes → ℕ
sum_words [] = 0
sum_words (a ∷ []) = a * 256
sum_words (a ∷ b ∷ rest) = a * 256 + b + sum_words rest

-- `while total >> 16: ...`: the total falls with each turn, so a fuel above it is enough.
unfoldable pub fold_carries : ℕ → ℕ → ℕ
fold_carries zero total = total
fold_carries (suc fuel) total =
    let folded = fold_carries fuel (total % 65536 + total / 65536) in
    if total / 65536 == 0 then total else folded

-- `(~total) & 0xFFFF` is the difference from `0xFFFF` of the lowest 16 bits.
unfoldable pub checksum : Bytes → ℕ
unfolding sum_words fold_carries
checksum raw = let total = sum_words raw in 65535 - fold_carries (suc total) total % 65536

unfoldable pub ethernet : Bytes → Bytes → Bytes → Bytes
unfolding fixed u16_be
ethernet src dst payload = fixed 6 dst ++ (fixed 6 src ++ (u16_be 0x0800 ++ payload))

-- The addresses come as the four bytes of `ip_bytes`.
unfoldable pub ip_header : Bytes → Bytes → Bytes → Bytes → Bytes → Bytes → Bytes
unfolding fixed
ip_header total ident proto sum src dst =
    0x45 ∷ 0 ∷ (total ++ (ident ++ (0 ∷ 0 ∷ 64 ∷ (proto ++ (sum ++ (fixed 4 src ++ fixed 4 dst))))))

unfoldable pub ipv4 : Bytes → Bytes → ℕ → Bytes → ℕ → Result Bytes
unfolding ip_header checksum pack_u16 pack_u8
ipv4 src dst proto payload ident = do
  total_length ← pack_u16 (20 + length payload)
  identification ← pack_u16 ident
  protocol ← pack_u8 proto
  let header = ip_header total_length identification protocol (0 ∷ 0 ∷ []) src dst
  sum ← pack_u16 (checksum header)
  ok ((take 10 header ++ (sum ++ drop 12 header)) ++ payload)

unfoldable pub tcp : ℕ → ℕ → ℕ → ℕ → ℕ → Bytes → Result Bytes
unfolding pack_u16 pack_u32_be pack_u8
tcp sport dport seq ack flags payload = do
  source ← pack_u16 sport
  target ← pack_u16 dport
  sequence ← pack_u32_be seq
  acknowledged ← pack_u32_be ack
  bits ← pack_u8 flags
  ok (
      (source
        ++ (target
            ++ (sequence ++ (acknowledged ++ (0x50 ∷ (bits ++ (255 ∷ 255 ∷ 0 ∷ 0 ∷ 0 ∷ 0 ∷ [])))))))
      ++ payload)

unfoldable pub udp : ℕ → ℕ → Bytes → Result Bytes
unfolding pack_u16
udp sport dport payload = do
  source ← pack_u16 sport
  target ← pack_u16 dport
  len ← pack_u16 (8 + length payload)
  ok ((source ++ (target ++ (len ++ (0 ∷ 0 ∷ [])))) ++ payload)
