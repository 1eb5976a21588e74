-- ===== src/Tools/Packets/Tests.antt =====
-- The theorems on the packets of the fixture tool at a concrete one.
use wireline.Base.{◌<◌, ◌%◌, refl, ◌≡◌, ◌∷◌, [], take}
use wireline.Base.Bytes.{Bytes, u16_be, u32_be}
use wireline.Errors.{ok}
use wireline.Tools.Packets.{checksum, ipv4, tcp}
use wireline.Tools.Packets.Checksum.{words, sum, ipv4-checksum}

abbrev client_address : Bytes
client_address = 192 ∷ 168 ∷ 0 ∷ 1 ∷ []

abbrev server_address : Bytes
server_address = 192 ∷ 168 ∷ 0 ∷ 2 ∷ []

-- A segment without payload, from port 40000 to port 9000, with SYN set.
abbrev segment : Bytes
segment =
    156 ∷ 64 ∷ 35 ∷ 40 ∷ 0 ∷ 0 ∷ 0 ∷ 1 ∷ 0 ∷ 0 ∷ 0 ∷ 0 ∷ 80 ∷ 2 ∷ 255 ∷ 255 ∷ 0 ∷ 0 ∷ 0 ∷ 0 ∷ []

segment-tcp : tcp 40000 9000 1 0 2 [] ≡ ok segment
unfolding tcp u16_be u32_be
segment-tcp = refl

-- The words of the header add up to more than 65535: the sum has carries.
abbrev packet : Bytes
packet =
    69 ∷ 0 ∷ 0 ∷ 40 ∷ 0 ∷ 1 ∷ 0 ∷ 0 ∷ 64 ∷ 6 ∷ 249 ∷ 123 ∷ 192 ∷ 168 ∷ 0 ∷ 1 ∷ 192 ∷ 168 ∷ 0 ∷ 2
    ∷ segment

packet-ipv4 : ipv4 client_address server_address 6 segment 1 ≡ ok packet
unfolding ipv4 u16_be
packet-ipv4 = refl

ipv4-checksum_example :
    (0 < sum (words (take 20 packet)))
    × (sum (words (take 20 packet)) % 65535 ≡ 0)
    × (checksum (take 20 packet) ≡ 0)
ipv4-checksum_example = ipv4-checksum client_address server_address segment packet 6 1 packet-ipv4
