-- ===== src/Tools/Packets/Checksum.antt =====
-- The checksum of tools/make_pcap_fixture.py.
use wireline.Errors.{ok}
use wireline.Base.Bytes.{u16_be, Bytes}
use wireline.Base.{
  List, subst, ◌*◌, sym, ◌∷◌, ◌++◌, append_assoc, length-append, take-append, ap, ◌∙◌, [], length,
  take, zero, suc, ◌+◌, ◌-◌, ◌/◌, ◌%◌, ◌<◌, ◌≡◌, refl, inl, inr, arith, ◌==◌, ==_iff, Bool-cases, ℕ,
}
use wireline.Tools.Packets.{checksum, sum_words, fold_carries, ip_header, ipv4, fixed}
use wireline.Tools.Packets.Layers.{length-fixed}
use wireline.Tools.Packets.Network.{ip_bytes, ip_header_of, ipv4_ok}

-- The carries are folded into sixteen bits without changing the remainder by 65535, and only zero
-- becomes zero.
pub record Folded (total folded : ℕ) : Type 0 where
  pub short : folded < 65536
  pub same : folded % 65535 ≡ total % 65535
  pub kept : 0 < total → 0 < folded

same_remainder : (total : ℕ) → (total % 65536 + total / 65536) % 65535 ≡ total % 65535
same_remainder total = omega arith

fold_carries-Folded : (fuel total : ℕ) → total < fuel → Folded total (fold_carries fuel total)
unfolding fold_carries
fold_carries-Folded zero total h = absurd (omega arith)
fold_carries-Folded (suc fuel) total h = elim (Bool-cases (total / 65536 == 0)) [
  | inl done ↦
      let z = (==_iff (total / 65536) 0).0 done in
      rw done (record { short = omega arith; same = refl; kept = λ p. p })
  | inr more ↦
      let z : 0 < total / 65536 = ground arith in
      let f = fold_carries-Folded fuel (total % 65536 + total / 65536) (omega arith) in
      let s = f.same ∙ same_remainder total in
      let k : 0 < total → 0 < fold_carries fuel (total % 65536 + total / 65536) =
        λ p. f.kept (omega arith) in
      rw more (record { short = f.short; same = s; kept = k })
]

-- A total with the checksum added has the checksum zero.
complement :
    (total folded total' folded' : ℕ)
    → Folded total folded
    → 0 < total
    → total' ≡ total + (65535 - folded % 65536)
    → Folded total' folded'
    → 65535 - folded' % 65536 ≡ 0
complement total folded total' folded' f p q g =
    let a = f.kept p in
    let b = g.kept (omega arith) in omega (arith, f.short, f.same, g.short, g.same)

-- The 16-bit words of some bytes, and their sum
unfoldable pub words : Bytes → List ℕ
words (high ∷ low ∷ rest) = (high * 256 + low) ∷ words rest
words (high ∷ []) = (high * 256) ∷ []
words [] = []

unfoldable pub sum : List ℕ → ℕ
sum [] = 0
sum (n ∷ ns) = n + sum ns

words-sum : (raw : Bytes) → sum (words raw) ≡ sum_words raw
unfolding words sum sum_words
words-sum [] = refl
words-sum (a ∷ []) = omega arith
words-sum (a ∷ b ∷ rest) = omega (arith, words-sum rest)

abbrev Verified : Bytes → Type 0
Verified raw = (0 < sum (words raw)) × (sum (words raw) % 65535 ≡ 0) × (checksum raw ≡ 0)

module _ (src dst payload : Bytes) (total ident proto : ℕ) where
  abbrev head : Bytes
  head = ip_header_of src dst total ident proto

  abbrev packet_head : Bytes
  packet_head =
      ip_header (u16_be total) (u16_be ident) (proto ∷ []) (u16_be (checksum head)) src dst

  checksum_lem :
      checksum head ≡ 65535 - fold_carries (suc (sum_words head)) (sum_words head) % 65536
  unfolding checksum
  checksum_lem = refl

  checksum_short : checksum head < 65536
  unfolding checksum
  checksum_short = omega arith

  sum_words-head : 0 < sum_words head
  unfolding sum_words ip_header u16_be
  sum_words-head = omega arith

  sum_words-packet_head : sum_words packet_head ≡ sum_words head + checksum head
  unfolding sum_words ip_header u16_be
  sum_words-packet_head = omega (arith, checksum_short)

  addresses : take 8 (fixed 4 src ++ (fixed 4 dst ++ payload)) ≡ fixed 4 src ++ fixed 4 dst
  addresses =
      ap (take 8) (sym (append_assoc (fixed 4 src) (fixed 4 dst) payload))
      ∙ take-append 8 (fixed 4 src ++ fixed 4 dst) payload (
          omega (
            arith,
            length-append (fixed 4 src) (fixed 4 dst),
            length-fixed 4 src,
            length-fixed 4 dst,
          ))

  take-packet : take 20 (ip_bytes src dst total ident proto (checksum head) payload) ≡ packet_head
  unfolding u16_be ip_header
  take-packet =
      ap
        (λ t.
          69
          ∷ 0
          ∷ (u16_be total
              ++ (u16_be ident ++ (0 ∷ 0 ∷ 64 ∷ proto ∷ (u16_be (checksum head) ++ t)))))
        addresses

  checksum-packet_head : checksum packet_head ≡ 0
  unfolding checksum
  checksum-packet_head =
      complement (sum_words head) _ (sum_words packet_head) _
        (fold_carries-Folded (suc (sum_words head)) (sum_words head) (omega arith)) sum_words-head
        sum_words-packet_head
        (fold_carries-Folded (suc (sum_words packet_head)) (sum_words packet_head) (omega arith))

  packet_head-Verified : Verified packet_head
  packet_head-Verified =
      let f = fold_carries-Folded (suc (sum_words head)) (sum_words head) (omega arith) in
      let e = words-sum packet_head in
      (
        omega (arith, e, sum_words-packet_head, sum_words-head),
        omega (
          arith,
          e,
          sum_words-packet_head,
          sum_words-head,
          f.short,
          f.same,
          f.kept sum_words-head,
          checksum_lem,
        ),
        checksum-packet_head,
      )

-- If `ipv4` makes a packet, then its header is sound by the rule of the receiver: the 16-bit words of
-- the first 20 bytes, with the checksum among them, add up to a positive multiple of 65535, which is
-- zero in ones' complement; and `checksum` of these bytes is zero.
pub ipv4-checksum :
    (src dst payload packet : Bytes) (proto ident : ℕ)
    → ipv4 src dst proto payload ident ≡ ok packet
    → (0 < sum (words (take 20 packet)))
      × (sum (words (take 20 packet)) % 65535 ≡ 0)
      × (checksum (take 20 packet) ≡ 0)
ipv4-checksum src dst payload packet proto ident e =
    let (_, _, q) = ipv4_ok src dst payload packet proto ident e in
    subst Verified
      (sym (ap (take 20) q ∙ take-packet src dst payload (20 + length payload) ident proto))
      (packet_head-Verified src dst payload (20 + length payload) ident proto)
