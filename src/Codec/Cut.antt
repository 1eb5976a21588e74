-- ===== src/Codec/Cut.antt =====
-- The slices of `decode` of src/wireline/protocol/codec.py: header, body and MAC.
use wireline.Base.{
  ℕ, ◌+◌, ◌-◌, ◌≤◌, ◌≡◌, sym, ap, ◌∙◌, arith, ◌++◌, length, length-append, length-take, length-drop,
  slice, take, drop, take-append, drop-append, take-append-drop, drop-drop,
}
use wireline.Base.Bytes.{Bytes}
use wireline.Codec.{header_size, mac_size}

abbrev pub head_part : Bytes → Bytes
head_part raw = slice 0 header_size raw

abbrev pub body_part : Bytes → Bytes
body_part raw = slice header_size (length raw - mac_size) raw

abbrev pub mac_part : Bytes → Bytes
mac_part raw = drop (length raw - mac_size) raw

module _ (header payload mac : Bytes) (hh : length header ≡ 19) (hm : length mac ≡ 32) where
  pub length-wire : length (header ++ (payload ++ mac)) ≡ 51 + length payload
  length-wire = omega (arith, length-append header (payload ++ mac), length-append payload mac)

  pub head_part-wire : head_part (header ++ (payload ++ mac)) ≡ header
  head_part-wire = take-append 19 header (payload ++ mac) hh

  pub body_part-wire : body_part (header ++ (payload ++ mac)) ≡ payload
  body_part-wire =
      rw (drop-append 19 header (payload ++ mac) hh)
        (take-append _ payload mac (omega (arith, length-wire)))

  pub mac_part-wire : mac_part (header ++ (payload ++ mac)) ≡ mac
  mac_part-wire =
      let n : ℕ = length (header ++ (payload ++ mac)) - 32 in
      let split : n ≡ 19 + (n - 19) = omega (arith, length-wire) in
      let rest : length payload ≡ n - 19 = omega (arith, length-wire) in
      ap (λ k. drop k (header ++ (payload ++ mac))) split
      ∙ sym (drop-drop (n - 19) 19 (header ++ (payload ++ mac)))
      ∙ ap (drop (n - 19)) (drop-append 19 header (payload ++ mac) hh)
      ∙ drop-append (n - 19) payload mac rest

-- The three parts are the whole of a buffer of at least 51 bytes.
pub parts : (raw : Bytes) → 51 ≤ length raw → raw ≡ head_part raw ++ (body_part raw ++ mac_part raw)
parts raw h =
    let n : ℕ = length raw - 51 in
    let e : length raw - 32 ≡ 19 + n = omega arith in
    let m : length raw - 32 - 19 ≡ n = omega arith in
    sym (take-append-drop 19 raw)
    ∙ ap (λ r. take 19 raw ++ r)
        (sym (take-append-drop n (drop 19 raw))
          ∙ ap (λ r. take n (drop 19 raw) ++ r) (drop-drop n 19 raw ∙ ap (λ k. drop k raw) (sym e))
          ∙ ap (λ k. take k (drop 19 raw) ++ mac_part raw) (sym m))

pub length-mac_part : (raw : Bytes) → 51 ≤ length raw → length (mac_part raw) ≡ 32
length-mac_part raw h = omega (arith, length-drop (length raw - 32) raw)

pub length-body_part : (raw : Bytes) → 51 ≤ length raw → length (body_part raw) ≡ length raw - 51
length-body_part raw h =
    omega (arith, length-take (length raw - 32 - 19) (drop 19 raw), length-drop 19 raw)
