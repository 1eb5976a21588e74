-- ===== src/Codec/Layout.antt =====
-- The header of a frame: `HEADER.pack` and `decode_header` of src/wireline/protocol/codec.py undo
-- one another.
use mathlib.Core.Logic.{◌↔◌}
use wireline.Base.{
  get_or_all, eq-values, ℕ, ◌+◌, ◌≤◌, ◌<◌, ◌^◌, false, [], ◌∷◌, length, slice, ltb, eqb, eqb_sound,
  ◌≡◌, refl, ap, sym, ◌∙◌, arith, All,
}
use wireline.Base.Bytes.{
  Bytes, IsByte, byte_at, u32_be, of_u32_be-u32_be, u32_be-of_u32_be, of_u32_be-lt,
}
use wireline.Errors.{ok}
use wireline.Codec.{
  MsgType, hello, type_value, type_of_value, parse_type, Header, pack_header, u32_at, unknown_flags,
  decode_header, max_payload, magic, version,
}

pub unknown_flags_iff : (f : ℕ) → (ltb 0 (unknown_flags f) ≡ false) ↔ (f < 4)
unfolding unknown_flags
unknown_flags_iff f = ground arith

pub parse_type-type_value : (t : MsgType) → parse_type (type_value t) ≡ ok t
unfolding parse_type type_of_value type_value
parse_type-type_value hello = refl
parse_type-type_value _ = refl

pub type_value-parse_type : (n : ℕ) (t : MsgType) → parse_type n ≡ ok t → n ≡ type_value t
unfolding parse_type type_of_value type_value
type_value-parse_type n t h = ground arith

pub decode_header-pack_header :
    (t : MsgType) (flags seq len crc : ℕ)
    → flags < 4
    → seq < 2 ^ 32
    → len ≤ max_payload
    → crc < 2 ^ 32
    → decode_header (pack_header (type_value t) flags seq len crc)
      ≡ ok (record { msg_type = t; flags = flags; seq = seq; length = len; crc = crc })
unfolding decode_header pack_header u32_at u32_be eqb
decode_header-pack_header t flags seq len crc hf hs hl hc = ground (
  arith,
  (unknown_flags_iff flags).1,
  parse_type-type_value t,
  of_u32_be-u32_be seq,
  of_u32_be-u32_be len,
  of_u32_be-u32_be crc,
)

-- What an accepted header says of its bytes.
pub record Accepts (raw : Bytes) (h : Header) : Type 0 where
  pub size : length raw ≡ 19
  pub starts : slice 0 4 raw ≡ magic
  pub versioned : byte_at raw 4 ≡ version
  pub typed : byte_at raw 5 ≡ type_value h.msg_type
  pub flagged : byte_at raw 6 ≡ h.flags
  pub numbered : u32_at raw 7 ≡ h.seq
  pub measured : u32_at raw 11 ≡ h.length
  pub summed : u32_at raw 15 ≡ h.crc
  pub fits : h.length ≤ max_payload
  pub known : h.flags < 4

pub decode_header-Accepts : (raw : Bytes) (h : Header) → decode_header raw ≡ ok h → Accepts raw h
unfolding decode_header
decode_header-Accepts raw h e = ground (
  arith,
  eqb_sound (slice 0 4 raw) magic,
  (unknown_flags_iff (byte_at raw 6)).0,
  type_value-parse_type (byte_at raw 5) h.msg_type,
)

module _ (raw : Bytes) (bytes : All IsByte raw) where
  byte_at-lt : (i : ℕ) → byte_at raw i < 256
  byte_at-lt i = get_or_all IsByte raw i 0 bytes (omega arith)

  u32_be-u32_at :
      (i : ℕ)
      → u32_be (u32_at raw i)
        ≡ byte_at raw i ∷ byte_at raw (i + 1) ∷ byte_at raw (i + 2) ∷ byte_at raw (i + 3) ∷ []
  unfolding u32_at
  u32_be-u32_at i =
      u32_be-of_u32_be _ _ _ _ (byte_at-lt i) (byte_at-lt (i + 1)) (byte_at-lt (i + 2))
        (byte_at-lt (i + 3))

  pub u32_at-lt : (i : ℕ) → u32_at raw i < 2 ^ 32
  unfolding u32_at
  u32_at-lt i =
      of_u32_be-lt _ _ _ _ (byte_at-lt i) (byte_at-lt (i + 1)) (byte_at-lt (i + 2))
        (byte_at-lt (i + 3))

-- The bytes of the magic, one by one.
magic_bytes :
    (raw : Bytes)
    → length raw ≡ 19
    → slice 0 4 raw ≡ magic
    → (byte_at raw 0 ≡ 0x57)
      × (byte_at raw 1 ≡ 0x49)
      × (byte_at raw 2 ≡ 0x52)
      × (byte_at raw 3 ≡ 0x45)
magic_bytes raw size starts =
    let e = ap (slice 0 4) (sym (eq-values 19 raw 0 size)) ∙ starts in
    (
      ap (λ r. byte_at r 0) e,
      ap (λ r. byte_at r 1) e,
      ap (λ r. byte_at r 2) e,
      ap (λ r. byte_at r 3) e,
    )

-- An accepted header is what `HEADER.pack` writes for its fields.
pub pack_header-Accepts :
    (raw : Bytes) (h : Header)
    → All IsByte raw
    → Accepts raw h
    → raw ≡ pack_header (type_value h.msg_type) h.flags h.seq h.length h.crc
unfolding pack_header
pack_header-Accepts raw h bytes a =
    let m = magic_bytes raw a.size a.starts in
    eq-values 19 raw 0 a.size
    ∙ rw (
      m.0,
      m.1,
      m.2,
      m.3,
      a.versioned,
      a.typed,
      a.flagged,
      ← a.numbered,
      ← a.measured,
      ← a.summed,
      u32_be-u32_at raw bytes 7,
      u32_be-u32_at raw bytes 11,
      u32_be-u32_at raw bytes 15,
    )
