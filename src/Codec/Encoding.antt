-- ===== src/Codec/Encoding.antt =====
-- `encode` and `decode` of src/wireline/protocol/codec.py as relations between a frame and its bytes.
use wireline.Base.{
  inr, inl, Option, ◌↔◌, ◌≤◌, ◌<◌, ◌^◌, none, some, ◌++◌, length, eqb_sound, eqb_refl, ◌≡◌, refl,
  arith,
}
use wireline.Base.Bytes.{Bytes}
use wireline.Errors.{Result-cases, ok}
use wireline.Codec.{
  Crypto, Frame, Header, encode, decode_frame, decode_header, pack_header, type_value, sign, crc_of,
  max_payload, verify_crc, verify_mac, verify_mac_if,
}
use wireline.Codec.Layout.{unknown_flags_iff}

-- The limits that `encode` checks.
pub record IsEncodable (f : Frame) : Type 0 where
  pub fits : length f.payload ≤ max_payload
  pub in_range : f.seq < 2 ^ 32
  pub known : f.flags < 4

module _ (crypto : Crypto) where
  abbrev pub header_of : Frame → Bytes
  header_of f =
      pack_header (type_value f.msg_type) f.flags f.seq (length f.payload) (crc_of crypto f.payload)

  abbrev pub wire_of : Frame → Bytes → Bytes
  wire_of f secret = header_of f ++ (f.payload ++ sign crypto (header_of f) f.payload secret)

  pub encode-IsEncodable :
      (f : Frame) (secret : Bytes) → IsEncodable f → encode crypto f secret ≡ ok (wire_of f secret)
  unfolding encode
  encode-IsEncodable f secret h = ground (arith, (unknown_flags_iff f.flags).1)

  pub IsEncodable-encode :
      (f : Frame) (secret raw : Bytes)
      → encode crypto f secret ≡ ok raw
      → IsEncodable f × (raw ≡ wire_of f secret)
  unfolding encode
  IsEncodable-encode f secret raw h = ground (arith, (unknown_flags_iff f.flags).0)

  -- What an accepted frame says of the three parts that it was assembled from.
  pub record Assembles (raw_header payload mac : Bytes) (f : Frame) : Type 0 where
    pub header : Header
    pub parsed : decode_header raw_header ≡ ok header
    pub measured : length payload ≡ header.length
    pub sealed : length mac ≡ 32
    pub summed : crc_of crypto payload ≡ header.crc
    pub result : f ≡ record {
      msg_type = header.msg_type;
      seq = header.seq;
      payload = payload;
      flags = header.flags;
    }

  pub decode_frame-Assembles :
      (rh p m : Bytes) (secret : Option Bytes) (f : Frame)
      → decode_frame crypto rh p m secret ≡ ok f
      → Assembles rh p m f × (verify_mac_if crypto rh p m secret ≡ ok tt)
  unfolding decode_frame verify_crc
  decode_frame-Assembles rh p m secret f e = elim (Result-cases (decode_header rh)) [
    | inl (h, eh) ↦ (
      record {
        header = h;
        parsed = eh;
        measured = ground arith;
        sealed = ground arith;
        summed = ground arith;
        result = ground arith;
      },
      elim (Result-cases (verify_mac_if crypto rh p m secret)) [
        | inl (tt, ok_mac) ↦ ok_mac
        | inr (x, ex) ↦ ground arith
      ],
    )
    | inr (x, ex) ↦ ground arith
  ]

  pub Assembles-decode_frame :
      (rh p m : Bytes) (secret : Option Bytes) (f : Frame)
      → Assembles rh p m f
      → verify_mac_if crypto rh p m secret ≡ ok tt
      → decode_frame crypto rh p m secret ≡ ok f
  unfolding decode_frame verify_crc
  Assembles-decode_frame rh p m secret f a v = ground (arith, a.parsed)

  pub verify_mac_iff :
      (rh p m secret : Bytes)
      → (verify_mac_if crypto rh p m (some secret) ≡ ok tt) ↔ (sign crypto rh p secret ≡ m)
  unfolding verify_mac_if verify_mac
  verify_mac_iff rh p m secret =
      (λ e. ground (arith, eqb_sound (sign crypto rh p secret) m), λ e. rw (e, eqb_refl))

  pub verify_none : (rh p m : Bytes) → verify_mac_if crypto rh p m none ≡ ok tt
  unfolding verify_mac_if
  verify_none rh p m = refl
