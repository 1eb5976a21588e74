-- ===== src/Codec/Keys.antt =====
-- What `decode` of src/wireline/protocol/codec.py does with the right key, another key and no key.
use wireline.Codec.Encoding.{IsEncodable}
use wireline.Codec.Texts.{hmac_mismatch}
use wireline.Base.{
  false, Option, none, some, length, ltb, eqb, not, ◌≡◌, ◌≢◌, ◌∙◌, arith, eqb_iff, Bool-cases, inl,
  inr,
}
use wireline.Base.Bytes.{Bytes}
use wireline.Errors.{ok, fail, fail_if, err_auth, ◌>>=◌, ◌>>◌, RaisesProtocolErrors, Result}
use wireline.Codec.{
  parse_type, verify_crc, verify_mac, verify_mac_if, Crypto, IsDigest, Frame, encode, decode,
  decode_frame, decode_header, sign, Texts.hmac_mismatch,
}
use wireline.Codec.Encoding.{header_of, IsEncodable-encode, Assembles-decode_frame, verify_none}
use wireline.Codec.Cut.{head_part, body_part, mac_part}
use wireline.Codec.RoundTrip.{Assembles-wire_of, decode-wire_of}

module _ (crypto : Crypto) where
  abbrev pub mac_check : Bytes → Bytes → Bytes → Bytes → Frame → Result Frame
  mac_check rh p m secret f = do
    fail_if (not (eqb (sign crypto rh p secret) m)) err_auth hmac_mismatch
    ok f

  -- With a key, `decode_frame` is the keyless one followed by the MAC check.
  pub decode_frame_keyed :
      (rh p m secret : Bytes)
      → decode_frame crypto rh p m (some secret)
        ≡ (decode_frame crypto rh p m none >>= mac_check rh p m secret)
  unfolding decode_frame verify_mac_if verify_mac verify_crc
  decode_frame_keyed rh p m secret = ground arith

  decode_frame_raises :
      (rh p m : Bytes) (secret : Option Bytes)
      → RaisesProtocolErrors (decode_frame crypto rh p m secret)
  unfolding decode_frame verify_mac_if verify_mac verify_crc decode_header parse_type
  decode_frame_raises rh p m none = ground arith
  decode_frame_raises rh p m (some secret) = ground arith

  -- Whatever the bytes, `decode` returns a frame or raises a `ProtocolError`.
  pub decode_raises :
      (raw : Bytes) (secret : Option Bytes) → RaisesProtocolErrors (decode crypto raw secret)
  unfolding decode
  decode_raises raw secret = elim (Bool-cases (ltb (length raw) 51)) [
    | inl short ↦ rw short tt
    | inr long ↦ rw long (decode_frame_raises (head_part raw) (body_part raw) (mac_part raw) secret)
  ]

  -- Decoding with a key is decoding without one followed by the MAC check of the three parts: an
  -- observer without the key sees the same frames and errors, but for ERR_AUTH on a wrong MAC.
  pub decode_keyed :
      (raw secret : Bytes)
      → decode crypto raw (some secret) ≡ (
          decode crypto raw none
          >>= mac_check (head_part raw) (body_part raw) (mac_part raw) secret)
  unfolding decode
  decode_keyed raw secret = elim (Bool-cases (ltb (length raw) 51)) [
    | inl short ↦ rw short
    | inr long ↦ rw long (decode_frame_keyed (head_part raw) (body_part raw) (mac_part raw) secret)
  ]

  -- The parts of an encoded frame under another key that gives them another MAC
  pub decode_frame-other_key :
      IsDigest crypto
      → (f : Frame) (secret other : Bytes) → IsEncodable f
      → sign crypto (header_of crypto f) f.payload other
        ≢ sign crypto (header_of crypto f) f.payload secret
      → decode_frame crypto
          (header_of crypto f)
          f.payload
          (sign crypto (header_of crypto f) f.payload secret)
          (some other)
        ≡ fail err_auth hmac_mismatch
  decode_frame-other_key d f secret other h ne =
      let s = sign crypto (header_of crypto f) f.payload in
      let keyless =
        Assembles-decode_frame crypto _ _ _ none f (Assembles-wire_of crypto d f secret h)
          (verify_none crypto _ _ _) in
      let differ : eqb (s other) (s secret) ≡ false =
        ground (arith, (eqb_iff (s other) (s secret)).0, ne) in
      decode_frame_keyed _ _ _ other ∙ rw (keyless, differ)

  -- Bytes encoded under one key are refused under another with ERR_AUTH, unless both keys give the
  -- header and the payload one MAC.
  pub decode-encode_other_key :
      IsDigest crypto
      → (f : Frame) (secret other raw : Bytes) → encode crypto f secret ≡ ok raw
      → sign crypto (header_of crypto f) f.payload other
        ≢ sign crypto (header_of crypto f) f.payload secret
      → decode crypto raw (some other) ≡ fail err_auth hmac_mismatch
  decode-encode_other_key d f secret other raw e ne =
      let (h, r) = IsEncodable-encode crypto f secret raw e in
      rw r (
        decode-wire_of crypto d f secret (some other)
        ∙ decode_frame-other_key d f secret other h ne)
