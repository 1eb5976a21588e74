-- ===== src/Codec/RoundTrip.antt =====
-- `encode` and `decode` of src/wireline/protocol/codec.py undo one another.
use wireline.Base.{
  le→ltb_false, Option, ◌≤◌, ◌<◌, ◌^◌, some, length, ◌≡◌, refl, sym, ap, ◌∙◌, arith, All, All-take,
}
use wireline.Base.Bytes.{u32_be, Bytes, IsByte}
use wireline.Errors.{ok}
use wireline.Codec.{
  pack_header, Crypto, IsDigest, Frame, encode, decode, decode_frame, sign, crc_of,
}
use wireline.Codec.Layout.{
  decode_header-pack_header, decode_header-Accepts, pack_header-Accepts, u32_at-lt,
}
use wireline.Codec.Cut.{
  head_part, body_part, mac_part, length-wire, head_part-wire, body_part-wire, mac_part-wire, parts,
}
use wireline.Codec.Encoding.{
  IsEncodable, header_of, wire_of, encode-IsEncodable, IsEncodable-encode, Assembles,
  decode_frame-Assembles, Assembles-decode_frame, verify_mac_iff,
}

module _ (crypto : Crypto) where
  crc_of-lt : (p : Bytes) → crc_of crypto p < 2 ^ 32
  unfolding crc_of
  crc_of-lt p = omega arith

  -- The three parts of an encoded frame assemble to the frame.
  pub Assembles-wire_of :
      IsDigest crypto
      → (f : Frame) (secret : Bytes) → IsEncodable f
      → Assembles crypto
          (header_of crypto f)
          f.payload
          (sign crypto (header_of crypto f) f.payload secret)
          f
  unfolding sign
  Assembles-wire_of d f secret h = record {
    header = record {
      msg_type = f.msg_type;
      flags = f.flags;
      seq = f.seq;
      length = length f.payload;
      crc = crc_of crypto f.payload;
    };
    parsed =
        decode_header-pack_header f.msg_type f.flags f.seq (length f.payload)
          (crc_of crypto f.payload) h.known h.in_range h.fits (crc_of-lt f.payload);
    measured = refl;
    sealed = d.digest_size _ _;
    summed = refl;
    result = refl;
  }

  pub length-header_of : (f : Frame) → length (header_of crypto f) ≡ 19
  unfolding pack_header u32_be
  length-header_of f = refl

  pub decode_parts :
      (raw : Bytes) (secret : Option Bytes)
      → 51 ≤ length raw
      → decode crypto raw secret
        ≡ decode_frame crypto (head_part raw) (body_part raw) (mac_part raw) secret
  unfolding decode
  decode_parts raw secret h = rw (le→ltb_false (length raw) 51 h)

  -- A shorter datagram is a runt.
  pub length_of_decode :
      (raw : Bytes) (secret : Option Bytes) (f : Frame)
      → decode crypto raw secret ≡ ok f
      → 51 ≤ length raw
  unfolding decode
  length_of_decode raw secret f e = ground arith

  pub decode-wire_of :
      IsDigest crypto
      → (f : Frame) (secret : Bytes) (key : Option Bytes)
      → decode crypto (wire_of crypto f secret) key
        ≡ decode_frame crypto
            (header_of crypto f)
            f.payload
            (sign crypto (header_of crypto f) f.payload secret)
            key
  unfolding sign
  decode-wire_of d f secret key =
      let s = sign crypto (header_of crypto f) f.payload secret in
      let hs : length s ≡ 32 = d.digest_size _ _ in
      let hh = length-header_of f in
      decode_parts (wire_of crypto f secret) key
        (omega (arith, length-wire (header_of crypto f) f.payload s hh hs))
      ∙ rw (
        head_part-wire (header_of crypto f) f.payload s hh hs,
        body_part-wire (header_of crypto f) f.payload s hh hs,
        mac_part-wire (header_of crypto f) f.payload s hh hs,
      )

  -- A frame that `encode` accepts is what `decode` with the same key reads back from its bytes.
  pub decode-encode :
      IsDigest crypto
      → (f : Frame) (secret raw : Bytes) → encode crypto f secret ≡ ok raw
      → decode crypto raw (some secret) ≡ ok f
  decode-encode d f secret raw e =
      let (h, r) = IsEncodable-encode crypto f secret raw e in
      rw (r, decode-wire_of d f secret (some secret))
        (Assembles-decode_frame crypto _ _ _ (some secret) f (Assembles-wire_of d f secret h)
          ((verify_mac_iff crypto _ _ _ secret).1 refl))

  -- The bytes of an accepted frame carry the MAC of all that precedes it, and its header is that of
  -- the frame.
  Assembles-header_of :
      (rh p m : Bytes) (f : Frame)
      → All IsByte rh
      → Assembles crypto rh p m f
      → IsEncodable f × (rh ≡ header_of crypto f) × (f.payload ≡ p)
  Assembles-header_of rh p m f bytes a =
      let h = a.header in
      let acc = decode_header-Accepts rh h a.parsed in
      let typed : f.msg_type ≡ h.msg_type = ap Frame.msg_type a.result in
      let numbered : f.seq ≡ h.seq = ap Frame.seq a.result in
      let flagged : f.flags ≡ h.flags = ap Frame.flags a.result in
      let body : f.payload ≡ p = ap Frame.payload a.result in
      (
        record {
          fits = rw body (omega (arith, acc.fits, a.measured));
          in_range = omega (arith, numbered, acc.numbered, u32_at-lt rh bytes 7);
          known = omega (arith, flagged, acc.known);
        },
        pack_header-Accepts rh h bytes acc
            ∙ rw (typed, numbered, flagged, body, a.summed, a.measured),
        body,
      )

  -- Bytes that `decode` accepts with a key are the encoding of the decoded frame under that key: no
  -- two byte strings decode to one frame.
  pub encode-decode :
      (f : Frame) (secret raw : Bytes)
      → All IsByte raw
      → decode crypto raw (some secret) ≡ ok f
      → encode crypto f secret ≡ ok raw
  encode-decode f secret raw bytes e =
      let long = length_of_decode raw (some secret) f e in
      let (a, v) =
        decode_frame-Assembles crypto _ _ _ (some secret) f
          (sym (decode_parts raw (some secret) long) ∙ e) in
      let (h, hd, body) = Assembles-header_of _ _ _ f (All-take IsByte 19 raw bytes) a in
      encode-IsEncodable crypto f secret h
      ∙ ap ok (rw (← hd, body, (verify_mac_iff crypto _ _ _ secret).0 v) (sym (parts raw long)))
