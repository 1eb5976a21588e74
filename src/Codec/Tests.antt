-- ===== src/Codec/Tests.antt =====
-- Runs of the codec, and its theorems at concrete frames.
use wireline.Codec.Texts.{hmac_mismatch}
use wireline.Base.{◌≡◌, refl, some, ◌∷◌, arith, take, eqb}
use wireline.Base.Bytes.{Bytes, u32_be, of_u32_be}
use wireline.Errors.{err_length, ok, fail}
use wireline.Codec.{
  type_value, type_of_value, pack_header, u32_at, unknown_flags, parse_type, decode_header, crc_of,
  sign, verify_crc, verify_mac, verify_mac_if, decode_frame, Frame, encode, decode,
}
use wireline.Codec.RoundTrip.{encode-decode, decode-encode}
use wireline.Fixtures.{copies, toy_crypto, toy_crypto-IsDigest, key, probe}

abbrev wire : Bytes
wire =
    0x57
    ∷ 0x49
    ∷ 0x52
    ∷ 0x45
    ∷ 1
    ∷ 3
    ∷ 1
    ∷ 0
    ∷ 0
    ∷ 0
    ∷ 7
    ∷ 0
    ∷ 0
    ∷ 0
    ∷ 3
    ∷ 0
    ∷ 0
    ∷ 0
    ∷ 60
    ∷ 10
    ∷ 20
    ∷ 30
    ∷ copies 32 211

probe_encodes : encode toy_crypto probe key ≡ ok wire
unfolding encode pack_header type_value u32_be crc_of sign unknown_flags
probe_encodes = refl

decode_truncated :
    decode toy_crypto (take 53 wire) (some key)
    ≡ fail err_length (wireline.Codec.Texts.body_length 2 3)
unfolding decode decode_frame decode_header parse_type type_of_value u32_at of_u32_be unknown_flags
    eqb
decode_truncated = refl

decode-encode_example : decode toy_crypto wire (some key) ≡ ok probe
decode-encode_example = decode-encode toy_crypto toy_crypto-IsDigest probe key wire probe_encodes

probe_decodes : decode toy_crypto wire (some key) ≡ ok probe
unfolding decode decode_frame decode_header parse_type type_of_value u32_at of_u32_be unknown_flags
    eqb verify_crc crc_of verify_mac_if verify_mac sign
probe_decodes = refl

encode-decode_example : encode toy_crypto probe key ≡ ok wire
encode-decode_example = encode-decode toy_crypto probe key wire (omega arith) probe_decodes
