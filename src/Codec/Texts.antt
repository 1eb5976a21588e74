-- ===== src/Codec/Texts.antt =====
-- The messages of the errors of src/wireline/protocol/codec.py, one for each f-string.
use wireline.Base.{ℕ, ◌++◌}
use wireline.Base.Bytes.{Bytes}
use wireline.Base.Text.{Text, codes, str_ℕ, hex, hex_padded, repr_bytes}

unfoldable pub payload_too_large : ℕ → Text
payload_too_large n = codes "payload too large: " ++ str_ℕ n

unfoldable pub seq_out_of_range : ℕ → Text
seq_out_of_range seq = codes "seq out of range: " ++ str_ℕ seq

unfoldable pub unsupported_flags : ℕ → Text
unsupported_flags flags = codes "unsupported flags: " ++ hex flags

unfoldable pub short_header : ℕ → Text
short_header n = codes "short header: " ++ (str_ℕ n ++ codes " bytes")

unfoldable pub bad_magic : Bytes → Text
bad_magic magic = codes "bad magic " ++ repr_bytes magic

unfoldable pub unsupported_version : ℕ → Text
unsupported_version ver = codes "unsupported version " ++ str_ℕ ver

unfoldable pub declared_length : ℕ → ℕ → Text
declared_length n limit =
    codes "declared length " ++ (str_ℕ n ++ (codes " exceeds limit " ++ str_ℕ limit))

unfoldable pub unknown_type : ℕ → Text
unknown_type typ = codes "unknown message type " ++ str_ℕ typ

unfoldable pub crc_mismatch : ℕ → ℕ → Text
crc_mismatch actual expected =
    codes "crc mismatch: got "
    ++ (hex_padded 8 actual ++ (codes ", want " ++ hex_padded 8 expected))

unfoldable pub hmac_mismatch : Text
hmac_mismatch = codes "hmac mismatch"

unfoldable pub body_length : ℕ → ℕ → Text
body_length n declared =
    codes "body is " ++ (str_ℕ n ++ (codes " bytes, header declared " ++ str_ℕ declared))

unfoldable pub short_mac : ℕ → Text
short_mac n = codes "short mac: " ++ (str_ℕ n ++ codes " bytes")

unfoldable pub runt_frame : ℕ → Text
runt_frame n = codes "runt frame: " ++ (str_ℕ n ++ codes " bytes")
