-- ===== src/Sniff/Rows.antt =====
-- The rows of src/wireline/sniff/dissect.py: what is known of one packet, and the Wireline headers
-- in its payload.
pub mod Frames
mod Tests
use wireline.Base.{
  ℕ, zero, suc, ◌+◌, ◌/◌, ◌%◌, List, [], ◌∷◌, ◌++◌, ◌==◌, ltb, leb, length, drop, slice,
  if◌then◌else◌,
}
use wireline.Base.Bytes.{Bytes, byte_at}
use wireline.Base.Text.{Text, codes, str_ℕ, hex_byte}
use wireline.Errors.{Result, ok, raise}
use wireline.Codec.{Header, header_size, mac_size, decode_header, type_name}

pub record WirelineInfo : Type 0 where
  pub msg_type : Text
  pub seq : ℕ
  pub length : ℕ
  pub flags : ℕ

pub record Row (T : Type 0) : Type 0 where
  pub ts : T
  pub l2_src : Text
  pub l2_dst : Text
  pub l3_src : Text
  pub l3_dst : Text
  pub l4_proto : Text
  pub l4_sport : ℕ
  pub l4_dport : ℕ
  pub l4_flags : Text
  pub payload_len : ℕ
  pub payload : Bytes
  pub l7 : List WirelineInfo
  pub note : Text

-- `sep.join(parts)`
unfoldable pub join : Text → List Text → Text
join sep [] = []
join sep (t ∷ []) = t
join sep (t ∷ u ∷ ts) = t ++ (sep ++ join sep (u ∷ ts))

unfoldable pub hex_bytes : Bytes → List Text
unfolding hex_byte
hex_bytes [] = []
hex_bytes (b ∷ bs) = hex_byte b ∷ hex_bytes bs

unfoldable pub mac : Bytes → Text
unfolding join hex_bytes codes
mac raw = join (codes ":") (hex_bytes raw)

-- `socket.inet_ntoa(raw)` on four bytes
unfoldable pub ip_str : Bytes → Text
unfolding join codes str_ℕ
ip_str raw = join (codes ".") (
    str_ℕ (byte_at raw 0)
    ∷ str_ℕ (byte_at raw 1)
    ∷ str_ℕ (byte_at raw 2)
    ∷ str_ℕ (byte_at raw 3)
    ∷ [])

-- `flags & bit` for the `bit` that is `2 ** k`, and the names of the bits that are set.
unfoldable pub flag_names : ℕ → List (ℕ × Text) → List Text
flag_names flags [] = []
flag_names flags ((bit, name) ∷ rest) =
    let more = flag_names flags rest in if flags / bit % 2 == 1 then name ∷ more else more

unfoldable pub tcp_flag_names : List (ℕ × Text)
unfolding codes
tcp_flag_names =
    (0x01, codes "FIN")
    ∷ (0x02, codes "SYN")
    ∷ (0x04, codes "RST")
    ∷ (0x08, codes "PSH")
    ∷ (0x10, codes "ACK")
    ∷ (0x20, codes "URG")
    ∷ []

-- `text or other`
unfoldable pub text_or : Text → Text → Text
text_or [] other = other
text_or (c ∷ cs) other = c ∷ cs

unfoldable pub tcp_flags : ℕ → Text
unfolding flag_names tcp_flag_names join text_or codes
tcp_flags flags = text_or (join (codes "|") (flag_names flags tcp_flag_names)) (codes "-")

abbrev pub info_of : Header → WirelineInfo
info_of header = record {
  msg_type = type_name header.msg_type;
  seq = header.seq;
  length = header.length;
  flags = header.flags;
}

-- The turn of the loop of `try_parse_wireline` that has decoded a header; `rest` is
-- `data[offset:]`.
unfoldable pub scan_frame : Result Header → Bytes → (Bytes → List WirelineInfo) → List WirelineInfo
scan_frame (raise e) rest more = []
scan_frame (ok header) rest more =
    let end = header_size + header.length + mac_size in
    if ltb (length rest) end then [] else info_of header ∷ more (drop end rest)

-- A frame takes 51 bytes, so a fuel above the length of the data is enough.
unfoldable pub scan : ℕ → Bytes → List WirelineInfo
unfolding scan_frame
scan zero rest = []
scan (suc fuel) rest =
    if leb header_size (length rest)
    then scan_frame (decode_header (slice 0 header_size rest)) rest (λ after. scan fuel after)
    else []

unfoldable pub try_parse_wireline : Bytes → List WirelineInfo
try_parse_wireline payload = scan (suc (length payload)) payload
