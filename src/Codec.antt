-- ===== src/Codec.antt =====
-- src/wireline/protocol/codec.py: the wire format of one frame.
pub mod Texts
pub mod Layout
pub mod Cut
pub mod Encoding
pub mod RoundTrip
pub mod Keys
mod Tests
use wireline.Base.{
  ℕ, ◌+◌, ◌-◌, ◌%◌, ◌^◌, Bool, not, Option, none, some, List, [], ◌∷◌, ◌++◌, ◌==◌, ltb, eqb, length,
  take, drop, slice, if◌then◌else◌, ◌≡◌,
}
use wireline.Base.Bytes.{Bytes, byte_at, u32_be, of_u32_be}
use wireline.Base.Text.{Text, codes}
use wireline.Errors.{
  err_version, err_magic, err_length, err_crc, err_auth, err_type, err_seq, err_flags, Result, ok,
  ◌>>=◌, ◌>>◌, fail, fail_if,
}

-- The standard library's checksum and keyed hash: `zlib.crc32(payload)`, and
-- `hmac.new(key, message, hashlib.sha256).digest()`.
pub record Crypto : Type 0 where
  pub crc32 : Bytes → ℕ
  pub hmac_sha256 : Bytes → Bytes → Bytes

-- A SHA-256 digest has `digest_size` bytes, which are the 32 of `MAC_SIZE`.
pub record IsDigest (crypto : Crypto) : Type 0 where
  pub digest_size : (key message : Bytes) → length (crypto.hmac_sha256 key message) ≡ 32

abbrev pub magic : Bytes
magic = 0x57 ∷ 0x49 ∷ 0x52 ∷ 0x45 ∷ []

abbrev pub version : ℕ
version = 1

-- `HEADER.size` and `MAC_SIZE`
abbrev pub header_size : ℕ
header_size = 19

abbrev pub mac_size : ℕ
mac_size = 32

abbrev pub max_payload : ℕ
max_payload = 2 ^ 20

abbrev pub max_seq : ℕ
max_seq = 2 ^ 32 - 1

abbrev pub flag_require_ack : ℕ
flag_require_ack = 1

abbrev pub flag_retransmit : ℕ
flag_retransmit = 2

abbrev pub known_flags : ℕ
known_flags = 3

pub data MsgType : Type 0 where
  hello hello_ack data_msg ack ping pong error bye : MsgType

-- `int(msg_type)`
unfoldable pub type_value : MsgType → ℕ
type_value hello = 1
type_value hello_ack = 2
type_value data_msg = 3
type_value ack = 4
type_value ping = 5
type_value pong = 6
type_value error = 7
type_value bye = 8

-- `MsgType(typ)`: `none` is its `ValueError`
unfoldable pub type_of_value : ℕ → Option MsgType
type_of_value n =
    if n == 1
    then some hello
    else if n == 2
    then some hello_ack
    else if n == 3
    then some data_msg
    else if n == 4
    then some ack
    else if n == 5
    then some ping
    else if n == 6
    then some pong
    else if n == 7
    then some error
    else if n == 8
    then some bye
    else none

-- `msg_type.name`
unfoldable pub type_name : MsgType → Text
unfolding codes
type_name hello = codes "HELLO"
type_name hello_ack = codes "HELLO_ACK"
type_name data_msg = codes "DATA"
type_name ack = codes "ACK"
type_name ping = codes "PING"
type_name pong = codes "PONG"
type_name error = codes "ERROR"
type_name bye = codes "BYE"

pub record Header : Type 0 where
  pub msg_type : MsgType
  pub flags : ℕ
  pub seq : ℕ
  pub length : ℕ
  pub crc : ℕ

pub record Frame : Type 0 where
  pub msg_type : MsgType
  pub seq : ℕ
  pub payload : Bytes
  pub flags : ℕ

-- `HEADER.pack(MAGIC, VERSION, typ, flags, seq, length, crc)`
unfoldable pub pack_header : ℕ → ℕ → ℕ → ℕ → ℕ → Bytes
pack_header typ flags seq len crc =
    magic ++ version ∷ typ ∷ flags ∷ (u32_be seq ++ (u32_be len ++ u32_be crc))

-- `HEADER.unpack(raw)` field by field: the four bytes from `i` as a number
unfoldable pub u32_at : Bytes → ℕ → ℕ
u32_at raw i =
    of_u32_be (byte_at raw i) (byte_at raw (i + 1)) (byte_at raw (i + 2)) (byte_at raw (i + 3))

-- `flags & ~KNOWN_FLAGS`: the known flags are the lowest bits, so `&` with them is a remainder
unfoldable pub unknown_flags : ℕ → ℕ
unknown_flags flags = flags - flags % (known_flags + 1)

-- the `try` around `MsgType(typ)`
unfoldable pub parse_type : ℕ → Result MsgType
parse_type typ = elim (type_of_value typ) [
  | none ↦ fail err_type (Texts.unknown_type typ)
  | some t ↦ ok t
]

unfoldable pub decode_header : Bytes → Result Header
decode_header raw = do
  fail_if (not (length raw == header_size)) err_length (Texts.short_header (length raw))
  let seq = u32_at raw 7
  let len = u32_at raw 11
  let crc = u32_at raw 15
  fail_if (not (eqb (slice 0 4 raw) magic)) err_magic (Texts.bad_magic (slice 0 4 raw))
  fail_if (not (byte_at raw 4 == version)) err_version (Texts.unsupported_version (byte_at raw 4))
  fail_if (ltb max_payload len) err_length (Texts.declared_length len max_payload)
  fail_if (ltb 0 (unknown_flags (byte_at raw 6))) err_flags
      (Texts.unsupported_flags (byte_at raw 6))
  msg_type ← parse_type (byte_at raw 5)
  ok (record { msg_type = msg_type; flags = byte_at raw 6; seq = seq; length = len; crc = crc })

module _ (crypto : Crypto) where
  -- `zlib.crc32(payload) & 0xFFFFFFFF`
  unfoldable pub crc_of : Bytes → ℕ
  crc_of payload = crypto.crc32 payload % 2 ^ 32

  unfoldable pub sign : Bytes → Bytes → Bytes → Bytes
  sign header payload secret = crypto.hmac_sha256 secret (header ++ payload)

  unfoldable pub encode : Frame → Bytes → Result Bytes
  encode frame secret = do
    fail_if (ltb max_payload (length frame.payload)) err_length
        (Texts.payload_too_large (length frame.payload))
    fail_if (ltb max_seq frame.seq) err_seq (Texts.seq_out_of_range frame.seq)
    fail_if (ltb 0 (unknown_flags frame.flags)) err_flags (Texts.unsupported_flags frame.flags)
    let header =
        pack_header (type_value frame.msg_type) frame.flags frame.seq (length frame.payload)
          (crc_of frame.payload)
    ok (header ++ (frame.payload ++ sign header frame.payload secret))

  unfoldable pub verify_crc : Bytes → ℕ → Result (Unit {0})
  verify_crc payload expected =
      fail_if (not (crc_of payload == expected)) err_crc
        (Texts.crc_mismatch (crc_of payload) expected)

  -- `hmac.compare_digest` has the value of `==`
  unfoldable pub verify_mac : Bytes → Bytes → Bytes → Bytes → Result (Unit {0})
  verify_mac header payload mac secret =
      fail_if (not (eqb (sign header payload secret) mac)) err_auth Texts.hmac_mismatch

  -- `if secret is not None: verify_mac(...)`
  unfoldable pub verify_mac_if : Bytes → Bytes → Bytes → Option Bytes → Result (Unit {0})
  verify_mac_if header payload mac none = ok tt
  verify_mac_if header payload mac (some secret) = verify_mac header payload mac secret

  unfoldable pub decode_frame : Bytes → Bytes → Bytes → Option Bytes → Result Frame
  decode_frame raw_header payload mac secret = do
    header ← decode_header raw_header
    fail_if (not (length payload == header.length)) err_length
        (Texts.body_length (length payload) header.length)
    fail_if (not (length mac == mac_size)) err_auth (Texts.short_mac (length mac))
    verify_crc payload header.crc
    verify_mac_if raw_header payload mac secret
    ok (record {
      msg_type = header.msg_type;
      seq = header.seq;
      payload = payload;
      flags = header.flags;
    })

  -- From 51 bytes on, the index -32 is `length raw - 32`.
  unfoldable pub decode : Bytes → Option Bytes → Result Frame
  decode raw secret = do
    fail_if (ltb (length raw) (header_size + mac_size)) err_length (Texts.runt_frame (length raw))
    decode_frame (slice 0 header_size raw) (slice header_size (length raw - mac_size) raw)
        (drop (length raw - mac_size) raw) secret
