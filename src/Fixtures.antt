-- ===== src/Fixtures.antt =====
-- Concrete instances of what the program takes from the standard library, and data for the tests.
use wireline.Base.Int.{pos}
use wireline.Base.Bytes.{Bytes}
use mathlib.Core.Option
use wireline.Base.{
  zero, suc, ◌+◌, ◌*◌, ◌%◌, refl, Option, none, some, [], ◌∷◌, ◌++◌, ◌==◌, if◌then◌else◌, length,
  take, drop, ℕ,
}
use wireline.Codec.{Crypto, IsDigest, Frame, data_msg, bye}
use wireline.Messages.{Json, Value, Object, Loaded, str, int, object, malformed, crashed}

abbrev pub sum : Bytes → ℕ
sum [] = 0
sum (b ∷ bs) = b + sum bs

abbrev pub copies : ℕ → ℕ → Bytes
copies zero b = []
copies (suc n) b = b ∷ copies n b

-- A checksum, and a digest of 32 equal bytes.
abbrev pub toy_crypto : Crypto
toy_crypto = record {
  crc32 = sum;
  hmac_sha256 = λ key message. copies 32 ((7 * sum key + sum message) % 256);
}

pub toy_crypto-IsDigest : IsDigest toy_crypto
toy_crypto-IsDigest = record { digest_size = λ key message. refl }

-- Texts with their length before them, and small numbers; an array makes the parser give up.
abbrev dump_value : Value → Bytes
dump_value (str t) = 0 ∷ length t ∷ t
dump_value (int (pos n)) = 1 ∷ n ∷ []
dump_value _ = 2 ∷ []

abbrev dump_items : Object → Bytes
dump_items [] = []
dump_items ((k, v) ∷ obj) = length k ∷ (k ++ (dump_value v ++ dump_items obj))

abbrev read_value : Bytes → Option (Value × Bytes)
read_value (zero ∷ n ∷ bs) = some (str (take n bs), drop n bs)
read_value (suc zero ∷ n ∷ bs) = some (int (pos n), bs)
read_value _ = none

abbrev read_items : ℕ → Bytes → Option Object
read_items zero bs = none
read_items (suc fuel) [] = some []
read_items (suc fuel) (n ∷ bs) = elim (read_value (drop n bs)) [
  | none ↦ none
  | some (v, rest) ↦ Option.map (λ obj. (take n bs, v) ∷ obj) (read_items fuel rest)
]

abbrev of_items : Option Object → Loaded
of_items none = malformed []
of_items (some obj) = object obj

abbrev toy_loads : Bytes → Loaded
toy_loads [] = malformed []
toy_loads (b ∷ bs) =
    if b == b'{' then of_items (read_items 9 bs) else if b == b'[' then crashed else malformed []

abbrev pub toy_json : Json
toy_json = record { dumps = λ obj. b'{' ∷ dump_items obj; loads = toy_loads }

abbrev pub key : Bytes
key = 1 ∷ 2 ∷ []

abbrev pub other_key : Bytes
other_key = 9 ∷ []

abbrev pub probe : Frame
probe = record { msg_type = data_msg; seq = 7; payload = 10 ∷ 20 ∷ 30 ∷ []; flags = 1 }

abbrev pub farewell : Frame
farewell = record { msg_type = bye; seq = 8; payload = []; flags = 0 }
