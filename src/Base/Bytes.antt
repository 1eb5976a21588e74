-- ===== src/Base/Bytes.antt =====
-- `bytes` as lists of numbers, and the big-endian fields of the `struct` module.
use Prim.Native.Nat.{ℕ, ◌+◌, ◌*◌, ◌/◌, ◌%◌, ◌^◌, ◌<◌}
use mathlib.Core.Path.{◌≡◌, refl}
use mathlib.Core.List.{List, [], ◌∷◌, ◌++◌}
use native.Mathlib.Omega.{arith}
use wireline.Base.Lists.{All, get_or, length, take, drop, get_or-drop, get_or-take}

abbrev pub Bytes : Type 0
Bytes = List ℕ

abbrev pub IsByte : ℕ → Type 0
IsByte b = b < 256

abbrev pub byte_at : Bytes → ℕ → ℕ
byte_at raw i = get_or raw i 0

-- `struct.pack("!I", n)` at `n < 2 ** 32`
unfoldable pub u32_be : ℕ → Bytes
u32_be n = (n / 16777216 % 256) ∷ (n / 65536 % 256) ∷ (n / 256 % 256) ∷ (n % 256) ∷ []

-- `struct.unpack("!I", ...)` on four bytes
unfoldable pub of_u32_be : ℕ → ℕ → ℕ → ℕ → ℕ
of_u32_be a b c d = ((a * 256 + b) * 256 + c) * 256 + d

pub of_u32_be-u32_be :
    (n : ℕ)
    → n < 2 ^ 32
    → of_u32_be (n / 16777216 % 256) (n / 65536 % 256) (n / 256 % 256) (n % 256) ≡ n
unfolding of_u32_be
of_u32_be-u32_be n h = omega arith

pub u32_be-of_u32_be :
    (a b c d : ℕ)
    → a < 256
    → b < 256
    → c < 256
    → d < 256
    → u32_be (of_u32_be a b c d) ≡ a ∷ b ∷ c ∷ d ∷ []
unfolding u32_be of_u32_be
u32_be-of_u32_be a b c d ha hb hc hd = ground arith

pub of_u32_be-lt :
    (a b c d : ℕ) → a < 256 → b < 256 → c < 256 → d < 256 → of_u32_be a b c d < 2 ^ 32
unfolding of_u32_be
of_u32_be-lt a b c d ha hb hc hd = omega arith

pub length-u32_be : (n : ℕ) → length (u32_be n) ≡ 4
unfolding u32_be
length-u32_be n = refl

pub u32_be-IsByte : (n : ℕ) → All IsByte (u32_be n)
unfolding u32_be
u32_be-IsByte n = omega arith

-- `struct.pack("!H", n)` at `n < 2 ** 16`, and `struct.unpack("!H", ...)`
unfoldable pub u16_be : ℕ → Bytes
u16_be n = (n / 256 % 256) ∷ (n % 256) ∷ []

unfoldable pub u16_at : Bytes → ℕ → ℕ
u16_at raw i = byte_at raw i * 256 + byte_at raw (i + 1)

-- The two byte orders of the `struct` module.
pub data Endian : Type 0 where
  little big : Endian

-- `struct.pack(endian + "I", n)` at `n < 2 ** 32`
unfoldable pub u32_bytes : Endian → ℕ → Bytes
unfolding u32_be
u32_bytes big n = u32_be n
u32_bytes little n = (n % 256) ∷ (n / 256 % 256) ∷ (n / 65536 % 256) ∷ (n / 16777216 % 256) ∷ []

-- `struct.unpack(endian + "I", raw[i:i + 4])`
unfoldable pub u32_from : Endian → Bytes → ℕ → ℕ
unfolding of_u32_be
u32_from big raw i =
    of_u32_be (byte_at raw i) (byte_at raw (i + 1)) (byte_at raw (i + 2)) (byte_at raw (i + 3))
u32_from little raw i =
    of_u32_be (byte_at raw (i + 3)) (byte_at raw (i + 2)) (byte_at raw (i + 1)) (byte_at raw i)

pub u32_from-u32_bytes :
    (e : Endian) (n : ℕ) (rest : Bytes) → n < 2 ^ 32 → u32_from e (u32_bytes e n ++ rest) 0 ≡ n
unfolding u32_from u32_bytes u32_be of_u32_be
u32_from-u32_bytes little n rest h = omega arith
u32_from-u32_bytes big n rest h = omega arith

pub length-u32_bytes : (e : Endian) (n : ℕ) → length (u32_bytes e n) ≡ 4
unfolding u32_bytes u32_be
length-u32_bytes little n = refl
length-u32_bytes big n = refl

add_zero : (n : ℕ) → n + 0 ≡ n
add_zero n = omega arith

pub u32_from-drop :
    (e : Endian) (raw : Bytes) (n : ℕ) → u32_from e raw n ≡ u32_from e (drop n raw) 0
unfolding u32_from of_u32_be
u32_from-drop little raw n =
    rw
      (
        get_or-drop n 0 raw 0,
        get_or-drop n 1 raw 0,
        get_or-drop n 2 raw 0,
        get_or-drop n 3 raw 0,
        add_zero n,
      )
      refl
u32_from-drop big raw n =
    rw
      (
        get_or-drop n 0 raw 0,
        get_or-drop n 1 raw 0,
        get_or-drop n 2 raw 0,
        get_or-drop n 3 raw 0,
        add_zero n,
      )
      refl

pub u32_from-take :
    (e : Endian) (raw : Bytes) (n i : ℕ) → i + 3 < n → u32_from e (take n raw) i ≡ u32_from e raw i
unfolding u32_from of_u32_be
u32_from-take little raw n i h =
    rw
      (
        get_or-take n i raw 0 (omega arith),
        get_or-take n (i + 1) raw 0 (omega arith),
        get_or-take n (i + 2) raw 0 (omega arith),
        get_or-take n (i + 3) raw 0 h,
      )
      refl
u32_from-take big raw n i h =
    rw
      (
        get_or-take n i raw 0 (omega arith),
        get_or-take n (i + 1) raw 0 (omega arith),
        get_or-take n (i + 2) raw 0 (omega arith),
        get_or-take n (i + 3) raw 0 h,
      )
      refl
