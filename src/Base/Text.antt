-- ===== src/Base/Text.antt =====
-- Python's `str` as a list of code points, with the number formats of its f-strings.
use Prim.Native.Nat.{ℕ, zero, suc, ◌+◌, ◌-◌, ◌/◌, ◌%◌}
use Prim.Native.Char.{code}
use Prim.Native.String.{String}
use mathlib.Core.Path.{◌≡◌, refl}
use mathlib.Core.Bool.{Bool, false, not, ◌&&◌, ◌||◌}
use mathlib.Core.List.{List, [], ◌∷◌, ◌++◌}
use wireline.Base.Compare.{ltb, leb, ◌==◌, if◌then◌else◌}
use wireline.Base.Lists.{length}
use wireline.Base.Bytes.{Bytes}

abbrev pub Text : Type 0
Text = List ℕ

-- the code points of a literal; `String` has its own `[]` and `∷`
unfoldable pub codes : String → Text
codes String.[] = []
codes (String.◌∷◌ c s) = code c ∷ codes s

unfoldable pub digit : ℕ → ℕ
digit d = if ltb d 10 then 48 + d else 87 + d

-- the digits of `n` to a base, on fuel above `n`
unfoldable pub to_base : ℕ → ℕ → ℕ → Text
to_base base zero n = []
to_base base (suc fuel) n =
    let rest = to_base base fuel (n / base) ++ digit (n % base) ∷ [] in
    if ltb n base then digit n ∷ [] else rest

-- `str(n)`
unfoldable pub str_ℕ : ℕ → Text
unfolding to_base digit
str_ℕ n = to_base 10 (suc n) n

-- `f"{n:#x}"`
unfoldable pub hex : ℕ → Text
unfolding to_base digit codes
hex n = codes "0x" ++ to_base 16 (suc n) n

unfoldable pub pad_zero : ℕ → Text → Text
pad_zero zero t = t
pad_zero (suc n) t = 48 ∷ pad_zero n t

-- `f"{n:#010x}"` and `f"{n:#06x}"`: padded to eight or four digits behind the prefix
unfoldable pub hex_padded : ℕ → ℕ → Text
unfolding to_base digit codes pad_zero
hex_padded width n = let t = to_base 16 (suc n) n in codes "0x" ++ pad_zero (width - length t) t

unfoldable pub hex_byte : ℕ → Text
unfolding digit
hex_byte b = digit (b / 16) ∷ digit (b % 16) ∷ []

-- one byte of `repr(bytes)` inside the quote character `q`
unfoldable pub repr_byte : ℕ → ℕ → Text
unfolding codes hex_byte
repr_byte q b =
    if (b == q) || (b == 92)
    then 92 ∷ b ∷ []
    else if b == 9
    then codes "\\t"
    else if b == 10
    then codes "\\n"
    else if b == 13
    then codes "\\r"
    else if leb 32 b && ltb b 127
    then b ∷ []
    else codes "\\x" ++ hex_byte b

unfoldable pub contains_byte : ℕ → Bytes → Bool
contains_byte b [] = false
contains_byte b (x ∷ xs) = (x == b) || contains_byte b xs

unfoldable pub repr_bytes_in : ℕ → Bytes → Text
unfolding repr_byte
repr_bytes_in q [] = []
repr_bytes_in q (b ∷ bs) = repr_byte q b ++ repr_bytes_in q bs

-- `repr(raw)` of a `bytes`: in double quotes only when it holds a single quote and no double one
unfoldable pub repr_bytes : Bytes → Text
unfolding contains_byte repr_bytes_in
repr_bytes raw =
    let q = if contains_byte 39 raw && not (contains_byte 34 raw) then 34 else 39 in
    98 ∷ q ∷ (repr_bytes_in q raw ++ q ∷ [])

str_120 : str_ℕ 4096 ≡ codes "4096"
unfolding str_ℕ codes
str_120 = refl

hex_255 : hex_padded 8 0xbeef ≡ codes "0x0000beef"
unfolding hex_padded
hex_255 = refl

repr_http : repr_bytes (0x48 ∷ 0x27 ∷ 0 ∷ 10 ∷ []) ≡ codes "b\"H'\\x00\\n\""
unfolding repr_bytes repr_byte
repr_http = refl
