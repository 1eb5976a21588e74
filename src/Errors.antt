-- ===== src/Errors.antt =====
-- src/wireline/protocol/errors.py: the error codes and `ProtocolError`; with it, how a function
-- that may raise is modelled.
use wireline.Base.{
  ◌⊎◌, inl, inr, ℕ, Bool, true, false, Option, none, some, ◌≡◌, refl, ◌++◌, ◌==◌, if◌then◌else◌,
}
use wireline.Base.Text.{Text, codes}
use wireline.Base.Int.{ℤ, pos, negsuc}

pub data ErrorCode : Type 0 where
  err_version err_magic err_length err_crc err_auth err_type err_state err_seq : ErrorCode
  err_flags err_timeout err_internal : ErrorCode

-- `int(code)`
unfoldable pub code_value : ErrorCode → ℕ
code_value err_version = 1
code_value err_magic = 2
code_value err_length = 3
code_value err_crc = 4
code_value err_auth = 5
code_value err_type = 6
code_value err_state = 7
code_value err_seq = 8
code_value err_flags = 9
code_value err_timeout = 10
code_value err_internal = 99

-- `ErrorCode(n)` on a number: `none` is its `ValueError`
unfoldable pub code_of_ℕ : ℕ → Option ErrorCode
code_of_ℕ n =
    if n == 1
    then some err_version
    else if n == 2
    then some err_magic
    else if n == 3
    then some err_length
    else if n == 4
    then some err_crc
    else if n == 5
    then some err_auth
    else if n == 6
    then some err_type
    else if n == 7
    then some err_state
    else if n == 8
    then some err_seq
    else if n == 9
    then some err_flags
    else if n == 10
    then some err_timeout
    else if n == 99
    then some err_internal
    else none

-- `ErrorCode(raw)`
unfoldable pub code_of_value : ℤ → Option ErrorCode
unfolding code_of_ℕ
code_of_value (pos n) = code_of_ℕ n
code_of_value (negsuc n) = none

-- `code.name`
unfoldable pub code_name : ErrorCode → Text
unfolding codes
code_name err_version = codes "ERR_VERSION"
code_name err_magic = codes "ERR_MAGIC"
code_name err_length = codes "ERR_LENGTH"
code_name err_crc = codes "ERR_CRC"
code_name err_auth = codes "ERR_AUTH"
code_name err_type = codes "ERR_TYPE"
code_name err_state = codes "ERR_STATE"
code_name err_seq = codes "ERR_SEQ"
code_name err_flags = codes "ERR_FLAGS"
code_name err_timeout = codes "ERR_TIMEOUT"
code_name err_internal = codes "ERR_INTERNAL"

pub record ProtocolError : Type 0 where
  pub code : ErrorCode
  pub message : Text

-- `str(exc)`
unfoldable pub describe : ErrorCode → Text → Text
describe code message = code_name code ++ codes ": " ++ message

-- What the program's functions raise: a `ProtocolError`, the two failures of a stream that it
-- handles, the timeout of `asyncio.wait_for`, or anything else.
pub data Exn : Type 0 where
  protocol_error : ProtocolError → Exn
  incomplete_read timeout other_error : Exn

pub data Result {ℓ} (A : Type ℓ) : Type ℓ where
  ok : A → Result A
  raise : Exn → Result A

-- What raises ends the function; what returns hands its value on.
infixl 5 ◌>>◌ ◌>>=◌
abbrev pub ◌>>=◌ {ℓ κ} : {A : Type ℓ} {B : Type κ} → Result A → (A → Result B) → Result B
raise exn >>= next = raise exn
ok value >>= next = next value

abbrev pub ◌>>◌ {ℓ} : {B : Type ℓ} → Result (Unit {0}) → Result B → Result B
m >> k = m >>= λ _. k

-- `raise ProtocolError(code, message)`
abbrev pub fail {ℓ} : {A : Type ℓ} → ErrorCode → Text → Result A
fail code message = raise (protocol_error (record { code = code; message = message }))

-- `if test: raise ProtocolError(code, message)`
abbrev pub fail_if : Bool → ErrorCode → Text → Result (Unit {0})
fail_if true code message = fail code message
fail_if false code message = ok tt

-- The result is a value or a `ProtocolError`, so `except ProtocolError` catches all that it raises.
abbrev pub RaisesProtocolErrors {ℓ} : {A : Type ℓ} → Result A → Type 0
RaisesProtocolErrors (ok a) = Unit {0}
RaisesProtocolErrors (raise (protocol_error e)) = Unit {0}
RaisesProtocolErrors (raise incomplete_read) = ⊥
RaisesProtocolErrors (raise timeout) = ⊥
RaisesProtocolErrors (raise other_error) = ⊥

-- `ErrorCode(int(code))` is `code`.
pub code_of_ℕ-code_value : (c : ErrorCode) → code_of_ℕ (code_value c) ≡ some c
unfolding code_of_ℕ code_value
code_of_ℕ-code_value err_version = refl
code_of_ℕ-code_value _ = refl

pub Result-cases {ℓ} :
    {A : Type ℓ} (r : Result A) → ((a : A) × (r ≡ ok a)) ⊎ ((e : Exn) × (r ≡ raise e))
Result-cases (ok a) = inl (a, refl)
Result-cases (raise e) = inr (e, refl)

pub bind_raises {ℓ κ} :
    {A : Type ℓ} {B : Type κ} (m : Result A) (f : A → Result B)
    → RaisesProtocolErrors m
    → ((a : A) → RaisesProtocolErrors (f a))
    → RaisesProtocolErrors (m >>= f)
bind_raises (ok a) f h k = k a
bind_raises (raise (protocol_error e)) f h k = tt
bind_raises (raise incomplete_read) f h k = h
bind_raises (raise timeout) f h k = h
bind_raises (raise other_error) f h k = h

-- The value on which a chain that returned went on.
pub bind-eq-ok {ℓ κ} :
    {A : Type ℓ} {B : Type κ} (first : Result A) (next : A → Result B) {result : B}
    → (first >>= next) ≡ ok result
    → (value : A) × (first ≡ ok value) × (next value ≡ ok result)
bind-eq-ok (raise exn) next h = cc
bind-eq-ok (ok value) next h = (value, refl, h)

pub ok-injective {ℓ} : {A : Type ℓ} {a b : A} → ok a ≡ ok b → a ≡ b
ok-injective h = cc
