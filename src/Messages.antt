-- ===== src/Messages.antt =====
-- src/wireline/protocol/messages.py: the JSON payloads of control messages.
pub mod RoundTrip
use wireline.Codec.{hello, hello_ack}
use wireline.Base.Int.{str_ℤ, ℤ, pos}
use wireline.Base.{
  ℕ, ◌≡◌, Bool, true, false, none, some, List, [], ◌∷◌, ◌++◌, if◌then◌else◌, eqb, Option,
}
use wireline.Base.Bytes.{Bytes}
use wireline.Base.Text.{Text, codes}
use wireline.Errors.{
  code_value, code_of_value, fail, err_length, err_state, err_internal, other_error, raise, ◌>>=◌,
  ◌>>◌, ErrorCode, Result, ok,
}

-- A value of a parsed object, as far as the program looks at it: a `str`, an `int`, a `bool` (which
-- is an `int` for Python), or anything else, of which only its `str()` is used.
pub data Value : Type 0 where
  str : Text → Value
  int : ℤ → Value
  bool : Bool → Value
  other : Text → Value

-- A `dict` from a JSON object: its keys are distinct.
abbrev pub Object : Type 0
Object = List (Text × Value)

-- What `json.loads(payload.decode("utf-8"))` does: it returns an object or a value of another type,
-- raises a `UnicodeDecodeError` or a `JSONDecodeError` with a text, or raises something else (a
-- `RecursionError` on deep nesting, a plain `ValueError` on an integer of too many digits).
pub data Loaded : Type 0 where
  object : Object → Loaded
  no_object : Loaded
  malformed : Text → Loaded
  crashed : Loaded

-- The `json` module: `dumps` is `json.dumps(obj, separators=(",", ":"), ensure_ascii=False)` as
-- UTF-8.
pub record Json : Type 0 where
  pub dumps : Object → Bytes
  pub loads : Bytes → Loaded

-- The object is read back from its own JSON text.
abbrev pub ReadsBack : Json → Object → Type 0
ReadsBack json obj = json.loads (json.dumps obj) ≡ object obj

-- `obj.get(key)`
unfoldable pub get : Text → Object → Option Value
get key [] = none
get key ((k, v) ∷ obj) = if eqb k key then some v else get key obj

-- `isinstance(v, str)`
unfoldable pub as_str : Option Value → Option Text
as_str (some (str t)) = some t
as_str (some (int n)) = none
as_str (some (bool b)) = none
as_str (some (other t)) = none
as_str none = none

-- `isinstance(v, int)`, which holds of a `bool` too
unfoldable pub as_int : Option Value → Option ℤ
as_int (some (str t)) = none
as_int (some (int n)) = some n
as_int (some (bool true)) = some (pos 1)
as_int (some (bool false)) = some (pos 0)
as_int (some (other t)) = none
as_int none = none

-- `str(v)`
unfoldable pub str_of : Value → Text
str_of (str t) = t
str_of (int n) = str_ℤ n
str_of (bool true) = codes "True"
str_of (bool false) = codes "False"
str_of (other t) = t

-- `str(obj.get("message", ""))`
unfoldable pub str_or_empty : Option Value → Text
unfolding str_of
str_or_empty none = []
str_or_empty (some v) = str_of v

unfoldable pub malformed_payload : Text → Text
malformed_payload exc = codes "malformed json payload: " ++ exc

unfoldable pub not_an_object : Text
not_an_object = codes "control payload must be an object"

unfoldable pub hello_requires : Text
hello_requires = codes "hello requires client_id and nonce"

unfoldable pub hello_ack_requires : Text
hello_ack_requires = codes "hello_ack requires session_id and nonce"

unfoldable pub error_requires : Text
error_requires = codes "error requires an integer code"

unfoldable pub ack_requires : Text
ack_requires = codes "ack requires an integer ack_seq"

unfoldable pub unknown_code : Text → Text → Text
unknown_code raw message = codes "unknown error code " ++ (raw ++ (codes ": " ++ message))

-- `nonce or new_nonce()`: `fresh` is what `secrets.token_hex` returns
unfoldable pub nonce_or : Option Text → Text → Text
nonce_or none fresh = fresh
nonce_or (some []) fresh = fresh
nonce_or (some (c ∷ cs)) fresh = c ∷ cs

unfoldable pub hello_object : Text → Text → Object
unfolding codes
hello_object client_id nonce = (codes "client_id", str client_id) ∷ (codes "nonce", str nonce) ∷ []

unfoldable pub hello_ack_object : Text → Text → Object
unfolding codes
hello_ack_object session_id nonce =
    (codes "session_id", str session_id) ∷ (codes "nonce", str nonce) ∷ []

unfoldable pub error_object : ErrorCode → Text → Object
unfolding codes
error_object code message =
    (codes "code", int (pos (code_value code))) ∷ (codes "message", str message) ∷ []

unfoldable pub ack_object : ℕ → Object
unfolding codes
ack_object ack_seq = (codes "ack_seq", int (pos ack_seq)) ∷ []

unfoldable pub both : Option Text → Option Text → Text → Result (Text × Text)
both (some a) (some b) message = ok (a, b)
both (some a) none message = fail err_state message
both none b message = fail err_state message

-- The `try` around `ErrorCode(raw)`, where `raw` has passed `isinstance(raw, int)`.
unfoldable pub error_code_or : Option ErrorCode → Text → Text → ErrorCode × Text
error_code_or (some code) raw message = (code, message)
error_code_or none raw message = (err_internal, unknown_code raw message)

-- `decode_error` after `_load`: a code that is no integer is an error.
unfoldable pub error_fields : Option Value → Text → Result (ErrorCode × Text)
unfolding as_int error_code_or
error_fields raw message = elim (as_int raw) [
  | none ↦ fail err_state error_requires
  | some n ↦ ok (error_code_or (code_of_value n) (str_or_empty raw) message)
]

-- the body of `_load`, on what the parser did
unfoldable pub of_loaded : Loaded → Result Object
of_loaded (object obj) = ok obj
of_loaded no_object = fail err_length not_an_object
of_loaded (malformed exc) = fail err_length (malformed_payload exc)
of_loaded crashed = raise other_error

module _ (json : Json) where
  unfoldable pub load : Bytes → Result Object
  unfolding of_loaded
  load payload = of_loaded (json.loads payload)

  unfoldable pub encode_hello : Text → Option Text → Text → Bytes
  unfolding hello_object nonce_or
  encode_hello client_id nonce fresh = json.dumps (hello_object client_id (nonce_or nonce fresh))

  unfoldable pub decode_hello : Bytes → Result (Text × Text)
  unfolding codes both get as_str
  decode_hello payload = do
    obj ← load payload
    both (as_str (get (codes "client_id") obj)) (as_str (get (codes "nonce") obj)) hello_requires

  unfoldable pub encode_hello_ack : Text → Option Text → Text → Bytes
  unfolding hello_ack_object nonce_or
  encode_hello_ack session_id nonce fresh =
      json.dumps (hello_ack_object session_id (nonce_or nonce fresh))

  unfoldable pub decode_hello_ack : Bytes → Result (Text × Text)
  unfolding codes both get as_str
  decode_hello_ack payload = do
    obj ← load payload
    both (as_str (get (codes "session_id") obj)) (as_str (get (codes "nonce") obj))
        hello_ack_requires

  unfoldable pub encode_error : ErrorCode → Text → Bytes
  unfolding error_object
  encode_error code message = json.dumps (error_object code message)

  unfoldable pub decode_error : Bytes → Result (ErrorCode × Text)
  unfolding codes error_fields get str_or_empty
  decode_error payload = do
    obj ← load payload
    error_fields (get (codes "code") obj) (str_or_empty (get (codes "message") obj))

  unfoldable pub encode_ack : ℕ → Bytes
  unfolding ack_object
  encode_ack ack_seq = json.dumps (ack_object ack_seq)

  unfoldable pub decode_ack : Bytes → Result ℤ
  unfolding codes get as_int
  decode_ack payload = do
    obj ← load payload
    elim (as_int (get (codes "ack_seq") obj)) [ none ↦ fail err_state ack_requires | some n ↦ ok n ]
