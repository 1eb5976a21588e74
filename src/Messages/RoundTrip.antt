-- ===== src/Messages/RoundTrip.antt =====
-- The payloads of src/wireline/protocol/messages.py are read back, and what their readers can raise.
use wireline.Base.{ap, inl, inr, Option-cases, ℕ, ◌≡◌, ◌≢◌, Option, none, some, arith, eqb}
use wireline.Base.Int.{pos}
use wireline.Base.Text.{Text}
use wireline.Base.Bytes.{Bytes}
use wireline.Errors.{
  bind_raises, code_of_value, RaisesProtocolErrors, code_of_ℕ-code_value, ErrorCode, other_error,
  raise, ok,
}
use wireline.Messages.{
  of_loaded, Value, Json, Object, ReadsBack, crashed, load, hello_object, hello_ack_object,
  error_object, ack_object, encode_hello, decode_hello, encode_hello_ack, decode_hello_ack,
  encode_error, decode_error, encode_ack, decode_ack, nonce_or, as_int, both, error_fields,
}

both_raises : (a b : Option Text) (m : Text) → RaisesProtocolErrors (both a b m)
unfolding both
both_raises (some a) (some b) m = tt
both_raises (some a) none m = tt
both_raises none b m = tt

error_fields_raises : (raw : Option Value) (m : Text) → RaisesProtocolErrors (error_fields raw m)
unfolding error_fields
error_fields_raises raw m = elim (Option-cases (as_int raw)) [
  | inl e ↦ rw (e, error_fields) tt
  | inr (n, e) ↦ rw (e, error_fields) tt
]

module _ (json : Json) where
  load-dumps : (obj : Object) → ReadsBack json obj → load json (json.dumps obj) ≡ ok obj
  unfolding load
  load-dumps obj h = ap of_loaded h

  -- A hello payload is read back as the client id and the nonce that was sent.
  pub decode_hello-encode_hello :
      (client_id : Text) (given : Option Text) (fresh : Text)
      → ReadsBack json (hello_object client_id (nonce_or given fresh))
      → decode_hello json (encode_hello json client_id given fresh)
        ≡ ok (client_id, nonce_or given fresh)
  unfolding decode_hello encode_hello eqb
  decode_hello-encode_hello client_id given fresh h = rw (load-dumps _ h)

  -- A hello_ack payload is read back as the session id and the nonce that was sent.
  pub decode_hello_ack-encode_hello_ack :
      (session_id : Text) (given : Option Text) (fresh : Text)
      → ReadsBack json (hello_ack_object session_id (nonce_or given fresh))
      → decode_hello_ack json (encode_hello_ack json session_id given fresh)
        ≡ ok (session_id, nonce_or given fresh)
  unfolding decode_hello_ack encode_hello_ack eqb
  decode_hello_ack-encode_hello_ack session_id given fresh h = rw (load-dumps _ h)

  -- An error payload is read back as its code and its message, for every code.
  pub decode_error-encode_error :
      (code : ErrorCode) (message : Text)
      → ReadsBack json (error_object code message)
      → decode_error json (encode_error json code message) ≡ ok (code, message)
  unfolding decode_error encode_error eqb code_of_value
  decode_error-encode_error code message h = rw (load-dumps _ h, code_of_ℕ-code_value code)

  -- An ack payload is read back as its number.
  pub decode_ack-encode_ack :
      (n : ℕ) → ReadsBack json (ack_object n) → decode_ack json (encode_ack json n) ≡ ok (pos n)
  unfolding decode_ack encode_ack eqb
  decode_ack-encode_ack n h = rw (load-dumps _ h)

  -- `_load` raises a `ProtocolError` unless `json.loads` raises something that is neither a
  -- `UnicodeDecodeError` nor a `JSONDecodeError`.
  pub load_raises :
      (payload : Bytes) → json.loads payload ≢ crashed → RaisesProtocolErrors (load json payload)
  unfolding load
  load_raises payload h = ground arith

  pub load_crashes :
      (payload : Bytes) → json.loads payload ≡ crashed → load json payload ≡ raise other_error
  unfolding load
  load_crashes payload h = ap of_loaded h

  pub decode_hello_raises :
      (payload : Bytes)
      → json.loads payload ≢ crashed
      → RaisesProtocolErrors (decode_hello json payload)
  unfolding decode_hello
  decode_hello_raises payload h =
      bind_raises (load json payload) _ (load_raises payload h) (λ obj. both_raises _ _ _)

  pub decode_error_raises :
      (payload : Bytes)
      → json.loads payload ≢ crashed
      → RaisesProtocolErrors (decode_error json payload)
  unfolding decode_error
  decode_error_raises payload h =
      bind_raises (load json payload) _ (load_raises payload h) (λ obj. error_fields_raises _ _)

  pub decode_hello_crashes :
      (payload : Bytes)
      → json.loads payload ≡ crashed
      → decode_hello json payload ≡ raise other_error
  unfolding decode_hello
  decode_hello_crashes payload h = rw (load_crashes payload h)
