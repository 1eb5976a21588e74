-- ===== src/Cli/Tests.antt =====
-- The command `send` at a concrete text, with the secret of the server and with another.
use wireline.Codec.Texts.{hmac_mismatch}
use wireline.Errors.{timeout}
use wireline.Base.{ap}
use wireline.Cli.{raise}
use wireline.Base.{arith, ◌≡◌, ◌++◌, some, [], ◌∷◌}
use wireline.Base.Bytes.{Bytes, byte_at, u32_be}
use wireline.Base.Text.{codes}
use wireline.Errors.{Exn}
use wireline.Codec.{sign, pack_header, type_value, crc_of}
use wireline.Messages.{hello_object, error_object, nonce_or, encode_hello, encode_error}
use wireline.Session.{closed}
use wireline.Client.{WirelineClient, new_client, flushed}
use wireline.Cli.{Args, Failure, Ran, expected, conclude_main, handler_result}
use wireline.Cli.Echo
use wireline.Cli.WrongKey
use wireline.Cli.WrongKey.{Strangers, greeting_wire, accepting, wrong_secret}
use wireline.Fixtures.{toy_crypto, toy_crypto-IsDigest, toy_json, key, other_key}

abbrev someone : WirelineClient
someone = new_client (5 ∷ [])

abbrev args : Args
args = record { host = codes "127.0.0.1"; port = 9000 }

abbrev others : Exn → Failure
others x = record { kind = expected (codes "OSError"); detail = [] }

abbrev greeting_text : Bytes
greeting_text = codes "hello"

abbrev printed : Ran
printed =
    Echo.commanding toy_crypto key toy_json (3 ∷ []) (λ t. t) greeting_text (7 ∷ []) (1 ∷ [])
      someone

someone-Strangers : Strangers toy_crypto toy_json (7 ∷ []) (1 ∷ []) (3 ∷ []) someone key other_key
unfolding sign pack_header type_value u32_be crc_of hello_object nonce_or encode_hello encode_error
    error_object hmac_mismatch
someone-Strangers = record {
  digest = toy_crypto-IsDigest;
  greeting_fits = record { fits = omega arith; in_range = omega arith; known = omega arith };
  refusal_fits = record { fits = omega arith; in_range = omega arith; known = omega arith };
  greeting_differs = λ e. omega (arith, ap (λ m. byte_at m 0) e);
  refusal_differs = λ e. omega (arith, ap (λ m. byte_at m 0) e);
}

abbrev refused : Ran
refused =
    WrongKey.commanding toy_crypto toy_json (7 ∷ []) (1 ∷ []) (3 ∷ []) someone key other_key
      (λ t. t) greeting_text flushed flushed flushed (λ c. raise timeout)

wrong_secret_example :
    (refused.0 ≡ [])
    × (refused.1.1.written
        ≡ greeting_wire toy_crypto toy_json (7 ∷ []) (1 ∷ []) (3 ∷ []) someone key other_key ∷ [])
    × ((accepting toy_crypto toy_json
          (7 ∷ [])
          (1 ∷ [])
          (3 ∷ [])
          someone
          key
          other_key).session.state
        ≡ closed)
    × (conclude_main args (handler_result others refused.1.0) ≡ record {
      status = some 1;
      stderr =
          (codes "wireline: ProtocolError: ERR_AUTH: hmac mismatch"
            ++ codes " - do client and server use the same WIRELINE_SECRET?")
          ∷ [];
    })
wrong_secret_example =
    wrong_secret toy_crypto toy_json (7 ∷ []) (1 ∷ []) (3 ∷ []) someone key other_key (λ t. t)
      greeting_text flushed flushed flushed (λ c. raise timeout) others args someone-Strangers
