-- ===== src/Cli/Echo.antt =====
-- `wireline send` (src/wireline/__main__.py) against a new connection of the server.
use wireline.Base.{ℕ, List, ◌++◌, ◌+◌, ◌∷◌, ◌≡◌, []}
use wireline.Codec.Encoding.{wire_of}
use wireline.Client.Handshakes.{connecting, welcoming}
use wireline.Cli.{Ran, send_command}
use wireline.Client.Pairing.{served, heard, reading}
use wireline.Framing.Chunks.{concat}
use wireline.Base.Text.{Text}
use wireline.Messages.{Json}
use wireline.Base.Bytes.{Bytes}
use wireline.Errors.{ok}
use wireline.Codec.{Crypto, bye}
use wireline.Session.{ServerSession, closed}
use wireline.Client.{Step, WirelineClient, flushed, close}

module _ (crypto : Crypto) (secret : Bytes) where
  -- A READY client says BYE and is closed.
  abbrev pub bye_wire : ℕ → Bytes
  bye_wire seq =
      wire_of crypto (record { msg_type = bye; seq = seq; payload = []; flags = 0 }) secret

  abbrev ClosesWell : WirelineClient → Type 0
  ClosesWell c =
      ((close crypto secret flushed flushed c).0 ≡ ok tt)
      × ((close crypto secret flushed flushed c).1.state ≡ closed)
      × ((close crypto secret flushed flushed c).1.written ≡ c.written ++ bye_wire c.out_seq ∷ [])

module _ (crypto : Crypto) (secret : Bytes) (json : Json) (fresh : Text)
    (utf8_decode : Bytes → Text) (payload : Bytes) where
  -- `wireline send`, its DATA answered by the connection that reads it
  abbrev pub sending : Step (Unit {0}) → ServerSession → Ran
  sending connected s =
      send_command crypto secret utf8_decode connected payload flushed
        (λ c'.
          reading crypto secret (concat (served crypto secret json fresh payload c' s).written))
        flushed flushed

  -- It prints the echo and returns, the client closed, with these bytes written by then.
  abbrev Prints : List Bytes → Ran → Type 0
  Prints wires o =
      (o.0 ≡ utf8_decode payload ∷ [])
      × (o.1.0 ≡ ok tt)
      × (o.1.1.state ≡ closed)
      × (o.1.1.written ≡ wires)

  -- What the client writes after its handshake: the bytes that the server reads, and a BYE
  abbrev pub request_wires : WirelineClient → List Bytes
  request_wires c =
      heard crypto secret json fresh payload c ∷ bye_wire crypto secret (c.out_seq + 1) ∷ []

  -- `wireline send` with a connection of the server that is new
  abbrev pub commanding : Text → Text → WirelineClient → Ran
  commanding nonce session_id c =
      sending (connecting crypto secret json nonce session_id fresh c)
        (welcoming crypto secret json nonce session_id fresh c).session
