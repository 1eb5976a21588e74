-- ===== src/Cli.antt =====
-- src/wireline/__main__.py: the commands, what they print, and how the process ends.
pub mod Echo
pub mod WrongKey
mod Tests
use wireline.Base.{
  ℕ, zero, suc, ◌+◌, Option, none, some, List, [], ◌∷◌, ◌++◌, ◌⊎◌, inl, inr, length, Bool,
  if◌then◌else◌,
}
use wireline.Base.Bytes.{Bytes}
use wireline.Base.Text.{Text, codes, str_ℕ}
use wireline.Errors.{Exn, protocol_error, ErrorCode, err_auth, describe, Result, ok, raise}
use wireline.Codec.{Crypto, Frame, type_name}
use wireline.Messages.{Json}
use wireline.Client.{WirelineClient, Step, Flushed, and_then, ping_server, send_data, close}
use wireline.Sniff.Rows.{Row, join}
use wireline.Sniff.Pcap.{Capture, ReadEnd, pcap_error}
use wireline.Sniff.Dissect.{dissect}
use wireline.Sniff.Output.{format_rows}
use wireline.Sniff.Flows.{reassemble_flows, summarise}

-- The classes of exceptions that `main` and `describe_failure` tell apart. The last two carry the
-- name of the class: another `OSError` or `EOFError`, or anything else.
pub data Kind : Type 0 where
  protocol : ErrorCode → Kind
  pcap refused timed_out interrupted : Kind
  expected unexpected : Text → Kind

-- An exception: its class, and `str(exc)`.
pub record Failure : Type 0 where
  pub kind : Kind
  pub detail : Text

-- `type(exc).__name__`
unfoldable pub class_name : Kind → Text
class_name (protocol code) = codes "ProtocolError"
class_name pcap = codes "PcapError"
class_name refused = codes "ConnectionRefusedError"
class_name timed_out = codes "TimeoutError"
class_name interrupted = codes "KeyboardInterrupt"
class_name (expected name) = name
class_name (unexpected name) = name

-- The options that the failure line names.
pub record Args : Type 0 where
  pub host : Text
  pub port : ℕ

unfoldable pub with_detail : Text → Text → Text
with_detail text [] = text
with_detail text (c ∷ cs) = text ++ (codes ": " ++ (c ∷ cs))

unfoldable pub address_of : Args → Text
address_of args = args.host ++ (codes ":" ++ str_ℕ args.port)

unfoldable pub advice : Kind → Args → Text
unfolding address_of
advice refused args = codes " - is a server listening on " ++ (address_of args ++ codes "?")
advice timed_out args = codes " - no reply from " ++ (address_of args ++ codes " in time")
advice (protocol err_auth) args = codes " - do client and server use the same WIRELINE_SECRET?"
advice _ args = []

unfoldable pub describe_failure : Failure → Args → Text
unfolding class_name with_detail advice
describe_failure exc args =
    with_detail (codes "wireline: " ++ class_name exc.kind) exc.detail ++ advice exc.kind args

-- How the process ends: its status, `none` for a traceback, and the line on the standard error.
pub record Exit : Type 0 where
  pub status : Option ℕ
  pub stderr : List Text

-- The `except` clauses of `main`
unfoldable pub exit_failed : Kind → Text → Exit
exit_failed interrupted line = record { status = some 130; stderr = [] }
exit_failed (unexpected name) line = record { status = none; stderr = [] }
exit_failed _ line = record { status = some 1; stderr = line ∷ [] }

-- `main`, by how the handler of its command ends
unfoldable pub conclude_main : Args → Unit {0} ⊎ Failure → Exit
unfolding exit_failed
conclude_main args (inl _) = record { status = some 0; stderr = [] }
conclude_main args (inr exc) = exit_failed exc.kind (describe_failure exc args)

-- The exceptions of the model as failures; how asyncio presents those that are not a
-- `ProtocolError` is the parameter `others`.
unfoldable pub failure_of : (Exn → Failure) → Exn → Failure
failure_of others (protocol_error e) = record {
  kind = protocol e.code;
  detail = describe e.code e.message;
}
failure_of others x = others x

unfoldable pub handler_result : (Exn → Failure) → Result (Unit {0}) → Unit {0} ⊎ Failure
unfolding failure_of
handler_result others (ok _) = inl tt
handler_result others (raise x) = inr (failure_of others x)

-- What a handler printed, call by call, with its result and the client.
abbrev pub Ran : Type 0
Ran = List Text × Step (Unit {0})

-- One ping: how its write and its answer end, and the text of the time between.
pub record Probe : Type 0 where
  pub how : Flushed
  pub answer : Result Frame
  pub rtt : Text

-- `str(client.session_id)`
unfoldable pub session_text : Option Text → Text
session_text none = codes "None"
session_text (some id) = id

unfoldable pub pong_line : ℕ → ℕ → Text → Text
pong_line i count rtt =
    codes "pong "
    ++ (str_ℕ i ++ (codes "/" ++ (str_ℕ count ++ (codes "  rtt=" ++ (rtt ++ codes " ms")))))

-- `__aexit__`: an exception of `close` takes the place of that of the body.
unfoldable pub leave : Result (Unit {0}) → Step (Unit {0}) → Step (Unit {0})
leave r (raise e, c) = (raise e, c)
leave r (ok _, c) = (r, c)

-- A line that is printed if a call returned, and what follows it
unfoldable pub print_then : {A : Type 0} → Step A → (A → Text) → (WirelineClient → Ran) → Ran
print_then (raise e, c) line rest = ([], (raise e, c))
print_then (ok a, c) line rest = let (lines, o) = rest c in (line a ∷ lines, o)

module _ (crypto : Crypto) (secret : Bytes) where
  -- `async with WirelineClient(...) as client: ...`, by how `connect` ended
  unfoldable pub within : Step (Unit {0}) → (WirelineClient → Ran) → Flushed → Flushed → Ran
  unfolding leave
  within (raise e, c) body drained how = ([], (raise e, c))
  within (ok _, c) body drained how =
      let (lines, (r, c')) = body c in (lines, leave r (close crypto secret drained how c'))

  -- `for i in range(args.count): ...`, from the number `i` on
  unfoldable pub ping_each : List Probe → ℕ → ℕ → WirelineClient → Ran
  unfolding print_then pong_line
  ping_each [] i count c = ([], (ok tt, c))
  ping_each (probe ∷ probes) i count c =
      print_then (ping_server crypto secret (codes "probe") probe.how probe.answer c)
        (λ _. pong_line (i + 1) count probe.rtt) (ping_each probes (i + 1) count)

  -- `_ping`
  unfoldable pub ping_command : Step (Unit {0}) → List Probe → Flushed → Flushed → Ran
  unfolding within ping_each session_text
  ping_command connected probes drained how =
      within connected
        (λ c.
          print_then (ok tt, c) (λ _. codes "session " ++ session_text c.session_id)
            (ping_each probes 0 (length probes)))
        drained how

  -- `_send`: the payload is `args.text.encode("utf-8")`, and `utf8_decode` is `decode("utf-8",
  -- errors="replace")`.
  unfoldable pub send_command :
      (Bytes → Text)
      → Step (Unit {0})
      → Bytes
      → Flushed
      → (WirelineClient → Result Frame)
      → Flushed
      → Flushed
      → Ran
  unfolding within print_then
  send_command utf8_decode connected payload how answer drained how' =
      within connected
        (λ c.
          print_then (send_data crypto secret payload how (answer c) c) utf8_decode
            (λ c'. ([], (ok tt, c'))))
        drained how'

-- `f"{name}(seq={n})"`
unfoldable pub frame_text : Frame → Text
frame_text f = type_name f.msg_type ++ (codes "(seq=" ++ (str_ℕ f.seq ++ codes ")"))

unfoldable pub frame_texts : List Frame → List Text
unfolding frame_text
frame_texts [] = []
frame_texts (f ∷ fs) = frame_text f ∷ frame_texts fs

-- `xs or default`
unfoldable pub or_else : Text → Text → Text
or_else [] default = default
or_else (c ∷ cs) default = c ∷ cs

unfoldable pub flow_lines : List (Text × List Frame) → List Text
unfolding frame_texts or_else
flow_lines [] = []
flow_lines ((key, frames) ∷ flows) =
    (codes "  "
      ++ (key
          ++ (codes ": "
              ++ or_else (join (codes ", ") (frame_texts frames)) (codes "no complete messages"))))
    ∷ flow_lines flows

-- `repr` of an item of `counts`, whose keys are the names of message types
unfoldable pub count_texts : List (Text × ℕ) → List Text
count_texts [] = []
count_texts ((name, n) ∷ counts) =
    (codes "'" ++ (name ++ (codes "': " ++ str_ℕ n))) ∷ count_texts counts

unfoldable pub counts_text : List (Text × ℕ) → Text
unfolding count_texts
counts_text [] = codes "none"
counts_text (c ∷ counts) = codes "{" ++ (join (codes ", ") (count_texts (c ∷ counts)) ++ codes "}")

unfoldable pub summary_line : ℕ → List (Text × ℕ) → Text
unfolding counts_text
summary_line n counts =
    10 ∷ (str_ℕ n ++ (codes " packets, wireline messages seen per packet: " ++ counts_text counts))

module _ (crypto : Crypto) {T : Type 0} (show : T → Text) where
  unfoldable pub sniff_rows : Bool → List (Row T) → List Text
  unfolding summary_line flow_lines
  sniff_rows flows rows =
      format_rows show rows
      ++ (summary_line (length rows) (summarise rows)
          ∷ (if flows
              then (10 ∷ codes "reassembled per direction:")
                ∷ flow_lines (reassemble_flows crypto rows)
              else []))

  -- A `PcapError` is the only exception of the reader; nothing is printed then.
  unfoldable pub sniff_ends : Bool → List (Row T) ⊎ ReadEnd → List Text × (Unit {0} ⊎ Failure)
  unfolding sniff_rows
  sniff_ends flows (inl rows) = (sniff_rows flows rows, inl tt)
  sniff_ends flows (inr (pcap_error message)) = ([], inr (record { kind = pcap; detail = message }))
  sniff_ends flows (inr _) = ([], inr (record { kind = unexpected []; detail = [] }))

  -- `sniff`, on what `read_packets` yields of the file
  unfoldable pub sniff : Bool → Capture T → List Text × (Unit {0} ⊎ Failure)
  unfolding sniff_ends
  sniff flows capture = sniff_ends flows (dissect capture)
