-- ===== src/Session/Tests.antt =====
-- The theorems on sessions at a concrete history.
use wireline.Session.Failures.{Returns, on_frame-Returns, on_frame_crashes}
use wireline.Session.Numbers.{Numbered, run-Numbered}
use wireline.Session.Invariant.{IsValid}
use wireline.Session.Replay.{AllErrors, replay_refused}
use wireline.Base.{◌≡◌, refl, ◌≢◌, true, none, List, [], ◌∷◌, arith}
use wireline.Base.Int.{pos}
use wireline.Errors.{other_error, raise}
use wireline.Codec.{Frame, hello, ping}
use wireline.Messages.{hello_object, encode_hello, crashed}
use wireline.Session.{is_over, ServerSession, new_session, on_frame}
use wireline.Session.Runs.{run-IsValid, Event, received, acknowledged, idle, run, step}
use wireline.Fixtures.{toy_json}

abbrev greeting : Frame
greeting = record {
  msg_type = hello;
  seq = 0;
  payload = encode_hello toy_json (5 ∷ []) none (7 ∷ []);
  flags = 0;
}

abbrev probing : Frame
probing = record { msg_type = ping; seq = 1; payload = 1 ∷ 2 ∷ []; flags = 0 }

abbrev history : List Event
history = acknowledged 0 ∷ received greeting (3 ∷ []) ∷ received probing [] ∷ []

abbrev fresh_session : ServerSession
fresh_session = new_session (1 ∷ [])

run-IsValid_example : IsValid (run toy_json history (new_session (1 ∷ []))).1
run-IsValid_example = run-IsValid toy_json history (1 ∷ [])

run-Numbered_example :
    Numbered 0 (run toy_json history fresh_session).0 (run toy_json history fresh_session).1.out_seq
run-Numbered_example = run-Numbered toy_json history fresh_session

replay_refused_example :
    AllErrors toy_json
      (step toy_json
        (received greeting [])
        (run toy_json (received probing [] ∷ idle ∷ []) fresh_session).1).0
    × (is_over
          (step toy_json
            (received greeting [])
            (run toy_json (received probing [] ∷ idle ∷ []) fresh_session).1).1.state
        ≡ true)
replay_refused_example =
    replay_refused toy_json fresh_session probing greeting [] [] (idle ∷ []) (omega arith)

greeting_parses : toy_json.loads greeting.payload ≢ crashed
unfolding encode_hello hello_object
greeting_parses e = cc

on_frame-Returns_example : Returns (on_frame toy_json greeting (3 ∷ []) fresh_session)
on_frame-Returns_example = on_frame-Returns toy_json greeting greeting_parses (3 ∷ []) fresh_session

-- A HELLO whose payload is nested too deeply.
abbrev nested : Frame
nested = record { msg_type = hello; seq = 0; payload = b'[' ∷ b'[' ∷ []; flags = 0 }

on_frame_crashes_example :
    on_frame toy_json nested [] fresh_session
    ≡ (raise other_error, record fresh_session { last_peer_seq = pos 0 })
on_frame_crashes_example = on_frame_crashes toy_json nested [] fresh_session refl refl refl refl
