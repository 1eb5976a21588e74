-- ===== src/Server/Tests.antt =====
-- The theorems on the connections of the server at concrete reads.
use wireline.Messages.{encode_error, error_object}
use wireline.Server.Undecodable.{error_frame, undecodable_last}
use wireline.Codec.Encoding.{wire_of, encode-IsEncodable}
use wireline.Base.Int.{leb_ℤ}
use wireline.Base.{◌%◌, ◌^◌, some, ◌++◌, arith, ◌≡◌, refl, none, ◌+◌, List, [], ◌∷◌, length}
use wireline.Base.Bytes.{Bytes}
use wireline.Base.Text.{Text}
use wireline.Errors.{
  code_value, protocol_error, ProtocolError, err_auth, Result, ok, raise, timeout,
}
use wireline.Codec.{type_value, pack_header, unknown_flags, encode, Frame}
use wireline.Session.{
  catch, closed, next_seq, reply_with, dispatch, dispatch_in, dispatch_ready, is_over, make_frame,
  on_data, on_frame, ServerSession, new_session, ready,
}
use wireline.Server.{apply, proceed, react, turn, Connection, write_then, handle}
use wireline.Server.Ends.{IsEnded, reads, connection_ends}
use wireline.Fixtures.{toy_crypto, toy_json, key, probe, farewell}

abbrev talking : ServerSession
talking = record (new_session (1 ∷ [])) { state = ready }

-- A DATA frame, a BYE and a timeout that the loop no longer waits for.
abbrev outcomes : List (Result Frame × Text)
outcomes = (ok probe, []) ∷ (ok farewell, []) ∷ (raise timeout, []) ∷ []

abbrev garbage : Bytes
garbage = 0x57 ∷ 0x49 ∷ 0x52 ∷ []

connection_ends_example :
    IsEnded (
      handle toy_crypto toy_json key (reads toy_crypto key (length garbage + 1) [] garbage) talking)
connection_ends_example = connection_ends toy_crypto toy_json key [] garbage talking

-- A DATA frame, and then bytes with a wrong MAC
abbrev exc : ProtocolError
exc = record { code = err_auth; message = 1 ∷ [] }

abbrev waiting_connection : Connection
waiting_connection = handle toy_crypto toy_json key ((ok probe, []) ∷ []) talking

waits : waiting_connection.ended ≡ none
unfolding handle turn react proceed apply write_then on_frame dispatch dispatch_in dispatch_ready
    on_data reply_with make_frame next_seq catch is_over encode pack_header type_value unknown_flags
    leb_ℤ
waits = refl

abbrev error_wire : Bytes
error_wire =
    wire_of toy_crypto (error_frame toy_crypto toy_json key exc waiting_connection.session) key

error_encodes :
    encode toy_crypto (error_frame toy_crypto toy_json key exc waiting_connection.session) key
    ≡ ok error_wire
unfolding handle turn react proceed apply write_then on_frame dispatch dispatch_in dispatch_ready
    on_data reply_with make_frame next_seq catch is_over encode pack_header type_value unknown_flags
    leb_ℤ encode_error error_object code_value
error_encodes =
    encode-IsEncodable toy_crypto
      (error_frame toy_crypto toy_json key exc waiting_connection.session) key
      (record { fits = omega arith; in_range = omega arith; known = omega arith })

undecodable_last_example :
    handle toy_crypto toy_json key
      ((ok probe, []) ∷ (raise (protocol_error exc), []) ∷ (ok farewell, []) ∷ [])
      talking
    ≡ record {
      session = record waiting_connection.session {
        state = closed;
        out_seq = (waiting_connection.session.out_seq + 1) % 2 ^ 32;
      };
      written = waiting_connection.written ++ error_wire ∷ [];
      ended = some (ok tt);
    }
undecodable_last_example =
    undecodable_last toy_crypto toy_json key ((ok probe, []) ∷ []) ((ok farewell, []) ∷ []) talking
      exc [] error_wire waits error_encodes
