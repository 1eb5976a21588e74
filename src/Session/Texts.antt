-- ===== src/Session/Texts.antt =====
-- The texts of src/wireline/session.py.
use wireline.Base.{ℕ, ◌++◌}
use wireline.Base.Int.{ℤ, str_ℤ}
use wireline.Base.Text.{Text, codes, str_ℕ}
use wireline.Errors.{ErrorCode, describe}
use wireline.Codec.{MsgType, type_name}

unfoldable pub frame_after_close : Text
frame_after_close = codes "frame after close"

unfoldable pub seq_not_greater : ℕ → ℤ → Text
seq_not_greater seq last =
    codes "seq " ++ (str_ℕ seq ++ (codes " not greater than last accepted " ++ str_ℤ last))

unfoldable pub idle_timeout : Text
idle_timeout = codes "idle timeout"

unfoldable pub not_allowed : MsgType → Text
not_allowed msg_type = type_name msg_type ++ codes " is not allowed before the handshake"

unfoldable pub already_completed : Text
already_completed = codes "handshake already completed"

unfoldable pub server_to_client : Text
server_to_client = codes "hello_ack is server to client"

unfoldable pub peer_said_bye : Text
peer_said_bye = codes "peer said bye"

unfoldable pub peer_reported : ErrorCode → Text → Text
peer_reported code message = codes "peer reported " ++ describe code message
