-- ===== src/Udp/Server.antt =====
-- `UdpServer` of src/wireline/transport/udp.py: one session and one window for each peer address.
pub mod Peers
pub mod Once
mod Tests
use wireline.Base.{ℕ, ◌+◌, ◌%◌, Option, none, some, List, [], ◌∷◌, ◌++◌, ◌==◌, if◌then◌else◌}
use wireline.Base.Text.{Text}
use wireline.Base.Bytes.{Bytes}
use wireline.Errors.{protocol_error, raise, ◌>>=◌, ◌>>◌, Result, ok}
use wireline.Codec.{flag_require_ack, Crypto, Frame, encode, decode}
use wireline.Messages.{Json}
use wireline.Session.{ServerSession, Reaction, new_session, ack_frame, on_frame}
use wireline.Udp.Window.{DedupWindow, new_window, get, put}

-- An address is a number: the program only compares addresses.
pub record Peer : Type 0 where
  pub session : ServerSession
  pub dedup : DedupWindow

-- `sent` holds the datagrams that were given to `_sendto`, with their addresses.
pub record UdpServer : Type 0 where
  pub secret : Bytes
  pub dedup_size : ℕ
  pub peers : List (ℕ × Peer)
  pub duplicates : ℕ
  pub handled : ℕ
  pub sent : List (ℕ × Bytes)

-- What the standard library makes up while a datagram is handled: the id of a session and a nonce.
pub record Fresh : Type 0 where
  pub session_id : Text
  pub nonce : Text

unfoldable pub find_peer : ℕ → List (ℕ × Peer) → Option Peer
find_peer addr [] = none
find_peer addr ((a, p) ∷ rest) = if a == addr then some p else find_peer addr rest

-- `peers[addr] = p`
unfoldable pub set_peer : ℕ → Peer → List (ℕ × Peer) → List (ℕ × Peer)
set_peer addr p [] = (addr, p) ∷ []
set_peer addr p ((a, q) ∷ rest) =
    if a == addr then (addr, p) ∷ rest else (a, q) ∷ set_peer addr p rest

-- `del peers[addr]`
unfoldable pub delete_peer : ℕ → List (ℕ × Peer) → List (ℕ × Peer)
delete_peer addr [] = []
delete_peer addr ((a, q) ∷ rest) =
    let rest' = delete_peer addr rest in if a == addr then rest' else (a, q) ∷ rest'

-- `if reply: self._sendto(reply, addr)`
unfoldable pub send : ℕ → Bytes → List (ℕ × Bytes) → List (ℕ × Bytes)
send addr [] sent = sent
send addr (b ∷ bs) sent = sent ++ (addr, b ∷ bs) ∷ []

abbrev pub new_peer : Fresh → ℕ → Peer
new_peer fresh size = record { session = new_session fresh.session_id; dedup = new_window size }

-- `if addr not in self._peers: ...`, and the peer that is there then
unfoldable pub peer_or_new : Option Peer → Fresh → ℕ → Peer
peer_or_new none fresh size = new_peer fresh size
peer_or_new (some p) fresh size = p

-- A cached reply is sent again, and nothing is executed.
unfoldable pub replay : ℕ → Bytes → UdpServer → UdpServer × Result (Unit {0})
unfolding send
replay addr cached u =
    (record u { duplicates = u.duplicates + 1; sent = send addr cached u.sent }, ok tt)

-- The window and the session after a reply, and the end of a session that closed.
unfoldable pub conclude :
    ℕ → ℕ → Peer → Reaction → Result Bytes → UdpServer → UdpServer × Result (Unit {0})
unfolding send set_peer delete_peer
conclude addr seq p reaction (raise e) u = (u, raise e)
conclude addr seq p reaction (ok bytes) u = (
  record u {
    sent = send addr bytes u.sent;
    peers =
        if reaction.close
        then delete_peer addr u.peers
        else set_peer addr (record p { dedup = put seq bytes p.dedup }) u.peers;
  },
  ok tt,
)

module _ (crypto : Crypto) (json : Json) where
  -- `[session.ack(frame.seq)] if frame.flags & FLAG_REQUIRE_ACK else []`: the flag is the lowest bit
  unfoldable pub acks_for : Frame → ServerSession → List Frame × ServerSession
  acks_for frame s =
      let (f, s') = ack_frame json frame.seq s in
      if frame.flags % 2 == flag_require_ack then (f ∷ [], s') else ([], s)

  -- `b"".join(encode(f, self._secret) for f in frames)`
  unfoldable pub encode_all : List Frame → Bytes → Result Bytes
  encode_all [] secret = ok []
  encode_all (f ∷ fs) secret = do
    front ← encode crypto f secret
    rest ← encode_all fs secret
    ok (front ++ rest)

  -- What follows `session.on_frame(frame)`; the session was changed in place before.
  unfoldable pub after_frame :
      ℕ → ℕ → List Frame → Peer → Result Reaction → UdpServer → UdpServer × Result (Unit {0})
  unfolding conclude encode_all
  after_frame addr seq acks p (raise e) u = (u, raise e)
  after_frame addr seq acks p (ok reaction) u =
      conclude addr seq p reaction (encode_all (acks ++ reaction.frames) u.secret)
        (record u { handled = u.handled + 1 })

  unfoldable pub execute : Frame → ℕ → Fresh → Peer → UdpServer → UdpServer × Result (Unit {0})
  unfolding acks_for after_frame set_peer
  execute frame addr fresh p u =
      let (acks, s) = acks_for frame p.session in
      let (r, s') = on_frame json frame fresh.nonce s in
      let p' = record p { session = s' } in
      after_frame addr frame.seq acks p' r (record u { peers = set_peer addr p' u.peers })

  unfoldable pub answer :
      Option Bytes → Frame → ℕ → Fresh → Peer → UdpServer → UdpServer × Result (Unit {0})
  unfolding execute replay
  answer none frame addr fresh p u = execute frame addr fresh p u
  answer (some cached) frame addr fresh p u = replay addr cached u

  unfoldable pub on_decoded : Result Frame → ℕ → Fresh → UdpServer → UdpServer × Result (Unit {0})
  unfolding answer peer_or_new find_peer set_peer
  on_decoded (raise (protocol_error e)) addr fresh u = (u, ok tt)
  on_decoded (raise x) addr fresh u = (u, raise x)
  on_decoded (ok frame) addr fresh u =
      let p = peer_or_new (find_peer addr u.peers) fresh u.dedup_size in
      answer (get frame.seq p.dedup) frame addr fresh p
        (record u { peers = set_peer addr p u.peers })

  -- `_on_datagram`
  unfoldable pub on_datagram : Bytes → ℕ → Fresh → UdpServer → UdpServer × Result (Unit {0})
  unfolding on_decoded
  on_datagram raw addr fresh u = on_decoded (decode crypto raw (some u.secret)) addr fresh u
