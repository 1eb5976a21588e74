-- ===== src/Udp/Link.antt =====
-- `LossyLink` of src/wireline/transport/udp.py, and the exchange of a client that repeats its request
-- with a server, each behind such a link.
pub mod Delivery
pub mod Served
pub mod Rounds
pub mod Retries
pub mod Exchange
pub mod Outcomes
pub mod Closing
pub mod Repeated
mod Tests
use wireline.Base.{
  ℕ, suc, ◌+◌, ◌||◌, Bool, true, false, Option, none, some, List, [], ◌∷◌, ◌≡◌, length, drop,
}
use wireline.Base.Bytes.{Bytes}
use wireline.Codec.{Crypto}
use wireline.Messages.{Json}
use wireline.Udp.Server.{UdpServer, Fresh, on_datagram}

pub record LossyLink : Type 0 where
  pub dropped : ℕ

-- One call of the wrapped `sendto`: the first argument is `rng.random() < loss_rate`, the result is
-- the datagram that `inner` is called with.
unfoldable pub sendto : Bool → Bytes → LossyLink → LossyLink × Option Bytes
sendto true datagram link = (record link { dropped = link.dropped + 1 }, none)
sendto false datagram link = (link, some datagram)

-- A server with the link in front of its `_sendto`, and the link of the client.
pub record Network : Type 0 where
  pub server : UdpServer
  pub up : LossyLink
  pub down : LossyLink

-- What the other side gets of one call.
unfoldable pub received : LossyLink × Option Bytes → LossyLink × List Bytes
received (link, none) = (link, [])
received (link, some arrived) = (link, arrived ∷ [])

-- What the server gave to `_sendto` for one datagram, at most one datagram, behind its link.
unfoldable pub pass : Bool → List (ℕ × Bytes) → LossyLink → LossyLink × List Bytes
unfolding sendto received
pass lost [] link = (link, [])
pass lost ((addr, datagram) ∷ _) link = received (sendto lost datagram link)

module _ (crypto : Crypto) (json : Json) (addr : ℕ) where
  -- The server handles the datagram, if it arrives; the result is what comes back to the client.
  unfoldable pub serve : Bool → LossyLink × Option Bytes → Fresh → Network → Network × List Bytes
  unfolding pass
  serve lost (up, none) fresh n = (record n { up = up }, [])
  serve lost (up, some raw) fresh n =
      let u' = (on_datagram crypto json raw addr fresh n.server).0 in
      let (down, arrivals) = pass lost (drop (length n.server.sent) u'.sent) n.down in
      (record { server = u'; up = up; down = down }, arrivals)

  -- One attempt: whether the link of the client and that of the server drop what they are given.
  unfoldable pub round : Bool × Bool → Bytes → Fresh → Network → Network × List Bytes
  unfolding serve sendto
  round (request_lost, reply_lost) raw fresh n =
      serve reply_lost (sendto request_lost raw n.up) fresh n

  -- The attempts from a number on, each with its datagram, and what arrives within each timeout.
  unfoldable pub rounds :
      List (Bool × Bool) → (ℕ → Bytes) → (ℕ → Fresh) → ℕ → Network → Network × List (List Bytes)
  unfolding round
  rounds [] raws fresh attempt n = (n, [])
  rounds (draw ∷ draws) raws fresh attempt n =
      let (n', arrivals) = round draw (raws attempt) (fresh attempt) n in
      let (n'', later) = rounds draws raws fresh (suc attempt) n' in (n'', arrivals ∷ later)

-- At least one of the two links drops its datagram.
abbrev pub IsLost : Bool × Bool → Type 0
IsLost draw = (draw.0 || draw.1) ≡ true
