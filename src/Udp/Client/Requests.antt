-- ===== src/Udp/Client/Requests.antt =====
-- `UdpClient.request` of src/wireline/transport/udp.py: one request in flight, sent again until it
-- is answered.
use mathlib.Core.Path.{subst}
use wireline.Base.{
  sym, ◌≤◌, ◌≡◌, refl, true, arith, length, length-append, ℕ, zero, suc, ◌+◌, ◌%◌, ◌^◌, Bool, not,
  Option, none, some, List, [], ◌∷◌, ◌++◌, if◌then◌else◌,
}
use wireline.Base.Text.{Text, codes, str_ℕ}
use wireline.Base.Bytes.{Bytes}
use wireline.Errors.{raise, Result, ok, fail, err_state, err_timeout}
use wireline.Codec.{Crypto, Frame, MsgType, encode}
use wireline.Messages.{Json}
use wireline.Session.{State}
use wireline.Udp.Client.{await_reply}

-- `sent` holds the datagrams that were given to `_sendto`; `is_open` says that there is one.
pub record UdpClient : Type 0 where
  pub secret : Bytes
  pub max_retries : ℕ
  pub is_open : Bool
  pub queue : List Bytes
  pub out_seq : ℕ
  pub retransmits : ℕ
  pub sent : List Bytes
  pub client_id : Text
  pub state : State
  pub session_id : Option Text

unfoldable not_connected : Text
not_connected = codes "client is not connected"

unfoldable pub no_reply : ℕ → ℕ → Text
no_reply seq max_retries =
    codes "no reply for seq "
    ++ (str_ℕ seq ++ (codes " after " ++ (str_ℕ max_retries ++ codes " retries")))

-- `FLAG_REQUIRE_ACK | (FLAG_RETRANSMIT if attempt else 0)`
unfoldable pub flags_of : ℕ → ℕ
flags_of zero = 1
flags_of (suc attempt) = 3

-- `_sendto(...)` and `if attempt: self.retransmits += 1`, once the frame is encoded
unfoldable pub transmit : ℕ → Bytes → UdpClient → UdpClient
transmit zero raw c = record c { sent = c.sent ++ raw ∷ [] }
transmit (suc attempt) raw c = record c {
  sent = c.sent ++ raw ∷ [];
  retransmits = c.retransmits + 1;
}

-- The datagrams that arrive before the timeout of this attempt, and those of the later ones.
unfoldable pub arrived : List (List Bytes) → List Bytes
arrived [] = []
arrived (ds ∷ _) = ds

unfoldable pub to_come : List (List Bytes) → List (List Bytes)
to_come [] = []
to_come (_ ∷ later) = later

-- How the wait of an attempt ends: with an outcome, or in a timeout and what follows it.
unfoldable pub conclude_wait :
    Option (Result Frame) × List Bytes
    → UdpClient
    → (UdpClient → UdpClient × Result Frame)
    → UdpClient × Result Frame
conclude_wait (none, queue) c again = again (record c { queue = queue })
conclude_wait (some r, queue) c again = (record c { queue = queue }, r)

module _ (crypto : Crypto) (json : Json) where
  unfoldable pub attempt_once :
      ℕ
      → ℕ
      → List Bytes
      → Result Bytes
      → UdpClient
      → (UdpClient → UdpClient × Result Frame)
      → UdpClient × Result Frame
  unfolding transmit conclude_wait
  attempt_once attempt seq datagrams (raise e) c again = (c, raise e)
  attempt_once attempt seq datagrams (ok raw) c again =
      conclude_wait (await_reply crypto json c.secret seq (c.queue ++ datagrams))
        (transmit attempt raw c) again

  -- `for attempt in range(...)`: `left` attempts from the number `attempt` on.
  unfoldable pub attempts :
      ℕ → ℕ → MsgType → Bytes → ℕ → List (List Bytes) → UdpClient → UdpClient × Result Frame
  unfolding attempt_once flags_of arrived to_come no_reply
  attempts zero attempt msg_type payload seq arrivals c =
      (c, fail err_timeout (no_reply seq c.max_retries))
  attempts (suc left) attempt msg_type payload seq arrivals c =
      attempt_once attempt seq (arrived arrivals)
        (encode crypto
          (record { msg_type = msg_type; seq = seq; payload = payload; flags = flags_of attempt })
          c.secret)
        c (attempts left (suc attempt) msg_type payload seq (to_come arrivals))

  -- `request`, with the datagrams that arrive within each timeout
  unfoldable pub request :
      MsgType → Bytes → List (List Bytes) → UdpClient → UdpClient × Result Frame
  unfolding attempts not_connected
  request msg_type payload arrivals c =
      if not c.is_open
      then (c, fail err_state not_connected)
      else attempts (c.max_retries + 1) 0 msg_type payload c.out_seq arrivals
          (record c { out_seq = (c.out_seq + 1) % 2 ^ 32 })

  -- At most `n` datagrams more than `c` has sent, and the number of the next request unchanged.
  abbrev Within : ℕ → UdpClient → UdpClient × Result Frame → Type 0
  Within n c o = (length o.0.sent ≤ length c.sent + n) × (o.0.out_seq ≡ c.out_seq)

  conclude_wait-Within :
      (n : ℕ) (c : UdpClient) (o : Option (Result Frame) × List Bytes)
      (again : UdpClient → UdpClient × Result Frame)
      → ((c' : UdpClient) → Within n c' (again c'))
      → Within n c (conclude_wait o c again)
  unfolding conclude_wait
  conclude_wait-Within n c (none, queue) again h = h (record c { queue = queue })
  conclude_wait-Within n c (some r, queue) again h = (omega arith, refl)

  transmit-Within :
      (n attempt : ℕ) (raw : Bytes) (c : UdpClient) (o : UdpClient × Result Frame)
      → Within n (transmit attempt raw c) o
      → Within (suc n) c o
  unfolding transmit
  transmit-Within n zero raw c o (l, e) = (omega (arith, l, length-append c.sent (raw ∷ [])), e)
  transmit-Within n (suc attempt) raw c o (l, e) =
      (omega (arith, l, length-append c.sent (raw ∷ [])), e)

  attempt_once-Within :
      (n attempt seq : ℕ) (datagrams : List Bytes) (r : Result Bytes) (c : UdpClient)
      (again : UdpClient → UdpClient × Result Frame)
      → ((c' : UdpClient) → Within n c' (again c'))
      → Within (suc n) c (attempt_once attempt seq datagrams r c again)
  unfolding attempt_once
  attempt_once-Within n attempt seq datagrams (raise e) c again h = (omega arith, refl)
  attempt_once-Within n attempt seq datagrams (ok raw) c again h =
      let o = await_reply crypto json c.secret seq (c.queue ++ datagrams) in
      transmit-Within n attempt raw c (conclude_wait o (transmit attempt raw c) again)
        (conclude_wait-Within n (transmit attempt raw c) o again h)

  attempts-Within :
      (left attempt : ℕ) (msg_type : MsgType) (payload : Bytes) (seq : ℕ)
      (arrivals : List (List Bytes)) (c : UdpClient)
      → Within left c (attempts left attempt msg_type payload seq arrivals c)
  unfolding attempts
  attempts-Within zero attempt msg_type payload seq arrivals c = (omega arith, refl)
  attempts-Within (suc left) attempt msg_type payload seq arrivals c =
      attempt_once-Within left attempt seq _ _ c _
        (attempts-Within left (suc attempt) msg_type payload seq (to_come arrivals))

  -- A request of a connected client sends at most one datagram more than the allowed retries,
  -- whatever arrives, and takes one sequence number, modulo 2 ^ 32, however it ends.
  pub request_bounded :
      (msg_type : MsgType) (payload : Bytes) (arrivals : List (List Bytes)) (c : UdpClient)
      → c.is_open ≡ true
      → (length (request msg_type payload arrivals c).0.sent ≤ length c.sent + (c.max_retries + 1))
        × ((request msg_type payload arrivals c).0.out_seq ≡ (c.out_seq + 1) % 2 ^ 32)
  unfolding request
  request_bounded msg_type payload arrivals c o =
      let c' : UdpClient = record c { out_seq = (c.out_seq + 1) % 2 ^ 32 } in
      let run = attempts (c.max_retries + 1) 0 msg_type payload c.out_seq arrivals c' in
      subst
        (λ b.
          Within (c.max_retries + 1) c' (if not b then (c, fail err_state not_connected) else run))
        (sym o) (attempts-Within (c.max_retries + 1) 0 msg_type payload c.out_seq arrivals c')
