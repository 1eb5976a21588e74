-- ===== src/Udp/Link/Outcomes.antt =====
-- How `UdpClient.send_data` ends, and what the `UdpServer` has executed by then, when links drop
-- datagrams (src/wireline/transport/udp.py).
use wireline.Base.{
  ℕ, suc, ◌+◌, ◌-◌, ◌≤◌, Bool, false, ◌≡◌, refl, ap, ◌∙◌, List, [], ◌∷◌, ◌++◌, All, arith, length,
  subst,
}
use wireline.Base.Bytes.{Bytes}
use wireline.Errors.{Result, ok}
use wireline.Codec.{Crypto, IsDigest}
use wireline.Messages.{Json}
use wireline.Udp.Server.{Peer, UdpServer, Fresh}
use wireline.Udp.Client.Requests.{UdpClient}
use wireline.Udp.Client.Lifecycle.{send_data, payload_of}
use wireline.Udp.Link.{Network, LossyLink, rounds, IsLost}
use wireline.Udp.Link.Served.{Served}
use wireline.Udp.Link.Rounds.{deliveries, silences, lost_rounds, answered_round, Delivered}
use wireline.Udp.Link.Retries.{retried}
use wireline.Udp.Link.Exchange.{Connected, wires, numbered, request_lem}

module _ (crypto : Crypto) (json : Json) (d : IsDigest crypto) (addr : ℕ) (payload : Bytes)
    (p : Peer) (reply_raw : Bytes) (u : UdpServer) (c : UdpClient) (up down : LossyLink)
    (fresh : ℕ → Fresh) where
  abbrev pub network : Network
  network = record { server = u; up = up; down = down }

  -- The network after these draws of the two links, one pair for each attempt
  abbrev pub reached : List (Bool × Bool) → Network × List (List Bytes)
  reached draws =
      rounds crypto json addr draws (wires crypto json d addr payload p reply_raw u c) fresh 0
        network

  -- The client that reads what arrives in these rounds
  abbrev pub sending : List (Bool × Bool) → UdpClient × Result Bytes
  sending draws = send_data crypto json payload (reached draws).1 c

  abbrev pub dropped : Network → ℕ
  dropped n = n.up.dropped + n.down.dropped

  -- The draws of attempts that are lost and of one that is not
  abbrev pub then_through : List (Bool × Bool) → List (Bool × Bool)
  then_through losses = losses ++ (false, false) ∷ []

  -- The network after the attempt that got through
  abbrev pub Through : List (Bool × Bool) → Network → Type 0
  Through losses n =
      Served crypto json d addr c.out_seq payload p reply_raw u (deliveries losses) n.server
      × (dropped n ≡ dropped network + length losses)
      × (reached (then_through losses) ≡ (n, silences losses ++ (reply_raw ∷ []) ∷ []))

  module _ (h : Connected crypto json d addr payload p reply_raw u c) where
    pub through :
        (losses : List (Bool × Bool)) → All IsLost losses → (n : Network) × Through losses n
    unfolding rounds
    through losses lost =
        let (n', (k, gone, e)) =
          lost_rounds crypto json d addr c.out_seq payload p reply_raw u h.awaits fresh losses
            ((false, false) ∷ []) 0 0 network lost refl in
        let k' =
          subst (λ m. Delivered crypto json d addr c.out_seq payload p reply_raw u m n'.server)
            {x = 0 + deliveries losses} {y = deliveries losses} (omega arith) k in
        let (s, gone', arrives) =
          answered_round crypto json d addr c.out_seq payload p reply_raw u h.awaits fresh
            (deliveries losses) (0 + length losses) n' k' in
        let final : Network =
          (rounds crypto json addr ((false, false) ∷ [])
            (wires crypto json d addr payload p reply_raw u c) fresh (0 + length losses) n').0 in
        (final, (s, gone' ∙ gone, e ∙ ap (λ l. (final, silences losses ++ l ∷ [])) arrives))

    pub sending_lem :
        (losses : List (Bool × Bool)) (n : Network)
        → Through losses n
        → length losses ≤ c.max_retries
        → sending (then_through losses) ≡ (
          retried
              (wires crypto json d addr payload p reply_raw u c)
              (suc (length losses))
              0
              (numbered crypto json d addr payload p reply_raw u c),
          ok payload,
        )
    unfolding send_data payload_of
    sending_lem losses n t few =
        ap (λ l. send_data crypto json payload l c) (ap (λ o. o.1) t.2)
        ∙ ap payload_of (
            request_lem crypto json d addr payload p reply_raw u c h losses
              (c.max_retries - length losses) (omega arith))
