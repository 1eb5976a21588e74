-- ===== src/Udp/Link/Rounds.antt =====
-- The network of src/wireline/transport/udp.py over several attempts, of which the links drop some.
use wireline.Udp.Link.{rounds, received, pass, sendto, serve, round, IsLost, Network}
use wireline.Base.{
  All, refl, true, false, arith, length, drop, drop-append, ℕ, zero, suc, ◌+◌, Bool, ◌≡◌, ap, ◌∙◌,
  sym, List, [], ◌∷◌, ◌++◌, subst, if◌then◌else◌,
}
use wireline.Base.Bytes.{Bytes}
use wireline.Codec.{Crypto, IsDigest}
use wireline.Messages.{Json}
use wireline.Udp.Server.{Peer, UdpServer, Fresh, on_datagram}
use wireline.Udp.Link.Served.{
  Awaits, Served, raw_of, first_lem, later_lem, sends, first_delivery, later_delivery,
}

-- How many requests get through the link of the client.
unfoldable pub deliveries : List (Bool × Bool) → ℕ
deliveries [] = 0
deliveries (draw ∷ draws) = (if draw.0 then 0 else 1) + deliveries draws

-- No datagram within each of the timeouts
unfoldable pub silences : List (Bool × Bool) → List (List Bytes)
silences [] = []
silences (draw ∷ draws) = [] ∷ silences draws

module _ (crypto : Crypto) (json : Json) (d : IsDigest crypto) (addr seq : ℕ) (payload : Bytes)
    (p : Peer) (reply_raw : Bytes) (u : UdpServer) where
  -- The server after `k` copies of the request: nothing has happened, or one execution and replays.
  abbrev pub Delivered : ℕ → UdpServer → Type 0
  Delivered zero u' = u' ≡ u
  Delivered (suc n) u' = Served crypto json d addr seq payload p reply_raw u n u'

  abbrev pub raws : ℕ → Bytes
  raws = raw_of crypto json d addr seq payload p reply_raw u

  module _ (a : Awaits crypto json d addr seq payload p reply_raw u) (fresh : ℕ → Fresh) where
    delivery :
        (k attempt : ℕ) (u' : UdpServer)
        → Delivered k u'
        → Served crypto json d addr seq payload p reply_raw u k
            (on_datagram crypto json (raws attempt) addr (fresh attempt) u').0
          × ((on_datagram crypto json (raws attempt) addr (fresh attempt) u').0.sent
              ≡ u'.sent ++ (addr, reply_raw) ∷ [])
    delivery zero attempt u' h = (
      subst
          (λ u'.
            Served crypto json d addr seq payload p reply_raw u 0
              (on_datagram crypto json (raws attempt) addr (fresh attempt) u').0)
          (sym h)
          (first_delivery crypto json d addr seq payload p reply_raw u a attempt (fresh attempt)),
      rw h (
          ap (λ o. o.0.sent)
            (first_lem crypto json d addr seq payload p reply_raw u a attempt (fresh attempt))
          ∙ sends crypto json d addr seq payload p reply_raw u a attempt (fresh attempt) u.sent),
    )
    delivery (suc n) attempt u' h = (
      later_delivery crypto json d addr seq payload p reply_raw u a attempt (fresh attempt) n u' h,
      ap (λ o. o.0.sent)
          (later_lem crypto json d addr seq payload p reply_raw u a attempt (fresh attempt) n u' h),
    )

    new_sent :
        (k attempt : ℕ) (u' : UdpServer)
        → Delivered k u'
        → drop
            (length u'.sent)
            (on_datagram crypto json (raws attempt) addr (fresh attempt) u').0.sent
          ≡ (addr, reply_raw) ∷ []
    new_sent k attempt u' h =
        ap (drop (length u'.sent)) (delivery k attempt u' h).1
        ∙ drop-append (length u'.sent) u'.sent ((addr, reply_raw) ∷ []) refl

    abbrev pub drops : Network → ℕ
    drops n = n.up.dropped + n.down.dropped

    lost_round :
        (draw : Bool × Bool) (k attempt : ℕ) (n : Network)
        → IsLost draw
        → Delivered k n.server
        → Delivered
            (k + deliveries (draw ∷ []))
            (round crypto json addr draw (raws attempt) (fresh attempt) n).0.server
          × (drops (round crypto json addr draw (raws attempt) (fresh attempt) n).0 ≡ drops n + 1)
          × ((round crypto json addr draw (raws attempt) (fresh attempt) n).1 ≡ [])
    unfolding round serve sendto pass received deliveries
    lost_round (true, _) k attempt n lost h =
        (subst (λ m. Delivered m n.server) (omega arith) h, omega arith, refl)
    lost_round (false, true) k attempt n lost h = rw (new_sent k attempt n.server h) (
      subst
          (λ m.
            Delivered m (on_datagram crypto json (raws attempt) addr (fresh attempt) n.server).0)
          {x = suc k} (omega arith) (delivery k attempt n.server h).0,
      omega arith,
      refl,
    )
    lost_round (false, false) k attempt n lost h = cc

    pub answered_round :
        (k attempt : ℕ) (n : Network)
        → Delivered k n.server
        → Served crypto json d addr seq payload p reply_raw u k
            (round crypto json addr (false, false) (raws attempt) (fresh attempt) n).0.server
          × (drops (round crypto json addr (false, false) (raws attempt) (fresh attempt) n).0
              ≡ drops n)
          × ((round crypto json addr (false, false) (raws attempt) (fresh attempt) n).1
              ≡ reply_raw ∷ [])
    unfolding round serve sendto pass received
    answered_round k attempt n h =
        rw (new_sent k attempt n.server h) ((delivery k attempt n.server h).0, refl, refl)

    zeroth : (attempt : ℕ) → attempt + 0 ≡ attempt
    zeroth attempt = omega arith

    next_attempt : (attempt n : ℕ) → suc attempt + n ≡ attempt + suc n
    next_attempt attempt n = omega arith

    -- Rounds that are lost, and the network that the rounds behind them start from
    abbrev pub AfterLosses :
        ℕ → ℕ → List (Bool × Bool) → List (Bool × Bool) → Network → Network → Type 0
    AfterLosses k attempt losses draws n n' =
        Delivered (k + deliveries losses) n'.server
        × (drops n' ≡ drops n + length losses)
        × (rounds crypto json addr (losses ++ draws) raws fresh attempt n ≡ (
          (rounds crypto json addr draws raws fresh (attempt + length losses) n').0,
          silences losses
              ++ (rounds crypto json addr draws raws fresh (attempt + length losses) n').1,
        ))

    pub lost_rounds :
        (losses draws : List (Bool × Bool)) (k attempt : ℕ) (n : Network)
        → All IsLost losses
        → Delivered k n.server
        → (n' : Network) × AfterLosses k attempt losses draws n n'
    unfolding rounds silences deliveries
    lost_rounds [] draws k attempt n lost h = (
      n,
      (
        subst (λ m. Delivered m n.server) {x = k} (omega arith) h,
        omega arith,
        rw (zeroth attempt) refl,
      ),
    )
    lost_rounds (draw ∷ losses) draws k attempt n lost h =
        let (h', dropped, silent) = lost_round draw k attempt n lost.0 h in
        let (n', (h'', dropped', e)) =
          lost_rounds losses draws (k + deliveries (draw ∷ [])) (suc attempt)
            (round crypto json addr draw (raws attempt) (fresh attempt) n).0 lost.1 h' in
        (
          n',
          (
            subst (λ m. Delivered m n'.server) {x = k + deliveries (draw ∷ []) + deliveries losses}
                (omega arith) h'',
            omega arith,
            rw (silent, e, next_attempt attempt (length losses)) refl,
          ),
        )
