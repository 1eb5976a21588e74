-- ===== src/Udp/Link/Retries.antt =====
-- `UdpClient.request` (src/wireline/transport/udp.py) while no datagram arrives.
use wireline.Udp.Link.Rounds.{silences}
use wireline.Base.{
  append-nil, append_assoc, refl, ◌∙◌, Bool, arith, length, ℕ, zero, suc, ◌+◌, ◌≡◌, ap, sym, List,
  [], ◌∷◌, ◌++◌,
}
use wireline.Base.Bytes.{Bytes}
use wireline.Errors.{ok}
use wireline.Codec.{Crypto, MsgType, encode}
use wireline.Messages.{Json}
use wireline.Udp.Client.{await_reply}
use wireline.Udp.Client.Requests.{
  UdpClient, attempts, attempt_once, transmit, conclude_wait, flags_of, arrived, to_come,
}

transmit_fields :
    (attempt : ℕ) (raw : Bytes) (c : UdpClient)
    → ((transmit attempt raw c).secret ≡ c.secret)
      × ((transmit attempt raw c).queue ≡ c.queue)
      × ((transmit attempt raw c).sent ≡ c.sent ++ raw ∷ [])
      × ((transmit attempt raw c).max_retries ≡ c.max_retries)
unfolding transmit
transmit_fields zero raw c = (refl, refl, refl, refl)
transmit_fields (suc attempt) raw c = (refl, refl, refl, refl)

pub transmit-quiet :
    (attempt : ℕ) (raw : Bytes) (c : UdpClient)
    → c.queue ≡ []
    → record (transmit attempt raw c) { queue = [] } ≡ transmit attempt raw c
unfolding transmit
transmit-quiet zero raw c quiet =
    ap (λ q. record c { queue = q; sent = c.sent ++ raw ∷ [] }) (sym quiet)
transmit-quiet (suc attempt) raw c quiet =
    ap (λ q. record c { queue = q; sent = c.sent ++ raw ∷ []; retransmits = c.retransmits + 1 })
      (sym quiet)

module _ (raws : ℕ → Bytes) where
  -- The client after `n` attempts, the first of them with the number `attempt`.
  unfoldable pub retried : ℕ → ℕ → UdpClient → UdpClient
  unfolding transmit
  retried zero attempt c = c
  retried (suc n) attempt c = retried n (suc attempt) (transmit attempt (raws attempt) c)

  -- The datagrams of `n` attempts
  unfoldable pub datagrams : ℕ → ℕ → List Bytes
  datagrams zero attempt = []
  datagrams (suc n) attempt = raws attempt ∷ datagrams n (suc attempt)

  module _ (crypto : Crypto) (json : Json) (msg_type : MsgType) (payload : Bytes) (seq : ℕ)
      (secret : Bytes)
      (encoded : (attempt : ℕ)
        → encode crypto
            (record { msg_type = msg_type; seq = seq; payload = payload; flags = flags_of attempt })
            secret
          ≡ ok (raws attempt)) where
    silent_attempt :
        (left attempt : ℕ) (later : List (List Bytes)) (c : UdpClient)
        → c.secret ≡ secret
        → c.queue ≡ []
        → attempts crypto json (suc left) attempt msg_type payload seq ([] ∷ later) c
          ≡ attempts crypto json left
              (suc attempt)
              msg_type
              payload
              seq
              later
              (transmit attempt (raws attempt) c)
    unfolding attempts attempt_once conclude_wait await_reply arrived to_come
    silent_attempt left attempt later c same quiet =
        rw (same, encoded attempt, quiet)
          (ap (λ c'. attempts crypto json left (suc attempt) msg_type payload seq later c')
            (transmit-quiet attempt (raws attempt) (record c { secret = secret; queue = [] }) refl))

    renumbered :
        (left left' attempt attempt' : ℕ) (later : List (List Bytes)) (c : UdpClient)
        → left ≡ left'
        → attempt ≡ attempt'
        → attempts crypto json left attempt msg_type payload seq later c
          ≡ attempts crypto json left' attempt' msg_type payload seq later c
    renumbered left left' attempt attempt' later c h h' = rw (h, h') refl

    -- Attempts during which nothing arrives lead to the attempt behind them.
    pub silent_attempts :
        (draws : List (Bool × Bool)) (left attempt : ℕ) (later : List (List Bytes)) (c : UdpClient)
        → c.secret ≡ secret
        → c.queue ≡ []
        → attempts crypto json
            (length draws + left)
            attempt
            msg_type
            payload
            seq
            (silences draws ++ later)
            c
          ≡ attempts crypto json left
              (attempt + length draws)
              msg_type
              payload
              seq
              later
              (retried (length draws) attempt c)
    unfolding retried silences
    silent_attempts [] left attempt later c same quiet =
        renumbered (0 + left) left attempt (attempt + 0) later c (omega arith) (omega arith)
    silent_attempts (draw ∷ draws) left attempt later c same quiet =
        renumbered (suc (length draws) + left) (suc (length draws + left)) attempt attempt _ c
          (omega arith) refl
        ∙ silent_attempt (length draws + left) attempt (silences draws ++ later) c same quiet
        ∙ silent_attempts draws left (suc attempt) later (transmit attempt (raws attempt) c)
            ((transmit_fields attempt (raws attempt) c).0 ∙ same)
            ((transmit_fields attempt (raws attempt) c).1 ∙ quiet)
        ∙ renumbered left left (suc attempt + length draws) (attempt + suc (length draws)) later _
            refl (omega arith)

  pub retried_fields :
      (n attempt : ℕ) (c : UdpClient)
      → ((retried n attempt c).secret ≡ c.secret)
        × ((retried n attempt c).queue ≡ c.queue)
        × ((retried n attempt c).sent ≡ c.sent ++ datagrams n attempt)
        × ((retried n attempt c).max_retries ≡ c.max_retries)
  unfolding retried datagrams transmit
  retried_fields zero attempt c = (refl, refl, sym (append-nil c.sent), refl)
  retried_fields (suc n) attempt c =
      let (same, quiet, sent, limit) = transmit_fields attempt (raws attempt) c in
      let (same', quiet', sent', limit') =
        retried_fields n (suc attempt) (transmit attempt (raws attempt) c) in
      (
        same' ∙ same,
        quiet' ∙ quiet,
        sent'
            ∙ ap (λ l. l ++ datagrams n (suc attempt)) sent
            ∙ append_assoc c.sent (raws attempt ∷ []) (datagrams n (suc attempt)),
        limit' ∙ limit,
      )

  retried-later :
      (n attempt : ℕ) (c : UdpClient) → (retried n (suc attempt) c).retransmits ≡ c.retransmits + n
  unfolding retried transmit
  retried-later zero attempt c = omega arith
  retried-later (suc n) attempt c =
      retried-later n (suc attempt) (transmit (suc attempt) (raws (suc attempt)) c) ∙ omega arith

  pub retried-retransmits :
      (n : ℕ) (c : UdpClient) → (retried (suc n) 0 c).retransmits ≡ c.retransmits + n
  unfolding retried transmit
  retried-retransmits n c = retried-later n 0 (transmit 0 (raws 0) c)

  -- One attempt more
  pub retried_snoc :
      (n attempt : ℕ) (c : UdpClient)
      → transmit (attempt + n) (raws (attempt + n)) (retried n attempt c)
        ≡ retried (suc n) attempt c
  unfolding retried
  retried_snoc zero attempt c = ap (λ m. transmit m (raws m) c) (omega arith)
  retried_snoc (suc n) attempt c =
      ap (λ m. transmit m (raws m) (retried n (suc attempt) (transmit attempt (raws attempt) c)))
        (omega arith)
      ∙ retried_snoc n (suc attempt) (transmit attempt (raws attempt) c)

  pub retried_open :
      (n attempt : ℕ) (c : UdpClient)
      → ((retried n attempt c).is_open ≡ c.is_open) × ((retried n attempt c).out_seq ≡ c.out_seq)
  unfolding retried transmit
  retried_open zero attempt c = (refl, refl)
  retried_open (suc n) zero c = retried_open n 1 (transmit 0 (raws 0) c)
  retried_open (suc n) (suc attempt) c =
      retried_open n (suc (suc attempt)) (transmit (suc attempt) (raws (suc attempt)) c)
