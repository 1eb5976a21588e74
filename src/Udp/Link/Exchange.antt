-- ===== src/Udp/Link/Exchange.antt =====
-- `UdpClient.send_data` against a `UdpServer` that knows the client, over links that drop datagrams
-- (src/wireline/transport/udp.py).
use wireline.Base.{
  ℕ, suc, ◌+◌, ◌%◌, ◌^◌, Bool, true, ◌≡◌, refl, ap, ◌∙◌, sym, some, List, [], ◌∷◌, ◌++◌, arith,
  length, append-nil,
}
use wireline.Base.Bytes.{Bytes}
use wireline.Errors.{ok, fail, err_timeout}
use wireline.Codec.{Crypto, IsDigest, data_msg, encode}
use wireline.Codec.Encoding.{encode-IsEncodable}
use wireline.Messages.{Json, ReadsBack, ack_object}
use wireline.Udp.Server.{Peer, UdpServer}
use wireline.Udp.Client.{await_reply, reply_of, is_error, last_frame}
use wireline.Udp.Client.Answers.{await_reply-encode_all}
use wireline.Udp.Client.Requests.{
  UdpClient, attempts, attempt_once, conclude_wait, flags_of, arrived, to_come, no_reply, request,
  transmit,
}
use wireline.Udp.Link.Delivery.{echoing}
use wireline.Udp.Link.Served.{Awaits, request_frame-IsEncodable}
use wireline.Udp.Link.Rounds.{raws, silences}
use wireline.Udp.Link.Retries.{
  retried, silent_attempts, retried_fields, retried_snoc, transmit-quiet,
}

module _ (crypto : Crypto) (json : Json) (d : IsDigest crypto) (addr : ℕ) (payload : Bytes)
    (p : Peer) (reply_raw : Bytes) (u : UdpServer) (c : UdpClient) where
  -- A connected client without queued datagrams, whose number the server has not seen, and a server
  -- with the same secret.
  pub record Connected : Type 0 where
    pub same_secret : c.secret ≡ u.secret
    pub is_open : c.is_open ≡ true
    pub quiet : c.queue ≡ []
    pub awaits : Awaits crypto json d addr c.out_seq payload p reply_raw u
    pub ack_known : ReadsBack json (ack_object c.out_seq)

  abbrev pub wires : ℕ → Bytes
  wires = raws crypto json d addr c.out_seq payload p reply_raw u

  abbrev pub numbered : UdpClient
  numbered = record c { out_seq = (c.out_seq + 1) % 2 ^ 32 }

  module _ (h : Connected) where
    encoded :
        (attempt : ℕ)
        → encode crypto
            (record {
              msg_type = data_msg;
              seq = c.out_seq;
              payload = payload;
              flags = flags_of attempt;
            })
            u.secret
          ≡ ok (wires attempt)
    encoded attempt = encode-IsEncodable crypto _ u.secret (
        request_frame-IsEncodable crypto json d addr c.out_seq payload p reply_raw u h.awaits.fits
          h.awaits.in_range attempt)

    found :
        await_reply crypto json u.secret c.out_seq (reply_raw ∷ [])
        ≡ (some (ok (echoing crypto json addr c.out_seq payload p.session)), [])
    unfolding reply_of is_error last_frame
    found =
        await_reply-encode_all crypto json u.secret d c.out_seq [] [] _ _ reply_raw tt h.ack_known
          refl refl h.awaits.answered

    answered_attempt :
        (left attempt : ℕ) (c' : UdpClient)
        → c'.secret ≡ u.secret
        → c'.queue ≡ []
        → attempts crypto json
            (suc left)
            attempt
            data_msg
            payload
            c.out_seq
            ((reply_raw ∷ []) ∷ [])
            c'
          ≡ (
            transmit attempt (wires attempt) c',
            ok (echoing crypto json addr c.out_seq payload p.session),
          )
    unfolding attempts attempt_once conclude_wait arrived to_come
    answered_attempt left attempt c' same quiet =
        rw (same, encoded attempt, quiet, found)
          (ap (λ x. (x, ok (echoing crypto json addr c.out_seq payload p.session)))
            (transmit-quiet attempt (wires attempt) (record c' { secret = u.secret; queue = [] })
              refl))

    opened :
        (arrivals : List (List Bytes))
        → request crypto json data_msg payload arrivals c
          ≡ attempts crypto json (c.max_retries + 1) 0 data_msg payload c.out_seq arrivals numbered
    unfolding request
    opened arrivals = rw h.is_open refl

    -- The client after `n` lost attempts and one that is answered
    pub request_lem :
        (losses : List (Bool × Bool)) (left : ℕ)
        → c.max_retries + 1 ≡ length losses + suc left
        → request crypto json data_msg payload (silences losses ++ (reply_raw ∷ []) ∷ []) c ≡ (
          retried wires (suc (length losses)) 0 numbered,
          ok (echoing crypto json addr c.out_seq payload p.session),
        )
    request_lem losses left e =
        let (same, quiet, sent, limit) = retried_fields wires (length losses) 0 numbered in
        opened (silences losses ++ (reply_raw ∷ []) ∷ [])
        ∙ ap
            (λ n.
              attempts crypto json n 0 data_msg payload c.out_seq
                (silences losses ++ (reply_raw ∷ []) ∷ []) numbered)
            e
        ∙ silent_attempts wires crypto json data_msg payload c.out_seq u.secret encoded losses
            (suc left) 0 ((reply_raw ∷ []) ∷ []) numbered h.same_secret h.quiet
        ∙ answered_attempt left (0 + length losses) (retried wires (length losses) 0 numbered)
            (same ∙ h.same_secret) (quiet ∙ h.quiet)
        ∙ ap (λ x. (x, ok (echoing crypto json addr c.out_seq payload p.session)))
            (retried_snoc wires (length losses) 0 numbered)

    pub exhausted_lem :
        (losses : List (Bool × Bool))
        → length losses ≡ c.max_retries + 1
        → request crypto json data_msg payload (silences losses) c ≡ (
          retried wires (suc c.max_retries) 0 numbered,
          fail err_timeout (no_reply c.out_seq c.max_retries),
        )
    unfolding attempts
    exhausted_lem losses e =
        let (same, quiet, sent, limit) = retried_fields wires (length losses) 0 numbered in
        opened (silences losses)
        ∙ ap (λ n. attempts crypto json n 0 data_msg payload c.out_seq (silences losses) numbered)
            {x = c.max_retries + 1} {y = length losses + 0} (omega arith)
        ∙ ap (λ l. attempts crypto json (length losses + 0) 0 data_msg payload c.out_seq l numbered)
            (sym (append-nil (silences losses)))
        ∙ silent_attempts wires crypto json data_msg payload c.out_seq u.secret encoded losses 0 0
            [] numbered h.same_secret h.quiet
        ∙ ap
            (λ m.
              (retried wires (length losses) 0 numbered, fail err_timeout (no_reply c.out_seq m)))
            limit
        ∙ ap
            (λ n. (retried wires n 0 numbered, fail err_timeout (no_reply c.out_seq c.max_retries)))
            {x = length losses} {y = suc c.max_retries} (omega arith)
