-- ===== src/Client/Talks.antt =====
-- Whole conversations of a `WirelineClient` (src/wireline/client.py) with the connection of a
-- `WirelineServer` (src/wireline/server.py): the handshake, and DATA after it.
use wireline.Server.{Connection}
use wireline.Session.{ServerSession}
use wireline.Messages.{Json}
use wireline.Codec.{Crypto, IsDigest}
use wireline.Errors.{Result, ok}
use wireline.Base.Text.{Text}
use wireline.Base.Bytes.{Bytes}
use wireline.Base.{
  subst, ◌+◌, List, [], ◌∷◌, ◌++◌, ◌∙◌, append-nil, append_assoc, length, refl, arith, ◌≡◌, ◌^◌,
  ◌<◌, ◌≤◌, ap, sym, All, map,
}
use wireline.Client.{WirelineClient}
use wireline.Client.Pairing.{after_asking, asked_lem, served_lem, served, heard, asked, IsPaired}

module _ (crypto : Crypto) (secret : Bytes) (json : Json) (fresh : Text) where
  -- One payload after the other: what `send_data` returns, the bytes that the server reads, and the
  -- client in the end.
  unfoldable pub talk :
      List Bytes
      → WirelineClient
      → ServerSession
      → List (Result Bytes) × List Bytes × WirelineClient
  talk [] c s = ([], [], c)
  talk (p ∷ ps) c s =
      let (r, c') = asked crypto secret json fresh p c s in
      let (rs, hs, c'') = talk ps c' (served crypto secret json fresh p c s).session in
      (r ∷ rs, heard crypto secret json fresh p c ∷ hs, c'')

  abbrev pub Short : Bytes → Type 0
  Short p = length p ≤ 2 ^ 20

  -- Both ends go on paired, with one more frame numbered.
  abbrev Advanced : WirelineClient → ServerSession → WirelineClient → ServerSession → Type 0
  Advanced c s c' s' = IsPaired c' s' × (c'.out_seq ≡ c.out_seq + 1) × (s'.out_seq ≡ s.out_seq + 1)

  asked-Advanced :
      (d : IsDigest crypto) (p : Bytes) (c : WirelineClient) (s : ServerSession)
      → IsPaired c s
      → c.out_seq + 1 < 2 ^ 32
      → s.out_seq + 1 < 2 ^ 32
      → Short p
      → Advanced c s
          (asked crypto secret json fresh p c s).1
          (served crypto secret json fresh p c s).session
  asked-Advanced d p c s v h k l =
      let h' : c.out_seq < 2 ^ 32 = omega arith in
      let k' : s.out_seq < 2 ^ 32 = omega arith in
      subst (λ c'. Advanced c s c' (served crypto secret json fresh p c s).session)
        (ap (λ o. o.1) (sym (asked_lem crypto secret json fresh d p c s v h' k' l)))
        (subst (Advanced c s (after_asking crypto secret json fresh d p c s v h' k' l))
          (ap Connection.session (sym (served_lem crypto secret json fresh d p c s v h' k' l)))
          (
            record {
              client_ready = v.client_ready;
              connected = v.connected;
              server_ready = v.server_ready;
              client_ahead = omega arith;
              server_ahead = omega arith;
            },
            omega arith,
            omega arith,
          ))

  pub talk_echoes :
      IsDigest crypto
      → (ps : List Bytes) (c : WirelineClient) (s : ServerSession) → IsPaired c s
      → c.out_seq + length ps < 2 ^ 32
      → s.out_seq + length ps < 2 ^ 32
      → All Short ps
      → ((talk ps c s).0 ≡ map ok ps) × ((talk ps c s).2.written ≡ c.written ++ (talk ps c s).1)
  unfolding talk
  talk_echoes d [] c s v h k a = (refl, sym (append-nil c.written))
  talk_echoes d (p ∷ ps) c s v h k a =
      let (v', hc, hs) = asked-Advanced d p c s v (omega arith) (omega arith) a.0 in
      let q = asked_lem crypto secret json fresh d p c s v (omega arith) (omega arith) a.0 in
      let first = ap (λ o. o.0) q in
      let heard_later =
        (talk ps (asked crypto secret json fresh p c s).1
          (served crypto secret json fresh p c s).session).1 in
      let (rest, wrote) = talk_echoes d ps _ _ v' (omega arith) (omega arith) a.1 in
      (
        λ i. first i ∷ rest i,
        wrote
            ∙ ap (λ o. WirelineClient.written o.1 ++ heard_later) q
            ∙ append_assoc c.written (heard crypto secret json fresh p c ∷ []) heard_later,
      )
