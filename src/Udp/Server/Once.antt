-- ===== src/Udp/Server/Once.antt =====
-- What `UdpServer._on_datagram` (src/wireline/transport/udp.py) does with forged datagrams and with
-- retransmissions.
use mathlib.Core.Path.{subst}
use wireline.Base.{
  arith, All, some-injective, Bool, true, false, ◌++◌, if◌then◌else◌, ℕ, ◌+◌, ◌<◌, ◌≡◌, ◌≢◌, refl,
  ap, ◌∙◌, sym, Option, none, some, List,
}
use wireline.Base.Bytes.{IsByte, Bytes}
use wireline.Errors.{
  incomplete_read, timeout, other_error, RaisesProtocolErrors, Result, ok, raise, protocol_error,
}
use wireline.Codec.{Crypto, Frame, decode, encode}
use wireline.Codec.Keys.{decode_raises}
use wireline.Codec.RoundTrip.{encode-decode}
use wireline.Messages.{Json}
use wireline.Session.{Reaction}
use wireline.Udp.Window.{get, put}
use wireline.Udp.Server.{
  delete_peer, peer_or_new, Peer, UdpServer, Fresh, find_peer, set_peer, on_datagram, send,
  conclude, after_frame, execute, answer, on_decoded, replay, encode_all,
}
use wireline.Udp.Server.Peers.{
  get-put_self, find_peer-set_peer, set_peer-find_peer, find_peer-delete_peer,
}

abbrev Outcome : Type 0
Outcome = UdpServer × Result (Unit {0})

-- A peer that is there after a datagram has the reply in its window that was sent.
abbrev Answered : ℕ → ℕ → List (ℕ × Bytes) → Outcome → Peer → Type 0
Answered addr seq sent o q =
    o.1 ≡ ok tt
    → find_peer addr o.0.peers ≡ some q
    → 0 < q.dedup.size
    → (bytes : Bytes) × (get seq q.dedup ≡ some bytes) × (o.0.sent ≡ send addr bytes sent)

conclude-Answered :
    (addr seq : ℕ) (p q : Peer) (reaction : Reaction) (r : Result Bytes) (u : UdpServer)
    → Answered addr seq u.sent (conclude addr seq p reaction r u) q
unfolding conclude put
conclude-Answered addr seq p q reaction (raise e) u returns there room = cc
conclude-Answered addr seq p q reaction (ok bytes) u returns there room = kept reaction.close there
  where
    kept :
        (closes : Bool)
        → find_peer addr (
            if closes
            then delete_peer addr u.peers
            else set_peer addr (record p { dedup = put seq bytes p.dedup }) u.peers)
          ≡ some q
        → (b : Bytes) × (get seq q.dedup ≡ some b) × (send addr bytes u.sent ≡ send addr b u.sent)
    kept true h = absurd (ground (arith, h, find_peer-delete_peer addr u.peers))
    kept false h =
        let e = some-injective _ _ (
          sym (find_peer-set_peer addr (record p { dedup = put seq bytes p.dedup }) u.peers) ∙ h) in
        (
          bytes,
          ap (λ x. get seq x.dedup) (sym e)
              ∙ get-put_self seq bytes p.dedup (subst (λ x. 0 < x.dedup.size) (sym e) room),
          refl,
        )

module _ (crypto : Crypto) (json : Json) where
  after_frame-Answered :
      (addr seq : ℕ) (acks : List Frame) (p q : Peer) (r : Result Reaction) (u : UdpServer)
      → Answered addr seq u.sent (after_frame crypto json addr seq acks p r u) q
  unfolding after_frame
  after_frame-Answered addr seq acks p q (raise e) u returns there room = cc
  after_frame-Answered addr seq acks p q (ok reaction) u returns there room =
      conclude-Answered addr seq p q reaction
        (encode_all crypto json (acks ++ reaction.frames) u.secret)
        (record u { handled = u.handled + 1 }) returns there room

  answer-Answered :
      (cached : Option Bytes) (f : Frame) (addr : ℕ) (fresh : Fresh) (p q : Peer) (u : UdpServer)
      → get f.seq p.dedup ≡ cached
      → find_peer addr u.peers ≡ some p
      → Answered addr f.seq u.sent (answer crypto json cached f addr fresh p u) q
  unfolding answer execute replay
  answer-Answered none f addr fresh p q u kept here returns there room =
      after_frame-Answered addr f.seq _ _ q _ _ returns there room
  answer-Answered (some cached) f addr fresh p q u kept here returns there room =
      (cached, ap (λ x. get f.seq x.dedup) (some-injective _ _ (sym there ∙ here)) ∙ kept, refl)

  on_decoded-Answered :
      (f : Frame) (addr : ℕ) (fresh : Fresh) (q : Peer) (u : UdpServer)
      → Answered addr f.seq u.sent (on_decoded crypto json (ok f) addr fresh u) q
  unfolding on_decoded
  on_decoded-Answered f addr fresh q u =
      answer-Answered _ f addr fresh _ q _ refl (find_peer-set_peer addr _ u.peers)

  pub on_decoded-replays :
      (f g : Frame) (addr : ℕ) (fresh : Fresh) (q : Peer) (u : UdpServer) (bytes : Bytes)
      → find_peer addr u.peers ≡ some q
      → get g.seq q.dedup ≡ some bytes
      → on_decoded crypto json (ok g) addr fresh u ≡ replay addr bytes u
  unfolding on_decoded answer replay peer_or_new
  on_decoded-replays f g addr fresh q u bytes there kept =
      rw (there, kept, set_peer-find_peer addr q u.peers there) refl

  -- Whatever is handled, the peer that is left after a datagram remembers the reply that was sent
  -- for it, as long as its window has room.
  remembered :
      (raw : Bytes) (addr : ℕ) (fresh : Fresh) (f : Frame) (u u' : UdpServer) (p : Peer)
      → decode crypto raw (some u.secret) ≡ ok f
      → on_datagram crypto json raw addr fresh u ≡ (u', ok tt)
      → find_peer addr u'.peers ≡ some p
      → 0 < p.dedup.size
      → (bytes : Bytes) × (get f.seq p.dedup ≡ some bytes) × (u'.sent ≡ send addr bytes u.sent)
  unfolding on_datagram
  remembered raw addr fresh f u u' p decodes answers there room =
      let e = ap (λ r. on_decoded crypto json r addr fresh u) (sym decodes) ∙ answers in
      let (bytes, kept, sent) =
        on_decoded-Answered f addr fresh p u (ap (λ o. o.1) e)
          (ap (λ (o : Outcome). find_peer addr o.0.peers) e ∙ there) room in
      (bytes, kept, sym (ap (λ (o : Outcome). o.0.sent) e) ∙ sent)

  -- Exactly once: when a datagram was handled without an exception, and the sender is still a peer
  -- whose window has room, then a datagram with the same sequence number that comes next from there
  -- only counts as a duplicate, and the bytes that were sent for the first one are sent again: no
  -- session is given the frame, and no peer changes.
  pub retransmission :
      (raw later : Bytes) (addr : ℕ) (fresh fresh' : Fresh) (f g : Frame) (u u' : UdpServer)
      (p : Peer)
      → decode crypto raw (some u.secret) ≡ ok f
      → on_datagram crypto json raw addr fresh u ≡ (u', ok tt)
      → find_peer addr u'.peers ≡ some p
      → 0 < p.dedup.size
      → decode crypto later (some u'.secret) ≡ ok g
      → g.seq ≡ f.seq
      → (bytes : Bytes) × (u'.sent ≡ send addr bytes u.sent)
        × (on_datagram crypto json later addr fresh' u'
            ≡ (record u' { duplicates = u'.duplicates + 1; sent = send addr bytes u'.sent }, ok tt))
  unfolding on_datagram replay
  retransmission raw later addr fresh fresh' f g u u' p decodes answers there room again same =
      let (bytes, kept, sent) = remembered raw addr fresh f u u' p decodes answers there room in
      (
        bytes,
        sent,
        ap (λ r. on_decoded crypto json r addr fresh' u') again
            ∙ on_decoded-replays f g addr fresh' p u' bytes there
                (ap (λ n. get n p.dedup) same ∙ kept),
      )

  -- A datagram that is not the encoding of a frame under the server's key changes nothing, and
  -- nothing is sent.
  pub forged_ignored :
      (raw : Bytes) (addr : ℕ) (fresh : Fresh) (u : UdpServer)
      → All IsByte raw
      → ((f : Frame) → encode crypto f u.secret ≢ ok raw)
      → on_datagram crypto json raw addr fresh u ≡ (u, ok tt)
  unfolding on_datagram on_decoded
  forged_ignored raw addr fresh u bytes forged =
      ignored (decode crypto raw (some u.secret))
        (λ f e. forged f (encode-decode crypto f u.secret raw bytes e))
        (decode_raises crypto raw (some u.secret))
    where
      ignored :
          (r : Result Frame)
          → ((f : Frame) → r ≢ ok f)
          → RaisesProtocolErrors r
          → on_decoded crypto json r addr fresh u ≡ (u, ok tt)
      ignored (ok f) n h = absurd (n f refl)
      ignored (raise (protocol_error e)) n h = refl
      ignored (raise incomplete_read) n h = absurd h
      ignored (raise timeout) n h = absurd h
      ignored (raise other_error) n h = absurd h
