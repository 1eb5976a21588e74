-- ===== src/Client/Replies.antt =====
-- What `WirelineClient` (src/wireline/client.py) accepts from its peer.
use wireline.Codec.{encode, Crypto, MsgType, Frame}
use wireline.Errors.{Result, ok, raise}
use wireline.Base.Int.{leb_ℤ, ◌<ℤ◌, ℤ, pos}
use wireline.Base.Bytes.{Bytes}
use wireline.Base.{ℕ, List, [], ◌∷◌, ◌++◌, inl, inr, refl, arith, Bool-cases, ◌≡◌}
use wireline.Client
use wireline.Client.{is_ready, and_then, WirelineClient, Step, Flushed, recv, request, send, write}

-- Frames whose numbers rise, from above a given one on.
pub data Ascending : ℤ → List Frame → ℤ → Type 0 where
  nothing : {n : ℤ} → Ascending n [] n
  accepted :
      {n m : ℤ} {f : Frame} {fs : List Frame}
      → n <ℤ pos f.seq
      → Ascending (pos f.seq) fs m
      → Ascending n (f ∷ fs) m

-- What a call of `request` is given.
pub record Call : Type 0 where
  pub msg_type : MsgType
  pub payload : Bytes
  pub flags : ℕ
  pub how : Flushed
  pub answer : Result Frame

unfoldable returned : Step Frame → List Frame
returned (raise e, c) = []
returned (ok f, c) = f ∷ []

module _ (crypto : Crypto) (secret : Bytes) where
  unfoldable pub call : Call → WirelineClient → Step Frame
  call r c = request crypto secret r.msg_type r.payload r.flags r.how r.answer c

  -- The frames that calls return, one call after the other, and the client after them.
  unfoldable pub calls : List Call → WirelineClient → List Frame × WirelineClient
  unfolding returned call
  calls [] c = ([], c)
  calls (r ∷ rs) c = let o = call r c in let (fs, c') = calls rs o.1 in (returned o ++ fs, c')

  write-last_peer_seq :
      (r : Result Bytes) (how : Flushed) (c : WirelineClient)
      → (write r how c).1.last_peer_seq ≡ c.last_peer_seq
  unfolding write
  write-last_peer_seq (raise e) how c = refl
  write-last_peer_seq (ok raw) Client.flushed c = refl
  write-last_peer_seq (ok raw) Client.lost c = refl
  write-last_peer_seq (ok raw) (Client.failed x) c = refl

  send-last_peer_seq :
      (t : MsgType) (p : Bytes) (flags : ℕ) (how : Flushed) (c : WirelineClient)
      → (send crypto secret t p flags how c).1.last_peer_seq ≡ c.last_peer_seq
  unfolding send
  send-last_peer_seq t p flags how c = elim (Bool-cases c.connected) [
    | inl e ↦ rw e (write-last_peer_seq (encode crypto _ secret) how _)
    | inr e ↦ rw e refl
  ]

  recv-Ascending :
      (o : Result Frame) (c : WirelineClient)
      → Ascending c.last_peer_seq (returned (recv o c)) (recv o c).1.last_peer_seq
  unfolding recv returned
  recv-Ascending (raise e) c = elim (Bool-cases c.connected) [
    | inl t ↦ rw t nothing
    | inr t ↦ rw t nothing
  ]
  recv-Ascending (ok f) c = elim (Bool-cases c.connected) [
    | inr t ↦ rw t nothing
    | inl t ↦ elim (Bool-cases (leb_ℤ (pos f.seq) c.last_peer_seq)) [
      | inl l ↦ rw (t, l) nothing
      | inr l ↦ rw (t, l) (accepted (ground (arith, l)) nothing)
    ]
  ]

  sent-Ascending :
      (n : ℤ) (o : Step (Unit {0})) (answer : Result Frame)
      → o.1.last_peer_seq ≡ n
      → Ascending n
          (returned (and_then o (λ _ c. recv answer c)))
          (and_then o (λ _ c. recv answer c)).1.last_peer_seq
  unfolding and_then returned
  sent-Ascending n (raise e, c) answer q = rw (← q) nothing
  sent-Ascending n (ok u, c) answer q = rw (← q) (recv-Ascending answer c)

  call-Ascending :
      (r : Call) (c : WirelineClient)
      → Ascending c.last_peer_seq (returned (call r c)) (call r c).1.last_peer_seq
  unfolding call request
  call-Ascending r c = elim (Bool-cases (is_ready c.state)) [
    | inl e ↦ rw e (
        sent-Ascending c.last_peer_seq _ r.answer
          (send-last_peer_seq r.msg_type r.payload r.flags r.how c))
    | inr e ↦ rw e (unfold returned in nothing)
  ]

  append-Ascending :
      {a b d : ℤ} {fs gs : List Frame}
      → Ascending a fs b
      → Ascending b gs d
      → Ascending a (fs ++ gs) d
  append-Ascending nothing k = k
  append-Ascending (accepted l h) k = accepted l (append-Ascending h k)

  -- The frames that requests return, one call after the other and however the calls end, have
  -- rising sequence numbers, from above the last number accepted before on; the last number
  -- accepted after them is that of the last of these frames.
  pub calls-Ascending :
      (rs : List Call) (c : WirelineClient)
      → Ascending c.last_peer_seq (calls rs c).0 (calls rs c).1.last_peer_seq
  unfolding calls
  calls-Ascending [] c = nothing
  calls-Ascending (r ∷ rs) c =
      append-Ascending (call-Ascending r c) (calls-Ascending rs (call r c).1)
