-- ===== src/Client/Invariant.antt =====
-- What holds of a `WirelineClient` (src/wireline/client.py) between its calls.
use wireline.Errors.{Result, ok, raise}
use wireline.Base.Int.{leb_ℤ, ℤ, pos}
use wireline.Base.Text.{Text}
use wireline.Base.Bytes.{Bytes}
use wireline.Base.{
  if_either, Bool, ℕ, ◌+◌, ◌%◌, List, inl, refl, arith, ◌≡◌, ◌≢◌, ◌⊎◌, ◌^◌, ◌<◌, none, true, false,
}
use wireline.Session.{new, ready, closing, closed}
use wireline.Codec.{encode, Frame, Crypto, MsgType}
use wireline.Client
use wireline.Client.{
  handshake, Flushed, new_client, WirelineClient, Step, recv, request, do_handshake, connect, close,
  say_bye, send, write, greeted, welcomed, rejected, and_then, is_ready,
}

-- A client that is READY has a connection and knows its session; one without a connection is NEW or
-- CLOSED; one is CLOSING only if a `wait_closed` has failed; and sequence numbers have 32 bits.
pub record IsValid (has_failed : Bool) (c : WirelineClient) : Type 0 where
  pub linked : c.state ≡ ready → c.connected ≡ true
  pub known : c.state ≡ ready → c.session_id ≢ none
  pub unconnected : c.connected ≡ false → (c.state ≡ new) ⊎ (c.state ≡ closed)
  pub resting : c.state ≡ closing → has_failed ≡ true
  pub bounded : c.out_seq < 2 ^ 32

pub new_client-IsValid : (client_id : Text) → IsValid false (new_client client_id)
new_client-IsValid client_id = record {
  linked = λ e. cc;
  known = λ e. cc;
  unconnected = λ e. inl refl;
  resting = λ e. cc;
  bounded = omega arith;
}

-- Valid, and with a connection.
abbrev pub IsLinked : Bool → WirelineClient → Type 0
IsLinked b c = IsValid b c × (c.connected ≡ true)

-- A failure that is allowed for and did not happen.
pub IsValid-weaken :
    (b b' : Bool) (c : WirelineClient) → (b ≡ true → b' ≡ true) → IsValid b c → IsValid b' c
IsValid-weaken b b' c k v = record {
  linked = v.linked;
  known = v.known;
  unconnected = v.unconnected;
  resting = λ e. k (v.resting e);
  bounded = v.bounded;
}

pub and_then_gives :
    {A B : Type 0} (P Q : WirelineClient → Type 0) (o : Step A) (next : A → WirelineClient → Step B)
    → P o.1
    → ((c : WirelineClient) → P c → Q c)
    → ((a : A) (c : WirelineClient) → P c → Q (next a c).1)
    → Q (and_then o next).1
unfolding and_then
and_then_gives P Q (raise e, c) next h w k = w c h
and_then_gives P Q (ok a, c) next h w k = k a c h

recv_keeps :
    (P : WirelineClient → Type 0) (o : Result Frame) (c : WirelineClient)
    → P c
    → ((n : ℤ) → P (record c { last_peer_seq = n }))
    → P (recv o c).1
unfolding recv
recv_keeps P (raise e) c h k =
    if_either {A = Step Frame} (λ o. P o.1) c.connected _ _ (λ _. h) (λ _. h)
recv_keeps P (ok f) c h k =
    if_either {A = Step Frame} (λ o. P o.1) c.connected _ _
      (λ _.
        if_either {A = Step Frame} (λ o. P o.1) (leb_ℤ (pos f.seq) c.last_peer_seq) _ _ (λ _. h)
          (λ _. k (pos f.seq)))
      (λ _. h)

write_keeps :
    (P : WirelineClient → Type 0) (r : Result Bytes) (how : Flushed) (c : WirelineClient)
    → P c
    → ((ws : List Bytes) → P (record c { written = ws }))
    → P (write r how c).1
unfolding write
write_keeps P (raise e) how c h k = h
write_keeps P (ok raw) Client.flushed c h k = k _
write_keeps P (ok raw) Client.lost c h k = k _
write_keeps P (ok raw) (Client.failed x) c h k = k _

module _ {b : Bool} where
  numbered-IsValid :
      (c : WirelineClient) (ws : List Bytes)
      → IsValid b c
      → IsValid b (record c { out_seq = (c.out_seq + 1) % 2 ^ 32; written = ws })
  numbered-IsValid c ws v = record {
    linked = v.linked;
    known = v.known;
    unconnected = v.unconnected;
    resting = v.resting;
    bounded = omega arith;
  }

  received-IsValid :
      (c : WirelineClient) (n : ℤ) → IsValid b c → IsValid b (record c { last_peer_seq = n })
  received-IsValid c n v = record {
    linked = v.linked;
    known = v.known;
    unconnected = v.unconnected;
    resting = v.resting;
    bounded = v.bounded;
  }

  pub recv-IsValid : (o : Result Frame) (c : WirelineClient) → IsValid b c → IsValid b (recv o c).1
  recv-IsValid o c v = recv_keeps (IsValid b) o c v (λ n. received-IsValid c n v)

  pub recv-IsLinked :
      (o : Result Frame) (c : WirelineClient) → IsLinked b c → IsLinked b (recv o c).1
  recv-IsLinked o c (v, t) = recv_keeps (IsLinked b) o c (v, t) (λ n. (received-IsValid c n v, t))

  module _ (crypto : Crypto) (secret : Bytes) where
    pub send-IsValid :
        (t : MsgType) (p : Bytes) (flags : ℕ) (how : Flushed) (c : WirelineClient)
        → IsValid b c
        → IsValid b (send crypto secret t p flags how c).1
    unfolding send
    send-IsValid t p flags how c v =
        if_either {A = Step (Unit {0})} (λ o. IsValid b o.1) c.connected _ _
          (λ _.
            write_keeps (IsValid b) (encode crypto _ secret) how _ (numbered-IsValid c c.written v)
              (λ ws. numbered-IsValid c ws v))
          (λ _. v)

    pub send-IsLinked :
        (t : MsgType) (p : Bytes) (flags : ℕ) (how : Flushed) (c : WirelineClient)
        → IsLinked b c
        → IsLinked b (send crypto secret t p flags how c).1
    unfolding send
    send-IsLinked t p flags how c (v, e) =
        if_either {A = Step (Unit {0})} (λ o. IsLinked b o.1) c.connected _ _
          (λ _.
            write_keeps (IsLinked b) (encode crypto _ secret) how _
              (numbered-IsValid c c.written v, e) (λ ws. (numbered-IsValid c ws v, e)))
          (λ _. (v, e))

    pub request-IsValid :
        (t : MsgType) (p : Bytes) (flags : ℕ) (how : Flushed) (answer : Result Frame)
        (c : WirelineClient)
        → IsValid b c
        → IsValid b (request crypto secret t p flags how answer c).1
    unfolding request
    request-IsValid t p flags how answer c v =
        if_either {A = Step Frame} (λ o. IsValid b o.1) (is_ready c.state) _ _
          (λ _.
            and_then_gives (IsValid b) (IsValid b) _ _ (send-IsValid t p flags how c v) (λ _ v'. v')
              (λ _ c' v'. recv-IsValid answer c' v'))
          (λ _. v)
