-- ===== src/Client/Lifecycle.antt =====
-- `connect` and `close` of `WirelineClient` (src/wireline/client.py) keep what holds of it.
use wireline.Messages.{encode_hello, Json, decode_error, decode_hello_ack}
use wireline.Errors.{ErrorCode, Result, ok, raise}
use wireline.Base.Text.{Text}
use wireline.Base.Bytes.{Bytes}
use wireline.Base.{if_either, ◌||◌, ◌≡◌, Bool, [], inr, refl, ◌^◌, ◌<◌, none, true, false}
use wireline.Session.{closing, closed}
use wireline.Codec.{Frame, Crypto, MsgType, hello, hello_ack, error, bye}
use wireline.Client
use wireline.Client.{
  handshake, Flushed, new_client, WirelineClient, Step, recv, request, do_handshake, connect, close,
  say_bye, shut_down, send, write, greeted, welcomed, rejected, and_then, is_ready,
}
use wireline.Client.Invariant.{
  IsValid, IsLinked, IsValid-weaken, send-IsLinked, recv-IsLinked, and_then_gives,
}

-- A `wait_closed` that ends by an exception that `close` does not suppress
unfoldable pub is_failed : Flushed → Bool
is_failed (Client.failed x) = true
is_failed _ = false

or_left : (a b : Bool) → a ≡ true → (a || b) ≡ true
or_left true b h = refl
or_left false b h = cc

or_true : (a : Bool) → (a || true) ≡ true
or_true true = refl
or_true false = refl

module _ (crypto : Crypto) (secret : Bytes) (b : Bool) where
  -- What `say_bye` leaves: the state is only CLOSING when it returns.
  abbrev pub Parted : Step (Unit {0}) → Type 0
  Parted (raise e, c) = IsValid b c
  Parted (ok u, c) = IsLinked true c

  allowed : (c : WirelineClient) → IsLinked b c → IsLinked true c
  allowed c (v, t) = (IsValid-weaken b true c (λ _. refl) v, t)

  Parted-closing :
      (o : Step (Unit {0}))
      → IsLinked b o.1
      → Parted (and_then o (λ _ c. (ok tt, record c { state = closing })))
  unfolding and_then
  Parted-closing (raise e, c) (v, t) = v
  Parted-closing (ok u, c) (v, t) = (
    record {
      linked = λ e. t;
      known = λ e. cc;
      unconnected = λ e. cc;
      resting = λ e. refl;
      bounded = v.bounded;
    },
    t,
  )

  Parted-lost : (o : Step (Unit {0})) → IsLinked b o.1 → Parted (and_then o (λ _ c. (ok tt, c)))
  unfolding and_then
  Parted-lost (raise e, c) (v, t) = v
  Parted-lost (ok u, c) l = allowed c l

  Parted-sent : (o : Step (Unit {0})) → IsLinked b o.1 → Parted o
  Parted-sent (raise e, c) (v, t) = v
  Parted-sent (ok u, c) l = allowed c l

  say_bye-Parted :
      (how : Flushed) (c : WirelineClient) → IsLinked b c → Parted (say_bye crypto secret how c)
  unfolding say_bye
  say_bye-Parted Client.flushed c l =
      if_either Parted (is_ready c.state) _ _
        (λ _. Parted-closing _ (send-IsLinked crypto secret bye [] 0 Client.flushed c l))
        (λ _. allowed c l)
  say_bye-Parted Client.lost c l =
      if_either Parted (is_ready c.state) _ _
        (λ _. Parted-lost _ (send-IsLinked crypto secret bye [] 0 Client.flushed c l))
        (λ _. allowed c l)
  say_bye-Parted (Client.failed x) c l =
      if_either Parted (is_ready c.state) _ _
        (λ _. Parted-sent _ (send-IsLinked crypto secret bye [] 0 (Client.failed x) c l))
        (λ _. allowed c l)

  closed-IsValid :
      (b' : Bool) (c : WirelineClient)
      → c.out_seq < 2 ^ 32
      → IsValid b' (record c { connected = false; state = closed })
  closed-IsValid b' c h = record {
    linked = λ e. cc;
    known = λ e. cc;
    unconnected = λ e. inr refl;
    resting = λ e. cc;
    bounded = h;
  }

  shut_down-IsValid :
      (how : Flushed) (c : WirelineClient)
      → IsLinked true c
      → IsValid (b || is_failed how) (shut_down how c).1
  unfolding shut_down is_failed
  shut_down-IsValid Client.flushed c (v, t) = closed-IsValid _ c v.bounded
  shut_down-IsValid Client.lost c (v, t) = closed-IsValid _ c v.bounded
  shut_down-IsValid (Client.failed x) c (v, t) =
      IsValid-weaken true (b || true) c (λ _. or_true b) v

  closing_down :
      (how : Flushed) (o : Step (Unit {0}))
      → Parted o
      → IsValid (b || is_failed how) (and_then o (λ _ c. shut_down how c)).1
  unfolding and_then
  closing_down how (raise e, c) v = IsValid-weaken b _ c (or_left b (is_failed how)) v
  closing_down how (ok u, c) l = shut_down-IsValid how c l

  pub close-IsValid :
      (drained how : Flushed) (c : WirelineClient)
      → IsValid b c
      → IsValid (b || is_failed how) (close crypto secret drained how c).1
  unfolding close
  close-IsValid drained how c v =
      if_either {A = Step (Unit {0})} (λ o. IsValid (b || is_failed how) o.1) c.connected _ _
        (λ t. closing_down how _ (say_bye-Parted drained c (v, t)))
        (λ _. IsValid-weaken b _ c (or_left b (is_failed how)) v)

  module _ (json : Json) where
    welcomed-IsValid :
        (r : Result (Text × Text)) (c : WirelineClient) → IsLinked b c → IsValid b (welcomed r c).1
    unfolding welcomed
    welcomed-IsValid (raise e) c (v, t) = v
    welcomed-IsValid (ok (s, n)) c (v, t) = record {
      linked = λ e. t;
      known = λ e. cc;
      unconnected = λ e. cc;
      resting = λ e. cc;
      bounded = v.bounded;
    }

    rejected-IsValid :
        (r : Result (ErrorCode × Text)) (c : WirelineClient)
        → IsValid b c
        → IsValid b (rejected r c).1
    unfolding rejected
    rejected-IsValid (raise e) c v = v
    rejected-IsValid (ok (s, n)) c v = v

    greeted-IsValid :
        (t : MsgType) (p : Bytes) (c : WirelineClient)
        → IsLinked b c
        → IsValid b (greeted json t p c).1
    unfolding greeted
    greeted-IsValid hello_ack p c o = welcomed-IsValid (decode_hello_ack json p) c o
    greeted-IsValid error p c (v, t) = rejected-IsValid (decode_error json p) c v
    greeted-IsValid _ p c (v, t) = v

    shaking-IsLinked :
        (c : WirelineClient) → IsLinked b c → IsLinked b (record c { state = handshake })
    shaking-IsLinked c (v, t) = (
      record {
        linked = λ e. cc;
        known = λ e. cc;
        unconnected = λ e. cc;
        resting = λ e. cc;
        bounded = v.bounded;
      },
      t,
    )

    connected-IsLinked :
        (c : WirelineClient)
        → IsValid b c
        → IsLinked b (record c { connected = true; written = [] })
    connected-IsLinked c v = (
      record {
        linked = λ e. refl;
        known = v.known;
        unconnected = λ e. cc;
        resting = v.resting;
        bounded = v.bounded;
      },
      refl,
    )

    answered-IsValid :
        (o : Step Frame)
        → IsLinked b o.1
        → IsValid b (and_then o (λ frame c. greeted json frame.msg_type frame.payload c)).1
    answered-IsValid o l =
        and_then_gives (IsLinked b) (IsValid b) o
          (λ frame c. greeted json frame.msg_type frame.payload c) l (λ c l'. l'.0)
          (λ frame c l'. greeted-IsValid frame.msg_type frame.payload c l')

    pub connect-IsValid :
        (fresh : Text) (how : Flushed) (answer : Result Frame) (c : WirelineClient)
        → IsValid b c
        → IsValid b (connect crypto secret json fresh how answer c).1
    unfolding connect do_handshake
    connect-IsValid fresh how answer c v =
        and_then_gives {A = Unit {0}} {B = Unit {0}} (IsLinked b) (IsValid b)
          (send crypto secret hello (encode_hello json c.client_id none fresh) 0 how
            (record c { connected = true; written = [] }))
          (λ _ c'.
            and_then (recv answer (record c' { state = handshake }))
              (λ frame c''. greeted json frame.msg_type frame.payload c''))
          (send-IsLinked crypto secret hello (encode_hello json c.client_id none fresh) 0 how
            (record c { connected = true; written = [] }) (connected-IsLinked c v))
          (λ c' l. l.0)
          (λ _ c' l.
            answered-IsValid (recv answer (record c' { state = handshake }))
              (recv-IsLinked answer _ (shaking-IsLinked c' l)))
