-- ===== src/Client/Operations.antt =====
-- Histories of a `WirelineClient` (src/wireline/client.py): its calls, in any order.
use wireline.Client.Invariant.{IsValid, IsValid-weaken, request-IsValid}
use wireline.Client.Lifecycle.{close-IsValid, is_failed, connect-IsValid}
use wireline.Messages.{Json}
use wireline.Client.Replies.{Call}
use wireline.Base.{Bool, true, false, ◌||◌, ◌≡◌, refl, List, [], ◌∷◌}
use wireline.Codec.{Crypto, Frame}
use wireline.Errors.{Result}
use wireline.Base.Text.{Text}
use wireline.Base.Bytes.{Bytes}
use wireline.Client.{close, request, connect, Flushed, WirelineClient}

-- A call of `connect`, `request` (which `ping` and `send_data` are) or `close`.
pub data Operation : Type 0 where
  connecting : Text → Flushed → Result Frame → Operation
  requesting : Call → Operation
  closing_now : Flushed → Flushed → Operation

-- The call is a `close` whose `wait_closed` ends by an exception that is not suppressed.
unfoldable pub wait_failed : Operation → Bool
unfolding is_failed
wait_failed (closing_now drained how) = is_failed how
wait_failed _ = false

unfoldable pub any_failed : List Operation → Bool
unfolding wait_failed
any_failed [] = false
any_failed (o ∷ os) = wait_failed o || any_failed os

or_false : (a : Bool) → a ≡ true → (a || false) ≡ true
or_false true h = refl
or_false false h = cc

or_regroup : (a b c : Bool) → ((a || b) || c) ≡ true → (a || (b || c)) ≡ true
or_regroup true b c h = refl
or_regroup false b c h = h

module _ (crypto : Crypto) (secret : Bytes) (json : Json) where
  unfoldable pub operate : Operation → WirelineClient → WirelineClient
  operate (connecting fresh how answer) c = (connect crypto secret json fresh how answer c).1
  operate (requesting r) c = (request crypto secret r.msg_type r.payload r.flags r.how r.answer c).1
  operate (closing_now drained how) c = (close crypto secret drained how c).1

  unfoldable pub operate_all : List Operation → WirelineClient → WirelineClient
  unfolding operate
  operate_all [] c = c
  operate_all (o ∷ os) c = operate_all os (operate o c)

  operate-IsValid :
      (b : Bool) (o : Operation) (c : WirelineClient)
      → IsValid b c
      → IsValid (b || wait_failed o) (operate o c)
  unfolding operate wait_failed
  operate-IsValid b (connecting fresh how answer) c v =
      IsValid-weaken b _ _ (or_false b) (connect-IsValid crypto secret b json fresh how answer c v)
  operate-IsValid b (requesting r) c v =
      IsValid-weaken b _ _ (or_false b)
        (request-IsValid crypto secret r.msg_type r.payload r.flags r.how r.answer c v)
  operate-IsValid b (closing_now drained how) c v = close-IsValid crypto secret b drained how c v

  operating :
      (b : Bool) (os : List Operation) (c : WirelineClient)
      → IsValid b c
      → IsValid (b || any_failed os) (operate_all os c)
  unfolding operate_all any_failed
  operating b [] c v = IsValid-weaken b _ c (or_false b) v
  operating b (o ∷ os) c v =
      IsValid-weaken _ _ _ (or_regroup b (wait_failed o) (any_failed os))
        (operating (b || wait_failed o) os (operate o c) (operate-IsValid b o c v))

  -- Any calls of `connect`, `request` and `close`, however their reads and writes end, keep a
  -- client valid: one that is READY has a connection and a session id, one without a connection is
  -- NEW or CLOSED, and the next number is below 2 ^ 32; and it is CLOSING after the calls only if
  -- the `wait_closed` of some `close` among them has raised an exception that `close` does not
  -- suppress.
  pub operate_all-IsValid :
      (os : List Operation) (c : WirelineClient)
      → IsValid false c
      → IsValid (any_failed os) (operate_all os c)
  operate_all-IsValid os c v = operating false os c v
