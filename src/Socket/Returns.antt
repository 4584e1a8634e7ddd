-- ===== src/Socket/Returns.antt =====
-- A user who keeps to the protocol of a socket gets to the end of its life.
use gio_net.Base.{
  ℕ, ◌≡◌, refl, Bool, true, false, not, arith, Option, none, some, List, [], ◌∷◌, ◌++◌, Result, ok,
  ◌>>=◌, ◌>>◌, assert, ap, ◌∙◌, ◌&&◌, leb, length,
}
use gio_net.Buffer.{Buffer, from_raw, buffer_max}
use gio_net.Address.{NetAddress}
use gio_net.Socket.{
  Socket, CommunicationProtocols, Call, holds, free_address_info, close, destroy, send, send_to,
  receive, receive_from, bind, listen, connect, is_tcp, deref,
}
use gio_net.Socket.Ownership.{
  Op, op_send, op_send_to, op_receive, op_receive_from, op_bind, op_listen, op_connect, op_close,
  effect, perform, live, closing, freeing, total, owned, total-append, IsTidy, perform-Releases,
  destroy-handle, destroy-info,
}

-- Whether an operation meets the assertions of a socket of the protocol, that has or has not its
-- address list: the list is there when the operation reads it, and no more bytes come in than the
-- receive buffer holds.
abbrev pub fits : CommunicationProtocols → Bool → Op → Bool
fits p info (op_send b answer) = is_tcp p
fits p info (op_send_to b none answer) = not (is_tcp p) && info
fits p info (op_send_to b (some to) answer) = not (is_tcp p)
fits p info (op_receive none) = is_tcp p
fits p info (op_receive (some bytes)) = is_tcp p && leb (length bytes) buffer_max
fits p info (op_receive_from none) = not (is_tcp p)
fits p info (op_receive_from (some (bytes, from))) = not (is_tcp p) && leb (length bytes) buffer_max
fits p info (op_bind answer) = info
fits p info (op_listen answer) = is_tcp p
fits p info (op_connect answer) = is_tcp p && info
fits p info op_close = true

abbrev pub came {ℓ} : {A : Type ℓ} → Option A → Bool
came none = false
came (some a) = true

-- Whether the operation leaves the address list with the socket.
abbrev pub leaves_info : Op → Bool
leaves_info (op_send b answer) = came answer
leaves_info (op_send_to b to answer) = came answer
leaves_info (op_receive answer) = came answer
leaves_info (op_receive_from answer) = came answer
leaves_info (op_bind answer) = false
leaves_info (op_listen answer) = answer
leaves_info (op_connect answer) = not answer
leaves_info op_close = false

abbrev pub all_fit : CommunicationProtocols → Bool → List Op → Bool
all_fit p info [] = true
all_fit p info (o ∷ os) = fits p info o && all_fit p (info && leaves_info o) os

-- Every such operation returns, and leaves the protocol of the socket alone.
abbrev Returns : Socket → Op → Type 0
Returns s o =
    (t : Socket) × (made : List Call) × (perform s o ≡ ok (t, made))
    × (t.communication_protocol ≡ s.communication_protocol)

&&-left : (a b : Bool) → (a && b) ≡ true → a ≡ true
&&-left a b h = ground arith

&&-right : (a b : Bool) → (a && b) ≡ true → b ≡ true
&&-right a b h = ground arith

assert->> {ℓ} : {A : Type ℓ} (b : Bool) → b ≡ true → (r : Result A) → (assert b >> r) ≡ r
assert->> true h r = refl
assert->> false h r = cc

from_raw-fits :
    (bytes : List ℕ) → leb (length bytes) buffer_max ≡ true → (b : Buffer) × (from_raw bytes ≡ ok b)
unfolding from_raw
from_raw-fits bytes h = (_, assert->> _ h _)

perform-info :
    (s : Socket) (o : Op) (t : Socket) (made : List Call)
    → perform s o ≡ ok (t, made)
    → holds t.win_addr_info ≡ (holds s.win_addr_info && leaves_info o)
unfolding perform
perform-info s (op_send b answer) t made e = ground arith
perform-info s (op_send_to b none answer) t made e = ground arith
perform-info s (op_send_to b (some to) answer) t made e = ground arith
perform-info s (op_receive none) t made e = ground arith
perform-info s (op_receive_from none) t made e = ground arith
perform-info s o t made e = ground arith

deref->> {ℓ} : {A : Type ℓ} (o : Option ℕ) → holds o ≡ true → (r : Result A) → (deref o >> r) ≡ r
deref->> none h r = cc
deref->> (some a) h r = refl

both->> {ℓ} :
    {A : Type ℓ} (a b : Bool) → (a && b) ≡ true → (r : Result A) → (assert a >> (assert b >> r)) ≡ r
both->> true true h r = refl
both->> true false h r = cc
both->> false b h r = cc

list->> {ℓ} :
    {A : Type ℓ} (a : Bool) (o : Option ℕ)
    → (a && holds o) ≡ true
    → (r : Result A) → (assert a >> (deref o >> r)) ≡ r
list->> true none h r = cc
list->> true (some i) h r = refl
list->> false o h r = cc

perform-Returns :
    (s : Socket) (o : Op)
    → fits s.communication_protocol (holds s.win_addr_info) o ≡ true
    → Returns s o
unfolding perform send send_to receive receive_from bind listen connect close free_address_info
perform-Returns s (op_send b none) h = (_, _, ap effect (assert->> _ h _), refl)
perform-Returns s (op_send b (some n)) h = (_, _, ap effect (assert->> _ h _), refl)
perform-Returns s (op_send_to b none none) h = (
  _,
  _,
  ap effect (both->> (not (is_tcp s.communication_protocol)) (holds s.win_addr_info) h _),
  refl,
)
perform-Returns s (op_send_to b none (some n)) h = (
  _,
  _,
  ap effect (both->> (not (is_tcp s.communication_protocol)) (holds s.win_addr_info) h _),
  refl,
)
perform-Returns s (op_send_to b (some to) none) h = (_, _, ap effect (assert->> _ h _), refl)
perform-Returns s (op_send_to b (some to) (some n)) h = (_, _, ap effect (assert->> _ h _), refl)
perform-Returns s (op_receive none) h = (_, _, ap effect (assert->> _ h _), refl)
perform-Returns s (op_receive (some bytes)) h =
    let (b, e) = from_raw-fits bytes (&&-right (is_tcp s.communication_protocol) _ h) in
    (
      s,
      [],
      ap effect (assert->> _ (&&-left _ _ h) _)
          ∙ ap (λ r. effect (r >>= λ b. ok (some b, s, []))) e,
      refl,
    )
perform-Returns s (op_receive_from none) h = (_, _, ap effect (assert->> _ h _), refl)
perform-Returns s (op_receive_from (some (bytes, from))) h =
    let (b, e) = from_raw-fits bytes (&&-right (not (is_tcp s.communication_protocol)) _ h) in
    (
      s,
      [],
      ap effect (assert->> _ (&&-left _ _ h) _)
          ∙ ap
              (λ r.
                effect {A = Option (Buffer × NetAddress)} (r >>= λ b. ok (some (b, from), s, [])))
              e,
      refl,
    )
perform-Returns s (op_bind true) h = (_, _, ap effect (deref->> _ h _), refl)
perform-Returns s (op_bind false) h = (_, _, ap effect (deref->> _ h _), refl)
perform-Returns s (op_listen true) h = (_, _, ap effect (assert->> _ h _), refl)
perform-Returns s (op_listen false) h = (_, _, ap effect (assert->> _ h _), refl)
perform-Returns s (op_connect true) h =
    (_, _, ap effect (list->> (is_tcp s.communication_protocol) s.win_addr_info h _), refl)
perform-Returns s (op_connect false) h =
    (_, _, ap effect (list->> (is_tcp s.communication_protocol) s.win_addr_info h _), refl)
perform-Returns s op_close h = (_, _, refl, refl)

-- A user who only makes such operations gets to the end of the socket's life, and by then the
-- socket has closed its handle once and freed its address list once, and nothing else.
pub live-Releases :
    (s : Socket) (os : List Op)
    → all_fit s.communication_protocol (holds s.win_addr_info) os ≡ true
    → IsTidy s
    → (calls : List Call) × (live s os ≡ ok calls)
      × ((h : ℕ) → total (closing h) calls ≡ owned s.win_socket h)
      × ((a : ℕ) → total (freeing a) calls ≡ owned s.win_addr_info a)
unfolding live
live-Releases s [] h t = (destroy s, refl, destroy-handle s, destroy-info s t)
live-Releases s (o ∷ os) h tidy =
    let (t, made, e, p) = perform-Returns s o (&&-left _ _ h) in
    let r = perform-Releases s o t made e in
    let rest = &&-right (fits s.communication_protocol (holds s.win_addr_info) o) _ h in
    let (later, k, c, f) =
      live-Releases t os (rw p (rw (perform-info s o t made e) rest)) (r.tidy tidy) in
    (
      made ++ later,
      rw e (rw k refl),
      λ n. ground (arith, total-append (closing n) made later, c n, r.handle n),
      λ n. ground (arith, total-append (freeing n) made later, f n, r.info n),
    )
