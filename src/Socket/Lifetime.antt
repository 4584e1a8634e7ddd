-- ===== src/Socket/Lifetime.antt =====
-- A socket from its constructor to its destructor.
use gio_net.Base.{
  ℕ, ◌*◌, ◌≡◌, refl, Bool, true, false, ◌&&◌, arith, Option, none, some, List, ◌++◌, ok,
}
use gio_net.Address.{NetAddress}
use gio_net.Socket.{
  Socket, CommunicationProtocols, Call, open_socket, destroy, move, close, free_address_info,
  is_valid, holds,
}
use gio_net.Socket.Ownership.{
  Op, op_send, op_send_to, op_receive, op_receive_from, op_bind, op_listen, op_connect, op_close,
  perform, live, closing, freeing, total, owned, IsTidy, total-append, destroy-handle,
}
use gio_net.Socket.Returns.{all_fit, came, live-Releases}

-- The handle that comes into being: none is asked for when there is no address list.
abbrev pub asked : Option ℕ → Option ℕ → Option ℕ
asked none handle = none
asked (some info) handle = handle

open_socket-IsTidy :
    (a : NetAddress) (p : CommunicationProtocols) (info handle : Option ℕ)
    → IsTidy (open_socket a p info handle).0
unfolding open_socket close free_address_info
open_socket-IsTidy a p none handle e = refl
open_socket-IsTidy a p (some i) none e = refl
open_socket-IsTidy a p (some i) (some h) e = cc

-- Whatever the answers of the system are, a user who makes a socket and only makes operations
-- that fit it (those of its protocol, with the address list there when the operation reads it,
-- and no more bytes received than the buffer holds) gets to the end of its life without a fault,
-- and by then the handle that came into being has been closed exactly once, the address list
-- freed exactly once, and nothing else closed or freed.
pub open_socket-live :
    (a : NetAddress) (p : CommunicationProtocols) (info handle : Option ℕ) (os : List Op)
    → all_fit p (holds (open_socket a p info handle).0.win_addr_info) os ≡ true
    → (calls : List Call) × (live (open_socket a p info handle).0 os ≡ ok calls)
      × ((h : ℕ)
          → total (closing h) ((open_socket a p info handle).1 ++ calls)
            ≡ owned (asked info handle) h)
      × ((n : ℕ) → total (freeing n) ((open_socket a p info handle).1 ++ calls) ≡ owned info n)
unfolding open_socket close free_address_info
open_socket-live a p none handle os f = live-Releases _ os f (open_socket-IsTidy a p none handle)
open_socket-live a p (some i) none os f =
    let (calls, e, c, r) =
      live-Releases (open_socket a p (some i) none).0 os f (open_socket-IsTidy a p (some i) none) in
    (calls, e, λ n. ground (arith, c n), λ n. ground (arith, r n))
open_socket-live a p (some i) (some h) os f =
    live-Releases _ os f (open_socket-IsTidy a p (some i) (some h))

-- A moved socket shares its handle with the socket it was moved to: when both are destroyed, a
-- handle that the first one held is closed twice.
pub move-destroy :
    (s : Socket) (h : ℕ)
    → total (closing h) (destroy (move s).0 ++ destroy (move s).1) ≡ 2 * owned s.win_socket h
unfolding move
move-destroy s h =
    let (moved, new) = move s in
    ground (
      arith,
      total-append (closing h) (destroy moved) (destroy new),
      destroy-handle moved h,
      destroy-handle new h,
    )

-- Whether the socket may stay open: what was sent, received, bound or listened for worked, or the
-- operation was one to connect.
abbrev pub keeps : Op → Bool
keeps (op_send b answer) = holds answer
keeps (op_send_to b to answer) = holds answer
keeps (op_receive answer) = came answer
keeps (op_receive_from answer) = came answer
keeps (op_bind answer) = answer
keeps (op_listen answer) = answer
keeps (op_connect answer) = true
keeps op_close = false

-- After an operation that returns, the socket is valid just when it was valid before and the
-- operation did not fail; a failure to connect does not count, and after `Close` the socket is
-- invalid.
pub perform-is_valid :
    (s : Socket) (o : Op) (t : Socket) (made : List Call)
    → perform s o ≡ ok (t, made)
    → is_valid t ≡ (is_valid s && keeps o)
unfolding perform is_valid
perform-is_valid s (op_send b answer) t made e = ground arith
perform-is_valid s (op_send_to b none answer) t made e = ground arith
perform-is_valid s (op_send_to b (some to) answer) t made e = ground arith
perform-is_valid s (op_receive none) t made e = ground arith
perform-is_valid s (op_receive_from none) t made e = ground arith
perform-is_valid s o t made e = ground arith
