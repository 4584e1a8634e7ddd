-- ===== src/Socket/Ownership.antt =====
-- A socket releases what it owns once: its handle and its address list.
use gio_net.Base.{
  ℕ, ◌+◌, ◌≡◌, refl, Bool, false, arith, Option, none, some, List, [], ◌∷◌, ◌++◌, Result, ok, ◌>>=◌,
  if◌then◌else◌, ◌==◌, inl, inr, Option-cases,
}
use gio_net.Buffer.{Buffer}
use gio_net.Address.{NetAddress}
use gio_net.Socket.{
  Socket, Call, closes, frees, sends, is_valid, holds, free_address_info, close, destroy, send,
  send_to, receive, receive_from, bind, listen, connect,
}

-- The calls of a user on one socket, with the answers that Winsock gives.
pub data Op : Type 0 where
  op_send : Buffer → Option ℕ → Op
  op_send_to : Buffer → Option NetAddress → Option ℕ → Op
  op_receive : Option (List ℕ) → Op
  op_receive_from : Option (List ℕ × NetAddress) → Op
  op_bind : Bool → Op
  op_listen : Bool → Op
  op_connect : Bool → Op
  op_close : Op

abbrev pub effect {ℓ} : {A : Type ℓ} → Result (A × Socket × List Call) → Result (Socket × List Call)
effect r = r >>= λ t. ok (t.1, t.2)

unfoldable pub perform : Socket → Op → Result (Socket × List Call)
unfolding send send_to receive receive_from bind listen connect close
perform s (op_send b answer) = effect (send s b answer)
perform s (op_send_to b to answer) = effect (send_to s b to answer)
perform s (op_receive answer) = effect (receive s answer)
perform s (op_receive_from answer) = effect (receive_from s answer)
perform s (op_bind answer) = effect (bind s answer)
perform s (op_listen answer) = effect (listen s answer)
perform s (op_connect answer) = effect (connect s answer)
perform s op_close = ok (close s)

-- All the calls from the first operation to the destructor.
unfoldable pub live : Socket → List Op → Result (List Call)
live s [] = ok (destroy s)
live s (o ∷ os) = do (t, made) ← perform s o; later ← live t os; ok (made ++ later)

abbrev pub closing : ℕ → Call → ℕ
closing h (closes k) = if k == h then 1 else 0
closing h (frees a) = 0
closing h (sends to b) = 0

abbrev pub freeing : ℕ → Call → ℕ
freeing a (closes k) = 0
freeing a (frees b) = if b == a then 1 else 0
freeing a (sends to b) = 0

-- How often a call of a kind is made.
abbrev pub total : (Call → ℕ) → List Call → ℕ
total f [] = 0
total f (c ∷ cs) = f c + total f cs

abbrev pub owned : Option ℕ → ℕ → ℕ
owned none h = 0
owned (some k) h = if k == h then 1 else 0

pub total-append : (f : Call → ℕ) (xs ys : List Call) → total f (xs ++ ys) ≡ total f xs + total f ys
total-append f [] ys = omega arith
total-append f (x ∷ xs) ys = omega (arith, total-append f xs ys)

-- A socket with no handle has no address list either.
abbrev pub IsTidy : Socket → Type 0
IsTidy s = holds s.win_socket ≡ false → holds s.win_addr_info ≡ false

-- What an operation releases, the socket no longer owns, and it comes to own nothing new.
pub record Releases (s t : Socket) (made : List Call) : Type 0 where
  pub handle : (h : ℕ) → total (closing h) made + owned t.win_socket h ≡ owned s.win_socket h
  pub info : (a : ℕ) → total (freeing a) made + owned t.win_addr_info a ≡ owned s.win_addr_info a
  pub tidy : IsTidy s → IsTidy t

close-Releases : (s : Socket) → Releases s (close s).0 (close s).1
unfolding close free_address_info
close-Releases s = record {
  handle = λ h. ground arith;
  info = λ a. ground arith;
  tidy = λ t e. refl;
}

pub perform-Releases :
    (s : Socket) (o : Op) (t : Socket) (made : List Call)
    → perform s o ≡ ok (t, made)
    → Releases s t made
unfolding perform
perform-Releases s (op_send b answer) t made e = record {
  handle = λ h. ground arith;
  info = λ a. ground arith;
  tidy = λ k n. ground arith;
}
perform-Releases s (op_send_to b none answer) t made e = record {
  handle = λ h. ground arith;
  info = λ a. ground arith;
  tidy = λ k n. ground arith;
}
perform-Releases s (op_send_to b (some to) answer) t made e = record {
  handle = λ h. ground arith;
  info = λ a. ground arith;
  tidy = λ k n. ground arith;
}
perform-Releases s (op_receive none) t made e = record {
  handle = λ h. ground arith;
  info = λ a. ground arith;
  tidy = λ k n. ground arith;
}
perform-Releases s o t made e = record {
  handle = λ h. ground arith;
  info = λ a. ground arith;
  tidy = λ k n. ground arith;
}

pub destroy-handle : (s : Socket) (h : ℕ) → total (closing h) (destroy s) ≡ owned s.win_socket h
unfolding destroy is_valid close free_address_info
destroy-handle s h = ground arith

pub destroy-info :
    (s : Socket) → IsTidy s → (a : ℕ) → total (freeing a) (destroy s) ≡ owned s.win_addr_info a
unfolding destroy is_valid close free_address_info
destroy-info s t a = elim (Option-cases s.win_socket) [
  | inl e ↦ elim (Option-cases s.win_addr_info) [
    | inl n ↦ ground arith
    | inr (i, n) ↦ ground (arith, t (rw e refl))
  ]
  | inr (k, e) ↦ ground arith
]
