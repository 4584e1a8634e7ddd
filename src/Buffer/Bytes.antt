-- ===== src/Buffer/Bytes.antt =====
-- Little-endian bytes, and `Read` on a buffer that begins with the bytes of a value.
use native.Mathlib.Nat.{pow-suc}
use gio_net.Base.{
  ℕ, zero, suc, ◌+◌, ◌/◌, ◌^◌, ◌<◌, ◌≡◌, refl, ap, List, [], ◌∷◌, ◌++◌, arith, ok, fault, assertion,
  length, take-append, drop-append, length-append, append-nil, All,
}
use gio_net.Buffer.{
  Buffer, to_bytes, from_bytes, read, extract_bytes_from_payload, copy_bytes_into_payload,
  length_i32,
}

abbrev pub IsByte : ℕ → Type 0
IsByte x = x < 256

pub length-to_bytes : (size v : ℕ) → length (to_bytes size v) ≡ size
unfolding to_bytes
length-to_bytes zero v = refl
length-to_bytes (suc size) v = ap suc (length-to_bytes size (v / 256))

pub to_bytes-IsByte : (size v : ℕ) → All IsByte (to_bytes size v)
unfolding to_bytes
to_bytes-IsByte zero v = tt
to_bytes-IsByte (suc size) v = (omega arith, to_bytes-IsByte size (v / 256))

-- A value that fits its bytes comes back from them.
pub from_bytes-to_bytes : (size v : ℕ) → v < 256 ^ size → from_bytes (to_bytes size v) ≡ v
unfolding to_bytes from_bytes
from_bytes-to_bytes zero v h = omega arith
from_bytes-to_bytes (suc size) v h =
    omega (
      arith,
      pow-suc 256 size,
      from_bytes-to_bytes size (v / 256) (omega (arith, pow-suc 256 size)),
    )

pub from_bytes-lt : (bs : List ℕ) → All IsByte bs → from_bytes bs < 256 ^ length bs
unfolding from_bytes
from_bytes-lt [] h = omega arith
from_bytes-lt (x ∷ xs) h = omega (arith, pow-suc 256 (length xs), from_bytes-lt xs h.1)

-- An append of nothing leaves the buffer as it is, so the early return changes nothing.
pub copy_bytes_into_payload_lem :
    (src : List ℕ) (b : Buffer)
    → copy_bytes_into_payload src b ≡ record { payload = b.payload ++ src }
unfolding copy_bytes_into_payload
copy_bytes_into_payload_lem [] b = rw append-nil
copy_bytes_into_payload_lem (x ∷ xs) b = ground arith

-- The bytes at the front are taken off, whatever follows.
pub extract-append :
    (bs rest : List ℕ)
    → extract_bytes_from_payload (length bs) (record { payload = bs ++ rest })
      ≡ ok (bs, record { payload = rest })
unfolding extract_bytes_from_payload
extract-append [] rest = refl
extract-append (x ∷ xs) rest =
    ground (arith, length-append xs rest, take-append xs rest, drop-append xs rest)

pub extract_short :
    (size : ℕ) (b : Buffer)
    → length b.payload < size
    → extract_bytes_from_payload size b ≡ fault assertion
unfolding extract_bytes_from_payload
extract_short size b h = ground arith

pub read-append :
    (size : ℕ) (bs rest : List ℕ)
    → length bs ≡ size
    → length bs + length rest < 4294967296
    → read size (record { payload = bs ++ rest }) ≡ ok (from_bytes bs, record { payload = rest })
unfolding read length_i32
read-append size bs rest e h =
    rw (← e) (ground (arith, length-append bs rest, extract-append bs rest))
