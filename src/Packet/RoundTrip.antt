-- ===== src/Packet/RoundTrip.antt =====
-- The bytes of a packet on the wire, and reading them back.
use gio_net.Base.{
  ℕ, ◌+◌, ◌^◌, ◌<◌, ◌≡◌, refl, sym, List, [], ◌∷◌, ◌++◌, arith, ok, length, append_assoc,
  append-nil, length-append, u32,
}
use gio_net.Buffer.{
  Buffer, empty, to_bytes, write, read, write_buffer, read_buffer, read_string, read_body,
  length_i32,
}
use gio_net.Buffer.Bytes.{
  length-to_bytes, from_bytes-to_bytes, copy_bytes_into_payload_lem, read-append, extract-append,
}
use gio_net.Packet.{Packet}
use gio_net.Packet.Codec.{write_packet, read_packet, packet_buffer}

pub write_lem :
    (size v : ℕ) (b : Buffer) → write size v b ≡ record { payload = b.payload ++ to_bytes size v }
unfolding write
write_lem size v b = copy_bytes_into_payload_lem (to_bytes size v) b

pub write_buffer_lem :
    (v b : Buffer)
    → write_buffer v b
      ≡ record { payload = b.payload ++ (to_bytes 4 (u32 (length v.payload)) ++ v.payload) }
unfolding write_buffer length_i32
write_buffer_lem v b = simp (write_lem, copy_bytes_into_payload_lem, append_assoc)

-- The 13 bytes of the header, then the payload.
pub packet_bytes : Packet → List ℕ
packet_bytes p =
    to_bytes 1 p.header
    ++ (to_bytes 2 p.id
        ++ (to_bytes 2 p.ack_id
            ++ (to_bytes 4 p.ack_bitset
                ++ (to_bytes 4 (u32 (length p.payload.payload)) ++ p.payload.payload))))

pub write_packet_lem :
    (p : Packet) (b : Buffer) → write_packet p b ≡ record { payload = b.payload ++ packet_bytes p }
unfolding write_packet packet_bytes
write_packet_lem p b = simp (write_lem, write_buffer_lem, append_assoc)

pub read-to_bytes :
    (size v : ℕ) (rest : List ℕ)
    → v < 256 ^ size
    → size + length rest < 4294967296
    → read size (record { payload = to_bytes size v ++ rest }) ≡ ok (v, record { payload = rest })
read-to_bytes size v rest h fits =
    rw
      (
        read-append size (to_bytes size v) rest (length-to_bytes size v)
            (rw (length-to_bytes size v) fits),
        from_bytes-to_bytes size v h,
      )
      refl

read_body-append :
    (bs rest : List ℕ)
    → length bs < 2147483648
    → read_body (u32 (length bs)) (record { payload = bs ++ rest })
      ≡ ok (bs, record { payload = rest })
unfolding read_body
read_body-append [] rest h = refl
read_body-append (x ∷ xs) rest h =
    let e : u32 (length (x ∷ xs)) ≡ length (x ∷ xs) = omega arith in
    ground (arith, e, extract-append (x ∷ xs) rest)

-- The length is read, then the bytes.
pub read-length :
    (bs rest : List ℕ)
    → 4 + length bs + length rest < 4294967296
    → read 4 (record { payload = to_bytes 4 (u32 (length bs)) ++ (bs ++ rest) })
      ≡ ok (u32 (length bs), record { payload = bs ++ rest })
read-length bs rest fits =
    read-to_bytes 4 (u32 (length bs)) (bs ++ rest) (omega arith) (rw length-append (omega arith))

-- A string is read back from its length and bytes, whatever follows.
pub read_string-append :
    (s rest : List ℕ)
    → length s < 2147483648
    → 4 + length s + length rest < 4294967296
    → read_string (record { payload = to_bytes 4 (u32 (length s)) ++ (s ++ rest) })
      ≡ ok (s, record { payload = rest })
unfolding read_string
read_string-append s rest h fits = rw (read-length s rest fits) (read_body-append s rest h)

-- A buffer is read back from its length and bytes, whatever follows.
pub read_buffer-append :
    (bs rest : List ℕ)
    → length bs < 2147483648
    → 4 + length bs + length rest < 4294967296
    → read_buffer (record { payload = to_bytes 4 (u32 (length bs)) ++ (bs ++ rest) })
      ≡ ok (record { payload = bs }, record { payload = rest })
unfolding read_buffer
read_buffer-append bs rest h fits = rw (read-length bs rest fits, read_body-append bs rest h) refl

-- The fields lie within the C++ types that hold them.
pub record IsPacket (p : Packet) : Type 0 where
  pub header_fits : p.header < 256
  pub id_fits : p.id < 65536
  pub ack_id_fits : p.ack_id < 65536
  pub ack_bitset_fits : p.ack_bitset < 4294967296
  pub payload_fits : length p.payload.payload < 2147483648

ruleset lengths = (length-append, length-to_bytes)

pub length-packet_bytes : (p : Packet) → length (packet_bytes p) ≡ 13 + length p.payload.payload
unfolding packet_bytes
length-packet_bytes p = simp lengths (omega arith)

-- A packet is read back from its bytes, whatever follows them in the buffer.
pub read_packet-append :
    (p : Packet) (rest : List ℕ)
    → IsPacket p
    → 13 + length p.payload.payload + length rest < 4294967296
    → read_packet (record { payload = packet_bytes p ++ rest }) ≡ ok (p, record { payload = rest })
unfolding read_packet packet_bytes
read_packet-append p rest h fits =
    let t4 = to_bytes 4 (u32 (length p.payload.payload)) ++ (p.payload.payload ++ rest) in
    let t3 = to_bytes 4 p.ack_bitset ++ t4 in
    let t2 = to_bytes 2 p.ack_id ++ t3 in
    let t1 = to_bytes 2 p.id ++ t2 in
    simp append_assoc (
      rw
        (
          read-to_bytes 1 p.header t1 (omega arith) (simp lengths (omega arith)),
          read-to_bytes 2 p.id t2 (omega arith) (simp lengths (omega arith)),
          read-to_bytes 2 p.ack_id t3 (omega arith) (simp lengths (omega arith)),
          read-to_bytes 4 p.ack_bitset t4 (omega arith) (simp lengths (omega arith)),
          read_buffer-append p.payload.payload rest (omega arith) (omega arith),
        )
        refl)

-- For a packet whose fields fit their types and whose payload has fewer than 2 ^ 31 bytes:
-- writing it to an empty buffer and reading it back gives the packet, and empties the buffer.
pub read_packet-packet_buffer :
    (p : Packet) → IsPacket p → read_packet (packet_buffer p) ≡ ok (p, empty)
unfolding packet_buffer
read_packet-packet_buffer p h =
    rw (write_packet_lem p empty, sym (append-nil (packet_bytes p)))
      (read_packet-append p [] h (omega arith))
