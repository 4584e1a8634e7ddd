-- ===== src/Packet/Malformed.antt =====
-- `Read<Packet>` on any buffer, such as a datagram that nobody has checked.
use gio_net.Base.{
  ℕ, ◌+◌, ◌-◌, ◌≤◌, ◌<◌, ◌≡◌, List, [], arith, ok, fault, assertion, length, take, drop,
  length-drop, drop-drop, leb, if◌then◌else◌, ◌&&◌, Bool, true, ◌>>=◌,
}
use gio_net.Buffer.{
  Buffer, from_bytes, read, read_buffer, read_body, length_i32, extract_bytes_from_payload,
  is_positive,
}
use native.Mathlib.Decide.{dec_lt}
use gio_net.Packet.{Packet}
use gio_net.Packet.Codec.{read_packet}

read_short :
    (size : ℕ) (bs : List ℕ)
    → length bs < size
    → read size (record { payload = bs }) ≡ fault assertion
unfolding read length_i32
read_short size bs h = ground arith

read_long :
    (size : ℕ) (bs : List ℕ)
    → size ≤ length bs
    → length bs < 4294967296
    → read size (record { payload = bs })
      ≡ ok (from_bytes (take size bs), record { payload = drop size bs })
unfolding read length_i32 extract_bytes_from_payload
read_long size bs h fits = ground arith

read_body_lem :
    (w : ℕ) (bs : List ℕ)
    → read_body w (record { payload = bs }) ≡ (
        if is_positive w
        then (if leb w (length bs)
            then ok (take w bs, record { payload = drop w bs })
            else fault assertion)
        else ok ([], record { payload = bs }))
unfolding read_body extract_bytes_from_payload
read_body_lem w bs = ground arith

-- Where the fields of a packet stand in the bytes of a datagram, told without the buffer's reads.
abbrev pub field_at : ℕ → ℕ → List ℕ → ℕ
field_at offset size bs = from_bytes (take size (drop offset bs))

-- The length that the datagram states for its payload.
abbrev pub stated_length : List ℕ → ℕ
stated_length bs = field_at 9 4 bs

-- The header is complete, and the payload is as long as stated, if its stated length is positive.
unfoldable pub is_well_formed : List ℕ → Bool
is_well_formed bs =
    leb 13 (length bs)
    && (if is_positive (stated_length bs) then leb (stated_length bs) (length bs - 13) else true)

abbrev pub payload_size : List ℕ → ℕ
payload_size bs = if is_positive (stated_length bs) then stated_length bs else 0

pub decoded : List ℕ → Packet
decoded bs = record {
  header = field_at 0 1 bs;
  id = field_at 1 2 bs;
  ack_id = field_at 3 2 bs;
  ack_bitset = field_at 5 4 bs;
  payload = record { payload = take (payload_size bs) (drop 13 bs) };
}

read_buffer_short :
    (bs : List ℕ) → length bs < 4 → read_buffer (record { payload = bs }) ≡ fault assertion
unfolding read_buffer
read_buffer_short bs h = rw (read_short 4 bs h)

read_buffer_long :
    (bs : List ℕ)
    → 4 ≤ length bs
    → length bs < 4294967296
    → read_buffer (record { payload = bs })
      ≡ ◌>>=◌ {B = Buffer × Buffer}
          (read_body (from_bytes (take 4 bs)) (record { payload = drop 4 bs }))
          (λ r. ok (record { payload = r.0 }, r.1))
unfolding read_buffer
read_buffer_long bs h fits = rw (read_long 4 bs h fits)

read_packet_short :
    (bs : List ℕ) → length bs < 13 → read_packet (record { payload = bs }) ≡ fault assertion
unfolding read_packet
read_packet_short bs h = ground (
  arith,
  read_short 1 bs,
  read_long 1 bs,
  read_short 2 (drop 1 bs),
  read_long 2 (drop 1 bs),
  read_short 2 (drop 2 (drop 1 bs)),
  read_long 2 (drop 2 (drop 1 bs)),
  read_short 4 (drop 2 (drop 2 (drop 1 bs))),
  read_long 4 (drop 2 (drop 2 (drop 1 bs))),
  read_buffer_short (drop 4 (drop 2 (drop 2 (drop 1 bs)))),
  length-drop 1 bs,
  length-drop 2 (drop 1 bs),
  length-drop 2 (drop 2 (drop 1 bs)),
  length-drop 4 (drop 2 (drop 2 (drop 1 bs))),
)

-- With the whole header there, all that is left to go wrong is the body.
read_header :
    (bs : List ℕ)
    → 13 ≤ length bs
    → length bs < 4294967296
    → read_packet (record { payload = bs })
      ≡ ◌>>=◌ {B = Packet × Buffer}
          (read_body (stated_length bs) (record { payload = drop 13 bs }))
          (λ r. ok (record (decoded bs) { payload = record { payload = r.0 } }, r.1))
unfolding read_packet decoded
read_header bs h fits =
    rw
      (
        read_long 1 bs (omega arith) fits,
        read_long 2 (drop 1 bs) (rw (length-drop 1 bs) (omega arith))
            (rw (length-drop 1 bs) (omega arith)),
        drop-drop 2 1 bs,
        read_long 2 (drop 3 bs) (rw (length-drop 3 bs) (omega arith))
            (rw (length-drop 3 bs) (omega arith)),
        drop-drop 2 3 bs,
        read_long 4 (drop 5 bs) (rw (length-drop 5 bs) (omega arith))
            (rw (length-drop 5 bs) (omega arith)),
        drop-drop 4 5 bs,
        read_buffer_long (drop 9 bs) (rw (length-drop 9 bs) (omega arith))
            (rw (length-drop 9 bs) (omega arith)),
        drop-drop 4 9 bs,
      )
      (ground arith)

whole_lem :
    (bs : List ℕ)
    → 13 ≤ length bs
    → length bs < 4294967296
    → read_packet (record { payload = bs }) ≡ (
        if is_well_formed bs
        then ok (decoded bs, record { payload = drop (13 + payload_size bs) bs })
        else fault assertion)
unfolding is_well_formed decoded
whole_lem bs h fits =
    rw (read_header bs h fits, read_body_lem (stated_length bs) (drop 13 bs), length-drop 13 bs)
      (ground (arith, drop-drop (stated_length bs) 13 bs))

-- Reading a packet from any buffer of fewer than 2 ^ 32 bytes: the packet at the offsets of the
-- format, with what follows it, if the header is complete and the payload as long as stated (a
-- length that is not above zero states an empty one); a failed assertion otherwise.
pub read_packet_lem :
    (bs : List ℕ)
    → length bs < 4294967296
    → read_packet (record { payload = bs }) ≡ (
        if is_well_formed bs
        then ok (decoded bs, record { payload = drop (13 + payload_size bs) bs })
        else fault assertion)
unfolding is_well_formed
read_packet_lem bs fits = elim (dec_lt (length bs) 13) [
  | yes short ↦ rw (read_packet_short bs short) (ground arith)
  | no long ↦ whole_lem bs (omega arith) fits
]
