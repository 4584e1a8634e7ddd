-- ===== src/Tests/Serialization.antt =====
-- GioNetTests/src/BufferSerializationTests.cpp, GioNetTests/src/BufferTests.cpp and
-- GioNetTests/src/PacketTests.cpp. A signed number is its bit pattern, a text the list of its
-- bytes.
use gio_net.Base.{
  ℕ, ◌≡◌, refl, ◌==◌, List, [], ◌∷◌, length, Result, ok, ◌>>=◌, ◌>>◌, assert, bytes_of,
}
use gio_net.Buffer.{
  empty, copy_bytes_into_payload, extract_bytes_from_payload, from_raw, length_i32, is_empty,
  equal_bytes, equal, copy, to_bytes, from_bytes, write, read, write_string, read_body, read_string,
  write_buffer, read_buffer, from_string,
}
use gio_net.Packet.{
  Packet, Types, Flags, data_type, connect_type, no_flags, reliable_flag, make_packet, get_type,
  get_flags, type_bits, flag_bits, max_possible_id, has_flags, packet_equal,
}
use gio_net.Packet.Codec.{write_packet, read_packet}

-- `WriteReadTest` on a new buffer, at an integer of a size.
unfoldable integer_test : ℕ → ℕ → Result (Unit {0})
integer_test size val = do
  (after, rest) ← read size (write size val empty)
  assert (after == val)
  assert (is_empty rest)

-- `int`: 42, -1000, 0 and ~0.
unfoldable int_test : Result (Unit {0})
int_test = do
  integer_test 4 42
  integer_test 4 4294966296
  integer_test 4 0
  integer_test 4 4294967295

unfoldable char_test : Result (Unit {0})
char_test = do integer_test 1 b'a'; integer_test 1 10; integer_test 1 0; integer_test 1 255

unfoldable string_test : List ℕ → Result (Unit {0})
string_test val = do
  (after, rest) ← read_string (write_string val empty)
  assert (equal_bytes after val)
  assert (is_empty rest)

unfoldable std_string_test : Result (Unit {0})
std_string_test = do
  string_test (bytes_of "Foo")
  string_test []
  string_test (bytes_of "Hello, world!\n")

-- `ReadTest` on a buffer that was made of a text.
unfoldable ctor_test : List ℕ → Result (Unit {0})
ctor_test s = do (after, rest) ← read_string (from_string s); assert (equal_bytes s after)

unfoldable ctor_string_view_test : Result (Unit {0})
ctor_string_view_test = do
  ctor_test (bytes_of "This is a c str!")
  ctor_test (bytes_of "This is an std::string!")

unfoldable packet_write_read : Packet → Result (Unit {0})
packet_write_read packet = do
  (after, rest) ← read_packet (write_packet packet empty)
  assert (packet_equal packet after)
  assert (is_empty rest)

unfoldable packet_test : Result (Unit {0})
packet_test = do
  packet_write_read
      (record (make_packet data_type reliable_flag empty) { id = 0; ack_id = 0; ack_bitset = 0 })
  packet_write_read (record (make_packet data_type no_flags (from_string (bytes_of "Payload!"))) {
    id = 2;
    ack_id = 10;
    ack_bitset = 0b0110010;
  })
  packet_write_read
      (record (make_packet connect_type reliable_flag (from_string (bytes_of "Other payload!"))) {
        id = max_possible_id;
        ack_id = max_possible_id;
        ack_bitset = 4294967295;
      })

unfoldable buffer_test : Result (Unit {0})
buffer_test = do
  let buffered = from_string (bytes_of "This is a c str!")
  (deserialized, rest) ← read_buffer (write_buffer buffered empty)
  assert (equal deserialized buffered)

unfoldable subsequent_writes_same_type : Result (Unit {0})
subsequent_writes_same_type = do
  (x, b1) ← read 4 (write 4 0 (write 4 999 (write 4 10 empty)))
  assert (x == 10)
  (y, b2) ← read 4 b1
  assert (y == 999)
  (z, b3) ← read 4 b2
  assert (z == 0)

unfoldable subsequent_writes_different_types : Result (Unit {0})
subsequent_writes_different_types = do
  let s = bytes_of "Hello, world!"
  (x, b1) ← read 4 (write 1 b't' (write_string s (write 4 10 empty)))
  assert (x == 10)
  (y, b2) ← read_string b1
  assert (equal_bytes y s)
  (z, b3) ← read 1 b2
  assert (z == b't')

-- `specialized_ctor`: eight bytes.
unfoldable specialized_ctor : List ℕ → Result (Unit {0})
specialized_ctor bytes = do b ← from_raw bytes; assert (length_i32 b == length bytes)

unfoldable copy_test : Result (Unit {0})
copy_test = do
  let source = from_string (bytes_of "Wow, so much data!")
  assert (equal (copy empty source) source)

-- `Test` of PacketHeaderTest.
unfoldable header_test : Types → Flags → Result (Unit {0})
header_test type flags = do
  let packet = make_packet type flags empty
  assert (type_bits type == get_type packet)
  assert (get_flags packet == flag_bits flags)

unfoldable header_encoding : Result (Unit {0})
header_encoding = do
  header_test connect_type no_flags
  header_test connect_type reliable_flag
  header_test data_type reliable_flag

-- All that a test calls.
program : ℕ → ℕ
unfolding copy_bytes_into_payload extract_bytes_from_payload from_raw length_i32 is_empty
    equal_bytes equal copy to_bytes from_bytes write read write_string read_body read_string
    write_buffer read_buffer from_string make_packet get_type get_flags has_flags packet_equal
    write_packet read_packet integer_test string_test ctor_test packet_write_read header_test
program n = n

numbers_pass : (int_test ≡ ok tt) × (char_test ≡ ok tt)
unfolding int_test char_test program
numbers_pass = (refl, refl)

texts_pass : (std_string_test ≡ ok tt) × (ctor_string_view_test ≡ ok tt)
unfolding std_string_test ctor_string_view_test program
texts_pass = (refl, refl)

packets_pass : (packet_test ≡ ok tt) × (header_encoding ≡ ok tt)
unfolding packet_test header_encoding program
packets_pass = (refl, refl)

buffers_pass :
    (buffer_test ≡ ok tt)
    × (subsequent_writes_same_type ≡ ok tt)
    × (subsequent_writes_different_types ≡ ok tt)
    × (specialized_ctor (0 ∷ 0 ∷ 0 ∷ 0 ∷ 0 ∷ 0 ∷ 0 ∷ 0 ∷ []) ≡ ok tt)
    × (copy_test ≡ ok tt)
unfolding buffer_test subsequent_writes_same_type subsequent_writes_different_types specialized_ctor
    copy_test program
buffers_pass = (refl, refl, refl, refl, refl)
