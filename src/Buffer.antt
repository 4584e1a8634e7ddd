-- ===== src/Buffer.antt =====
-- GioNet/inc/Buffer.h and GioNet/src/Buffer.cpp, but for the packets (Packet/Codec). A byte is a
-- number below 256, the bit pattern of an int8_t; a pointer with a size is the list of its bytes.
pub mod Bytes
use gio_net.Base.{
  ℕ, zero, suc, ◌+◌, ◌*◌, ◌/◌, ◌%◌, ◌<◌, List, [], ◌∷◌, ◌++◌, Bool, true, false, ◌&&◌, Result, ok,
  ◌>>=◌, ◌>>◌, assert, length, take, drop, u32, ltb, leb, ◌==◌, if◌then◌else◌,
}

pub record Buffer : Type 0 where
  pub payload : List ℕ

abbrev pub empty : Buffer
empty = record { payload = [] }

-- GIONET_BUFFER_MAX
abbrev pub buffer_max : ℕ
buffer_max = 512

unfoldable pub copy_bytes_into_payload : List ℕ → Buffer → Buffer
copy_bytes_into_payload src b = if length src == 0 then b else record { payload = b.payload ++ src }

unfoldable pub extract_bytes_from_payload : ℕ → Buffer → Result (List ℕ × Buffer)
extract_bytes_from_payload size b =
    if size == 0
    then ok ([], b)
    else (assert (leb size (length b.payload))
        >> ok (take size b.payload, record { payload = drop size b.payload }))

-- Buffer(const void* data, int length)
unfoldable pub from_raw : List ℕ → Result Buffer
from_raw bytes = assert (leb (length bytes) buffer_max) >> ok (copy_bytes_into_payload bytes empty)

-- The int32_t of `Length`, as its bit pattern.
unfoldable pub length_i32 : Buffer → ℕ
length_i32 b = u32 (length b.payload)

unfoldable pub is_empty : Buffer → Bool
is_empty b = length b.payload == 0

-- `std::equal`
unfoldable pub equal_bytes : List ℕ → List ℕ → Bool
equal_bytes [] [] = true
equal_bytes [] (y ∷ ys) = false
equal_bytes (x ∷ xs) [] = false
equal_bytes (x ∷ xs) (y ∷ ys) = x == y && equal_bytes xs ys

-- `operator==`
unfoldable pub equal : Buffer → Buffer → Bool
equal a b = if length_i32 a == length_i32 b then equal_bytes a.payload b.payload else false

-- `Copy`
unfoldable pub copy : Buffer → Buffer → Buffer
copy b other = record { payload = b.payload ++ other.payload }

-- The object representation of an unsigned integer of `size` bytes, on a little-endian machine.
unfoldable pub to_bytes : ℕ → ℕ → List ℕ
to_bytes zero v = []
to_bytes (suc size) v = (v % 256) ∷ to_bytes size (v / 256)

unfoldable pub from_bytes : List ℕ → ℕ
from_bytes [] = 0
from_bytes (x ∷ xs) = x + 256 * from_bytes xs

-- The template `Write` (and `WriteBytes`) at an integer type of `size` bytes.
unfoldable pub write : ℕ → ℕ → Buffer → Buffer
write size v b = copy_bytes_into_payload (to_bytes size v) b

-- The template `Read` there. `Length()` is converted to a size_t for the comparison, which makes
-- a negative one large: for the sizes of the integer types that is the test on the bit pattern.
unfoldable pub read : ℕ → Buffer → Result (ℕ × Buffer)
read size b = do
  assert (leb size (length_i32 b))
  (bytes, rest) ← extract_bytes_from_payload size b
  ok (from_bytes bytes, rest)

-- An int32_t above zero, given its bit pattern.
abbrev pub is_positive : ℕ → Bool
is_positive w = ltb 0 w && ltb w 2147483648

-- `Write` at std::string and at std::string_view.
unfoldable pub write_string : List ℕ → Buffer → Buffer
write_string s b = copy_bytes_into_payload s (write 4 (u32 (length s)) b)

-- What both reads below do with the length: nothing is read unless it is above zero.
unfoldable pub read_body : ℕ → Buffer → Result (List ℕ × Buffer)
read_body w b = if is_positive w then extract_bytes_from_payload w b else ok ([], b)

-- `Read` at std::string.
unfoldable pub read_string : Buffer → Result (List ℕ × Buffer)
read_string b = do (w, rest) ← read 4 b; read_body w rest

-- `Write` and `Read` at Buffer.
unfoldable pub write_buffer : Buffer → Buffer → Buffer
write_buffer v b = copy_bytes_into_payload v.payload (write 4 (length_i32 v) b)

unfoldable pub read_buffer : Buffer → Result (Buffer × Buffer)
read_buffer b = do
  (w, rest) ← read 4 b
  (bytes, rest') ← read_body w rest
  ok (record { payload = bytes }, rest')

-- Buffer(std::string_view)
unfoldable pub from_string : List ℕ → Buffer
from_string s = write_string s empty
