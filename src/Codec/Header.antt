-- ===== src/Codec/Header.antt =====
-- The header of a chunk (src/client/codec/header.ts). A `Uint8Array` is the list of its bytes.
-- The identifiers and counts are never negative and are ℕ. The two sizes are signed: `decode_header`
-- joins four bytes by 32-bit operations, and so reads a size with its top bit set as negative.
pub mod RoundTrip
use Prim.Native.Nat.{bit_and, bit_or}
use meeting.Prelude.{
  ℕ, ◌+◌, ◌-◌, ◌*◌, ◌/◌, ◌%◌, ◌^◌, List, [], ◌∷◌, get_or, ℤ, pos, negsuc, ltb, if◌then◌else◌,
}

abbrev pub header_size_bytes : ℕ
header_size_bytes = 16

pub record Header : Type 0 where
  pub message_id : ℕ
  pub chunk_num : ℕ
  pub total_chunks : ℕ
  pub sender_id_size_bytes : ℕ
  pub chunk_size_bytes : ℤ
  pub total_size_bytes : ℤ

-- The 32-bit pattern that a bitwise operation of JavaScript takes of a number, and the number that
-- the pattern of a result stands for.
abbrev pub to_pattern : ℤ → ℕ
to_pattern (pos n) = n % 2 ^ 32
to_pattern (negsuc n) = 2 ^ 32 - 1 - n % 2 ^ 32

abbrev pub to_int32 : ℕ → ℤ
to_int32 w = if ltb w (2 ^ 31) then pos w else negsuc (2 ^ 32 - 1 - w)

-- `a << k`, as a pattern.
abbrev shift_left : ℕ → ℕ → ℕ
shift_left a k = (a * 2 ^ k) % 2 ^ 32

-- (n & mask) >> k
abbrev byte_of : ℕ → ℕ → ℕ → ℕ
byte_of n mask k = bit_and n mask / 2 ^ k

unfoldable pub encode_header : Header → List ℕ
encode_header h =
    let chunk_size = to_pattern h.chunk_size_bytes in
    let total_size = to_pattern h.total_size_bytes in
    byte_of h.message_id 0xFF00 8
    ∷ byte_of h.message_id 0x00FF 0
    ∷ byte_of h.chunk_num 0xFF00 8
    ∷ byte_of h.chunk_num 0x00FF 0
    ∷ byte_of h.total_chunks 0xFF00 8
    ∷ byte_of h.total_chunks 0x00FF 0
    ∷ byte_of h.sender_id_size_bytes 0xFF00 8
    ∷ byte_of h.sender_id_size_bytes 0x00FF 0
    ∷ byte_of chunk_size 0x7F000000 24
    ∷ byte_of chunk_size 0x00FF0000 16
    ∷ byte_of chunk_size 0x0000FF00 8
    ∷ byte_of chunk_size 0x000000FF 0
    ∷ byte_of total_size 0x7F000000 24
    ∷ byte_of total_size 0x00FF0000 16
    ∷ byte_of total_size 0x0000FF00 8
    ∷ byte_of total_size 0x000000FF 0
    ∷ []

-- `data[i]`; past the end it is `undefined`, which a bitwise operation takes for 0.
abbrev byte_at : List ℕ → ℕ → ℕ
byte_at bytes i = get_or bytes i 0

-- data[i] << 8 | data[i + 1]
read_16 : ℕ → ℕ → ℕ
read_16 a b = bit_or (shift_left a 8) b

-- data[i] << 24 | data[i + 1] << 16 | data[i + 2] << 8 | data[i + 3]
read_32 : ℕ → ℕ → ℕ → ℕ → ℤ
read_32 a b c d =
    to_int32 (bit_or (bit_or (bit_or (shift_left a 24) (shift_left b 16)) (shift_left c 8)) d)

unfoldable pub decode_header : List ℕ → Header
unfolding read_16 read_32
decode_header bytes = record {
  message_id = read_16 (byte_at bytes 0) (byte_at bytes 1);
  chunk_num = read_16 (byte_at bytes 2) (byte_at bytes 3);
  total_chunks = read_16 (byte_at bytes 4) (byte_at bytes 5);
  sender_id_size_bytes = read_16 (byte_at bytes 6) (byte_at bytes 7);
  chunk_size_bytes =
      read_32 (byte_at bytes 8) (byte_at bytes 9) (byte_at bytes 10) (byte_at bytes 11);
  total_size_bytes =
      read_32 (byte_at bytes 12) (byte_at bytes 13) (byte_at bytes 14) (byte_at bytes 15);
}
