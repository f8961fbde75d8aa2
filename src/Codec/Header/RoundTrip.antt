-- ===== src/Codec/Header/RoundTrip.antt =====
-- Headers and their sixteen bytes.
use Prim.Native.Nat.{bit_or}
use meeting.Prelude.{
  ℕ, ◌+◌, ◌*◌, ◌/◌, ◌%◌, ◌^◌, ◌<◌, ◌≡◌, ◌∙◌, refl, ap, List, ◌++◌, ℤ, pos, length, arith,
}
use meeting.Prelude.Bits.{and_7bits, and_8bits, and_byte_up, or_join}
use meeting.Codec.Header.{
  Header, header_size_bytes, to_pattern, byte_of, encode_header, decode_header, read_16, read_32,
}

-- The bytes of a number, by division.
high_byte : (n : ℕ) → byte_of n 0xFF00 8 ≡ n / 256 % 256
high_byte n = omega (arith, and_byte_up n 255, and_8bits (n / 256))

low_byte : (n : ℕ) → byte_of n 0xFF 0 ≡ n % 256
low_byte n = omega (arith, and_8bits n)

byte_2 : (n : ℕ) → byte_of n 0xFF0000 16 ≡ n / 65536 % 256
byte_2 n = omega (arith, and_byte_up n 65280, and_byte_up (n / 256) 255, and_8bits (n / 256 / 256))

byte_3 : (n : ℕ) → byte_of n 0x7F000000 24 ≡ n / 16777216 % 128
byte_3 n = omega (
  arith,
  and_byte_up n 0x7F0000,
  and_byte_up (n / 256) 0x7F00,
  and_byte_up (n / 256 / 256) 127,
  and_7bits (n / 256 / 256 / 256),
)

read_16_lem : (a b : ℕ) → a < 256 → b < 256 → read_16 a b ≡ a * 256 + b
unfolding read_16
read_16_lem a b p q =
    let e : (a * 256) % 2 ^ 32 ≡ a * 256 = omega arith in
    omega (arith, or_join 8 a b q, ap (λ (t : ℕ). bit_or t b) e)

read_32_lem :
    (a b c d : ℕ)
    → a < 128
    → b < 256
    → c < 256
    → d < 256
    → read_32 a b c d ≡ pos (a * 16777216 + b * 65536 + c * 256 + d)
unfolding read_32
read_32_lem a b c d pa pb pc pd =
    let a' : (a * 2 ^ 24) % 2 ^ 32 ≡ a * 2 ^ 24 = omega arith in
    let b' : (b * 2 ^ 16) % 2 ^ 32 ≡ b * 2 ^ 16 = omega arith in
    let c' : (c * 2 ^ 8) % 2 ^ 32 ≡ c * 2 ^ 8 = omega arith in
    let j : bit_or (a * 2 ^ 24) (b * 2 ^ 16) ≡ (a * 256 + b) * 2 ^ 16 =
      omega (arith, or_join 24 a (b * 2 ^ 16) (omega arith)) in
    let k : bit_or ((a * 256 + b) * 2 ^ 16) (c * 2 ^ 8) ≡ (a * 65536 + b * 256 + c) * 2 ^ 8 =
      omega (arith, or_join 16 (a * 256 + b) (c * 2 ^ 8) (omega arith)) in
    let l : bit_or ((a * 65536 + b * 256 + c) * 2 ^ 8) d ≡ a * 16777216 + b * 65536 + c * 256 + d =
      omega (arith, or_join 8 (a * 65536 + b * 256 + c) d pd) in
    rw (a', b', c', j, k, l) (ground arith)

pub length-encode_header : (h : Header) → length (encode_header h) ≡ header_size_bytes
unfolding encode_header
length-encode_header h = refl

-- What of a header fits in its sixteen bytes.
abbrev pub truncate_size : ℤ → ℤ
truncate_size z = pos (to_pattern z % 2 ^ 31)

abbrev pub truncate : Header → Header
truncate h = record {
  message_id = h.message_id % 2 ^ 16;
  chunk_num = h.chunk_num % 2 ^ 16;
  total_chunks = h.total_chunks % 2 ^ 16;
  sender_id_size_bytes = h.sender_id_size_bytes % 2 ^ 16;
  chunk_size_bytes = truncate_size h.chunk_size_bytes;
  total_size_bytes = truncate_size h.total_size_bytes;
}

field_16 : (n : ℕ) → read_16 (byte_of n 0xFF00 8) (byte_of n 0xFF 0) ≡ n % 2 ^ 16
field_16 n =
    rw (high_byte n, low_byte n)
      (omega (arith, read_16_lem (n / 256 % 256) (n % 256) (omega arith) (omega arith)))

field_32 :
    (n : ℕ)
    → read_32
        (byte_of n 0x7F000000 24)
        (byte_of n 0xFF0000 16)
        (byte_of n 0xFF00 8)
        (byte_of n 0xFF 0)
      ≡ pos (n % 2 ^ 31)
field_32 n =
    let e : n / 16777216 % 128 * 16777216 + n / 65536 % 256 * 65536 + n / 256 % 256 * 256 + n % 256
        ≡ n % 2 ^ 31 =
      omega arith in
    rw (byte_3 n, byte_2 n, high_byte n, low_byte n)
      (rw
        (read_32_lem (n / 16777216 % 128) (n / 65536 % 256) (n / 256 % 256) (n % 256) (omega arith)
          (omega arith) (omega arith) (omega arith))
        (ap pos e))

-- Reading back a written header gives its fields cut to sixteen and thirty-one bits, whatever
-- bytes follow.
pub decode_header-encode_header :
    (h : Header) (rest : List ℕ) → decode_header (encode_header h ++ rest) ≡ truncate h
unfolding decode_header encode_header
decode_header-encode_header h rest = λ i. record {
  message_id = field_16 h.message_id i;
  chunk_num = field_16 h.chunk_num i;
  total_chunks = field_16 h.total_chunks i;
  sender_id_size_bytes = field_16 h.sender_id_size_bytes i;
  chunk_size_bytes = field_32 (to_pattern h.chunk_size_bytes) i;
  total_size_bytes = field_32 (to_pattern h.total_size_bytes) i;
}

-- What the header's layout leaves room for.
pub record IsInRange (h : Header) : Type 0 where
  pub message_id : h.message_id < 2 ^ 16
  pub chunk_num : h.chunk_num < 2 ^ 16
  pub total_chunks : h.total_chunks < 2 ^ 16
  pub sender_id_size_bytes : h.sender_id_size_bytes < 2 ^ 16
  pub chunk_size_bytes : (n : ℕ) × (h.chunk_size_bytes ≡ pos n) × (n < 2 ^ 31)
  pub total_size_bytes : (n : ℕ) × (h.total_size_bytes ≡ pos n) × (n < 2 ^ 31)

fits_16 : (n : ℕ) → n < 2 ^ 16 → n % 2 ^ 16 ≡ n
fits_16 n h = omega arith

fits_31 : (z : ℤ) → (n : ℕ) × (z ≡ pos n) × (n < 2 ^ 31) → truncate_size z ≡ z
fits_31 z (n, e, h) = let f : n % 2 ^ 32 % 2 ^ 31 ≡ n = omega arith in rw e (ap pos f)

-- A header whose fields fit is read back as it was written, whatever bytes follow.
pub decode_header-encode_header_in_range :
    (h : Header) (rest : List ℕ) → IsInRange h → decode_header (encode_header h ++ rest) ≡ h
decode_header-encode_header_in_range h rest r = decode_header-encode_header h rest ∙ same
  where
    same : truncate h ≡ h
    same = λ i. record {
      message_id = fits_16 h.message_id r.message_id i;
      chunk_num = fits_16 h.chunk_num r.chunk_num i;
      total_chunks = fits_16 h.total_chunks r.total_chunks i;
      sender_id_size_bytes = fits_16 h.sender_id_size_bytes r.sender_id_size_bytes i;
      chunk_size_bytes = fits_31 h.chunk_size_bytes r.chunk_size_bytes i;
      total_size_bytes = fits_31 h.total_size_bytes r.total_size_bytes i;
    }
