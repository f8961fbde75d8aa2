-- ===== src/Codec/Decoder/Step.antt =====
-- One call of `decode` on a chunk that the worker posted, and on any other input.
use meeting.Prelude.{
  ℕ, suc, ◌+◌, ◌-◌, ◌*◌, ◌/◌, ◌%◌, ◌^◌, ◌≤◌, ◌<◌, ◌≡◌, refl, ap, ◌∙◌, List, [], ◌∷◌, ◌++◌, Bool,
  true, false, ◌||◌, get_elem?, none, some, pos, length, drop, arith, pos-sub, pos-mul, Bool-cases,
  inl, inr, ◌⊎◌, ==_iff, ◌==◌,
}
use native.Mathlib.Nat.{div-add-mod, mod-lt}
use meeting.Codec.Bytes.Elements.{
  get_elem?-take, get_elem?-drop, overlay, write-overlay, length-overlay, overlay-inside,
  overlay-before, overlay-after,
}
use meeting.Codec.Bytes.{
  zeros, length-zeros, slice, drop-append_length, take-append_length, drop-drop,
}
use meeting.Codec.Header.{encode_header, decode_header}
use meeting.Codec.Header.RoundTrip.{
  decode_header-encode_header_in_range, length-encode_header, IsInRange,
}
use meeting.Codec.Worker.{WorkerPayload, data_bytes_in_chunk, total_chunks, total_size_bytes}
use meeting.Codec.Worker.Chunks.{
  part, header_at, chunk_at, length-part, start-lt, total_chunks_bounds,
}
use meeting.Codec.Decoder.{ChunkContainer, container_for, offset_of, set_bytes}

-- What the encoder needs of a message for its headers to hold it.
pub record IsSendable (p : WorkerPayload) : Type 0 where
  pub room : 0 < data_bytes_in_chunk p
  pub message_id : p.message_id < 2 ^ 16
  pub total_chunks : total_chunks p < 2 ^ 16
  pub sender_id : length p.sender_id_bytes < 2 ^ 16
  pub max_size : p.max_message_size_bytes < 2 ^ 31
  pub total_size : total_size_bytes p < 2 ^ 31

module _ (p : WorkerPayload) (s : IsSendable p) where
  data_bytes_lem : 16 + length p.sender_id_bytes + data_bytes_in_chunk p ≡ p.max_message_size_bytes
  unfolding data_bytes_in_chunk
  data_bytes_lem = omega (arith, room)
    where
      room : 0 < p.max_message_size_bytes - 16 - length p.sender_id_bytes
      room = s.room

  part_fits : (c : ℕ) → length p.sender_id_bytes + length (part p c) < 2 ^ 31
  part_fits c = omega (arith, data_bytes_lem, length-part p c, s.max_size)

  header_at-IsInRange : (c : ℕ) → c < total_chunks p → IsInRange (header_at p c)
  unfolding header_at
  header_at-IsInRange c h = record {
    message_id = s.message_id;
    chunk_num = omega (arith, s.total_chunks);
    total_chunks = s.total_chunks;
    sender_id_size_bytes = s.sender_id;
    chunk_size_bytes =
        (length p.sender_id_bytes + length (part p c), refl, omega (arith, part_fits c));
    total_size_bytes = (total_size_bytes p, refl, s.total_size);
  }

  -- The header that the decoder reads is the one that the worker wrote.
  pub decode_header-chunk_at :
      (c : ℕ) → c < total_chunks p → decode_header (chunk_at p c) ≡ header_at p c
  unfolding chunk_at
  decode_header-chunk_at c h =
      decode_header-encode_header_in_range (header_at p c) (p.sender_id_bytes ++ part p c)
        (header_at-IsInRange c h)

  behind_header : (c : ℕ) (rest : List ℕ) → drop 16 (encode_header (header_at p c) ++ rest) ≡ rest
  behind_header c rest =
      rw (length-encode_header (header_at p c)) at
        (drop-append_length (encode_header (header_at p c)) rest)

  pub sender_slice :
      (c : ℕ) → slice (chunk_at p c) 16 (16 + length p.sender_id_bytes) ≡ p.sender_id_bytes
  unfolding chunk_at
  sender_slice c =
      let rest = p.sender_id_bytes ++ part p c in
      let n : 16 + length p.sender_id_bytes - 16 ≡ length p.sender_id_bytes = omega arith in
      rw (behind_header c rest, n) (take-append_length p.sender_id_bytes (part p c))

  pub data_slice : (c : ℕ) → drop (16 + length p.sender_id_bytes) (chunk_at p c) ≡ part p c
  unfolding chunk_at
  data_slice c =
      let rest = p.sender_id_bytes ++ part p c in
      rw
        (
          drop-drop 16 (length p.sender_id_bytes) (encode_header (header_at p c) ++ rest),
          behind_header c rest,
        )
        (drop-append_length p.sender_id_bytes (part p c))

  -- Both ways of computing the offset give the place of the chunk.
  offset_lem :
      (c : ℕ) (container : ChunkContainer)
      → c < total_chunks p
      → length container.bytes ≡ total_size_bytes p
      → offset_of (header_at p c) container ≡ pos (c * data_bytes_in_chunk p)
  unfolding offset_of header_at
  offset_lem c container h e =
      let n = length p.sender_id_bytes in
      let inside = start-lt p c s.room h in
      let bounds = total_chunks_bounds p s.room in
      let size = pos-sub (n + length (part p c)) n (omega arith) in
      let m : n + length (part p c) - n ≡ length (part p c) = omega arith in
      rw (size, m)
        (elim (Bool-cases (c + 1 == total_chunks p)) [
          | inl last ↦
              let all : (c + 1) * data_bytes_in_chunk p ≡ total_chunks p * data_bytes_in_chunk p =
                ap (λ (t : ℕ). t * data_bytes_in_chunk p)
                  ((==_iff (c + 1) (total_chunks p)).0 last) in
              let at_end : total_size_bytes p - length (part p c) ≡ c * data_bytes_in_chunk p =
                omega (arith, length-part p c) in
              rw (last, e)
                (pos-sub (total_size_bytes p) (length (part p c)) (omega (arith, length-part p c))
                  ∙ ap pos at_end)
          | inr before ↦
              let next = start-lt p (c + 1) s.room (ground arith) in
              let full : length (part p c) ≡ data_bytes_in_chunk p =
                omega (arith, length-part p c) in
              rw (before, full) (pos-mul c (data_bytes_in_chunk p))
        ])

abbrev pub elem : ℕ → List ℕ → Bool
elem c [] = false
elem c (x ∷ xs) = x == c || elem c xs

lt_cases : (a b : ℕ) → (a ≡ b) ⊎ (a < b) ⊎ (b < a)
lt_cases a b = grind arith

-- The chunk that an index of the message falls into.
chunk_place :
    (p : WorkerPayload)
    → IsSendable p
    → (i : ℕ)
    → (i / data_bytes_in_chunk p * data_bytes_in_chunk p ≤ i)
      × (i < i / data_bytes_in_chunk p * data_bytes_in_chunk p + data_bytes_in_chunk p)
chunk_place p s i =
    let e : i / data_bytes_in_chunk p * data_bytes_in_chunk p + i % data_bytes_in_chunk p ≡ i =
      grind (arith, div-add-mod) in
    let r = mod-lt i s.room in omega arith

-- Which is one of its chunks.
pub chunk_of-lt :
    (p : WorkerPayload)
    → IsSendable p
    → (i : ℕ) → i < total_size_bytes p
    → i / data_bytes_in_chunk p < total_chunks p
chunk_of-lt p s i h = elim (lt_cases (i / data_bytes_in_chunk p) (total_chunks p)) [
  | inl same ↦ beyond (omega arith)
  | inr (inl below) ↦ below
  | inr (inr above) ↦ beyond (omega arith)
]
  where
    beyond : total_chunks p ≤ i / data_bytes_in_chunk p → i / data_bytes_in_chunk p < total_chunks p
    beyond le =
        let place = chunk_place p s i in
        let bounds = total_chunks_bounds p s.room in
        let m : total_chunks p * data_bytes_in_chunk p
            ≤ i / data_bytes_in_chunk p * data_bytes_in_chunk p =
          grind arith in
        absurd (omega arith)

get_elem?-part :
    (p : WorkerPayload) (c i : ℕ)
    → c * data_bytes_in_chunk p ≤ i
    → i < c * data_bytes_in_chunk p + data_bytes_in_chunk p
    → get_elem? (part p c) (i - c * data_bytes_in_chunk p) ≡ get_elem? p.bytes i
unfolding part
get_elem?-part p c i lo hi =
    let start = c * data_bytes_in_chunk p in
    let e : start + (i - start) ≡ i = omega arith in
    get_elem?-take (data_bytes_in_chunk p) (drop start p.bytes) (i - start) (omega arith)
    ∙ get_elem?-drop start p.bytes (i - start)
    ∙ ap (get_elem? p.bytes) e

-- A container that has the right size and holds the bytes of the chunks `received`.
pub record IsFilled (p : WorkerPayload) (received : List ℕ) (k : ChunkContainer) : Type 0 where
  pub sender_id : k.sender_id ≡ p.sender_id
  pub count : k.chunks_received ≡ length received
  pub total : k.total_chunks ≡ total_chunks p
  pub size : length k.bytes ≡ total_size_bytes p
  pub holds :
      (i : ℕ)
      → i < total_size_bytes p
      → elem (i / data_bytes_in_chunk p) received ≡ true
      → get_elem? k.bytes i ≡ get_elem? p.bytes i

abbrev pub fresh_container : WorkerPayload → ChunkContainer
fresh_container p = record {
  sender_id = p.sender_id;
  bytes = zeros (total_size_bytes p);
  chunks_received = 0;
  total_chunks = total_chunks p;
}

pub fresh_container-IsFilled : (p : WorkerPayload) → IsFilled p [] (fresh_container p)
fresh_container-IsFilled p = record {
  sender_id = refl;
  count = refl;
  total = refl;
  size = length-zeros (total_size_bytes p);
  holds = λ i lt e. cc;
}

module _ (p : WorkerPayload) (s : IsSendable p) (c : ℕ) (h : c < total_chunks p) where
  -- The container that a message starts with.
  pub container_for-none : container_for none p.sender_id (header_at p c) ≡ some (fresh_container p)
  unfolding container_for header_at
  container_for-none = refl

  module _ {received : List ℕ} (k : ChunkContainer) (f : IsFilled p received k) where
    fits : c * data_bytes_in_chunk p + length (part p c) ≤ length k.bytes
    fits = omega (arith, length-part p c, start-lt p c s.room h, f.size)

    written :
        (i : ℕ)
        → i < total_size_bytes p
        → elem (i / data_bytes_in_chunk p) (c ∷ received) ≡ true
        → get_elem? (overlay k.bytes (part p c) (c * data_bytes_in_chunk p)) i ≡ get_elem? p.bytes i
    written i lt e =
        let q = i / data_bytes_in_chunk p in
        let place = chunk_place p s i in
        elim (lt_cases c q) [
          | inl here ↦
              let at : c * data_bytes_in_chunk p ≡ q * data_bytes_in_chunk p =
                ap (λ (t : ℕ). t * data_bytes_in_chunk p) here in
              overlay-inside k.bytes (part p c) (c * data_bytes_in_chunk p) fits i (omega arith)
                (omega (arith, length-part p c))
              ∙ get_elem?-part p c i (omega arith) (omega arith)
          | inr (inl below) ↦
              let apart : suc c * data_bytes_in_chunk p ≤ q * data_bytes_in_chunk p = grind arith in
              overlay-after k.bytes (part p c) (c * data_bytes_in_chunk p) fits i
                (omega (arith, length-part p c))
              ∙ f.holds i lt (ground arith)
          | inr (inr above) ↦
              let apart : suc q * data_bytes_in_chunk p ≤ c * data_bytes_in_chunk p = grind arith in
              overlay-before k.bytes (part p c) (c * data_bytes_in_chunk p) fits i (omega arith)
              ∙ f.holds i lt (ground arith)
        ]

    -- Writing chunk `c` adds it to the chunks that the container holds.
    abbrev pub with_chunk : ChunkContainer
    with_chunk = record k {
      bytes = overlay k.bytes (part p c) (c * data_bytes_in_chunk p);
      chunks_received = k.chunks_received + 1;
    }

    pub overlay-IsFilled : IsFilled p (c ∷ received) with_chunk
    overlay-IsFilled = record {
      sender_id = f.sender_id;
      count = omega (arith, f.count);
      total = f.total;
      size = length-overlay k.bytes (part p c) (c * data_bytes_in_chunk p) fits ∙ f.size;
      holds = written;
    }

    pub set_bytes-part :
        set_bytes k.bytes (part p c) (offset_of (header_at p c) k)
        ≡ some (overlay k.bytes (part p c) (c * data_bytes_in_chunk p))
    unfolding set_bytes
    set_bytes-part =
        rw (offset_lem p s c k h f.size)
          (write-overlay k.bytes (part p c) (c * data_bytes_in_chunk p) fits)
