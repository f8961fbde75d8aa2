-- ===== src/Codec/Worker/Chunks.antt =====
-- What the worker posts, chunk by chunk.
use Prim.Native.Nat.{min}
use mathlib.Core.List.{append_assoc, append-nil, flatten}
use native.Mathlib.Nat.{add-zero, div-add-mod, mod-lt}
use meeting.Prelude.{
  ℕ, zero, suc, ◌+◌, ◌-◌, ◌*◌, ◌/◌, ◌%◌, ◌≤◌, ◌<◌, ◌≡◌, refl, ap, ◌∙◌, List, [], ◌∷◌, ◌++◌, some,
  length, take, drop, map, take-append-drop, length-take, length-drop, length-append, true, false,
  ltb, leb, arith,
}
use meeting.Codec.Bytes.{write_behind, slice, drop_all, drop-drop}
use meeting.Codec.Header.{Header, encode_header}
use meeting.Codec.Header.RoundTrip.{length-encode_header}
use meeting.Codec.Worker.{
  WorkerPayload, done, failed, total_size_bytes, max_chunk_size, data_bytes_in_chunk, total_chunks,
  build_chunk, chunk_size_at, header_of, event_of, chunk_round, post_chunks, on_message,
}

take-min : (n : ℕ) (xs : List ℕ) → take (min n (length xs)) xs ≡ take n xs
take-min zero xs = let e : min 0 (length xs) ≡ 0 = omega arith in rw e
take-min (suc n) [] = let e : min (suc n) 0 ≡ 0 = omega arith in rw e
take-min (suc n) (x ∷ xs) =
    let e : min (suc n) (suc (length xs)) ≡ suc (min n (length xs)) = omega arith in
    rw e (ap (λ r. x ∷ r) (take-min n xs))

-- The numbers from `c` on, `n` of them.
abbrev pub up_from : ℕ → ℕ → List ℕ
up_from c zero = []
up_from c (suc n) = c ∷ up_from (c + 1) n

module _ (p : WorkerPayload) where
  -- The bytes of the message that chunk `c` carries, and the whole of the chunk.
  unfoldable pub part : ℕ → List ℕ
  part c = take (data_bytes_in_chunk p) (drop (c * data_bytes_in_chunk p) p.bytes)

  unfoldable pub header_at : ℕ → Header
  unfolding header_of
  header_at c = header_of p c (length p.sender_id_bytes + length (part c))

  unfoldable pub chunk_at : ℕ → List ℕ
  chunk_at c = encode_header (header_at c) ++ (p.sender_id_bytes ++ part c)

  pub length-part :
      (c : ℕ)
      → length (part c)
        ≡ min (data_bytes_in_chunk p) (total_size_bytes p - c * data_bytes_in_chunk p)
  unfolding part
  length-part c = omega (
    arith,
    length-take (data_bytes_in_chunk p) (drop (c * data_bytes_in_chunk p) p.bytes),
    length-drop (c * data_bytes_in_chunk p) p.bytes,
  )

  -- The three writes of a round fill an array of the right size, and raise no exception.
  build_chunk_lem :
      (header_bytes payload : List ℕ)
      → build_chunk p header_bytes (length p.sender_id_bytes + length payload) payload
        ≡ some (header_bytes ++ (p.sender_id_bytes ++ payload))
  unfolding build_chunk
  build_chunk_lem header_bytes payload =
      let w1 = write_behind [] header_bytes (length p.sender_id_bytes + length payload) in
      let w2 = write_behind header_bytes p.sender_id_bytes (length payload) in
      let w3 = write_behind (header_bytes ++ p.sender_id_bytes) payload 0 in
      rw (w1, w2) (simp (length-append, append_assoc, append-nil, add-zero) at w3)

  chunk_size_lem :
      (c : ℕ)
      → c * data_bytes_in_chunk p < total_size_bytes p
      → 0 < data_bytes_in_chunk p
      → chunk_size_at p (c * data_bytes_in_chunk p) ≡ length p.sender_id_bytes + length (part c)
  unfolding chunk_size_at
  chunk_size_lem c h d =
      let e : data_bytes_in_chunk p ≡ max_chunk_size p - length p.sender_id_bytes =
        unfold data_bytes_in_chunk in refl in
      omega (arith, length-part c, e)

  slice_lem :
      (c : ℕ)
      → slice p.bytes (c * data_bytes_in_chunk p) (c * data_bytes_in_chunk p + length (part c))
        ≡ part c
  unfolding part
  slice_lem c =
      let rest = drop (c * data_bytes_in_chunk p) p.bytes in
      let e : c * data_bytes_in_chunk p + length (part c) - c * data_bytes_in_chunk p
          ≡ min (data_bytes_in_chunk p) (length rest) =
        omega (arith, length-take (data_bytes_in_chunk p) rest) in
      rw e (take-min (data_bytes_in_chunk p) rest)

  chunk_round_lem :
      (c : ℕ)
      → c * data_bytes_in_chunk p < total_size_bytes p
      → 0 < data_bytes_in_chunk p
      → chunk_round p (c * data_bytes_in_chunk p) c
        ≡ some (event_of p c (chunk_at c), length (part c))
  unfolding chunk_round chunk_at header_at
  chunk_round_lem c h d =
      let n : length p.sender_id_bytes + length (part c) - length p.sender_id_bytes
          ≡ length (part c) =
        omega arith in
      rw (chunk_size_lem c h d, n, slice_lem c, build_chunk_lem)

  pub total_chunks_bounds :
      0 < data_bytes_in_chunk p
      → (total_size_bytes p ≤ total_chunks p * data_bytes_in_chunk p)
        × (total_chunks p * data_bytes_in_chunk p < total_size_bytes p + data_bytes_in_chunk p)
  unfolding total_chunks
  total_chunks_bounds d =
      let n = total_size_bytes p + data_bytes_in_chunk p - 1 in
      let e : n / data_bytes_in_chunk p * data_bytes_in_chunk p + n % data_bytes_in_chunk p ≡ n =
        grind (arith, div-add-mod) in
      let r : n % data_bytes_in_chunk p < data_bytes_in_chunk p = mod-lt n d in omega arith

  -- A chunk of the message begins inside it, and ends where the next one begins.
  pub start-lt :
      (c : ℕ)
      → 0 < data_bytes_in_chunk p
      → c < total_chunks p
      → c * data_bytes_in_chunk p < total_size_bytes p
  start-lt c d h =
      let bounds = total_chunks_bounds d in
      let m : suc c * data_bytes_in_chunk p ≤ total_chunks p * data_bytes_in_chunk p =
        grind arith in
      omega arith

  -- The chunk numbers that are left after `c`.
  pub post_chunks_lem :
      (left c fuel offset : ℕ)
      → 0 < data_bytes_in_chunk p
      → c + left ≡ total_chunks p
      → left < fuel
      → offset ≡ min (c * data_bytes_in_chunk p) (total_size_bytes p)
      → post_chunks p fuel offset c ≡ some (map (λ k. event_of p k (chunk_at k)) (up_from c left))
  unfolding post_chunks
  post_chunks_lem zero c zero offset d e f o = absurd (omega arith)
  post_chunks_lem zero c (suc fuel) offset d e f o =
      let all : c * data_bytes_in_chunk p ≡ total_chunks p * data_bytes_in_chunk p =
        ap (λ (t : ℕ). t * data_bytes_in_chunk p) (omega arith) in
      let bounds = total_chunks_bounds d in
      let stop : ltb offset (total_size_bytes p) ≡ false = ground arith in rw (stop, post_chunks)
  post_chunks_lem (suc left) c zero offset d e f o = absurd (omega arith)
  post_chunks_lem (suc left) c (suc fuel) offset d e f o =
      let inside : c * data_bytes_in_chunk p < total_size_bytes p = start-lt c d (omega arith) in
      let o' : offset ≡ c * data_bytes_in_chunk p = omega arith in
      let more : ltb offset (total_size_bytes p) ≡ true = ground arith in
      let next : c * data_bytes_in_chunk p + length (part c)
          ≡ min ((c + 1) * data_bytes_in_chunk p) (total_size_bytes p) =
        omega (arith, length-part c) in
      let rest =
        post_chunks_lem left (c + 1) fuel (c * data_bytes_in_chunk p + length (part c)) d
          (omega arith) (omega arith) next in
      rw (more, post_chunks) (rw o' (rw (chunk_round_lem c inside d) (rw rest)))

  -- There is a round of fuel for each chunk, and one to see the end.
  chunks-le-size_aux :
      (n : ℕ) → total_chunks p ≡ n → 0 < data_bytes_in_chunk p → n ≤ total_size_bytes p
  chunks-le-size_aux zero e d = omega arith
  chunks-le-size_aux (suc c) e d =
      let inside = start-lt c d (omega arith) in
      let grows : c ≤ c * data_bytes_in_chunk p = grind arith in omega arith

  chunks-le-size : 0 < data_bytes_in_chunk p → total_chunks p ≤ total_size_bytes p
  chunks-le-size d = chunks-le-size_aux (total_chunks p) refl d

  -- With room for data the worker posts the chunks in order, then the done event. It raises no
  -- exception and its loop ends.
  pub on_message-chunks :
      0 < data_bytes_in_chunk p
      → on_message p
        ≡ some (
            map (λ k. event_of p k (chunk_at k)) (up_from 0 (total_chunks p))
            ++ done (record { sender_id = p.sender_id; message_id = p.message_id }) ∷ [])
  unfolding on_message
  on_message-chunks d =
      let room : leb (data_bytes_in_chunk p) 0 ≡ false = ground arith in
      let fuel : total_chunks p < suc (total_size_bytes p) = omega (arith, chunks-le-size d) in
      let all =
        post_chunks_lem (total_chunks p) 0 (suc (total_size_bytes p)) 0 d (omega arith) fuel
          (omega arith) in
      rw (room, all)

  -- Without room for data it posts one error event.
  pub on_message-no_room :
      data_bytes_in_chunk p ≡ 0
      → on_message p
        ≡ some (
            failed (record {
              error = "Not enough space for data.";
              sender_id = p.sender_id;
              message_id = p.message_id;
            })
            ∷ [])
  unfolding on_message
  on_message-no_room e = let full : leb (data_bytes_in_chunk p) 0 ≡ true = ground arith in rw full

  -- No chunk is longer than a message of the data channel may be.
  pub length-chunk_at-le :
      (c : ℕ) → 0 < data_bytes_in_chunk p → length (chunk_at c) ≤ p.max_message_size_bytes
  unfolding chunk_at data_bytes_in_chunk
  length-chunk_at-le c d = omega (
    arith,
    length-append (encode_header (header_at c)) (p.sender_id_bytes ++ part c),
    length-append p.sender_id_bytes (part c),
    length-encode_header (header_at c),
    length-part c,
    e,
  )
    where
      e : data_bytes_in_chunk p ≡ p.max_message_size_bytes - 16 - length p.sender_id_bytes
      e = refl

  flatten_parts :
      (left c : ℕ)
      → 0 < data_bytes_in_chunk p
      → c + left ≡ total_chunks p
      → flatten (map part (up_from c left)) ≡ drop (c * data_bytes_in_chunk p) p.bytes
  unfolding part flatten
  flatten_parts zero c d e =
      let all : c * data_bytes_in_chunk p ≡ total_chunks p * data_bytes_in_chunk p =
        ap (λ (t : ℕ). t * data_bytes_in_chunk p) (omega arith) in
      let bounds = total_chunks_bounds d in
      rw (drop_all (c * data_bytes_in_chunk p) p.bytes (omega arith))
  flatten_parts (suc left) c d e =
      let next : (c + 1) * data_bytes_in_chunk p
          ≡ c * data_bytes_in_chunk p + data_bytes_in_chunk p =
        omega arith in
      let ih = flatten_parts left (c + 1) d (omega arith) in
      let split = drop-drop (c * data_bytes_in_chunk p) (data_bytes_in_chunk p) p.bytes in
      rw (ih, next, split, take-append-drop)

  -- The parts that the chunks carry make up the message.
  pub flatten-part :
      0 < data_bytes_in_chunk p → flatten (map part (up_from 0 (total_chunks p))) ≡ p.bytes
  flatten-part d =
      let e : 0 * data_bytes_in_chunk p ≡ 0 = omega arith in
      flatten_parts (total_chunks p) 0 d (omega arith) ∙ ap (λ n. drop n p.bytes) e
