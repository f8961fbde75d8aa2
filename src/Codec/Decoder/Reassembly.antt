-- ===== src/Codec/Decoder/Reassembly.antt =====
-- The chunks of a message in any order, among other input.
use meeting.Prelude.{
  ℕ, ◌+◌, ◌*◌, ◌/◌, ◌<◌, ◌≡◌, ◌≢◌, refl, List, ◌∷◌, true, false, Option, none, some, String, length,
  arith, ◌==◌, Bool-cases, inl, inr,
}
use meeting.Prelude.Dict
use meeting.Prelude.Dict.{dict_laws}
use meeting.Prelude.Decimal.{numbered, numbered-injective}
use text.Mathlib.TextPositions.{eq_refl}
use text.Mathlib.TextEquality.{eq_iff}
use meeting.Codec.Bytes.Elements.{overlay, get_elem?_ext}
use meeting.Codec.Worker.{WorkerPayload, data_bytes_in_chunk, total_chunks}
use meeting.Codec.Worker.Chunks.{part, header_at, chunk_at}
use meeting.Codec.Header.{Header, decode_header}
use meeting.Codec.Decoder.{
  ChunkContainer, Decoder, waiting, complete, container_for, receive, store, sender_of, id_of,
  decode,
}
use meeting.Codec.Decoder.Step.{
  IsSendable, IsFilled, elem, with_chunk, overlay-IsFilled, set_bytes-part, chunk_of-lt,
  decode_header-chunk_at, sender_slice, data_slice,
}

module _ (p : WorkerPayload) where
  abbrev pub key : String
  key = numbered p.sender_id p.message_id

  -- What the decoder keeps of the message.
  abbrev pub entry : Decoder → Option ChunkContainer
  entry d = Dict.get key d.chunks_by_message_id

  -- Input that belongs to another message leaves it alone, raise it or not.
  receive-entry :
      (id : String) (k : ChunkContainer) (o : Option (List ℕ)) (d : Decoder)
      → id ≢ key
      → entry (receive id k o d).1 ≡ entry d
  unfolding receive
  receive-entry id k none d ne = rw Dict.get-put (ground (arith, eq_iff id key))
  receive-entry id k (some bytes) d ne =
      elim (Bool-cases (k.chunks_received + 1 == k.total_chunks)) [
        | inl whole ↦ rw whole (simp dict_laws (ground (arith, eq_iff id key)))
        | inr more ↦ rw more (simp dict_laws (ground (arith, eq_iff id key)))
      ]

  store-entry :
      (input : List ℕ) (header : Header) (id : String) (o : Option ChunkContainer) (d : Decoder)
      → id ≢ key
      → entry (store input header id o d).1 ≡ entry d
  unfolding store
  store-entry input header id none d ne = refl
  store-entry input header id (some k) d ne = receive-entry id k _ d ne

module _ (decode_text : List ℕ → String) (p : WorkerPayload) where
  pub decode-entry :
      (input : List ℕ) (d : Decoder)
      → id_of decode_text input ≢ key p
      → entry p (decode decode_text input d).1 ≡ entry p d
  unfolding decode
  decode-entry input d ne = store-entry p input _ _ _ d ne

  module _ (s : IsSendable p) (reads_back : decode_text p.sender_id_bytes ≡ p.sender_id) where
    sender_of-chunk_at :
        (c : ℕ) → c < total_chunks p → sender_of decode_text (chunk_at p c) ≡ p.sender_id
    unfolding sender_of header_at
    sender_of-chunk_at c h =
        rw (decode_header-chunk_at p s c h) (rw (sender_slice p s c) reads_back)

    id_of-chunk_at : (c : ℕ) → c < total_chunks p → id_of decode_text (chunk_at p c) ≡ key p
    unfolding id_of header_at
    id_of-chunk_at c h = rw (sender_of-chunk_at c h, decode_header-chunk_at p s c h)

    -- A call on chunk `c`, where the decoder has the container `k` for it.
    pub decode-chunk_at :
        {received : List ℕ} (c : ℕ) (d : Decoder) (k : ChunkContainer) (h : c < total_chunks p)
        → container_for (entry p d) p.sender_id (header_at p c) ≡ some k
        → IsFilled p received k
        → decode decode_text (chunk_at p c) d
          ≡ receive (key p) k (some (overlay k.bytes (part p c) (c * data_bytes_in_chunk p))) d
    unfolding decode store header_at
    decode-chunk_at c d k h e f =
        rw (decode_header-chunk_at p s c h, sender_of-chunk_at c h, id_of-chunk_at c h)
          (rw e (rw (data_slice p s c, set_bytes-part p s c h k f)))

    -- A chunk that is not the last to come leaves the decoder waiting, with the chunk added.
    pub receive-waiting :
        {received : List ℕ} (c : ℕ) (d : Decoder) (k : ChunkContainer) (h : c < total_chunks p)
        → (f : IsFilled p received k) → length received + 1 ≢ total_chunks p
        → let (o, d') =
            receive (key p) k (some (overlay k.bytes (part p c) (c * data_bytes_in_chunk p))) d in
          (o ≡ waiting) × (entry p d' ≡ some (with_chunk p s c h k f))
    unfolding receive
    receive-waiting c d k h f ne =
        let more : (k.chunks_received + 1 == k.total_chunks) ≡ false =
          ground (arith, f.count, f.total) in
        rw more (refl, simp (Dict.get-put, eq_refl))

    -- The last one to come completes the message, and the decoder forgets it.
    pub receive-complete :
        {received : List ℕ} (c : ℕ) (d : Decoder) (k : ChunkContainer) (h : c < total_chunks p)
        → (f : IsFilled p received k) → length received + 1 ≡ total_chunks p
        → ((j : ℕ) → j < total_chunks p → elem j (c ∷ received) ≡ true)
        → let (o, d') =
            receive (key p) k (some (overlay k.bytes (part p c) (c * data_bytes_in_chunk p))) d in
          (o ≡ complete (record { sender_id = p.sender_id; bytes = p.bytes })) × (entry p d' ≡ none)
    unfolding receive
    receive-complete c d k h f e all =
        let whole : (k.chunks_received + 1 == k.total_chunks) ≡ true =
          ground (arith, f.count, f.total) in
        let g = overlay-IsFilled p s c h k f in
        let same : overlay k.bytes (part p c) (c * data_bytes_in_chunk p) ≡ p.bytes =
          get_elem?_ext _ p.bytes g.size (λ i lt.
            g.holds i (omega (arith, g.size))
              (all (i / data_bytes_in_chunk p) (chunk_of-lt p s i (omega (arith, g.size))))) in
        rw whole (rw (same, f.sender_id) (refl, simp (Dict.get-remove, eq_refl)))

-- Two inputs share a place in the decoder only if they agree on the sender and on the identifier.
pub id_of-injective :
    (decode_text : List ℕ → String) (x y : List ℕ)
    → id_of decode_text x ≡ id_of decode_text y
    → (sender_of decode_text x ≡ sender_of decode_text y)
      × ((decode_header x).message_id ≡ (decode_header y).message_id)
unfolding id_of
id_of-injective decode_text x y e =
    numbered-injective (sender_of decode_text x) (sender_of decode_text y)
      (decode_header x).message_id (decode_header y).message_id e
