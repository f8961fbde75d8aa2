-- ===== src/Codec/Decoder/Delivery.antt =====
-- A message's chunks, delivered in any order among the input of other messages.
use mathlib.Core.List.{Perm}
use meeting.Prelude.{
  ℕ, zero, suc, ◌+◌, ◌-◌, ◌<◌, ◌≡◌, ◌≢◌, refl, ap₂, ◌∙◌, List, [], ◌∷◌, ◌++◌, true, ◌||◌, none,
  some, String, length, replicate, arith,
}
use meeting.Codec.Header.{Header}
use meeting.Codec.Worker.{WorkerPayload, total_chunks}
use meeting.Codec.Worker.Chunks.{header_at, chunk_at, up_from}
use meeting.Codec.Decoder.{
  ChunkContainer, Decoder, Outcome, waiting, complete, container_for, id_of, decode,
}
use meeting.Codec.Decoder.Numbers.{AllBelow, length_of_perm, elem_of_perm, below_of_perm}
use meeting.Codec.Decoder.Step.{
  IsSendable, IsFilled, elem, fresh_container, fresh_container-IsFilled, container_for-none,
  with_chunk, overlay-IsFilled,
}
use meeting.Codec.Decoder.Reassembly.{
  key, entry, decode-entry, decode-chunk_at, receive-waiting, receive-complete,
}

-- What reaches the decoder: a chunk of the message at hand, by its number, or other input.
pub data Delivery : Type 0 where
  ours : ℕ → Delivery
  foreign : List ℕ → Delivery

abbrev pub numbers : List Delivery → List ℕ
numbers [] = []
numbers (ours c ∷ t) = c ∷ numbers t
numbers (foreign input ∷ t) = numbers t

module _ (decode_text : List ℕ → String) (p : WorkerPayload) where
  -- The calls of `decode`, one after the other: what those on the message's own chunks give, and
  -- the state at the end.
  unfoldable pub deliver : List Delivery → Decoder → List Outcome × Decoder
  deliver [] d = ([], d)
  deliver (ours c ∷ t) d =
      let (o, d') = decode decode_text (chunk_at p c) d in
      let (os, end) = deliver t d' in (o ∷ os, end)
  deliver (foreign input ∷ t) d = deliver t (decode decode_text input d).1

  -- The other input has other identifiers.
  abbrev pub AreApart : List Delivery → Type 0
  AreApart [] = Unit
  AreApart (ours c ∷ t) = AreApart t
  AreApart (foreign input ∷ t) = (id_of decode_text input ≢ key p) × AreApart t

  deliver-none :
      (t : List Delivery) (d : Decoder)
      → AreApart t
      → length (numbers t) ≡ 0
      → entry p d ≡ none
      → ((deliver t d).0 ≡ []) × (entry p (deliver t d).1 ≡ none)
  unfolding deliver
  deliver-none [] d a e n = (refl, n)
  deliver-none (ours c ∷ t) d a e n = absurd (omega arith)
  deliver-none (foreign input ∷ t) d a e n =
      deliver-none t (decode decode_text input d).1 a.1 e
        (decode-entry decode_text p input d a.0 ∙ n)

  -- What the decoder has of the message once the chunks `received` are in.
  record HasReceived (received : List ℕ) (d : Decoder) : Type 0 where
    container : ChunkContainer
    opens :
        (c : ℕ)
        → c < total_chunks p
        → container_for (entry p d) p.sender_id (header_at p c) ≡ some container
    filled : IsFilled p received container

  container_for-some :
      (k : ChunkContainer) (h : Header) → container_for (some k) p.sender_id h ≡ some k
  unfolding container_for
  container_for-some k h = refl

  fresh : IsSendable p → (d : Decoder) → entry p d ≡ none → HasReceived [] d
  fresh s d e = record {
    container = fresh_container p;
    opens = λ c h. rw e (container_for-none p s c h);
    filled = fresh_container-IsFilled p;
  }

  covered_later :
      (c : ℕ) (later received : List ℕ)
      → ((j : ℕ) → j < total_chunks p → (elem j (c ∷ later) || elem j received) ≡ true)
      → (j : ℕ) → j < total_chunks p
      → (elem j later || elem j (c ∷ received)) ≡ true
  covered_later c later received all j h = ground (arith, all j h)

  covered_last :
      (c : ℕ) (later received : List ℕ)
      → length later ≡ 0
      → ((j : ℕ) → j < total_chunks p → (elem j (c ∷ later) || elem j received) ≡ true)
      → (j : ℕ) → j < total_chunks p
      → elem j (c ∷ received) ≡ true
  covered_last c [] received e all j h = ground (arith, all j h)
  covered_last c (x ∷ later) received e all j h = absurd (omega arith)

  kept :
      (received : List ℕ) (input : List ℕ) (d : Decoder)
      → id_of decode_text input ≢ key p
      → HasReceived received d
      → HasReceived received (decode decode_text input d).1
  kept received input d apart r = record {
    container = r.container;
    opens = λ c h. rw (decode-entry decode_text p input d apart) (r.opens c h);
    filled = r.filled;
  }

  module _ (s : IsSendable p) (reads_back : decode_text p.sender_id_bytes ≡ p.sender_id) where
    added :
        (received : List ℕ) (c : ℕ) (d : Decoder)
        → c < total_chunks p
        → HasReceived received d
        → length received + 1 ≢ total_chunks p
        → let (o, d') = decode decode_text (chunk_at p c) d in
          (o ≡ waiting) × HasReceived (c ∷ received) d'
    added received c d h r ne =
        let k = r.container in
        let k' = with_chunk p s c h k r.filled in
        let out = receive-waiting decode_text p s reads_back c d k h r.filled ne in
        rw (decode-chunk_at decode_text p s reads_back c d k h (r.opens c h) r.filled) (
          out.0,
          record {
            container = with_chunk p s c h k r.filled;
            opens = λ c' h'. rw (out.1) (container_for-some k' (header_at p c'));
            filled = overlay-IsFilled p s c h k r.filled;
          },
        )

    last :
        (received : List ℕ) (c : ℕ) (d : Decoder)
        → c < total_chunks p
        → HasReceived received d
        → length received + 1 ≡ total_chunks p
        → ((j : ℕ) → j < total_chunks p → elem j (c ∷ received) ≡ true)
        → let (o, d') = decode decode_text (chunk_at p c) d in
          (o ≡ complete (record { sender_id = p.sender_id; bytes = p.bytes })) × (entry p d' ≡ none)
    last received c d h r e all =
        rw (decode-chunk_at decode_text p s reads_back c d r.container h (r.opens c h) r.filled)
          (receive-complete decode_text p s reads_back c d r.container h r.filled e all)

    deliver_rest :
        (t : List Delivery) (left : ℕ) (received : List ℕ) (d : Decoder)
        → AreApart t
        → HasReceived received d
        → AllBelow (total_chunks p) (numbers t)
        → length (numbers t) ≡ suc left
        → length received + suc left ≡ total_chunks p
        → ((j : ℕ) → j < total_chunks p → (elem j (numbers t) || elem j received) ≡ true)
        → ((deliver t d).0
            ≡ replicate left waiting
              ++ complete (record { sender_id = p.sender_id; bytes = p.bytes }) ∷ [])
          × (entry p (deliver t d).1 ≡ none)
    unfolding deliver
    deliver_rest [] left received d a r below n m all = absurd (omega arith)
    deliver_rest (foreign input ∷ t) left received d a r below n m all =
        deliver_rest t left received (decode decode_text input d).1 a.1
          (kept received input d a.0 r) below n m all
    deliver_rest (ours c ∷ t) zero received d a r below n m all =
        let done =
          last received c d below.0 r (omega arith)
            (covered_last c (numbers t) received (omega arith) all) in
        let rest = deliver-none t (decode decode_text (chunk_at p c) d).1 a (omega arith) done.1 in
        (ap₂ ◌∷◌ done.0 rest.0, rest.1)
    deliver_rest (ours c ∷ t) (suc left) received d a r below n m all =
        let step = added received c d below.0 r (omega arith) in
        let rest =
          deliver_rest t left (c ∷ received) (decode decode_text (chunk_at p c) d).1 a step.1
            below.1 (omega arith) (omega arith) (covered_later c (numbers t) received all) in
        (ap₂ ◌∷◌ step.0 rest.0, rest.1)

-- Let a message be such that its headers can hold it, with at least one byte. Its chunks, each
-- delivered once and in any order, among any input of other identifiers, to a decoder that holds
-- nothing of the message: all but the last give null, the last gives the sender and the bytes that
-- were encoded, and the decoder holds nothing of the message in the end.
pub deliver_lem :
    (decode_text : List ℕ → String) (p : WorkerPayload) (t : List Delivery) (d : Decoder)
    → IsSendable p
    → decode_text p.sender_id_bytes ≡ p.sender_id
    → 0 < total_chunks p
    → AreApart decode_text p t
    → Perm (numbers t) (up_from 0 (total_chunks p))
    → entry p d ≡ none
    → ((deliver decode_text p t d).0
        ≡ replicate (total_chunks p - 1) waiting
          ++ complete (record { sender_id = p.sender_id; bytes = p.bytes }) ∷ [])
      × (entry p (deliver decode_text p t d).1 ≡ none)
deliver_lem decode_text p t d s reads_back some_chunk apart arranged empty =
    deliver_rest decode_text p s reads_back t (total_chunks p - 1) [] d apart
      (fresh decode_text p s d empty) (below_of_perm (total_chunks p) (numbers t) arranged)
      (omega (arith, length_of_perm (total_chunks p) (numbers t) arranged)) (omega arith)
      (λ j h. ground (arith, elem_of_perm (total_chunks p) (numbers t) arranged j h))
