-- ===== src/Codec/Encoder/Ids.antt =====
-- The identifiers of messages.
use meeting.Prelude.{ℕ, suc, ◌+◌, ◌-◌, ◌%◌, ◌≤◌, ◌<◌, ◌≡◌, ◌≢◌, String, List, [], ◌∷◌, arith}
use meeting.Codec.Decoder.{DataContainer}
use meeting.Codec.Encoder.{Encoder, max_message_id, next_id, encode}

-- Whatever the counter was before, an identifier fits into the header, and is not 0.
pub next_id_bounds : (counter : ℕ) → (1 ≤ next_id counter) × (next_id counter < max_message_id)
unfolding next_id
next_id_bounds counter = ground arith

module _ (encode_text : String → List ℕ) where
  -- The encoder after a row of messages.
  pub encode_all : Encoder → List DataContainer → Encoder
  encode_all e [] = e
  encode_all e (m ∷ ms) = encode_all (encode encode_text e m).1 ms

  -- From a counter in use, identifiers go round in a cycle of 65535.
  next_id_cycle :
      (counter : ℕ) → 1 ≤ counter → counter < max_message_id → next_id counter ≡ counter % 65535 + 1
  unfolding next_id
  next_id_cycle counter lo hi = ground arith

  abbrev count : List DataContainer → ℕ
  count [] = 0
  count (m ∷ ms) = suc (count ms)

  counter-encode_all :
      (e : Encoder) (ms : List DataContainer)
      → 1 ≤ e.counter
      → e.counter < max_message_id
      → (encode_all e ms).counter ≡ (e.counter - 1 + count ms) % 65535 + 1
  unfolding encode_all encode
  counter-encode_all e [] lo hi = omega arith
  counter-encode_all e (m ∷ ms) lo hi =
      let b = next_id_bounds e.counter in
      omega (
        arith,
        counter-encode_all (encode encode_text e m).1 ms b.0 b.1,
        next_id_cycle e.counter lo hi,
      )

  -- Two messages have different identifiers unless the encoder numbered at least 65534 others
  -- between them.
  pub encode_distinct :
      (e : Encoder) (first : DataContainer) (between : List DataContainer) (second : DataContainer)
      → count between < 65534
      → (encode encode_text e first).0
        ≢ (encode encode_text (encode_all (encode encode_text e first).1 between) second).0
  unfolding encode
  encode_distinct e first between second h same =
      let b = next_id_bounds e.counter in
      let e1 = (encode encode_text e first).1 in
      let later = counter-encode_all e1 between b.0 b.1 in
      let c = next_id_bounds ((encode_all e1 between).counter) in
      absurd
        (omega (arith, next_id_cycle (encode_all e1 between).counter (omega arith) (omega arith)))
