-- ===== src/Codec/RoundTrip.antt =====
-- From `Encoder.encode` through the worker to `Decoder.decode`.
use mathlib.Core.List.{Perm}
use meeting.Prelude.{
  ℕ, zero, suc, ◌-◌, ◌*◌, ◌^◌, ◌≤◌, ◌<◌, ◌≡◌, List, [], ◌∷◌, ◌++◌, none, some, map, String, length,
  replicate, arith,
}
use meeting.Codec.Worker.{
  WorkerPayload, done, total_size_bytes, data_bytes_in_chunk, total_chunks, event_of, on_message,
}
use meeting.Codec.Worker.Chunks.{chunk_at, up_from, on_message-chunks, total_chunks_bounds}
use meeting.Codec.Encoder.{Encoder, payload_of, encode}
use meeting.Codec.Encoder.Ids.{next_id_bounds}
use meeting.Codec.Decoder.{DataContainer, Decoder, waiting, complete}
use meeting.Codec.Decoder.Step.{IsSendable}
use meeting.Codec.Decoder.Reassembly.{entry}
use meeting.Codec.Decoder.Delivery.{Delivery, numbers, deliver, AreApart, deliver_lem}

-- A message, as the encoder hands it over, that is not empty and fits into the headers.
pub record Fits (p : WorkerPayload) : Type 0 where
  pub nonempty : 0 < total_size_bytes p
  pub room : 0 < data_bytes_in_chunk p
  pub total_chunks : total_chunks p < 2 ^ 16
  pub sender_id : length p.sender_id_bytes < 2 ^ 16
  pub max_size : p.max_message_size_bytes < 2 ^ 31
  pub total_size : total_size_bytes p < 2 ^ 31

-- Whatever its counter, the encoder hands over a message with an identifier that fits too.
payload_of-IsSendable :
    (encode_text : String → List ℕ) (e : Encoder) (m : DataContainer)
    → Fits (payload_of encode_text e m)
    → IsSendable (payload_of encode_text e m)
payload_of-IsSendable encode_text e m f = record {
  room = f.room;
  message_id = unfold payload_of in (next_id_bounds e.counter).1;
  total_chunks = f.total_chunks;
  sender_id = f.sender_id;
  max_size = f.max_size;
  total_size = f.total_size;
}

factor_pos : (n d t : ℕ) → t ≤ n * d → 0 < t → 0 < n
factor_pos zero d t h p = absurd (omega arith)
factor_pos (suc n) d t h p = omega arith

total_chunks_pos : (p : WorkerPayload) → Fits p → 0 < total_chunks p
total_chunks_pos p f =
    factor_pos (total_chunks p) (data_bytes_in_chunk p) (total_size_bytes p)
      (total_chunks_bounds p f.room).0 f.nonempty

-- Let a message that is not empty and fits into the headers be encoded, for a sender whose name the
-- platform's text decoder reads back. The worker posts its chunks in order, then the done event.
-- Delivered once each, in any order and among any input with other identifiers, to a decoder that
-- holds nothing of the message, the chunks give null, and the last to come gives the message. The
-- decoder then holds nothing of it.
pub decode-encode :
    (encode_text : String → List ℕ) (decode_text : List ℕ → String) (e : Encoder)
    (m : DataContainer) (t : List Delivery) (d : Decoder)
    → decode_text (encode_text m.sender_id) ≡ m.sender_id
    → Fits (payload_of encode_text e m)
    → AreApart decode_text (payload_of encode_text e m) t
    → Perm (numbers t) (up_from 0 (total_chunks (payload_of encode_text e m)))
    → entry (payload_of encode_text e m) d ≡ none
    → let p = payload_of encode_text e m in
      (on_message p
        ≡ some (
            map (λ k. event_of p k (chunk_at p k)) (up_from 0 (total_chunks p))
            ++ done (record { sender_id = m.sender_id; message_id = (encode encode_text e m).0 })
              ∷ []))
      × ((deliver decode_text p t d).0 ≡ replicate (total_chunks p - 1) waiting ++ complete m ∷ [])
      × (entry p (deliver decode_text p t d).1 ≡ none)
unfolding encode payload_of
decode-encode encode_text decode_text e m t d reads_back f apart arranged empty =
    let p = payload_of encode_text e m in
    let s = payload_of-IsSendable encode_text e m f in
    let received =
      deliver_lem decode_text p t d s reads_back (total_chunks_pos p f) apart arranged empty in
    (on_message-chunks p f.room, received.0, received.1)
