-- ===== src/Codec/Tests.antt =====
-- Runs of the codec, and the theorems at concrete input.
use mathlib.Core.List.{Perm, Permᴰ}
use text.Mathlib.TextEquality.{eq_iff}
use Prim.Native.String.{String}
use meeting.Prelude.{
  ℕ, ◌≡◌, ◌≢◌, refl, List, [], ◌∷◌, ◌++◌, none, some, arith, if◌then◌else◌, ◌==◌, pos, negsuc, ◌-ℤ◌,
  ◌*ℤ◌, ◌-◌, map, replicate, ltb,
}
use meeting.Prelude.Decimal.{codes, numbered}
use meeting.Prelude.Dict.{get, put, remove}
use meeting.Codec.Bytes.{write}
use meeting.Codec.Header.{Header, encode_header, decode_header}
use meeting.Codec.Header.RoundTrip.{truncate, decode_header-encode_header}
use meeting.Codec.Worker.Bounds.{AllFit, on_message-AllFit}
use meeting.Codec.Encoder.Ids.{encode_all, encode_distinct}
use meeting.Codec.Encoder.Waiting.{wait_for-on_message}
use meeting.Codec.Worker.{
  WorkerPayload, Event, done, data_bytes_in_chunk, total_chunks, build_chunk, chunk_size_at,
  header_of, event_of, chunk_round, on_message,
}
use meeting.Codec.Worker.Chunks.{chunk_at, header_at, part, up_from}
use meeting.Codec.Encoder.{Encoder, encode, payload_of, next_id, resolved, rejected, wait_for}
use meeting.Codec.Decoder.{
  DataContainer, init, waiting, complete, decode, store, receive, container_for, offset_of,
  set_bytes, new_array, sender_of, id_of,
}
use meeting.Codec.Decoder.Delivery.{Delivery, ours, foreign, deliver}
use meeting.Codec.Decoder.Reassembly.{entry, key, id_of-injective}
use meeting.Codec.RoundTrip.{Fits, decode-encode}

-- A text codec for the names made of two letters.
abbrev read_letters : List ℕ → String
read_letters [] = ""
read_letters (c ∷ cs) = String.◌∷◌ (if c == 97 then "a" else "b") (read_letters cs)

abbrev sample : Header
sample = record {
  message_id = 0xEFA1;
  chunk_num = 0xABCD;
  total_chunks = 1;
  sender_id_size_bytes = 0xFAEB;
  chunk_size_bytes = pos 0x7FABCDEF;
  total_size_bytes = pos 0x7FDACD56;
}

sample_runs : decode_header (encode_header sample) ≡ sample
unfolding decode_header encode_header
sample_runs = refl

-- A size with its top bit set is read as negative.
negative_size :
    (decode_header (0 ∷ 1 ∷ 0 ∷ 0 ∷ 0 ∷ 1 ∷ 0 ∷ 0 ∷ 255 ∷ 255 ∷ 255 ∷ 255 ∷ [])).chunk_size_bytes
    ≡ negsuc 0
unfolding decode_header
negative_size = refl

-- Room for two bytes of data in a chunk, and three bytes of data.
abbrev small : Encoder
small = record { counter = 65535; max_message_size_bytes = 20; queue = [] }

abbrev three : DataContainer
three = record { sender_id = "ab"; bytes = 7 ∷ 8 ∷ 9 ∷ [] }

abbrev backwards : List Delivery
backwards = ours 1 ∷ foreign [] ∷ ours 0 ∷ []

codec : Unit {0}
unfolding encode_header decode_header write data_bytes_in_chunk total_chunks build_chunk
    chunk_size_at header_of event_of chunk_round on_message chunk_at part header_at encode
    payload_of decode store receive container_for offset_of set_bytes new_array sender_of id_of get
    put remove numbered deliver
codec = tt

backwards_runs :
    (deliver read_letters (payload_of codes small three) backwards init).0
    ≡ waiting ∷ complete three ∷ []
unfolding codec ◌-ℤ◌ ◌*ℤ◌ next_id
backwards_runs = refl

foreign_apart : id_of read_letters [] ≢ key (payload_of codes small three)
unfolding id_of sender_of decode_header numbered payload_of next_id
foreign_apart e = cc ((eq_iff _ _).1 e)

three-Fits : Fits (payload_of codes small three)
unfolding payload_of data_bytes_in_chunk total_chunks
three-Fits = record {
  nonempty = omega arith;
  room = omega arith;
  total_chunks = omega arith;
  sender_id = omega arith;
  max_size = omega arith;
  total_size = omega arith;
}

backwards_is_perm : Perm (1 ∷ 0 ∷ []) (up_from 0 (total_chunks (payload_of codes small three)))
unfolding payload_of total_chunks data_bytes_in_chunk
backwards_is_perm = ∣ Permᴰ.swap refl refl ∣₁

nothing_yet : entry (payload_of codes small three) init ≡ none
unfolding get
nothing_yet = refl

abbrev posted : WorkerPayload
posted = payload_of codes small three

decode-encode_example :
    (on_message posted
      ≡ some (
          map (λ k. event_of posted k (chunk_at posted k)) (up_from 0 (total_chunks posted))
          ++ done (record { sender_id = "ab"; message_id = (encode codes small three).0 }) ∷ []))
    × ((deliver read_letters posted backwards init).0
        ≡ replicate (total_chunks posted - 1) waiting ++ complete three ∷ [])
    × (entry posted (deliver read_letters posted backwards init).1 ≡ none)
decode-encode_example =
    decode-encode codes read_letters small three backwards init refl three-Fits (foreign_apart, tt)
      backwards_is_perm nothing_yet

decode_header-encode_header_example :
    decode_header (encode_header sample ++ 7 ∷ []) ≡ truncate sample
decode_header-encode_header_example = decode_header-encode_header sample (7 ∷ [])

wait_for-on_message_example :
    (events : List Event) × (on_message posted ≡ some events)
    × (wait_for 1 (done (record { sender_id = "b"; message_id = 2 }) ∷ events) ≡ (
        if ltb 0 (data_bytes_in_chunk posted)
        then some (resolved (record { sender_id = "ab"; message_id = 1 }))
        else some (rejected "Not enough space for data.")))
unfolding payload_of next_id
wait_for-on_message_example =
    wait_for-on_message posted (done (record { sender_id = "b"; message_id = 2 }) ∷ [])
      ((λ e. absurd (omega arith)), tt)

encode_distinct_example :
    (encode codes small three).0
    ≢ (encode codes (encode_all codes (encode codes small three).1 (three ∷ [])) three).0
encode_distinct_example = encode_distinct codes small three (three ∷ []) three (omega arith)

on_message-AllFit_example : AllFit 20 (
    map (λ k. event_of posted k (chunk_at posted k)) (up_from 0 (total_chunks posted))
    ++ done (record { sender_id = "ab"; message_id = 1 }) ∷ [])
unfolding payload_of encode next_id
on_message-AllFit_example = on_message-AllFit posted _ (decode-encode_example.0)

id_of-injective_example :
    (sender_of read_letters [] ≡ sender_of read_letters (0 ∷ []))
    × ((decode_header []).message_id ≡ (decode_header (0 ∷ [])).message_id)
unfolding id_of sender_of decode_header numbered
id_of-injective_example = id_of-injective read_letters [] (0 ∷ []) refl
