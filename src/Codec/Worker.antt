-- ===== src/Codec/Worker.antt =====
-- The encoder's worker (src/client/codec/index.ts, `workerFunc`): one message becomes a row of
-- chunks and an event that says it is done.
pub mod Chunks
pub mod Bounds
use Prim.Native.Nat.{min}
use meeting.Prelude.{
  ℕ, zero, suc, ◌+◌, ◌-◌, ◌/◌, List, [], ◌∷◌, ◌++◌, Option, none, some, ◌>>=◌, true, false, String,
  pos, length, ltb, leb, if◌then◌else◌,
}
use meeting.Codec.Bytes.{zeros, write, slice}
use meeting.Codec.Header.{Header, header_size_bytes, encode_header}

pub record WorkerPayload : Type 0 where
  pub message_id : ℕ
  pub max_message_size_bytes : ℕ
  pub bytes : List ℕ
  pub sender_id : String
  pub sender_id_bytes : List ℕ

pub record ChunkEvent : Type 0 where
  pub message_id : ℕ
  pub chunk_num : ℕ
  pub total_chunks : ℕ
  pub sender_id : String
  pub chunk : List ℕ

pub record DoneEvent : Type 0 where
  pub sender_id : String
  pub message_id : ℕ

pub record ErrorEvent : Type 0 where
  pub error : String
  pub sender_id : String
  pub message_id : ℕ

-- What the worker posts.
pub data Event : Type 0 where
  chunked : ChunkEvent → Event
  done : DoneEvent → Event
  failed : ErrorEvent → Event

module _ (p : WorkerPayload) where
  abbrev pub total_size_bytes : ℕ
  total_size_bytes = length p.bytes

  -- The code tests `dataBytesInChunk <= 0`, and goes on only above 0, where ℕ agrees with it.
  abbrev pub max_chunk_size : ℕ
  max_chunk_size = p.max_message_size_bytes - header_size_bytes

  unfoldable pub data_bytes_in_chunk : ℕ
  data_bytes_in_chunk = max_chunk_size - length p.sender_id_bytes

  -- Math.ceil(totalSizeBytes / dataBytesInChunk)
  unfoldable pub total_chunks : ℕ
  total_chunks = (total_size_bytes + data_bytes_in_chunk - 1) / data_bytes_in_chunk

  -- The new array and the three calls of `set` that fill it.
  unfoldable pub build_chunk : List ℕ → ℕ → List ℕ → Option (List ℕ)
  build_chunk header_bytes chunk_size payload = do
    let fresh = zeros (length header_bytes + chunk_size)
    with_header ← write fresh header_bytes 0
    with_sender ← write with_header p.sender_id_bytes (length header_bytes)
    write with_sender payload (length header_bytes + length p.sender_id_bytes)

  unfoldable pub chunk_size_at : ℕ → ℕ
  chunk_size_at read_offset =
      min max_chunk_size (length p.sender_id_bytes + total_size_bytes - read_offset)

  unfoldable pub header_of : ℕ → ℕ → Header
  header_of chunk_num chunk_size = record {
    message_id = p.message_id;
    chunk_num = chunk_num;
    total_chunks = total_chunks;
    sender_id_size_bytes = length p.sender_id_bytes;
    chunk_size_bytes = pos chunk_size;
    total_size_bytes = pos total_size_bytes;
  }

  unfoldable pub event_of : ℕ → List ℕ → Event
  event_of chunk_num chunk = chunked (record {
    message_id = p.message_id;
    chunk_num = chunk_num;
    total_chunks = total_chunks;
    sender_id = p.sender_id;
    chunk = chunk;
  })

  -- One round of the loop: the event, and the bytes of the message that it takes. `none` is an
  -- exception of `set`.
  unfoldable pub chunk_round : ℕ → ℕ → Option (Event × ℕ)
  chunk_round read_offset chunk_num =
      let chunk_size = chunk_size_at read_offset in
      let read_size = chunk_size - length p.sender_id_bytes in
      let payload = slice p.bytes read_offset (read_offset + read_size) in
      do
        chunk ← build_chunk (encode_header (header_of chunk_num chunk_size)) chunk_size payload
        some (event_of chunk_num chunk, read_size)

  -- The loop `for (chunkNum = 0; readOffset < totalSizeBytes; chunkNum++)`, with fuel. `none` is an
  -- exception or the end of the fuel; both are shown not to occur.
  unfoldable pub post_chunks : ℕ → ℕ → ℕ → Option (List Event)
  post_chunks zero read_offset chunk_num = none
  post_chunks (suc fuel) read_offset chunk_num = elim (ltb read_offset total_size_bytes) [
    | true ↦ do
      (event, read_size) ← chunk_round read_offset chunk_num
      rest ← post_chunks fuel (read_offset + read_size) (chunk_num + 1)
      some (event ∷ rest)
    | false ↦ some []
  ]

  -- `self.onmessage`: the events that it posts. Each round takes at least one byte, so that the
  -- size of the message is fuel enough.
  unfoldable pub on_message : Option (List Event)
  unfolding post_chunks
  on_message =
      if leb data_bytes_in_chunk 0
      then some (
          failed (record {
            error = "Not enough space for data.";
            sender_id = p.sender_id;
            message_id = p.message_id;
          })
          ∷ [])
      else (do
        chunks ← post_chunks (suc total_size_bytes) 0 0
        some (chunks ++ done (record { sender_id = p.sender_id; message_id = p.message_id }) ∷ []))
