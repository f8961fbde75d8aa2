-- ===== src/Codec/Decoder.antt =====
-- The decoder (src/client/codec/index.ts, `Decoder`), which puts the chunks of a message together.
-- `new Uint8Array` and `set` raise a RangeError where their arguments are out of range; a call that
-- raises leaves behind what was written before.
pub mod Step
pub mod Numbers
pub mod Reassembly
pub mod Delivery
use meeting.Prelude.{
  ℕ, ◌+◌, ◌≤◌, List, Option, none, some, Bool, true, false, String, ℤ, pos, negsuc, ◌-ℤ◌, ◌*ℤ◌,
  length, drop, if◌then◌else◌, ◌==◌,
}
use meeting.Prelude.Dict
use meeting.Prelude.Dict.{Dict}
use meeting.Prelude.Decimal.{numbered}
use meeting.Codec.Bytes.{zeros, write, slice}
use meeting.Codec.Header.{Header, header_size_bytes, decode_header}

pub record DataContainer : Type 0 where
  pub sender_id : String
  pub bytes : List ℕ

pub record ChunkContainer : Type 0 where
  pub sender_id : String
  pub bytes : List ℕ
  pub chunks_received : ℕ
  pub total_chunks : ℕ

pub record Decoder : Type 0 where
  pub chunks_by_message_id : Dict ChunkContainer

abbrev pub init : Decoder
init = record { chunks_by_message_id = Dict.empty }

-- What a call of `decode` gives: `null`, a whole message, or an exception.
pub data Outcome : Type 0 where
  waiting : Outcome
  complete : DataContainer → Outcome
  range_error : Outcome

-- `new Uint8Array(n)`
unfoldable pub new_array : ℤ → Option (List ℕ)
new_array (pos n) = some (zeros n)
new_array (negsuc n) = none

-- `target.set(source, offset)` at an offset that may be negative.
unfoldable pub set_bytes : List ℕ → List ℕ → ℤ → Option (List ℕ)
set_bytes target source (pos offset) = write target source offset
set_bytes target source (negsuc n) = none

-- The container of the message, made anew with its first chunk.
unfoldable pub container_for : Option ChunkContainer → String → Header → Option ChunkContainer
unfolding new_array
container_for (some container) sender_id header = some container
container_for none sender_id header = elim (new_array header.total_size_bytes) [
  | none ↦ none
  | some bytes ↦ some (record {
    sender_id = sender_id;
    bytes = bytes;
    chunks_received = 0;
    total_chunks = header.total_chunks;
  })
]

-- Where the data of a chunk goes: the last one is counted from the end.
unfoldable pub offset_of : Header → ChunkContainer → ℤ
offset_of header container =
    let data_size = header.chunk_size_bytes -ℤ pos header.sender_id_size_bytes in
    if header.chunk_num + 1 == header.total_chunks
    then pos (length container.bytes) -ℤ data_size
    else pos header.chunk_num *ℤ data_size

-- The state with the bytes written, and whether the message is whole.
unfoldable pub receive : String → ChunkContainer → Option (List ℕ) → Decoder → Outcome × Decoder
receive id container none d =
    (range_error, record { chunks_by_message_id = Dict.put id container d.chunks_by_message_id })
receive id container (some bytes) d =
    let received = container.chunks_received + 1 in
    let kept =
      Dict.put id (record container { bytes = bytes; chunks_received = received })
        d.chunks_by_message_id in
    if received == container.total_chunks
    then (
      complete (record { sender_id = container.sender_id; bytes = bytes }),
      record { chunks_by_message_id = Dict.remove id kept },
    )
    else (waiting, record { chunks_by_message_id = kept })

-- `this.chunksByMessageId[id]` is written before `set` can raise, and not if `new Uint8Array` does.
unfoldable pub store :
    List ℕ → Header → String → Option ChunkContainer → Decoder → Outcome × Decoder
store input header id none d = (range_error, d)
store input header id (some container) d =
    let data_start = header_size_bytes + header.sender_id_size_bytes in
    receive id container
      (set_bytes container.bytes (drop data_start input) (offset_of header container)) d

-- `TextDecoder.decode` belongs to the platform: `decode_text` stands for it.
module _ (decode_text : List ℕ → String) where
  unfoldable pub sender_of : List ℕ → String
  sender_of input = decode_text (
      slice input header_size_bytes
        (header_size_bytes + (decode_header input).sender_id_size_bytes))

  unfoldable pub id_of : List ℕ → String
  id_of input = numbered (sender_of input) (decode_header input).message_id

  unfoldable pub decode : List ℕ → Decoder → Outcome × Decoder
  decode input d =
      let header = decode_header input in
      let id = id_of input in
      store input header id
        (container_for (Dict.get id d.chunks_by_message_id) (sender_of input) header) d
