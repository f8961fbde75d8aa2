-- ===== src/Codec/Encoder.antt =====
-- The encoder (src/client/codec/index.ts, `Encoder`): it numbers the messages and hands them to its
-- worker. `setTimeout` runs the posts in the order of the calls, so that they form a queue.
pub mod Ids
pub mod Waiting
use meeting.Prelude.{
  ℕ, ◌+◌, ◌^◌, List, [], ◌∷◌, ◌++◌, Option, none, some, String, leb, if◌then◌else◌, ◌==◌,
}
use meeting.Codec.Header.{header_size_bytes}
use meeting.Codec.Decoder.{DataContainer}
use meeting.Codec.Worker.{
  WorkerPayload, Event, chunked, done, failed, DoneEvent, ErrorEvent, on_message,
}

abbrev pub max_message_id : ℕ
max_message_id = 2 ^ 16

pub record Encoder : Type 0 where
  pub counter : ℕ
  pub max_message_size_bytes : ℕ
  pub queue : List WorkerPayload

-- The constructor throws where the header alone would fill a message.
unfoldable pub new_encoder : ℕ → Option Encoder
new_encoder max_message_size_bytes =
    if leb max_message_size_bytes header_size_bytes
    then none
    else some (record { counter = 0; max_message_size_bytes = max_message_size_bytes; queue = [] })

-- ++this.counter, and back to 1 past the last identifier.
unfoldable pub next_id : ℕ → ℕ
next_id counter = if leb max_message_id (counter + 1) then 1 else counter + 1

-- `TextEncoder.encode` belongs to the platform: `encode_text` stands for it.
module _ (encode_text : String → List ℕ) where
  unfoldable pub payload_of : Encoder → DataContainer → WorkerPayload
  payload_of e container = record {
    message_id = next_id e.counter;
    max_message_size_bytes = e.max_message_size_bytes;
    bytes = container.bytes;
    sender_id = container.sender_id;
    sender_id_bytes = encode_text container.sender_id;
  }

  -- The identifier of the message, and the encoder with the message in its queue.
  unfoldable pub encode : Encoder → DataContainer → ℕ × Encoder
  encode e container = (
    next_id e.counter,
    record e { counter = next_id e.counter; queue = e.queue ++ payload_of e container ∷ [] },
  )

-- How the promise of `waitFor` settles.
pub data Settled : Type 0 where
  resolved : DoneEvent → Settled
  rejected : String → Settled

-- `waitFor(messageId)`: the first event that ends the message settles the promise, and its listeners
-- are gone then. `none`: it is still pending after these events.
unfoldable pub wait_for : ℕ → List Event → Option Settled
wait_for message_id [] = none
wait_for message_id (chunked e ∷ events) = wait_for message_id events
wait_for message_id (done e ∷ events) =
    if e.message_id == message_id then some (resolved e) else wait_for message_id events
wait_for message_id (failed e ∷ events) =
    if e.message_id == message_id then some (rejected e.error) else wait_for message_id events
