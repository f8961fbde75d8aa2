-- ===== src/Messaging/Tests.antt =====
-- A message to one peer, and what it gets.
use meeting.Prelude.{
  ℕ, ◌≡◌, refl, List, [], ◌∷◌, ◌++◌, Option, none, some, true, if◌then◌else◌, ◌==◌, arith, String,
}
use meeting.Prelude.Decimal.{codes}
use meeting.Prelude.Dict.{empty, get}
use meeting.Codec.Worker.{WorkerPayload, Event, data_bytes_in_chunk, total_chunks, on_message}
use meeting.Codec.Encoder.{Encoder, payload_of}
use meeting.Codec.Decoder.{init}
use meeting.Codec.Decoder.Reassembly.{entry}
use meeting.Codec.RoundTrip.{Fits}
use meeting.Reducers.Messages.{MessageType, text}
use meeting.Peers.{Call, dispatched, message_add, handle_data_all}
use meeting.Messaging.{on_events, send_message}
use meeting.Messaging.Sending.{received_by}
use meeting.Messaging.Delivered.{handle_data_all-send_message}

-- A text decoder for texts of two letters.
abbrev two_letters : List ℕ → String
two_letters [] = ""
two_letters (c ∷ cs) = String.◌∷◌ (if c == 97 then "a" else "b") (two_letters cs)

abbrev hello : MessageType
hello = record { user_id = "ab"; payload = text "hello"; timestamp = "now" }

-- A JSON of one message.
abbrev json : MessageType → String
json m = "abba"

abbrev read_json : String → Option MessageType
read_json s = some hello

abbrev first : Encoder
first = record { counter = 0; max_message_size_bytes = 20; queue = [] }

abbrev listening : Call MessageType
listening = record {
  peers = empty;
  objects = [];
  local_streams = [];
  decoders = init ∷ [];
  closing = [];
  effects = [];
}

abbrev hello_payload : WorkerPayload
hello_payload = payload_of codes first (record { sender_id = "ab"; bytes = codes (json hello) })

hello-Fits : Fits hello_payload
unfolding payload_of data_bytes_in_chunk total_chunks
hello-Fits = record {
  nonempty = omega arith;
  room = omega arith;
  total_chunks = omega arith;
  sender_id = omega arith;
  max_size = omega arith;
  total_size = omega arith;
}

nothing_of_hello : entry hello_payload init ≡ none
unfolding get
nothing_of_hello = refl

handle_data_all-send_message_example :
    (events : List Event) × (on_message hello_payload ≡ some events)
    × ((send_message codes json "ab" hello first).0.queue ≡ first.queue ++ (hello_payload ∷ []))
    × (let after =
          handle_data_all two_letters read_json 0
            (received_by 7 (on_events (λ n chunk. true) (("bob", 7) ∷ []) events))
            listening in
        (after.0 ≡ true) × (after.1.effects ≡ dispatched (message_add hello) ∷ []))
handle_data_all-send_message_example =
    handle_data_all-send_message two_letters read_json codes json (λ n chunk. true)
      (("bob", 7) ∷ []) 7 "ab" hello first listening 0 init refl refl refl (λ chunk. refl) refl
      hello-Fits nothing_of_hello refl
