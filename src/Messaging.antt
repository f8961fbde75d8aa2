-- ===== src/Messaging.antt =====
-- Messages of the chat on their way out (src/client/messaging.ts). `JSON.stringify` and the text encoder are the
-- platform's. A peer of which `accepts` says no raises an exception, and the loop goes on.
pub mod Sending
pub mod Delivered
mod Tests
use meeting.Prelude.{ℕ, String, List, [], ◌∷◌, ◌++◌, Bool, true, false, if◌then◌else◌, ◌==◌}
use meeting.Codec.Worker.{Event, chunked, done, failed}
use meeting.Codec.Encoder.{Encoder, encode}
use meeting.Reducers.Messages.{MessageType}
use meeting.Reducers.Nicknames.{me}

-- What goes out: bytes to a peer, or the text of an error to this user.
pub data Output : Type 0 where
  to_peer : ℕ → List ℕ → Output
  notify_error : (message argument : String) → Output

module _ (accepts : ℕ → List ℕ → Bool) where
  -- The listener of `data`: forEach(peers, …) with the exceptions that it catches.
  unfoldable pub on_data : List (String × ℕ) → List ℕ → List Output
  on_data [] chunk = []
  on_data ((id, peer) ∷ peers) chunk =
      let rest = on_data peers chunk in
      if accepts peer chunk then to_peer peer chunk ∷ rest else rest

  unfoldable pub on_event : List (String × ℕ) → Event → List Output
  on_event peers (chunked e) = on_data peers e.chunk
  on_event peers (done e) = []
  on_event peers (failed e) = notify_error "Error sending file: {0}" e.error ∷ []

  unfoldable pub on_events : List (String × ℕ) → List Event → List Output
  on_events peers [] = []
  on_events peers (e ∷ events) = on_event peers e ++ on_events peers events

-- MESSAGE_SEND: the encoder with the message, and the message that is added to the list.
unfoldable pub send_message :
    (String → List ℕ)
    → (MessageType → String)
    → String
    → MessageType
    → Encoder
    → Encoder × MessageType
send_message encode_text stringify user_id m e = (
  (encode encode_text e (record { sender_id = user_id; bytes = encode_text (stringify m) })).1,
  record m { user_id = me },
)
