-- ===== src/InsertableStreams/Client.antt =====
-- The page's side of the encryption (src/client/insertable-streams/index.ts, `InsertableStreamsCodec`).
-- A sender or receiver is a number. `createEncodedStreams` belongs to the platform: each call that may
-- request the streams takes what it answers as an argument, `true` for streams and `false` for none.
pub mod Once
use meeting.SocketEvent.{TrackMetadata}
use meeting.Prelude.{
  ℕ, String, List, [], ◌∷◌, Bool, true, false, ◌&&◌, ◌||◌, not, Option, none, some, ◌==◌,
  if◌then◌else◌,
}

-- What is posted to the worker; streams are named by whose they are.
pub data Message : Type 0 where
  init : String → String → Message
  password : String → Message
  metadata : List TrackMetadata → Message
  encrypt : ℕ → Message
  decrypt : String → String → Option ℕ → Message

pub record Client : Type 0 where
  pub has_worker : Bool
  pub senders_receivers : List ℕ
  -- What was posted so far, the latest first.
  pub posted : List Message

unfoldable pub has : ℕ → List ℕ → Bool
has x [] = false
has x (y ∷ ys) = (y == x) || has x ys

unfoldable pub post_message : Message → Client → Bool × Client
post_message m c = if c.has_worker then (true, record c { posted = m ∷ c.posted }) else (false, c)

-- The constructor, by what the environment has: `URL.createObjectURL`, `createEncodedStreams`, and a worker
-- that can be created.
unfoldable pub new_client : Bool → Bool → Bool → String → String → Client
new_client has_url has_streams creates url user_id =
    let none_yet : Client = record { has_worker = false; senders_receivers = []; posted = [] } in
    if has_url && (has_streams && creates)
    then (post_message (init url user_id) (record none_yet { has_worker = true })).1
    else none_yet

unfoldable pub set_password : String → Client → Bool × Client
set_password p c = post_message (password p) c

unfoldable pub set_track_metadata : List TrackMetadata → Client → Bool × Client
set_track_metadata m c = post_message (metadata m) c

unfoldable pub encrypt_sender : ℕ → Bool → Client → Bool × Client
encrypt_sender sender available c =
    let seen : Client = record c { senders_receivers = sender ∷ c.senders_receivers } in
    if not c.has_worker
    then (false, c)
    else if has sender c.senders_receivers
    then (true, c)
    else if available
    then (true, record seen { posted = encrypt sender ∷ c.posted })
    else (false, seen)

unfoldable pub decrypt_receiver : ℕ → String → String → Bool → Client → Bool × Client
decrypt_receiver receiver mid user_id available c =
    if not c.has_worker
    then (false, c)
    else if has receiver c.senders_receivers
    then (true, record c { posted = decrypt mid user_id none ∷ c.posted })
    else if available
    then (
      true,
      record c {
        senders_receivers = receiver ∷ c.senders_receivers;
        posted = decrypt mid user_id (some receiver) ∷ c.posted;
      },
    )
    else (false, c)

-- A call of a method, with what the platform answers to it.
pub data Call : Type 0 where
  ask_password : String → Call
  ask_metadata : List TrackMetadata → Call
  ask_encrypt : ℕ → Bool → Call
  ask_decrypt : ℕ → String → String → Bool → Call

unfoldable pub call : Call → Client → Bool × Client
call (ask_password p) c = set_password p c
call (ask_metadata m) c = set_track_metadata m c
call (ask_encrypt sender available) c = encrypt_sender sender available c
call (ask_decrypt receiver mid user_id available) c =
    decrypt_receiver receiver mid user_id available c

unfoldable pub calls : List Call → Client → Client
calls [] c = c
calls (x ∷ xs) c = calls xs (call x c).1
