-- ===== src/Peers.antt =====
-- The peers of a call: how they are made, and what their events and those of the server do
-- (src/client/actions/PeerActions.ts, `createPeer` and `PeerHandler`, src/client/actions/SocketActions.ts,
-- `SocketHandler`). A simple-peer is an object: a number that stands for its place in `objects`. `none` is an exception.
pub mod Socket
pub mod Creating
pub mod Users
pub mod Holding
pub mod Alive
mod Tests
use text.Mathlib.Text.{◌==◌}
use meeting.Prelude.{
  ℕ, String, List, [], ◌∷◌, ◌++◌, Option, none, some, Bool, true, false, not, ◌&&◌, if◌then◌else◌,
  length, get_elem?, set, ◌>>=◌,
}
use Prim.Native.String
use meeting.Prelude.Dict.{Dict, get, put, remove, keys}
use meeting.SocketEvent.{TrackMetadata, MetadataPayload}
use meeting.Reducers.Streams.{Track, AddTrackPayload}
use meeting.Codec.Decoder.{Decoder, DataContainer, Outcome, waiting, complete, range_error, decode}

pub record PeerObject : Type 0 where
  pub user_id : String
  pub initiator : Bool
  pub destroyed : Bool

pub data Level : Type 0 where
  info warning error : Level

pub record LocalMedia : Type 0 where
  pub stream_id : String
  pub tracks : List Track

-- The actions that are dispatched; `Message` are the messages of the chat.
pub data Action (Message : Type 0) : Type 0 where
  notify : Level → String → Option String → Action Message
  peer_add : (user_id : String) → ℕ → Action Message
  peer_remove : (user_id : String) → Action Message
  nickname_remove : (user_id : String) → Action Message
  nicknames_set : Dict String → Action Message
  call_record : Bool → Action Message
  stream_local_record : (record_url room_id user_id : String) → Action Message
  stream_local_stop_record : Action Message
  tracks_metadata : MetadataPayload → Action Message
  stream_track_add : AddTrackPayload → Action Message
  stream_track_remove : Track → Action Message
  message_add : Message → Action Message

-- What else the handlers do, in order: `peer.signal`, `peer.addTrack` with `encrypt` of the sender,
-- `decrypt`, `setTrackMetadata`, `socket.emit('signal', …)`.
pub data Effect (Message : Type 0) : Type 0 where
  dispatched : Action Message → Effect Message
  signalled : ℕ → String → Effect Message
  added_track encrypted : ℕ → Track → String → Effect Message
  decrypted : (user_id mid : String) → Effect Message
  track_metadata_set : List TrackMetadata → Effect Message
  signal_emitted : (user_id signal : String) → Effect Message

-- `closing` are the destroyed peers whose `close` event is to come. `peers` is the state of the reducer of peers; the rest of the store takes part in no decision of the handlers.
pub record Call (Message : Type 0) : Type 0 where
  pub peers : Dict ℕ
  pub objects : List PeerObject
  pub local_streams : List LocalMedia
  pub decoders : List Decoder
  pub closing : List ℕ
  pub effects : List (Effect Message)

unfoldable pub as_destroyed : Option PeerObject → ℕ → List PeerObject → List PeerObject
as_destroyed none peer objects = objects
as_destroyed (some o) peer objects = set objects peer (record o { destroyed = true })

-- The peers whose `close` event is to come.
unfoldable pub closing_after : Option PeerObject → ℕ → List ℕ → List ℕ
closing_after none peer closing = closing
closing_after (some o) peer closing = if o.destroyed then closing else peer ∷ closing

module _ {Message : Type 0} where
  unfoldable pub act : Effect Message → Call Message → Call Message
  act e c = record c { effects = c.effects ++ (e ∷ []) }

  -- The reducer of peers, for the actions that change the map (PEER_ADD, PEER_REMOVE).
  unfoldable pub peers_after : Action Message → Dict ℕ → Dict ℕ
  peers_after (peer_add user_id peer) peers = put user_id peer peers
  peers_after (peer_remove user_id) peers = remove user_id peers
  peers_after _ peers = peers

  unfoldable pub dispatch : Action Message → Call Message → Call Message
  dispatch a c = act (dispatched a) (record c { peers = peers_after a c.peers })

  -- peer.destroy(): the first call is followed by a `close` event, which comes when the handler is done.
  unfoldable pub destroy : ℕ → Call Message → Call Message
  destroy peer c = record c {
    objects = as_destroyed (get_elem? c.objects peer) peer c.objects;
    closing = closing_after (get_elem? c.objects peer) peer c.closing;
  }

  unfoldable pub clean_up : Option ℕ → String → Call Message → Call Message
  clean_up none user_id c = c
  clean_up (some old) user_id c =
      dispatch (peer_remove user_id)
        (destroy old (dispatch (notify info "Cleaning up old connection..." none) c))

  -- new Peer(…), with a handler of its own
  unfoldable pub new_peer : String → Bool → Call Message → Call Message
  new_peer user_id initiator c = record c {
    objects =
        c.objects ++ (record { user_id = user_id; initiator = initiator; destroyed = false } ∷ []);
    decoders = c.decoders ++ (meeting.Codec.Decoder.init ∷ []);
  }

  unfoldable pub create_peer : String → Bool → Call Message → Call Message
  create_peer user_id initiator c =
      let begun = dispatch (notify warning "Connecting to peer..." none) c in
      let cleaned = clean_up (get user_id begun.peers) user_id begun in
      dispatch (peer_add user_id (length cleaned.objects)) (new_peer user_id initiator cleaned)

  -- The events of a peer, `PeerHandler`
  unfoldable pub destroy_found : Option ℕ → Call Message → Call Message
  destroy_found none c = c
  destroy_found (some peer) c = destroy peer c

  unfoldable pub handle_error : String → Call Message → Call Message
  handle_error user_id c =
      let told = dispatch (notify error "A peer connection error occurred" none) c in
      dispatch (peer_remove user_id) (destroy_found (get user_id told.peers) told)

  unfoldable pub handle_signal : String → String → Call Message → Call Message
  handle_signal user_id signal c = act (signal_emitted user_id signal) c

  unfoldable pub send_tracks : ℕ → String → List Track → Call Message → Call Message
  send_tracks peer stream_id [] c = c
  send_tracks peer stream_id (t ∷ ts) c =
      send_tracks peer stream_id ts
        (act (encrypted peer t stream_id) (act (added_track peer t stream_id) c))

  -- `peer` is undefined when it has left the store: `addTrack` raises an exception.
  unfoldable pub send_streams : Option ℕ → List LocalMedia → Call Message → Option (Call Message)
  send_streams peer [] c = some c
  send_streams none (s ∷ streams) c = elim s.tracks [
    | [] ↦ send_streams none streams c
    | t ∷ ts ↦ none
  ]
  send_streams (some peer) (s ∷ streams) c =
      send_streams (some peer) streams (send_tracks peer s.stream_id s.tracks c)

  unfoldable pub handle_connect : String → Call Message → Option (Call Message)
  handle_connect user_id c =
      let told = dispatch (notify warning "Peer connection established" none) c in
      send_streams (get user_id told.peers) told.local_streams told

  unfoldable pub on_mute : Track → Call Message → Call Message
  on_mute track c = dispatch (stream_track_remove track) c

  unfoldable pub on_unmute : String → Track → String → String → Call Message → Call Message
  on_unmute user_id track stream_id mid c =
      dispatch
        (stream_track_add
          (record { mid = mid; stream_id = stream_id; user_id = user_id; track = track }))
        c

  unfoldable pub handle_track :
      String → Track → Bool → String → String → Call Message → Call Message
  handle_track user_id track muted stream_id mid c =
      let asked = act (decrypted user_id mid) c in
      if muted then asked else on_unmute user_id track stream_id mid asked

  unfoldable pub handle_close : String → Call Message → Call Message
  handle_close user_id c =
      dispatch (peer_remove user_id) (dispatch (notify error "Peer connection closed" none) c)

  -- A message of the chat that JSON.parse reads in the text of some data, or an exception.
  module _ (decode_text : List ℕ → String) (parse : String → Option Message) where
    unfoldable pub add_message : Option Message → Call Message → Bool × Call Message
    add_message none c = (false, c)
    add_message (some m) c = (true, dispatch (message_add m) c)

    unfoldable pub handle_decoded : Outcome → Call Message → Bool × Call Message
    handle_decoded waiting c = (true, c)
    handle_decoded (complete m) c = add_message (parse (decode_text m.bytes)) c
    handle_decoded range_error c = (false, c)

    unfoldable pub handle_with : Option Decoder → ℕ → List ℕ → Call Message → Bool × Call Message
    handle_with none peer buffer c = (true, c)
    handle_with (some d) peer buffer c =
        let got = decode decode_text buffer d in
        handle_decoded got.0 (record c { decoders = set c.decoders peer got.1 })

    -- `handleData` of the handler of a peer, and whether it returns.
    unfoldable pub handle_data : ℕ → List ℕ → Call Message → Bool × Call Message
    handle_data peer buffer c = handle_with (get_elem? c.decoders peer) peer buffer c

    -- The messages that a data channel brings, one after the other, and whether every call returns.
    unfoldable pub handle_data_all : ℕ → List (List ℕ) → Call Message → Bool × Call Message
    handle_data_all peer [] c = (true, c)
    handle_data_all peer (b ∷ bs) c =
        let first = handle_data peer b c in
        let rest = handle_data_all peer bs first.1 in (first.0 && rest.0, rest.1)
