-- ===== src/Reducers/Streams/Local.antt =====
-- The streams of this user, their recording, and the whole reducer (src/client/reducers/streams.ts,
-- `addLocalStream`, `removeLocalStream`, `recordLocalStream`, `setLocalStreamMirror`, `streams`). The local
-- MediaStream objects are in `media_streams` too. `none` is an exception. The variable `isRecording` of the module,
-- which nothing reads, and the requests of the recording peer are left out.
pub mod Recording
pub mod Recorded
pub mod Released
pub mod Run
mod Tests
use text.Mathlib.Text.{◌==◌}
use meeting.Prelude.{
  String, ℕ, List, [], ◌∷◌, ◌++◌, Option, none, some, Bool, true, false, not, ◌&&◌, ◌||◌,
  if◌then◌else◌, map, ◌>>=◌,
}
use meeting.Prelude.Dict.{Dict, empty, get, put, remove}
use meeting.Prelude.Decimal.{codes}
use meeting.SocketEvent.{MetadataPayload}
use meeting.Reducers.Media.{Async, pending, resolved, rejected}
use meeting.Reducers.Messages.{starts_with}
use meeting.Reducers.Streams.{
  Track, MediaPlatform, StreamWithUrl, UserStreams, StreamsState, AddTrackPayload, tracks_of,
  revoke, remove_track, add_track,
}
use meeting.Reducers.Streams.Peers.{set_metadata, unassociate_user_tracks, remove_peer}

-- simple-peer, for the peer that records: what its calls make of it, or an exception.
pub record RecorderPlatform (Peer : Type 0) : Type 0 where
  pub initialize : String → String → ℕ → Peer
  pub streams : Peer → List String
  pub add_stream : ℕ → Peer → Option Peer
  pub remove_stream : ℕ → Peer → Option Peer
  pub destroy : Peer → Peer

-- StreamType
pub data StreamType : Type 0 where
  camera desktop : StreamType

unfoldable pub name_of : StreamType → String
name_of camera = "camera"
name_of desktop = "desktop"

unfoldable pub is_camera : StreamType → Bool
is_camera camera = true
is_camera desktop = false

pub record LocalStream : Type 0 where
  pub stream : ℕ
  pub stream_id : String
  pub url : Option String
  pub stream_type : StreamType
  pub mirror : Bool

pub record AddLocalStreamPayload : Type 0 where
  pub stream_type : StreamType
  pub stream : ℕ
  pub stream_id : String

pub record RecordLocalStreamPayload : Type 0 where
  pub record_url : String
  pub room_id : String
  pub user_id : String

pub record MediaTrackPayload : Type 0 where
  pub track : Option Track
  pub stream_type : StreamType

-- The whole state; `peer_instance` is the variable of the module, `stopped` the tracks that were stopped.
pub record State (Peer : Type 0) : Type 0 where
  pub remote : StreamsState
  pub local_streams : Dict LocalStream
  pub local_recorders : List String
  pub streams_record_url : String
  pub is_recording : Bool
  pub peer_instance : Option Peer
  pub stopped : List String

pub data Action : Type 0 where
  stream_remove : StreamType → Action
  stream_track_add : AddTrackPayload → Action
  stream_track_remove : Track → Action
  stream_local_record : RecordLocalStreamPayload → Action
  stream_local_stop_record : Action
  nickname_remove : String → Action
  tracks_metadata : MetadataPayload → Action
  peer_remove : String → Action
  hang_up : Action
  media_stream : Async AddLocalStreamPayload → Action
  media_track : Async MediaTrackPayload → Action
  other : Action

-- notMirroredRegexp, /back/i
unfoldable pub lower : ℕ → ℕ
lower c =
    if meeting.Prelude.leb 65 c && meeting.Prelude.leb c 90 then meeting.Prelude.◌+◌ c 32 else c

unfoldable pub contains_back : List ℕ → Bool
contains_back [] = false
contains_back (c ∷ cs) = starts_with (codes "back") (c ∷ cs) || contains_back cs

unfoldable pub is_not_mirrored : String → Bool
is_not_mirrored label = contains_back (map lower (codes label))

-- stream.getVideoTracks().find(t => !notMirroredRegexp.test(t.label))
unfoldable pub has_mirrored : List Track → Bool
has_mirrored [] = false
has_mirrored (t ∷ ts) = ((t.kind == "video") && not (is_not_mirrored t.label)) || has_mirrored ts

unfoldable pub has_id : String → List String → Bool
has_id id [] = false
has_id id (x ∷ xs) = (x == id) || has_id id xs

unfoldable pub without_id : String → List String → List String
without_id id [] = []
without_id id (x ∷ xs) = let rest = without_id id xs in if id == x then rest else x ∷ rest

module _ {Peer : Type 0} where
  -- `stopStream`: the tracks of the stream are stopped and its address is revoked. The listeners `onmute` and
  -- `onunmute`, which are set to null, are not part of a track here.
  unfoldable pub stop_stream : ℕ → Option String → State Peer → State Peer
  stop_stream stream url state = record state {
    remote = record state.remote { revoked = revoke url state.remote.revoked };
    stopped = map (λ t. t.id) (tracks_of stream state.remote) ++ state.stopped;
  }

  unfoldable pub stop_all_tracks : List StreamWithUrl → State Peer → State Peer
  stop_all_tracks [] state = state
  stop_all_tracks (s ∷ streams) state = stop_all_tracks streams (stop_stream s.stream s.url state)

  unfoldable pub stop_existing : Option LocalStream → State Peer → State Peer
  stop_existing none state = state
  stop_existing (some s) state = stop_stream s.stream s.url state

  unfoldable pub stop_locals : List (String × LocalStream) → State Peer → State Peer
  stop_locals [] state = state
  stop_locals ((k, s) ∷ rest) state = stop_locals rest (stop_stream s.stream s.url state)

  unfoldable pub stop_users : List (String × UserStreams) → State Peer → State Peer
  stop_users [] state = state
  stop_users ((k, u) ∷ rest) state = stop_users rest (stop_all_tracks u.streams state)

  module _ (r : RecorderPlatform Peer) where
    -- peerInstance.streams!.find(…) || peerInstance.addStream(stream)
    unfoldable pub add_to_recording : Option Peer → ℕ → String → Option Peer
    add_to_recording none stream id = none
    add_to_recording (some peer) stream id =
        if has_id id (r.streams peer) then some peer else r.add_stream stream peer

    unfoldable pub initialize_media_recorder :
        String → String → LocalStream → Option Peer → Option Peer
    initialize_media_recorder room_id user_id s peer =
        if (room_id == "") && (user_id == "")
        then add_to_recording peer s.stream s.stream_id
        else some (r.initialize room_id user_id s.stream)

    -- The recorders of the local streams, and the recording peer after them.
    unfoldable pub record_all :
        RecordLocalStreamPayload
        → List (String × LocalStream)
        → Option Peer
        → Option (List String × Option Peer)
    record_all p [] peer = some ([], peer)
    record_all p ((k, s) ∷ rest) peer = do
      now ← initialize_media_recorder p.room_id p.user_id s peer
      (ids, last) ← record_all p rest (some now)
      some (s.stream_id ∷ ids, last)

    unfoldable pub record_local_stream : State Peer → RecordLocalStreamPayload → Option (State Peer)
    record_local_stream state p = do
      (ids, peer) ← record_all p state.local_streams.entries state.peer_instance
      some (record state {
        local_recorders = ids;
        streams_record_url = p.record_url;
        is_recording = not state.is_recording;
        peer_instance = peer;
      })

    unfoldable pub destroy_instance : Option Peer → Option Peer
    destroy_instance none = none
    destroy_instance (some peer) = some (r.destroy peer)

    unfoldable pub stop_record_local_stream : State Peer → State Peer
    stop_record_local_stream state = record state {
      is_recording = not state.is_recording;
      peer_instance = destroy_instance state.peer_instance;
    }

    unfoldable pub record_additional : State Peer → LocalStream → Option (State Peer)
    record_additional state s = do
      peer ← initialize_media_recorder "" "" s state.peer_instance
      some (record state {
        local_recorders = state.local_recorders ++ (s.stream_id ∷ []);
        peer_instance = some peer;
      })

    unfoldable pub stop_record_additional : State Peer → LocalStream → Option (State Peer)
    stop_record_additional state s = do
      peer ← state.peer_instance
      left ← r.remove_stream s.stream peer
      some (record state {
        local_recorders = without_id s.stream_id state.local_recorders;
        peer_instance = some left;
      })

    unfoldable pub recorders_without : Bool → State Peer → LocalStream → Option (State Peer)
    recorders_without true state s = stop_record_additional state s
    recorders_without false state s = some (record state { local_recorders = [] })

    unfoldable pub remove_existing :
        Option LocalStream → State Peer → StreamType → Option (State Peer)
    remove_existing none state kind = some state
    remove_existing (some s) state kind = do
      next ← recorders_without state.is_recording state s
      some (record next { local_streams = remove (name_of kind) state.local_streams })

    unfoldable pub remove_local_stream : State Peer → StreamType → Option (State Peer)
    remove_local_stream state kind =
        remove_existing (get (name_of kind) state.local_streams) state kind

    unfoldable pub recorders_with : Bool → State Peer → LocalStream → Option (State Peer)
    recorders_with true state s = record_additional state s
    recorders_with false state s = some state

    module _ (platform : MediaPlatform) where
      unfoldable pub with_url : StreamsState → AddLocalStreamPayload → LocalStream
      with_url remote p = record {
        stream = p.stream;
        stream_id = p.stream_id;
        url = platform.create_object_url p.stream;
        stream_type = p.stream_type;
        mirror = is_camera p.stream_type && has_mirrored (tracks_of p.stream remote);
      }

      unfoldable pub add_local_stream : State Peer → AddLocalStreamPayload → Option (State Peer)
      add_local_stream state p =
          let s = with_url state.remote p in
          let stopped = stop_existing (get (name_of p.stream_type) state.local_streams) state in
          do
            next ← recorders_with state.is_recording stopped s
            some (record next { local_streams = put (name_of p.stream_type) s next.local_streams })

      unfoldable pub mirror_existing :
          Option LocalStream → State Peer → Track → StreamType → State Peer
      mirror_existing none state track kind = state
      mirror_existing (some s) state track kind =
          if (track.kind == "video") && is_camera kind
          then record state {
            local_streams =
                put (name_of kind) (record s { mirror = not (is_not_mirrored track.label) })
                  state.local_streams;
          }
          else state

      unfoldable pub mirror_track : Option Track → State Peer → StreamType → State Peer
      mirror_track none state kind = state
      mirror_track (some track) state kind =
          mirror_existing (get (name_of kind) state.local_streams) state track kind

      unfoldable pub set_local_stream_mirror : State Peer → MediaTrackPayload → State Peer
      set_local_stream_mirror state p = mirror_track p.track state p.stream_type

      -- HANG_UP: everything stops; of the state the objects and what was revoked and stopped remain.
      unfoldable pub hang_up_all : State Peer → State Peer
      hang_up_all state =
          let after =
            stop_users state.remote.streams_by_user_id.entries
              (stop_locals state.local_streams.entries state) in
          record {
            remote = record {
              streams_by_user_id = empty;
              metadata_by_peer_id_mid = empty;
              track_id_to_peer_id_mid = empty;
              tracks_by_peer_id_mid = empty;
              media_streams = state.remote.media_streams;
              revoked = after.remote.revoked;
            };
            local_streams = empty;
            local_recorders = [];
            streams_record_url = "";
            is_recording = false;
            peer_instance = destroy_instance state.peer_instance;
            stopped = after.stopped;
          }

      unfoldable pub streams : State Peer → Action → Option (State Peer)
      streams state (stream_remove kind) = remove_local_stream state kind
      streams state (stream_track_add p) =
          some (record state { remote = add_track platform state.remote p })
      streams state (stream_track_remove track) =
          some (record state { remote = remove_track platform state.remote track })
      streams state (stream_local_record p) = record_local_stream state p
      streams state stream_local_stop_record = some (stop_record_local_stream state)
      streams state (nickname_remove user_id) = do
        remote ← unassociate_user_tracks platform state.remote user_id
        some (record state { remote = remote })
      streams state (tracks_metadata p) =
          some (record state { remote = set_metadata platform state.remote p })
      streams state (peer_remove user_id) =
          some (record state { remote = remove_peer platform state.remote user_id })
      streams state hang_up = some (hang_up_all state)
      streams state (media_stream pending) = some state
      streams state (media_stream (resolved p)) = add_local_stream state p
      streams state (media_stream (rejected name message)) = some state
      streams state (media_track pending) = some state
      streams state (media_track (resolved p)) = some (set_local_stream_mirror state p)
      streams state (media_track (rejected name message)) = some state
      streams state other = some state
