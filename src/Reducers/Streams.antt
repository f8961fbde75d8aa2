-- ===== src/Reducers/Streams.antt =====
-- The streams of the other users (src/client/reducers/streams.ts: tracks that come and go, metadata, peers
-- that leave). A MediaStream is an object: a number that stands for its place in `media_streams`.
-- Reading `undefined` where the source goes on is written out; an exception is `none`.
pub mod Association
pub mod Entries
pub mod Invariant
pub mod Removing
pub mod Adding
pub mod Peers
pub mod Local
mod Tests
use Prim.Native.String
use text.Mathlib.Text.{◌==◌}
use meeting.Prelude.{
  ℕ, zero, suc, String, List, [], ◌∷◌, ◌++◌, Option, none, some, Bool, true, false, not, ◌&&◌,
  length, get_elem?, set, map, if◌then◌else◌, ◌>>=◌,
}
use meeting.Prelude.Dict.{Dict, empty, get, put, remove, keys}
use meeting.Prelude.Decimal.{codes}
use meeting.SocketEvent.{TrackMetadata}
use meeting.Reducers.Messages.{starts_with}

pub record Track : Type 0 where
  pub id : String
  pub kind : String
  pub label : String

-- The platform: the tracks of a MediaStream after `addTrack` and `removeTrack`, and `createObjectURL`, which
-- may raise an exception.
pub record MediaPlatform : Type 0 where
  pub add : Track → List Track → List Track
  pub drop_track : Track → List Track → List Track
  pub create_object_url : ℕ → Option String

pub record StreamWithUrl : Type 0 where
  pub stream : ℕ
  pub stream_id : String
  pub url : Option String

pub record UserStreams : Type 0 where
  pub user_id : String
  pub streams : List StreamWithUrl

pub record TrackAssociation : Type 0 where
  pub stream_id : String
  pub user_id : String

pub record TrackInfo : Type 0 where
  pub track : Track
  pub mid : String
  pub association : Option TrackAssociation

-- The state, with the objects that it refers to and the addresses that were revoked.
pub record StreamsState : Type 0 where
  pub streams_by_user_id : Dict UserStreams
  pub metadata_by_peer_id_mid : Dict TrackMetadata
  pub track_id_to_peer_id_mid : Dict String
  pub tracks_by_peer_id_mid : Dict TrackInfo
  pub media_streams : List (List Track)
  pub revoked : List String

pub record AddTrackPayload : Type 0 where
  pub mid : String
  pub stream_id : String
  pub user_id : String
  pub track : Track

unfoldable pub get_peer_id_mid : String → String → String
get_peer_id_mid user_id mid = String.◌++◌ user_id (String.◌++◌ "::" mid)

unfoldable pub or_payload : Option TrackMetadata → String → String → TrackAssociation
or_payload none user_id stream_id = record { user_id = user_id; stream_id = stream_id }
or_payload (some m) user_id stream_id = record { user_id = m.user_id; stream_id = m.stream_id }

-- `getUserId`
unfoldable pub get_stream_user : StreamsState → AddTrackPayload → TrackAssociation
get_stream_user state p =
    or_payload (get (get_peer_id_mid p.user_id p.mid) state.metadata_by_peer_id_mid) p.user_id
      p.stream_id

unfoldable pub find_stream : String → List StreamWithUrl → Option StreamWithUrl
find_stream stream_id [] = none
find_stream stream_id (x ∷ xs) =
    if x.stream_id == stream_id then some x else find_stream stream_id xs

-- `filter(_s => _s !== s)`: each entry has a MediaStream of its own.
unfoldable pub without_stream : ℕ → List StreamWithUrl → List StreamWithUrl
without_stream stream [] = []
without_stream stream (x ∷ xs) =
    let rest = without_stream stream xs in
    if meeting.Prelude.◌==◌ x.stream stream then rest else x ∷ rest

unfoldable pub tracks_of : ℕ → StreamsState → List Track
tracks_of stream state = elim (get_elem? state.media_streams stream) [ none ↦ [] | some ts ↦ ts ]

-- `s.url && revokeObjectURL(s.url)`
unfoldable pub revoke : Option String → List String → List String
revoke none revoked = revoked
revoke (some url) revoked = if url == "" then revoked else url ∷ revoked

unfoldable pub is_empty {ℓ} : {A : Type ℓ} → List A → Bool
is_empty [] = true
is_empty (x ∷ xs) = false

unfoldable pub or_same : StreamsState → Option StreamsState → StreamsState
or_same state none = state
or_same state (some new) = new

-- The entry of a user, removed when no stream is left.
unfoldable pub put_streams :
    String → UserStreams → List StreamWithUrl → Dict UserStreams → Dict UserStreams
put_streams user_id user streams d =
    if is_empty streams then remove user_id d else put user_id (record user { streams = streams }) d

unfoldable pub user_or_new : Option UserStreams → String → UserStreams
user_or_new none user_id = record { user_id = user_id; streams = [] }
user_or_new (some user) user_id = user

module _ (platform : MediaPlatform) where
  -- `removeTrack`, once the stream is found.
  unfoldable pub remove_found :
      Track
      → String
      → TrackInfo
      → TrackAssociation
      → UserStreams
      → StreamWithUrl
      → StreamsState
      → StreamsState
  remove_found track peer_id_mid t a user s state =
      let left = platform.drop_track track (tracks_of s.stream state) in
      let streams = if is_empty left then without_stream s.stream user.streams else user.streams in
      record state {
        streams_by_user_id = put_streams a.user_id user streams state.streams_by_user_id;
        tracks_by_peer_id_mid =
            put peer_id_mid (record { track = track; mid = t.mid; association = none })
              state.tracks_by_peer_id_mid;
        media_streams = set state.media_streams s.stream left;
        revoked = if is_empty left then revoke s.url state.revoked else state.revoked;
      }

  unfoldable pub remove_track : StreamsState → Track → StreamsState
  remove_track state track = or_same state (do
    peer_id_mid ← get track.id state.track_id_to_peer_id_mid
    t ← get peer_id_mid state.tracks_by_peer_id_mid
    a ← t.association
    user ← get a.user_id state.streams_by_user_id
    s ← find_stream a.stream_id user.streams
    some (remove_found track peer_id_mid t a user s state))

  -- The streams of the user and the objects, after the track was added to the stream that is there or to a new one.
  unfoldable pub place :
      Option StreamWithUrl
      → String
      → Track
      → List StreamWithUrl
      → List (List Track)
      → List StreamWithUrl × List (List Track)
  place (some s) stream_id track streams objects = (
    streams,
    set objects s.stream
        (platform.add track (elim (get_elem? objects s.stream) [ none ↦ [] | some ts ↦ ts ])),
  )
  place none stream_id track streams objects =
      let stream = length objects in
      let s : StreamWithUrl = record {
        stream = stream;
        stream_id = stream_id;
        url = platform.create_object_url stream;
      } in
      (streams ++ (s ∷ []), objects ++ (platform.add track [] ∷ []))

  unfoldable pub add_track : StreamsState → AddTrackPayload → StreamsState
  add_track state p =
      let peer_id_mid = get_peer_id_mid p.user_id p.mid in
      let a = get_stream_user state p in
      let user = user_or_new (get a.user_id state.streams_by_user_id) a.user_id in
      let placed =
        place (find_stream a.stream_id user.streams) a.stream_id p.track user.streams
          state.media_streams in
      record state {
        streams_by_user_id =
            put a.user_id (record user { streams = placed.0 }) state.streams_by_user_id;
        track_id_to_peer_id_mid = put p.track.id peer_id_mid state.track_id_to_peer_id_mid;
        tracks_by_peer_id_mid =
            put peer_id_mid (record { track = p.track; mid = p.mid; association = some a })
              state.tracks_by_peer_id_mid;
        media_streams = placed.1;
      }
