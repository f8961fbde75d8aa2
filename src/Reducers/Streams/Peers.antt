-- ===== src/Reducers/Streams/Peers.antt =====
-- Metadata from the server, users and peers that leave (src/client/reducers/streams.ts, `setMetadata`,
-- `unassociateUserTracks`, `removePeer`).
pub mod Forgotten
pub mod Changes
pub mod Losing
pub mod Assigning
pub mod Metadata
pub mod Removal
pub mod Owning
pub mod Leaving
use Prim.Native.String
use text.Mathlib.Text.{◌==◌}
use meeting.Prelude.{
  String, ℕ, List, [], ◌∷◌, Option, none, some, Bool, true, false, ◌&&◌, set, if◌then◌else◌, ◌>>=◌,
}
use meeting.Prelude.Dict.{Dict, empty, get, put, remove, keys}
use meeting.Prelude.Decimal.{codes}
use meeting.SocketEvent.{TrackMetadata, MetadataPayload}
use meeting.Reducers.Messages.{starts_with}
use meeting.Reducers.Streams.{
  Track, MediaPlatform, StreamWithUrl, UserStreams, TrackInfo, TrackAssociation, StreamsState,
  get_peer_id_mid, tracks_of, remove_track, add_track,
}

-- keyBy(payload.metadata, …)
unfoldable pub key_by : String → List TrackMetadata → Dict TrackMetadata → Dict TrackMetadata
key_by user_id [] d = d
key_by user_id (m ∷ metadata) d = key_by user_id metadata (put (get_peer_id_mid user_id m.mid) m d)

-- omit(d, names)
unfoldable pub omit {ℓ} : {V : Type ℓ} → List String → Dict V → Dict V
omit [] d = d
omit (k ∷ ks) d = omit ks (remove k d)

-- { ...d, ...others }
unfoldable pub spread : List (String × TrackInfo) → Dict TrackInfo → Dict TrackInfo
spread [] d = d
spread ((k, t) ∷ others) d = spread others (put k t d)

-- Object.keys(…).filter(key => key.startsWith(payload.userId + peerIdMidSeparator))
unfoldable pub is_of_peer : String → String → Bool
is_of_peer user_id key = starts_with (codes (String.◌++◌ user_id "::")) (codes key)

unfoldable pub keys_of_peer : String → List String → List String
keys_of_peer user_id [] = []
keys_of_peer user_id (k ∷ ks) =
    let rest = keys_of_peer user_id ks in if is_of_peer user_id k then k ∷ rest else rest

module _ (platform : MediaPlatform) where
  unfoldable pub lose_associated : Option TrackAssociation → Track → StreamsState → StreamsState
  lose_associated none track new = new
  lose_associated (some a) track new = remove_track platform new track

  -- Remove any track the server has lost track of, for one entry of the old state.
  unfoldable pub lose_one : Option TrackMetadata → Option TrackInfo → StreamsState → StreamsState
  lose_one (some m) t new = new
  lose_one none none new = new
  lose_one none (some t) new = lose_associated t.association t.track new

  unfoldable pub lose_tracks :
      List String → Dict TrackMetadata → StreamsState → StreamsState → StreamsState
  lose_tracks [] metadata old new = new
  lose_tracks (k ∷ ks) metadata old new =
      lose_tracks ks metadata old (lose_one (get k metadata) (get k old.tracks_by_peer_id_mid) new)

  -- A round of the second loop, for the track of the old state.
  unfoldable pub associate_again :
      String → TrackMetadata → TrackInfo → Option TrackAssociation → StreamsState → StreamsState
  associate_again user_id m t none new =
      add_track platform new
        (record { mid = m.mid; stream_id = m.stream_id; user_id = user_id; track = t.track })
  associate_again user_id m t (some a) new =
      if (a.stream_id == m.stream_id) && (a.user_id == m.user_id)
      then new
      else add_track platform (remove_track platform new t.track)
          (record { mid = m.mid; stream_id = a.stream_id; user_id = user_id; track = t.track })

  unfoldable pub associate_one :
      String → TrackMetadata → Option TrackInfo → StreamsState → StreamsState
  associate_one user_id m none new = new
  associate_one user_id m (some t) new = associate_again user_id m t t.association new

  unfoldable pub associate_all :
      String → List TrackMetadata → StreamsState → StreamsState → StreamsState
  associate_all user_id [] old new = new
  associate_all user_id (m ∷ metadata) old new =
      associate_all user_id metadata old (
        associate_one user_id m (get (get_peer_id_mid user_id m.mid) old.tracks_by_peer_id_mid) new)

  unfoldable pub set_metadata : StreamsState → MetadataPayload → StreamsState
  set_metadata state p =
      let metadata = key_by p.user_id p.metadata empty in
      let lost = lose_tracks (keys state.tracks_by_peer_id_mid) metadata state state in
      associate_all p.user_id p.metadata state (record lost { metadata_by_peer_id_mid = metadata })

  -- The tracks of one stream: `none` is the exception for a track without an entry.
  unfoldable pub unassociate_tracks :
      List Track → ℕ → Dict TrackInfo → StreamsState → Option (Dict TrackInfo × StreamsState)
  unassociate_tracks [] stream new state = some (new, state)
  unassociate_tracks (track ∷ tracks) stream new state = do
    peer_id_mid ← get track.id state.track_id_to_peer_id_mid
    t ← get peer_id_mid state.tracks_by_peer_id_mid
    unassociate_tracks tracks stream
        (put peer_id_mid (record { track = track; mid = t.mid; association = none }) new)
        (record state {
          media_streams =
              set state.media_streams stream (platform.drop_track track (tracks_of stream state));
        })

  unfoldable pub unassociate_streams :
      List StreamWithUrl → Dict TrackInfo → StreamsState → Option (Dict TrackInfo × StreamsState)
  unassociate_streams [] new state = some (new, state)
  unassociate_streams (s ∷ streams) new state = do
    (now, after) ← unassociate_tracks (tracks_of s.stream state) s.stream new state
    unassociate_streams streams now after

  unfoldable pub unassociate_found :
      Option UserStreams → String → StreamsState → Option StreamsState
  unassociate_found none user_id state = some state
  unassociate_found (some user) user_id state = do
    (new, after) ← unassociate_streams user.streams empty state
    some (record after {
      streams_by_user_id = remove user_id after.streams_by_user_id;
      tracks_by_peer_id_mid = spread new.entries after.tracks_by_peer_id_mid;
    })

  unfoldable pub unassociate_user_tracks : StreamsState → String → Option StreamsState
  unassociate_user_tracks state user_id =
      unassociate_found (get user_id state.streams_by_user_id) user_id state

  unfoldable pub forget_associated : Option TrackAssociation → Track → StreamsState → StreamsState
  forget_associated none track new = record new {
    track_id_to_peer_id_mid = remove track.id new.track_id_to_peer_id_mid;
  }
  forget_associated (some a) track new =
      let without = remove_track platform new track in
      record without { track_id_to_peer_id_mid = remove track.id without.track_id_to_peer_id_mid }

  -- One of the keys to remove, by its track in the old state. The map from track ids is one object in
  -- both states.
  unfoldable pub forget_one : Option TrackInfo → StreamsState → StreamsState
  forget_one none new = new
  forget_one (some t) new = forget_associated t.association t.track new

  unfoldable pub forget_all : List String → StreamsState → StreamsState → StreamsState
  forget_all [] old new = new
  forget_all (k ∷ ks) old new = forget_all ks old (forget_one (get k old.tracks_by_peer_id_mid) new)

  unfoldable pub remove_peer : StreamsState → String → StreamsState
  remove_peer state user_id =
      let gone = keys_of_peer user_id (keys state.tracks_by_peer_id_mid) in
      record (forget_all gone state state) {
        tracks_by_peer_id_mid = omit gone state.tracks_by_peer_id_mid;
      }
