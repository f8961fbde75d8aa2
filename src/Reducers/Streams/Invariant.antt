-- ===== src/Reducers/Streams/Invariant.antt =====
-- What the tracks, the associations and the MediaStream objects say of each other.
use meeting.Prelude.{◌≡◌, ◌≢◌, ◌⊎◌, String, List, [], ◌∷◌, some, length, get_elem?}
use meeting.Prelude.Dict.{get}
use meeting.Reducers.Streams.{
  Track, MediaPlatform, StreamWithUrl, TrackInfo, TrackAssociation, StreamsState,
}
use meeting.Reducers.Streams.Entries.{Shape, locate}

abbrev pub InTracks : String → List Track → Type 0
InTracks id [] = ⊥
InTracks id (t ∷ ts) = (t.id ≡ id) ⊎ InTracks id ts

-- What the code relies on of a MediaStream: `addTrack` adds the track and keeps the others, and
-- `removeTrack` keeps the others.
pub record TrackLaws (p : MediaPlatform) : Type 0 where
  pub add_self : (t : Track) (ts : List Track) → InTracks t.id (p.add t ts)
  pub add_other :
      (t : Track) (ts : List Track) (id : String) → InTracks id ts → InTracks id (p.add t ts)
  pub drop_other :
      (t : Track) (ts : List Track) (id : String)
      → t.id ≢ id
      → InTracks id ts
      → InTracks id (p.drop_track t ts)

-- An entry with an association: its track is filed under its key, and is in the stream of the association.
pub record Linked (s : StreamsState) (k : String) (t : TrackInfo) (a : TrackAssociation)
    : Type 0 where
  pub stream : StreamWithUrl
  pub tracks : List Track
  pub filed : get t.track.id s.track_id_to_peer_id_mid ≡ some k
  pub located : locate s.streams_by_user_id a.user_id a.stream_id ≡ some stream
  pub object : get_elem? s.media_streams stream.stream ≡ some tracks
  pub has : InTracks t.track.id tracks

-- `key_of` gives the key of a track's transceiver: its peer and its mid.
pub record Inv (key_of : String → String) (s : StreamsState) : Type 0 where
  pub keyed :
      (k : String) (t : TrackInfo) → get k s.tracks_by_peer_id_mid ≡ some t → key_of t.track.id ≡ k
  pub ids : (i k : String) → get i s.track_id_to_peer_id_mid ≡ some k → key_of i ≡ k
  pub shape : Shape s.streams_by_user_id (length s.media_streams)
  pub linked :
      (k : String) (t : TrackInfo) (a : TrackAssociation)
      → get k s.tracks_by_peer_id_mid ≡ some t
      → t.association ≡ some a
      → Linked s k t a
