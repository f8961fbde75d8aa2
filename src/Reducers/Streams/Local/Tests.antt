-- ===== src/Reducers/Streams/Local/Tests.antt =====
-- The whole reducer at concrete states.
use text.Mathlib.Text.{◌==◌}
use text.Mathlib.TextEquality.{eq_iff}
use meeting.Prelude.{
  arith, ◌≡◌, ◌≢◌, refl, sym, ap, subst, ◌∙◌, String, List, [], ◌∷◌, Option, none, some, Bool, true,
  false, if◌then◌else◌, Bool-cases, inl, inr,
}
use meeting.Prelude.Dict.{Dict, empty, get, put}
use meeting.Prelude.Decimal.{codes}
use meeting.SocketEvent.{MetadataPayload}
use meeting.Reducers.Media.{resolved}
use meeting.Reducers.Streams.{
  Track, StreamsState, TrackInfo, AddTrackPayload, get_peer_id_mid, add_track,
}
use meeting.Reducers.Streams.Entries.{InStreams}
use meeting.Reducers.Streams.Invariant.{TrackLaws, InTracks, Inv}
use meeting.Reducers.Streams.Peers.{key_by, set_metadata, remove_peer}
use meeting.Reducers.Streams.Peers.Owning.{AllPlain}
use meeting.Reducers.Streams.Peers.Leaving.{remove_peer_lem}
use meeting.Reducers.Streams.Peers.Changes.{Has, assigned}
use meeting.Reducers.Streams.Peers.Metadata.{set_metadata_lem}
use meeting.Reducers.Streams.Tests.{lists, drop_by_id, added}
use meeting.Reducers.Streams.Local.Run.{start, Reachable, starts, steps, Keyed, Reachable-Inv}
use meeting.Reducers.Streams.Local.Recording.{Recorded}
use meeting.Reducers.Streams.Local.Recorded.{Typed, Reachable-Recorded}
use meeting.Reducers.Streams.Local.Released.{Released, hang_up-Released}
use meeting.Reducers.Streams.Local.{
  RecorderPlatform, State, Action, LocalStream, AddLocalStreamPayload, RecordLocalStreamPayload,
  streams, stream_track_add, stream_local_record, media_stream, camera, desktop, hang_up_all,
}

drop_by_id-other :
    (t : Track) (ts : List Track) (id : String)
    → t.id ≢ id
    → InTracks id ts
    → InTracks id (drop_by_id t ts)
drop_by_id-other t [] id n h = h
drop_by_id-other t (u ∷ us) id n h = elim (Bool-cases (u.id == t.id)) [
  | inl same ↦
      rw same (elim h [ inl e ↦ absurd (n (sym ((eq_iff u.id t.id).0 same) ∙ e)) | inr i ↦ i ])
  | inr differ ↦ rw differ (elim h [ inl e ↦ inl e | inr i ↦ inr (drop_by_id-other t us id n i) ])
]

lists_laws : TrackLaws lists
lists_laws = record {
  add_self = λ t ts. inl refl;
  add_other = λ t ts id h. inr h;
  drop_other = drop_by_id-other;
}

-- A recording peer that counts nothing and never fails: the ids of its streams.
abbrev recorder : RecorderPlatform (List String)
recorder = record {
  initialize = λ room user n. "camera1" ∷ [];
  streams = λ peer. peer;
  add_stream = λ n peer. some ("desktop1" ∷ peer);
  remove_stream = λ n peer. some peer;
  destroy = λ peer. [];
}

-- All tracks are of the first transceiver of the server.
abbrev of_server : String → String
of_server id = "server::0"

abbrev one_mid : MetadataPayload
one_mid = record {
  user_id = "server";
  metadata = record { mid = "0"; kind = "video"; user_id = "bob"; stream_id = "r" } ∷ [];
}

abbrev first : State (List String)
first = start lists recorder []

abbrev with_track : State (List String)
with_track = record first { remote = add_track lists first.remote added }

with_track-Reachable :
    Reachable lists recorder (Keyed lists recorder of_server lists_laws) with_track
unfolding Keyed streams get_peer_id_mid
with_track-Reachable = steps first with_track (stream_track_add added) (starts []) refl refl

Reachable-Inv_example : Inv of_server with_track.remote
Reachable-Inv_example =
    Reachable-Inv lists recorder of_server lists_laws with_track with_track-Reachable

set_metadata_lem_example :
    Inv of_server (set_metadata lists with_track.remote one_mid)
    × ((k : String)
        → get k with_track.remote.tracks_by_peer_id_mid ≡ none
        → get k (set_metadata lists with_track.remote one_mid).tracks_by_peer_id_mid ≡ none)
    × ((k : String) (t : TrackInfo)
        → get k with_track.remote.tracks_by_peer_id_mid ≡ some t
        → Has
            (set_metadata lists with_track.remote one_mid)
            k
            t.track
            (assigned (get k (key_by one_mid.user_id one_mid.metadata empty))))
set_metadata_lem_example =
    set_metadata_lem lists of_server lists_laws with_track.remote one_mid
      (Reachable-Inv lists recorder of_server lists_laws with_track with_track-Reachable)

server-AllPlain : AllPlain (codes "server")
server-AllPlain = (
  (λ e. omega arith),
  (
    (λ e. omega arith),
    ((λ e. omega arith), ((λ e. omega arith), ((λ e. omega arith), ((λ e. omega arith), tt)))),
  ),
)

se-AllPlain : AllPlain (codes "se")
se-AllPlain = ((λ e. omega arith), ((λ e. omega arith), tt))

remove_peer_lem_example :
    ((mid : String)
      → get
          (get_peer_id_mid "server" mid)
          (remove_peer lists with_track.remote "server").tracks_by_peer_id_mid
        ≡ none)
    × ((mid : String) (t : TrackInfo)
        → get (get_peer_id_mid "server" mid) with_track.remote.tracks_by_peer_id_mid ≡ some t
        → get t.track.id (remove_peer lists with_track.remote "server").track_id_to_peer_id_mid
          ≡ none)
    × ((mid : String)
        → get
            (get_peer_id_mid "se" mid)
            (remove_peer lists with_track.remote "server").tracks_by_peer_id_mid
          ≡ get (get_peer_id_mid "se" mid) with_track.remote.tracks_by_peer_id_mid)
    × ((mid i : String)
        → get i with_track.remote.track_id_to_peer_id_mid ≡ some (get_peer_id_mid "se" mid)
        → get i (remove_peer lists with_track.remote "server").track_id_to_peer_id_mid
          ≡ some (get_peer_id_mid "se" mid))
remove_peer_lem_example =
    remove_peer_lem lists of_server "server" "se" with_track.remote
      (Reachable-Inv lists recorder of_server lists_laws with_track with_track-Reachable)
      server-AllPlain se-AllPlain (λ e. absurd (cc (ap (λ s. s == "se") e)))

abbrev type_of_id : String → String
type_of_id id = if id == "camera1" then "camera" else "desktop"

abbrev camera_stream : AddLocalStreamPayload
camera_stream = record { stream_type = camera; stream = 0; stream_id = "camera1" }

abbrev with_camera : State (List String)
with_camera =
    record (start lists recorder
      ((record { id = "v"; kind = "video"; label = "Back" } ∷ []) ∷ [])) {
        local_streams =
            put "camera"
              (record {
                stream = 0;
                stream_id = "camera1";
                url = some "blob:1";
                stream_type = camera;
                mirror = false;
              })
              empty;
      }

abbrev recorded_camera : State (List String)
recorded_camera = record with_camera {
  local_recorders = "camera1" ∷ [];
  streams_record_url = "url";
  is_recording = true;
  peer_instance = some ("camera1" ∷ []);
}

abbrev room : RecordLocalStreamPayload
room = record { record_url = "url"; room_id = "room"; user_id = "me" }

abbrev before : State (List String)
before = start lists recorder ((record { id = "v"; kind = "video"; label = "Back" } ∷ []) ∷ [])

with_camera-Reachable : Reachable lists recorder (Typed lists recorder type_of_id) with_camera
unfolding Typed streams meeting.Reducers.Streams.Local.add_local_stream
    meeting.Reducers.Streams.Local.recorders_with meeting.Reducers.Streams.Local.stop_existing
    meeting.Reducers.Streams.Local.with_url meeting.Reducers.Streams.Local.name_of put get
    meeting.Prelude.Dict.assign meeting.Prelude.Dict.find
    meeting.Reducers.Streams.Local.has_mirrored meeting.Reducers.Streams.Local.is_camera
    meeting.Reducers.Streams.Local.is_not_mirrored meeting.Reducers.Streams.Local.contains_back
    meeting.Reducers.Streams.Local.lower meeting.Reducers.Streams.tracks_of
    meeting.Reducers.Messages.starts_with
with_camera-Reachable =
    steps before with_camera (media_stream (resolved camera_stream))
      (starts ((record { id = "v"; kind = "video"; label = "Back" } ∷ []) ∷ [])) refl refl

recorded_camera-Reachable :
    Reachable lists recorder (Typed lists recorder type_of_id) recorded_camera
unfolding Typed streams meeting.Reducers.Streams.Local.record_local_stream
    meeting.Reducers.Streams.Local.record_all
    meeting.Reducers.Streams.Local.initialize_media_recorder put meeting.Prelude.Dict.assign
recorded_camera-Reachable =
    steps with_camera recorded_camera (stream_local_record room) with_camera-Reachable tt refl

Reachable-Recorded_example : Recorded lists recorder type_of_id recorded_camera
Reachable-Recorded_example =
    Reachable-Recorded lists recorder type_of_id recorded_camera recorded_camera-Reachable

hang_up-Released_example :
    ((k : String) (x : LocalStream)
      → get k with_camera.local_streams ≡ some x
      → Released with_camera x.stream x.url (hang_up_all recorder lists with_camera))
    × ((k : String) (u : meeting.Reducers.Streams.UserStreams)
          (x : meeting.Reducers.Streams.StreamWithUrl)
        → get k with_camera.remote.streams_by_user_id ≡ some u
        → InStreams x u.streams
        → Released with_camera x.stream x.url (hang_up_all recorder lists with_camera))
hang_up-Released_example = hang_up-Released recorder lists with_camera
