-- ===== src/Reducers/Streams/Tests.antt =====
-- Streams at concrete states, with a platform that keeps tracks in a list.
use text.Mathlib.Text.{◌==◌}
use meeting.Prelude.{◌≡◌, List, [], ◌∷◌, none, some, if◌then◌else◌}
use meeting.Prelude.Dict.{empty, get, put}
use meeting.Reducers.Streams.{
  Track, MediaPlatform, StreamsState, AddTrackPayload, get_peer_id_mid, remove_track, add_track,
}
use meeting.Reducers.Streams.Association.{remove_track-add_track}

abbrev pub drop_by_id : Track → List Track → List Track
drop_by_id t [] = []
drop_by_id t (u ∷ us) = if u.id == t.id then us else u ∷ drop_by_id t us

abbrev pub lists : MediaPlatform
lists = record {
  add = λ t ts. t ∷ ts;
  drop_track = drop_by_id;
  create_object_url = λ n. some "blob:1";
}

abbrev pub no_streams : StreamsState
no_streams = record {
  streams_by_user_id = empty;
  metadata_by_peer_id_mid =
      put "server::0" (record { mid = "0"; kind = "video"; user_id = "alice"; stream_id = "s" })
        empty;
  track_id_to_peer_id_mid = empty;
  tracks_by_peer_id_mid = empty;
  media_streams = [];
  revoked = [];
}

abbrev pub added : AddTrackPayload
added = record {
  mid = "0";
  stream_id = "t";
  user_id = "server";
  track = record { id = "track"; kind = "video"; label = "" };
}

remove_track-add_track_example :
    get
      (get_peer_id_mid "server" "0")
      (remove_track lists (add_track lists no_streams added) added.track).tracks_by_peer_id_mid
    ≡ some (record { track = added.track; mid = "0"; association = none })
remove_track-add_track_example = remove_track-add_track lists added no_streams
