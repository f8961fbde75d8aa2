-- ===== src/Reducers/Streams/Association.antt =====
-- A track that was added is found again.
use text.Mathlib.Text.{◌==◌}
use text.Mathlib.TextEquality.{eq_iff}
use meeting.Prelude.{
  ◌≡◌, refl, ◌∙◌, String, List, [], ◌∷◌, ◌++◌, none, some, length, Bool-cases, Option-cases, inl,
  inr,
}
use meeting.Prelude.Dict.{Dict, get, put, get-put}
use meeting.Reducers.Streams.{
  Track, MediaPlatform, StreamWithUrl, UserStreams, TrackInfo, TrackAssociation, StreamsState,
  AddTrackPayload, get_peer_id_mid, get_stream_user, find_stream, or_same, remove_found,
  remove_track, place, add_track, user_or_new,
}

find_stream-append :
    (stream_id : String) (xs : List StreamWithUrl) (s : StreamWithUrl)
    → find_stream stream_id xs ≡ none
    → s.stream_id ≡ stream_id
    → find_stream stream_id (xs ++ (s ∷ [])) ≡ some s
unfolding find_stream
find_stream-append stream_id [] s n e = rw ((eq_iff s.stream_id stream_id).1 e) refl
find_stream-append stream_id (x ∷ xs) s n e = elim (Bool-cases (x.stream_id == stream_id)) [
  | inl h ↦ absurd (cc (rw h at n))
  | inr h ↦ rw h (find_stream-append stream_id xs s (rw h at n) e)
]

get-put_same {ℓ} : {V : Type ℓ} (k : String) (v : V) (d : Dict V) → get k (put k v d) ≡ some v
get-put_same k v d = get-put k k v d ∙ rw ((eq_iff k k).1 refl) refl

module _ (platform : MediaPlatform) where
  place-find :
      (stream_id : String) (track : Track) (streams : List StreamWithUrl)
      (objects : List (List Track))
      → (s : StreamWithUrl) × (find_stream stream_id
            (place platform (find_stream stream_id streams) stream_id track streams objects).0
          ≡ some s)
  unfolding place
  place-find stream_id track streams objects = elim (Option-cases (find_stream stream_id streams)) [
    | inl e ↦
        let s : StreamWithUrl = record {
          stream = length objects;
          stream_id = stream_id;
          url = platform.create_object_url (length objects);
        } in
        (s, rw e (find_stream-append stream_id streams s e refl))
    | inr (s, e) ↦ (s, rw e e)
  ]

  -- What `remove_track` gives when all it looks for is there.
  remove_track_lem :
      (state : StreamsState) (track : Track) (peer_id_mid : String) (t : TrackInfo)
      (a : TrackAssociation) (user : UserStreams) (s : StreamWithUrl)
      → get track.id state.track_id_to_peer_id_mid ≡ some peer_id_mid
      → get peer_id_mid state.tracks_by_peer_id_mid ≡ some t
      → t.association ≡ some a
      → get a.user_id state.streams_by_user_id ≡ some user
      → find_stream a.stream_id user.streams ≡ some s
      → remove_track platform state track ≡ remove_found platform track peer_id_mid t a user s state
  unfolding remove_track or_same
  remove_track_lem state track peer_id_mid t a user s e f g h i = rw (e, f, g, h, i) refl

  remove_found-get :
      (track : Track) (peer_id_mid : String) (t : TrackInfo) (a : TrackAssociation)
      (user : UserStreams) (s : StreamWithUrl) (state : StreamsState)
      → get peer_id_mid
          (remove_found platform track peer_id_mid t a user s state).tracks_by_peer_id_mid
        ≡ some (record { track = track; mid = t.mid; association = none })
  unfolding remove_found
  remove_found-get track peer_id_mid t a user s state =
      get-put_same peer_id_mid _ state.tracks_by_peer_id_mid

  -- A track that is added and then removed leaves the entry of its mid with the track and no association,
  -- whatever streams and metadata were there before.
  pub remove_track-add_track :
      (p : AddTrackPayload) (state : StreamsState)
      → get
          (get_peer_id_mid p.user_id p.mid)
          (remove_track platform (add_track platform state p) p.track).tracks_by_peer_id_mid
        ≡ some (record { track = p.track; mid = p.mid; association = none })
  unfolding add_track
  remove_track-add_track p state =
      let pim = get_peer_id_mid p.user_id p.mid in
      let a = get_stream_user state p in
      let user = user_or_new (get a.user_id state.streams_by_user_id) a.user_id in
      let placed =
        place platform (find_stream a.stream_id user.streams) a.stream_id p.track user.streams
          state.media_streams in
      let now : UserStreams = record user { streams = placed.0 } in
      let t : TrackInfo = record { track = p.track; mid = p.mid; association = some a } in
      let (s, found) = place-find a.stream_id p.track user.streams state.media_streams in
      let e =
        remove_track_lem (add_track platform state p) p.track pim t a now s
          (get-put_same p.track.id pim state.track_id_to_peer_id_mid)
          (get-put_same pim t state.tracks_by_peer_id_mid) refl
          (get-put_same a.user_id now state.streams_by_user_id) found in
      rw e (remove_found-get p.track pim t a now s (add_track platform state p))
