-- ===== src/Reducers/Streams/Removing.antt =====
-- `removeTrack` keeps the invariant, and what it does to the entries.
use text.Mathlib.Text.{◌==◌}
use text.Mathlib.TextEquality.{eq_iff}
use mathlib.Core.Option.{some-injective}
use meeting.Prelude.{
  ℕ, ◌<◌, ◌≡◌, ◌≢◌, ◌⊎◌, refl, sym, ap, subst, ◌∙◌, String, List, [], ◌∷◌, Option, none, some, Bool,
  true, false, if◌then◌else◌, Bool-cases, Option-cases, inl, inr, arith, ◌>>=◌, ==_iff, length,
  get_elem?, set, length-set, get_elem?-set_self, get_elem?-set_ne,
}
use meeting.Prelude.Dict.{get, get-put}
use meeting.Reducers.Streams.{
  Track, MediaPlatform, StreamWithUrl, UserStreams, TrackInfo, TrackAssociation, StreamsState,
  find_stream, without_stream, tracks_of, is_empty, or_same, remove_found, remove_track,
}
use meeting.Reducers.Streams.Entries.{
  InStreams, find_stream-In, without_stream-In, find_stream-without_stream, Entry, locate,
  locate-Entry, Shape, Shape-shrinks, put_streams-Entry, locate-put_streams_other,
  locate-put_streams,
}
use meeting.Reducers.Streams.Invariant.{InTracks, TrackLaws, Linked, Inv}

pub tracks_of_lem :
    (n : ℕ) (s : StreamsState) (ts : List Track)
    → get_elem? s.media_streams n ≡ some ts
    → tracks_of n s ≡ ts
unfolding tracks_of
tracks_of_lem n s ts e =
    subst (λ o. (elim o as (λ _. List Track) [ none ↦ [] | some us ↦ us ]) ≡ ts) (sym e) refl

-- What `remove_track` finds.
pub record Found (s : StreamsState) (track : Track) : Type 0 where
  pub key : String
  pub info : TrackInfo
  pub association : TrackAssociation
  pub user : UserStreams
  pub stream : StreamWithUrl
  pub filed : get track.id s.track_id_to_peer_id_mid ≡ some key
  pub entry : get key s.tracks_by_peer_id_mid ≡ some info
  pub associated : info.association ≡ some association
  pub user_is : get association.user_id s.streams_by_user_id ≡ some user
  pub stream_is : find_stream association.stream_id user.streams ≡ some stream

module _ (platform : MediaPlatform) where
  abbrev pub removed : (s : StreamsState) (track : Track) → Found s track → StreamsState
  removed s track f = remove_found platform track f.key f.info f.association f.user f.stream s

  pub remove_track-Found :
      (s : StreamsState) (track : Track) (f : Found s track)
      → remove_track platform s track ≡ removed s track f
  unfolding remove_track or_same
  remove_track-Found s track f = rw (f.filed, f.entry, f.associated, f.user_is, f.stream_is) refl

  pub remove_track-cases :
      (s : StreamsState) (track : Track)
      → (remove_track platform s track ≡ s)
        ⊎ ((f : Found s track) × (remove_track platform s track ≡ removed s track f))
  unfolding remove_track or_same
  remove_track-cases s track = elim (Option-cases (get track.id s.track_id_to_peer_id_mid)) [
    | inl e ↦ inl (rw e refl)
    | inr (key, e) ↦ elim (Option-cases (get key s.tracks_by_peer_id_mid)) [
      | inl g ↦ inl (rw (e, g) refl)
      | inr (info, g) ↦ elim (Option-cases info.association) [
        | inl h ↦ inl (rw (e, g, h) refl)
        | inr (a, h) ↦ elim (Option-cases (get a.user_id s.streams_by_user_id)) [
          | inl i ↦ inl (rw (e, g, h, i) refl)
          | inr (user, i) ↦ elim (Option-cases (find_stream a.stream_id user.streams)) [
            | inl j ↦ inl (rw (e, g, h, i, j) refl)
            | inr (x, j) ↦
                let f : Found s track = record {
                  key = key;
                  info = info;
                  association = a;
                  user = user;
                  stream = x;
                  filed = e;
                  entry = g;
                  associated = h;
                  user_is = i;
                  stream_is = j;
                } in
                inr (f, remove_track-Found s track f)
          ]
        ]
      ]
    ]
  ]

  module _ (key_of : String → String) (laws : TrackLaws platform) where
    module _ (s : StreamsState) (track : Track) (f : Found s track) (inv : Inv key_of s) where
      left : List Track
      left = platform.drop_track track (tracks_of f.stream.stream s)

      streams : List StreamWithUrl
      unfolding left
      streams =
          if is_empty left then without_stream f.stream.stream f.user.streams else f.user.streams

      streams-In : (x : StreamWithUrl) → InStreams x streams → InStreams x f.user.streams
      unfolding streams
      streams-In x h = elim (Bool-cases (is_empty left)) [
        | inl e ↦ without_stream-In f.stream.stream x f.user.streams (rw e at h)
        | inr e ↦ rw e at h
      ]

      found-Entry : Entry s.streams_by_user_id f.association.user_id f.stream
      found-Entry = (
        f.user,
        f.user_is,
        (find_stream-In f.association.stream_id f.stream f.user.streams f.stream_is).0,
      )

      shape :
          Shape (removed s track f).streams_by_user_id (length (removed s track f).media_streams)
      unfolding remove_found streams left
      shape = rw (length-set s.media_streams f.stream.stream left) (
          Shape-shrinks s.streams_by_user_id _ _
            (λ u x h.
              elim (put_streams-Entry f.association.user_id f.user streams s.streams_by_user_id u x
                h) [
                  | inl (e, p) ↦
                      subst (λ v. Entry s.streams_by_user_id v x) e
                        (f.user, f.user_is, streams-In x p)
                  | inr p ↦ p
                ])
            inv.shape)

      streams_find :
          (i : String) (y : StreamWithUrl)
          → find_stream i f.user.streams ≡ some y
          → y.stream ≢ f.stream.stream
          → find_stream i streams ≡ some y
      unfolding streams
      streams_find i y e n = elim (Bool-cases (is_empty left)) [
        | inl h ↦ rw h (find_stream-without_stream i f.stream.stream y f.user.streams e n)
        | inr h ↦ rw h e
      ]

      -- Another stream stays where it was.
      located_other :
          (a : TrackAssociation) (y : StreamWithUrl)
          → locate s.streams_by_user_id a.user_id a.stream_id ≡ some y
          → y.stream ≢ f.stream.stream
          → locate (removed s track f).streams_by_user_id a.user_id a.stream_id ≡ some y
      unfolding remove_found streams left
      located_other a y e n = elim (Bool-cases (f.association.user_id == a.user_id)) [
        | inl same ↦
            let u = (eq_iff f.association.user_id a.user_id).0 same in
            let user_is : get a.user_id s.streams_by_user_id ≡ some f.user =
              subst (λ v. get v s.streams_by_user_id ≡ some f.user) u f.user_is in
            let there = streams_find a.stream_id y (rw user_is at e) n in
            subst (λ v. locate (removed s track f).streams_by_user_id v a.stream_id ≡ some y) u
              (locate-put_streams f.association.user_id f.user streams s.streams_by_user_id
                a.stream_id y there)
        | inr other ↦
            locate-put_streams_other f.association.user_id f.user streams s.streams_by_user_id
              a.user_id a.stream_id other
            ∙ e
      ]

      InTracks-is_empty : (id : String) (ts : List Track) → InTracks id ts → is_empty ts ≡ false
      unfolding is_empty
      InTracks-is_empty id [] h = absurd h
      InTracks-is_empty id (t ∷ ts) h = refl

      -- The stream itself stays if a track is left in it.
      located_here :
          (id : String)
          → InTracks id left
          → locate
              (removed s track f).streams_by_user_id
              f.association.user_id
              f.association.stream_id
            ≡ some f.stream
      unfolding remove_found streams left
      located_here id h =
          let kept : streams ≡ f.user.streams = rw (InTracks-is_empty id left h) refl in
          locate-put_streams f.association.user_id f.user streams s.streams_by_user_id
            f.association.stream_id f.stream (rw kept f.stream_is)

      -- The object of the stream, and its track list.
      in_range : f.stream.stream < length s.media_streams
      in_range = inv.shape.bounded f.association.user_id f.stream found-Entry

      object_here : get_elem? (removed s track f).media_streams f.stream.stream ≡ some left
      unfolding remove_found left
      object_here = get_elem?-set_self s.media_streams f.stream.stream left in_range

      left_has :
          (id : String) (ts : List Track)
          → get_elem? s.media_streams f.stream.stream ≡ some ts
          → track.id ≢ id
          → InTracks id ts
          → InTracks id left
      unfolding left
      left_has id ts e n h =
          subst (λ us. InTracks id (platform.drop_track track us))
            (sym (tracks_of_lem f.stream.stream s ts e)) (laws.drop_other track ts id n h)

      filed_ne :
          (k : String) (t : TrackInfo)
          → (f.key == k) ≡ false
          → get k s.tracks_by_peer_id_mid ≡ some t
          → track.id ≢ t.track.id
      filed_ne k t n e p =
          let same : f.key ≡ k =
            sym (inv.ids track.id f.key f.filed) ∙ ap key_of p ∙ inv.keyed k t e in
          cc (n, (eq_iff f.key k).1 same)

      Linked-other :
          (k : String) (t : TrackInfo) (a : TrackAssociation)
          → (f.key == k) ≡ false
          → get k s.tracks_by_peer_id_mid ≡ some t
          → Linked s k t a
          → Linked (removed s track f) k t a
      unfolding remove_found left
      Linked-other k t a n e l =
          elim (Bool-cases (meeting.Prelude.◌==◌ l.stream.stream f.stream.stream)) [
            | inl same ↦
                let q = (==_iff l.stream.stream f.stream.stream).0 same in
                let (ent, id_is) =
                  locate-Entry s.streams_by_user_id a.user_id a.stream_id l.stream l.located in
                let (u, i) =
                  inv.shape.own f.association.user_id a.user_id f.stream l.stream found-Entry ent
                    (sym q) in
                let j =
                  sym (find_stream-In f.association.stream_id f.stream f.user.streams f.stream_is).1
                  ∙ i
                  ∙ id_is in
                let object : get_elem? s.media_streams f.stream.stream ≡ some l.tracks =
                  subst (λ m. get_elem? s.media_streams m ≡ some l.tracks) q l.object in
                let has = left_has t.track.id l.tracks object (filed_ne k t n e) l.has in
                record {
                  stream = f.stream;
                  tracks = left;
                  filed = l.filed;
                  located =
                      subst
                        (λ v.
                          locate (removed s track f).streams_by_user_id v a.stream_id
                          ≡ some f.stream)
                        u
                        (subst
                          (λ w.
                            locate (removed s track f).streams_by_user_id f.association.user_id w
                            ≡ some f.stream)
                          j (located_here t.track.id has));
                  object = object_here;
                  has = has;
                }
            | inr other ↦
                let ne : l.stream.stream ≢ f.stream.stream =
                  λ p. cc (other, (==_iff l.stream.stream f.stream.stream).1 p) in
                record {
                  stream = l.stream;
                  tracks = l.tracks;
                  filed = l.filed;
                  located = located_other a l.stream l.located ne;
                  object = get_elem?-set_ne s.media_streams left (λ p. ne (sym p)) ∙ l.object;
                  has = l.has;
                }
          ]

      removed-get :
          (k : String)
          → get k (removed s track f).tracks_by_peer_id_mid ≡ (
              if f.key == k
              then some (record { track = track; mid = f.info.mid; association = none })
              else get k s.tracks_by_peer_id_mid)
      unfolding remove_found
      removed-get k = get-put f.key k _ s.tracks_by_peer_id_mid

      removed-Inv : Inv key_of (removed s track f)
      unfolding remove_found
      removed-Inv = record {
        keyed = λ k t e. elim (Bool-cases (f.key == k)) [
          | inl h ↦
              let p =
                some-injective (record { track = track; mid = f.info.mid; association = none }) t
                  (sym (rw h at (removed-get k)) ∙ e) in
              ap (λ x. key_of x.track.id) (sym p)
              ∙ inv.ids track.id f.key f.filed
              ∙ (eq_iff f.key k).0 h
          | inr h ↦ inv.keyed k t (sym (rw h at (removed-get k)) ∙ e)
        ];
        ids = inv.ids;
        shape = shape;
        linked = λ k t a e g. elim (Bool-cases (f.key == k)) [
          | inl h ↦
              let p =
                some-injective (record { track = track; mid = f.info.mid; association = none }) t
                  (sym (rw h at (removed-get k)) ∙ e) in
              absurd (cc (ap (λ x. x.association) p, g))
          | inr h ↦
              let old = sym (rw h at (removed-get k)) ∙ e in
              Linked-other k t a h old (inv.linked k t a old g)
        ];
      }

    pub remove_track-Inv :
        (s : StreamsState) (track : Track)
        → Inv key_of s
        → Inv key_of (remove_track platform s track)
    remove_track-Inv s track inv = elim (remove_track-cases s track) [
      | inl e ↦ rw e inv
      | inr (f, e) ↦ rw e (removed-Inv s track f inv)
    ]

    Linked-Found :
        (s : StreamsState) (k : String) (t : TrackInfo) (a : TrackAssociation)
        → get k s.tracks_by_peer_id_mid ≡ some t
        → t.association ≡ some a
        → Linked s k t a
        → (f : Found s t.track) × (f.key ≡ k) × (f.info ≡ t)
    Linked-Found s k t a e g l = elim (Option-cases (get a.user_id s.streams_by_user_id)) [
      | inl h ↦ absurd (cc (rw h at l.located))
      | inr (user, h) ↦ (
        record {
          key = k;
          info = t;
          association = a;
          user = user;
          stream = l.stream;
          filed = l.filed;
          entry = e;
          associated = g;
          user_is = h;
          stream_is = rw h at l.located;
        },
        refl,
        refl,
      )
    ]

    -- The track of an entry, removed, leaves the entry without an association and all others as they were.
    pub remove_track-get :
        (s : StreamsState) (k : String) (t : TrackInfo)
        → Inv key_of s
        → get k s.tracks_by_peer_id_mid ≡ some t
        → (j : String)
        → get j (remove_track platform s t.track).tracks_by_peer_id_mid ≡ (
            if k == j
            then some (record t { association = none })
            else get j s.tracks_by_peer_id_mid)
    remove_track-get s k t inv e j = elim (Option-cases t.association) [
      | inl bare ↦ elim (remove_track-cases s t.track) [
        | inl same ↦ rw same (elim (Bool-cases (k == j)) [
          | inl h ↦ rw h (
              subst (λ i. get i s.tracks_by_peer_id_mid ≡ some t) ((eq_iff k j).0 h) e
              ∙ ap (λ a. some (record t { association = a })) bare)
          | inr h ↦ rw h refl
        ])
        | inr (f, _) ↦
            let q = sym (inv.ids t.track.id f.key f.filed) ∙ inv.keyed k t e in
            let info_is =
              some-injective f.info t
                (sym f.entry ∙ ap (λ i. get i s.tracks_by_peer_id_mid) q ∙ e) in
            absurd (cc (f.associated, info_is, bare))
      ]
      | inr (a, g) ↦
          let (f, key_is, info_is) = Linked-Found s k t a e g (inv.linked k t a e g) in
          ap (λ u. get j u.tracks_by_peer_id_mid) (remove_track-Found s t.track f)
          ∙ removed-get s t.track f inv j
          ∙ ap
              (λ i.
                if i == j
                then some (record { track = t.track; mid = f.info.mid; association = none })
                else get j s.tracks_by_peer_id_mid)
              key_is
          ∙ ap
              (λ (i : TrackInfo).
                if k == j
                then some (record { track = t.track; mid = i.mid; association = none })
                else get j s.tracks_by_peer_id_mid)
              info_is
    ]

    -- The rest of the state.
    pub remove_track-metadata :
        (s : StreamsState) (track : Track)
        → (remove_track platform s track).metadata_by_peer_id_mid ≡ s.metadata_by_peer_id_mid
    unfolding remove_found
    remove_track-metadata s track = elim (remove_track-cases s track) [
      | inl e ↦ ap (λ u. u.metadata_by_peer_id_mid) e
      | inr (f, e) ↦ ap (λ u. u.metadata_by_peer_id_mid) e
    ]
