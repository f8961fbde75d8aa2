-- ===== src/Reducers/Streams/Adding.antt =====
-- `addTrack` keeps the invariant, and what it does to the entries.
use text.Mathlib.Text.{◌==◌}
use text.Mathlib.TextEquality.{eq_iff}
use mathlib.Core.Option.{some-injective}
use meeting.Prelude.{
  ℕ, zero, suc, ◌+◌, ◌-◌, ◌≤◌, ◌<◌, ◌≡◌, ◌≢◌, ◌⊎◌, refl, sym, ap, subst, ◌∙◌, String, List, [], ◌∷◌,
  ◌++◌, Option, none, some, Bool, true, false, if◌then◌else◌, Bool-cases, Option-cases, inl, inr,
  arith, ◌>>=◌, ==_iff, length, get_elem?, set, length-set, length-append, get_elem?-set_self,
  get_elem?-set_ne,
}
use meeting.Prelude.Dict.{Dict, get, put, get-put}
use meeting.Codec.Bytes.Elements.{get_elem?-append_left, get_elem?-append_right}
use meeting.Reducers.Streams.{
  Track, MediaPlatform, StreamWithUrl, UserStreams, TrackInfo, TrackAssociation, StreamsState,
  AddTrackPayload, get_peer_id_mid, get_stream_user, find_stream, user_or_new, place, add_track,
}
use meeting.Reducers.Streams.Entries.{
  InStreams, find_stream-In, Entry, locate, Shape, Shape-shrinks, put-Entry,
}
use meeting.Reducers.Streams.Invariant.{InTracks, TrackLaws, Linked, Inv}

find_stream-append_left :
    (i : String) (xs ys : List StreamWithUrl) (y : StreamWithUrl)
    → find_stream i xs ≡ some y
    → find_stream i (xs ++ ys) ≡ some y
unfolding find_stream
find_stream-append_left i [] ys y e = cc
find_stream-append_left i (x ∷ xs) ys y e = elim (Bool-cases (x.stream_id == i)) [
  | inl h ↦ rw h (rw h at e)
  | inr h ↦ rw h (find_stream-append_left i xs ys y (rw h at e))
]

find_stream-append_new :
    (i : String) (xs : List StreamWithUrl) (s : StreamWithUrl)
    → find_stream i xs ≡ none
    → s.stream_id ≡ i
    → find_stream i (xs ++ (s ∷ [])) ≡ some s
unfolding find_stream
find_stream-append_new i [] s n e = rw ((eq_iff s.stream_id i).1 e) refl
find_stream-append_new i (x ∷ xs) s n e = elim (Bool-cases (x.stream_id == i)) [
  | inl h ↦ absurd (cc (rw h at n))
  | inr h ↦ rw h (find_stream-append_new i xs s (rw h at n) e)
]

InStreams-append :
    (y s : StreamWithUrl) (xs : List StreamWithUrl)
    → InStreams y (xs ++ (s ∷ []))
    → InStreams y xs ⊎ (s ≡ y)
InStreams-append y s [] (inl e) = inr e
InStreams-append y s [] (inr h) = elim h [ ]
InStreams-append y s (x ∷ xs) (inl e) = inl (inl e)
InStreams-append y s (x ∷ xs) (inr h) = elim (InStreams-append y s xs h) [
  | inl k ↦ inl (inr k)
  | inr e ↦ inr e
]

locate-put_same :
    (d : Dict UserStreams) (u i : String) (us : UserStreams)
    → locate (put u us d) u i ≡ find_stream i us.streams
locate-put_same d u i us = rw (get-put u u us d, (eq_iff u u).1 refl) refl

locate-put_other :
    (d : Dict UserStreams) (u v i : String) (us : UserStreams)
    → (u == v) ≡ false
    → locate (put u us d) v i ≡ locate d v i
locate-put_other d u v i us n = rw (get-put u v us d, n) refl

get_elem?-lt {ℓ} : {A : Type ℓ} (l : List A) (n : ℕ) (a : A) → get_elem? l n ≡ some a → n < length l
get_elem?-lt [] n a e = absurd (cc e)
get_elem?-lt (x ∷ xs) zero a e = omega arith
get_elem?-lt (x ∷ xs) (suc n) a e = omega (arith, get_elem?-lt xs n a e)

or_nothing :
    (o : Option (List Track)) (ts : List Track)
    → o ≡ some ts
    → (elim o as (λ _. List Track) [ none ↦ [] | some us ↦ us ]) ≡ ts
or_nothing none ts e = absurd (cc e)
or_nothing (some us) ts e = some-injective us ts e

user_or_new-get :
    (o : Option UserStreams) (u i : String) (y : StreamWithUrl)
    → find_stream i (user_or_new o u).streams ≡ some y
    → o ≡ some (user_or_new o u)
unfolding user_or_new find_stream
user_or_new-get none u i y e = cc
user_or_new-get (some user) u i y e = refl

user_or_new-In :
    (o : Option UserStreams) (u : String) (y : StreamWithUrl)
    → InStreams y (user_or_new o u).streams
    → o ≡ some (user_or_new o u)
unfolding user_or_new
user_or_new-In none u y h = absurd h
user_or_new-In (some user) u y h = refl

module _ (platform : MediaPlatform) (s : StreamsState) (p : AddTrackPayload) where
  abbrev key : String
  key = get_peer_id_mid p.user_id p.mid

  abbrev target : TrackAssociation
  target = get_stream_user s p

  abbrev user : UserStreams
  user = user_or_new (get target.user_id s.streams_by_user_id) target.user_id

  abbrev placed : List StreamWithUrl × List (List Track)
  placed =
      place platform (find_stream target.stream_id user.streams) target.stream_id p.track
        user.streams s.media_streams

  abbrev info : TrackInfo
  info = record { track = p.track; mid = p.mid; association = some target }

  -- The entry of the track's key is written, and no other.
  pub add_track-get :
      (j : String)
      → get j (add_track platform s p).tracks_by_peer_id_mid ≡ (
          if get_peer_id_mid p.user_id p.mid == j
          then some
              (record { track = p.track; mid = p.mid; association = some (get_stream_user s p) })
          else get j s.tracks_by_peer_id_mid)
  unfolding add_track
  add_track-get j = get-put key j info s.tracks_by_peer_id_mid

  pub add_track-metadata :
      (add_track platform s p).metadata_by_peer_id_mid ≡ s.metadata_by_peer_id_mid
  unfolding add_track
  add_track-metadata = refl

  module _ (key_of : String → String) (laws : TrackLaws platform) (inv : Inv key_of s)
      (keyed : key_of p.track.id ≡ get_peer_id_mid p.user_id p.mid) where
    -- What `place` gives, in both cases: the stream of the track, the others, and the objects.
    record Placed (r : List StreamWithUrl × List (List Track)) : Type 0 where
      stream : StreamWithUrl
      tracks : List Track
      found : find_stream target.stream_id r.0 ≡ some stream
      here : get_elem? r.1 stream.stream ≡ some tracks
      has : InTracks p.track.id tracks
      shape :
          Shape
            (put target.user_id (record user { streams = r.0 }) s.streams_by_user_id)
            (length r.1)
      stays :
          (i : String) (y : StreamWithUrl)
          → find_stream i user.streams ≡ some y
          → find_stream i r.0 ≡ some y
      objects :
          (n : ℕ) (ts : List Track) (id : String)
          → get_elem? s.media_streams n ≡ some ts
          → InTracks id ts
          → (us : List Track) × (get_elem? r.1 n ≡ some us) × InTracks id us

    Entry-of :
        (v : String) (y : StreamWithUrl)
        → target.user_id ≡ v
        → InStreams y user.streams
        → Entry s.streams_by_user_id v y
    Entry-of v y e h =
        subst (λ w. Entry s.streams_by_user_id w y) e
          (user, user_or_new-In (get target.user_id s.streams_by_user_id) target.user_id y h, h)

    abbrev place_at : Option StreamWithUrl → List StreamWithUrl × List (List Track)
    place_at o = place platform o target.stream_id p.track user.streams s.media_streams

    into_existing :
        (x : StreamWithUrl)
        → find_stream target.stream_id user.streams ≡ some x
        → Placed (place_at (some x))
    unfolding place
    into_existing x e =
        let base : List Track = elim (get_elem? s.media_streams x.stream) as (λ _. List Track) [
          | none ↦ []
          | some ts ↦ ts
        ] in
        let now = platform.add p.track base in
        let x_in = (find_stream-In target.stream_id x user.streams e).0 in
        let bound = inv.shape.bounded target.user_id x (Entry-of target.user_id x refl x_in) in
        let shrinks : (v : String) (y : StreamWithUrl)
            → Entry (put target.user_id user s.streams_by_user_id) v y
            → Entry s.streams_by_user_id v y =
          λ v y h. elim (put-Entry target.user_id user user.streams s.streams_by_user_id v y h) [
            | inl (q, k) ↦ Entry-of v y q k
            | inr k ↦ k
          ] in
        record {
          stream = x;
          tracks = now;
          found = e;
          here = get_elem?-set_self s.media_streams x.stream now bound;
          has = laws.add_self p.track base;
          shape =
              rw (length-set s.media_streams x.stream now)
                (Shape-shrinks s.streams_by_user_id _ _ shrinks inv.shape);
          stays = λ i y h. h;
          objects = λ n ts id g h. elim (Bool-cases (meeting.Prelude.◌==◌ n x.stream)) [
            | inl same ↦
                let q = (==_iff n x.stream).0 same in
                let old =
                  or_nothing (get_elem? s.media_streams x.stream) ts
                    (subst (λ m. get_elem? s.media_streams m ≡ some ts) q g) in
                (
                  now,
                  subst (λ m. get_elem? (set s.media_streams x.stream now) m ≡ some now) (sym q)
                      (get_elem?-set_self s.media_streams x.stream now bound),
                  laws.add_other p.track base id (subst (InTracks id) (sym old) h),
                )
            | inr other ↦ (
              ts,
              get_elem?-set_ne s.media_streams now (λ q. cc (other, (==_iff n x.stream).1 (sym q)))
                  ∙ g,
              h,
            )
          ];
        }

    abbrev fresh : StreamWithUrl
    fresh = record {
      stream = length s.media_streams;
      stream_id = target.stream_id;
      url = platform.create_object_url (length s.media_streams);
    }

    fresh-Entry :
        (v : String) (y : StreamWithUrl)
        → Entry
            (put target.user_id
              (record user { streams = user.streams ++ (fresh ∷ []) })
              s.streams_by_user_id)
            v
            y
        → Entry s.streams_by_user_id v y ⊎ ((target.user_id ≡ v) × (fresh ≡ y))
    fresh-Entry v y h =
        elim (put-Entry target.user_id user (user.streams ++ (fresh ∷ [])) s.streams_by_user_id v y
          h) [
            | inl (q, k) ↦ elim (InStreams-append y fresh user.streams k) [
              | inl old ↦ inl (Entry-of v y q old)
              | inr new ↦ inr (q, new)
            ]
            | inr k ↦ inl k
          ]

    fresh-Shape :
        Shape
          (put target.user_id
            (record user { streams = user.streams ++ (fresh ∷ []) })
            s.streams_by_user_id)
          (suc (length s.media_streams))
    fresh-Shape = record {
      bounded = λ v y h. elim (fresh-Entry v y h) [
        | inl old ↦ omega (arith, inv.shape.bounded v y old)
        | inr (_, new) ↦ omega (arith, ap (λ z. z.stream) new)
      ];
      own = λ u v x y h k q. elim (fresh-Entry u x h) [
        | inl old ↦ elim (fresh-Entry v y k) [
          | inl old' ↦ inv.shape.own u v x y old old' q
          | inr (_, new) ↦
              absurd (omega (arith, inv.shape.bounded u x old, q, ap (λ z. z.stream) new))
        ]
        | inr (a, new) ↦ elim (fresh-Entry v y k) [
          | inl old' ↦ absurd (omega (arith, inv.shape.bounded v y old', q, ap (λ z. z.stream) new))
          | inr (b, new') ↦ (sym a ∙ b, ap (λ z. z.stream_id) (sym new ∙ new'))
        ]
      ];
    }

    into_new : find_stream target.stream_id user.streams ≡ none → Placed (place_at none)
    unfolding place
    into_new e =
        let size : length (s.media_streams ++ (platform.add p.track [] ∷ []))
            ≡ suc (length s.media_streams) =
          omega (arith, length-append s.media_streams (platform.add p.track [] ∷ [])) in
        let zero_left : length s.media_streams - length s.media_streams ≡ 0 = omega arith in
        record {
          stream = fresh;
          tracks = platform.add p.track [];
          found = find_stream-append_new target.stream_id user.streams fresh e refl;
          here =
              get_elem?-append_right s.media_streams (platform.add p.track [] ∷ [])
                (length s.media_streams) (omega arith)
              ∙ rw zero_left refl;
          has = laws.add_self p.track [];
          shape = rw size fresh-Shape;
          stays = λ i y h. find_stream-append_left i user.streams (fresh ∷ []) y h;
          objects = λ n ts id g h. (
            ts,
            get_elem?-append_left s.media_streams (platform.add p.track [] ∷ []) n
                  (get_elem?-lt s.media_streams n ts g)
                ∙ g,
            h,
          );
        }

    place-Placed : Placed placed
    place-Placed = elim (Option-cases (find_stream target.stream_id user.streams)) [
      | inl e ↦ subst (λ o. Placed (place_at o)) (sym e) (into_new e)
      | inr (x, e) ↦ subst (λ o. Placed (place_at o)) (sym e) (into_existing x e)
    ]

    abbrev now : UserStreams
    now = record user { streams = placed.0 }

    Linked-new : Linked (add_track platform s p) key info target
    unfolding add_track
    Linked-new =
        let r = place-Placed in
        record {
          stream = r.stream;
          tracks = r.tracks;
          filed =
              get-put p.track.id p.track.id key s.track_id_to_peer_id_mid
              ∙ rw ((eq_iff p.track.id p.track.id).1 refl) refl;
          located =
              locate-put_same s.streams_by_user_id target.user_id target.stream_id now ∙ r.found;
          object = r.here;
          has = r.has;
        }

    found_at_user :
        (i : String) (y : StreamWithUrl)
        → locate s.streams_by_user_id target.user_id i ≡ some y
        → find_stream i user.streams ≡ some y
    unfolding user_or_new
    found_at_user i y e = elim (Option-cases (get target.user_id s.streams_by_user_id)) [
      | inl h ↦ absurd (cc (rw h at e))
      | inr (us, h) ↦ rw h (rw h at e)
    ]

    other_id :
        (k : String) (t : TrackInfo)
        → (key == k) ≡ false
        → get k s.tracks_by_peer_id_mid ≡ some t
        → (p.track.id == t.track.id) ≡ false
    other_id k t n e = elim (Bool-cases (p.track.id == t.track.id)) [
      | inl h ↦
          let same = sym keyed ∙ ap key_of ((eq_iff p.track.id t.track.id).0 h) ∙ inv.keyed k t e in
          absurd (cc (n, (eq_iff key k).1 same))
      | inr h ↦ h
    ]

    located_old :
        (a : TrackAssociation) (y : StreamWithUrl)
        → locate s.streams_by_user_id a.user_id a.stream_id ≡ some y
        → locate (put target.user_id now s.streams_by_user_id) a.user_id a.stream_id ≡ some y
    located_old a y e = elim (Bool-cases (target.user_id == a.user_id)) [
      | inl same ↦
          let u = (eq_iff target.user_id a.user_id).0 same in
          let there =
            found_at_user a.stream_id y
              (subst (λ v. locate s.streams_by_user_id v a.stream_id ≡ some y) (sym u) e) in
          subst (λ v. locate (put target.user_id now s.streams_by_user_id) v a.stream_id ≡ some y) u
            (locate-put_same s.streams_by_user_id target.user_id a.stream_id now
              ∙ place-Placed.stays a.stream_id y there)
      | inr other ↦
          locate-put_other s.streams_by_user_id target.user_id a.user_id a.stream_id now other ∙ e
    ]

    Linked-old :
        (k : String) (t : TrackInfo) (a : TrackAssociation)
        → (key == k) ≡ false
        → get k s.tracks_by_peer_id_mid ≡ some t
        → Linked s k t a
        → Linked (add_track platform s p) k t a
    unfolding add_track
    Linked-old k t a n e l =
        let (us, object, has) =
          place-Placed.objects l.stream.stream l.tracks t.track.id l.object l.has in
        record {
          stream = l.stream;
          tracks = us;
          filed =
              get-put p.track.id t.track.id key s.track_id_to_peer_id_mid
              ∙ rw (other_id k t n e) l.filed;
          located = located_old a l.stream l.located;
          object = object;
          has = has;
        }

    pub add_track-Inv : Inv key_of (add_track platform s p)
    unfolding add_track
    add_track-Inv = record {
      keyed = λ k t e. elim (Bool-cases (key == k)) [
        | inl h ↦
            let q = some-injective info t (sym (rw h at (add_track-get k)) ∙ e) in
            ap (λ x. key_of x.track.id) (sym q) ∙ keyed ∙ (eq_iff key k).0 h
        | inr h ↦ inv.keyed k t (sym (rw h at (add_track-get k)) ∙ e)
      ];
      ids = λ i k e. elim (Bool-cases (p.track.id == i)) [
        | inl h ↦
            let q =
              some-injective key k
                (sym (rw h at (get-put p.track.id i key s.track_id_to_peer_id_mid)) ∙ e) in
            ap key_of (sym ((eq_iff p.track.id i).0 h)) ∙ keyed ∙ q
        | inr h ↦
            inv.ids i k (sym (rw h at (get-put p.track.id i key s.track_id_to_peer_id_mid)) ∙ e)
      ];
      shape = place-Placed.shape;
      linked = λ k t a e g. elim (Bool-cases (key == k)) [
        | inl h ↦
            let q = some-injective info t (sym (rw h at (add_track-get k)) ∙ e) in
            let target_is = some-injective target a (ap (λ x. x.association) q ∙ g) in
            subst (λ b. Linked (add_track platform s p) k t b) target_is
              (subst (λ u. Linked (add_track platform s p) k u target) q
                (subst (λ j. Linked (add_track platform s p) j info target) ((eq_iff key k).0 h)
                  Linked-new))
        | inr h ↦
            let old = sym (rw h at (add_track-get k)) ∙ e in
            Linked-old k t a h old (inv.linked k t a old g)
      ];
    }
