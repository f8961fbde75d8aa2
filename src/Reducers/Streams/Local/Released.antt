-- ===== src/Reducers/Streams/Local/Released.antt =====
-- Hanging up releases what the page holds.
use text.Mathlib.Text.{◌==◌}
use text.Mathlib.TextEquality.{eq_iff}
use mathlib.Core.Option.{some-injective}
use meeting.Prelude.{
  ℕ, ◌≡◌, ◌≢◌, refl, sym, subst, ◌∙◌, String, List, [], ◌∷◌, ◌++◌, Option, none, some, true, map,
  Bool-cases, inl, inr, arith,
}
use meeting.Prelude.Dict.{get, find}
use meeting.Reducers.Streams.{Track, MediaPlatform, StreamWithUrl, UserStreams, tracks_of, revoke}
use meeting.Reducers.Streams.Entries.{InStreams}
use meeting.Reducers.Streams.Invariant.{InTracks}
use meeting.Reducers.Streams.Local.{
  RecorderPlatform, State, LocalStream, has_id, stop_stream, stop_all_tracks, stop_locals,
  stop_users, hang_up_all,
}

has_id-append : (i : String) (xs ys : List String) → has_id i ys ≡ true → has_id i (xs ++ ys) ≡ true
unfolding has_id
has_id-append i [] ys h = h
has_id-append i (x ∷ xs) ys h = rw (has_id-append i xs ys h) (ground arith)

has_id-map :
    (id : String) (ts : List Track) (ys : List String)
    → InTracks id ts
    → has_id id (map (λ t. t.id) ts ++ ys) ≡ true
unfolding has_id
has_id-map id [] ys h = absurd h
has_id-map id (t ∷ ts) ys (inl e) = rw ((eq_iff t.id id).1 e) refl
has_id-map id (t ∷ ts) ys (inr h) = rw (has_id-map id ts ys h) (ground arith)

revoke-has_id :
    (o : Option String) (url : String) (rs : List String)
    → o ≡ some url
    → url ≢ ""
    → has_id url (revoke o rs) ≡ true
unfolding revoke has_id
revoke-has_id none url rs e n = absurd (cc e)
revoke-has_id (some u) url rs e n =
    let u_is : u ≡ url = some-injective u url e in
    elim (Bool-cases (u == "")) [
      | inl blank ↦ absurd (n (sym u_is ∙ (eq_iff u "").0 blank))
      | inr given ↦ rw (given, (eq_iff u url).1 u_is) refl
    ]

revoke-keeps :
    (o : Option String) (url : String) (rs : List String)
    → has_id url rs ≡ true
    → has_id url (revoke o rs) ≡ true
unfolding revoke has_id
revoke-keeps none url rs h = h
revoke-keeps (some u) url rs h = elim (Bool-cases (u == "")) [
  | inl blank ↦ rw blank h
  | inr given ↦ rw (given, h) (ground arith)
]

module _ {Peer : Type 0} where
  -- The address of a stream is revoked, and its tracks in the objects are stopped.
  pub record Released (objects : State Peer) (stream : ℕ) (url : Option String) (s : State Peer)
      : Type 0 where
    pub revoked : (u : String) → url ≡ some u → u ≢ "" → has_id u s.remote.revoked ≡ true
    pub stopped :
        (id : String) → InTracks id (tracks_of stream objects.remote) → has_id id s.stopped ≡ true

  -- More is released, and the objects are the same.
  record Later (s t : State Peer) : Type 0 where
    objects : (stream : ℕ) → tracks_of stream t.remote ≡ tracks_of stream s.remote
    revoked : (u : String) → has_id u s.remote.revoked ≡ true → has_id u t.remote.revoked ≡ true
    stopped : (id : String) → has_id id s.stopped ≡ true → has_id id t.stopped ≡ true

  Later-refl : (s : State Peer) → Later s s
  Later-refl s = record { objects = λ n. refl; revoked = λ u h. h; stopped = λ id h. h }

  Later-trans : (s t u : State Peer) → Later s t → Later t u → Later s u
  Later-trans s t u f g = record {
    objects = λ n. g.objects n ∙ f.objects n;
    revoked = λ i h. g.revoked i (f.revoked i h);
    stopped = λ i h. g.stopped i (f.stopped i h);
  }

  Released-Later :
      (o s t : State Peer) (n : ℕ) (url : Option String)
      → Released o n url s
      → Later s t
      → Released o n url t
  Released-Later o s t n url h l = record {
    revoked = λ u e k. l.revoked u (h.revoked u e k);
    stopped = λ id i. l.stopped id (h.stopped id i);
  }

  -- The same objects, earlier.
  Released-objects :
      (o p s : State Peer) (n : ℕ) (url : Option String)
      → Later o p
      → Released p n url s
      → Released o n url s
  Released-objects o p s n url l h = record {
    revoked = h.revoked;
    stopped = λ id i. h.stopped id (subst (InTracks id) (sym (l.objects n)) i);
  }

  stop_stream-Later : (n : ℕ) (url : Option String) (s : State Peer) → Later s (stop_stream n url s)
  unfolding stop_stream tracks_of
  stop_stream-Later n url s = record {
    objects = λ m. refl;
    revoked = λ u h. revoke-keeps url u s.remote.revoked h;
    stopped = λ id h. has_id-append id (map (λ t. t.id) (tracks_of n s.remote)) s.stopped h;
  }

  stop_stream-Released :
      (n : ℕ) (url : Option String) (s : State Peer) → Released s n url (stop_stream n url s)
  unfolding stop_stream
  stop_stream-Released n url s = record {
    revoked = λ u e k. revoke-has_id url u s.remote.revoked e k;
    stopped = λ id i. has_id-map id (tracks_of n s.remote) s.stopped i;
  }

  stop_all_tracks-Later :
      (xs : List StreamWithUrl) (s : State Peer) → Later s (stop_all_tracks xs s)
  unfolding stop_all_tracks
  stop_all_tracks-Later [] s = Later-refl s
  stop_all_tracks-Later (x ∷ xs) s =
      Later-trans s (stop_stream x.stream x.url s) _ (stop_stream-Later x.stream x.url s)
        (stop_all_tracks-Later xs _)

  stop_all_tracks-Released :
      (x : StreamWithUrl) (xs : List StreamWithUrl) (s : State Peer)
      → InStreams x xs
      → Released s x.stream x.url (stop_all_tracks xs s)
  unfolding stop_all_tracks
  stop_all_tracks-Released x [] s h = absurd h
  stop_all_tracks-Released x (y ∷ ys) s (inl e) =
      subst (λ z. Released s z.stream z.url (stop_all_tracks ys (stop_stream y.stream y.url s))) e
        (Released-Later s _ _ y.stream y.url (stop_stream-Released y.stream y.url s)
          (stop_all_tracks-Later ys _))
  stop_all_tracks-Released x (y ∷ ys) s (inr h) =
      Released-objects s _ _ x.stream x.url (stop_stream-Later y.stream y.url s)
        (stop_all_tracks-Released x ys _ h)

  stop_locals-Later :
      (es : List (String × LocalStream)) (s : State Peer) → Later s (stop_locals es s)
  unfolding stop_locals
  stop_locals-Later [] s = Later-refl s
  stop_locals-Later ((k, x) ∷ es) s =
      Later-trans s (stop_stream x.stream x.url s) _ (stop_stream-Later x.stream x.url s)
        (stop_locals-Later es _)

  stop_locals-Released :
      (k : String) (x : LocalStream) (es : List (String × LocalStream)) (s : State Peer)
      → find k es ≡ some x
      → Released s x.stream x.url (stop_locals es s)
  unfolding stop_locals find
  stop_locals-Released k x [] s h = absurd (cc h)
  stop_locals-Released k x ((j, y) ∷ es) s h = elim (Bool-cases (j == k)) [
    | inl same ↦
        subst (λ z. Released s z.stream z.url (stop_locals es (stop_stream y.stream y.url s)))
          (some-injective y x (rw same at h))
          (Released-Later s _ _ y.stream y.url (stop_stream-Released y.stream y.url s)
            (stop_locals-Later es _))
    | inr differ ↦
        Released-objects s _ _ x.stream x.url (stop_stream-Later y.stream y.url s)
          (stop_locals-Released k x es _ (rw differ at h))
  ]

  stop_users-Later : (es : List (String × UserStreams)) (s : State Peer) → Later s (stop_users es s)
  unfolding stop_users
  stop_users-Later [] s = Later-refl s
  stop_users-Later ((k, u) ∷ es) s =
      Later-trans s (stop_all_tracks u.streams s) _ (stop_all_tracks-Later u.streams s)
        (stop_users-Later es _)

  stop_users-Released :
      (k : String) (u : UserStreams) (x : StreamWithUrl) (es : List (String × UserStreams))
      (s : State Peer)
      → find k es ≡ some u
      → InStreams x u.streams
      → Released s x.stream x.url (stop_users es s)
  unfolding stop_users find
  stop_users-Released k u x [] s h i = absurd (cc h)
  stop_users-Released k u x ((j, v) ∷ es) s h i = elim (Bool-cases (j == k)) [
    | inl same ↦
        Released-Later s _ _ x.stream x.url
          (stop_all_tracks-Released x v.streams s (
            subst (λ (w : UserStreams). InStreams x w.streams)
              (sym (some-injective v u (rw same at h))) i))
          (stop_users-Later es _)
    | inr differ ↦
        Released-objects s _ _ x.stream x.url (stop_all_tracks-Later v.streams s)
          (stop_users-Released k u x es _ (rw differ at h) i)
  ]

  module _ (r : RecorderPlatform Peer) (platform : MediaPlatform) where
    -- When the call ends, each stream of this user and of the others is released: its address, if it has one, is
    -- revoked, and each track that its object holds is stopped.
    pub hang_up-Released :
        (s : State Peer)
        → ((k : String) (x : LocalStream)
            → get k s.local_streams ≡ some x
            → Released s x.stream x.url (hang_up_all r platform s))
          × ((k : String) (u : UserStreams) (x : StreamWithUrl)
              → get k s.remote.streams_by_user_id ≡ some u
              → InStreams x u.streams
              → Released s x.stream x.url (hang_up_all r platform s))
    unfolding hang_up_all get
    hang_up-Released s =
        let after = stop_locals s.local_streams.entries s in
        let last = stop_users s.remote.streams_by_user_id.entries after in
        (
          λ k x e.
              let h =
                Released-Later s after last x.stream x.url
                  (stop_locals-Released k x s.local_streams.entries s e)
                  (stop_users-Later s.remote.streams_by_user_id.entries after) in
              record { revoked = h.revoked; stopped = h.stopped },
          λ k u x e i.
              let h =
                Released-objects s after last x.stream x.url
                  (stop_locals-Later s.local_streams.entries s)
                  (stop_users-Released k u x s.remote.streams_by_user_id.entries after e i) in
              record { revoked = h.revoked; stopped = h.stopped },
        )
