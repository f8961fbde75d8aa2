-- ===== src/Reducers/Streams/Peers/Losing.antt =====
-- The first loop of `setMetadata`: tracks without metadata lose their association.
use text.Mathlib.Text.{◌==◌}
use text.Mathlib.TextEquality.{eq_iff}
use mathlib.Core.Option.{some-injective}
use meeting.Prelude.{
  ◌≡◌, ◌⊎◌, refl, sym, ap, subst, ◌∙◌, String, List, [], ◌∷◌, Option, none, some, true, Bool-cases,
  inl, inr,
}
use meeting.Prelude.Dict.{Dict, get, has_key}
use meeting.SocketEvent.{TrackMetadata}
use meeting.Reducers.Streams.{
  Track, MediaPlatform, TrackInfo, TrackAssociation, StreamsState, remove_track,
}
use meeting.Reducers.Streams.Invariant.{TrackLaws, Inv}
use meeting.Reducers.Streams.Removing.{remove_track-Inv}
use meeting.Reducers.Streams.Peers.Changes.{Has, Changes-Has, Changes-none, remove_Changes}
use meeting.Reducers.Streams.Peers.{lose_associated, lose_one, lose_tracks}

module _ (platform : MediaPlatform) (key_of : String → String) (laws : TrackLaws platform)
    (md : Dict TrackMetadata) (old : StreamsState) where
  -- An entry is as it was, or has no metadata and has lost its association.
  abbrev pub Lost : StreamsState → String → TrackInfo → Type 0
  Lost new k t = Has new k t.track t.association ⊎ ((get k md ≡ none) × Has new k t.track none)

  pub record Losing (new : StreamsState) : Type 0 where
    pub inv : Inv key_of new
    pub unknown :
        (k : String)
        → get k old.tracks_by_peer_id_mid ≡ none
        → get k new.tracks_by_peer_id_mid ≡ none
    pub lost :
        (k : String) (t : TrackInfo) → get k old.tracks_by_peer_id_mid ≡ some t → Lost new k t

  Lost-Has :
      (new : StreamsState) (k : String) (t : TrackInfo)
      → Lost new k t
      → (a : Option TrackAssociation) × Has new k t.track a
  Lost-Has new k t (inl h) = (t.association, h)
  Lost-Has new k t (inr h) = (none, h.1)

  remove_Lost :
      (new : StreamsState) (k : String) (t : TrackInfo)
      → get k md ≡ none
      → get k old.tracks_by_peer_id_mid ≡ some t
      → Losing new
      → Losing (remove_track platform new t.track)
        × ((j : String) (u : TrackInfo)
            → Has new j u.track none
            → Has (remove_track platform new t.track) j u.track none)
        × Has (remove_track platform new t.track) k t.track none
  remove_Lost new k t n e l =
      let (a, h) = Lost-Has new k t (l.lost k t e) in
      let ch = remove_Changes platform key_of laws new k t.track a l.inv h in
      let after = λ (j : String) (u : Track) (c : Option TrackAssociation) (g : Has new j u c).
        Changes-Has new (remove_track platform new t.track) k t.track none ch a h j u c g in
      (
        record {
          inv = remove_track-Inv platform key_of laws new t.track l.inv;
          unknown = λ j m.
              Changes-none new (remove_track platform new t.track) k t.track none ch a h j
                (l.unknown j m);
          lost = λ j u f. elim (Bool-cases (k == j)) [
            | inl same ↦
                let p = (eq_iff k j).0 same in
                let t_is =
                  some-injective t u (sym e ∙ ap (λ i. get i old.tracks_by_peer_id_mid) p ∙ f) in
                inr (
                  subst (λ i. get i md ≡ none) p n,
                  subst (λ i. Has (remove_track platform new t.track) i u.track none) p
                      (subst (λ x. Has (remove_track platform new t.track) k x none)
                        (ap (λ x. x.track) t_is) ch.here),
                )
            | inr other ↦ elim (l.lost j u f) [
              | inl g ↦ inl (rw other at (after j u.track u.association g))
              | inr (m, g) ↦ inr (m, rw other at (after j u.track none g))
            ]
          ];
        },
        λ j u g. elim (Bool-cases (k == j)) [
          | inl same ↦ rw same at (after j u.track none g)
          | inr other ↦ rw other at (after j u.track none g)
        ],
        ch.here,
      )

  -- What a round for one key gives: what is lost stays lost, and a key without metadata is lost.
  abbrev Round : StreamsState → StreamsState → String → Type 0
  Round new next k =
      Losing next
      × ((j : String) (u : TrackInfo) → Has new j u.track none → Has next j u.track none)
      × ((t : TrackInfo)
          → get k old.tracks_by_peer_id_mid ≡ some t
          → get k md ≡ none
          → Has next k t.track none)

  same_entry :
      (k : String) (t u : TrackInfo)
      → get k old.tracks_by_peer_id_mid ≡ some t
      → get k old.tracks_by_peer_id_mid ≡ some u
      → t ≡ u
  same_entry k t u e f = some-injective t u (sym e ∙ f)

  lose_associated_lem :
      (a : Option TrackAssociation) (new : StreamsState) (k : String) (t : TrackInfo)
      → t.association ≡ a
      → get k md ≡ none
      → get k old.tracks_by_peer_id_mid ≡ some t
      → Losing new
      → Round new (lose_associated platform a t.track new) k
  unfolding lose_associated
  lose_associated_lem none new k t e n f l = (
    l,
    λ j u h. h,
    λ u g m. elim (l.lost k u g) [
      | inl h ↦ subst (Has new k u.track) (ap (λ x. x.association) (same_entry k u t g f) ∙ e) h
      | inr h ↦ h.1
    ],
  )
  lose_associated_lem (some a) new k t e n f l =
      let (kept, stays, here) = remove_Lost new k t n f l in
      (
        kept,
        stays,
        λ u g m.
            subst (λ x. Has (remove_track platform new t.track) k x none)
              (ap (λ x. x.track) (same_entry k t u f g)) here,
      )

  lose_one_lem :
      (m : Option TrackMetadata) (o : Option TrackInfo) (new : StreamsState) (k : String)
      → get k md ≡ m
      → get k old.tracks_by_peer_id_mid ≡ o
      → Losing new
      → Round new (lose_one platform m o new) k
  unfolding lose_one
  lose_one_lem (some m) o new k e f l = (l, λ j u h. h, λ t g n. absurd (cc (e, n)))
  lose_one_lem none none new k e f l = (l, λ j u h. h, λ t g n. absurd (cc (f, g)))
  lose_one_lem none (some t) new k e f l = lose_associated_lem t.association new k t refl e f l

  pub lose_tracks_lem :
      (ks : List String) (new : StreamsState)
      → Losing new
      → let last = lose_tracks platform ks md old new in
        Losing last
        × ((j : String) (u : TrackInfo) → Has new j u.track none → Has last j u.track none)
        × ((k : String) (t : TrackInfo)
            → has_key k ks ≡ true
            → get k old.tracks_by_peer_id_mid ≡ some t
            → get k md ≡ none
            → Has last k t.track none)
  unfolding lose_tracks has_key
  lose_tracks_lem [] new l = (l, λ j u h. h, λ k t h e n. absurd (cc h))
  lose_tracks_lem (k ∷ ks) new l =
      let (kept, stays, here) =
        lose_one_lem (get k md) (get k old.tracks_by_peer_id_mid) new k refl refl l in
      let (last, still, rest) = lose_tracks_lem ks _ kept in
      (
        last,
        λ j u h. still j u (stays j u h),
        λ j t h e n. elim (Bool-cases (k == j)) [
          | inl same ↦
              let p = (eq_iff k j).0 same in
              still j t (
                subst
                  (λ i.
                    Has (lose_one platform (get k md) (get k old.tracks_by_peer_id_mid) new) i
                      t.track none)
                  p
                  (here t (subst (λ i. get i old.tracks_by_peer_id_mid ≡ some t) (sym p) e)
                    (subst (λ i. get i md ≡ none) (sym p) n)))
          | inr other ↦ rest j t (rw other at h) e n
        ],
      )
