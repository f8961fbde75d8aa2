-- ===== src/Reducers/Streams/Peers/Assigning.antt =====
-- The second loop of `setMetadata`: each track with metadata gets the association of its metadata.
use text.Mathlib.Text.{◌==◌}
use text.Mathlib.TextEquality.{eq_iff}
use mathlib.Core.Option.{some-injective}
use meeting.Prelude.{
  ◌≡◌, ◌⊎◌, refl, sym, ap, subst, ◌∙◌, String, List, [], ◌∷◌, Option, none, some, true, false, ◌&&◌,
  Bool-cases, inl, inr, arith,
}
use meeting.Prelude.Dict.{Dict, get}
use meeting.SocketEvent.{TrackMetadata}
use meeting.Reducers.Streams.{
  Track, MediaPlatform, TrackInfo, TrackAssociation, StreamsState, AddTrackPayload, get_peer_id_mid,
  or_payload, get_stream_user, remove_track, add_track,
}
use meeting.Reducers.Streams.Invariant.{TrackLaws, Inv}
use meeting.Reducers.Streams.Removing.{remove_track-Inv, remove_track-metadata}
use meeting.Reducers.Streams.Adding.{add_track-metadata, add_track-Inv}
use meeting.Reducers.Streams.Peers.Changes.{
  Has, assigned, Listed, InMetadata, Changes, Changes-none, remove_Changes, add_Changes,
}
use meeting.Reducers.Streams.Peers.{associate_again, associate_one, associate_all}

module _ (platform : MediaPlatform) (key_of : String → String) (laws : TrackLaws platform)
    (md : Dict TrackMetadata) (old : StreamsState) where
  -- An entry has no metadata and no association, or still that of the old state, or that of its metadata.
  abbrev pub Stage : StreamsState → String → TrackInfo → Type 0
  Stage new k t =
      ((get k md ≡ none) × Has new k t.track none)
      ⊎ ((m : TrackMetadata) × (get k md ≡ some m)
          × (Has new k t.track t.association ⊎ Has new k t.track (assigned (some m))))

  pub record Assigning (new : StreamsState) : Type 0 where
    pub inv : Inv key_of new
    pub unknown :
        (k : String)
        → get k old.tracks_by_peer_id_mid ≡ none
        → get k new.tracks_by_peer_id_mid ≡ none
    pub metadata : new.metadata_by_peer_id_mid ≡ md
    pub stage :
        (k : String) (t : TrackInfo) → get k old.tracks_by_peer_id_mid ≡ some t → Stage new k t

  Stage-Has :
      (new : StreamsState) (k : String) (t : TrackInfo)
      → Stage new k t
      → (a : Option TrackAssociation) × Has new k t.track a
  Stage-Has new k t (inl h) = (none, h.1)
  Stage-Has new k t (inr (m, e, inl h)) = (t.association, h)
  Stage-Has new k t (inr (m, e, inr h)) = (assigned (some m), h)

  abbrev payload : String → TrackMetadata → String → TrackInfo → AddTrackPayload
  payload user_id m stream_id t = record {
    mid = m.mid;
    stream_id = stream_id;
    user_id = user_id;
    track = t.track;
  }

  module _ (user_id : String) (m : TrackMetadata) (t : TrackInfo)
      (known : get (get_peer_id_mid user_id m.mid) old.tracks_by_peer_id_mid ≡ some t)
      (m' : TrackMetadata) (given : get (get_peer_id_mid user_id m.mid) md ≡ some m') where
    abbrev k : String
    k = get_peer_id_mid user_id m.mid

    -- A step that gives the entry of the key the association of its metadata.
    abbrev Step : StreamsState → StreamsState → Type 0
    Step new next =
        Inv key_of next
        × (next.metadata_by_peer_id_mid ≡ md)
        × Changes new next k t.track (assigned (some m'))

    add_Step :
        (new : StreamsState) (stream_id : String) (a : Option TrackAssociation)
        → Inv key_of new
        → new.metadata_by_peer_id_mid ≡ md
        → Has new k t.track a
        → Step new (add_track platform new (payload user_id m stream_id t))
    unfolding get_stream_user or_payload
    add_Step new stream_id a inv e (x, f, g, _) =
        let p = payload user_id m stream_id t in
        let keyed = ap (λ u. key_of u.id) (sym g) ∙ inv.keyed k x f in
        let target : get_stream_user new p
            ≡ record { stream_id = m'.stream_id; user_id = m'.user_id } =
          rw (e, given) refl in
        (
          add_track-Inv platform new p key_of laws inv keyed,
          add_track-metadata platform new p ∙ e,
          subst (Changes new (add_track platform new p) k t.track) (ap some target)
              (add_Changes platform key_of laws new p),
        )

    again_Step :
        (new : StreamsState) (stream_id : String) (a : Option TrackAssociation)
        → Inv key_of new
        → new.metadata_by_peer_id_mid ≡ md
        → Has new k t.track a
        → Step new
            (add_track platform (remove_track platform new t.track) (payload user_id m stream_id t))
    again_Step new stream_id a inv e h =
        let gone = remove_track platform new t.track in
        let first = remove_Changes platform key_of laws new k t.track a inv h in
        let (inv2, e2, second) =
          add_Step gone stream_id none (remove_track-Inv platform key_of laws new t.track inv)
            (remove_track-metadata platform key_of laws new t.track ∙ e) first.here in
        (
          inv2,
          e2,
          record { here = second.here; others = λ j n. second.others j n ∙ first.others j n },
        )

    -- What a round gives: what is assigned stays assigned, and the metadata of the round are assigned if they are the key's.
    abbrev pub Round : StreamsState → StreamsState → Type 0
    Round new next =
        Assigning next
        × ((j : String) (u : TrackInfo) (n : TrackMetadata)
            → get j old.tracks_by_peer_id_mid ≡ some u
            → get j md ≡ some n
            → Has new j u.track (assigned (some n))
            → Has next j u.track (assigned (some n)))
        × (get k md ≡ some m → Has next k t.track (assigned (some m)))

    module _ (new next : StreamsState) (l : Assigning new)
        (ch : Changes new next k t.track (assigned (some m'))) where
      at_key :
          (j : String) (u : TrackInfo) (n : TrackMetadata)
          → k ≡ j
          → get j old.tracks_by_peer_id_mid ≡ some u
          → get j md ≡ some n
          → Has next j u.track (assigned (some n))
      at_key j u n p e f =
          let t_is =
            some-injective t u (sym known ∙ ap (λ i. get i old.tracks_by_peer_id_mid) p ∙ e) in
          let m_is = some-injective m' n (sym given ∙ ap (λ i. get i md) p ∙ f) in
          subst (λ i. Has next i u.track (assigned (some n))) p
            (subst (λ (x : TrackMetadata). Has next k u.track (assigned (some x))) m_is
              (subst (λ (x : TrackInfo). Has next k x.track (assigned (some m'))) t_is ch.here))

      elsewhere :
          (j : String) (u : Track) (c : Option TrackAssociation)
          → (k == j) ≡ false
          → Has new j u c
          → Has next j u c
      elsewhere j u c n (x, e, f, g) = (x, ch.others j n ∙ e, f, g)

      next-Stage :
          (j : String) (u : TrackInfo)
          → get j old.tracks_by_peer_id_mid ≡ some u
          → Stage new j u
          → Stage next j u
      next-Stage j u e st = elim (Bool-cases (k == j)) [
        | inl same ↦
            let p = (eq_iff k j).0 same in
            let f = subst (λ i. get i md ≡ some m') p given in
            inr (m', f, inr (at_key j u m' p e f))
        | inr other ↦ elim st [
          | inl (n, h) ↦ inl (n, elsewhere j u.track none other h)
          | inr (n, f, inl h) ↦ inr (n, f, inl (elsewhere j u.track u.association other h))
          | inr (n, f, inr h) ↦ inr (n, f, inr (elsewhere j u.track (assigned (some n)) other h))
        ]
      ]

      Step-Round : Inv key_of next → next.metadata_by_peer_id_mid ≡ md → Round new next
      Step-Round inv e =
          let (a, h) = Stage-Has new k t (l.stage k t known) in
          (
            record {
              inv = inv;
              unknown = λ j n.
                  Changes-none new next k t.track (assigned (some m')) ch a h j (l.unknown j n);
              metadata = e;
              stage = λ j u f. next-Stage j u f (l.stage j u f);
            },
            λ j u n f g kept. elim (Bool-cases (k == j)) [
              | inl same ↦ at_key j u n ((eq_iff k j).0 same) f g
              | inr other ↦ elsewhere j u.track (assigned (some n)) other kept
            ],
            λ g. at_key k t m refl known g,
          )

    up_to_date :
        (a : TrackAssociation) (new : StreamsState)
        → t.association ≡ some a
        → ((a.stream_id == m.stream_id) && (a.user_id == m.user_id)) ≡ true
        → Stage new k t
        → get k md ≡ some m
        → Has new k t.track (assigned (some m))
    up_to_date a new e same st g =
        let a_is : a ≡ record { stream_id = m.stream_id; user_id = m.user_id } =
          ground (arith, eq_iff a.stream_id m.stream_id, eq_iff a.user_id m.user_id) in
        elim st [
          | inl (n, _) ↦ absurd (cc (g, n))
          | inr (n, f, inl h) ↦ subst (Has new k t.track) (e ∙ ap some a_is) h
          | inr (n, f, inr h) ↦
              subst (λ x. Has new k t.track (assigned (some x))) (some-injective n m (sym f ∙ g)) h
        ]

    -- The round of one entry of the payload.
    associate_again-Round :
        (a : Option TrackAssociation) (new : StreamsState)
        → t.association ≡ a
        → Assigning new
        → Round new (associate_again platform user_id m t a new)
    unfolding associate_again
    associate_again-Round none new e l =
        let (a, h) = Stage-Has new k t (l.stage k t known) in
        let (inv, f, ch) = add_Step new m.stream_id a l.inv l.metadata h in
        Step-Round new _ l ch inv f
    associate_again-Round (some a) new e l =
        elim (Bool-cases ((a.stream_id == m.stream_id) && (a.user_id == m.user_id))) [
          | inl same ↦
              rw same (l, λ j u n f g h. h, λ g. up_to_date a new e same (l.stage k t known) g)
          | inr other ↦
              let (b, h) = Stage-Has new k t (l.stage k t known) in
              let (inv, f, ch) = again_Step new a.stream_id b l.inv l.metadata h in
              rw other (Step-Round new _ l ch inv f)
        ]

  -- What is assigned by the metadata of a list.
  abbrev All : String → List TrackMetadata → StreamsState → StreamsState → Type 0
  All user_id ms new last =
      Assigning last
      × ((j : String) (u : TrackInfo) (n : TrackMetadata)
          → get j old.tracks_by_peer_id_mid ≡ some u
          → get j md ≡ some n
          → Has new j u.track (assigned (some n))
          → Has last j u.track (assigned (some n)))
      × ((u : TrackInfo) (n : TrackMetadata)
          → InMetadata n ms
          → get (get_peer_id_mid user_id n.mid) old.tracks_by_peer_id_mid ≡ some u
          → get (get_peer_id_mid user_id n.mid) md ≡ some n
          → Has last (get_peer_id_mid user_id n.mid) u.track (assigned (some n)))

  associate_one-Round :
      (user_id : String) (m : TrackMetadata) (o : Option TrackInfo) (new : StreamsState)
      → get (get_peer_id_mid user_id m.mid) old.tracks_by_peer_id_mid ≡ o
      → (n : TrackMetadata) → get (get_peer_id_mid user_id m.mid) md ≡ some n
      → Assigning new
      → All user_id (m ∷ []) new (associate_one platform user_id m o new)
  unfolding associate_one
  associate_one-Round user_id m none new e n f l = (
    l,
    λ j u x g h k. k,
    λ u x i g h. elim i [
      | inl p ↦ absurd (cc (e, g, ap (λ (y : TrackMetadata). get_peer_id_mid user_id y.mid) p))
      | inr p ↦ absurd p
    ],
  )
  associate_one-Round user_id m (some t) new e n f l =
      let (kept, stays, here) = associate_again-Round user_id m t e n f t.association new refl l in
      (
        kept,
        stays,
        λ u x i g h. elim i [
          | inl p ↦
              let next = associate_again platform user_id m t t.association new in
              let at = λ (y : TrackMetadata). get_peer_id_mid user_id y.mid in
              let u_is =
                some-injective t u (sym e ∙ ap (λ y. get (at y) old.tracks_by_peer_id_mid) p ∙ g) in
              let g' = subst (λ y. get (at y) md ≡ some y) (sym p) h in
              subst (λ (y : TrackMetadata). Has next (at y) u.track (assigned (some y))) p
                (subst (λ (y : TrackInfo). Has next (at m) y.track (assigned (some m))) u_is
                  (here g'))
          | inr p ↦ absurd p
        ],
      )

  pub associate_all-All :
      (user_id : String) (ms : List TrackMetadata) (new : StreamsState)
      → Listed md user_id ms
      → Assigning new
      → All user_id ms new (associate_all platform user_id ms old new)
  unfolding associate_all
  associate_all-All user_id [] new ls l = (l, λ j u x g h k. k, λ u x i g h. absurd i)
  associate_all-All user_id (m ∷ ms) new ls l =
      let (kept, stays, here) =
        associate_one-Round user_id m
          (get (get_peer_id_mid user_id m.mid) old.tracks_by_peer_id_mid) new refl ls.0.0 ls.0.1
          l in
      let (last, still, rest) = associate_all-All user_id ms _ ls.1 kept in
      (
        last,
        λ j u x g h k. still j u x g h (stays j u x g h k),
        λ u x i g h. elim i [
          | inl p ↦ still (get_peer_id_mid user_id x.mid) u x g h (here u x (inl p) g h)
          | inr p ↦ rest u x p g h
        ],
      )
