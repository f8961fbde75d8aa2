-- ===== src/Reducers/Streams/Peers/Removal.antt =====
-- `removePeer` keeps the invariant.
use text.Mathlib.Text.{◌==◌}
use text.Mathlib.TextEquality.{eq_iff}
use mathlib.Core.Option.{some-injective}
use meeting.Prelude.{
  ◌≡◌, ◌⊎◌, refl, sym, ap, subst, ◌∙◌, String, List, [], ◌∷◌, Option, none, some, Bool, false,
  Bool-cases, inl, inr,
}
use meeting.Prelude.Dict.{get, remove, keys, has_key, get-remove}
use meeting.Reducers.Streams.{
  Track, MediaPlatform, TrackInfo, TrackAssociation, StreamsState, remove_track,
}
use meeting.Reducers.Streams.Invariant.{TrackLaws, Inv}
use meeting.Reducers.Streams.Removing.{remove_track-Inv}
use meeting.Reducers.Streams.Peers.Changes.{Has, Changes, Changes-Has, remove_Changes}
use meeting.Reducers.Streams.Peers.Forgotten.{remove_peer-get, has_key-keys_of_peer}
use meeting.Reducers.Streams.Peers.{
  forget_associated, forget_one, forget_all, is_of_peer, keys_of_peer, remove_peer,
}

module _ (platform : MediaPlatform) (key_of : String → String) (laws : TrackLaws platform) where
  -- The id of a track without association is forgotten.
  unfile-Inv :
      (s : StreamsState) (k : String) (t : Track)
      → Inv key_of s
      → Has s k t none
      → Inv key_of (record s { track_id_to_peer_id_mid = remove t.id s.track_id_to_peer_id_mid })
  unfile-Inv s k t inv (x, e, f, g) = record {
    keyed = inv.keyed;
    ids = λ i j h. elim (Bool-cases (t.id == i)) [
      | inl same ↦ absurd (cc (sym (rw same at (get-remove t.id i s.track_id_to_peer_id_mid)) ∙ h))
      | inr other ↦
          inv.ids i j (sym (rw other at (get-remove t.id i s.track_id_to_peer_id_mid)) ∙ h)
    ];
    shape = inv.shape;
    linked = λ j u a h l.
        let old = inv.linked j u a h l in
        let other : (t.id == u.track.id) ≡ false = elim (Bool-cases (t.id == u.track.id)) [
          | inl same ↦
              let p =
                sym (inv.keyed k x e)
                ∙ ap (λ (y : Track). key_of y.id) f
                ∙ ap key_of ((eq_iff t.id u.track.id).0 same)
                ∙ inv.keyed j u h in
              let u_is =
                some-injective x u (sym e ∙ ap (λ i. get i s.tracks_by_peer_id_mid) p ∙ h) in
              absurd (cc (ap (λ y. y.association) u_is, g, l))
          | inr n ↦ n
        ] in
        record {
          stream = old.stream;
          tracks = old.tracks;
          filed = get-remove t.id u.track.id s.track_id_to_peer_id_mid ∙ rw other old.filed;
          located = old.located;
          object = old.object;
          has = old.has;
        };
  }

  -- The entries of other keys stay.
  abbrev Forgets : StreamsState → StreamsState → (String → Bool) → Type 0
  Forgets new next gone =
      Inv key_of next
      × ((j : String)
          → gone j ≡ false
          → get j next.tracks_by_peer_id_mid ≡ get j new.tracks_by_peer_id_mid)

  -- While peers' keys are forgotten, an entry of the old state is as it was or without association.
  abbrev Kept : StreamsState → StreamsState → Type 0
  Kept old new =
      (k : String) (t : TrackInfo)
      → get k old.tracks_by_peer_id_mid ≡ some t
      → Has new k t.track t.association ⊎ Has new k t.track none

  Kept-next :
      (old new next : StreamsState) (k : String) (t : TrackInfo) (a : Option TrackAssociation)
      → Changes new next k t.track none
      → Has new k t.track a
      → Kept old new
      → Kept old next
  Kept-next old new next k t a ch h kept j u e = elim (kept j u e) [
    | inl g ↦ elim (Bool-cases (k == j)) [
      | inl same ↦
          inr (rw same at (Changes-Has new next k t.track none ch a h j u.track u.association g))
      | inr other ↦
          inl (rw other at (Changes-Has new next k t.track none ch a h j u.track u.association g))
    ]
    | inr g ↦ inr (elim (Bool-cases (k == j)) [
      | inl same ↦ rw same at (Changes-Has new next k t.track none ch a h j u.track none g)
      | inr other ↦ rw other at (Changes-Has new next k t.track none ch a h j u.track none g)
    ])
  ]

  -- A round of the loop.
  abbrev Round : StreamsState → StreamsState → StreamsState → String → Type 0
  Round old new next k = Kept old next × Forgets new next (λ j. k == j)

  forget_associated-Round :
      (a : Option TrackAssociation) (old new : StreamsState) (k : String) (t : TrackInfo)
      → t.association ≡ a
      → get k old.tracks_by_peer_id_mid ≡ some t
      → Inv key_of new
      → Kept old new
      → Round old new (forget_associated platform a t.track new) k
  unfolding forget_associated
  forget_associated-Round none old new k t e f inv kept =
      let h : Has new k t.track none = elim (kept k t f) [
        | inl g ↦ subst (Has new k t.track) e g
        | inr g ↦ g
      ] in
      (kept, (unfile-Inv new k t.track inv h, λ j n. refl))
  forget_associated-Round (some b) old new k t e f inv kept =
      let now : (a : Option TrackAssociation) × Has new k t.track a = elim (kept k t f) [
        | inl g ↦ (t.association, g)
        | inr g ↦ (none, g)
      ] in
      let ch = remove_Changes platform key_of laws new k t.track now.0 inv now.1 in
      (
        λ j u g.
            Kept-next old new (remove_track platform new t.track) k t now.0 ch now.1 kept j u g,
        (
          unfile-Inv (remove_track platform new t.track) k t.track
              (remove_track-Inv platform key_of laws new t.track inv) ch.here,
          ch.others,
        ),
      )

  forget_one-Round :
      (o : Option TrackInfo) (old new : StreamsState) (k : String)
      → get k old.tracks_by_peer_id_mid ≡ o
      → Inv key_of new
      → Kept old new
      → Round old new (forget_one platform o new) k
  unfolding forget_one
  forget_one-Round none old new k e inv kept = (kept, (inv, λ j n. refl))
  forget_one-Round (some t) old new k e inv kept =
      forget_associated-Round t.association old new k t refl e inv kept

  forget_all-Forgets :
      (ks : List String) (old new : StreamsState)
      → Inv key_of new
      → Kept old new
      → Forgets new (forget_all platform ks old new) (λ j. has_key j ks)
  unfolding forget_all has_key
  forget_all-Forgets [] old new inv kept = (inv, λ j n. refl)
  forget_all-Forgets (k ∷ ks) old new inv kept =
      let (k1, (i1, same)) =
        forget_one-Round (get k old.tracks_by_peer_id_mid) old new k refl inv kept in
      let (i2, rest) = forget_all-Forgets ks old _ i1 k1 in
      (
        i2,
        λ j n. elim (Bool-cases (k == j)) [
          | inl h ↦ absurd (cc (rw h at n))
          | inr h ↦ rest j (rw h at n) ∙ same j h
        ],
      )

  remains :
      (k : String) (t : TrackInfo) (s : StreamsState) (user_id : String)
      → get k (remove_peer platform s user_id).tracks_by_peer_id_mid ≡ some t
      → (has_key k (keys_of_peer user_id (keys s.tracks_by_peer_id_mid)) ≡ false)
        × (get k s.tracks_by_peer_id_mid ≡ some t)
  remains k t s user_id e = elim (Bool-cases (is_of_peer user_id k)) [
    | inl h ↦ absurd (cc (sym (rw h at (remove_peer-get platform user_id k s)) ∙ e))
    | inr h ↦ (
      has_key-keys_of_peer user_id k (keys s.tracks_by_peer_id_mid) ∙ rw h refl,
      sym (rw h at (remove_peer-get platform user_id k s)) ∙ e,
    )
  ]

  -- `removePeer` keeps the invariant: the tracks of the peers that stay are filed, and in the streams of their
  -- associations, as before.
  pub remove_peer-Inv :
      (s : StreamsState) (user_id : String)
      → Inv key_of s
      → Inv key_of (remove_peer platform s user_id)
  unfolding remove_peer
  remove_peer-Inv s user_id inv =
      let gone = keys_of_peer user_id (keys s.tracks_by_peer_id_mid) in
      let (last, same) = forget_all-Forgets gone s s inv (λ k t e. inl (t, e, refl, refl)) in
      let stays =
        λ (k : String) (t : TrackInfo)
            (e : get k (remove_peer platform s user_id).tracks_by_peer_id_mid ≡ some t).
          remains k t s user_id e in
      record {
        keyed = λ k t e. inv.keyed k t (stays k t e).1;
        ids = last.ids;
        shape = last.shape;
        linked = λ k t a e f.
            let (n, here) = stays k t e in
            let l = last.linked k t a (same k n ∙ here) f in
            record {
              stream = l.stream;
              tracks = l.tracks;
              filed = l.filed;
              located = l.located;
              object = l.object;
              has = l.has;
            };
      }
