-- ===== src/Reducers/Streams/Peers/Metadata.antt =====
-- After `setMetadata` the associations are those of the metadata.
use text.Mathlib.Text.{◌==◌}
use text.Mathlib.TextEquality.{eq_iff}
use mathlib.Core.Option.{some-injective}
use meeting.Prelude.{
  ◌≡◌, ◌⊎◌, refl, sym, ap, subst, ◌∙◌, String, List, [], ◌∷◌, none, some, Bool-cases, Option-cases,
  inl, inr,
}
use meeting.Prelude.Dict.{Dict, empty, get, put, keys, get-put, get-empty, get-keys}
use meeting.SocketEvent.{TrackMetadata, MetadataPayload}
use meeting.Reducers.Streams.{MediaPlatform, TrackInfo, StreamsState, get_peer_id_mid}
use meeting.Reducers.Streams.Invariant.{TrackLaws, Inv}
use meeting.Reducers.Streams.Peers.Changes.{Has, assigned, Listed, InMetadata}
use meeting.Reducers.Streams.Peers.Losing.{Losing, lose_tracks_lem}
use meeting.Reducers.Streams.Peers.Assigning.{Assigning, associate_all-All}
use meeting.Reducers.Streams.Peers.{key_by, lose_tracks, set_metadata}

-- The map from keys to metadata has the last metadata of each key.
key_by-Listed :
    (user_id : String) (ms : List TrackMetadata) (d : Dict TrackMetadata) (k : String)
    → ((n : TrackMetadata) × (get k d ≡ some n))
    → (n : TrackMetadata) × (get k (key_by user_id ms d) ≡ some n)
unfolding key_by
key_by-Listed user_id [] d k h = h
key_by-Listed user_id (m ∷ ms) d k (n, e) =
    let at = get_peer_id_mid user_id m.mid in
    key_by-Listed user_id ms (put at m d) k (elim (Bool-cases (at == k)) [
      | inl h ↦ (m, get-put at k m d ∙ rw h refl)
      | inr h ↦ (n, get-put at k m d ∙ rw h e)
    ])

key_by-all :
    (user_id : String) (ms : List TrackMetadata) (d : Dict TrackMetadata)
    → Listed (key_by user_id ms d) user_id ms
unfolding key_by
key_by-all user_id [] d = tt
key_by-all user_id (m ∷ ms) d =
    let at = get_peer_id_mid user_id m.mid in
    (
      key_by-Listed user_id ms (put at m d) at
          (m, get-put at at m d ∙ rw ((eq_iff at at).1 refl) refl),
      key_by-all user_id ms (put at m d),
    )

key_by-In :
    (user_id : String) (ms : List TrackMetadata) (d : Dict TrackMetadata) (k : String)
    (n : TrackMetadata)
    → get k (key_by user_id ms d) ≡ some n
    → (InMetadata n ms × (get_peer_id_mid user_id n.mid ≡ k)) ⊎ (get k d ≡ some n)
unfolding key_by
key_by-In user_id [] d k n e = inr e
key_by-In user_id (m ∷ ms) d k n e =
    let at = get_peer_id_mid user_id m.mid in
    elim (key_by-In user_id ms (put at m d) k n e) [
      | inl (i, p) ↦ inl (inr i, p)
      | inr f ↦ elim (Bool-cases (at == k)) [
        | inl h ↦
            let p = some-injective m n (sym (rw h at (get-put at k m d)) ∙ f) in
            inl (
              inl p,
              ap (λ (x : TrackMetadata). get_peer_id_mid user_id x.mid) (sym p) ∙ (eq_iff at k).0 h,
            )
        | inr h ↦ inr (sym (rw h at (get-put at k m d)) ∙ f)
      ]
    ]

with_metadata-Inv :
    (key_of : String → String) (s : StreamsState) (md : Dict TrackMetadata)
    → Inv key_of s
    → Inv key_of (record s { metadata_by_peer_id_mid = md })
with_metadata-Inv key_of s md inv = record {
  keyed = inv.keyed;
  ids = inv.ids;
  shape = inv.shape;
  linked = λ k t a e f.
      let l = inv.linked k t a e f in
      record {
        stream = l.stream;
        tracks = l.tracks;
        filed = l.filed;
        located = l.located;
        object = l.object;
        has = l.has;
      };
}

module _ (platform : MediaPlatform) (key_of : String → String) (laws : TrackLaws platform) where
  all_lost :
      (md : Dict TrackMetadata) (s : StreamsState)
      → Inv key_of s
      → Assigning platform key_of laws md s
          (record (lose_tracks platform (keys s.tracks_by_peer_id_mid) md s s) {
            metadata_by_peer_id_mid = md;
          })
  all_lost md s inv =
      let first : Losing platform key_of laws md s s = record {
        inv = inv;
        unknown = λ k n. n;
        lost = λ k t e. inl (t, e, refl, refl);
      } in
      let (l, _, done) =
        lose_tracks_lem platform key_of laws md s (keys s.tracks_by_peer_id_mid) s first in
      record {
        inv = with_metadata-Inv key_of _ md l.inv;
        unknown = l.unknown;
        metadata = refl;
        stage = λ k t e. elim (Option-cases (get k md)) [
          | inl n ↦ inl (
            n,
            elim (get-keys k s.tracks_by_peer_id_mid) [
              | inl absent ↦ absurd (cc (absent, e))
              | inr listed ↦ done k t listed e n
            ],
          )
          | inr (m, f) ↦
              inr (m, f, elim (l.lost k t e) [ inl h ↦ inl h | inr (n, _) ↦ absurd (cc (n, f)) ])
        ];
      }

  -- In a state that satisfies the invariant, and with a platform whose MediaStream adds and removes tracks,
  -- `setMetadata` leaves each known track with the association that the last metadata of its mid name, or
  -- with none if there are none. It makes no track known, and keeps the invariant.
  pub set_metadata_lem :
      (s : StreamsState) (p : MetadataPayload)
      → Inv key_of s
      → Inv key_of (set_metadata platform s p)
        × ((k : String)
            → get k s.tracks_by_peer_id_mid ≡ none
            → get k (set_metadata platform s p).tracks_by_peer_id_mid ≡ none)
        × ((k : String) (t : TrackInfo)
            → get k s.tracks_by_peer_id_mid ≡ some t
            → Has
                (set_metadata platform s p)
                k
                t.track
                (assigned (get k (key_by p.user_id p.metadata empty))))
  unfolding set_metadata
  set_metadata_lem s p inv =
      let md = key_by p.user_id p.metadata empty in
      let (last, stays, done) =
        associate_all-All platform key_of laws md s p.user_id p.metadata _
          (key_by-all p.user_id p.metadata empty) (all_lost md s inv) in
      (
        last.inv,
        last.unknown,
        λ k t e. elim (Option-cases (get k md)) [
          | inl n ↦ elim (last.stage k t e) [
            | inl (_, h) ↦ rw n h
            | inr (m, f, _) ↦ absurd (cc (n, f))
          ]
          | inr (m, f) ↦ elim (key_by-In p.user_id p.metadata empty k m f) [
            | inl (i, at) ↦ rw f (
                subst (λ j. Has (set_metadata platform s p) j t.track (assigned (some m))) at
                  (done t m i (subst (λ j. get j s.tracks_by_peer_id_mid ≡ some t) (sym at) e)
                    (subst (λ j. get j md ≡ some m) (sym at) f)))
            | inr g ↦ absurd (cc (g, get-empty {V = TrackMetadata} k))
          ]
        ],
      )
