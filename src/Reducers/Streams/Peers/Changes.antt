-- ===== src/Reducers/Streams/Peers/Changes.antt =====
-- Changes of one entry of `tracksByPeerIdMid`.
use text.Mathlib.Text.{◌==◌}
use text.Mathlib.TextEquality.{eq_iff}
use mathlib.Core.Option.{some-injective}
use meeting.Prelude.{
  ◌≡◌, ◌⊎◌, refl, sym, ap, subst, ◌∙◌, String, List, [], ◌∷◌, Option, none, some, false,
  if◌then◌else◌, Bool-cases, inl, inr,
}
use meeting.Prelude.Dict.{Dict, get}
use meeting.SocketEvent.{TrackMetadata}
use meeting.Reducers.Streams.{
  Track, MediaPlatform, TrackInfo, TrackAssociation, StreamsState, AddTrackPayload, get_peer_id_mid,
  get_stream_user, remove_track, add_track,
}
use meeting.Reducers.Streams.Invariant.{TrackLaws, Inv}
use meeting.Reducers.Streams.Removing.{remove_track-get}
use meeting.Reducers.Streams.Adding.{add_track-get}

-- The entry of a key has this track and this association.
abbrev pub Has : StreamsState → String → Track → Option TrackAssociation → Type 0
Has s k track a =
    (t : TrackInfo) × (get k s.tracks_by_peer_id_mid ≡ some t)
    × (t.track ≡ track)
    × (t.association ≡ a)

-- The association that metadata stand for.
abbrev pub assigned : Option TrackMetadata → Option TrackAssociation
assigned none = none
assigned (some m) = some (record { stream_id = m.stream_id; user_id = m.user_id })

-- Each of the metadata has an entry in the map.
abbrev pub Listed : Dict TrackMetadata → String → List TrackMetadata → Type 0
Listed md user_id [] = Unit
Listed md user_id (m ∷ ms) =
    ((n : TrackMetadata) × (get (get_peer_id_mid user_id m.mid) md ≡ some n)) × Listed md user_id ms

abbrev pub InMetadata : TrackMetadata → List TrackMetadata → Type 0
InMetadata m [] = ⊥
InMetadata m (n ∷ ms) = (n ≡ m) ⊎ InMetadata m ms

pub Has-same :
    (s : StreamsState) (k : String) (t u : Track) (a b : Option TrackAssociation)
    → Has s k t a
    → Has s k u b
    → (t ≡ u) × (a ≡ b)
Has-same s k t u a b (x, e, f, g) (y, h, i, j) =
    let same = some-injective x y (sym e ∙ h) in
    (sym f ∙ ap (λ z. z.track) same ∙ i, sym g ∙ ap (λ z. z.association) same ∙ j)

-- One step changes the entry of one key and no other.
pub record Changes (old new : StreamsState) (k : String) (track : Track)
    (a : Option TrackAssociation) : Type 0 where
  pub here : Has new k track a
  pub others :
      (j : String)
      → (k == j) ≡ false
      → get j new.tracks_by_peer_id_mid ≡ get j old.tracks_by_peer_id_mid

pub Changes-Has :
    (old new : StreamsState) (k : String) (track : Track) (a : Option TrackAssociation)
    → Changes old new k track a
    → (b : Option TrackAssociation) → Has old k track b
    → (j : String) (u : Track) (c : Option TrackAssociation) → Has old j u c
    → Has new j u (if k == j then a else c)
Changes-Has old new k track a ch b h j u c g = elim (Bool-cases (k == j)) [
  | inl same ↦
      let e = (eq_iff k j).0 same in
      let t_is = (Has-same old j track u b c (subst (λ i. Has old i track b) e h) g).0 in
      rw same (subst (λ i. Has new i u a) e (subst (λ v. Has new k v a) t_is ch.here))
  | inr other ↦ let (t, e, f, i) = g in rw other (t, ch.others j other ∙ e, f, i)
]

pub Changes-none :
    (old new : StreamsState) (k : String) (track : Track) (a : Option TrackAssociation)
    → Changes old new k track a
    → (b : Option TrackAssociation) → Has old k track b
    → (j : String) → get j old.tracks_by_peer_id_mid ≡ none
    → get j new.tracks_by_peer_id_mid ≡ none
Changes-none old new k track a ch b (t, e, _, _) j n = elim (Bool-cases (k == j)) [
  | inl same ↦ absurd (cc (e, (eq_iff k j).0 same, n))
  | inr other ↦ ch.others j other ∙ n
]

module _ (platform : MediaPlatform) (key_of : String → String) (laws : TrackLaws platform) where
  pub remove_Changes :
      (s : StreamsState) (k : String) (track : Track) (a : Option TrackAssociation)
      → Inv key_of s
      → Has s k track a
      → Changes s (remove_track platform s track) k track none
  remove_Changes s k track a inv (t, e, f, g) =
      let at = λ (j : String).
        subst
          (λ u. get j (remove_track platform s u).tracks_by_peer_id_mid ≡ (
            if k == j
            then some (record t { association = none })
            else get j s.tracks_by_peer_id_mid))
          f (remove_track-get platform key_of laws s k t inv e j) in
      record {
        here = (record t { association = none }, at k ∙ rw ((eq_iff k k).1 refl) refl, f, refl);
        others = λ j n. at j ∙ rw n refl;
      }

  pub add_Changes :
      (s : StreamsState) (p : AddTrackPayload)
      → Changes s
          (add_track platform s p)
          (get_peer_id_mid p.user_id p.mid)
          p.track
          (some (get_stream_user s p))
  add_Changes s p =
      let k = get_peer_id_mid p.user_id p.mid in
      record {
        here = (
          record { track = p.track; mid = p.mid; association = some (get_stream_user s p) },
          add_track-get platform s p k ∙ rw ((eq_iff k k).1 refl) refl,
          refl,
          refl,
        );
        others = λ j n. add_track-get platform s p j ∙ rw n refl;
      }
