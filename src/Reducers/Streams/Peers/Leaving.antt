-- ===== src/Reducers/Streams/Peers/Leaving.antt =====
-- What a peer that leaves takes with it, by its id (src/client/reducers/streams.ts, `removePeer`).
use text.Mathlib.Text.{◌==◌}
use text.Mathlib.TextEquality.{eq_iff}
use meeting.Prelude.{
  ◌≡◌, ◌≢◌, refl, sym, ap, ◌∙◌, String, List, [], ◌∷◌, Option, none, some, true, false, Bool-cases,
  inl, inr,
}
use meeting.Prelude.Dict.{get, remove, keys, has_key, get-remove, get-keys}
use meeting.Prelude.Decimal.{codes}
use meeting.Reducers.Streams.{
  Track, MediaPlatform, TrackInfo, TrackAssociation, StreamsState, get_peer_id_mid, remove_found,
  remove_track,
}
use meeting.Reducers.Streams.Invariant.{Inv}
use meeting.Reducers.Streams.Removing.{remove_track-cases}
use meeting.Reducers.Streams.Peers.Forgotten.{remove_peer-get, has_key-keys_of_peer}
use meeting.Reducers.Streams.Peers.{
  forget_associated, forget_one, forget_all, is_of_peer, keys_of_peer, remove_peer,
}
use meeting.Reducers.Streams.Peers.Owning.{AllPlain, is_of_peer-own, is_of_peer-other}

module _ (platform : MediaPlatform) where
  remove_track-ids :
      (s : StreamsState) (track : Track)
      → (remove_track platform s track).track_id_to_peer_id_mid ≡ s.track_id_to_peer_id_mid
  unfolding remove_found
  remove_track-ids s track = elim (remove_track-cases platform s track) [
    | inl e ↦ ap (λ u. u.track_id_to_peer_id_mid) e
    | inr (f, e) ↦ ap (λ u. u.track_id_to_peer_id_mid) e
  ]

  forget_associated-ids :
      (a : Option TrackAssociation) (track : Track) (new : StreamsState)
      → (forget_associated platform a track new).track_id_to_peer_id_mid
        ≡ remove track.id new.track_id_to_peer_id_mid
  unfolding forget_associated
  forget_associated-ids none track new = refl
  forget_associated-ids (some a) track new = ap (remove track.id) (remove_track-ids new track)

  -- The id of a track stays filed when it is not one of those that are forgotten.
  Unlike : String → Option TrackInfo → Type 0
  Unlike i none = Unit
  Unlike i (some t) = (t.track.id == i) ≡ false

  forget_one-none :
      (o : Option TrackInfo) (new : StreamsState) (i : String)
      → get i new.track_id_to_peer_id_mid ≡ none
      → get i (forget_one platform o new).track_id_to_peer_id_mid ≡ none
  unfolding forget_one
  forget_one-none none new i e = e
  forget_one-none (some t) new i e =
      ap (get i) (forget_associated-ids t.association t.track new)
      ∙ get-remove t.track.id i new.track_id_to_peer_id_mid
      ∙ (elim (Bool-cases (t.track.id == i)) [ inl h ↦ rw h refl | inr h ↦ rw h e ])

  forget_one-some :
      (t : TrackInfo) (new : StreamsState)
      → get t.track.id (forget_one platform (some t) new).track_id_to_peer_id_mid ≡ none
  unfolding forget_one
  forget_one-some t new =
      ap (get t.track.id) (forget_associated-ids t.association t.track new)
      ∙ get-remove t.track.id t.track.id new.track_id_to_peer_id_mid
      ∙ rw ((eq_iff t.track.id t.track.id).1 refl) refl

  forget_one-Unlike :
      (o : Option TrackInfo) (new : StreamsState) (i : String)
      → Unlike i o
      → get i (forget_one platform o new).track_id_to_peer_id_mid
        ≡ get i new.track_id_to_peer_id_mid
  unfolding forget_one Unlike
  forget_one-Unlike none new i n = refl
  forget_one-Unlike (some t) new i n =
      ap (get i) (forget_associated-ids t.association t.track new)
      ∙ get-remove t.track.id i new.track_id_to_peer_id_mid
      ∙ rw n refl

  forget_all-none :
      (ks : List String) (old new : StreamsState) (i : String)
      → get i new.track_id_to_peer_id_mid ≡ none
      → get i (forget_all platform ks old new).track_id_to_peer_id_mid ≡ none
  unfolding forget_all
  forget_all-none [] old new i e = e
  forget_all-none (k ∷ ks) old new i e =
      forget_all-none ks old _ i (forget_one-none (get k old.tracks_by_peer_id_mid) new i e)

  forget_all-some :
      (ks : List String) (old new : StreamsState) (k : String) (t : TrackInfo)
      → has_key k ks ≡ true
      → get k old.tracks_by_peer_id_mid ≡ some t
      → get t.track.id (forget_all platform ks old new).track_id_to_peer_id_mid ≡ none
  unfolding forget_all has_key
  forget_all-some [] old new k t h e = absurd (cc h)
  forget_all-some (j ∷ js) old new k t h e = elim (Bool-cases (j == k)) [
    | inl same ↦
        let here = ap (λ i. get i old.tracks_by_peer_id_mid) ((eq_iff j k).0 same) ∙ e in
        forget_all-none js old _ t.track.id (
          ap (λ o. get t.track.id (forget_one platform o new).track_id_to_peer_id_mid) here
          ∙ forget_one-some t new)
    | inr differ ↦ forget_all-some js old _ k t (rw differ at h) e
  ]

  forget_all-Unlike :
      (ks : List String) (old new : StreamsState) (i : String)
      → ((k : String) → has_key k ks ≡ true → Unlike i (get k old.tracks_by_peer_id_mid))
      → get i (forget_all platform ks old new).track_id_to_peer_id_mid
        ≡ get i new.track_id_to_peer_id_mid
  unfolding forget_all has_key
  forget_all-Unlike [] old new i n = refl
  forget_all-Unlike (j ∷ js) old new i n =
      forget_all-Unlike js old _ i
        (λ k h. n k (elim (Bool-cases (j == k)) [ inl e ↦ rw e refl | inr e ↦ rw e h ]))
      ∙ forget_one-Unlike (get j old.tracks_by_peer_id_mid) new i
          (n j (rw ((eq_iff j j).1 refl) refl))

  Unlike-some :
      (i : String) (o : Option TrackInfo)
      → ((t : TrackInfo) → o ≡ some t → (t.track.id == i) ≡ false)
      → Unlike i o
  unfolding Unlike
  Unlike-some i none n = tt
  Unlike-some i (some t) n = n t refl

  gone_is :
      (user_id k : String) (ks : List String)
      → has_key k (keys_of_peer user_id ks) ≡ true
      → is_of_peer user_id k ≡ true
  gone_is user_id k ks h = elim (Bool-cases (is_of_peer user_id k)) [
    | inl own ↦ own
    | inr other ↦ absurd (cc (sym (rw other at (has_key-keys_of_peer user_id k ks)) ∙ h))
  ]

  own_ids-gone :
      (user_id mid : String) (s : StreamsState) (t : TrackInfo)
      → get (get_peer_id_mid user_id mid) s.tracks_by_peer_id_mid ≡ some t
      → get t.track.id (remove_peer platform s user_id).track_id_to_peer_id_mid ≡ none
  unfolding remove_peer
  own_ids-gone user_id mid s t e =
      let k = get_peer_id_mid user_id mid in
      let all = keys s.tracks_by_peer_id_mid in
      forget_all-some (keys_of_peer user_id all) s s k t
        (has_key-keys_of_peer user_id k all
          ∙ rw (is_of_peer-own user_id mid) (elim (get-keys k s.tracks_by_peer_id_mid) [
            | inl absent ↦ absurd (cc (sym absent ∙ e))
            | inr present ↦ present
          ]))
        e

  other_ids-stay :
      (key_of : String → String) (user_id k : String) (s : StreamsState) (i : String)
      → Inv key_of s
      → is_of_peer user_id k ≡ false
      → get i s.track_id_to_peer_id_mid ≡ some k
      → get i (remove_peer platform s user_id).track_id_to_peer_id_mid ≡ some k
  unfolding remove_peer
  other_ids-stay key_of user_id k s i inv other e =
      let all = keys s.tracks_by_peer_id_mid in
      forget_all-Unlike (keys_of_peer user_id all) s s i (λ j h.
        Unlike-some i (get j s.tracks_by_peer_id_mid) (λ t at_j.
          elim (Bool-cases (t.track.id == i)) [
            | inl same ↦
                let j_is =
                  sym (inv.keyed j t at_j)
                  ∙ ap key_of ((eq_iff t.track.id i).0 same)
                  ∙ inv.ids i k e in
                absurd (cc (sym (gone_is user_id j all h) ∙ ap (is_of_peer user_id) j_is ∙ other))
            | inr differ ↦ differ
          ]))
      ∙ e

  -- Let ids of peers have no colon, and let the state keep the invariant of its tracks. When a peer leaves, there is no
  -- entry for any mid of that peer, and the ids of the tracks that these entries had are no longer filed. The entries
  -- of each other peer are as they were, and an id that was filed under one of their keys still is.
  pub remove_peer_lem :
      (key_of : String → String) (user_id other_id : String) (s : StreamsState)
      → Inv key_of s
      → AllPlain (codes user_id)
      → AllPlain (codes other_id)
      → user_id ≢ other_id
      → ((mid : String)
          → get (get_peer_id_mid user_id mid) (remove_peer platform s user_id).tracks_by_peer_id_mid
            ≡ none)
        × ((mid : String) (t : TrackInfo)
            → get (get_peer_id_mid user_id mid) s.tracks_by_peer_id_mid ≡ some t
            → get t.track.id (remove_peer platform s user_id).track_id_to_peer_id_mid ≡ none)
        × ((mid : String)
            → get
                (get_peer_id_mid other_id mid)
                (remove_peer platform s user_id).tracks_by_peer_id_mid
              ≡ get (get_peer_id_mid other_id mid) s.tracks_by_peer_id_mid)
        × ((mid i : String)
            → get i s.track_id_to_peer_id_mid ≡ some (get_peer_id_mid other_id mid)
            → get i (remove_peer platform s user_id).track_id_to_peer_id_mid
              ≡ some (get_peer_id_mid other_id mid))
  remove_peer_lem key_of user_id other_id s inv p q n = (
    (λ mid.
        remove_peer-get platform user_id (get_peer_id_mid user_id mid) s
        ∙ rw (is_of_peer-own user_id mid) refl),
    (λ mid t e. own_ids-gone user_id mid s t e),
    (λ mid.
        remove_peer-get platform user_id (get_peer_id_mid other_id mid) s
        ∙ rw (is_of_peer-other user_id other_id mid p q n) refl),
    (λ mid i e.
        other_ids-stay key_of user_id (get_peer_id_mid other_id mid) s i inv
          (is_of_peer-other user_id other_id mid p q n) e),
  )
