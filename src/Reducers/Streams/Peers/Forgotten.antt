-- ===== src/Reducers/Streams/Peers/Forgotten.antt =====
-- What is forgotten with a peer.
use text.Mathlib.Text.{◌==◌}
use text.Mathlib.TextEquality.{eq_iff}
use meeting.Prelude.{
  ◌≡◌, refl, sym, ◌∙◌, ap, String, List, [], ◌∷◌, none, ◌&&◌, if◌then◌else◌, Bool-cases, inl, inr,
  arith,
}
use meeting.Prelude.Dict.{Dict, get, remove, keys, has_key, get-remove, get-keys}
use meeting.Reducers.Streams.{MediaPlatform, StreamsState}
use meeting.Reducers.Streams.Peers.{omit, is_of_peer, keys_of_peer, remove_peer}

omit-get {ℓ} :
    {V : Type ℓ} (ks : List String) (k : String) (d : Dict V)
    → get k (omit ks d) ≡ (if has_key k ks then none else get k d)
unfolding omit has_key
omit-get [] k d = refl
omit-get (j ∷ js) k d = ground (arith, omit-get js k (remove j d), get-remove j k d)

pub has_key-keys_of_peer :
    (user_id k : String) (ks : List String)
    → has_key k (keys_of_peer user_id ks) ≡ (is_of_peer user_id k && has_key k ks)
unfolding has_key keys_of_peer
has_key-keys_of_peer user_id k [] = ground arith
has_key-keys_of_peer user_id k (j ∷ js) = elim (Bool-cases (j == k)) [
  | inl same ↦
      let e = ap (is_of_peer user_id) ((eq_iff j k).0 same) in
      elim (Bool-cases (is_of_peer user_id j)) [
        | inl h ↦ rw (h, same, sym e ∙ h) refl
        | inr h ↦ rw (h, same, has_key-keys_of_peer user_id k js, sym e ∙ h) refl
      ]
  | inr other ↦ elim (Bool-cases (is_of_peer user_id j)) [
    | inl h ↦ rw (h, other) (has_key-keys_of_peer user_id k js)
    | inr h ↦ rw (h, other) (has_key-keys_of_peer user_id k js)
  ]
]

module _ (platform : MediaPlatform) where
  -- A peer that leaves takes with it the tracks of its own mids: after it, the entry of a key that begins with the
  -- peer's id and the separator is gone, and every other entry is as it was.
  pub remove_peer-get :
      (user_id k : String) (state : StreamsState)
      → get k (remove_peer platform state user_id).tracks_by_peer_id_mid
        ≡ (if is_of_peer user_id k then none else get k state.tracks_by_peer_id_mid)
  unfolding remove_peer
  remove_peer-get user_id k state =
      let all = keys state.tracks_by_peer_id_mid in
      omit-get (keys_of_peer user_id all) k state.tracks_by_peer_id_mid
      ∙ rw (has_key-keys_of_peer user_id k all) (elim (Bool-cases (is_of_peer user_id k)) [
        | inl h ↦ elim (get-keys k state.tracks_by_peer_id_mid) [
          | inl absent ↦ rw (h, absent) (ground arith)
          | inr present ↦ rw (h, present) refl
        ]
        | inr h ↦ rw h refl
      ])
