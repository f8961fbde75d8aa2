-- ===== src/Reducers/Peers/Tests.antt =====
-- A peer as the list of what it sends, and a camera that replaces another.
use text.Mathlib.Text.{◌==◌}
use meeting.Prelude.{
  ℕ, ◌≡◌, refl, subst, sym, ap, ◌∙◌, String, List, [], ◌∷◌, Option, none, some, Bool, true, false,
  not, ◌&&◌, ◌||◌, if◌then◌else◌, Bool-cases, inl, inr, arith,
}
use meeting.Prelude.Dict.{empty, get}
use meeting.Reducers.Streams.{Track}
use meeting.Reducers.Streams.Local.{camera}
use meeting.Reducers.Peers.{
  PeerPlatform, PeersState, tracks_in, local_stream, handle_local_media_stream,
}
use meeting.Reducers.Peers.Sending.{
  Distinct, AllReady, SendLaws, Updated, handle_local_media_stream_lem,
}

-- The pairs of a track and a stream that are sent, and the tracks that the peer has had.
abbrev Sends : Type 0
Sends = List (String × ℕ) × List String

abbrev is_pair : String → ℕ → String × ℕ → Bool
is_pair i r (j, s) = (j == i) && meeting.Prelude.◌==◌ s r

abbrev in_sends : List (String × ℕ) → String → ℕ → Bool
in_sends [] i r = false
in_sends (x ∷ xs) i r = in_sends xs i r || is_pair i r x

abbrev without_pair : String → ℕ → List (String × ℕ) → List (String × ℕ)
without_pair i r [] = []
without_pair i r ((j, s) ∷ xs) =
    let rest = without_pair i r xs in
    if (i == j) && meeting.Prelude.◌==◌ r s then rest else (j, s) ∷ rest

abbrev in_had : List String → String → Bool
in_had [] i = false
in_had (x ∷ xs) i = in_had xs i || (x == i)

-- A track that the peer has had is refused.
abbrev lists : PeerPlatform Sends String
lists = record {
  add_track = λ t s a. if in_had a.1 t.id then none else some (t.id, ((t.id, s) ∷ a.0, t.id ∷ a.1));
  remove_track = λ t s a. (without_pair t.id s a.0, a.1);
  replace_track = λ old new s a. some ((new.id, s) ∷ without_pair old.id s a.0, new.id ∷ a.1);
  destroy = λ a. ([], a.1);
  add_to_stream = λ t ts. t ∷ ts;
  drop_from_stream = λ t ts. ts;
}

in_sends-without_pair :
    (i : String) (r : ℕ) (xs : List (String × ℕ)) (j : String) (s : ℕ)
    → in_sends (without_pair i r xs) j s
      ≡ (in_sends xs j s && not ((i == j) && meeting.Prelude.◌==◌ r s))
in_sends-without_pair i r [] j s = refl
in_sends-without_pair i r ((k, q) ∷ xs) j s = ground (
  arith,
  text.Mathlib.TextEquality.eq_iff i k,
  text.Mathlib.TextEquality.eq_iff i j,
  text.Mathlib.TextEquality.eq_iff k j,
  meeting.Prelude.==_iff r q,
  meeting.Prelude.==_iff r s,
  meeting.Prelude.==_iff q s,
  in_sends-without_pair i r xs j s,
)

lists_laws : SendLaws lists
lists_laws = record {
  is_open = λ a. true;
  has_had = λ a. in_had a.1;
  sends = λ a. in_sends a.0;
  added =
      λ t s a o n. (t.id, ((t.id, s) ∷ a.0, t.id ∷ a.1), rw n refl, refl, λ i. refl, λ i r. refl);
  removed = λ t s a o. (refl, λ i. refl, λ i r. in_sends-without_pair t.id s a.0 i r);
}

abbrev one_track : Track
one_track = record { id = "new"; kind = "video"; label = "" }

abbrev with_peer : PeersState Sends String
with_peer = record {
  peers = record { entries = ("bob", (("old", 0) ∷ [], "old" ∷ [])) ∷ [] };
  camera_stream = some 0;
  desktop_stream = none;
  media = (record { id = "old"; kind = "video"; label = "" } ∷ []) ∷ (one_track ∷ []) ∷ [];
  encrypted = [];
  stopped = [];
  enabled = empty;
  dismissed = [];
}

new-Distinct : Distinct (tracks_in 1 with_peer.media)
unfolding tracks_in
new-Distinct = (refl, tt)

all_ready : AllReady lists lists_laws (tracks_in 1 with_peer.media) with_peer.peers.entries
unfolding tracks_in lists_laws
all_ready = (
  (
    refl,
    λ i h. elim (Bool-cases ("new" == i)) [
      | inl e ↦
          subst (λ j. in_had ("old" ∷ []) j ≡ false)
            ((text.Mathlib.TextEquality.eq_iff "new" i).0 e) refl
      | inr e ↦ absurd (cc (rw e at h))
    ],
  ),
  tt,
)

handle_local_media_stream_lem_example :
    (t : PeersState Sends String) × (handle_local_media_stream lists with_peer camera 1 ≡ some t)
    × (local_stream camera t ≡ some 1)
    × ((k : String) (a : Sends)
        → get k with_peer.peers ≡ some a
        → (b : Sends) × (get k t.peers ≡ some b)
          × Updated lists lists_laws (local_stream camera with_peer) 1 with_peer.media a b)
    × ((k : String) → get k with_peer.peers ≡ none → get k t.peers ≡ none)
handle_local_media_stream_lem_example =
    handle_local_media_stream_lem lists lists_laws with_peer camera 1 new-Distinct all_ready
