-- ===== src/Reducers/Peers/Sending.antt =====
-- What the peers send after a local stream has come.
use text.Mathlib.Text.{◌==◌}
use text.Mathlib.TextEquality.{eq_iff}
use meeting.Prelude.{
  ℕ, ◌≡◌, refl, sym, ap, ap₂, subst, ◌∙◌, String, List, [], ◌∷◌, ◌++◌, Option, none, some, Bool,
  true, false, not, ◌&&◌, ◌||◌, if◌then◌else◌, Bool-cases, inl, inr, arith, ◌>>=◌,
}
use meeting.Prelude.Dict.{get, find}
use meeting.Reducers.Streams.{Track}
use meeting.Reducers.Streams.Local.{StreamType, camera, desktop}
use meeting.Reducers.Peers.{
  PeerPlatform, PeersState, tracks_in, local_stream, set_local_stream, remove_tracks, add_tracks,
  remove_stream, each_peer, update_peer, handle_local_media_stream,
}

abbrev pub has_track : String → List Track → Bool
has_track id [] = false
has_track id (t ∷ ts) = (t.id == id) || has_track id ts

abbrev pub Distinct : List Track → Type 0
Distinct [] = Unit
Distinct (t ∷ ts) = (has_track t.id ts ≡ false) × Distinct ts

-- What the code relies on of a peer: whether it is open (not destroyed), which tracks it has had in any stream, and which
-- tracks it sends as part of which streams. An open peer takes a track that it never had. It raises an exception for one
-- that it has, has removed or has in another stream, of which nothing is said here.
pub record SendLaws {Peer Sender : Type 0} (p : PeerPlatform Peer Sender) : Type 0 where
  pub is_open : Peer → Bool
  pub has_had : Peer → String → Bool
  pub sends : Peer → String → ℕ → Bool
  pub added :
      (t : Track) (s : ℕ) (a : Peer)
      → is_open a ≡ true
      → has_had a t.id ≡ false
      → (x : Sender) × (b : Peer) × (p.add_track t s a ≡ some (x, b))
        × (is_open b ≡ true)
        × ((i : String) → has_had b i ≡ (has_had a i || (t.id == i)))
        × ((i : String) (r : ℕ)
            → sends b i r ≡ (sends a i r || ((t.id == i) && meeting.Prelude.◌==◌ s r)))
  pub removed :
      (t : Track) (s : ℕ) (a : Peer)
      → is_open a ≡ true
      → (is_open (p.remove_track t s a) ≡ true)
        × ((i : String) → has_had (p.remove_track t s a) i ≡ has_had a i)
        × ((i : String) (r : ℕ)
            → sends (p.remove_track t s a) i r
              ≡ (sends a i r && not ((t.id == i) && meeting.Prelude.◌==◌ s r)))

-- The tracks of a stream that is there.
abbrev pub of_stream : Option ℕ → List (List Track) → String → ℕ → Bool
of_stream none media i r = false
of_stream (some s) media i r = has_track i (tracks_in s media) && meeting.Prelude.◌==◌ s r

module _ {Peer Sender : Type 0} (platform : PeerPlatform Peer Sender)
    (laws : SendLaws platform) where
  -- An open peer after some calls of removeTrack.
  abbrev Removed : Peer → Peer → (String → ℕ → Bool) → Type 0
  Removed a b gone =
      (laws.is_open b ≡ true)
      × ((i : String) → laws.has_had b i ≡ laws.has_had a i)
      × ((i : String) (r : ℕ) → laws.sends b i r ≡ (laws.sends a i r && not (gone i r)))

  remove_tracks-Removed :
      (ts : List Track) (s : ℕ) (a : Peer)
      → laws.is_open a ≡ true
      → Removed a
          (remove_tracks platform ts s a)
          (λ i r. has_track i ts && meeting.Prelude.◌==◌ s r)
  unfolding remove_tracks
  remove_tracks-Removed [] s a o = (o, λ i. refl, λ i r. ground arith)
  remove_tracks-Removed (t ∷ ts) s a o =
      let (o1, k1, f1) = laws.removed t s a o in
      let (o2, k2, f2) = remove_tracks-Removed ts s (platform.remove_track t s a) o1 in
      (o2, λ i. k2 i ∙ k1 i, λ i r. f2 i r ∙ rw (f1 i r) (ground arith))

  remove_stream-Removed :
      (o : Option ℕ) (media : List (List Track)) (a : Peer)
      → laws.is_open a ≡ true
      → Removed a (remove_stream platform o media a) (of_stream o media)
  unfolding remove_stream
  remove_stream-Removed none media a o = (o, λ i. refl, λ i r. ground arith)
  remove_stream-Removed (some s) media a o = remove_tracks-Removed (tracks_in s media) s a o

  -- An open peer that has had none of the tracks.
  abbrev pub Ready : Peer → List Track → Type 0
  Ready a ts =
      (laws.is_open a ≡ true) × ((i : String) → has_track i ts ≡ true → laws.has_had a i ≡ false)

  add_tracks-sends :
      (ts : List Track) (s : ℕ) (a : Peer)
      → Distinct ts
      → Ready a ts
      → (senders : List Sender) × (b : Peer) × (add_tracks platform ts s a ≡ some (senders, b))
        × ((i : String) (r : ℕ)
            → laws.sends b i r ≡ (laws.sends a i r || (has_track i ts && meeting.Prelude.◌==◌ s r)))
  unfolding add_tracks
  add_tracks-sends [] s a d n = ([], a, refl, λ i r. ground arith)
  add_tracks-sends (t ∷ ts) s a d (o, n) =
      let (x, b, e, o1, k, f) = laws.added t s a o (n t.id (rw ((eq_iff t.id t.id).1 refl) refl)) in
      let fresh : (i : String) → has_track i ts ≡ true → laws.has_had b i ≡ false = λ i h.
        elim (Bool-cases (t.id == i)) [
          | inl same ↦ absurd (cc (d.0, ap (λ j. has_track j ts) ((eq_iff t.id i).0 same), h))
          | inr differ ↦ k i ∙ rw (differ, n i (rw h (ground arith))) refl
        ] in
      let (xs, c, g, h) = add_tracks-sends ts s b d.1 (o1, fresh) in
      (x ∷ xs, c, rw (e, g) refl, λ i r. h i r ∙ rw (f i r) (ground arith))

  -- The tracks of the old stream go, those of the new one come, and the rest stay.
  abbrev pub Updated : Option ℕ → ℕ → List (List Track) → Peer → Peer → Type 0
  Updated old stream media a b =
      (i : String) (r : ℕ)
      → laws.sends b i r
        ≡ ((laws.sends a i r && not (of_stream old media i r)) || of_stream (some stream) media i r)

  abbrev pub AllReady : List Track → List (String × Peer) → Type 0
  AllReady ts [] = Unit
  AllReady ts ((k, a) ∷ es) = Ready a ts × AllReady ts es

  update_peer-Updated :
      (old : Option ℕ) (stream : ℕ) (media : List (List Track)) (a : Peer)
      → Distinct (tracks_in stream media)
      → Ready a (tracks_in stream media)
      → (senders : List Sender) × (b : Peer) × (update_peer platform old stream media a
          ≡ some (senders, b))
        × Updated old stream media a b
  unfolding update_peer
  update_peer-Updated old stream media a d (open_now, n) =
      let (still, same, kept) = remove_stream-Removed old media a open_now in
      let (xs, b, e, f) =
        add_tracks-sends (tracks_in stream media) stream (remove_stream platform old media a) d
          (still, λ i h. same i ∙ n i h) in
      (xs, b, e, λ i r. f i r ∙ rw (kept i r) refl)

  each_peer-Updated :
      (old : Option ℕ) (stream : ℕ) (media : List (List Track)) (es : List (String × Peer))
      → Distinct (tracks_in stream media)
      → AllReady (tracks_in stream media) es
      → (senders : List Sender) × (fs : List (String × Peer)) × (each_peer platform
            (update_peer platform old stream media)
            es
          ≡ some (senders, fs))
        × ((k : String) (a : Peer)
            → find k es ≡ some a
            → (b : Peer) × (find k fs ≡ some b) × Updated old stream media a b)
        × ((k : String) → find k es ≡ none → find k fs ≡ none)
  unfolding each_peer find
  each_peer-Updated old stream media [] d n = ([], [], refl, λ k a e. absurd (cc e), λ k e. refl)
  each_peer-Updated old stream media ((j, a) ∷ es) d n =
      let (xs, b, e, u) = update_peer-Updated old stream media a d n.0 in
      let (ys, fs, f, us, ns) = each_peer-Updated old stream media es d n.1 in
      (
        xs ++ ys,
        (j, b) ∷ fs,
        rw (e, f) refl,
        λ k c g. elim (Bool-cases (j == k)) [
          | inl same ↦
              let a_is = mathlib.Core.Option.some-injective a c (rw same at g) in
              rw same (b, refl, subst (λ x. Updated old stream media x b) a_is u)
          | inr differ ↦ rw differ (us k c (rw differ at g))
        ],
        λ k g. elim (Bool-cases (j == k)) [
          | inl same ↦ absurd (cc (rw same at g))
          | inr differ ↦ rw differ (ns k (rw differ at g))
        ],
      )

  set_local_stream_lem :
      (kind : StreamType) (stream : ℕ) (s : PeersState Peer Sender)
      → ((set_local_stream kind stream s).peers ≡ s.peers)
        × (local_stream kind (set_local_stream kind stream s) ≡ some stream)
  unfolding set_local_stream local_stream
  set_local_stream_lem camera stream s = (refl, refl)
  set_local_stream_lem desktop stream s = (refl, refl)

  -- Let the tracks of a local stream be distinct, and every peer of the store open and without any of these tracks so
  -- far. Then the reducer returns when the stream has come: it is the local stream of its type, and each peer sends
  -- its tracks and no longer those of the stream that it replaces; whatever else a peer sends it still sends. No
  -- peer comes or goes.
  pub handle_local_media_stream_lem :
      (s : PeersState Peer Sender) (kind : StreamType) (stream : ℕ)
      → Distinct (tracks_in stream s.media)
      → AllReady (tracks_in stream s.media) s.peers.entries
      → (t : PeersState Peer Sender) × (handle_local_media_stream platform s kind stream ≡ some t)
        × (local_stream kind t ≡ some stream)
        × ((k : String) (a : Peer)
            → get k s.peers ≡ some a
            → (b : Peer) × (get k t.peers ≡ some b)
              × Updated (local_stream kind s) stream s.media a b)
        × ((k : String) → get k s.peers ≡ none → get k t.peers ≡ none)
  unfolding handle_local_media_stream get
  handle_local_media_stream_lem s kind stream d n =
      let (xs, es, e, us, ns) =
        each_peer-Updated (local_stream kind s) stream s.media s.peers.entries d n in
      let next = record s { peers = record { entries = es }; encrypted = s.encrypted ++ xs } in
      let (same, is_local) = set_local_stream_lem kind stream next in
      (
        set_local_stream kind stream next,
        rw e refl,
        is_local,
        λ k a f. let (b, g, u) = us k a f in (b, ap (λ p. find k p.entries) same ∙ g, u),
        λ k f. ap (λ p. find k p.entries) same ∙ ns k f,
      )
