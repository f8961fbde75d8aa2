-- ===== src/Reducers/Streams/Local/Run.antt =====
-- The states that the reducer reaches, and that the tracks in them are where their associations say.
use mathlib.Core.Option.{some-injective}
use meeting.Prelude.{
  ◌≡◌, refl, sym, ap, subst, ◌∙◌, String, List, [], Option, none, some, Bool, true, false,
  Option-cases, inl, inr, arith, bind_some,
}
use meeting.Prelude.Dict.{empty, get, get-empty}
use meeting.Reducers.Media.{pending, resolved, rejected}
use meeting.Reducers.Streams.{Track, MediaPlatform, StreamsState, get_peer_id_mid}
use meeting.Reducers.Streams.Invariant.{TrackLaws, Inv}
use meeting.Reducers.Streams.Removing.{remove_track-Inv}
use meeting.Reducers.Streams.Adding.{add_track-Inv}
use meeting.Reducers.Streams.Peers.Metadata.{set_metadata_lem}
use meeting.Reducers.Streams.Peers.Removal.{remove_peer-Inv}
use meeting.Reducers.Streams.Local.{
  RecorderPlatform, StreamType, State, Action, LocalStream, streams, stream_remove,
  stream_track_add, stream_track_remove, stream_local_record, stream_local_stop_record,
  nickname_remove, tracks_metadata, peer_remove, hang_up, media_stream, media_track, other,
  stop_existing, stop_record_additional, record_additional, remove_existing, remove_local_stream,
  add_local_stream, record_local_stream, stop_record_local_stream, set_local_stream_mirror,
  mirror_track, mirror_existing, hang_up_all, stop_stream, recorders_with, recorders_without,
  with_url, name_of, initialize_media_recorder, record_all, AddLocalStreamPayload,
  RecordLocalStreamPayload,
}

module _ {Peer : Type 0} (platform : MediaPlatform) (r : RecorderPlatform Peer) where
  -- The state of a page that starts, with the objects that are there.
  abbrev pub start : List (List Track) → State Peer
  start objects = record {
    remote = record {
      streams_by_user_id = empty;
      metadata_by_peer_id_mid = empty;
      track_id_to_peer_id_mid = empty;
      tracks_by_peer_id_mid = empty;
      media_streams = objects;
      revoked = [];
    };
    local_streams = empty;
    local_recorders = [];
    streams_record_url = "";
    is_recording = false;
    peer_instance = none;
    stopped = [];
  }

  -- What the reducer reaches by actions that are allowed where they come.
  pub data Reachable (allowed : State Peer → Action → Type 0) : State Peer → Type 0 where
    starts : (objects : List (List Track)) → Reachable allowed (start objects)
    steps :
        (s t : State Peer) (a : Action)
        → Reachable allowed s
        → allowed s a
        → streams r platform s a ≡ some t
        → Reachable allowed t

  -- What the operations on local streams do to the remote ones: addresses are revoked.
  abbrev Touched : State Peer → State Peer → Type 0
  Touched s t = (rs : List String) × (t.remote ≡ record s.remote { revoked = rs })

  same-Touched : (s t : State Peer) → t.remote ≡ s.remote → Touched s t
  same-Touched s t e = (s.remote.revoked, e)

  stop_existing-Touched : (o : Option LocalStream) (s : State Peer) → Touched s (stop_existing o s)
  unfolding stop_existing stop_stream
  stop_existing-Touched none s = (_, refl)
  stop_existing-Touched (some x) s = (_, refl)

  stop_record_additional-Touched :
      (s t : State Peer) (x : LocalStream)
      → stop_record_additional r s x ≡ some t
      → t.remote ≡ s.remote
  unfolding stop_record_additional
  stop_record_additional-Touched s t x e =
      let (peer, f, g) = bind_some s.peer_instance _ t e in
      let (left, h, i) = bind_some (r.remove_stream x.stream peer) _ t g in
      ap (λ u. u.remote) (sym (some-injective _ t i))

  recorders_without-Touched :
      (b : Bool) (s t : State Peer) (x : LocalStream)
      → recorders_without r b s x ≡ some t
      → t.remote ≡ s.remote
  unfolding recorders_without
  recorders_without-Touched true s t x e = stop_record_additional-Touched s t x e
  recorders_without-Touched false s t x e = ap (λ u. u.remote) (sym (some-injective _ t e))

  remove_existing-Touched :
      (o : Option LocalStream) (s t : State Peer) (kind : StreamType)
      → remove_existing r o s kind ≡ some t
      → t.remote ≡ s.remote
  unfolding remove_existing
  remove_existing-Touched none s t kind e = ap (λ u. u.remote) (sym (some-injective s t e))
  remove_existing-Touched (some x) s t kind e =
      let (next, f, g) = bind_some (recorders_without r s.is_recording s x) _ t e in
      ap (λ u. u.remote) (sym (some-injective _ t g))
      ∙ recorders_without-Touched s.is_recording s next x f

  record_additional-Touched :
      (s t : State Peer) (x : LocalStream) → record_additional r s x ≡ some t → t.remote ≡ s.remote
  unfolding record_additional
  record_additional-Touched s t x e =
      elim (Option-cases (initialize_media_recorder r "" "" x s.peer_instance)) [
        | inl n ↦ absurd (cc (rw n at e))
        | inr (peer, f) ↦ ap (λ u. u.remote) (sym (some-injective _ t (rw f at e)))
      ]

  recorders_with-Touched :
      (b : Bool) (s t : State Peer) (x : LocalStream)
      → recorders_with r b s x ≡ some t
      → t.remote ≡ s.remote
  unfolding recorders_with
  recorders_with-Touched true s t x e = record_additional-Touched s t x e
  recorders_with-Touched false s t x e = ap (λ u. u.remote) (sym (some-injective s t e))

  add_local_stream-Touched :
      (s t : State Peer) (p : AddLocalStreamPayload)
      → add_local_stream r platform s p ≡ some t
      → Touched s t
  unfolding add_local_stream
  add_local_stream-Touched s t p e =
      let x = with_url r platform s.remote p in
      let old = get (name_of p.stream_type) s.local_streams in
      let (rs, same) = stop_existing-Touched old s in
      let (next, f, g) =
        bind_some (recorders_with r s.is_recording (stop_existing old s) x) _ t e in
      (
        rs,
        ap (λ u. u.remote) (sym (some-injective _ t g))
            ∙ recorders_with-Touched s.is_recording (stop_existing old s) next x f
            ∙ same,
      )

  record_local_stream-Touched :
      (s t : State Peer) (p : RecordLocalStreamPayload)
      → record_local_stream r s p ≡ some t
      → t.remote ≡ s.remote
  unfolding record_local_stream
  record_local_stream-Touched s t p e =
      elim (Option-cases (record_all r p s.local_streams.entries s.peer_instance)) [
        | inl n ↦ absurd (cc (rw n at e))
        | inr (x, f) ↦ ap (λ u. u.remote) (sym (some-injective _ t (rw f at e)))
      ]

  mirror-Touched :
      (o : Option Track) (s : State Peer) (kind : StreamType)
      → (mirror_track r platform o s kind).remote ≡ s.remote
  unfolding mirror_track mirror_existing
  mirror-Touched none s kind = refl
  mirror-Touched (some track) s kind = elim (Option-cases (get (name_of kind) s.local_streams)) [
    | inl n ↦ rw n refl
    | inr (x, f) ↦ ground arith
  ]

  Touched-Inv :
      (key_of : String → String) (s t : State Peer)
      → Touched s t
      → Inv key_of s.remote
      → Inv key_of t.remote
  Touched-Inv key_of s t (rs, e) inv = subst (Inv key_of) (sym e) (record {
    keyed = inv.keyed;
    ids = inv.ids;
    shape = inv.shape;
    linked = λ k u a h f.
        let l = inv.linked k u a h f in
        record {
          stream = l.stream;
          tracks = l.tracks;
          filed = l.filed;
          located = l.located;
          object = l.object;
          has = l.has;
        };
  })

  -- Without users and tracks nothing is said.
  empty-Inv :
      (key_of : String → String) (s : StreamsState)
      → s.streams_by_user_id ≡ empty
      → s.track_id_to_peer_id_mid ≡ empty
      → s.tracks_by_peer_id_mid ≡ empty
      → Inv key_of s
  empty-Inv key_of s users ids tracks =
      let no_track : (k : String) → get k s.tracks_by_peer_id_mid ≡ none =
        λ k. ap (get k) tracks ∙ get-empty k in
      let no_user : (u : String) → get u s.streams_by_user_id ≡ none =
        λ u. ap (get u) users ∙ get-empty u in
      record {
        keyed = λ k t e. absurd (cc (no_track k, e));
        ids = λ i k e. absurd (cc (ap (get i) ids ∙ get-empty i, e));
        shape = record {
          bounded = λ u x (us, e, _). absurd (cc (no_user u, e));
          own = λ u v x y (us, e, _) h p. absurd (cc (no_user u, e));
        };
        linked = λ k t a e f. absurd (cc (no_track k, e));
      }

  module _ (key_of : String → String) (laws : TrackLaws platform) where
    -- A track is added with the mid of its transceiver, and no user hangs up alone.
    unfoldable pub Keyed : State Peer → Action → Type 0
    Keyed s (stream_track_add p) = key_of p.track.id ≡ get_peer_id_mid p.user_id p.mid
    Keyed s (nickname_remove user_id) = ⊥
    Keyed s _ = Unit

    streams-Inv :
        (s t : State Peer) (a : Action)
        → Keyed s a
        → streams r platform s a ≡ some t
        → Inv key_of s.remote
        → Inv key_of t.remote
    unfolding streams remove_local_stream stop_record_local_stream set_local_stream_mirror
        hang_up_all Keyed
    streams-Inv s t (stream_remove kind) h e inv =
        Touched-Inv key_of s t
          (same-Touched s t
            (remove_existing-Touched (get (name_of kind) s.local_streams) s t kind e))
          inv
    streams-Inv s t (stream_track_add p) h e inv =
        subst (λ u. Inv key_of u.remote) (some-injective _ t e)
          (add_track-Inv platform s.remote p key_of laws inv h)
    streams-Inv s t (stream_track_remove track) h e inv =
        subst (λ u. Inv key_of u.remote) (some-injective _ t e)
          (remove_track-Inv platform key_of laws s.remote track inv)
    streams-Inv s t (stream_local_record p) h e inv =
        Touched-Inv key_of s t (same-Touched s t (record_local_stream-Touched s t p e)) inv
    streams-Inv s t stream_local_stop_record h e inv =
        subst (λ u. Inv key_of u.remote) (some-injective _ t e) inv
    streams-Inv s t (nickname_remove user_id) h e inv = absurd h
    streams-Inv s t (tracks_metadata p) h e inv =
        subst (λ u. Inv key_of u.remote) (some-injective _ t e)
          (set_metadata_lem platform key_of laws s.remote p inv).0
    streams-Inv s t (peer_remove user_id) h e inv =
        subst (λ u. Inv key_of u.remote) (some-injective _ t e)
          (remove_peer-Inv platform key_of laws s.remote user_id inv)
    streams-Inv s t hang_up h e inv =
        subst (λ u. Inv key_of u.remote) (some-injective _ t e) (empty-Inv key_of _ refl refl refl)
    streams-Inv s t (media_stream pending) h e inv =
        subst (λ u. Inv key_of u.remote) (some-injective s t e) inv
    streams-Inv s t (media_stream (resolved p)) h e inv =
        Touched-Inv key_of s t (add_local_stream-Touched s t p e) inv
    streams-Inv s t (media_stream (rejected name message)) h e inv =
        subst (λ u. Inv key_of u.remote) (some-injective s t e) inv
    streams-Inv s t (media_track pending) h e inv =
        subst (λ u. Inv key_of u.remote) (some-injective s t e) inv
    streams-Inv s t (media_track (resolved p)) h e inv =
        Touched-Inv key_of s t
          (same-Touched s t (
            ap (λ u. u.remote) (sym (some-injective _ t e))
            ∙ mirror-Touched p.track s p.stream_type))
          inv
    streams-Inv s t (media_track (rejected name message)) h e inv =
        subst (λ u. Inv key_of u.remote) (some-injective s t e) inv
    streams-Inv s t other h e inv = subst (λ u. Inv key_of u.remote) (some-injective s t e) inv

    -- In every state that the reducer reaches, when tracks are added under the mid of their transceiver and no
    -- nickname is removed, the associations, the map from track ids and the streams agree: a track with
    -- an association is filed under its key, the user of the association has the stream, and the track is in it.
    pub Reachable-Inv : (s : State Peer) → Reachable Keyed s → Inv key_of s.remote
    Reachable-Inv s (starts objects) = empty-Inv key_of _ refl refl refl
    Reachable-Inv s (steps before t a h ok e) = streams-Inv before s a ok e (Reachable-Inv before h)
