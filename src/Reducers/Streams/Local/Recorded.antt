-- ===== src/Reducers/Streams/Local/Recorded.antt =====
-- Every local stream has a recorder while the page records, in each state that the reducer reaches.
use text.Mathlib.Text.{◌==◌}
use mathlib.Core.Option.{some-injective}
use meeting.Prelude.{
  ◌≡◌, refl, sym, ap, subst, ◌∙◌, String, Option, none, some, true, not, ◌&&◌, Bool-cases, inl, inr,
  bind_some,
}
use meeting.Prelude.Dict.{empty, get, get-empty}
use meeting.Reducers.Media.{pending, resolved, rejected}
use meeting.Reducers.Streams.{Track, MediaPlatform}
use meeting.Reducers.Streams.Peers.{unassociate_user_tracks}
use meeting.Reducers.Streams.Local.Run.{Reachable, starts, steps}
use meeting.Reducers.Streams.Local.Recording.{
  Recorded, record_all-has_id, Recorded-same, Recorded-put, add-Recorded, remove-Recorded,
}
use meeting.Reducers.Streams.Local.{
  RecorderPlatform, StreamType, State, Action, LocalStream, RecordLocalStreamPayload, streams,
  stream_remove, stream_track_add, stream_track_remove, stream_local_record,
  stream_local_stop_record, nickname_remove, tracks_metadata, peer_remove, hang_up, media_stream,
  media_track, other, has_id, name_of, is_camera, is_not_mirrored, record_all, record_local_stream,
  stop_record_local_stream, remove_local_stream, mirror_existing, mirror_track,
  set_local_stream_mirror, hang_up_all,
}

module _ {Peer : Type 0} (platform : MediaPlatform) (r : RecorderPlatform Peer)
    (type_of : String → String) where
  -- A stream comes with the type of its id, and recording is stopped while the page records.
  unfoldable pub Typed : State Peer → Action → Type 0
  Typed s (media_stream (resolved p)) = type_of p.stream_id ≡ name_of p.stream_type
  Typed s stream_local_stop_record = s.is_recording ≡ true
  Typed s _ = Unit

  record-Recorded :
      (s t : State Peer) (p : RecordLocalStreamPayload)
      → record_local_stream r s p ≡ some t
      → Recorded platform r type_of s
      → Recorded platform r type_of t
  unfolding record_local_stream get
  record-Recorded s t p e h =
      let ((ids, peer), f, g) =
        bind_some (record_all r p s.local_streams.entries s.peer_instance) _ t e in
      let t_is = some-injective _ t g in
      let locals = ap (λ u. u.local_streams) t_is in
      record {
        typed = λ k x i. h.typed k x (ap (get k) locals ∙ i);
        recorded = λ k x i on.
            ap (λ u. has_id x.stream_id u.local_recorders) (sym t_is)
            ∙ record_all-has_id platform r p s.local_streams.entries s.peer_instance ids peer f k x
                (ap (get k) locals ∙ i);
      }

  mirror_existing-Recorded :
      (o : Option LocalStream) (s : State Peer) (track : Track) (kind : StreamType)
      → get (name_of kind) s.local_streams ≡ o
      → Recorded platform r type_of s
      → Recorded platform r type_of (mirror_existing r platform o s track kind)
  unfolding mirror_existing
  mirror_existing-Recorded none s track kind e h = h
  mirror_existing-Recorded (some x) s track kind e h =
      elim (Bool-cases ((track.kind == "video") && is_camera kind)) [
        | inl mirrored ↦ rw mirrored (
            Recorded-put platform r type_of s _ kind
              (record x { mirror = not (is_not_mirrored track.label) }) refl refl
              (h.typed (name_of kind) x e) (h.recorded (name_of kind) x e) (λ i _ k. k) h)
        | inr not_mirrored ↦ rw not_mirrored h
      ]

  mirror_track-Recorded :
      (o : Option Track) (s : State Peer) (kind : StreamType)
      → Recorded platform r type_of s
      → Recorded platform r type_of (mirror_track r platform o s kind)
  unfolding mirror_track
  mirror_track-Recorded none s kind h = h
  mirror_track-Recorded (some track) s kind h =
      mirror_existing-Recorded (get (name_of kind) s.local_streams) s track kind refl h

  no_streams-Recorded : (s : State Peer) → s.local_streams ≡ empty → Recorded platform r type_of s
  no_streams-Recorded s e =
      let none_there = λ (k : String). ap (get k) e ∙ get-empty k in
      record {
        typed = λ k x i. absurd (cc (none_there k, i));
        recorded = λ k x i on. absurd (cc (none_there k, i));
      }

  streams-Recorded :
      (s t : State Peer) (a : Action)
      → Typed s a
      → streams r platform s a ≡ some t
      → Recorded platform r type_of s
      → Recorded platform r type_of t
  unfolding streams remove_local_stream stop_record_local_stream set_local_stream_mirror hang_up_all
      Typed
  streams-Recorded s t (stream_remove kind) ok e h =
      remove-Recorded platform r type_of (get (name_of kind) s.local_streams) s t kind refl e h
  streams-Recorded s t (stream_track_add p) ok e h =
      subst (Recorded platform r type_of) (some-injective _ t e)
        (Recorded-same platform r type_of s _ refl refl refl h)
  streams-Recorded s t (stream_track_remove track) ok e h =
      subst (Recorded platform r type_of) (some-injective _ t e)
        (Recorded-same platform r type_of s _ refl refl refl h)
  streams-Recorded s t (stream_local_record p) ok e h = record-Recorded s t p e h
  streams-Recorded s t stream_local_stop_record ok e h =
      subst (Recorded platform r type_of) (some-injective _ t e)
        (record { typed = h.typed; recorded = λ k x i on. absurd (cc (ap not ok, on)) })
  streams-Recorded s t (nickname_remove user_id) ok e h =
      let (remote, f, g) = bind_some (unassociate_user_tracks platform s.remote user_id) _ t e in
      subst (Recorded platform r type_of) (some-injective _ t g)
        (Recorded-same platform r type_of s _ refl refl refl h)
  streams-Recorded s t (tracks_metadata p) ok e h =
      subst (Recorded platform r type_of) (some-injective _ t e)
        (Recorded-same platform r type_of s _ refl refl refl h)
  streams-Recorded s t (peer_remove user_id) ok e h =
      subst (Recorded platform r type_of) (some-injective _ t e)
        (Recorded-same platform r type_of s _ refl refl refl h)
  streams-Recorded s t hang_up ok e h =
      subst (Recorded platform r type_of) (some-injective _ t e) (no_streams-Recorded _ refl)
  streams-Recorded s t (media_stream pending) ok e h =
      subst (Recorded platform r type_of) (some-injective s t e) h
  streams-Recorded s t (media_stream (resolved p)) ok e h =
      add-Recorded platform r type_of s t p ok e h
  streams-Recorded s t (media_stream (rejected name message)) ok e h =
      subst (Recorded platform r type_of) (some-injective s t e) h
  streams-Recorded s t (media_track pending) ok e h =
      subst (Recorded platform r type_of) (some-injective s t e) h
  streams-Recorded s t (media_track (resolved p)) ok e h =
      subst (Recorded platform r type_of) (some-injective _ t e)
        (mirror_track-Recorded p.track s p.stream_type h)
  streams-Recorded s t (media_track (rejected name message)) ok e h =
      subst (Recorded platform r type_of) (some-injective s t e) h
  streams-Recorded s t other ok e h = subst (Recorded platform r type_of) (some-injective s t e) h

  -- In every state that the reducer reaches, when the ids of the streams tell their types and recording is stopped
  -- only while the page records, each local stream has a recorder if the page records.
  pub Reachable-Recorded :
      (s : State Peer) → Reachable platform r Typed s → Recorded platform r type_of s
  Reachable-Recorded s (starts objects) = no_streams-Recorded _ refl
  Reachable-Recorded s (steps before t a h ok e) =
      streams-Recorded before s a ok e (Reachable-Recorded before h)
