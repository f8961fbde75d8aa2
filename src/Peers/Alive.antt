-- ===== src/Peers/Alive.antt =====
-- The peers of the store are alive or about to leave it, whatever events come (src/client/actions/PeerActions.ts, the
-- handlers, with the events of a simple-peer that calls them).
use text.Mathlib.Text.{◌==◌}
use mathlib.Core.Option.{some-injective}
use meeting.Prelude.{
  ℕ, ◌≡◌, ◌⊎◌, refl, sym, ap, ◌∙◌, String, List, [], ◌∷◌, Option, none, some, Bool, length,
  get_elem?, set, ◌++◌, Bool-cases, inl, inr,
}
use meeting.Prelude.Dict.{empty, get, keys, get-empty}
use meeting.SocketEvent.{MetadataPayload}
use meeting.Reducers.Streams.{Track}
use meeting.Prelude.Decimal.{decimal}
use meeting.Codec.Decoder.{Decoder, Outcome, waiting, complete, range_error, decode}
use meeting.Peers.{
  info, warning, error, notify, nicknames_set, decrypted, encrypted, added_track, LocalMedia,
  send_tracks, send_streams, handle_connect, add_message, handle_decoded, handle_with, handle_data,
  PeerObject, Call, act, peers_after, dispatch, destroy, destroy_found, create_peer, handle_error,
  handle_signal, handle_track, handle_close, on_mute, on_unmute,
}
use meeting.Peers.Socket.{
  SocketHandler, Users, RecordCallback, handle_hang_up, handle_record_callback, handle_metadata,
  new_ids, handle_users,
}
use meeting.Peers.Users.{record_callback-same}
use meeting.Peers.Holding.{
  Alive, told_lem, same-Alive, destroy-Alive, destroy_found-Alive, removed-Alive, create_peer-Alive,
  create_peers-Alive, closes-Alive,
}

no_tracks : (ts : List Track) → (ts ≡ []) ⊎ ((u : Track) × (us : List Track) × (ts ≡ u ∷ us))
no_tracks [] = inl refl
no_tracks (t ∷ ts) = inr (t, ts, refl)

module _ {Message : Type 0} where
  -- What may happen in a call: a peer is made, destroys itself, connects, has an error, tells that it is closed or
  -- brings a track or data; the server sends a list of users, hangs up, answers a recording or gives metadata.
  pub data Event : Call Message → Call Message → Type 0 where
    creates :
        (c : Call Message) (user_id : String) (initiator : Bool)
        → Event c (create_peer user_id initiator c)
    errors : (c : Call Message) (user_id : String) → Event c (handle_error user_id c)
    destroys : (c : Call Message) (peer : ℕ) → Event c (destroy peer c)
    closes :
        (c : Call Message) (peer : ℕ) (o : PeerObject) (before after : List ℕ)
        → c.closing ≡ before ++ (peer ∷ after)
        → get_elem? c.objects peer ≡ some o
        → Event c (handle_close o.user_id (record c { closing = before ++ after }))
    signals :
        (c : Call Message) (user_id signal : String) → Event c (handle_signal user_id signal c)
    tracks :
        (c : Call Message) (user_id : String) (track : Track) (muted : Bool)
        (stream_id mid : String)
        → Event c (handle_track user_id track muted stream_id mid c)
    mutes : (c : Call Message) (track : Track) → Event c (on_mute track c)
    unmutes :
        (c : Call Message) (user_id : String) (track : Track) (stream_id mid : String)
        → Event c (on_unmute user_id track stream_id mid c)
    connects :
        (c d : Call Message) (user_id : String) → handle_connect user_id c ≡ some d → Event c d
    receives :
        (c : Call Message) (decode_text : List ℕ → String) (parse : String → Option Message)
        (peer : ℕ) (buffer : List ℕ)
        → Event c (handle_data decode_text parse peer buffer c).1
    users : (c : Call Message) (h : SocketHandler) (u : Users) → Event c (handle_users h u c)
    hangs_up : (c : Call Message) (user_id : String) → Event c (handle_hang_up user_id c)
    records :
        (c : Call Message) (h : SocketHandler) (p : RecordCallback)
        → Event c (handle_record_callback h p c)
    metadata : (c : Call Message) (p : MetadataPayload) → Event c (handle_metadata p c)

  -- A call that begins without peers, after any row of events.
  pub data Reachable : Call Message → Type 0 where
    starts : (c : Call Message) → c.peers ≡ empty → Reachable c
    steps : (c d : Call Message) → Reachable c → Event c d → Reachable d

  SameStore : Call Message → Call Message → Type 0
  SameStore c d = (d.peers ≡ c.peers) × (d.objects ≡ c.objects) × (d.closing ≡ c.closing)

  send_tracks-same :
      (peer : ℕ) (id : String) (ts : List Track) (c : Call Message)
      → SameStore c (send_tracks peer id ts c)
  unfolding send_tracks act SameStore
  send_tracks-same peer id [] c = (refl, refl, refl)
  send_tracks-same peer id (t ∷ ts) c =
      send_tracks-same peer id ts (act (encrypted peer t id) (act (added_track peer t id) c))

  send_streams-same :
      (o : Option ℕ) (ss : List LocalMedia) (c d : Call Message)
      → send_streams o ss c ≡ some d
      → SameStore c d
  unfolding send_streams SameStore
  send_streams-same none [] c d e =
      let p = some-injective c d e in
      (ap (λ x. x.peers) (sym p), ap (λ x. x.objects) (sym p), ap (λ x. x.closing) (sym p))
  send_streams-same (some peer) [] c d e =
      let p = some-injective c d e in
      (ap (λ x. x.peers) (sym p), ap (λ x. x.objects) (sym p), ap (λ x. x.closing) (sym p))
  send_streams-same none (s ∷ ss) c d e = elim (no_tracks s.tracks) [
    | inl n ↦ send_streams-same none ss c d (rw n at e)
    | inr (t, ts, n) ↦ absurd (cc (rw n at e))
  ]
  send_streams-same (some peer) (s ∷ ss) c d e =
      let (p, q, r) = send_tracks-same peer s.stream_id s.tracks c in
      let (x, y, z) =
        send_streams-same (some peer) ss (send_tracks peer s.stream_id s.tracks c) d e in
      (x ∙ p, y ∙ q, z ∙ r)

  module _ (decode_text : List ℕ → String) (parse : String → Option Message) where
    add_message-same :
        (o : Option Message) (c : Call Message) → SameStore c (add_message decode_text parse o c).1
    unfolding add_message dispatch act peers_after SameStore
    add_message-same none c = (refl, refl, refl)
    add_message-same (some m) c = (refl, refl, refl)

    handle_decoded-same :
        (o : Outcome) (c : Call Message) → SameStore c (handle_decoded decode_text parse o c).1
    unfolding handle_decoded SameStore
    handle_decoded-same waiting c = (refl, refl, refl)
    handle_decoded-same (complete m) c = add_message-same (parse (decode_text m.bytes)) c
    handle_decoded-same range_error c = (refl, refl, refl)

    handle_with-same :
        (o : Option Decoder) (peer : ℕ) (buffer : List ℕ) (c : Call Message)
        → SameStore c (handle_with decode_text parse o peer buffer c).1
    unfolding handle_with SameStore
    handle_with-same none peer buffer c = (refl, refl, refl)
    handle_with-same (some d) peer buffer c =
        let got = decode decode_text buffer d in
        handle_decoded-same got.0 (record c { decoders = set c.decoders peer got.1 })

  step-Alive : (c d : Call Message) → Event c d → Alive c → Alive d
  unfolding handle_connect handle_data SameStore handle_error handle_signal handle_track on_mute
      on_unmute handle_users handle_hang_up handle_metadata dispatch act peers_after
  step-Alive c _ (creates _ id b) h = create_peer-Alive id b c h
  step-Alive c _ (errors _ id) h =
      let told = dispatch (notify error "A peer connection error occurred" none) c in
      removed-Alive id (destroy_found (get id told.peers) told) (
        destroy_found-Alive (get id told.peers) told
          (told_lem (notify error "A peer connection error occurred" none) c (λ p. refl) h))
  step-Alive c _ (destroys _ peer) h = destroy-Alive peer c h
  step-Alive c _ (closes _ peer o before after e at) h = closes-Alive c peer o before after e at h
  step-Alive c _ (signals _ id signal) h = same-Alive c (handle_signal id signal c) refl refl refl h
  step-Alive c _ (tracks _ id track muted stream_id mid) h = elim (Bool-cases muted) [
    | inl e ↦ rw e (same-Alive c (act (decrypted id mid) c) refl refl refl h)
    | inr e ↦ rw e (
        same-Alive c (on_unmute id track stream_id mid (act (decrypted id mid) c)) refl refl refl h)
  ]
  step-Alive c _ (mutes _ track) h = same-Alive c (on_mute track c) refl refl refl h
  step-Alive c _ (unmutes _ id track stream_id mid) h =
      same-Alive c (on_unmute id track stream_id mid c) refl refl refl h
  step-Alive c d (connects _ _ id e) h =
      let told = dispatch (notify warning "Peer connection established" none) c in
      let (p, q, r) = send_streams-same (get id c.peers) c.local_streams told d e in
      same-Alive c d p q r h
  step-Alive c _ (receives _ decode_text parse peer buffer) h =
      let (p, q, r) =
        handle_with-same decode_text parse (get_elem? c.decoders peer) peer buffer c in
      same-Alive c (handle_data decode_text parse peer buffer c).1 p q r h
  step-Alive c _ (users _ handler u) h =
      let told =
        dispatch (notify info "Connected users: {0}" (some (decimal (length (keys u.nicknames)))))
          c in
      let answer : RecordCallback = record {
        successful = u.record_status;
        record_status = u.record_status;
        url = u.record_url;
      } in
      let (peers, objects, closing) = record_callback-same handler answer told in
      let begun =
        dispatch (nicknames_set u.nicknames) (handle_record_callback handler answer told) in
      create_peers-Alive (new_ids handler c.peers u.peer_ids) (u.initiator == handler.user_id) begun
        (same-Alive c begun peers objects closing h)
  step-Alive c _ (hangs_up _ id) h = same-Alive c (handle_hang_up id c) refl refl refl h
  step-Alive c _ (records _ handler p) h =
      let (peers, objects, closing) = record_callback-same handler p c in
      same-Alive c (handle_record_callback handler p c) peers objects closing h
  step-Alive c _ (metadata _ p) h = same-Alive c (handle_metadata p c) refl refl refl h

  -- In a call that begins without peers, after any row of such events, each entry of the store is a peer that was
  -- made for that user, and it is not destroyed, or its `close` event is still to come.
  pub Reachable-Alive : (c : Call Message) → Reachable c → Alive c
  Reachable-Alive c (starts _ e) id n g = absurd (cc (ap (get id) e ∙ get-empty id, g))
  Reachable-Alive c (steps b _ r e) id n g = step-Alive b c e (Reachable-Alive b r) id n g
