-- ===== src/Peers/Socket.antt =====
-- What the messages of the server do (src/client/actions/SocketActions.ts, `SocketHandler`).
use Prim.Native.String
use text.Mathlib.Text.{◌==◌}
use meeting.Prelude.{
  ℕ, String, List, [], ◌∷◌, Option, none, some, Bool, true, false, not, ◌&&◌, if◌then◌else◌, length,
}
use meeting.Prelude.Dict.{Dict, get, keys}
use meeting.Prelude.Decimal.{decimal}
use meeting.SocketEvent.{MetadataPayload}
use meeting.Peers.{
  Call, info, notify, nickname_remove, nicknames_set, call_record, stream_local_record,
  stream_local_stop_record, tracks_metadata, signalled, track_metadata_set, act, dispatch,
  create_peer,
}

pub record SocketHandler : Type 0 where
  pub room_name : String
  pub user_id : String

pub record RecordCallback : Type 0 where
  pub successful : Bool
  pub record_status : Bool
  pub url : String

pub record Users : Type 0 where
  pub initiator : String
  pub peer_ids : List String
  pub nicknames : Dict String
  pub record_status : Bool
  pub record_url : String

-- filter(peerId => !peers[peerId] && peerId !== this.userId)
unfoldable pub is_missing : Option ℕ → Bool
is_missing none = true
is_missing (some peer) = false

unfoldable pub is_new : SocketHandler → Dict ℕ → String → Bool
is_new h peers peer_id = is_missing (get peer_id peers) && not (peer_id == h.user_id)

unfoldable pub new_ids : SocketHandler → Dict ℕ → List String → List String
new_ids h peers [] = []
new_ids h peers (id ∷ ids) =
    let rest = new_ids h peers ids in if is_new h peers id then id ∷ rest else rest

module _ {Message : Type 0} where
  unfoldable pub signal_found : Option ℕ → String → Call Message → Call Message
  signal_found none signal c = c
  signal_found (some peer) signal c = act (signalled peer signal) c

  unfoldable pub handle_signal : String → String → Call Message → Call Message
  handle_signal user_id signal c = signal_found (get user_id c.peers) signal c

  unfoldable pub handle_hang_up : String → Call Message → Call Message
  handle_hang_up user_id c = dispatch (nickname_remove user_id) c

  unfoldable pub handle_record_callback :
      SocketHandler → RecordCallback → Call Message → Call Message
  handle_record_callback h p c =
      let told = dispatch (call_record p.record_status) c in
      if p.successful
      then if p.record_status
        then dispatch
            (stream_local_record
              (String.◌++◌ p.url
                (String.◌++◌ "/" (String.◌++◌ h.room_name (String.◌++◌ "/" h.user_id))))
              h.room_name h.user_id)
            told
        else dispatch stream_local_stop_record told
      else c

  unfoldable pub handle_metadata : MetadataPayload → Call Message → Call Message
  handle_metadata p c = act (track_metadata_set p.metadata) (dispatch (tracks_metadata p) c)

  unfoldable pub create_peers : Bool → List String → Call Message → Call Message
  create_peers initiator [] c = c
  create_peers initiator (id ∷ ids) c = create_peers initiator ids (create_peer id initiator c)

  unfoldable pub handle_users : SocketHandler → Users → Call Message → Call Message
  handle_users h u c =
      let told =
        dispatch (notify info "Connected users: {0}" (some (decimal (length (keys u.nicknames)))))
          c in
      let recorded =
        handle_record_callback h
          (record {
            successful = u.record_status;
            record_status = u.record_status;
            url = u.record_url;
          })
          told in
      create_peers (u.initiator == h.user_id) (new_ids h told.peers u.peer_ids)
        (dispatch (nicknames_set u.nicknames) recorded)
