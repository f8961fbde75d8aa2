-- ===== src/Reducers/Peers.antt =====
-- The peers of the store, and the tracks that they send (src/client/reducers/peers.ts). A MediaStream is an object: a
-- number that stands for its place in `media`. simple-peer is a parameter; `none` is an exception of it that the
-- source does not catch.
pub mod Sending
mod Tests
use text.Mathlib.Text.{◌==◌}
use meeting.Prelude.{
  ℕ, String, List, [], ◌∷◌, ◌++◌, Option, none, some, Bool, true, false, if◌then◌else◌, get_elem?,
  set, map, ◌>>=◌,
}
use meeting.Prelude.Dict.{Dict, empty, put, remove}
use meeting.Reducers.Media.{Async, pending, resolved, rejected}
use meeting.Reducers.Streams.{Track}
use meeting.Reducers.Streams.Local.{StreamType, camera, desktop}

-- What the calls of a peer make of it. `remove_track` is the call with its exceptions caught.
pub record PeerPlatform (Peer Sender : Type 0) : Type 0 where
  pub add_track : Track → ℕ → Peer → Option (Sender × Peer)
  pub remove_track : Track → ℕ → Peer → Peer
  pub replace_track : Track → Track → ℕ → Peer → Option Peer
  pub destroy : Peer → Peer
  pub add_to_stream : Track → List Track → List Track
  pub drop_from_stream : Track → List Track → List Track

pub data MediaKind : Type 0 where
  audio video : MediaKind

-- The local streams are a variable of the module. `encrypted` are the senders given to the codec of the media,
-- `dismissed` the peers that are destroyed when the page is idle.
pub record PeersState (Peer Sender : Type 0) : Type 0 where
  pub peers : Dict Peer
  pub camera_stream : Option ℕ
  pub desktop_stream : Option ℕ
  pub media : List (List Track)
  pub encrypted : List Sender
  pub stopped : List String
  pub enabled : Dict Bool
  pub dismissed : List Peer

pub data Action (Peer : Type 0) : Type 0 where
  peer_add : (user_id : String) → Peer → Action Peer
  peer_remove : (user_id : String) → Action Peer
  hang_up : Action Peer
  stream_remove : (stream : ℕ) → Action Peer
  media_stream : Async (StreamType × ℕ) → Action Peer
  media_track : Async (MediaKind × StreamType × Option Track) → Action Peer
  media_track_enable : MediaKind → StreamType → Action Peer
  other : Action Peer

unfoldable pub tracks_in : ℕ → List (List Track) → List Track
tracks_in stream media = elim (get_elem? media stream) [ none ↦ [] | some ts ↦ ts ]

unfoldable pub kind_name : MediaKind → String
kind_name audio = "audio"
kind_name video = "video"

unfoldable pub get_tracks_by_kind : List Track → MediaKind → List Track
get_tracks_by_kind [] kind = []
get_tracks_by_kind (t ∷ ts) kind =
    let rest = get_tracks_by_kind ts kind in if t.kind == kind_name kind then t ∷ rest else rest

unfoldable pub first_of : List Track → Option Track
first_of [] = none
first_of (t ∷ ts) = some t

module _ {Peer Sender : Type 0} where
  unfoldable pub local_stream : StreamType → PeersState Peer Sender → Option ℕ
  local_stream camera s = s.camera_stream
  local_stream desktop s = s.desktop_stream

  unfoldable pub set_local_stream : StreamType → ℕ → PeersState Peer Sender → PeersState Peer Sender
  set_local_stream camera stream s = record s { camera_stream = some stream }
  set_local_stream desktop stream s = record s { desktop_stream = some stream }

  module _ (platform : PeerPlatform Peer Sender) where
    unfoldable pub remove_tracks : List Track → ℕ → Peer → Peer
    remove_tracks [] stream peer = peer
    remove_tracks (t ∷ ts) stream peer =
        remove_tracks ts stream (platform.remove_track t stream peer)

    -- The senders of the tracks, for the codec, and the peer.
    unfoldable pub add_tracks : List Track → ℕ → Peer → Option (List Sender × Peer)
    add_tracks [] stream peer = some ([], peer)
    add_tracks (t ∷ ts) stream peer = do
      (sender, next) ← platform.add_track t stream peer
      (senders, last) ← add_tracks ts stream next
      some (sender ∷ senders, last)

    unfoldable pub remove_stream : Option ℕ → List (List Track) → Peer → Peer
    remove_stream none media peer = peer
    remove_stream (some old) media peer = remove_tracks (tracks_in old media) old peer

    -- forEach(state, peer => …) for calls that give senders and may raise an exception.
    unfoldable pub each_peer :
        (Peer → Option (List Sender × Peer))
        → List (String × Peer)
        → Option (List Sender × List (String × Peer))
    each_peer f [] = some ([], [])
    each_peer f ((id, peer) ∷ rest) = do
      (senders, next) ← f peer
      (others, last) ← each_peer f rest
      some (senders ++ others, (id, next) ∷ last)

    unfoldable pub handle_remove_local_stream : PeersState Peer Sender → ℕ → PeersState Peer Sender
    handle_remove_local_stream s stream = record s {
      peers = record {
        entries =
            map (λ e. (e.0, remove_tracks (tracks_in stream s.media) stream e.1)) s.peers.entries;
      };
    }

    -- What one peer does when a local stream is there.
    unfoldable pub update_peer :
        Option ℕ → ℕ → List (List Track) → Peer → Option (List Sender × Peer)
    update_peer old stream media peer =
        add_tracks (tracks_in stream media) stream (remove_stream old media peer)

    unfoldable pub handle_local_media_stream :
        PeersState Peer Sender → StreamType → ℕ → Option (PeersState Peer Sender)
    handle_local_media_stream s kind stream = do
      (senders, entries) ←
          each_peer (update_peer (local_stream kind s) stream s.media) s.peers.entries
      some (
          set_local_stream kind stream
            (record s { peers = record { entries = entries }; encrypted = s.encrypted ++ senders }))

    unfoldable pub replace_in : Track → Track → ℕ → Peer → Option (List Sender × Peer)
    replace_in old new stream peer = do
      next ← platform.replace_track old new stream peer
      some ([], next)

    unfoldable pub add_in : Track → ℕ → Peer → Option (List Sender × Peer)
    add_in new stream peer = add_tracks (new ∷ []) stream peer

    unfoldable pub set_track :
        Option Track → Option Track → ℕ → PeersState Peer Sender → Option (PeersState Peer Sender)
    set_track (some old) (some new) stream s = do
      (senders, entries) ← each_peer (replace_in old new stream) s.peers.entries
      some (record s {
        peers = record { entries = entries };
        media =
            set s.media stream (
              platform.add_to_stream new
                (platform.drop_from_stream old (tracks_in stream s.media)));
        stopped = old.id ∷ s.stopped;
      })
    set_track (some old) none stream s = some (record s { enabled = put old.id false s.enabled })
    set_track none (some new) stream s = do
      (senders, entries) ← each_peer (add_in new stream) s.peers.entries
      some (record s {
        peers = record { entries = entries };
        media = set s.media stream (platform.add_to_stream new (tracks_in stream s.media));
        encrypted = s.encrypted ++ senders;
      })
    set_track none none stream s = some s

    unfoldable pub set_track_of :
        Option ℕ
        → MediaKind
        → Option Track
        → PeersState Peer Sender
        → Option (PeersState Peer Sender)
    set_track_of none kind new s = some s
    set_track_of (some stream) kind new s =
        set_track (first_of (get_tracks_by_kind (tracks_in stream s.media) kind)) new stream s

    unfoldable pub enable_all : List Track → Dict Bool → Dict Bool
    enable_all [] d = d
    enable_all (t ∷ ts) d = enable_all ts (put t.id true d)

    unfoldable pub enable_of :
        Option ℕ → MediaKind → PeersState Peer Sender → PeersState Peer Sender
    enable_of none kind s = s
    enable_of (some stream) kind s = record s {
      enabled = enable_all (get_tracks_by_kind (tracks_in stream s.media) kind) s.enabled;
    }

    unfoldable pub peers : PeersState Peer Sender → Action Peer → Option (PeersState Peer Sender)
    peers s (peer_add user_id peer) = some (record s { peers = put user_id peer s.peers })
    peers s (peer_remove user_id) = some (record s { peers = remove user_id s.peers })
    peers s hang_up = some (record s {
      peers = empty;
      camera_stream = none;
      desktop_stream = none;
      dismissed = map (λ e. platform.destroy e.1) s.peers.entries ++ s.dismissed;
    })
    peers s (stream_remove stream) = some (handle_remove_local_stream s stream)
    peers s (media_stream pending) = some s
    peers s (media_stream (resolved (kind, stream))) = handle_local_media_stream s kind stream
    peers s (media_stream (rejected name message)) = some s
    peers s (media_track pending) = some s
    peers s (media_track (resolved (kind, stream_type, new))) =
        set_track_of (local_stream stream_type s) kind new s
    peers s (media_track (rejected name message)) = some s
    peers s (media_track_enable kind stream_type) =
        some (enable_of (local_stream stream_type s) kind s)
    peers s other = some s
