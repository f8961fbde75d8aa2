-- ===== src/Peers/Tests.antt =====
-- A list of users with one that is known and one that is not.
use text.Mathlib.Text.{◌==◌}
use meeting.Prelude.{ℕ, ◌≤◌, ◌<◌, ◌≡◌, refl, String, [], ◌∷◌, some, true, false, ◌&&◌, get_elem?}
use meeting.Prelude.Dict.{empty, get, put, remove, has_key, assign, find, without}
use meeting.Peers.{
  Call, handle_close, create_peer, clean_up, destroy, as_destroyed, closing_after, new_peer,
  dispatch, act, peers_after,
}
use meeting.Peers.Creating.{fresh}
use meeting.Peers.Socket.{SocketHandler, Users, is_new, handle_users}
use meeting.Peers.Users.{handle_users_lem}
use meeting.Peers.Holding.{Alive}
use meeting.Peers.Alive.{Reachable, starts, steps, creates, destroys, closes, Reachable-Alive}

abbrev handler : SocketHandler
handler = record { room_name = "room"; user_id = "me" }

abbrev users : Users
users = record {
  initiator = "me";
  peer_ids = "me" ∷ "bob" ∷ "eve" ∷ "eve" ∷ [];
  nicknames = put "bob" "Bob" empty;
  record_status = true;
  record_url = "url";
}

abbrev with_bob : Call String
with_bob = record {
  peers = put "bob" 0 empty;
  objects = fresh "bob" false ∷ [];
  local_streams = [];
  decoders = meeting.Codec.Decoder.init ∷ [];
  closing = [];
  effects = [];
}

handle_users_lem_example :
    ((id : String)
      → has_key id users.peer_ids ≡ true
      → is_new handler with_bob.peers id ≡ true
      → (n : ℕ) × (get id (handle_users handler users with_bob).peers ≡ some n)
        × (1 ≤ n)
        × (get_elem? (handle_users handler users with_bob).objects n
            ≡ some (fresh id (users.initiator == handler.user_id))))
    × ((id : String)
        → (is_new handler with_bob.peers id && has_key id users.peer_ids) ≡ false
        → get id (handle_users handler users with_bob).peers ≡ get id with_bob.peers)
    × ((m : ℕ)
        → m < 1
        → get_elem? (handle_users handler users with_bob).objects m ≡ get_elem? with_bob.objects m)
handle_users_lem_example = handle_users_lem handler users with_bob

-- A peer is made again, then the old one tells that it is closed: the entry of the new one is gone.
late_close : (handle_close "bob" (create_peer "bob" true with_bob)).peers ≡ empty
unfolding handle_close create_peer clean_up destroy as_destroyed new_peer dispatch act peers_after
    get put remove assign find without
late_close = refl

-- Bob's peer destroys itself, and is still in the store until its event comes.
abbrev nobody : Call String
nobody = record {
  peers = empty;
  objects = [];
  local_streams = [];
  decoders = [];
  closing = [];
  effects = [];
}

abbrev bob_made : Call String
bob_made = create_peer "bob" true nobody

abbrev bob_failed : Call String
bob_failed = destroy 0 bob_made

abbrev bob_gone : Call String
bob_gone = handle_close "bob" (record bob_failed { closing = [] })

bob_gone-Reachable : Reachable bob_gone
unfolding create_peer clean_up destroy as_destroyed closing_after new_peer dispatch act peers_after
    get put assign find
bob_gone-Reachable =
    steps bob_failed bob_gone
      (steps bob_made bob_failed
        (steps nobody bob_made (starts nobody refl) (creates nobody "bob" true))
        (destroys bob_made 0))
      (closes bob_failed 0 (record { user_id = "bob"; initiator = true; destroyed = true }) [] []
        refl refl)

Reachable-Alive_example : Alive bob_gone
Reachable-Alive_example = Reachable-Alive bob_gone bob_gone-Reachable
