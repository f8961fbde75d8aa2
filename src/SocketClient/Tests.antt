-- ===== src/SocketClient/Tests.antt =====
-- A socket that opens and pings, and one that is disconnected while it waits.
use meeting.Prelude.{◌≡◌, refl, [], ◌∷◌}
use meeting.SocketClient.{
  opened, closed, SocketClient, Reachable, starts, steps, opens, receives, ws_handle_message,
  open_socket, new_client, start_ping, ws_handle_open, ws_handle_close, tell_closed, clear_ping,
  connect_later, end_client,
}
use meeting.SocketClient.Phases.{Alternates, AllFair}
use meeting.SocketClient.Tidings.{Reachable-Alternates}

abbrev after_open : SocketClient
after_open = ws_handle_open (record (new_client 2000 5000) { sockets = opened ∷ [] })

after_open-Reachable : Reachable 2000 5000 after_open
unfolding new_client open_socket
after_open-Reachable = steps (new_client 2000 5000) _ starts (opens _ [] [] refl)

-- A socket that opens and brings a message.
abbrev told : SocketClient
told = ws_handle_message "users" "[]" after_open

told-Reachable : Reachable 2000 5000 told
unfolding new_client open_socket ws_handle_open start_ping
told-Reachable =
    steps after_open _ after_open-Reachable (receives after_open [] [] "users" "[]" refl)

told-AllFair : AllFair told.emitted
unfolding ws_handle_message ws_handle_open start_ping new_client open_socket
told-AllFair = (λ p e. (refl, refl), (λ p e. absurd (cc e), tt))

Reachable-Alternates_example : Alternates told.connected told.emitted
Reachable-Alternates_example =
    Reachable-Alternates 2000 5000 told told-Reachable (λ e. cc e) told-AllFair

-- `disconnect` while the client waits leaves the call of `connect` pending.
timer_left :
    (end_client (ws_handle_close (record (new_client 2000 5000) { sockets = closed ∷ [] }))).timers
    ≡ 1
unfolding end_client ws_handle_close new_client open_socket tell_closed clear_ping connect_later
timer_left = refl
