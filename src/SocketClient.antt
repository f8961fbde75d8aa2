-- ===== src/SocketClient.antt =====
-- The socket that connects again (src/client/ws/index.ts, `SocketClient`). A WebSocket is known by its
-- state; the newest comes first. Timers and intervals of the platform are part of the state.
pub mod Phases
pub mod Reached
pub mod Tidings
mod Tests
use meeting.Prelude.{
  ℕ, zero, suc, ◌+◌, ◌≡◌, ◌≢◌, ◌⊎◌, String, List, [], ◌∷◌, ◌++◌, Option, none, some, Bool, true,
  false, if◌then◌else◌, ◌==◌,
}

pub data Socket : Type 0 where
  connecting opened closing closed : Socket

-- What the one emitter tells its listeners: the name, and the argument that only a message of the server brings.
pub record Emitted : Type 0 where
  pub name : String
  pub payload : Option String

-- `intervals` are the running ones, `timers` the number of pending calls of `connect`, `sent` the names of the messages
-- with the state of the socket they were given to.
pub record SocketClient : Type 0 where
  pub sockets : List Socket
  pub connected : Bool
  pub reconnect_timeout : ℕ
  pub ping_interval_timeout : ℕ
  pub ping_interval : Option ℕ
  pub intervals : List ℕ
  pub next_interval : ℕ
  pub timers : ℕ
  pub emitted : List Emitted
  pub sent : List (String × List Socket)

unfoldable pub open_socket : SocketClient → SocketClient
open_socket c = record c { sockets = connecting ∷ c.sockets }

-- The constructor.
unfoldable pub new_client : ℕ → ℕ → SocketClient
new_client reconnect_timeout ping_interval_timeout = open_socket (record {
  sockets = [];
  connected = false;
  reconnect_timeout = reconnect_timeout;
  ping_interval_timeout = ping_interval_timeout;
  ping_interval = none;
  intervals = [];
  next_interval = 0;
  timers = 0;
  emitted = [];
  sent = [];
})

unfoldable pub tell_closed : Bool → SocketClient → SocketClient
tell_closed true c = record c {
  emitted = record { name = "disconnect"; payload = none } ∷ c.emitted;
  connected = false;
}
tell_closed false c = c

-- clearInterval(id)
unfoldable pub clear_interval : ℕ → List ℕ → List ℕ
clear_interval id [] = []
clear_interval id (i ∷ is) = let rest = clear_interval id is in if i == id then rest else i ∷ rest

unfoldable pub clear_ping : Option ℕ → SocketClient → SocketClient
clear_ping none c = c
clear_ping (some id) c = record c { intervals = clear_interval id c.intervals }

unfoldable pub connect_later : ℕ → SocketClient → SocketClient
connect_later zero c = c
connect_later (suc n) c = record c { timers = c.timers + 1 }

unfoldable pub ws_handle_close : SocketClient → SocketClient
ws_handle_close c =
    connect_later c.reconnect_timeout (clear_ping c.ping_interval (tell_closed c.connected c))

unfoldable pub start_ping : ℕ → SocketClient → SocketClient
start_ping zero c = c
start_ping (suc n) c = record c {
  ping_interval = some c.next_interval;
  intervals = c.next_interval ∷ c.intervals;
  next_interval = c.next_interval + 1;
}

unfoldable pub ws_handle_open : SocketClient → SocketClient
ws_handle_open c = start_ping c.ping_interval_timeout (record c {
  connected = true;
  emitted = record { name = "connect"; payload = none } ∷ c.emitted;
})

unfoldable pub emit : String → SocketClient → SocketClient
emit name c = record c { sent = (name, c.sockets) ∷ c.sent }

unfoldable pub ping : SocketClient → SocketClient
ping c = emit "ping" c

unfoldable pub ws_handle_message : String → String → SocketClient → SocketClient
ws_handle_message name payload c = record c {
  emitted = record { name = name; payload = some payload } ∷ c.emitted;
}

unfoldable pub end_client : SocketClient → SocketClient
end_client c = ws_handle_close (record c { reconnect_timeout = 0 })

abbrev pub IsIn : ℕ → List ℕ → Type 0
IsIn id [] = ⊥
IsIn id (i ∷ is) = (i ≡ id) ⊎ IsIn id is

-- What the platform may do next: a socket opens, starts to close, is closed or brings a message, a timer or an
-- interval fires. A message comes only while its socket is open.
pub data Event : SocketClient → SocketClient → Type 0 where
  opens :
      (c : SocketClient) (newer older : List Socket)
      → c.sockets ≡ newer ++ (connecting ∷ older)
      → Event c (ws_handle_open (record c { sockets = newer ++ (opened ∷ older) }))
  starts_closing :
      (c : SocketClient) (newer older : List Socket) (state : Socket)
      → c.sockets ≡ newer ++ (state ∷ older)
      → state ≢ closed
      → Event c (record c { sockets = newer ++ (closing ∷ older) })
  closes :
      (c : SocketClient) (newer older : List Socket) (state : Socket)
      → c.sockets ≡ newer ++ (state ∷ older)
      → state ≢ closed
      → Event c (ws_handle_close (record c { sockets = newer ++ (closed ∷ older) }))
  receives :
      (c : SocketClient) (newer older : List Socket) (name payload : String)
      → c.sockets ≡ newer ++ (opened ∷ older)
      → Event c (ws_handle_message name payload c)
  reconnects :
      (c : SocketClient) (n : ℕ)
      → c.timers ≡ suc n
      → Event c (open_socket (record c { timers = n }))
  ticks : (c : SocketClient) (id : ℕ) → IsIn id c.intervals → Event c (ping c)

-- A client that was made, after any row of events.
pub data Reachable (reconnect_timeout ping_interval_timeout : ℕ) : SocketClient → Type 0 where
  starts :
      Reachable reconnect_timeout ping_interval_timeout
        (new_client reconnect_timeout ping_interval_timeout)
  steps :
      (c d : SocketClient)
      → Reachable reconnect_timeout ping_interval_timeout c
      → Event c d
      → Reachable reconnect_timeout ping_interval_timeout d
