-- ===== src/SocketClient/Tidings.antt =====
-- What the listeners of a client hear of its connection (src/client/ws/index.ts, the emitter).
use meeting.Prelude.{
  ℕ, zero, suc, ◌≡◌, ◌≢◌, refl, sym, inl, inr, ◌++◌, subst, ◌∙◌, List, ◌∷◌, Option, none, some,
  Bool, true, false,
}
use meeting.SocketClient.{
  Socket, connecting, opened, closed, SocketClient, Event, opens, starts_closing, closes, receives,
  reconnects, ticks, Reachable, starts, steps, open_socket, new_client, tell_closed, clear_ping,
  connect_later, ws_handle_close, ws_handle_open, emit, ping, ws_handle_message,
}
use meeting.SocketClient.Phases.{
  Alternates, AllFair, Sound, is_connecting, is_connected, is_waiting, newest, start_ping_lem,
}
use meeting.SocketClient.Reached.{Reachable-Sound}

abbrev Tidings : SocketClient → Type 0
Tidings c = AllFair c.emitted → Alternates c.connected c.emitted

closed-Tidings :
    (b : Bool) (o : Option ℕ) (n : ℕ) (c : SocketClient)
    → c.connected ≡ b
    → Tidings c
    → Tidings (connect_later n (clear_ping o (tell_closed b c)))
unfolding connect_later clear_ping tell_closed
closed-Tidings true none zero c on h f = (refl, subst (λ b. Alternates b c.emitted) on (h f.1))
closed-Tidings true none (suc n) c on h f = (refl, subst (λ b. Alternates b c.emitted) on (h f.1))
closed-Tidings true (some id) zero c on h f = (refl, subst (λ b. Alternates b c.emitted) on (h f.1))
closed-Tidings true (some id) (suc n) c on h f =
    (refl, subst (λ b. Alternates b c.emitted) on (h f.1))
closed-Tidings false none zero c on h f = h f
closed-Tidings false none (suc n) c on h f = h f
closed-Tidings false (some id) zero c on h f = h f
closed-Tidings false (some id) (suc n) c on h f = h f

opens-Tidings :
    (r p : ℕ) (c : SocketClient) (newer older : List Socket)
    → c.sockets ≡ newer ++ (connecting ∷ older)
    → Sound r p c
    → Tidings c
    → Tidings (ws_handle_open (record c { sockets = newer ++ (opened ∷ older) }))
unfolding ws_handle_open
opens-Tidings r p c newer older e s h f =
    let d = record c {
      sockets = newer ++ (opened ∷ older);
      connected = true;
      emitted = record { name = "connect"; payload = none } ∷ c.emitted;
    } in
    let (k1, k2, _, _, _) = start_ping_lem c.ping_interval_timeout d in
    let was = h (subst AllFair k2 f).1 in
    let off : c.connected ≡ false = elim s.phase [
      | is_connecting q rest x u l off t i ↦ off
      | is_connected q rest x u l on t z i ↦
          let same = (newest newer older rest q connecting (sym x ∙ e) l (λ p. cc p)).1 in
          elim u [ inl p ↦ absurd (cc (same, p)) | inr p ↦ absurd (cc (same, p)) ]
      | is_waiting l off t i ↦ off
    ] in
    rw (k1, k2) (refl, subst (λ b. Alternates b c.emitted) off was)

step-Tidings : (r p : ℕ) (c d : SocketClient) → Event c d → Sound r p c → Tidings c → Tidings d
unfolding ws_handle_close ws_handle_message open_socket ping emit
step-Tidings r p c _ (opens _ newer older e) s h = opens-Tidings r p c newer older e s h
step-Tidings r p c _ (starts_closing _ newer older q e ne) s h = h
step-Tidings r p c _ (closes _ newer older q e ne) s h =
    closed-Tidings c.connected c.ping_interval c.reconnect_timeout
      (record c { sockets = newer ++ (closed ∷ older) }) refl h
step-Tidings r p c _ (receives _ newer older name payload e) s h =
    λ f. let (x, y) = f.0 payload refl in rw (x, y) (h f.1)
step-Tidings r p c _ (reconnects _ n e) s h = h
step-Tidings r p c _ (ticks _ id m) s h = h

-- As long as no message of the server is named `connect` or `disconnect`, the listeners of a client with a time to
-- reconnect, that is not disconnected by the program, hear the two in turn, and the client takes itself for connected
-- just when `connect` was the last that they heard.
pub Reachable-Alternates :
    (reconnect_after ping_every : ℕ) (c : SocketClient)
    → Reachable reconnect_after ping_every c
    → reconnect_after ≢ 0
    → AllFair c.emitted
    → Alternates c.connected c.emitted
unfolding new_client open_socket
Reachable-Alternates r p c starts n f = refl
Reachable-Alternates r p c (steps b _ h e) n f =
    step-Tidings r p b c e (Reachable-Sound r p b h n) (Reachable-Alternates r p b h n) f
