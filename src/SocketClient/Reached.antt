-- ===== src/SocketClient/Reached.antt =====
-- A client is in a phase after any row of events of the platform.
use meeting.Prelude.{
  ℕ, suc, ◌≡◌, ◌≢◌, refl, sym, subst, ◌∙◌, String, List, [], ◌∷◌, ◌++◌, none, true, arith, inl, inr,
}
use meeting.SocketClient.{
  Socket, connecting, opened, closing, closed, SocketClient, Event, opens, starts_closing, closes,
  receives, reconnects, ticks, Reachable, starts, steps, IsIn, open_socket, new_client, tell_closed,
  clear_ping, connect_later, ws_handle_close, ws_handle_open, emit, ping, ws_handle_message,
}
use meeting.SocketClient.Phases.{
  AllClosed, AllSent, Phase, is_connecting, is_connected, is_waiting, Sound, newest, AllClosed-one,
  start_ping-Phase, closed-Phase, closed_lem, start_ping_lem, Cleared-none, Cleared-one, same-Phase,
  positive, Cleared,
}

module _ (reconnect_after ping_every : ℕ) where
  opens-Sound :
      (c : SocketClient) (newer older : List Socket)
      → c.sockets ≡ newer ++ (connecting ∷ older)
      → Sound reconnect_after ping_every c
      → Sound reconnect_after ping_every
          (ws_handle_open (record c { sockets = newer ++ (opened ∷ older) }))
  unfolding ws_handle_open
  opens-Sound c newer older e h = elim h.phase [
    | is_connecting q rest s u l off t i ↦
        let (n, _, o) = newest newer older rest q connecting (sym s ∙ e) l (λ p. cc p) in
        let now : newer ++ (opened ∷ older) ≡ opened ∷ rest = rw (n, o) refl in
        let d = record c {
          sockets = newer ++ (opened ∷ older);
          connected = true;
          emitted = record { name = "connect"; payload = none } ∷ c.emitted;
        } in
        let (k1, k2, k3, k4, k5) = start_ping_lem c.ping_interval_timeout d in
        record {
          reconnect = k4 ∙ h.reconnect;
          interval = k5 ∙ h.interval;
          phase = start_ping-Phase c.ping_interval_timeout d rest refl now l refl t i;
          pings = subst AllSent (sym k3) h.pings;
        }
    | is_connected q rest s u l on t z i ↦
        let same = (newest newer older rest q connecting (sym s ∙ e) l (λ p. cc p)).1 in
        elim u [ inl p ↦ absurd (cc (same, p)) | inr p ↦ absurd (cc (same, p)) ]
    | is_waiting l off t i ↦ absurd (cc (AllClosed-one newer older c.sockets connecting e l))
  ]

  closed_all :
      (c : SocketClient) (newer older rest : List Socket) (p q : Socket)
      → c.sockets ≡ newer ++ (q ∷ older)
      → q ≢ closed
      → c.sockets ≡ p ∷ rest
      → AllClosed rest
      → AllClosed (newer ++ (closed ∷ older))
  closed_all c newer older rest p q e n s l =
      let (at, _, o) = newest newer older rest p q (sym s ∙ e) l n in
      let now : newer ++ (closed ∷ older) ≡ closed ∷ rest = rw (at, o) refl in
      subst AllClosed (sym now) (refl, l)

  closes-Sound :
      (n : ℕ) (c : SocketClient) (newer older : List Socket) (q : Socket)
      → reconnect_after ≡ suc n
      → c.sockets ≡ newer ++ (q ∷ older)
      → q ≢ closed
      → Sound reconnect_after ping_every c
      → Sound reconnect_after ping_every
          (ws_handle_close (record c { sockets = newer ++ (closed ∷ older) }))
  unfolding ws_handle_close
  closes-Sound n c newer older q r e ne h =
      let d = record c { sockets = newer ++ (closed ∷ older) } in
      let again = h.reconnect ∙ r in
      let (p, k1, k2) = closed_lem c.connected c.ping_interval (suc n) d in
      let sound =
        λ (cl : Cleared c.ping_interval c.intervals) (l : AllClosed d.sockets) (t : c.timers ≡ 0).
          subst
            (λ m.
              Sound reconnect_after ping_every
                (connect_later m (clear_ping c.ping_interval (tell_closed c.connected d))))
            (sym again)
            (record {
              reconnect = k1 ∙ h.reconnect;
              interval = k2 ∙ h.interval;
              phase = closed-Phase c.connected c.ping_interval n d refl cl l t;
              pings = subst AllSent (sym p) h.pings;
            }) in
      elim h.phase [
        | is_connecting p rest s u l off t i ↦
            sound (Cleared-none c.ping_interval c.intervals i)
              (closed_all c newer older rest p q e ne s l) t
        | is_connected p rest s u l on t z i ↦
            sound (Cleared-one c z i) (closed_all c newer older rest p q e ne s l) t
        | is_waiting l off t i ↦ absurd (ne (AllClosed-one newer older c.sockets q e l))
      ]

  starts_closing-Sound :
      (c : SocketClient) (newer older : List Socket) (q : Socket)
      → c.sockets ≡ newer ++ (q ∷ older)
      → q ≢ closed
      → Sound reconnect_after ping_every c
      → Sound reconnect_after ping_every (record c { sockets = newer ++ (closing ∷ older) })
  starts_closing-Sound c newer older q e ne h =
      let d = record c { sockets = newer ++ (closing ∷ older) } in
      let sound : Phase d → Sound reconnect_after ping_every d = λ p. record {
        reconnect = h.reconnect;
        interval = h.interval;
        phase = p;
        pings = h.pings;
      } in
      elim h.phase [
        | is_connecting p rest s u l off t i ↦
            let (n, _, o) = newest newer older rest p q (sym s ∙ e) l ne in
            let now : newer ++ (closing ∷ older) ≡ closing ∷ rest = rw (n, o) refl in
            sound (is_connecting closing rest now (λ x. cc x) l off t i)
        | is_connected p rest s u l on t z i ↦
            let (n, _, o) = newest newer older rest p q (sym s ∙ e) l ne in
            let now : newer ++ (closing ∷ older) ≡ closing ∷ rest = rw (n, o) refl in
            sound (is_connected closing rest now (inr refl) l on t z i)
        | is_waiting l off t i ↦ absurd (ne (AllClosed-one newer older c.sockets q e l))
      ]

  receives-Sound :
      (c : SocketClient) (name payload : String)
      → Sound reconnect_after ping_every c
      → Sound reconnect_after ping_every (ws_handle_message name payload c)
  unfolding ws_handle_message
  receives-Sound c name payload h = record {
    reconnect = h.reconnect;
    interval = h.interval;
    phase = same-Phase c _ refl refl refl refl refl refl h.phase;
    pings = h.pings;
  }

  reconnects-Sound :
      (c : SocketClient) (n : ℕ)
      → c.timers ≡ suc n
      → Sound reconnect_after ping_every c
      → Sound reconnect_after ping_every (open_socket (record c { timers = n }))
  unfolding open_socket
  reconnects-Sound c n e h = elim h.phase [
    | is_connecting q rest s u l off t i ↦ absurd (cc (e, t))
    | is_connected q rest s u l on t z i ↦ absurd (cc (e, t))
    | is_waiting l off t i ↦ record {
      reconnect = h.reconnect;
      interval = h.interval;
      phase = is_connecting connecting c.sockets refl (λ p. cc p) l off (omega arith) i;
      pings = h.pings;
    }
  ]

  ticks-Sound :
      (c : SocketClient) (id : ℕ)
      → IsIn id c.intervals
      → Sound reconnect_after ping_every c
      → Sound reconnect_after ping_every (ping c)
  unfolding ping emit
  ticks-Sound c id m h = elim h.phase [
    | is_connecting q rest s u l off t i ↦ absurd (subst (IsIn id) i m)
    | is_connected q rest s u l on t z i ↦ record {
      reconnect = h.reconnect;
      interval = h.interval;
      phase = same-Phase c _ refl refl refl refl refl refl h.phase;
      pings = ((q, rest, s, u), h.pings);
    }
    | is_waiting l off t i ↦ absurd (subst (IsIn id) i m)
  ]

  step-Sound :
      (n : ℕ) (c d : SocketClient)
      → reconnect_after ≡ suc n
      → Event c d
      → Sound reconnect_after ping_every c
      → Sound reconnect_after ping_every d
  step-Sound n c _ r (opens _ newer older e) h = opens-Sound c newer older e h
  step-Sound n c _ r (starts_closing _ newer older q e ne) h =
      starts_closing-Sound c newer older q e ne h
  step-Sound n c _ r (closes _ newer older q e ne) h = closes-Sound n c newer older q r e ne h
  step-Sound n c _ r (receives _ newer older name payload e) h = receives-Sound c name payload h
  step-Sound n c _ r (reconnects _ k e) h = reconnects-Sound c k e h
  step-Sound n c _ r (ticks _ id m) h = ticks-Sound c id m h

  new-Sound : Sound reconnect_after ping_every (new_client reconnect_after ping_every)
  unfolding new_client open_socket
  new-Sound = record {
    reconnect = refl;
    interval = refl;
    phase = is_connecting connecting [] refl (λ p. cc p) tt refl refl refl;
    pings = tt;
  }

  pub Reachable-Sound :
      (c : SocketClient)
      → Reachable reconnect_after ping_every c
      → reconnect_after ≢ 0
      → Sound reconnect_after ping_every c
  Reachable-Sound c starts n = new-Sound
  Reachable-Sound c (steps b _ h e) n =
      let (k, p) = positive reconnect_after n in step-Sound k b c p e (Reachable-Sound b h n)
