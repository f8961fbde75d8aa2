-- ===== src/SocketClient/Phases.antt =====
-- A client is always in one of three phases.
use meeting.Prelude.{
  ℕ, zero, suc, ◌+◌, ◌≡◌, ◌≢◌, ◌⊎◌, inl, inr, refl, sym, ap, subst, ◌∙◌, String, List, [], ◌∷◌,
  ◌++◌, Option, none, some, Bool, true, false, if◌then◌else◌, ==_iff,
}
use text.Mathlib.Text.{◌==◌}
use meeting.SocketClient.{
  Socket, opened, closing, closed, Emitted, SocketClient, tell_closed, clear_interval, clear_ping,
  connect_later, start_ping,
}

abbrev pub AllClosed : List Socket → Type 0
AllClosed [] = Unit
AllClosed (s ∷ ss) = (s ≡ closed) × AllClosed ss

-- Between two tidings named `connect` there is one named `disconnect`, and the other way round; the newest comes first.
abbrev pub Alternates : Bool → List Emitted → Type 0
Alternates b [] = b ≡ false
Alternates b (e ∷ es) =
    if e.name == "connect"
    then (b ≡ true) × Alternates false es
    else if e.name == "disconnect"
    then (b ≡ false) × Alternates true es
    else Alternates b es

-- No message of the server has one of the two names.
abbrev pub AllFair : List Emitted → Type 0
AllFair [] = Unit
AllFair (e ∷ es) =
    ((p : String)
      → e.payload ≡ some p
      → ((e.name == "connect") ≡ false) × ((e.name == "disconnect") ≡ false))
    × AllFair es

abbrev pub IsUp : Socket → Type 0
IsUp s = (s ≡ opened) ⊎ (s ≡ closing)

-- The messages went to a socket that was open, or was closing.
abbrev pub AllSent : List (String × List Socket) → Type 0
AllSent [] = Unit
AllSent ((name, sockets) ∷ sent) =
    ((s : Socket) × (older : List Socket) × (sockets ≡ s ∷ older) × IsUp s) × AllSent sent

-- The phases, with the sockets, the timers and the intervals of each.
pub data Phase (c : SocketClient) : Type 0 where
  is_connecting :
      (s : Socket) (older : List Socket)
      → c.sockets ≡ s ∷ older
      → s ≢ closed
      → AllClosed older
      → c.connected ≡ false
      → c.timers ≡ 0
      → c.intervals ≡ []
      → Phase c
  is_connected :
      (s : Socket) (older : List Socket)
      → c.sockets ≡ s ∷ older
      → IsUp s
      → AllClosed older
      → c.connected ≡ true
      → c.timers ≡ 0
      → (c.ping_interval_timeout ≡ 0 → c.intervals ≡ [])
      → (c.ping_interval_timeout ≢ 0
          → (id : ℕ) × (c.ping_interval ≡ some id) × (c.intervals ≡ id ∷ []))
      → Phase c
  is_waiting : AllClosed c.sockets → c.connected ≡ false → c.timers ≡ 1 → c.intervals ≡ [] → Phase c

pub record Sound (reconnect_timeout ping_interval_timeout : ℕ) (c : SocketClient) : Type 0 where
  pub reconnect : c.reconnect_timeout ≡ reconnect_timeout
  pub interval : c.ping_interval_timeout ≡ ping_interval_timeout
  pub phase : Phase c
  pub pings : AllSent c.sent

pub AllClosed-one :
    (newer older xs : List Socket) (q : Socket)
    → xs ≡ newer ++ (q ∷ older)
    → AllClosed xs
    → q ≡ closed
AllClosed-one [] older [] q e h = absurd (cc e)
AllClosed-one (n ∷ ns) older [] q e h = absurd (cc e)
AllClosed-one [] older (x ∷ xs) q e h = cc (e, h.0)
AllClosed-one (n ∷ ns) older (x ∷ xs) q e h =
    let rest : xs ≡ ns ++ (q ∷ older) = cc e in AllClosed-one ns older xs q rest h.1

pub newest :
    (newer older rest : List Socket) (p q : Socket)
    → p ∷ rest ≡ newer ++ (q ∷ older)
    → AllClosed rest
    → q ≢ closed
    → (newer ≡ []) × (q ≡ p) × (older ≡ rest)
newest [] older rest p q e h n = (refl, cc e, cc e)
newest (x ∷ xs) older rest p q e h n =
    let tail : rest ≡ xs ++ (q ∷ older) = cc e in absurd (n (AllClosed-one xs older rest q tail h))

pub start_ping-Phase :
    (n : ℕ) (c : SocketClient) (older : List Socket)
    → c.ping_interval_timeout ≡ n
    → c.sockets ≡ opened ∷ older
    → AllClosed older
    → c.connected ≡ true
    → c.timers ≡ 0
    → c.intervals ≡ []
    → Phase (start_ping n c)
unfolding start_ping
start_ping-Phase zero c older e s h on t i =
    is_connected opened older s (inl refl) h on t (λ z. i) (λ nz. absurd (nz e))
start_ping-Phase (suc n) c older e s h on t i =
    is_connected opened older s (inl refl) h on t (λ z. absurd (cc (e, z)))
      (λ nz. (c.next_interval, refl, ap (λ is. c.next_interval ∷ is) i))

clear_self : (id : ℕ) → clear_interval id (id ∷ []) ≡ []
unfolding clear_interval
clear_self id = rw ((==_iff id id).1 refl) refl

-- The interval that is cleared is the only one, if there is one.
abbrev pub Cleared : Option ℕ → List ℕ → Type 0
Cleared none is = is ≡ []
Cleared (some id) is = clear_interval id is ≡ []

pub closed-Phase :
    (b : Bool) (o : Option ℕ) (n : ℕ) (c : SocketClient)
    → c.connected ≡ b
    → Cleared o c.intervals
    → AllClosed c.sockets
    → c.timers ≡ 0
    → Phase (connect_later (suc n) (clear_ping o (tell_closed b c)))
unfolding connect_later clear_ping tell_closed
closed-Phase true none n c on i h t = is_waiting h refl (ap (λ x. x + 1) t) i
closed-Phase true (some id) n c on i h t = is_waiting h refl (ap (λ x. x + 1) t) i
closed-Phase false none n c on i h t = is_waiting h on (ap (λ x. x + 1) t) i
closed-Phase false (some id) n c on i h t = is_waiting h on (ap (λ x. x + 1) t) i

-- What stays when a socket closes.
pub closed_lem :
    (b : Bool) (o : Option ℕ) (n : ℕ) (c : SocketClient)
    → let d = connect_later n (clear_ping o (tell_closed b c)) in
      (d.sent ≡ c.sent)
      × (d.reconnect_timeout ≡ c.reconnect_timeout)
      × (d.ping_interval_timeout ≡ c.ping_interval_timeout)
unfolding connect_later clear_ping tell_closed
closed_lem true none zero c = (refl, refl, refl)
closed_lem true none (suc n) c = (refl, refl, refl)
closed_lem true (some id) zero c = (refl, refl, refl)
closed_lem true (some id) (suc n) c = (refl, refl, refl)
closed_lem false none zero c = (refl, refl, refl)
closed_lem false none (suc n) c = (refl, refl, refl)
closed_lem false (some id) zero c = (refl, refl, refl)
closed_lem false (some id) (suc n) c = (refl, refl, refl)

pub start_ping_lem :
    (n : ℕ) (c : SocketClient)
    → let d = start_ping n c in
      (d.connected ≡ c.connected)
      × (d.emitted ≡ c.emitted)
      × (d.sent ≡ c.sent)
      × (d.reconnect_timeout ≡ c.reconnect_timeout)
      × (d.ping_interval_timeout ≡ c.ping_interval_timeout)
unfolding start_ping
start_ping_lem zero c = (refl, refl, refl, refl, refl)
start_ping_lem (suc n) c = (refl, refl, refl, refl, refl)

pub Cleared-none : (o : Option ℕ) (is : List ℕ) → is ≡ [] → Cleared o is
unfolding clear_interval
Cleared-none none is e = e
Cleared-none (some id) is e = rw e refl

pub positive : (n : ℕ) → n ≢ 0 → (k : ℕ) × (n ≡ suc k)
positive zero h = absurd (h refl)
positive (suc n) h = (n, refl)

pub same-Phase :
    (c d : SocketClient)
    → d.sockets ≡ c.sockets
    → d.connected ≡ c.connected
    → d.timers ≡ c.timers
    → d.intervals ≡ c.intervals
    → d.ping_interval ≡ c.ping_interval
    → d.ping_interval_timeout ≡ c.ping_interval_timeout
    → Phase c
    → Phase d
same-Phase c d s on t i p w (is_connecting q older a u b e f g) =
    is_connecting q older (s ∙ a) u b (on ∙ e) (t ∙ f) (i ∙ g)
same-Phase c d s on t i p w (is_connected q older a u b e f g h) =
    is_connected q older (s ∙ a) u b (on ∙ e) (t ∙ f) (λ z. i ∙ g (sym w ∙ z))
      (λ n. let (id, x, y) = h (λ z. n (w ∙ z)) in (id, p ∙ x, i ∙ y))
same-Phase c d s on t i p w (is_waiting a e f g) =
    is_waiting (subst AllClosed (sym s) a) (on ∙ e) (t ∙ f) (i ∙ g)

zero_or : (n : ℕ) → (n ≡ 0) ⊎ (n ≢ 0)
zero_or zero = inl refl
zero_or (suc n) = inr (λ e. cc e)

pub Cleared-one :
    (c : SocketClient)
    → (c.ping_interval_timeout ≡ 0 → c.intervals ≡ [])
    → (c.ping_interval_timeout ≢ 0
        → (id : ℕ) × (c.ping_interval ≡ some id) × (c.intervals ≡ id ∷ []))
    → Cleared c.ping_interval c.intervals
Cleared-one c z i = elim (zero_or c.ping_interval_timeout) [
  | inl e ↦ Cleared-none c.ping_interval c.intervals (z e)
  | inr n ↦
      let (id, o, is) = i n in
      subst (λ p. Cleared p c.intervals) (sym o) (ap (clear_interval id) is ∙ clear_self id)
]
