-- ===== src/Reducers/Notifications/Shown.antt =====
-- Which notifications are shown after a row of actions.
use text.Mathlib.Text.{◌==◌}
use text.Mathlib.TextEquality.{eq_iff}
use meeting.Prelude.{
  ◌≡◌, refl, ap, subst, ◌∙◌, String, List, [], ◌∷◌, Option, none, some, false, if◌then◌else◌, inl,
  inr, Bool-cases, arith,
}
use meeting.Prelude.Dict.{Dict, empty, get, keys, has_key, get-put, get-empty, get-keys}
use meeting.Reducers.Notifications.{
  Notification, error, notify, notify_dismiss, notify_clear, other, AnyAction, rejected, plain,
  error_of, filter_keys, copy_one, copy_keys, handle_notifications, notifications,
  notifications_all,
}

has_key-filter :
    (id k : String) (l : List String)
    → has_key k (filter_keys id l) ≡ (if k == id then false else has_key k l)
unfolding has_key filter_keys
has_key-filter id k [] = ground arith
has_key-filter id k (j ∷ js) =
    ground (arith, eq_iff k id, eq_iff j id, eq_iff j k, has_key-filter id k js)

abbrev or_else : Option Notification → Option Notification → Option Notification
or_else none b = b
or_else (some a) b = some a

or_else_twice : (a b : Option Notification) → or_else a (or_else a b) ≡ or_else a b
or_else_twice none b = refl
or_else_twice (some a) b = refl

or_else-none : (a : Option Notification) → or_else a none ≡ a
or_else-none none = refl
or_else-none (some a) = refl

copy_one-get :
    (o : Option Notification) (j k : String) (obj : Dict Notification)
    → get k (copy_one o j obj) ≡ (if j == k then or_else o (get k obj) else get k obj)
unfolding copy_one
copy_one-get none j k obj = ground arith
copy_one-get (some n) j k obj = get-put j k n obj

-- A key that is copied has the state's value, if there is one.
copy_keys-get :
    (l : List String) (k : String) (state obj : Dict Notification)
    → get k (copy_keys l state obj)
      ≡ (if has_key k l then or_else (get k state) (get k obj) else get k obj)
unfolding copy_keys has_key
copy_keys-get [] k state obj = refl
copy_keys-get (j ∷ js) k state obj =
    let copied = copy_one-get (get j state) j k obj in
    let rest = copy_keys-get js k state (copy_one (get j state) j obj) in
    elim (Bool-cases (j == k)) [
      | inl same ↦
          let here : get k (copy_one (get j state) j obj) ≡ or_else (get k state) (get k obj) =
            subst (λ i. get k (copy_one (get j state) j obj) ≡ or_else (get i state) (get k obj))
              ((eq_iff j k).0 same) (rw same at copied) in
          elim (Bool-cases (has_key k js)) [
            | inl h ↦ rw same (
                rw h at rest
                ∙ ap (or_else (get k state)) here
                ∙ or_else_twice (get k state) (get k obj))
            | inr h ↦ rw same (rw h at rest ∙ here)
          ]
      | inr differ ↦ rw differ (rest ∙ rw (rw differ at copied) refl)
    ]

dismiss-get :
    (id k : String) (state : Dict Notification)
    → get k (copy_keys (filter_keys id (keys state)) state empty)
      ≡ (if k == id then none else get k state)
dismiss-get id k state =
    copy_keys-get (filter_keys id (keys state)) k state empty
    ∙ rw (has_key-filter id k (keys state), get-empty {V = Notification} k, or_else-none)
        (elim (Bool-cases (k == id)) [
          | inl e ↦ rw e refl
          | inr e ↦ elim (get-keys k state) [
            | inl absent ↦ rw (e, absent) (ground arith)
            | inr present ↦ rw (e, present) refl
          ]
        ])

-- What is shown, as a function of the id.
abbrev pub Shown : Type 0
Shown = String → Option Notification

abbrev pub show : AnyAction → Shown → Shown
show (rejected text id) s k =
    if id == k then some (record { id = id; notify_type = error; message = text }) else s k
show (plain (notify n)) s k = if n.id == k then some n else s k
show (plain (notify_dismiss id)) s k = if k == id then none else s k
show (plain notify_clear) s k = none
show (plain other) s k = s k

abbrev pub show_all : List AnyAction → Shown → Shown
show_all [] s = s
show_all (a ∷ actions) s = show_all actions (show a s)

notifications-get :
    (a : AnyAction) (state : Dict Notification) (k : String)
    → get k (notifications state a) ≡ show a (λ j. get j state) k
unfolding notifications handle_notifications error_of
notifications-get (rejected text id) state k = get-put id k _ state
notifications-get (plain (notify n)) state k = get-put n.id k n state
notifications-get (plain (notify_dismiss id)) state k = dismiss-get id k state
notifications-get (plain notify_clear) state k = get-empty k
notifications-get (plain other) state k = refl

show_ext :
    (a : AnyAction) (s t : Shown)
    → ((k : String) → s k ≡ t k)
    → (k : String) → show a s k ≡ show a t k
show_ext (rejected text id) s t h k = rw (h k) refl
show_ext (plain (notify n)) s t h k = rw (h k) refl
show_ext (plain (notify_dismiss id)) s t h k = rw (h k) refl
show_ext (plain notify_clear) s t h k = refl
show_ext (plain other) s t h k = h k

-- After any row of actions, each id shows what a function of the id gives that adds a notification, takes
-- a dismissed one away, forgets all at a clear, and adds an error for each rejected action.
pub notifications_all-get :
    (actions : List AnyAction) (state : Dict Notification) (s : Shown)
    → ((k : String) → get k state ≡ s k)
    → (k : String) → get k (notifications_all actions state) ≡ show_all actions s k
unfolding notifications_all
notifications_all-get [] state s h k = h k
notifications_all-get (a ∷ actions) state s h k =
    notifications_all-get actions (notifications state a) (show a s)
      (λ j. notifications-get a state j ∙ show_ext a (λ i. get i state) s h j) k
