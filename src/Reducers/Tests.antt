-- ===== src/Reducers/Tests.antt =====
-- The reducers at concrete states.
use meeting.Prelude.{◌≡◌, refl, List, [], ◌∷◌, none, some, true, if◌then◌else◌}
use package.text.Mathlib.Text.{◌==◌}
use meeting.Prelude.Dict.{empty, get, put}
use meeting.Reducers.Media.{
  default_state, media_all, pending, resolved, rejected, dial, socket_connected, media_stream,
}
use meeting.Reducers.Media.Refinement.{call_of, steps, call_of-media_all}
use meeting.Reducers.Messages.{
  MessageType, text, Action, notify, message_add, messages_all, is_image, starts_with,
}
use meeting.Reducers.Messages.Count.{counted, messages_count}
use meeting.Reducers.Notifications.{
  Notification, info, AnyAction, plain, notify_dismiss, notifications_all,
}
use meeting.Reducers.Notifications.Shown.{show_all, notifications_all-get}
use meeting.Reducers.WindowStates.{get_stream_key, window_states, toggle_action}
use meeting.Reducers.WindowStates.Toggle.{opposite, window_states-toggle}
use meeting.Reducers.Nicknames.{
  Nicknames, me, nicknames, nicknames_all, nicknames_set, nickname_remove,
}
use meeting.Reducers.Nicknames.Names.{HasMe, given, nicknames_all-HasMe, nicknames-set}

abbrev calling : List meeting.Reducers.Media.Action
calling =
    dial pending
    ∷ media_stream (rejected "NotAllowedError" "no camera")
    ∷ socket_connected
    ∷ dial (resolved tt)
    ∷ []

call_of-media_all_example :
    call_of (media_all calling default_state) ≡ steps calling (call_of default_state)
call_of-media_all_example = call_of-media_all calling default_state

abbrev greeting : MessageType
greeting = record { user_id = "alice"; payload = text "hello"; timestamp = "2020" }

abbrev joined : Notification
joined = record { id = "notification1"; notify_type = info; message = "alice joined" }

abbrev chat : List Action
chat = notify joined "12:00" ∷ message_add greeting ∷ []

messages_count_example :
    (messages_all (λ t. t) chat meeting.Reducers.Messages.default_state).count
    ≡ counted (messages_all (λ t. t) chat meeting.Reducers.Messages.default_state).list
messages_count_example = messages_count (λ t. t) chat

png_is_image : is_image "data:image/png;base64,AAAA" ≡ true
unfolding is_image starts_with
png_is_image = refl

abbrev shown : List AnyAction
shown =
    plain (meeting.Reducers.Notifications.notify joined)
    ∷ AnyAction.rejected "Error: no" "notification2"
    ∷ plain (notify_dismiss "notification1")
    ∷ []

notifications_all-get_example :
    get "notification2" (notifications_all shown empty) ≡ show_all shown (λ k. none) "notification2"
unfolding get
notifications_all-get_example =
    notifications_all-get shown empty (λ k. none) (λ k. refl) "notification2"

window_states-toggle_example :
    let once = window_states empty (toggle_action "alice" (some "s1")) in
    (get "alice_s1" once ≡ (
      if get_stream_key "alice" (some "s1") == "alice_s1"
      then opposite (get "alice_s1" empty)
      else get "alice_s1" empty))
    × (get "alice_s1" (window_states once (toggle_action "alice" (some "s1")))
        ≡ get "alice_s1" empty)
window_states-toggle_example = window_states-toggle "alice" (some "s1") empty "alice_s1"

abbrev names : Nicknames
names = record { entries = (me, some "Bob") ∷ ("alice", some "Alice") ∷ [] }

names-HasMe : HasMe "bob" names
unfolding get
names-HasMe = ("Bob", refl)

nicknames_all-HasMe_example : HasMe "bob" (
    nicknames_all "bob"
      (nickname_remove "alice" ∷ nicknames_set (put "bob" "Rob" empty) ∷ [])
      names)
nicknames_all-HasMe_example =
    nicknames_all-HasMe "bob" (nickname_remove "alice" ∷ nicknames_set (put "bob" "Rob" empty) ∷ [])
      names (tt, (tt, tt)) names-HasMe

nicknames-set_example :
    get "alice" (nicknames "bob" names (nicknames_set (put "alice" "Al" empty)))
    ≡ (if "alice" == "bob" then none else given (get "alice" (put "alice" "Al" empty)))
nicknames-set_example = nicknames-set "bob" "alice" refl (put "alice" "Al" empty) names
