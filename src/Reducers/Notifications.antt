-- ===== src/Reducers/Notifications.antt =====
-- The notifications that are shown (src/client/reducers/notifications.ts, and `error` of
-- src/client/actions/NotifyActions.ts, `isRejectedAction` of src/client/async/action.ts).
pub mod Shown
use text.Mathlib.Text.{◌==◌}
use meeting.Prelude.{
  ℕ, String, List, [], ◌∷◌, Option, none, some, Bool, true, false, not, if◌then◌else◌,
}
use meeting.Prelude.Dict.{Dict, empty, get, put, keys}

pub data NotifyType : Type 0 where
  info warning error : NotifyType

pub record Notification : Type 0 where
  pub id : String
  pub notify_type : NotifyType
  pub message : String

abbrev pub default_state : Dict Notification
default_state = empty

pub data NotificationAction : Type 0 where
  notify : Notification → NotificationAction
  notify_dismiss : String → NotificationAction
  notify_clear : NotificationAction
  -- An action of another reducer.
  other : NotificationAction

-- Any action. Of a rejected one, the text of its error, and the id that `uniqueId` gives next.
pub data AnyAction : Type 0 where
  rejected : (text id : String) → AnyAction
  plain : NotificationAction → AnyAction

-- `error(text)`: with no further arguments, `format` gives the text back.
unfoldable pub error_of : String → String → NotificationAction
error_of text id = notify (record { id = id; notify_type = error; message = text })

unfoldable pub filter_keys : String → List String → List String
filter_keys id [] = []
filter_keys id (key ∷ others) =
    let rest = filter_keys id others in if not (key == id) then key ∷ rest else rest

-- obj[key] = state[key]; a key that is taken from the state has a value.
unfoldable pub copy_one : Option Notification → String → Dict Notification → Dict Notification
copy_one none key obj = obj
copy_one (some n) key obj = put key n obj

unfoldable pub copy_keys : List String → Dict Notification → Dict Notification → Dict Notification
copy_keys [] state obj = obj
copy_keys (key ∷ others) state obj = copy_keys others state (copy_one (get key state) key obj)

unfoldable pub handle_notifications : Dict Notification → NotificationAction → Dict Notification
handle_notifications state (notify n) = put n.id n state
handle_notifications state (notify_dismiss id) = copy_keys (filter_keys id (keys state)) state empty
handle_notifications state notify_clear = default_state
handle_notifications state other = state

unfoldable pub notifications : Dict Notification → AnyAction → Dict Notification
notifications state (rejected text id) = handle_notifications state (error_of text id)
notifications state (plain action) = handle_notifications state action

unfoldable pub notifications_all : List AnyAction → Dict Notification → Dict Notification
notifications_all [] state = state
notifications_all (a ∷ actions) state = notifications_all actions (notifications state a)
