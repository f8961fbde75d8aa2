-- ===== src/Reducers/Messages.antt =====
-- The list of chat messages (src/client/reducers/messages.ts). A date's text in the page's language is the
-- platform's: `to_locale_string` stands for it.
pub mod Count
use meeting.Prelude.{
  ℕ, ◌+◌, String, List, [], ◌∷◌, ◌++◌, Option, none, some, Bool, true, false, ◌&&◌, ◌||◌, ◌==◌,
}
use meeting.Prelude.Decimal.{codes}
use meeting.Reducers.Notifications.{Notification}

pub record Message : Type 0 where
  pub user_id : String
  pub message : String
  pub timestamp : String
  pub data_url : Option String
  pub image : Option Bool
  pub system : Option Bool

pub record MessagesState : Type 0 where
  pub list : List Message
  pub count : ℕ

abbrev pub default_state : MessagesState
default_state = record { list = []; count = 0 }

pub record Base64File : Type 0 where
  pub name : String
  pub size : ℕ
  pub file_type : String
  pub data_url : String

pub data Payload : Type 0 where
  text : String → Payload
  file : Base64File → Payload

pub record MessageType : Type 0 where
  pub user_id : String
  pub payload : Payload
  pub timestamp : String

pub data Action : Type 0 where
  -- With the text of the present date.
  notify : Notification → String → Action
  message_add : MessageType → Action
  message_send : MessageType → Action

unfoldable pub starts_with : List ℕ → List ℕ → Bool
starts_with [] ds = true
starts_with (c ∷ cs) [] = false
starts_with (c ∷ cs) (d ∷ ds) = (c == d) && starts_with cs ds

-- `imageRegexp.test`
unfoldable pub is_image : String → Bool
is_image data_url =
    starts_with (codes "data:image/png;base64") (codes data_url)
    || (starts_with (codes "data:image/jpg;base64") (codes data_url)
        || (starts_with (codes "data:image/jpeg;base64") (codes data_url)
            || starts_with (codes "data:image/gif;base64") (codes data_url)))

unfoldable pub convert_notification_to_message : Notification → String → Message
convert_notification_to_message n now = record {
  user_id = "[PeerCalls]";
  message = n.message;
  timestamp = now;
  data_url = none;
  image = none;
  system = some true;
}

module _ (to_locale_string : String → String) where
  unfoldable pub message_of : MessageType → Payload → Message
  message_of m (file f) = record {
    user_id = m.user_id;
    message = f.name;
    timestamp = to_locale_string m.timestamp;
    data_url = some f.data_url;
    image = some (is_image f.data_url);
    system = none;
  }
  message_of m (text t) = record {
    user_id = m.user_id;
    message = t;
    timestamp = to_locale_string m.timestamp;
    data_url = none;
    image = none;
    system = none;
  }

  unfoldable pub handle_message : MessagesState → MessageType → MessagesState
  handle_message state m = record {
    count = state.count + 1;
    list = state.list ++ (message_of m m.payload ∷ []);
  }

  unfoldable pub messages : MessagesState → Action → MessagesState
  messages state (notify n now) = record state {
    list = state.list ++ (convert_notification_to_message n now ∷ []);
  }
  messages state (message_add m) = handle_message state m
  messages state (message_send m) = state

  unfoldable pub messages_all : List Action → MessagesState → MessagesState
  messages_all [] state = state
  messages_all (a ∷ actions) state = messages_all actions (messages state a)
