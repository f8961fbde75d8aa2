-- ===== src/Reducers/WindowStates.antt =====
-- Which video windows are minimized (src/client/reducers/windowStates.ts).
pub mod Toggle
use Prim.Native.String
use meeting.Prelude.{String, List, [], ◌∷◌, Option, none, some}
use meeting.Prelude.Dict.{Dict, empty, get, put, remove}

-- `undefined` is the value of a key that is not there, and is never stored.
pub data WindowState : Type 0 where
  minimized : WindowState

-- The text of an optional id that is put together with a text.
unfoldable pub text_of : Option String → String
text_of none = "undefined"
text_of (some stream_id) = stream_id

unfoldable pub get_stream_key : String → Option String → String
get_stream_key user_id stream_id = String.◌++◌ user_id (String.◌++◌ "_" (text_of stream_id))

unfoldable pub unminimize : String → Dict WindowState → Dict WindowState
unminimize key state = remove key state

unfoldable pub minimize : String → Dict WindowState → Dict WindowState
minimize key state = put key minimized state

unfoldable pub toggle : Option WindowState → String → Dict WindowState → Dict WindowState
toggle none key state = minimize key state
toggle (some w) key state = unminimize key state

unfoldable pub minimize_toggle : String → Option String → Dict WindowState → Dict WindowState
minimize_toggle user_id stream_id state =
    let key = get_stream_key user_id stream_id in toggle (get key state) key state

pub data Action : Type 0 where
  toggle_action : String → Option String → Action
  other : Action

unfoldable pub window_states : Dict WindowState → Action → Dict WindowState
window_states state (toggle_action user_id stream_id) = minimize_toggle user_id stream_id state
window_states state other = state
