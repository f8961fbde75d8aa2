-- ===== src/Reducers/Media.antt =====
-- The state of the call and of the devices (src/client/reducers/media.ts).
pub mod Refinement
use text.Mathlib.Text.{◌==◌}
use meeting.Prelude.{String, List, [], ◌∷◌, Bool, true, false, if◌then◌else◌}

pub data DialState : Type 0 where
  hung_up dialling in_call : DialState

pub data DeviceType : Type 0 where
  audioinput videoinput : DeviceType

pub record MediaDevice : Type 0 where
  pub id : String
  pub name : String
  pub device_type : DeviceType

pub data VideoConstraint : Type 0 where
  device_id facing_mode : String → VideoConstraint
  flag : Bool → VideoConstraint

pub data AudioConstraint : Type 0 where
  device_id : String → AudioConstraint
  flag : Bool → AudioConstraint

pub record MediaState : Type 0 where
  pub socket_connected : Bool
  pub creator_id : String
  pub devices : List MediaDevice
  pub video : VideoConstraint
  pub audio : AudioConstraint
  pub dial_state : DialState
  pub loading : Bool
  pub error : String
  pub autoplay_error : Bool
  pub record_status : Bool

abbrev pub default_state : MediaState
default_state = record {
  socket_connected = false;
  creator_id = "";
  devices = [];
  video = VideoConstraint.facing_mode "user";
  audio = AudioConstraint.flag true;
  dial_state = hung_up;
  loading = false;
  error = "";
  autoplay_error = false;
  record_status = false;
}

-- An asynchronous action with what it gives; an error has a name and a message.
pub data Async (P : Type 0) : Type 0 where
  pending : Async P
  resolved : P → Async P
  rejected : (name message : String) → Async P

pub data Action : Type 0 where
  media_enumerate : Async (List MediaDevice) → Action
  media_audio_constraint_set : AudioConstraint → Action
  media_video_constraint_set : VideoConstraint → Action
  media_stream media_play dial : Async Unit → Action
  call_record : Bool → Action
  creator_id_add : String → Action
  socket_connected socket_disconnected hang_up : Action
  -- An action of another reducer.
  other : Action

unfoldable pub handle_enumerate : MediaState → Async (List MediaDevice) → MediaState
handle_enumerate state (resolved devices) = record state { loading = false; devices = devices }
handle_enumerate state pending = record state { loading = true }
handle_enumerate state (rejected name message) = record state {
  loading = false;
  error = "Could not retrieve media devices";
}

unfoldable pub handle_media_stream : MediaState → Async Unit → MediaState
handle_media_stream state (resolved stream) = state
handle_media_stream state (rejected name message) = record state { error = message }
handle_media_stream state pending = state

unfoldable pub handle_play : MediaState → Async Unit → MediaState
handle_play state pending = record state { autoplay_error = false }
handle_play state (resolved nothing) = record state { autoplay_error = false }
handle_play state (rejected name message) =
    if name == "NotAllowedError" then record state { autoplay_error = true } else state

unfoldable pub handle_dial : MediaState → Async Unit → MediaState
handle_dial state pending = record state { dial_state = dialling }
handle_dial state (resolved nothing) = record state { dial_state = in_call }
handle_dial state (rejected name message) = record state { dial_state = hung_up }

unfoldable pub media : MediaState → Action → MediaState
media state (media_enumerate a) = handle_enumerate state a
media state (media_audio_constraint_set audio) = record state { audio = audio }
media state (media_video_constraint_set video) = record state { video = video }
media state (media_stream a) = handle_media_stream state a
media state (media_play a) = handle_play state a
media state (call_record status) = record state { record_status = status }
media state (dial a) = handle_dial state a
media state (creator_id_add id) = record state { creator_id = id }
media state socket_connected = record state { socket_connected = true }
media state socket_disconnected = record state { socket_connected = false }
media state hang_up = record state { dial_state = hung_up }
media state other = state

-- The state after a row of actions.
unfoldable pub media_all : List Action → MediaState → MediaState
media_all [] state = state
media_all (a ∷ actions) state = media_all actions (media state a)
