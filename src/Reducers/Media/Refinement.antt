-- ===== src/Reducers/Media/Refinement.antt =====
-- The parts of the state that say how the call stands, each by its own last action.
use text.Mathlib.Text.{◌==◌}
use meeting.Prelude.{◌≡◌, refl, ap, ◌∙◌, List, [], ◌∷◌, Bool, true, false, Bool-cases, inl, inr}
use meeting.Reducers.Media.{
  DialState, hung_up, dialling, in_call, MediaState, pending, resolved, rejected, Action,
  media_enumerate, media_audio_constraint_set, media_video_constraint_set, media_stream, media_play,
  dial, call_record, creator_id_add, socket_connected, socket_disconnected, hang_up, other,
  handle_enumerate, handle_media_stream, handle_play, handle_dial, media, media_all,
}

-- How the call stands.
pub record Call : Type 0 where
  pub dial_state : DialState
  pub connected : Bool
  pub recording : Bool

abbrev pub call_of : MediaState → Call
call_of state = record {
  dial_state = state.dial_state;
  connected = state.socket_connected;
  recording = state.record_status;
}

-- What one action does to it.
abbrev pub step : Action → Call → Call
step (dial pending) c = record c { dial_state = dialling }
step (dial (resolved nothing)) c = record c { dial_state = in_call }
step (dial (rejected name message)) c = record c { dial_state = hung_up }
step hang_up c = record c { dial_state = hung_up }
step socket_connected c = record c { connected = true }
step socket_disconnected c = record c { connected = false }
step (call_record status) c = record c { recording = status }
step _ c = c

abbrev pub steps : List Action → Call → Call
steps [] c = c
steps (a ∷ actions) c = steps actions (step a c)

call_of-media : (a : Action) (state : MediaState) → call_of (media state a) ≡ step a (call_of state)
unfolding media handle_enumerate handle_media_stream handle_play handle_dial
call_of-media (media_enumerate pending) state = refl
call_of-media (media_enumerate (resolved d)) state = refl
call_of-media (media_enumerate (rejected n m)) state = refl
call_of-media (media_audio_constraint_set c) state = refl
call_of-media (media_video_constraint_set c) state = refl
call_of-media (media_stream pending) state = refl
call_of-media (media_stream (resolved d)) state = refl
call_of-media (media_stream (rejected n m)) state = refl
call_of-media (media_play pending) state = refl
call_of-media (media_play (resolved d)) state = refl
call_of-media (media_play (rejected n m)) state = elim (Bool-cases (n == "NotAllowedError")) [
  | inl e ↦ rw e refl
  | inr e ↦ rw e refl
]
call_of-media (dial pending) state = refl
call_of-media (dial (resolved d)) state = refl
call_of-media (dial (rejected n m)) state = refl
call_of-media (call_record s) state = refl
call_of-media (creator_id_add s) state = refl
call_of-media socket_connected state = refl
call_of-media socket_disconnected state = refl
call_of-media hang_up state = refl
call_of-media other state = refl

-- After any row of actions, whether the page dials or is in a call, whether the socket is connected and
-- whether the call is recorded are what a machine gives that has these three alone: actions about devices,
-- streams and playing never change them.
pub call_of-media_all :
    (actions : List Action) (state : MediaState)
    → call_of (media_all actions state) ≡ steps actions (call_of state)
unfolding media_all
call_of-media_all [] state = refl
call_of-media_all (a ∷ actions) state =
    call_of-media_all actions (media state a) ∙ ap (steps actions) (call_of-media a state)
