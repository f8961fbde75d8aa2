-- ===== src/Reducers/WindowStates/Toggle.antt =====
-- Toggling a window.
use text.Mathlib.Text.{◌==◌}
use text.Mathlib.TextEquality.{eq_iff}
use meeting.Prelude.{
  ◌≡◌, refl, ap, ◌∙◌, String, Option, none, some, true, if◌then◌else◌, inl, inr, Bool-cases,
}
use meeting.Prelude.Dict.{Dict, get, get-put, get-remove}
use meeting.Reducers.WindowStates.{
  WindowState, minimized, get_stream_key, unminimize, minimize, toggle, minimize_toggle,
  toggle_action, window_states,
}

abbrev pub opposite : Option WindowState → Option WindowState
opposite none = some minimized
opposite (some w) = none

opposite_twice : (o : Option WindowState) → opposite (opposite o) ≡ o
opposite_twice none = refl
opposite_twice (some minimized) = refl

toggle-get :
    (o : Option WindowState) (key j : String) (state : Dict WindowState)
    → get j (toggle o key state) ≡ (if key == j then opposite o else get j state)
unfolding toggle minimize unminimize
toggle-get none key j state = get-put key j minimized state
toggle-get (some w) key j state = get-remove key j state

-- A toggle changes one window, to the opposite, and leaves all windows with another key; two toggles of one
-- window leave every window as it was.
pub window_states-toggle :
    (user_id : String) (stream_id : Option String) (state : Dict WindowState) (j : String)
    → let once = window_states state (toggle_action user_id stream_id) in
      (get j once
        ≡ (if get_stream_key user_id stream_id == j then opposite (get j state) else get j state))
      × (get j (window_states once (toggle_action user_id stream_id)) ≡ get j state)
unfolding window_states minimize_toggle
window_states-toggle user_id stream_id state j =
    let key = get_stream_key user_id stream_id in
    let once = toggle (get key state) key state in
    let first = toggle-get (get key state) key j state in
    let at_key = toggle-get (get key state) key key state in
    let second = toggle-get (get key once) key j once in
    let reflexive : (key == key) ≡ true = (eq_iff key key).1 refl in
    elim (Bool-cases (key == j)) [
      | inl same ↦
          let e = (eq_iff key j).0 same in
          (
            rw same (rw same at first ∙ ap (λ i. opposite (get i state)) e),
            rw same at second
                ∙ ap opposite (rw reflexive at at_key)
                ∙ opposite_twice (get key state)
                ∙ ap (λ i. get i state) e,
          )
      | inr differ ↦ (rw differ (rw differ at first), rw differ at second ∙ rw differ at first)
    ]
