-- ===== src/Reducers/Nicknames.antt =====
-- The nicknames of the users (src/client/reducers/nicknames.ts, src/client/nickname.ts). The page's own user id is a parameter.
pub mod Names
use text.Mathlib.Text.{◌==◌}
use meeting.Prelude.{
  String, List, [], ◌∷◌, Option, none, some, Bool, true, false, not, if◌then◌else◌, ◌>>=◌,
}
use meeting.Prelude.Dict.{Dict, empty, get, put, remove, keys}

-- A key may be there with the value `undefined`.
abbrev pub Nicknames : Type 0
Nicknames = Dict (Option String)

abbrev pub me : String
me = "_me_"

pub data Action : Type 0 where
  peer_remove : String → Action
  hang_up : Action
  nickname_remove : String → Action
  nicknames_set : Dict String → Action
  -- An action of another reducer.
  other : Action

-- state[userId]
unfoldable pub name_of : String → Nicknames → Option String
name_of user_id state = get user_id state >>= λ o. o

unfoldable pub default_state : String → Nicknames
default_state local_nickname = put me (some local_nickname) empty

unfoldable pub remove_nickname : Nicknames → String → Nicknames
remove_nickname state user_id = if not (user_id == me) then remove user_id state else state

unfoldable pub keep_me : Nicknames → Nicknames
keep_me state = put me (name_of me state) empty

-- `nicknames[userId]` is the empty text or not there.
unfoldable pub or_default : Option String → String → String
or_default none user_id = if user_id == me then "You" else user_id
or_default (some nickname) user_id =
    if nickname == "" then (if user_id == me then "You" else user_id) else nickname

unfoldable pub get_nickname : Nicknames → String → String
get_nickname state user_id = or_default (name_of user_id state) user_id

module _ (own_id : String) where
  -- One round of `reduce`; a key of the payload has a value.
  unfoldable pub set_one : Option String → String → Nicknames → Nicknames
  set_one none key obj = obj
  set_one (some value) key obj =
      if key == own_id then put me (some value) obj else put key (some value) obj

  unfoldable pub set_keys : List String → Dict String → Nicknames → Nicknames
  set_keys [] payload obj = obj
  set_keys (key ∷ others) payload obj = set_keys others payload (set_one (get key payload) key obj)

  unfoldable pub nicknames : Nicknames → Action → Nicknames
  nicknames state (peer_remove user_id) = remove user_id state
  nicknames state hang_up = keep_me state
  nicknames state (nickname_remove user_id) = remove_nickname state user_id
  nicknames state (nicknames_set payload) = set_keys (keys payload) payload (keep_me state)
  nicknames state other = state

  unfoldable pub nicknames_all : List Action → Nicknames → Nicknames
  nicknames_all [] state = state
  nicknames_all (a ∷ actions) state = nicknames_all actions (nicknames state a)
