-- ===== src/Reducers/Nicknames/Names.antt =====
-- Which names are kept.
use text.Mathlib.Text.{◌==◌}
use text.Mathlib.TextEquality.{eq_iff}
use meeting.Prelude.{
  ◌≡◌, refl, ap, subst, ◌∙◌, String, List, [], ◌∷◌, Option, none, some, true, false, if◌then◌else◌,
  inl, inr, Bool-cases, arith,
}
use meeting.Prelude.Dict.{
  Dict, empty, get, put, keys, has_key, get-put, get-remove, get-empty, get-keys,
}
use meeting.Reducers.Nicknames.{
  Nicknames, me, Action, peer_remove, hang_up, nickname_remove, nicknames_set, other, name_of,
  remove_nickname, keep_me, set_one, set_keys, nicknames, nicknames_all,
}

-- The value of a payload, as the state has it.
abbrev pub given : Option String → Option (Option String)
given none = none
given (some value) = some (some value)

module _ (own_id : String) where
  -- The user has a name.
  abbrev pub HasMe : Nicknames → Type 0
  HasMe state = (name : String) × (get me state ≡ some (some name))

  put-HasMe :
      (k value : String) (state : Nicknames) → HasMe state → HasMe (put k (some value) state)
  put-HasMe k value state (name, e) = elim (Bool-cases (k == me)) [
    | inl h ↦ (value, get-put k me (some value) state ∙ rw h refl)
    | inr h ↦ (name, get-put k me (some value) state ∙ rw h e)
  ]

  set_one-HasMe :
      (o : Option String) (k : String) (state : Nicknames)
      → HasMe state
      → HasMe (set_one own_id o k state)
  unfolding set_one
  set_one-HasMe none k state h = h
  set_one-HasMe (some value) k state h = elim (Bool-cases (k == own_id)) [
    | inl e ↦ rw e (put-HasMe me value state h)
    | inr e ↦ rw e (put-HasMe k value state h)
  ]

  set_keys-HasMe :
      (l : List String) (payload : Dict String) (state : Nicknames)
      → HasMe state
      → HasMe (set_keys own_id l payload state)
  unfolding set_keys
  set_keys-HasMe [] payload state h = h
  set_keys-HasMe (k ∷ ks) payload state h =
      set_keys-HasMe ks payload _ (set_one-HasMe (get k payload) k state h)

  keep_me-HasMe : (state : Nicknames) → HasMe state → HasMe (keep_me state)
  unfolding keep_me name_of
  keep_me-HasMe state (name, e) = (name, get-put me me _ empty ∙ rw e refl)

  -- No peer has the key of the user.
  abbrev pub NotMe : Action → Type 0
  NotMe (peer_remove user_id) = (user_id == me) ≡ false
  NotMe a = Unit

  abbrev pub NoneMe : List Action → Type 0
  NoneMe [] = Unit
  NoneMe (a ∷ actions) = NotMe a × NoneMe actions

  nicknames-HasMe :
      (a : Action) (state : Nicknames) → NotMe a → HasMe state → HasMe (nicknames own_id state a)
  unfolding nicknames remove_nickname
  nicknames-HasMe (peer_remove u) state n (name, e) = (name, get-remove u me state ∙ rw n e)
  nicknames-HasMe hang_up state n h = keep_me-HasMe state h
  nicknames-HasMe (nickname_remove u) state n (name, e) = elim (Bool-cases (u == me)) [
    | inl h ↦ rw h (name, e)
    | inr h ↦ rw h (name, get-remove u me state ∙ rw h e)
  ]
  nicknames-HasMe (nicknames_set payload) state n h =
      set_keys-HasMe (keys payload) payload _ (keep_me-HasMe state h)
  nicknames-HasMe other state n h = h

  -- The user's own name stays set through any row of actions in which no removed peer has the key of the
  -- user: peers, nicknames and lists of nicknames that come and go, and calls that end.
  pub nicknames_all-HasMe :
      (actions : List Action) (state : Nicknames)
      → NoneMe actions
      → HasMe state
      → HasMe (nicknames_all own_id actions state)
  unfolding nicknames_all
  nicknames_all-HasMe [] state n h = h
  nicknames_all-HasMe (a ∷ actions) state n h =
      nicknames_all-HasMe actions _ n.1 (nicknames-HasMe a state n.0 h)

  abbrev or_kept : Option String → Option (Option String) → Option (Option String)
  or_kept none b = b
  or_kept (some value) b = some (some value)

  or_kept_twice :
      (a : Option String) (b : Option (Option String)) → or_kept a (or_kept a b) ≡ or_kept a b
  or_kept_twice none b = refl
  or_kept_twice (some a) b = refl

  or_kept-none : (a : Option String) → or_kept a none ≡ given a
  or_kept-none none = refl
  or_kept-none (some a) = refl

  module _ (k : String) (not_me : (me == k) ≡ false) where
    set_one-own :
        (o : Option String) (j : String) (obj : Nicknames)
        → (k == own_id) ≡ true
        → get k (set_one own_id o j obj) ≡ get k obj
    unfolding set_one
    set_one-own none j obj e = refl
    set_one-own (some value) j obj e = elim (Bool-cases (j == own_id)) [
      | inl h ↦ rw h (get-put me k (some value) obj ∙ rw not_me refl)
      | inr h ↦ rw h (
          get-put j k (some value) obj
          ∙ ground (arith, eq_iff j own_id, eq_iff k own_id, eq_iff j k))
    ]

    set_keys-own :
        (l : List String) (payload : Dict String) (obj : Nicknames)
        → (k == own_id) ≡ true
        → get k (set_keys own_id l payload obj) ≡ get k obj
    unfolding set_keys
    set_keys-own [] payload obj e = refl
    set_keys-own (j ∷ js) payload obj e =
        set_keys-own js payload _ e ∙ set_one-own (get j payload) j obj e

    set_one-get :
        (o : Option String) (j : String) (obj : Nicknames)
        → (k == own_id) ≡ false
        → get k (set_one own_id o j obj) ≡ (if j == k then or_kept o (get k obj) else get k obj)
    unfolding set_one
    set_one-get none j obj e = ground arith
    set_one-get (some value) j obj e = elim (Bool-cases (j == own_id)) [
      | inl h ↦ rw h (
          get-put me k (some value) obj
          ∙ ground (arith, not_me, eq_iff j own_id, eq_iff k own_id, eq_iff j k))
      | inr h ↦ rw h (get-put j k (some value) obj)
    ]

    set_keys-get :
        (l : List String) (payload : Dict String) (obj : Nicknames)
        → (k == own_id) ≡ false
        → get k (set_keys own_id l payload obj)
          ≡ (if has_key k l then or_kept (get k payload) (get k obj) else get k obj)
    unfolding set_keys has_key
    set_keys-get [] payload obj e = refl
    set_keys-get (j ∷ js) payload obj e =
        let one = set_one-get (get j payload) j obj e in
        let new = set_one own_id (get j payload) j obj in
        let rest = set_keys-get js payload new e in
        elim (Bool-cases (j == k)) [
          | inl same ↦
              let here : get k new ≡ or_kept (get k payload) (get k obj) =
                subst (λ i. get k new ≡ or_kept (get i payload) (get k obj)) ((eq_iff j k).0 same)
                  (rw same at one) in
              elim (Bool-cases (has_key k js)) [
                | inl h ↦ rw same (
                    rw h at rest
                    ∙ ap (or_kept (get k payload)) here
                    ∙ or_kept_twice (get k payload) (get k obj))
                | inr h ↦ rw same (rw h at rest ∙ here)
              ]
          | inr differ ↦ rw differ (rest ∙ rw (rw differ at one) refl)
        ]

    -- A list of nicknames from the server replaces the names of the other users: after it, a key other than
    -- `_me_` has the name in the list, the user's own id has none, and no other name is kept.
    pub nicknames-set :
        (payload : Dict String) (state : Nicknames)
        → get k (nicknames own_id state (nicknames_set payload))
          ≡ (if k == own_id then none else given (get k payload))
    unfolding nicknames keep_me
    nicknames-set payload state =
        let kept : get k (put me (name_of me state) empty) ≡ none =
          get-put me k (name_of me state) empty ∙ rw not_me (get-empty k) in
        elim (Bool-cases (k == own_id)) [
          | inl own ↦
              rw own
                (set_keys-own (keys payload) payload (put me (name_of me state) empty) own ∙ kept)
          | inr other_id ↦
              let e =
                set_keys-get (keys payload) payload (put me (name_of me state) empty) other_id in
              elim (get-keys k payload) [
                | inl absent ↦
                    rw (other_id, absent)
                      (elim (Bool-cases (has_key k (keys payload))) [
                        | inl h ↦ rw (h, absent) at e ∙ kept
                        | inr h ↦ rw h at e ∙ kept
                      ])
                | inr present ↦ rw other_id (
                    rw present at e
                    ∙ ap (or_kept (get k payload)) kept
                    ∙ or_kept-none (get k payload))
              ]
        ]
