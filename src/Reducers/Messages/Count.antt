-- ===== src/Reducers/Messages/Count.antt =====
-- The count of messages against the list.
use meeting.Prelude.{
  ℕ, ◌+◌, ◌≡◌, refl, String, List, [], ◌∷◌, ◌++◌, Option, none, some, Bool, true, false, arith,
}
use meeting.Reducers.Messages.{
  Message, MessagesState, default_state, Payload, text, file, MessageType, Action, notify,
  message_add, message_send, convert_notification_to_message, message_of, handle_message, messages,
  messages_all,
}

abbrev weight : Option Bool → ℕ
weight (some true) = 0
weight (some false) = 1
weight none = 1

-- The number of messages that are not the system's.
abbrev pub counted : List Message → ℕ
counted [] = 0
counted (m ∷ ms) = weight m.system + counted ms

counted-append :
    (ms : List Message) (m : Message) → counted (ms ++ (m ∷ [])) ≡ counted ms + weight m.system
counted-append [] m = omega arith
counted-append (x ∷ ms) m = omega (arith, counted-append ms m)

module _ (to_locale_string : String → String) where
  weight_of : (m : MessageType) (p : Payload) → weight (message_of to_locale_string m p).system ≡ 1
  unfolding message_of
  weight_of m (text t) = refl
  weight_of m (file f) = refl

  messages-count :
      (a : Action) (state : MessagesState)
      → state.count ≡ counted state.list
      → (messages to_locale_string state a).count ≡ counted (messages to_locale_string state a).list
  unfolding messages convert_notification_to_message handle_message
  messages-count (notify n now) state h =
      omega (arith, h, counted-append state.list (convert_notification_to_message n now))
  messages-count (message_add m) state h = omega (
    arith,
    h,
    weight_of m m.payload,
    counted-append state.list (message_of to_locale_string m m.payload),
  )
  messages-count (message_send m) state h = h

  messages_all-count :
      (actions : List Action) (state : MessagesState)
      → state.count ≡ counted state.list
      → (messages_all to_locale_string actions state).count
        ≡ counted (messages_all to_locale_string actions state).list
  unfolding messages_all
  messages_all-count [] state h = h
  messages_all-count (a ∷ actions) state h =
      messages_all-count actions (messages to_locale_string state a) (messages-count a state h)

  -- After any row of actions from the empty list, the count is the number of the messages in the list that
  -- are not the system's.
  pub messages_count :
      (actions : List Action)
      → (messages_all to_locale_string actions default_state).count
        ≡ counted (messages_all to_locale_string actions default_state).list
  messages_count actions = messages_all-count actions default_state refl
