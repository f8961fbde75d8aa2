-- ===== src/InsertableStreams/Worker/Keys.antt =====
-- The keys of the decryption contexts: a key is that of the password and the user of its context, whatever
-- the order of the messages and of the platform's answers.
use text.Mathlib.Text.{◌==◌}
use meeting.Prelude.{
  ℕ, ◌≡◌, refl, ap, ◌∙◌, String, List, [], ◌∷◌, Option, none, some, Bool, true, false, inl, inr,
  get_elem?, Bool-cases,
}
use meeting.Prelude.Dict.{get, keys}
use meeting.InsertableStreams.Frames.{Crypto}
use meeting.InsertableStreams.Worker.{
  DecryptContext, Job, encrypt_key, decrypt_key, update_contexts, Worker, new_worker, create_key,
  go_on, update_encrypt_context, handle_metadata, handle_password, install_encrypt, run_job,
  take_out, settle_job, Event, init, password, metadata, encrypt_stream, decrypt_stream, settle,
  fail, on_event, run,
}
use meeting.InsertableStreams.Worker.Rounds.{password_rounds_keep, metadata_rounds_keep}
use meeting.InsertableStreams.Worker.Invariant.{
  Every, Every-get_elem?, JobFits, Fits, Every-take_out,
}
use meeting.InsertableStreams.Worker.Contexts.{
  add_job-Fits, update_decrypt_context-Fits, remove_context-Fits, install_decrypt-Fits,
}

module _ (crypto : Crypto) (url : String) where
  open crypto use {Key}

  go_on-Fits :
      (b : Bool) (w : Worker crypto) → Fits crypto url w → Fits crypto url (go_on crypto b w)
  unfolding go_on
  go_on-Fits true w h = add_job-Fits crypto url update_contexts w h tt
  go_on-Fits false w h = h

  update_encrypt_context-Fits :
      (b : Bool) (w : Worker crypto)
      → Fits crypto url w
      → Fits crypto url (update_encrypt_context crypto b w)
  unfolding update_encrypt_context
  update_encrypt_context-Fits b w h = elim (Bool-cases (w.encrypt_context.password == w.password)) [
    | inl same ↦ rw same (go_on-Fits b w h)
    | inr other ↦ elim (Bool-cases (w.password == "")) [
      | inl none_set ↦ rw (other, none_set) (go_on-Fits b _ h)
      | inr set ↦ rw (other, set) (add_job-Fits crypto url _ _ h tt)
    ]
  ]

  install_encrypt-Fits :
      (pw : String) (k : Key) (w : Worker crypto)
      → Fits crypto url w
      → Fits crypto url (install_encrypt crypto pw k w)
  unfolding install_encrypt
  install_encrypt-Fits pw k w h = elim (Bool-cases (w.encrypt_context.password == pw)) [
    | inl same ↦ rw same h
    | inr other ↦ rw other h
  ]

  run_job-Fits :
      (job : Job crypto) (w : Worker crypto)
      → JobFits crypto w.url w.next_object w.decrypt_context_by_mid job
      → Fits crypto url w
      → Fits crypto url (run_job crypto job w)
  unfolding run_job
  run_job-Fits (encrypt_key pw k b) w j h = go_on-Fits b _ (install_encrypt-Fits pw k w h)
  run_job-Fits (decrypt_key mid object_id k) w j h =
      install_decrypt-Fits crypto url (get mid w.decrypt_context_by_mid) mid object_id k w refl j h
  run_job-Fits update_contexts w j h =
      password_rounds_keep crypto (Fits crypto url) (update_decrypt_context-Fits crypto url)
        (keys w.decrypt_context_by_mid) w h

  take_out-Fits :
      (i : ℕ) (w : Worker crypto)
      → Fits crypto url w
      → Fits crypto url (record w { pending = take_out crypto i w.pending })
  take_out-Fits i w h = (
    h.0,
    Every-take_out crypto (JobFits crypto w.url w.next_object w.decrypt_context_by_mid) i w.pending
        h.1,
    h.2,
  )

  settle_job-Fits :
      (o : Option (Job crypto)) (i : ℕ) (w : Worker crypto)
      → get_elem? w.pending i ≡ o
      → Fits crypto url w
      → Fits crypto url (settle_job crypto o i w)
  unfolding settle_job
  settle_job-Fits none i w e h = h
  settle_job-Fits (some job) i w e h =
      run_job-Fits job _
        (Every-get_elem? (JobFits crypto w.url w.next_object w.decrypt_context_by_mid) w.pending i
          job h.1 e)
        (take_out-Fits i w h)

  -- The page address of the worker is set once, by its first message.
  abbrev pub NotInit : Event crypto → Type 0
  NotInit (init u v) = ⊥
  NotInit e = Unit

  on_event-Fits :
      (e : Event crypto) (w : Worker crypto)
      → NotInit e
      → Fits crypto url w
      → Fits crypto url (on_event crypto e w)
  unfolding on_event handle_password handle_metadata
  on_event-Fits (init u v) w n h = absurd n
  on_event-Fits (password pw) w n h = update_encrypt_context-Fits true _ h
  on_event-Fits (metadata m) w n h =
      metadata_rounds_keep crypto (Fits crypto url) (update_decrypt_context-Fits crypto url)
        (remove_context-Fits crypto url) (keys w.decrypt_context_by_mid) _ h
  on_event-Fits encrypt_stream w n h = update_encrypt_context-Fits false w h
  on_event-Fits (decrypt_stream mid user_id) w n h =
      update_decrypt_context-Fits crypto url mid user_id w h
  on_event-Fits (settle i) w n h = settle_job-Fits (get_elem? w.pending i) i w refl h
  on_event-Fits (fail i) w n h = take_out-Fits i w h

  run-Fits :
      (events : List (Event crypto)) (w : Worker crypto)
      → Every NotInit events
      → Fits crypto url w
      → Fits crypto url (run crypto events w)
  unfolding run
  run-Fits [] w n h = h
  run-Fits (e ∷ events) w n h = run-Fits events _ n.1 (on_event-Fits e w n.0 h)

  -- The worker after its first message.
  abbrev pub started : String → Worker crypto
  unfolding on_event
  started user_id = on_event crypto (init url user_id) (new_worker crypto)

  started-Fits : (user_id : String) → Fits crypto url (started user_id)
  unfolding get on_event
  started-Fits user_id = (λ mid c e. cc, tt, refl)

  -- A worker is started with a page address and a user id, and then takes any row of messages other
  -- than a second `init`, with the platform's answers in any order and some of them refusals. Then a key
  -- in the decryption context of a mid is the key of the password and the user in that context.
  pub run_keys :
      (user_id : String) (events : List (Event crypto))
      → Every NotInit events
      → (mid : String) (c : DecryptContext crypto) (k : Key)
      → get mid (run crypto events (started user_id)).decrypt_context_by_mid ≡ some c
      → c.key ≡ some k
      → k ≡ create_key crypto c.password url c.user_id
  run_keys user_id events n mid c k e f =
      let h = run-Fits events (started user_id) n (started-Fits user_id) in
      (h.0 mid c e).1 k f ∙ ap (λ u. create_key crypto c.password u c.user_id) h.2
