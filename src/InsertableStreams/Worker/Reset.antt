-- ===== src/InsertableStreams/Worker/Reset.antt =====
-- A password that is cleared and set again.
use text.Mathlib.Text.{◌==◌}
use text.Mathlib.TextEquality.{eq_iff}
use meeting.Prelude.{
  ℕ, zero, suc, ◌≡◌, refl, sym, subst, ◌∙◌, String, List, [], ◌∷◌, ◌++◌, Option, none, some, Bool,
  true, false, inl, inr, get_elem?, arith, Bool-cases,
}
use meeting.Prelude.Dict.{get, keys}
use meeting.InsertableStreams.Frames.{Crypto, Frame, dropped, encrypt}
use meeting.InsertableStreams.Worker.{
  DecryptContext, Job, encrypt_key, decrypt_key, update_contexts, Worker, get_user_id, add_job,
  is_current, replace_context, update_decrypt_context, go_on, update_encrypt_context,
  handle_metadata, handle_password, install_decrypt, run_job, settle_job, Event, init, password,
  metadata, encrypt_stream, decrypt_stream, settle, fail, on_event, run, send_frame,
}
use meeting.InsertableStreams.Worker.Rounds.{password_rounds_keep, metadata_rounds_keep}
use meeting.InsertableStreams.Worker.Invariant.{
  Every, Every-append, Every-get_elem?, Every-take_out,
}

module _ (crypto : Crypto) where
  open crypto use {Key}

  abbrev NotEncrypt : Job crypto → Type 0
  NotEncrypt (encrypt_key pw k b) = ⊥
  NotEncrypt (decrypt_key mid object_id k) = Unit
  NotEncrypt update_contexts = Unit

  module _ (secret : String) (secret_set : (secret == "") ≡ false) where
    -- The password is set, and no key for sending is there or on its way.
    abbrev Stuck : Worker crypto → Type 0
    Stuck w =
        (w.encrypt_context.key ≡ none)
        × (w.encrypt_context.password ≡ secret)
        × (w.password ≡ secret)
        × Every NotEncrypt w.pending

    add_job-Stuck :
        (job : Job crypto) (w : Worker crypto)
        → NotEncrypt job
        → Stuck w
        → Stuck (add_job crypto job w)
    unfolding add_job
    add_job-Stuck job w n h = (h.0, h.1, h.2, Every-append NotEncrypt w.pending job h.3 n)

    update_decrypt_context-Stuck :
        (mid user_id : String) (w : Worker crypto)
        → Stuck w
        → Stuck (update_decrypt_context crypto mid user_id w)
    unfolding update_decrypt_context replace_context
    update_decrypt_context-Stuck mid user_id w h =
        let user = get_user_id crypto mid user_id w in
        elim (Bool-cases (is_current crypto (get mid w.decrypt_context_by_mid) user w.password)) [
          | inl e ↦ rw e h
          | inr e ↦ elim (Bool-cases (w.password == "")) [
            | inl f ↦ rw (e, f) h
            | inr f ↦ rw (e, f) (add_job-Stuck _ _ tt h)
          ]
        ]

    go_on-Stuck : (b : Bool) (w : Worker crypto) → Stuck w → Stuck (go_on crypto b w)
    unfolding go_on
    go_on-Stuck true w h = add_job-Stuck update_contexts w tt h
    go_on-Stuck false w h = h

    same_password : (a b : String) → a ≡ secret → b ≡ secret → (a == b) ≡ true
    same_password a b p q = (eq_iff a b).1 (p ∙ sym q)

    update_encrypt_context-Stuck :
        (b : Bool) (w : Worker crypto) → Stuck w → Stuck (update_encrypt_context crypto b w)
    unfolding update_encrypt_context
    update_encrypt_context-Stuck b w h =
        rw (same_password w.encrypt_context.password w.password h.1 h.2) (go_on-Stuck b w h)

    install_decrypt-Stuck :
        (o : Option (DecryptContext crypto)) (mid : String) (object_id : ℕ) (k : Key)
        (w : Worker crypto)
        → Stuck w
        → Stuck (install_decrypt crypto o mid object_id k w)
    unfolding install_decrypt
    install_decrypt-Stuck none mid object_id k w h = h
    install_decrypt-Stuck (some c) mid object_id k w h =
        elim (Bool-cases (meeting.Prelude.◌==◌ c.object_id object_id)) [
          | inl e ↦ rw e h
          | inr e ↦ rw e h
        ]

    run_job-Stuck :
        (job : Job crypto) (w : Worker crypto)
        → NotEncrypt job
        → Stuck w
        → Stuck (run_job crypto job w)
    unfolding run_job
    run_job-Stuck (encrypt_key pw k b) w n h = absurd n
    run_job-Stuck (decrypt_key mid object_id k) w n h =
        install_decrypt-Stuck (get mid w.decrypt_context_by_mid) mid object_id k w h
    run_job-Stuck update_contexts w n h =
        password_rounds_keep crypto Stuck update_decrypt_context-Stuck
          (keys w.decrypt_context_by_mid) w h

    settle_job-Stuck :
        (o : Option (Job crypto)) (i : ℕ) (w : Worker crypto)
        → get_elem? w.pending i ≡ o
        → Stuck w
        → Stuck (settle_job crypto o i w)
    unfolding settle_job
    settle_job-Stuck none i w e h = h
    settle_job-Stuck (some job) i w e h =
        run_job-Stuck job _ (Every-get_elem? NotEncrypt w.pending i job h.3 e)
          (h.0, h.1, h.2, Every-take_out crypto NotEncrypt i w.pending h.3)

    -- No other password arrives.
    abbrev pub SamePassword : Event crypto → Type 0
    SamePassword (password pw) = pw ≡ secret
    SamePassword e = Unit

    on_event-Stuck :
        (e : Event crypto) (w : Worker crypto)
        → SamePassword e
        → Stuck w
        → Stuck (on_event crypto e w)
    unfolding on_event handle_password handle_metadata
    on_event-Stuck (init u v) w n h = h
    on_event-Stuck (password pw) w n h = update_encrypt_context-Stuck true _ (h.0, h.1, n, h.3)
    on_event-Stuck (metadata m) w n h =
        metadata_rounds_keep crypto Stuck update_decrypt_context-Stuck (λ mid v g. g)
          (keys w.decrypt_context_by_mid) _ h
    on_event-Stuck encrypt_stream w n h = update_encrypt_context-Stuck false w h
    on_event-Stuck (decrypt_stream mid user_id) w n h = update_decrypt_context-Stuck mid user_id w h
    on_event-Stuck (settle i) w n h = settle_job-Stuck (get_elem? w.pending i) i w refl h
    on_event-Stuck (fail i) w n h =
        (h.0, h.1, h.2, Every-take_out crypto NotEncrypt i w.pending h.3)

    run-Stuck :
        (events : List (Event crypto)) (w : Worker crypto)
        → Every SamePassword events
        → Stuck w
        → Stuck (run crypto events w)
    unfolding run
    run-Stuck [] w n h = h
    run-Stuck (e ∷ events) w n h = run-Stuck events _ n.1 (on_event-Stuck e w n.0 h)

    -- Clearing the password and setting the same one again.
    abbrev pub reset : List (Event crypto)
    reset = password "" ∷ password secret ∷ []

    -- The first of the two leaves the password of the encryption context.
    cleared :
        (w : Worker crypto)
        → w.encrypt_context.password ≡ secret
        → handle_password crypto "" w
          ≡ go_on crypto true (record w {
            password = "";
            encrypt_context = record w.encrypt_context { key = none };
          })
    unfolding handle_password update_encrypt_context
    cleared w e =
        let other : (w.encrypt_context.password == "") ≡ false =
          subst (λ t. (t == "") ≡ false) (sym e) secret_set in
        rw other refl

    reset-Stuck :
        (w : Worker crypto)
        → w.encrypt_context.password ≡ secret
        → w.pending ≡ []
        → Stuck (run crypto reset w)
    unfolding run on_event handle_password go_on add_job
    reset-Stuck w e p =
        subst (λ v. Stuck (handle_password crypto secret v)) (sym (cleared w e))
          (update_encrypt_context-Stuck true _ (
            refl,
            e,
            refl,
            subst (λ l. Every NotEncrypt (l ++ (update_contexts ∷ []))) (sym p) (tt, tt),
          ))

    -- A worker whose key belongs to a password that is not empty, with no work pending, is sent the empty
    -- password and then the same password again. From then on it drops each frame that is to be sent,
    -- whatever else arrives, as long as no other password does.
    pub run-reset :
        (w : Worker crypto)
        → w.encrypt_context.password ≡ secret
        → w.pending ≡ []
        → (events : List (Event crypto)) → Every SamePassword events
        → (iv : List ℕ) (frame : Frame)
        → send_frame crypto (run crypto events (run crypto reset w)) iv frame ≡ dropped
    unfolding send_frame encrypt
    run-reset w e p events n iv frame =
        let h = run-Stuck events (run crypto reset w) n (reset-Stuck w e p) in
        rw (h.0, h.2, secret_set)
