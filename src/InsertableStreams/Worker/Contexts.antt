-- ===== src/InsertableStreams/Worker/Contexts.antt =====
-- Changes of the decryption contexts keep the invariant.
use mathlib.Core.Option.{some-injective}
use text.Mathlib.Text.{◌==◌}
use meeting.Prelude.{
  ℕ, zero, suc, ◌≤◌, ◌<◌, ◌≡◌, refl, sym, ap, subst, ◌∙◌, String, List, [], ◌∷◌, ◌++◌, Option, none,
  some, Bool, true, false, ◌⊎◌, inl, inr, get_elem?, if◌then◌else◌, arith, Bool-cases, Option-cases,
  ==_iff,
}
use meeting.Prelude.Dict.{get, put, remove, get-remove}
use meeting.InsertableStreams.Frames.{Crypto}
use meeting.InsertableStreams.Worker.{
  DecryptContext, Job, decrypt_key, Worker, create_key, get_user_id, add_job, is_current,
  replace_context, update_decrypt_context, install_decrypt,
}
use meeting.InsertableStreams.Worker.Invariant.{
  Every-append, ContextFits, JobFits, Fits, jobs_stay, put_cases, fresh, put-fresh-AllFit,
  put-fresh-Follows,
}

module _ (crypto : Crypto) (url : String) where
  open crypto use {Key}

  pub add_job-Fits :
      (job : Job crypto) (w : Worker crypto)
      → Fits crypto url w
      → JobFits crypto w.url w.next_object w.decrypt_context_by_mid job
      → Fits crypto url (add_job crypto job w)
  unfolding add_job
  add_job-Fits job w h j = (
    h.0,
    Every-append (JobFits crypto w.url w.next_object w.decrypt_context_by_mid) w.pending job h.1 j,
    h.2,
  )

  replace_context-Fits :
      (mid user_id : String) (w : Worker crypto)
      → Fits crypto url w
      → Fits crypto url (replace_context crypto mid user_id w)
  unfolding replace_context
  replace_context-Fits mid user_id w h =
      let all =
        put-fresh-AllFit crypto w.url w.next_object mid user_id w.password w.decrypt_context_by_mid
          h.0 in
      let jobs =
        jobs_stay crypto w.url w.next_object (suc w.next_object) w.decrypt_context_by_mid _
          w.pending (omega arith)
          (put-fresh-Follows crypto w.next_object mid user_id w.password w.decrypt_context_by_mid)
          h.1 in
      elim (Bool-cases (w.password == "")) [
        | inl e ↦ rw e (all, jobs, h.2)
        | inr e ↦ rw e (
            add_job-Fits _ _ (all, jobs, h.2)
              (
                omega arith,
                λ c f i.
                    elim (put_cases crypto mid mid (fresh crypto w.next_object user_id w.password) c
                      w.decrypt_context_by_mid f) [
                        | inl (_, p) ↦
                            subst
                              (λ x.
                                create_key crypto w.password w.url user_id
                                ≡ create_key crypto x.password w.url x.user_id)
                              p refl
                        | inr g ↦ absurd (omega (arith, (h.0 mid c g).0))
                      ],
              ))
      ]

  pub update_decrypt_context-Fits :
      (mid user_id : String) (w : Worker crypto)
      → Fits crypto url w
      → Fits crypto url (update_decrypt_context crypto mid user_id w)
  unfolding update_decrypt_context
  update_decrypt_context-Fits mid user_id w h =
      let user = get_user_id crypto mid user_id w in
      elim (Bool-cases (is_current crypto (get mid w.decrypt_context_by_mid) user w.password)) [
        | inl e ↦ rw e h
        | inr e ↦ rw e (replace_context-Fits mid user w h)
      ]

  pub remove_context-Fits :
      (mid : String) (w : Worker crypto)
      → Fits crypto url w
      → Fits crypto url (record w { decrypt_context_by_mid = remove mid w.decrypt_context_by_mid })
  remove_context-Fits mid w h =
      let kept : (i : String) (c : DecryptContext crypto)
          → get i (remove mid w.decrypt_context_by_mid) ≡ some c
          → get i w.decrypt_context_by_mid ≡ some c =
        λ i c e. ground (arith, get-remove mid i w.decrypt_context_by_mid, e) in
      (
        λ i c e. h.0 i c (kept i c e),
        jobs_stay crypto w.url w.next_object w.next_object w.decrypt_context_by_mid _ w.pending
            (omega arith) (λ i c e. inr (c, kept i c e, refl, refl, refl)) h.1,
        h.2,
      )

  -- The key of a context, replaced by one that fits.
  put_key-Fits :
      (mid : String) (k : Key) (c : DecryptContext crypto) (w : Worker crypto)
      → get mid w.decrypt_context_by_mid ≡ some c
      → k ≡ create_key crypto c.password w.url c.user_id
      → Fits crypto url w
      → Fits crypto url (record w {
        decrypt_context_by_mid = put mid (record c { key = some k }) w.decrypt_context_by_mid;
      })
  put_key-Fits mid k c w e fit h =
      let new : DecryptContext crypto = record c { key = some k } in
      (
        λ i d f. elim (put_cases crypto mid i new d w.decrypt_context_by_mid f) [
          | inl (_, p) ↦
              subst (ContextFits crypto w.url w.next_object) p
                ((h.0 mid c e).0, λ l q. sym (some-injective k l q) ∙ fit)
          | inr g ↦ h.0 i d g
        ],
        jobs_stay crypto w.url w.next_object w.next_object w.decrypt_context_by_mid _ w.pending
            (omega arith)
            (λ i d f. elim (put_cases crypto mid i new d w.decrypt_context_by_mid f) [
              | inl (same, p) ↦ inr (
                c,
                subst (λ j. get j w.decrypt_context_by_mid ≡ some c) same e,
                ap (λ x. x.object_id) p,
                ap (λ x. x.password) p,
                ap (λ x. x.user_id) p,
              )
              | inr g ↦ inr (d, g, refl, refl, refl)
            ])
            h.1,
        h.2,
      )

  pub install_decrypt-Fits :
      (o : Option (DecryptContext crypto)) (mid : String) (object_id : ℕ) (k : Key)
      (w : Worker crypto)
      → get mid w.decrypt_context_by_mid ≡ o
      → JobFits crypto w.url w.next_object w.decrypt_context_by_mid (decrypt_key mid object_id k)
      → Fits crypto url w
      → Fits crypto url (install_decrypt crypto o mid object_id k w)
  unfolding install_decrypt
  install_decrypt-Fits none mid object_id k w e j h = h
  install_decrypt-Fits (some c) mid object_id k w e j h =
      elim (Bool-cases (meeting.Prelude.◌==◌ c.object_id object_id)) [
        | inl same ↦
            rw same (put_key-Fits mid k c w e (j.1 c e ((==_iff c.object_id object_id).0 same)) h)
        | inr other ↦ rw other h
      ]
