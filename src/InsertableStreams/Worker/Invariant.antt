-- ===== src/InsertableStreams/Worker/Invariant.antt =====
-- The invariant of the decryption contexts and of the pending work, and when a change of the contexts
-- keeps it.
use mathlib.Core.Option.{some-injective}
use text.Mathlib.Text.{◌==◌}
use text.Mathlib.TextEquality.{eq_iff}
use meeting.Prelude.{
  ℕ, zero, suc, ◌≤◌, ◌<◌, ◌≡◌, refl, sym, subst, ◌∙◌, String, List, [], ◌∷◌, ◌++◌, none, some, ◌⊎◌,
  inl, inr, get_elem?, arith, Bool-cases,
}
use meeting.Prelude.Dict.{Dict, get, put, get-put}
use meeting.InsertableStreams.Frames.{Crypto}
use meeting.InsertableStreams.Worker.{
  DecryptContext, Job, encrypt_key, decrypt_key, update_contexts, Worker, create_key, take_out,
}

abbrev pub Every {ℓ κ} : {A : Type ℓ} → (A → Type κ) → List A → Type κ
Every P [] = Unit
Every P (x ∷ xs) = P x × Every P xs

module _ {ℓ κ} {A : Type ℓ} (P : A → Type κ) where
  pub Every-append : (xs : List A) (x : A) → Every P xs → P x → Every P (xs ++ (x ∷ []))
  Every-append [] x h p = (p, tt)
  Every-append (y ∷ ys) x h p = (h.0, Every-append ys x h.1 p)

  pub Every-get_elem? : (xs : List A) (i : ℕ) (x : A) → Every P xs → get_elem? xs i ≡ some x → P x
  Every-get_elem? [] i x h e = cc
  Every-get_elem? (y ∷ ys) zero x h e = subst P (some-injective y x e) h.0
  Every-get_elem? (y ∷ ys) (suc i) x h e = Every-get_elem? ys i x h.1 e

pub Every-map {ℓ κ μ} :
    {A : Type ℓ} {P : A → Type κ} {Q : A → Type μ} (xs : List A)
    → ((x : A) → P x → Q x)
    → Every P xs
    → Every Q xs
Every-map [] f h = tt
Every-map (x ∷ xs) f h = (f x h.0, Every-map xs f h.1)

module _ (crypto : Crypto) where
  open crypto use {Key}

  -- The two parts of the invariant, at a page address and a number of contexts made.
  abbrev pub ContextFits : String → ℕ → DecryptContext crypto → Type 0
  ContextFits url n c =
      (c.object_id < n)
      × ((k : Key) → c.key ≡ some k → k ≡ create_key crypto c.password url c.user_id)

  abbrev pub JobFits : String → ℕ → Dict (DecryptContext crypto) → Job crypto → Type 0
  JobFits url n contexts (encrypt_key p k b) = Unit
  JobFits url n contexts (decrypt_key mid object_id k) =
      (object_id < n)
      × ((c : DecryptContext crypto)
          → get mid contexts ≡ some c
          → c.object_id ≡ object_id
          → k ≡ create_key crypto c.password url c.user_id)
  JobFits url n contexts update_contexts = Unit

  abbrev pub AllFit : String → ℕ → Dict (DecryptContext crypto) → Type 0
  AllFit url n contexts =
      (mid : String) (c : DecryptContext crypto) → get mid contexts ≡ some c → ContextFits url n c

  abbrev pub Fits : String → Worker crypto → Type 0
  Fits url w =
      AllFit w.url w.next_object w.decrypt_context_by_mid
      × Every (JobFits w.url w.next_object w.decrypt_context_by_mid) w.pending
      × (w.url ≡ url)

  -- A context of the new ones is made later, or is an old one but for its key.
  abbrev Follows : ℕ → Dict (DecryptContext crypto) → Dict (DecryptContext crypto) → Type 0
  Follows n old new =
      (mid : String) (c : DecryptContext crypto)
      → get mid new ≡ some c
      → (n ≤ c.object_id)
        ⊎ ((d : DecryptContext crypto) × (get mid old ≡ some d)
            × (d.object_id ≡ c.object_id)
            × (d.password ≡ c.password)
            × (d.user_id ≡ c.user_id))

  job_stays :
      (url : String) (n m : ℕ) (old new : Dict (DecryptContext crypto))
      → n ≤ m
      → Follows n old new
      → (job : Job crypto) → JobFits url n old job
      → JobFits url m new job
  job_stays url n m old new l f (encrypt_key p k b) h = tt
  job_stays url n m old new l f (decrypt_key mid object_id k) h = (
    omega arith,
    λ c e i. elim (f mid c e) [
      | inl later ↦ absurd (omega arith)
      | inr (d, g, same, p, u) ↦ cc (h.1 d g (same ∙ i))
    ],
  )
  job_stays url n m old new l f update_contexts h = tt

  pub jobs_stay :
      (url : String) (n m : ℕ) (old new : Dict (DecryptContext crypto)) (jobs : List (Job crypto))
      → n ≤ m
      → Follows n old new
      → Every (JobFits url n old) jobs
      → Every (JobFits url m new) jobs
  jobs_stay url n m old new jobs l f h = Every-map jobs (job_stays url n m old new l f) h

  pub Every-take_out :
      (P : Job crypto → Type 0) (i : ℕ) (jobs : List (Job crypto))
      → Every P jobs
      → Every P (take_out crypto i jobs)
  unfolding take_out
  Every-take_out P i [] h = tt
  Every-take_out P zero (job ∷ jobs) h = h.1
  Every-take_out P (suc i) (job ∷ jobs) h = (h.0, Every-take_out P i jobs h.1)

  -- What a look-up after a `put` finds.
  pub put_cases :
      (mid i : String) (new c : DecryptContext crypto) (d : Dict (DecryptContext crypto))
      → get i (put mid new d) ≡ some c
      → ((mid ≡ i) × (new ≡ c)) ⊎ (get i d ≡ some c)
  put_cases mid i new c d e = elim (Bool-cases (mid == i)) [
    | inl same ↦
        inl
          ((eq_iff mid i).0 same, some-injective new c (sym (rw same at (get-put mid i new d)) ∙ e))
    | inr other ↦ inr (sym (rw other at (get-put mid i new d)) ∙ e)
  ]

  abbrev pub fresh : ℕ → String → String → DecryptContext crypto
  fresh n user_id pw = record { object_id = n; key = none; user_id = user_id; password = pw }

  -- A context that is made anew, without a key.
  pub put-fresh-AllFit :
      (url : String) (n : ℕ) (mid user_id pw : String) (d : Dict (DecryptContext crypto))
      → AllFit url n d
      → AllFit url (suc n) (put mid (fresh n user_id pw) d)
  put-fresh-AllFit url n mid user_id pw d h i c e =
      elim (put_cases mid i (fresh n user_id pw) c d e) [
        | inl (_, p) ↦ subst (ContextFits url (suc n)) p (omega arith, λ k f. cc)
        | inr f ↦ (omega (arith, (h i c f).0), (h i c f).1)
      ]

  pub put-fresh-Follows :
      (n : ℕ) (mid user_id pw : String) (d : Dict (DecryptContext crypto))
      → Follows n d (put mid (fresh n user_id pw) d)
  put-fresh-Follows n mid user_id pw d i c e = elim (put_cases mid i (fresh n user_id pw) c d e) [
    | inl (_, p) ↦ inl (subst (λ x. n ≤ x.object_id) p (omega arith))
    | inr f ↦ inr (c, f, refl, refl, refl)
  ]
