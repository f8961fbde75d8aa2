-- ===== src/InsertableStreams/Client/Once.antt =====
-- The streams of a sender or receiver reach the worker once.
use meeting.Prelude.{
  ℕ, ◌≡◌, refl, List, [], ◌∷◌, Bool, true, false, ◌==◌, String, none, some, arith, Bool-cases, inl,
  inr, ==_iff,
}
use meeting.InsertableStreams.Client.{
  Message, init, password, metadata, encrypt, decrypt, Client, has, post_message, new_client,
  set_password, set_track_metadata, encrypt_sender, decrypt_receiver, Call, ask_password,
  ask_metadata, ask_encrypt, ask_decrypt, call, calls,
}

-- Whose streams were posted.
abbrev pub owners : List Message → List ℕ
owners [] = []
owners (init u v ∷ ms) = owners ms
owners (password p ∷ ms) = owners ms
owners (metadata m ∷ ms) = owners ms
owners (encrypt x ∷ ms) = x ∷ owners ms
owners (decrypt mid u none ∷ ms) = owners ms
owners (decrypt mid u (some x) ∷ ms) = x ∷ owners ms

abbrev pub Distinct : List ℕ → Type 0
Distinct [] = Unit
Distinct (x ∷ xs) = (has x xs ≡ false) × Distinct xs

abbrev Recorded : Client → Type 0
Recorded c =
    Distinct (owners c.posted)
    × ((x : ℕ) → has x (owners c.posted) ≡ true → has x c.senders_receivers ≡ true)

post_new :
    (x : ℕ) (seen owned : List ℕ)
    → Distinct owned
    → ((y : ℕ) → has y owned ≡ true → has y seen ≡ true)
    → has x seen ≡ false
    → Distinct (x ∷ owned) × ((y : ℕ) → has y (x ∷ owned) ≡ true → has y (x ∷ seen) ≡ true)
unfolding has
post_new x seen owned d h n = (
  (elim (Bool-cases (has x owned)) [ inl e ↦ absurd (cc (h x e)) | inr e ↦ e ], d),
  λ y e. ground (arith, h y),
)

see_more :
    (x : ℕ) (seen owned : List ℕ)
    → ((y : ℕ) → has y owned ≡ true → has y seen ≡ true)
    → (y : ℕ) → has y owned ≡ true
    → has y (x ∷ seen) ≡ true
unfolding has
see_more x seen owned h y e = ground (arith, h y)

call-Recorded : (x : Call) (c : Client) → Recorded c → Recorded (call x c).1
unfolding call set_password set_track_metadata post_message encrypt_sender decrypt_receiver
call-Recorded (ask_password p) c h = elim (Bool-cases c.has_worker) [
  | inl e ↦ rw e h
  | inr e ↦ rw e h
]
call-Recorded (ask_metadata m) c h = elim (Bool-cases c.has_worker) [
  | inl e ↦ rw e h
  | inr e ↦ rw e h
]
call-Recorded (ask_encrypt x available) c h = elim (Bool-cases c.has_worker) [
  | inl e ↦ elim (Bool-cases (has x c.senders_receivers)) [
    | inl seen ↦ rw (e, seen) h
    | inr new ↦ elim (Bool-cases available) [
      | inl a ↦ rw (e, new, a) (post_new x c.senders_receivers (owners c.posted) h.0 h.1 new)
      | inr a ↦ rw (e, new, a) (h.0, see_more x c.senders_receivers (owners c.posted) h.1)
    ]
  ]
  | inr e ↦ rw e h
]
call-Recorded (ask_decrypt x mid u available) c h = elim (Bool-cases c.has_worker) [
  | inl e ↦ elim (Bool-cases (has x c.senders_receivers)) [
    | inl seen ↦ rw (e, seen) h
    | inr new ↦ elim (Bool-cases available) [
      | inl a ↦ rw (e, new, a) (post_new x c.senders_receivers (owners c.posted) h.0 h.1 new)
      | inr a ↦ rw (e, new, a) h
    ]
  ]
  | inr e ↦ rw e h
]

calls-Recorded : (xs : List Call) (c : Client) → Recorded c → Recorded (calls xs c)
unfolding calls
calls-Recorded [] c h = h
calls-Recorded (x ∷ xs) c h = calls-Recorded xs _ (call-Recorded x c h)

new_client-Recorded :
    (has_url has_streams creates : Bool) (url user_id : String)
    → Recorded (new_client has_url has_streams creates url user_id)
unfolding new_client post_message
new_client-Recorded true true true url user_id = (tt, λ x e. e)
new_client-Recorded true true false url user_id = (tt, λ x e. e)
new_client-Recorded true false creates url user_id = (tt, λ x e. e)
new_client-Recorded false has_streams creates url user_id = (tt, λ x e. e)

-- After any row of calls of a new codec, with any answers of the platform, the streams of each sender
-- and receiver were posted at most once, by `encrypt` and `decrypt` together.
pub calls-Distinct :
    (has_url has_streams creates : Bool) (url user_id : String) (xs : List Call)
    → Distinct (owners (calls xs (new_client has_url has_streams creates url user_id)).posted)
calls-Distinct has_url has_streams creates url user_id xs =
    (calls-Recorded xs _ (new_client-Recorded has_url has_streams creates url user_id)).0

-- A sender that is known, without streams.
abbrev Refused : ℕ → Client → Type 0
Refused x c =
    (c.has_worker ≡ true) × (has x c.senders_receivers ≡ true) × (has x (owners c.posted) ≡ false)

other_posted :
    (x y : ℕ) (seen owned : List ℕ)
    → has x seen ≡ true
    → has x owned ≡ false
    → has y seen ≡ false
    → (has x (y ∷ seen) ≡ true) × (has x (y ∷ owned) ≡ false)
unfolding has
other_posted x y seen owned h n e = elim (Bool-cases (y == x)) [
  | inl same ↦ let q = (==_iff y x).0 same in absurd (cc (h, e, q))
  | inr other ↦ rw other (h, n)
]

call-Refused : (x : ℕ) (a : Call) (c : Client) → Refused x c → Refused x (call a c).1
unfolding call set_password set_track_metadata post_message encrypt_sender decrypt_receiver has
call-Refused x (ask_password p) c h = rw h.0 (refl, h.1, h.2)
call-Refused x (ask_metadata m) c h = rw h.0 (refl, h.1, h.2)
call-Refused x (ask_encrypt y available) c h = elim (Bool-cases (has y c.senders_receivers)) [
  | inl seen ↦ rw (h.0, seen) (refl, h.1, h.2)
  | inr new ↦
      let k = other_posted x y c.senders_receivers (owners c.posted) h.1 h.2 new in
      elim (Bool-cases available) [
        | inl a ↦ rw (h.0, new, a) (refl, k.0, k.1)
        | inr a ↦ rw (h.0, new, a) (refl, k.0, h.2)
      ]
]
call-Refused x (ask_decrypt y mid u available) c h = elim (Bool-cases (has y c.senders_receivers)) [
  | inl seen ↦ rw (h.0, seen) (refl, h.1, h.2)
  | inr new ↦
      let k = other_posted x y c.senders_receivers (owners c.posted) h.1 h.2 new in
      elim (Bool-cases available) [
        | inl a ↦ rw (h.0, new, a) (refl, k.0, k.1)
        | inr a ↦ rw (h.0, new, a) (refl, h.1, h.2)
      ]
]

calls-Refused : (x : ℕ) (xs : List Call) (c : Client) → Refused x c → Refused x (calls xs c)
unfolding calls
calls-Refused x [] c h = h
calls-Refused x (a ∷ xs) c h = calls-Refused x xs _ (call-Refused x a c h)

encrypt_sender_first :
    (x : ℕ) (c : Client)
    → c.has_worker ≡ true
    → has x c.senders_receivers ≡ false
    → has x (owners c.posted) ≡ false
    → ((encrypt_sender x false c).0 ≡ false) × Refused x (encrypt_sender x false c).1
unfolding encrypt_sender has
encrypt_sender_first x c w n o = rw (w, n) (refl, (refl, ground arith, o))

encrypt_sender_later :
    (x : ℕ) (available : Bool) (c : Client)
    → Refused x c
    → ((encrypt_sender x available c).0 ≡ true)
      × (has x (owners (encrypt_sender x available c).1.posted) ≡ false)
unfolding encrypt_sender
encrypt_sender_later x available c h = rw (h.0, h.1) (refl, h.2)

-- With a worker, a sender that is new and whose streams are refused at its first `encrypt` gets false, and at
-- each later `encrypt` true, though its streams are never posted.
pub encrypt_sender_refused :
    (x : ℕ) (c : Client)
    → c.has_worker ≡ true
    → has x c.senders_receivers ≡ false
    → has x (owners c.posted) ≡ false
    → (xs : List Call) (available : Bool)
    → let c1 = encrypt_sender x false c in
      let c2 = calls xs c1.1 in
      (c1.0 ≡ false)
      × ((encrypt_sender x available c2).0 ≡ true)
      × (has x (owners (encrypt_sender x available c2).1.posted) ≡ false)
encrypt_sender_refused x c w n o xs available =
    let first = encrypt_sender_first x c w n o in
    let later = encrypt_sender_later x available _ (calls-Refused x xs _ first.1) in
    (first.0, later.0, later.1)
