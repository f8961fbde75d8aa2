-- ===== src/Messaging/Sending.antt =====
-- What a peer gets of a message.
use meeting.Prelude.{
  ℕ, suc, ◌≡◌, refl, sym, ap, ap₂, subst, ◌∙◌, String, List, [], ◌∷◌, ◌++◌, Bool, true,
  if◌then◌else◌, ◌==◌, ==_iff, map, replicate, Bool-cases, inl, inr,
}
use meeting.Codec.Worker.{WorkerPayload, Event, DoneEvent, done, event_of}
use meeting.Codec.Worker.Chunks.{chunk_at}
use meeting.Messaging.{Output, to_peer, notify_error, on_data, on_event, on_events}

-- What one peer gets.
abbrev pub received_by : ℕ → List Output → List (List ℕ)
received_by n [] = []
received_by n (to_peer m chunk ∷ out) =
    let rest = received_by n out in if m == n then chunk ∷ rest else rest
received_by n (notify_error m e ∷ out) = received_by n out

-- How often a peer is in the store.
abbrev pub places : ℕ → List (String × ℕ) → ℕ
places n [] = 0
places n ((id, m) ∷ peers) = let rest = places n peers in if m == n then suc rest else rest

received_by-append :
    (n : ℕ) (xs ys : List Output) → received_by n (xs ++ ys) ≡ received_by n xs ++ received_by n ys
received_by-append n [] ys = refl
received_by-append n (to_peer m chunk ∷ xs) ys =
    rw (received_by-append n xs ys)
      (elim (Bool-cases (m == n)) [ inl e ↦ rw e refl | inr e ↦ rw e refl ])
received_by-append n (notify_error m e ∷ xs) ys = received_by-append n xs ys

received_by-on_data :
    (accepts : ℕ → List ℕ → Bool) (n : ℕ) (peers : List (String × ℕ)) (chunk : List ℕ)
    → accepts n chunk ≡ true
    → received_by n (on_data accepts peers chunk) ≡ replicate (places n peers) chunk
unfolding on_data
received_by-on_data accepts n [] chunk a = refl
received_by-on_data accepts n ((id, m) ∷ peers) chunk a =
    let rest = received_by-on_data accepts n peers chunk a in
    elim (Bool-cases (m == n)) [
      | inl e ↦
          let same : accepts m chunk ≡ true =
            subst (λ i. accepts i chunk ≡ true) (sym ((==_iff m n).0 e)) a in
          rw (same, e, rest) refl
      | inr e ↦ elim (Bool-cases (accepts m chunk)) [
        | inl f ↦ rw (f, e, rest) refl
        | inr f ↦ rw (f, e, rest) refl
      ]
    ]

pub done_quiet :
    (accepts : ℕ → List ℕ → Bool) (peers : List (String × ℕ)) (e : DoneEvent)
    → on_event accepts peers (done e) ≡ []
unfolding on_event
done_quiet accepts peers e = refl

pub received_by-chunks :
    (accepts : ℕ → List ℕ → Bool) (n : ℕ) (peers : List (String × ℕ)) (p : WorkerPayload)
    (e : Event) (ks : List ℕ)
    → ((chunk : List ℕ) → accepts n chunk ≡ true)
    → places n peers ≡ 1
    → on_event accepts peers e ≡ []
    → received_by n
        (on_events accepts peers (map (λ k. event_of p k (chunk_at p k)) ks ++ (e ∷ [])))
      ≡ map (chunk_at p) ks
unfolding on_events on_event event_of
received_by-chunks accepts n peers p e [] a once quiet = rw quiet refl
received_by-chunks accepts n peers p e (k ∷ ks) a once quiet =
    received_by-append n (on_data accepts peers (chunk_at p k)) _
    ∙ ap₂ (λ xs ys. xs ++ ys)
        (received_by-on_data accepts n peers (chunk_at p k) (a (chunk_at p k))
          ∙ ap (λ i. replicate i (chunk_at p k)) once)
        (received_by-chunks accepts n peers p e ks a once quiet)
