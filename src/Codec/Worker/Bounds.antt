-- ===== src/Codec/Worker/Bounds.antt =====
-- No chunk is longer than a message of the data channel may be.
use meeting.Prelude.{
  ℕ, ◌≤◌, ◌<◌, ◌≡◌, ◌∙◌, sym, subst, List, [], ◌∷◌, ◌++◌, some, map, length, ltb, Bool-cases, inl,
  inr, arith,
}
use meeting.Codec.Worker.{
  WorkerPayload, Event, chunked, done, failed, data_bytes_in_chunk, total_chunks, event_of,
  on_message,
}
use meeting.Codec.Worker.Chunks.{
  chunk_at, up_from, on_message-chunks, on_message-no_room, length-chunk_at-le,
}

abbrev pub FitsMessage : ℕ → Event → Type 0
FitsMessage most (chunked e) = length e.chunk ≤ most
FitsMessage most (done e) = Unit
FitsMessage most (failed e) = Unit

abbrev pub AllFit : ℕ → List Event → Type 0
AllFit most [] = Unit
AllFit most (e ∷ events) = FitsMessage most e × AllFit most events

AllFit-append :
    (most : ℕ) (xs ys : List Event) → AllFit most xs → AllFit most ys → AllFit most (xs ++ ys)
AllFit-append most [] ys h k = k
AllFit-append most (x ∷ xs) ys h k = (h.0, AllFit-append most xs ys h.1 k)

AllFit-of_same :
    (most : ℕ) (xs events : List Event)
    → some xs ≡ some events
    → AllFit most xs
    → AllFit most events
AllFit-of_same most xs events e h = let same : xs ≡ events = cc in subst (AllFit most) same h

module _ (p : WorkerPayload) where
  chunks_fit :
      0 < data_bytes_in_chunk p
      → (ks : List ℕ) → AllFit p.max_message_size_bytes (map (λ k. event_of p k (chunk_at p k)) ks)
  unfolding event_of
  chunks_fit room [] = tt
  chunks_fit room (k ∷ ks) = (length-chunk_at-le p k room, chunks_fit room ks)

  -- Every chunk that the worker posts, its header included, is at most `maxMessageSizeBytes` long.
  pub on_message-AllFit :
      (events : List Event) → on_message p ≡ some events → AllFit p.max_message_size_bytes events
  on_message-AllFit events e = elim (Bool-cases (ltb 0 (data_bytes_in_chunk p))) [
    | inl room ↦
        let posted = on_message-chunks p (ground arith) in
        AllFit-of_same p.max_message_size_bytes _ events (sym posted ∙ e) (
          AllFit-append p.max_message_size_bytes _ _
            (chunks_fit (ground arith) (up_from 0 (total_chunks p))) (tt, tt))
    | inr full ↦
        let posted = on_message-no_room p (ground arith) in
        AllFit-of_same p.max_message_size_bytes _ events (sym posted ∙ e) (tt, tt)
  ]
