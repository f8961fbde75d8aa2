-- ===== src/Codec/Encoder/Waiting.antt =====
-- `waitFor` settles for every message, as the worker's last event says.
use meeting.Prelude.{
  ℕ, ◌≡◌, refl, ◌∙◌, List, [], ◌∷◌, ◌++◌, some, map, arith, ==_iff, Bool-cases, inl, inr, ltb,
  if◌then◌else◌,
}
use meeting.Codec.Worker.{
  WorkerPayload, Event, chunked, done, failed, data_bytes_in_chunk, total_chunks, event_of,
  on_message,
}
use meeting.Codec.Worker.Chunks.{chunk_at, up_from, on_message-chunks, on_message-no_room}
use meeting.Codec.Encoder.{resolved, rejected, wait_for}

-- The identifier of the message that an event ends.
abbrev pub Ends : ℕ → Event → Type 0
Ends message_id (chunked e) = ⊥
Ends message_id (done e) = e.message_id ≡ message_id
Ends message_id (failed e) = e.message_id ≡ message_id

abbrev pub NoneEnds : ℕ → List Event → Type 0
NoneEnds message_id [] = Unit
NoneEnds message_id (e ∷ events) = (¬ Ends message_id e) × NoneEnds message_id events

wait_for-append :
    (message_id : ℕ) (before after : List Event)
    → NoneEnds message_id before
    → wait_for message_id (before ++ after) ≡ wait_for message_id after
unfolding wait_for
wait_for-append message_id [] after h = refl
wait_for-append message_id (chunked e ∷ before) after h =
    wait_for-append message_id before after h.1
wait_for-append message_id (done e ∷ before) after h =
    ground (arith, h.0, wait_for-append message_id before after h.1)
wait_for-append message_id (failed e ∷ before) after h =
    ground (arith, h.0, wait_for-append message_id before after h.1)

module _ (p : WorkerPayload) where
  chunks_end_nothing :
      (ks : List ℕ) → NoneEnds p.message_id (map (λ k. event_of p k (chunk_at p k)) ks)
  unfolding event_of
  chunks_end_nothing [] = tt
  chunks_end_nothing (k ∷ ks) = (λ h. h, chunks_end_nothing ks)

  wait_for-done :
      wait_for p.message_id
        (done (record { sender_id = p.sender_id; message_id = p.message_id }) ∷ [])
      ≡ some (resolved (record { sender_id = p.sender_id; message_id = p.message_id }))
  unfolding wait_for
  wait_for-done = rw ((==_iff p.message_id p.message_id).1 refl)

  wait_for-failed :
      wait_for p.message_id (
        failed (record {
          error = "Not enough space for data.";
          sender_id = p.sender_id;
          message_id = p.message_id;
        })
        ∷ [])
      ≡ some (rejected "Not enough space for data.")
  unfolding wait_for
  wait_for-failed = rw ((==_iff p.message_id p.message_id).1 refl)

  -- The worker posts a row of events for every message. Behind events that do not end it, that row
  -- resolves the promise of `waitFor` if there is room for data in the chunks of the message, and
  -- rejects it if there is none.
  pub wait_for-on_message :
      (before : List Event)
      → NoneEnds p.message_id before
      → (events : List Event) × (on_message p ≡ some events)
        × (wait_for p.message_id (before ++ events) ≡ (
            if ltb 0 (data_bytes_in_chunk p)
            then some (resolved (record { sender_id = p.sender_id; message_id = p.message_id }))
            else some (rejected "Not enough space for data.")))
  wait_for-on_message before h = elim (Bool-cases (ltb 0 (data_bytes_in_chunk p))) [
    | inl room ↦ (
      _,
      on_message-chunks p (ground arith),
      rw room (
          wait_for-append p.message_id before _ h
          ∙ wait_for-append p.message_id _ _ (chunks_end_nothing (up_from 0 (total_chunks p)))
          ∙ wait_for-done),
    )
    | inr full ↦ (
      _,
      on_message-no_room p (ground arith),
      rw full (wait_for-append p.message_id before _ h ∙ wait_for-failed),
    )
  ]
