-- ===== src/Messaging/Delivered.antt =====
-- From the message that is sent to the message that is added at the other end.
use mathlib.Core.List.{Perm}
use mathlib.Core.List.Perm
use meeting.Prelude.{
  ℕ, zero, suc, ◌-◌, ◌≡◌, refl, sym, ap, subst, ◌∙◌, String, List, [], ◌∷◌, ◌++◌, Option, none,
  some, Bool, true, false, ◌&&◌, map, get_elem?, set, replicate,
}
use meeting.Codec.Worker.{WorkerPayload, Event, done, total_chunks, on_message}
use meeting.Codec.Worker.Chunks.{chunk_at, up_from}
use meeting.Codec.Encoder.{Encoder, payload_of, encode}
use meeting.Codec.RoundTrip.{Fits, decode-encode}
use meeting.Codec.Decoder.{Decoder, DataContainer, Outcome, waiting, complete, range_error, decode}
use meeting.Codec.Decoder.Reassembly.{entry}
use meeting.Codec.Decoder.Delivery.{ours, numbers, deliver, AreApart}
use meeting.Reducers.Messages.{MessageType}
use meeting.Peers.{
  Call, Effect, dispatched, message_add, act, dispatch, add_message, handle_decoded, handle_with,
  handle_data, handle_data_all,
}
use meeting.Messaging.{on_events, send_message}
use meeting.Messaging.Sending.{received_by, places, done_quiet, received_by-chunks}

module _ (decode_text : List ℕ → String) (parse : String → Option MessageType) where
  abbrev read_one : Option MessageType → List (Effect MessageType) → List (Effect MessageType)
  read_one none rest = rest
  read_one (some m) rest = dispatched (message_add m) ∷ rest

  abbrev fine_one : Option MessageType → Bool → Bool
  fine_one none rest = false
  fine_one (some m) rest = rest

  -- The calls of `handleData` give the calls of `decode`, and add the messages that are complete.
  abbrev read : List Outcome → List (Effect MessageType)
  read [] = []
  read (waiting ∷ os) = read os
  read (range_error ∷ os) = read os
  read (complete d ∷ os) = read_one (parse (decode_text d.bytes)) (read os)

  abbrev fine : List Outcome → Bool
  fine [] = true
  fine (waiting ∷ os) = fine os
  fine (range_error ∷ os) = false
  fine (complete d ∷ os) = fine_one (parse (decode_text d.bytes)) (fine os)

  append_nil {ℓ} : {A : Type ℓ} (xs : List A) → xs ++ [] ≡ xs
  append_nil [] = refl
  append_nil (x ∷ xs) = ap (λ ys. x ∷ ys) (append_nil xs)

  append_assoc {ℓ} : {A : Type ℓ} (xs ys zs : List A) → (xs ++ ys) ++ zs ≡ xs ++ (ys ++ zs)
  append_assoc [] ys zs = refl
  append_assoc (x ∷ xs) ys zs = ap (λ us. x ∷ us) (append_assoc xs ys zs)

  add_message_lem :
      (o : Option MessageType) (c : Call MessageType) (es : List (Effect MessageType)) (b : Bool)
      → let after = add_message decode_text parse o c in
        (after.1.decoders ≡ c.decoders)
        × (after.1.effects ++ es ≡ c.effects ++ read_one o es)
        × ((after.0 && b) ≡ fine_one o b)
  unfolding add_message dispatch act
  add_message_lem none c es b = (refl, refl, refl)
  add_message_lem (some m) c es b =
      (refl, append_assoc c.effects (dispatched (message_add m) ∷ []) es, refl)

  -- One call: the effects of its outcome, with those of the later ones.
  handle_decoded_lem :
      (o : Outcome) (c : Call MessageType) (os : List Outcome)
      → let after = handle_decoded decode_text parse o c in
        (after.1.decoders ≡ c.decoders)
        × (after.1.effects ++ read os ≡ c.effects ++ read (o ∷ os))
        × ((after.0 && fine os) ≡ fine (o ∷ os))
  unfolding handle_decoded
  handle_decoded_lem waiting c os = (refl, refl, refl)
  handle_decoded_lem range_error c os = (refl, refl, refl)
  handle_decoded_lem (complete d) c os =
      add_message_lem (parse (decode_text d.bytes)) c (read os) (fine os)

  in_range :
      (n : ℕ) (ds : List Decoder) (d e : Decoder)
      → get_elem? ds n ≡ some d
      → get_elem? (set ds n e) n ≡ some e
  in_range n [] d e h = absurd (cc h)
  in_range zero (x ∷ ds) d e h = refl
  in_range (suc n) (x ∷ ds) d e h = in_range n ds d e h

  handle_data_at :
      (n : ℕ) (b : List ℕ) (d : Decoder) (c : Call MessageType)
      → get_elem? c.decoders n ≡ some d
      → handle_data decode_text parse n b c
        ≡ handle_decoded decode_text parse
            (decode decode_text b d).0
            (record c { decoders = set c.decoders n (decode decode_text b d).1 })
  unfolding handle_data handle_with
  handle_data_at n b d c e = rw e refl

  handle_data_all-deliver :
      (p : WorkerPayload) (n : ℕ) (ks : List ℕ) (d : Decoder) (c : Call MessageType)
      → get_elem? c.decoders n ≡ some d
      → let after = handle_data_all decode_text parse n (map (chunk_at p) ks) c in
        let outcomes = (deliver decode_text p (map ours ks) d).0 in
        (after.1.effects ≡ c.effects ++ read outcomes) × (after.0 ≡ fine outcomes)
  unfolding handle_data_all deliver
  handle_data_all-deliver p n [] d c e = (sym (append_nil c.effects), refl)
  handle_data_all-deliver p n (k ∷ ks) d c e =
      let got = decode decode_text (chunk_at p k) d in
      let c1 = record c { decoders = set c.decoders n got.1 } in
      let later = (deliver decode_text p (map ours ks) got.1).0 in
      let after = handle_decoded decode_text parse got.0 c1 in
      let (same, effects, ok) = handle_decoded_lem got.0 c1 later in
      let (rest, oks) =
        handle_data_all-deliver p n ks got.1 after.1
          (ap (λ ds. get_elem? ds n) same ∙ in_range n c.decoders d got.1 e) in
      subst
        (λ (f : Bool × Call MessageType).
          ((handle_data_all decode_text parse n (map (chunk_at p) ks) f.1).1.effects
            ≡ c.effects ++ read (got.0 ∷ later))
          × ((f.0 && (handle_data_all decode_text parse n (map (chunk_at p) ks) f.1).0)
              ≡ fine (got.0 ∷ later)))
        (sym (handle_data_at n (chunk_at p k) d c e))
        (rest ∙ effects, ap (λ b. after.0 && b) oks ∙ ok)

  read-replicate :
      (n : ℕ) (os : List Outcome)
      → (read (replicate n waiting ++ os) ≡ read os) × (fine (replicate n waiting ++ os) ≡ fine os)
  read-replicate zero os = (refl, refl)
  read-replicate (suc n) os = read-replicate n os

  AllOurs : (p : WorkerPayload) (ks : List ℕ) → AreApart decode_text p (map ours ks)
  AllOurs p [] = tt
  AllOurs p (k ∷ ks) = AllOurs p ks

  numbers-ours : (ks : List ℕ) → numbers (map ours ks) ≡ ks
  numbers-ours [] = refl
  numbers-ours (k ∷ ks) = ap (λ js. k ∷ js) (numbers-ours ks)

  module _ (encode_text : String → List ℕ) (stringify : MessageType → String) where
    -- Let the text decoder and JSON.parse read back what was written of the sender and the message. A message
    -- that fits is queued with the encoder, and the worker's events for it end. A peer that is once in the store and
    -- takes what it is given gets its chunks; at the other end, in a decoder that holds nothing of the message,
    -- every call of `handleData` returns, and the message is added to the list, once.
    pub handle_data_all-send_message :
        (accepts : ℕ → List ℕ → Bool) (peers : List (String × ℕ)) (n : ℕ) (user_id : String)
        (m : MessageType) (e : Encoder) (c : Call MessageType) (to : ℕ) (d : Decoder)
        → decode_text (encode_text user_id) ≡ user_id
        → decode_text (encode_text (stringify m)) ≡ stringify m
        → parse (stringify m) ≡ some m
        → ((chunk : List ℕ) → accepts n chunk ≡ true)
        → places n peers ≡ 1
        → let p =
            payload_of encode_text e
              (record { sender_id = user_id; bytes = encode_text (stringify m) }) in
          Fits p
          → entry p d ≡ none
          → get_elem? c.decoders to ≡ some d
          → (events : List Event) × (on_message p ≡ some events)
            × ((send_message encode_text stringify user_id m e).0.queue ≡ e.queue ++ (p ∷ []))
            × (let after =
                  handle_data_all decode_text parse to
                    (received_by n (on_events accepts peers events))
                    c in
                (after.0 ≡ true)
                × (after.1.effects ≡ c.effects ++ (dispatched (message_add m) ∷ [])))
    unfolding send_message encode
    handle_data_all-send_message accepts peers n user_id m e c to d reads_name reads_text parses a
          once f empty at =
        let sent : DataContainer = record {
          sender_id = user_id;
          bytes = encode_text (stringify m);
        } in
        let p = payload_of encode_text e sent in
        let ks = up_from 0 (total_chunks p) in
        let (posted, outcomes, _) =
          decode-encode encode_text decode_text e sent (map ours ks) d reads_name f (AllOurs p ks)
            (subst (λ js. Perm js ks) (sym (numbers-ours ks)) (Perm.refl ks)) empty in
        let (effects, ok) = handle_data_all-deliver p to ks d c at in
        let (said, well) = read-replicate (total_chunks p - 1) (complete sent ∷ []) in
        let parsed : parse (decode_text (encode_text (stringify m))) ≡ some m =
          ap parse reads_text ∙ parses in
        let got =
          received_by-chunks accepts n peers p
            (done (record { sender_id = user_id; message_id = (encode encode_text e sent).0 })) ks a
            once (done_quiet accepts peers _) in
        (
          _,
          posted,
          refl,
          subst
              (λ bs.
                let after = handle_data_all decode_text parse to bs c in
                (after.0 ≡ true)
                × (after.1.effects ≡ c.effects ++ (dispatched (message_add m) ∷ [])))
              (sym got)
              (
                ok ∙ ap fine outcomes ∙ well ∙ ap (λ o. fine_one o true) parsed,
                effects
                    ∙ ap (λ es. c.effects ++ es)
                        (ap read outcomes ∙ said ∙ ap (λ o. read_one o []) parsed),
              ),
        )
