-- ===== src/InsertableStreams/Tests.antt =====
-- Concrete inputs for the encryption, with a cipher that changes nothing.
use meeting.Prelude.{ℕ, ◌≡◌, refl, List, [], ◌∷◌, ◌++◌, some, true, false, arith}
use meeting.Codec.Bytes.{write}
use meeting.Prelude.Dict.{get, put, keys}
use meeting.InsertableStreams.Frames.{
  Crypto, crypto_offset, Frame, delta, enqueued, dropped, encrypt, decrypt,
}
use meeting.InsertableStreams.Frames.RoundTrip.{decrypt-encrypt}
use meeting.InsertableStreams.Worker.{
  DecryptContext, Worker, new_worker, create_key, Event, password, encrypt_stream, decrypt_stream,
  settle, handle_password, update_encrypt_context, go_on, add_job, settle_job, take_out, run_job,
  install_encrypt, password_rounds, update_decrypt_context, get_user_id, user_of, is_current,
  replace_context, install_decrypt, salt_of, or_empty, on_event, run, send_frame, receive_frame,
}
use meeting.InsertableStreams.Worker.Keys.{started, run_keys}
use meeting.InsertableStreams.Worker.Salt.{salt_of_lem}
use meeting.InsertableStreams.Worker.Reset.{reset, run-reset}
use meeting.InsertableStreams.Worker.Agreement.{receive_frame-send_frame}
use meeting.InsertableStreams.Client.{
  Client, has, new_client, encrypt_sender, ask_password, ask_encrypt, ask_decrypt, calls,
}
use meeting.InsertableStreams.Client.Once.{owners, Distinct, calls-Distinct, encrypt_sender_refused}

-- A text is one byte; a key is the bytes of the password and of the salt, in a row.
abbrev plain_crypto : Crypto
plain_crypto = record {
  Key = List ℕ;
  encode_text = λ t. 7 ∷ [];
  derive_key = λ password salt. password ++ salt;
  seal = λ k iv additional bytes. bytes;
  unseal = λ k iv additional bytes. some bytes;
  unseal-seal = λ k iv additional bytes. refl;
}

abbrev vector : List ℕ
vector = 1 ∷ 2 ∷ 3 ∷ 4 ∷ 5 ∷ 6 ∷ 7 ∷ 8 ∷ 9 ∷ 10 ∷ 11 ∷ 12 ∷ 13 ∷ 14 ∷ 15 ∷ 16 ∷ []

abbrev video : Frame
video = record { frame_type = delta; bytes = 100 ∷ 101 ∷ 102 ∷ 103 ∷ 104 ∷ [] }

decrypt-encrypt_example :
    (sent : Frame) × (encrypt plain_crypto (some (1 ∷ [])) "secret" vector video ≡ enqueued sent)
    × (decrypt plain_crypto (some (1 ∷ [])) sent ≡ video)
unfolding crypto_offset
decrypt-encrypt_example =
    decrypt-encrypt plain_crypto (1 ∷ []) "secret" vector video (omega arith) refl

-- A receiver that has a password and then learns of a track; the key arrives last.
abbrev received : List (Event plain_crypto)
received = password "secret" ∷ settle 0 ∷ settle 0 ∷ decrypt_stream "0" "alice" ∷ settle 0 ∷ []

abbrev shared_key : List ℕ
shared_key = 7 ∷ 7 ∷ 0 ∷ 7 ∷ []

abbrev alice_context : DecryptContext plain_crypto
alice_context = record {
  object_id = 0;
  key = some shared_key;
  user_id = "alice";
  password = "secret";
}

received_context :
    get "0" (run plain_crypto received (started plain_crypto "room" "bob")).decrypt_context_by_mid
    ≡ some alice_context
unfolding get put keys on_event run handle_password update_encrypt_context go_on add_job settle_job
    take_out run_job install_encrypt password_rounds update_decrypt_context get_user_id user_of
    is_current replace_context install_decrypt create_key salt_of or_empty write
received_context = refl

run_keys_example : shared_key ≡ create_key plain_crypto "secret" "room" "alice"
run_keys_example =
    run_keys plain_crypto "room" "bob" received (tt, (tt, (tt, (tt, (tt, tt))))) "0" alice_context
      shared_key received_context refl

-- The sender, with the same password.
abbrev sender : Worker plain_crypto
sender = record (new_worker plain_crypto) {
  url = "room";
  user_id = "alice";
  password = "secret";
  encrypt_context = record {
    key = some (create_key plain_crypto "secret" "room" "alice");
    password = "secret";
  };
}

receive_frame-send_frame_example :
    (sent : Frame) × (send_frame plain_crypto sender vector video ≡ enqueued sent)
    × (receive_frame plain_crypto "0"
          (run plain_crypto received (started plain_crypto "room" "bob"))
          sent
        ≡ video)
unfolding crypto_offset
receive_frame-send_frame_example =
    receive_frame-send_frame plain_crypto "room" sender "secret" "alice" "bob" "0" refl received
      (tt, (tt, (tt, (tt, (tt, tt))))) alice_context shared_key received_context refl refl refl
      vector video (omega arith) refl

-- The work of a cleared password is done, and a stream is added, after the password is set again.
run-reset_example :
    send_frame plain_crypto
      (run plain_crypto
        (settle 0 ∷ settle 0 ∷ encrypt_stream ∷ [])
        (run plain_crypto (reset plain_crypto "secret" refl) sender))
      vector
      video
    ≡ dropped
run-reset_example =
    run-reset plain_crypto "secret" refl sender refl refl
      (settle 0 ∷ settle 0 ∷ encrypt_stream ∷ []) (tt, (tt, (tt, tt))) vector video

calls-Distinct_example : Distinct (
    owners
      (calls
        (ask_encrypt 1 true ∷ ask_decrypt 2 "0" "alice" true ∷ ask_decrypt 2 "0" "carol" true ∷ [])
        (new_client true true true "room" "bob")).posted)
calls-Distinct_example =
    calls-Distinct true true true "room" "bob"
      (ask_encrypt 1 true ∷ ask_decrypt 2 "0" "alice" true ∷ ask_decrypt 2 "0" "carol" true ∷ [])

abbrev connected : Client
connected = record { has_worker = true; senders_receivers = []; posted = [] }

encrypt_sender_refused_example :
    let c1 = encrypt_sender 1 false connected in
    let c2 = calls (ask_password "secret" ∷ []) c1.1 in
    (c1.0 ≡ false)
    × ((encrypt_sender 1 true c2).0 ≡ true)
    × (has 1 (owners (encrypt_sender 1 true c2).1.posted) ≡ false)
unfolding has
encrypt_sender_refused_example =
    encrypt_sender_refused 1 connected refl refl refl (ask_password "secret" ∷ []) true

salt_of_lem_example : salt_of plain_crypto (1 ∷ 2 ∷ []) (3 ∷ []) ≡ some (1 ∷ 2 ∷ 0 ∷ 3 ∷ [])
salt_of_lem_example = salt_of_lem plain_crypto (1 ∷ 2 ∷ []) (3 ∷ [])
