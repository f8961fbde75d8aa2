-- ===== src/InsertableStreams/Worker/Agreement.antt =====
-- Two workers: what one sends, the other shows.
use meeting.Prelude.{ℕ, ◌≤◌, ◌≡◌, sym, String, List, some, length}
use meeting.Prelude.Dict.{get}
use meeting.InsertableStreams.Frames.{Crypto, iv_byte_length, crypto_offset, Frame, enqueued}
use meeting.InsertableStreams.Frames.RoundTrip.{decrypt-encrypt}
use meeting.InsertableStreams.Worker.{
  DecryptContext, Worker, create_key, Event, run, send_frame, receive_frame,
}
use meeting.InsertableStreams.Worker.Invariant.{Every}
use meeting.InsertableStreams.Worker.Keys.{NotInit, started, run_keys}

module _ (crypto : Crypto) (url : String) where
  -- A sender has the key of a password, of the page address and of its user id. A receiver, started at
  -- the same page address and after any row of messages other than `init` and of the platform's answers,
  -- has a context for the mid with that password and that user id, and the context has a key. Then a
  -- frame that is as long as its clear part is enqueued by the sender, and the receiver gives back the
  -- frame from what was enqueued. The initialisation vector has 16 bytes.
  pub receive_frame-send_frame :
      (sender : Worker crypto) (pw user_id own_id mid : String)
      → sender.encrypt_context.key ≡ some (create_key crypto pw url user_id)
      → (events : List (Event crypto)) → Every (NotInit crypto url) events
      → (c : DecryptContext crypto) (k : crypto.Key)
      → get mid (run crypto events (started crypto url own_id)).decrypt_context_by_mid ≡ some c
      → c.key ≡ some k
      → c.password ≡ pw
      → c.user_id ≡ user_id
      → (iv : List ℕ) (frame : Frame) → crypto_offset frame.frame_type ≤ length frame.bytes
      → length iv ≡ iv_byte_length
      → (sent : Frame) × (send_frame crypto sender iv frame ≡ enqueued sent)
        × (receive_frame crypto mid (run crypto events (started crypto url own_id)) sent ≡ frame)
  unfolding send_frame receive_frame
  receive_frame-send_frame sender pw user_id own_id mid s events n c k e f p u iv frame long li =
      let same : k ≡ create_key crypto pw url user_id =
        cc (run_keys crypto url own_id events n mid c k e f) in
      let (sent, enqueues, shows) = decrypt-encrypt crypto k sender.password iv frame long li in
      (sent, rw (s, sym same) enqueues, rw (e, f) shows)
