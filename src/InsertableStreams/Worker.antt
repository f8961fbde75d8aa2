-- ===== src/InsertableStreams/Worker.antt =====
-- The worker's state and its message handlers (src/client/insertable-streams/index.ts, `workerFunc`).
-- A promise that is pending is a `Job` of the state; `settle` and `fail` are the platform's answers, in any order.
-- Text of `params.url` and of user ids is encoded by the platform, as in Frames.
pub mod Invariant
pub mod Rounds
pub mod Contexts
pub mod Keys
pub mod Reset
pub mod Agreement
pub mod Salt
use text.Mathlib.Text.{◌==◌}
use meeting.Prelude.{
  ℕ, zero, suc, ◌+◌, String, List, [], ◌∷◌, ◌++◌, Option, none, some, Bool, true, false, ◌&&◌,
  length, get_elem?, if◌then◌else◌, ◌>>=◌,
}
use meeting.Prelude.Dict.{Dict, empty, get, put, remove, keys}
use meeting.Codec.Bytes.{zeros, write}
use meeting.SocketEvent.{TrackMetadata}
use meeting.InsertableStreams.Frames.{Crypto, Frame, Sent, encrypt, decrypt}

module _ (crypto : Crypto) where
  open crypto use {Key, encode_text, derive_key}

  -- An object; `===` of two of them compares `object_id`.
  pub record DecryptContext : Type 0 where
    pub object_id : ℕ
    pub key : Option Key
    pub user_id : String
    pub password : String

  pub record EncryptContext : Type 0 where
    pub key : Option Key
    pub password : String

  pub data Job : Type 0 where
    -- `createKey(password, …)` of `updateEncryptContext`, and whether `handlePassword` goes on from it.
    encrypt_key : String → Key → Bool → Job
    -- `createKey` of `updateDecryptContext`, for a mid and the context `c` at that time.
    decrypt_key : String → ℕ → Key → Job
    -- The second step of `handlePassword`.
    update_contexts : Job

  pub record Worker : Type 0 where
    pub url : String
    pub user_id : String
    pub metadata_by_mid : Dict TrackMetadata
    pub password : String
    pub decrypt_context_by_mid : Dict DecryptContext
    pub encrypt_context : EncryptContext
    -- The number of contexts made so far.
    pub next_object : ℕ
    pub pending : List Job

  abbrev pub new_worker : Worker
  new_worker = record {
    url = "";
    user_id = "";
    metadata_by_mid = empty;
    password = "";
    decrypt_context_by_mid = empty;
    encrypt_context = record { key = none; password = "" };
    next_object = 0;
    pending = [];
  }

  -- The salt: `none` is an exception of `set`.
  unfoldable pub salt_of : List ℕ → List ℕ → Option (List ℕ)
  salt_of url_bytes user_id_bytes = do
    with_url ← write (zeros (length url_bytes + 1 + length user_id_bytes)) url_bytes 0
    write with_url user_id_bytes (length url_bytes + 1)

  unfoldable pub or_empty : Option (List ℕ) → List ℕ
  or_empty none = []
  or_empty (some bytes) = bytes

  unfoldable pub create_key : String → String → String → Key
  create_key password url user_id =
      derive_key (encode_text password) (or_empty (salt_of (encode_text url) (encode_text user_id)))

  unfoldable pub user_of : Option TrackMetadata → String → String
  user_of none user_id = user_id
  user_of (some metadata) user_id = metadata.user_id

  unfoldable pub get_user_id : String → String → Worker → String
  get_user_id mid user_id w = user_of (get mid w.metadata_by_mid) user_id

  unfoldable pub add_job : Job → Worker → Worker
  add_job job w = record w { pending = w.pending ++ (job ∷ []) }

  unfoldable pub is_current : Option DecryptContext → String → String → Bool
  is_current none user_id password = false
  is_current (some c) user_id password = (c.user_id == user_id) && (c.password == password)

  -- The part of `updateDecryptContext` that replaces the context.
  unfoldable pub replace_context : String → String → Worker → Worker
  replace_context mid user_id w =
      let c : DecryptContext = record {
        object_id = w.next_object;
        key = none;
        user_id = user_id;
        password = w.password;
      } in
      let replaced : Worker = record w {
        decrypt_context_by_mid = put mid c w.decrypt_context_by_mid;
        next_object = suc w.next_object;
      } in
      if w.password == ""
      then replaced
      else add_job (decrypt_key mid w.next_object (create_key w.password w.url user_id)) replaced

  unfoldable pub update_decrypt_context : String → String → Worker → Worker
  update_decrypt_context mid user_id w =
      let user = get_user_id mid user_id w in
      if is_current (get mid w.decrypt_context_by_mid) user w.password
      then w
      else replace_context mid user w

  -- What follows the promise of `updateEncryptContext`, in `handlePassword` only.
  unfoldable pub go_on : Bool → Worker → Worker
  go_on true w = add_job update_contexts w
  go_on false w = w

  unfoldable pub update_encrypt_context : Bool → Worker → Worker
  update_encrypt_context then_contexts w =
      if w.encrypt_context.password == w.password
      then go_on then_contexts w
      else if w.password == ""
      then go_on then_contexts
          (record w { encrypt_context = record w.encrypt_context { key = none } })
      else add_job (encrypt_key w.password (create_key w.password w.url w.user_id) then_contexts)
          (record w { encrypt_context = record w.encrypt_context { password = w.password } })

  -- One round of the `map` in `handleMetadata`.
  unfoldable pub metadata_round : Option TrackMetadata → String → Worker → Worker
  metadata_round none mid w = record w {
    decrypt_context_by_mid = remove mid w.decrypt_context_by_mid;
  }
  metadata_round (some m) mid w = update_decrypt_context mid m.user_id w

  unfoldable pub metadata_rounds : List String → Worker → Worker
  metadata_rounds [] w = w
  metadata_rounds (mid ∷ mids) w =
      metadata_rounds mids (metadata_round (get mid w.metadata_by_mid) mid w)

  unfoldable pub by_mid : List TrackMetadata → Dict TrackMetadata → Dict TrackMetadata
  by_mid [] d = d
  by_mid (m ∷ metadata) d = by_mid metadata (put m.mid m d)

  unfoldable pub handle_metadata : List TrackMetadata → Worker → Worker
  handle_metadata metadata w =
      metadata_rounds (keys w.decrypt_context_by_mid)
        (record w { metadata_by_mid = by_mid metadata empty })

  unfoldable pub handle_password : String → Worker → Worker
  handle_password password w = update_encrypt_context true (record w { password = password })

  -- One round of the `map` in `handlePassword`; the mid is a key of the contexts, so `none` is not met.
  unfoldable pub password_round : Option DecryptContext → String → Worker → Worker
  password_round none mid w = w
  password_round (some c) mid w = update_decrypt_context mid c.user_id w

  unfoldable pub password_rounds : List String → Worker → Worker
  password_rounds [] w = w
  password_rounds (mid ∷ mids) w =
      password_rounds mids (password_round (get mid w.decrypt_context_by_mid) mid w)

  -- A key is installed if the context is still the one it was made for.
  unfoldable pub install_decrypt : Option DecryptContext → String → ℕ → Key → Worker → Worker
  install_decrypt none mid object_id k w = w
  install_decrypt (some c) mid object_id k w =
      if meeting.Prelude.◌==◌ c.object_id object_id
      then record w {
        decrypt_context_by_mid = put mid (record c { key = some k }) w.decrypt_context_by_mid;
      }
      else w

  unfoldable pub install_encrypt : String → Key → Worker → Worker
  install_encrypt password k w =
      if w.encrypt_context.password == password
      then record w { encrypt_context = record w.encrypt_context { key = some k } }
      else w

  unfoldable pub run_job : Job → Worker → Worker
  run_job (encrypt_key password k then_contexts) w =
      go_on then_contexts (install_encrypt password k w)
  run_job (decrypt_key mid object_id k) w =
      install_decrypt (get mid w.decrypt_context_by_mid) mid object_id k w
  run_job update_contexts w = password_rounds (keys w.decrypt_context_by_mid) w

  unfoldable pub take_out : ℕ → List Job → List Job
  take_out i [] = []
  take_out zero (job ∷ jobs) = jobs
  take_out (suc i) (job ∷ jobs) = job ∷ take_out i jobs

  unfoldable pub settle_job : Option Job → ℕ → Worker → Worker
  settle_job none i w = w
  settle_job (some job) i w = run_job job (record w { pending = take_out i w.pending })

  -- What arrives: the five kinds of message, the streams left out, and the platform's answers to the
  -- promise at an index of `pending`.
  pub data Event : Type 0 where
    init : String → String → Event
    password : String → Event
    metadata : List TrackMetadata → Event
    encrypt_stream : Event
    decrypt_stream : String → String → Event
    settle : ℕ → Event
    fail : ℕ → Event

  -- `self.onmessage`, and the answers.
  unfoldable pub on_event : Event → Worker → Worker
  on_event (init url user_id) w = record w { url = url; user_id = user_id }
  on_event (password p) w = handle_password p w
  on_event (metadata m) w = handle_metadata m w
  on_event encrypt_stream w = update_encrypt_context false w
  on_event (decrypt_stream mid user_id) w = update_decrypt_context mid user_id w
  on_event (settle i) w = settle_job (get_elem? w.pending i) i w
  on_event (fail i) w = record w { pending = take_out i w.pending }

  unfoldable pub run : List Event → Worker → Worker
  run [] w = w
  run (e ∷ events) w = run events (on_event e w)

  -- `transform` of `handleEncrypt` and of `handleDecrypt`.
  unfoldable pub send_frame : Worker → List ℕ → Frame → Sent
  send_frame w iv frame = encrypt crypto w.encrypt_context.key w.password iv frame

  unfoldable pub receive_frame : String → Worker → Frame → Frame
  receive_frame mid w frame = decrypt crypto (get mid w.decrypt_context_by_mid >>= λ c. c.key) frame
