-- ===== src/InsertableStreams/Frames.antt =====
-- How a frame is encrypted and decrypted (src/client/insertable-streams/index.ts, `encrypt`, `decrypt`).
-- `crypto.subtle` and `TextEncoder` belong to the platform: `Crypto` stands for them.
pub mod RoundTrip
use meeting.Prelude.{
  ℕ, ◌+◌, ◌-◌, List, ◌++◌, Option, none, some, String, ◌>>=◌, ◌≡◌, length, take, drop, leb,
  if◌then◌else◌,
}
use text.Mathlib.Text.{◌==◌}
use meeting.Codec.Bytes.{zeros, write, slice}

pub record Crypto : Type 1 where
  pub Key : Type 0
  pub encode_text : String → List ℕ
  -- PBKDF2 with a password and a salt, to a key of AES-GCM.
  pub derive_key : List ℕ → List ℕ → Key
  -- AES-GCM with a key, an initialisation vector and additional data. `none`: the promise rejects.
  pub seal : Key → List ℕ → List ℕ → List ℕ → List ℕ
  pub unseal : Key → List ℕ → List ℕ → List ℕ → Option (List ℕ)
  -- What was encrypted is decrypted by the same three.
  pub unseal-seal :
      (k : Key) (iv additional plain : List ℕ)
      → unseal k iv additional (seal k iv additional plain) ≡ some plain

abbrev pub iv_byte_length : ℕ
iv_byte_length = 16

-- The `type` of a video frame; an audio frame has none.
pub data FrameType : Type 0 where
  key delta empty undefined : FrameType

unfoldable pub crypto_offset : FrameType → ℕ
crypto_offset key = 10
crypto_offset delta = 3
crypto_offset empty = 1
crypto_offset undefined = 1

pub record Frame : Type 0 where
  pub frame_type : FrameType
  pub bytes : List ℕ

-- What becomes of a frame that is to be sent: it is dropped, passed on, or its promise rejects.
pub data Sent : Type 0 where
  dropped : Sent
  enqueued : Frame → Sent
  rejected : Sent

-- A new array and the three calls of `set` that fill it.
unfoldable pub join_sealed : List ℕ → List ℕ → List ℕ → Option (List ℕ)
join_sealed additional sealed iv = do
  let fresh = zeros (length additional + length sealed + length iv)
  with_additional ← write fresh additional 0
  with_sealed ← write with_additional sealed (length additional)
  write with_sealed iv (length additional + length sealed)

unfoldable pub join_plain : List ℕ → List ℕ → Option (List ℕ)
join_plain additional plain = do
  with_additional ← write (zeros (length additional + length plain)) additional 0
  write with_additional plain (length additional)

-- The frame with new data; an exception of `set` rejects.
unfoldable pub enqueue_bytes : Frame → Option (List ℕ) → Sent
enqueue_bytes frame none = rejected
enqueue_bytes frame (some bytes) = enqueued (record frame { bytes = bytes })

-- After an exception the frame is passed on as it is.
unfoldable pub keep_or_replace : Frame → Option (List ℕ) → Frame
keep_or_replace frame none = frame
keep_or_replace frame (some bytes) = record frame { bytes = bytes }

module _ (crypto : Crypto) where
  open crypto use {Key, seal, unseal}

  -- With a key: the views `new Uint8Array(frame.data, 0, cryptoOffset)` and
  -- `new Uint8Array(frame.data, cryptoOffset)` raise a RangeError on a frame that is too short.
  unfoldable pub seal_frame : Key → List ℕ → Frame → Sent
  seal_frame k iv frame =
      let offset = crypto_offset frame.frame_type in
      let additional = take offset frame.bytes in
      let plain = drop offset frame.bytes in
      if leb offset (length frame.bytes)
      then enqueue_bytes frame (join_sealed additional (seal k iv additional plain) iv)
      else rejected

  -- `encrypt`, for the key of the encryption context and the password of the context; `iv` is what
  -- `crypto.getRandomValues` gives.
  unfoldable pub encrypt : Option Key → String → List ℕ → Frame → Sent
  encrypt none password iv frame = if password == "" then enqueued frame else dropped
  encrypt (some k) password iv frame = seal_frame k iv frame

  -- The body of the promise in `decrypt`; `none` is what `catch` swallows.
  unfoldable pub unseal_bytes : Key → Frame → Option (List ℕ)
  unseal_bytes k frame =
      let offset = crypto_offset frame.frame_type in
      let size = length frame.bytes in
      let additional = take offset frame.bytes in
      let sealed = slice frame.bytes offset (size - iv_byte_length) in
      let iv = drop (size - iv_byte_length) frame.bytes in
      if leb (offset + iv_byte_length) size
      then (do plain ← unseal k iv additional sealed; join_plain additional plain)
      else none

  -- `decrypt`, for the key of the decryption context of the frame's transceiver, if there is one. It
  -- always passes a frame on.
  unfoldable pub decrypt : Option Key → Frame → Frame
  decrypt none frame = frame
  decrypt (some k) frame = keep_or_replace frame (unseal_bytes k frame)
