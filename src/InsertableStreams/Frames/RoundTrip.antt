-- ===== src/InsertableStreams/Frames/RoundTrip.antt =====
-- A frame that was encrypted is decrypted by the same key.
use mathlib.Core.List.{append_assoc, append-nil}
use native.Mathlib.Nat.{add-zero, add_assoc}
use meeting.Prelude.{
  ℕ, ◌+◌, ◌-◌, ◌≤◌, ◌≡◌, refl, sym, ap, ◌∙◌, List, [], ◌++◌, String, some, true, length, take, drop,
  length-append, length-take, take-append-drop, leb, arith,
}
use meeting.Codec.Bytes.{write_behind, take-append_length, drop-append_length, drop-drop}
use meeting.InsertableStreams.Frames.{
  Crypto, iv_byte_length, crypto_offset, Frame, enqueued, join_sealed, join_plain, enqueue_bytes,
  keep_or_replace, seal_frame, unseal_bytes, encrypt, decrypt,
}

-- The arrays are filled by their parts, and no exception is raised.
join_sealed_lem :
    (additional sealed iv : List ℕ)
    → join_sealed additional sealed iv ≡ some (additional ++ (sealed ++ iv))
unfolding join_sealed
join_sealed_lem additional sealed iv =
    let w1 = write_behind [] additional (length sealed + length iv) in
    let w2 = write_behind additional sealed (length iv) in
    let w3 = write_behind (additional ++ sealed) iv 0 in
    rw (add_assoc, w1, w2) (simp (length-append, append_assoc, append-nil, add-zero) at w3)

join_plain_lem :
    (additional plain : List ℕ) → join_plain additional plain ≡ some (additional ++ plain)
unfolding join_plain
join_plain_lem additional plain =
    let w1 = write_behind [] additional (length plain) in
    let w2 = write_behind additional plain 0 in rw w1 (simp (append-nil, add-zero) at w2)

module _ (crypto : Crypto) where
  open crypto use {Key, seal, unseal, unseal-seal}

  -- The sealed frame, for a frame that is long enough.
  abbrev pub sealed_frame : Key → List ℕ → Frame → Frame
  sealed_frame k iv frame =
      let additional = take (crypto_offset frame.frame_type) frame.bytes in
      let plain = drop (crypto_offset frame.frame_type) frame.bytes in
      record frame { bytes = additional ++ (seal k iv additional plain ++ iv) }

  pub seal_frame_lem :
      (k : Key) (iv : List ℕ) (frame : Frame)
      → crypto_offset frame.frame_type ≤ length frame.bytes
      → seal_frame crypto k iv frame ≡ enqueued (sealed_frame k iv frame)
  unfolding seal_frame enqueue_bytes
  seal_frame_lem k iv frame h =
      let fits : leb (crypto_offset frame.frame_type) (length frame.bytes) ≡ true = ground arith in
      rw (fits, join_sealed_lem)

  unseal_parts :
      (k : Key) (frame : Frame) (additional sealed iv plain : List ℕ)
      → frame.bytes ≡ additional ++ (sealed ++ iv)
      → length additional ≡ crypto_offset frame.frame_type
      → length iv ≡ iv_byte_length
      → unseal k iv additional sealed ≡ some plain
      → unseal_bytes crypto k frame ≡ some (additional ++ plain)
  unfolding unseal_bytes
  unseal_parts k frame additional sealed iv plain e la li u =
      let size : length (additional ++ (sealed ++ iv))
          ≡ length additional + (length sealed + length iv) =
        length-append additional (sealed ++ iv)
        ∙ ap (λ n. length additional + n) (length-append sealed iv) in
      let long : leb (length additional + iv_byte_length) (length (additional ++ (sealed ++ iv)))
          ≡ true =
        ground arith in
      let front : length additional + (length sealed + length iv) - iv_byte_length
          ≡ length additional + length sealed =
        omega arith in
      let middle : length additional + length sealed - length additional ≡ length sealed =
        omega arith in
      rw
        (
          e,
          sym la,
          long,
          size,
          front,
          middle,
          take-append_length,
          drop-append_length,
          take-append_length,
          drop-drop,
          drop-append_length,
          drop-append_length,
          u,
        )
        (join_plain_lem additional plain)

  -- A frame that is as long as its clear part, encrypted with a key, is enqueued, and what is enqueued,
  -- decrypted with the same key, is the frame. The initialisation vector has 16 bytes.
  pub decrypt-encrypt :
      (k : Key) (password : String) (iv : List ℕ) (frame : Frame)
      → crypto_offset frame.frame_type ≤ length frame.bytes
      → length iv ≡ iv_byte_length
      → (sent : Frame) × (encrypt crypto (some k) password iv frame ≡ enqueued sent)
        × (decrypt crypto (some k) sent ≡ frame)
  unfolding encrypt decrypt keep_or_replace
  decrypt-encrypt k password iv frame h li =
      let offset = crypto_offset frame.frame_type in
      let additional = take offset frame.bytes in
      let plain = drop offset frame.bytes in
      (
        sealed_frame k iv frame,
        seal_frame_lem k iv frame h,
        rw
            (unseal_parts k (sealed_frame k iv frame) additional (seal k iv additional plain) iv
              plain refl (omega (arith, length-take offset frame.bytes)) li
              (unseal-seal k iv additional plain))
            (ap (λ b. record frame { bytes = b }) (take-append-drop offset frame.bytes)),
      )
