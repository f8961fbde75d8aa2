-- ===== src/InsertableStreams/Worker/Salt.antt =====
-- The salt of a key (`createKey`).
use mathlib.Core.List.{append_assoc, append-nil}
use native.Mathlib.Nat.{add-zero}
use meeting.Prelude.{ℕ, suc, ◌+◌, ◌≡◌, List, [], ◌∷◌, ◌++◌, some, length, length-append, arith}
use meeting.Codec.Bytes.{write_behind}
use meeting.InsertableStreams.Frames.{Crypto}
use meeting.InsertableStreams.Worker.{salt_of}

module _ (crypto : Crypto) where
  -- Both `set`s of `createKey` are in range, and the salt is the bytes of the page address, a zero and the
  -- bytes of the user id.
  pub salt_of_lem :
      (url_bytes user_id_bytes : List ℕ)
      → salt_of crypto url_bytes user_id_bytes ≡ some (url_bytes ++ (0 ∷ user_id_bytes))
  unfolding salt_of
  salt_of_lem u v =
      let total : length u + 1 + length v ≡ length u + (1 + length v) = omega arith in
      let w1 = write_behind [] u (1 + length v) in
      let w2 = write_behind (u ++ (0 ∷ [])) v 0 in
      let one : 1 + length v ≡ suc (length v) = omega arith in
      rw (total, w1, one) (simp (length-append, append_assoc, append-nil, add-zero) at w2)
