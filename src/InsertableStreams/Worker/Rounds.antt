-- ===== src/InsertableStreams/Worker/Rounds.antt =====
-- What holds through one update of a context holds through the loops of `handlePassword` and `handleMetadata`.
use meeting.SocketEvent.{TrackMetadata}
use meeting.Prelude.{String, List, [], ◌∷◌, Option, none, some}
use meeting.Prelude.Dict.{get, remove}
use meeting.InsertableStreams.Frames.{Crypto}
use meeting.InsertableStreams.Worker.{
  DecryptContext, Worker, update_decrypt_context, metadata_round, metadata_rounds, password_round,
  password_rounds,
}

module _ (crypto : Crypto) (Holds : Worker crypto → Type 0)
    (update : (mid user_id : String) (w : Worker crypto)
      → Holds w
      → Holds (update_decrypt_context crypto mid user_id w)) where
  password_round_keeps :
      (o : Option (DecryptContext crypto)) (mid : String) (w : Worker crypto)
      → Holds w
      → Holds (password_round crypto o mid w)
  unfolding password_round
  password_round_keeps none mid w h = h
  password_round_keeps (some c) mid w h = update mid c.user_id w h

  pub password_rounds_keep :
      (mids : List String) (w : Worker crypto) → Holds w → Holds (password_rounds crypto mids w)
  unfolding password_rounds
  password_rounds_keep [] w h = h
  password_rounds_keep (mid ∷ mids) w h =
      password_rounds_keep mids _ (password_round_keeps (get mid w.decrypt_context_by_mid) mid w h)

  module _
      (removed : (mid : String) (w : Worker crypto)
        → Holds w
        → Holds (record w { decrypt_context_by_mid = remove mid w.decrypt_context_by_mid })) where
    metadata_round_keeps :
        (o : Option TrackMetadata) (mid : String) (w : Worker crypto)
        → Holds w
        → Holds (metadata_round crypto o mid w)
    unfolding metadata_round
    metadata_round_keeps none mid w h = removed mid w h
    metadata_round_keeps (some m) mid w h = update mid m.user_id w h

    pub metadata_rounds_keep :
        (mids : List String) (w : Worker crypto) → Holds w → Holds (metadata_rounds crypto mids w)
    unfolding metadata_rounds
    metadata_rounds_keep [] w h = h
    metadata_rounds_keep (mid ∷ mids) w h =
        metadata_rounds_keep mids _ (metadata_round_keeps (get mid w.metadata_by_mid) mid w h)
