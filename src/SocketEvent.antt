-- ===== src/SocketEvent.antt =====
-- What the server sends about tracks (src/client/SocketEvent.ts).
use meeting.Prelude.{String, List}

pub record TrackMetadata : Type 0 where
  pub mid : String
  pub kind : String
  pub user_id : String
  pub stream_id : String

pub record MetadataPayload : Type 0 where
  pub user_id : String
  pub metadata : List TrackMetadata
