-- ===== src/Lib.antt =====
-- Verification of the client of the meeting program (src/client/, TypeScript).
--
-- The program is a web client for video calls. Peers send chat messages over data channels, cut into
-- chunks by the codec. Each file below opens with the part of the source that it is about.
--
--   Prelude   shared names; numbers, lists, bits, decimal text, objects used as maps
--   Codec     src/client/codec: the header of a chunk (Codec/Header), the worker's chunk loop
--             (Codec/Worker), the encoder (Codec/Encoder), the decoder (Codec/Decoder)
--   SocketEvent  src/client/SocketEvent.ts: what the server says about a track
--   InsertableStreams  src/client/insertable-streams: how a media frame is encrypted (InsertableStreams/Frames),
--             the worker's contexts and messages (InsertableStreams/Worker), the class of the
--             page that posts them (InsertableStreams/Client)
--   Reducers  src/client/reducers: media, messages, notifications, windowStates and nicknames, one file each,
--             with src/client/nickname.ts in Reducers/Nicknames; streams.ts in Reducers/Streams (tracks that
--             come and go), Reducers/Streams/Peers (metadata, users and peers that leave) and
--             Reducers/Streams/Local (the user's own streams, recording, the whole reducer); peers.ts in
--             Reducers/Peers, with the tracks that each peer sends
--   Peers     src/client/actions/PeerActions.ts: how peers are made and what their events do; in
--             Peers/Socket, the messages of the server, src/client/actions/SocketActions.ts
--   Messaging src/client/messaging.ts: messages of the chat on their way out, through the encoder of Codec; at
--             the other end they come in by the `handleData` of Peers
--   SocketClient  src/client/ws/index.ts: the socket that connects again
--
-- Numbers are ℕ where the source's are never negative, and ℤ in the two sizes of a header, which
-- 32-bit operations may read as negative. Byte arrays are lists of bytes. Texts are strings of
-- Unicode characters. `TextEncoder` and `TextDecoder` are parameters.
-- The worker's loop runs on fuel, the size of the message and one more; each round takes at least one byte.
-- Exceptions of `set` and `new Uint8Array` are values.
-- The cipher and the key derivation of the platform are parameters (InsertableStreams.Frames.Crypto). A pending
-- promise of the worker is a job of its state, which the platform settles or refuses in any order.
-- MediaStream objects and their addresses are parameters too (Reducers.Streams.MediaPlatform), and so are the peer
-- that records (Reducers.Streams.Local.RecorderPlatform), JSON, and whether a data channel takes a chunk. What the
-- platform does next to a socket is a relation between states (SocketClient.Event). The calls that handlers
-- make of simple-peer and of the codec of the media are effects in order (Peers.Effect). A simple-peer that is
-- destroyed, by the program or by itself, sends its `close` event after the handler that runs has returned. An open
-- peer takes a track that it never had; what it does with another is not assumed (Reducers.Peers.Sending.SendLaws).
-- Not modelled: the actions of media, calls and chat, the components, the
-- server, and the requests of the recording peer, which have no state of the page.
-- Memory limits, the transfer of buffers and the choice between a worker and its shim are not modelled.
pub mod Codec
pub mod InsertableStreams
pub mod Prelude
pub mod Reducers
pub mod SocketEvent
pub mod SocketClient
pub mod Peers
pub mod Messaging
