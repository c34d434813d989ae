-- ===== src/Muxer/Yamux.antt =====
-- The yamux multiplexer, src/muxer/yamux: frames, the reading state, streams, the connection.
pub mod Frame
pub mod ReadingState
pub mod Stream
pub mod Connection
