-- ===== src/Lib.antt =====
-- A verification library for cpp-libp2p.
--
-- cpp-libp2p is a network stack in layers. A transport gives a raw connection, a security protocol
-- encrypts it, a multiplexer splits it into streams, and the protocols (Kademlia, gossip, identify,
-- ping) run over the streams; the peer and network modules keep what is known of peers and
-- connections. This library models the parts whose behaviour the code itself decides, as pure
-- functions on records, and proves what makes them correct.
--
-- Base: shared names, Boolean tests, lists over the native numbers, bit masks.
-- Basic.WriteQueue: src/basic/write_queue.cpp. Basic.ReadBuffer and Basic.Collector: the classes
--   ReadBuffer and FixedBufferCollector of src/basic/read_buffer.cpp.
-- Basic.Scheduler: src/basic/scheduler/scheduler_impl.cpp, with the queue and the timer of its
--   backend as events, and the calls that callbacks make as a parameter.
-- Basic.VarintPrefixReader: src/basic/varint_prefix_reader.cpp.
-- Common.Byteutil: src/common/byteutil.cpp. Multi.Uvarint: src/multi/uvarint.cpp.
-- Muxer.Yamux.Frame and Muxer.Yamux.ReadingState: src/muxer/yamux/yamux_frame.cpp and
--   yamux_reading_state.cpp; the reading state feeds headers and data to its owner by callbacks.
-- Muxer.Yamux.Stream: src/muxer/yamux/yamux_stream.cpp; it sends from a write queue, keeps a read
--   buffer, and tells the connection by events.
-- Muxer.Yamux.Connection and Muxer.Yamux.Connection.Frames: src/muxer/yamux/yamuxed_connection.cpp;
--   it gives the callbacks of the reading state, keeps the streams, and does what their events ask.
-- Kademlia.NodeId: include/libp2p/protocol/kademlia/node_id.hpp. Kademlia.RoutingTable:
--   src/protocol/kademlia/impl/peer_routing_table_impl.cpp; the hash of a peer id is a parameter.
-- Peer.AddressRepository: src/peer/address_repository/inmem_address_repository.cpp.
-- ProtocolMuxer.Multiselect: include/libp2p/protocol_muxer/multiselect/common.hpp, with the
--   children Serializing (serializing.hpp there) and Parser
--   (src/protocol_muxer/multiselect/parser.cpp), which uses the readers of Basic, and
--   Instance (src/protocol_muxer/multiselect/multiselect_instance.cpp): a negotiation, which asks
--   its connection for reads and writes; Instance.Session puts two of them on one connection, and
--   Instance.Versions, Instance.Negotiation and Instance.Start play a negotiation to its end.
-- Gossip.PeerSet and Gossip.TopicSubscriptions: src/protocol/gossip/impl/peer_set.cpp and
--   topic_subscriptions.cpp, with what remote_subscriptions.cpp does for one topic; random sampling
--   is a parameter.
-- Tests: runs at concrete inputs, and each theorem at an input that meets its hypotheses.
--
-- Conventions. A byte is a number below 256 and a span or a vector of bytes is a list of numbers. A
-- machine integer is a natural number with its wrap-around written out where the code can reach it;
-- sizes of objects in memory are taken to stay below 2 ^ 64. A std::function is the number that
-- names it, since the code only stores, compares with empty, and calls it; a call is a value in the
-- result. A method is a function from the old state to the new one and what it returns or does. An
-- assert of the code is a precondition, which the invariants give.
--
-- Loops are recursions on a list or on fuel: the fuel is the number of bytes for the loops of
-- ReadBuffer::consume and YamuxReadingState::onDataReceived (each round takes a byte), ten rounds
-- for the encoding of a 64-bit varint, two calls for addAndConsume, and the number of unsent bytes
-- and one more for YamuxStream::doWrite; the theorems about them give the full result, so the fuel
-- is enough.
--
-- Not modelled: cryptography, sockets, TLS, QUIC, websocket and DNS (calls of third-party
-- libraries), generated protobuf code, logging and metrics, dependency injection.
pub mod Base
pub mod Basic
pub mod Common
pub mod Multi
pub mod Muxer
pub mod Kademlia
pub mod Gossip
pub mod Peer
pub mod ProtocolMuxer
pub mod Tests
