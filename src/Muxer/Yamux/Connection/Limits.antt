-- ===== src/Muxer/Yamux/Connection/Limits.antt =====
-- How many streams a connection has: newStream, processSyn, processAck.
use cpp_libp2p.Base.{
  ℕ, suc, ◌+◌, ◌≤◌, ◌<◌, ◌≡◌, refl, ap, ◌⊎◌, inl, inr, Bool, true, false, Bool-cases, none, some,
  List, arith, length, find_key, contains_key, length-put_none, length-put_le, find-contains_false,
  lt_or_le,
}
use cpp_libp2p.Muxer.Yamux.Frame.{YamuxFrame, reset_stream_msg, ack_stream_msg, new_stream_msg}
use cpp_libp2p.Muxer.Yamux.Connection.{
  YamuxedConnection, enqueue, create_stream, new_stream, is_outbound, take_stream_id,
}
use cpp_libp2p.Muxer.Yamux.Connection.Frames.{process_syn, accept_inbound}

-- The streams and the handlers that wait for one.
abbrev pub total_streams : YamuxedConnection → ℕ
total_streams c = length c.streams + length c.pending_outbound_streams

pub enqueue-streams :
    (packet : List ℕ) (id : ℕ) (c : YamuxedConnection) → (enqueue packet id c).streams ≡ c.streams
unfolding enqueue
enqueue-streams packet id c = ground arith

pub enqueue-pending :
    (packet : List ℕ) (id : ℕ) (c : YamuxedConnection)
    → (enqueue packet id c).pending_outbound_streams ≡ c.pending_outbound_streams
unfolding enqueue
enqueue-pending packet id c = ground arith

accepted_length :
    (id : ℕ) (c : YamuxedConnection)
    → find_key id c.streams ≡ none
    → total_streams (accept_inbound id c) ≡ suc (total_streams c)
unfolding create_stream
accepted_length id c h = omega (
  arith,
  ap length (enqueue-streams (ack_stream_msg id) 0 (create_stream id c)),
  ap length (enqueue-pending (ack_stream_msg id) 0 (create_stream id c)),
  length-put_none id _ c.streams h,
)

-- A SYN for a new inbound stream that is within the rules.
pub record IsNewInbound (frame : YamuxFrame) (c : YamuxedConnection) : Type 0 where
  pub nonzero : 0 < frame.stream_id
  pub inbound : is_outbound c.new_stream_id frame.stream_id ≡ false
  pub unknown : contains_key frame.stream_id c.streams ≡ false
  pub handled : (h : ℕ) × (c.new_stream_handler ≡ some h)

syn_accepted :
    (frame : YamuxFrame) (c : YamuxedConnection)
    → IsNewInbound frame c
    → total_streams c ≤ c.config.maximum_streams
    → process_syn frame c ≡ (true, accept_inbound frame.stream_id c)
unfolding process_syn
syn_accepted frame c n le = ground (arith, n.handled.1)

syn_reset :
    (frame : YamuxFrame) (c : YamuxedConnection)
    → IsNewInbound frame c
    → c.config.maximum_streams < total_streams c
    → process_syn frame c ≡ (true, enqueue (reset_stream_msg frame.stream_id) 0 c)
unfolding process_syn
syn_reset frame c n lt = ground arith

pub record SynSpec (c : YamuxedConnection) (r : Bool × YamuxedConnection) : Type 0 where
  pub goes_on : r.0 ≡ true
  pub accepted :
      total_streams c ≤ c.config.maximum_streams → total_streams r.1 ≡ suc (total_streams c)
  pub refused : c.config.maximum_streams < total_streams c → r.1.streams ≡ c.streams

-- A SYN with an unknown inbound id makes a new stream as long as the streams and the handlers that
-- wait are no more than the maximum, the maximum included, so that one more than the maximum are
-- reached; beyond it no stream is made. The connection goes on reading in both cases.
pub process_syn_lem :
    (frame : YamuxFrame) (c : YamuxedConnection)
    → IsNewInbound frame c
    → SynSpec c (process_syn frame c)
process_syn_lem frame c n = elim (lt_or_le c.config.maximum_streams (total_streams c)) [
  | inl lt ↦ rw (syn_reset frame c n lt) (record {
    goes_on = refl;
    accepted = λ le. absurd (omega arith);
    refused = λ _. enqueue-streams (reset_stream_msg frame.stream_id) 0 c;
  })
  | inr le ↦ rw (syn_accepted frame c n le) (record {
    goes_on = refl;
    accepted = λ _.
        accepted_length frame.stream_id c (find-contains_false frame.stream_id c.streams n.unknown);
    refused = λ lt. absurd (omega arith);
  })
]

pub new_stream_refused :
    (c : YamuxedConnection)
    → (c.started ≡ false) ⊎ (c.config.maximum_streams ≤ length c.streams)
    → (new_stream c).1 ≡ c
unfolding new_stream
new_stream_refused c h = ground arith

pub new_stream_opened :
    (c : YamuxedConnection)
    → c.started ≡ true
    → length c.streams < c.config.maximum_streams
    → (new_stream c).1
      ≡ create_stream c.new_stream_id
          (enqueue (new_stream_msg c.new_stream_id) 0 (take_stream_id c))
unfolding new_stream
new_stream_opened c h lt = ground arith

created_length :
    (id : ℕ) (c : YamuxedConnection) → length (create_stream id c).streams ≤ length c.streams + 1
unfolding create_stream
created_length id c = length-put_le id _ c.streams

-- `newStream` keeps the number of streams within the maximum, whatever state the connection is in.
pub length-new_stream :
    (c : YamuxedConnection)
    → length c.streams ≤ c.config.maximum_streams
    → length (new_stream c).1.streams ≤ c.config.maximum_streams
length-new_stream c le = elim (Bool-cases c.started) [
  | inr h ↦ rw (new_stream_refused c (inl h)) le
  | inl h ↦ elim (lt_or_le (length c.streams) c.config.maximum_streams) [
    | inr ge ↦ rw (new_stream_refused c (inr ge)) le
    | inl lt ↦
        let d = enqueue (new_stream_msg c.new_stream_id) 0 (take_stream_id c) in
        rw (new_stream_opened c h lt) (
          omega (
            arith,
            created_length c.new_stream_id d,
            ap length (enqueue-streams (new_stream_msg c.new_stream_id) 0 (take_stream_id c)),
          ))
  ]
]
