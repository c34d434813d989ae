-- ===== src/Muxer/Yamux/Connection/Writes.antt =====
-- The order of the packets on the raw connection.
use cpp_libp2p.Base.{
  ℕ, ◌≡◌, refl, sym, ap, ◌∙◌, ◌⊎◌, inl, inr, true, false, Bool-cases, Option-cases, none, List, [],
  ◌∷◌, ◌++◌, append-nil, append_assoc, arith, find_key, put_key, length, erase_key, ltb, ◌&&◌, ◌||◌,
  ◌==◌, ◌-◌, subst, is_empty, if◌then◌else◌, List-cases,
}
use cpp_libp2p.Muxer.Yamux.Frame.{header_length, reset_stream_msg, close_stream_msg}
use cpp_libp2p.Muxer.Yamux.Stream
use cpp_libp2p.Muxer.Yamux.Stream.{
  YamuxStream, write_stream_data, ack_received_bytes, reset_stream, stream_closed, defer_call, call,
  copy_out, abort,
}
use cpp_libp2p.Muxer.Yamux.Connection.{
  YamuxedConnection, WriteQueueItem, Event, raw_write, raw_read, raw_close, stream_event,
  handler_stream, handler_error, deferred_error, closed_callback, schedule_expire, schedule_cleanup,
  schedule_ping, emit, enqueue, erase_stream, adjust_expire_timer, close_stream, feedback,
  feedbacks, stream_ran, tell_written, write_next, on_data_written,
}

-- The packets that were given to the raw connection.
abbrev pub sent : List Event → List WriteQueueItem
sent [] = []
sent (raw_write item ∷ es) = item ∷ sent es
sent (_ ∷ es) = sent es

abbrev pub of_event : Event → List WriteQueueItem
of_event e = sent (e ∷ [])

sent-emit : (es : List Event) (e : Event) → sent (es ++ e ∷ []) ≡ sent es ++ of_event e
sent-emit [] e = refl
sent-emit (raw_write item ∷ es) e = ap (◌∷◌ item) (sent-emit es e)
sent-emit (raw_read ∷ es) e = sent-emit es e
sent-emit (raw_close ∷ es) e = sent-emit es e
sent-emit (stream_event id x ∷ es) e = sent-emit es e
sent-emit (handler_stream cb id ∷ es) e = sent-emit es e
sent-emit (handler_error cb x ∷ es) e = sent-emit es e
sent-emit (deferred_error cb x ∷ es) e = sent-emit es e
sent-emit (closed_callback ∷ es) e = sent-emit es e
sent-emit (schedule_expire ∷ es) e = sent-emit es e
sent-emit (schedule_cleanup ∷ es) e = sent-emit es e
sent-emit (schedule_ping ∷ es) e = sent-emit es e

-- The packets accepted so far, sent or queued.
abbrev pub packets : YamuxedConnection → List WriteQueueItem
packets c = sent c.log ++ c.write_queue

-- Packets wait only behind a write that is under way.
abbrev pub Paced : YamuxedConnection → Type 0
Paced c = (c.write_queue ≡ []) ⊎ (c.is_writing ≡ true)

-- Only new packets come behind the accepted ones, and none is sent while a write is under way.
pub record Appends (c d : YamuxedConnection) : Type 0 where
  pub added : List WriteQueueItem
  pub order : packets d ≡ packets c ++ added
  pub paced : Paced d
  pub busy :
      c.is_writing ≡ true
      → (d.is_writing ≡ true) × (sent d.log ≡ sent c.log) × (d.write_queue ≡ c.write_queue ++ added)

pub Appends-refl : (c : YamuxedConnection) → Paced c → Appends c c
Appends-refl c p = record {
  added = [];
  order = sym (append-nil (packets c));
  paced = p;
  busy = λ h. (h, refl, sym (append-nil c.write_queue));
}

pub Appends-trans : (c d e : YamuxedConnection) → Appends c d → Appends d e → Appends c e
Appends-trans c d e h k = record {
  added = h.added ++ k.added;
  order = k.order ∙ ap (λ l. l ++ k.added) h.order ∙ append_assoc (packets c) h.added k.added;
  paced = k.paced;
  busy = λ w.
      let a = h.busy w in
      let b = k.busy a.0 in
      (
        b.0,
        b.1 ∙ a.1,
        b.2 ∙ ap (λ l. l ++ k.added) a.2 ∙ append_assoc c.write_queue h.added k.added,
      );
}

sent-quiet : (es : List Event) (e : Event) → of_event e ≡ [] → sent (es ++ e ∷ []) ≡ sent es
sent-quiet es e h = sent-emit es e ∙ ap (◌++◌ (sent es)) h ∙ append-nil (sent es)

-- Steps that neither send nor queue a packet.
pub Appends-quiet :
    (c d : YamuxedConnection)
    → sent d.log ≡ sent c.log
    → d.write_queue ≡ c.write_queue
    → d.is_writing ≡ c.is_writing
    → Paced d
    → Appends c d
Appends-quiet c d h k w p = record {
  added = [];
  order = ap (λ l. l ++ d.write_queue) h ∙ ap (◌++◌ (sent c.log)) k ∙ sym (append-nil (packets c));
  paced = p;
  busy = λ e. (w ∙ e, h, k ∙ sym (append-nil c.write_queue));
}

emit-Appends :
    (e : Event) (c : YamuxedConnection) → of_event e ≡ [] → Paced c → Appends c (emit e c)
emit-Appends e c h p = Appends-quiet c (emit e c) (sent-quiet c.log e h) refl refl p

enqueue_busy :
    (packet : List ℕ) (id : ℕ) (c : YamuxedConnection)
    → c.is_writing ≡ true
    → enqueue packet id c
      ≡ record c { write_queue = c.write_queue ++ record { packet = packet; stream_id = id } ∷ [] }
unfolding enqueue
enqueue_busy packet id c h = ground arith

enqueue_idle :
    (packet : List ℕ) (id : ℕ) (c : YamuxedConnection)
    → c.is_writing ≡ false
    → enqueue packet id c
      ≡ emit
          (raw_write (record { packet = packet; stream_id = id }))
          (record c { is_writing = true })
unfolding enqueue
enqueue_idle packet id c h = ground arith

-- A packet that is enqueued comes behind all the packets accepted before, written at once if no
-- write is under way.
pub enqueue-Appends :
    (packet : List ℕ) (id : ℕ) (c : YamuxedConnection) → Paced c → Appends c (enqueue packet id c)
enqueue-Appends packet id c p = elim (Bool-cases c.is_writing) [
  | inl h ↦ rw (enqueue_busy packet id c h) (record {
    added = record { packet = packet; stream_id = id } ∷ [];
    order = sym (append_assoc (sent c.log) c.write_queue _);
    paced = inr h;
    busy = λ _. (h, refl, refl);
  })
  | inr h ↦
      let nil : c.write_queue ≡ [] = elim p [ inl e ↦ e | inr t ↦ cc ] in
      rw (enqueue_idle packet id c h) (record {
        added = record { packet = packet; stream_id = id } ∷ [];
        order = rw (nil, sent-emit) (rw (append-nil, append-nil) refl);
        paced = inr refl;
        busy = λ w. cc;
      })
]

set_streams-Appends :
    (m : List (ℕ × YamuxStream)) (c : YamuxedConnection)
    → Paced c
    → Appends c (record c { streams = m })
set_streams-Appends m c p = Appends-quiet c (record c { streams = m }) refl refl refl p

adjust-Appends : (c : YamuxedConnection) → Paced c → Appends c (adjust_expire_timer c)
unfolding adjust_expire_timer
adjust-Appends c p =
    elim (Bool-cases (
      ltb 0 c.config.no_streams_interval
      && is_empty c.streams
      && is_empty c.pending_outbound_streams)) [
        | inl h ↦ rw h (
            Appends-quiet c (emit schedule_expire (record c { inactivity_handle = true }))
              (sent-quiet c.log schedule_expire refl) refl refl p)
        | inr h ↦ rw h (Appends-refl c p)
      ]

erase_stream-Appends : (id : ℕ) (c : YamuxedConnection) → Paced c → Appends c (erase_stream id c)
unfolding erase_stream
erase_stream-Appends id c p =
    Appends-trans c (record c { streams = erase_key id c.streams }) _
      (set_streams-Appends (erase_key id c.streams) c p)
      (adjust-Appends (record c { streams = erase_key id c.streams }) p)

-- Two packets of work, one after the other.
then_erase :
    (packet : List ℕ) (id : ℕ) (c : YamuxedConnection)
    → Paced c
    → Appends c (erase_stream id (enqueue packet 0 c))
then_erase packet id c p =
    let first = enqueue-Appends packet 0 c p in
    Appends-trans c (enqueue packet 0 c) _ first
      (erase_stream-Appends id (enqueue packet 0 c) first.paced)

close_stream-Appends : (id : ℕ) (c : YamuxedConnection) → Paced c → Appends c (close_stream id c)
unfolding close_stream
close_stream-Appends id c p = elim (Option-cases (find_key id c.streams)) [
  | inl h ↦ rw (h, close_stream) (Appends-refl c p)
  | inr (stream, h) ↦
      rw (h, close_stream)
        (elim (Bool-cases stream.is_readable) [
          | inl r ↦ rw r (enqueue-Appends (close_stream_msg id) 0 c p)
          | inr r ↦ rw r (then_erase (close_stream_msg id) id c p)
        ])
]

feedback-Appends :
    (id : ℕ) (e : Stream.Event) (c : YamuxedConnection) → Paced c → Appends c (feedback id e c)
unfolding feedback
feedback-Appends id (write_stream_data bytes) c p = enqueue-Appends _ id c p
feedback-Appends id (ack_received_bytes n) c p = enqueue-Appends _ 0 c p
feedback-Appends id reset_stream c p = then_erase (reset_stream_msg id) id c p
feedback-Appends id stream_closed c p = close_stream-Appends id c p
feedback-Appends id (defer_call cb r) c p = emit-Appends _ c refl p
feedback-Appends id (call cb r) c p = emit-Appends _ c refl p
feedback-Appends id (copy_out bytes) c p = emit-Appends _ c refl p
feedback-Appends id abort c p = emit-Appends _ c refl p

feedbacks-Appends :
    (id : ℕ) (es : List Stream.Event) (c : YamuxedConnection)
    → Paced c
    → Appends c (feedbacks id es c)
unfolding feedbacks
feedbacks-Appends id [] c p = Appends-refl c p
feedbacks-Appends id (e ∷ es) c p =
    let first = feedback-Appends id e c p in
    Appends-trans c (feedback id e c) _ first
      (feedbacks-Appends id es (feedback id e c) first.paced)

pub stream_ran-Appends :
    (id : ℕ) (r : List Stream.Event × YamuxStream) (c : YamuxedConnection)
    → Paced c
    → Appends c (stream_ran id r c)
stream_ran-Appends id (events, stream) c p =
    Appends-trans c (record c { streams = put_key id stream c.streams }) _
      (set_streams-Appends (put_key id stream c.streams) c p)
      (feedbacks-Appends id events (record c { streams = put_key id stream c.streams }) p)

-- The bytes of a packet behind its header.
abbrev payload : WriteQueueItem → ℕ
payload item =
    if ltb (length item.packet) header_length then 0 else length item.packet - header_length

tell_written-Appends :
    (item : WriteQueueItem) (c : YamuxedConnection) → Paced c → Appends c (tell_written item c)
unfolding tell_written
tell_written-Appends item c p = elim (Bool-cases (item.stream_id == 0 || payload item == 0)) [
  | inl h ↦ rw h (Appends-refl c p)
  | inr h ↦ rw h (elim (Option-cases (find_key item.stream_id c.streams)) [
    | inl k ↦ rw k (Appends-refl c p)
    | inr (stream, k) ↦
        rw k (stream_ran-Appends item.stream_id (Stream.on_data_written (payload item) stream) c p)
  ])
]

next_none :
    (c : YamuxedConnection)
    → c.write_queue ≡ []
    → c.close_after_write ≡ false
    → write_next c ≡ record c { is_writing = false }
unfolding write_next
next_none c h k = ground arith

next_last :
    (c : YamuxedConnection)
    → c.write_queue ≡ []
    → c.close_after_write ≡ true
    → write_next c ≡ emit raw_close (record c { is_writing = false })
unfolding write_next
next_last c h k = ground arith

next_item :
    (c : YamuxedConnection) (item : WriteQueueItem) (rest : List WriteQueueItem)
    → c.write_queue ≡ item ∷ rest
    → write_next c ≡ emit (raw_write item) (record c { is_writing = true; write_queue = rest })
unfolding write_next
next_item c item rest h = ground arith

-- The connection when a write is over, `before` being sent by then and `waiting` waiting: the first
-- packet that waits is sent, and no other, or the connection is idle.
abbrev pub Continues : List WriteQueueItem → List WriteQueueItem → YamuxedConnection → Type 0
Continues before [] d = (sent d.log ≡ before) × (d.write_queue ≡ []) × (d.is_writing ≡ false)
Continues before (p ∷ ps) d =
    (sent d.log ≡ before ++ p ∷ []) × (d.write_queue ≡ ps) × (d.is_writing ≡ true)

write_next-Continues : (c : YamuxedConnection) → Continues (sent c.log) c.write_queue (write_next c)
write_next-Continues c = elim (List-cases c.write_queue) [
  | inr (item, rest, h) ↦ rw (next_item c item rest h) (
      subst
        (λ q.
          Continues (sent c.log) q
            (emit (raw_write item) (record c { is_writing = true; write_queue = rest })))
        (sym h) (sent-emit c.log (raw_write item), refl, refl))
  | inl h ↦
      subst (λ q. Continues (sent c.log) q (write_next c)) (sym h)
        (elim (Bool-cases c.close_after_write) [
          | inr k ↦ rw (next_none c h k) (refl, h, refl)
          | inl k ↦ rw (next_last c h k) (sent-quiet c.log raw_close refl, h, refl)
        ])
]

written_well :
    (item : WriteQueueItem) (c : YamuxedConnection)
    → on_data_written none item c ≡ write_next (tell_written item c)
unfolding on_data_written
written_well item c = refl

-- Packets are written one at a time, in the order in which they were accepted, and none is left
-- over. When the write that is under way is done, the stream that is told may add packets behind
-- those that wait; then exactly the first of all these is given to the raw connection and the others
-- stay queued in their order, or, when there is none, nothing is sent and the connection is idle.
pub on_data_written-Continues :
    (item : WriteQueueItem) (c : YamuxedConnection)
    → c.is_writing ≡ true
    → (added : List WriteQueueItem) × Continues
        (sent c.log)
        (c.write_queue ++ added)
        (on_data_written none item c)
on_data_written-Continues item c w =
    let told = tell_written-Appends item c (inr w) in
    let (_, same_sent, waiting) = told.busy w in
    let d = write_next (tell_written item c) in
    (
      told.added,
      rw (written_well item c) (
          subst (λ q. Continues (sent c.log) q d) waiting
            (subst (λ l. Continues l (tell_written item c).write_queue d) same_sent
              (write_next-Continues (tell_written item c)))),
    )
