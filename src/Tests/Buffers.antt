-- ===== src/Tests/Buffers.antt =====
-- The write queue and the read buffer.
use cpp_libp2p.Base.{ℕ, ◌≡◌, refl, some, List, [], ◌∷◌, arith}
use cpp_libp2p.Basic.WriteQueue.{WriteQueue, empty, enqueue, dequeue, ack_data_sent, callbacks}
use cpp_libp2p.Basic.WriteQueue.Valid
use cpp_libp2p.Basic.WriteQueue.Acks
use cpp_libp2p.Basic.WriteQueue.Fifo
use cpp_libp2p.Basic.ReadBuffer.{ReadBuffer, empty_buffer, consume, add_and_consume}
use cpp_libp2p.Basic.ReadBuffer
use cpp_libp2p.Basic.ReadBuffer.Valid as BufferValid
use cpp_libp2p.Basic.ReadBuffer.Adding
use cpp_libp2p.Basic.ReadBuffer.Consuming
use cpp_libp2p.Basic.ReadBuffer.AddConsume

abbrev message : List ℕ
message = 1 ∷ 2 ∷ 3 ∷ []

-- Two messages in a queue of ten bytes; two bytes of the first are sent.
abbrev two_messages : WriteQueue
two_messages = enqueue (4 ∷ 5 ∷ []) (some 8) (enqueue message (some 7) (empty 10))

abbrev after_two : WriteQueue
after_two = (dequeue 2 two_messages).2

two_messages-IsValid : Valid.IsValid two_messages
unfolding enqueue
two_messages-IsValid =
    Valid.enqueue-IsValid (4 ∷ 5 ∷ []) (some 8) (enqueue message (some 7) (empty 10)) (omega arith)
      (omega arith)
      (Valid.enqueue-IsValid message (some 7) (empty 10) (omega arith) (omega arith)
        (Valid.empty-IsValid 10))

dequeue_two : (dequeue 2 two_messages).1 ≡ 1 ∷ 2 ∷ []
unfolding dequeue enqueue
dequeue_two = refl

enqueue-IsValid_example : Valid.IsValid (enqueue message (some 7) (empty 10))
enqueue-IsValid_example =
    Valid.enqueue-IsValid message (some 7) (empty 10) (omega arith) (omega arith)
      (Valid.empty-IsValid 10)

dequeue-IsValid_example : Valid.IsValid (dequeue 2 two_messages).2
dequeue-IsValid_example = Valid.dequeue-IsValid 2 two_messages two_messages-IsValid

dequeue_lem_example : Fifo.DequeueSpec 2 two_messages (dequeue 2 two_messages)
dequeue_lem_example = Fifo.dequeue_lem 2 two_messages two_messages-IsValid

enqueue_lem_example :
    (Fifo.pending (enqueue message (some 7) (empty 10)).queue ≡ message)
    × (callbacks (enqueue message (some 7) (empty 10)).queue ≡ 7 ∷ [])
    × (Fifo.in_flight (enqueue message (some 7) (empty 10)).queue ≡ 0)
unfolding callbacks
enqueue_lem_example = Fifo.enqueue_lem message 7 (empty 10)

ack_data_sent_lem_example : Fifo.AckSpec 2 after_two (ack_data_sent 2 after_two)
ack_data_sent_lem_example =
    Fifo.ack_data_sent_lem 2 after_two (Valid.dequeue-IsValid 2 two_messages two_messages-IsValid)

ack_data_sent-IsValid_example : Valid.IsValid (ack_data_sent 2 after_two).1
ack_data_sent-IsValid_example =
    Acks.ack_data_sent-IsValid 2 after_two
      (Valid.dequeue-IsValid 2 two_messages two_messages-IsValid)

-- A buffer with small fragments: three bytes, and two more in the room left behind them.
abbrev first_state : ReadBuffer
first_state = empty_buffer 4

abbrev held : ReadBuffer
held = ReadBuffer.add message first_state

held-IsValid : BufferValid.IsValid held
held-IsValid =
    (Adding.add_lem message first_state (BufferValid.empty_buffer-IsValid 4 (omega arith))).valid

consume_two : (consume 2 held).0 ≡ 1 ∷ 2 ∷ []
unfolding consume ReadBuffer.add ReadBuffer.modify_back
consume_two = refl

add_lem_example : Adding.AddSpec message first_state (ReadBuffer.add message first_state)
add_lem_example =
    Adding.add_lem message first_state (BufferValid.empty_buffer-IsValid 4 (omega arith))

consume_lem_example : Consuming.ConsumeSpec 2 held (consume 2 held)
consume_lem_example = Consuming.consume_lem 2 held held-IsValid

add_and_consume_lem_example :
    AddConsume.AddConsumeSpec (4 ∷ 5 ∷ []) 4 held (add_and_consume (4 ∷ 5 ∷ []) 4 held)
add_and_consume_lem_example = AddConsume.add_and_consume_lem (4 ∷ 5 ∷ []) 4 held held-IsValid
