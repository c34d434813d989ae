-- ===== src/Basic/WriteQueue.antt =====
-- include/libp2p/basic/write_queue.hpp and src/basic/write_queue.cpp: the messages that a stream has
-- accepted and not yet had acknowledged. A callback is the number that names it, and an empty
-- std::function is `none`. The asserts of the code are preconditions, which the invariant of
-- WriteQueue/Valid.antt gives. Sizes count bytes in memory, so their sums do not reach 2 ^ 64.
pub mod Valid
pub mod Acks
pub mod Fifo
use cpp_libp2p.Base.{
  ℕ, suc, ◌+◌, ◌-◌, ◌*◌, ◌^◌, Bool, true, false, ◌||◌, Option, none, some, List, [], ◌∷◌, ◌++◌, ltb,
  leb, ◌==◌, if◌then◌else◌, length, get_elem?, set, take, drop,
}

-- WriteQueue::Data; `bytes` is its field `data`.
pub record Data : Type 0 where
  pub bytes : List ℕ
  pub acknowledged : ℕ
  pub unacknowledged : ℕ
  pub unsent : ℕ
  pub cb : Option ℕ

pub record WriteQueue : Type 0 where
  pub size_limit : ℕ
  pub active_index : ℕ
  pub total_unsent_size : ℕ
  pub queue : List Data

pub record AckResult : Type 0 where
  pub cb : Option ℕ
  pub size_to_ack : ℕ
  pub data_consistent : Bool

abbrev pub default_size_limit : ℕ
default_size_limit = 64 * 1024 * 1024

abbrev pub empty : ℕ → WriteQueue
empty limit = record { size_limit = limit; active_index = 0; total_unsent_size = 0; queue = [] }

unfoldable pub can_enqueue : ℕ → WriteQueue → Bool
can_enqueue size q = leb (size + q.total_unsent_size) q.size_limit

unfoldable pub enqueue : List ℕ → Option ℕ → WriteQueue → WriteQueue
enqueue bytes cb q = record q {
  total_unsent_size = q.total_unsent_size + length bytes;
  queue =
      q.queue
      ++ record {
        bytes = bytes;
        acknowledged = 0;
        unacknowledged = 0;
        unsent = length bytes;
        cb = cb;
      }
        ∷ [];
}

-- `sz` bytes of the item go on the wire.
abbrev pub sent_item : ℕ → Data → Data
sent_item sz d = record d { unsent = d.unsent - sz; unacknowledged = d.unacknowledged + sz }

-- The part of `dequeue` behind its first return: the new window, the bytes, the queue.
unfoldable pub dequeue_item : ℕ → Data → WriteQueue → ℕ × List ℕ × WriteQueue
dequeue_item window_size item q =
    let rest = drop (item.acknowledged + item.unacknowledged) item.bytes in
    let sz = (if ltb window_size (length rest) then window_size else length rest) in
    let out = (if ltb window_size (length rest) then take window_size rest else rest) in
    let item' = sent_item sz item in
    (
      window_size - sz,
      out,
      record q {
        active_index = if item'.unsent == 0 then suc q.active_index else q.active_index;
        total_unsent_size = q.total_unsent_size - sz;
        queue = set q.queue q.active_index item';
      },
    )

-- Returns the new window, the bytes to send, and the queue.
unfoldable pub dequeue : ℕ → WriteQueue → ℕ × List ℕ × WriteQueue
unfolding dequeue_item
dequeue window_size q =
    if q.total_unsent_size == 0 || window_size == 0 || leb (length q.queue) q.active_index
    then (window_size, [], q)
    else elim (get_elem? q.queue q.active_index) [
      | none ↦ (window_size, [], q)
      | some item ↦ dequeue_item window_size item q
    ]

abbrev pub inconsistent : AckResult
inconsistent = record { cb = none; size_to_ack = 0; data_consistent = false }

-- The front item is complete: it leaves, and the active index follows.
unfoldable pub ack_complete : Data → List Data → WriteQueue → AckResult × WriteQueue
ack_complete item rest q = (
  record {
    cb = item.cb;
    size_to_ack = item.acknowledged + item.unacknowledged + item.unsent;
    data_consistent = true;
  },
  record q { queue = rest; active_index = elim rest [ [] ↦ 0 | x ∷ xs ↦ q.active_index - 1 ] },
)

unfoldable pub ack_front : ℕ → List Data → WriteQueue → AckResult × WriteQueue
unfolding ack_complete
ack_front size [] q = (inconsistent, q)
ack_front size (item ∷ rest) q =
    if size == 0 || ltb item.unacknowledged size
    then (inconsistent, q)
    else if item.acknowledged + size == item.acknowledged + item.unacknowledged + item.unsent
    then ack_complete item rest q
    else (
      record { cb = none; size_to_ack = 0; data_consistent = true },
      record q {
        queue =
            record item {
              unacknowledged = item.unacknowledged - size;
              acknowledged = item.acknowledged + size;
            }
            ∷ rest;
      },
    )

unfoldable pub ack_data_sent : ℕ → WriteQueue → AckResult × WriteQueue
unfolding ack_front
ack_data_sent size q = ack_front size q.queue q

-- The callbacks that are set, in order.
unfoldable pub callbacks : List Data → List ℕ
callbacks [] = []
callbacks (d ∷ ds) = elim d.cb [ none ↦ callbacks ds | some c ↦ c ∷ callbacks ds ]

unfoldable pub without_callbacks : List Data → List Data
without_callbacks [] = []
without_callbacks (d ∷ ds) = record d { cb = none } ∷ without_callbacks ds

unfoldable pub get_all_callbacks : WriteQueue → List ℕ × WriteQueue
unfolding callbacks without_callbacks
get_all_callbacks q = (callbacks q.queue, record q { queue = without_callbacks q.queue })

unfoldable pub clear : WriteQueue → WriteQueue
clear q = record q { active_index = 0; total_unsent_size = 0; queue = [] }
