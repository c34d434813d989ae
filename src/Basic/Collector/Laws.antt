-- ===== src/Basic/Collector/Laws.antt =====
-- What `add` does with the next piece of a message.
use cpp_libp2p.Base.{
  ℕ, ◌+◌, ◌-◌, ◌≤◌, ◌<◌, ◌≡◌, Option, none, some, List, [], ◌++◌, arith, length, take, drop,
  take_all, drop_all, length_zero,
}
use cpp_libp2p.Basic.Collector.{FixedBufferCollector, add}

-- The piece ends before the message: all of it is kept, and nothing is given out.
pub record Waits (bytes : List ℕ) (c : FixedBufferCollector)
    (r : Option (List ℕ) × List ℕ × FixedBufferCollector) : Type 0 where
  pub nothing : r.0 ≡ none
  pub used : r.1 ≡ []
  pub kept : r.2.buffer ≡ c.buffer ++ bytes
  pub same_size : r.2.expected_size ≡ c.expected_size
  pub same_threshold : r.2.memory_threshold ≡ c.memory_threshold

-- The piece holds the end of the message: the message is given out, and what follows it is left.
pub record Completes (unread : ℕ) (bytes : List ℕ) (c : FixedBufferCollector)
    (r : Option (List ℕ) × List ℕ × FixedBufferCollector) : Type 0 where
  pub message : r.0 ≡ some (c.buffer ++ take unread bytes)
  pub left : r.1 ≡ drop unread bytes
  pub same_threshold : r.2.memory_threshold ≡ c.memory_threshold

pub add-Waits :
    (bytes : List ℕ) (c : FixedBufferCollector)
    → length c.buffer + length bytes < c.expected_size
    → Waits bytes c (add bytes c)
unfolding add
add-Waits bytes c lt = record {
  nothing = ground arith;
  used = ground (arith, drop_all (length bytes) bytes (omega arith));
  kept = ground (arith, take_all (length bytes) bytes (omega arith));
  same_size = ground arith;
  same_threshold = ground arith;
}

pub add-Completes :
    (unread : ℕ) (bytes : List ℕ) (c : FixedBufferCollector)
    → length c.buffer + unread ≡ c.expected_size
    → 0 < unread
    → unread ≤ length bytes
    → Completes unread bytes c (add bytes c)
unfolding add
add-Completes unread bytes c e pos le =
    let u : c.expected_size - length c.buffer ≡ unread = omega arith in
    record {
      message = ground (arith, length_zero c.buffer);
      left = ground (arith, length_zero c.buffer);
      same_threshold = ground arith;
    }
