-- ===== src/Basic/Collector.antt =====
-- The class FixedBufferCollector of include/libp2p/basic/read_buffer.hpp and
-- src/basic/read_buffer.cpp: a message of a known size that arrives in pieces. The capacity of the
-- vector is part of the model, since `expect` decides by it. The assert of `add` is a precondition.
pub mod Laws
use cpp_libp2p.Base.{
  ℕ, ◌+◌, ◌-◌, ◌*◌, ◌/◌, max, ◌&&◌, Option, none, some, List, [], ◌++◌, ltb, leb, ◌==◌,
  if◌then◌else◌, length, take, drop,
}

pub record FixedBufferCollector : Type 0 where
  pub memory_threshold : ℕ
  pub expected_size : ℕ
  pub buffer : List ℕ
  pub capacity : ℕ

abbrev pub default_memory_threshold : ℕ
default_memory_threshold = 65536

abbrev pub new_collector : ℕ → ℕ → FixedBufferCollector
new_collector expected threshold = record {
  memory_threshold = threshold;
  expected_size = expected;
  buffer = [];
  capacity = 0;
}

-- The current message, if it is not complete, is discarded.
unfoldable pub expect : ℕ → FixedBufferCollector → FixedBufferCollector
expect size c = record c {
  expected_size = size;
  buffer = [];
  capacity =
      if ltb c.memory_threshold c.capacity && ltb size (c.capacity * 3 / 4) then 0 else c.capacity;
}

-- The part of `add` behind the direct split: the message if it is full, the bytes left over.
unfoldable pub collect :
    List ℕ → FixedBufferCollector → Option (List ℕ) × List ℕ × FixedBufferCollector
collect bytes c =
    let unread = c.expected_size - length c.buffer in
    let appending = (if leb unread (length bytes) then unread else length bytes) in
    let buffer' = c.buffer ++ take appending bytes in
    if unread == 0 then (none, bytes, c) else (
      (if leb unread (length bytes) then some buffer' else none),
      drop appending bytes,
      record c { buffer = buffer'; capacity = max c.capacity (length buffer') },
    )

unfoldable pub add : List ℕ → FixedBufferCollector → Option (List ℕ) × List ℕ × FixedBufferCollector
unfolding collect
add bytes c =
    if length c.buffer == 0
    then if leb c.expected_size (length bytes)
      then (
        some (take c.expected_size bytes),
        drop c.expected_size bytes,
        record c { expected_size = 0 },
      )
      else collect bytes (record c { capacity = max c.capacity c.expected_size })
    else collect bytes c

unfoldable pub reset : FixedBufferCollector → FixedBufferCollector
reset c = record c { expected_size = 0; buffer = []; capacity = 0 }
