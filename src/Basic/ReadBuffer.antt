-- ===== src/Basic/ReadBuffer.antt =====
-- The class ReadBuffer of include/libp2p/basic/read_buffer.hpp and src/basic/read_buffer.cpp: bytes
-- received and not yet read, in a row of allocated fragments. An output span is its size, and the
-- bytes that are copied into it are returned. The capacity of a vector is part of the model, since
-- the code decides by it; `reserve` and `insert` give what the C++ standard promises at least.
-- The asserts of the code are preconditions, which the invariant of ReadBuffer/Valid.antt gives.
pub mod Valid
pub mod Adding
pub mod Loop
pub mod Consuming
pub mod AddConsume
use cpp_libp2p.Base.{
  ℕ, zero, suc, ◌+◌, ◌-◌, ◌*◌, max, Bool, true, false, Option, none, some, List, [], ◌∷◌, ◌++◌, ltb,
  leb, ◌==◌, if◌then◌else◌, length, take, drop,
}

-- std::vector<uint8_t> with its capacity.
pub record Fragment : Type 0 where
  pub bytes : List ℕ
  pub capacity : ℕ

pub record ReadBuffer : Type 0 where
  pub alloc_granularity : ℕ
  pub total_size : ℕ
  pub first_byte_offset : ℕ
  pub capacity_remains : ℕ
  pub fragments : List Fragment

abbrev pub default_alloc_granularity : ℕ
default_alloc_granularity = 65536

abbrev pub empty_buffer : ℕ → ReadBuffer
empty_buffer granularity = record {
  alloc_granularity = granularity;
  total_size = 0;
  first_byte_offset = 0;
  capacity_remains = 0;
  fragments = [];
}

abbrev pub is_empty_buffer : ReadBuffer → Bool
is_empty_buffer b = b.total_size == 0

abbrev pub reserve : ℕ → Fragment → Fragment
reserve n f = record f { capacity = max f.capacity n }

abbrev pub insert_end : List ℕ → Fragment → Fragment
insert_end bytes f = record {
  bytes = f.bytes ++ bytes;
  capacity = max f.capacity (length f.bytes + length bytes);
}

-- A change of `fragments_.back()`.
unfoldable pub modify_back : (Fragment → Fragment) → List Fragment → List Fragment
modify_back g [] = []
modify_back g (f ∷ fs) = elim fs [ [] ↦ g f ∷ [] | x ∷ xs ↦ f ∷ modify_back g fs ]

unfoldable pub add : List ℕ → ReadBuffer → ReadBuffer
add bytes b =
    let sz = length bytes in
    if sz == 0
    then b
    else if leb sz b.capacity_remains
    then record b {
      fragments = modify_back (insert_end bytes) b.fragments;
      capacity_remains = b.capacity_remains - sz;
      total_size = b.total_size + sz;
    }
    else if ltb 0 b.capacity_remains
    then record b {
      fragments =
          modify_back
            (λ f. insert_end bytes (reserve (length f.bytes + sz + b.alloc_granularity) f))
            b.fragments;
      capacity_remains = b.alloc_granularity;
      total_size = b.total_size + sz;
    }
    else record b {
      fragments =
          b.fragments
          ++ insert_end bytes
              (reserve (sz + b.alloc_granularity) (record { bytes = []; capacity = 0 }))
            ∷ [];
      capacity_remains = b.alloc_granularity;
      total_size = b.total_size + sz;
    }

-- The bytes of the fragments behind the first one.
abbrev pub joined : List Fragment → List ℕ
joined [] = []
joined (f ∷ fs) = f.bytes ++ joined fs

-- What `consumeAll` copies out: the first fragment from the offset on, then the others.
abbrev pub contents : ℕ → List Fragment → List ℕ
contents offset [] = []
contents offset (f ∷ fs) = drop offset f.bytes ++ joined fs

-- The first fragment that is not too large, cleared.
unfoldable pub kept_fragment : ℕ → List Fragment → Option Fragment
kept_fragment granularity [] = none
kept_fragment granularity (f ∷ fs) =
    if leb f.capacity (granularity * 2)
    then some (record f { bytes = [] })
    else kept_fragment granularity fs

unfoldable pub consume_all : ReadBuffer → List ℕ × ReadBuffer
unfolding kept_fragment
consume_all b = (
  contents b.first_byte_offset b.fragments,
  elim (kept_fragment b.alloc_granularity b.fragments) [
    | none ↦ record b {
      total_size = 0;
      first_byte_offset = 0;
      capacity_remains = 0;
      fragments = [];
    }
    | some f ↦ record b {
      total_size = 0;
      first_byte_offset = 0;
      capacity_remains = f.capacity;
      fragments = f ∷ [];
    }
  ],
)

-- `consumePart`: the bytes, the new offset and the new fragments.
unfoldable pub consume_part : ℕ → ℕ → List Fragment → List ℕ × ℕ × List Fragment
consume_part n offset [] = ([], offset, [])
consume_part n offset (f ∷ fs) =
    let fragment_size = length f.bytes - offset in
    let n' = (if ltb fragment_size n then fragment_size else n) in
    let out = take n' (drop offset f.bytes) in
    if ltb n' fragment_size then (out, offset + n', f ∷ fs) else (out, 0, fs)

-- The loop of `consume`. Each round takes a byte at least, so `remains` rounds are enough.
unfoldable pub consume_loop : ℕ → ℕ → ℕ → List Fragment → List ℕ × ℕ × List Fragment
consume_loop zero remains offset fs = ([], offset, fs)
consume_loop (suc fuel) remains offset fs = elim (remains == 0) [
  | true ↦ ([], offset, fs)
  | false ↦
      let (out, offset1, fs1) = consume_part remains offset fs in
      let (rest, offset2, fs2) = consume_loop fuel (remains - length out) offset1 fs1 in
      (out ++ rest, offset2, fs2)
]

-- `consume` into a span of `n` bytes.
unfoldable pub consume : ℕ → ReadBuffer → List ℕ × ReadBuffer
unfolding consume_all consume_loop consume_part
consume n b =
    if is_empty_buffer b
    then ([], b)
    else if leb b.total_size n
    then consume_all b
    else let (out, offset, fs) = consume_loop n n b.first_byte_offset b.fragments in
      (out, record b { total_size = b.total_size - n; first_byte_offset = offset; fragments = fs })

-- `addAndConsume`. It calls itself once at most, on an empty buffer; with no fuel left it would
-- copy nothing.
unfoldable pub add_and_consume_fuel : ℕ → List ℕ → ℕ → ReadBuffer → List ℕ × ReadBuffer
add_and_consume_fuel zero bytes n b = ([], b)
add_and_consume_fuel (suc fuel) bytes n b =
    let (all, drained) = consume_all b in
    let (more, final) = add_and_consume_fuel fuel bytes (n - length all) drained in
    let (out, rest) = consume n b in
    if length bytes == 0
    then consume n b
    else if n == 0
    then ([], add bytes b)
    else if is_empty_buffer b
    then if leb (length bytes) n then (bytes, b) else (take n bytes, add (drop n bytes) b)
    else if leb n b.total_size
    then (out, add bytes rest)
    else (all ++ more, final)

unfoldable pub add_and_consume : List ℕ → ℕ → ReadBuffer → List ℕ × ReadBuffer
unfolding add_and_consume_fuel
add_and_consume bytes n b = add_and_consume_fuel 2 bytes n b

unfoldable pub clear_buffer : ReadBuffer → ReadBuffer
clear_buffer b = record b {
  total_size = 0;
  first_byte_offset = 0;
  capacity_remains = 0;
  fragments = [];
}
