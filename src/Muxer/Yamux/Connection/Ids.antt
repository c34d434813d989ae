-- ===== src/Muxer/Yamux/Connection/Ids.antt =====
-- YamuxedConnection::newStream: the new stream, and its id, which is not in use.
use cpp_libp2p.Base.{
  ℕ, zero, suc, ◌+◌, ◌%◌, ◌^◌, ◌≤◌, ◌<◌, ◌≡◌, refl, ap, ◌∙◌, inl, inr, Bool-cases, Option-cases,
  none, some, subst, false, true, ◌⊎◌, List, arith, length, lt_or_le, one, one_other, count, ◌==◌,
  keys, find_key, put_key, count-find_some, count-put_none, find-put, find-put_other,
}
use cpp_libp2p.Muxer.Yamux.Frame.{new_stream_msg}
use cpp_libp2p.Basic.WriteQueue.{default_size_limit}
use cpp_libp2p.Muxer.Yamux.Stream.{new_yamux_stream}
use cpp_libp2p.Muxer.Yamux.Connection.{
  YamuxedConnection, ConnectionError, NewStream, opened, not_opened, connection_not_active,
  connection_too_many_streams, enqueue, create_stream, new_stream, take_stream_id,
}
use cpp_libp2p.Muxer.Yamux.Connection.Limits.{enqueue-streams, enqueue-pending}

-- The ids of the own parity that are in use are below the next one.
pub record OwnIds (c : YamuxedConnection) : Type 0 where
  pub in_streams :
      (q : ℕ) → 1 ≤ count q (keys c.streams) → q % 2 ≡ c.new_stream_id % 2 → q < c.new_stream_id
  pub in_pending :
      (q : ℕ)
      → 1 ≤ count q (keys c.pending_outbound_streams)
      → q % 2 ≡ c.new_stream_id % 2
      → q < c.new_stream_id

not_used : (n k : ℕ) → (1 ≤ k → n % 2 ≡ n % 2 → n < n) → k ≡ 0
not_used n zero h = refl
not_used n (suc k) h = absurd (omega (arith, h (omega arith) refl))

find_unused : {A : Type 0} (k : ℕ) (m : List (ℕ × A)) → count k (keys m) ≡ 0 → find_key k m ≡ none
find_unused k m h = elim (Option-cases (find_key k m)) [
  | inl e ↦ e
  | inr (a, e) ↦ absurd (omega (arith, count-find_some k a m e))
]

enqueue-next_id :
    (packet : List ℕ) (id : ℕ) (c : YamuxedConnection)
    → (enqueue packet id c).new_stream_id ≡ c.new_stream_id
unfolding enqueue
enqueue-next_id packet id c = ground arith

-- A new own id is added, and the next one is two above it.
added_below :
    (n q k : ℕ)
    → (1 ≤ k → q % 2 ≡ n % 2 → q < n)
    → 1 ≤ k + one q n
    → q % 2 ≡ (n + 2) % 2
    → q < n + 2
added_below n q k h le parity = elim (Bool-cases (q == n)) [
  | inl e ↦ ground arith
  | inr e ↦ omega (arith, h (omega (arith, one_other q n e)) (omega arith))
]

created-OwnIds :
    (c d : YamuxedConnection)
    → OwnIds c
    → find_key c.new_stream_id c.streams ≡ none
    → d.streams ≡ c.streams
    → d.pending_outbound_streams ≡ c.pending_outbound_streams
    → d.new_stream_id ≡ c.new_stream_id + 2
    → OwnIds (create_stream c.new_stream_id d)
unfolding create_stream
created-OwnIds c d v h s p n = record {
  in_streams = λ q le parity.
      let fresh = new_yamux_stream d.config.maximum_window_size default_size_limit in
      let after = ap (λ m. count q (keys (put_key c.new_stream_id fresh m))) s in
      let below =
        added_below c.new_stream_id q (count q (keys c.streams)) (v.in_streams q)
          (omega (arith, after, count-put_none q c.new_stream_id fresh c.streams h))
          (parity ∙ ap (λ k. k % 2) n) in
      omega (arith, below);
  in_pending = λ q le parity.
      let below =
        added_below c.new_stream_id q (count q (keys c.pending_outbound_streams)) (v.in_pending q)
          (omega (arith, ap (λ m. count q (keys m)) p)) (parity ∙ ap (λ k. k % 2) n) in
      omega (arith, below);
}

taken_id :
    (c : YamuxedConnection)
    → c.new_stream_id + 2 < 2 ^ 32
    → (enqueue (new_stream_msg c.new_stream_id) 0 (take_stream_id c)).new_stream_id
      ≡ c.new_stream_id + 2
taken_id c lt =
    enqueue-next_id (new_stream_msg c.new_stream_id) 0 (take_stream_id c) ∙ (omega arith)

-- A stream with this id is opened between `c` and `d`.
pub record Opens (id : ℕ) (c d : YamuxedConnection) : Type 0 where
  pub not_in_streams : count id (keys c.streams) ≡ 0
  pub not_in_pending : count id (keys c.pending_outbound_streams) ≡ 0
  pub own_parity : id % 2 ≡ c.new_stream_id % 2
  pub is_there :
      find_key id d.streams
      ≡ some (new_yamux_stream c.config.maximum_window_size default_size_limit)
  pub others : (q : ℕ) → (q == id) ≡ false → find_key q d.streams ≡ find_key q c.streams

-- What `newStream` does: it opens a stream under an id that was in use neither by a stream nor by a
-- handler that waits, of the parity of the own ids, and leaves the other streams, or it refuses and
-- nothing changes. The ids of the own parity stay below the next one.
pub record NewStreamSpec (c : YamuxedConnection) (r : NewStream × YamuxedConnection) : Type 0 where
  pub own_ids : OwnIds r.1
  pub parity : r.1.new_stream_id % 2 ≡ c.new_stream_id % 2
  pub fresh : (id : ℕ) → r.0 ≡ opened id → Opens id c r.1
  pub refused : (e : ConnectionError) → r.0 ≡ not_opened e → r.1 ≡ c

opened_eq :
    (c : YamuxedConnection)
    → c.started ≡ true
    → length c.streams < c.config.maximum_streams
    → new_stream c ≡ (
      opened c.new_stream_id,
      create_stream c.new_stream_id (enqueue (new_stream_msg c.new_stream_id) 0 (take_stream_id c)),
    )
unfolding new_stream
opened_eq c h lt = ground arith

refused_eq :
    (c : YamuxedConnection)
    → (c.started ≡ false) ⊎ (c.config.maximum_streams ≤ length c.streams)
    → (e : ConnectionError) × (new_stream c ≡ (not_opened e, c))
unfolding new_stream
refused_eq c h = elim (Bool-cases c.started) [
  | inr s ↦ (connection_not_active, ground arith)
  | inl s ↦ (connection_too_many_streams, ground arith)
]

refused-NewStreamSpec :
    (c : YamuxedConnection) (e : ConnectionError) → OwnIds c → NewStreamSpec c (not_opened e, c)
refused-NewStreamSpec c e v = record {
  own_ids = v;
  parity = refl;
  fresh = λ id h. cc;
  refused = λ _ _. refl;
}

opened_id : (a b : ℕ) → opened a ≡ opened b → a ≡ b
opened_id a b h = cc

created-Opens :
    (c d : YamuxedConnection)
    → OwnIds c
    → d.streams ≡ c.streams
    → d.config ≡ c.config
    → Opens c.new_stream_id c (create_stream c.new_stream_id d)
unfolding create_stream
created-Opens c d v s k =
    let stream = new_yamux_stream d.config.maximum_window_size default_size_limit in
    record {
      not_in_streams = not_used c.new_stream_id _ (v.in_streams c.new_stream_id);
      not_in_pending = not_used c.new_stream_id _ (v.in_pending c.new_stream_id);
      own_parity = refl;
      is_there =
          find-put c.new_stream_id stream d.streams
          ∙ ap (λ g. some (new_yamux_stream g.maximum_window_size default_size_limit)) k;
      others = λ q h. find-put_other q c.new_stream_id stream d.streams h ∙ ap (find_key q) s;
    }

created_next :
    (id : ℕ) (d : YamuxedConnection) → (create_stream id d).new_stream_id ≡ d.new_stream_id
unfolding create_stream
created_next id d = refl

enqueue-config :
    (packet : List ℕ) (id : ℕ) (c : YamuxedConnection) → (enqueue packet id c).config ≡ c.config
unfolding enqueue
enqueue-config packet id c = ground arith

opened-NewStreamSpec :
    (c : YamuxedConnection)
    → OwnIds c
    → c.new_stream_id + 2 < 2 ^ 32
    → NewStreamSpec c (
      opened c.new_stream_id,
      create_stream c.new_stream_id (enqueue (new_stream_msg c.new_stream_id) 0 (take_stream_id c)),
    )
opened-NewStreamSpec c v lt =
    let d = enqueue (new_stream_msg c.new_stream_id) 0 (take_stream_id c) in
    let same = enqueue-streams (new_stream_msg c.new_stream_id) 0 (take_stream_id c) in
    let free = not_used c.new_stream_id _ (v.in_streams c.new_stream_id) in
    let next = taken_id c lt in
    record {
      own_ids =
          created-OwnIds c d v (find_unused c.new_stream_id c.streams free) same
            (enqueue-pending (new_stream_msg c.new_stream_id) 0 (take_stream_id c)) next;
      parity = omega (arith, created_next c.new_stream_id d, next);
      fresh = λ id h.
          subst (λ i. Opens i c (create_stream c.new_stream_id d)) (opened_id c.new_stream_id id h)
            (created-Opens c d v same
              (enqueue-config (new_stream_msg c.new_stream_id) 0 (take_stream_id c)));
      refused = λ e h. cc;
    }

-- `newStream` opens a stream under an id that is in use neither by a stream nor by a handler that
-- waits and that has the parity of the own ids; the stream stands in the map under this id, and no
-- other entry changes. Or it refuses, and the connection stays as it is. The ids of the own parity
-- in use stay below the next one, and the next one keeps its parity. The ids of the own parity in
-- use are below the next one before, and the ids have not reached the end of their 32 bits.
pub new_stream-NewStreamSpec :
    (c : YamuxedConnection)
    → OwnIds c
    → c.new_stream_id + 2 < 2 ^ 32
    → NewStreamSpec c (new_stream c)
new_stream-NewStreamSpec c v lt = elim (Bool-cases c.started) [
  | inr h ↦ let (e, k) = refused_eq c (inl h) in rw k (refused-NewStreamSpec c e v)
  | inl h ↦ elim (lt_or_le (length c.streams) c.config.maximum_streams) [
    | inr ge ↦ let (e, k) = refused_eq c (inr ge) in rw k (refused-NewStreamSpec c e v)
    | inl room ↦ rw (opened_eq c h room) (opened-NewStreamSpec c v lt)
  ]
]
