-- ===== src/Basic/WriteQueue/Fifo.antt =====
-- The write queue as a first-in first-out sequence of bytes.
use cpp_libp2p.Base.{
  ℕ, zero, suc, ◌+◌, ◌-◌, ◌≤◌, ◌<◌, ◌≡◌, refl, sym, ap, ◌∙◌, ◌⊎◌, inl, inr, Option, none, some,
  List, [], ◌∷◌, ◌++◌, append-nil, append_assoc, arith, length, length-take, true, false, take_all,
  get_elem?, set, take, drop, drop_all, drop-drop, take-append-drop, some_inj,
}
use cpp_libp2p.Basic.WriteQueue.{
  Data, WriteQueue, AckResult, inconsistent, callbacks, enqueue, sent_item, dequeue, ack_data_sent,
}
use cpp_libp2p.Basic.WriteQueue.Valid.{
  IsSent, sum_unsent-set, Items, IsValid, unsent_bytes, length-unsent, idle, part, whole,
  dequeue_cases,
}
use cpp_libp2p.Basic.WriteQueue.Acks.{refused, partial, complete, ack_cases, acked_item}

-- The bytes still to be handed out, in order.
abbrev pub pending : List Data → List ℕ
pending [] = []
pending (d ∷ ds) = unsent_bytes d ++ pending ds

-- The bytes handed out and not yet acknowledged, by count.
abbrev pub in_flight : List Data → ℕ
in_flight [] = 0
in_flight (d ∷ ds) = d.unacknowledged + in_flight ds

pending-append : (ds : List Data) (d : Data) → pending (ds ++ d ∷ []) ≡ pending ds ++ unsent_bytes d
pending-append [] d = append-nil (unsent_bytes d)
pending-append (x ∷ xs) d =
    ap (◌++◌ (unsent_bytes x)) (pending-append xs d)
    ∙ sym (append_assoc (unsent_bytes x) (pending xs) (unsent_bytes d))

unsent-IsSent : (d : Data) → IsSent d → unsent_bytes d ≡ []
unsent-IsSent d s =
    drop_all (d.acknowledged + d.unacknowledged) d.bytes (omega (arith, s.sizes, s.all_sent))

unsent-sent_item : (sz : ℕ) (d : Data) → unsent_bytes (sent_item sz d) ≡ drop sz (unsent_bytes d)
unsent-sent_item sz d =
    let e : d.acknowledged + (d.unacknowledged + sz) ≡ d.acknowledged + d.unacknowledged + sz =
      omega arith in
    rw (e, drop-drop (d.acknowledged + d.unacknowledged) sz d.bytes)

pending-set :
    (k sz : ℕ) (ds : List Data) (d : Data)
    → Items k ds
    → get_elem? ds k ≡ some d
    → pending ds ≡ take sz (unsent_bytes d) ++ pending (set ds k (sent_item sz d))
pending-set zero sz [] d h e = cc
pending-set zero sz (x ∷ xs) d h e =
    rw (some_inj e, unsent-sent_item sz d)
      (rw (← append_assoc, take-append-drop sz (unsent_bytes d)))
pending-set (suc k) sz [] d h e = absurd h
pending-set (suc k) sz (x ∷ xs) d h e = rw (unsent-IsSent x h.0) (pending-set k sz xs d h.1 e)

in_flight-set :
    (k sz : ℕ) (ds : List Data) (d : Data)
    → get_elem? ds k ≡ some d
    → in_flight (set ds k (sent_item sz d)) ≡ in_flight ds + sz
in_flight-set zero sz [] d e = cc
in_flight-set zero sz (x ∷ xs) d e = ground (arith, some_inj e)
in_flight-set (suc k) sz [] d e = cc
in_flight-set (suc k) sz (x ∷ xs) d e = omega (arith, in_flight-set k sz xs d e)

-- What one call of `dequeue` may do to the queue.
pub record DequeueSpec (w : ℕ) (q : WriteQueue) (r : ℕ × List ℕ × WriteQueue) : Type 0 where
  pub fifo : pending q.queue ≡ r.1 ++ pending r.2.queue
  pub window : r.0 + length r.1 ≡ w
  pub total : r.2.total_unsent_size + length r.1 ≡ q.total_unsent_size
  pub flight : in_flight r.2.queue ≡ in_flight q.queue + length r.1
  pub progress : 0 < w → 0 < q.total_unsent_size → 0 < length r.1
  pub most :
      (d : Data)
      → get_elem? q.queue q.active_index ≡ some d
      → 0 < q.total_unsent_size
      → r.1 ≡ take w (unsent_bytes d)
  pub calls : callbacks r.2.queue ≡ callbacks q.queue

callbacks-set :
    (k sz : ℕ) (ds : List Data) (d : Data)
    → get_elem? ds k ≡ some d
    → callbacks (set ds k (sent_item sz d)) ≡ callbacks ds
unfolding callbacks
callbacks-set zero sz [] d e = cc
callbacks-set zero sz (x ∷ xs) d e = rw (some_inj e)
callbacks-set (suc k) sz [] d e = cc
callbacks-set (suc k) sz (x ∷ xs) d e = ground (arith, callbacks-set k sz xs d e)

-- `dequeue` hands out the next bytes in the order of the messages, as many as the window and the
-- active message allow: while the unsent total is not zero they are the unsent bytes of the active
-- message, cut off at the window. They are the front of what was pending; the window and the unsent
-- total shrink by their count, which is positive unless the window or the total is zero; the bytes
-- in flight grow by it, and no callback is touched. The queue meets its invariant.
pub dequeue_lem : (w : ℕ) (q : WriteQueue) → IsValid q → DequeueSpec w q (dequeue w q)
dequeue_lem w q v = elim (dequeue_cases w q v) [
  | idle z e ↦ rw e (record {
    fifo = refl;
    window = omega arith;
    total = omega arith;
    flight = omega arith;
    progress = λ hw ht. ground arith;
    most = λ d at ht. none_taken d z ht;
    calls = refl;
  })
  | part d at a hw lt e ↦ rw e (record {
    fifo = pending-set q.active_index w q.queue d v.items at;
    window = omega (arith, length-take w (unsent_bytes d), length-unsent d a);
    total = omega (
      arith,
      v.total,
      sum_unsent-set q.active_index w q.queue d at (omega arith),
      length-take w (unsent_bytes d),
      length-unsent d a,
    );
    flight = omega (
      arith,
      in_flight-set q.active_index w q.queue d at,
      length-take w (unsent_bytes d),
      length-unsent d a,
    );
    progress = λ _ _. omega (arith, length-take w (unsent_bytes d), length-unsent d a);
    most = λ d' at' _. ap (λ x. take w (unsent_bytes x)) (some_inj (sym at ∙ at'));
    calls = callbacks-set q.active_index w q.queue d at;
  })
  | whole d at a hw le e ↦
      let all : take d.unsent (unsent_bytes d) ≡ unsent_bytes d =
        take_all d.unsent (unsent_bytes d) (omega (arith, length-unsent d a)) in
      rw e (record {
        fifo = rw all at (pending-set q.active_index d.unsent q.queue d v.items at);
        window = omega (arith, length-unsent d a);
        total = omega (
          arith,
          v.total,
          sum_unsent-set q.active_index d.unsent q.queue d at (omega arith),
          length-unsent d a,
        );
        flight =
            omega (arith, in_flight-set q.active_index d.unsent q.queue d at, length-unsent d a);
        progress = λ _ _. omega (arith, length-unsent d a, a.some_unsent);
        most = λ d' at' _.
            sym (take_all w (unsent_bytes d) (omega (arith, length-unsent d a, le)))
            ∙ ap (λ x. take w (unsent_bytes x)) (some_inj (sym at ∙ at'));
        calls = callbacks-set q.active_index d.unsent q.queue d at;
      })
]
  where
    none_taken :
        (d : Data)
        → (w ≡ 0) ⊎ (q.total_unsent_size ≡ 0)
        → 0 < q.total_unsent_size
        → [] ≡ take w (unsent_bytes d)
    none_taken d (inl z) ht = rw z refl
    none_taken d (inr z) ht = absurd (omega arith)

callbacks-append :
    (ds : List Data) (d : Data) → callbacks (ds ++ d ∷ []) ≡ callbacks ds ++ callbacks (d ∷ [])
unfolding callbacks
callbacks-append [] d = refl
callbacks-append (x ∷ xs) d = ground (arith, callbacks-append xs d)

-- `enqueue` puts the message behind all others: its bytes behind the pending ones, its callback
-- behind the callbacks that wait, and nothing in flight changes.
pub enqueue_lem :
    (bytes : List ℕ) (c : ℕ) (q : WriteQueue)
    → (pending (enqueue bytes (some c) q).queue ≡ pending q.queue ++ bytes)
      × (callbacks (enqueue bytes (some c) q).queue ≡ callbacks q.queue ++ c ∷ [])
      × (in_flight (enqueue bytes (some c) q).queue ≡ in_flight q.queue)
unfolding enqueue
enqueue_lem bytes c q = (
  pending-append q.queue (fresh bytes c),
  callbacks-append q.queue (fresh bytes c) ∙ (unfold callbacks in refl),
  flight q.queue (fresh bytes c) refl,
)
  where
    fresh : List ℕ → ℕ → Data
    fresh b k = record {
      bytes = b;
      acknowledged = 0;
      unacknowledged = 0;
      unsent = length b;
      cb = some k;
    }

    flight :
        (ds : List Data) (d : Data) → d.unacknowledged ≡ 0 → in_flight (ds ++ d ∷ []) ≡ in_flight ds
    flight [] d e = omega arith
    flight (x ∷ xs) d e = omega (arith, flight xs d e)

-- The callback of a result, as a list of at most one.
abbrev pub called : Option ℕ → List ℕ
called none = []
called (some c) = c ∷ []

-- What an accepted acknowledgement does with the front message `d`: it is complete, and leaves with its
-- callback and its whole size, or it stays with what is acknowledged, and no callback is given.
pub data AckedFront (size : ℕ) (d : Data) (rest : List Data) (r : AckResult × WriteQueue)
    : Type 0 where
  completes :
      d.acknowledged + size ≡ length d.bytes
      → r.0.cb ≡ d.cb
      → r.0.size_to_ack ≡ length d.bytes
      → r.1.queue ≡ rest
      → AckedFront size d rest r
  stays :
      d.acknowledged + size < length d.bytes
      → r.0.cb ≡ none
      → r.0.size_to_ack ≡ 0
      → r.1.queue ≡ acked_item size d ∷ rest
      → AckedFront size d rest r

pub record AckSpec (size : ℕ) (q : WriteQueue) (r : AckResult × WriteQueue) : Type 0 where
  pub pending_kept : pending r.1.queue ≡ pending q.queue
  pub calls : callbacks q.queue ≡ called r.0.cb ++ callbacks r.1.queue
  pub flight : r.0.data_consistent ≡ true → in_flight q.queue ≡ in_flight r.1.queue + size
  pub refused_kept : r.0.data_consistent ≡ false → r.1 ≡ q
  pub accepted :
      (d : Data) (rest : List Data)
      → q.queue ≡ d ∷ rest
      → 0 < size
      → size ≤ d.unacknowledged
      → r.0.data_consistent ≡ true
  pub only :
      r.0.data_consistent ≡ true
      → (d : Data) × (rest : List Data) × (q.queue ≡ d ∷ rest)
        × (0 < size)
        × (size ≤ d.unacknowledged)
        × AckedFront size d rest r

callbacks-acked :
    (size : ℕ) (d : Data) (rest : List Data)
    → callbacks (acked_item size d ∷ rest) ≡ callbacks (d ∷ rest)
unfolding callbacks
callbacks-acked size d rest = refl

callbacks-completed :
    (d : Data) (rest : List Data) → callbacks (d ∷ rest) ≡ called d.cb ++ callbacks rest
unfolding callbacks
callbacks-completed d rest = ground arith

unsent-acked :
    (size : ℕ) (d : Data)
    → size ≤ d.unacknowledged
    → unsent_bytes (acked_item size d) ≡ unsent_bytes d
unsent-acked size d le =
    let e : d.acknowledged + size + (d.unacknowledged - size) ≡ d.acknowledged + d.unacknowledged =
      omega arith in
    rw e

-- `ackDataSent` takes acknowledgements in the order of the messages. It accepts exactly the positive
-- sizes that the front message has in flight, and then that many bytes less are in flight: the
-- front message leaves with its callback and its whole size when all of it is acknowledged, and
-- stays, with no callback given, when not. It refuses any other size with the queue unchanged. No
-- pending byte is touched, and the callback it returns is the first one waiting. The queue meets its
-- invariant.
pub ack_data_sent_lem :
    (size : ℕ) (q : WriteQueue) → IsValid q → AckSpec size q (ack_data_sent size q)
ack_data_sent_lem size q v = elim (ack_cases size q v) [
  | refused why e ↦ rw e (record {
    pending_kept = refl;
    calls = refl;
    flight = λ h. cc;
    refused_kept = λ _. refl;
    accepted = λ d rest at pos le. ground arith;
    only = λ h. absurd (not_accepted h);
  })
  | partial d rest at pos le lt e ↦ rw e (record {
    pending_kept = rw at (ap (λ bs. bs ++ pending rest) (unsent-acked size d le));
    calls = rw at (sym (callbacks-acked size d rest));
    flight = λ _. rw at (omega arith);
    refused_kept = λ h. cc;
    accepted = λ _ _ _ _ _. refl;
    only = λ _. (d, rest, at, pos, le, stays lt refl refl refl);
  })
  | complete d rest k at act s items pos eq e ↦ rw e (record {
    pending_kept = rw (at, unsent-IsSent d s);
    calls = rw at (callbacks-completed d rest);
    flight = λ _. rw at (omega arith);
    refused_kept = λ h. cc;
    accepted = λ _ _ _ _ _. refl;
    only = λ _. (
      d,
      rest,
      at,
      pos,
      omega arith,
      completes (omega (arith, s.sizes, s.all_sent, eq)) refl refl refl,
    );
  })
]
  where
    not_accepted : inconsistent.data_consistent ≡ true → ⊥
    not_accepted h = cc
