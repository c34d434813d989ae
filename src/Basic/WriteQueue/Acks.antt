-- ===== src/Basic/WriteQueue/Acks.antt =====
-- WriteQueue::ackDataSent: acknowledgements in the order of the messages, and the invariant under them.
use cpp_libp2p.Base.{
  ℕ, zero, suc, ◌+◌, ◌-◌, ◌≤◌, ◌<◌, ◌≡◌, refl, ◌∙◌, ◌⊎◌, inl, inr, none, List, [], ◌∷◌, true, arith,
  length, lt_or_le, zero_cases, subst,
}
use cpp_libp2p.Basic.WriteQueue.{
  Data, WriteQueue, AckResult, inconsistent, ack_front, ack_data_sent, clear,
}
use cpp_libp2p.Basic.WriteQueue.Valid.{IsSent, Items, sum_unsent, IsValid}

-- The front item with `size` more bytes acknowledged.
abbrev pub acked_item : ℕ → Data → Data
acked_item size d = record d {
  unacknowledged = d.unacknowledged - size;
  acknowledged = d.acknowledged + size;
}

abbrev pub consistent : AckResult
consistent = record { cb = none; size_to_ack = 0; data_consistent = true }

-- The result that a completed message has: its callback, with its whole length.
abbrev pub completed : Data → AckResult
completed d = record { cb = d.cb; size_to_ack = length d.bytes; data_consistent = true }

-- The three outcomes of `ackDataSent`: refused, taken in part, or the message is complete.
pub data Acks (size : ℕ) (q : WriteQueue) : Type 0 where
  refused :
      (q.queue ≡ [])
        ⊎ (size ≡ 0)
        ⊎ ((d : Data) × (rest : List Data) × (q.queue ≡ d ∷ rest) × (d.unacknowledged < size))
      → ack_data_sent size q ≡ (inconsistent, q)
      → Acks size q
  partial :
      (d : Data) (rest : List Data)
      → q.queue ≡ d ∷ rest
      → 0 < size
      → size ≤ d.unacknowledged
      → d.acknowledged + size < length d.bytes
      → ack_data_sent size q ≡ (consistent, record q { queue = acked_item size d ∷ rest })
      → Acks size q
  complete :
      (d : Data) (rest : List Data) (k : ℕ)
      → q.queue ≡ d ∷ rest
      → q.active_index ≡ suc k
      → IsSent d
      → Items k rest
      → 0 < size
      → size ≡ d.unacknowledged
      → ack_data_sent size q ≡ (completed d, record q { queue = rest; active_index = k })
      → Acks size q

abbrev sizes_of_items :
    (k : ℕ) (d : Data) (rest : List Data)
    → Items k (d ∷ rest)
    → d.acknowledged + d.unacknowledged + d.unsent ≡ length d.bytes
sizes_of_items zero d rest h = h.0.sizes
sizes_of_items (suc k) d rest h = h.0.sizes

ack_refused :
    (size : ℕ) (d : Data) (rest : List Data) (q : WriteQueue)
    → (size ≡ 0) ⊎ (d.unacknowledged < size)
    → ack_front size (d ∷ rest) q ≡ (inconsistent, q)
unfolding ack_front
ack_refused size d rest q h = ground arith

ack_partial :
    (size : ℕ) (d : Data) (rest : List Data) (q : WriteQueue)
    → d.acknowledged + d.unacknowledged + d.unsent ≡ length d.bytes
    → 0 < size
    → size ≤ d.unacknowledged
    → d.acknowledged + size < length d.bytes
    → ack_front size (d ∷ rest) q ≡ (consistent, record q { queue = acked_item size d ∷ rest })
unfolding ack_front
ack_partial size d rest q h pos le lt = ground arith

ack_whole :
    (size k : ℕ) (d : Data) (rest : List Data) (q : WriteQueue)
    → IsSent d
    → Items k rest
    → q.active_index ≡ suc k
    → 0 < size
    → size ≡ d.unacknowledged
    → ack_front size (d ∷ rest) q ≡ (completed d, record q { queue = rest; active_index = k })
unfolding ack_front
ack_whole size zero d [] q s h act pos e = ground arith
ack_whole size (suc k) d [] q s h act pos e = absurd h
ack_whole size k d (x ∷ xs) q s h act pos e = ground arith

ack_item_cases :
    (size k : ℕ) (d : Data) (rest : List Data) (q : WriteQueue)
    → Items k (d ∷ rest)
    → q.active_index ≡ k
    → q.queue ≡ d ∷ rest
    → ack_data_sent size q ≡ ack_front size (d ∷ rest) q
    → Acks size q
ack_item_cases size k d rest q h act e run = elim (zero_cases size) [
  | inl z ↦ refused (inr (inl z)) (run ∙ ack_refused size d rest q (inl z))
  | inr pos ↦ elim (lt_or_le d.unacknowledged size) [
    | inl lt ↦ refused (inr (inr (d, rest, e, lt))) (run ∙ ack_refused size d rest q (inr lt))
    | inr le ↦ elim (lt_or_le (d.acknowledged + size) (length d.bytes)) [
      | inl lt ↦
          partial d rest e pos le lt
            (run ∙ ack_partial size d rest q (sizes_of_items k d rest h) pos le lt)
      | inr ge ↦ last k h act pos le ge
    ]
  ]
]
  where
    last :
        (j : ℕ)
        → Items j (d ∷ rest)
        → q.active_index ≡ j
        → 0 < size
        → size ≤ d.unacknowledged
        → length d.bytes ≤ d.acknowledged + size
        → Acks size q
    last zero h act pos le ge = absurd (omega (arith, h.0.sizes, h.0.some_unsent))
    last (suc j) h act pos le ge =
        let eq : size ≡ d.unacknowledged = omega (arith, h.0.sizes) in
        complete d rest j e act h.0 h.1 pos eq (run ∙ ack_whole size j d rest q h.0 h.1 act pos eq)

pub ack_cases : (size : ℕ) (q : WriteQueue) → IsValid q → Acks size q
unfolding ack_data_sent
ack_cases size q v = go q.queue refl v.items
  where
    go : (ds : List Data) → q.queue ≡ ds → Items q.active_index ds → Acks size q
    go [] e h = refused (inl e) (rw (e, ack_front))
    go (d ∷ rest) e h = ack_item_cases size q.active_index d rest q h refl e (rw (e, ack_front))

Items-acked :
    (size k : ℕ) (d : Data) (rest : List Data)
    → size ≤ d.unacknowledged
    → d.acknowledged + size < length d.bytes
    → Items k (d ∷ rest)
    → Items k (acked_item size d ∷ rest)
Items-acked size zero d rest le lt h =
    (record { sizes = omega (arith, h.0.sizes); some_unsent = h.0.some_unsent }, h.1)
Items-acked size (suc k) d rest le lt h = (
  record { sizes = omega (arith, h.0.sizes); all_sent = h.0.all_sent; open_ack = omega arith },
  h.1,
)

-- `ackDataSent` keeps the invariant whatever size it is given: a completed message leaves and the
-- active index still names the first message with bytes to hand out.
pub ack_data_sent-IsValid :
    (size : ℕ) (q : WriteQueue) → IsValid q → IsValid (ack_data_sent size q).1
ack_data_sent-IsValid size q v = elim (ack_cases size q v) [
  | refused why e ↦ rw e v
  | partial d rest at pos le lt e ↦ rw e (record {
    items = Items-acked size q.active_index d rest le lt (subst (Items q.active_index) at v.items);
    total = v.total ∙ (rw at);
    within = v.within;
  })
  | complete d rest k at act s items pos eq e ↦ rw e (record {
    items = items;
    total = omega (arith, v.total, cong_sum at, s.all_sent);
    within = v.within;
  })
]
  where
    cong_sum : {ds es : List Data} → ds ≡ es → sum_unsent ds ≡ sum_unsent es
    cong_sum h = rw h

pub clear-IsValid : (q : WriteQueue) → IsValid (clear q)
unfolding clear
clear-IsValid q = record { items = tt; total = refl; within = omega arith }
