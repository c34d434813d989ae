-- ===== src/Basic/WriteQueue/Valid.antt =====
-- The invariant of the write queue, and that every operation keeps it.
use cpp_libp2p.Base.{
  ℕ, zero, suc, ◌+◌, ◌-◌, ◌≤◌, ◌<◌, ◌≡◌, refl, Option, none, some, some_inj, Option-cases,
  zero_cases, lt_or_le, lt-length_of_get_elem?, ◌⊎◌, inl, inr, subst, ◌∙◌, take, List, [], ◌∷◌,
  ◌++◌, arith, length, length-drop, get_elem?, set, All, All-append, drop,
}
use cpp_libp2p.Basic.WriteQueue.{Data, WriteQueue, empty, enqueue, sent_item, dequeue, dequeue_item}

-- Handed out whole, and not yet acknowledged whole.
pub record IsSent (d : Data) : Type 0 where
  pub sizes : d.acknowledged + d.unacknowledged + d.unsent ≡ length d.bytes
  pub all_sent : d.unsent ≡ 0
  pub open_ack : d.acknowledged < length d.bytes

-- With bytes still to be handed out.
pub record IsActive (d : Data) : Type 0 where
  pub sizes : d.acknowledged + d.unacknowledged + d.unsent ≡ length d.bytes
  pub some_unsent : 0 < d.unsent

-- Not touched yet.
pub record IsFresh (d : Data) : Type 0 where
  pub none_acknowledged : d.acknowledged ≡ 0
  pub none_unacknowledged : d.unacknowledged ≡ 0
  pub all_unsent : d.unsent ≡ length d.bytes
  pub some_unsent : 0 < d.unsent

-- Items before the active index are sent, the one at it is active, those behind are fresh.
abbrev pub Items : ℕ → List Data → Type 0
Items zero [] = Unit {0}
Items zero (d ∷ ds) = IsActive d × All IsFresh ds
Items (suc k) [] = ⊥
Items (suc k) (d ∷ ds) = IsSent d × Items k ds

abbrev pub sum_unsent : List Data → ℕ
sum_unsent [] = 0
sum_unsent (d ∷ ds) = d.unsent + sum_unsent ds

pub record IsValid (q : WriteQueue) : Type 0 where
  pub items : Items q.active_index q.queue
  pub total : q.total_unsent_size ≡ sum_unsent q.queue
  pub within : q.total_unsent_size ≤ q.size_limit

pub empty-IsValid : (limit : ℕ) → IsValid (empty limit)
empty-IsValid limit = record { items = tt; total = refl; within = omega arith }

pub Items-fresh : (ds : List Data) → All IsFresh ds → Items zero ds
Items-fresh [] h = tt
Items-fresh (d ∷ ds) (f, fs) = (record { sizes = omega arith; some_unsent = f.some_unsent }, fs)

Items-append : (k : ℕ) (ds : List Data) (d : Data) → IsFresh d → Items k ds → Items k (ds ++ d ∷ [])
Items-append zero [] d f h = Items-fresh (d ∷ []) (f, tt)
Items-append zero (x ∷ xs) d f h = (h.0, All-append IsFresh xs (d ∷ []) h.1 (f, tt))
Items-append (suc k) [] d f h = absurd h
Items-append (suc k) (x ∷ xs) d f h = (h.0, Items-append k xs d f h.1)

sum_unsent-append :
    (ds : List Data) (d : Data) → sum_unsent (ds ++ d ∷ []) ≡ sum_unsent ds + d.unsent
sum_unsent-append [] d = omega arith
sum_unsent-append (x ∷ xs) d = omega (arith, sum_unsent-append xs d)

pub enqueue-IsValid :
    (bytes : List ℕ) (cb : Option ℕ) (q : WriteQueue)
    → 0 < length bytes
    → length bytes + q.total_unsent_size ≤ q.size_limit
    → IsValid q
    → IsValid (enqueue bytes cb q)
unfolding enqueue
enqueue-IsValid bytes cb q pos fits v = record {
  items =
      Items-append q.active_index q.queue _
        (record {
          none_acknowledged = refl;
          none_unacknowledged = refl;
          all_unsent = refl;
          some_unsent = pos;
        })
        v.items;
  total = omega (arith, v.total, sum_unsent-append q.queue);
  within = omega arith;
}

-- Where the item at the active index stands.
pub IsActive-item :
    (k : ℕ) (ds : List Data) (d : Data) → Items k ds → get_elem? ds k ≡ some d → IsActive d
IsActive-item zero [] d h e = cc
IsActive-item zero (x ∷ xs) d h e = subst IsActive (some_inj e) h.0
IsActive-item (suc k) [] d h e = absurd h
IsActive-item (suc k) (x ∷ xs) d h e = IsActive-item k xs d h.1 e

-- The active item is handed out in part, and stays the active one.
Items-set_part :
    (k sz : ℕ) (ds : List Data) (d : Data)
    → Items k ds
    → get_elem? ds k ≡ some d
    → sz < d.unsent
    → Items k (set ds k (sent_item sz d))
Items-set_part zero sz [] d h e lt = cc
Items-set_part zero sz (x ∷ xs) d h e lt =
    let a : IsActive d = subst IsActive (some_inj e) h.0 in
    (record { sizes = omega arith; some_unsent = omega arith }, h.1)
Items-set_part (suc k) sz [] d h e lt = absurd h
Items-set_part (suc k) sz (x ∷ xs) d h e lt = (h.0, Items-set_part k sz xs d h.1 e lt)

-- The rest of the active item is handed out, and the next one becomes active.
Items-set_whole :
    (k : ℕ) (ds : List Data) (d : Data)
    → Items k ds
    → get_elem? ds k ≡ some d
    → Items (suc k) (set ds k (sent_item d.unsent d))
Items-set_whole zero [] d h e = cc
Items-set_whole zero (x ∷ xs) d h e =
    let a : IsActive d = subst IsActive (some_inj e) h.0 in
    (
      record { sizes = omega arith; all_sent = omega arith; open_ack = omega arith },
      Items-fresh xs h.1,
    )
Items-set_whole (suc k) [] d h e = absurd h
Items-set_whole (suc k) (x ∷ xs) d h e = (h.0, Items-set_whole k xs d h.1 e)

pub sum_unsent-set :
    (k sz : ℕ) (ds : List Data) (d : Data)
    → get_elem? ds k ≡ some d
    → sz ≤ d.unsent
    → sum_unsent (set ds k (sent_item sz d)) + sz ≡ sum_unsent ds
sum_unsent-set zero sz [] d e le = cc
sum_unsent-set zero sz (x ∷ xs) d e le = ground (arith, some_inj e)
sum_unsent-set (suc k) sz [] d e le = cc
sum_unsent-set (suc k) sz (x ∷ xs) d e le = omega (arith, sum_unsent-set k sz xs d e le)

-- What the invariant says of the bytes that an active item has left.
pub length-unsent :
    (d : Data) → IsActive d → length (drop (d.acknowledged + d.unacknowledged) d.bytes) ≡ d.unsent
length-unsent d a = omega (arith, length-drop (d.acknowledged + d.unacknowledged) d.bytes)

no_unsent : (k : ℕ) (ds : List Data) → Items k ds → get_elem? ds k ≡ none → sum_unsent ds ≡ 0
no_unsent zero [] h e = refl
no_unsent zero (x ∷ xs) h e = cc
no_unsent (suc k) [] h e = absurd h
no_unsent (suc k) (x ∷ xs) h e = omega (arith, no_unsent k xs h.1 e, h.0.all_sent)

-- The bytes of an item that are still to be handed out.
abbrev pub unsent_bytes : Data → List ℕ
unsent_bytes d = drop (d.acknowledged + d.unacknowledged) d.bytes

-- What `dequeue` leaves when the window ends inside the active item, and when it does not.
abbrev pub after_part : ℕ → Data → WriteQueue → WriteQueue
after_part w d q = record q {
  total_unsent_size = q.total_unsent_size - w;
  queue = set q.queue q.active_index (sent_item w d);
}

abbrev pub after_whole : Data → WriteQueue → WriteQueue
after_whole d q = record q {
  active_index = suc q.active_index;
  total_unsent_size = q.total_unsent_size - d.unsent;
  queue = set q.queue q.active_index (sent_item d.unsent d);
}

-- The three outcomes of `dequeue`.
pub data Dequeues (w : ℕ) (q : WriteQueue) : Type 0 where
  idle : (w ≡ 0) ⊎ (q.total_unsent_size ≡ 0) → dequeue w q ≡ (w, [], q) → Dequeues w q
  part :
      (d : Data)
      → get_elem? q.queue q.active_index ≡ some d
      → IsActive d
      → 0 < w
      → w < d.unsent
      → dequeue w q ≡ (0, take w (unsent_bytes d), after_part w d q)
      → Dequeues w q
  whole :
      (d : Data)
      → get_elem? q.queue q.active_index ≡ some d
      → IsActive d
      → 0 < w
      → d.unsent ≤ w
      → dequeue w q ≡ (w - d.unsent, unsent_bytes d, after_whole d q)
      → Dequeues w q

dequeue_item_part :
    (w : ℕ) (d : Data) (q : WriteQueue)
    → IsActive d
    → w < d.unsent
    → dequeue_item w d q ≡ (0, take w (unsent_bytes d), after_part w d q)
unfolding dequeue_item
dequeue_item_part w d q a lt = ground (arith, length-unsent d a)

dequeue_item_whole :
    (w : ℕ) (d : Data) (q : WriteQueue)
    → IsActive d
    → d.unsent ≤ w
    → dequeue_item w d q ≡ (w - d.unsent, unsent_bytes d, after_whole d q)
unfolding dequeue_item
dequeue_item_whole w d q a le = ground (arith, length-unsent d a)

dequeue_idle :
    (w : ℕ) (q : WriteQueue) → (w ≡ 0) ⊎ (q.total_unsent_size ≡ 0) → dequeue w q ≡ (w, [], q)
unfolding dequeue
dequeue_idle w q h = ground arith

dequeue_busy :
    (w : ℕ) (q : WriteQueue) (d : Data)
    → 0 < w
    → 0 < q.total_unsent_size
    → get_elem? q.queue q.active_index ≡ some d
    → dequeue w q ≡ dequeue_item w d q
unfolding dequeue
dequeue_busy w q d hw ht e = ground (arith, lt-length_of_get_elem? q.queue q.active_index d)

pub dequeue_cases : (w : ℕ) (q : WriteQueue) → IsValid q → Dequeues w q
dequeue_cases w q v = elim (zero_cases w) [
  | inl z ↦ idle (inl z) (dequeue_idle w q (inl z))
  | inr hw ↦ elim (zero_cases q.total_unsent_size) [
    | inl z ↦ idle (inr z) (dequeue_idle w q (inr z))
    | inr ht ↦ elim (Option-cases (get_elem? q.queue q.active_index)) [
      | inl e ↦ absurd (omega (arith, v.total, no_unsent q.active_index q.queue v.items e))
      | inr (d, e) ↦
          let a : IsActive d = IsActive-item q.active_index q.queue d v.items e in
          elim (lt_or_le w d.unsent) [
            | inl lt ↦ part d e a hw lt (dequeue_busy w q d hw ht e ∙ dequeue_item_part w d q a lt)
            | inr le ↦
                whole d e a hw le (dequeue_busy w q d hw ht e ∙ dequeue_item_whole w d q a le)
          ]
    ]
  ]
]

-- `dequeue` keeps the invariant: the messages before the active one are handed out whole, the active
-- one has bytes left, those behind it are untouched, and the unsent total is the sum over them.
pub dequeue-IsValid : (w : ℕ) (q : WriteQueue) → IsValid q → IsValid (dequeue w q).2
dequeue-IsValid w q v = elim (dequeue_cases w q v) [
  | idle z e ↦ rw e v
  | part d at a hw lt e ↦ rw e (record {
    items = Items-set_part q.active_index w q.queue d v.items at lt;
    total = omega (arith, v.total, sum_unsent-set q.active_index w q.queue d at);
    within = omega (arith, v.within);
  })
  | whole d at a hw le e ↦ rw e (record {
    items = Items-set_whole q.active_index q.queue d v.items at;
    total = omega (arith, v.total, sum_unsent-set q.active_index d.unsent q.queue d at);
    within = omega (arith, v.within);
  })
]
