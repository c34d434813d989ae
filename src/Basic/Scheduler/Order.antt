-- ===== src/Basic/Scheduler/Order.antt =====
-- SchedulerImpl: the order of the multimap `callbacks_`.
use cpp_libp2p.Base.{
  ℕ, ◌≤◌, ◌<◌, ◌≡◌, refl, ap, true, false, Bool-cases, List, [], ◌∷◌, ◌++◌, arith, inl, inr,
  lt_or_le, All, ◌==◌,
}
use cpp_libp2p.Basic.Scheduler.{CancelOrCb, emplace_at, erase_handle}
use cpp_libp2p.Basic.Scheduler.Calls.{NoneDue}

abbrev pub Entries : Type 0
Entries = List (ℕ × CancelOrCb)

abbrev pub IsSorted : Entries → Type 0
IsSorted [] = Unit {0}
IsSorted ((t, e) ∷ es) = All (λ p. t ≤ p.0) es × IsSorted es

pub All-map :
    {P Q : ℕ × CancelOrCb → Type 0} (es : Entries)
    → ((p : ℕ × CancelOrCb) → P p → Q p)
    → All P es
    → All Q es
All-map [] f h = tt
All-map (p ∷ es) f h = (f p h.0, All-map es f h.1)

pub IsSorted-suffix : (xs ys : Entries) → IsSorted (xs ++ ys) → IsSorted ys
IsSorted-suffix [] ys h = h
IsSorted-suffix (x ∷ xs) ys h = IsSorted-suffix xs ys h.1

-- What is behind an entry that is not due is not due.
pub NoneDue-All : (now : ℕ) (es : Entries) → IsSorted es → NoneDue now es → All (λ p. now < p.0) es
NoneDue-All now [] h k = tt
NoneDue-All now ((t, e) ∷ es) h k = (k, All-map es (λ p le. omega arith) h.0)

pub record EmplaceSpec (t : ℕ) (e : CancelOrCb) (es r : Entries) : Type 0 where
  pub before : Entries
  pub behind : Entries
  pub old : es ≡ before ++ behind
  pub new : r ≡ before ++ (t, e) ∷ behind
  pub le : All (λ p. p.0 ≤ t) before
  pub lt : All (λ p. t < p.0) behind
  pub sorted : IsSorted r

emplace_behind :
    (t u : ℕ) (e f : CancelOrCb) (es : Entries)
    → u ≤ t
    → emplace_at t e ((u, f) ∷ es) ≡ (u, f) ∷ emplace_at t e es
unfolding emplace_at
emplace_behind t u e f es h = ground arith

emplace_here :
    (t u : ℕ) (e f : CancelOrCb) (es : Entries)
    → t < u
    → emplace_at t e ((u, f) ∷ es) ≡ (t, e) ∷ (u, f) ∷ es
unfolding emplace_at
emplace_here t u e f es h = ground arith

All-behind :
    (t u : ℕ) (e : CancelOrCb) (es : Entries)
    → u ≤ t
    → All (λ p. u ≤ p.0) es
    → All (λ p. u ≤ p.0) (emplace_at t e es)
unfolding emplace_at
All-behind t u e [] h k = (h, tt)
All-behind t u e ((v, f) ∷ es) h k = elim (lt_or_le t v) [
  | inl lt ↦ rw (emplace_here t v e f es lt) (h, k)
  | inr le ↦ rw (emplace_behind t v e f es le) (k.0, All-behind t u e es h k.1)
]

-- A callback is put behind the callbacks of its time or earlier, those of the same time included,
-- and before the later ones, and the map stays in the order of the time. The map is sorted.
pub emplace_at_lem :
    (t : ℕ) (e : CancelOrCb) (es : Entries) → IsSorted es → EmplaceSpec t e es (emplace_at t e es)
unfolding emplace_at
emplace_at_lem t e [] h = record {
  before = [];
  behind = [];
  old = refl;
  new = refl;
  le = tt;
  lt = tt;
  sorted = (tt, tt);
}
emplace_at_lem t e ((u, f) ∷ es) h = elim (lt_or_le t u) [
  | inl lt ↦
      let later : All (λ p. t < p.0) es = All-map es (λ p le. omega arith) h.0 in
      rw (emplace_here t u e f es lt) (record {
        before = [];
        behind = (u, f) ∷ es;
        old = refl;
        new = refl;
        le = tt;
        lt = (lt, later);
        sorted = ((omega arith, All-map es (λ p le. omega arith) later), h);
      })
  | inr le ↦
      let i = emplace_at_lem t e es h.1 in
      rw (emplace_behind t u e f es le) (record {
        before = (u, f) ∷ i.before;
        behind = i.behind;
        old = ap (λ l. (u, f) ∷ l) i.old;
        new = ap (λ l. (u, f) ∷ l) i.new;
        le = (le, i.le);
        lt = i.lt;
        sorted = (All-behind t u e es le h.0, i.sorted);
      })
]

pub erase_other :
    (h t g cb : ℕ) (es : Entries)
    → (h == g) ≡ false
    → erase_handle h ((t, CancelOrCb.cancel_cb g cb) ∷ es)
      ≡ (t, CancelOrCb.cancel_cb g cb) ∷ erase_handle h es
unfolding erase_handle
erase_other h t g cb es e = ground arith

pub erase_same :
    (h t g cb : ℕ) (es : Entries)
    → (h == g) ≡ true
    → erase_handle h ((t, CancelOrCb.cancel_cb g cb) ∷ es) ≡ erase_handle h es
unfolding erase_handle
erase_same h t g cb es e = ground arith

pub All-erase :
    (P : ℕ × CancelOrCb → Type 0) (h : ℕ) (es : Entries) → All P es → All P (erase_handle h es)
unfolding erase_handle
All-erase P h [] a = tt
All-erase P h ((t, CancelOrCb.callback cb) ∷ es) a = (a.0, All-erase P h es a.1)
All-erase P h ((t, CancelOrCb.cancel_cb g cb) ∷ es) a = elim (Bool-cases (h == g)) [
  | inl y ↦ rw (erase_same h t g cb es y) (All-erase P h es a.1)
  | inr n ↦ rw (erase_other h t g cb es n) (a.0, All-erase P h es a.1)
]

pub erase-IsSorted : (h : ℕ) (es : Entries) → IsSorted es → IsSorted (erase_handle h es)
unfolding erase_handle
erase-IsSorted h [] s = tt
erase-IsSorted h ((t, CancelOrCb.callback cb) ∷ es) s =
    (All-erase (λ p. t ≤ p.0) h es s.0, erase-IsSorted h es s.1)
erase-IsSorted h ((t, CancelOrCb.cancel_cb g cb) ∷ es) s = elim (Bool-cases (h == g)) [
  | inl y ↦ rw (erase_same h t g cb es y) (erase-IsSorted h es s.1)
  | inr n ↦
      rw (erase_other h t g cb es n) (All-erase (λ p. t ≤ p.0) h es s.0, erase-IsSorted h es s.1)
]
