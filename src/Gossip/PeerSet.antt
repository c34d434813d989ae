-- ===== src/Gossip/PeerSet.antt =====
-- src/protocol/gossip/impl/peer_set.cpp: a set of peers, as the list of their numbers. The order of
-- the set, which is that of the peer ids, is not modelled.
use cpp_libp2p.Base.{
  ℕ, ◌+◌, ◌≤◌, ◌≡◌, refl, ap, ◌∙◌, Bool, Bool-cases, true, false, not, ◌&&◌, is_empty, Option, none,
  some, List, [], ◌∷◌, ◌++◌, arith, ltb, ◌==◌, if◌then◌else◌, inl, inr, length, count, count-append,
  one, one_self, one_other, one_le, zero_cases,
}

unfoldable pub contains : ℕ → List ℕ → Bool
contains id peers = ltb 0 (count id peers)

-- Whether the peer is new, and the set.
unfoldable pub insert : ℕ → List ℕ → Bool × List ℕ
insert id peers = if contains id peers then (false, peers) else (true, peers ++ id ∷ [])

abbrev pub without : ℕ → List ℕ → List ℕ
without id [] = []
without id (p ∷ ps) = let rest = without id ps in if id == p then ps else p ∷ rest

-- The peer if it was there, and the set.
unfoldable pub erase : ℕ → List ℕ → Option ℕ × List ℕ
erase id peers = (if contains id peers then some id else none, without id peers)

unfoldable pub erase_if : (ℕ → Bool) → List ℕ → List ℕ
erase_if filter [] = []
erase_if filter (p ∷ ps) = let rest = erase_if filter ps in if filter p then rest else p ∷ rest

-- `sample` is std::sample with its random numbers: what it takes from a set.
unfoldable pub select_random_peers : (ℕ → List ℕ → List ℕ) → ℕ → List ℕ → List ℕ
select_random_peers sample n peers =
    let taken = sample n peers in if ltb 0 n && not (is_empty peers) then taken else []

-- What is documented of std::sample: it takes elements of the set, each once, and `n` at most.
pub record IsSample (sample : ℕ → List ℕ → List ℕ) : Type 0 where
  pub from : (n : ℕ) (ps : List ℕ) (q : ℕ) → count q (sample n ps) ≤ count q ps
  pub size : (n : ℕ) (ps : List ℕ) → length (sample n ps) ≤ n

pub select-IsSample :
    (sample : ℕ → List ℕ → List ℕ) → IsSample sample → IsSample (select_random_peers sample)
unfolding select_random_peers
select-IsSample sample h = record {
  from = λ n ps q. let k = h.from n ps q in ground arith;
  size = λ n ps. let k = h.size n ps in ground arith;
}

without_same : (id p : ℕ) (ps : List ℕ) → (id == p) ≡ true → without id (p ∷ ps) ≡ ps
without_same id p ps e = ground arith

without_other :
    (id p : ℕ) (ps : List ℕ) → (id == p) ≡ false → without id (p ∷ ps) ≡ p ∷ without id ps
without_other id p ps e = ground arith

pub count-without :
    (id : ℕ) (ps : List ℕ)
    → 1 ≤ count id ps
    → (q : ℕ) → count q (without id ps) + one q id ≡ count q ps
count-without id [] h q = absurd (omega arith)
count-without id (p ∷ ps) h q = elim (Bool-cases (id == p)) [
  | inl e ↦
      let same : id ≡ p = ground arith in
      rw (without_same id p ps e) (omega (arith, ap (one q) same))
  | inr e ↦
      rw (without_other id p ps e)
        (omega (arith, count-without id ps (omega (arith, one_other id p e)) q))
]

pub without_absent : (id : ℕ) (ps : List ℕ) → count id ps ≡ 0 → without id ps ≡ ps
without_absent id [] h = refl
without_absent id (p ∷ ps) h = elim (Bool-cases (id == p)) [
  | inl e ↦
      let same : id ≡ p = ground arith in absurd (omega (arith, ap (one id) same, one_self id))
  | inr e ↦ rw (without_other id p ps e) (ap (λ l. p ∷ l) (without_absent id ps (omega arith)))
]

pub length-without : (id : ℕ) (ps : List ℕ) → length (without id ps) ≤ length ps
length-without id [] = omega arith
length-without id (p ∷ ps) = elim (Bool-cases (id == p)) [
  | inl e ↦ rw (without_same id p ps e) (omega arith)
  | inr e ↦ rw (without_other id p ps e) (omega (arith, length-without id ps))
]

pub insert_present : (id : ℕ) (ps : List ℕ) → 1 ≤ count id ps → (insert id ps).1 ≡ ps
unfolding insert contains
insert_present id ps h = ground arith

pub insert_absent : (id : ℕ) (ps : List ℕ) → count id ps ≡ 0 → (insert id ps).1 ≡ ps ++ id ∷ []
unfolding insert contains
insert_absent id ps h = ground arith

pub count-insert :
    (id : ℕ) (ps : List ℕ)
    → count id ps ≡ 0
    → (q : ℕ) → count q (insert id ps).1 ≡ count q ps + one q id
count-insert id ps h q =
    ap (count q) (insert_absent id ps h) ∙ (omega (arith, count-append q ps (id ∷ [])))

pub insert_once :
    (id : ℕ) (ps : List ℕ) → ((q : ℕ) → count q ps ≤ 1) → (q : ℕ) → count q (insert id ps).1 ≤ 1
insert_once id ps h q = elim (zero_cases (count id ps)) [
  | inr present ↦ omega (arith, h q, ap (count q) (insert_present id ps present))
  | inl absent ↦ elim (Bool-cases (q == id)) [
    | inl e ↦
        let same : q ≡ id = ground arith in
        omega (arith, count-insert id ps absent q, ap (λ x. count x ps) same, absent, one_le q id)
    | inr e ↦ omega (arith, count-insert id ps absent q, h q, one_other q id e)
  ]
]

pub without_once : (id : ℕ) (ps : List ℕ) (q : ℕ) → count q (without id ps) ≤ count q ps
without_once id ps q = elim (zero_cases (count id ps)) [
  | inl absent ↦ omega (arith, ap (count q) (without_absent id ps absent))
  | inr present ↦ omega (arith, count-without id ps present q)
]

pub contains-true : (id : ℕ) (ps : List ℕ) → contains id ps ≡ true → 1 ≤ count id ps
unfolding contains
contains-true id ps h = ground arith

pub contains-false : (id : ℕ) (ps : List ℕ) → contains id ps ≡ false → count id ps ≡ 0
unfolding contains
contains-false id ps h = ground arith
