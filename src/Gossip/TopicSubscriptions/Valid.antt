-- ===== src/Gossip/TopicSubscriptions/Valid.antt =====
-- TopicSubscriptions: the peers of a topic are in one of the two sets, and the mesh is bounded.
use cpp_libp2p.Base.{
  ℕ, suc, ◌+◌, ◌≤◌, ◌<◌, ◌≡◌, refl, sym, ap, ◌∙◌, Bool, Bool-cases, true, false, List, [], ◌∷◌,
  arith, inl, inr, length, length-append, count, one_self, zero_cases,
}
use cpp_libp2p.Gossip.PeerSet.{
  contains, insert, without, count-without, without_absent, length-without, insert_present,
  count-insert, insert_absent, insert_once, without_once, contains-true, contains-false,
}
use cpp_libp2p.Gossip.TopicSubscriptions.{
  TopicSubscriptions, new_topic, insert_all, to_mesh, on_peer_subscribed, on_peer_unsubscribed,
  on_self_subscribed, on_prune, peer_subscribed, peer_unsubscribed,
}

-- The sets of the topic, of which the invariant speaks: self_subscribed, mesh, subscribed peers, and
-- the subscribers.
abbrev pub Splits : List ℕ → List ℕ → List ℕ → Type 0
Splits mesh peers subscribers = (q : ℕ) → count q mesh + count q peers ≡ count q subscribers

-- Every subscriber is in the mesh or among the other peers, once; the mesh has `d_max` peers at
-- most, and none if this host is not subscribed.
pub record IsValid (d_max : ℕ) (s : TopicSubscriptions) : Type 0 where
  pub split : Splits s.mesh_peers s.subscribed_peers s.subscribers
  pub once : (q : ℕ) → count q s.subscribers ≤ 1
  pub bounded : length s.mesh_peers ≤ d_max
  pub meshed : s.self_subscribed ≡ false → s.mesh_peers ≡ []

pub new_topic-IsValid :
    (d_max : ℕ) (subscribers : List ℕ)
    → ((q : ℕ) → count q subscribers ≤ 1)
    → IsValid d_max (new_topic subscribers)
new_topic-IsValid d_max subscribers h = record {
  split = λ q. omega arith;
  once = h;
  bounded = omega arith;
  meshed = λ e. refl;
}

-- A peer moves into the mesh.
pub to_mesh-IsValid :
    (d_max p : ℕ) (s : TopicSubscriptions)
    → IsValid d_max s
    → s.self_subscribed ≡ true
    → 1 ≤ count p s.subscribed_peers
    → length s.mesh_peers < d_max
    → IsValid d_max (to_mesh p s) × (length (to_mesh p s).mesh_peers ≡ suc (length s.mesh_peers))
to_mesh-IsValid d_max p s v yes_self inside lt =
    let absent : count p s.mesh_peers ≡ 0 = omega (arith, v.split p, v.once p) in
    let grown = insert_absent p s.mesh_peers absent in
    let size : length (insert p s.mesh_peers).1 ≡ suc (length s.mesh_peers) =
      omega (arith, ap length grown, length-append s.mesh_peers (p ∷ [])) in
    (
      record {
        split = λ q. omega (
          arith,
          v.split q,
          count-insert p s.mesh_peers absent q,
          count-without p s.subscribed_peers inside q,
        );
        once = v.once;
        bounded = omega (arith, size);
        meshed = λ e. absurd (let k : true ≡ false = sym yes_self ∙ e in cc);
      },
      size,
    )

-- A peer leaves the mesh.
insert_all-count :
    (ps peers : List ℕ)
    → ((q : ℕ) → count q ps + count q peers ≤ 1)
    → (q : ℕ) → count q (insert_all ps peers) ≡ count q ps + count q peers
unfolding insert_all
insert_all-count [] peers h q = omega arith
insert_all-count (p ∷ ps) peers h q =
    let absent : count p peers ≡ 0 = omega (arith, h p, one_self p) in
    let added = count-insert p peers absent in
    omega
      (arith, insert_all-count ps (insert p peers).1 (λ r. omega (arith, h r, added r)) q, added q)

pub self-IsValid :
    (d_max : ℕ) (subscribed : Bool) (s : TopicSubscriptions)
    → IsValid d_max s
    → IsValid d_max (on_self_subscribed subscribed s).1
unfolding on_self_subscribed
self-IsValid d_max true s v = record {
  split = v.split;
  once = v.once;
  bounded = v.bounded;
  meshed = λ e. cc;
}
self-IsValid d_max false s v = record {
  split = λ q.
      let all =
        insert_all-count s.mesh_peers s.subscribed_peers (λ r. omega (arith, v.split r, v.once r))
          q in
      omega (arith, all, v.split q);
  once = v.once;
  bounded = omega arith;
  meshed = λ e. refl;
}

-- A peer that is new is among the others.
pub added-IsValid :
    (d_max p : ℕ) (s : TopicSubscriptions)
    → IsValid d_max s
    → count p s.subscribers ≡ 0
    → IsValid d_max (on_peer_subscribed p (record s { subscribers = (insert p s.subscribers).1 })).1
unfolding on_peer_subscribed
added-IsValid d_max p s v new =
    let free : count p s.subscribed_peers ≡ 0 = omega (arith, v.split p) in
    let sub = count-insert p s.subscribers new in
    let peers = count-insert p s.subscribed_peers free in
    record {
      split = λ q. omega (arith, v.split q, sub q, peers q);
      once = insert_once p s.subscribers v.once;
      bounded = v.bounded;
      meshed = v.meshed;
    }

pub subscribed-IsValid :
    (d_max p : ℕ) (s : TopicSubscriptions) → IsValid d_max s → IsValid d_max (peer_subscribed p s).1
unfolding peer_subscribed
subscribed-IsValid d_max p s v = elim (Bool-cases (contains p s.subscribers)) [
  | inl y ↦ rw y v
  | inr n ↦ rw n (added-IsValid d_max p s v (contains-false p s.subscribers n))
]

-- A subscriber leaves both sets.
left-IsValid :
    (d_max p : ℕ) (s : TopicSubscriptions)
    → IsValid d_max s
    → 1 ≤ count p s.subscribers
    → IsValid d_max (on_peer_unsubscribed p (record s { subscribers = without p s.subscribers }))
unfolding on_peer_unsubscribed
left-IsValid d_max p s v known = elim (Bool-cases (contains p s.subscribed_peers)) [
  | inl y ↦
      let gone = count-without p s.subscribed_peers (contains-true p s.subscribed_peers y) in
      rw y (record {
        split = λ q. omega (arith, v.split q, gone q, count-without p s.subscribers known q);
        once = λ q. omega (arith, v.once q, without_once p s.subscribers q);
        bounded = v.bounded;
        meshed = v.meshed;
      })
  | inr n ↦
      let absent = contains-false p s.subscribed_peers n in
      let inside : 1 ≤ count p s.mesh_peers = omega (arith, v.split p, known, absent) in
      let gone = count-without p s.mesh_peers inside in
      rw n (record {
        split = λ q. omega (arith, v.split q, gone q, count-without p s.subscribers known q);
        once = λ q. omega (arith, v.once q, without_once p s.subscribers q);
        bounded = omega (arith, v.bounded, length-without p s.mesh_peers);
        meshed = λ e. ap (without p) (v.meshed e);
      })
]

pub unsubscribed-IsValid :
    (d_max p : ℕ) (s : TopicSubscriptions) → IsValid d_max s → IsValid d_max (peer_unsubscribed p s)
unfolding peer_unsubscribed
unsubscribed-IsValid d_max p s v = elim (Bool-cases (contains p s.subscribers)) [
  | inl y ↦ rw y (left-IsValid d_max p s v (contains-true p s.subscribers y))
  | inr n ↦ rw n v
]

pub prune-IsValid :
    (d_max p until : ℕ) (s : TopicSubscriptions)
    → IsValid d_max s
    → IsValid d_max (on_prune p until s)
unfolding on_prune
prune-IsValid d_max p until s v = elim (Bool-cases (contains p s.subscribers)) [
  | inl y ↦
      let known = contains-true p s.subscribers y in
      rw y (record {
        split = moved known;
        once = v.once;
        bounded = omega (arith, v.bounded, length-without p s.mesh_peers);
        meshed = λ e. ap (without p) (v.meshed e);
      })
  | inr n ↦
      let absent : count p s.mesh_peers ≡ 0 =
        omega (arith, v.split p, contains-false p s.subscribers n) in
      let same = without_absent p s.mesh_peers absent in
      rw n (record {
        split = λ q. omega (arith, v.split q, ap (count q) same);
        once = v.once;
        bounded = omega (arith, v.bounded, length-without p s.mesh_peers);
        meshed = λ e. ap (without p) (v.meshed e);
      })
]
  where
    moved :
        1 ≤ count p s.subscribers
        → Splits (without p s.mesh_peers) (insert p s.subscribed_peers).1 s.subscribers
    moved known q = elim (zero_cases (count p s.mesh_peers)) [
      | inl absent ↦
          let inside : 1 ≤ count p s.subscribed_peers = omega (arith, v.split p) in
          omega (
            arith,
            v.split q,
            ap (count q) (without_absent p s.mesh_peers absent),
            ap (count q) (insert_present p s.subscribed_peers inside),
          )
      | inr inside ↦
          let absent : count p s.subscribed_peers ≡ 0 = omega (arith, v.split p, v.once p) in
          omega (
            arith,
            v.split q,
            count-without p s.mesh_peers inside q,
            count-insert p s.subscribed_peers absent q,
          )
    ]
