-- ===== src/Gossip/TopicSubscriptions/Mesh.antt =====
-- TopicSubscriptions: the mesh grows within its bounds, and every event keeps the invariant.
use cpp_libp2p.Base.{
  ℕ, suc, ◌+◌, ◌-◌, ◌≤◌, ◌<◌, ◌≡◌, refl, sym, ◌∙◌, subst, Bool-cases, true, false, not, ◌&&◌,
  Option-cases, none, some, List, [], ◌∷◌, arith, leb, inl, inr, length, count, one, one_self,
  find_key, erase_key, lt_or_le, is_empty, ◌⊎◌,
}
use cpp_libp2p.Gossip.PeerSet.{
  contains, insert, select_random_peers, IsSample, select-IsSample, count-without, count-insert,
  contains-true, contains-false,
}
use cpp_libp2p.Gossip.TopicSubscriptions.{
  Config, TopicSubscriptions, TopicEvent, to_mesh, graft_one, graft_all, on_peer_subscribed,
  on_new_message, update_mesh, on_heartbeat, accept_graft, on_graft, handle, handle_all,
}
use cpp_libp2p.Gossip.TopicSubscriptions.Valid.{
  IsValid, to_mesh-IsValid, added-IsValid, self-IsValid, subscribed-IsValid, unsubscribed-IsValid,
  prune-IsValid,
}

-- What taking one peer into the mesh leaves for the others.
record Grafts (d_max p : ℕ) (s r : TopicSubscriptions) : Type 0 where
  valid : IsValid d_max r
  size : length r.mesh_peers ≤ suc (length s.mesh_peers)
  left : (q : ℕ) → count q s.subscribed_peers ≤ count q r.subscribed_peers + one q p
  same_self : r.self_subscribed ≡ s.self_subscribed

grafted :
    (d_max p : ℕ) (bothered : List (ℕ × ℕ)) (s : TopicSubscriptions)
    → IsValid d_max s
    → s.self_subscribed ≡ true
    → 1 ≤ count p s.subscribed_peers
    → length s.mesh_peers < d_max
    → Grafts d_max p s (to_mesh p (record s { dont_bother_until = bothered }))
grafted d_max p bothered s v yes_self inside lt =
    let g = to_mesh-IsValid d_max p s v yes_self inside lt in
    record {
      valid = record {
        split = g.0.split;
        once = g.0.once;
        bounded = g.0.bounded;
        meshed = g.0.meshed;
      };
      size = omega (arith, g.1);
      left = λ q. omega (arith, count-without p s.subscribed_peers inside q);
      same_self = refl;
    }

left_alone : (d_max p : ℕ) (s : TopicSubscriptions) → IsValid d_max s → Grafts d_max p s s
left_alone d_max p s v = record {
  valid = v;
  size = omega arith;
  left = λ q. omega arith;
  same_self = refl;
}

graft_new :
    (now p : ℕ) (s : TopicSubscriptions)
    → find_key p s.dont_bother_until ≡ none
    → (graft_one now p s).1 ≡ to_mesh p s
unfolding graft_one
graft_new now p s e = ground arith

graft_past :
    (now p t : ℕ) (s : TopicSubscriptions)
    → find_key p s.dont_bother_until ≡ some t
    → t < now
    → (graft_one now p s).1
      ≡ to_mesh p (record s { dont_bother_until = erase_key p s.dont_bother_until })
unfolding graft_one
graft_past now p t s e h = ground arith

graft_later :
    (now p t : ℕ) (s : TopicSubscriptions)
    → find_key p s.dont_bother_until ≡ some t
    → now ≤ t
    → (graft_one now p s).1 ≡ s
unfolding graft_one
graft_later now p t s e h = ground arith

graft_one-Grafts :
    (d_max now p : ℕ) (s : TopicSubscriptions)
    → IsValid d_max s
    → s.self_subscribed ≡ true
    → 1 ≤ count p s.subscribed_peers
    → length s.mesh_peers < d_max
    → Grafts d_max p s (graft_one now p s).1
graft_one-Grafts d_max now p s v yes_self inside lt =
    elim (Option-cases (find_key p s.dont_bother_until)) [
      | inl e ↦
          subst (Grafts d_max p s) (sym (graft_new now p s e))
            (grafted d_max p s.dont_bother_until s v yes_self inside lt)
      | inr (t, e) ↦ elim (lt_or_le t now) [
        | inl past ↦
            subst (Grafts d_max p s) (sym (graft_past now p t s e past))
              (grafted d_max p (erase_key p s.dont_bother_until) s v yes_self inside lt)
        | inr later ↦
            subst (Grafts d_max p s) (sym (graft_later now p t s e later)) (left_alone d_max p s v)
      ]
    ]

graft_all-IsValid :
    (d_max now : ℕ) (ps : List ℕ) (s : TopicSubscriptions)
    → IsValid d_max s
    → s.self_subscribed ≡ true
    → ((q : ℕ) → count q ps ≤ count q s.subscribed_peers)
    → length s.mesh_peers + length ps ≤ d_max
    → IsValid d_max (graft_all now ps s).1
unfolding graft_all
graft_all-IsValid d_max now [] s v yes_self inside fit = v
graft_all-IsValid d_max now (p ∷ ps) s v yes_self inside fit =
    let g =
      graft_one-Grafts d_max now p s v yes_self (omega (arith, inside p, one_self p))
        (omega (arith, fit)) in
    graft_all-IsValid d_max now ps (graft_one now p s).1 g.valid (g.same_self ∙ yes_self)
      (λ q. omega (arith, inside q, g.left q)) (omega (arith, fit, g.size))

subscribed_now :
    (p : ℕ) (s : TopicSubscriptions)
    → count p s.subscribed_peers ≡ 0
    → let r = on_peer_subscribed p (record s { subscribers = (insert p s.subscribers).1 }) in
      1 ≤ count p r.1.subscribed_peers
unfolding on_peer_subscribed
subscribed_now p s h = omega (arith, count-insert p s.subscribed_peers h p, one_self p)

module _ (config : Config) (sample : ℕ → List ℕ → List ℕ) where
  graft_refused :
      (p : ℕ) (s : TopicSubscriptions)
      → (s.self_subscribed && not (leb config.d_max (length s.mesh_peers))) ≡ false
      → (accept_graft config sample p s).1 ≡ s
  unfolding accept_graft
  graft_refused p s e = ground arith

  graft_taken :
      (p : ℕ) (s : TopicSubscriptions)
      → (s.self_subscribed && not (leb config.d_max (length s.mesh_peers))) ≡ true
      → (accept_graft config sample p s).1 ≡ to_mesh p s
  unfolding accept_graft
  graft_taken p s e = ground arith

  accepted-IsValid :
      (p : ℕ) (s : TopicSubscriptions)
      → IsValid config.d_max s
      → 1 ≤ count p s.subscribed_peers
      → IsValid config.d_max (accept_graft config sample p s).1
  accepted-IsValid p s v inside =
      elim (Bool-cases (s.self_subscribed && not (leb config.d_max (length s.mesh_peers)))) [
        | inr n ↦ subst (IsValid config.d_max) (sym (graft_refused p s n)) v
        | inl y ↦
            subst (IsValid config.d_max) (sym (graft_taken p s y))
              (to_mesh-IsValid config.d_max p s v (ground arith) inside (ground arith)).0
      ]

  known_in_mesh :
      (p : ℕ) (s : TopicSubscriptions)
      → contains p s.mesh_peers ≡ true
      → (on_graft config sample p s).1 ≡ s
  unfolding on_graft
  known_in_mesh p s e = ground arith

  known_peer :
      (p : ℕ) (s : TopicSubscriptions)
      → contains p s.mesh_peers ≡ false
      → contains p s.subscribed_peers ≡ true
      → (on_graft config sample p s).1 ≡ (accept_graft config sample p s).1
  unfolding on_graft
  known_peer p s e k = ground arith

  new_peer :
      (p : ℕ) (s : TopicSubscriptions)
      → contains p s.mesh_peers ≡ false
      → contains p s.subscribed_peers ≡ false
      → (on_graft config sample p s).1
        ≡ (accept_graft config sample p
            (on_peer_subscribed p (record s { subscribers = (insert p s.subscribers).1 })).1).1
  unfolding on_graft
  new_peer p s e k = ground arith

  graft-IsValid :
      (p : ℕ) (s : TopicSubscriptions)
      → IsValid config.d_max s
      → IsValid config.d_max (on_graft config sample p s).1
  graft-IsValid p s v = elim (Bool-cases (contains p s.mesh_peers)) [
    | inl e ↦ subst (IsValid config.d_max) (sym (known_in_mesh p s e)) v
    | inr n ↦ elim (Bool-cases (contains p s.subscribed_peers)) [
      | inl e ↦
          subst (IsValid config.d_max) (sym (known_peer p s n e))
            (accepted-IsValid p s v (contains-true p s.subscribed_peers e))
      | inr k ↦
          let s1 =
            (on_peer_subscribed p (record s { subscribers = (insert p s.subscribers).1 })).1 in
          let unknown : count p s.subscribers ≡ 0 = omega (
            arith,
            v.split p,
            contains-false p s.mesh_peers n,
            contains-false p s.subscribed_peers k,
          ) in
          subst (IsValid config.d_max) (sym (new_peer p s n k)) (
            accepted-IsValid p s1 (added-IsValid config.d_max p s v unknown)
              (subscribed_now p s (contains-false p s.subscribed_peers k)))
    ]
  ]

  mesh_grows :
      (now : ℕ) (s : TopicSubscriptions)
      → (s.self_subscribed && not (is_empty s.subscribed_peers)) ≡ true
      → length s.mesh_peers < config.d_min
      → (update_mesh config sample now s).1
        ≡ (graft_all now
            (select_random_peers sample (config.d_min - length s.mesh_peers) s.subscribed_peers)
            s).1
  unfolding update_mesh
  mesh_grows now s e h = ground arith

  mesh_stays :
      (now : ℕ) (s : TopicSubscriptions)
      → length s.mesh_peers ≤ config.d_max
      → ((s.self_subscribed && not (is_empty s.subscribed_peers)) ≡ false)
        ⊎ (config.d_min ≤ length s.mesh_peers)
      → (update_mesh config sample now s).1 ≡ s
  unfolding update_mesh
  mesh_stays now s le h = ground arith

  mesh-IsValid :
      (now : ℕ) (s : TopicSubscriptions)
      → IsSample sample
      → config.d_min ≤ config.d_max
      → IsValid config.d_max s
      → IsValid config.d_max (update_mesh config sample now s).1
  mesh-IsValid now s h le v =
      elim (Bool-cases (s.self_subscribed && not (is_empty s.subscribed_peers))) [
        | inr n ↦ subst (IsValid config.d_max) (sym (mesh_stays now s v.bounded (inl n))) v
        | inl y ↦ elim (lt_or_le (length s.mesh_peers) config.d_min) [
          | inr enough ↦
              subst (IsValid config.d_max) (sym (mesh_stays now s v.bounded (inr enough))) v
          | inl few ↦
              let n = config.d_min - length s.mesh_peers in
              let taken = select_random_peers sample n s.subscribed_peers in
              let g = select-IsSample sample h in
              subst (IsValid config.d_max) (sym (mesh_grows now s y few)) (
                graft_all-IsValid config.d_max now taken s v (ground arith)
                  (g.from n s.subscribed_peers)
                  (let k = g.size n s.subscribed_peers in omega (arith, k)))
        ]
      ]

  handle-IsValid :
      (e : TopicEvent) (s : TopicSubscriptions)
      → IsSample sample
      → config.d_min ≤ config.d_max
      → IsValid config.d_max s
      → IsValid config.d_max (handle config sample e s).1
  unfolding handle on_new_message on_heartbeat
  handle-IsValid (TopicEvent.self_subscribes b) s h le v = self-IsValid config.d_max b s v
  handle-IsValid (TopicEvent.peer_subscribes p) s h le v = subscribed-IsValid config.d_max p s v
  handle-IsValid (TopicEvent.peer_unsubscribes p) s h le v = unsubscribed-IsValid config.d_max p s v
  handle-IsValid (TopicEvent.graft p) s h le v = graft-IsValid p s v
  handle-IsValid (TopicEvent.prune p until) s h le v = prune-IsValid config.d_max p until s v
  handle-IsValid (TopicEvent.new_message from origin m now) s h le v = record {
    split = v.split;
    once = v.once;
    bounded = v.bounded;
    meshed = v.meshed;
  }
  handle-IsValid (TopicEvent.heartbeat now) s h le v =
      let r = mesh-IsValid now s h le v in
      record { split = r.split; once = r.once; bounded = r.bounded; meshed = r.meshed }

  -- Whatever comes for a topic, its subscribers stay split between the mesh and the other peers, each
  -- in one of them and once, the mesh never has more than D_max peers, and it is empty while this host
  -- is not subscribed. D_min is D_max at most, and the sampling takes elements of a set, as many as
  -- are asked for at most.
  pub handle_all-IsValid :
      (es : List TopicEvent) (s : TopicSubscriptions)
      → IsSample sample
      → config.d_min ≤ config.d_max
      → IsValid config.d_max s
      → IsValid config.d_max (handle_all config sample es s)
  unfolding handle_all
  handle_all-IsValid [] s h le v = v
  handle_all-IsValid (e ∷ es) s h le v =
      handle_all-IsValid es (handle config sample e s).1 h le (handle-IsValid e s h le v)
