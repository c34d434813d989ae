-- ===== src/Gossip/TopicSubscriptions.antt =====
-- src/protocol/gossip/impl/topic_subscriptions.cpp, with what remote_subscriptions.cpp there does with
-- the topic: the peers of a topic, and those in the mesh. `subscribers` holds the peers whose
-- `subscribed_to` has the topic, which the peers' contexts keep. What is put into the messages to the
-- peers is returned. `sample` is std::sample with its random numbers. Messages are numbers.
pub mod Valid
pub mod Mesh
use cpp_libp2p.Base.{
  ℕ, ◌+◌, ◌-◌, Bool, true, false, not, ◌&&◌, Option, none, some, List, [], ◌∷◌, ◌++◌, ltb, leb,
  ◌==◌, if◌then◌else◌, is_empty, length, drop, find_key, erase_key, put_key, contains_key,
}
use cpp_libp2p.Gossip.PeerSet.{contains, insert, without, select_random_peers}

-- Of gossip's Config.
pub record Config : Type 0 where
  pub d_min : ℕ
  pub d_max : ℕ
  pub seen_cache_limit : ℕ
  pub seen_cache_lifetime_msec : ℕ

pub record TopicSubscriptions : Type 0 where
  pub self_subscribed : Bool
  pub fanout_period_ends : ℕ
  pub subscribed_peers : List ℕ
  pub mesh_peers : List ℕ
  pub seen_cache : List (ℕ × ℕ)
  pub dont_bother_until : List (ℕ × ℕ)
  pub subscribers : List ℕ

-- The calls of a peer's message builder, and of `peerIsWritable`.
pub data Told : Type 0 where
  add_message : ℕ → ℕ → Told
  add_ihave : ℕ → ℕ → Told
  add_graft : ℕ → Told
  add_prune : ℕ → Told
  peer_is_writable : ℕ → Bool → Told

abbrev pub new_topic : List ℕ → TopicSubscriptions
new_topic subscribers = record {
  self_subscribed = false;
  fanout_period_ends = 0;
  subscribed_peers = subscribers;
  mesh_peers = [];
  seen_cache = [];
  dont_bother_until = [];
  subscribers = subscribers;
}

unfoldable pub is_empty_topic : TopicSubscriptions → Bool
is_empty_topic s =
    not s.self_subscribed
    && (s.fanout_period_ends == 0)
    && is_empty s.subscribed_peers
    && is_empty s.mesh_peers

-- `needToForward`: not to the peer that it comes from, nor to the one that made it.
unfoldable pub need_to_forward : ℕ → Option ℕ → Option ℕ → Bool
need_to_forward p from origin =
    let fresh : Bool = elim origin [ none ↦ true | some o ↦ not (p == o) ] in
    elim from [ none ↦ fresh | some f ↦ if p == f then false else fresh ]

-- The message to the mesh, and its announcement to the peers in `sampled`.
unfoldable pub forward : Option ℕ → Option ℕ → ℕ → List ℕ → List Told
forward from origin msg_id [] = []
forward from origin msg_id (p ∷ ps) =
    let rest = forward from origin msg_id ps in
    if need_to_forward p from origin
    then add_message p msg_id ∷ peer_is_writable p true ∷ rest
    else rest

unfoldable pub announce : Bool → Option ℕ → Option ℕ → ℕ → List ℕ → List Told
announce flush from origin msg_id [] = []
announce flush from origin msg_id (p ∷ ps) =
    let rest = announce flush from origin msg_id ps in
    if need_to_forward p from origin
    then add_ihave p msg_id ∷ peer_is_writable p flush ∷ rest
    else rest

abbrev pub is_local : Option ℕ → Bool
is_local none = true
is_local (some p) = false

abbrev pub announce_all : ℕ → List (ℕ × ℕ) → List Told
announce_all p [] = []
announce_all p ((t, msg_id) ∷ rest) = add_ihave p msg_id ∷ announce_all p rest

abbrev pub prune_all : List ℕ → List Told
prune_all [] = []
prune_all (p ∷ ps) = add_prune p ∷ peer_is_writable p false ∷ prune_all ps

unfoldable pub insert_all : List ℕ → List ℕ → List ℕ
insert_all [] peers = peers
insert_all (p ∷ ps) peers = insert_all ps (insert p peers).1

-- The messages seen that are not expired yet, from the first one on.
unfoldable pub drop_expired : ℕ → List (ℕ × ℕ) → List (ℕ × ℕ)
drop_expired now [] = []
drop_expired now ((t, msg_id) ∷ rest) =
    let rest' = drop_expired now rest in if leb now t then (t, msg_id) ∷ rest else rest'

unfoldable pub shift_cache : ℕ → ℕ → List (ℕ × ℕ) → List (ℕ × ℕ)
shift_cache limit now cache =
    if ltb limit (length cache) then drop (length cache - limit) cache else drop_expired now cache

-- `addToMesh`, with the erasing from the other set.
abbrev pub to_mesh : ℕ → TopicSubscriptions → TopicSubscriptions
to_mesh p s = record s {
  mesh_peers = (insert p s.mesh_peers).1;
  subscribed_peers = without p s.subscribed_peers;
}

-- A peer that is to be taken into the mesh, unless it is not to be bothered yet.
unfoldable pub graft_one : ℕ → ℕ → TopicSubscriptions → List Told × TopicSubscriptions
graft_one now p s =
    let told = add_graft p ∷ peer_is_writable p false ∷ [] in
    elim (find_key p s.dont_bother_until) [
      | none ↦ (told, to_mesh p s)
      | some t ↦
          if ltb t now
          then (told, to_mesh p (record s { dont_bother_until = erase_key p s.dont_bother_until }))
          else ([], s)
    ]

unfoldable pub graft_all : ℕ → List ℕ → TopicSubscriptions → List Told × TopicSubscriptions
graft_all now [] s = ([], s)
graft_all now (p ∷ ps) s =
    let (told, s1) = graft_one now p s in let (more, s2) = graft_all now ps s1 in (told ++ more, s2)

-- `removeFromMesh`, with the erasing from the mesh.
unfoldable pub prune_one : ℕ → TopicSubscriptions → TopicSubscriptions
prune_one p s = record s {
  subscribed_peers = (insert p s.subscribed_peers).1;
  mesh_peers = without p s.mesh_peers;
}

unfoldable pub prune_peers : List ℕ → TopicSubscriptions → TopicSubscriptions
prune_peers [] s = s
prune_peers (p ∷ ps) s = prune_peers ps (prune_one p s)

unfoldable pub on_peer_subscribed : ℕ → TopicSubscriptions → List Told × TopicSubscriptions
on_peer_subscribed p s = (
  announce_all p s.seen_cache ++ peer_is_writable p false ∷ [],
  record s { subscribed_peers = (insert p s.subscribed_peers).1 },
)

unfoldable pub on_peer_unsubscribed : ℕ → TopicSubscriptions → TopicSubscriptions
on_peer_unsubscribed p s =
    let s1 : TopicSubscriptions = record s {
      dont_bother_until = erase_key p s.dont_bother_until;
    } in
    if contains p s.subscribed_peers
    then record s1 { subscribed_peers = without p s.subscribed_peers }
    else record s1 { mesh_peers = without p s.mesh_peers }

unfoldable pub on_self_subscribed : Bool → TopicSubscriptions → List Told × TopicSubscriptions
on_self_subscribed true s = ([], record s { self_subscribed = true })
on_self_subscribed false s = (
  prune_all s.mesh_peers,
  record s {
    self_subscribed = false;
    subscribed_peers = insert_all s.mesh_peers s.subscribed_peers;
    mesh_peers = [];
  },
)

-- An entry of `dont_bother_until` that is there stays.
unfoldable pub on_prune : ℕ → ℕ → TopicSubscriptions → TopicSubscriptions
on_prune p until s =
    let s1 : TopicSubscriptions = record s { mesh_peers = without p s.mesh_peers } in
    if contains p s.subscribers
    then record s1 {
      subscribed_peers = (insert p s.subscribed_peers).1;
      dont_bother_until =
          if contains_key p s.dont_bother_until
          then s.dont_bother_until
          else put_key p until s.dont_bother_until;
    }
    else s1

-- What comes for the topic, through RemoteSubscriptions.
pub data TopicEvent : Type 0 where
  self_subscribes : Bool → TopicEvent
  peer_subscribes : ℕ → TopicEvent
  peer_unsubscribes : ℕ → TopicEvent
  graft : ℕ → TopicEvent
  prune : ℕ → ℕ → TopicEvent
  new_message : Option ℕ → Option ℕ → ℕ → ℕ → TopicEvent
  heartbeat : ℕ → TopicEvent

-- `onPeerSubscribed` and `onPeerUnsubscribed` of RemoteSubscriptions, which look at the peer.
unfoldable pub peer_subscribed : ℕ → TopicSubscriptions → List Told × TopicSubscriptions
peer_subscribed p s =
    let (told, s1) = on_peer_subscribed p (record s { subscribers = (insert p s.subscribers).1 }) in
    if contains p s.subscribers then ([], s) else (told, s1)

unfoldable pub peer_unsubscribed : ℕ → TopicSubscriptions → TopicSubscriptions
peer_unsubscribed p s =
    let s1 = on_peer_unsubscribed p (record s { subscribers = without p s.subscribers }) in
    if contains p s.subscribers then s1 else s

module _ (config : Config) (sample : ℕ → List ℕ → List ℕ) where
  unfoldable pub on_new_message :
      Option ℕ → Option ℕ → ℕ → ℕ → TopicSubscriptions → List Told × TopicSubscriptions
  on_new_message from origin msg_id now s = (
    forward from origin msg_id s.mesh_peers
        ++ announce (is_local from) from origin msg_id
            (select_random_peers sample (config.d_max + config.d_max) s.subscribed_peers),
    record s {
      fanout_period_ends =
          if is_local from then now + config.seen_cache_lifetime_msec else s.fanout_period_ends;
      seen_cache = s.seen_cache ++ (now + config.seen_cache_lifetime_msec, msg_id) ∷ [];
    },
  )

  -- The part of `onHeartbeat` on the mesh.
  unfoldable pub update_mesh : ℕ → TopicSubscriptions → List Told × TopicSubscriptions
  update_mesh now s =
      let size = length s.mesh_peers in
      let grafted = select_random_peers sample (config.d_min - size) s.subscribed_peers in
      let pruned = sample (size - config.d_max) s.mesh_peers in
      if s.self_subscribed && not (is_empty s.subscribed_peers)
      then if ltb size config.d_min
        then graft_all now grafted s
        else if ltb config.d_max size
        then (prune_all pruned, prune_peers pruned s)
        else ([], s)
      else ([], s)

  unfoldable pub on_heartbeat : ℕ → TopicSubscriptions → List Told × TopicSubscriptions
  on_heartbeat now s =
      let (told, s1) = update_mesh now s in
      (
        told,
        record s1 {
          fanout_period_ends =
              if not (s1.fanout_period_ends == 0) && ltb s1.fanout_period_ends now
              then 0
              else s1.fanout_period_ends;
          seen_cache = shift_cache config.seen_cache_limit now s1.seen_cache;
        },
      )

  -- The end of `onGraft`.
  unfoldable pub accept_graft : ℕ → TopicSubscriptions → List Told × TopicSubscriptions
  accept_graft p s =
      if s.self_subscribed && not (leb config.d_max (length s.mesh_peers))
      then ([], to_mesh p s)
      else (add_prune p ∷ peer_is_writable p true ∷ [], s)

  unfoldable pub on_graft : ℕ → TopicSubscriptions → List Told × TopicSubscriptions
  on_graft p s =
      let s1 : TopicSubscriptions = record s { subscribers = (insert p s.subscribers).1 } in
      let (told, s2) = on_peer_subscribed p s1 in
      let (more, s3) = accept_graft p s2 in
      let known = accept_graft p s in
      if contains p s.mesh_peers
      then ([], s)
      else if contains p s.subscribed_peers
      then known
      else (told ++ more, s3)

  unfoldable pub handle : TopicEvent → TopicSubscriptions → List Told × TopicSubscriptions
  handle (self_subscribes subscribed) s = on_self_subscribed subscribed s
  handle (peer_subscribes p) s = peer_subscribed p s
  handle (peer_unsubscribes p) s = ([], peer_unsubscribed p s)
  handle (graft p) s = on_graft p s
  handle (prune p until) s = ([], on_prune p until s)
  handle (new_message from origin msg_id now) s = on_new_message from origin msg_id now s
  handle (heartbeat now) s = on_heartbeat now s

  unfoldable pub handle_all : List TopicEvent → TopicSubscriptions → TopicSubscriptions
  handle_all [] s = s
  handle_all (e ∷ es) s = handle_all es (handle e s).1
