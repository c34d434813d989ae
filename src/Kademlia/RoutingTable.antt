-- ===== src/Kademlia/RoutingTable.antt =====
-- include/libp2p/protocol/kademlia/impl/peer_routing_table_impl.hpp and
-- src/protocol/kademlia/impl/peer_routing_table_impl.cpp: the peers known to a node, in 256 buckets by
-- their distance. A peer id is a number, and `node_of` is the sha256 of its bytes, which is not
-- modelled. What is published on the bus is returned. std::list::sort is stable, so it is the
-- insertion sort.
pub mod Buckets
pub mod Updates
pub mod Zooming
pub mod Collecting
pub mod Nearest
use cpp_libp2p.Base.{
  ℕ, zero, suc, ◌+◌, ◌-◌, ◌*◌, ◌/◌, ◌%◌, ◌^◌, Bool, true, false, not, ◌&&◌, ◌||◌, Option, none,
  some, List, [], ◌∷◌, ◌++◌, ltb, leb, ◌==◌, if◌then◌else◌, length, take, set, get_or,
}
use cpp_libp2p.Kademlia.NodeId.{xor_distance, same_bytes, common_prefix_len, bytes_less}

-- The member `node_id` is `node_of peer_id`.
pub record BucketPeerInfo : Type 0 where
  pub peer_id : ℕ
  pub is_replaceable : Bool
  pub is_connected : Bool

abbrev pub Bucket : Type 0
Bucket = List BucketPeerInfo

unfoldable pub contains : ℕ → Bucket → Bool
contains p [] = false
contains p (i ∷ is') = (i.peer_id == p) || contains p is'

-- The first peer with the id, and the bucket without it.
unfoldable pub take_peer : ℕ → Bucket → Option (BucketPeerInfo × Bucket)
take_peer p [] = none
take_peer p (i ∷ is') =
    let rest = take_peer p is' in
    if i.peer_id == p
    then some (i, is')
    else elim rest [ none ↦ none | some r ↦ some (r.0, i ∷ r.1) ]

-- Returns true when the peer is not in the bucket.
unfoldable pub move_to_front : ℕ → Bucket → Bool × Bucket
move_to_front p b = elim (take_peer p b) [
  | none ↦ (true, b)
  | some r ↦ (false, record r.0 { is_connected = true } ∷ r.1)
]

abbrev pub emplace_to_front : ℕ → Bool → Bool → Bucket → Bucket
emplace_to_front p is_replaceable is_connected b =
    record { peer_id = p; is_replaceable = is_replaceable; is_connected = is_connected } ∷ b

-- The last peer that may be replaced and is not connected leaves.
unfoldable pub remove_replaceable_item : Bucket → Option (ℕ × Bucket)
remove_replaceable_item [] = none
remove_replaceable_item (i ∷ is') =
    let later = remove_replaceable_item is' in
    elim later [
      | some r ↦ some (r.0, i ∷ r.1)
      | none ↦ if i.is_replaceable && not i.is_connected then some (i.peer_id, is') else none
    ]

-- Returns true when the peer was in the bucket.
unfoldable pub remove_peer : ℕ → Bucket → Bool × Bucket
remove_peer p b = elim (take_peer p b) [ none ↦ (false, b) | some r ↦ (true, r.1) ]

unfoldable pub peer_ids : Bucket → List ℕ
peer_ids [] = []
peer_ids (i ∷ is') = i.peer_id ∷ peer_ids is'

abbrev pub truncate : ℕ → Bucket → Bucket
truncate limit b = take limit b

pub data TableEvent : Type 0 where
  peer_added : ℕ → TableEvent
  peer_removed : ℕ → TableEvent

pub data UpdateResult : Type 0 where
  updated : Bool → UpdateResult
  peer_rejected_no_capacity : UpdateResult

unfoldable pub replace_peer : ℕ → Bool → Bool → Bucket → UpdateResult × List TableEvent × Bucket
replace_peer p is_replaceable is_connected b = elim (remove_replaceable_item b) [
  | none ↦ (peer_rejected_no_capacity, [], b)
  | some r ↦ (
    updated true,
    peer_removed r.0 ∷ peer_added p ∷ [],
    emplace_to_front p is_replaceable is_connected r.1,
  )
]

-- `update` behind the choice of the bucket.
unfoldable pub update_bucket :
    ℕ → ℕ → Bool → Bool → Bucket → UpdateResult × List TableEvent × Bucket
update_bucket max_bucket_size p is_permanent is_connected b =
    let (absent, moved) = move_to_front p b in
    let added =
      (if ltb (length b) max_bucket_size
        then (updated true, peer_added p ∷ [], emplace_to_front p (not is_permanent) is_connected b)
        else replace_peer p (not is_permanent) is_connected b) in
    if is_connected
    then if not absent then (updated false, [], moved) else added
    else if contains p b
    then (updated false, [], b)
    else added

pub record PeerRoutingTable : Type 0 where
  pub max_bucket_size : ℕ
  pub local : List ℕ
  pub buckets : List Bucket

unfoldable pub get_bucket_index : List ℕ → PeerRoutingTable → Option ℕ
get_bucket_index key t =
    if same_bytes t.local key then none else some (255 - common_prefix_len t.local key)

abbrev pub bucket_at : ℕ → PeerRoutingTable → Bucket
bucket_at i t = get_or t.buckets i []

abbrev pub table_size : List Bucket → ℕ
table_size [] = 0
table_size (b ∷ bs) = length b + table_size bs

abbrev pub get_all_peers : List Bucket → List ℕ
get_all_peers [] = []
get_all_peers (b ∷ bs) = peer_ids b ++ get_all_peers bs

module _ (node_of : ℕ → List ℕ) where
  unfoldable pub update :
      ℕ → Bool → Bool → PeerRoutingTable → UpdateResult × List TableEvent × PeerRoutingTable
  update p is_permanent is_connected t = elim (get_bucket_index (node_of p) t) [
    | none ↦ (updated true, [], t)
    | some i ↦
        let (result, events, b) =
          update_bucket t.max_bucket_size p is_permanent is_connected (bucket_at i t) in
        (result, events, record t { buckets = set t.buckets i b })
  ]

  -- The event is published whether or not the peer was in the bucket.
  unfoldable pub remove : ℕ → PeerRoutingTable → List TableEvent × PeerRoutingTable
  remove p t = elim (get_bucket_index (node_of p) t) [
    | none ↦ ([], t)
    | some i ↦ (
      peer_removed p ∷ [],
      record t { buckets = set t.buckets i (remove_peer p (bucket_at i t)).1 },
    )
  ]

  -- XorDistanceComparator.
  unfoldable pub closer : List ℕ → BucketPeerInfo → BucketPeerInfo → Bool
  closer from a b =
      bytes_less (xor_distance (node_of a.peer_id) from) (xor_distance (node_of b.peer_id) from)

  unfoldable pub insert_by_distance : List ℕ → BucketPeerInfo → Bucket → Bucket
  insert_by_distance from a [] = a ∷ []
  insert_by_distance from a (b ∷ bs) =
      let rest = insert_by_distance from a bs in if closer from b a then b ∷ rest else a ∷ b ∷ bs

  unfoldable pub sort : List ℕ → Bucket → Bucket
  sort from [] = []
  sort from (a ∷ bs) = insert_by_distance from a (sort from bs)

  -- Bit `i` of the distance, the lowest bit being bit 0 of its last byte.
  unfoldable pub distance_bit : List ℕ → ℕ → Bool
  distance_bit distance i =
      let j = 255 - i in not (get_or distance (j / 8) 0 / 2 ^ (7 - j % 8) % 2 == 0)

  -- The loop down over the bits that are set, from bucket `i` to bucket 1.
  unfoldable pub zoom_in : ℕ → List ℕ → ℕ → PeerRoutingTable → Bucket → Bucket
  zoom_in zero distance count t result = result
  zoom_in (suc i) distance count t result =
      let more =
        (if distance_bit distance (suc i) then result ++ bucket_at (suc i) t else result) in
      let rest = zoom_in i distance count t more in
      if leb count (length result) then result else rest

  -- The loop up over the bits that are not set, `n` buckets from bucket `i` on.
  unfoldable pub zoom_out : ℕ → ℕ → List ℕ → ℕ → PeerRoutingTable → Bucket → Bucket
  zoom_out zero i distance count t result = result
  zoom_out (suc n) i distance count t result =
      let more = (if not (distance_bit distance i) then result ++ bucket_at i t else result) in
      let rest = zoom_out n (suc i) distance count t more in
      if leb count (length result) then result else rest

  -- The buckets nearer than the one of the key.
  unfoldable pub collect_near : List ℕ → ℕ → PeerRoutingTable → Bucket
  collect_near key count t = elim (get_bucket_index key t) [
    | none ↦ []
    | some i ↦
        if i == 0 then [] else zoom_in (i - 1) (xor_distance t.local key) count t (bucket_at i t)
  ]

  unfoldable pub collect : List ℕ → ℕ → PeerRoutingTable → Bucket
  collect key count t =
      let near = collect_near key count t in
      let with_zero = (if leb count (length near) then near else near ++ bucket_at 0 t) in
      zoom_out 255 1 (xor_distance t.local key) count t with_zero

  unfoldable pub get_nearest_peers : List ℕ → ℕ → PeerRoutingTable → List ℕ
  get_nearest_peers key count t = peer_ids (truncate count (sort key (collect key count t)))
