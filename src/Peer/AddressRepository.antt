-- ===== src/Peer/AddressRepository.antt =====
-- include/libp2p/peer/address_repository/inmem_address_repository.hpp and
-- src/peer/address_repository/inmem_address_repository.cpp: the addresses of peers, with the time at
-- which each expires and the order in which they are to be dialled. Peers and addresses are
-- numbers, since the code only compares them; the clock is an argument. What the signals tell is
-- returned. `bootstrap`, which asks a resolver of DNS, is left out.
pub mod Adding
pub mod Garbage
use cpp_libp2p.Base.{
  ℕ, ◌+◌, ◌-◌, Bool, true, false, ◌||◌, Option, none, some, List, [], ◌∷◌, ◌++◌, leb, ◌==◌,
  if◌then◌else◌, is_empty, find_key, put_key, contains_key, erase_key, keys,
}

-- InmemAddressRepository::Peer.
pub record Peer : Type 0 where
  pub expires : List (ℕ × ℕ)
  pub order : List ℕ

abbrev pub no_addresses : Peer
no_addresses = record { expires = []; order = [] }

abbrev pub Db : Type 0
Db = List (ℕ × Peer)

pub data Signal : Type 0 where
  address_added : ℕ → ℕ → Signal
  address_removed : ℕ → ℕ → Signal

pub data Lookup : Type 0 where
  addresses : List ℕ → Lookup
  not_found : Lookup

-- The end of time is `max_time`.
unfoldable pub calculate_expiration_time : ℕ → ℕ → ℕ → ℕ
calculate_expiration_time max_time now ttl =
    if leb (max_time - ttl) now then max_time else now + ttl

-- One address of `addAddresses`, or with `refresh` of `upsertAddresses`.
unfoldable pub put_address : Bool → ℕ → ℕ → Peer → Bool × Peer
put_address refresh expires_at m peer = elim (find_key m peer.expires) [
  | none ↦
      (true, record { expires = put_key m expires_at peer.expires; order = peer.order ++ m ∷ [] })
  | some t ↦
      (false, if refresh then record peer { expires = put_key m expires_at peer.expires } else peer)
]

-- The loop over the addresses: whether one was added, the signals, and the peer.
unfoldable pub put_addresses : Bool → ℕ → ℕ → List ℕ → Peer → Bool × List Signal × Peer
put_addresses refresh expires_at p [] peer = (false, [], peer)
put_addresses refresh expires_at p (m ∷ ms) peer =
    let (fresh, peer1) = put_address refresh expires_at m peer in
    let (added, signals, peer2) = put_addresses refresh expires_at p ms peer1 in
    (fresh || added, if fresh then address_added p m ∷ signals else signals, peer2)

-- `db_[p]`.
abbrev pub peer_of : ℕ → Db → Peer
peer_of p db = elim (find_key p db) [ none ↦ no_addresses | some peer ↦ peer ]

unfoldable pub add_addresses : ℕ → ℕ → List ℕ → Db → Bool × List Signal × Db
add_addresses expires_at p ms db =
    let (added, signals, peer) = put_addresses false expires_at p ms (peer_of p db) in
    (added, signals, put_key p peer db)

unfoldable pub upsert_addresses : ℕ → ℕ → List ℕ → Db → Bool × List Signal × Db
upsert_addresses expires_at p ms db =
    let (added, signals, peer) = put_addresses true expires_at p ms (peer_of p db) in
    (added, signals, put_key p peer db)

unfoldable pub expire_all_at : ℕ → List (ℕ × ℕ) → List (ℕ × ℕ)
expire_all_at t [] = []
expire_all_at t ((m, old) ∷ rest) = (m, t) ∷ expire_all_at t rest

-- Returns false for a peer that is not found.
unfoldable pub update_addresses : ℕ → ℕ → Db → Bool × Db
update_addresses expires_at p db = elim (find_key p db) [
  | none ↦ (false, db)
  | some peer ↦
      (true, put_key p (record peer { expires = expire_all_at expires_at peer.expires }) db)
]

-- `eraseOrder`: whether the address was there, and the order without its first occurrence.
unfoldable pub erase_order : ℕ → List ℕ → Bool × List ℕ
erase_order m [] = (false, [])
erase_order m (x ∷ xs) =
    let (found, rest) = erase_order m xs in if x == m then (true, xs) else (found, x ∷ rest)

-- The address that could not be dialled is dialled last.
unfoldable pub demote : ℕ → Peer → Peer
demote m peer =
    let (found, rest) = erase_order m peer.order in
    if contains_key m peer.expires
    then if found then record peer { order = rest ++ m ∷ [] } else peer
    else peer

unfoldable pub dial_failed : ℕ → ℕ → Db → Db
dial_failed p m db = elim (find_key p db) [ none ↦ db | some peer ↦ put_key p (demote m peer) db ]

abbrev pub get_addresses : ℕ → Db → Lookup
get_addresses p db = elim (find_key p db) [ none ↦ not_found | some peer ↦ addresses peer.order ]

abbrev pub removed_signals : ℕ → List (ℕ × ℕ) → List Signal
removed_signals p [] = []
removed_signals p ((m, t) ∷ rest) = address_removed p m ∷ removed_signals p rest

-- The peer stays, without addresses.
unfoldable pub clear : ℕ → Db → List Signal × Db
clear p db = elim (find_key p db) [
  | none ↦ ([], db)
  | some peer ↦ (removed_signals p peer.expires, put_key p no_addresses db)
]

-- The inner loop of `collectGarbage`: the addresses that are told removed, those that stay, and the
-- order.
unfoldable pub collect_expired : ℕ → List (ℕ × ℕ) → List ℕ → List ℕ × List (ℕ × ℕ) × List ℕ
collect_expired now [] order = ([], [], order)
collect_expired now ((m, t) ∷ rest) order =
    let gone = leb t now in
    let order1 = (if gone then (erase_order m order).1 else order) in
    let (told, kept, order2) = collect_expired now rest order1 in
    if gone then (m ∷ told, kept, order2) else (told, (m, t) ∷ kept, order2)

abbrev pub all_removed : ℕ → List ℕ → List Signal
all_removed p [] = []
all_removed p (m ∷ ms) = address_removed p m ∷ all_removed p ms

unfoldable pub collect_garbage : ℕ → Db → List Signal × Db
collect_garbage now [] = ([], [])
collect_garbage now ((p, peer) ∷ db) =
    let (told, kept, order) = collect_expired now peer.expires peer.order in
    let (signals, db1) = collect_garbage now db in
    (
      all_removed p told ++ signals,
      if is_empty kept then db1 else (p, record { expires = kept; order = order }) ∷ db1,
    )

abbrev pub get_peers : Db → List ℕ
get_peers db = keys db
