-- ===== src/Tests/Addresses.antt =====
-- The addresses of peers.
use cpp_libp2p.Base.{refl, true, false, [], ◌∷◌, arith}
use cpp_libp2p.Peer.AddressRepository.{Peer, no_addresses, put_addresses, collect_expired}
use cpp_libp2p.Peer.AddressRepository.Adding
use cpp_libp2p.Peer.AddressRepository.Garbage

no_addresses-IsValid : Adding.IsValid no_addresses
no_addresses-IsValid = record { same = λ q. refl; unique = λ q. omega arith }

-- A peer with two addresses that expire at 10.
abbrev two_addresses : Peer
two_addresses = (put_addresses false 10 1 (4 ∷ 5 ∷ []) no_addresses).2

two_addresses-IsValid : Adding.IsValid two_addresses
two_addresses-IsValid =
    (Adding.put_addresses_lem false 10 1 (4 ∷ 5 ∷ []) no_addresses no_addresses-IsValid).valid

put_addresses_lem_example :
    Adding.PutSpec (5 ∷ 6 ∷ []) two_addresses (put_addresses true 20 1 (5 ∷ 6 ∷ []) two_addresses)
put_addresses_lem_example =
    Adding.put_addresses_lem true 20 1 (5 ∷ 6 ∷ []) two_addresses two_addresses-IsValid

collect_expired_lem_example :
    Garbage.CollectSpec 10 two_addresses.expires two_addresses.order
      (collect_expired 10 two_addresses.expires two_addresses.order)
    × Adding.IsValid (record {
      expires = (collect_expired 10 two_addresses.expires two_addresses.order).1;
      order = (collect_expired 10 two_addresses.expires two_addresses.order).2;
    })
collect_expired_lem_example = Garbage.collect_expired_lem 10 two_addresses two_addresses-IsValid
