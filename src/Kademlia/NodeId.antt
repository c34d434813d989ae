-- ===== src/Kademlia/NodeId.antt =====
-- include/libp2p/protocol/kademlia/node_id.hpp: the identities of nodes, 32 bytes that sha256 makes of
-- a peer id, and the distance between them.
use cpp_libp2p.Base.{
  ℕ, zero, suc, ◌+◌, ◌*◌, ◌%◌, bit_xor, bit_and, Bool, true, false, List, [], ◌∷◌, ◌&&◌, not, ltb,
  ◌==◌, if◌then◌else◌,
}

-- The loop shifts a bit of the byte out each round, so a byte that is not zero ends it within eight.
unfoldable pub leading_zeros : ℕ → ℕ → ℕ
leading_zeros zero byte = 0
leading_zeros (suc fuel) byte =
    let rest = leading_zeros fuel (byte * 2 % 256) in if bit_and byte 128 == 0 then suc rest else 0

abbrev pub leading_zeros_in_byte : ℕ → ℕ
leading_zeros_in_byte byte = leading_zeros 8 byte

unfoldable pub xor_distance : List ℕ → List ℕ → List ℕ
xor_distance [] bs = []
xor_distance (a ∷ as') [] = a ∷ as'
xor_distance (a ∷ as') (b ∷ bs) = bit_xor a b ∷ xor_distance as' bs

unfoldable pub same_bytes : List ℕ → List ℕ → Bool
same_bytes [] [] = true
same_bytes [] (b ∷ bs) = false
same_bytes (a ∷ as') [] = false
same_bytes (a ∷ as') (b ∷ bs) = (a == b) && same_bytes as' bs

-- The loop over the bytes of the distance, from byte `i` on.
unfoldable pub prefix_loop : ℕ → List ℕ → ℕ
prefix_loop i [] = i * 8
prefix_loop i (d ∷ ds) =
    let rest = prefix_loop (suc i) ds in
    if not (d == 0) then i * 8 + leading_zeros_in_byte d else rest

unfoldable pub common_prefix_len : List ℕ → List ℕ → ℕ
common_prefix_len a b = prefix_loop 0 (xor_distance a b)

-- `memcmp(a, b) < 0` on sequences of the same length.
unfoldable pub bytes_less : List ℕ → List ℕ → Bool
bytes_less [] bs = false
bytes_less (a ∷ as') [] = false
bytes_less (a ∷ as') (b ∷ bs) =
    let rest = bytes_less as' bs in if ltb a b then true else if ltb b a then false else rest
