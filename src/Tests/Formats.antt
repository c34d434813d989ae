-- ===== src/Tests/Formats.antt =====
-- Unsigned varints.
use cpp_libp2p.Base.{◌≡◌, ◌≤◌, ◌++◌, refl, some, none, [], ◌∷◌, arith, length}
use cpp_libp2p.Multi.Uvarint.{from_number, create, to_uint64}
use cpp_libp2p.Multi.Uvarint.Accepts.{IsAccepted, value, create_sound, create_complete}
use cpp_libp2p.Multi.Uvarint.RoundTrip.{create-from_number}

from_number_300 : from_number 300 ≡ 0xac ∷ 0x02 ∷ []
unfolding from_number
from_number_300 = refl

create_300 : create (0xac ∷ 0x02 ∷ 9 ∷ []) ≡ some (0xac ∷ 0x02 ∷ [])
unfolding create
create_300 = refl

create_cut : create (0xac ∷ []) ≡ none
unfolding create
create_cut = refl

create_sound_example : IsAccepted (0xac ∷ 0x02 ∷ 9 ∷ []) (0xac ∷ 0x02 ∷ [])
create_sound_example =
    create_sound (0xac ∷ 0x02 ∷ 9 ∷ []) (0xac ∷ 0x02 ∷ []) (omega arith) create_300

create_complete_example :
    (create ((0xac ∷ 0x02 ∷ []) ++ 9 ∷ []) ≡ some (0xac ∷ 0x02 ∷ []))
    × (to_uint64 (0xac ∷ 0x02 ∷ []) ≡ value (0xac ∷ 0x02 ∷ []))
create_complete_example =
    create_complete (0xac ∷ 0x02 ∷ []) (9 ∷ []) (omega arith) (omega arith) (omega arith)

create-from_number_example :
    (create (from_number 300 ++ 9 ∷ []) ≡ some (from_number 300))
    × (to_uint64 (from_number 300) ≡ 300)
    × (length (from_number 300) ≤ 10)
create-from_number_example = create-from_number 300 (9 ∷ []) (omega arith)
