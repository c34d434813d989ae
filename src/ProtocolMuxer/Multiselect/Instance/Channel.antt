-- ===== src/ProtocolMuxer/Multiselect/Instance/Channel.antt =====
-- MultiselectInstance and a connection: a read is done when the bytes that it asks for are there,
-- and a write puts its bytes behind those of the writes before it.
use cpp_libp2p.Base.{
  ℕ, zero, suc, none, some, List, [], ◌∷◌, ◌++◌, leb, if◌then◌else◌, length, take, drop,
}
use cpp_libp2p.ProtocolMuxer.Multiselect.Instance.{MultiselectInstance, WriteRequest}
use cpp_libp2p.ProtocolMuxer.Multiselect.Instance.Handlers.{read_done, write_done}

-- The instance, and the bytes that wait for it.
unfoldable pub receive_some : MultiselectInstance × List ℕ → MultiselectInstance × List ℕ
receive_some (s, input) = elim s.read_request [
  | none ↦ (s, input)
  | some (round, needed) ↦
      if leb needed (length input)
      then (read_done none (take needed input) s, drop needed input)
      else (s, input)
]

unfoldable pub read_times : ℕ → MultiselectInstance × List ℕ → MultiselectInstance × List ℕ
read_times zero x = x
read_times (suc n) x = read_times n (receive_some x)

-- The instance, and the bytes that wait for the other side.
unfoldable pub write_one : MultiselectInstance × List ℕ → MultiselectInstance × List ℕ
write_one (s, output) = elim s.write_requests [
  | [] ↦ (s, output)
  | r ∷ rest ↦ elim r [
    | WriteRequest.write round bytes ↦ (write_done none s, output ++ bytes)
    | WriteRequest.defer_write_callback round e ↦ (write_done none s, output)
  ]
]
