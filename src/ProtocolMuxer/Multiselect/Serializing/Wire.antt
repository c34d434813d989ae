-- ===== src/ProtocolMuxer/Multiselect/Serializing/Wire.antt =====
-- The bytes that the functions of serializing.hpp append.
use cpp_libp2p.Base.{
  ℕ, zero, suc, ◌+◌, ◌/◌, ◌%◌, ◌≤◌, ◌<◌, ◌≡◌, sym, ap, ◌∙◌, true, List, [], ◌∷◌, ◌++◌, arith,
  length, length-append, append_assoc, append-nil, some, zero_cases, inl, inr, low_seven_bits,
  set_top, All,
}
use cpp_libp2p.Multi.Uvarint.{from_number, encode_loop}
use cpp_libp2p.Multi.Uvarint.RoundTrip.{encode_last, encode_more}
use cpp_libp2p.ProtocolMuxer.Multiselect.{new_line}
use cpp_libp2p.ProtocolMuxer.Multiselect.Serializing.{
  append_varint_loop, append_varint, append_protocol, create_message, append_protocols,
  append_protocol_list, create_messages,
}

loop_last :
    (fuel n : ℕ) (buffer : List ℕ)
    → n / 128 ≡ 0
    → append_varint_loop (suc fuel) buffer n ≡ buffer ++ n % 128 ∷ []
unfolding append_varint_loop
loop_last fuel n buffer z = ground (arith, low_seven_bits n)

loop_more :
    (fuel n : ℕ) (buffer : List ℕ)
    → 0 < n / 128
    → append_varint_loop (suc fuel) buffer n
      ≡ append_varint_loop fuel (buffer ++ (n % 128 + 128) ∷ []) (n / 128)
unfolding append_varint_loop
loop_more fuel n buffer pos = ground (arith, low_seven_bits n, set_top (n % 128))

no_rounds :
    (n : ℕ) (buffer : List ℕ) → append_varint_loop zero buffer n ≡ buffer ++ encode_loop zero n
unfolding append_varint_loop encode_loop
no_rounds n buffer = sym (append-nil buffer)

append_varint_loop_lem :
    (fuel n : ℕ) (buffer : List ℕ) → append_varint_loop fuel buffer n ≡ buffer ++ encode_loop fuel n
append_varint_loop_lem zero n buffer = no_rounds n buffer
append_varint_loop_lem (suc fuel) n buffer = elim (zero_cases (n / 128)) [
  | inl z ↦ loop_last fuel n buffer z ∙ ap (λ l. buffer ++ l) (sym (encode_last fuel n z))
  | inr pos ↦
      loop_more fuel n buffer pos
      ∙ append_varint_loop_lem fuel (n / 128) (buffer ++ (n % 128 + 128) ∷ [])
      ∙ append_assoc buffer ((n % 128 + 128) ∷ []) (encode_loop fuel (n / 128))
      ∙ ap (λ l. buffer ++ l) (sym (encode_more fuel n pos))
]

pub append_varint-from_number :
    (n : ℕ) (buffer : List ℕ) → append_varint buffer n ≡ buffer ++ from_number n
unfolding append_varint from_number
append_varint-from_number n buffer = append_varint_loop_lem 10 n buffer

-- A text as it is sent: the size, the text, the end of the line.
abbrev pub wire : List ℕ → List ℕ
wire line = from_number (length (line ++ new_line ∷ [])) ++ (line ++ new_line ∷ [])

abbrev pub wires : List (List ℕ) → List ℕ
wires [] = []
wires (l ∷ ls) = wire l ++ wires ls

protocol_fits :
    (buffer protocol out : List ℕ)
    → append_varint buffer (length protocol + 1) ++ protocol ++ new_line ∷ [] ≡ out
    → length protocol + 1 ≤ 65532
    → length out ≤ 65535
    → append_protocol buffer protocol ≡ some out
unfolding append_protocol
protocol_fits buffer protocol out e small fit = let len = ap length e in ground arith

pub append_protocol-wire :
    (buffer line : List ℕ)
    → length line + 1 ≤ 65532
    → length (buffer ++ wire line) ≤ 65535
    → append_protocol buffer line ≡ some (buffer ++ wire line)
append_protocol-wire buffer line small fit =
    let n = length (line ++ new_line ∷ []) in
    protocol_fits buffer line (buffer ++ wire line)
      (ap (λ n. append_varint buffer n ++ line ++ new_line ∷ [])
          (sym (length-append line (new_line ∷ [])))
        ∙ ap (λ x. x ++ line ++ new_line ∷ []) (append_varint-from_number n buffer)
        ∙ append_assoc (buffer ++ from_number n) line (new_line ∷ [])
        ∙ append_assoc buffer (from_number n) (line ++ new_line ∷ []))
      small fit

nothing_appended : (buffer : List ℕ) → append_protocols buffer [] ≡ some (buffer ++ [])
unfolding append_protocols
nothing_appended buffer = ap some (sym (append-nil buffer))

one_appended :
    (buffer out line : List ℕ) (lines : List (List ℕ))
    → append_protocol buffer line ≡ some out
    → append_protocols buffer (line ∷ lines) ≡ append_protocols out lines
unfolding append_protocols
one_appended buffer out line lines e = ground arith

pub append_protocols-wires :
    (buffer : List ℕ) (lines : List (List ℕ))
    → All (λ l. length l + 1 ≤ 65532) lines
    → length (buffer ++ wires lines) ≤ 65535
    → append_protocols buffer lines ≡ some (buffer ++ wires lines)
append_protocols-wires buffer [] small fit = nothing_appended buffer
append_protocols-wires buffer (l ∷ ls) small fit =
    let same : buffer ++ wire l ++ wires ls ≡ buffer ++ (wire l ++ wires ls) =
      append_assoc buffer (wire l) (wires ls) in
    let len = length-append (buffer ++ wire l) (wires ls) in
    one_appended buffer (buffer ++ wire l) l ls
      (append_protocol-wire buffer l small.0 (omega (arith, fit, ap length same, len)))
    ∙ append_protocols-wires (buffer ++ wire l) ls small.1 (omega (arith, fit, ap length same))
    ∙ ap some same

pub create_message-wire :
    (line : List ℕ)
    → length line + 1 ≤ 65532
    → length (wire line) ≤ 65535
    → create_message line ≡ some (wire line)
unfolding create_message
create_message-wire line small fit = append_protocol-wire [] line small fit

list_fits :
    (lines : List (List ℕ)) (buffer : List ℕ)
    → append_protocols [] lines ≡ some buffer
    → length buffer ≤ 65535
    → append_protocol_list (some 65538) [] lines true ≡ some (buffer ++ new_line ∷ [])
unfolding append_protocol_list
list_fits lines buffer e fit = ground arith

prefixed :
    (lines : List (List ℕ)) (body : List ℕ)
    → append_protocol_list (some 65538) [] lines true ≡ some body
    → create_messages lines true ≡ some (append_varint [] (length body) ++ body)
unfolding create_messages
prefixed lines body e = ground arith

-- Messages in a message.
pub create_messages-wires :
    (lines : List (List ℕ))
    → All (λ l. length l + 1 ≤ 65532) lines
    → length (wires lines) ≤ 65535
    → let body = wires lines ++ new_line ∷ [] in
      create_messages lines true ≡ some (from_number (length body) ++ body)
create_messages-wires lines small fit =
    let body = wires lines ++ new_line ∷ [] in
    prefixed lines body
      (list_fits lines (wires lines) (append_protocols-wires [] lines small fit) fit)
    ∙ ap (λ x. some (x ++ body)) (append_varint-from_number (length body) [])
