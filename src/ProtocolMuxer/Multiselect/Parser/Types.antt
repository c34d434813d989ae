-- ===== src/ProtocolMuxer/Multiselect/Parser/Types.antt =====
-- Parser: the type that `processReceivedMessages` gives a text, told by how the text begins.
use cpp_libp2p.Base.{
  ℕ, ◌<◌, ◌≡◌, ◌⊎◌, refl, sym, ap, ◌∙◌, true, false, Bool-cases, inl, inr, List, [], ◌∷◌, ◌++◌,
  arith, length, length-append, append_assoc, take, drop, take-append-drop, take-append_exact,
}
use cpp_libp2p.ProtocolMuxer.Multiselect.{Message, MessageType, na}
use cpp_libp2p.ProtocolMuxer.Multiselect.Parser.{
  equal_text, starts_with, protocol_prefix, this_protocol, compatible_protocol, check_na,
  check_version,
}
use cpp_libp2p.ProtocolMuxer.Multiselect.Parser.Lines.{message_of}

-- The text begins with the prefix.
abbrev pub Begins : List ℕ → List ℕ → Type 0
Begins prefix line = (tail : List ℕ) × (line ≡ prefix ++ tail)

-- A text that begins with "/multistream/1." or "/multistream-select/0." is the right version, any
-- other that begins with "/multistream" a wrong one, "na" the answer to an unknown protocol, and
-- any text else the name of a protocol.
pub record IsTyped (line : List ℕ) (m : Message) : Type 0 where
  pub content : m.content ≡ line
  pub right :
      Begins this_protocol line ⊎ Begins compatible_protocol line
      → m.type ≡ MessageType.right_protocol_version
  pub wrong :
      (Begins this_protocol line → ⊥)
      → (Begins compatible_protocol line → ⊥)
      → Begins protocol_prefix line
      → m.type ≡ MessageType.wrong_protocol_version
  pub refusal : line ≡ na → m.type ≡ MessageType.na_message
  pub name :
      (Begins protocol_prefix line → ⊥) → (line ≡ na → ⊥) → m.type ≡ MessageType.protocol_name

pub equal_text_sound : (xs ys : List ℕ) → equal_text xs ys ≡ true → xs ≡ ys
equal_text_sound [] [] h = refl
equal_text_sound [] (y ∷ ys) h = cc
equal_text_sound (x ∷ xs) [] h = cc
equal_text_sound (x ∷ xs) (y ∷ ys) h = elim (Bool-cases (equal_text xs ys)) [
  | inl e ↦
      let same : x ≡ y = ground arith in
      ap (λ z. z ∷ xs) same ∙ ap (λ zs. y ∷ zs) (equal_text_sound xs ys e)
  | inr n ↦ absurd (ground arith)
]

equal_text_refl : (xs : List ℕ) → equal_text xs xs ≡ true
equal_text_refl [] = refl
equal_text_refl (x ∷ xs) = ground (arith, equal_text_refl xs)

starts_with_sound : (x y : List ℕ) → starts_with x y ≡ true → Begins y x
unfolding starts_with
starts_with_sound x y h =
    let same : take (length y) x ≡ y = equal_text_sound (take (length y) x) y (ground arith) in
    (drop (length y) x, sym (take-append-drop (length y) x) ∙ ap (λ l. l ++ drop (length y) x) same)

starts_with_complete : (y tail : List ℕ) → 0 < length y → starts_with (y ++ tail) y ≡ true
unfolding starts_with
starts_with_complete [] tail h = absurd (omega arith)
starts_with_complete (b ∷ bs) tail h =
    ground (
      arith,
      length-append (b ∷ bs) tail,
      take-append_exact (b ∷ bs) tail,
      equal_text_refl (b ∷ bs),
    )

prefix_found : (y x : List ℕ) → 0 < length y → Begins y x → starts_with x y ≡ true
prefix_found y x h (tail, e) = rw e (starts_with_complete y tail h)

prefix_missing : (y x : List ℕ) → (Begins y x → ⊥) → starts_with x y ≡ false
prefix_missing y x h = elim (Bool-cases (starts_with x y)) [
  | inl e ↦ absurd (h (starts_with_sound x y e))
  | inr e ↦ e
]

not_na : (x : List ℕ) → (x ≡ na → ⊥) → equal_text x na ≡ false
not_na x h = elim (Bool-cases (equal_text x na)) [
  | inl e ↦ absurd (h (equal_text_sound x na e))
  | inr e ↦ e
]

-- The other versions begin with "/multistream", too.
longer :
    (x : List ℕ) (more : List ℕ)
    → starts_with x protocol_prefix ≡ false
    → starts_with x (protocol_prefix ++ more) ≡ false
longer x more h = prefix_missing (protocol_prefix ++ more) x (λ (tail, e). clash (
    prefix_found protocol_prefix x (omega arith)
      (more ++ tail, e ∙ append_assoc protocol_prefix more tail)))
  where
    clash : starts_with x protocol_prefix ≡ true → ⊥
    clash e = cc

type_right :
    (m : Message)
    → (starts_with m.content this_protocol ≡ true)
      ⊎ (starts_with m.content compatible_protocol ≡ true)
    → (check_version m).type ≡ MessageType.right_protocol_version
unfolding check_version
type_right m h = ground arith

type_wrong :
    (m : Message)
    → starts_with m.content this_protocol ≡ false
    → starts_with m.content compatible_protocol ≡ false
    → starts_with m.content protocol_prefix ≡ true
    → (check_version m).type ≡ MessageType.wrong_protocol_version
unfolding check_version
type_wrong m h k p = ground arith

type_name :
    (m : Message)
    → starts_with m.content this_protocol ≡ false
    → starts_with m.content compatible_protocol ≡ false
    → starts_with m.content protocol_prefix ≡ false
    → equal_text m.content na ≡ false
    → (check_version m).type ≡ m.type
unfolding check_version check_na
type_name m h k p n = ground arith

content_kept : (m : Message) → (check_version m).content ≡ m.content
unfolding check_version check_na
content_kept m = ground arith

type_na : (check_version (message_of na)).type ≡ MessageType.na_message
unfolding check_version check_na starts_with
type_na = refl

pub check_version-IsTyped : (line : List ℕ) → IsTyped line (check_version (message_of line))
check_version-IsTyped line = record {
  content = content_kept (message_of line);
  right = λ h. type_right (message_of line) (elim h [
    | inl b ↦ inl (prefix_found this_protocol line (omega arith) b)
    | inr b ↦ inr (prefix_found compatible_protocol line (omega arith) b)
  ]);
  wrong = λ h k b.
      type_wrong (message_of line) (prefix_missing this_protocol line h)
        (prefix_missing compatible_protocol line k)
        (prefix_found protocol_prefix line (omega arith) b);
  refusal = λ e. ap (λ l. (check_version (message_of l)).type) e ∙ type_na;
  name = λ h k.
      let p = prefix_missing protocol_prefix line h in
      type_name (message_of line) (longer line _ p) (longer line _ p) p (not_na line k);
}
