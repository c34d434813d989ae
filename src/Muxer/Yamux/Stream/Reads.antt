-- ===== src/Muxer/Yamux/Stream/Reads.antt =====
-- The calls of a stream that receive: readSome, adjustWindowSize, onDataReceived, onFINReceived.
use cpp_libp2p.Base.{
  ℕ, ◌≤◌, ◌<◌, ◌≡◌, refl, ap, subst, ◌⊎◌, inl, inr, Bool, true, false, Bool-cases, Option, none,
  some, List, [], ◌∷◌, ◌++◌, arith, Option-cases, length, zero_cases, count-append, if◌then◌else◌,
  length-drop, drop, some_inj, ◌==◌,
}
use cpp_libp2p.Basic.ReadBuffer.{ReadBuffer, consume}
use cpp_libp2p.Basic.ReadBuffer.Valid as BufferValid
use cpp_libp2p.Basic.ReadBuffer.Valid.{bytes_of}
use cpp_libp2p.Basic.ReadBuffer.Consuming.{consume_lem}
use cpp_libp2p.Muxer.Yamux.Stream.{
  YamuxStream, Error, Event, Pending, copy_out, ack_received_bytes, defer_call, abort,
  stream_invalid_argument, stream_not_readable, read_some, Outcome, failure, size,
}
use cpp_libp2p.Muxer.Yamux.Stream.Valid.{IsValid}
use cpp_libp2p.Muxer.Yamux.Stream.Steps.{StepSpec}
use cpp_libp2p.Muxer.Yamux.Stream.Queueing.{deferred-StepSpec}

-- The stream with another buffer and another reading.
abbrev pub with_buffer : ReadBuffer → Option Pending → YamuxStream → YamuxStream
with_buffer b p s = record s { internal_read_buffer = b; reading = p }

pub with_buffer-IsValid :
    (b : ReadBuffer) (p : Option Pending) (s : YamuxStream)
    → IsValid s
    → BufferValid.IsValid b
    → ((e : Error) → s.close_reason ≡ some e → p ≡ none)
    → ((r : Pending) → p ≡ some r → (b.total_size ≡ 0) × (s.is_readable ≡ true) × (0 < r.out))
    → (s.close_reason ≡ none → b.total_size ≤ s.peers_window_size)
    → IsValid (with_buffer b p s)
with_buffer-IsValid b p s v vb no_reading waits within = record {
  queue = v.queue;
  buffer = vb;
  closed = λ e k. record {
    not_readable = (v.closed e k).not_readable;
    not_writable = (v.closed e k).not_writable;
    no_reading = no_reading e k;
    no_messages = (v.closed e k).no_messages;
    no_unsent = (v.closed e k).no_unsent;
    no_close_cb = (v.closed e k).no_close_cb;
  };
  waiting = λ r k. record {
    nothing_read = (waits r k).0;
    readable = (waits r k).1;
    room = (waits r k).2;
  };
  within = within;
  bound = v.bound;
  finished = λ k. record {
    not_writable = (v.finished k).not_writable;
    no_unsent = (v.finished k).no_unsent;
  };
}

-- What `readSome` does: it answers at once, gives what is buffered, keeps the reader, or aborts.
data Reads (out cb : ℕ) (s : YamuxStream) : Type 0 where
  answered :
      (o : Outcome)
      → (out ≡ 0) ⊎ ((e : Error) × (s.close_reason ≡ some e)) ⊎ (s.reading ≡ none)
      → read_some out cb s ≡ (defer_call cb o ∷ [], s)
      → Reads out cb s
  given :
      0 < out
      → 0 < s.internal_read_buffer.total_size
      → read_some out cb s ≡ (
        copy_out (consume out s.internal_read_buffer).0
              ∷ (if s.is_readable
                  then ack_received_bytes (length (consume out s.internal_read_buffer).0) ∷ []
                  else [])
            ++ defer_call cb (size (length (consume out s.internal_read_buffer).0)) ∷ [],
        record s { internal_read_buffer = (consume out s.internal_read_buffer).1 },
      )
      → Reads out cb s
  kept :
      0 < out
      → s.internal_read_buffer.total_size ≡ 0
      → s.close_reason ≡ none
      → s.reading ≡ none
      → s.is_readable ≡ true
      → read_some out cb s ≡ ([], record s { reading = some (record { out = out; cb = cb }) })
      → Reads out cb s
  aborted :
      (p : Pending)
      → 0 < out
      → s.reading ≡ some p
      → read_some out cb s ≡ (abort ∷ [], s)
      → Reads out cb s

read_cases : (out cb : ℕ) (s : YamuxStream) → Reads out cb s
unfolding read_some
read_cases out cb s = elim (zero_cases out) [
  | inl z ↦ answered (failure stream_invalid_argument) (inl z) (ground arith)
  | inr pos ↦ elim (zero_cases s.internal_read_buffer.total_size) [
    | inr full ↦ given pos full (ground arith)
    | inl nil ↦ elim (Option-cases s.close_reason) [
      | inr (e, h) ↦ answered (failure e) (inr (inl (e, h))) (ground arith)
      | inl h ↦ elim (Option-cases s.reading) [
        | inr (p, k) ↦ aborted p pos k (ground arith)
        | inl k ↦ elim (Bool-cases s.is_readable) [
          | inl r ↦ kept pos nil h k r (ground arith)
          | inr r ↦ answered (failure stream_not_readable) (inr (inr k)) (ground arith)
        ]
      ]
    ]
  ]
]

-- The callback of a second reader is lost, since the process ends there.
unfoldable pub second_reader : ℕ → ℕ → YamuxStream → List ℕ
second_reader out cb s = if out == 0 then [] else elim s.reading [ none ↦ [] | some p ↦ cb ∷ [] ]

only_reader :
    (out cb : ℕ) (s : YamuxStream) → (out ≡ 0) ⊎ (s.reading ≡ none) → second_reader out cb s ≡ []
unfolding second_reader
only_reader out cb s h = ground arith

refused_reader :
    (out cb : ℕ) (s : YamuxStream) (p : Pending)
    → 0 < out
    → s.reading ≡ some p
    → second_reader out cb s ≡ cb ∷ []
unfolding second_reader
refused_reader out cb s p pos h = ground arith

no_reader : (s : YamuxStream) → IsValid s → 0 < s.internal_read_buffer.total_size → s.reading ≡ none
no_reader s v pos = elim (Option-cases s.reading) [
  | inl h ↦ h
  | inr (p, h) ↦ absurd (omega (arith, (v.waiting p h).nothing_read))
]

-- The size of a valid buffer is the number of its bytes.
size_after :
    (b c : ReadBuffer) (n : ℕ)
    → BufferValid.IsValid b
    → BufferValid.IsValid c
    → bytes_of c ≡ drop n (bytes_of b)
    → c.total_size ≤ b.total_size
size_after b c n vb vc e =
    omega (arith, vb.total, vc.total, ap length e, length-drop n (bytes_of b))

given-StepSpec :
    (cb n : ℕ) (bs : List ℕ) (b : ReadBuffer) (es : List Event) (s : YamuxStream)
    → IsValid s
    → 0 < s.internal_read_buffer.total_size
    → BufferValid.IsValid b
    → b.total_size ≤ s.internal_read_buffer.total_size
    → (es ≡ []) ⊎ (es ≡ ack_received_bytes n ∷ [])
    → StepSpec
        (cb ∷ [])
        []
        s
        (copy_out bs ∷ es ++ defer_call cb (size n) ∷ [], record s { internal_read_buffer = b })
given-StepSpec cb n bs b es s v pos vb le h = record {
  valid =
      with_buffer-IsValid b s.reading s v vb (λ e k. (v.closed e k).no_reading)
        (λ r k. absurd (omega (arith, (v.waiting r k).nothing_read)))
        (λ k. omega (arith, v.within k));
  calls = λ c. elim h [ inl e ↦ rw e (omega arith) | inr e ↦ rw e (omega arith) ];
  fin_once = elim h [ inl e ↦ rw e (omega arith) | inr e ↦ rw e (omega arith) ];
  silent = λ k. elim h [ inl e ↦ rw e | inr e ↦ rw e ];
  in_order = elim h [ inl e ↦ rw e refl | inr e ↦ rw e refl ];
}

kept-StepSpec :
    (out cb : ℕ) (s : YamuxStream)
    → IsValid s
    → 0 < out
    → s.internal_read_buffer.total_size ≡ 0
    → s.close_reason ≡ none
    → s.reading ≡ none
    → s.is_readable ≡ true
    → StepSpec (cb ∷ []) [] s ([], record s { reading = some (record { out = out; cb = cb }) })
kept-StepSpec out cb s v pos nil h k r = record {
  valid =
      with_buffer-IsValid s.internal_read_buffer (some (record { out = out; cb = cb })) s v v.buffer
        (λ e l. cc) (λ p l. (nil, r, subst (λ q. 0 < q.out) (some_inj l) pos)) (λ l. v.within h);
  calls = λ c. simp (count-append, k) (omega arith);
  fin_once = omega arith;
  silent = λ _. refl;
  in_order = refl;
}

ack_cases :
    (b : Bool) (n : ℕ)
    → ((if b then ack_received_bytes n ∷ [] else []) ≡ [])
      ⊎ ((if b then ack_received_bytes n ∷ [] else []) ≡ ack_received_bytes n ∷ [])
ack_cases true n = inr refl
ack_cases false n = inl refl

aborted-StepSpec :
    (cb : ℕ) (s : YamuxStream) → IsValid s → StepSpec (cb ∷ []) (cb ∷ []) s (abort ∷ [], s)
aborted-StepSpec cb s v = record {
  valid = v;
  calls = λ c. omega arith;
  fin_once = omega arith;
  silent = λ _. refl;
  in_order = refl;
}

pub read_some-StepSpec :
    (out cb : ℕ) (s : YamuxStream)
    → IsValid s
    → StepSpec (cb ∷ []) (second_reader out cb s) s (read_some out cb s)
read_some-StepSpec out cb s v = elim (read_cases out cb s) [
  | answered o why e ↦
      rw (e, only_reader out cb s (answered_alone why)) (deferred-StepSpec cb o s v)
  | given pos full e ↦
      let spec = consume_lem out s.internal_read_buffer v.buffer in
      rw (e, only_reader out cb s (inr (no_reader s v full)))
        (given-StepSpec cb _ _ _ _ s v full spec.valid
          (size_after s.internal_read_buffer _ out v.buffer spec.valid spec.rest)
          (ack_cases s.is_readable _))
  | kept pos nil h k r e ↦
      rw (e, only_reader out cb s (inr k)) (kept-StepSpec out cb s v pos nil h k r)
  | aborted p pos k e ↦ rw (e, refused_reader out cb s p pos k) (aborted-StepSpec cb s v)
]
  where
    answered_alone :
        (out ≡ 0) ⊎ ((e : Error) × (s.close_reason ≡ some e)) ⊎ (s.reading ≡ none)
        → (out ≡ 0) ⊎ (s.reading ≡ none)
    answered_alone (inl z) = inl z
    answered_alone (inr (inl (e, h))) = inr (v.closed e h).no_reading
    answered_alone (inr (inr k)) = inr k
