-- ===== src/Muxer/Yamux/Stream/Events.antt =====
-- Views of the events of a stream: the bytes that go on the wire, the bytes that a reader gets, the
-- receive window that is given back, the callbacks that are called, the FIN frames,
-- and the bytes that go on the wire behind one.
use cpp_libp2p.Base.{
  ℕ, suc, ◌+◌, ◌≡◌, refl, ap, ◌∙◌, sym, List, [], ◌∷◌, ◌++◌, append_assoc, arith, ◌<◌, zero_cases,
  inl, inr,
}
use cpp_libp2p.Muxer.Yamux.Stream.{
  Event, write_stream_data, ack_received_bytes, reset_stream, stream_closed, defer_call, call,
  copy_out, abort,
}

abbrev pub written : List Event → List ℕ
written [] = []
written (write_stream_data bs ∷ es) = bs ++ written es
written (_ ∷ es) = written es

abbrev pub copied : List Event → List ℕ
copied [] = []
copied (copy_out bs ∷ es) = bs ++ copied es
copied (_ ∷ es) = copied es

abbrev pub given_back : List Event → ℕ
given_back [] = 0
given_back (ack_received_bytes n ∷ es) = n + given_back es
given_back (_ ∷ es) = given_back es

-- The callbacks that are called, at once or deferred.
abbrev pub finished : List Event → List ℕ
finished [] = []
finished (defer_call c r ∷ es) = c ∷ finished es
finished (call c r ∷ es) = c ∷ finished es
finished (_ ∷ es) = finished es

abbrev pub fins : List Event → ℕ
fins [] = 0
fins (stream_closed ∷ es) = suc (fins es)
fins (_ ∷ es) = fins es

pub written-append : (xs ys : List Event) → written (xs ++ ys) ≡ written xs ++ written ys
written-append [] ys = refl
written-append (write_stream_data bs ∷ xs) ys =
    ap (◌++◌ bs) (written-append xs ys) ∙ sym (append_assoc bs (written xs) (written ys))
written-append (ack_received_bytes n ∷ xs) ys = written-append xs ys
written-append (reset_stream ∷ xs) ys = written-append xs ys
written-append (stream_closed ∷ xs) ys = written-append xs ys
written-append (defer_call c r ∷ xs) ys = written-append xs ys
written-append (call c r ∷ xs) ys = written-append xs ys
written-append (copy_out bs ∷ xs) ys = written-append xs ys
written-append (abort ∷ xs) ys = written-append xs ys

pub finished-append : (xs ys : List Event) → finished (xs ++ ys) ≡ finished xs ++ finished ys
finished-append [] ys = refl
finished-append (write_stream_data bs ∷ xs) ys = finished-append xs ys
finished-append (ack_received_bytes n ∷ xs) ys = finished-append xs ys
finished-append (reset_stream ∷ xs) ys = finished-append xs ys
finished-append (stream_closed ∷ xs) ys = finished-append xs ys
finished-append (defer_call c r ∷ xs) ys = ap (◌∷◌ c) (finished-append xs ys)
finished-append (call c r ∷ xs) ys = ap (◌∷◌ c) (finished-append xs ys)
finished-append (copy_out bs ∷ xs) ys = finished-append xs ys
finished-append (abort ∷ xs) ys = finished-append xs ys

pub fins-append : (xs ys : List Event) → fins (xs ++ ys) ≡ fins xs + fins ys
fins-append [] ys = omega arith
fins-append (write_stream_data bs ∷ xs) ys = fins-append xs ys
fins-append (ack_received_bytes n ∷ xs) ys = fins-append xs ys
fins-append (reset_stream ∷ xs) ys = fins-append xs ys
fins-append (stream_closed ∷ xs) ys = omega (arith, fins-append xs ys)
fins-append (defer_call c r ∷ xs) ys = fins-append xs ys
fins-append (call c r ∷ xs) ys = fins-append xs ys
fins-append (copy_out bs ∷ xs) ys = fins-append xs ys
fins-append (abort ∷ xs) ys = fins-append xs ys

-- The bytes that go on the wire behind the first FIN frame.
abbrev pub late : List Event → List ℕ
late [] = []
late (stream_closed ∷ es) = written es
late (_ ∷ es) = late es

pub late-none : (es : List Event) → fins es ≡ 0 → late es ≡ []
late-none [] h = refl
late-none (write_stream_data bs ∷ es) h = late-none es h
late-none (ack_received_bytes n ∷ es) h = late-none es h
late-none (reset_stream ∷ es) h = late-none es h
late-none (stream_closed ∷ es) h = absurd (omega (arith, h))
late-none (defer_call c r ∷ es) h = late-none es h
late-none (call c r ∷ es) h = late-none es h
late-none (copy_out bs ∷ es) h = late-none es h
late-none (abort ∷ es) h = late-none es h

-- Without a FIN frame in front.
pub late-append : (xs ys : List Event) → fins xs ≡ 0 → late (xs ++ ys) ≡ late ys
late-append [] ys h = refl
late-append (write_stream_data bs ∷ xs) ys h = late-append xs ys h
late-append (ack_received_bytes n ∷ xs) ys h = late-append xs ys h
late-append (reset_stream ∷ xs) ys h = late-append xs ys h
late-append (stream_closed ∷ xs) ys h = absurd (omega (arith, h))
late-append (defer_call c r ∷ xs) ys h = late-append xs ys h
late-append (call c r ∷ xs) ys h = late-append xs ys h
late-append (copy_out bs ∷ xs) ys h = late-append xs ys h
late-append (abort ∷ xs) ys h = late-append xs ys h

-- Without data behind.
pub late-quiet : (xs ys : List Event) → late xs ≡ [] → written ys ≡ [] → late (xs ++ ys) ≡ []
late-quiet [] ys h k = no_late ys k
  where
    no_late : (es : List Event) → written es ≡ [] → late es ≡ []
    no_late [] k = refl
    no_late (write_stream_data [] ∷ es) k = no_late es k
    no_late (write_stream_data (b ∷ bs) ∷ es) k = cc
    no_late (ack_received_bytes n ∷ es) k = no_late es k
    no_late (reset_stream ∷ es) k = no_late es k
    no_late (stream_closed ∷ es) k = k
    no_late (defer_call c r ∷ es) k = no_late es k
    no_late (call c r ∷ es) k = no_late es k
    no_late (copy_out bs ∷ es) k = no_late es k
    no_late (abort ∷ es) k = no_late es k
late-quiet (write_stream_data bs ∷ xs) ys h k = late-quiet xs ys h k
late-quiet (ack_received_bytes n ∷ xs) ys h k = late-quiet xs ys h k
late-quiet (reset_stream ∷ xs) ys h k = late-quiet xs ys h k
late-quiet (stream_closed ∷ xs) ys h k = written-append xs ys ∙ (rw (h, k) refl)
late-quiet (defer_call c r ∷ xs) ys h k = late-quiet xs ys h k
late-quiet (call c r ∷ xs) ys h k = late-quiet xs ys h k
late-quiet (copy_out bs ∷ xs) ys h k = late-quiet xs ys h k
late-quiet (abort ∷ xs) ys h k = late-quiet xs ys h k

-- Data goes behind the first events only when they hold no FIN frame.
pub late-then :
    (xs ys : List Event)
    → late xs ≡ []
    → late ys ≡ []
    → (0 < fins xs → written ys ≡ [])
    → late (xs ++ ys) ≡ []
late-then xs ys h k quiet = elim (zero_cases (fins xs)) [
  | inl z ↦ late-append xs ys z ∙ k
  | inr pos ↦ late-quiet xs ys h (quiet pos)
]
