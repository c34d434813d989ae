-- ===== src/Muxer/Yamux/Stream/Delivery.antt =====
-- Where received bytes go.
use cpp_libp2p.Base.{
  ℕ, ◌+◌, ◌-◌, ◌≤◌, ◌<◌, ◌≡◌, refl, ap, ◌∙◌, inl, inr, Option, none, some, List, [], ◌∷◌, ◌++◌,
  append-nil, arith, Option-cases, length, if◌then◌else◌, ltb, length-drop, length-append,
  take-append-drop,
}
use cpp_libp2p.Basic.ReadBuffer.{add, add_and_consume}
use cpp_libp2p.Basic.ReadBuffer.Valid.{bytes_of}
use cpp_libp2p.Basic.ReadBuffer.Adding.{add_lem}
use cpp_libp2p.Basic.ReadBuffer.AddConsume.{add_and_consume_lem}
use cpp_libp2p.Muxer.Yamux.Stream.{
  YamuxStream, Event, Pending, ack_received_bytes, call, on_data_received, size, keep_stream,
  DataFromConnectionResult,
}
use cpp_libp2p.Muxer.Yamux.Stream.Valid.{IsValid}
use cpp_libp2p.Muxer.Yamux.Stream.Reads.{with_buffer}
use cpp_libp2p.Muxer.Yamux.Stream.Receiving.{received_buffered, received_read, after_fits}
use cpp_libp2p.Muxer.Yamux.Stream.Events.{copied, given_back}

-- The size of the span that a reader gives.
abbrev pub wanted : Option Pending → ℕ
wanted none = 0
wanted (some p) = p.out

-- The bytes that a call holds back from the reader fit in the receive window.
abbrev pub Fits : List ℕ → YamuxStream → Type 0
Fits bytes s =
    length (bytes_of s.internal_read_buffer ++ bytes) - wanted s.reading ≤ s.peers_window_size

pub record DeliverSpec (bytes : List ℕ) (s : YamuxStream)
    (r : DataFromConnectionResult × List Event × YamuxStream) : Type 0 where
  pub result : r.0 ≡ keep_stream
  pub in_order :
      copied r.1 ++ bytes_of r.2.internal_read_buffer ≡ bytes_of s.internal_read_buffer ++ bytes
  pub window : given_back r.1 ≡ length (copied r.1)
  pub still_open : r.2.close_reason ≡ none

copied-ack :
    (n : ℕ) (es : List Event)
    → copied ((if ltb 0 n then ack_received_bytes n ∷ [] else []) ++ es) ≡ copied es
copied-ack n es = ground arith

given_back-ack :
    (n : ℕ) (es : List Event)
    → given_back ((if ltb 0 n then ack_received_bytes n ∷ [] else []) ++ es) ≡ n + given_back es
given_back-ack n es = ground arith

delivered_buffered :
    (bytes : List ℕ) (s : YamuxStream)
    → IsValid s
    → s.close_reason ≡ none
    → 0 < length bytes
    → s.reading ≡ none
    → Fits bytes s
    → DeliverSpec bytes s (on_data_received bytes s)
delivered_buffered bytes s v h pos k fits =
    let a = add_lem bytes s.internal_read_buffer v.buffer in
    let le : (add bytes s.internal_read_buffer).total_size ≤ s.peers_window_size =
      omega (arith, a.valid.total, ap length a.content, fits, ap wanted k) in
    rw
      (
        received_buffered bytes s pos k,
        after_fits 0 (record s { internal_read_buffer = add bytes s.internal_read_buffer }) h le,
      )
      (record { result = refl; in_order = a.content; window = refl; still_open = h })

delivered_read :
    (bytes : List ℕ) (p : Pending) (s : YamuxStream)
    → IsValid s
    → s.close_reason ≡ none
    → 0 < length bytes
    → s.reading ≡ some p
    → Fits bytes s
    → DeliverSpec bytes s (on_data_received bytes s)
delivered_read bytes p s v h pos k fits =
    let a = add_and_consume_lem bytes p.out s.internal_read_buffer v.buffer in
    let out = (add_and_consume bytes p.out s.internal_read_buffer).0 in
    let rest = (add_and_consume bytes p.out s.internal_read_buffer).1 in
    let answer : List Event = call p.cb (size (length out)) ∷ [] in
    let le : (add_and_consume bytes p.out s.internal_read_buffer).1.total_size
        ≤ s.peers_window_size =
      omega (
        arith,
        a.valid.total,
        ap length a.rest,
        length-drop p.out (bytes_of s.internal_read_buffer ++ bytes),
        fits,
        ap wanted k,
      ) in
    rw
      (
        received_read bytes p s pos k,
        after_fits (length out)
            (with_buffer (add_and_consume bytes p.out s.internal_read_buffer).1 none s) h le,
      )
      (record {
        result = refl;
        in_order =
            ap (λ c. (out ++ c) ++ bytes_of rest) (copied-ack (length out) answer)
            ∙ ap (λ o. o ++ bytes_of rest) (append-nil out)
            ∙ (rw (a.out, a.rest)
                (take-append-drop p.out (bytes_of s.internal_read_buffer ++ bytes)));
        window =
            given_back-ack (length out) answer
            ∙ (omega (arith, ap length (copied-ack (length out) answer), length-append out));
        still_open = h;
      })

-- Received bytes are delivered in order: on an open stream, when the bytes that the reader does not
-- take fit in the receive window, what is copied to the reader and what is buffered after it are
-- together the bytes buffered before, followed by the received ones; the window is given back for
-- exactly the bytes copied, and the stream is kept open.
pub on_data_received_lem :
    (bytes : List ℕ) (s : YamuxStream)
    → IsValid s
    → s.close_reason ≡ none
    → 0 < length bytes
    → Fits bytes s
    → DeliverSpec bytes s (on_data_received bytes s)
on_data_received_lem bytes s v h pos fits = elim (Option-cases s.reading) [
  | inl k ↦ delivered_buffered bytes s v h pos k fits
  | inr (p, k) ↦ delivered_read bytes p s v h pos k fits
]
