-- ===== src/Muxer/Yamux/Connection/Closing.antt =====
-- YamuxedConnection::close: every stream and every waiting handler is told.
use cpp_libp2p.Base.{
  ℕ, ◌≡◌, refl, ap, ◌∙◌, inl, inr, true, false, Bool-cases, Option, none, some, List, [], ◌∷◌, ◌++◌,
  append-nil, if◌then◌else◌,
}
use cpp_libp2p.Muxer.Yamux.Frame.{GoAwayError, go_away_msg}
use cpp_libp2p.Muxer.Yamux.Connection.{
  YamuxedConnection, ConnectionError, Event, raw_write, raw_close, closed_callback, emit, enqueue,
  stream_code, close,
}
use cpp_libp2p.Muxer.Yamux.Connection.Told.{
  logged, streams_log, close_streams-logged, handlers_log, fail_pending-logged, told, told-append,
  all_waiting, handlers, AllOpen, told-streams_log, told-handlers_log,
}

-- What `close` does to a connection that runs.
pub record CloseSpec (c d : YamuxedConnection) : Type 0 where
  pub stopped : d.started ≡ false
  pub no_streams : d.streams ≡ []
  pub no_pending : d.pending_outbound_streams ≡ []
  pub ends : d.close_after_write ≡ true
  pub all_told :
      told d.log ≡ told c.log ++ all_waiting c.streams ++ handlers c.pending_outbound_streams

abbrev torn : ConnectionError → YamuxedConnection → YamuxedConnection
torn code c = logged (handlers_log code c.pending_outbound_streams) (
    logged (streams_log (stream_code code) c.streams)
      (record c { started = false; streams = []; pending_outbound_streams = [] }))

-- The end of `close`: the callback of the owner, and the last packet or the closing.
abbrev told_owner : YamuxedConnection → YamuxedConnection
told_owner c = if c.has_closed_callback then emit closed_callback c else c

close_stopped :
    (code : ConnectionError) (reply : Option GoAwayError) (c : YamuxedConnection)
    → c.started ≡ false
    → close code reply c ≡ c
unfolding close
close_stopped code reply c h = simp h refl

close_with_reply :
    (code : ConnectionError) (g : GoAwayError) (c : YamuxedConnection)
    → c.started ≡ true
    → close code (some g) c
      ≡ enqueue (go_away_msg g) 0 (record (told_owner (torn code c)) { close_after_write = true })
unfolding close
close_with_reply code g c h = simp (h, close_streams-logged, fail_pending-logged) refl

close_silent :
    (code : ConnectionError) (c : YamuxedConnection)
    → c.started ≡ true
    → close code none c
      ≡ emit raw_close
          (record (told_owner (torn code c)) { close_after_write = true; write_queue = [] })
unfolding close
close_silent code c h = simp (h, close_streams-logged, fail_pending-logged) refl

told-torn :
    (code : ConnectionError) (c : YamuxedConnection)
    → AllOpen c.streams
    → told (torn code c).log
      ≡ told c.log ++ all_waiting c.streams ++ handlers c.pending_outbound_streams
told-torn code c h =
    told-append (c.log ++ streams_log (stream_code code) c.streams)
      (handlers_log code c.pending_outbound_streams)
    ∙ ap (λ l. l ++ told (handlers_log code c.pending_outbound_streams))
        (told-append c.log (streams_log (stream_code code) c.streams)
          ∙ ap (◌++◌ (told c.log)) (told-streams_log (stream_code code) c.streams h))
    ∙ ap (◌++◌ (told c.log ++ all_waiting c.streams))
        (told-handlers_log code c.pending_outbound_streams)

-- Steps after which the connection is torn down as before.
record Torn (c d : YamuxedConnection) : Type 0 where
  started : d.started ≡ c.started
  streams : d.streams ≡ c.streams
  pending : d.pending_outbound_streams ≡ c.pending_outbound_streams
  ends : d.close_after_write ≡ c.close_after_write
  told_same : told d.log ≡ told c.log

told-quiet : (es : List Event) (e : Event) → told (e ∷ []) ≡ [] → told (es ++ e ∷ []) ≡ told es
told-quiet es e h = told-append es (e ∷ []) ∙ ap (◌++◌ (told es)) h ∙ append-nil (told es)

owner-Torn : (c : YamuxedConnection) → Torn c (told_owner c)
owner-Torn c = elim (Bool-cases c.has_closed_callback) [
  | inl h ↦ simp h (record {
    started = refl;
    streams = refl;
    pending = refl;
    ends = refl;
    told_same = told-quiet c.log closed_callback refl;
  })
  | inr h ↦
      simp h
        (record { started = refl; streams = refl; pending = refl; ends = refl; told_same = refl })
]

enqueue-Torn : (packet : List ℕ) (id : ℕ) (c : YamuxedConnection) → Torn c (enqueue packet id c)
unfolding enqueue
enqueue-Torn packet id c = elim (Bool-cases c.is_writing) [
  | inl h ↦
      simp h
        (record { started = refl; streams = refl; pending = refl; ends = refl; told_same = refl })
  | inr h ↦ simp h (record {
    started = refl;
    streams = refl;
    pending = refl;
    ends = refl;
    told_same = told-quiet c.log (raw_write (record { packet = packet; stream_id = id })) refl;
  })
]

-- `close` on a running connection, whose streams are open, stops it, drops every stream and every
-- waiting handler, and calls each callback that waits in a stream and each handler exactly once,
-- streams first. The raw connection is marked to be closed after the last write.
pub close_lem :
    (code : ConnectionError) (reply : Option GoAwayError) (c : YamuxedConnection)
    → c.started ≡ true
    → AllOpen c.streams
    → CloseSpec c (close code reply c)
close_lem code none c h open_all =
    let o = owner-Torn (torn code c) in
    rw (close_silent code c h) (record {
      stopped = o.started;
      no_streams = o.streams;
      no_pending = o.pending;
      ends = refl;
      all_told =
          told-quiet (told_owner (torn code c)).log raw_close refl
          ∙ o.told_same
          ∙ told-torn code c open_all;
    })
close_lem code (some g) c h open_all =
    let o = owner-Torn (torn code c) in
    let t =
      enqueue-Torn (go_away_msg g) 0
        (record (told_owner (torn code c)) { close_after_write = true }) in
    rw (close_with_reply code g c h) (record {
      stopped = t.started ∙ o.started;
      no_streams = t.streams ∙ o.streams;
      no_pending = t.pending ∙ o.pending;
      ends = t.ends;
      all_told = t.told_same ∙ o.told_same ∙ told-torn code c open_all;
    })
