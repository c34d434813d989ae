-- ===== src/ProtocolMuxer/Multiselect/Instance/Turns.antt =====
-- MultiselectInstance: a message is read, and the answer is written.
use cpp_libp2p.Base.{
  ℕ, suc, ◌+◌, ◌<◌, ◌≡◌, ◌^◌, refl, ap, ◌∙◌, subst, true, false, Bool, Option, none, some, List, [],
  ◌∷◌, ◌++◌, arith, length, get_elem?,
}
use cpp_libp2p.Basic.Collector.{FixedBufferCollector}
use cpp_libp2p.ProtocolMuxer.Multiselect.{MuxerError, na}
use cpp_libp2p.ProtocolMuxer.Multiselect.Serializing.Wire.{wire}
use cpp_libp2p.ProtocolMuxer.Multiselect.Parser.{check_version, check_na, starts_with, bytes_needed}
use cpp_libp2p.ProtocolMuxer.Multiselect.Parser
use cpp_libp2p.ProtocolMuxer.Multiselect.Parser.Lines.{IsLine, message_of}
use cpp_libp2p.ProtocolMuxer.Multiselect.Parser.RoundTrip.{after_line}
use cpp_libp2p.ProtocolMuxer.Multiselect.Instance.{
  MultiselectInstance, WriteRequest, Negotiated, Failure, receive, close,
}
use cpp_libp2p.ProtocolMuxer.Multiselect.Instance.Handlers.{
  go_on, process_messages, index_of, on_data_written, write_done,
}
use cpp_libp2p.ProtocolMuxer.Multiselect.Instance.Channel.{write_one}
use cpp_libp2p.ProtocolMuxer.Multiselect.Instance.Receiving.{idle, ReadsTo, message_is_read, IsOpen}
use cpp_libp2p.ProtocolMuxer.Multiselect.Instance.Rounds.{
  IsName, server, client, dealt_with, sending, proposal_accepted, proposal_refused, proposal_agreed,
  next_proposed, none_left, na_message,
}

-- The owner is told this outcome, once.
pub record Ended (cb : Option ℕ) (outcome : Negotiated) (s : MultiselectInstance) : Type 0 where
  pub ended_closed : s.closed ≡ true
  pub is_told : s.told ≡ (cb, outcome) ∷ []

pub first_written :
    (bytes output : List ℕ) (rest : List WriteRequest) (s : MultiselectInstance)
    → s.write_requests ≡ WriteRequest.write s.current_round bytes ∷ rest
    → write_one (s, output)
      ≡ (on_data_written none (record s { write_requests = rest }), output ++ bytes)
unfolding write_one write_done
first_written bytes output rest s e = ground arith

close-Ended :
    (o : Negotiated) (s : MultiselectInstance) → s.told ≡ [] → Ended s.callback o (close o s)
unfolding close
close-Ended o s e = record { ended_closed = refl; is_told = ap (λ l. l ++ (s.callback, o) ∷ []) e }

written_and_closed :
    (i : ℕ) (p : List ℕ) (s : MultiselectInstance)
    → s.closed ≡ false
    → s.write_queue ≡ []
    → s.wait_for_reply_sent ≡ some i
    → get_elem? s.protocols i ≡ some p
    → on_data_written none s ≡ close (Negotiated.selected p) (record s { is_writing = false })
unfolding on_data_written
written_and_closed i p s c q w e = ground arith

pub written :
    (s : MultiselectInstance)
    → s.closed ≡ false
    → s.write_queue ≡ []
    → s.wait_for_reply_sent ≡ none
    → on_data_written none s ≡ record s { is_writing = false }
unfolding on_data_written
written s c q w = ground arith

replied : (i : ℕ) (s : MultiselectInstance) → s.wait_for_reply_sent ≡ some i → go_on (none, s) ≡ s
unfolding go_on
replied i s e = ground arith

ends : (o : Negotiated) (s : MultiselectInstance) → go_on (some o, s) ≡ close o s
unfolding go_on
ends o s = refl

pub goes_on :
    (s : MultiselectInstance)
    → IsOpen s
    → go_on (none, record s { parser = Parser.reset s.parser })
      ≡ record s { parser = Parser.reset s.parser; read_request = some (s.current_round, 1) }
unfolding go_on receive bytes_needed
goes_on s h = let h1 = h.not_closed in let h2 = h.no_reply in ground arith

-- The instance that starts again behind a message.
abbrev pub again : List ℕ → FixedBufferCollector → FixedBufferCollector
again line b = (Parser.reset (after_line line [] b)).msg_buffer

module _ (ss : List (List ℕ)) (round : ℕ) (cb : Option ℕ) (negotiated : Bool)
    (b : FixedBufferCollector) (line more output : List ℕ) (h : IsName line) where
  -- The server knows the protocol: it answers with its name, and ends.
  pub record Accepts : Type 0 where
    pub between : MultiselectInstance
    pub end : MultiselectInstance
    pub reads : ReadsTo (server ss round cb negotiated b, wire line ++ more) (between, more)
    pub writes : write_one (between, output) ≡ (end, output ++ wire line)
    pub ended : Ended cb (Negotiated.selected line) end

  -- The server does not know it: it answers "na", and waits for the next one.
  pub record Refuses : Type 0 where
    pub between : MultiselectInstance
    pub reads : ReadsTo (server ss round cb negotiated b, wire line ++ more) (between, more)
    pub writes :
        write_one (between, output)
        ≡ (server ss round cb negotiated (again line b), output ++ wire na)

  pub server_accepts : (i : ℕ) → index_of 0 line ss ≡ some i → get_elem? ss i ≡ some line → Accepts
  server_accepts i e at =
      let s = server ss round cb negotiated b in
      let q = after_line line [] b in
      let r : MultiselectInstance = record (sending (wire line) (idle q s)) {
        wait_for_reply_sent = some i;
        write_queue = [];
        parser = Parser.reset q;
      } in
      let done =
        dealt_with (message_of line) none (idle q s)
          (record (sending (wire line) (idle q s)) {
            wait_for_reply_sent = some i;
            write_queue = [];
          })
          (ap (λ m. m ∷ []) h.name) (proposal_accepted line i (idle q s) h.short refl refl e) in
      let answer : go_on (process_messages (idle q s)) ≡ r = ap go_on done ∙ replied i r refl in
      let r1 : MultiselectInstance = record r { write_requests = [] } in
      record {
        between = r;
        end = close (Negotiated.selected line) (record r1 { is_writing = false });
        reads =
            subst (λ x. ReadsTo (s, wire line ++ more) (x, more)) answer
              (message_is_read line more b s (record { not_closed = refl; no_reply = refl })
                h.one_line h.short);
        writes =
            first_written (wire line) output [] r refl
            ∙ ap (λ x. (x, output ++ wire line)) (written_and_closed i line r1 refl refl refl at);
        ended = close-Ended (Negotiated.selected line) (record r1 { is_writing = false }) refl;
      }

  pub server_refuses : index_of 0 line ss ≡ none → Refuses
  server_refuses e =
      let s = server ss round cb negotiated b in
      let q = after_line line [] b in
      let r0 = sending (wire na) (idle q s) in
      let r : MultiselectInstance = record r0 {
        parser = Parser.reset q;
        read_request = some (round, 1);
      } in
      let done =
        dealt_with (message_of line) none (idle q s) r0 (ap (λ m. m ∷ []) h.name)
          (proposal_refused line (idle q s) refl refl refl e) in
      let answer : go_on (process_messages (idle q s)) ≡ r =
        ap go_on done ∙ goes_on r0 (record { not_closed = refl; no_reply = refl }) in
      record {
        between = r;
        reads =
            subst (λ x. ReadsTo (s, wire line ++ more) (x, more)) answer
              (message_is_read line more b s (record { not_closed = refl; no_reply = refl })
                h.one_line h.short);
        writes =
            first_written (wire na) output [] r refl
            ∙ ap (λ x. (x, output ++ wire na))
                (written (record r { write_requests = [] }) refl refl refl);
      }

na-IsLine : IsLine na
na-IsLine = record { one_line = (refl, (refl, tt)); some_text = omega arith }

na_type : check_version (message_of na) ≡ na_message
unfolding check_version check_na starts_with
na_type = refl

module _ (cs : List (List ℕ)) (round : ℕ) (cb : Option ℕ) (i : ℕ) (b : FixedBufferCollector)
    (more : List ℕ) where
  -- The client gets the name that it proposed.
  pub record Agrees (line : List ℕ) : Type 0 where
    pub end : MultiselectInstance
    pub reads : ReadsTo (client cs round cb i b, wire line ++ more) (end, more)
    pub ended : Ended cb (Negotiated.selected line) end

  pub client-Agrees : (line : List ℕ) → IsName line → get_elem? cs i ≡ some line → Agrees line
  client-Agrees line h e =
      let s = client cs round cb i b in
      let q = after_line line [] b in
      let o = Negotiated.selected line in
      let r : MultiselectInstance = record (idle q s) { parser = Parser.reset q } in
      let done =
        dealt_with (message_of line) (some o) (idle q s) (idle q s) (ap (λ m. m ∷ []) h.name)
          (proposal_agreed line (idle q s) refl refl e) in
      record {
        end = close o r;
        reads =
            subst (λ x. ReadsTo (s, wire line ++ more) (x, more)) (ap go_on done ∙ ends o r)
              (message_is_read line more b s (record { not_closed = refl; no_reply = refl })
                h.one_line h.short);
        ended = close-Ended o r refl;
      }

  -- The client gets "na", and has no more to propose.
  pub record GivesUp : Type 0 where
    pub end : MultiselectInstance
    pub reads : ReadsTo (client cs round cb i b, wire na ++ more) (end, more)
    pub ended : Ended cb (Negotiated.failed (Failure.muxer MuxerError.negotiation_failed)) end

  pub client_gives_up : get_elem? cs (suc i) ≡ none → GivesUp
  client_gives_up e =
      let s = client cs round cb i b in
      let q = after_line na [] b in
      let o = Negotiated.failed (Failure.muxer MuxerError.negotiation_failed) in
      let r0 : MultiselectInstance = record (idle q s) { current_protocol = suc i } in
      let r : MultiselectInstance = record r0 { parser = Parser.reset q } in
      let done =
        dealt_with na_message (some o) (idle q s) r0 (ap (λ m. m ∷ []) na_type)
          (none_left (idle q s) refl e) in
      record {
        end = close o r;
        reads =
            subst (λ x. ReadsTo (s, wire na ++ more) (x, more)) (ap go_on done ∙ ends o r)
              (message_is_read na more b s (record { not_closed = refl; no_reply = refl }) na-IsLine
                (omega arith));
        ended = close-Ended o r refl;
      }

  -- The client gets "na", and proposes the next protocol.
  pub record TriesNext (line output : List ℕ) : Type 0 where
    pub between : MultiselectInstance
    pub reads : ReadsTo (client cs round cb i b, wire na ++ more) (between, more)
    pub writes :
        write_one (between, output) ≡ (client cs round cb (suc i) (again na b), output ++ wire line)

  pub client-TriesNext :
      (line output : List ℕ)
      → length line + 1 < 2 ^ 14
      → get_elem? cs (suc i) ≡ some line
      → TriesNext line output
  client-TriesNext line output short e =
      let s = client cs round cb i b in
      let q = after_line na [] b in
      let r0 : MultiselectInstance = record (sending (wire line) (idle q s)) {
        current_protocol = suc i;
        wait_for_protocol_reply = true;
      } in
      let r : MultiselectInstance = record r0 {
        parser = Parser.reset q;
        read_request = some (round, 1);
      } in
      let done =
        dealt_with na_message none (idle q s) r0 (ap (λ m. m ∷ []) na_type)
          (next_proposed line (idle q s) short refl refl refl e) in
      let answer : go_on (process_messages (idle q s)) ≡ r =
        ap go_on done ∙ goes_on r0 (record { not_closed = refl; no_reply = refl }) in
      record {
        between = r;
        reads =
            subst (λ x. ReadsTo (s, wire na ++ more) (x, more)) answer
              (message_is_read na more b s (record { not_closed = refl; no_reply = refl }) na-IsLine
                (omega arith));
        writes =
            first_written (wire line) output [] r refl
            ∙ ap (λ x. (x, output ++ wire line))
                (written (record r { write_requests = [] }) refl refl refl);
      }
