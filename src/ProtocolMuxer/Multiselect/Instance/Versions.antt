-- ===== src/ProtocolMuxer/Multiselect/Instance/Versions.antt =====
-- MultiselectInstance: the multistream version, as either side reads it.
use cpp_libp2p.Base.{ℕ, ◌≡◌, refl, ap, ◌∙◌, subst, true, none, List, [], ◌∷◌, ◌++◌, arith}
use cpp_libp2p.Basic.Collector.{FixedBufferCollector}
use cpp_libp2p.ProtocolMuxer.Multiselect.{Message, MessageType, protocol_id}
use cpp_libp2p.ProtocolMuxer.Multiselect.Serializing.Wire.{wire}
use cpp_libp2p.ProtocolMuxer.Multiselect.Parser.{check_version, check_na, starts_with}
use cpp_libp2p.ProtocolMuxer.Multiselect.Parser.Lines.{IsLine, message_of}
use cpp_libp2p.ProtocolMuxer.Multiselect.Parser.Bytes.{fresh}
use cpp_libp2p.ProtocolMuxer.Multiselect.Parser.RoundTrip.{after_line}
use cpp_libp2p.ProtocolMuxer.Multiselect.Instance.{MultiselectInstance}
use cpp_libp2p.ProtocolMuxer.Multiselect.Instance.Handlers.{process_message, go_on}
use cpp_libp2p.ProtocolMuxer.Multiselect.Instance.Receiving.{
  ReadsTo, message_is_read, IsOpen, asking, idle,
}
use cpp_libp2p.ProtocolMuxer.Multiselect.Instance.Rounds.{dealt_with}
use cpp_libp2p.ProtocolMuxer.Multiselect.Instance.Turns.{again, goes_on}

pub protocol_id-IsLine : IsLine protocol_id
protocol_id-IsLine = record {
  one_line = (
    refl,
    (
      refl,
      (
        refl,
        (
          refl,
          (
            refl,
            (
              refl,
              (
                refl,
                (
                  refl,
                  (
                    refl,
                    (refl, (refl, (refl, (refl, (refl, (refl, (refl, (refl, (refl, tt))))))))),
                  ),
                ),
              ),
            ),
          ),
        ),
      ),
    ),
  );
  some_text = omega arith;
}

version : Message
version = record { type = MessageType.right_protocol_version; content = protocol_id }

version_type : check_version (message_of protocol_id) ≡ version
unfolding check_version check_na starts_with version
version_type = refl

version_dealt_with :
    (s : MultiselectInstance)
    → process_message version s ≡ (none, record s { multistream_negotiated = true })
unfolding process_message version
version_dealt_with s = refl

-- Either side reads the version, and waits for the next message.
pub version_is_read :
    (b : FixedBufferCollector) (more : List ℕ) (s : MultiselectInstance)
    → IsOpen s
    → ReadsTo
        (asking 1 (fresh [] b) s, wire protocol_id ++ more)
        (
          asking 1 (fresh [] (again protocol_id b)) (record s { multistream_negotiated = true }),
          more,
        )
version_is_read b more s h =
    let q = after_line protocol_id [] b in
    let r0 : MultiselectInstance = record (idle q s) { multistream_negotiated = true } in
    let done =
      dealt_with version none (idle q s) r0 (ap (λ m. m ∷ []) version_type)
        (version_dealt_with (idle q s)) in
    subst (λ x. ReadsTo (asking 1 (fresh [] b) s, wire protocol_id ++ more) (x, more))
      (ap go_on done ∙ goes_on r0 (record { not_closed = h.not_closed; no_reply = h.no_reply }))
      (message_is_read protocol_id more b s h protocol_id-IsLine (omega arith))
