-- ===== src/Component/DecoderConfig/Calls.antt =====
-- The calls that change the parameter sets of the component, and runs of them.
use hardware_floral_codec.Common.{Bool, some, List, [], ◌∷◌, if◌then◌else◌}
use hardware_floral_codec.Bitstream.Nal.{BitstreamCodec, Bytes}
use hardware_floral_codec.Component.DecoderConfig.{
  DecoderConfig, cleared, store_decoder_config, Packet, refused, packet, make_packet, after_packet,
  after_flush,
}

-- What the component does with the parameter sets: bytes that StoreDecoderConfig gets, bytes of an
-- access unit, whose packet the session takes or not, a flush by `flush_sm`, the drain of the end
-- of the stream, which flushes the session and leaves the sets, and a stop or a release.
pub data Call : Type 0 where
  configures : Bytes → Call
  sends : Bytes → Bool → Call
  flushes drains stops : Call

abbrev pub behind_packet : BitstreamCodec → Bool → Packet → DecoderConfig
behind_packet codec taken (refused e c) = c
behind_packet codec taken (packet out c) = if taken then after_packet (some codec) c else c

-- The parameter sets behind a call.
unfoldable pub after_call : BitstreamCodec → Call → DecoderConfig → DecoderConfig
after_call codec (configures bytes) c = (store_decoder_config codec bytes c).1
after_call codec (sends bytes taken) c =
    behind_packet codec taken (make_packet (some codec) bytes c)
after_call codec flushes c = after_flush c
after_call codec drains c = c
after_call codec stops c = cleared

abbrev pub packet_sent : Bool → Packet → List Bytes → List Bytes
packet_sent taken (refused e c) sent = sent
packet_sent taken (packet out c) sent = if taken then out ∷ sent else sent

-- The packets that the session took, the latest first.
unfoldable pub sent_by : BitstreamCodec → Call → DecoderConfig → List Bytes → List Bytes
sent_by codec (configures bytes) c sent = sent
sent_by codec (sends bytes taken) c sent = packet_sent taken (make_packet (some codec) bytes c) sent
sent_by codec flushes c sent = sent
sent_by codec drains c sent = sent
sent_by codec stops c sent = sent

-- The run of calls on a component that has none, the latest call first.
unfoldable pub run : BitstreamCodec → List Call → DecoderConfig × List Bytes
unfolding after_call sent_by
run codec [] = (cleared, [])
run codec (call ∷ calls) =
    let (c, sent) = run codec calls in (after_call codec call c, sent_by codec call c sent)

-- What calls leave, the earliest first.
unfoldable pub after_calls : BitstreamCodec → List Call → DecoderConfig → DecoderConfig
unfolding after_call
after_calls codec [] c = c
after_calls codec (call ∷ calls) c = after_calls codec calls (after_call codec call c)
