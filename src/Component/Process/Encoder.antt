-- ===== src/Component/Process/Encoder.antt =====
-- src/FloralCodecComponent.cpp: an encoder's work, and the framework's call for a drain.
use hardware_floral_codec.Common.{ℕ, Bool, true, false, Option, none, some, if◌then◌else◌}
use hardware_floral_codec.Common.Int.{ℤ}
use hardware_floral_codec.Bitstream.Nal.{BitstreamCodec, Bytes}
use hardware_floral_codec.Session.{C2Status, c2_ok, c2_blocking, c2_omitted}
use hardware_floral_codec.Session.EncoderOutput.{EncodedFrame}
use hardware_floral_codec.Component.Work.{finish_empty_work}
use hardware_floral_codec.Component.Drain.{Given, FrameSource, drain}
use hardware_floral_codec.Component.Drain.Encoder.{EncodedBuffer, Memory, encoder_source}
use hardware_floral_codec.Component.Process.{
  State, Result, encoder_part, decoder_part, ◌and_then◌, with_session, with_current, after_drain,
  drain_some, finish_stream,
}
use hardware_floral_codec.Component.Process.Decoder.{
  DecoderSession, DecoderState, DecoderResult, drain_decoder, source,
}

-- The settings that a frame is queued with.
pub record FrameSettings : Type 0 where
  pub request_sync : Bool
  pub bitrate : ℕ

-- The session's calls and those on the parameters, over a state that has both; a frame is of a type
-- of its own, and comes with its index and timestamp.
pub record EncoderSession (S I : Type 0) : Type 0 where
  pub get_settings : S → FrameSettings
  pub clear_sync_request : S → S
  pub queue_frame : I → ℕ → ℤ → FrameSettings → S → S × C2Status
  pub start_monitor : S → S × C2Status
  pub rearm_monitor : S → S × C2Status
  pub dequeue_frame : Bool → S → S × Given EncodedFrame
  pub start_drain : S → S × C2Status
  pub flush : S → S × C2Status

-- The first buffer of a work, if it has one, and the ordinal of the work.
pub record EncoderInput (I : Type 0) : Type 0 where
  pub buffer : Option I
  pub frame_index : ℕ
  pub timestamp : ℤ
  pub end_of_stream : Bool

abbrev pub EncoderState : Type 0 → Type 0
EncoderState S = State S EncodedBuffer Bytes

abbrev pub EncoderResult : Type 0 → Type 0
EncoderResult S = Result S EncodedBuffer Bytes

-- `drainMode`; the code treats any other value as DRAIN_COMPONENT_NO_EOS.
pub data DrainMode : Type 0 where
  no_drain drain_chain drain_component_with_eos drain_component_no_eos : DrainMode

module _ {S I : Type 0} (d : EncoderSession S I) (memory : Memory) (codec : Option BitstreamCodec)
    (fuel : ℕ) where
  abbrev pub encoder_frames : FrameSource (S × Bool) EncodedFrame EncodedBuffer Bytes
  encoder_frames = encoder_source d.dequeue_frame memory codec

  abbrev pub drain_encoder : EncoderState S → EncoderResult S
  drain_encoder = drain_some encoder_part encoder_frames fuel

  abbrev pub queue_frame : I → EncoderInput I → FrameSettings → EncoderState S → EncoderResult S
  queue_frame frame input settings st =
      with_session st (d.queue_frame frame input.frame_index input.timestamp settings st.session)

  -- A queue that is full is drained, and the frame is queued once more.
  abbrev pub retry_frame : (EncoderState S → EncoderResult S) → EncoderResult S → EncoderResult S
  retry_frame again (some (st, c2_blocking)) = drain_encoder st and_then again
  retry_frame again r = r

  abbrev pub clear_request : FrameSettings → EncoderState S → EncoderState S
  clear_request settings st =
      if settings.request_sync then record st { session = d.clear_sync_request st.session } else st

  -- What follows a frame in the session's queue.
  abbrev pub sent_frame : Bool → EncoderState S → EncoderResult S
  sent_frame eos st =
      if eos
      then some (st, c2_ok)
      else with_session st (d.start_monitor st.session) and_then drain_encoder

  unfoldable pub send_frame : Option I → EncoderInput I → EncoderState S → EncoderResult S
  send_frame none input st = some (st, c2_ok)
  send_frame (some frame) input st =
      let settings = d.get_settings st.session in
      retry_frame (queue_frame frame input settings) (queue_frame frame input settings st)
      and_then λ st1. sent_frame input.end_of_stream (clear_request settings st1)

  abbrev pub finish_unless : Option I → EncoderState S → EncoderState S
  finish_unless none st = with_current (finish_empty_work false) st
  finish_unless (some frame) st = st

  -- `ProcessV4l2Encoder`.
  unfoldable pub process_encoder : EncoderInput I → EncoderState S → EncoderResult S
  unfolding send_frame
  process_encoder input st = send_frame input.buffer input st and_then λ st1.
      if input.end_of_stream
      then with_session st1 (d.start_drain st1.session)
        and_then finish_stream encoder_part encoder_frames fuel
      else some (finish_unless input.buffer st1, c2_ok)

  -- The end of a drain with the end of the stream: the session is flushed where that came.
  abbrev pub flush_after : EncoderState S → C2Status → Bool → EncoderResult S
  flush_after st c2_ok true = with_session st (d.flush st.session)
  flush_after st e saw = some (st, e)

  -- `drain` of an encoder; no work is the current one.
  unfoldable pub drain_component : DrainMode → EncoderState S → EncoderResult S
  drain_component no_drain st = some (st, c2_ok)
  drain_component drain_chain st = some (st, c2_omitted)
  drain_component drain_component_with_eos st =
      with_session st (d.start_drain st.session) and_then λ st1.
      after_drain encoder_part encoder_frames st1 flush_after
        (drain encoder_frames fuel true (st1.session, st1.encoder_config_sent) st1.works)
  drain_component drain_component_no_eos st =
      drain_encoder st and_then λ st1. with_session st1 (d.rearm_monitor st1.session)

module _ {S K : Type 0} (d : DecoderSession S K) (flush : S → S × C2Status) (fuel : ℕ) where
  abbrev pub flush_decoder_after : DecoderState S K → C2Status → Bool → DecoderResult S K
  flush_decoder_after st c2_ok true = with_session st (flush st.session)
  flush_decoder_after st e saw = some (st, e)

  -- `drain` of a decoder.
  unfoldable pub drain_decoder_component : DrainMode → DecoderState S K → DecoderResult S K
  drain_decoder_component no_drain st = some (st, c2_ok)
  drain_decoder_component drain_chain st = some (st, c2_omitted)
  drain_decoder_component drain_component_with_eos st =
      with_session st (d.start_drain st.session) and_then λ st1.
      after_drain decoder_part (source d fuel) st1 flush_decoder_after
        (drain (source d fuel) fuel true st1.session st1.works)
  drain_decoder_component drain_component_no_eos st = drain_decoder d fuel st
