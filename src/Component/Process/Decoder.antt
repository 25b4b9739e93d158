-- ===== src/Component/Process/Decoder.antt =====
-- src/FloralCodecComponent.cpp: a decoder's work, from its input to the session and back.
use hardware_floral_codec.Common.{
  ℕ, zero, suc, ◌==◌, Bool, true, false, ◌||◌, Option, none, some, List, [], ◌∷◌, if◌then◌else◌,
}
use hardware_floral_codec.Bitstream.Nal.{BitstreamCodec, Bytes}
use hardware_floral_codec.Session.{C2Status, c2_ok, c2_blocking, c2_bad_value, c2_timed_out}
use hardware_floral_codec.Session.DecoderCapture.{DecodedFrame}
use hardware_floral_codec.Component.DecoderConfig.{
  DecoderConfig, store_decoder_config, process_decoder_config_updates, Packet, refused, packet,
  make_packet, after_packet,
}
use hardware_floral_codec.Component.Work.{Flags, finish_empty_work}
use hardware_floral_codec.Component.Drain.{Given, FrameSource}
use hardware_floral_codec.Component.Drain.Decoder.{Share, PictureSize, decoder_source}
use hardware_floral_codec.Component.Process.{
  State, Result, decoder_part, ◌and_then◌, with_session, with_current, drain_some, finish_stream,
}

-- The session's calls, over a state of its own; the milliseconds that a deadline leaves, rounded up
-- and 0 behind it; and `config`, which sets the output size in the framework.
pub record DecoderSession (S K : Type 0) : Type 0 where
  pub open_session : S → S × C2Status
  pub queue_packet : Bytes → ℕ → S → S × C2Status
  pub remaining : S → S × ℕ
  pub wait_for_progress : ℕ → S → S × C2Status
  pub dequeue_frame : Bool → S → S × Given (DecodedFrame K)
  pub start_drain : S → S × C2Status
  pub config : ℕ → ℕ → S → S × C2Status

-- The first buffer of a work: none at all, one that is not linear, or a view of its bytes, with the
-- view's error.
pub data InputBuffer : Type 0 where
  no_buffer not_linear : InputBuffer
  view : C2Status → Bytes → InputBuffer

-- The flags, the index and the updates of an input; an update that is no
-- C2StreamInitDataInfo::input is `none`.
pub record Input : Type 0 where
  pub flags : Flags
  pub frame_index : ℕ
  pub config_update : List (Option Bytes)
  pub buffer : InputBuffer

abbrev pub DecoderState : Type 0 → Type 0 → Type 0
DecoderState S K = State S (Share K) PictureSize

abbrev pub DecoderResult : Type 0 → Type 0 → Type 0
DecoderResult S K = Result S (Share K) PictureSize

module _ {S K : Type 0} where
  abbrev pub if_blocking :
      DecoderResult S K → (DecoderState S K → DecoderResult S K) → DecoderResult S K
  if_blocking (some (st, c2_blocking)) next = next st
  if_blocking r next = r

  abbrev pub with_config : DecoderState S K → C2Status × DecoderConfig → DecoderResult S K
  with_config st (e, c) = some (record st { config = c }, e)

  abbrev pub finish_current : Bool → DecoderState S K → DecoderState S K
  finish_current eos st = with_current (finish_empty_work eos) st

  -- The end of a work that has the codec configuration alone.
  abbrev pub finish_config : Bool → DecoderState S K → DecoderResult S K
  finish_config eos st =
      some (record (finish_current eos st) { signalled_eos = eos || st.signalled_eos }, c2_ok)

  -- A work with FLAG_CODEC_CONFIG.
  unfoldable pub config_work :
      BitstreamCodec → InputBuffer → Bool → DecoderState S K → DecoderResult S K
  config_work codec no_buffer eos st = finish_config eos st
  config_work codec not_linear eos st = some (st, c2_bad_value)
  config_work codec (view e bytes) eos st =
      some (st, e)
      and_then (λ st1. with_config st1 (store_decoder_config codec bytes st1.config))
      and_then finish_config eos

module _ {S K : Type 0} (d : DecoderSession S K) (fuel : ℕ) where
  abbrev pub source : FrameSource S (DecodedFrame K) (Share K) PictureSize
  source = decoder_source d.dequeue_frame d.config

  abbrev pub drain_decoder : DecoderState S K → DecoderResult S K
  drain_decoder = drain_some decoder_part source fuel

  abbrev pub queue : Bytes → ℕ → DecoderState S K → DecoderResult S K
  queue bytes index st = with_session st (d.queue_packet bytes index st.session)

  -- The wait of the loop for what the deadline leaves; `loop` is the rounds behind it.
  abbrev pub wait_unless :
      (DecoderState S K → DecoderResult S K) → DecoderState S K → ℕ → Bool → DecoderResult S K
  wait_unless loop st left true = some (st, c2_timed_out)
  wait_unless loop st left false =
      with_session st (d.wait_for_progress left st.session) and_then loop

  abbrev pub wait_left :
      (DecoderState S K → DecoderResult S K) → DecoderState S K → S × ℕ → DecoderResult S K
  wait_left loop st (s, left) = wait_unless loop (record st { session = s }) left (left == 0)

  -- The loop of `QueueV4l2DecoderPacket`, with fuel for its rounds; `none`: out of fuel.
  unfoldable pub retry_loop : ℕ → Bytes → ℕ → DecoderState S K → DecoderResult S K
  retry_loop zero bytes index st = none
  retry_loop (suc rounds) bytes index st = drain_decoder st and_then λ st1.
      if_blocking (queue bytes index st1)
        (λ st2. wait_left (retry_loop rounds bytes index) st2 (d.remaining st2.session))

  -- `QueueV4l2DecoderPacket`.
  unfoldable pub submit_packet : Bytes → ℕ → DecoderState S K → DecoderResult S K
  unfolding retry_loop
  submit_packet bytes index st = if_blocking (queue bytes index st) (retry_loop fuel bytes index)

  -- `EnsureDecoderSession`.
  unfoldable pub ensure_decoder_session : DecoderState S K → DecoderResult S K
  ensure_decoder_session st =
      if st.decoder_session_pending
      then with_session st (d.open_session st.session)
        and_then (λ st1. some (record st1 { decoder_session_pending = false }, c2_ok))
      else some (st, c2_ok)

  -- The end of `ProcessV4l2Decoder`, from the test of the end of the stream on.
  unfoldable pub conclude_unit : Bool → Bool → DecoderState S K → DecoderResult S K
  conclude_unit eos submitted st =
      if eos
      then with_session st (d.start_drain st.session)
        and_then finish_stream decoder_part source fuel
      else some (if submitted then st else finish_current false st, c2_ok)

  -- What follows a packet in the session's queue.
  abbrev pub sent_packet : Option BitstreamCodec → Bool → DecoderState S K → DecoderResult S K
  sent_packet codec eos st =
      let st' = record st { config = after_packet codec st.config } in
      (if eos then some (st', c2_ok) else drain_decoder st') and_then conclude_unit eos true

  abbrev pub send_packet :
      Option BitstreamCodec → ℕ → Bool → DecoderState S K → Packet → DecoderResult S K
  send_packet codec index eos st (refused e c) = some (record st { config = c }, e)
  send_packet codec index eos st (packet bytes c) =
      submit_packet bytes index (record st { config = c }) and_then sent_packet codec eos

  -- The bytes of a view that has no error.
  unfoldable pub unit_bytes :
      Option BitstreamCodec → ℕ → Bytes → Bool → DecoderState S K → DecoderResult S K
  unfolding submit_packet conclude_unit
  unit_bytes codec index [] eos st =
      conclude_unit eos false (if eos then st else finish_current false st)
  unit_bytes codec index (b ∷ bytes) eos st =
      send_packet codec index eos st (make_packet codec (b ∷ bytes) st.config)

  -- A work without FLAG_CODEC_CONFIG, or of a codec whose streams stay as they are.
  unfoldable pub unit_work :
      Option BitstreamCodec → ℕ → InputBuffer → Bool → DecoderState S K → DecoderResult S K
  unfolding unit_bytes
  unit_work codec index no_buffer eos st = conclude_unit eos false st
  unit_work codec index not_linear eos st = some (st, c2_bad_value)
  unit_work codec index (view e bytes) eos st =
      some (st, e) and_then unit_bytes codec index bytes eos

  abbrev pub work_of : Option BitstreamCodec → Input → DecoderState S K → DecoderResult S K
  work_of none input st = unit_work none input.frame_index input.buffer input.flags.end_of_stream st
  work_of (some codec) input st =
      if input.flags.codec_config
      then config_work codec input.buffer input.flags.end_of_stream st
      else unit_work (some codec) input.frame_index input.buffer input.flags.end_of_stream st

  -- `ProcessV4l2Decoder`; the codec is that of GetDecoderBitstreamCodec, if it gives one.
  unfoldable pub process_decoder :
      Option BitstreamCodec → Input → DecoderState S K → DecoderResult S K
  unfolding ensure_decoder_session unit_work config_work
  process_decoder codec input st =
      ensure_decoder_session st
      and_then (λ st1.
          with_config st1 (process_decoder_config_updates codec input.config_update st1.config))
      and_then work_of codec input
