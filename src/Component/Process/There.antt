-- ===== src/Component/Process/There.antt =====
-- The calls of a decoder's and of an encoder's session keep the current work.
use hardware_floral_codec.Common.{
  ℕ, zero, suc, Bool, true, false, Option, none, some, if◌then◌else◌, if-cases,
}
use hardware_floral_codec.Bitstream.Nal.{BitstreamCodec, Bytes}
use hardware_floral_codec.Session.{
  c2_ok, c2_blocking, c2_bad_value, c2_bad_state, c2_not_found, c2_no_init, c2_no_memory,
  c2_corrupted, c2_omitted, c2_timed_out, c2_other,
}
use hardware_floral_codec.Component.Drain.Encoder.{Memory}
use hardware_floral_codec.Component.Process.{decoder_part, encoder_part, with_session}
use hardware_floral_codec.Component.Process.Rules.{Always, and_then-Always}
use hardware_floral_codec.Component.Process.Ends.{IsThere, drain_some-IsThere}
use hardware_floral_codec.Component.Process.Keeps.{if_blocking-Always}
use hardware_floral_codec.Component.Process.Decoder.{
  DecoderSession, DecoderState, DecoderResult, source, drain_decoder, queue, wait_unless,
  retry_loop, submit_packet,
}
use hardware_floral_codec.Component.Process.Encoder.{
  EncoderSession, EncoderInput, EncoderState, EncoderResult, encoder_frames, drain_encoder,
  queue_frame, retry_frame, clear_request, sent_frame, send_frame,
}

module _ {S K : Type 0} (d : DecoderSession S K) (fuel : ℕ) where
  wait_unless-IsThere :
      (loop : DecoderState S K → DecoderResult S K) (st : DecoderState S K) (left : ℕ) (over : Bool)
      → ((st' : DecoderState S K) → IsThere st' → Always IsThere (loop st'))
      → IsThere st
      → Always IsThere (wait_unless d fuel loop st left over)
  wait_unless-IsThere loop st left true k h = h
  wait_unless-IsThere loop st left false k h =
      and_then-Always IsThere (with_session st (d.wait_for_progress left st.session)) loop h k

  retry_loop-IsThere :
      (rounds : ℕ) (bytes : Bytes) (index : ℕ) (st : DecoderState S K)
      → IsThere st
      → Always IsThere (retry_loop d fuel rounds bytes index st)
  unfolding retry_loop
  retry_loop-IsThere zero bytes index st h = tt
  retry_loop-IsThere (suc rounds) bytes index st h =
      and_then-Always IsThere (drain_decoder d fuel st) _
        (drain_some-IsThere decoder_part (source d fuel) fuel st h)
        (λ st1 h1. if_blocking-Always IsThere (queue d fuel bytes index st1) _ h1 (λ st2 h2.
          wait_unless-IsThere (retry_loop d fuel rounds bytes index) _ _ _
            (retry_loop-IsThere rounds bytes index) h2))

  pub submit_packet-IsThere :
      (bytes : Bytes) (index : ℕ) (st : DecoderState S K)
      → IsThere st
      → Always IsThere (submit_packet d fuel bytes index st)
  unfolding submit_packet
  submit_packet-IsThere bytes index st h =
      if_blocking-Always IsThere (queue d fuel bytes index st) _ h
        (retry_loop-IsThere fuel bytes index)

module _ {S I : Type 0} (d : EncoderSession S I) (memory : Memory) (codec : Option BitstreamCodec)
    (fuel : ℕ) where
  drain_encoder-IsThere :
      (st : EncoderState S) → IsThere st → Always IsThere (drain_encoder d memory codec fuel st)
  drain_encoder-IsThere = drain_some-IsThere encoder_part (encoder_frames d memory codec fuel) fuel

  retry_frame-IsThere :
      (again : EncoderState S → EncoderResult S) (r : EncoderResult S)
      → ((st : EncoderState S) → IsThere st → Always IsThere (again st))
      → Always IsThere r
      → Always IsThere (retry_frame d memory codec fuel again r)
  retry_frame-IsThere again none k h = tt
  retry_frame-IsThere again (some (st, c2_blocking)) k h =
      and_then-Always IsThere (drain_encoder d memory codec fuel st) again
        (drain_encoder-IsThere st h) k
  retry_frame-IsThere again (some (st, c2_ok)) k h = h
  retry_frame-IsThere again (some (st, c2_bad_value)) k h = h
  retry_frame-IsThere again (some (st, c2_bad_state)) k h = h
  retry_frame-IsThere again (some (st, c2_not_found)) k h = h
  retry_frame-IsThere again (some (st, c2_no_init)) k h = h
  retry_frame-IsThere again (some (st, c2_no_memory)) k h = h
  retry_frame-IsThere again (some (st, c2_corrupted)) k h = h
  retry_frame-IsThere again (some (st, c2_omitted)) k h = h
  retry_frame-IsThere again (some (st, c2_timed_out)) k h = h
  retry_frame-IsThere again (some (st, (c2_other n))) k h = h

  clear_request-IsThere :
      (b : Bool) (st st' : EncoderState S)
      → IsThere st
      → IsThere st'
      → IsThere (if b then st' else st)
  clear_request-IsThere b st st' h h' = if-cases IsThere b st' st (λ _. h') (λ _. h)

  sent_frame-IsThere :
      (eos : Bool) (st : EncoderState S)
      → IsThere st
      → Always IsThere (sent_frame d memory codec fuel eos st)
  sent_frame-IsThere true st h = h
  sent_frame-IsThere false st h =
      and_then-Always IsThere (with_session st (d.start_monitor st.session)) _ h
        drain_encoder-IsThere

  pub send_frame-IsThere :
      (frame : Option I) (input : EncoderInput I) (st : EncoderState S)
      → IsThere st
      → Always IsThere (send_frame d memory codec fuel frame input st)
  unfolding send_frame
  send_frame-IsThere none input st h = h
  send_frame-IsThere (some frame) input st h =
      let settings = d.get_settings st.session in
      and_then-Always IsThere _ _
        (retry_frame-IsThere (queue_frame d memory codec fuel frame input settings)
          (queue_frame d memory codec fuel frame input settings st) (λ st' h'. h') h)
        (λ st1 h1.
          sent_frame-IsThere input.end_of_stream (clear_request d memory codec fuel settings st1)
            (clear_request-IsThere settings.request_sync st1 _ h1 h1))
