-- ===== src/Component/Process/Keeps.antt =====
-- What a decoder's calls of the session keep: any property of its parameter sets.
use hardware_floral_codec.Common.{ℕ, zero, suc, Bool, true, false, Option, none, some}
use hardware_floral_codec.Bitstream.Nal.{Bytes}
use hardware_floral_codec.Session.{
  C2Status, c2_ok, c2_blocking, c2_bad_value, c2_bad_state, c2_not_found, c2_no_init, c2_no_memory,
  c2_corrupted, c2_omitted, c2_timed_out, c2_other,
}
use hardware_floral_codec.Component.DecoderConfig.{DecoderConfig}
use hardware_floral_codec.Component.Drain.{Drained, drain}
use hardware_floral_codec.Component.Drain.Decoder.{Share, PictureSize}
use hardware_floral_codec.Component.Process.{
  decoder_part, with_session, conclude, after_drain, with_drained, finish_stream,
}
use hardware_floral_codec.Component.Process.Rules.{Always, and_then-Always}
use hardware_floral_codec.Component.Process.Decoder.{
  DecoderSession, DecoderState, DecoderResult, if_blocking, source, drain_decoder, queue,
  wait_unless, retry_loop, submit_packet, conclude_unit,
}

module _ {S K : Type 0} where
  -- A property of the state that depends on the parameter sets alone.
  abbrev pub On : (DecoderConfig → Type 0) → DecoderState S K → Type 0
  On P st = P st.config

  pub if_blocking-Always :
      (P : DecoderState S K → Type 0) (r : DecoderResult S K)
      (next : DecoderState S K → DecoderResult S K)
      → Always P r
      → ((st : DecoderState S K) → P st → Always P (next st))
      → Always P (if_blocking r next)
  if_blocking-Always P none next h k = tt
  if_blocking-Always P (some (st, c2_blocking)) next h k = k st h
  if_blocking-Always P (some (st, c2_ok)) next h k = h
  if_blocking-Always P (some (st, c2_bad_value)) next h k = h
  if_blocking-Always P (some (st, c2_bad_state)) next h k = h
  if_blocking-Always P (some (st, c2_not_found)) next h k = h
  if_blocking-Always P (some (st, c2_no_init)) next h k = h
  if_blocking-Always P (some (st, c2_no_memory)) next h k = h
  if_blocking-Always P (some (st, c2_corrupted)) next h k = h
  if_blocking-Always P (some (st, c2_omitted)) next h k = h
  if_blocking-Always P (some (st, c2_timed_out)) next h k = h
  if_blocking-Always P (some (st, (c2_other n))) next h k = h

  conclude-On :
      (P : DecoderConfig → Type 0) (st : DecoderState S K) (e : C2Status) (saw : Bool)
      → P st.config
      → Always (On P) (conclude st e saw)
  conclude-On P st c2_ok true h = h
  conclude-On P st c2_ok false h = h
  conclude-On P st c2_blocking saw h = h
  conclude-On P st c2_bad_value saw h = h
  conclude-On P st c2_bad_state saw h = h
  conclude-On P st c2_not_found saw h = h
  conclude-On P st c2_no_init saw h = h
  conclude-On P st c2_no_memory saw h = h
  conclude-On P st c2_corrupted saw h = h
  conclude-On P st c2_omitted saw h = h
  conclude-On P st c2_timed_out saw h = h
  conclude-On P st (c2_other n) saw h = h

module _ {S K : Type 0} (d : DecoderSession S K) (fuel : ℕ) (P : DecoderConfig → Type 0) where
  after_drain-On :
      (st : DecoderState S K) (next : DecoderState S K → C2Status → Bool → DecoderResult S K)
      (r : Option (Drained S (Share K) PictureSize))
      → ((st' : DecoderState S K) (e : C2Status) (saw : Bool)
          → P st'.config
          → Always (On P) (next st' e saw))
      → P st.config
      → Always (On P) (after_drain decoder_part (source d fuel) st next r)
  after_drain-On st next none k h = tt
  after_drain-On st next (some r) k h =
      k (with_drained decoder_part (source d fuel) st r) r.status r.saw_eos h

  pub drain_decoder-On :
      (st : DecoderState S K) → P st.config → Always (On P) (drain_decoder d fuel st)
  drain_decoder-On st h =
      after_drain-On st (λ st' e saw. some (st', e))
        (drain (source d fuel) fuel false st.session st.works) (λ st' e saw h'. h') h

  wait_unless-On :
      (loop : DecoderState S K → DecoderResult S K) (st : DecoderState S K) (left : ℕ) (over : Bool)
      → ((st' : DecoderState S K) → P st'.config → Always (On P) (loop st'))
      → P st.config
      → Always (On P) (wait_unless d fuel loop st left over)
  wait_unless-On loop st left true k h = h
  wait_unless-On loop st left false k h =
      and_then-Always (On P) (with_session st (d.wait_for_progress left st.session)) loop h k

  retry_loop-On :
      (rounds : ℕ) (bytes : Bytes) (index : ℕ) (st : DecoderState S K)
      → P st.config
      → Always (On P) (retry_loop d fuel rounds bytes index st)
  unfolding retry_loop
  retry_loop-On zero bytes index st h = tt
  retry_loop-On (suc rounds) bytes index st h =
      and_then-Always (On P) (drain_decoder d fuel st) _ (drain_decoder-On st h) (λ st1 h1.
        if_blocking-Always (On P) (queue d fuel bytes index st1) _ h1 (λ st2 h2.
          wait_unless-On (retry_loop d fuel rounds bytes index) _ _ _
            (retry_loop-On rounds bytes index) h2))

  pub submit_packet-On :
      (bytes : Bytes) (index : ℕ) (st : DecoderState S K)
      → P st.config
      → Always (On P) (submit_packet d fuel bytes index st)
  unfolding submit_packet
  submit_packet-On bytes index st h =
      if_blocking-Always (On P) (queue d fuel bytes index st) _ h (retry_loop-On fuel bytes index)

  pub conclude_unit-On :
      (eos submitted : Bool) (st : DecoderState S K)
      → P st.config
      → Always (On P) (conclude_unit d fuel eos submitted st)
  unfolding conclude_unit finish_stream
  conclude_unit-On true submitted st h =
      and_then-Always (On P) (with_session st (d.start_drain st.session)) _ h
        (λ st' h'. after_drain-On st' conclude _ (conclude-On P) h')
  conclude_unit-On false true st h = h
  conclude_unit-On false false st h = h
