-- ===== src/Component/Process/LastWork.antt =====
-- The last work of a decoder and of an encoder.
use hardware_floral_codec.Common.{
  ℕ, ◌<◌, arith, ◌≡◌, ◌⊎◌, refl, sym, subst, Bool, true, false, Option, none, some, [], ◌∷◌,
  Bool-cases, inl, inr,
}
use hardware_floral_codec.Bitstream.Nal.{BitstreamCodec, Bytes}
use hardware_floral_codec.Session.{C2Status}
use hardware_floral_codec.Component.DecoderConfig.{
  DecoderConfig, store_decoder_config, process_decoder_config_updates, Packet, refused, packet,
  make_packet,
}
use hardware_floral_codec.Component.DecoderConfig.Packets.{make_packet-refused}
use hardware_floral_codec.Component.Work.{Work}
use hardware_floral_codec.Component.Drain.Decoder.{Share, PictureSize}
use hardware_floral_codec.Component.Process.{
  State, Result, decoder_part, ◌and_then◌, with_session, begin, process,
}
use hardware_floral_codec.Component.Process.Rules.{
  OnSuccess, Always, success_of-Always, and_then-OnSuccess, error-OnSuccess, value-OnSuccess,
}
use hardware_floral_codec.Component.Process.Ends.{
  Ended, IsThere, is_there-new, IsFresh, finish_new-ended, finish_stream-Ended, process-or, IsGiven,
  process-given,
}
use hardware_floral_codec.Component.Process.There.{submit_packet-IsThere}
use hardware_floral_codec.Component.Process.Bounds.{IsBounded}
use hardware_floral_codec.Component.Process.Settled.{Total, process_decoder-Total}
use hardware_floral_codec.Component.Process.Decoder.{
  DecoderSession, InputBuffer, no_buffer, not_linear, view, Input, DecoderState, DecoderResult,
  with_config, finish_config, config_work, source, ensure_decoder_session, conclude_unit,
  send_packet, submit_packet, unit_bytes, unit_work, work_of, process_decoder,
}

module _ {S B U : Type 0} where
  -- A chain that keeps the current work, and then ends the stream, ends it.
  then-Ended :
      (r : Result S B U) (next : State S B U → Result S B U)
      → Always IsThere r
      → ((st : State S B U) → IsThere st → OnSuccess Ended (next st))
      → OnSuccess Ended (r and_then next)
  then-Ended r next h = and_then-OnSuccess Ended IsThere r next (success_of-Always IsThere r h)

module _ {S K : Type 0} (d : DecoderSession S K) (fuel : ℕ) where
  conclude_unit-Ended :
      (submitted : Bool) (st : DecoderState S K)
      → IsThere st
      → OnSuccess Ended (conclude_unit d fuel true submitted st)
  unfolding conclude_unit
  conclude_unit-Ended submitted st h =
      then-Ended (with_session st (d.start_drain st.session)) _ h
        (finish_stream-Ended decoder_part (source d fuel) fuel)

  send_packet-Ended :
      (codec : Option BitstreamCodec) (index : ℕ) (bytes : Bytes) (st : DecoderState S K)
      (p : Packet)
      → IsThere st
      → make_packet codec bytes st.config ≡ p
      → OnSuccess Ended (send_packet d fuel codec index true st p)
  send_packet-Ended codec index bytes st (refused e c) h q =
      error-OnSuccess Ended _ e (make_packet-refused codec bytes st.config c e q)
  send_packet-Ended codec index bytes st (packet out c) h q =
      then-Ended (submit_packet d fuel out index (record st { config = c })) _
        (submit_packet-IsThere d fuel out index (record st { config = c }) h)
        (λ st' h'. conclude_unit-Ended true _ h')

  unit_bytes-Ended :
      (codec : Option BitstreamCodec) (index : ℕ) (bytes : Bytes) (st : DecoderState S K)
      → IsThere st
      → OnSuccess Ended (unit_bytes d fuel codec index bytes true st)
  unfolding unit_bytes
  unit_bytes-Ended codec index [] st h = conclude_unit-Ended false st h
  unit_bytes-Ended codec index (b ∷ bytes) st h =
      send_packet-Ended codec index (b ∷ bytes) st _ h refl

  unit_work-Ended :
      (codec : Option BitstreamCodec) (index : ℕ) (buffer : InputBuffer) (st : DecoderState S K)
      → IsThere st
      → OnSuccess Ended (unit_work d fuel codec index buffer true st)
  unfolding unit_work
  unit_work-Ended codec index no_buffer st h = conclude_unit-Ended false st h
  unit_work-Ended codec index not_linear st h = tt
  unit_work-Ended codec index (view e bytes) st h =
      then-Ended (some (st, e)) _ h (unit_bytes-Ended codec index bytes)

  finish_config-Ended :
      (st : DecoderState S K) → IsFresh st → OnSuccess Ended (finish_config true st)
  finish_config-Ended st h = record {
    signalled = refl;
    current_ended = finish_new-ended st.works.current h;
  }

  with_config-IsFresh :
      (st : DecoderState S K) (r : C2Status × DecoderConfig)
      → IsFresh st
      → OnSuccess IsFresh (with_config st r)
  with_config-IsFresh st r h = value-OnSuccess IsFresh (record st { config = r.1 }) r.0 h

  config_work-Ended :
      (codec : BitstreamCodec) (buffer : InputBuffer) (st : DecoderState S K)
      → IsFresh st
      → OnSuccess Ended (config_work codec buffer true st)
  unfolding config_work
  config_work-Ended codec no_buffer st h = finish_config-Ended st h
  config_work-Ended codec not_linear st h = tt
  config_work-Ended codec (view e bytes) st h =
      and_then-OnSuccess Ended IsFresh _ (finish_config true)
        (and_then-OnSuccess IsFresh IsFresh (some (st, e)) _ (value-OnSuccess IsFresh st e h)
          (λ st' h'. with_config-IsFresh st' (store_decoder_config codec bytes st'.config) h'))
        finish_config-Ended

  ensure_decoder_session-IsFresh :
      (st : DecoderState S K) → IsFresh st → OnSuccess IsFresh (ensure_decoder_session d fuel st)
  unfolding ensure_decoder_session
  ensure_decoder_session-IsFresh st h = elim (Bool-cases st.decoder_session_pending) [
    | inr opened ↦ rw opened h
    | inl pending ↦ rw pending (
        and_then-OnSuccess IsFresh IsFresh (with_session st (d.open_session st.session)) _
          (value-OnSuccess IsFresh (record st { session = (d.open_session st.session).0 })
            (d.open_session st.session).1 h)
          (λ st' h'. h'))
  ]

  work_of-Ended :
      (codec : Option BitstreamCodec) (input : Input) (st : DecoderState S K)
      → input.flags.end_of_stream ≡ true
      → IsFresh st
      → OnSuccess Ended (work_of d fuel codec input st)
  work_of-Ended none input st e h =
      subst
        (λ (eos : Bool).
          OnSuccess Ended (unit_work d fuel none input.frame_index input.buffer eos st))
        (sym e)
        (unit_work-Ended none input.frame_index input.buffer st (is_there-new st.works.current h))
  work_of-Ended (some codec) input st e h = elim (Bool-cases input.flags.codec_config) [
    | inl config ↦ rw config (
        subst (λ (eos : Bool). OnSuccess Ended (config_work codec input.buffer eos st)) (sym e)
          (config_work-Ended codec input.buffer st h))
    | inr unit ↦ rw unit (
        subst
          (λ (eos : Bool).
            OnSuccess Ended (unit_work d fuel (some codec) input.frame_index input.buffer eos st))
          (sym e)
          (unit_work-Ended (some codec) input.frame_index input.buffer st
            (is_there-new st.works.current h)))
  ]

  process_decoder-or :
      (codec : Option BitstreamCodec) (input : Input) (w : Work (Share K) PictureSize)
      (st st' : DecoderState S K)
      → input.flags.end_of_stream ≡ true
      → st.signalled_eos ≡ false
      → process (process_decoder d fuel codec input) input.flags w st ≡ some st'
      → Ended st' ⊎ (st'.signalled_error ≡ true)
  unfolding process_decoder
  process_decoder-or codec input w st st' e n q =
      process-or Ended (process_decoder d fuel codec input) input.flags w st st'
        (and_then-OnSuccess Ended IsFresh _ (work_of d fuel codec input)
          (and_then-OnSuccess IsFresh IsFresh
            (ensure_decoder_session d fuel (begin input.flags w st)) _
            (ensure_decoder_session-IsFresh (begin input.flags w st) refl)
            (λ st1 h.
              with_config-IsFresh st1
                (process_decoder_config_updates codec input.config_update st1.config) h))
          (λ st2 h. work_of-Ended codec input st2 e h))
        n q

  Total-IsGiven :
      (frames ticks : S → ℕ) (t : ℕ) (r : DecoderResult S K)
      → Total d frames ticks fuel t r
      → IsGiven r
  Total-IsGiven frames ticks t none h = absurd h
  Total-IsGiven frames ticks t (some x) h = (x, refl)

  -- A last work of a decoder, in a state with no end of a stream, with a session that gives fewer
  -- frames than the fuel, where a wait of a deadline that is not over takes a tick of the time
  -- that is left, which has fewer ticks than the fuel, and no call adds a frame or a tick: process
  -- returns, and the work is finished with the end of the stream on its output and that end is
  -- signalled, or an error is signalled.
  pub process-decoder-Ended :
      (frames ticks : S → ℕ) (codec : Option BitstreamCodec) (input : Input)
      (w : Work (Share K) PictureSize) (st : DecoderState S K)
      → IsBounded d frames ticks
      → frames st.session < fuel
      → ticks st.session < fuel
      → input.flags.end_of_stream ≡ true
      → st.signalled_eos ≡ false
      → (st' : DecoderState S K) × (process (process_decoder d fuel codec input) input.flags w st
          ≡ some st')
        × (Ended st' ⊎ (st'.signalled_error ≡ true))
  process-decoder-Ended frames ticks codec input w st bounded few soon e n =
      let given = process-given (process_decoder d fuel codec input) input.flags w st (
        Total-IsGiven frames ticks (ticks st.session) _ (
          process_decoder-Total d frames ticks fuel bounded (ticks st.session) codec input
            (begin input.flags w st) soon (few, omega arith))) in
      (given.0, given.1, process_decoder-or codec input w st given.0 e n given.1)
