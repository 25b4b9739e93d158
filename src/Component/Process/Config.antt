-- ===== src/Component/Process/Config.antt =====
-- The parameter sets across the works of a decoder.
use hardware_floral_codec.Common.{
  ℕ, ◌≡◌, refl, sym, ap, ◌∙◌, Bool, true, false, some, List, [], ◌∷◌, ◌++◌, Bool-cases, inl, inr,
}
use hardware_floral_codec.Bitstream.Nal.{BitstreamCodec, Bytes}
use hardware_floral_codec.Session.{C2Status}
use hardware_floral_codec.Component.DecoderConfig.{
  DecoderConfig, Packet, refused, packet, make_packet, after_packet,
}
use hardware_floral_codec.Component.DecoderConfig.Calls.{
  Call, configures, sends, behind_packet, after_call, after_calls,
}
use hardware_floral_codec.Component.DecoderConfig.Packets.{make_packet-refused}
use hardware_floral_codec.Component.Process.{◌and_then◌, with_session}
use hardware_floral_codec.Component.Process.Rules.{
  OnSuccess, Always, and_then-Always, mono-Always, success_of-Always, chain-Always, mono-OnSuccess,
  and_then-OnSuccess, error-OnSuccess, status-OnSuccess,
}
use hardware_floral_codec.Component.Process.Decoder.{
  DecoderSession, InputBuffer, no_buffer, not_linear, view, Input, DecoderState, DecoderResult,
  with_config, finish_current, finish_config, config_work, drain_decoder, submit_packet,
  ensure_decoder_session, conclude_unit, sent_packet, send_packet, unit_bytes, unit_work, work_of,
  process_decoder,
}
use hardware_floral_codec.Component.Process.Keeps.{
  On, drain_decoder-On, submit_packet-On, conclude_unit-On,
}
use hardware_floral_codec.Component.Process.Calls.{
  update_calls, bytes_calls, buffer_calls, calls_of, nothing, not_taken, behind, PartOf, AllOf,
  PartOf-append, AllOf-PartOf, AllOf-append, same-PartOf, Stores, store-Stores,
  process_updates-Stores,
}

module _ {S K : Type 0} (codec : BitstreamCodec) where
  -- A result where a part of the calls is made, and with C2_OK all of them.
  pub record Makes (calls : List Call) (c : DecoderConfig) (r : DecoderResult S K) : Type 0 where
    pub some_of : Always (On (PartOf codec calls c)) r
    pub all_of : OnSuccess (On (AllOf codec calls c)) r

  chain-Makes :
      (xs ys : List Call) (c : DecoderConfig) (r : DecoderResult S K)
      (next : DecoderState S K → DecoderResult S K)
      → Makes xs c r
      → ((st : DecoderState S K) → Makes ys st.config (next st))
      → Makes (xs ++ ys) c (r and_then next)
  chain-Makes xs ys c r next h k = record {
    some_of =
        chain-Always (On (PartOf codec (xs ++ ys) c)) (On (AllOf codec xs c)) r next
          (mono-Always (On (PartOf codec xs c)) (On (PartOf codec (xs ++ ys) c)) r
            (λ st q. PartOf-append codec xs ys c st.config q) h.some_of)
          h.all_of
          (λ st q.
            mono-Always (On (PartOf codec ys st.config)) (On (PartOf codec (xs ++ ys) c)) (next st)
              (λ st' q'. AllOf-PartOf codec xs ys c st.config st'.config q q') (k st).some_of);
    all_of =
        and_then-OnSuccess (On (AllOf codec (xs ++ ys) c)) (On (AllOf codec xs c)) r next h.all_of
          (λ st q.
            mono-OnSuccess (On (AllOf codec ys st.config)) (On (AllOf codec (xs ++ ys) c)) (next st)
              (λ st' q'. AllOf-append codec xs ys c st.config st'.config q q') (k st).all_of);
  }

  -- What leaves the parameter sets alone makes no call.
  same-Makes :
      (c : DecoderConfig) (r : DecoderResult S K) → Always (On (λ c'. c' ≡ c)) r → Makes [] c r
  unfolding after_calls
  same-Makes c r h = record {
    some_of =
        mono-Always (On (λ c'. c' ≡ c)) (On (PartOf codec [] c)) r
          (λ st q. same-PartOf codec [] c st.config q) h;
    all_of = success_of-Always (On (λ c'. c' ≡ c)) r h;
  }

  Stores-Makes :
      (calls : List Call) (st : DecoderState S K) (r : C2Status × DecoderConfig)
      → Stores codec calls st.config r
      → Makes calls st.config (with_config st r)
  Stores-Makes calls st (e, c) h = record {
    some_of = h.some_of;
    all_of =
        status-OnSuccess (On (AllOf codec calls st.config)) (record st { config = c }) e h.all_of;
  }

module _ {S K : Type 0} (d : DecoderSession S K) (fuel : ℕ) (codec : BitstreamCodec) where
  sent_packet-same :
      (eos : Bool) (c : DecoderConfig) (st : DecoderState S K)
      → after_packet (some codec) st.config ≡ c
      → Always (On (λ c'. c' ≡ c)) (sent_packet d fuel (some codec) eos st)
  sent_packet-same true c st h = conclude_unit-On d fuel (λ c'. c' ≡ c) true true _ h
  sent_packet-same false c st h =
      and_then-Always (On (λ c'. c' ≡ c)) (drain_decoder d fuel _) (conclude_unit d fuel false true)
        (drain_decoder-On d fuel (λ c'. c' ≡ c) _ h)
        (λ st' h'. conclude_unit-On d fuel (λ c'. c' ≡ c) false true st' h')

  -- A packet that is made: the session does not take it, or takes it, and the sets go with it.
  queued-Makes :
      (index : ℕ) (eos : Bool) (bytes out : Bytes) (st : DecoderState S K) (c : DecoderConfig)
      → make_packet (some codec) bytes st.config ≡ packet out c
      → Makes codec
          (sends bytes true ∷ [])
          st.config
          (send_packet d fuel (some codec) index eos st (packet out c))
  unfolding after_calls after_call
  queued-Makes index eos bytes out st c q =
      let calls = sends bytes true ∷ [] in
      let sent = submit_packet d fuel out index (record st { config = c }) in
      let same = submit_packet-On d fuel (λ c'. c' ≡ c) out index (record st { config = c }) refl in
      let gone : (st' : DecoderState S K)
          → st'.config ≡ c
          → Always (On (λ c'. c' ≡ after_packet (some codec) c))
              (sent_packet d fuel (some codec) eos st') =
        λ st' q'.
          sent_packet-same eos (after_packet (some codec) c) st'
            (ap (after_packet (some codec)) q') in
      let taken : after_packet (some codec) c ≡ after_calls codec calls st.config =
        ap (behind_packet codec true) (sym q) in
      let left : c ≡ after_calls codec (sends bytes false ∷ []) st.config =
        ap (behind_packet codec false) (sym q) in
      record {
        some_of =
            chain-Always (On (PartOf codec calls st.config)) (On (λ c'. c' ≡ c)) sent _
              (mono-Always (On (λ c'. c' ≡ c)) (On (PartOf codec calls st.config)) sent
                (λ st' q'. record {
                  part = sends bytes false ∷ [];
                  is_part = not_taken bytes;
                  left = q' ∙ left;
                })
                same)
              (success_of-Always (On (λ c'. c' ≡ c)) sent same)
              (λ st' q'.
                mono-Always (On (λ c'. c' ≡ after_packet (some codec) c))
                  (On (PartOf codec calls st.config)) _
                  (λ st2 q2. record {
                    part = calls;
                    is_part = behind (sends bytes true) nothing;
                    left = q2 ∙ taken;
                  })
                  (gone st' q'));
        all_of =
            and_then-OnSuccess (On (AllOf codec calls st.config)) (On (λ c'. c' ≡ c)) sent _
              (success_of-Always (On (λ c'. c' ≡ c)) sent same)
              (λ st' q'. success_of-Always (On (AllOf codec calls st.config)) _ (
                mono-Always (On (λ c'. c' ≡ after_packet (some codec) c))
                  (On (AllOf codec calls st.config)) _ (λ st2 q2. q2 ∙ taken) (gone st' q')));
      }

  send_packet-Makes :
      (index : ℕ) (eos : Bool) (bytes : Bytes) (st : DecoderState S K) (p : Packet)
      → make_packet (some codec) bytes st.config ≡ p
      → Makes codec
          (sends bytes true ∷ [])
          st.config
          (send_packet d fuel (some codec) index eos st p)
  unfolding after_calls after_call
  send_packet-Makes index eos bytes st (refused e c) q = record {
    some_of = record {
      part = sends bytes true ∷ [];
      is_part = behind (sends bytes true) nothing;
      left = ap (behind_packet codec true) (sym q);
    };
    all_of =
        error-OnSuccess (On (AllOf codec (sends bytes true ∷ []) st.config))
          (record st { config = c }) e (make_packet-refused (some codec) bytes st.config c e q);
  }
  send_packet-Makes index eos bytes st (packet out c) q = queued-Makes index eos bytes out st c q

  conclude_unit-Makes :
      (eos submitted : Bool) (st : DecoderState S K)
      → Makes codec [] st.config (conclude_unit d fuel eos submitted st)
  conclude_unit-Makes eos submitted st =
      same-Makes codec st.config _
        (conclude_unit-On d fuel (λ c'. c' ≡ st.config) eos submitted st refl)

  unit_bytes-Makes :
      (index : ℕ) (bytes : Bytes) (eos : Bool) (st : DecoderState S K)
      → Makes codec
          (bytes_calls false bytes)
          st.config
          (unit_bytes d fuel (some codec) index bytes eos st)
  unfolding unit_bytes
  unit_bytes-Makes index [] true st = conclude_unit-Makes true false st
  unit_bytes-Makes index [] false st = conclude_unit-Makes false false (finish_current false st)
  unit_bytes-Makes index (b ∷ bytes) eos st = send_packet-Makes index eos (b ∷ bytes) st _ refl

  unit_work-Makes :
      (index : ℕ) (buffer : InputBuffer) (eos : Bool) (st : DecoderState S K)
      → Makes codec
          (buffer_calls false buffer)
          st.config
          (unit_work d fuel (some codec) index buffer eos st)
  unfolding unit_work
  unit_work-Makes index no_buffer eos st = conclude_unit-Makes eos false st
  unit_work-Makes index not_linear eos st = same-Makes codec st.config _ refl
  unit_work-Makes index (view e bytes) eos st =
      chain-Makes codec [] (bytes_calls false bytes) st.config (some (st, e)) _
        (same-Makes codec st.config _ refl) (unit_bytes-Makes index bytes eos)

  config_work-Makes :
      (buffer : InputBuffer) (eos : Bool) (st : DecoderState S K)
      → Makes codec (buffer_calls true buffer) st.config (config_work codec buffer eos st)
  unfolding config_work
  config_work-Makes no_buffer eos st = same-Makes codec st.config _ refl
  config_work-Makes not_linear eos st = same-Makes codec st.config _ refl
  config_work-Makes (view e bytes) eos st =
      chain-Makes codec (configures bytes ∷ []) [] st.config _ (finish_config eos)
        (chain-Makes codec [] (configures bytes ∷ []) st.config (some (st, e)) _
          (same-Makes codec st.config _ refl)
          (λ st1. Stores-Makes codec _ st1 _ (store-Stores codec bytes st1.config)))
        (λ st1. same-Makes codec st1.config _ refl)

  work_of-Makes :
      (input : Input) (st : DecoderState S K)
      → Makes codec
          (buffer_calls input.flags.codec_config input.buffer)
          st.config
          (work_of d fuel (some codec) input st)
  work_of-Makes input st = elim (Bool-cases input.flags.codec_config) [
    | inl config ↦ rw config (config_work-Makes input.buffer input.flags.end_of_stream st)
    | inr unit ↦
        rw unit (unit_work-Makes input.frame_index input.buffer input.flags.end_of_stream st)
  ]

  ensure_decoder_session-same :
      (st : DecoderState S K)
      → Always (On (λ c'. c' ≡ st.config)) (ensure_decoder_session d fuel st)
  unfolding ensure_decoder_session
  ensure_decoder_session-same st = elim (Bool-cases st.decoder_session_pending) [
    | inr opened ↦ rw opened refl
    | inl pending ↦ rw pending (
        and_then-Always (On (λ c'. c' ≡ st.config)) (with_session st (d.open_session st.session)) _
          refl (λ st' h'. h'))
  ]

  -- A work of an AVC or HEVC decoder, in any state, that gives a result: with C2_OK, the parameter
  -- sets are exactly what is left of those before by the calls of the work, in order, that is, the
  -- configurations of its updates, and then its bytes, as a configuration where it is flagged as
  -- one, and otherwise as a packet that the session took. With an error, they are what the first
  -- some of these calls leave, where the packet may be one that the session did not take.
  pub process_decoder-Makes :
      (input : Input) (st : DecoderState S K)
      → Makes codec (calls_of input) st.config (process_decoder d fuel (some codec) input st)
  unfolding process_decoder
  process_decoder-Makes input st =
      chain-Makes codec (update_calls input.config_update)
        (buffer_calls input.flags.codec_config input.buffer) st.config _
        (work_of d fuel (some codec) input)
        (chain-Makes codec [] (update_calls input.config_update) st.config
          (ensure_decoder_session d fuel st) _
          (same-Makes codec st.config _ (ensure_decoder_session-same st))
          (λ st1.
            Stores-Makes codec _ st1 _
              (process_updates-Stores codec input.config_update st1.config)))
        (work_of-Makes input)
