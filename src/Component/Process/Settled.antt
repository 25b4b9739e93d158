-- ===== src/Component/Process/Settled.antt =====
-- A decoder's work comes to an end: the frames to come and the time that is left get less.
use hardware_floral_codec.Common.{
  ℕ, zero, suc, ◌≡◌, ◌<◌, ◌≤◌, ◌==◌, refl, Bool, true, false, Option, none, some, [], ◌∷◌, arith,
  if-cases,
}
use hardware_floral_codec.Bitstream.Nal.{BitstreamCodec, Bytes}
use hardware_floral_codec.Session.{
  C2Status, c2_ok, c2_blocking, c2_bad_value, c2_bad_state, c2_not_found, c2_no_init, c2_no_memory,
  c2_corrupted, c2_omitted, c2_timed_out, c2_other,
}
use hardware_floral_codec.Component.DecoderConfig.{Packet, refused, packet}
use hardware_floral_codec.Component.Drain.{drain}
use hardware_floral_codec.Component.Drain.Settled.{IsDraining, drain_loop-Ends}
use hardware_floral_codec.Component.Drain.Decoder.{make_decoded_buffer}
use hardware_floral_codec.Component.Process.{
  decoder_part, ◌and_then◌, with_session, conclude, after_drain, finish_stream,
}
use hardware_floral_codec.Component.Process.Bounds.{updated-same, IsBounded}
use hardware_floral_codec.Component.Process.Decoder.{
  DecoderSession, InputBuffer, no_buffer, not_linear, view, Input, DecoderState, DecoderResult,
  if_blocking, finish_current, finish_config, config_work, source, drain_decoder, queue,
  wait_unless, wait_left, retry_loop, submit_packet, ensure_decoder_session, conclude_unit,
  sent_packet, send_packet, unit_bytes, unit_work, work_of, process_decoder,
}

module _ {S K : Type 0} (d : DecoderSession S K) (frames ticks : S → ℕ) (fuel : ℕ) where
  abbrev pub Low : ℕ → S → Type 0
  Low t s = (frames s < fuel) × (ticks s ≤ t)

  -- A result that is there, in a state below the bounds.
  abbrev pub Total : ℕ → DecoderResult S K → Type 0
  Total t none = ⊥
  Total t (some (st, e)) = Low t st.session

  and_then-Total :
      (t : ℕ) (r : DecoderResult S K) (next : DecoderState S K → DecoderResult S K)
      → Total t r
      → ((st : DecoderState S K) → Low t st.session → Total t (next st))
      → Total t (r and_then next)
  and_then-Total t none next h k = absurd h
  and_then-Total t (some (st, c2_ok)) next h k = k st h
  and_then-Total t (some (st, c2_blocking)) next h k = h
  and_then-Total t (some (st, c2_bad_value)) next h k = h
  and_then-Total t (some (st, c2_bad_state)) next h k = h
  and_then-Total t (some (st, c2_not_found)) next h k = h
  and_then-Total t (some (st, c2_no_init)) next h k = h
  and_then-Total t (some (st, c2_no_memory)) next h k = h
  and_then-Total t (some (st, c2_corrupted)) next h k = h
  and_then-Total t (some (st, c2_omitted)) next h k = h
  and_then-Total t (some (st, c2_timed_out)) next h k = h
  and_then-Total t (some (st, (c2_other n))) next h k = h

  -- The same where the state of the session is known.
  chain-Total :
      (t : ℕ) (start : DecoderState S K) (loop : DecoderState S K → DecoderResult S K)
      (st : DecoderState S K) (e : C2Status)
      → Low t st.session
      → ticks st.session < ticks start.session
      → ((st' : DecoderState S K)
          → Low t st'.session
          → ticks st'.session < ticks start.session
          → Total t (loop st'))
      → Total t (some (st, e) and_then loop)
  chain-Total t start loop st c2_ok l less k = k st l less
  chain-Total t start loop st c2_blocking l less k = l
  chain-Total t start loop st c2_bad_value l less k = l
  chain-Total t start loop st c2_bad_state l less k = l
  chain-Total t start loop st c2_not_found l less k = l
  chain-Total t start loop st c2_no_init l less k = l
  chain-Total t start loop st c2_no_memory l less k = l
  chain-Total t start loop st c2_corrupted l less k = l
  chain-Total t start loop st c2_omitted l less k = l
  chain-Total t start loop st c2_timed_out l less k = l
  chain-Total t start loop st (c2_other n) l less k = l

  if_blocking-Total :
      (t : ℕ) (r : DecoderResult S K) (next : DecoderState S K → DecoderResult S K)
      → Total t r
      → ((st : DecoderState S K) → Low t st.session → Total t (next st))
      → Total t (if_blocking r next)
  if_blocking-Total t none next h k = absurd h
  if_blocking-Total t (some (st, c2_ok)) next h k = h
  if_blocking-Total t (some (st, c2_blocking)) next h k = k st h
  if_blocking-Total t (some (st, c2_bad_value)) next h k = h
  if_blocking-Total t (some (st, c2_bad_state)) next h k = h
  if_blocking-Total t (some (st, c2_not_found)) next h k = h
  if_blocking-Total t (some (st, c2_no_init)) next h k = h
  if_blocking-Total t (some (st, c2_no_memory)) next h k = h
  if_blocking-Total t (some (st, c2_corrupted)) next h k = h
  if_blocking-Total t (some (st, c2_omitted)) next h k = h
  if_blocking-Total t (some (st, c2_timed_out)) next h k = h
  if_blocking-Total t (some (st, (c2_other n))) next h k = h

  conclude-Total :
      (t : ℕ) (st : DecoderState S K) (e : C2Status) (saw : Bool)
      → Low t st.session
      → Total t (conclude st e saw)
  conclude-Total t st c2_ok true h = h
  conclude-Total t st c2_ok false h = h
  conclude-Total t st c2_blocking saw h = h
  conclude-Total t st c2_bad_value saw h = h
  conclude-Total t st c2_bad_state saw h = h
  conclude-Total t st c2_not_found saw h = h
  conclude-Total t st c2_no_init saw h = h
  conclude-Total t st c2_no_memory saw h = h
  conclude-Total t st c2_corrupted saw h = h
  conclude-Total t st c2_omitted saw h = h
  conclude-Total t st c2_timed_out saw h = h
  conclude-Total t st (c2_other n) saw h = h

  lower-Total : (t t' : ℕ) (r : DecoderResult S K) → t' ≤ t → Total t' r → Total t r
  lower-Total t t' none le h = h
  lower-Total t t' (some (st, e)) le h = (h.0, omega arith)

  module _ (h : IsBounded d frames ticks) where
    low : (t : ℕ) (s s' : S) → (frames s' ≤ frames s) × (ticks s' ≤ ticks s) → Low t s → Low t s'
    low t s s' le l = (omega arith, omega arith)

    is_draining : (t : ℕ) → IsDraining (source d fuel) frames (Low t)
    unfolding make_decoded_buffer
    is_draining t = record {
      dequeue_keeps = λ wait s l. low t s _ (h.dequeues wait s) l;
      dequeue_fewer = λ wait s s' f q. h.fewer wait s s' f q;
      make_keeps = λ f s l.
          let same = updated-same f f.block (d.config f.width f.height s) in
          rw same (low t s _ (h.configures f.width f.height s) l);
      make_same = λ f s.
          let same = updated-same f f.block (d.config f.width f.height s) in
          rw same (h.configures f.width f.height s).0;
    }

    after_drain-Total :
        (t : ℕ) (draining : Bool) (st : DecoderState S K)
        (next : DecoderState S K → C2Status → Bool → DecoderResult S K)
        → Low t st.session
        → ((st' : DecoderState S K) (e : C2Status) (saw : Bool)
            → Low t st'.session
            → Total t (next st' e saw))
        → Total t (
            after_drain decoder_part
              (source d fuel)
              st
              next
              (drain (source d fuel) fuel draining st.session st.works))
    after_drain-Total t draining st next l k =
        let r =
          drain_loop-Ends (source d fuel) frames (Low t) (is_draining t) fuel draining false none
            st.session st.works l l.0 in
        rw r.1 (k _ r.0.status r.0.saw_eos r.2)

    drain_decoder-Total :
        (t : ℕ) (st : DecoderState S K) → Low t st.session → Total t (drain_decoder d fuel st)
    drain_decoder-Total t st l =
        after_drain-Total t false st (λ st' e saw. some (st', e)) l (λ st' e saw l'. l')

    wait_unless-Total :
        (t : ℕ) (loop : DecoderState S K → DecoderResult S K) (st : DecoderState S K) (over : Bool)
        → ((d.remaining st.session).1 == 0) ≡ over
        → ((st' : DecoderState S K)
            → Low t st'.session
            → ticks st'.session < ticks st.session
            → Total t (loop st'))
        → Low t (d.remaining st.session).0
        → Total t (
            wait_unless d fuel loop
              (record st { session = (d.remaining st.session).0 })
              (d.remaining st.session).1
              over)
    wait_unless-Total t loop st true q k l = l
    wait_unless-Total t loop st false q k l =
        let waited = low t (d.remaining st.session).0 _ (h.waits (d.remaining st.session).1 _) l in
        let less = h.sooner st.session (λ e. ground arith) in
        chain-Total t st loop _ _ waited less k

    -- A round that waits leaves less time than there was.
    wait_left-Total :
        (t : ℕ) (loop : DecoderState S K → DecoderResult S K) (st : DecoderState S K)
        → ((st' : DecoderState S K)
            → Low t st'.session
            → ticks st'.session < ticks st.session
            → Total t (loop st'))
        → Low t st.session
        → Total t (wait_left d fuel loop st (d.remaining st.session))
    wait_left-Total t loop st k l =
        let asked = low t st.session _ (h.asks st.session) l in
        wait_unless-Total t loop st _ refl k asked

    retry_loop-Total :
        (rounds t : ℕ) (bytes : Bytes) (index : ℕ) (st : DecoderState S K)
        → t < rounds
        → Low t st.session
        → Total t (retry_loop d fuel rounds bytes index st)
    unfolding retry_loop
    retry_loop-Total zero t bytes index st enough l = absurd (omega arith)
    retry_loop-Total (suc rounds) t bytes index st enough l =
        and_then-Total t (drain_decoder d fuel st) _ (drain_decoder-Total t st l) (λ st1 l1.
          if_blocking-Total t (queue d fuel bytes index st1) _
            (low t st1.session _ (h.queues bytes index st1.session) l1)
            (λ st2 l2.
              wait_left-Total t (retry_loop d fuel rounds bytes index) st2
                (λ st3 l3 less. lower-Total t (ticks st3.session) _ l3.1 (
                  retry_loop-Total rounds (ticks st3.session) bytes index st3 (omega arith)
                    (l3.0, omega arith)))
                l2))

    submit_packet-Total :
        (t : ℕ) (bytes : Bytes) (index : ℕ) (st : DecoderState S K)
        → t < fuel
        → Low t st.session
        → Total t (submit_packet d fuel bytes index st)
    unfolding submit_packet
    submit_packet-Total t bytes index st enough l =
        if_blocking-Total t (queue d fuel bytes index st) _
          (low t st.session _ (h.queues bytes index st.session) l)
          (λ st1 l1. retry_loop-Total fuel t bytes index st1 enough l1)

    conclude_unit-Total :
        (t : ℕ) (eos submitted : Bool) (st : DecoderState S K)
        → Low t st.session
        → Total t (conclude_unit d fuel eos submitted st)
    unfolding conclude_unit finish_stream
    conclude_unit-Total t true submitted st l =
        and_then-Total t (with_session st (d.start_drain st.session)) _
          (low t st.session _ (h.drains st.session) l)
          (λ st1 l1. after_drain-Total t true st1 conclude l1 (conclude-Total t))
    conclude_unit-Total t false true st l = l
    conclude_unit-Total t false false st l = l

    sent_packet-Total :
        (t : ℕ) (codec : Option BitstreamCodec) (eos : Bool) (st : DecoderState S K)
        → Low t st.session
        → Total t (sent_packet d fuel codec eos st)
    sent_packet-Total t codec true st l = conclude_unit-Total t true true _ l
    sent_packet-Total t codec false st l =
        and_then-Total t (drain_decoder d fuel _) (conclude_unit d fuel false true)
          (drain_decoder-Total t _ l) (λ st1 l1. conclude_unit-Total t false true st1 l1)

    module _ (t : ℕ) (enough : t < fuel) (codec : Option BitstreamCodec) where
      send_packet-Total :
          (index : ℕ) (eos : Bool) (st : DecoderState S K) (p : Packet)
          → Low t st.session
          → Total t (send_packet d fuel codec index eos st p)
      send_packet-Total index eos st (refused e c) l = l
      send_packet-Total index eos st (packet bytes c) l =
          and_then-Total t (submit_packet d fuel bytes index (record st { config = c })) _
            (submit_packet-Total t bytes index _ enough l) (sent_packet-Total t codec eos)

      unit_bytes-Total :
          (index : ℕ) (bytes : Bytes) (eos : Bool) (st : DecoderState S K)
          → Low t st.session
          → Total t (unit_bytes d fuel codec index bytes eos st)
      unfolding unit_bytes
      unit_bytes-Total index [] true st l = conclude_unit-Total t true false st l
      unit_bytes-Total index [] false st l =
          conclude_unit-Total t false false (finish_current false st) l
      unit_bytes-Total index (b ∷ bytes) eos st l = send_packet-Total index eos st _ l

      unit_work-Total :
          (index : ℕ) (buffer : InputBuffer) (eos : Bool) (st : DecoderState S K)
          → Low t st.session
          → Total t (unit_work d fuel codec index buffer eos st)
      unfolding unit_work
      unit_work-Total index no_buffer eos st l = conclude_unit-Total t eos false st l
      unit_work-Total index not_linear eos st l = l
      unit_work-Total index (view e bytes) eos st l =
          and_then-Total t (some (st, e)) _ l (unit_bytes-Total index bytes eos)

    config_work-Total :
        (t : ℕ) (codec : BitstreamCodec) (buffer : InputBuffer) (eos : Bool) (st : DecoderState S K)
        → Low t st.session
        → Total t (config_work codec buffer eos st)
    unfolding config_work
    config_work-Total t codec no_buffer eos st l = l
    config_work-Total t codec not_linear eos st l = l
    config_work-Total t codec (view e bytes) eos st l =
        and_then-Total t _ (finish_config eos) (and_then-Total t (some (st, e)) _ l (λ st1 l1. l1))
          (λ st1 l1. l1)

    work_of-Total :
        (t : ℕ) (codec : Option BitstreamCodec) (input : Input) (st : DecoderState S K)
        → t < fuel
        → Low t st.session
        → Total t (work_of d fuel codec input st)
    work_of-Total t none input st enough l =
        unit_work-Total t enough none input.frame_index input.buffer input.flags.end_of_stream st l
    work_of-Total t (some codec) input st enough l =
        if-cases (Total t) input.flags.codec_config _ _
          (λ q. config_work-Total t codec input.buffer input.flags.end_of_stream st l)
          (λ q.
            unit_work-Total t enough (some codec) input.frame_index input.buffer
              input.flags.end_of_stream st l)

    pub process_decoder-Total :
        (t : ℕ) (codec : Option BitstreamCodec) (input : Input) (st : DecoderState S K)
        → t < fuel
        → Low t st.session
        → Total t (process_decoder d fuel codec input st)
    unfolding process_decoder ensure_decoder_session
    process_decoder-Total t codec input st enough l =
        and_then-Total t _ (work_of d fuel codec input)
          (and_then-Total t (ensure_decoder_session d fuel st) _
            (if-cases (Total t) st.decoder_session_pending _ _
              (λ q.
                and_then-Total t (with_session st (d.open_session st.session)) _
                  (low t st.session _ (h.opens st.session) l) (λ st1 l1. l1))
              (λ q. l))
            (λ st1 l1. l1))
          (λ st1 l1. work_of-Total t codec input st1 enough l1)
