-- ===== src/Session/DecoderCapture/Consistent.antt =====
-- What stays true of the slots and the frames that wait, and a slot that is never filled again.
use hardware_floral_codec.Common.{
  ℕ, zero, suc, ◌+◌, ◌%◌, ◌^◌, ◌≡◌, refl, Bool, true, false, not, ◌||◌, ltb, Option, none, some,
  List, [], ◌∷◌, arith, if◌then◌else◌, if-cases, length, replicate, All, All-append,
}
use hardware_floral_codec.DecoderGeometry.{CaptureGeometry, Reply, done, failed}
use hardware_floral_codec.Session.{
  C2Status, c2_ok, c2_blocking, c2_bad_value, c2_bad_state, c2_not_found, c2_no_init, c2_no_memory,
  c2_corrupted, c2_omitted, c2_timed_out, c2_other, Buffer,
}
use hardware_floral_codec.Session.DecoderInput.{dequeue_decoder_inputs}
use hardware_floral_codec.Session.DecoderInput.{Driver as InputDriver}
use hardware_floral_codec.Session.DecoderCapture.{
  DecodedFrame, CaptureSlot, DecoderCapture, Event, event, no_event, Driver, has_block, slot_at,
  with_slot, empty_slot, Step, ◌and_then◌, reset_decoder_capture, allocate, with_geometry,
  begin_with, begin_decoder_capture_setup, fill_slots, stream_on_capture,
  progress_decoder_capture_setup, requested, count_of, minimum_of, set_up, finish_setup,
  decoder_capture_slack, stream_off_capture,
}
use hardware_floral_codec.Session.DecoderCapture.Pump.{
  Pumped, frame_of, take_buffer, event_answered, event_loop, then_progress, handle_decoder_events,
  pump_decoder_capture, with_inputs, after_inputs, after_events, pump_decoder,
}
use hardware_floral_codec.Session.DecoderCapture.Slots.{
  OnStep, OnLoop, Stable, full_slot, and_then-OnStep, and_loop-OnLoop, All-set, refill-OnStep,
  pump_decoder_capture-OnLoop,
}

module _ {K : Type 0} where
  -- A slot is queued exactly if it has a block.
  abbrev pub IsMatched : CaptureSlot K → Type 0
  IsMatched slot = slot.queued ≡ has_block slot.block

  -- A frame has a block or ends the stream.
  abbrev pub HasUse : DecodedFrame K → Type 0
  HasUse f = has_block f.block || f.end_of_stream ≡ true

  pub record IsConsistent (c : DecoderCapture K) : Type 0 where
    pub slots : All IsMatched c.decoder_capture
    pub frames : All HasUse c.decoder_pending

  has_use : (b : Bool) (block : Option K) → has_block block ≡ true → has_block block || b ≡ true
  has_use b block h = ground arith

  taken-frames :
      (b : Buffer) (c : DecoderCapture K)
      → All HasUse c.decoder_pending
      → has_block (slot_at c b.index).block ≡ true
      → All HasUse (take_buffer b c).decoder_pending
  unfolding take_buffer
  taken-frames b c h full =
      if-cases (All HasUse) _ _ _
        (λ keep.
          All-append HasUse c.decoder_pending (frame_of b c ∷ []) h
            (has_use b.last (slot_at c b.index).block full, tt))
        (λ drop. h)

  taken-slots :
      (b : Buffer) (c : DecoderCapture K)
      → All IsMatched c.decoder_capture
      → All IsMatched (take_buffer b c).decoder_capture
  unfolding take_buffer
  taken-slots b c h = All-set IsMatched c.decoder_capture b.index empty_slot h refl

  IsConsistent-Stable : Stable IsConsistent
  IsConsistent-Stable = record {
    taken = λ b c h full. record {
      slots = taken-slots b c h.slots;
      frames = taken-frames b c h.frames full;
    };
    refilled = λ b c block h full. record {
      slots =
          All-set IsMatched (take_buffer b c).decoder_capture b.index (full_slot block)
            (taken-slots b c h.slots) refl;
      frames = taken-frames b c h.frames full;
    };
  }

  filled-IsConsistent :
      (index : ℕ) (block : K) (c : DecoderCapture K)
      → IsConsistent c
      → IsConsistent (with_slot c index (full_slot block))
  filled-IsConsistent index block c h = record {
    slots = All-set IsMatched c.decoder_capture index (full_slot block) h.slots refl;
    frames = h.frames;
  }

replicate-IsMatched : (K : Type 0) (n : ℕ) → All IsMatched (replicate n (empty_slot {K = K}))
replicate-IsMatched K zero = tt
replicate-IsMatched K (suc n) = (refl, replicate-IsMatched K n)

module _ {S K : Type 0} (d : Driver S K) where
  fill_slots-OnStep :
      (n index : ℕ) (s : S) (c : DecoderCapture K)
      → IsConsistent c
      → OnStep IsConsistent (fill_slots d n index s c)
  unfolding fill_slots
  fill_slots-OnStep zero index s c h = h
  fill_slots-OnStep (suc n) index s c h =
      and_then-OnStep IsConsistent _ (fill_slots d n (suc index))
        (if-cases (OnStep IsConsistent) (slot_at c index).queued _ _ (λ queued. h)
          (λ free.
            refill-OnStep d IsConsistent index s c h
              (λ block. filled-IsConsistent index block c h)))
        (fill_slots-OnStep n (suc index))

  stream_on-OnStep :
      (s : S) (c : DecoderCapture K)
      → IsConsistent c
      → OnStep IsConsistent (stream_on_capture d s c)
  stream_on-OnStep s c h =
      if-cases (OnStep IsConsistent) c.capture_streaming _ _ (λ on. h)
        (λ off. record { slots = h.slots; frames = h.frames })

  progress-OnStep :
      (pool : Bool) (s : S) (c : DecoderCapture K)
      → IsConsistent c
      → OnStep IsConsistent (progress_decoder_capture_setup d pool s c)
  unfolding progress_decoder_capture_setup
  progress-OnStep pool s c h =
      if-cases (OnStep {S = S} IsConsistent) (not c.decoder_capture_setup_pending) (s, c, c2_ok)
        (if not pool then (s, c, c2_no_init) else set_up d s c) (λ done. h)
        (λ pending.
          if-cases (OnStep {S = S} IsConsistent) (not pool) (s, c, c2_no_init) (set_up d s c)
            (λ no_pool. h)
            (λ has_pool.
              and_then-OnStep IsConsistent
                (fill_slots d (length c.decoder_capture) 0 s c and_then stream_on_capture d)
                (finish_setup d)
                (and_then-OnStep IsConsistent (fill_slots d (length c.decoder_capture) 0 s c)
                  (stream_on_capture d) (fill_slots-OnStep (length c.decoder_capture) 0 s c h)
                  stream_on-OnStep)
                (λ s' c' h'. record { slots = h'.slots; frames = h'.frames })))

  allocate-OnStep :
      (c : DecoderCapture K) (minimum : ℕ) (r : S × Option ℕ)
      → IsConsistent c
      → OnStep IsConsistent (allocate d c minimum r)
  allocate-OnStep c minimum (s, count) h =
      and_then-OnStep IsConsistent
        (s, c, requested ((minimum + decoder_capture_slack) % 2 ^ 32) count) _ h
        (λ s' c' h'.
          if-cases (OnStep IsConsistent) (ltb (count_of count) minimum) _ _ (λ few. h')
            (λ enough. record {
              slots = replicate-IsMatched K (count_of count);
              frames = h'.frames;
            }))

  begin_with-OnStep :
      (c : DecoderCapture K) (r : S × Reply CaptureGeometry)
      → IsConsistent c
      → OnStep IsConsistent (begin_with d c r)
  begin_with-OnStep c (s, failed e) h = h
  begin_with-OnStep c (s, done g) h =
      allocate-OnStep (with_geometry d g c) (minimum_of (d.min_buffers s).1)
        (d.request_buffers ((minimum_of (d.min_buffers s).1 + decoder_capture_slack) % 2 ^ 32)
          (d.min_buffers s).0)
        (record { slots = h.slots; frames = h.frames })

  stream_off-frames :
      (s : S) (c : DecoderCapture K)
      → All HasUse c.decoder_pending
      → All HasUse (stream_off_capture d s c).1.decoder_pending
  stream_off-frames s c h =
      if-cases (λ (r : S × DecoderCapture K). All HasUse r.1.decoder_pending) c.capture_streaming _
        _ (λ on. h) (λ off. h)

  begin-OnStep :
      (s : S) (c : DecoderCapture K)
      → IsConsistent c
      → OnStep IsConsistent (begin_decoder_capture_setup d s c)
  unfolding begin_decoder_capture_setup reset_decoder_capture
  begin-OnStep s c h =
      begin_with-OnStep (reset_decoder_capture d s c).1 _
        (record { slots = tt; frames = stream_off-frames s c h.frames })

  event_answered-OnLoop :
      (loop : S → DecoderCapture K → Option (Step S K)) (c : DecoderCapture K) (r : S × Event)
      → IsConsistent c
      → ((s : S) (c' : DecoderCapture K) → IsConsistent c' → OnLoop IsConsistent (loop s c'))
      → OnLoop IsConsistent (event_answered d loop c r)
  event_answered-OnLoop loop c (s, no_event e) h k = h
  event_answered-OnLoop loop c (s, event true) h k =
      and_loop-OnLoop IsConsistent (begin_decoder_capture_setup d s c) loop (begin-OnStep s c h) k
  event_answered-OnLoop loop c (s, event false) h k = k s c h

  event_loop-OnLoop :
      (fuel : ℕ) (s : S) (c : DecoderCapture K)
      → IsConsistent c
      → OnLoop IsConsistent (event_loop d fuel s c)
  unfolding event_loop
  event_loop-OnLoop zero s c h = tt
  event_loop-OnLoop (suc fuel) s c h =
      event_answered-OnLoop (event_loop d fuel) c (d.dqevent s) h (event_loop-OnLoop fuel)

  then_progress-OnLoop :
      (pool : Bool) (r : Option (Step S K))
      → OnLoop IsConsistent r
      → OnLoop IsConsistent (then_progress d pool r)
  then_progress-OnLoop pool none h = tt
  then_progress-OnLoop pool (some r) h =
      and_then-OnStep IsConsistent r (progress_decoder_capture_setup d pool) h
        (progress-OnStep pool)

  -- The same behind a pump of the decoder.
  abbrev pub OnPumped : (DecoderCapture K → Type 0) → Option (Pumped S K) → Type 0
  OnPumped P none = Unit
  OnPumped P (some (s, inputs, c, e)) = P c

  with_inputs-OnPumped :
      (inputs : List Bool) (r : Option (Step S K))
      → OnLoop IsConsistent r
      → OnPumped IsConsistent (with_inputs d inputs r)
  with_inputs-OnPumped inputs none h = tt
  with_inputs-OnPumped inputs (some (s, c, e)) h = h

  after_inputs-OnPumped :
      (fuel : ℕ) (waits : Bool) (c : DecoderCapture K) (r : Option (S × List Bool × C2Status))
      → IsConsistent c
      → OnPumped IsConsistent (after_inputs d fuel waits c r)
  after_inputs-OnPumped fuel waits c none h = tt
  after_inputs-OnPumped fuel waits c (some (s, inputs, c2_ok)) h =
      if-cases (OnPumped IsConsistent) waits (some (s, inputs, c, c2_blocking))
        (with_inputs d inputs (pump_decoder_capture d fuel s c)) (λ blocked. h)
        (λ free.
          with_inputs-OnPumped inputs (pump_decoder_capture d fuel s c)
            (pump_decoder_capture-OnLoop d IsConsistent IsConsistent-Stable fuel s c h))
  after_inputs-OnPumped fuel waits c (some (s, inputs, c2_blocking)) h = h
  after_inputs-OnPumped fuel waits c (some (s, inputs, c2_bad_value)) h = h
  after_inputs-OnPumped fuel waits c (some (s, inputs, c2_bad_state)) h = h
  after_inputs-OnPumped fuel waits c (some (s, inputs, c2_not_found)) h = h
  after_inputs-OnPumped fuel waits c (some (s, inputs, c2_no_init)) h = h
  after_inputs-OnPumped fuel waits c (some (s, inputs, c2_no_memory)) h = h
  after_inputs-OnPumped fuel waits c (some (s, inputs, c2_corrupted)) h = h
  after_inputs-OnPumped fuel waits c (some (s, inputs, c2_omitted)) h = h
  after_inputs-OnPumped fuel waits c (some (s, inputs, c2_timed_out)) h = h
  after_inputs-OnPumped fuel waits c (some (s, inputs, (c2_other n))) h = h

  after_events-OnPumped :
      (input : InputDriver S) (fuel : ℕ) (inputs : List Bool) (r : Option (Step S K))
      → OnLoop IsConsistent r
      → OnPumped IsConsistent (after_events d input fuel inputs r)
  after_events-OnPumped input fuel inputs none h = tt
  after_events-OnPumped input fuel inputs (some (s, c, c2_ok)) h =
      after_inputs-OnPumped fuel false c (dequeue_decoder_inputs input fuel s inputs) h
  after_events-OnPumped input fuel inputs (some (s, c, c2_blocking)) h =
      after_inputs-OnPumped fuel true c (dequeue_decoder_inputs input fuel s inputs) h
  after_events-OnPumped input fuel inputs (some (s, c, c2_bad_value)) h = h
  after_events-OnPumped input fuel inputs (some (s, c, c2_bad_state)) h = h
  after_events-OnPumped input fuel inputs (some (s, c, c2_not_found)) h = h
  after_events-OnPumped input fuel inputs (some (s, c, c2_no_init)) h = h
  after_events-OnPumped input fuel inputs (some (s, c, c2_no_memory)) h = h
  after_events-OnPumped input fuel inputs (some (s, c, c2_corrupted)) h = h
  after_events-OnPumped input fuel inputs (some (s, c, c2_omitted)) h = h
  after_events-OnPumped input fuel inputs (some (s, c, c2_timed_out)) h = h
  after_events-OnPumped input fuel inputs (some (s, c, (c2_other n))) h = h

  -- A pump of the decoder, with its events, the setup of the capture queue, and the buffers that
  -- come back, keeps this: a slot is queued exactly if it has a block, and each frame that waits
  -- has a block or ends the stream.
  pub pump_decoder-IsConsistent :
      (input : InputDriver S) (fuel : ℕ) (pool : Bool) (s : S) (inputs : List Bool)
      (c : DecoderCapture K)
      → IsConsistent c
      → OnPumped IsConsistent (pump_decoder d input fuel pool s inputs c)
  unfolding pump_decoder handle_decoder_events
  pump_decoder-IsConsistent input fuel pool s inputs c h =
      after_events-OnPumped input fuel inputs (then_progress d pool (event_loop d fuel s c))
        (then_progress-OnLoop pool (event_loop d fuel s c) (event_loop-OnLoop fuel s c h))
