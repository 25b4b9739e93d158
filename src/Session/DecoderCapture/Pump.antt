-- ===== src/Session/DecoderCapture/Pump.antt =====
-- src/V4l2CodecSession.cpp: the events of a decoder, its decoded buffers, and its frames.
use hardware_floral_codec.Common.{
  ℕ, zero, suc, Bool, true, false, not, ◌&&◌, ◌||◌, Option, none, some, List, [], ◌∷◌, ◌++◌, leb,
  ◌==◌, if◌then◌else◌, length, is_empty,
}
use hardware_floral_codec.EncoderMetadata.{timestamp_to_frame_index}
use hardware_floral_codec.Session.{
  C2Status, c2_ok, c2_blocking, c2_not_found, c2_corrupted, c2_timed_out, Buffer, Dequeued,
  dequeued, dequeue_failed, eagain, epipe,
}
use hardware_floral_codec.Session.DecoderInput.{dequeue_decoder_inputs}
use hardware_floral_codec.Session.DecoderInput.{Driver as InputDriver}
use hardware_floral_codec.Session.DecoderCapture.{
  DecodedFrame, DecoderCapture, Event, event, no_event, Driver, enoent, has_block, slot_at,
  with_slot, empty_slot, Step, ◌and_then◌, begin_decoder_capture_setup,
  progress_decoder_capture_setup, refill_decoder_capture,
}

-- `poll` for the device, behind its interruptions, and `WaitForDevice`.
pub data Polled : Type 0 where
  ready timed_out poll_failed : Polled

abbrev pub wait_for_device : Polled → C2Status
wait_for_device ready = c2_ok
wait_for_device timed_out = c2_timed_out
wait_for_device poll_failed = c2_corrupted

-- The session's slots for packets, and its capture side, behind a call.
abbrev pub Pumped : Type 0 → Type 0 → Type 0
Pumped S K = S × List Bool × DecoderCapture K × C2Status

module _ {S K : Type 0} where
  -- The same in a loop.
  infixl 5 ◌and_loop◌
  abbrev pub ◌and_loop◌ : Step S K → (S → DecoderCapture K → Option (Step S K)) → Option (Step S K)
  (s, c, c2_ok) and_loop loop = loop s c
  (s, c, e) and_loop loop = some (s, c, e)

module _ {K : Type 0} where
  -- The frame of a buffer, with the block of its slot.
  abbrev pub frame_of : Buffer → DecoderCapture K → DecodedFrame K
  frame_of b c = record {
    block = (slot_at c b.index).block;
    frame_index = timestamp_to_frame_index b.timestamp;
    width = c.visible_width;
    height = c.visible_height;
    crop_left = c.decoder_visible_left;
    crop_top = c.decoder_visible_top;
    end_of_stream = b.last;
  }

  -- The block leaves its slot, and the frame waits if it has bytes or ends the stream.
  unfoldable pub take_buffer : Buffer → DecoderCapture K → DecoderCapture K
  take_buffer b c = record (with_slot c b.index empty_slot) {
    decoder_pending =
        if not (b.bytesused == 0) || b.last
        then c.decoder_pending ++ (frame_of b c ∷ [])
        else c.decoder_pending;
  }

  -- What VIDIOC_DQBUF's errno comes to.
  abbrev pub dequeue_status : DecoderCapture K → ℕ → C2Status
  dequeue_status c e = if e == eagain || (e == epipe && c.draining) then c2_ok else c2_corrupted

module _ {S K : Type 0} (d : Driver S K) where
  -- A round of the loop of `HandleDecoderEvents`.
  abbrev pub event_answered :
      (S → DecoderCapture K → Option (Step S K)) → DecoderCapture K → S × Event → Option (Step S K)
  event_answered loop c (s, no_event e) =
      some (s, c, if e == enoent || e == eagain then c2_ok else c2_corrupted)
  event_answered loop c (s, event change) =
      (if change then begin_decoder_capture_setup d s c else (s, c, c2_ok)) and_loop loop

  -- The loop; `none`: out of fuel.
  unfoldable pub event_loop : ℕ → S → DecoderCapture K → Option (Step S K)
  unfolding begin_decoder_capture_setup
  event_loop zero s c = none
  event_loop (suc fuel) s c = event_answered (event_loop fuel) c (d.dqevent s)

  abbrev pub then_progress : Bool → Option (Step S K) → Option (Step S K)
  then_progress pool none = none
  then_progress pool (some r) = some (r and_then progress_decoder_capture_setup d pool)

  -- `HandleDecoderEvents`.
  unfoldable pub handle_decoder_events : ℕ → Bool → S → DecoderCapture K → Option (Step S K)
  unfolding event_loop progress_decoder_capture_setup
  handle_decoder_events fuel pool s c = then_progress pool (event_loop fuel s c)

  -- A round of the loop of `PumpDecoderCapture`.
  unfoldable pub handle_decoded : Buffer → S → DecoderCapture K → Step S K
  unfolding take_buffer refill_decoder_capture
  handle_decoded b s c =
      if leb (length c.decoder_capture) b.index || not (has_block (slot_at c b.index).block)
      then (s, c, c2_corrupted)
      else if b.last
      then (s, take_buffer b c, c2_ok)
      else refill_decoder_capture d b.index s (take_buffer b c)

  abbrev pub buffer_answered :
      (S → DecoderCapture K → Option (Step S K))
      → DecoderCapture K
      → S × Dequeued
      → Option (Step S K)
  buffer_answered loop c (s, dequeue_failed e) = some (s, c, dequeue_status c e)
  buffer_answered loop c (s, dequeued b) = handle_decoded b s c and_loop loop

  unfoldable pub capture_loop : ℕ → S → DecoderCapture K → Option (Step S K)
  unfolding handle_decoded
  capture_loop zero s c = none
  capture_loop (suc fuel) s c = buffer_answered (capture_loop fuel) c (d.dqbuf s)

  -- `PumpDecoderCapture`.
  unfoldable pub pump_decoder_capture : ℕ → S → DecoderCapture K → Option (Step S K)
  unfolding capture_loop
  pump_decoder_capture fuel s c =
      if c.decoder_capture_configured then capture_loop fuel s c else some (s, c, c2_ok)

  abbrev pub with_inputs : List Bool → Option (Step S K) → Option (Pumped S K)
  with_inputs inputs none = none
  with_inputs inputs (some (s, c, e)) = some (s, inputs, c, e)

  -- What follows the inputs in `PumpDecoder`, given whether the events had to wait.
  abbrev pub after_inputs :
      ℕ → Bool → DecoderCapture K → Option (S × List Bool × C2Status) → Option (Pumped S K)
  after_inputs fuel waits c none = none
  after_inputs fuel waits c (some (s, inputs, c2_ok)) =
      if waits
      then some (s, inputs, c, c2_blocking)
      else with_inputs inputs (pump_decoder_capture fuel s c)
  after_inputs fuel waits c (some (s, inputs, e)) = some (s, inputs, c, e)

  abbrev pub after_events : InputDriver S → ℕ → List Bool → Option (Step S K) → Option (Pumped S K)
  after_events input fuel inputs none = none
  after_events input fuel inputs (some (s, c, c2_ok)) =
      after_inputs fuel false c (dequeue_decoder_inputs input fuel s inputs)
  after_events input fuel inputs (some (s, c, c2_blocking)) =
      after_inputs fuel true c (dequeue_decoder_inputs input fuel s inputs)
  after_events input fuel inputs (some (s, c, e)) = some (s, inputs, c, e)

  -- `PumpDecoder`.
  unfoldable pub pump_decoder :
      InputDriver S → ℕ → Bool → S → List Bool → DecoderCapture K → Option (Pumped S K)
  unfolding handle_decoder_events pump_decoder_capture dequeue_decoder_inputs
  pump_decoder input fuel pool s inputs c =
      after_events input fuel inputs (handle_decoder_events fuel pool s c)

  -- The end of `DequeueDecoderFrame`: the first frame that waits.
  abbrev pub take_pending :
      S
      → List Bool
      → DecoderCapture K
      → C2Status
      → List (DecodedFrame K)
      → Pumped S K × Option (DecodedFrame K)
  take_pending s inputs c c2_blocking [] = ((s, inputs, c, c2_blocking), none)
  take_pending s inputs c e [] = ((s, inputs, c, c2_not_found), none)
  take_pending s inputs c e (f ∷ frames) =
      ((s, inputs, record c { decoder_pending = frames }, c2_ok), some f)

  abbrev pub hand_out_frame : Option (Pumped S K) → Option (Pumped S K × Option (DecodedFrame K))
  hand_out_frame none = none
  hand_out_frame (some (s, inputs, c, c2_ok)) =
      some (take_pending s inputs c c2_ok c.decoder_pending)
  hand_out_frame (some (s, inputs, c, c2_blocking)) =
      some (take_pending s inputs c c2_blocking c.decoder_pending)
  hand_out_frame (some (s, inputs, c, e)) = some ((s, inputs, c, e), none)

  abbrev pub pump_again :
      (S → List Bool → DecoderCapture K → Option (Pumped S K))
      → List Bool
      → DecoderCapture K
      → S × Polled
      → Option (Pumped S K)
  pump_again pump inputs c (s, ready) = pump s inputs c
  pump_again pump inputs c (s, p) = some (s, inputs, c, wait_for_device p)

  -- A wait for the device where the caller asks for it and no frame waits.
  abbrev pub wait_for_frame :
      (S → S × Polled)
      → Bool
      → (S → List Bool → DecoderCapture K → Option (Pumped S K))
      → Option (Pumped S K)
      → Option (Pumped S K)
  wait_for_frame device wait pump (some (s, inputs, c, c2_ok)) =
      if is_empty c.decoder_pending && wait
      then pump_again pump inputs c (device s)
      else some (s, inputs, c, c2_ok)
  wait_for_frame device wait pump (some (s, inputs, c, c2_blocking)) =
      if is_empty c.decoder_pending && wait
      then pump_again pump inputs c (device s)
      else some (s, inputs, c, c2_blocking)
  wait_for_frame device wait pump r = r

  -- `DequeueDecoderFrame` with an output that is not null; `device` polls.
  unfoldable pub dequeue_decoder_frame :
      InputDriver S
      → (S → S × Polled)
      → ℕ
      → Bool
      → Bool
      → S
      → List Bool
      → DecoderCapture K
      → Option (Pumped S K × Option (DecodedFrame K))
  unfolding pump_decoder
  dequeue_decoder_frame input device fuel pool wait s inputs c = hand_out_frame (
      wait_for_frame device wait (pump_decoder input fuel pool)
        (pump_decoder input fuel pool s inputs c))

  -- `StartDecoderDrain`; a stream without a packet ends with an empty frame.
  abbrev pub last_frame : DecodedFrame K
  last_frame = record {
    block = none;
    frame_index = 0;
    width = 0;
    height = 0;
    crop_left = 0;
    crop_top = 0;
    end_of_stream = true;
  }

  unfoldable pub start_decoder_drain : S → DecoderCapture K → Step S K
  start_decoder_drain s c =
      let (s', stopped) = d.stop_decoder s in
      if c.draining
      then (s, c, c2_ok)
      else if not c.decoder_received_input
      then (
        s,
        record c { decoder_pending = c.decoder_pending ++ (last_frame ∷ []); draining = true },
        c2_ok,
      )
      else if stopped
      then (s', record c { draining = true }, c2_ok)
      else (s', c, c2_corrupted)
