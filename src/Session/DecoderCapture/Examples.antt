-- ===== src/Session/DecoderCapture/Examples.antt =====
-- A capture queue of two slots, and a driver that gives back the first buffer.
use hardware_floral_codec.Common.{ℕ, ◌≡◌, refl, Bool, true, false, none, some, List, [], ◌∷◌}
use hardware_floral_codec.Common.Int.{pos}
use hardware_floral_codec.EncoderMetadata.{timeval, timestamp_to_frame_index}
use hardware_floral_codec.DecoderGeometry.{failed}
use hardware_floral_codec.DecoderGeometry.{Driver as GeometryDriver}
use hardware_floral_codec.Session.{
  c2_ok, c2_blocking, Buffer, Dequeued, dequeued, dequeue_failed, eagain,
}
use hardware_floral_codec.Session.DecoderInput.{Driver as InputDriver}
use hardware_floral_codec.Session.DecoderCapture.{
  DecodedFrame, CaptureSlot, DecoderCapture, no_event, not_fetched, Driver, enoent, empty_slot,
  progress_decoder_capture_setup, refill_decoder_capture,
}
use hardware_floral_codec.Session.DecoderCapture.Pump.{
  take_buffer, handle_decoded, capture_loop, pump_decoder_capture, pump_decoder,
}
use hardware_floral_codec.Session.DecoderCapture.Slots.{OnLoop}
use hardware_floral_codec.Session.DecoderCapture.Consistent.{
  IsConsistent, OnPumped, pump_decoder-IsConsistent,
}
use hardware_floral_codec.Session.DecoderCapture.Lost.{IsLost, pump_decoder_capture-IsLost}

abbrev no_geometry : GeometryDriver Bool
no_geometry = record {
  g_fmt = λ s. (s, failed 22);
  g_selection = λ target s. (s, failed 22);
  s_fmt = λ format s. (s, failed 22);
}

abbrev first_buffer : Buffer
first_buffer = record {
  index = 0;
  bytesused = 6;
  data_offset = 0;
  timestamp = timeval (pos 0) (pos 4);
  key_frame = false;
  last = false;
}

abbrev answer : Bool → Bool × Dequeued
answer true = (false, dequeued first_buffer)
answer false = (false, dequeue_failed eagain)

-- The state is whether the buffer is still to come; the pool has no block.
abbrev driver : Driver Bool ℕ
driver = record {
  geometry = no_geometry;
  min_buffers = λ s. (s, none);
  request_buffers = λ n s. (s, some n);
  stream_on = λ s. (s, true);
  stream_off = λ s. (s, true);
  dqevent = λ s. (s, no_event enoent);
  dqbuf = answer;
  qbuf = λ index fd size s. (s, true);
  stop_decoder = λ s. (s, true);
  fetch_block = λ width height s. (s, not_fetched c2_blocking);
  handle_of = λ block. none;
  same_inode = λ first second. false;
  handle_size = 12;
  drv_max_fds = 4;
}

abbrev inputs : InputDriver Bool
inputs = record {
  dqbuf = λ s. (s, dequeue_failed eagain);
  qbuf = λ index size timestamp s. (s, true);
}

abbrev queued_slot : ℕ → CaptureSlot ℕ
queued_slot block = record { block = some block; queued = true }

abbrev capture : List (CaptureSlot ℕ) → List (DecodedFrame ℕ) → DecoderCapture ℕ
capture slots frames = record {
  decoder_capture = slots;
  decoder_pending = frames;
  decoder_capture_configured = true;
  decoder_capture_setup_pending = false;
  capture_streaming = true;
  draining = false;
  decoder_received_input = true;
  capture_width = 64;
  capture_height = 64;
  raw_stride = 64;
  raw_size = 6_144;
  visible_width = 64;
  visible_height = 48;
  decoder_visible_left = 0;
  decoder_visible_top = 0;
}

abbrev full_queue : DecoderCapture ℕ
full_queue = capture (queued_slot 7 ∷ queued_slot 8 ∷ []) []

abbrev first_frame : DecodedFrame ℕ
first_frame = record {
  block = some 7;
  frame_index = 4;
  width = 64;
  height = 48;
  crop_left = 0;
  crop_top = 0;
  end_of_stream = false;
}

-- The pool blocks, so the first slot has lost its block.
abbrev lost_queue : DecoderCapture ℕ
lost_queue = capture (empty_slot ∷ queued_slot 8 ∷ []) (first_frame ∷ [])

lost_run : pump_decoder_capture driver 3 true full_queue ≡ some (false, lost_queue, c2_blocking)
unfolding pump_decoder_capture capture_loop handle_decoded take_buffer refill_decoder_capture
    timestamp_to_frame_index
lost_run = refl

pump_decoder_capture-IsLost_example :
    (progress_decoder_capture_setup driver true false lost_queue ≡ (false, lost_queue, c2_ok))
    × OnLoop (IsLost 0) (pump_decoder_capture driver 3 false lost_queue)
pump_decoder_capture-IsLost_example =
    pump_decoder_capture-IsLost driver 3 0 true false lost_queue
      (record { no_block = refl; no_setup = refl })

pump_decoder-IsConsistent_example :
    OnPumped driver IsConsistent (pump_decoder driver inputs 3 true true (false ∷ []) full_queue)
pump_decoder-IsConsistent_example =
    pump_decoder-IsConsistent driver inputs 3 true true (false ∷ []) full_queue
      (record { slots = (refl, (refl, tt)); frames = tt })
