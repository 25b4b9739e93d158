-- ===== src/Session/Examples.antt =====
-- A driver with one encoded frame, and one with a slot for a packet.
use hardware_floral_codec.Common.{
  ℕ, suc, ◌≤◌, ◌<◌, ◌≡◌, refl, Bool, true, false, some, List, [], ◌∷◌, length,
}
use hardware_floral_codec.Common.Int.{pos}
use hardware_floral_codec.EncoderMetadata.{Timeval, timeval, metadata, take_encoder_frame_index}
use hardware_floral_codec.Session.{c2_ok, Buffer, Dequeued, dequeued, dequeue_failed, eagain}
use hardware_floral_codec.Session.EncoderOutput.{
  PendingEncoderFrame, EncoderOutput, mapped, pump_encoder_capture, copy_encoder_frame,
  handle_buffer,
}
use hardware_floral_codec.Session.EncoderOutput.Frames.{IsCopied, copy_encoder_frame-IsCopied}
use hardware_floral_codec.Session.DecoderInput.{
  DecoderInput, free_slot, dequeue_decoder_inputs, queue_decoder_packet,
}
use hardware_floral_codec.Session.DecoderInput.Slots.{IsQueued, queue_decoder_packet-IsQueued}
use hardware_floral_codec.Session.EncoderOutput.{Driver as EncoderDriver}
use hardware_floral_codec.Session.DecoderInput.{Driver as DecoderDriver}

abbrev stamp : Timeval
stamp = timeval (pos 0) (pos 33_333)

abbrev one_buffer : Buffer
one_buffer = record {
  index = 0;
  bytesused = 4;
  data_offset = 1;
  timestamp = stamp;
  key_frame = true;
  last = false;
}

-- The state is whether the buffer is still there.
abbrev answer : Bool → Bool × Dequeued
answer true = (false, dequeued one_buffer)
answer false = (false, dequeue_failed eagain)

abbrev encoder : EncoderDriver Bool
encoder = record { dqbuf = answer; qbuf = λ index s. (s, true); stop_encoder = λ s. (s, true) }

abbrev before : EncoderOutput
before = record {
  capture_mmaps = (9 ∷ 7 ∷ 8 ∷ 6 ∷ []) ∷ [];
  encoder_frame_metadata = metadata stamp 3 ∷ [];
  encoder_pending = [];
  draining = false;
  encoder_configured = true;
}

abbrev waiting : PendingEncoderFrame
waiting = record {
  size = 3;
  frame_index = 3;
  key_frame = true;
  end_of_stream = false;
  capture_index = 0;
  data_offset = 1;
}

abbrev after : EncoderOutput
after = record before { encoder_frame_metadata = []; encoder_pending = waiting ∷ [] }

pump_run : pump_encoder_capture encoder 2 true before ≡ some (false, after, c2_ok)
unfolding pump_encoder_capture handle_buffer take_encoder_frame_index
pump_run = refl

copy_encoder_frame-IsCopied_example :
    IsCopied waiting [] after
      (copy_encoder_frame encoder (λ size. mapped size) (waiting ∷ []) false after)
copy_encoder_frame-IsCopied_example =
    copy_encoder_frame-IsCopied encoder (λ size. mapped size) waiting [] false after

abbrev decoder : DecoderDriver ℕ
decoder = record {
  dqbuf = λ s. (s, dequeue_failed eagain);
  qbuf = λ index size timestamp s. (suc s, true);
}

abbrev slots_before : DecoderInput
slots_before = record {
  decoder_inputs = true ∷ false ∷ [];
  output_mmaps = (0 ∷ 0 ∷ []) ∷ (0 ∷ 0 ∷ []) ∷ [];
  coded_size = 2;
  decoder_received_input = false;
}

abbrev slots_after : DecoderInput
slots_after = record {
  decoder_inputs = true ∷ true ∷ [];
  output_mmaps = (0 ∷ 0 ∷ []) ∷ (5 ∷ 0 ∷ []) ∷ [];
  coded_size = 2;
  decoder_received_input = true;
}

abbrev packet : List ℕ
packet = 5 ∷ []

packet_run : queue_decoder_packet decoder 1 packet 7 0 slots_before ≡ some (1, slots_after, c2_ok)
unfolding queue_decoder_packet free_slot
packet_run = refl

queue_decoder_packet-IsQueued_example :
    (0 < length packet)
    × (length packet ≤ slots_before.coded_size)
    × (s1 : ℕ) × (slots : List Bool) × (dequeue_decoder_inputs decoder 1 0
          slots_before.decoder_inputs
        ≡ some (s1, slots, c2_ok))
    × IsQueued packet slots slots_before slots_after
queue_decoder_packet-IsQueued_example =
    queue_decoder_packet-IsQueued decoder 1 packet 7 0 1 slots_before slots_after packet_run
