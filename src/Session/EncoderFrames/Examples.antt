-- ===== src/Session/EncoderFrames/Examples.antt =====
-- An encoder with one encoded frame to give, and an input that the driver gives back.
use hardware_floral_codec.Common.{ℕ, ◌≡◌, ◌≢◌, refl, Bool, arith, true, false, none, some, [], ◌∷◌}
use hardware_floral_codec.Common.Int.{pos}
use hardware_floral_codec.EncoderMetadata.{Timeval, timeval, metadata, take_encoder_frame_index}
use hardware_floral_codec.Session.{
  c2_ok, c2_timed_out, Buffer, Dequeued, dequeued, dequeue_failed, eagain,
}
use hardware_floral_codec.Session.EncoderOutput.{
  mapped, EncodedFrame, pump_encoder_capture, copy_encoder_frame, handle_buffer,
}
use hardware_floral_codec.Session.EncoderFrames.{
  EncoderInputSlot, Driver, nothing, ready, interrupted, EncoderQueues, released,
  dequeue_encoder_frame, find_room, free_input,
}
use hardware_floral_codec.Session.EncoderFrames.Settled.{
  Settles, OnDequeued, OnPolled, dequeue_encoder_frame-Returns,
}
use hardware_floral_codec.Session.EncoderFrames.Taken.{
  IsSound, IsTaken, dequeue_encoder_frame-IsTaken,
}

abbrev stamp : Timeval
stamp = timeval (pos 0) (pos 33_333)

abbrev buffer : Buffer
buffer = record {
  index = 0;
  bytesused = 4;
  data_offset = 1;
  timestamp = stamp;
  key_frame = true;
  last = false;
}

-- The encoder is at work; an interrupt comes first; then its frame and its input are ready, and
-- they are dequeued, the input first.
data Phase : Type 0 where
  working signalled both frame_only idle : Phase

abbrev give_input : Phase → Phase × Dequeued
give_input both = (frame_only, dequeued buffer)
give_input p = (p, dequeue_failed eagain)

abbrev give_frame : Phase → Phase × Dequeued
give_frame frame_only = (idle, dequeued buffer)
give_frame p = (p, dequeue_failed eagain)

abbrev driver : Driver Phase
driver = record {
  capture = record {
    dqbuf = give_frame;
    qbuf = λ index s. (s, true);
    stop_encoder = λ s. (s, true);
  };
  dqbuf_input = give_input;
  poll = λ out timeout s. elim s [
    | working ↦ (signalled, interrupted)
    | signalled ↦ (both, ready)
    | both ↦ (both, ready)
    | frame_only ↦ (frame_only, ready)
    | idle ↦ (idle, nothing)
  ];
}

abbrev held : EncoderInputSlot ℕ ℕ
held = record { owner = some 5; converted_block = none; queued = true }

abbrev before : EncoderQueues ℕ ℕ
before = record {
  output = record {
    capture_mmaps = (9 ∷ 7 ∷ 8 ∷ 6 ∷ []) ∷ [];
    encoder_frame_metadata = metadata stamp 3 ∷ [];
    encoder_pending = [];
    draining = false;
    encoder_configured = true;
  };
  encoder_inputs = held ∷ [];
}

abbrev after : EncoderQueues ℕ ℕ
after = record {
  output = record before.output { encoder_frame_metadata = [] };
  encoder_inputs = released ∷ [];
}

abbrev given : EncodedFrame
given = record {
  frame = record {
    size = 3;
    frame_index = 3;
    key_frame = true;
    end_of_stream = false;
    capture_index = 0;
    data_offset = 1;
  };
  block = some (7 ∷ 8 ∷ 6 ∷ []);
}

frame_run :
    dequeue_encoder_frame driver 2 0 (λ size. mapped size) true working before
    ≡ some (idle, after, c2_ok, some given)
unfolding dequeue_encoder_frame pump_encoder_capture copy_encoder_frame handle_buffer
    take_encoder_frame_index
frame_run = refl

before-IsSound : IsSound before
before-IsSound = record { frames = tt; slots = ((λ h. absurd (cc)), tt) }

dequeue_encoder_frame-IsTaken_example : IsSound after × IsTaken before after c2_ok (some given)
dequeue_encoder_frame-IsTaken_example =
    dequeue_encoder_frame-IsTaken driver 2 0 (λ size. mapped size) true working idle before after
      c2_ok (some given) before-IsSound frame_run

-- An encoder that stays idle times out.
timeout_run :
    dequeue_encoder_frame driver 2 0 (λ size. mapped size) true idle before
    ≡ some (idle, before, c2_timed_out, none)
unfolding dequeue_encoder_frame pump_encoder_capture
timeout_run = refl

abbrev with_room : EncoderQueues ℕ ℕ
with_room = record {
  output = record after.output { encoder_pending = given.frame ∷ [] };
  encoder_inputs = released ∷ [];
}

room_run : find_room driver 2 working before ≡ some (idle, with_room, c2_ok, some 0)
unfolding find_room free_input pump_encoder_capture handle_buffer take_encoder_frame_index
room_run = refl

-- How many answers are left.
abbrev work : Phase → ℕ
work working = 3
work signalled = 2
work both = 2
work frame_only = 1
work idle = 0

input_settles : (p : Phase) → OnDequeued work (work p) (give_input p)
input_settles working = omega arith
input_settles signalled = omega arith
input_settles both = omega arith
input_settles frame_only = omega arith
input_settles idle = omega arith

frame_settles : (p : Phase) → OnDequeued work (work p) (give_frame p)
frame_settles working = omega arith
frame_settles signalled = omega arith
frame_settles both = omega arith
frame_settles frame_only = omega arith
frame_settles idle = omega arith

poll_settles :
    (out : Bool) (timeout : ℕ) (p : Phase) → OnPolled work (work p) (driver.poll out timeout p)
poll_settles out timeout working = omega arith
poll_settles out timeout signalled = omega arith
poll_settles out timeout both = omega arith
poll_settles out timeout frame_only = omega arith
poll_settles out timeout idle = omega arith

settles : Settles work driver
settles = record {
  dqbuf = frame_settles;
  qbuf = λ index p. omega arith;
  dqbuf_input = input_settles;
  poll = poll_settles;
}

dequeue_encoder_frame-Returns_example :
    dequeue_encoder_frame driver 4 0 (λ size. mapped size) true working before ≢ none
dequeue_encoder_frame-Returns_example =
    dequeue_encoder_frame-Returns work driver settles 4 0 (λ size. mapped size) true working before
      (omega arith)
