-- ===== src/Session/EncoderFrames.antt =====
-- src/V4l2CodecSession.cpp: how an encoder gives images back, and gives frames.
pub mod Taken
pub mod Room
pub mod Kept
pub mod Settled
mod Examples
use hardware_floral_codec.Common.{
  ℕ, zero, suc, Bool, true, false, not, ◌&&◌, ◌||◌, Option, none, some, List, [], ◌∷◌, leb, ◌==◌,
  if◌then◌else◌, length, is_empty, get_or, set,
}
use hardware_floral_codec.Session.{
  C2Status, c2_ok, c2_blocking, c2_not_found, c2_corrupted, c2_timed_out, Dequeued, dequeued,
  dequeue_failed, eagain,
}
use hardware_floral_codec.Session.EncoderOutput.{
  EncoderOutput, Allocation, EncodedFrame, pump_encoder_capture, copy_encoder_frame,
}
use hardware_floral_codec.Session.EncoderOutput.{Driver as CaptureDriver}

-- `EncoderInputSlot`, over the types of a buffer and of a block.
pub record EncoderInputSlot (B G : Type 0) : Type 0 where
  pub owner : Option B
  pub converted_block : Option G
  pub queued : Bool

-- What poll comes to: a 0, a positive number, EINTR or any other errno.
pub data Polled : Type 0 where
  nothing ready interrupted poll_failed : Polled

-- The calls on the capture queue, VIDIOC_DQBUF on the output queue, and poll for POLLIN, with
-- POLLOUT or without, and its milliseconds.
pub record Driver (S : Type 0) : Type 0 where
  pub capture : CaptureDriver S
  pub dqbuf_input : S → S × Dequeued
  pub poll : Bool → ℕ → S → S × Polled

-- The members of the session on both queues.
pub record EncoderQueues (B G : Type 0) : Type 0 where
  pub output : EncoderOutput
  pub encoder_inputs : List (EncoderInputSlot B G)

module _ {B G : Type 0} where
  -- A slot whose image the driver has given back.
  abbrev pub released : EncoderInputSlot B G
  released = record { owner = none; converted_block = none; queued = false }

module _ {S B G : Type 0} where
  -- A round of the loop of `DequeueEncoderInputs`; `loop` is the rounds behind it.
  abbrev pub input_answered :
      (S → List (EncoderInputSlot B G) → Option (S × List (EncoderInputSlot B G) × C2Status))
      → List (EncoderInputSlot B G)
      → S × Dequeued
      → Option (S × List (EncoderInputSlot B G) × C2Status)
  input_answered loop slots (s, dequeue_failed e) =
      some (s, slots, if e == eagain then c2_ok else c2_corrupted)
  input_answered loop slots (s, dequeued b) =
      if leb (length slots) b.index
      then some (s, slots, c2_corrupted)
      else loop s (set slots b.index released)

module _ {S : Type 0} (d : Driver S) where
  -- `DequeueEncoderInputs`; `none`: out of fuel.
  unfoldable pub dequeue_encoder_inputs :
      {B G : Type 0}
      → ℕ
      → S
      → List (EncoderInputSlot B G)
      → Option (S × List (EncoderInputSlot B G) × C2Status)
  dequeue_encoder_inputs zero s slots = none
  dequeue_encoder_inputs (suc fuel) s slots =
      input_answered (dequeue_encoder_inputs fuel) slots (d.dqbuf_input s)

  abbrev pub polled : (S → Option (S × C2Status)) → S × Polled → Option (S × C2Status)
  polled again (s, nothing) = some (s, c2_timed_out)
  polled again (s, ready) = some (s, c2_ok)
  polled again (s, interrupted) = again s
  polled again (s, poll_failed) = some (s, c2_corrupted)

  -- `WaitForDevice`: poll once more behind an EINTR; `none`: out of fuel.
  unfoldable pub wait_for_device : Bool → ℕ → ℕ → S → Option (S × C2Status)
  wait_for_device out timeout zero s = none
  wait_for_device out timeout (suc fuel) s =
      polled (wait_for_device out timeout fuel) (d.poll out timeout s)

-- What a call on the queues comes to, `none` out of fuel; and one that may give a frame.
abbrev pub Pumped : Type 0 → Type 0 → Type 0 → Type 0
Pumped S B G = Option (S × EncoderQueues B G × C2Status)

abbrev pub Frame : Type 0 → Type 0 → Type 0 → Type 0
Frame S B G = Option (S × EncoderQueues B G × C2Status × Option EncodedFrame)

module _ {S B G : Type 0} where
  abbrev pub no_frame : S → EncoderQueues B G → C2Status → Frame S B G
  no_frame s m e = some (s, m, e, none)

  -- `if (result != C2_OK) return result`, where `stop` is what such a return gives.
  abbrev pub and_ok :
      {X : Type 0}
      → (S → EncoderQueues B G → C2Status → Option X)
      → Pumped S B G
      → (S → EncoderQueues B G → Option X)
      → Option X
  and_ok stop none next = none
  and_ok stop (some (s, m, c2_ok)) next = next s m
  and_ok stop (some (s, m, e)) next = stop s m e

  abbrev pub with_inputs :
      EncoderQueues B G → Option (S × List (EncoderInputSlot B G) × C2Status) → Pumped S B G
  with_inputs m none = none
  with_inputs m (some (s, slots, e)) = some (s, record m { encoder_inputs = slots }, e)

  abbrev pub with_output : EncoderQueues B G → Option (S × EncoderOutput × C2Status) → Pumped S B G
  with_output m none = none
  with_output m (some (s, o, e)) = some (s, record m { output = o }, e)

  abbrev pub waited : EncoderQueues B G → Option (S × C2Status) → Pumped S B G
  waited m none = none
  waited m (some (s, e)) = some (s, m, e)

  abbrev pub copied :
      EncoderQueues B G → S × EncoderOutput × C2Status × Option EncodedFrame → Frame S B G
  copied m (s, o, e, f) = some (s, record m { output = o }, e, f)

module _ {S B G : Type 0} (d : Driver S) (fuel : ℕ) where
  -- `PumpEncoder`.
  unfoldable pub pump_encoder : S → EncoderQueues B G → Pumped S B G
  unfolding dequeue_encoder_inputs
  pump_encoder s m =
      and_ok (λ s' m' e. some (s', m', e))
        (with_inputs m (dequeue_encoder_inputs d fuel s m.encoder_inputs))
        (λ s1 m1. with_output m1 (pump_encoder_capture d.capture fuel s1 m1.output))

  -- `CopyEncoderFrame`, or C2_NOT_FOUND where no frame waits.
  abbrev pub copy_first : (ℕ → Allocation) → S → EncoderQueues B G → Frame S B G
  copy_first allocate s m =
      copied m (copy_encoder_frame d.capture allocate m.output.encoder_pending s m.output)

  -- The wait for a frame, where the first pump gave none.
  unfoldable pub wait_and_copy : (ℕ → Allocation) → S → EncoderQueues B G → Frame S B G
  unfolding pump_encoder wait_for_device
  wait_and_copy allocate s m =
      and_ok no_frame (waited m (wait_for_device d true 5_000 fuel s))
        (λ s1 m1. and_ok no_frame (pump_encoder s1 m1) (copy_first allocate))

  -- `DequeueEncoderFrame` with an output that is not null; the monitor's error is read once.
  unfoldable pub dequeue_encoder_frame :
      ℕ → (ℕ → Allocation) → Bool → S → EncoderQueues B G → Frame S B G
  unfolding wait_and_copy
  dequeue_encoder_frame monitor_error allocate wait s m =
      if not (monitor_error == 0)
      then no_frame s m c2_corrupted
      else if not (is_empty m.output.encoder_pending)
      then copy_first allocate s m
      else if not m.output.encoder_configured
      then no_frame s m c2_not_found
      else and_ok no_frame (pump_encoder s m) (λ s1 m1.
        if is_empty m1.output.encoder_pending && wait
        then wait_and_copy allocate s1 m1
        else copy_first allocate s1 m1)

module _ {B G : Type 0} where
  -- `std::find_if` for a slot that is not queued: its index, or the number of slots.
  unfoldable pub free_input : List (EncoderInputSlot B G) → ℕ
  free_input [] = 0
  free_input (x ∷ xs) = let later = suc (free_input xs) in if x.queued then later else 0

  -- The driver has as many images as there are slots.
  abbrev pub has_all_frames : EncoderQueues B G → Bool
  has_all_frames m = leb (length m.encoder_inputs) (length m.output.encoder_frame_metadata)

  abbrev pub is_full : EncoderQueues B G → Bool
  is_full m = leb (length m.encoder_inputs) (free_input m.encoder_inputs) || has_all_frames m

-- The slot for a new image, if there is one.
abbrev pub Room : Type 0 → Type 0 → Type 0 → Type 0
Room S B G = Option (S × EncoderQueues B G × C2Status × Option ℕ)

module _ {S B G : Type 0} (d : Driver S) (fuel : ℕ) where
  abbrev pub no_room : S → EncoderQueues B G → C2Status → Room S B G
  no_room s m e = some (s, m, e, none)

  abbrev pub free_room : S → EncoderQueues B G → Room S B G
  free_room s m = some (s, m, c2_ok, some (free_input m.encoder_inputs))

  -- `QueueEncoderFrame` on a configured encoder, up to the fence of its image.
  unfoldable pub find_room : S → EncoderQueues B G → Room S B G
  unfolding pump_encoder wait_for_device
  find_room s m = and_ok no_room (pump_encoder d fuel s m) (λ s1 m1.
      if not (is_full m1)
      then free_room s1 m1
      else if not (is_empty m1.output.encoder_pending)
      then no_room s1 m1 c2_blocking
      else and_ok no_room (waited m1 (wait_for_device d (not (has_all_frames m1)) 20 fuel s1))
          (λ s2 m2.
            and_ok no_room (pump_encoder d fuel s2 m2)
              (λ s3 m3. if is_full m3 then no_room s3 m3 c2_blocking else free_room s3 m3)))
