-- ===== src/Session/EncoderOutput.antt =====
-- src/V4l2CodecSession.cpp: encoded frames, from the capture queue to a Codec2 block.
pub mod Frames
use hardware_floral_codec.Common.{
  ℕ, zero, suc, ◌+◌, ◌-◌, Bool, true, false, not, ◌&&◌, ◌||◌, Option, none, some, List, [], ◌∷◌,
  ◌++◌, ltb, leb, ◌==◌, if◌then◌else◌, length, is_empty, get_or, take, drop,
}
use hardware_floral_codec.EncoderMetadata.{FrameMetadata, take_encoder_frame_index}
use hardware_floral_codec.Session.{
  C2Status, c2_ok, c2_not_found, c2_no_init, c2_bad_value, c2_corrupted, Buffer, Dequeued, dequeued,
  dequeue_failed, eagain, epipe,
}

-- `PendingEncoderFrame`, with the fields of its `V4l2EncodedFrame` but the block.
pub record PendingEncoderFrame : Type 0 where
  pub size : ℕ
  pub frame_index : ℕ
  pub key_frame : Bool
  pub end_of_stream : Bool
  pub capture_index : ℕ
  pub data_offset : ℕ

-- The members of the session: the bytes of the mapped capture buffers, the frames that the driver
-- holds, and the encoded frames that wait.
pub record EncoderOutput : Type 0 where
  pub capture_mmaps : List (List ℕ)
  pub encoder_frame_metadata : List FrameMetadata
  pub encoder_pending : List PendingEncoderFrame
  pub draining : Bool
  pub encoder_configured : Bool

-- VIDIOC_DQBUF and VIDIOC_QBUF on the capture queue, and VIDIOC_ENCODER_CMD; a `false` is a call
-- that fails.
pub record Driver (S : Type 0) : Type 0 where
  pub dqbuf : S → S × Dequeued
  pub qbuf : ℕ → S → S × Bool
  pub stop_encoder : S → S × Bool

-- What becomes of a buffer: the stream is corrupted, its frame waits, or it goes back at once.
pub data Handled : Type 0 where
  corrupted : Handled
  kept : EncoderOutput → Handled
  requeued : Handled

abbrev pub mmap_of : EncoderOutput → ℕ → List ℕ
mmap_of o index = get_or o.capture_mmaps index []

abbrev pub pending_of : Buffer → ℕ → PendingEncoderFrame
pending_of b frame_index = record {
  size = b.bytesused - b.data_offset;
  frame_index = frame_index;
  key_frame = b.key_frame;
  end_of_stream = b.last;
  capture_index = b.index;
  data_offset = b.data_offset;
}

abbrev pub keep_taken : Buffer → EncoderOutput → Option (ℕ × List FrameMetadata) → Handled
keep_taken b o none = corrupted
keep_taken b o (some (i, rest)) = kept (record o {
  encoder_frame_metadata = rest;
  encoder_pending = o.encoder_pending ++ (pending_of b i ∷ []);
})

-- The tests and the frame of the loop of `PumpEncoderCapture`.
unfoldable pub handle_buffer : Buffer → EncoderOutput → Handled
handle_buffer b o =
    if leb (length o.capture_mmaps) b.index
      || (ltb (length (mmap_of o b.index)) b.bytesused || ltb b.bytesused b.data_offset)
    then corrupted
    else if b.bytesused - b.data_offset == 0
    then (if b.last
        then kept (record o { encoder_pending = o.encoder_pending ++ (pending_of b 0 ∷ []) })
        else requeued)
    else keep_taken b o (take_encoder_frame_index o.encoder_frame_metadata b.timestamp)

-- What VIDIOC_DQBUF's errno comes to.
abbrev pub dequeue_status : EncoderOutput → ℕ → C2Status
dequeue_status o e = if e == eagain || (e == epipe && o.draining) then c2_ok else c2_corrupted

-- What a pool and the mapping of its block give: no pool, the status of a failed call, or a block
-- of a capacity.
pub data Allocation : Type 0 where
  no_pool : Allocation
  refused : C2Status → Allocation
  mapped : ℕ → Allocation

-- A frame that was handed out, with the bytes of its block; `none` for a frame without one.
pub record EncodedFrame : Type 0 where
  pub frame : PendingEncoderFrame
  pub block : Option (List ℕ)

pub data Filled : Type 0 where
  filled : Option (List ℕ) → Filled
  not_filled : C2Status → Filled

-- The block of `CopyEncoderFrame`.
unfoldable pub fill_block : EncoderOutput → PendingEncoderFrame → Allocation → Filled
fill_block o p no_pool = if p.size == 0 then filled none else not_filled c2_no_init
fill_block o p (refused e) = if p.size == 0 then filled none else not_filled e
fill_block o p (mapped capacity) =
    if p.size == 0
    then filled none
    else if ltb capacity p.size
    then not_filled c2_corrupted
    else filled (some (take p.size (drop p.data_offset (mmap_of o p.capture_index))))

-- The end of a stream that was never configured.
abbrev pub last_frame : PendingEncoderFrame
last_frame = record {
  size = 0;
  frame_index = 0;
  key_frame = false;
  end_of_stream = true;
  capture_index = 0;
  data_offset = 0;
}

module _ {S : Type 0} (d : Driver S) where
  -- The loop of `PumpEncoderCapture`; `none`: out of fuel.
  unfoldable pub pump_encoder_capture :
      ℕ → S → EncoderOutput → Option (S × EncoderOutput × C2Status)
  pump_encoder_capture zero s o = none
  pump_encoder_capture (suc fuel) s o =
      let (s', r) = d.dqbuf s in
      elim r [
        | dequeue_failed e ↦ some (s', o, dequeue_status o e)
        | dequeued b ↦ elim (handle_buffer b o) [
          | corrupted ↦ some (s', o, c2_corrupted)
          | kept o' ↦ pump_encoder_capture fuel s' o'
          | requeued ↦
              let (s'', queued) = d.qbuf b.index s' in
              elim queued [
                | true ↦ pump_encoder_capture fuel s'' o
                | false ↦ some (s'', o, c2_corrupted)
              ]
        ]
      ]

  -- The end of `CopyEncoderFrame`: the capture buffer goes back unless the stream has ended, and
  -- the frame leaves the queue.
  unfoldable pub hand_out :
      PendingEncoderFrame
      → List PendingEncoderFrame
      → Filled
      → S
      → EncoderOutput
      → S × EncoderOutput × C2Status × Option EncodedFrame
  hand_out p rest (not_filled e) s o = (s, o, e, none)
  hand_out p rest (filled block) s o =
      let (s', queued) = d.qbuf p.capture_index s in
      if p.end_of_stream
      then (
        s,
        record o { encoder_pending = rest },
        c2_ok,
        some (record { frame = p; block = block }),
      )
      else if queued
      then (
        s',
        record o { encoder_pending = rest },
        c2_ok,
        some (record { frame = p; block = block }),
      )
      else (s', o, c2_corrupted, none)

  -- `CopyEncoderFrame` on the frames that wait.
  unfoldable pub copy_encoder_frame :
      (ℕ → Allocation)
      → List PendingEncoderFrame
      → S
      → EncoderOutput
      → S × EncoderOutput × C2Status × Option EncodedFrame
  unfolding hand_out fill_block
  copy_encoder_frame allocate [] s o = (s, o, c2_not_found, none)
  copy_encoder_frame allocate (p ∷ rest) s o =
      hand_out p rest (fill_block o p (allocate p.size)) s o

  -- `StartEncoderDrain` behind the stop of the monitor.
  unfoldable pub start_encoder_drain : S → EncoderOutput → S × EncoderOutput × C2Status
  start_encoder_drain s o =
      let (s', stopped) = d.stop_encoder s in
      if o.draining
      then (s, o, c2_ok)
      else if not o.encoder_configured
      then (
        s,
        record o { encoder_pending = o.encoder_pending ++ (last_frame ∷ []); draining = true },
        c2_ok,
      )
      else if stopped
      then (s', record o { draining = true }, c2_ok)
      else (s', o, c2_corrupted)
