-- ===== src/Session.antt =====
-- src/V4l2CodecSession.cpp: the queues of a session. The driver is a parameter, a record of calls
-- over a state of its own.
pub mod EncoderOutput
pub mod DecoderInput
pub mod DecoderCapture
pub mod Controls
pub mod EncoderFrames
pub mod Outcome
pub mod Device
pub mod Configure
pub mod EncoderInput
pub mod Lifecycle
mod Examples
use hardware_floral_codec.Common.{ℕ, Bool, List}
use hardware_floral_codec.EncoderMetadata.{Timeval}

-- The values of c2_status_t that the code names, and any other.
pub data C2Status : Type 0 where
  c2_ok c2_blocking c2_bad_value c2_bad_state c2_not_found c2_no_init c2_no_memory : C2Status
  c2_corrupted c2_omitted c2_timed_out : C2Status
  c2_other : ℕ → C2Status

-- The fields of `v4l2_buffer` and its plane that the code reads behind VIDIOC_DQBUF.
pub record Buffer : Type 0 where
  pub index : ℕ
  pub bytesused : ℕ
  pub data_offset : ℕ
  pub timestamp : Timeval
  pub key_frame : Bool
  pub last : Bool

-- VIDIOC_DQBUF: a buffer, or an errno.
pub data Dequeued : Type 0 where
  dequeued : Buffer → Dequeued
  dequeue_failed : ℕ → Dequeued

abbrev pub eagain : ℕ
eagain = 11

abbrev pub epipe : ℕ
epipe = 32
