-- ===== src/Session/Configure.antt =====
-- src/V4l2CodecSession.cpp: ConfigureEncoder, which sets the device up for the first image.
pub mod Level
pub mod Formats
pub mod Started
pub mod Ready
pub mod Covered
pub mod Examples
use hardware_floral_codec.Common.{
  ℕ, zero, suc, ◌+◌, ◌-◌, ◌%◌, ◌^◌, max, Bool, true, false, ◌&&◌, Option, none, some, List, [], ◌∷◌,
  ◌++◌, ltb, leb, ◌==◌, if◌then◌else◌, length, get_or, take, replicate,
}
use hardware_floral_codec.Common.Int.{ℤ, pos, negsuc}
use hardware_floral_codec.CodecSpec.{CodecType, avc, hevc, vp8, vp9, av1, mpeg2}
use hardware_floral_codec.DmaBuf.{MinigbmDmaBuf, no_plane}
use hardware_floral_codec.H264Level.{
  H264Profile, baseline, constrained_baseline, main, high, H264Level, level_value,
  find_minimum_h264_level,
}
use hardware_floral_codec.Session.{C2Status, c2_ok, c2_bad_value, c2_omitted}
use hardware_floral_codec.Session.Outcome.{
  Outcome, returns, fails, Action, after, ◌>>=◌, ◌>>◌, pure, of_status, answered, gets, modify,
  demand,
}
use hardware_floral_codec.Session.Device.{
  Queue, output_queue, capture_queue, Memory, mmap_memory, dmabuf_memory, Format, Device,
  compressed_buffer_size, queue_buffer_count, pix_fmt_nv12, compressed_format, is_linear_nv12,
  set_format, request_buffers, map_buffers, stream_on, stream_off,
}
use hardware_floral_codec.Session.Controls.{
  EncoderBitrate, set_control, set_and_verify_control, set_encoder_bitrate, set_visible_crop,
}
use hardware_floral_codec.Session.Controls.{Driver as ControlDriver}
use hardware_floral_codec.Session.EncoderOutput.{EncoderOutput}
use hardware_floral_codec.Session.EncoderFrames.{EncoderInputSlot, EncoderQueues, released}
use hardware_floral_codec.Session.EncoderFrames.{Driver as FrameDriver}

-- `V4l2EncoderSettings`.
pub record EncoderSettings : Type 0 where
  pub width : ℕ
  pub height : ℕ
  pub bitrate : ℕ
  pub frame_rate : ℕ
  pub gop_size : ℕ
  pub constant_bitrate : Bool
  pub h264_profile : H264Profile

-- The calls of a session on its device; `s_parm` is VIDIOC_S_PARM of a frame rate.
pub record Driver (S : Type 0) : Type 0 where
  pub device : Device S
  pub controls : ControlDriver S
  pub frames : FrameDriver S
  pub s_parm : ℕ → S → S × Bool
  pub same_inode : ℤ → ℤ → Bool
  -- Whether the headers of the build define V4L2_MPEG_VIDEO_HEADER_MODE_JOINED_WITH_1ST_FRAME.
  pub defines_header_mode : Bool

-- The members of an encoder's session, with the state of the device behind its descriptor.
pub record Encoder (S B G : Type 0) : Type 0 where
  pub device : S
  pub encoder_settings : Option EncoderSettings
  pub queues : EncoderQueues B G
  pub venus_encoder : Bool
  pub current_bitrate : ℕ
  pub effective_bitrate : ℕ
  pub encoder_peak_bitrate : ℕ
  pub raw_size : ℕ
  pub raw_stride : ℕ
  pub coded_size : ℕ
  pub output_streaming : Bool
  pub capture_streaming : Bool

abbrev pub cid_gop_size : ℕ
cid_gop_size = 0x9909cb

abbrev pub cid_b_frames : ℕ
cid_b_frames = 0x9909ca

abbrev pub cid_bitrate_mode : ℕ
cid_bitrate_mode = 0x9909ce

abbrev pub cid_header_mode : ℕ
cid_header_mode = 0x9909d8

abbrev pub cid_h264_profile : ℕ
cid_h264_profile = 0x990a6b

abbrev pub cid_h264_level : ℕ
cid_h264_level = 0x990a67

-- `static_cast<int32_t>` of a uint32_t.
abbrev pub to_int32 : ℕ → ℤ
to_int32 n = if ltb n (2 ^ 31) then pos n else negsuc (2 ^ 32 - n - 1)

-- `V4l2H264Profile`, with the values of linux/v4l2-controls.h.
unfoldable pub v4l2_h264_profile : H264Profile → ℕ
v4l2_h264_profile baseline = 0
v4l2_h264_profile constrained_baseline = 1
v4l2_h264_profile main = 2
v4l2_h264_profile high = 4

abbrev pub is_avc : CodecType → Bool
is_avc avc = true
is_avc hevc = false
is_avc vp8 = false
is_avc vp9 = false
is_avc av1 = false
is_avc mpeg2 = false

-- `std::vector::resize` of the slots.
abbrev pub resize_inputs :
    {B G : Type 0} → ℕ → List (EncoderInputSlot B G) → List (EncoderInputSlot B G)
resize_inputs count slots = take count slots ++ replicate (count - length slots) released

-- The picture that the stream may have: the visible one, those of the formats, and the stride.
abbrev pub coded_width : EncoderSettings → Format → Format → ℕ → ℕ
coded_width settings raw coded raw_stride =
    max (max (max settings.width raw.width) coded.width) raw_stride

abbrev pub coded_height : EncoderSettings → Format → Format → ℕ
coded_height settings raw coded = max (max settings.height raw.height) coded.height

module _ {S B G : Type 0} where
  -- A call on the device leaves the members.
  abbrev pub put_device : {A : Type 0} → Encoder S B G → S × Outcome A → Encoder S B G × Outcome A
  put_device x (s, r) = (record x { device = s }, r)

  unfoldable pub on_device : {A : Type 0} → Action S A → Action (Encoder S B G) A
  on_device m x = put_device x (m x.device)

  abbrev pub put_status : Encoder S B G → S × C2Status → Encoder S B G × Outcome (Unit {0})
  put_status x (s, e) = (record x { device = s }, of_status e)

  unfoldable pub checked : (S → S × C2Status) → Action (Encoder S B G) (Unit {0})
  checked m x = put_status x (m x.device)

  abbrev pub configured : Encoder S B G → Bool
  configured x = x.queues.output.encoder_configured

  abbrev pub with_output : (EncoderOutput → EncoderOutput) → Encoder S B G → Encoder S B G
  with_output f x = record x { queues = record x.queues { output = f x.queues.output } }

  abbrev pub bitrate_of : Encoder S B G → EncoderBitrate
  bitrate_of x = record {
    venus_encoder = x.venus_encoder;
    encoder_configured = configured x;
    current_bitrate = x.current_bitrate;
    effective_bitrate = x.effective_bitrate;
    encoder_peak_bitrate = x.encoder_peak_bitrate;
  }

  abbrev pub put_bitrate :
      Encoder S B G → S × EncoderBitrate × C2Status → Encoder S B G × Outcome (Unit {0})
  put_bitrate x (s, b, e) = (
    record x {
      device = s;
      current_bitrate = b.current_bitrate;
      effective_bitrate = b.effective_bitrate;
      encoder_peak_bitrate = b.encoder_peak_bitrate;
    },
    of_status e,
  )

  abbrev pub put_mapped :
      Encoder S B G → S × List (List ℕ) × Outcome (Unit {0}) → Encoder S B G × Outcome (Unit {0})
  put_mapped x (s, mmaps, r) =
      (with_output (λ o. record o { capture_mmaps = mmaps }) (record x { device = s }), r)

  abbrev pub put_capture_streaming :
      Encoder S B G → S × Bool × Outcome (Unit {0}) → Encoder S B G × Outcome (Unit {0})
  put_capture_streaming x (s, streaming, r) =
      (record x { device = s; capture_streaming = streaming }, r)

  abbrev pub put_output_streaming :
      Encoder S B G → S × Bool × Outcome (Unit {0}) → Encoder S B G × Outcome (Unit {0})
  put_output_streaming x (s, streaming, r) =
      (record x { device = s; output_streaming = streaming }, r)

module _ {S : Type 0} (d : Driver S) where
  -- The loop of `QueueMmapCapture` over the given number of buffers, from the given index on.
  unfoldable pub queue_captures : ℕ → ℕ → Action S (Unit {0})
  queue_captures zero index s = (s, returns tt)
  queue_captures (suc n) index s =
      after (λ _. queue_captures n (suc index))
        (let (s', queued) = d.frames.capture.qbuf index s in (s', answered queued))

module _ {S B G : Type 0} (d : Driver S) where
  -- `SetEncoderBitrate`.
  unfoldable pub apply_bitrate : ℕ → Action (Encoder S B G) (Unit {0})
  apply_bitrate bitrate x =
      put_bitrate x (set_encoder_bitrate d.controls bitrate x.device (bitrate_of x))

  abbrev pub optional_control : ℕ → ℤ → Action (Encoder S B G) (Unit {0})
  optional_control id value = checked (set_control d.controls id value false)

  -- The formats of both queues: the raw one has the stride of the images, and fits into them.
  unfoldable pub set_formats :
      CodecType → EncoderSettings → MinigbmDmaBuf → Action (Encoder S B G) (Format × Format)
  set_formats codec settings input = do
    let stride = (get_or input.planes 0 no_plane).stride
    demand (is_linear_nv12 d.same_inode input) c2_omitted
    raw ← on_device (
        set_format d.device output_queue pix_fmt_nv12 settings.width settings.height stride
          (input.total_size % 2 ^ 32))
    modify (λ x. record x { raw_stride = raw.bytesperline; raw_size = raw.sizeimage })
    demand (raw.bytesperline == stride && leb raw.sizeimage input.total_size) c2_omitted
    coded ← on_device (
        set_format d.device capture_queue (compressed_format codec) settings.width settings.height 0
          compressed_buffer_size)
    modify (λ x. record x { coded_size = coded.sizeimage })
    pure (raw, coded)

  -- The controls that need not be there, and the frame rate.
  unfoldable pub set_controls : EncoderSettings → Action (Encoder S B G) (Unit {0})
  set_controls settings = do
    optional_control cid_gop_size (to_int32 settings.gop_size)
    optional_control cid_b_frames (pos 0)
    optional_control cid_bitrate_mode (pos (if settings.constant_bitrate then 1 else 0))
    if d.defines_header_mode then optional_control cid_header_mode (pos 1) else pure tt
    on_device (λ s. let (s', done) = d.s_parm settings.frame_rate s in (s', answered done))

  abbrev pub set_level : EncoderSettings → Option H264Level → Action (Encoder S B G) (Unit {0})
  set_level settings none = λ x. (x, fails c2_bad_value)
  set_level settings (some level) = do
    checked (
        set_and_verify_control d.controls cid_h264_profile
          (pos (v4l2_h264_profile settings.h264_profile)))
    checked (set_and_verify_control d.controls cid_h264_level (pos (level_value level)))

  -- The profile and the level of an H.264 stream.
  unfoldable pub configure_level :
      EncoderSettings → Format → Format → Action (Encoder S B G) (Unit {0})
  configure_level settings raw coded x =
      set_level settings
        (find_minimum_h264_level (coded_width settings raw coded x.raw_stride)
          (coded_height settings raw coded) settings.frame_rate
          (max x.effective_bitrate x.encoder_peak_bitrate) settings.h264_profile)
        x

  -- The buffers of both queues, and their start.
  unfoldable pub start_queues : Action (Encoder S B G) (Unit {0})
  unfolding queue_captures
  start_queues = do
    inputs ← on_device (request_buffers d.device output_queue dmabuf_memory queue_buffer_count)
    modify (λ x. record x {
      queues = record x.queues { encoder_inputs = resize_inputs inputs x.queues.encoder_inputs };
    })
    captures ← on_device (request_buffers d.device capture_queue mmap_memory queue_buffer_count)
    λ x. put_mapped x (map_buffers d.device capture_queue captures 0 [] x.device)
    on_device (queue_captures d captures 0)
    λ x. put_capture_streaming x (stream_on d.device capture_queue x.capture_streaming x.device)
    λ x. put_output_streaming x (stream_on d.device output_queue x.output_streaming x.device)
    modify (with_output (λ o. record o { encoder_configured = true }))

  -- `ConfigureEncoder`, with the settings of the session.
  unfoldable pub configure_encoder :
      CodecType → EncoderSettings → MinigbmDmaBuf → Action (Encoder S B G) (Unit {0})
  unfolding set_formats apply_bitrate set_controls configure_level start_queues
  configure_encoder codec settings input = do
    formats ← set_formats codec settings input
    checked (set_visible_crop d.controls settings.width settings.height)
    apply_bitrate settings.bitrate
    set_controls settings
    if is_avc codec then configure_level settings formats.0 formats.1 else pure tt
    start_queues
