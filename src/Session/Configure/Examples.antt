-- ===== src/Session/Configure/Examples.antt =====
-- A first image of 64 by 48, behind which the encoder of a device runs.
use hardware_floral_codec.Common.{
  ℕ, ◌+◌, ◌^◌, ◌<◌, ◌≡◌, refl, subst, true, false, some, [], ◌∷◌, arith,
}
use hardware_floral_codec.Common.Int.{ℤ, pos}
use hardware_floral_codec.CodecSpec.{avc, hevc}
use hardware_floral_codec.DmaBuf.{MinigbmDmaBuf, no_plane}
use hardware_floral_codec.H264Level.{
  high, find_minimum_h264_level, first_level, level_limits, within_limit, macroblocks,
  bitrate_scale, level_value,
}
use hardware_floral_codec.DecoderGeometry.{VisibleRect}
use hardware_floral_codec.Session.{dequeue_failed, eagain}
use hardware_floral_codec.Session.Outcome.{after, ◌>>=◌, ◌>>◌, pure, modify, demand}
use hardware_floral_codec.Session.Device.{
  Format, compressed_format, is_linear_nv12, set_format, request_buffers, map_buffers, stream_on,
}
use hardware_floral_codec.Session.Controls.{
  set_control, set_and_verify_control, apply_bitrate_control, set_encoder_bitrate, set_visible_crop,
}
use hardware_floral_codec.Session.EncoderFrames.{ready}
use hardware_floral_codec.Session.Configure.{
  EncoderSettings, Driver, Encoder, on_device, checked, configured, apply_bitrate, set_formats,
  set_controls, configure_level, queue_captures, start_queues, configure_encoder, v4l2_h264_profile,
}
use hardware_floral_codec.Session.Configure.Ready.{Ends, configure_encoder-Ends}
use hardware_floral_codec.Session.Configure.Covered.{
  HasBounds, EndsCovered, configure_encoder-EndsCovered,
}

abbrev format_of : ℕ → Format
format_of pixelformat = record {
  pixelformat = pixelformat;
  num_planes = 1;
  width = 64;
  height = 48;
  bytesperline = 64;
  sizeimage = 4_608;
}

abbrev crop : VisibleRect
crop = record { left = pos 0; top = pos 0; width = 64; height = 48 }

-- The state is the last value that was written to a control.
abbrev pub driver : Driver ℤ
driver = record {
  device = record {
    s_fmt = λ queue pixels width height stride size s. (s, some (format_of pixels));
    reqbufs = λ queue memory requested s. (s, some 2);
    querybuf = λ queue index s. (s, some (3, 0));
    mmap = λ length offset s. (s, some (0 ∷ 0 ∷ 0 ∷ []));
    stream_on = λ queue s. (s, true);
    stream_off = λ queue s. s;
  };
  controls = record {
    queryctrl = λ id s. (s, true);
    s_ctrl = λ id value s. (value, true);
    g_ctrl = λ id s. (s, some s);
    try_bitrate = λ value s. (s, some value);
    s_selection = λ width height s. (s, some crop);
    g_selection = λ s. (s, some crop);
  };
  frames = record {
    capture = record {
      dqbuf = λ s. (s, dequeue_failed eagain);
      qbuf = λ index s. (s, true);
      stop_encoder = λ s. (s, true);
    };
    dqbuf_input = λ s. (s, dequeue_failed eagain);
    poll = λ out timeout s. (s, ready);
  };
  s_parm = λ rate s. (s, true);
  same_inode = λ first second. false;
  defines_header_mode = false;
}

abbrev pub settings : EncoderSettings
settings = record {
  width = 64;
  height = 48;
  bitrate = 64_000;
  frame_rate = 30;
  gop_size = 30;
  constant_bitrate = true;
  h264_profile = high;
}

abbrev pub image : MinigbmDmaBuf
image = record {
  width = 64;
  height = 48;
  drm_format = 0x3231564e;
  modifier = 0;
  total_size = 4_608;
  buffer_id = 1;
  plane_count = 2;
  planes =
      (record { fd = pos 7; stride = 64; offset = 0; size = 3_072 })
      ∷ (record { fd = pos 7; stride = 64; offset = 3_072; size = 1_536 })
      ∷ no_plane
      ∷ no_plane
      ∷ [];
}

abbrev pub unset : Encoder ℤ ℕ ℕ
unset = record {
  device = pos 0;
  encoder_settings = some settings;
  queues = record {
    output = record {
      capture_mmaps = [];
      encoder_frame_metadata = [];
      encoder_pending = [];
      draining = false;
      encoder_configured = false;
    };
    encoder_inputs = [];
  };
  venus_encoder = false;
  current_bitrate = 0;
  effective_bitrate = 0;
  encoder_peak_bitrate = 0;
  raw_size = 0;
  raw_stride = 0;
  coded_size = 0;
  output_streaming = false;
  capture_streaming = false;
}

bounds : HasBounds driver
bounds queue pixels width height stride size s f e =
    let same : format_of pixels ≡ f = cc in
    let below =
      subst
        (λ (f : Format).
          (f.width + 15 < 2 ^ 32) × (f.height + 15 < 2 ^ 32) × (f.bytesperline + 15 < 2 ^ 32))
        same (omega arith, omega arith, omega arith) in
    below

-- The encoder of HEVC, which has no level.
hevc_run : configured (configure_encoder driver hevc settings image unset).0 ≡ true
unfolding configure_encoder set_formats apply_bitrate set_controls configure_level start_queues
    queue_captures on_device checked after ◌>>=◌ ◌>>◌ pure modify demand is_linear_nv12 set_format
    request_buffers map_buffers stream_on set_control apply_bitrate_control set_encoder_bitrate
    set_visible_crop compressed_format
hevc_run = refl

avc_run : configured (configure_encoder driver avc settings image unset).0 ≡ true
unfolding configure_encoder set_formats apply_bitrate set_controls configure_level start_queues
    queue_captures on_device checked after ◌>>=◌ ◌>>◌ pure modify demand is_linear_nv12 set_format
    request_buffers map_buffers stream_on set_control apply_bitrate_control set_encoder_bitrate
    set_visible_crop compressed_format set_and_verify_control v4l2_h264_profile
    find_minimum_h264_level first_level level_limits within_limit macroblocks bitrate_scale
    level_value
avc_run = refl

configure_encoder-Ends_example :
    Ends driver hevc settings image unset (configure_encoder driver hevc settings image unset)
configure_encoder-Ends_example =
    configure_encoder-Ends driver hevc settings image unset (refl, refl, tt, refl)

configure_encoder-EndsCovered_example :
    EndsCovered driver settings image (configure_encoder driver avc settings image unset)
configure_encoder-EndsCovered_example =
    configure_encoder-EndsCovered driver settings image
      (omega arith, omega arith, omega arith, omega arith) (omega arith, omega arith) bounds unset
      (refl, refl, tt, refl)
