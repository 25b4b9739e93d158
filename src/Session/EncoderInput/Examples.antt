-- ===== src/Session/EncoderInput/Examples.antt =====
-- The first image of an encoder, and one more behind it.
use hardware_floral_codec.Common.{
  ℕ, ◌≡◌, refl, inr, true, false, Option, none, some, [], ◌∷◌, arith, ◌==◌, if◌then◌else◌,
}
use hardware_floral_codec.Common.Int.{ℤ, pos}
use hardware_floral_codec.CodecSpec.{hevc}
use hardware_floral_codec.DmaBuf.{Handle, cros_gralloc_magic, get_minigbm_dma_buf}
use hardware_floral_codec.EncoderMetadata.{timeval, metadata, make_encoder_timestamp}
use hardware_floral_codec.Session.{c2_ok}
use hardware_floral_codec.Session.Outcome.{
  Outcome, returns, after, ◌>>=◌, ◌>>◌, pure, modify, demand,
}
use hardware_floral_codec.Session.Device.{
  compressed_format, is_linear_nv12, set_format, request_buffers, map_buffers, stream_on,
}
use hardware_floral_codec.Session.DecoderCapture.{fetched}
use hardware_floral_codec.Session.Controls.{
  set_control, apply_bitrate_control, set_encoder_bitrate, set_visible_crop,
}
use hardware_floral_codec.Session.Configure.{
  Encoder, on_device, checked, apply_bitrate, set_formats, set_controls, configure_level,
  queue_captures, start_queues, configure_encoder,
}
use hardware_floral_codec.Session.Configure.Examples.{driver, settings, unset}
use hardware_floral_codec.Session.EncoderInput.{
  Images, graphic, convert_image, prepare_image, configure_first, queue_image, queue_in_slot,
  choose_slot, queue_encoder_frame,
}
use hardware_floral_codec.Session.EncoderInput.Queued.{Ends}
use hardware_floral_codec.Session.EncoderInput.Ended.{queue_encoder_frame-Ends}
use hardware_floral_codec.Session.EncoderFrames.Settled.{Settles}

abbrev handle : Handle
handle = record {
  version = 12;
  num_fds = pos 2;
  num_ints = pos 20;
  magic = cros_gralloc_magic;
  id = 1;
  width = 64;
  height = 48;
  format = 0x3231564e;
  format_modifier = 0;
  total_size = 4_608;
  num_planes = 2;
  fds = λ plane. pos 7;
  strides = λ plane. 64;
  offsets = λ plane. if plane == 0 then 0 else 3_072;
  sizes = λ plane. if plane == 0 then 3_072 else 1_536;
}

abbrev images : Images ℤ ℕ ℕ
images = record {
  wait_fence = λ block s. (s, c2_ok);
  handle_of = λ block. some handle;
  width_of = λ block. 64;
  height_of = λ block. 48;
  fetch_block = λ width height s. (s, fetched 9);
  pool_handle_of = λ block. some handle;
  convert = λ source target s. (s, c2_ok);
  qbuf = λ index fd size used timestamp s. (s, true);
  handle_size = 12;
  drv_max_fds = 8;
}

abbrev queue_first : Option (Encoder ℤ ℕ ℕ × Outcome (Unit {0}))
queue_first =
    queue_encoder_frame driver images 4 hevc true (graphic 5 (8 ∷ [])) 3 (pos 33_333) true 96_000
      unset

abbrev first_result : Encoder ℤ ℕ ℕ × Outcome (Unit {0})
first_result = (
  record {
    device = pos 1;
    encoder_settings = some (record settings { bitrate = 96_000 });
    queues = record {
      output = record {
        capture_mmaps = (0 ∷ 0 ∷ 0 ∷ []) ∷ (0 ∷ 0 ∷ 0 ∷ []) ∷ [];
        encoder_frame_metadata = metadata (timeval (pos 0) (pos 33_333)) 3 ∷ [];
        encoder_pending = [];
        draining = false;
        encoder_configured = true;
      };
      encoder_inputs =
          (record { owner = some 5; converted_block = none; queued = true })
          ∷ (record { owner = none; converted_block = none; queued = false })
          ∷ [];
    };
    venus_encoder = false;
    current_bitrate = 96_000;
    effective_bitrate = 96_000;
    encoder_peak_bitrate = 0;
    raw_size = 4_608;
    raw_stride = 64;
    coded_size = 4_608;
    output_streaming = true;
    capture_streaming = true;
  },
  returns tt,
)

first_run : queue_first ≡ some first_result
unfolding queue_encoder_frame choose_slot queue_in_slot queue_image configure_first prepare_image
    convert_image configure_encoder set_formats apply_bitrate set_controls configure_level
    start_queues queue_captures on_device checked after ◌>>=◌ ◌>>◌ pure modify demand is_linear_nv12
    set_format request_buffers map_buffers stream_on set_control apply_bitrate_control
    set_encoder_bitrate set_visible_crop compressed_format get_minigbm_dma_buf
    make_encoder_timestamp
first_run = refl

settles : Settles (λ s. 0) driver.frames
settles = record {
  dqbuf = λ s. omega arith;
  qbuf = λ index s. omega arith;
  dqbuf_input = λ s. omega arith;
  poll = λ out timeout s. omega arith;
}

queue_encoder_frame-Ends_example :
    (r : Encoder ℤ ℕ ℕ × Outcome (Unit {0})) × (queue_first ≡ some r)
    × Ends driver images 4 hevc true 5 (8 ∷ []) 3 (pos 33_333) 96_000 unset r
queue_encoder_frame-Ends_example =
    queue_encoder_frame-Ends driver images (λ s. 0) settles 4 (λ width height s e q. cc) hevc true 5
      (8 ∷ []) 3 (pos 33_333) true 96_000 unset (inr (refl, refl, tt, refl)) (omega arith)
