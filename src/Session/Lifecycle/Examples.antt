-- ===== src/Session/Lifecycle/Examples.antt =====
-- A Venus device behind a session, for an encoder that is flushed and a decoder that is opened.
use hardware_floral_codec.Common.{ℕ, ◌≡◌, refl, true, false, none, some, [], ◌∷◌}
use hardware_floral_codec.Common.Int.{ℤ, pos}
use hardware_floral_codec.CodecSpec.{avc, hevc, decode, encode}
use hardware_floral_codec.Session.{c2_ok}
use hardware_floral_codec.Session.Outcome.{after, ◌>>=◌, ◌>>◌, pure, modify, demand}
use hardware_floral_codec.Session.Device.{
  compressed_format, set_format, request_buffers, map_buffers, stream_on, stream_off,
}
use hardware_floral_codec.Session.Configure.Examples.{driver, settings, unset}
use hardware_floral_codec.Session.Lifecycle.{
  Driver, Impl, DecoderSettings, closed, on_device, close, close_calls, configure_decoder_output,
  same_bytes, device_capabilities, open_session, flush,
}
use hardware_floral_codec.Session.Lifecycle.Opened.{Ends, open_session-Ends, flush-Ends}

abbrev venus : Driver ℤ
venus = record {
  device = driver.device;
  open_device = λ s. (s, true);
  querycap = λ s. (
    s,
    some (record {
      driver_name = 113 ∷ 99 ∷ 111 ∷ 109 ∷ 45 ∷ 118 ∷ 101 ∷ 110 ∷ 117 ∷ 115 ∷ [];
      capabilities = 0x84204000;
      device_caps = 0x04204000;
    }),
  );
  subscribe = λ s. (s, true);
  close_device = λ s. s;
  stop_monitor = λ s. s;
  initialize_converter = λ s. (s, c2_ok);
  reset_converter = λ s. s;
}

abbrev picture : DecoderSettings
picture = record { width = 64; height = 48 }

abbrev new : Impl ℤ ℕ ℕ ℕ
new = closed (pos 0) none none

-- An encoder that has run.
abbrev used : Impl ℤ ℕ ℕ ℕ
used = record new {
  encoder = record unset {
    output_streaming = true;
    capture_streaming = true;
    venus_encoder = true;
  };
  has_fd = true;
}

open_run :
    (open_session venus true hevc decode none (some picture) new).0.decoder_inputs
    ≡ false ∷ false ∷ []
unfolding open_session configure_decoder_output close close_calls on_device same_bytes
    device_capabilities after ◌>>=◌ ◌>>◌ pure modify demand compressed_format set_format
    request_buffers map_buffers stream_on stream_off
open_run = refl

flush_run : (flush venus true avc encode used).0.encoder.venus_encoder ≡ true
unfolding flush open_session close close_calls on_device same_bytes device_capabilities after ◌>>=◌
    ◌>>◌ pure modify demand compressed_format stream_off
flush_run = refl

open_session-Ends_example :
    Ends venus decode none
      (some picture)
      (open_session venus true hevc decode none (some picture) new)
open_session-Ends_example = open_session-Ends venus true hevc decode none (some picture) new

flush-Ends_example : Ends venus encode (some settings) none (flush venus true avc encode used)
flush-Ends_example = flush-Ends venus true avc encode used
