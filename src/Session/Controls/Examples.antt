-- ===== src/Session/Controls/Examples.antt =====
-- A Venus encoder whose driver rounds a bitrate down to hundreds.
use hardware_floral_codec.Common.{◌*◌, ◌/◌, ◌≡◌, refl, true, false, some}
use hardware_floral_codec.Common.Int.{ℤ, pos, negsuc}
use hardware_floral_codec.DecoderGeometry.{VisibleRect}
use hardware_floral_codec.Session.{c2_ok}
use hardware_floral_codec.Session.Controls.{
  Driver, EncoderBitrate, set_control, apply_bitrate_control, set_encoder_bitrate, set_visible_crop,
}
use hardware_floral_codec.Session.Controls.Bitrate.{SetBitrate, set_encoder_bitrate-SetBitrate}

abbrev rounded : ℤ → ℤ
rounded (pos n) = pos (n / 100 * 100)
rounded (negsuc n) = negsuc n

abbrev crop : VisibleRect
crop = record { left = pos 0; top = pos 0; width = 64; height = 48 }

-- The state is the last value that was written.
abbrev venus : Driver ℤ
venus = record {
  queryctrl = λ id s. (s, true);
  s_ctrl = λ id value s. (rounded value, true);
  g_ctrl = λ id s. (s, some s);
  try_bitrate = λ value s. (s, some (rounded value));
  s_selection = λ width height s.
      (s, some (record { left = pos 0; top = pos 0; width = width; height = height }));
  g_selection = λ s. (s, some crop);
}

abbrev new_bitrate : EncoderBitrate
new_bitrate = record {
  venus_encoder = true;
  encoder_configured = false;
  current_bitrate = 0;
  effective_bitrate = 0;
  encoder_peak_bitrate = 0;
}

abbrev set_bitrate : EncoderBitrate
set_bitrate = record {
  venus_encoder = true;
  encoder_configured = false;
  current_bitrate = 1_000_049;
  effective_bitrate = 1_000_000;
  encoder_peak_bitrate = 1_000_000;
}

bitrate_run :
    set_encoder_bitrate venus 1_000_049 (pos 0) new_bitrate ≡ (pos 1_000_000, set_bitrate, c2_ok)
unfolding set_encoder_bitrate apply_bitrate_control set_control
bitrate_run = refl

set_encoder_bitrate-SetBitrate_example :
    SetBitrate venus 1_000_049 new_bitrate
      (pos 0)
      (set_encoder_bitrate venus 1_000_049 (pos 0) new_bitrate).0
      (set_encoder_bitrate venus 1_000_049 (pos 0) new_bitrate).1
      (set_encoder_bitrate venus 1_000_049 (pos 0) new_bitrate).2
set_encoder_bitrate-SetBitrate_example =
    set_encoder_bitrate-SetBitrate venus 1_000_049 (pos 0) new_bitrate

crop_run : (set_visible_crop venus 64 48 (pos 0)).1 ≡ c2_ok
unfolding set_visible_crop
crop_run = refl
