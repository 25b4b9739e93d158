-- ===== src/Component/Parameters/Examples.antt =====
-- Frame rates that are natural numbers.
use hardware_floral_codec.Common.{
  ℕ, ◌≡◌, refl, true, ◌&&◌, List, [], ◌∷◌, arith, ltb, leb, if◌then◌else◌,
}
use hardware_floral_codec.Common.Int.{pos}
use hardware_floral_codec.Session.Configure.{EncoderSettings}
use hardware_floral_codec.Session.Lifecycle.{is_positive}
use hardware_floral_codec.Component.Parameters.{
  Framework, avc_high, bitrate_const, Update, to_size, to_bitrate, to_mode, to_frame_rate,
  default_parameters, update, update_all, v4l2_settings, size_setter, max_output_size_setter,
  max_input_size_setter,
}
use hardware_floral_codec.Component.Parameters.Ranges.{
  HasRanges, IsInRange, v4l2_settings-IsInRange,
}

abbrev clamped : ℕ → ℕ
clamped n = if ltb n 1 then 1 else if ltb 240 n then 240 else n

abbrev framework : Framework ℕ
framework = record {
  supports_width = λ n. leb 256 n && leb n 4_096;
  supports_height = λ n. leb 128 n && leb n 4_096;
  set_frame_rate = clamped;
  default_frame_rate = 30;
  round = λ n. n;
  frames_in = λ rate period. pos 60;
}

ranges : HasRanges framework 4_096 4_096
ranges = record {
  wide = λ n h. (ground arith, ground arith);
  tall = λ n h. (ground arith, ground arith);
  rate = λ n. (ground arith, ground arith);
  default_rate = refl;
  room = (omega arith, omega arith);
}

-- A size that is too small, a bitrate that is too low, and a frame rate of zero.
abbrev updates : List (Update framework)
updates =
    to_size (record { width = 64; height = 480 })
    ∷ to_bitrate 500
    ∷ to_frame_rate 0
    ∷ to_mode bitrate_const
    ∷ []

abbrev configured : EncoderSettings
configured =
    v4l2_settings framework (update_all framework (default_parameters framework avc_high) updates)

configured_run :
    (configured.width ≡ 1_280)
    × (configured.height ≡ 480)
    × (configured.bitrate ≡ 16_000)
    × (configured.frame_rate ≡ 1)
unfolding v4l2_settings update_all update default_parameters size_setter
configured_run = (refl, refl, refl, refl)

largest_input_run :
    max_input_size_setter (
      max_output_size_setter
        (record { width = 5_000; height = 64 })
        (record { width = 64; height = 4_096 }))
    ≡ 12_582_912
unfolding max_input_size_setter max_output_size_setter
largest_input_run = refl

v4l2_settings-IsInRange_example :
    IsInRange framework 4_096 4_096 configured × (is_positive configured ≡ true)
v4l2_settings-IsInRange_example =
    v4l2_settings-IsInRange framework 4_096 4_096 ranges avc_high updates
