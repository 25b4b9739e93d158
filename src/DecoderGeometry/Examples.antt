-- ===== src/DecoderGeometry/Examples.antt =====
-- A driver that decodes 1080p into 1088 rows.
use hardware_floral_codec.Common.{ℕ, suc, ◌≡◌, refl}
use hardware_floral_codec.Common.Int.{pos}
use hardware_floral_codec.DecoderGeometry.{
  PixFormat, VisibleRect, CaptureGeometry, Reply, done, failed, SelectionTarget, compose,
  compose_default, Driver, pix_fmt_nv12, field_none, einval, check_geometry,
  negotiate_decoder_capture,
}
use hardware_floral_codec.DecoderGeometry.Negotiated.{IsUsable, negotiate-IsUsable}

abbrev full_hd : PixFormat
full_hd = record {
  width = 1920;
  height = 1088;
  pixelformat = pix_fmt_nv12;
  field = field_none;
  num_planes = 1;
  bytesperline = 1920;
  sizeimage = 3_133_440;
}

abbrev shown : VisibleRect
shown = record { left = pos 0; top = pos 0; width = 1920; height = 1080 }

abbrev answer : SelectionTarget → Reply VisibleRect
answer compose = done shown
answer compose_default = failed einval

-- The state counts the calls.
abbrev driver : Driver ℕ
driver = record {
  g_fmt = λ s. (suc s, done full_hd);
  g_selection = λ t s. (suc s, answer t);
  s_fmt = λ f s. (suc s, failed einval);
}

abbrev negotiated : CaptureGeometry
negotiated = record { format = full_hd; visible = shown }

driver_run : (negotiate_decoder_capture driver 0).1 ≡ done negotiated
unfolding negotiate_decoder_capture check_geometry
driver_run = refl

negotiate-IsUsable_example : IsUsable negotiated
negotiate-IsUsable_example = negotiate-IsUsable driver 0 negotiated driver_run
