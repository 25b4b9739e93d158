-- ===== src/Probe/Examples.antt =====
-- A directory with a decoder for H.264.
use hardware_floral_codec.Common.{
  ℕ, ◌≡◌, ◌≢◌, ◌<◌, refl, true, false, Option, none, some, List, [], ◌∷◌, arith, zero, suc,
}
use hardware_floral_codec.CodecSpec.{CodecSpec, decode, avc, video_avc}
use hardware_floral_codec.Probe.{
  Text, BufType, output_mplane, capture_mplane, Device, pix_fmt_nv12, find_device_path,
  opened_supports, device_capabilities,
}
use hardware_floral_codec.Common.Int.{pos}
use hardware_floral_codec.CodecSpec.{h264_main}
use hardware_floral_codec.Probe.Vaapi.{
  VaDisplay, vld, enc_slice, Ffmpeg, VaapiDevice, has_ffmpeg_codec, find_vaapi_path,
}
use hardware_floral_codec.Probe.Vaapi.Usable.{IsChosen, find_vaapi_path-IsChosen}
use hardware_floral_codec.Probe.Formats.{Lists, IsFirst, find_device_path-IsFirst}

-- "video" and "video12".
abbrev video : Text
video = 118 ∷ 105 ∷ 100 ∷ 101 ∷ 111 ∷ []

abbrev video12 : Text
video12 = 118 ∷ 105 ∷ 100 ∷ 101 ∷ 111 ∷ 49 ∷ 50 ∷ []

abbrev h264 : ℕ
h264 = 0x34363248

abbrev formats : BufType → ℕ → Option ℕ
formats output_mplane zero = some h264
formats output_mplane (suc n) = none
formats capture_mplane zero = some pix_fmt_nv12
formats capture_mplane (suc n) = none

abbrev decoder : Device
decoder = record {
  querycap = some (record { capabilities = 0x84204000; device_caps = 0x04204000 });
  enum_fmt = formats;
  reqbufs_dmabuf = λ type. true;
}

decoder-Lists : Lists (decoder.enum_fmt output_mplane) 1
decoder-Lists = record { offered = first; ended = refl }
  where
    first : (i : ℕ) → i < 1 → formats output_mplane i ≢ none
    first zero h e = cc
    first (suc i) h e = absurd (omega arith)

abbrev avc_decoder : CodecSpec
avc_decoder = record {
  component_name = "c2.floral.avc.decoder";
  media_type = video_avc;
  ffmpeg_name = "h264_v4l2m2m";
  codec = avc;
  direction = decode;
  va_profiles = [];
  max_width = 4_096;
  max_height = 4_096;
}

-- Only the second path can be opened.
abbrev open_device : Text → Option Device
open_device [] = none
open_device (zero ∷ rest) = none
open_device (suc c ∷ rest) = some decoder

abbrev paths : List Text
paths = (0 ∷ []) ∷ (1 ∷ []) ∷ []

paths_run : find_device_path 4 open_device paths avc_decoder ≡ some (1 ∷ [])
unfolding find_device_path opened_supports device_capabilities
paths_run = refl

find_device_path-IsFirst_example : IsFirst 4 open_device paths avc_decoder (1 ∷ [])
find_device_path-IsFirst_example =
    find_device_path-IsFirst 4 open_device paths avc_decoder (1 ∷ []) paths_run

-- A display that decodes H.264.
abbrev display : VaDisplay
display = record {
  max_num_entrypoints = pos 2;
  config_entrypoints = λ profile. some (enc_slice ∷ vld ∷ []);
  rt_format = λ profile e. some 1;
  create_config = λ profile e value. true;
}

abbrev ffmpeg : Ffmpeg
ffmpeg = record {
  has_encoder = λ name. false;
  decoder_by_name = λ name. some (record { vaapi_device = true; vaapi_pictures = true } ∷ []);
  decoder_by_id = λ id. none;
}

abbrev va_decoder : CodecSpec
va_decoder = record avc_decoder { va_profiles = h264_main ∷ [] }

abbrev va_devices : List VaapiDevice
va_devices = record { path = 1 ∷ []; display = display } ∷ []

va_run : find_vaapi_path ffmpeg va_devices va_decoder ≡ some (1 ∷ [])
unfolding find_vaapi_path
va_run = refl

find_vaapi_path-IsChosen_example :
    (has_ffmpeg_codec ffmpeg va_decoder ≡ true) × IsChosen va_devices va_decoder (1 ∷ [])
find_vaapi_path-IsChosen_example =
    find_vaapi_path-IsChosen ffmpeg va_devices va_decoder (1 ∷ []) va_run
