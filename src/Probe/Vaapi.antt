-- ===== src/Probe/Vaapi.antt =====
-- src/CapabilityProbe.cpp for the VA-API backend. libva and FFmpeg are parameters.
pub mod Usable
use Prim.Native.String.{String}
use hardware_floral_codec.Common.{
  ℕ, Bool, true, false, not, ◌&&◌, ◌||◌, Option, none, some, List, [], ◌∷◌, is_empty, any, bit_and,
  ◌==◌, if◌then◌else◌,
}
use hardware_floral_codec.Common.Int.{ℤ, pos, negsuc, is_neg, magnitude}
use hardware_floral_codec.CodecSpec.{
  CodecDirection, decode, encode, CodecType, avc, hevc, vp8, vp9, av1, mpeg2, VaProfile, CodecSpec,
}
use hardware_floral_codec.Probe.{Text}

-- The entry points of <va/va.h> that the code names, and any other.
pub data VaEntrypoint : Type 0 where
  vld enc_slice enc_slice_lp : VaEntrypoint
  other : ℕ → VaEntrypoint

-- A display: vaMaxNumEntrypoints, vaQueryConfigEntrypoints, the value of VAConfigAttribRTFormat
-- and vaCreateConfig. `none` and `false` stand for a call that fails.
pub record VaDisplay : Type 0 where
  pub max_num_entrypoints : ℤ
  pub config_entrypoints : VaProfile → Option (List VaEntrypoint)
  pub rt_format : VaProfile → VaEntrypoint → Option ℕ
  pub create_config : VaProfile → VaEntrypoint → ℕ → Bool

-- Constants of <va/va.h>.
abbrev va_attrib_not_supported : ℕ
va_attrib_not_supported = 0x80000000

abbrev va_rt_format_yuv420 : ℕ
va_rt_format_yuv420 = 1

-- `supportsDirection`.
unfoldable pub supports_direction : CodecDirection → VaEntrypoint → Bool
supports_direction decode vld = true
supports_direction decode enc_slice = false
supports_direction decode enc_slice_lp = false
supports_direction decode (other n) = false
supports_direction encode vld = false
supports_direction encode enc_slice = true
supports_direction encode enc_slice_lp = true
supports_direction encode (other n) = false

-- The tests of an entry point behind that of its direction.
unfoldable pub makes_config : VaDisplay → VaProfile → VaEntrypoint → Option ℕ → Bool
makes_config d profile e none = false
makes_config d profile e (some value) =
    not (value == va_attrib_not_supported || bit_and value va_rt_format_yuv420 == 0)
    && d.create_config profile e value

-- The loop of `HasUsableConfiguration`.
unfoldable pub usable_loop : VaDisplay → VaProfile → CodecDirection → List VaEntrypoint → Bool
unfolding supports_direction makes_config
usable_loop d profile direction [] = false
usable_loop d profile direction (e ∷ es) =
    let rest = usable_loop d profile direction es in
    if not (supports_direction direction e)
    then rest
    else if makes_config d profile e (d.rt_format profile e)
    then true
    else rest

abbrev pub usable_entrypoints :
    VaDisplay → VaProfile → CodecDirection → Option (List VaEntrypoint) → Bool
usable_entrypoints d profile direction none = false
usable_entrypoints d profile direction (some es) = usable_loop d profile direction es

-- `HasUsableConfiguration`.
unfoldable pub has_usable_configuration : VaDisplay → CodecDirection → VaProfile → Bool
unfolding usable_loop
has_usable_configuration d direction profile =
    if is_neg d.max_num_entrypoints || magnitude d.max_num_entrypoints == 0
    then false
    else usable_entrypoints d profile direction (d.config_entrypoints profile)

pub data AvCodecId : Type 0 where
  id_h264 id_hevc id_vp8 id_vp9 id_av1 id_mpeg2video : AvCodecId

-- `ToAvCodecId`.
unfoldable pub to_av_codec_id : CodecType → AvCodecId
to_av_codec_id avc = id_h264
to_av_codec_id hevc = id_hevc
to_av_codec_id vp8 = id_vp8
to_av_codec_id vp9 = id_vp9
to_av_codec_id av1 = id_av1
to_av_codec_id mpeg2 = id_mpeg2video

-- A hardware configuration of a decoder: whether its device is VA-API, and its pictures.
pub record HwConfig : Type 0 where
  pub vaapi_device : Bool
  pub vaapi_pictures : Bool

-- FFmpeg: the encoders by name, and the decoders by name and by id, each with the list that
-- `avcodec_get_hw_config` walks.
pub record Ffmpeg : Type 0 where
  pub has_encoder : String → Bool
  pub decoder_by_name : String → Option (List HwConfig)
  pub decoder_by_id : AvCodecId → Option (List HwConfig)

abbrev pub or_else : Option (List HwConfig) → Option (List HwConfig) → Option (List HwConfig)
or_else none second = second
or_else (some first) second = some first

abbrev pub has_hw_config : Option (List HwConfig) → Bool
has_hw_config none = false
has_hw_config (some configs) = any (λ c. c.vaapi_device && c.vaapi_pictures) configs

-- `HasFfmpegCodec`.
unfoldable pub codec_in : Ffmpeg → CodecSpec → CodecDirection → Bool
unfolding to_av_codec_id
codec_in ffmpeg spec encode = ffmpeg.has_encoder spec.ffmpeg_name
codec_in ffmpeg spec decode = has_hw_config (
    or_else (ffmpeg.decoder_by_name spec.ffmpeg_name)
      (ffmpeg.decoder_by_id (to_av_codec_id spec.codec)))

unfoldable pub has_ffmpeg_codec : Ffmpeg → CodecSpec → Bool
unfolding codec_in
has_ffmpeg_codec ffmpeg spec = codec_in ffmpeg spec spec.direction

-- `VaapiDevice`.
pub record VaapiDevice : Type 0 where
  pub path : Text
  pub display : VaDisplay

-- The loop of `Create`: the devices whose context and display are there. `open_display` gives
-- `none` where one is missing.
unfoldable pub open_devices : (Text → Option VaDisplay) → List Text → List VaapiDevice
open_devices open_display [] = []
open_devices open_display (path ∷ paths) =
    let later = open_devices open_display paths in
    elim (open_display path) [ none ↦ later | some d ↦ record { path = path; display = d } ∷ later ]

-- `Create`: the devices of the probe, or `none` for a null pointer.
unfoldable pub create_vaapi : (Text → Option VaDisplay) → List Text → Option (List VaapiDevice)
unfolding open_devices
create_vaapi open_display paths =
    let devices = open_devices open_display paths in if is_empty devices then none else some devices

unfoldable pub first_usable : List VaapiDevice → CodecSpec → Option Text
unfolding has_usable_configuration
first_usable [] spec = none
first_usable (d ∷ devices) spec =
    let later = first_usable devices spec in
    if any (has_usable_configuration d.display spec.direction) spec.va_profiles
    then some d.path
    else later

-- `FindDevicePath` of a probe with these devices.
unfoldable pub find_vaapi_path : Ffmpeg → List VaapiDevice → CodecSpec → Option Text
unfolding first_usable has_ffmpeg_codec
find_vaapi_path ffmpeg devices spec =
    if not (has_ffmpeg_codec ffmpeg spec) then none else first_usable devices spec
