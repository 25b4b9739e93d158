-- ===== src/CodecSpec.antt =====
-- include/floral/codec/CodecSpec.h and src/CodecSpec.cpp: the table of codecs. The backend that
-- the preprocessor selects is an argument.
use Prim.Native.String.{String}
use hardware_floral_codec.Common.{ℕ, List, [], ◌∷◌}

-- FLORAL_CODEC_BACKEND_V4L2_M2M or FLORAL_CODEC_BACKEND_VAAPI.
pub data Backend : Type 0 where
  v4l2_m2m vaapi : Backend

pub data CodecDirection : Type 0 where
  decode encode : CodecDirection

pub data CodecType : Type 0 where
  avc hevc vp8 vp9 av1 mpeg2 : CodecType

-- The constants of <va/va.h> and of MediaDefs.h that the table names.
pub data VaProfile : Type 0 where
  h264_high h264_main h264_constrained_baseline hevc_main vp8_version0_3 vp9_profile0 av1_profile0 :
      VaProfile
  mpeg2_main mpeg2_simple : VaProfile

pub data MediaType : Type 0 where
  video_avc video_hevc video_vp8 video_vp9 video_av1 video_mpeg2 : MediaType

pub record CodecSpec : Type 0 where
  pub component_name : String
  pub media_type : MediaType
  pub ffmpeg_name : String
  pub codec : CodecType
  pub direction : CodecDirection
  pub va_profiles : List VaProfile
  pub max_width : ℕ
  pub max_height : ℕ

-- `VA_PROFILES`.
abbrev va_profiles_for : Backend → List VaProfile → List VaProfile
va_profiles_for v4l2_m2m profiles = []
va_profiles_for vaapi profiles = profiles

abbrev choose : Backend → String → String → String
choose v4l2_m2m on_v4l2 on_vaapi = on_v4l2
choose vaapi on_v4l2 on_vaapi = on_vaapi

-- The entries between `#if defined(FLORAL_CODEC_BACKEND_VAAPI)` and `#endif`.
abbrev only_vaapi : Backend → List CodecSpec → List CodecSpec → List CodecSpec
only_vaapi v4l2_m2m entries later = later
only_vaapi vaapi [] later = later
only_vaapi vaapi (e ∷ entries) later = e ∷ only_vaapi vaapi entries later

abbrev max_side : ℕ
max_side = 4_096

abbrev entry : String → MediaType → String → CodecType → CodecDirection → List VaProfile → CodecSpec
entry name media ffmpeg codec direction profiles = record {
  component_name = name;
  media_type = media;
  ffmpeg_name = ffmpeg;
  codec = codec;
  direction = direction;
  va_profiles = profiles;
  max_width = max_side;
  max_height = max_side;
}

abbrev h264_profiles : List VaProfile
h264_profiles = h264_high ∷ h264_main ∷ h264_constrained_baseline ∷ []

-- `GetCodecSpecs`.
unfoldable pub get_codec_specs : Backend → List CodecSpec
get_codec_specs b =
    entry "c2.floral.avc.encoder" video_avc (choose b "h264_v4l2m2m" "h264_vaapi") avc encode
      (va_profiles_for b h264_profiles)
    ∷ entry "c2.floral.avc.decoder" video_avc (choose b "h264_v4l2m2m" "h264") avc decode
        (va_profiles_for b h264_profiles)
    ∷ entry "c2.floral.hevc.encoder" video_hevc (choose b "hevc_v4l2m2m" "hevc_vaapi") hevc encode
        (va_profiles_for b (hevc_main ∷ []))
    ∷ entry "c2.floral.hevc.decoder" video_hevc (choose b "hevc_v4l2m2m" "hevc") hevc decode
        (va_profiles_for b (hevc_main ∷ []))
    ∷ entry "c2.floral.vp8.encoder" video_vp8 (choose b "vp8_v4l2m2m" "vp8_vaapi") vp8 encode
        (va_profiles_for b (vp8_version0_3 ∷ []))
    ∷ entry "c2.floral.vp8.decoder" video_vp8 (choose b "vp8_v4l2m2m" "vp8") vp8 decode
        (va_profiles_for b (vp8_version0_3 ∷ []))
    ∷ only_vaapi b
        (entry "c2.floral.vp9.encoder" video_vp9 "vp9_vaapi" vp9 encode (vp9_profile0 ∷ []) ∷ [])
        (entry "c2.floral.vp9.decoder" video_vp9 (choose b "vp9_v4l2m2m" "vp9") vp9 decode
            (va_profiles_for b (vp9_profile0 ∷ []))
          ∷ only_vaapi b
              (entry "c2.floral.av1.encoder" video_av1 "av1_vaapi" av1 encode (av1_profile0 ∷ [])
                ∷ entry "c2.floral.av1.decoder" video_av1 "av1" av1 decode (av1_profile0 ∷ [])
                ∷ entry "c2.floral.mpeg2.encoder" video_mpeg2 "mpeg2_vaapi" mpeg2 encode
                    (mpeg2_main ∷ mpeg2_simple ∷ [])
                ∷ [])
              (entry "c2.floral.mpeg2.decoder" video_mpeg2 (choose b "mpeg2_v4l2m2m" "mpeg2video")
                  mpeg2 decode (va_profiles_for b (mpeg2_main ∷ mpeg2_simple ∷ []))
                ∷ []))
