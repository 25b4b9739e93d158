-- ===== src/Component/Parameters.antt =====
-- src/FloralCodecComponent.cpp: the setters of FloralCodecInterface, and the settings that onInit
-- hands to an encoder's session.
pub mod Ranges
mod Examples
use hardware_floral_codec.Common.{
  ℕ, ◌+◌, ◌*◌, ◌/◌, ◌%◌, ◌^◌, max, Bool, true, false, List, [], ◌∷◌, ltb, ◌&&◌, if◌then◌else◌,
}
use hardware_floral_codec.Common.Int.{ℤ, pos, negsuc}
use hardware_floral_codec.H264Level.{H264Profile, baseline, constrained_baseline, main, high}
use hardware_floral_codec.Session.{C2Status, c2_ok}
use hardware_floral_codec.Session.Configure.{EncoderSettings}
use hardware_floral_codec.Component.DecoderConfig.{cleared}
use hardware_floral_codec.Component.Process.{State}

-- The values of C2Config::profile_t that the code names, and any other.
pub data Profile : Type 0 where
  avc_baseline avc_constrained_baseline avc_main avc_high : Profile
  other_profile : ℕ → Profile

-- C2Config::bitrate_mode_t.
pub data BitrateMode : Type 0 where
  bitrate_const bitrate_const_skip_allowed bitrate_variable other_mode : BitrateMode

pub record PictureSize : Type 0 where
  pub width : ℕ
  pub height : ℕ

-- The parameters of an encoder, over the type of a float.
pub record EncoderParameters (F : Type 0) : Type 0 where
  pub input_size : PictureSize
  pub bitrate : ℕ
  pub bitrate_mode : BitrateMode
  pub frame_rate : F
  pub sync_frame_period : ℤ
  pub request_sync : Bool
  pub profile : Profile

-- supportsAtAll of the fields of a size, the framework's setter of a frame rate, the default
-- `kDefaultFrameRate`, and the conversions of a frame rate: std::round of it as a uint32_t, and the
-- int64_t of the frames in a period of microseconds.
pub record Framework (F : Type 0) : Type 0 where
  pub supports_width : ℕ → Bool
  pub supports_height : ℕ → Bool
  pub set_frame_rate : F → F
  pub default_frame_rate : F
  pub round : F → ℕ
  pub frames_in : F → ℤ → ℤ

-- `ToH264Profile`.
unfoldable pub to_h264_profile : Profile → H264Profile
to_h264_profile avc_baseline = baseline
to_h264_profile avc_constrained_baseline = constrained_baseline
to_h264_profile avc_main = main
to_h264_profile avc_high = high
to_h264_profile (other_profile n) = high

-- `BitrateSetter`.
abbrev pub bitrate_setter : ℕ → ℕ
bitrate_setter value = max value 16_000

abbrev pub max_picture_dimension : ℕ
max_picture_dimension = 4_096

abbrev pub smaller : ℕ → ℕ → ℕ
smaller a b = if ltb b a then b else a

-- `MaxOutputSizeSetter`.
unfoldable pub max_output_size_setter : PictureSize → PictureSize → PictureSize
max_output_size_setter value size = record {
  width = smaller (max value.width size.width) max_picture_dimension;
  height = smaller (max value.height size.height) max_picture_dimension;
}

-- `MaxInputSizeSetter`, in uint32_t.
unfoldable pub max_input_size_setter : PictureSize → ℕ
max_input_size_setter max_size = max 2_097_152 (
    (max_size.width + 15)
    % 2 ^ 32
    / 16
    * ((max_size.height + 15) % 2 ^ 32 / 16)
    % 2 ^ 32
    * 192
    % 2 ^ 32)

abbrev pub is_const : BitrateMode → Bool
is_const bitrate_const = true
is_const bitrate_const_skip_allowed = true
is_const bitrate_variable = false
is_const other_mode = false

-- `std::max<int64_t>(1, frames)` as a uint32_t.
abbrev pub gop_size_of : ℤ → ℕ
gop_size_of (pos n) = max 1 n % 2 ^ 32
gop_size_of (negsuc n) = 1

module _ {F : Type 0} (f : Framework F) where
  -- `EncoderSizeSetter`, with whether it fails no field; `DecoderSizeSetter` has the same body.
  unfoldable pub size_setter : PictureSize → PictureSize → PictureSize × Bool
  size_setter old value = (
    record {
      width = if f.supports_width value.width then value.width else old.width;
      height = if f.supports_height value.height then value.height else old.height;
    },
    f.supports_width value.width && f.supports_height value.height,
  )

  -- The defaults of `AddEncoderParameters`, for a profile.
  unfoldable pub default_parameters : Profile → EncoderParameters F
  default_parameters profile = record {
    input_size = record { width = 1_280; height = 720 };
    bitrate = 4_000_000;
    bitrate_mode = bitrate_variable;
    frame_rate = f.default_frame_rate;
    sync_frame_period = pos 2_000_000;
    request_sync = false;
    profile = profile;
  }

  -- A parameter that is configured; a mode, a period, a request and a profile are what the
  -- framework's setters leave.
  pub data Update : Type 0 where
    to_size : PictureSize → Update
    to_bitrate : ℕ → Update
    to_mode : BitrateMode → Update
    to_frame_rate : F → Update
    to_period : ℤ → Update
    to_request : Bool → Update
    to_profile : Profile → Update

  unfoldable pub update : EncoderParameters F → Update → EncoderParameters F
  unfolding size_setter
  update p (to_size size) = record p { input_size = (size_setter p.input_size size).0 }
  update p (to_bitrate n) = record p { bitrate = bitrate_setter n }
  update p (to_mode mode) = record p { bitrate_mode = mode }
  update p (to_frame_rate rate) = record p { frame_rate = f.set_frame_rate rate }
  update p (to_period period) = record p { sync_frame_period = period }
  update p (to_request sync) = record p { request_sync = sync }
  update p (to_profile profile) = record p { profile = profile }

  unfoldable pub update_all : EncoderParameters F → List Update → EncoderParameters F
  unfolding update
  update_all p [] = p
  update_all p (u ∷ us) = update_all (update p u) us

  -- The settings of the session in `onInit`.
  unfoldable pub v4l2_settings : EncoderParameters F → EncoderSettings
  unfolding to_h264_profile
  v4l2_settings p = record {
    width = p.input_size.width;
    height = p.input_size.height;
    bitrate = p.bitrate;
    frame_rate = f.round p.frame_rate;
    gop_size = gop_size_of (f.frames_in p.frame_rate p.sync_frame_period);
    constant_bitrate = is_const p.bitrate_mode;
    h264_profile = to_h264_profile p.profile;
  }

-- CreateCodec2BlockPool, the reset of its pool, and `Open` of the session.
pub record EncoderCalls (S : Type 0) : Type 0 where
  pub create_pool : S → S × C2Status
  pub reset_pool : S → S
  pub open_encoder : EncoderSettings → S → S × C2Status

module _ {S : Type 0} (d : EncoderCalls S) where
  abbrev pub after_open : S × C2Status → S × C2Status
  after_open (s, c2_ok) = (s, c2_ok)
  after_open (s, e) = (d.reset_pool s, e)

  abbrev pub after_pool : EncoderSettings → S × C2Status → S × C2Status
  after_pool settings (s, c2_ok) = after_open (d.open_encoder settings s)
  after_pool settings (s, e) = (s, e)

module _ {S B U : Type 0} (d : EncoderCalls S) where
  abbrev pub put_session : State S B U → S × C2Status → State S B U × C2Status
  put_session st (s, e) = (record st { session = s }, e)

  -- `onInit` of an encoder.
  unfoldable pub on_init_encoder : EncoderSettings → State S B U → State S B U × C2Status
  on_init_encoder settings st =
      put_session
        (record st {
          config = cleared;
          signalled_error = false;
          signalled_eos = false;
          encoder_config_sent = false;
        })
        (after_pool d settings (d.create_pool (d.reset_pool st.session)))
