-- ===== src/Session/Controls.antt =====
-- src/V4l2CodecSession.cpp: the controls of an encoder, its bitrate and its crop.
pub mod Bitrate
pub mod Crop
pub mod Verified
mod Examples
use hardware_floral_codec.Common.{
  ℕ, ◌+◌, ◌-◌, ◌^◌, Bool, true, false, not, ◌&&◌, ◌||◌, Option, none, some, ltb, ◌==◌,
  if◌then◌else◌,
}
use hardware_floral_codec.Common.Int.{ℤ, pos, negsuc, ◌==ℤ◌}
use hardware_floral_codec.DecoderGeometry.{VisibleRect}
use hardware_floral_codec.Session.{C2Status, c2_ok, c2_bad_value, c2_corrupted, c2_omitted}

-- VIDIOC_QUERYCTRL, whether it gives a control that is not disabled; VIDIOC_S_CTRL and
-- VIDIOC_G_CTRL; VIDIOC_TRY_EXT_CTRLS of a target bitrate, with the value that the driver makes of it;
-- and VIDIOC_S_SELECTION and VIDIOC_G_SELECTION of the crop.
pub record Driver (S : Type 0) : Type 0 where
  pub queryctrl : ℕ → S → S × Bool
  pub s_ctrl : ℕ → ℤ → S → S × Bool
  pub g_ctrl : ℕ → S → S × Option ℤ
  pub try_bitrate : ℤ → S → S × Option ℤ
  pub s_selection : ℕ → ℕ → S → S × Option VisibleRect
  pub g_selection : S → S × Option VisibleRect

-- The members of the session that a bitrate touches or depends on.
pub record EncoderBitrate : Type 0 where
  pub venus_encoder : Bool
  pub encoder_configured : Bool
  pub current_bitrate : ℕ
  pub effective_bitrate : ℕ
  pub encoder_peak_bitrate : ℕ

-- V4L2_CID_MPEG_VIDEO_BITRATE and V4L2_CID_MPEG_VIDEO_BITRATE_PEAK.
abbrev pub cid_bitrate : ℕ
cid_bitrate = 0x9909cf

abbrev pub cid_bitrate_peak : ℕ
cid_bitrate_peak = 0x9909d0

-- std::numeric_limits<int32_t>::max().
abbrev pub int32_max : ℕ
int32_max = 2 ^ 31 - 1

abbrev pub status_of : Bool → C2Status
status_of true = c2_ok
status_of false = c2_corrupted

-- The value that a call leaves, or its error.
pub data Applied : Type 0 where
  applied : ℕ → Applied
  not_applied : C2Status → Applied

-- The tests of a bitrate that was read back.
abbrev pub positive : Option ℤ → Applied
positive none = not_applied c2_corrupted
positive (some (negsuc n)) = not_applied c2_corrupted
positive (some (pos n)) = if n == 0 then not_applied c2_corrupted else applied n

-- The target of a running Venus encoder: normalised by the driver, and within the peak.
abbrev pub within_peak : ℕ → Option ℤ → Applied
within_peak peak none = not_applied c2_corrupted
within_peak peak (some (negsuc n)) = not_applied c2_bad_value
within_peak peak (some (pos n)) =
    if n == 0 || ltb peak n then not_applied c2_bad_value else applied n

-- The members behind a bitrate that the driver took.
abbrev pub with_bitrate : ℕ → ℕ → EncoderBitrate → EncoderBitrate
with_bitrate bitrate effective m = record m {
  current_bitrate = bitrate;
  effective_bitrate = effective;
}

abbrev pub is_crop : ℕ → ℕ → VisibleRect → Bool
is_crop width height r =
    (r.left ==ℤ pos 0 && r.top ==ℤ pos 0) && (r.width == width && r.height == height)

module _ {S : Type 0} (d : Driver S) where
  -- `ControlSupported` and `SetControl`.
  unfoldable pub set_control : ℕ → ℤ → Bool → S → S × C2Status
  set_control id value required s =
      let (s1, supported) = d.queryctrl id s in
      let (s2, written) = d.s_ctrl id value s1 in
      if not supported
      then (s1, if required then c2_omitted else c2_ok)
      else (s2, status_of written)

  abbrev pub compare_stored : ℤ → S × Option ℤ → S × C2Status
  compare_stored value (s, none) = (s, c2_corrupted)
  compare_stored value (s, some stored) = (s, if stored ==ℤ value then c2_ok else c2_omitted)

  abbrev pub verify : ℕ → ℤ → S × C2Status → S × C2Status
  verify id value (s, c2_ok) = compare_stored value (d.g_ctrl id s)
  verify id value (s, e) = (s, e)

  -- `SetAndVerifyControl`.
  unfoldable pub set_and_verify_control : ℕ → ℤ → S → S × C2Status
  unfolding set_control
  set_and_verify_control id value s = verify id value (set_control id value true s)

  abbrev pub read_bitrate : ℕ → S × C2Status → S × Applied
  read_bitrate id (s, c2_ok) = let (s', r) = d.g_ctrl id s in (s', positive r)
  read_bitrate id (s, e) = (s, not_applied e)

  -- `ApplyBitrateControl` with an output that is not null.
  unfoldable pub apply_bitrate_control : ℕ → ℕ → S → S × Applied
  unfolding set_control
  apply_bitrate_control id value s = read_bitrate id (set_control id (pos value) true s)

  abbrev pub target_bitrate : ℕ → EncoderBitrate → S → S × Applied
  target_bitrate bitrate m s =
      let (s', r) = d.try_bitrate (pos bitrate) s in
      if m.venus_encoder && m.encoder_configured
      then (s', within_peak m.encoder_peak_bitrate r)
      else (s, applied bitrate)

  abbrev pub with_peak : ℕ → ℕ → EncoderBitrate → S × Applied → S × EncoderBitrate × C2Status
  with_peak bitrate effective m (s, not_applied e) = (s, m, e)
  with_peak bitrate effective m (s, applied peak) =
      if ltb peak effective
      then (s, m, c2_bad_value)
      else (s, with_bitrate bitrate effective (record m { encoder_peak_bitrate = peak }), c2_ok)

  -- What follows the write of the bitrate.
  abbrev pub with_effective : ℕ → EncoderBitrate → S × Applied → S × EncoderBitrate × C2Status
  with_effective bitrate m (s, not_applied e) = (s, m, e)
  with_effective bitrate m (s, applied effective) =
      if m.venus_encoder && (m.encoder_configured && ltb m.encoder_peak_bitrate effective)
      then (s, m, c2_corrupted)
      else if m.venus_encoder && not m.encoder_configured
      then with_peak bitrate effective m (apply_bitrate_control cid_bitrate_peak effective s)
      else (s, with_bitrate bitrate effective m, c2_ok)

  abbrev pub with_target : ℕ → EncoderBitrate → S × Applied → S × EncoderBitrate × C2Status
  with_target bitrate m (s, not_applied e) = (s, m, e)
  with_target bitrate m (s, applied target) =
      with_effective bitrate m (apply_bitrate_control cid_bitrate target s)

  -- `SetEncoderBitrate`.
  unfoldable pub set_encoder_bitrate : ℕ → S → EncoderBitrate → S × EncoderBitrate × C2Status
  unfolding apply_bitrate_control
  set_encoder_bitrate bitrate s m =
      if bitrate == 0 || ltb int32_max bitrate
      then (s, m, c2_bad_value)
      else with_target bitrate m (target_bitrate bitrate m s)

  abbrev pub check_crop : ℕ → ℕ → VisibleRect → S × Option VisibleRect → S × C2Status
  check_crop width height selected (s, none) = (s, c2_omitted)
  check_crop width height selected (s, some verified) = (
    s,
    if is_crop width height selected && is_crop width height verified then c2_ok else c2_omitted,
  )

  abbrev pub with_selection : ℕ → ℕ → S × Option VisibleRect → S × C2Status
  with_selection width height (s, none) = (s, c2_omitted)
  with_selection width height (s, some selected) =
      check_crop width height selected (d.g_selection s)

  -- `SetVisibleCrop`.
  unfoldable pub set_visible_crop : ℕ → ℕ → S → S × C2Status
  set_visible_crop width height s = with_selection width height (d.s_selection width height s)
