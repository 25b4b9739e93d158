-- ===== src/Session/Configure/Level.antt =====
-- The level of an H.264 stream covers every picture that the device may code.
use hardware_floral_codec.Common.{◌+◌, ◌^◌, ◌<◌, ◌≡◌, ◌≢◌, refl, ap, max, Option, none, some, arith}
use hardware_floral_codec.Common.Int.{pos}
use hardware_floral_codec.H264Level.{H264Level, level_value, level_limits, find_minimum_h264_level}
use hardware_floral_codec.H264Level.Least.{Found, Covers, find_minimum_h264_level-Found}
use hardware_floral_codec.Session.{C2Status, c2_ok, c2_bad_value}
use hardware_floral_codec.Session.Outcome.{
  Outcome, Action, Ensures, then-Ensures, mono-Ensures, status-Ensures, returns, fails, Holds,
}
use hardware_floral_codec.Session.Device.{Format}
use hardware_floral_codec.Session.Device.Answers.{IsError}
use hardware_floral_codec.Session.Controls.Verified.{
  ControlStands, set_and_verify_control-ControlStands,
}
use hardware_floral_codec.Session.Configure.{
  EncoderSettings, Driver, Encoder, cid_h264_profile, cid_h264_level, v4l2_h264_profile, put_device,
  on_device, put_status, checked, set_level, coded_width, coded_height, configure_level,
}

-- Rules for actions on the device, for a property of the other members.
module _ {S B G : Type 0} (P : Encoder S B G → Type 0) (E : C2Status → Encoder S B G → Type 0)
    (stable : (x : Encoder S B G) (s : S) → P x → P (record x { device = s }))
    (bad : (e : C2Status) (x : Encoder S B G) → e ≢ c2_ok → P x → E e x) where
  put_status-Ensures :
      (x : Encoder S B G) (r : S × C2Status)
      → P x
      → Ensures (λ u x'. (r.1 ≡ c2_ok) × P x') E (put_status x r)
  put_status-Ensures x (s, e) h =
      status-Ensures (record x { device = s }) e (λ ok. (ok, stable x s h))
        (λ ne. bad e (record x { device = s }) ne (stable x s h))

  pub checked-Ensures :
      (m : S → S × C2Status) (x : Encoder S B G)
      → P x
      → Ensures (λ u x'. ((m x.device).1 ≡ c2_ok) × P x') E (checked m x)
  unfolding checked
  checked-Ensures m x h = put_status-Ensures x (m x.device) h

  put_device-Holds :
      {A : Type 0} (Q : A → Type 0) (x : Encoder S B G) (r : S × Outcome A)
      → P x
      → Holds (λ a s. Q a) IsError r
      → Holds (λ a x'. Q a × P x') E (put_device x r)
  put_device-Holds Q x (s, returns a) h q = (q, stable x s h)
  put_device-Holds Q x (s, fails e) h q = bad e (record x { device = s }) q (stable x s h)

  pub on_device-Ensures :
      {A : Type 0} (Q : A → Type 0) (m : Action S A) (x : Encoder S B G)
      → P x
      → Ensures (λ a s. Q a) IsError (m x.device)
      → Ensures (λ a x'. Q a × P x') E (on_device m x)
  unfolding on_device
  on_device-Ensures Q m x h r = record { holds = put_device-Holds Q x (m x.device) h r.holds }

module _ {S B G : Type 0} (d : Driver S) where
  -- The level that the code selects, with the profile and the level that the device reads back.
  pub record HasLevel (settings : EncoderSettings) (raw coded : Format) (x : Encoder S B G)
      : Type 0 where
    pub level : H264Level
    pub selected :
        find_minimum_h264_level
          (coded_width settings raw coded x.raw_stride)
          (coded_height settings raw coded)
          settings.frame_rate
          (max x.effective_bitrate x.encoder_peak_bitrate)
          settings.h264_profile
        ≡ some level
    pub at_profile : S
    pub profile_stands :
        ControlStands d.controls cid_h264_profile
          (pos (v4l2_h264_profile settings.h264_profile))
          at_profile
    pub at_level : S
    pub level_stands : ControlStands d.controls cid_h264_level (pos (level_value level)) at_level

  module _ (P : Encoder S B G → Type 0) (E : C2Status → Encoder S B G → Type 0)
      (stable : (x : Encoder S B G) (s : S) → P x → P (record x { device = s }))
      (bad : (e : C2Status) (x : Encoder S B G) → e ≢ c2_ok → P x → E e x)
      (settings : EncoderSettings) (raw coded : Format) where
    -- The members but the device are those of a given state.
    abbrev SameButDevice : Encoder S B G → Encoder S B G → Type 0
    SameButDevice x0 x = x ≡ record x0 { device = x.device }

    set_level-HasLevel :
        (x : Encoder S B G) (r : Option H264Level)
        → find_minimum_h264_level
            (coded_width settings raw coded x.raw_stride)
            (coded_height settings raw coded)
            settings.frame_rate
            (max x.effective_bitrate x.encoder_peak_bitrate)
            settings.h264_profile
          ≡ r
        → P x
        → Ensures (λ u x'. HasLevel settings raw coded x' × P x') E (set_level d settings r x)
    set_level-HasLevel x none q h = record { holds = bad c2_bad_value x (λ e. cc) h }
    set_level-HasLevel x (some level) q h =
        then-Ensures _ _ _ _
          (checked-Ensures (λ x'. SameButDevice x x' × P x') E
            (λ x' s k. (ap (λ (y : Encoder S B G). record y { device = s }) k.0, stable x' s k.1))
            (λ e x' ne k. bad e x' ne k.1) _ x (refl, h))
          (λ u x1 k.
            mono-Ensures
              (checked-Ensures (λ x'. SameButDevice x x' × P x') E
                (λ x' s k'.
                  (ap (λ (y : Encoder S B G). record y { device = s }) k'.0, stable x' s k'.1))
                (λ e x' ne k'. bad e x' ne k'.1) _ x1 k.1)
              (λ u2 x2 k2. (
                record {
                  level = level;
                  selected = rw k2.1.0 q;
                  at_profile = x.device;
                  profile_stands = set_and_verify_control-ControlStands d.controls _ _ x.device k.0;
                  at_level = x1.device;
                  level_stands = set_and_verify_control-ControlStands d.controls _ _ x1.device k2.0;
                },
                k2.1.1,
              ))
              (λ e x2 z. z))

    pub configure_level-HasLevel :
        (x : Encoder S B G)
        → P x
        → Ensures
            (λ u x'. HasLevel settings raw coded x' × P x')
            E
            (configure_level d settings raw coded x)
    unfolding configure_level
    configure_level-HasLevel x h = set_level-HasLevel x _ refl h

  -- A stream that has a level: the one that the code selects covers it, and the device has it.
  pub record IsCovered (settings : EncoderSettings) (raw coded : Format) (x : Encoder S B G)
      : Type 0 where
    pub level : H264Level
    pub covers :
        Found
          (Covers
            (max (max (max settings.width raw.width) coded.width) x.raw_stride)
            (max (max settings.height raw.height) coded.height)
            settings.frame_rate
            (max x.effective_bitrate x.encoder_peak_bitrate)
            settings.h264_profile)
          level_limits
          (some level)
    pub at_level : S
    pub level_stands : ControlStands d.controls cid_h264_level (pos (level_value level)) at_level

  pub HasLevel-IsCovered :
      (settings : EncoderSettings) (raw coded : Format) (x : Encoder S B G)
      → (0 < settings.width)
        × (0 < settings.height)
        × (0 < settings.frame_rate)
        × (settings.frame_rate < 2 ^ 32)
      → (settings.width + 15 < 2 ^ 32) × (settings.height + 15 < 2 ^ 32)
      → (raw.width + 15 < 2 ^ 32) × (raw.height + 15 < 2 ^ 32) × (x.raw_stride + 15 < 2 ^ 32)
      → (coded.width + 15 < 2 ^ 32) × (coded.height + 15 < 2 ^ 32)
      → 0 < x.effective_bitrate
      → HasLevel settings raw coded x
      → IsCovered settings raw coded x
  HasLevel-IsCovered settings raw coded x h w r c b l = record {
    level = l.level;
    covers = rw l.selected at (
        find_minimum_h264_level-Found (coded_width settings raw coded x.raw_stride)
          (coded_height settings raw coded) settings.frame_rate
          (max x.effective_bitrate x.encoder_peak_bitrate) settings.h264_profile (ground arith)
          (ground arith) (ground arith) (ground arith) (ground arith) (ground arith)
          (ground arith));
    at_level = l.at_level;
    level_stands = l.level_stands;
  }
