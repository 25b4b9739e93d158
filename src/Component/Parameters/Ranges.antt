-- ===== src/Component/Parameters/Ranges.antt =====
-- The settings that onInit hands to an encoder's session are those that its Open accepts.
use hardware_floral_codec.Common.{
  ℕ, ◌≤◌, ◌≡◌, refl, Bool, true, false, List, [], ◌∷◌, arith, if◌then◌else◌,
}
use hardware_floral_codec.Session.Configure.{EncoderSettings}
use hardware_floral_codec.Session.Lifecycle.{is_positive}
use hardware_floral_codec.Component.Parameters.{
  Profile, EncoderParameters, Framework, size_setter, default_parameters, Update, to_size,
  to_bitrate, to_mode, to_frame_rate, to_period, to_request, to_profile, update, update_all,
  v4l2_settings,
}

module _ {F : Type 0} (f : Framework F) where
  -- What the framework keeps of the declared ranges.
  pub record HasRanges (max_width max_height : ℕ) : Type 0 where
    pub wide : (n : ℕ) → f.supports_width n ≡ true → (256 ≤ n) × (n ≤ max_width)
    pub tall : (n : ℕ) → f.supports_height n ≡ true → (128 ≤ n) × (n ≤ max_height)
    pub rate : (x : F) → (1 ≤ f.round (f.set_frame_rate x)) × (f.round (f.set_frame_rate x) ≤ 240)
    pub default_rate : f.round f.default_frame_rate ≡ 30
    pub room : (1_280 ≤ max_width) × (720 ≤ max_height)

  pub record IsInRange (max_width max_height : ℕ) (e : EncoderSettings) : Type 0 where
    pub width_range : (256 ≤ e.width) × (e.width ≤ max_width)
    pub height_range : (128 ≤ e.height) × (e.height ≤ max_height)
    pub rate_range : (1 ≤ e.frame_rate) × (e.frame_rate ≤ 240)
    pub bitrate_range : 16_000 ≤ e.bitrate

  module _ (max_width max_height : ℕ) (ranges : HasRanges max_width max_height) where
    default-IsInRange :
        (profile : Profile)
        → IsInRange max_width max_height (v4l2_settings f (default_parameters f profile))
    unfolding v4l2_settings default_parameters
    default-IsInRange profile =
        let rate = ranges.default_rate in
        let room = ranges.room in
        record {
          width_range = (omega arith, omega (arith, room.0));
          height_range = (omega arith, omega (arith, room.1));
          rate_range = (omega (arith, rate), omega (arith, rate));
          bitrate_range = omega arith;
        }

    module _ (P : ℕ → Type 0) where
      chosen : (b : Bool) (new old : ℕ) → (b ≡ true → P new) → P old → P (if b then new else old)
      chosen true new old h k = h refl
      chosen false new old h k = k

    update-IsInRange :
        (p : EncoderParameters F) (u : Update f)
        → IsInRange max_width max_height (v4l2_settings f p)
        → IsInRange max_width max_height (v4l2_settings f (update f p u))
    unfolding v4l2_settings update size_setter
    update-IsInRange p (to_size size) h = record {
      width_range =
          chosen (λ n. (256 ≤ n) × (n ≤ max_width)) (f.supports_width size.width) size.width
            p.input_size.width (ranges.wide size.width) h.width_range;
      height_range =
          chosen (λ n. (128 ≤ n) × (n ≤ max_height)) (f.supports_height size.height) size.height
            p.input_size.height (ranges.tall size.height) h.height_range;
      rate_range = h.rate_range;
      bitrate_range = h.bitrate_range;
    }
    update-IsInRange p (to_bitrate n) h = record {
      width_range = h.width_range;
      height_range = h.height_range;
      rate_range = h.rate_range;
      bitrate_range = omega arith;
    }
    update-IsInRange p (to_frame_rate x) h = record {
      width_range = h.width_range;
      height_range = h.height_range;
      rate_range = ranges.rate x;
      bitrate_range = h.bitrate_range;
    }
    update-IsInRange p (to_mode mode) h = record {
      width_range = h.width_range;
      height_range = h.height_range;
      rate_range = h.rate_range;
      bitrate_range = h.bitrate_range;
    }
    update-IsInRange p (to_period period) h = record {
      width_range = h.width_range;
      height_range = h.height_range;
      rate_range = h.rate_range;
      bitrate_range = h.bitrate_range;
    }
    update-IsInRange p (to_request sync) h = record {
      width_range = h.width_range;
      height_range = h.height_range;
      rate_range = h.rate_range;
      bitrate_range = h.bitrate_range;
    }
    update-IsInRange p (to_profile profile) h = record {
      width_range = h.width_range;
      height_range = h.height_range;
      rate_range = h.rate_range;
      bitrate_range = h.bitrate_range;
    }

    update_all-IsInRange :
        (p : EncoderParameters F) (us : List (Update f))
        → IsInRange max_width max_height (v4l2_settings f p)
        → IsInRange max_width max_height (v4l2_settings f (update_all f p us))
    unfolding update_all
    update_all-IsInRange p [] h = h
    update_all-IsInRange p (u ∷ us) h =
        update_all-IsInRange (update f p u) us (update-IsInRange p u h)

    IsInRange-positive :
        (e : EncoderSettings) → IsInRange max_width max_height e → is_positive e ≡ true
    IsInRange-positive e h =
        let w = h.width_range.0 in
        let t = h.height_range.0 in
        let r = h.rate_range.0 in let b = h.bitrate_range in ground arith

    -- Whatever is configured, in any order, where the framework keeps a field of a size and a
    -- frame rate in the declared ranges: the settings that onInit hands to an encoder's session
    -- have sides between 256 by 128 and the greatest of the codec, a frame rate from 1 to 240, and
    -- a bitrate of 16000 or more, and they pass the test of the session's Open.
    pub v4l2_settings-IsInRange :
        (profile : Profile) (us : List (Update f))
        → IsInRange max_width max_height
            (v4l2_settings f (update_all f (default_parameters f profile) us))
          × (is_positive (v4l2_settings f (update_all f (default_parameters f profile) us)) ≡ true)
    v4l2_settings-IsInRange profile us =
        let h =
          update_all-IsInRange (default_parameters f profile) us (default-IsInRange profile) in
        (h, IsInRange-positive _ h)
