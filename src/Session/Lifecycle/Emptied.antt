-- ===== src/Session/Lifecycle/Emptied.antt =====
-- A session without images and frames, and actions that keep it so.
use hardware_floral_codec.Common.{
  ℕ, zero, suc, ◌-◌, ◌≡◌, ◌≢◌, refl, ap, Bool, true, false, Option, none, some, List, [], ◌++◌, All,
  length, take, replicate, arith,
}
use hardware_floral_codec.Session.{C2Status, c2_ok}
use hardware_floral_codec.Session.Outcome.{
  Outcome, returns, fails, Action, Holds, Ensures, answered-Ensures, answered,
}
use hardware_floral_codec.Session.Device.{call}
use hardware_floral_codec.Session.Device.Answers.{IsError}
use hardware_floral_codec.Session.Configure.{EncoderSettings}
use hardware_floral_codec.Session.Configure.Formats.{IsUnset}
use hardware_floral_codec.Session.Lifecycle.{
  Impl, DecoderSettings, is_positive, with_device, put_device, on_device,
}

pub resized :
    (count : ℕ) (xs : List Bool)
    → xs ≡ []
    → take count xs ++ replicate (count - length xs) false ≡ replicate count false
resized count xs q = rw q (from_empty count)
  where
    from_empty : (n : ℕ) → take n [] ++ replicate (n - 0) false ≡ replicate n false
    from_empty zero = refl
    from_empty (suc n) =
        let same : suc n - 0 ≡ suc n = omega arith in ap (λ (k : ℕ). replicate k false) same

module _ {S : Type 0} where
  pub answered-IsError : (r : S × Bool) → Ensures (λ u s. Unit) IsError (r.0, answered r.1)
  answered-IsError (s, b) = answered-Ensures s b (λ h. tt) (λ q. cc)

  pub call-any : {A : Type 0} (r : S × Option A) → Ensures (λ a s. Unit) IsError (call r)
  call-any (s, none) = record { holds = λ q. cc }
  call-any (s, some a) = record { holds = tt }

module _ {S B G K : Type 0} where
  -- No image and no frame, of an encoder or a decoder.
  abbrev pub IsEmptied : Impl S B G K → Type 0
  IsEmptied x = IsUnset x.encoder × (x.decoder_capture ≡ []) × (x.decoder_pending ≡ [])

  abbrev pub IsUnopened : C2Status → Impl S B G K → Type 0
  IsUnopened e x = (e ≢ c2_ok) × IsEmptied x

  -- An encoder with the settings that it was opened with.
  pub record IsEncoder (settings : Option EncoderSettings) (x : Impl S B G K) : Type 0 where
    pub emptied : IsEmptied x
    pub has_fd : x.has_fd ≡ true
    pub settings_now : EncoderSettings
    pub given : settings ≡ some settings_now
    pub same : x.encoder.encoder_settings ≡ some settings_now
    pub positive : is_positive settings_now ≡ true

  -- A decoder whose input queue runs, with free slots, each with a mapped buffer.
  pub record IsDecoder (settings : Option DecoderSettings) (x : Impl S B G K) : Type 0 where
    pub emptied : IsEmptied x
    pub has_fd : x.has_fd ≡ true
    pub same : x.decoder_settings ≡ settings
    pub streams : x.encoder.output_streaming ≡ true
    pub free : All (λ queued. queued ≡ false) x.decoder_inputs
    pub mapped : length x.decoder_inputs ≡ length x.output_mmaps
    pub some_slot : length x.decoder_inputs ≢ 0

  -- A session that is being opened, with the settings of a decoder.
  abbrev pub IsOpening : Option DecoderSettings → Impl S B G K → Type 0
  IsOpening settings x =
      IsEmptied x × ((x.has_fd ≡ true) × (x.decoder_settings ≡ settings) × (x.decoder_inputs ≡ []))

  abbrev pub Closed : Option DecoderSettings → Impl S B G K → Type 0
  Closed settings x = IsEmptied x × ((x.decoder_settings ≡ settings) × (x.decoder_inputs ≡ []))

  -- Rules for actions on the device, for a property of the other members.
  module _ (P : Impl S B G K → Type 0)
      (stable : (x : Impl S B G K) (s : S) → P x → P (with_device s x))
      (empty : (x : Impl S B G K) → P x → IsEmptied x) where
    put_device-Holds :
        {A : Type 0} (Q : A → Type 0) (x : Impl S B G K) (r : S × Outcome A)
        → P x
        → Holds (λ a s. Q a) IsError r
        → Holds (λ a x'. Q a × P x') IsUnopened (put_device x r)
    put_device-Holds Q x (s, returns a) h q = (q, stable x s h)
    put_device-Holds Q x (s, fails e) h q = (q, empty (with_device s x) (stable x s h))

    pub on_device-Ensures :
        {A : Type 0} (Q : A → Type 0) (m : Action S A) (x : Impl S B G K)
        → P x
        → Ensures (λ a s. Q a) IsError (m x.encoder.device)
        → Ensures (λ a x'. Q a × P x') IsUnopened (on_device m x)
    unfolding on_device
    on_device-Ensures Q m x h r = record {
      holds = put_device-Holds Q x (m x.encoder.device) h r.holds;
    }
