-- ===== src/Session/Configure/Formats.antt =====
-- The formats, the bitrate and the controls that ConfigureEncoder sets.
use hardware_floral_codec.Common.{
  ℕ, zero, suc, ◌-◌, ◌^◌, ◌≤◌, ◌≡◌, ◌≢◌, ◌%◌, refl, Bool, false, List, [], ◌∷◌, All, All-append,
  arith, length, length-append, get_or, take, replicate, if-cases, length-take,
}
use hardware_floral_codec.Common.Int.{ℤ}
use hardware_floral_codec.CodecSpec.{CodecType}
use hardware_floral_codec.DmaBuf.{MinigbmDmaBuf, no_plane}
use hardware_floral_codec.Session.{C2Status, c2_ok}
use hardware_floral_codec.Session.Outcome.{
  answered, Action, Ensures, bind-Ensures, then-Ensures, mono-Ensures, pure-Ensures, modify-Ensures,
  demand-Ensures, status-Ensures, answered-Ensures,
}
use hardware_floral_codec.Session.Device.{
  Format, output_queue, capture_queue, pix_fmt_nv12, compressed_format, compressed_buffer_size,
}
use hardware_floral_codec.Session.Device.Answers.{IsError, IsAnswered, set_format-IsAnswered}
use hardware_floral_codec.Session.Controls.{EncoderBitrate}
use hardware_floral_codec.Session.Controls.Bitrate.{
  IsApplied, SetBitrate, rejected, accepted, set_encoder_bitrate-SetBitrate,
}
use hardware_floral_codec.Session.EncoderFrames.{EncoderInputSlot, released}
use hardware_floral_codec.Session.Configure.{
  EncoderSettings, Driver, Encoder, configured, bitrate_of, put_bitrate, resize_inputs,
  apply_bitrate, optional_control, set_formats, set_controls,
}
use hardware_floral_codec.Session.Configure.Level.{checked-Ensures, on_device-Ensures}

pub length-replicate : {A : Type 0} (n : ℕ) (a : A) → length (replicate n a) ≡ n
length-replicate zero a = refl
length-replicate (suc n) a = omega (arith, length-replicate n a)

pub All-replicate : {A : Type 0} (P : A → Type 0) (n : ℕ) (a : A) → P a → All P (replicate n a)
All-replicate P zero a h = tt
All-replicate P (suc n) a h = (h, All-replicate P n a h)

All-take : {A : Type 0} (P : A → Type 0) (n : ℕ) (xs : List A) → All P xs → All P (take n xs)
All-take P zero xs h = tt
All-take P (suc n) [] h = tt
All-take P (suc n) (x ∷ xs) h = (h.0, All-take P n xs h.1)

abbrev pub stride_of : MinigbmDmaBuf → ℕ
stride_of input = (get_or input.planes 0 no_plane).stride

module _ {B G : Type 0} where
  abbrev pub AreFree : List (EncoderInputSlot B G) → Type 0
  AreFree = All (λ slot. slot ≡ released)

  pub resize_inputs-AreFree :
      (count : ℕ) (slots : List (EncoderInputSlot B G))
      → AreFree slots
      → AreFree (resize_inputs count slots)
  resize_inputs-AreFree count slots h =
      All-append (λ slot. slot ≡ released) (take count slots) _
        (All-take (λ slot. slot ≡ released) count slots h)
        (All-replicate (λ slot. slot ≡ released) (count - length slots) released refl)

  pub length-resize_inputs :
      (count : ℕ) (slots : List (EncoderInputSlot B G)) → length (resize_inputs count slots) ≡ count
  length-resize_inputs count slots = omega (
    arith,
    length-append (take count slots) (replicate (count - length slots) released),
    length-take count slots,
    length-replicate {A = EncoderInputSlot B G} (count - length slots) released,
  )

module _ {S B G : Type 0} where
  -- An encoder that is not configured, with no frame, and whose slots are empty.
  abbrev pub IsUnset : Encoder S B G → Type 0
  IsUnset x =
      (configured x ≡ false)
      × (x.queues.output.encoder_pending ≡ [])
      × AreFree x.queues.encoder_inputs
      × (x.queues.output.encoder_frame_metadata ≡ [])

  abbrev pub NotReady : C2Status → Encoder S B G → Type 0
  NotReady e x = (e ≢ c2_ok) × IsUnset x

module _ {S B G : Type 0} (d : Driver S) where
  -- An encoder whose bitrates are those given.
  abbrev pub with_bitrates : S → EncoderBitrate → Encoder S B G → Encoder S B G
  with_bitrates s b x = record x {
    device = s;
    current_bitrate = b.current_bitrate;
    effective_bitrate = b.effective_bitrate;
    encoder_peak_bitrate = b.encoder_peak_bitrate;
  }

  put_bitrate-Ensures :
      (P : Encoder S B G → Type 0) (E : C2Status → Encoder S B G → Type 0) (bitrate : ℕ)
      (x : Encoder S B G) (s : S) (b : EncoderBitrate) (status : C2Status)
      → ((s : S) (e : C2Status) → e ≢ c2_ok → E e (record x { device = s }))
      → ((s : S) (b : EncoderBitrate)
          → IsApplied d.controls bitrate (bitrate_of x) x.device s b
          → P (with_bitrates s b x))
      → SetBitrate d.controls bitrate (bitrate_of x) x.device s b status
      → Ensures (λ u. P) E (put_bitrate x (s, b, status))
  put_bitrate-Ensures P E bitrate x s b status h k (rejected s' e ne) =
      status-Ensures _ e (λ ok. absurd (ne ok)) (λ ne'. h s e ne')
  put_bitrate-Ensures P E bitrate x s b status h k (accepted s' b' a) = record { holds = k s' b' a }

  pub apply_bitrate-Ensures :
      (P : Encoder S B G → Type 0) (E : C2Status → Encoder S B G → Type 0) (bitrate : ℕ)
      (x : Encoder S B G)
      → ((s : S) (e : C2Status) → e ≢ c2_ok → E e (record x { device = s }))
      → ((s : S) (b : EncoderBitrate)
          → IsApplied d.controls bitrate (bitrate_of x) x.device s b
          → P (with_bitrates s b x))
      → Ensures (λ u. P) E (apply_bitrate d bitrate x)
  unfolding apply_bitrate
  apply_bitrate-Ensures P E bitrate x h k =
      put_bitrate-Ensures P E bitrate x _ _ _ h k
        (set_encoder_bitrate-SetBitrate d.controls bitrate x.device (bitrate_of x))

  module _ (codec : CodecType) (settings : EncoderSettings) (input : MinigbmDmaBuf) where
    -- The formats are those that the device gave, and the raw one fits the images.
    abbrev pub IsFormed : Format → Format → Encoder S B G → Type 0
    IsFormed raw coded x =
        IsUnset x
        × ((x.raw_stride ≡ stride_of input)
            × (x.raw_stride ≡ raw.bytesperline)
            × (x.raw_size ≤ input.total_size))
        × (IsAnswered d.device output_queue pix_fmt_nv12 settings.width settings.height
            (stride_of input) (input.total_size % 2 ^ 32) raw)
        × (IsAnswered d.device capture_queue (compressed_format codec) settings.width
            settings.height 0 compressed_buffer_size coded)

    pub set_formats-IsFormed :
        (x : Encoder S B G)
        → IsUnset x
        → Ensures (λ f. IsFormed f.0 f.1) NotReady (set_formats d codec settings input x)
    unfolding set_formats
    set_formats-IsFormed x h =
        then-Ensures (λ u. IsUnset) _ _ _ (demand-Ensures _ _ _ (λ linear. h) ((λ q. cc), h))
          (λ u x1 h1.
            bind-Ensures _ _ _ _
              (on_device-Ensures IsUnset NotReady (λ x s k. k) (λ e x ne k. (ne, k)) _ _ x1 h1
                (set_format-IsAnswered d.device output_queue pix_fmt_nv12 settings.width
                  settings.height (stride_of input) (input.total_size % 2 ^ 32) x1.device))
              (λ raw x2 h2.
                then-Ensures
                  (λ u x'.
                    IsUnset x'
                    × ((x'.raw_stride ≡ raw.bytesperline) × (x'.raw_size ≡ raw.sizeimage)))
                  _ _ _ (modify-Ensures _ _ (h2.1, (refl, refl)))
                  (λ u x3 h3.
                    then-Ensures
                      (λ u x'.
                        IsUnset x'
                        × ((x'.raw_stride ≡ stride_of input)
                            × (x'.raw_stride ≡ raw.bytesperline)
                            × (x'.raw_size ≤ input.total_size)))
                      _ _ _
                      (demand-Ensures _ _ _ (λ fits. (h3.0, (ground arith, h3.1.0, ground arith)))
                        ((λ q. cc), h3.0))
                      (λ u x4 h4.
                        bind-Ensures _ _ _ _
                          (on_device-Ensures
                            (λ x'.
                              IsUnset x'
                              × ((x'.raw_stride ≡ stride_of input)
                                  × (x'.raw_stride ≡ raw.bytesperline)
                                  × (x'.raw_size ≤ input.total_size)))
                            NotReady (λ x s k. k) (λ e x ne k. (ne, k.0)) _ _ x4 h4
                            (set_format-IsAnswered d.device capture_queue (compressed_format codec)
                              settings.width settings.height 0 compressed_buffer_size x4.device))
                          (λ coded x5 h5.
                            then-Ensures (λ u. IsFormed raw coded) _ _ _
                              (modify-Ensures _ _ (h5.1.0, h5.1.1, h2.0, h5.0))
                              (λ u x6 h6. pure-Ensures _ _ h6))))))

  module _ (P : Encoder S B G → Type 0)
      (stable : (x : Encoder S B G) (s : S) → P x → P (record x { device = s }))
      (unset : (x : Encoder S B G) → P x → IsUnset x) where
    control-Keeps :
        (id : ℕ) (value : ℤ) (x : Encoder S B G)
        → P x
        → Ensures (λ u. P) NotReady (optional_control d id value x)
    control-Keeps id value x h =
        mono-Ensures (checked-Ensures P NotReady stable (λ e x ne k. (ne, unset x k)) _ x h)
          (λ u x' k. k.1) (λ e x' k. k)

    s_parm-Keeps : (r : S × Bool) → Ensures (λ u s. Unit) IsError (r.0, answered r.1)
    s_parm-Keeps (s, b) = answered-Ensures s b (λ h. tt) (λ q. cc)

    pub set_controls-Keeps :
        (settings : EncoderSettings) (x : Encoder S B G)
        → P x
        → Ensures (λ u. P) NotReady (set_controls d settings x)
    unfolding set_controls
    set_controls-Keeps settings x h =
        then-Ensures (λ u. P) _ _ _ (control-Keeps _ _ x h)
          (λ u x1 h1.
            then-Ensures (λ u. P) _ _ _ (control-Keeps _ _ x1 h1)
              (λ u x2 h2.
                then-Ensures (λ u. P) _ _ _ (control-Keeps _ _ x2 h2)
                  (λ u x3 h3.
                    then-Ensures (λ u. P) _ _ _
                      (if-cases
                        (λ (m : Action (Encoder S B G) (Unit {0})).
                          Ensures (λ u. P) NotReady (m x3))
                        d.defines_header_mode _ _ (λ yes_it. control-Keeps _ _ x3 h3)
                        (λ not_it. pure-Ensures x3 tt h3))
                      (λ u x4 h4.
                        mono-Ensures
                          (on_device-Ensures P NotReady stable (λ e x ne k. (ne, unset x k))
                            (λ u. Unit) _ x4 h4
                            (s_parm-Keeps (d.s_parm settings.frame_rate x4.device)))
                          (λ u x' k. k.1) (λ e x' k. k)))))
