-- ===== src/Session/Configure/Ready.antt =====
-- An encoder that ConfigureEncoder has set up.
use hardware_floral_codec.Common.{
  ◌^◌, ◌≤◌, ◌≡◌, ◌≢◌, ◌%◌, ◌∙◌, if◌then◌else◌, refl, sym, ap, subst, Bool, true, false,
}
use hardware_floral_codec.CodecSpec.{CodecType}
use hardware_floral_codec.DmaBuf.{MinigbmDmaBuf}
use hardware_floral_codec.Session.{c2_ok}
use hardware_floral_codec.Session.Outcome.{
  Outcome, returns, fails, Holds, Ensures, traced-Ensures, bind-Ensures, then-Ensures, mono-Ensures,
  pure-Ensures, pure,
}
use hardware_floral_codec.Session.Device.{
  Format, output_queue, capture_queue, pix_fmt_nv12, compressed_format, compressed_buffer_size,
}
use hardware_floral_codec.Session.Device.Answers.{IsAnswered}
use hardware_floral_codec.Session.Controls.{EncoderBitrate, set_visible_crop}
use hardware_floral_codec.Session.Controls.Bitrate.{IsApplied}
use hardware_floral_codec.Session.Controls.Crop.{CropStands, set_visible_crop-CropStands}
use hardware_floral_codec.Session.Configure.{
  EncoderSettings, Driver, Encoder, checked, bitrate_of, set_formats, is_avc, configure_level,
  configure_encoder,
}
use hardware_floral_codec.Session.Configure.Level.{
  checked-Ensures, HasLevel, configure_level-HasLevel,
}
use hardware_floral_codec.Session.Configure.Formats.{
  with_bitrates, stride_of, IsUnset, NotReady, apply_bitrate-Ensures, IsFormed,
  set_formats-IsFormed, set_controls-Keeps,
}
use hardware_floral_codec.Session.Configure.Started.{Kept, Runs, start_queues-Runs}

module _ {S B G : Type 0} (d : Driver S) where
  module _ (codec : CodecType) (settings : EncoderSettings) (input : MinigbmDmaBuf)
      (x0 : Encoder S B G) where
    -- Behind the formats of the run, the driver has taken the crop and reads it back; then it has
    -- taken the bitrate of the settings, and `stored` is what it reads back.
    pub record IsSetUp (stored : EncoderBitrate) : Type 0 where
      pub formatted : Encoder S B G
      pub formats : Format × Format
      pub ran : set_formats d codec settings input x0 ≡ (formatted, returns formats)
      pub cropped :
          CropStands d.controls settings.width settings.height
            (d.controls.s_selection settings.width settings.height formatted.device)
      pub rated_at : S
      pub rated :
          IsApplied d.controls settings.bitrate
            (bitrate_of formatted)
            (set_visible_crop d.controls settings.width settings.height formatted.device).0
            rated_at
            stored

    -- The images fit the raw format, the crop and the bitrate are set, the members are the bitrates
    -- that the driver has, and both queues run, with free slots for images and mapped buffers for
    -- frames.
    pub record IsReady (x : Encoder S B G) : Type 0 where
      pub same_stride : x.raw_stride ≡ stride_of input
      pub fits : x.raw_size ≤ input.total_size
      pub stored : EncoderBitrate
      pub is_set_up : IsSetUp stored
      pub same_bitrate : x.current_bitrate ≡ settings.bitrate
      pub same_effective : x.effective_bitrate ≡ stored.effective_bitrate
      pub same_peak : x.encoder_peak_bitrate ≡ stored.encoder_peak_bitrate
      pub some_bitrate : x.effective_bitrate ≢ 0
      pub runs : Runs x

    abbrev pub LevelOf : Bool → Format → Format → Encoder S B G → Type 0
    LevelOf true raw coded x = HasLevel d settings raw coded x
    LevelOf false raw coded x = Unit

    abbrev IsRated : Format → Format → Encoder S B G → Type 0
    IsRated raw coded x =
        IsFormed d codec settings input raw coded x
        × ((stored : EncoderBitrate) × IsSetUp stored
            × (x.current_bitrate ≡ settings.bitrate)
            × (x.effective_bitrate ≡ stored.effective_bitrate)
            × (x.encoder_peak_bitrate ≡ stored.encoder_peak_bitrate)
            × (x.effective_bitrate ≢ 0))

    -- The state behind the crop of a run.
    crop_device :
        (x1 x2 : Encoder S B G) (u : Unit {0})
        → checked (set_visible_crop d.controls settings.width settings.height) x1 ≡ (x2, returns u)
        → record x1 {
          device = (set_visible_crop d.controls settings.width settings.height x1.device).0;
        }
          ≡ x2
    unfolding checked
    crop_device x1 x2 u q = ap (λ (r : Encoder S B G × Outcome (Unit {0})). r.0) q

    level-Ensures :
        (raw coded : Format) (x : Encoder S B G) (b : Bool)
        → IsRated raw coded x
        → Ensures
            (λ u x. LevelOf b raw coded x × IsRated raw coded x)
            NotReady
            ((if b then configure_level d settings raw coded else pure tt) x)
    level-Ensures raw coded x true h =
        configure_level-HasLevel d (IsRated raw coded) NotReady (λ x s k. k)
          (λ e x ne k. (ne, k.0.0)) settings raw coded x h
    level-Ensures raw coded x false h = pure-Ensures x tt (tt, h)

    -- What holds of the members that a start of the queues keeps.
    LevelOf-Kept :
        (raw coded : Format) (b : Bool) (x0 x : Encoder S B G)
        → Kept x0 x
        → LevelOf b raw coded x0
        → LevelOf b raw coded x
    LevelOf-Kept raw coded true x0 x k l = record {
      level = l.level;
      selected = rw (k.0, k.3, k.4) l.selected;
      at_profile = l.at_profile;
      profile_stands = l.profile_stands;
      at_level = l.at_level;
      level_stands = l.level_stands;
    }
    LevelOf-Kept raw coded false x0 x k l = tt

    abbrev pub Final : Encoder S B G → Type 0
    Final x =
        (raw : Format) × (coded : Format) × IsReady x
        × LevelOf (is_avc codec) raw coded x
        × (x.raw_stride ≡ raw.bytesperline)
        × (IsAnswered d.device output_queue pix_fmt_nv12 settings.width settings.height
            (stride_of input) (input.total_size % 2 ^ 32) raw)
        × (IsAnswered d.device capture_queue (compressed_format codec) settings.width
            settings.height 0 compressed_buffer_size coded)

    Final-Kept :
        (raw coded : Format) (x1 x : Encoder S B G)
        → LevelOf (is_avc codec) raw coded x1
        → IsRated raw coded x1
        → Runs x
        → Kept x1 x
        → Final x
    Final-Kept raw coded x1 x l h r k = (
      raw,
      coded,
      record {
        same_stride = k.0 ∙ h.0.1.0;
        fits = rw k.1 h.0.1.2;
        stored = h.1.0;
        is_set_up = h.1.1;
        same_bitrate = k.2 ∙ h.1.2;
        same_effective = k.3 ∙ h.1.3;
        same_peak = k.4 ∙ h.1.4;
        some_bitrate = rw k.3 h.1.5;
        runs = r;
      },
      LevelOf-Kept raw coded (is_avc codec) x1 x k l,
      k.0 ∙ h.0.1.1,
      h.0.2,
      h.0.3,
    )

    set_up-IsRated :
        (f : Format × Format) (x1 x2 : Encoder S B G) (u : Unit {0}) (s : S) (b : EncoderBitrate)
        → set_formats d codec settings input x0 ≡ (x1, returns f)
        → checked (set_visible_crop d.controls settings.width settings.height) x1 ≡ (x2, returns u)
        → (set_visible_crop d.controls settings.width settings.height x1.device).1 ≡ c2_ok
        → IsFormed d codec settings input f.0 f.1 x2
        → IsApplied d.controls settings.bitrate (bitrate_of x2) x2.device s b
        → IsRated f.0 f.1 (with_bitrates d s b x2)
    set_up-IsRated f x1 x2 u s b ran crop ok formed a = (
      formed,
      (
        b,
        record {
          formatted = x1;
          formats = f;
          ran = ran;
          cropped =
              set_visible_crop-CropStands d.controls settings.width settings.height x1.device ok;
          rated_at = s;
          rated =
              subst
                (λ (y : Encoder S B G).
                  IsApplied d.controls settings.bitrate (bitrate_of y) y.device s b)
                (sym (crop_device x1 x2 u crop)) a;
        },
        a.current,
        refl,
        refl,
        a.stored.some_bits,
      ),
    )

    pub configure_encoder-Final :
        IsUnset x0 → Ensures (λ u. Final) NotReady (configure_encoder d codec settings input x0)
    unfolding configure_encoder
    configure_encoder-Final h =
        bind-Ensures _ _ _ _ (traced-Ensures (set_formats-IsFormed d codec settings input x0 h))
          (λ f x1 h1.
            then-Ensures _ _ _ _
              (traced-Ensures (
                checked-Ensures (IsFormed d codec settings input f.0 f.1) NotReady (λ x s k. k)
                  (λ e x ne k. (ne, k.0)) _ x1 h1.1))
              (λ u x2 h2.
                then-Ensures (λ u. IsRated f.0 f.1) _ _ _
                  (apply_bitrate-Ensures d (IsRated f.0 f.1) NotReady settings.bitrate x2
                    (λ s e ne. (ne, h2.1.1.0))
                    (λ s b. set_up-IsRated f x1 x2 u s b h1.0 h2.0 h2.1.0 h2.1.1))
                  (λ u x3 h3.
                    then-Ensures (λ u. IsRated f.0 f.1) _ _ _
                      (set_controls-Keeps d (IsRated f.0 f.1) (λ x s k. k) (λ x k. k.0.0) settings
                        x3 h3)
                      (λ u x4 h4.
                        then-Ensures _ _ _ _ (level-Ensures f.0 f.1 x4 (is_avc codec) h4)
                          (λ u x5 h5.
                            mono-Ensures (start_queues-Runs d x5 h5.1.0.0)
                              (λ u x6 h6. Final-Kept f.0 f.1 x5 x6 h5.0 h5.1 h6.0 h6.1)
                              (λ e x6 k. k))))))

    -- What an end of ConfigureEncoder means.
    abbrev pub Ends : Encoder S B G × Outcome (Unit {0}) → Type 0
    Ends (x, returns u) = IsReady x
    Ends (x, fails e) = (e ≢ c2_ok) × IsUnset x

    Final-Ends : (r : Encoder S B G × Outcome (Unit {0})) → Holds (λ u. Final) NotReady r → Ends r
    Final-Ends (x, returns u) h = h.2
    Final-Ends (x, fails e) h = h

    -- ConfigureEncoder on an encoder that is not configured, with positive settings: with C2_OK,
    -- the image fits the negotiated raw format; of the device as the formats left it, the driver
    -- read back the crop that was set; of the device behind the crop, it accepted the bitrate,
    -- that of the settings or what it makes of it on a running Venus encoder, and what it then
    -- read back, a positive number, is the member, with the peak that was written with it; both
    -- queues run, with free slots for images and mapped buffers for frames. With an error, the
    -- encoder is not configured, and has no image and no frame.
    pub configure_encoder-Ends : IsUnset x0 → Ends (configure_encoder d codec settings input x0)
    configure_encoder-Ends h = Final-Ends _ (configure_encoder-Final h).holds
