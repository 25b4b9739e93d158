-- ===== src/Session/Configure/Covered.antt =====
-- The level of an H.264 encoder that ConfigureEncoder has set up.
use hardware_floral_codec.Common.{ℕ, ◌+◌, ◌^◌, ◌<◌, ◌≡◌, ◌≢◌, ◌%◌, some, arith}
use hardware_floral_codec.CodecSpec.{avc}
use hardware_floral_codec.DmaBuf.{MinigbmDmaBuf}
use hardware_floral_codec.Session.{c2_ok}
use hardware_floral_codec.Session.Outcome.{Outcome, returns, fails, Holds}
use hardware_floral_codec.Session.Device.{
  Queue, Format, output_queue, capture_queue, pix_fmt_nv12, compressed_format,
  compressed_buffer_size,
}
use hardware_floral_codec.Session.Device.Answers.{IsAnswered}
use hardware_floral_codec.Session.Configure.{EncoderSettings, Driver, Encoder, configure_encoder}
use hardware_floral_codec.Session.Configure.Level.{IsCovered, HasLevel-IsCovered}
use hardware_floral_codec.Session.Configure.Formats.{stride_of, IsUnset, NotReady}
use hardware_floral_codec.Session.Configure.Ready.{IsReady, Final, configure_encoder-Final}

module _ {S : Type 0} (d : Driver S) where
  -- The formats of a device have sides and strides that stay below 2^32 with 15 added.
  abbrev pub HasBounds : Type 0
  HasBounds =
      (queue : Queue) (pixels width height stride size : ℕ) (s : S) (f : Format)
      → (d.device.s_fmt queue pixels width height stride size s).1 ≡ some f
      → (f.width + 15 < 2 ^ 32) × (f.height + 15 < 2 ^ 32) × (f.bytesperline + 15 < 2 ^ 32)

module _ {S B G : Type 0} (d : Driver S) where
  -- The encoder runs, and its level covers the visible picture, those of both formats, and the
  -- stride.
  pub record RunsCovered (settings : EncoderSettings) (input : MinigbmDmaBuf) (x : Encoder S B G)
      : Type 0 where
    pub raw : Format
    pub raw_set :
        IsAnswered d.device output_queue pix_fmt_nv12 settings.width settings.height
          (stride_of input)
          (input.total_size % 2 ^ 32)
          raw
    pub coded : Format
    pub coded_set :
        IsAnswered d.device capture_queue
          (compressed_format avc)
          settings.width
          settings.height
          0
          compressed_buffer_size
          coded
    pub covered : IsCovered d settings raw coded x

  abbrev pub EndsCovered :
      EncoderSettings → MinigbmDmaBuf → Encoder S B G × Outcome (Unit {0}) → Type 0
  EndsCovered settings input (x, returns u) = RunsCovered settings input x
  EndsCovered settings input (x, fails e) = (e ≢ c2_ok) × IsUnset x

  some_positive :
      {settings : EncoderSettings} {input : MinigbmDmaBuf} {x0 x : Encoder S B G}
      → IsReady d avc settings input x0 x
      → 0 < x.effective_bitrate
  some_positive r = let ne = r.some_bitrate in ground arith

  module _ (settings : EncoderSettings) (input : MinigbmDmaBuf)
      (positive : (0 < settings.width)
        × (0 < settings.height)
        × (0 < settings.frame_rate)
        × (settings.frame_rate < 2 ^ 32))
      (small : (settings.width + 15 < 2 ^ 32) × (settings.height + 15 < 2 ^ 32))
      (bounds : HasBounds d) where
    Final-EndsCovered :
        (x0 : Encoder S B G) (r : Encoder S B G × Outcome (Unit {0}))
        → Holds (λ u. Final d avc settings input x0) NotReady r
        → EndsCovered settings input r
    Final-EndsCovered x0 (x, returns u) (raw, coded, ready, level, stride, raw_set, coded_set) =
        let r = bounds _ _ _ _ _ _ raw_set.before raw raw_set.answered_so in
        let c = bounds _ _ _ _ _ _ coded_set.before coded coded_set.answered_so in
        record {
          raw = raw;
          raw_set = raw_set;
          coded = coded;
          coded_set = coded_set;
          covered =
              HasLevel-IsCovered d settings raw coded x positive small (r.0, r.1, rw stride r.2)
                (c.0, c.1) (some_positive ready) level;
        }
    Final-EndsCovered x0 (x, fails e) h = h

    -- ConfigureEncoder for H.264, on an encoder that is not configured, with positive settings,
    -- and with sides and strides, of the settings and of the formats that the device answers, that
    -- stay below 2^32 with 15 added: with C2_OK, the formats are those that the device answered,
    -- and the device holds the first level of the table that covers the greatest of the visible
    -- width, the widths of both formats and the stride, the greatest height, the frame rate, and
    -- the greater of the set bitrate and the peak; with an error, the encoder is not configured,
    -- and has no image and no frame.
    pub configure_encoder-EndsCovered :
        (x : Encoder S B G)
        → IsUnset x
        → EndsCovered settings input (configure_encoder d avc settings input x)
    configure_encoder-EndsCovered x h =
        Final-EndsCovered x _ (configure_encoder-Final d avc settings input x h).holds
