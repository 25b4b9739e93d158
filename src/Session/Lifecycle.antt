-- ===== src/Session/Lifecycle.antt =====
-- src/V4l2CodecSession.cpp: Open, Close, Flush and ConfigureDecoderOutput, on all of the members.
pub mod Emptied
pub mod Opened
mod Examples
use hardware_floral_codec.Common.{
  ℕ, ◌-◌, Bool, true, false, not, ◌&&◌, Option, none, some, List, [], ◌∷◌, ◌++◌, bit_and, ◌==◌,
  if◌then◌else◌, length, take, replicate,
}
use hardware_floral_codec.CodecSpec.{CodecType, CodecDirection, decode, encode}
use hardware_floral_codec.Session.{C2Status, c2_ok, c2_bad_value, c2_omitted}
use hardware_floral_codec.Session.Outcome.{
  Outcome, returns, fails, Action, after, ◌>>=◌, ◌>>◌, pure, modify, demand, answered, of_status,
}
use hardware_floral_codec.Session.Device.{
  Device, Format, output_queue, capture_queue, mmap_memory, compressed_format,
  compressed_buffer_size, queue_buffer_count, call, set_format, request_buffers, map_buffers,
  stream_on, stream_off,
}
use hardware_floral_codec.Session.DecoderCapture.{CaptureSlot, DecodedFrame, DecoderCapture}
use hardware_floral_codec.Session.Configure.{EncoderSettings, Encoder}

-- `v4l2_capability`, with the bytes of the name of its driver.
pub record Capability : Type 0 where
  pub driver_name : List ℕ
  pub capabilities : ℕ
  pub device_caps : ℕ

-- `V4l2DecoderSettings`.
pub record DecoderSettings : Type 0 where
  pub width : ℕ
  pub height : ℕ

-- open, VIDIOC_QUERYCAP, VIDIOC_SUBSCRIBE_EVENT of changes of the resolution, and close; the stop of
-- the monitor; and the frame converter.
pub record Driver (S : Type 0) : Type 0 where
  pub device : Device S
  pub open_device : S → S × Bool
  pub querycap : S → S × Option Capability
  pub subscribe : S → S × Bool
  pub close_device : S → S
  pub stop_monitor : S → S
  pub initialize_converter : S → S × C2Status
  pub reset_converter : S → S

-- The members of a session. Those that an encoder has too are in `encoder`.
pub record Impl (S B G K : Type 0) : Type 0 where
  pub encoder : Encoder S B G
  pub has_fd : Bool
  pub decoder_settings : Option DecoderSettings
  pub decoder_inputs : List Bool
  pub output_mmaps : List (List ℕ)
  pub decoder_capture : List (CaptureSlot K)
  pub decoder_pending : List (DecodedFrame K)
  pub decoder_capture_configured : Bool
  pub decoder_capture_setup_pending : Bool
  pub decoder_received_input : Bool
  pub capture_width : ℕ
  pub capture_height : ℕ
  pub visible_width : ℕ
  pub visible_height : ℕ
  pub decoder_visible_left : ℕ
  pub decoder_visible_top : ℕ

abbrev cap_device_caps : ℕ
cap_device_caps = 0x80000000

abbrev cap_streaming : ℕ
cap_streaming = 0x04000000

abbrev cap_video_m2m_mplane : ℕ
cap_video_m2m_mplane = 0x00004000

-- `DeviceCapabilities`.
unfoldable pub device_capabilities : Capability → ℕ
device_capabilities c =
    if not (bit_and c.capabilities cap_device_caps == 0) then c.device_caps else c.capabilities

abbrev pub has_capability : Capability → ℕ → Bool
has_capability c flag = not (bit_and (device_capabilities c) flag == 0)

-- The test of the capabilities in `Open`.
abbrev pub is_m2m : Capability → Bool
is_m2m c = has_capability c cap_streaming && has_capability c cap_video_m2m_mplane

-- The bytes of "qcom-venus".
abbrev qcom_venus : List ℕ
qcom_venus = 113 ∷ 99 ∷ 111 ∷ 109 ∷ 45 ∷ 118 ∷ 101 ∷ 110 ∷ 117 ∷ 115 ∷ []

-- strncmp on names without their zeros.
unfoldable pub same_bytes : List ℕ → List ℕ → Bool
same_bytes [] [] = true
same_bytes [] (y ∷ ys) = false
same_bytes (x ∷ xs) [] = false
same_bytes (x ∷ xs) (y ∷ ys) = x == y && same_bytes xs ys

abbrev pub is_encode : CodecDirection → Bool
is_encode encode = true
is_encode decode = false

-- The tests of an encoder's settings in `Open`.
abbrev pub is_positive : EncoderSettings → Bool
is_positive e =
    (not (e.width == 0) && not (e.height == 0)) && (not (e.bitrate == 0) && not (e.frame_rate == 0))

abbrev pub is_sized : DecoderSettings → Bool
is_sized w = not (w.width == 0) && not (w.height == 0)

-- The settings of a decoder behind those that `Open` gets.
abbrev pub kept_settings : Option DecoderSettings → Option DecoderSettings → Option DecoderSettings
kept_settings old none = old
kept_settings old (some w) = if is_sized w then some w else old

abbrev pub coded_side : (DecoderSettings → ℕ) → ℕ → Option DecoderSettings → ℕ
coded_side side other none = other
coded_side side other (some w) = side w

module _ {S B G K : Type 0} where
  abbrev pub with_encoder : (Encoder S B G → Encoder S B G) → Impl S B G K → Impl S B G K
  with_encoder f x = record x { encoder = f x.encoder }

  abbrev pub with_device : S → Impl S B G K → Impl S B G K
  with_device s = with_encoder (λ y. record y { device = s })

  abbrev pub put_device : {A : Type 0} → Impl S B G K → S × Outcome A → Impl S B G K × Outcome A
  put_device x (s, r) = (with_device s x, r)

  -- A call on the device.
  unfoldable pub on_device : {A : Type 0} → Action S A → Action (Impl S B G K) A
  on_device m x = put_device x (m x.encoder.device)

  abbrev pub put_mapped :
      Impl S B G K → S × List (List ℕ) × Outcome (Unit {0}) → Impl S B G K × Outcome (Unit {0})
  put_mapped x (s, mmaps, r) = (record (with_device s x) { output_mmaps = mmaps }, r)

  abbrev pub put_streaming :
      Impl S B G K → S × Bool × Outcome (Unit {0}) → Impl S B G K × Outcome (Unit {0})
  put_streaming x (s, streaming, r) =
      (with_encoder (λ y. record y { device = s; output_streaming = streaming }) x, r)

  -- The members that `Close` leaves: the settings, and a state of the device.
  abbrev pub closed : S → Option EncoderSettings → Option DecoderSettings → Impl S B G K
  closed s settings decoder_settings = record {
    encoder = record {
      device = s;
      encoder_settings = settings;
      queues = record {
        output = record {
          capture_mmaps = [];
          encoder_frame_metadata = [];
          encoder_pending = [];
          draining = false;
          encoder_configured = false;
        };
        encoder_inputs = [];
      };
      venus_encoder = false;
      current_bitrate = 0;
      effective_bitrate = 0;
      encoder_peak_bitrate = 0;
      raw_size = 0;
      raw_stride = 0;
      coded_size = 0;
      output_streaming = false;
      capture_streaming = false;
    };
    has_fd = false;
    decoder_settings = decoder_settings;
    decoder_inputs = [];
    output_mmaps = [];
    decoder_capture = [];
    decoder_pending = [];
    decoder_capture_configured = false;
    decoder_capture_setup_pending = false;
    decoder_received_input = false;
    capture_width = 0;
    capture_height = 0;
    visible_width = 0;
    visible_height = 0;
    decoder_visible_left = 0;
    decoder_visible_top = 0;
  }

module _ {S B G K : Type 0} (d : Driver S) where
  -- The calls of `Close`.
  unfoldable pub close_calls : Impl S B G K → S
  close_calls x =
      let s1 = d.stop_monitor x.encoder.device in
      let s2 = stream_off d.device output_queue x.encoder.output_streaming s1 in
      let s3 = stream_off d.device capture_queue x.encoder.capture_streaming s2 in
      if x.has_fd then d.close_device (d.reset_converter s3) else d.reset_converter s1

  -- `Close`.
  unfoldable pub close : Impl S B G K → Impl S B G K
  unfolding close_calls
  close x = closed (close_calls x) x.encoder.encoder_settings x.decoder_settings

  -- `ConfigureDecoderOutput`.
  unfoldable pub configure_decoder_output : CodecType → Action (Impl S B G K) (Unit {0})
  configure_decoder_output codec = do
    on_device (λ s. let (s', done) = d.subscribe s in (s', answered done))
    format ← λ x.
        on_device
          (set_format d.device output_queue (compressed_format codec)
            (coded_side (λ w. w.width) 1_280 x.decoder_settings)
            (coded_side (λ w. w.height) 720 x.decoder_settings) 0 compressed_buffer_size)
          x
    modify (with_encoder (λ y. record y { coded_size = format.sizeimage }))
    count ← on_device (request_buffers d.device output_queue mmap_memory queue_buffer_count)
    λ x. put_mapped x (map_buffers d.device output_queue count 0 [] x.encoder.device)
    modify (λ x. record x {
      decoder_inputs =
          take count x.decoder_inputs ++ replicate (count - length x.decoder_inputs) false;
    })
    λ x.
        put_streaming x
          (stream_on d.device output_queue x.encoder.output_streaming x.encoder.device)

  abbrev pub initialized : Impl S B G K → S × C2Status → Impl S B G K × Outcome (Unit {0})
  initialized x (s, c2_ok) = (with_device s x, returns tt)
  initialized x (s, e) = (close (with_device s x), fails e)

  -- The end of `Open` for an encoder.
  abbrev pub open_encoder : Option EncoderSettings → Action (Impl S B G K) (Unit {0})
  open_encoder none = λ x. (x, fails c2_bad_value)
  open_encoder (some e) = do
    demand (is_positive e) c2_bad_value
    modify (with_encoder (λ y. record y { encoder_settings = some e }))
    λ x. initialized x (d.initialize_converter x.encoder.device)

  -- The end of `Open` for a decoder.
  abbrev pub open_decoder : CodecType → Option DecoderSettings → Action (Impl S B G K) (Unit {0})
  open_decoder codec settings = do
    modify (λ x. record x { decoder_settings = kept_settings x.decoder_settings settings })
    configure_decoder_output codec

  abbrev pub open_codec :
      CodecType
      → CodecDirection
      → Option EncoderSettings
      → Option DecoderSettings
      → Action (Impl S B G K) (Unit {0})
  open_codec codec encode settings decoder_settings = open_encoder settings
  open_codec codec decode settings decoder_settings = open_decoder codec decoder_settings

  -- `Open` of a codec; `has_path` is whether the path of the device has text.
  unfoldable pub open_session :
      Bool
      → CodecType
      → CodecDirection
      → Option EncoderSettings
      → Option DecoderSettings
      → Action (Impl S B G K) (Unit {0})
  unfolding close configure_decoder_output same_bytes
  open_session has_path codec direction settings decoder_settings = do
    modify close
    demand (has_path && not (compressed_format codec == 0)) c2_bad_value
    on_device (λ s. let (s', opened) = d.open_device s in (s', answered opened))
    modify (λ x. record x { has_fd = true })
    capability ← on_device (λ s. call (d.querycap s))
    demand (is_m2m capability) c2_omitted
    modify (
        with_encoder (λ y. record y {
          venus_encoder = is_encode direction && same_bytes capability.driver_name qcom_venus;
        }))
    open_codec codec direction settings decoder_settings

  -- `Flush`.
  unfoldable pub flush : Bool → CodecType → CodecDirection → Action (Impl S B G K) (Unit {0})
  unfolding open_session
  flush has_path codec direction x =
      open_session has_path codec direction x.encoder.encoder_settings x.decoder_settings (close x)
