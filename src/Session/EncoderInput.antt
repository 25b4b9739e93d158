-- ===== src/Session/EncoderInput.antt =====
-- src/V4l2CodecSession.cpp: QueueEncoderFrame, the way of an image into an encoder's input queue.
pub mod Prepared
pub mod Put
pub mod Queued
pub mod Ended
mod Examples
use hardware_floral_codec.Common.{
  ℕ, ◌%◌, ◌^◌, Bool, true, false, not, ◌&&◌, Option, none, some, List, [], ◌∷◌, ◌++◌, leb, ◌==◌,
  if◌then◌else◌, get_or, set,
}
use hardware_floral_codec.Common.Int.{ℤ, pos}
use hardware_floral_codec.CodecSpec.{CodecType}
use hardware_floral_codec.DmaBuf.{Handle, MinigbmDmaBuf, no_plane, get_minigbm_dma_buf}
use hardware_floral_codec.EncoderMetadata.{Timeval, metadata, make_encoder_timestamp}
use hardware_floral_codec.Session.{C2Status, c2_ok, c2_bad_value, c2_no_init, c2_omitted}
use hardware_floral_codec.Session.Outcome.{
  Outcome, returns, fails, Action, after, ◌>>=◌, ◌>>◌, pure, modify, demand, of_status, answered,
}
use hardware_floral_codec.Session.Device.{is_linear_nv12}
use hardware_floral_codec.Session.DecoderCapture.{Fetched, fetched, not_fetched}
use hardware_floral_codec.Session.Controls.{set_control}
use hardware_floral_codec.Session.EncoderFrames.{
  EncoderInputSlot, EncoderQueues, released, Room, find_room,
}
use hardware_floral_codec.Session.Configure.{
  EncoderSettings, Driver, Encoder, configured, on_device, checked, apply_bitrate,
  configure_encoder,
}

-- The calls on graphic blocks, of a type `K` for those of an image and `G` for those of the pool: the
-- wait for a fence, the handle of a block, the sizes of one, the pool, and the frame converter;
-- VIDIOC_QBUF of an index, a descriptor, a length, the bytes used and a timestamp.
pub record Images (S K G : Type 0) : Type 0 where
  pub wait_fence : K → S → S × C2Status
  pub handle_of : K → Option Handle
  pub width_of : K → ℕ
  pub height_of : K → ℕ
  pub fetch_block : ℕ → ℕ → S → S × Fetched G
  pub pool_handle_of : G → Option Handle
  pub convert : MinigbmDmaBuf → MinigbmDmaBuf → S → S × C2Status
  pub qbuf : ℕ → ℤ → ℕ → ℕ → Timeval → S → S × Bool
  pub handle_size : ℕ
  pub drv_max_fds : ℕ

-- A buffer that is not a graphic one, or is null; or one with its blocks.
pub data Image (B K : Type 0) : Type 0 where
  no_graphic : Image B K
  graphic : B → List K → Image B K

abbrev pub cid_force_key_frame : ℕ
cid_force_key_frame = 0x9909e5

-- `Option` as an outcome.
abbrev pub found : {X A : Type 0} → C2Status → Option A → Action X A
found e none x = (x, fails e)
found e (some a) x = (x, returns a)

abbrev pub fetched_block : {S G : Type 0} → S × Fetched G → S × Outcome G
fetched_block (s, fetched g) = (s, returns g)
fetched_block (s, not_fetched e) = (s, fails e)

abbrev pub stride_of : MinigbmDmaBuf → ℕ
stride_of b = (get_or b.planes 0 no_plane).stride

module _ {B G : Type 0} where
  -- The slot that keeps the image, or the block that it was converted to.
  abbrev pub held : B → Option G → EncoderInputSlot B G
  held owner none = record { owner = some owner; converted_block = none; queued = true }
  held owner (some g) = record { owner = none; converted_block = some g; queued = true }

module _ {S K G : Type 0} (d : Driver S) (i : Images S K G) where
  abbrev pub dma_buf_of : EncoderSettings → Option Handle → Option MinigbmDmaBuf
  dma_buf_of settings h =
      get_minigbm_dma_buf i.handle_size i.drv_max_fds h settings.width settings.height

  -- A block of the pool with the image in NV12.
  unfoldable pub convert_image :
      EncoderSettings → Bool → K → MinigbmDmaBuf → Action S (MinigbmDmaBuf × Option G)
  convert_image settings pool block source = do
    demand (i.width_of block == source.width && i.height_of block == source.height) c2_omitted
    demand pool c2_no_init
    g ← λ s. fetched_block (i.fetch_block settings.width settings.height s)
    converted ← found c2_omitted (dma_buf_of settings (i.pool_handle_of g))
    demand (is_linear_nv12 d.same_inode converted) c2_omitted
    λ s. let (s', e) = i.convert source converted s in (s', of_status e)
    pure (converted, some g)

  -- The image as linear NV12, converted where it is something else; `pool` is whether there is one.
  unfoldable pub prepare_image : EncoderSettings → Bool → K → Action S (MinigbmDmaBuf × Option G)
  unfolding convert_image
  prepare_image settings pool block = do
    λ s. let (s', e) = i.wait_fence block s in (s', of_status e)
    source ← found c2_omitted (dma_buf_of settings (i.handle_of block))
    (if is_linear_nv12 d.same_inode source
        then pure (source, none)
        else convert_image settings pool block source)

module _ {S K G : Type 0} (i : Images S K G) where
  abbrev pub queue_call : MinigbmDmaBuf → ℕ → Timeval → ℕ → Action S (Unit {0})
  queue_call image index timestamp raw_size s =
      let (s', queued) =
        i.qbuf index (get_or image.planes 0 no_plane).fd (image.total_size % 2 ^ 32) raw_size
          timestamp s in
      (s', answered queued)

module _ {S B K G : Type 0} (d : Driver S) (i : Images S K G) where
  -- The first image configures the encoder, and goes into its first slot.
  unfoldable pub configure_first :
      CodecType → EncoderSettings → ℕ → MinigbmDmaBuf → ℕ → Action (Encoder S B G) ℕ
  configure_first codec settings bitrate image index x =
      let settings' = record settings { bitrate = bitrate } in
      (if configured x
          then pure index
          else (modify (λ x. record x { encoder_settings = some settings' })
              >> configure_encoder d codec settings' image
              >> pure 0))
        x

  -- The image is the driver's: its slot holds it, and its index waits for the frame.
  abbrev pub put_image : B → Option G → ℕ → Timeval → ℕ → Encoder S B G → Encoder S B G
  put_image owner converted index timestamp frame_index x = record x {
    queues = record {
      output = record x.queues.output {
        encoder_frame_metadata =
            x.queues.output.encoder_frame_metadata ++ (metadata timestamp frame_index ∷ []);
      };
      encoder_inputs = set x.queues.encoder_inputs index (held owner converted);
    };
  }

  abbrev pub change_bitrate : ℕ → Action (Encoder S B G) (Unit {0})
  change_bitrate bitrate x =
      (if bitrate == x.current_bitrate then pure tt else apply_bitrate d bitrate) x

  abbrev pub request_key_frame : Bool → Action (Encoder S B G) (Unit {0})
  request_key_frame sync =
      if sync then checked (set_control d.controls cid_force_key_frame (pos 1) true) else pure tt

  -- The end of `QueueEncoderFrame`, on an image and the index of its slot.
  unfoldable pub queue_image :
      B → ℕ → Timeval → Bool → ℕ → MinigbmDmaBuf × Option G → ℕ → Action (Encoder S B G) (Unit {0})
  queue_image owner frame_index timestamp sync bitrate image index = do
    λ x.
        demand (stride_of image.0 == x.raw_stride && leb x.raw_size image.0.total_size) c2_bad_value
          x
    change_bitrate bitrate
    request_key_frame sync
    λ x. on_device (queue_call i image.0 index timestamp x.raw_size) x
    modify (put_image owner image.1 index timestamp frame_index)

  -- What follows the choice of a slot.
  unfoldable pub queue_in_slot :
      CodecType
      → EncoderSettings
      → Bool
      → B
      → K
      → ℕ
      → Timeval
      → Bool
      → ℕ
      → ℕ
      → Action (Encoder S B G) (Unit {0})
  unfolding queue_image configure_first prepare_image
  queue_in_slot codec settings pool owner block frame_index timestamp sync bitrate index = do
    image ← on_device (prepare_image d i settings pool block)
    slot ← configure_first codec settings bitrate image.0 index
    queue_image owner frame_index timestamp sync bitrate image slot

  abbrev pub put_room : Encoder S B G → Room S B G → Option (Encoder S B G × Outcome ℕ)
  put_room x none = none
  put_room x (some (s, q, e, none)) = some (record x { device = s; queues = q }, fails e)
  put_room x (some (s, q, e, some index)) =
      some (record x { device = s; queues = q }, returns index)

  -- The slot for the image; an encoder that is not configured has none yet.
  unfoldable pub choose_slot : ℕ → Encoder S B G → Option (Encoder S B G × Outcome ℕ)
  choose_slot fuel x =
      if configured x
      then put_room x (find_room d.frames fuel x.device x.queues)
      else some (x, returns 0)

  abbrev pub then_queue :
      (ℕ → Action (Encoder S B G) (Unit {0}))
      → Option (Encoder S B G × Outcome ℕ)
      → Option (Encoder S B G × Outcome (Unit {0}))
  then_queue f none = none
  then_queue f (some r) = some (after f r)

  abbrev pub queue_graphic :
      ℕ
      → CodecType
      → Bool
      → B
      → List K
      → ℕ
      → Bool
      → ℕ
      → Encoder S B G
      → Option EncoderSettings
      → Option Timeval
      → Option (Encoder S B G × Outcome (Unit {0}))
  queue_graphic fuel codec pool owner blocks frame_index sync bitrate x none t =
      some (x, fails c2_bad_value)
  queue_graphic fuel codec pool owner blocks frame_index sync bitrate x (some settings) none =
      some (x, fails c2_bad_value)
  queue_graphic fuel codec pool owner [] frame_index sync bitrate x (some settings) (some t) =
      some (x, fails c2_bad_value)
  queue_graphic fuel codec pool owner (block ∷ blocks) frame_index sync bitrate x (some settings)
        (some t) =
      then_queue (queue_in_slot codec settings pool owner block frame_index t sync bitrate)
        (choose_slot fuel x)

  -- `QueueEncoderFrame`; `none` is out of fuel.
  unfoldable pub queue_encoder_frame :
      ℕ
      → CodecType
      → Bool
      → Image B K
      → ℕ
      → ℤ
      → Bool
      → ℕ
      → Encoder S B G
      → Option (Encoder S B G × Outcome (Unit {0}))
  unfolding queue_in_slot choose_slot
  queue_encoder_frame fuel codec pool no_graphic frame_index timestamp sync bitrate x =
      some (x, fails c2_bad_value)
  queue_encoder_frame fuel codec pool (graphic owner blocks) frame_index timestamp sync bitrate x =
      queue_graphic fuel codec pool owner blocks frame_index sync bitrate x x.encoder_settings
        (make_encoder_timestamp timestamp)
