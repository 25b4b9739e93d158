-- ===== src/Session/DecoderCapture.antt =====
-- src/V4l2CodecSession.cpp: the capture queue of a decoder, from the negotiation of its format to the
-- decoded frames. The descriptor is open.
pub mod Pump
pub mod Slots
pub mod Consistent
pub mod Lost
mod Examples
use hardware_floral_codec.Common.{
  ℕ, zero, suc, ◌+◌, ◌-◌, ◌%◌, ◌^◌, Bool, true, false, not, ◌&&◌, ◌||◌, Option, none, some, List,
  [], ◌∷◌, ◌++◌, leb, ltb, ◌==◌, if◌then◌else◌, length, get_or, set, replicate,
}
use hardware_floral_codec.Common.Int.{ℤ, pos, negsuc, is_neg, magnitude, ◌==ℤ◌}
use hardware_floral_codec.EncoderMetadata.{Timeval, timestamp_to_frame_index}
use hardware_floral_codec.DecoderGeometry.{
  CaptureGeometry, Reply, done, failed, negotiate_decoder_capture, enotsup, pix_fmt_nv12,
}
use hardware_floral_codec.DecoderGeometry.{Driver as GeometryDriver}
use hardware_floral_codec.DmaBuf.{Handle, DmaBufPlane, MinigbmDmaBuf, no_plane, get_minigbm_dma_buf}
use hardware_floral_codec.Session.Device.{is_linear_nv12}
use hardware_floral_codec.Session.{
  C2Status, c2_ok, c2_bad_value, c2_blocking, c2_not_found, c2_no_init, c2_no_memory, c2_corrupted,
  c2_omitted, Buffer, Dequeued, dequeued, dequeue_failed, eagain, epipe,
}

-- `V4l2DecodedFrame`; its block is of a type of its own.
pub record DecodedFrame (K : Type 0) : Type 0 where
  pub block : Option K
  pub frame_index : ℕ
  pub width : ℕ
  pub height : ℕ
  pub crop_left : ℕ
  pub crop_top : ℕ
  pub end_of_stream : Bool

-- `DecoderCaptureSlot`.
pub record CaptureSlot (K : Type 0) : Type 0 where
  pub block : Option K
  pub queued : Bool

-- The members of the session that the capture side has.
pub record DecoderCapture (K : Type 0) : Type 0 where
  pub decoder_capture : List (CaptureSlot K)
  pub decoder_pending : List (DecodedFrame K)
  pub decoder_capture_configured : Bool
  pub decoder_capture_setup_pending : Bool
  pub capture_streaming : Bool
  pub draining : Bool
  pub decoder_received_input : Bool
  pub capture_width : ℕ
  pub capture_height : ℕ
  pub raw_stride : ℕ
  pub raw_size : ℕ
  pub visible_width : ℕ
  pub visible_height : ℕ
  pub decoder_visible_left : ℕ
  pub decoder_visible_top : ℕ

-- VIDIOC_DQEVENT: whether the event is a change of the resolution, or an errno.
pub data Event : Type 0 where
  event : Bool → Event
  no_event : ℕ → Event

-- A call of a block pool.
pub data Fetched (K : Type 0) : Type 0 where
  fetched : K → Fetched K
  not_fetched : C2Status → Fetched K

-- The driver, over a state of its own, the pool, and the handle in a block: VIDIOC_G_CTRL of the
-- least number of buffers, VIDIOC_REQBUFS with the number that it gives, VIDIOC_STREAMON and
-- VIDIOC_STREAMOFF, VIDIOC_DQEVENT, VIDIOC_DQBUF, VIDIOC_QBUF of an index, a descriptor and a length,
-- and VIDIOC_DECODER_CMD.
pub record Driver (S K : Type 0) : Type 0 where
  pub geometry : GeometryDriver S
  pub min_buffers : S → S × Option ℤ
  pub request_buffers : ℕ → S → S × Option ℕ
  pub stream_on : S → S × Bool
  pub stream_off : S → S × Bool
  pub dqevent : S → S × Event
  pub dqbuf : S → S × Dequeued
  pub qbuf : ℕ → ℤ → ℕ → S → S × Bool
  pub stop_decoder : S → S × Bool
  pub fetch_block : ℕ → ℕ → S → S × Fetched K
  pub handle_of : K → Option Handle
  -- fstat on both descriptors gives one device and one inode.
  pub same_inode : ℤ → ℤ → Bool
  pub handle_size : ℕ
  pub drv_max_fds : ℕ

abbrev pub enoent : ℕ
enoent = 2

abbrev pub decoder_capture_slack : ℕ
decoder_capture_slack = 4

abbrev pub empty_slot : {K : Type 0} → CaptureSlot K
empty_slot = record { block = none; queued = false }

abbrev pub has_block : {K : Type 0} → Option K → Bool
has_block none = false
has_block (some block) = true

abbrev pub slot_at : {K : Type 0} → DecoderCapture K → ℕ → CaptureSlot K
slot_at c index = get_or c.decoder_capture index empty_slot

abbrev pub with_slot : {K : Type 0} → DecoderCapture K → ℕ → CaptureSlot K → DecoderCapture K
with_slot c index slot = record c { decoder_capture = set c.decoder_capture index slot }

-- What a function of the session comes to.
abbrev pub Step : Type 0 → Type 0 → Type 0
Step S K = S × DecoderCapture K × C2Status

-- `if (result != C2_OK) return result`.
infixl 5 ◌and_then◌
abbrev pub ◌and_then◌ : {S K : Type 0} → Step S K → (S → DecoderCapture K → Step S K) → Step S K
(s, c, c2_ok) and_then next = next s c
(s, c, e) and_then next = (s, c, e)

-- `Error`.
abbrev pub status_of : Bool → C2Status
status_of true = c2_ok
status_of false = c2_corrupted

-- `RequestBuffers`, with its number of buffers.
abbrev pub requested : ℕ → Option ℕ → C2Status
requested wanted none = c2_corrupted
requested wanted (some count) = if not (wanted == 0) && count == 0 then c2_no_memory else c2_ok

abbrev pub count_of : Option ℕ → ℕ
count_of none = 0
count_of (some count) = count

-- `minimum` of `BeginDecoderCaptureSetup`.
abbrev pub minimum_of : Option ℤ → ℕ
minimum_of none = 4
minimum_of (some (negsuc n)) = 4
minimum_of (some (pos n)) = if n == 0 then 4 else n

module _ {S K : Type 0} (d : Driver S K) where
  -- `StreamOff` and `StreamOn` on the capture queue.
  abbrev pub stream_off_capture : S → DecoderCapture K → S × DecoderCapture K
  stream_off_capture s c =
      if c.capture_streaming
      then ((d.stream_off s).0, record c { capture_streaming = false })
      else (s, c)

  abbrev pub stream_on_capture : S → DecoderCapture K → Step S K
  stream_on_capture s c =
      let (s', started) = d.stream_on s in
      if c.capture_streaming
      then (s, c, c2_ok)
      else (s', record c { capture_streaming = started }, status_of started)

  -- `ResetDecoderCapture`.
  unfoldable pub reset_decoder_capture : S → DecoderCapture K → S × DecoderCapture K
  reset_decoder_capture s c =
      let (s1, c1) = stream_off_capture s c in
      (
        (d.request_buffers 0 s1).0,
        record c1 { decoder_capture = []; decoder_capture_configured = false },
      )

  abbrev pub with_geometry : CaptureGeometry → DecoderCapture K → DecoderCapture K
  with_geometry g c = record c {
    capture_width = g.format.width;
    capture_height = g.format.height;
    raw_stride = g.format.bytesperline;
    raw_size = g.format.sizeimage;
    visible_width = g.visible.width;
    visible_height = g.visible.height;
    decoder_visible_left = magnitude g.visible.left;
    decoder_visible_top = magnitude g.visible.top;
  }

  -- The buffers of `BeginDecoderCaptureSetup`.
  abbrev pub allocate : DecoderCapture K → ℕ → S × Option ℕ → Step S K
  allocate c minimum (s, count) =
      (s, c, requested ((minimum + decoder_capture_slack) % 2 ^ 32) count) and_then λ s' c'.
      if ltb (count_of count) minimum then (s', c', c2_no_memory) else (
        s',
        record c' {
          decoder_capture = replicate (count_of count) empty_slot;
          decoder_capture_setup_pending = true;
        },
        c2_ok,
      )

  abbrev pub begin_with : DecoderCapture K → S × Reply CaptureGeometry → Step S K
  begin_with c (s, failed e) = (s, c, if e == enotsup then c2_omitted else c2_corrupted)
  begin_with c (s, done g) =
      let (s', least) = d.min_buffers s in
      allocate (with_geometry g c) (minimum_of least)
        (d.request_buffers ((minimum_of least + decoder_capture_slack) % 2 ^ 32) s')

  -- `BeginDecoderCaptureSetup`.
  unfoldable pub begin_decoder_capture_setup : S → DecoderCapture K → Step S K
  unfolding reset_decoder_capture
  begin_decoder_capture_setup s c =
      let (s1, c1) = reset_decoder_capture s c in
      begin_with c1 (negotiate_decoder_capture d.geometry s1)

  abbrev pub checked_dma_buf : DecoderCapture K → Option MinigbmDmaBuf → Option MinigbmDmaBuf
  checked_dma_buf c none = none
  checked_dma_buf c (some b) =
      if is_linear_nv12 d.same_inode b
        && ((get_or b.planes 0 no_plane).stride == c.raw_stride && leb c.raw_size b.total_size)
      then some b
      else none

  -- `GetDecoderDmaBuf`: `none` is C2_OMITTED.
  unfoldable pub get_decoder_dma_buf : DecoderCapture K → K → Option MinigbmDmaBuf
  unfolding is_linear_nv12
  get_decoder_dma_buf c block = checked_dma_buf c (
      get_minigbm_dma_buf d.handle_size d.drv_max_fds (d.handle_of block) c.capture_width
        c.capture_height)

  abbrev pub queue_dma_buf : ℕ → K → Option MinigbmDmaBuf → S → DecoderCapture K → Step S K
  queue_dma_buf index block none s c = (s, c, c2_omitted)
  queue_dma_buf index block (some b) s c =
      let (s', queued) = d.qbuf index (get_or b.planes 0 no_plane).fd (b.total_size % 2 ^ 32) s in
      if queued
      then (s', with_slot c index (record { block = some block; queued = true }), c2_ok)
      else (s', c, c2_corrupted)

  -- `QueueDecoderCapture`.
  unfoldable pub queue_decoder_capture : ℕ → K → S → DecoderCapture K → Step S K
  unfolding get_decoder_dma_buf
  queue_decoder_capture index block s c =
      queue_dma_buf index block (get_decoder_dma_buf c block) s c

  abbrev pub queue_fetched : ℕ → DecoderCapture K → S × Fetched K → Step S K
  queue_fetched index c (s, not_fetched e) = (s, c, e)
  queue_fetched index c (s, fetched block) = queue_decoder_capture index block s c

  -- `RefillDecoderCapture`.
  unfoldable pub refill_decoder_capture : ℕ → S → DecoderCapture K → Step S K
  unfolding queue_decoder_capture
  refill_decoder_capture index s c =
      queue_fetched index c (d.fetch_block c.capture_width c.capture_height s)

  -- The loop of `ProgressDecoderCaptureSetup`, from the given index on, over the given number of
  -- slots; a round fetches and queues a block as RefillDecoderCapture does.
  unfoldable pub fill_slots : ℕ → ℕ → S → DecoderCapture K → Step S K
  unfolding refill_decoder_capture
  fill_slots zero index s c = (s, c, c2_ok)
  fill_slots (suc n) index s c =
      (if (slot_at c index).queued then (s, c, c2_ok) else refill_decoder_capture index s c)
      and_then fill_slots n (suc index)

  abbrev pub finish_setup : S → DecoderCapture K → Step S K
  finish_setup s c = (
    s,
    record c { decoder_capture_setup_pending = false; decoder_capture_configured = true },
    c2_ok,
  )

  abbrev pub set_up : S → DecoderCapture K → Step S K
  set_up s c =
      fill_slots (length c.decoder_capture) 0 s c and_then stream_on_capture and_then finish_setup

  -- `ProgressDecoderCaptureSetup`, given whether there is a pool.
  unfoldable pub progress_decoder_capture_setup : Bool → S → DecoderCapture K → Step S K
  unfolding fill_slots
  progress_decoder_capture_setup pool s c =
      if not c.decoder_capture_setup_pending
      then (s, c, c2_ok)
      else if not pool
      then (s, c, c2_no_init)
      else set_up s c
