-- ===== src/Session/Device.antt =====
-- src/V4l2CodecSession.cpp: the calls that set a device up, for encoders and decoders.
pub mod Answers
use hardware_floral_codec.Common.{
  ℕ, zero, suc, ◌-◌, ◌^◌, Bool, true, false, not, ◌&&◌, ◌||◌, Option, none, some, List, [], ◌∷◌,
  ◌++◌, leb, ◌==◌, if◌then◌else◌, get_or,
}
use hardware_floral_codec.Common.Int.{ℤ, ◌==ℤ◌, is_neg}
use hardware_floral_codec.CodecSpec.{CodecType, avc, hevc, vp8, vp9, av1, mpeg2}
use hardware_floral_codec.DmaBuf.{MinigbmDmaBuf, no_plane}
use hardware_floral_codec.Session.{C2Status, c2_no_memory, c2_corrupted, c2_omitted}
use hardware_floral_codec.Session.Outcome.{
  Outcome, returns, fails, Action, after, ◌>>=◌, ◌>>◌, pure, answer, answered, demand,
}

-- V4L2_BUF_TYPE_VIDEO_OUTPUT_MPLANE and V4L2_BUF_TYPE_VIDEO_CAPTURE_MPLANE.
pub data Queue : Type 0 where
  output_queue capture_queue : Queue

-- V4L2_MEMORY_MMAP and V4L2_MEMORY_DMABUF.
pub data Memory : Type 0 where
  mmap_memory dmabuf_memory : Memory

-- The fields of `v4l2_pix_format_mplane` that the code reads, with its one plane.
pub record Format : Type 0 where
  pub pixelformat : ℕ
  pub num_planes : ℕ
  pub width : ℕ
  pub height : ℕ
  pub bytesperline : ℕ
  pub sizeimage : ℕ

-- VIDIOC_S_FMT of a pixel format, a width, a height, a stride and a size, with one plane;
-- VIDIOC_REQBUFS; VIDIOC_QUERYBUF, which gives a length and an offset; mmap of these, which gives the
-- bytes of the mapping; VIDIOC_STREAMON, and VIDIOC_STREAMOFF, whose failure is only logged.
pub record Device (S : Type 0) : Type 0 where
  pub s_fmt : Queue → ℕ → ℕ → ℕ → ℕ → ℕ → S → S × Option Format
  pub reqbufs : Queue → Memory → ℕ → S → S × Option ℕ
  pub querybuf : Queue → ℕ → S → S × Option (ℕ × ℕ)
  pub mmap : ℕ → ℕ → S → S × Option (List ℕ)
  pub stream_on : Queue → S → S × Bool
  pub stream_off : Queue → S → S

abbrev pub compressed_buffer_size : ℕ
compressed_buffer_size = 2_097_152

abbrev pub queue_buffer_count : ℕ
queue_buffer_count = 8

abbrev pub pix_fmt_nv12 : ℕ
pix_fmt_nv12 = 0x3231564e

-- `CompressedFormat`, with the values of linux/videodev2.h.
unfoldable pub compressed_format : CodecType → ℕ
compressed_format avc = 0x34363248
compressed_format hevc = 0x43564548
compressed_format mpeg2 = 0x3247504d
compressed_format vp8 = 0x30385056
compressed_format vp9 = 0x30395056
compressed_format av1 = 0

module _ (same_inode : ℤ → ℤ → Bool) where
  -- `SameDmaBufObject`; fstat on both descriptors gives one device and one inode.
  abbrev pub same_dma_buf_object : ℤ → ℤ → Bool
  same_dma_buf_object first second =
      (first ==ℤ second && not (is_neg first)) || same_inode first second

  -- `IsLinearNv12`.
  unfoldable pub is_linear_nv12 : MinigbmDmaBuf → Bool
  is_linear_nv12 b =
      let first = get_or b.planes 0 no_plane in
      let second = get_or b.planes 1 no_plane in
      (b.drm_format == pix_fmt_nv12 && (b.modifier == 0 && b.plane_count == 2))
      && (first.offset == 0
          && (first.stride == second.stride
              && (same_dma_buf_object first.fd second.fd && leb b.total_size (2 ^ 32 - 1))))

-- A call as an action on the device's state.
abbrev pub call : {S A : Type 0} → S × Option A → S × Outcome A
call (s, r) = (s, answer r)

abbrev pub call_bool : {S : Type 0} → S × Bool → S × Outcome (Unit {0})
call_bool (s, b) = (s, answered b)

module _ {S : Type 0} (d : Device S) where
  -- `SetFormat` with an output that is not null.
  unfoldable pub set_format : Queue → ℕ → ℕ → ℕ → ℕ → ℕ → Action S Format
  set_format queue pixel_format width height stride size = do
    format ← λ s. call (d.s_fmt queue pixel_format width height stride size s)
    demand (format.pixelformat == pixel_format && format.num_planes == 1) c2_omitted
    pure format

  -- `RequestBuffers` with an output that is not null.
  unfoldable pub request_buffers : Queue → Memory → ℕ → Action S ℕ
  request_buffers queue memory requested = do
    count ← λ s. call (d.reqbufs queue memory requested s)
    demand (requested == 0 || not (count == 0)) c2_no_memory
    pure count

  -- One buffer of `MapBuffers`.
  abbrev pub map_buffer : Queue → ℕ → Action S (List ℕ)
  map_buffer queue index = do
    found ← λ s. call (d.querybuf queue index s)
    λ s. call (d.mmap found.0 found.1 s)

  abbrev pub keep_mapped :
      (List (List ℕ) → S → S × List (List ℕ) × Outcome (Unit {0}))
      → List (List ℕ)
      → S × Outcome (List ℕ)
      → S × List (List ℕ) × Outcome (Unit {0})
  keep_mapped loop buffers (s, returns bytes) = loop (buffers ++ (bytes ∷ [])) s
  keep_mapped loop buffers (s, fails e) = (s, buffers, fails e)

  -- The loop of `MapBuffers` over the given number of buffers, from the given index on.
  unfoldable pub map_buffers :
      Queue → ℕ → ℕ → List (List ℕ) → S → S × List (List ℕ) × Outcome (Unit {0})
  map_buffers queue zero index buffers s = (s, buffers, returns tt)
  map_buffers queue (suc n) index buffers s =
      keep_mapped (map_buffers queue n (suc index)) buffers (map_buffer queue index s)

  -- `StreamOn`: the member becomes true.
  unfoldable pub stream_on : Queue → Bool → S → S × Bool × Outcome (Unit {0})
  stream_on queue true s = (s, true, returns tt)
  stream_on queue false s =
      let (s', started) = d.stream_on queue s in (s', started, answered started)

  -- `StreamOff`, behind which the member is false.
  unfoldable pub stream_off : Queue → Bool → S → S
  stream_off queue true s = d.stream_off queue s
  stream_off queue false s = s
