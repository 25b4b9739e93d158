-- ===== src/Probe.antt =====
-- src/CapabilityProbe.cpp for the V4L2 backend: which device serves a codec. What the directory
-- and the drivers hold is a parameter; names and paths are lists of bytes.
pub mod Formats
pub mod Names
pub mod Vaapi
mod Examples
use hardware_floral_codec.Common.{
  ℕ, zero, suc, ◌+◌, ◌*◌, ◌%◌, ◌^◌, Bool, true, false, not, ◌&&◌, ◌||◌, Option, none, some, List,
  [], ◌∷◌, ◌++◌, is_empty, bit_and, leb, ◌==◌, if◌then◌else◌,
}
use hardware_floral_codec.CodecSpec.{
  CodecDirection, decode, encode, CodecType, avc, hevc, vp8, vp9, av1, mpeg2, CodecSpec,
}

abbrev pub Text : Type 0
Text = List ℕ

-- The text behind a prefix: `none` where `strncmp` finds a difference.
unfoldable pub strip_prefix : Text → Text → Option Text
strip_prefix [] name = some name
strip_prefix (p ∷ ps) [] = none
strip_prefix (p ∷ ps) (c ∷ cs) = let rest = strip_prefix ps cs in if p == c then rest else none

abbrev pub is_digit : ℕ → Bool
is_digit c = leb 48 c && leb c 57

-- The loop over the digits.
unfoldable pub are_digits : Text → Bool
are_digits [] = true
are_digits (c ∷ cs) = is_digit c && are_digits cs

abbrev pub is_number : Option Text → Bool
is_number none = false
is_number (some rest) = not (is_empty rest) && are_digits rest

-- `IsNumberedNode`.
unfoldable pub is_numbered_node : Text → Text → Bool
unfolding strip_prefix are_digits
is_numbered_node name prefix = is_number (strip_prefix prefix name)

-- The loop over the entries of a directory.
unfoldable pub numbered_paths : Text → Text → List Text → List Text
numbered_paths directory prefix [] = []
numbered_paths directory prefix (name ∷ names) =
    let later = numbered_paths directory prefix names in
    if is_numbered_node name prefix then (directory ++ 47 ∷ name) ∷ later else later

-- `GetDevicePaths`, with std::sort, and the directory's entries: `none` where it cannot be opened.
unfoldable pub get_device_paths :
    (List Text → List Text) → Text → Option (List Text) → Text → Text → List Text
unfolding numbered_paths
get_device_paths sort (c ∷ configured) entries directory prefix = (c ∷ configured) ∷ []
get_device_paths sort [] none directory prefix = []
get_device_paths sort [] (some names) directory prefix =
    sort (numbered_paths directory prefix names)

-- The two queues of a device.
pub data BufType : Type 0 where
  output_mplane capture_mplane : BufType

-- `v4l2_capability`.
pub record Capability : Type 0 where
  pub capabilities : ℕ
  pub device_caps : ℕ

-- A device that was opened: VIDIOC_QUERYCAP, VIDIOC_ENUM_FMT at an index, and VIDIOC_REQBUFS for
-- no DMA-BUF. `none` and `false` stand for a call that fails.
pub record Device : Type 0 where
  pub querycap : Option Capability
  pub enum_fmt : BufType → ℕ → Option ℕ
  pub reqbufs_dmabuf : BufType → Bool

-- The constants of <linux/videodev2.h>.
abbrev pub cap_device_caps : ℕ
cap_device_caps = 0x80000000

abbrev cap_streaming : ℕ
cap_streaming = 0x04000000

abbrev cap_video_m2m_mplane : ℕ
cap_video_m2m_mplane = 0x00004000

abbrev cap_video_output_mplane : ℕ
cap_video_output_mplane = 0x00002000

abbrev cap_video_capture_mplane : ℕ
cap_video_capture_mplane = 0x00001000

abbrev fourcc : ℕ → ℕ → ℕ → ℕ → ℕ
fourcc a b c d = a + b * 2 ^ 8 + c * 2 ^ 16 + d * 2 ^ 24

abbrev pub pix_fmt_nv12 : ℕ
pix_fmt_nv12 = fourcc 78 86 49 50

-- `DeviceCapabilities`.
unfoldable pub device_capabilities : Capability → ℕ
device_capabilities c =
    if not (bit_and c.capabilities cap_device_caps == 0) then c.device_caps else c.capabilities

abbrev has_cap : ℕ → ℕ → Bool
has_cap capabilities cap = not (bit_and capabilities cap == 0)

-- `SupportsMultiPlaneQueues`.
unfoldable pub supports_multi_plane_queues : ℕ → Bool
supports_multi_plane_queues c =
    has_cap c cap_streaming
    && (has_cap c cap_video_m2m_mplane
        || (has_cap c cap_video_output_mplane && has_cap c cap_video_capture_mplane))

-- The loop of `HasFormat` from an index on. It goes on until the driver ends the list, so it has
-- fuel; a loop that is out of fuel has found nothing yet.
unfoldable pub format_loop : ℕ → (ℕ → Option ℕ) → ℕ → ℕ → Bool
format_loop zero formats index pixel_format = false
format_loop (suc fuel) formats index pixel_format =
    let rest = format_loop fuel formats (suc index) pixel_format in
    elim (formats index) [ none ↦ false | some f ↦ if f == pixel_format then true else rest ]

-- `GetCompressedFormat`.
unfoldable pub get_compressed_format : CodecType → ℕ
get_compressed_format avc = fourcc 72 50 54 52
get_compressed_format hevc = fourcc 72 69 86 67
get_compressed_format mpeg2 = fourcc 77 80 71 50
get_compressed_format vp8 = fourcc 86 80 56 48
get_compressed_format vp9 = fourcc 86 80 57 48
get_compressed_format av1 = 0

abbrev pub raw_type : CodecDirection → BufType
raw_type encode = output_mplane
raw_type decode = capture_mplane

-- 0 where VIDIOC_QUERYCAP fails.
abbrev pub capabilities_of : Option Capability → ℕ
capabilities_of none = 0
capabilities_of (some c) = device_capabilities c

-- The fuel bounds the formats that a driver lists.
module _ (fuel : ℕ) where
  -- `HasFormat`.
  unfoldable pub has_format : Device → BufType → ℕ → Bool
  unfolding format_loop
  has_format d type pixel_format = format_loop fuel (d.enum_fmt type) 0 pixel_format

  -- `QueuePairSupports` on the two multi-plane queues.
  unfoldable pub queue_pair_supports : Device → ℕ → CodecDirection → Bool
  unfolding has_format
  queue_pair_supports d compressed decode =
      has_format d output_mplane compressed && has_format d capture_mplane pix_fmt_nv12
  queue_pair_supports d compressed encode =
      has_format d output_mplane pix_fmt_nv12 && has_format d capture_mplane compressed

  -- `DeviceSupports` on a device that was opened, and on a path: `none` where `open` fails.
  unfoldable pub opened_supports : Device → CodecSpec → Bool
  unfolding queue_pair_supports supports_multi_plane_queues get_compressed_format
  opened_supports d spec =
      not (get_compressed_format spec.codec == 0)
      && (supports_multi_plane_queues (capabilities_of d.querycap)
          && (queue_pair_supports d (get_compressed_format spec.codec) spec.direction
              && d.reqbufs_dmabuf (raw_type spec.direction)))

  unfoldable pub device_supports : Option Device → CodecSpec → Bool
  device_supports none spec = false
  device_supports (some d) spec = opened_supports d spec

  -- `FindDevicePath` of the probe with these paths.
  unfoldable pub find_device_path : (Text → Option Device) → List Text → CodecSpec → Option Text
  unfolding device_supports
  find_device_path open_device [] spec = none
  find_device_path open_device (path ∷ paths) spec =
      let later = find_device_path open_device paths spec in
      if device_supports (open_device path) spec then some path else later
