-- ===== src/DmaBuf/Examples.antt =====
-- An NV12 buffer in two planes.
use hardware_floral_codec.Common.{◌≡◌, refl, some}
use hardware_floral_codec.Common.Int.{pos}
use hardware_floral_codec.DmaBuf.{Handle, cros_gralloc_magic, description, get_minigbm_dma_buf}
use hardware_floral_codec.DmaBuf.Described.{Describes, get_minigbm_dma_buf-Describes}

abbrev nv12 : Handle
nv12 = record {
  version = 12;
  num_fds = pos 2;
  num_ints = pos 20;
  magic = cros_gralloc_magic;
  id = 9;
  width = 640;
  height = 480;
  format = 0x3231564e;
  format_modifier = 0;
  total_size = 460_800;
  num_planes = 2;
  fds = λ i. pos 5;
  strides = λ i. 640;
  offsets = λ i. 0;
  sizes = λ i. 307_200;
}

nv12_run : get_minigbm_dma_buf 12 4 (some nv12) 640 480 ≡ some (description 12 4 nv12)
unfolding get_minigbm_dma_buf
nv12_run = refl

get_minigbm_dma_buf-Describes_example : Describes nv12 640 480 (description 12 4 nv12)
get_minigbm_dma_buf-Describes_example =
    get_minigbm_dma_buf-Describes 12 4 nv12 640 480 (description 12 4 nv12) nv12_run
