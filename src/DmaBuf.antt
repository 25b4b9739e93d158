-- ===== src/DmaBuf.antt =====
-- include/floral/codec/MinigbmDmaBuf.h and src/MinigbmDmaBuf.cpp: the planes of a graphics buffer.
pub mod Described
mod Examples
use hardware_floral_codec.Common.{
  ℕ, zero, suc, ◌+◌, Bool, true, false, not, ◌&&◌, ◌||◌, Option, none, some, List, [], ◌∷◌, ltb,
  leb, ◌==◌, if◌then◌else◌, set, replicate,
}
use hardware_floral_codec.Common.Int.{ℤ, pos, negsuc, is_neg, magnitude}

-- `native_handle_t` and the fields of `cros_gralloc_handle` that the code reads. An array is its
-- function from the index.
pub record Handle : Type 0 where
  pub version : ℕ
  pub num_fds : ℤ
  pub num_ints : ℤ
  pub magic : ℕ
  pub id : ℕ
  pub width : ℕ
  pub height : ℕ
  pub format : ℕ
  pub format_modifier : ℕ
  pub total_size : ℕ
  pub num_planes : ℕ
  pub fds : ℕ → ℤ
  pub strides : ℕ → ℕ
  pub offsets : ℕ → ℕ
  pub sizes : ℕ → ℕ

pub record DmaBufPlane : Type 0 where
  pub fd : ℤ
  pub stride : ℕ
  pub offset : ℕ
  pub size : ℕ

-- A plane with the initial values of its members.
abbrev pub no_plane : DmaBufPlane
no_plane = record { fd = negsuc 0; stride = 0; offset = 0; size = 0 }

-- `MinigbmDmaBuf`; `planes` has kMaxDmaBufPlanes elements.
pub record MinigbmDmaBuf : Type 0 where
  pub width : ℕ
  pub height : ℕ
  pub drm_format : ℕ
  pub modifier : ℕ
  pub total_size : ℕ
  pub buffer_id : ℕ
  pub plane_count : ℕ
  pub planes : List DmaBufPlane

abbrev pub max_dma_buf_planes : ℕ
max_dma_buf_planes = 4

abbrev pub cros_gralloc_magic : ℕ
cros_gralloc_magic = 0xABCDDCBA

-- The test of one plane in `IsValidHandle`.
abbrev pub is_valid_plane : Handle → ℕ → Bool
is_valid_plane h plane =
    not (is_neg (h.fds plane)) && (not (h.strides plane == 0) && not (h.sizes plane == 0))

-- The loop of `IsValidHandle` over the planes below the given one.
unfoldable pub are_valid_planes : Handle → ℕ → Bool
are_valid_planes h zero = true
are_valid_planes h (suc n) = are_valid_planes h n && is_valid_plane h n

abbrev pub plane_of : Handle → ℕ → DmaBufPlane
plane_of h plane = record {
  fd = h.fds plane;
  stride = h.strides plane;
  offset = h.offsets plane;
  size = h.sizes plane;
}

-- The loop of `GetMinigbmDmaBuf` over the planes.
unfoldable pub copy_planes : Handle → ℕ → List DmaBufPlane → List DmaBufPlane
copy_planes h zero planes = planes
copy_planes h (suc n) planes = set (copy_planes h n planes) n (plane_of h n)

-- sizeof(native_handle_t) and DRV_MAX_FDS.
module _ (handle_size drv_max_fds : ℕ) where
  -- `IsValidHandle` on a handle that is not null.
  unfoldable pub is_valid_handle : Handle → Bool
  unfolding are_valid_planes
  is_valid_handle h =
      (h.version == handle_size
        && (not (is_neg h.num_fds)
            && (not (magnitude h.num_fds == 0)
                && (leb (magnitude h.num_fds) drv_max_fds && not (is_neg h.num_ints)))))
      && ((h.magic == cros_gralloc_magic
            && (not (h.id == 0)
                && (not (h.num_planes == 0)
                    && (leb h.num_planes max_dma_buf_planes
                        && leb h.num_planes (magnitude h.num_fds)))))
          && are_valid_planes h h.num_planes)

  abbrev pub description : Handle → MinigbmDmaBuf
  description h = record {
    width = h.width;
    height = h.height;
    drm_format = h.format;
    modifier = h.format_modifier;
    total_size = h.total_size;
    buffer_id = h.id;
    plane_count = h.num_planes;
    planes = copy_planes h h.num_planes (replicate max_dma_buf_planes no_plane);
  }

  -- `GetMinigbmDmaBuf` with an output that is not null: the new output, or `none` where it returns
  -- false and leaves the output alone.
  unfoldable pub get_minigbm_dma_buf : Option Handle → ℕ → ℕ → Option MinigbmDmaBuf
  unfolding is_valid_handle copy_planes
  get_minigbm_dma_buf none width height = none
  get_minigbm_dma_buf (some h) width height =
      if is_valid_handle h && (h.width == width && (h.height == height && not (h.total_size == 0)))
      then some (description h)
      else none
