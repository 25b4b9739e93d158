-- ===== src/DmaBuf/Described.antt =====
-- What an accepted buffer is like.
use hardware_floral_codec.Common.{
  ℕ, zero, suc, ◌≤◌, ◌<◌, ◌≡◌, ◌≢◌, refl, ap, subst, ◌∙◌, true, false, not, ◌&&◌, some, List, [],
  ◌∷◌, arith, ◌==◌, set, replicate, get_or, length, ==_iff, Bool-cases, inl, inr,
}
use hardware_floral_codec.Common.Int.{is_neg, magnitude}
use hardware_floral_codec.DmaBuf.{
  Handle, DmaBufPlane, no_plane, MinigbmDmaBuf, max_dma_buf_planes, are_valid_planes, plane_of,
  copy_planes, is_valid_handle, description, get_minigbm_dma_buf,
}

-- A plane that can be imported: a file descriptor, a stride and a size.
pub record IsPlane (p : DmaBufPlane) : Type 0 where
  pub valid_fd : is_neg p.fd ≡ false
  pub strided : 0 < p.stride
  pub sized : 0 < p.size

-- The description of a handle: its planes are those of the handle, each can be imported, and the
-- others are empty.
pub record Describes (h : Handle) (width height : ℕ) (buf : MinigbmDmaBuf) : Type 0 where
  pub same_size : (buf.width ≡ width) × (buf.height ≡ height)
  pub kept :
      (h.width ≡ width)
      × (h.height ≡ height)
      × (buf.buffer_id ≡ h.id)
      × (buf.total_size ≡ h.total_size)
  pub has_size : 0 < buf.total_size
  pub some_plane : 0 < buf.plane_count
  pub few_planes : buf.plane_count ≤ max_dma_buf_planes
  pub has_fds : buf.plane_count ≤ magnitude h.num_fds
  pub planes :
      (i : ℕ)
      → i < buf.plane_count
      → (get_or buf.planes i no_plane ≡ plane_of h i) × IsPlane (plane_of h i)
  pub rest : (i : ℕ) → buf.plane_count ≤ i → get_or buf.planes i no_plane ≡ no_plane

valid-IsPlane :
    (h : Handle) (n i : ℕ) → are_valid_planes h n ≡ true → i < n → IsPlane (plane_of h i)
unfolding are_valid_planes
valid-IsPlane h zero i v lt = absurd (omega arith)
valid-IsPlane h (suc n) i v lt = elim (Bool-cases (i == n)) [
  | inl same ↦ record { valid_fd = ground arith; strided = ground arith; sized = ground arith }
  | inr other ↦ valid-IsPlane h n i (ground arith) (ground arith)
]

length-set : {A : Type 0} (xs : List A) (i : ℕ) (v : A) → length (set xs i v) ≡ length xs
length-set [] i v = refl
length-set (x ∷ xs) zero v = refl
length-set (x ∷ xs) (suc i) v = ap suc (length-set xs i v)

get_or-set_same :
    {A : Type 0} (xs : List A) (i : ℕ) (v d : A) → i < length xs → get_or (set xs i v) i d ≡ v
get_or-set_same [] i v d lt = absurd (omega arith)
get_or-set_same (x ∷ xs) zero v d lt = refl
get_or-set_same (x ∷ xs) (suc i) v d lt = get_or-set_same xs i v d (omega arith)

get_or-set_other :
    {A : Type 0} (xs : List A) (i j : ℕ) (v d : A) → i ≢ j → get_or (set xs i v) j d ≡ get_or xs j d
get_or-set_other [] i j v d ne = refl
get_or-set_other (x ∷ xs) zero zero v d ne = absurd (ne refl)
get_or-set_other (x ∷ xs) zero (suc j) v d ne = refl
get_or-set_other (x ∷ xs) (suc i) zero v d ne = refl
get_or-set_other (x ∷ xs) (suc i) (suc j) v d ne = get_or-set_other xs i j v d (omega arith)

module _ (h : Handle) (start : List DmaBufPlane) where
  length-copy_planes : (n : ℕ) → length (copy_planes h n start) ≡ length start
  unfolding copy_planes
  length-copy_planes zero = refl
  length-copy_planes (suc n) =
      length-set (copy_planes h n start) n (plane_of h n) ∙ length-copy_planes n

  copied :
      (n i : ℕ)
      → n ≤ length start
      → i < n
      → get_or (copy_planes h n start) i no_plane ≡ plane_of h i
  unfolding copy_planes
  copied zero i fits lt = absurd (omega arith)
  copied (suc n) i fits lt = elim (Bool-cases (i == n)) [
    | inl same ↦ rw ((==_iff i n).0 same) (
        get_or-set_same (copy_planes h n start) n (plane_of h n) no_plane
          (omega (arith, length-copy_planes n)))
    | inr other ↦
        get_or-set_other (copy_planes h n start) n i (plane_of h n) no_plane (λ e. ground arith)
        ∙ copied n i (omega arith) (ground arith)
  ]

  not_copied :
      (n i : ℕ) → n ≤ i → get_or (copy_planes h n start) i no_plane ≡ get_or start i no_plane
  unfolding copy_planes
  not_copied zero i le = refl
  not_copied (suc n) i le =
      get_or-set_other (copy_planes h n start) n i (plane_of h n) no_plane (λ e. omega arith)
      ∙ not_copied n i (omega arith)

some-injective : {A : Type 0} {a b : A} → some a ≡ some b → a ≡ b
some-injective e = cc

empty_planes : (n i : ℕ) → get_or (replicate n no_plane) i no_plane ≡ no_plane
empty_planes zero i = refl
empty_planes (suc n) zero = refl
empty_planes (suc n) (suc i) = empty_planes n i

module _ (handle_size drv_max_fds : ℕ) where
  valid_handle-planes :
      (h : Handle)
      → is_valid_handle handle_size drv_max_fds h ≡ true
      → (0 < h.num_planes)
        × (h.num_planes ≤ max_dma_buf_planes)
        × (h.num_planes ≤ magnitude h.num_fds)
        × (are_valid_planes h h.num_planes ≡ true)
  unfolding is_valid_handle
  valid_handle-planes h v = (ground arith, ground arith, ground arith, ground arith)

  accepted :
      (h : Handle) (width height : ℕ) (buf : MinigbmDmaBuf)
      → get_minigbm_dma_buf handle_size drv_max_fds (some h) width height ≡ some buf
      → (is_valid_handle handle_size drv_max_fds h ≡ true)
        × (h.width ≡ width)
        × (h.height ≡ height)
        × (0 < h.total_size)
        × (description handle_size drv_max_fds h ≡ buf)
  unfolding get_minigbm_dma_buf
  accepted h width height buf e =
      elim (Bool-cases (
        is_valid_handle handle_size drv_max_fds h
        && (h.width == width && (h.height == height && not (h.total_size == 0))))) [
          | inl t ↦
              (ground arith, ground arith, ground arith, ground arith, some-injective (rw t at e))
          | inr f ↦ cc (rw f at e)
        ]

  -- An accepted handle has the asked size, a total size, and one to four planes, no more than its
  -- file descriptors; the description has the planes of the handle, each with a descriptor, a
  -- stride and a size, and the others empty.
  pub get_minigbm_dma_buf-Describes :
      (h : Handle) (width height : ℕ) (buf : MinigbmDmaBuf)
      → get_minigbm_dma_buf handle_size drv_max_fds (some h) width height ≡ some buf
      → Describes h width height buf
  get_minigbm_dma_buf-Describes h width height buf e =
      let (v, w, t, z, d) = accepted h width height buf e in
      let (some_plane, few_planes, has_fds, valid) = valid_handle-planes h v in
      subst (Describes h width height) d (record {
        same_size = (w, t);
        kept = (w, t, refl, refl);
        has_size = z;
        some_plane = some_plane;
        few_planes = few_planes;
        has_fds = has_fds;
        planes = λ i lt. (
          copied h (replicate 4 no_plane) h.num_planes i few_planes lt,
          valid-IsPlane h h.num_planes i valid lt,
        );
        rest = λ i le. not_copied h (replicate 4 no_plane) h.num_planes i le ∙ empty_planes 4 i;
      })
