-- ===== src/Probe/Formats.antt =====
-- What a device must offer to be chosen for a codec.
use hardware_floral_codec.Common.{
  ℕ, zero, suc, ◌+◌, ◌≡◌, ◌≢◌, ◌↔◌, ◌≤◌, ◌<◌, refl, ap, ◌∙◌, Bool, true, false, not, ◌&&◌, Option,
  none, some, List, [], ◌∷◌, ◌++◌, All, arith, Bool-cases, Option-cases, inl, inr, ==_iff, ◌==◌,
  ltb,
}
use hardware_floral_codec.CodecSpec.{CodecSpec, CodecDirection, decode, encode}
use hardware_floral_codec.Probe.{
  Text, BufType, output_mplane, capture_mplane, Device, format_loop, has_format,
  queue_pair_supports, supports_multi_plane_queues, capabilities_of, get_compressed_format,
  pix_fmt_nv12, raw_type, opened_supports, device_supports, find_device_path,
}

-- A driver lists a number of formats, and then nothing.
pub record Lists (formats : ℕ → Option ℕ) (count : ℕ) : Type 0 where
  pub offered : (i : ℕ) → i < count → formats i ≢ none
  pub ended : formats count ≡ none

format_loop_sound :
    (fuel : ℕ) (formats : ℕ → Option ℕ) (index pf : ℕ)
    → format_loop fuel formats index pf ≡ true
    → (i : ℕ) × (formats i ≡ some pf)
      × (index ≤ i)
      × ((j : ℕ) → index ≤ j → j ≤ i → formats j ≢ none)
unfolding format_loop
format_loop_sound zero formats index pf h = cc
format_loop_sound (suc fuel) formats index pf h = elim (Option-cases (formats index)) [
  | inl q ↦ cc (rw (q, format_loop) at h)
  | inr (f, q) ↦ elim (Bool-cases (f == pf)) [
    | inl same ↦ (
      index,
      q ∙ ap some ((==_iff f pf).0 same),
      omega arith,
      λ j lo hi e. here j (omega arith) f q e,
    )
    | inr other ↦
        let (i, r, le, on) =
          format_loop_sound fuel formats (suc index) pf (rw (q, other, format_loop) at h) in
        (
          i,
          r,
          omega arith,
          λ j lo hi e. elim (Bool-cases (j == index)) [
            | inl same ↦ here j ((==_iff j index).0 same) f q e
            | inr more ↦ on j (ground arith) hi e
          ],
        )
  ]
]
  where
    here : (j : ℕ) → j ≡ index → (f : ℕ) → formats index ≡ some f → formats j ≡ none → ⊥
    here j s f q e = cc

format_loop_complete :
    (fuel : ℕ) (formats : ℕ → Option ℕ) (index pf i : ℕ)
    → index ≤ i
    → i < index + fuel
    → ((j : ℕ) → j < i → formats j ≢ none)
    → formats i ≡ some pf
    → format_loop fuel formats index pf ≡ true
unfolding format_loop
format_loop_complete zero formats index pf i le lt on q = absurd (omega arith)
format_loop_complete (suc fuel) formats index pf i le lt on q = elim (Bool-cases (i == index)) [
  | inl same ↦
      let here = q_at index ((==_iff i index).0 same) q in
      rw (here, (==_iff pf pf).1 refl, format_loop) refl
  | inr other ↦ elim (Option-cases (formats index)) [
    | inl none_here ↦ absurd (on index (ground arith) none_here)
    | inr (f, r) ↦ elim (Bool-cases (f == pf)) [
      | inl found ↦ rw (r, found, format_loop) refl
      | inr more ↦
          rw (r, more, format_loop)
            (format_loop_complete fuel formats (suc index) pf i (ground arith) (omega arith) on q)
    ]
  ]
]
  where
    q_at : (j : ℕ) → i ≡ j → formats i ≡ some pf → formats j ≡ some pf
    q_at j e r = cc

-- For a driver that lists a number of formats no larger than the fuel and then nothing, HasFormat
-- is true exactly if the format is among them.
pub has_format_iff :
    (fuel : ℕ) (d : Device) (type : BufType) (pf count : ℕ)
    → Lists (d.enum_fmt type) count
    → count ≤ fuel
    → (has_format fuel d type pf ≡ true) ↔ ((i : ℕ) × (i < count) × (d.enum_fmt type i ≡ some pf))
unfolding has_format
has_format_iff fuel d type pf count l le = (sound, complete)
  where
    sound : has_format fuel d type pf ≡ true → (i : ℕ) × (i < count) × (d.enum_fmt type i ≡ some pf)
    sound h =
        let (i, q, _, on) = format_loop_sound fuel (d.enum_fmt type) 0 pf h in
        (
          i,
          elim (Bool-cases (ltb i count)) [
            | inl lt ↦ ground arith
            | inr ge ↦ absurd (on count (omega arith) (ground arith) l.ended)
          ],
          q,
        )

    complete :
        (i : ℕ) × (i < count) × (d.enum_fmt type i ≡ some pf) → has_format fuel d type pf ≡ true
    complete (i, lt, q) =
        format_loop_complete fuel (d.enum_fmt type) 0 pf i (omega arith) (omega arith)
          (λ j before. l.offered j (omega arith)) q

-- What a device offers for a codec: the coded format and NV12 each on its queue, and DMA-BUF on
-- the queue of the raw pictures.
pub record Serves (d : Device) (spec : CodecSpec) : Type 0 where
  pub coded : BufType
  pub coded_index : ℕ
  pub raw_index : ℕ
  pub known : get_compressed_format spec.codec ≢ 0
  pub queues_differ : coded ≢ raw_type spec.direction
  pub has_coded : d.enum_fmt coded coded_index ≡ some (get_compressed_format spec.codec)
  pub has_raw : d.enum_fmt (raw_type spec.direction) raw_index ≡ some pix_fmt_nv12
  pub multi_plane : supports_multi_plane_queues (capabilities_of d.querycap) ≡ true
  pub dma_buf : d.reqbufs_dmabuf (raw_type spec.direction) ≡ true

and_true : (a b : Bool) → (a && b) ≡ true → (a ≡ true) × (b ≡ true)
and_true a b h = ground arith

not_zero : (n : ℕ) → not (n == 0) ≡ true → n ≢ 0
not_zero n h = ground arith

offered_queues :
    (fuel : ℕ) (d : Device) (compressed : ℕ) (dir : CodecDirection)
    → queue_pair_supports fuel d compressed dir ≡ true
    → (coded : BufType) × (coded ≢ raw_type dir)
      × (i : ℕ) × (d.enum_fmt coded i ≡ some compressed)
      × (j : ℕ) × (d.enum_fmt (raw_type dir) j ≡ some pix_fmt_nv12)
unfolding queue_pair_supports
offered_queues fuel d compressed decode h =
    let (a, b) = and_true _ _ h in
    let (i, q, _, _) = format_loop_sound fuel (d.enum_fmt output_mplane) 0 compressed a in
    let (j, r, _, _) = format_loop_sound fuel (d.enum_fmt capture_mplane) 0 pix_fmt_nv12 b in
    (output_mplane, λ e. cc, i, q, j, r)
offered_queues fuel d compressed encode h =
    let (a, b) = and_true _ _ h in
    let (j, r, _, _) = format_loop_sound fuel (d.enum_fmt output_mplane) 0 pix_fmt_nv12 a in
    let (i, q, _, _) = format_loop_sound fuel (d.enum_fmt capture_mplane) 0 compressed b in
    (capture_mplane, λ e. cc, i, q, j, r)

opened_supports-Serves :
    (fuel : ℕ) (d : Device) (spec : CodecSpec) → opened_supports fuel d spec ≡ true → Serves d spec
unfolding opened_supports
opened_supports-Serves fuel d spec h =
    let (known, h1) = and_true _ _ h in
    let (multi_plane, h2) = and_true _ _ h1 in
    let (pair, dma_buf) = and_true _ _ h2 in
    let (coded, differ, i, has_coded, j, has_raw) =
      offered_queues fuel d (get_compressed_format spec.codec) spec.direction pair in
    record {
      coded = coded;
      coded_index = i;
      raw_index = j;
      known = not_zero _ known;
      queues_differ = differ;
      has_coded = has_coded;
      has_raw = has_raw;
      multi_plane = multi_plane;
      dma_buf = dma_buf;
    }

device_supports_opened :
    (fuel : ℕ) (o : Option Device) (spec : CodecSpec)
    → device_supports fuel o spec ≡ true
    → (d : Device) × (o ≡ some d) × Serves d spec
unfolding device_supports
device_supports_opened fuel none spec h = cc
device_supports_opened fuel (some d) spec h = (d, refl, opened_supports-Serves fuel d spec h)

-- The first path whose device can be opened and supports the codec.
pub record IsFirst (fuel : ℕ) (open_device : Text → Option Device) (paths : List Text)
    (spec : CodecSpec) (path : Text) : Type 0 where
  pub before : List Text
  pub after : List Text
  pub splits : paths ≡ before ++ path ∷ after
  pub device : Device
  pub opens : open_device path ≡ some device
  pub serves : Serves device spec
  pub others : All (λ p. device_supports fuel (open_device p) spec ≡ false) before

-- FindDevicePath gives the first path whose device supports the codec: it can be opened, it lists
-- the coded format on one queue and NV12 on the other, its capabilities pass the test for multi-
-- plane queues, and it takes DMA-BUF for the raw pictures.
pub find_device_path-IsFirst :
    (fuel : ℕ) (open_device : Text → Option Device) (paths : List Text) (spec : CodecSpec)
    (path : Text)
    → find_device_path fuel open_device paths spec ≡ some path
    → IsFirst fuel open_device paths spec path
unfolding find_device_path
find_device_path-IsFirst fuel open_device [] spec path h = cc
find_device_path-IsFirst fuel open_device (p ∷ paths) spec path h =
    elim (Bool-cases (device_supports fuel (open_device p) spec)) [
      | inl good ↦
          let (device, opens, serves) = device_supports_opened fuel (open_device p) spec good in
          record {
            before = [];
            after = paths;
            splits = cc (rw good at h);
            device = device;
            opens = cc (rw good at h, opens);
            serves = serves;
            others = tt;
          }
      | inr bad ↦
          let later = find_device_path-IsFirst fuel open_device paths spec path (rw bad at h) in
          record {
            before = p ∷ later.before;
            after = later.after;
            splits = cc later.splits;
            device = later.device;
            opens = later.opens;
            serves = later.serves;
            others = (bad, later.others);
          }
    ]
