-- ===== src/DecoderGeometry/Negotiated.antt =====
-- What a negotiated geometry promises, and what the driver is asked.
use hardware_floral_codec.Common.{
  ℕ, ◌+◌, ◌≤◌, ◌<◌, ◌≡◌, ◌⊎◌, inl, inr, refl, subst, ap, true, false, not, Option, none, some,
  arith, Bool-cases, ltb, ◌==◌, ◌||◌, sym, ◌∙◌,
}
use hardware_floral_codec.Common.Int.{ℤ, pos, negsuc, is_neg, magnitude}
use hardware_floral_codec.DecoderGeometry.{
  PixFormat, VisibleRect, CaptureGeometry, Reply, done, failed, SelectionTarget, compose,
  compose_default, Driver, pix_fmt_nv12, decoder_visible_rect_fits, is_nv12, visible_or,
  check_geometry, Step, pure, ◌>>=◌, try_target, settle_format, negotiate_decoder_capture,
}

-- A rectangle that is not empty and lies within the picture.
pub record Inside (r : VisibleRect) (width height : ℕ) : Type 0 where
  pub left : ℕ
  pub top : ℕ
  pub left_is : r.left ≡ pos left
  pub top_is : r.top ≡ pos top
  pub wide : 0 < r.width
  pub high : 0 < r.height
  pub right_end : left + r.width ≤ width
  pub bottom_end : top + r.height ≤ height

pub record IsUsable (g : CaptureGeometry) : Type 0 where
  pub nv12 : g.format.pixelformat ≡ pix_fmt_nv12
  pub one_plane : g.format.num_planes ≡ 1
  pub stride : g.format.width ≤ g.format.bytesperline
  pub size : 0 < g.format.sizeimage
  pub inside : Inside g.visible g.format.width g.format.height

magnitude-pos : (z : ℤ) → is_neg z ≡ false → z ≡ pos (magnitude z)
magnitude-pos (pos n) h = refl
magnitude-pos (negsuc n) h = cc

-- The test accepts a rectangle exactly if it is not empty and lies within the picture.
fits-Inside : (r : VisibleRect) (w h : ℕ) → decoder_visible_rect_fits r w h ≡ true → Inside r w h
unfolding decoder_visible_rect_fits
fits-Inside r w h t = record {
  left = magnitude r.left;
  top = magnitude r.top;
  left_is = magnitude-pos r.left (ground arith);
  top_is = magnitude-pos r.top (ground arith);
  wide = ground arith;
  high = ground arith;
  right_end = ground arith;
  bottom_end = ground arith;
}

done-injective : {A : Type 0} (a b : A) → done a ≡ done b → a ≡ b
done-injective a b e = cc

Reply-cases : {A : Type 0} (r : Reply A) → ((e : ℕ) × (r ≡ failed e)) ⊎ ((a : A) × (r ≡ done a))
Reply-cases (done a) = inr (a, refl)
Reply-cases (failed e) = inl (e, refl)

check_geometry_passed :
    (f : PixFormat) (v : Option VisibleRect) (g : CaptureGeometry)
    → check_geometry f v ≡ done g
    → (is_nv12 f ≡ true)
      × (f.width ≤ f.bytesperline)
      × (0 < f.sizeimage)
      × (decoder_visible_rect_fits (visible_or v f) f.width f.height ≡ true)
      × (record { format = f; visible = visible_or v f } ≡ g)
unfolding check_geometry
check_geometry_passed f v g h = elim (Bool-cases (is_nv12 f)) [
  | inl n ↦
      elim (Bool-cases (
        ltb f.bytesperline f.width
        || (f.sizeimage == 0
            || not (decoder_visible_rect_fits (visible_or v f) f.width f.height)))) [
              | inl b ↦ cc (rw (n, b) at h)
              | inr b ↦
                  (n, ground arith, ground arith, ground arith, done-injective _ g (rw (n, b) at h))
            ]
  | inr n ↦ cc (rw n at h)
]

check_geometry-IsUsable :
    (f : PixFormat) (v : Option VisibleRect) (g : CaptureGeometry)
    → check_geometry f v ≡ done g
    → IsUsable g
check_geometry-IsUsable f v g h =
    let (n, st, sz, fits, e) = check_geometry_passed f v g h in
    subst IsUsable e (record {
      nv12 = ground arith;
      one_plane = ground arith;
      stride = st;
      size = sz;
      inside = fits-Inside (visible_or v f) f.width f.height fits;
    })

bind-done :
    {S A B : Type 0} (m : Step S A) (f : A → Step S B) (s : S) (b : B)
    → ((m >>= f) s).1 ≡ done b
    → (a : A) × ((m s).1 ≡ done a) × ((f a (m s).0).1 ≡ done b)
bind-done m f s b h = elim (Reply-cases (m s).1) [
  | inl (e, q) ↦ cc (rw q at h)
  | inr (a, q) ↦ (a, q, rw q at h)
]

try_target-first :
    {S : Type 0} (d : Driver S) (target : SelectionTarget) (next : Step S (Option VisibleRect))
    (s : S) (r : VisibleRect) (v : Option VisibleRect)
    → (d.g_selection target s).1 ≡ done r
    → (try_target d target next s).1 ≡ done v
    → v ≡ some r
unfolding try_target
try_target-first d target next s r v c q = sym (done-injective _ _ (rw c at q))

module _ {S : Type 0} (d : Driver S) (s : S) where
  -- A geometry that the negotiation accepts is NV12 in one plane with a stride that holds a row, a
  -- size, and a visible rectangle within the picture.
  pub negotiate-IsUsable :
      (g : CaptureGeometry) → (negotiate_decoder_capture d s).1 ≡ done g → IsUsable g
  unfolding negotiate_decoder_capture
  negotiate-IsUsable g h =
      let (format, _, h1) = bind-done d.g_fmt _ s g h in
      let (visible, _, h2) =
        bind-done (try_target d compose (try_target d compose_default (pure none))) _ _ g h1 in
      let (settled, _, h3) = bind-done (settle_format d format) _ _ g h2 in
      check_geometry-IsUsable settled visible g h3

  -- If the first selection target answers, an accepted geometry has its rectangle.
  pub negotiate-visible :
      (g : CaptureGeometry) (r : VisibleRect)
      → (negotiate_decoder_capture d s).1 ≡ done g
      → (d.g_selection compose (d.g_fmt s).0).1 ≡ done r
      → g.visible ≡ r
  unfolding negotiate_decoder_capture try_target
  negotiate-visible g r h c =
      let (format, _, h1) = bind-done d.g_fmt _ s g h in
      let (visible, q, h2) =
        bind-done (try_target d compose (try_target d compose_default (pure none))) _ _ g h1 in
      let (settled, _, h3) = bind-done (settle_format d format) _ _ g h2 in
      let (_, _, _, _, e) = check_geometry_passed settled visible g h3 in
      ap (λ x. x.visible) (sym e)
      ∙ ap (λ o. visible_or o settled) (try_target-first d compose _ _ r visible c q)

  -- Where the driver reports NV12 in one plane, the result does not depend on what setting a
  -- format would do.
  pub negotiate-keeps_nv12 :
      (format : PixFormat) (other : PixFormat → Step S PixFormat)
      → (d.g_fmt s).1 ≡ done format
      → is_nv12 format ≡ true
      → negotiate_decoder_capture (record d { s_fmt = other }) s ≡ negotiate_decoder_capture d s
  unfolding negotiate_decoder_capture try_target settle_format
  negotiate-keeps_nv12 format other h t = simp (h, t)
