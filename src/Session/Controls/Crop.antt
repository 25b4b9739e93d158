-- ===== src/Session/Controls/Crop.antt =====
-- What SetVisibleCrop and SetAndVerifyControl assure.
use hardware_floral_codec.Common.{ℕ, ◌≡◌, refl, true, Option, none, some, arith}
use hardware_floral_codec.Common.Int.{pos, eq_of_==ℤ}
use hardware_floral_codec.DecoderGeometry.{VisibleRect}
use hardware_floral_codec.Session.{c2_ok}
use hardware_floral_codec.Session.Controls.{
  Driver, is_crop, check_crop, with_selection, set_visible_crop,
}

-- The visible rectangle at the origin.
pub record IsCrop (width height : ℕ) (r : VisibleRect) : Type 0 where
  pub at_left : r.left ≡ pos 0
  pub at_top : r.top ≡ pos 0
  pub same_width : r.width ≡ width
  pub same_height : r.height ≡ height

is_crop-IsCrop :
    (width height : ℕ) (r : VisibleRect) → is_crop width height r ≡ true → IsCrop width height r
is_crop-IsCrop width height r e = record {
  at_left = eq_of_==ℤ r.left (pos 0) (ground arith);
  at_top = eq_of_==ℤ r.top (pos 0) (ground arith);
  same_width = ground arith;
  same_height = ground arith;
}

module _ {S : Type 0} (d : Driver S) where
  -- The driver took the rectangle as it is, and reads it back so.
  pub record CropStands (width height : ℕ) (r : S × Option VisibleRect) : Type 0 where
    pub selected : VisibleRect
    pub was_selected : r.1 ≡ some selected
    pub selected_crop : IsCrop width height selected
    pub verified : VisibleRect
    pub was_read : (d.g_selection r.0).1 ≡ some verified
    pub verified_crop : IsCrop width height verified

  check_crop_inv :
      (width height : ℕ) (selected : VisibleRect) (r : S × Option VisibleRect)
      → (check_crop d width height selected r).1 ≡ c2_ok
      → (verified : VisibleRect) × (r.1 ≡ some verified)
        × (is_crop width height selected ≡ true)
        × (is_crop width height verified ≡ true)
  check_crop_inv width height selected (s, none) e = cc
  check_crop_inv width height selected (s, some verified) e =
      (verified, refl, ground arith, ground arith)

  with_selection-CropStands :
      (width height : ℕ) (r : S × Option VisibleRect)
      → (with_selection d width height r).1 ≡ c2_ok
      → CropStands width height r
  with_selection-CropStands width height (s, none) e = cc
  with_selection-CropStands width height (s, some selected) e =
      let (verified, read, first, second) =
        check_crop_inv width height selected (d.g_selection s) e in
      record {
        selected = selected;
        was_selected = refl;
        selected_crop = is_crop-IsCrop width height selected first;
        verified = verified;
        was_read = read;
        verified_crop = is_crop-IsCrop width height verified second;
      }

  -- Where SetVisibleCrop returns C2_OK, the driver has taken the visible rectangle at the origin
  -- unchanged, and reads it back so.
  pub set_visible_crop-CropStands :
      (width height : ℕ) (s : S)
      → (set_visible_crop d width height s).1 ≡ c2_ok
      → CropStands width height (d.s_selection width height s)
  unfolding set_visible_crop
  set_visible_crop-CropStands width height s e =
      with_selection-CropStands width height (d.s_selection width height s) e
