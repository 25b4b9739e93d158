-- ===== src/DecoderGeometry.antt =====
-- src/V4l2DecoderGeometry.h: the capture format and the visible rectangle of a decoder.
pub mod Negotiated
mod Examples
use hardware_floral_codec.Common.{
  ℕ, ◌-◌, Bool, true, false, not, ◌&&◌, ◌||◌, Option, none, some, leb, ltb, ◌==◌, if◌then◌else◌,
}
use hardware_floral_codec.Common.Int.{ℤ, pos, negsuc, is_neg, magnitude}

-- The fields of `v4l2_pix_format_mplane` that the code reads or writes.
pub record PixFormat : Type 0 where
  pub width : ℕ
  pub height : ℕ
  pub pixelformat : ℕ
  pub field : ℕ
  pub num_planes : ℕ
  pub bytesperline : ℕ
  pub sizeimage : ℕ

-- `v4l2_rect`.
pub record VisibleRect : Type 0 where
  pub left : ℤ
  pub top : ℤ
  pub width : ℕ
  pub height : ℕ

-- `V4l2DecoderCaptureGeometry`.
pub record CaptureGeometry : Type 0 where
  pub format : PixFormat
  pub visible : VisibleRect

-- What a call of ioctl gives back: the argument as the driver left it, or -1 with an errno.
pub data Reply (A : Type 0) : Type 0 where
  done : A → Reply A
  failed : ℕ → Reply A

pub data SelectionTarget : Type 0 where
  compose compose_default : SelectionTarget

-- The driver, over a state of its own: VIDIOC_G_FMT, VIDIOC_G_SELECTION and VIDIOC_S_FMT on the
-- capture queue.
pub record Driver (S : Type 0) : Type 0 where
  pub g_fmt : S → S × Reply PixFormat
  pub g_selection : SelectionTarget → S → S × Reply VisibleRect
  pub s_fmt : PixFormat → S → S × Reply PixFormat

-- The constants of <linux/videodev2.h> and <cerrno> that the code names.
abbrev pub pix_fmt_nv12 : ℕ
pix_fmt_nv12 = 0x3231564e

abbrev pub field_none : ℕ
field_none = 1

abbrev pub einval : ℕ
einval = 22

abbrev pub enotty : ℕ
enotty = 25

abbrev pub eproto : ℕ
eproto = 71

abbrev pub enotsup : ℕ
enotsup = 95

-- `DecoderVisibleRectFits`.
unfoldable pub decoder_visible_rect_fits : VisibleRect → ℕ → ℕ → Bool
decoder_visible_rect_fits rect width height =
    (not (is_neg rect.left) && not (is_neg rect.top))
    && ((ltb 0 rect.width && ltb 0 rect.height)
        && ((leb (magnitude rect.left) width && leb (magnitude rect.top) height)
            && (leb rect.width (width - magnitude rect.left)
                && leb rect.height (height - magnitude rect.top))))

abbrev pub is_nv12 : PixFormat → Bool
is_nv12 f = f.pixelformat == pix_fmt_nv12 && f.num_planes == 1

-- The format that VIDIOC_S_FMT is given.
abbrev pub nv12_request : ℕ → ℕ → PixFormat
nv12_request width height = record {
  width = width;
  height = height;
  pixelformat = pix_fmt_nv12;
  field = field_none;
  num_planes = 1;
  bytesperline = 0;
  sizeimage = 0;
}

abbrev pub visible_or : Option VisibleRect → PixFormat → VisibleRect
visible_or none f = record { left = pos 0; top = pos 0; width = f.width; height = f.height }
visible_or (some r) f = r

-- The checks behind the last ioctl.
unfoldable pub check_geometry : PixFormat → Option VisibleRect → Reply CaptureGeometry
unfolding decoder_visible_rect_fits
check_geometry format visible =
    if not (is_nv12 format)
    then failed enotsup
    else if ltb format.bytesperline format.width
        || (format.sizeimage == 0
            || not
                (decoder_visible_rect_fits (visible_or visible format) format.width format.height))
    then failed eproto
    else done (record { format = format; visible = visible_or visible format })

-- A step of the negotiation: it changes the driver's state, and an errno ends it.
abbrev pub Step : Type 0 → Type 0 → Type 0
Step S A = S → S × Reply A

abbrev pub pure : {S A : Type 0} → A → Step S A
pure a s = (s, done a)

abbrev pub fail : {S A : Type 0} → ℕ → Step S A
fail e s = (s, failed e)

abbrev pub continue : {S A B : Type 0} → S → Reply A → (A → Step S B) → S × Reply B
continue s (done a) f = f a s
continue s (failed e) f = (s, failed e)

infixl 5 ◌>>=◌
abbrev pub ◌>>=◌ : {S A B : Type 0} → Step S A → (A → Step S B) → Step S B
◌>>=◌ m f s = let (s', r) = m s in continue s' r f

abbrev pub recover :
    {S : Type 0}
    → S
    → Reply VisibleRect
    → Step S (Option VisibleRect)
    → S × Reply (Option VisibleRect)
recover s (done r) next = (s, done (some r))
recover s (failed e) next = if e == einval || e == enotty then next s else (s, failed e)

module _ {S : Type 0} (d : Driver S) where
  -- One round of the loop over the selection targets: a rectangle ends it, EINVAL and ENOTTY go on
  -- to the next target, any other errno ends the negotiation.
  unfoldable pub try_target :
      SelectionTarget → Step S (Option VisibleRect) → Step S (Option VisibleRect)
  try_target target next s = let (s', r) = d.g_selection target s in recover s' r next

  -- The format to use: the driver's own, or what VIDIOC_S_FMT makes of the request.
  unfoldable pub settle_format : PixFormat → Step S PixFormat
  settle_format format =
      if is_nv12 format then pure format else d.s_fmt (nv12_request format.width format.height)

  -- `NegotiateV4l2DecoderCapture` with an output that is not null.
  unfoldable pub negotiate_decoder_capture : Step S CaptureGeometry
  unfolding try_target settle_format
  negotiate_decoder_capture = do
    format ← d.g_fmt
    visible ← try_target compose (try_target compose_default (pure none))
    settled ← settle_format format
    λ s. (s, check_geometry settled visible)
