-- ===== src/Component/Drain/Decoder.antt =====
-- src/FloralCodecComponent.cpp: the buffer of a decoded frame.
use hardware_floral_codec.Common.{ℕ, Bool, true, false, Option, none, some, [], ◌∷◌}
use hardware_floral_codec.Session.{C2Status, c2_ok, c2_bad_value}
use hardware_floral_codec.Session.DecoderCapture.{DecodedFrame}
use hardware_floral_codec.Component.Drain.{Given, Made, made, not_made, FrameSource}

-- The rectangle that a graphic buffer shares of its block.
pub record Share (K : Type 0) : Type 0 where
  pub shared_block : K
  pub left : ℕ
  pub top : ℕ
  pub width : ℕ
  pub height : ℕ

-- C2StreamPictureSizeInfo::output.
pub record PictureSize : Type 0 where
  pub width : ℕ
  pub height : ℕ

module _ {K : Type 0} where
  abbrev pub has_no_block : Option K → Bool
  has_no_block none = true
  has_no_block (some block) = false

  abbrev pub share_of : DecodedFrame K → K → Share K
  share_of f block = record {
    shared_block = block;
    left = f.crop_left;
    top = f.crop_top;
    width = f.width;
    height = f.height;
  }

  abbrev pub size_of : DecodedFrame K → PictureSize
  size_of f = record { width = f.width; height = f.height }

module _ {S K : Type 0} where
  -- The result of `UpdateOutputSize`, and the buffer behind it. The loop asks for no buffer of a
  -- frame without a block.
  abbrev pub updated : DecodedFrame K → Option K → S × C2Status → S × Made (Share K) PictureSize
  updated f none (s, c2_ok) = (s, not_made c2_bad_value)
  updated f (some block) (s, c2_ok) = (s, made (share_of f block) (size_of f ∷ []))
  updated f block (s, e) = (s, not_made e)

  -- The buffer of `DrainV4l2Decoder`; `config` sets the output size in the framework.
  unfoldable pub make_decoded_buffer :
      (ℕ → ℕ → S → S × C2Status) → DecodedFrame K → S → S × Made (Share K) PictureSize
  make_decoded_buffer config f s = updated f f.block (config f.width f.height s)

  -- The session's DequeueDecoderFrame, as the loop asks for it.
  abbrev pub decoder_source :
      (Bool → S → S × Given (DecodedFrame K))
      → (ℕ → ℕ → S → S × C2Status)
      → FrameSource S (DecodedFrame K) (Share K) PictureSize
  decoder_source dequeue config = record {
    dequeue = dequeue;
    end_of_stream = λ f. f.end_of_stream;
    has_no_data = λ f. has_no_block f.block;
    frame_index = λ f. f.frame_index;
    make_buffer = make_decoded_buffer config;
  }
