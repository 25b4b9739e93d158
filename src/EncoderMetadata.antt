-- ===== src/EncoderMetadata.antt =====
-- src/V4l2EncoderMetadata.h, and the two timestamp functions of src/V4l2CodecSession.cpp: how a
-- frame keeps its work index across the driver.
pub mod Laws
mod Examples
use hardware_floral_codec.Common.{
  ℕ, ◌+◌, ◌-◌, ◌*◌, ◌/◌, ◌%◌, ◌^◌, Bool, true, false, ◌&&◌, ◌||◌, Option, none, some, List, [], ◌∷◌,
  ltb, if◌then◌else◌,
}
use hardware_floral_codec.Common.Int.{ℤ, pos, negsuc, ◌==ℤ◌, is_neg, magnitude}

-- `timeval`; time_t and suseconds_t are signed 64-bit integers.
pub record Timeval : Type 0 where
  pub tv_sec : ℤ
  pub tv_usec : ℤ

abbrev pub timeval : ℤ → ℤ → Timeval
timeval sec usec = record { tv_sec = sec; tv_usec = usec }

-- `V4l2EncoderFrameMetadata`.
pub record FrameMetadata : Type 0 where
  pub timestamp : Timeval
  pub frame_index : ℕ

abbrev pub metadata : Timeval → ℕ → FrameMetadata
metadata timestamp frame_index = record { timestamp = timestamp; frame_index = frame_index }

-- std::numeric_limits<int64_t>::max(), and that of time_t.
abbrev pub int64_max : ℕ
int64_max = 2 ^ 63 - 1

-- `MakeV4l2EncoderTimestamp`: `none` where it returns false.
unfoldable pub make_encoder_timestamp : ℤ → Option Timeval
make_encoder_timestamp (negsuc n) = none
make_encoder_timestamp (pos us) =
    if ltb (int64_max / 1_000) us || ltb int64_max (us / 1_000_000)
    then none
    else some (timeval (pos (us / 1_000_000)) (pos (us % 1_000_000)))

unfoldable pub same_timestamp : Timeval → Timeval → Bool
same_timestamp a b = a.tv_sec ==ℤ b.tv_sec && a.tv_usec ==ℤ b.tv_usec

abbrev pub keep {ℓ} : {A : Type ℓ} → A → Option (ℕ × List A) → Option (ℕ × List A)
keep a none = none
keep a (some (i, rest)) = some (i, a ∷ rest)

-- `TakeV4l2EncoderFrameIndex`: the index and the frames that are left, or `none` with the frames
-- as they were.
unfoldable pub take_encoder_frame_index :
    List FrameMetadata → Timeval → Option (ℕ × List FrameMetadata)
unfolding same_timestamp
take_encoder_frame_index [] timestamp = none
take_encoder_frame_index (f ∷ frames) timestamp =
    let later = keep f (take_encoder_frame_index frames timestamp) in
    if same_timestamp f.timestamp timestamp then some (f.frame_index, frames) else later

-- `FrameIndexToTimestamp`, for the decoder. The quotient of a uint64_t fits time_t.
unfoldable pub frame_index_to_timestamp : ℕ → Timeval
frame_index_to_timestamp i = timeval (pos (i / 1_000_000)) (pos (i % 1_000_000))

-- `TimestampToFrameIndex`, in uint64_t.
unfoldable pub timestamp_to_frame_index : Timeval → ℕ
timestamp_to_frame_index t =
    if is_neg t.tv_sec || is_neg t.tv_usec
    then 0
    else (magnitude t.tv_sec * 1_000_000 % 2 ^ 64 + magnitude t.tv_usec) % 2 ^ 64
