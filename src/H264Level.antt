-- ===== src/H264Level.antt =====
-- include/floral/codec/H264Level.h and src/H264Level.cpp: the least H.264 level for a stream.
pub mod Least
mod Examples
use hardware_floral_codec.Common.{
  ℕ, ◌+◌, ◌-◌, ◌*◌, ◌/◌, ◌%◌, ◌^◌, max, Bool, true, false, ◌&&◌, ◌||◌, Option, none, some, List, [],
  ◌∷◌, leb, ◌==◌, if◌then◌else◌,
}

pub data H264Profile : Type 0 where
  baseline constrained_baseline main high : H264Profile

pub data H264Level : Type 0 where
  k1 k1_b k1_1 k1_2 k1_3 k2 k2_1 k2_2 k3 k3_1 k3_2 k4 k4_1 k4_2 k5 k5_1 k5_2 : H264Level

-- The values of the enumeration, those of enum v4l2_mpeg_video_h264_level.
unfoldable pub level_value : H264Level → ℕ
level_value k1 = 0
level_value k1_b = 1
level_value k1_1 = 2
level_value k1_2 = 3
level_value k1_3 = 4
level_value k2 = 5
level_value k2_1 = 6
level_value k2_2 = 7
level_value k3 = 8
level_value k3_1 = 9
level_value k3_2 = 10
level_value k4 = 11
level_value k4_1 = 12
level_value k4_2 = 13
level_value k5 = 14
level_value k5_1 = 15
level_value k5_2 = 16

pub record LevelLimit : Type 0 where
  pub level : H264Level
  pub macroblocks_per_second : ℕ
  pub macroblocks_per_frame : ℕ
  pub maximum_dimension_in_macroblocks : ℕ
  pub baseline_bitrate_kbps : ℕ

abbrev limit : H264Level → ℕ → ℕ → ℕ → ℕ → LevelLimit
limit level per_second per_frame dimension bitrate = record {
  level = level;
  macroblocks_per_second = per_second;
  macroblocks_per_frame = per_frame;
  maximum_dimension_in_macroblocks = dimension;
  baseline_bitrate_kbps = bitrate;
}

-- `kLevelLimits`.
unfoldable pub level_limits : List LevelLimit
level_limits =
    limit k1 1_485 99 28 64
    ∷ limit k1_b 1_485 99 28 128
    ∷ limit k1_1 3_000 396 56 192
    ∷ limit k1_2 6_000 396 56 384
    ∷ limit k1_3 11_880 396 56 768
    ∷ limit k2 11_880 396 56 2_000
    ∷ limit k2_1 19_800 792 79 4_000
    ∷ limit k2_2 20_250 1_620 113 4_000
    ∷ limit k3 40_500 1_620 113 10_000
    ∷ limit k3_1 108_000 3_600 169 14_000
    ∷ limit k3_2 216_000 5_120 202 20_000
    ∷ limit k4 245_760 8_192 256 20_000
    ∷ limit k4_1 245_760 8_192 256 50_000
    ∷ limit k4_2 522_240 8_704 263 50_000
    ∷ limit k5 589_824 22_080 420 135_000
    ∷ limit k5_1 983_040 36_864 543 240_000
    ∷ limit k5_2 2_073_600 36_864 543 240_000
    ∷ []

unfoldable pub bitrate_scale : H264Profile → ℕ
bitrate_scale high = 1_250
bitrate_scale baseline = 1_000
bitrate_scale constrained_baseline = 1_000
bitrate_scale main = 1_000

-- `(coded + 15u) / 16u` in uint32_t.
unfoldable pub macroblocks : ℕ → ℕ
macroblocks coded = (coded + 15) % 2 ^ 32 / 16

-- The test of the loop on one entry, in uint64_t.
unfoldable pub within_limit : LevelLimit → ℕ → ℕ → ℕ → ℕ → Bool
within_limit l width height frame_rate kbps =
    let per_frame = width * height % 2 ^ 64 in
    leb (per_frame * frame_rate % 2 ^ 64) l.macroblocks_per_second
    && (leb per_frame l.macroblocks_per_frame
        && (leb (max width height) l.maximum_dimension_in_macroblocks
            && leb kbps l.baseline_bitrate_kbps))

-- The loop over the table.
unfoldable pub first_level : List LevelLimit → ℕ → ℕ → ℕ → ℕ → Option H264Level
first_level [] width height frame_rate kbps = none
first_level (l ∷ ls) width height frame_rate kbps =
    let later = first_level ls width height frame_rate kbps in
    if within_limit l width height frame_rate kbps then some l.level else later

-- `FindMinimumH264Level`.
unfoldable pub find_minimum_h264_level : ℕ → ℕ → ℕ → ℕ → H264Profile → Option H264Level
find_minimum_h264_level coded_width coded_height frame_rate bitrate profile =
    if coded_width == 0 || (coded_height == 0 || (frame_rate == 0 || bitrate == 0))
    then none
    else first_level level_limits (macroblocks coded_width) (macroblocks coded_height) frame_rate
        ((bitrate + bitrate_scale profile - 1) / bitrate_scale profile)
