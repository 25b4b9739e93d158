-- ===== src/H264Level/Examples.antt =====
-- A 1080p stream at 30 frames and 8 Mbit per second.
use hardware_floral_codec.Common.{arith}
use hardware_floral_codec.H264Level.{high, level_limits, find_minimum_h264_level}
use hardware_floral_codec.H264Level.Least.{Covers, Found, find_minimum_h264_level-Found}

find_minimum_h264_level-Found_example :
    Found
      (Covers 1920 1080 30 8_000_000 high)
      level_limits
      (find_minimum_h264_level 1920 1080 30 8_000_000 high)
find_minimum_h264_level-Found_example =
    find_minimum_h264_level-Found 1920 1080 30 8_000_000 high (omega arith) (omega arith)
      (omega arith) (omega arith) (omega arith) (omega arith) (omega arith)
