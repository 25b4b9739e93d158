-- ===== src/Store/Examples.antt =====
-- A device that decodes H.264 and nothing else.
use Prim.Native.String.{String}
use hardware_floral_codec.Common.{Option, none, some, All}
use hardware_floral_codec.CodecSpec.{
  CodecSpec, CodecDirection, decode, encode, CodecType, avc, hevc, vp8, vp9, av1, mpeg2, v4l2_m2m,
  get_codec_specs,
}
use hardware_floral_codec.Store.{new_store}
use hardware_floral_codec.Store.Registered.{IsBacked, new_store-IsBacked}

abbrev path_of : CodecType → CodecDirection → Option String
path_of avc decode = some "/dev/video0"
path_of avc encode = none
path_of hevc d = none
path_of vp8 d = none
path_of vp9 d = none
path_of av1 d = none
path_of mpeg2 d = none

abbrev decodes_avc : CodecSpec → Option String
decodes_avc s = path_of s.codec s.direction

new_store-IsBacked_example :
    All
      (IsBacked decodes_avc (new_store (some decodes_avc) (get_codec_specs v4l2_m2m)))
      (new_store (some decodes_avc) (get_codec_specs v4l2_m2m)).traits
new_store-IsBacked_example = new_store-IsBacked v4l2_m2m decodes_avc
