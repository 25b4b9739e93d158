-- ===== src/EncoderMetadata/Examples.antt =====
-- Timestamps of frames that the driver holds.
use hardware_floral_codec.Common.{◌≡◌, refl, none, some, List, [], ◌∷◌, arith}
use hardware_floral_codec.Common.Int.{pos}
use hardware_floral_codec.EncoderMetadata.{
  Timeval, timeval, FrameMetadata, metadata, make_encoder_timestamp, take_encoder_frame_index,
  frame_index_to_timestamp, timestamp_to_frame_index,
}
use hardware_floral_codec.EncoderMetadata.Laws.{
  Taken, take_encoder_frame_index-Taken, timestamp_to_frame_index-frame_index_to_timestamp,
}

abbrev first : Timeval
first = timeval (pos 0) (pos 33_333)

abbrev second : Timeval
second = timeval (pos 1) (pos 5)

abbrev pending : List FrameMetadata
pending = metadata first 7 ∷ metadata second 8 ∷ []

stamp_run : make_encoder_timestamp (pos 1_000_005) ≡ some second
unfolding make_encoder_timestamp
stamp_run = refl

take_run : take_encoder_frame_index pending second ≡ some (8, metadata first 7 ∷ [])
unfolding take_encoder_frame_index
take_run = refl

take_encoder_frame_index-Taken_example : Taken pending second 8 (metadata first 7 ∷ [])
take_encoder_frame_index-Taken_example =
    take_encoder_frame_index-Taken pending second 8 (metadata first 7 ∷ []) take_run

miss_run : take_encoder_frame_index pending (timeval (pos 2) (pos 5)) ≡ none
unfolding take_encoder_frame_index
miss_run = refl

timestamp_to_frame_index-frame_index_to_timestamp_example :
    timestamp_to_frame_index (frame_index_to_timestamp 1_000_007) ≡ 1_000_007
timestamp_to_frame_index-frame_index_to_timestamp_example =
    timestamp_to_frame_index-frame_index_to_timestamp 1_000_007 (omega arith)
