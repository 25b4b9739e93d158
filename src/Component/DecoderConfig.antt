-- ===== src/Component/DecoderConfig.antt =====
-- src/FloralCodecComponent.cpp: the parameter sets of a decoder, and the packets they go with.
pub mod Calls
pub mod Streams
pub mod Packets
pub mod Refines
use hardware_floral_codec.Common.{
  ℕ, ◌+◌, ◌-◌, ◌^◌, Bool, true, false, not, ◌&&◌, ◌||◌, Option, none, some, List, [], ◌∷◌, ◌++◌,
  ltb, if◌then◌else◌, length, is_empty,
}
use hardware_floral_codec.Bitstream.Nal.{BitstreamCodec, avc, hevc, Bytes, size_max}
use hardware_floral_codec.Bitstream.Normalize.{normalize_codec_config, normalize_access_unit}
use hardware_floral_codec.CodecSpec.{
  CodecSpec, CodecDirection, decode, encode, MediaType, video_avc, video_hevc, video_vp8, video_vp9,
  video_av1, video_mpeg2,
}
use hardware_floral_codec.Session.{C2Status, c2_ok, c2_no_memory, c2_corrupted}

-- The members of the component: `decoder_config_`, `decoder_config_pending_` and
-- `decoder_nal_length_size_`.
pub record DecoderConfig : Type 0 where
  pub decoder_config : Bytes
  pub decoder_config_pending : Bool
  pub decoder_nal_length_size : ℕ

-- `ClearDecoderConfig`.
abbrev pub cleared : DecoderConfig
cleared = record {
  decoder_config = [];
  decoder_config_pending = false;
  decoder_nal_length_size = 4;
}

abbrev pub get_bitstream_codec : MediaType → Option BitstreamCodec
get_bitstream_codec video_avc = some avc
get_bitstream_codec video_hevc = some hevc
get_bitstream_codec video_vp8 = none
get_bitstream_codec video_vp9 = none
get_bitstream_codec video_av1 = none
get_bitstream_codec video_mpeg2 = none

-- `GetDecoderBitstreamCodec` with an output that is not null: `none` where it returns false.
abbrev pub get_decoder_bitstream_codec : CodecDirection → MediaType → Option BitstreamCodec
get_decoder_bitstream_codec encode media = none
get_decoder_bitstream_codec decode media = get_bitstream_codec media

-- The vector and the byte behind the pointers that the functions of the bitstream get.
abbrev pub bytes_of : Option Bytes → Bytes
bytes_of none = []
bytes_of (some bytes) = bytes

abbrev pub size_of : Option ℕ → ℕ → ℕ
size_of none size = size
size_of (some n) size = n

-- The test before two vectors are joined: the size of both has no size_t.
abbrev pub is_too_long : Bytes → Bytes → Bool
is_too_long first second = ltb (size_max - length second) (length first)

-- The end of `StoreDecoderConfig`, behind the normalisation.
unfoldable pub keep_config : Bytes → ℕ → DecoderConfig → C2Status × DecoderConfig
keep_config normalized size c =
    if c.decoder_config_pending && is_too_long c.decoder_config normalized
    then (c2_no_memory, c)
    else (
      c2_ok,
      record {
        decoder_config =
            if c.decoder_config_pending then c.decoder_config ++ normalized else normalized;
        decoder_config_pending = true;
        decoder_nal_length_size = size;
      },
    )

abbrev pub keep_normalized :
    Bool × Option Bytes × Option ℕ → DecoderConfig → C2Status × DecoderConfig
keep_normalized (false, output, detected) c = (c2_corrupted, c)
keep_normalized (true, output, detected) c =
    keep_config (bytes_of output) (size_of detected c.decoder_nal_length_size) c

-- `StoreDecoderConfig`.
unfoldable pub store_decoder_config :
    BitstreamCodec → Bytes → DecoderConfig → C2Status × DecoderConfig
unfolding keep_config
store_decoder_config codec [] c = (c2_ok, c)
store_decoder_config codec (b ∷ bytes) c =
    keep_normalized
      (normalize_codec_config codec (some (b ∷ bytes)) c.decoder_nal_length_size (some [])
        (some c.decoder_nal_length_size))
      c

abbrev pub if_ok :
    C2Status × DecoderConfig → (DecoderConfig → C2Status × DecoderConfig) → C2Status × DecoderConfig
if_ok (c2_ok, c) next = next c
if_ok (other, c) next = (other, c)

-- The loop of `ProcessDecoderConfigUpdates`; a parameter that is no C2StreamInitDataInfo::input is
-- `none`.
unfoldable pub process_updates :
    BitstreamCodec → List (Option Bytes) → DecoderConfig → C2Status × DecoderConfig
unfolding store_decoder_config
process_updates codec [] c = (c2_ok, c)
process_updates codec (none ∷ params) c = process_updates codec params c
process_updates codec (some init ∷ params) c =
    if_ok (store_decoder_config codec init c) (process_updates codec params)

-- `ProcessDecoderConfigUpdates`; no codec stands for `normalizeBitstream` being false.
abbrev pub process_decoder_config_updates :
    Option BitstreamCodec → List (Option Bytes) → DecoderConfig → C2Status × DecoderConfig
process_decoder_config_updates none params c = (c2_ok, c)
process_decoder_config_updates (some codec) params c = process_updates codec params c

-- What `ProcessV4l2Decoder` makes of the bytes of an access unit before it queues them.
pub data Packet : Type 0 where
  refused : C2Status → DecoderConfig → Packet
  packet : Bytes → DecoderConfig → Packet

unfoldable pub join_config : Bytes → DecoderConfig → Packet
join_config normalized c =
    if c.decoder_config_pending && not (is_empty c.decoder_config)
    then (if is_too_long c.decoder_config normalized
        then refused c2_no_memory c
        else packet (c.decoder_config ++ normalized) c)
    else packet normalized c

abbrev pub join_normalized : Bool × Option Bytes × Option ℕ → DecoderConfig → Packet
join_normalized (false, output, detected) c = refused c2_corrupted c
join_normalized (true, output, detected) c =
    join_config (bytes_of output)
      (record c { decoder_nal_length_size = size_of detected c.decoder_nal_length_size })

unfoldable pub make_packet : Option BitstreamCodec → Bytes → DecoderConfig → Packet
unfolding join_config
make_packet none bytes c = packet bytes c
make_packet (some codec) bytes c =
    join_normalized
      (normalize_access_unit codec (some bytes) c.decoder_nal_length_size (some [])
        (some c.decoder_nal_length_size))
      c

-- What a queued packet, and a flush, leave behind.
abbrev pub after_packet : Option BitstreamCodec → DecoderConfig → DecoderConfig
after_packet none c = c
after_packet (some codec) c = record c { decoder_config_pending = false }

abbrev pub after_flush : DecoderConfig → DecoderConfig
after_flush c = record c {
  decoder_config_pending = not (is_empty c.decoder_config) || c.decoder_config_pending;
}
