-- ===== src/Bitstream/Normalize.antt =====
-- `Normalize` and its two entry points, `NormalizeCodecConfig` and `NormalizeAccessUnit`.
pub mod Output
use hardware_floral_codec.Common.{
  ℕ, Bool, true, false, ◌&&◌, Option, none, some, [], ◌∷◌, leb, ◌==◌, if◌then◌else◌, length, get_or,
}
use hardware_floral_codec.Bitstream.Nal.{BitstreamCodec, avc, hevc, Bytes, append_nal}
use hardware_floral_codec.Bitstream.AnnexB.{normalize_annex_b}
use hardware_floral_codec.Bitstream.LengthPrefixed.{
  Converted, converted, write, preferred_length_size, try_length_sizes,
}
use hardware_floral_codec.Bitstream.ConfigRecord.{parse_avcc, parse_hvcc}

abbrev is_avc : BitstreamCodec → Bool
is_avc avc = true
is_avc hevc = false

abbrev is_hevc : BitstreamCodec → Bool
is_hevc avc = false
is_hevc hevc = true

-- `NormalizeRawNal`.
unfoldable pub normalize_raw_nal : BitstreamCodec → Bytes → Bytes → Bool × Bytes
normalize_raw_nal codec bytes output = elim (append_nal bytes codec []) [
  | none ↦ (false, [])
  | some output' ↦ (true, output')
]

-- The end of `Normalize`, which is written out twice there: the length sizes, then a raw unit.
unfoldable pub normalize_rest : BitstreamCodec → Bytes → ℕ → Bytes → Option ℕ → Converted
normalize_rest codec bytes preferred output detected =
    let tried = try_length_sizes codec bytes preferred output detected in
    let (raw, output') = normalize_raw_nal codec bytes tried.output in
    if tried.ok
    then tried
    else converted raw output'
        (if raw then write tried.detected (preferred_length_size preferred) else tried.detected)

-- `Normalize` behind its null and size tests.
unfoldable pub normalize_bytes : BitstreamCodec → Bytes → ℕ → Bytes → Option ℕ → Bool → Converted
unfolding normalize_rest
normalize_bytes codec bytes preferred output detected config =
    let (found, output') = normalize_annex_b codec bytes output in
    if config && (is_avc codec && (get_or bytes 0 0 == 1 && leb 7 (length bytes)))
    then parse_avcc bytes output detected
    else if config && (is_hevc codec && (get_or bytes 0 0 == 1 && leb 23 (length bytes)))
    then parse_hvcc bytes output detected
    else if found
    then converted true output' (write detected (preferred_length_size preferred))
    else normalize_rest codec bytes preferred output' detected

-- `Normalize`: `none` for a null pointer, in the data as in the output.
unfoldable pub normalize :
    BitstreamCodec
    → Option Bytes
    → ℕ
    → Option Bytes
    → Option ℕ
    → Bool
    → Bool × Option Bytes × Option ℕ
unfolding normalize_bytes
normalize codec none preferred output detected config = (false, output, detected)
normalize codec (some []) preferred output detected config = (false, output, detected)
normalize codec (some (b ∷ bytes)) preferred none detected config = (false, none, detected)
normalize codec (some (b ∷ bytes)) preferred (some output) detected config =
    let r = normalize_bytes codec (b ∷ bytes) preferred output detected config in
    (r.ok, some r.output, r.detected)

-- `NormalizeCodecConfig`.
unfoldable pub normalize_codec_config :
    BitstreamCodec → Option Bytes → ℕ → Option Bytes → Option ℕ → Bool × Option Bytes × Option ℕ
unfolding normalize
normalize_codec_config codec bytes preferred output detected =
    normalize codec bytes preferred output detected true

-- `NormalizeAccessUnit`.
unfoldable pub normalize_access_unit :
    BitstreamCodec → Option Bytes → ℕ → Option Bytes → Option ℕ → Bool × Option Bytes × Option ℕ
unfolding normalize
normalize_access_unit codec bytes preferred output detected =
    normalize codec bytes preferred output detected false
