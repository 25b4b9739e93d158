-- ===== src/Bitstream/Extract.antt =====
-- `ExtractCodecConfig`: the parameter sets of an Annex-B access unit.
pub mod Selects
use hardware_floral_codec.Common.{
  ℕ, zero, suc, ◌+◌, ◌/◌, Bool, true, false, ◌&&◌, Option, none, some, [], ◌∷◌, ◌++◌, bit_and,
  bit_or, ltb, ◌==◌, if◌then◌else◌, length, get_or, take, drop,
}
use hardware_floral_codec.Bitstream.Nal.{BitstreamCodec, avc, hevc, Bytes}
use hardware_floral_codec.Bitstream.AnnexB.{normalize_annex_b}

-- The NAL unit type in a header's first byte.
unfoldable pub nal_type : BitstreamCodec → ℕ → ℕ
nal_type avc h = bit_and h 0x1f
nal_type hevc h = bit_and (h / 2) 0x3f

-- `typeBit`: 0 for a unit that is no parameter set.
unfoldable pub type_bit : BitstreamCodec → ℕ → ℕ
unfolding nal_type
type_bit avc h = let type = nal_type avc h in if type == 7 then 1 else if type == 8 then 2 else 0
type_bit hevc h =
    let type = nal_type hevc h in
    if type == 32 then 1 else if type == 33 then 2 else if type == 34 then 4 else 0

unfoldable pub required_types : BitstreamCodec → ℕ
required_types avc = 3
required_types hevc = 7

-- The inner loop: the offset of the next 00 00 00 01, or of the end.
unfoldable pub find_next : Bytes → ℕ
find_next [] = 0
find_next (a ∷ rest) =
    let later = suc (find_next rest) in
    if a == 0 && (get_or rest 0 1 == 0 && (get_or rest 1 1 == 0 && get_or rest 2 0 == 1))
    then 0
    else later

-- The outer loop, on the normalised bytes from `offset` on, with the output and the types found.
-- `none`: out of fuel.
unfoldable pub extract_loop : ℕ → BitstreamCodec → Bytes → Bytes → ℕ → Option (Bytes × ℕ)
extract_loop zero codec bytes output found = none
extract_loop (suc fuel) codec bytes output found =
    let nal_end = 4 + find_next (drop 4 bytes) in
    let bit = type_bit codec (get_or bytes 4 0) in
    let rest =
      extract_loop fuel codec (drop nal_end bytes)
        (if bit == 0 then output else output ++ take nal_end bytes)
        (if bit == 0 then found else bit_or found bit) in
    if ltb 4 (length bytes) then rest else some (output, found)

unfoldable pub extracted : BitstreamCodec → Option (Bytes × ℕ) → Bool × Bytes
extracted codec none = (false, [])
extracted codec (some (output, found)) =
    if found == required_types codec then (true, output) else (false, [])

-- `ExtractCodecConfig` with an output that is not null. A round drops a start code at least, so
-- the length is fuel enough.
unfoldable pub extract_codec_config : BitstreamCodec → Option Bytes → Bytes → Bool × Bytes
extract_codec_config codec none output = (false, [])
extract_codec_config codec (some bytes) output =
    let (found, normalized) = normalize_annex_b codec bytes [] in
    let r = extracted codec (extract_loop (suc (length normalized)) codec normalized [] 0) in
    if found then r else (false, [])
