-- ===== src/Bitstream/ConfigRecord.antt =====
-- `ParseAvcc` and `ParseHvcc`: the codec configuration records avcC and hvcC.
pub mod RoundTrip
use hardware_floral_codec.Common.{
  ℕ, zero, suc, ◌+◌, ◌*◌, ◌%◌, ◌^◌, Bool, true, false, not, ◌||◌, Option, none, some, [], ◌∷◌,
  bit_and, ltb, ◌==◌, if◌then◌else◌, length, is_empty, get_or, take, drop,
}
use hardware_floral_codec.Bitstream.Nal.{BitstreamCodec, avc, hevc, Bytes, append_nal}
use hardware_floral_codec.Bitstream.LengthPrefixed.{Converted, converted}

-- How a loop over NAL units goes: `short` where fewer than two bytes are left for a length, with
-- the output so far; `bad` where a unit does not fit or is refused; else the bytes behind the
-- units and the output.
pub data Units : Type 0 where
  short : Bytes → Units
  bad : Units
  done : Bytes → Bytes → Units

-- The loop over the parameter sets of `ParseAvcc`, and over the units of an array of `ParseHvcc`.
unfoldable pub parse_units : ℕ → BitstreamCodec → Bytes → Bytes → Units
parse_units zero codec bytes output = done bytes output
parse_units (suc count) codec [] output = short output
parse_units (suc count) codec (a ∷ []) output = short output
parse_units (suc count) codec (a ∷ b ∷ rest) output =
    let nal_size = (a * 256 + b) % 2 ^ 16 in
    elim (if ltb (length rest) nal_size
      then none
      else append_nal (take nal_size rest) codec output) [
        | none ↦ bad
        | some output' ↦ parse_units count codec (drop nal_size rest) output'
      ]

-- The picture parameter sets of `ParseAvcc`, from their count on, and the return.
unfoldable pub parse_pps : Bytes → Bytes → ℕ → Option ℕ → Converted
unfolding parse_units
parse_pps [] output length_size detected = converted false [] detected
parse_pps (pps_count ∷ rest) output length_size detected =
    elim (parse_units pps_count avc rest output) [
      | short output' ↦ converted false [] detected
      | bad ↦ converted false [] detected
      | done rest' output' ↦
          if is_empty output'
          then converted false output' detected
          else converted true output' (some length_size)
    ]

-- `ParseAvcc`. A length that is missing among the sequence parameter sets leaves the output as it
-- is by then.
unfoldable pub parse_avcc : Bytes → Bytes → Option ℕ → Converted
unfolding parse_pps
parse_avcc bytes output none = converted false output none
parse_avcc bytes output (some old) =
    if ltb (length bytes) 7
      || (not (get_or bytes 0 0 == 1) || not (bit_and (get_or bytes 4 0) 0xfc == 0xfc))
    then converted false output (some old)
    else let length_size = bit_and (get_or bytes 4 0) 3 + 1 in
      let sps_count = bit_and (get_or bytes 5 0) 0x1f in
      elim (parse_units sps_count avc (drop 6 bytes) []) [
        | short output' ↦ converted false output' (some old)
        | bad ↦ converted false [] (some old)
        | done rest output' ↦ parse_pps rest output' length_size (some old)
      ]

-- The loop of `ParseHvcc` over the arrays.
unfoldable pub parse_arrays : ℕ → Bytes → Bytes → Units
unfolding parse_units
parse_arrays zero bytes output = done bytes output
parse_arrays (suc count) [] output = bad
parse_arrays (suc count) (t ∷ []) output = bad
parse_arrays (suc count) (t ∷ a ∷ []) output = bad
parse_arrays (suc count) (t ∷ a ∷ b ∷ rest) output =
    elim (parse_units ((a * 256 + b) % 2 ^ 16) hevc rest output) [
      | short output' ↦ bad
      | bad ↦ bad
      | done rest' output' ↦ parse_arrays count rest' output'
    ]

-- `ParseHvcc`.
unfoldable pub parse_hvcc : Bytes → Bytes → Option ℕ → Converted
unfolding parse_arrays
parse_hvcc bytes output none = converted false output none
parse_hvcc bytes output (some old) =
    if ltb (length bytes) 23 || not (get_or bytes 0 0 == 1)
    then converted false output (some old)
    else let length_size = bit_and (get_or bytes 21 0) 3 + 1 in
      elim (parse_arrays (get_or bytes 22 0) (drop 23 bytes) []) [
        | short output' ↦ converted false [] (some old)
        | bad ↦ converted false [] (some old)
        | done rest output' ↦
            if is_empty output'
            then converted false output' (some old)
            else converted true output' (some length_size)
      ]
