-- ===== src/Bitstream/Examples.antt =====
-- Short streams, and runs of the functions on them.
use hardware_floral_codec.Common.{
  ◌≡◌, ◌≢◌, refl, true, false, none, some, List, [], ◌∷◌, ◌++◌, length, All, arith, if◌then◌else◌,
}
use hardware_floral_codec.Bitstream.Nal.{avc, Bytes, annex_b, is_valid_nal_header}
use hardware_floral_codec.Bitstream.AnnexB.{normalize_annex_b, find_start_code}
use hardware_floral_codec.Bitstream.AnnexB.Sound.{IsNal, IsStream, normalize_annex_b_sound}
use hardware_floral_codec.Bitstream.AnnexB.Fixed.{normalize_annex_b-normalize_annex_b}
use hardware_floral_codec.Bitstream.LengthPrefixed.{
  converted, convert_loop, convert_length_prefixed, try_length_sizes,
}
use hardware_floral_codec.Bitstream.LengthPrefixed.RoundTrip.{
  length_prefixed, Fits, IsByte, convert_length_prefixed-length_prefixed, convert_loop-ne-none,
  convert_length_prefixed_sound,
}
use hardware_floral_codec.Bitstream.ConfigRecord.{parse_avcc}
use hardware_floral_codec.Bitstream.ConfigRecord.RoundTrip.{
  avcc_head, avcc_record, parse_avcc-avcc_record, parse_avcc_partial,
}
use hardware_floral_codec.Bitstream.Normalize.{
  normalize_raw_nal, normalize_bytes, normalize_access_unit,
}
use hardware_floral_codec.Bitstream.Normalize.Output.{IsAnnexB, normalize_bytes-IsAnnexB}
use hardware_floral_codec.Bitstream.Extract.{extract_codec_config}
use hardware_floral_codec.Bitstream.Extract.Selects.{
  parameter_sets, has_config, extract_codec_config-selects,
}

-- A sequence parameter set, a picture parameter set and a slice.
abbrev sps : Bytes
sps = 0x67 ∷ 1 ∷ []

abbrev pps : Bytes
pps = 0x68 ∷ 5 ∷ []

abbrev slice : Bytes
slice = 0x65 ∷ 9 ∷ []

-- A stream with a byte before its first start code, start codes of both sizes, and a zero behind
-- its last unit.
abbrev loose : Bytes
loose = 9 ∷ 0 ∷ 0 ∷ 1 ∷ 0x67 ∷ 1 ∷ 0 ∷ 0 ∷ 0 ∷ 1 ∷ 0x68 ∷ 5 ∷ 0 ∷ []

abbrev units : List Bytes
units = sps ∷ pps ∷ []

loose_run : normalize_annex_b avc loose [] ≡ (true, annex_b units)
unfolding normalize_annex_b
loose_run = refl

units-IsNal : All (IsNal avc) units
unfolding is_valid_nal_header find_start_code
units-IsNal = ground arith

normalize_annex_b_sound_example :
    (nals : List Bytes) × (annex_b units ≡ annex_b nals)
    × All (IsNal avc) nals
    × IsStream loose nals
normalize_annex_b_sound_example = normalize_annex_b_sound avc loose [] (annex_b units) loose_run

refused_run : (normalize_annex_b avc sps sps).0 ≡ false
unfolding normalize_annex_b
refused_run = refl

units_ne_nil : units ≢ []
units_ne_nil = λ e. cc

normalize_annex_b-normalize_annex_b_example :
    normalize_annex_b avc (annex_b units) sps ≡ (true, annex_b units)
normalize_annex_b-normalize_annex_b_example =
    normalize_annex_b-normalize_annex_b avc loose [] (annex_b units) sps loose_run (omega arith)

units-Fits : All (Fits avc 2) units
unfolding is_valid_nal_header
units-Fits = ground arith

convert_length_prefixed-length_prefixed_example :
    convert_length_prefixed avc (length_prefixed 2 units) 2 slice ≡ (true, annex_b units)
convert_length_prefixed-length_prefixed_example =
    convert_length_prefixed-length_prefixed avc 2 units slice (omega arith) (omega arith)
      units_ne_nil units-Fits (omega arith)

convert_loop-ne-none_example : convert_loop (length loose) avc 2 loose [] ≢ none
convert_loop-ne-none_example = convert_loop-ne-none avc 2 loose (omega arith)

abbrev prefixed : Bytes
prefixed = 0 ∷ 2 ∷ 0x67 ∷ 1 ∷ 0 ∷ 2 ∷ 0x68 ∷ 5 ∷ []

prefixed_run : convert_length_prefixed avc prefixed 2 slice ≡ (true, annex_b units)
unfolding convert_length_prefixed
prefixed_run = refl

prefixed-IsByte : All IsByte prefixed
prefixed-IsByte = omega arith

convert_length_prefixed_sound_example :
    (nals : List Bytes) × (prefixed ≡ length_prefixed 2 nals)
    × (annex_b units ≡ annex_b nals)
    × All (Fits avc 2) nals
convert_length_prefixed_sound_example =
    convert_length_prefixed_sound avc prefixed 2 slice (annex_b units) prefixed-IsByte prefixed_run

abbrev one_sps : List Bytes
one_sps = sps ∷ []

abbrev one_pps : List Bytes
one_pps = pps ∷ []

one_sps-Fits : All (Fits avc 2) one_sps
unfolding is_valid_nal_header
one_sps-Fits = ground arith

one_pps-Fits : All (Fits avc 2) one_pps
unfolding is_valid_nal_header
one_pps-Fits = ground arith

parse_avcc-avcc_record_example :
    parse_avcc (avcc_record 77 0 30 3 one_sps one_pps (0xfc ∷ [])) slice (some 0)
    ≡ converted true (annex_b units) (some 4)
parse_avcc-avcc_record_example =
    parse_avcc-avcc_record 77 0 30 3 0 one_sps one_pps (0xfc ∷ []) slice (omega arith) (omega arith)
      units_ne_nil one_sps-Fits one_pps-Fits (omega arith)

one_sps_ne_nil : one_sps ≢ []
one_sps_ne_nil = λ e. cc

parse_avcc_partial_example :
    parse_avcc (avcc_head 77 0 30 3 2 (length_prefixed 2 one_sps ++ (0 ∷ []))) slice (some 0)
    ≡ converted false (annex_b one_sps) (some 0)
parse_avcc_partial_example =
    parse_avcc_partial 77 0 30 3 0 0 one_sps (0 ∷ []) slice (omega arith) (omega arith)
      one_sps_ne_nil one_sps-Fits (omega arith) (omega arith)

accepted_run : (normalize_bytes avc prefixed 2 [] (some 0) true).ok ≡ true
unfolding normalize_bytes normalize_annex_b try_length_sizes
accepted_run = refl

normalize_bytes-IsAnnexB_example :
    IsAnnexB avc (normalize_bytes avc prefixed 2 [] (some 0) true).output
    × ((normalize_bytes avc prefixed 2 [] (some 0) true).output ≢ [])
normalize_bytes-IsAnnexB_example =
    normalize_bytes-IsAnnexB avc prefixed 2 [] (some 0) true accepted_run

bad_run : (normalize_access_unit avc (some (0x80 ∷ 0 ∷ [])) 4 (some sps) none).0 ≡ false
unfolding normalize_access_unit normalize_annex_b try_length_sizes normalize_raw_nal
bad_run = refl

abbrev with_slice : List Bytes
with_slice = sps ∷ pps ∷ slice ∷ []

with_slice-IsNal : All (IsNal avc) with_slice
unfolding is_valid_nal_header find_start_code
with_slice-IsNal = ground arith

with_slice_run : normalize_annex_b avc (annex_b with_slice) [] ≡ (true, annex_b with_slice)
unfolding normalize_annex_b
with_slice_run = refl

extract_codec_config-selects_example :
    extract_codec_config avc (some (annex_b with_slice)) slice ≡ (
      if has_config avc with_slice
      then (true, annex_b (parameter_sets avc with_slice))
      else (false, []))
extract_codec_config-selects_example =
    extract_codec_config-selects avc (annex_b with_slice) slice with_slice with_slice-IsNal
      with_slice_run
