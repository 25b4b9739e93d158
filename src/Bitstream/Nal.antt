-- ===== src/Bitstream/Nal.antt =====
-- The codec of a stream, the header test of a NAL unit, and `AppendNal`.
use hardware_floral_codec.Common.{
  ℕ, ◌+◌, ◌-◌, ◌/◌, ◌^◌, ◌≤◌, ◌<◌, ◌≡◌, Bool, true, false, not, ◌&&◌, ◌||◌, Option, none, some,
  List, [], ◌∷◌, ◌++◌, bit_and, ltb, leb, ◌==◌, if◌then◌else◌, length, arith, refl, sym,
  append_assoc,
}

pub data BitstreamCodec : Type 0 where
  avc hevc : BitstreamCodec

abbrev pub Bytes : Type 0
Bytes = List ℕ

-- std::numeric_limits<size_t>::max() of a 64-bit build.
abbrev pub size_max : ℕ
size_max = 2 ^ 64 - 1

-- `IsValidNalHeader` on the bytes from `data` on.
unfoldable pub is_valid_nal_header : BitstreamCodec → Bytes → Bool
is_valid_nal_header codec [] = false
is_valid_nal_header avc (h ∷ rest) =
    bit_and h 0x80 == 0 && (let type = bit_and h 0x1f in not (type == 0) && leb type 23)
is_valid_nal_header hevc (h ∷ []) = false
is_valid_nal_header hevc (h ∷ g ∷ rest) =
    bit_and h 0x80 == 0 && (not (bit_and g 7 == 0) && leb (bit_and (h / 2) 0x3f) 63)

-- A NAL unit behind the start code that the output always has.
abbrev pub framed : Bytes → Bytes
framed nal = 0 ∷ 0 ∷ 0 ∷ 1 ∷ nal

-- `AppendNal`: the new output, or `none` where it returns false and leaves the output alone.
unfoldable pub append_nal : Bytes → BitstreamCodec → Bytes → Option Bytes
unfolding is_valid_nal_header
append_nal nal codec output =
    if not (is_valid_nal_header codec nal)
      || (ltb (size_max - 4) (length output) || ltb (size_max - length output - 4) (length nal))
    then none
    else some (output ++ framed nal)

-- An Annex-B stream of the given NAL units.
abbrev pub annex_b : List Bytes → Bytes
annex_b [] = []
annex_b (nal ∷ nals) = framed nal ++ annex_b nals

pub annex_b-append : (xs ys : List Bytes) → annex_b (xs ++ ys) ≡ annex_b xs ++ annex_b ys
annex_b-append [] ys = refl
annex_b-append (x ∷ xs) ys =
    rw (annex_b-append xs ys) (sym (append_assoc (framed x) (annex_b xs) (annex_b ys)))

pub append_nal_ok :
    (nal : Bytes) (codec : BitstreamCodec) (output : Bytes)
    → is_valid_nal_header codec nal ≡ true
    → length output + 4 + length nal ≤ size_max
    → append_nal nal codec output ≡ some (output ++ framed nal)
unfolding append_nal
append_nal_ok nal codec output v h = ground arith

pub append_nal_inv :
    (nal : Bytes) (codec : BitstreamCodec) (output out : Bytes)
    → append_nal nal codec output ≡ some out
    → (is_valid_nal_header codec nal ≡ true) × (out ≡ output ++ framed nal)
unfolding append_nal
append_nal_inv nal codec output out e = ground arith

-- A unit with a valid header has a byte.
pub is_valid_nal_header-pos :
    (codec : BitstreamCodec) (nal : Bytes) → is_valid_nal_header codec nal ≡ true → 0 < length nal
unfolding is_valid_nal_header
is_valid_nal_header-pos codec [] v = cc
is_valid_nal_header-pos codec (h ∷ rest) v = omega arith
