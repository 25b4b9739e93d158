-- ===== src/Bitstream/Extract/Selects.antt =====
-- From a normalised stream exactly the parameter sets are selected, in their order.
use hardware_floral_codec.Common.{
  ℕ, zero, suc, ◌+◌, ◌<◌, ◌≡◌, ◌⊎◌, inl, inr, refl, ap, ◌∙◌, Bool, true, false, Option, none, some,
  List, [], ◌∷◌, ◌++◌, length, get_or, take, drop, All, any, arith, append_assoc, append-nil,
  Bool-cases, ◌==◌, ◌||◌, lt→ltb, if◌then◌else◌, bit_or, ◌&&◌, take-length-append,
  drop-length-append,
}
use hardware_floral_codec.Bitstream.Nal.{BitstreamCodec, avc, hevc, Bytes, framed, annex_b}
use hardware_floral_codec.Bitstream.AnnexB.{start_code_size, find_start_code, normalize_annex_b}
use hardware_floral_codec.Bitstream.AnnexB.Scan.{
  EndsNonzero, find-cons_none, start_code_size-append,
}
use hardware_floral_codec.Bitstream.AnnexB.Sound.{IsNal}
use hardware_floral_codec.Bitstream.AnnexB.Fixed.{length-annex_b}
use hardware_floral_codec.Bitstream.Extract.{
  type_bit, required_types, find_next, extract_loop, extracted, extract_codec_config,
}

abbrev bit_of : BitstreamCodec → Bytes → ℕ
bit_of codec nal = type_bit codec (get_or nal 0 0)

-- The parameter sets among the units, and the bits of their types.
pub parameter_sets : BitstreamCodec → List Bytes → List Bytes
parameter_sets codec [] = []
parameter_sets codec (nal ∷ nals) =
    let rest = parameter_sets codec nals in if bit_of codec nal == 0 then rest else nal ∷ rest

pub found_types : BitstreamCodec → List Bytes → ℕ → ℕ
found_types codec [] found = found
found_types codec (nal ∷ nals) found =
    found_types codec nals
      (if bit_of codec nal == 0 then found else bit_or found (bit_of codec nal))

-- Where no start code begins, the inner loop goes on.
find_next_on :
    (a : ℕ) (xs : Bytes) → start_code_size (a ∷ xs) ≡ 0 → find_next (a ∷ xs) ≡ suc (find_next xs)
unfolding find_next start_code_size
find_next_on a [] h = ground arith
find_next_on a (b ∷ []) h = ground arith
find_next_on a (b ∷ c ∷ []) h = ground arith
find_next_on a (b ∷ c ∷ d ∷ xs) h = ground arith

-- The next unit's start code is found behind a unit that has none inside.
find_next-framed :
    (nal t : Bytes)
    → EndsNonzero nal
    → find_start_code nal ≡ none
    → find_next (nal ++ framed t) ≡ length nal
find_next-framed [] t h e = absurd h
find_next-framed (a ∷ []) t h e =
    find_next_on a (framed t) (start_code_size-append (a ∷ []) t h (find-cons_none a [] e).0)
    ∙ (unfold find_next in refl)
find_next-framed (a ∷ b ∷ nal) t h e =
    find_next_on a (b ∷ nal ++ framed t)
      (start_code_size-append (a ∷ b ∷ nal) t h (find-cons_none a (b ∷ nal) e).0)
    ∙ ap suc (find_next-framed (b ∷ nal) t h (find-cons_none a (b ∷ nal) e).1)

find_next-last : (nal : Bytes) → find_start_code nal ≡ none → find_next nal ≡ length nal
find_next-last [] e = unfold find_next in refl
find_next-last (a ∷ nal) e =
    find_next_on a nal (find-cons_none a nal e).0
    ∙ ap suc (find_next-last nal (find-cons_none a nal e).1)

find_next-annex_b :
    (codec : BitstreamCodec) (nal : Bytes) (nals : List Bytes)
    → IsNal codec nal
    → find_next (nal ++ annex_b nals) ≡ length nal
find_next-annex_b codec nal [] v = rw append-nil (find_next-last nal v.2)
find_next-annex_b codec nal (n ∷ nals) v = find_next-framed nal (n ++ annex_b nals) v.1 v.2

-- One round of the outer loop, over the end of its unit and the bit of its type.
go_on : ℕ → BitstreamCodec → Bytes → Bytes → ℕ → ℕ → ℕ → Option (Bytes × ℕ)
go_on fuel codec bytes output found nal_end bit =
    extract_loop fuel codec (drop nal_end bytes)
      (if bit == 0 then output else output ++ take nal_end bytes)
      (if bit == 0 then found else bit_or found bit)

extract_round :
    (fuel : ℕ) (codec : BitstreamCodec) (bytes output : Bytes) (found nal_end bit : ℕ)
    → 4 < length bytes
    → 4 + find_next (drop 4 bytes) ≡ nal_end
    → type_bit codec (get_or bytes 4 0) ≡ bit
    → extract_loop (suc fuel) codec bytes output found
      ≡ go_on fuel codec bytes output found nal_end bit
extract_round fuel codec bytes output found nal_end bit h e b = rw (← e, ← b) (opened h)
  where
    opened :
        4 < length bytes
        → extract_loop (suc fuel) codec bytes output found
          ≡ go_on fuel codec bytes output found
              (4 + find_next (drop 4 bytes))
              (type_bit codec (get_or bytes 4 0))
    opened h = unfold extract_loop go_on in rw (lt→ltb 4 (length bytes) h) refl

first_byte : (nal t : Bytes) → EndsNonzero nal → get_or (nal ++ t) 0 0 ≡ get_or nal 0 0
first_byte [] t h = absurd h
first_byte (a ∷ nal) t h = refl

extract_unit :
    (fuel : ℕ) (codec : BitstreamCodec) (nal : Bytes) (nals : List Bytes) (output : Bytes)
    (found : ℕ)
    → IsNal codec nal
    → extract_loop (suc fuel) codec (annex_b (nal ∷ nals)) output found
      ≡ extract_loop fuel codec
          (annex_b nals)
          (if bit_of codec nal == 0 then output else output ++ framed nal)
          (if bit_of codec nal == 0 then found else bit_or found (bit_of codec nal))
unfolding go_on
extract_unit fuel codec nal nals output found v =
    extract_round fuel codec (annex_b (nal ∷ nals)) output found
      (suc (suc (suc (suc (length nal))))) (bit_of codec nal) (long nal v.1)
      (omega (arith, find_next-annex_b codec nal nals v))
      (ap (type_bit codec) (first_byte nal (annex_b nals) v.1))
    ∙ (rw (drop-length-append, take-length-append) refl)
  where
    long : (l : Bytes) → EndsNonzero l → 4 < length (annex_b (l ∷ nals))
    long [] h = absurd h
    long (x ∷ l) h = omega arith

extract_loop-annex_b :
    (nals : List Bytes) (fuel : ℕ) (codec : BitstreamCodec) (output : Bytes) (found : ℕ)
    → All (IsNal codec) nals
    → length nals < fuel
    → extract_loop fuel codec (annex_b nals) output found
      ≡ some (output ++ annex_b (parameter_sets codec nals), found_types codec nals found)
unfolding parameter_sets found_types
extract_loop-annex_b nals zero codec output found vs f = absurd (omega arith)
extract_loop-annex_b [] (suc fuel) codec output found vs f =
    rw append-nil (unfold extract_loop in ground arith)
extract_loop-annex_b (nal ∷ nals) (suc fuel) codec output found vs f =
    elim (Bool-cases (bit_of codec nal == 0)) [
      | inl t ↦
          extract_unit fuel codec nal nals output found vs.0
          ∙ (rw t (extract_loop-annex_b nals fuel codec output found vs.1 (omega arith)))
      | inr t ↦
          extract_unit fuel codec nal nals output found vs.0
          ∙ (rw (t, ← append_assoc output (framed nal) (annex_b (parameter_sets codec nals)))
              (extract_loop-annex_b nals fuel codec (output ++ framed nal)
                (bit_or found (bit_of codec nal)) vs.1 (omega arith)))
    ]

-- The types that are found, told apart.
abbrev pub has_type : BitstreamCodec → ℕ → List Bytes → Bool
has_type codec bit nals = any (λ nal. bit_of codec nal == bit) nals

-- Each kind of parameter set that the codec needs is there.
abbrev pub has_config : BitstreamCodec → List Bytes → Bool
has_config avc nals = has_type avc 1 nals && has_type avc 2 nals
has_config hevc nals = has_type hevc 1 nals && (has_type hevc 2 nals && has_type hevc 4 nals)

abbrev bits : Bool → Bool → Bool → ℕ
bits p q r = (if p then 1 else 0) + (if q then 2 else 0) + (if r then 4 else 0)

type_bit-cases :
    (codec : BitstreamCodec) (h : ℕ)
    → (type_bit codec h ≡ 0)
      ⊎ ((type_bit codec h ≡ 1) ⊎ ((type_bit codec h ≡ 2) ⊎ (type_bit codec h ≡ 4)))
unfolding type_bit
type_bit-cases avc h = ground arith
type_bit-cases hevc h = ground arith

add_bit : ℕ → ℕ → ℕ
add_bit found bit = if bit == 0 then found else bit_or found bit

add_bit-zero : (n : ℕ) → add_bit n 0 ≡ n
unfolding add_bit
add_bit-zero n = refl

or_false : (b : Bool) → (b || false) ≡ b
or_false true = refl
or_false false = refl

add_bit-bits :
    (p q r : Bool) (bit : ℕ)
    → ((bit ≡ 0) ⊎ ((bit ≡ 1) ⊎ ((bit ≡ 2) ⊎ (bit ≡ 4))))
    → add_bit (bits p q r) bit ≡ bits (p || bit == 1) (q || bit == 2) (r || bit == 4)
unfolding add_bit
add_bit-bits p q r bit (inl e) = rw (e, or_false p, or_false q, or_false r)
add_bit-bits true true true bit (inr (inl e)) = rw e
add_bit-bits true true false bit (inr (inl e)) = rw e
add_bit-bits true false true bit (inr (inl e)) = rw e
add_bit-bits true false false bit (inr (inl e)) = rw e
add_bit-bits false true true bit (inr (inl e)) = rw e
add_bit-bits false true false bit (inr (inl e)) = rw e
add_bit-bits false false true bit (inr (inl e)) = rw e
add_bit-bits false false false bit (inr (inl e)) = rw e
add_bit-bits true true true bit (inr (inr (inl e))) = rw e
add_bit-bits true true false bit (inr (inr (inl e))) = rw e
add_bit-bits true false true bit (inr (inr (inl e))) = rw e
add_bit-bits true false false bit (inr (inr (inl e))) = rw e
add_bit-bits false true true bit (inr (inr (inl e))) = rw e
add_bit-bits false true false bit (inr (inr (inl e))) = rw e
add_bit-bits false false true bit (inr (inr (inl e))) = rw e
add_bit-bits false false false bit (inr (inr (inl e))) = rw e
add_bit-bits true true true bit (inr (inr (inr e))) = rw e
add_bit-bits true true false bit (inr (inr (inr e))) = rw e
add_bit-bits true false true bit (inr (inr (inr e))) = rw e
add_bit-bits true false false bit (inr (inr (inr e))) = rw e
add_bit-bits false true true bit (inr (inr (inr e))) = rw e
add_bit-bits false true false bit (inr (inr (inr e))) = rw e
add_bit-bits false false true bit (inr (inr (inr e))) = rw e
add_bit-bits false false false bit (inr (inr (inr e))) = rw e

or_assoc : (a b c : Bool) → ((a || b) || c) ≡ (a || (b || c))
or_assoc true b c = refl
or_assoc false b c = refl

found_types-bits :
    (codec : BitstreamCodec) (nals : List Bytes) (p q r : Bool)
    → found_types codec nals (bits p q r)
      ≡ bits (p || has_type codec 1 nals) (q || has_type codec 2 nals) (r || has_type codec 4 nals)
unfolding found_types add_bit
found_types-bits codec [] p q r = rw (or_false p, or_false q, or_false r)
found_types-bits codec (nal ∷ nals) p q r =
    let b = bit_of codec nal in
    ap (found_types codec nals) (add_bit-bits p q r b (type_bit-cases codec (get_or nal 0 0)))
    ∙ found_types-bits codec nals (p || b == 1) (q || b == 2) (r || b == 4)
    ∙ (rw (or_assoc p, or_assoc q, or_assoc r))

avc-no-four : (nals : List Bytes) → has_type avc 4 nals ≡ false
unfolding type_bit
avc-no-four [] = refl
avc-no-four (nal ∷ nals) = ground (arith, avc-no-four nals)

complete :
    (codec : BitstreamCodec) (nals : List Bytes)
    → (found_types codec nals 0 == required_types codec) ≡ has_config codec nals
unfolding required_types
complete avc nals =
    rw (found_types-bits avc nals false false false, avc-no-four nals) (ground arith)
complete hevc nals = rw (found_types-bits hevc nals false false false) (ground arith)

extracted_types :
    (codec : BitstreamCodec) (output : Bytes) (found : ℕ)
    → extracted codec (some (output, found))
      ≡ (if found == required_types codec then (true, output) else (false, []))
unfolding extracted
extracted_types codec output found = refl

-- Of the units that NormalizeAnnexB makes of an access unit, each with a valid header, a nonzero
-- last byte and no start code inside, ExtractCodecConfig gives the parameter sets in order if each
-- kind that the codec needs is there, and fails with an empty output otherwise.
pub extract_codec_config-selects :
    (codec : BitstreamCodec) (bytes output : Bytes) (nals : List Bytes)
    → All (IsNal codec) nals
    → normalize_annex_b codec bytes [] ≡ (true, annex_b nals)
    → extract_codec_config codec (some bytes) output
      ≡ (if has_config codec nals then (true, annex_b (parameter_sets codec nals)) else (false, []))
unfolding extract_codec_config
extract_codec_config-selects codec bytes output nals vs e =
    rw (e, extract_codec_config)
      (ap (extracted codec) (
          extract_loop-annex_b nals (suc (length (annex_b nals))) codec [] 0 vs
            (omega (arith, length-annex_b nals)))
        ∙ extracted_types codec (annex_b (parameter_sets codec nals)) (found_types codec nals 0)
        ∙ ap (λ (b : Bool). if b then (true, annex_b (parameter_sets codec nals)) else (false, []))
            (complete codec nals))
