-- ===== src/Component/DecoderConfig/Streams.antt =====
-- The parameter sets of a decoder as lists of NAL units, and how the bytes of the component stand
-- for them.
use hardware_floral_codec.Common.{
  ◌≡◌, ◌≢◌, refl, sym, ap, ◌∙◌, subst, Bool, true, false, Option, some, ◌&&◌, ℕ, List, [], ◌∷◌,
  ◌++◌, All, All-append, arith, Bool-cases, inl, inr, if◌then◌else◌,
}
use hardware_floral_codec.Bitstream.Nal.{BitstreamCodec, Bytes, annex_b, annex_b-append}
use hardware_floral_codec.Bitstream.LengthPrefixed.{Converted}
use hardware_floral_codec.Bitstream.Normalize.{
  normalize_access_unit, normalize, normalize_bytes, normalize_codec_config,
}
use hardware_floral_codec.Bitstream.Normalize.Output.{HasHeader, IsAnnexB, normalize_bytes-IsAnnexB}
use hardware_floral_codec.Session.{C2Status, c2_ok, c2_no_memory}
use hardware_floral_codec.Component.DecoderConfig.{
  DecoderConfig, is_too_long, keep_config, keep_normalized, store_decoder_config, size_of,
}

-- The units that the decoder is to have, and whether it is yet to get them.
pub record ParameterSets : Type 0 where
  pub units : List Bytes
  pub pending : Bool

abbrev pub no_sets : ParameterSets
no_sets = record { units = []; pending = false }

-- New sets join those that wait, and replace those that are sent.
abbrev pub add_sets : List Bytes → ParameterSets → ParameterSets
add_sets units p = record { units = if p.pending then p.units ++ units else units; pending = true }

pub record StandsFor (codec : BitstreamCodec) (c : DecoderConfig) (p : ParameterSets) : Type 0 where
  pub bytes : c.decoder_config ≡ annex_b p.units
  pub headers : All (HasHeader codec) p.units
  pub same_pending : c.decoder_config_pending ≡ p.pending

-- Bytes behind the normalisation: of a configuration, or of an access unit.
abbrev pub normalized : Bool → BitstreamCodec → Bytes → ℕ → Bool × Option Bytes × Option ℕ
normalized true codec bytes n = normalize_codec_config codec (some bytes) n (some []) (some n)
normalized false codec bytes n = normalize_access_unit codec (some bytes) n (some []) (some n)

-- The normalisation of the bytes gives the units, which are valid, and the size `m` of a length.
pub record Gives (codec : BitstreamCodec) (config : Bool) (bytes : Bytes) (n : ℕ)
    (units : List Bytes) (m : ℕ) : Type 0 where
  pub detected : Option ℕ
  pub normal : normalized config codec bytes n ≡ (true, some (annex_b units), detected)
  pub length_size : m ≡ size_of detected n
  pub not_empty : units ≢ []
  pub headers : All (HasHeader codec) units

-- The sets that wait are too long to be joined with units.
abbrev pub are_full : ParameterSets → List Bytes → Bool
are_full p units = p.pending && is_too_long (annex_b p.units) (annex_b units)

-- What becomes of bytes that may be a configuration.
pub data Stored (codec : BitstreamCodec) (bytes : Bytes) (c : DecoderConfig) (p : ParameterSets)
    (r : C2Status × DecoderConfig) : Type 0 where
  not_stored :
      r.1 ≡ c
      → (normalized true codec bytes c.decoder_nal_length_size).0 ≡ false
      → Stored codec bytes c p r
  too_long :
      (units : List Bytes) (m : ℕ)
      → r.1 ≡ c
      → Gives codec true bytes c.decoder_nal_length_size units m
      → are_full p units ≡ true
      → Stored codec bytes c p r
  stored :
      (units : List Bytes)
      → r.0 ≡ c2_ok
      → Gives codec true bytes c.decoder_nal_length_size units r.1.decoder_nal_length_size
      → are_full p units ≡ false
      → StandsFor codec r.1 (add_sets units p)
      → Stored codec bytes c p r

abbrev config_of : Bytes → ℕ → DecoderConfig
config_of bytes size = record {
  decoder_config = bytes;
  decoder_config_pending = true;
  decoder_nal_length_size = size;
}

keep_config-full :
    (normalized : Bytes) (size : ℕ) (c : DecoderConfig)
    → c.decoder_config_pending ≡ true
    → is_too_long c.decoder_config normalized ≡ true
    → keep_config normalized size c ≡ (c2_no_memory, c)
unfolding keep_config
keep_config-full normalized size c h t = ground arith

keep_config-joined :
    (normalized : Bytes) (size : ℕ) (c : DecoderConfig)
    → c.decoder_config_pending ≡ true
    → is_too_long c.decoder_config normalized ≡ false
    → keep_config normalized size c ≡ (c2_ok, config_of (c.decoder_config ++ normalized) size)
unfolding keep_config
keep_config-joined normalized size c h t = ground arith

keep_config-replaced :
    (normalized : Bytes) (size : ℕ) (c : DecoderConfig)
    → c.decoder_config_pending ≡ false
    → keep_config normalized size c ≡ (c2_ok, config_of normalized size)
unfolding keep_config
keep_config-replaced normalized size c h = ground arith

-- The units behind bytes that are not empty.
pub units-ne-nil :
    (codec : BitstreamCodec) (bytes : Bytes) (a : IsAnnexB codec bytes) → bytes ≢ [] → a.nals ≢ []
units-ne-nil codec bytes a ne e = ne (a.written ∙ (rw e))

add_sets-waiting :
    (units : List Bytes) (p : ParameterSets)
    → p.pending ≡ true
    → (add_sets units p).units ≡ p.units ++ units
add_sets-waiting units p h = ground arith

add_sets-sent :
    (units : List Bytes) (p : ParameterSets) → p.pending ≡ false → (add_sets units p).units ≡ units
add_sets-sent units p h = ground arith

pub annex_b-both :
    (first second : Bytes) (xs ys : List Bytes)
    → first ≡ annex_b xs
    → second ≡ annex_b ys
    → first ++ second ≡ annex_b (xs ++ ys)
annex_b-both first second xs ys e f = (rw (e, f)) ∙ sym (annex_b-append xs ys)

-- The units behind a normalisation that succeeds.
pub normalized-Gives :
    (codec : BitstreamCodec) (config : Bool) (bytes : Bytes) (n : ℕ) (r : Converted)
    → normalized config codec bytes n ≡ (r.ok, some r.output, r.detected)
    → r.ok ≡ true
    → (a : IsAnnexB codec r.output) → r.output ≢ []
    → Gives codec config bytes n a.nals (size_of r.detected n)
normalized-Gives codec config bytes n r q ok a ne = record {
  detected = r.detected;
  normal = q ∙ (rw (ok, a.written));
  length_size = refl;
  not_empty = units-ne-nil codec r.output a ne;
  headers = a.headers;
}

-- A vector is too long for the bytes of the sets if it is for the sets.
pub are_full-bytes :
    (c : DecoderConfig) (p : ParameterSets) (more : Bytes) (units : List Bytes)
    → c.decoder_config ≡ annex_b p.units
    → c.decoder_config_pending ≡ p.pending
    → more ≡ annex_b units
    → are_full p units ≡ (c.decoder_config_pending && is_too_long c.decoder_config more)
are_full-bytes c p more units b q w = rw (b, q, w) refl

keep_config-Stored :
    (codec : BitstreamCodec) (bytes out : Bytes) (size : ℕ) (c : DecoderConfig) (p : ParameterSets)
    → StandsFor codec c p
    → (a : IsAnnexB codec out) → Gives codec true bytes c.decoder_nal_length_size a.nals size
    → Stored codec bytes c p (keep_config out size c)
keep_config-Stored codec bytes out size c p h a g =
    let full = are_full-bytes c p out a.nals h.bytes h.same_pending a.written in
    elim (Bool-cases c.decoder_config_pending) [
      | inl waits ↦ elim (Bool-cases (is_too_long c.decoder_config out)) [
        | inl long ↦
            rw (keep_config-full out size c waits long)
              (too_long a.nals size refl g (full ∙ (rw (waits, long) refl)))
        | inr fits ↦ rw (keep_config-joined out size c waits fits) (
            stored a.nals refl g (full ∙ (rw (waits, fits) refl)) (record {
              bytes =
                  annex_b-both c.decoder_config out p.units a.nals h.bytes a.written
                  ∙ ap annex_b (sym (add_sets-waiting a.nals p (sym h.same_pending ∙ waits)));
              headers =
                  subst (All (HasHeader codec))
                    (sym (add_sets-waiting a.nals p (sym h.same_pending ∙ waits)))
                    (All-append (HasHeader codec) p.units a.nals h.headers a.headers);
              same_pending = refl;
            }))
      ]
      | inr sent ↦ rw (keep_config-replaced out size c sent) (
          stored a.nals refl g (full ∙ (rw sent refl)) (record {
            bytes =
                a.written ∙ ap annex_b (sym (add_sets-sent a.nals p (sym h.same_pending ∙ sent)));
            headers =
                subst (All (HasHeader codec))
                  (sym (add_sets-sent a.nals p (sym h.same_pending ∙ sent))) a.headers;
            same_pending = refl;
          }))
    ]

keep_normalized-Stored :
    (codec : BitstreamCodec) (bytes : Bytes) (r : Converted) (c : DecoderConfig) (p : ParameterSets)
    → StandsFor codec c p
    → normalized true codec bytes c.decoder_nal_length_size ≡ (r.ok, some r.output, r.detected)
    → (r.ok ≡ true → IsAnnexB codec r.output × (r.output ≢ []))
    → Stored codec bytes c p (keep_normalized (r.ok, some r.output, r.detected) c)
keep_normalized-Stored codec bytes r c p h q good = elim (Bool-cases r.ok) [
  | inl ok ↦
      let g =
        normalized-Gives codec true bytes c.decoder_nal_length_size r q ok (good ok).0
          (good ok).1 in
      rw ok (
        keep_config-Stored codec bytes r.output (size_of r.detected c.decoder_nal_length_size) c p h
          (good ok).0 g)
  | inr failed ↦ rw failed (not_stored refl (ap (λ x. x.0) q ∙ failed))
]

-- StoreDecoderConfig either leaves the parameter sets alone, where the normalisation fails or the
-- sets get too long, or adds the units to those that wait, or replaces those that were sent.
pub store_decoder_config-Stored :
    (codec : BitstreamCodec) (bytes : Bytes) (c : DecoderConfig) (p : ParameterSets)
    → StandsFor codec c p
    → Stored codec bytes c p (store_decoder_config codec bytes c)
unfolding store_decoder_config normalize_codec_config normalize
store_decoder_config-Stored codec [] c p h = not_stored refl refl
store_decoder_config-Stored codec (b ∷ bytes) c p h =
    keep_normalized-Stored codec (b ∷ bytes)
      (normalize_bytes codec (b ∷ bytes) c.decoder_nal_length_size []
        (some c.decoder_nal_length_size) true)
      c p h refl
      (normalize_bytes-IsAnnexB codec (b ∷ bytes) c.decoder_nal_length_size []
        (some c.decoder_nal_length_size) true)
