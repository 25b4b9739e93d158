-- ===== src/Component/DecoderConfig/Packets.antt =====
-- The packets that ProcessV4l2Decoder makes of access units.
use hardware_floral_codec.Common.{
  ℕ, ◌≡◌, ◌≢◌, refl, sym, ap, ◌∙◌, Bool, true, false, Option, none, some, List, [], ◌∷◌, ◌++◌,
  arith, Bool-cases, inl, inr, if◌then◌else◌, is_empty,
}
use hardware_floral_codec.Bitstream.Nal.{BitstreamCodec, Bytes, annex_b}
use hardware_floral_codec.Bitstream.LengthPrefixed.{Converted}
use hardware_floral_codec.Bitstream.Normalize.{normalize, normalize_bytes, normalize_access_unit}
use hardware_floral_codec.Bitstream.Normalize.Output.{IsAnnexB, normalize_bytes-IsAnnexB}
use hardware_floral_codec.Session.{C2Status, c2_ok, c2_no_memory, c2_corrupted}
use hardware_floral_codec.Component.DecoderConfig.{
  DecoderConfig, is_too_long, Packet, refused, packet, join_config, join_normalized, make_packet,
  size_of,
}
use hardware_floral_codec.Component.DecoderConfig.Streams.{
  ParameterSets, StandsFor, normalized, Gives, normalized-Gives, are_full, are_full-bytes,
  annex_b-both,
}

-- A packet has the sets that wait in front.
abbrev pub with_sets : List Bytes → ParameterSets → List Bytes
with_sets units p = if p.pending then p.units ++ units else units

-- What becomes of the bytes of an access unit, where a length has `n` bytes.
pub data Packed (codec : BitstreamCodec) (bytes : Bytes) (n : ℕ) (p : ParameterSets)
    : Packet → Type 0 where
  not_packed :
      (e : C2Status) (c : DecoderConfig)
      → (normalized false codec bytes n).0 ≡ false
      → c.decoder_nal_length_size ≡ n
      → StandsFor codec c p
      → Packed codec bytes n p (refused e c)
  too_long :
      (units : List Bytes) (e : C2Status) (c : DecoderConfig)
      → Gives codec false bytes n units c.decoder_nal_length_size
      → are_full p units ≡ true
      → StandsFor codec c p
      → Packed codec bytes n p (refused e c)
  packed :
      (units : List Bytes) (out : Bytes) (c : DecoderConfig)
      → Gives codec false bytes n units c.decoder_nal_length_size
      → are_full p units ≡ false
      → out ≡ annex_b (with_sets units p)
      → StandsFor codec c p
      → Packed codec bytes n p (packet out c)

with_sets-waiting :
    (units : List Bytes) (p : ParameterSets)
    → p.pending ≡ true
    → with_sets units p ≡ p.units ++ units
with_sets-waiting units p h = ground arith

with_sets-sent :
    (units : List Bytes) (p : ParameterSets) → p.pending ≡ false → with_sets units p ≡ units
with_sets-sent units p h = ground arith

join_config-full :
    (normalized : Bytes) (c : DecoderConfig)
    → c.decoder_config_pending ≡ true
    → is_empty c.decoder_config ≡ false
    → is_too_long c.decoder_config normalized ≡ true
    → join_config normalized c ≡ refused c2_no_memory c
unfolding join_config
join_config-full normalized c h n t = ground arith

join_config-joined :
    (normalized : Bytes) (c : DecoderConfig)
    → c.decoder_config_pending ≡ true
    → is_empty c.decoder_config ≡ false
    → is_too_long c.decoder_config normalized ≡ false
    → join_config normalized c ≡ packet (c.decoder_config ++ normalized) c
unfolding join_config
join_config-joined normalized c h n t = ground arith

is_empty-append : (xs ys : Bytes) → is_empty xs ≡ true → xs ++ ys ≡ ys
is_empty-append [] ys h = refl
is_empty-append (x ∷ xs) ys h = cc

join_config-empty :
    (normalized : Bytes) (c : DecoderConfig)
    → is_empty c.decoder_config ≡ true
    → join_config normalized c ≡ packet (c.decoder_config ++ normalized) c
unfolding join_config
join_config-empty normalized c h = ground (arith, is_empty-append c.decoder_config normalized h)

join_config-sent :
    (normalized : Bytes) (c : DecoderConfig)
    → c.decoder_config_pending ≡ false
    → join_config normalized c ≡ packet normalized c
unfolding join_config
join_config-sent normalized c h = ground arith

is_empty-is_too_long : (xs ys : Bytes) → is_empty xs ≡ true → is_too_long xs ys ≡ false
is_empty-is_too_long [] ys h = ground arith
is_empty-is_too_long (x ∷ xs) ys h = absurd (ground arith)

join_config-Packed :
    (codec : BitstreamCodec) (bytes out : Bytes) (n : ℕ) (c : DecoderConfig) (p : ParameterSets)
    → StandsFor codec c p
    → (a : IsAnnexB codec out) → Gives codec false bytes n a.nals c.decoder_nal_length_size
    → Packed codec bytes n p (join_config out c)
join_config-Packed codec bytes out n c p h a g =
    let full = are_full-bytes c p out a.nals h.bytes h.same_pending a.written in
    let both = annex_b-both c.decoder_config out p.units a.nals h.bytes a.written in
    elim (Bool-cases c.decoder_config_pending) [
      | inr sent ↦ rw (join_config-sent out c sent) (
          packed a.nals out c g (full ∙ (rw sent refl))
            (a.written ∙ ap annex_b (sym (with_sets-sent a.nals p (sym h.same_pending ∙ sent)))) h)
      | inl waits ↦
          let whole =
            both ∙ ap annex_b (sym (with_sets-waiting a.nals p (sym h.same_pending ∙ waits))) in
          elim (Bool-cases (is_empty c.decoder_config)) [
            | inl empty ↦
                let fits = is_empty-is_too_long c.decoder_config out empty in
                rw (join_config-empty out c empty)
                  (packed a.nals _ c g (full ∙ (rw (waits, fits) refl)) whole h)
            | inr some_sets ↦ elim (Bool-cases (is_too_long c.decoder_config out)) [
              | inl long ↦
                  rw (join_config-full out c waits some_sets long)
                    (too_long a.nals c2_no_memory c g (full ∙ (rw (waits, long) refl)) h)
              | inr fits ↦
                  rw (join_config-joined out c waits some_sets fits)
                    (packed a.nals _ c g (full ∙ (rw (waits, fits) refl)) whole h)
            ]
          ]
    ]

join_normalized-Packed :
    (codec : BitstreamCodec) (bytes : Bytes) (r : Converted) (c : DecoderConfig) (p : ParameterSets)
    → StandsFor codec c p
    → normalized false codec bytes c.decoder_nal_length_size ≡ (r.ok, some r.output, r.detected)
    → (r.ok ≡ true → IsAnnexB codec r.output × (r.output ≢ []))
    → Packed codec bytes c.decoder_nal_length_size p
        (join_normalized (r.ok, some r.output, r.detected) c)
join_normalized-Packed codec bytes r c p h q good = elim (Bool-cases r.ok) [
  | inl ok ↦
      let g =
        normalized-Gives codec false bytes c.decoder_nal_length_size r q ok (good ok).0
          (good ok).1 in
      rw ok (
        join_config-Packed codec bytes r.output c.decoder_nal_length_size
          (record c { decoder_nal_length_size = size_of r.detected c.decoder_nal_length_size }) p
          (record { bytes = h.bytes; headers = h.headers; same_pending = h.same_pending })
          (good ok).0 g)
  | inr failed ↦ rw failed (not_packed c2_corrupted c (ap (λ x. x.0) q ∙ failed) refl h)
]

-- A packet of an AVC or HEVC decoder is the units of the access unit, behind the parameter sets if
-- these wait. Making it sends nothing, so the sets still wait.
pub make_packet-Packed :
    (codec : BitstreamCodec) (bytes : Bytes) (c : DecoderConfig) (p : ParameterSets)
    → StandsFor codec c p
    → Packed codec bytes c.decoder_nal_length_size p (make_packet (some codec) bytes c)
unfolding make_packet normalize_access_unit normalize
make_packet-Packed codec [] c p h = not_packed c2_corrupted c refl refl h
make_packet-Packed codec (b ∷ bytes) c p h =
    join_normalized-Packed codec (b ∷ bytes)
      (normalize_bytes codec (b ∷ bytes) c.decoder_nal_length_size []
        (some c.decoder_nal_length_size) false)
      c p h refl
      (normalize_bytes-IsAnnexB codec (b ∷ bytes) c.decoder_nal_length_size []
        (some c.decoder_nal_length_size) false)

join_normalized-refused :
    (r : Bool × Option Bytes × Option ℕ) (c c' : DecoderConfig) (e : C2Status)
    → join_normalized r c ≡ refused e c'
    → e ≢ c2_ok
unfolding join_config
join_normalized-refused (false, output, detected) c c' e q h = cc
join_normalized-refused (true, output, detected) c c' e q h = absurd (ground arith)

-- A packet that is not made has an error.
pub make_packet-refused :
    (codec : Option BitstreamCodec) (bytes : Bytes) (c c' : DecoderConfig) (e : C2Status)
    → make_packet codec bytes c ≡ refused e c'
    → e ≢ c2_ok
unfolding make_packet
make_packet-refused none bytes c c' e q = cc
make_packet-refused (some codec) bytes c c' e q = join_normalized-refused _ c c' e q
