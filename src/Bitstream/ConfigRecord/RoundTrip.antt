-- ===== src/Bitstream/ConfigRecord/RoundTrip.antt =====
-- What the parsers make of a record that a muxer has written.
use hardware_floral_codec.Common.{
  ℕ, suc, ◌+◌, ◌*◌, ◌%◌, ◌^◌, ◌≤◌, ◌<◌, ◌≡◌, ◌≢◌, refl, ap, ◌∙◌, true, false, Option, some, List,
  [], ◌∷◌, ◌++◌, length, get_or, take, drop, All, arith, bit_and, append_assoc, append-nil,
  take-length-append, drop-length-append, length-append,
}
use Prim.Native.Nat.add
use native.Mathlib.Nat.{add-zero}
use hardware_floral_codec.Common.Bits.{bit_and_three, bit_and_low_five, bit_and_high_six}
use hardware_floral_codec.Bitstream.Nal.{
  BitstreamCodec, avc, Bytes, size_max, framed, annex_b, append_nal, append_nal_ok, annex_b-append,
}
use hardware_floral_codec.Bitstream.LengthPrefixed.{Converted, converted}
use hardware_floral_codec.Bitstream.LengthPrefixed.RoundTrip.{
  be_bytes, length_prefixed, Fits, length_prefixed-cons,
}
use hardware_floral_codec.Bitstream.ConfigRecord.{
  Units, short, bad, done, parse_units, parse_pps, parse_avcc,
}

-- A round of the loop whose tests pass.
parse_units_round :
    (count : ℕ) (codec : BitstreamCodec) (a b : ℕ) (rest output out : Bytes)
    → (a * 256 + b) % 2 ^ 16 ≤ length rest
    → append_nal (take ((a * 256 + b) % 2 ^ 16) rest) codec output ≡ some out
    → parse_units (suc count) codec (a ∷ b ∷ rest) output
      ≡ parse_units count codec (drop ((a * 256 + b) % 2 ^ 16) rest) out
unfolding parse_units
parse_units_round count codec a b rest output out fits q = ground arith

parse_units_step :
    (count : ℕ) (codec : BitstreamCodec) (a b size : ℕ) (rest output out : Bytes)
    → (a * 256 + b) % 2 ^ 16 ≡ size
    → size ≤ length rest
    → append_nal (take size rest) codec output ≡ some out
    → parse_units (suc count) codec (a ∷ b ∷ rest) output
      ≡ parse_units count codec (drop size rest) out
parse_units_step count codec a b size rest output out e fits q =
    rw (← e) (parse_units_round count codec a b rest output out (rw (← e) at fits) (rw (← e) at q))

-- One unit behind its length.
pub parse_unit :
    (count : ℕ) (codec : BitstreamCodec) (nal t output : Bytes)
    → Fits codec 2 nal
    → length output + 4 + length nal ≤ size_max
    → parse_units (suc count) codec (be_bytes 2 (length nal) ++ (nal ++ t)) output
      ≡ parse_units count codec t (output ++ framed nal)
unfolding be_bytes
parse_unit count codec nal t output v room =
    parse_units_step count codec _ _ (length nal) (nal ++ t) output (output ++ framed nal)
      (omega arith) (omega (arith, length-append nal t))
      (rw take-length-append (append_nal_ok nal codec output v.0 room))
    ∙ ap (λ (l : Bytes). parse_units count codec l (output ++ framed nal))
        (drop-length-append nal t)

-- A loop over more units than there are reads these, and goes on with what follows.
parse_units-prefix :
    (nals : List Bytes) (count : ℕ) (codec : BitstreamCodec) (t output : Bytes)
    → All (Fits codec 2) nals
    → length output + length (annex_b nals) ≤ size_max
    → parse_units (length nals + count) codec (length_prefixed 2 nals ++ t) output
      ≡ parse_units count codec t (output ++ annex_b nals)
parse_units-prefix [] count codec t output vs room =
    rw (append-nil, add.zero) (unfold length_prefixed in refl)
parse_units-prefix (nal ∷ nals) count codec t output vs room =
    ap (λ (l : Bytes). parse_units (suc (length nals) + count) codec l output) split
    ∙ ap (λ (k : ℕ). parse_units k codec joined output) (add.suc (length nals) count)
    ∙ parse_unit (length nals + count) codec nal (length_prefixed 2 nals ++ t) output vs.0
        (omega (arith, length-append nal (annex_b nals)))
    ∙ parse_units-prefix nals count codec t (output ++ framed nal) vs.1
        (omega (arith, length-append output (framed nal), length-append nal (annex_b nals)))
    ∙ ap (parse_units count codec t) (append_assoc output (framed nal) (annex_b nals))
  where
    joined : Bytes
    joined = be_bytes 2 (length nal) ++ (nal ++ (length_prefixed 2 nals ++ t))

    split : length_prefixed 2 (nal ∷ nals) ++ t ≡ joined
    split = rw (length_prefixed-cons, append_assoc, append_assoc) refl

-- A loop over as many units as there are reads them all, and leaves what follows.
pub parse_units-length_prefixed :
    (nals : List Bytes) (codec : BitstreamCodec) (t output : Bytes)
    → All (Fits codec 2) nals
    → length output + length (annex_b nals) ≤ size_max
    → parse_units (length nals) codec (length_prefixed 2 nals ++ t) output
      ≡ done t (output ++ annex_b nals)
parse_units-length_prefixed nals codec t output vs room =
    rw add-zero at (parse_units-prefix nals 0 codec t output vs room) ∙ (unfold parse_units in refl)

parse_units_cut :
    (count : ℕ) (codec : BitstreamCodec) (cut output : Bytes)
    → length cut < 2
    → parse_units (suc count) codec cut output ≡ short output
unfolding parse_units
parse_units_cut count codec [] output h = refl
parse_units_cut count codec (a ∷ []) output h = refl
parse_units_cut count codec (a ∷ b ∷ cut) output h = absurd (omega arith)

-- A record with any bytes behind its count of sequence parameter sets.
unfoldable pub avcc_head : ℕ → ℕ → ℕ → ℕ → ℕ → Bytes → Bytes
avcc_head profile compatibility level n count rest =
    1 ∷ profile ∷ compatibility ∷ level ∷ (252 + n) ∷ (224 + count) ∷ rest

-- An avcC record (ISO 14496-15): version 1, profile, compatibility and level, lengths of n + 1
-- bytes, then the sequence and the picture parameter sets behind their counts.
abbrev pub avcc_record : ℕ → ℕ → ℕ → ℕ → List Bytes → List Bytes → Bytes → Bytes
avcc_record profile compatibility level n sps pps extension =
    avcc_head profile compatibility level n (length sps)
      (length_prefixed 2 sps ++ (length pps ∷ (length_prefixed 2 pps ++ extension)))

-- `ParseAvcc` behind its first tests: the loop over the sequence parameter sets decides.
after_sps : ℕ → ℕ → Units → Converted
after_sps old size (short output') = converted false output' (some old)
after_sps old size bad = converted false [] (some old)
after_sps old size (done rest output') = parse_pps rest output' (size + 1) (some old)

avcc_sps_loop : Bytes → ℕ → ℕ → ℕ → Converted
avcc_sps_loop bytes old size count = after_sps old size (parse_units count avc (drop 6 bytes) [])

parse_avcc_tests :
    (bytes output : Bytes) (old : ℕ)
    → 7 ≤ length bytes
    → get_or bytes 0 0 ≡ 1
    → bit_and (get_or bytes 4 0) 0xfc ≡ 0xfc
    → parse_avcc bytes output (some old)
      ≡ avcc_sps_loop bytes old (bit_and (get_or bytes 4 0) 3) (bit_and (get_or bytes 5 0) 0x1f)
unfolding parse_avcc after_sps avcc_sps_loop
parse_avcc_tests bytes output old len version high = ground arith

avcc_head-tests :
    (profile compatibility level n count old : ℕ) (rest output : Bytes)
    → n < 4
    → count < 32
    → 0 < length rest
    → parse_avcc (avcc_head profile compatibility level n count rest) output (some old)
      ≡ after_sps old n (parse_units count avc rest [])
unfolding avcc_sps_loop avcc_head
avcc_head-tests profile compatibility level n count old rest output hn hc hr =
    parse_avcc_tests (avcc_head profile compatibility level n count rest) output old (omega arith)
      refl (bit_and_high_six n hn)
    ∙ ap
        (λ (s : ℕ).
          avcc_sps_loop (avcc_head profile compatibility level n count rest) old s
            (bit_and (224 + count) 0x1f))
        (bit_and_three (252 + n) (omega arith) ∙ size)
    ∙ ap (avcc_sps_loop (avcc_head profile compatibility level n count rest) old n)
        (bit_and_low_five (224 + count) (omega arith) ∙ low)
  where
    size : (252 + n) % 4 ≡ n
    size = omega arith

    low : (224 + count) % 32 ≡ count
    low = omega arith

parse_pps-length_prefixed :
    (pps : List Bytes) (extension output : Bytes) (size : ℕ) (detected : Option ℕ)
    → All (Fits avc 2) pps
    → output ++ annex_b pps ≢ []
    → length output + length (annex_b pps) ≤ size_max
    → parse_pps (length pps ∷ (length_prefixed 2 pps ++ extension)) output size detected
      ≡ converted true (output ++ annex_b pps) (some size)
unfolding parse_pps
parse_pps-length_prefixed pps extension output size detected vs ne room =
    ground (arith, parse_units-length_prefixed pps avc extension output vs room)

annex_b-ne-nil : (nals : List Bytes) → nals ≢ [] → annex_b nals ≢ []
annex_b-ne-nil [] ne e = ne refl
annex_b-ne-nil (nal ∷ nals) ne e = cc

-- ParseAvcc on an avcC record of at most 31 sequence parameter sets, with at least one parameter
-- set in all, each with a valid header and a length below 2^16, gives the Annex-B stream of its
-- sequence and picture parameter sets and its length size, if a size_t can count that stream.
pub parse_avcc-avcc_record :
    (profile compatibility level n old : ℕ) (sps pps : List Bytes) (extension output : Bytes)
    → n < 4
    → length sps < 32
    → sps ++ pps ≢ []
    → All (Fits avc 2) sps
    → All (Fits avc 2) pps
    → length (annex_b (sps ++ pps)) ≤ size_max
    → parse_avcc (avcc_record profile compatibility level n sps pps extension) output (some old)
      ≡ converted true (annex_b (sps ++ pps)) (some (n + 1))
unfolding after_sps
parse_avcc-avcc_record profile compatibility level n old sps pps extension output hn hs ne vs vp
      room =
    avcc_head-tests profile compatibility level n (length sps) old behind output hn hs (
      omega (
        arith,
        length-append (length_prefixed 2 sps) (length pps ∷ (length_prefixed 2 pps ++ extension)),
      ))
    ∙ ap (after_sps old n) (
        parse_units-length_prefixed sps avc (length pps ∷ (length_prefixed 2 pps ++ extension)) []
          vs (omega (arith, total)))
    ∙ parse_pps-length_prefixed pps extension (annex_b sps) (n + 1) (some old) vp
        (λ e. annex_b-ne-nil (sps ++ pps) ne (annex_b-append sps pps ∙ e)) (omega (arith, total))
    ∙ (rw annex_b-append)
  where
    behind : Bytes
    behind = length_prefixed 2 sps ++ (length pps ∷ (length_prefixed 2 pps ++ extension))

    total : length (annex_b sps) + length (annex_b pps) ≤ size_max
    total =
        omega (arith, length-append (annex_b sps) (annex_b pps), ap length (annex_b-append sps pps))

length_prefixed-pos :
    (nals : List Bytes) (t : Bytes) → nals ≢ [] → 0 < length (length_prefixed 2 nals ++ t)
unfolding length_prefixed be_bytes
length_prefixed-pos [] t ne = absurd (ne refl)
length_prefixed-pos (nal ∷ nals) t ne = omega arith

-- An avcC record that announces more sequence parameter sets, at most 31, than the valid ones that
-- it has, and ends behind these with less than the two bytes of a length, is refused, and the sets
-- before, at least one and countable by a size_t, are left in the output.
pub parse_avcc_partial :
    (profile compatibility level n old more : ℕ) (sps : List Bytes) (cut output : Bytes)
    → n < 4
    → length sps + suc more < 32
    → sps ≢ []
    → All (Fits avc 2) sps
    → length (annex_b sps) ≤ size_max
    → length cut < 2
    → parse_avcc
        (avcc_head profile compatibility level n
          (length sps + suc more)
          (length_prefixed 2 sps ++ cut))
        output
        (some old)
      ≡ converted false (annex_b sps) (some old)
unfolding after_sps
parse_avcc_partial profile compatibility level n old more sps cut output hn hc ne vs room
      short_cut =
    avcc_head-tests profile compatibility level n (length sps + suc more) old
      (length_prefixed 2 sps ++ cut) output hn hc (length_prefixed-pos sps cut ne)
    ∙ ap (after_sps old n) (
        parse_units-prefix sps (suc more) avc cut [] vs (omega arith)
        ∙ parse_units_cut more avc cut (annex_b sps) short_cut)
