-- ===== src/Bitstream/AnnexB/Fixed.antt =====
-- An Annex-B stream in the form that `NormalizeAnnexB` writes is left as it is.
use hardware_floral_codec.Common.{
  ℕ, zero, suc, ◌+◌, ◌≤◌, ◌<◌, ◌≡◌, ◌≢◌, refl, ap, ◌∙◌, true, Option, some, List, [], ◌∷◌, ◌++◌,
  length, drop, All, arith, append_assoc, append-nil, take-length-append, take-length,
  length-append,
}
use hardware_floral_codec.Bitstream.Nal.{
  BitstreamCodec, Bytes, size_max, framed, annex_b, append_nal_ok,
}
use hardware_floral_codec.Bitstream.AnnexB.{
  StartCode, trim_end, end_of, normalize_loop, run_out, normalize_annex_b,
}
use hardware_floral_codec.Bitstream.AnnexB.Scan.{
  EndsNonzero, trim_end-length, find-append, add_suc_left,
}
use hardware_floral_codec.Bitstream.AnnexB.Sound.{
  IsNal, Splits, last, next, round_end, last_round, next_round, normalize_annex_b_sound,
}

EndsNonzero-pos : (xs : Bytes) → EndsNonzero xs → (m : ℕ) × (length xs ≡ suc m)
EndsNonzero-pos [] h = absurd h
EndsNonzero-pos (x ∷ xs) h = (length xs, refl)

drop-framed : (xs t : Bytes) → drop (length xs + 4) (xs ++ framed t) ≡ t
drop-framed [] t = refl
drop-framed (x ∷ xs) t = rw add_suc_left (drop-framed xs t)

-- The round over the last NAL unit, and over one that another follows.
module _ (fuel : ℕ) (codec : BitstreamCodec) (nal output : Bytes) (v : IsNal codec nal)
    (room : length output + 4 + length nal ≤ size_max) where
  last_nal : normalize_loop (suc fuel) codec nal output ≡ some (true, output ++ framed nal)
  last_nal =
      let (m, e) = EndsNonzero-pos nal v.1 in
      last_round fuel codec nal output m (last_end ∙ e) (output ++ framed nal)
        (rw (last_end, take-length) (append_nal_ok nal codec output v.0 room)) v.2
    where
      last_end : round_end nal ≡ length nal
      last_end =
          ap (λ (o : Option StartCode). trim_end nal (end_of nal o)) v.2
          ∙ (rw append-nil at (trim_end-length nal [] v.1))

  next_nal :
      (t : Bytes)
      → normalize_loop (suc fuel) codec (nal ++ framed t) output
        ≡ normalize_loop fuel codec t (output ++ framed nal)
  next_nal t =
      let (m, e) = EndsNonzero-pos nal v.1 in
      next_round fuel codec (nal ++ framed t) output m (next_end ∙ e) (output ++ framed nal)
        (record { offset = length nal; size = 4 })
        (rw (next_end, take-length-append) (append_nal_ok nal codec output v.0 room))
        (find-append nal t v.1 v.2)
      ∙ ap (λ (l : Bytes). normalize_loop fuel codec l (output ++ framed nal)) (drop-framed nal t)
    where
      next_end : round_end (nal ++ framed t) ≡ length nal
      next_end =
          ap (λ (o : Option StartCode). trim_end (nal ++ framed t) (end_of (nal ++ framed t) o))
            (find-append nal t v.1 v.2)
          ∙ trim_end-length nal (framed t) v.1

room_for :
    (k : ℕ) (nal t : Bytes)
    → k + length (framed (nal ++ t)) ≤ size_max
    → k + 4 + length nal ≤ size_max
room_for k nal t h = omega (arith, length-append nal t)

loop_fixed :
    (nals : List Bytes) (fuel : ℕ) (codec : BitstreamCodec) (nal output : Bytes)
    → IsNal codec nal
    → All (IsNal codec) nals
    → length output + length (annex_b (nal ∷ nals)) ≤ size_max
    → length nals < fuel
    → normalize_loop fuel codec (nal ++ annex_b nals) output
      ≡ some (true, output ++ annex_b (nal ∷ nals))
loop_fixed nals zero codec nal output v vs h f = absurd (omega arith)
loop_fixed [] (suc fuel) codec nal output v vs h f =
    rw append-nil (last_nal fuel codec nal output v (room_for _ nal [] h))
loop_fixed (n ∷ nals) (suc fuel) codec nal output v vs h f =
    next_nal fuel codec nal output v (room_for _ nal (annex_b (n ∷ nals)) h) (n ++ annex_b nals)
    ∙ loop_fixed nals fuel codec n (output ++ framed nal) vs.0 vs.1
        (omega (arith, length-append output (framed nal), length-append nal (annex_b (n ∷ nals))))
        (omega arith)
    ∙ ap (λ (l : Bytes). some (true, l)) (append_assoc output (framed nal) (annex_b (n ∷ nals)))

pub length-annex_b : (nals : List Bytes) → length nals ≤ length (annex_b nals)
length-annex_b [] = omega arith
length-annex_b (nal ∷ nals) = omega (arith, length-append nal (annex_b nals), length-annex_b nals)

Splits-ne-nil : {rest : Bytes} {nals : List Bytes} → Splits rest nals → nals ≢ []
Splits-ne-nil (last nal k e) p = cc
Splits-ne-nil (next nal more k s e sp) p = cc

-- An Annex-B stream of at least one unit, each with a valid header, a nonzero last byte and no
-- start code inside, is accepted unchanged if a size_t can count it.
pub normalize_annex_b-annex_b :
    (codec : BitstreamCodec) (nals : List Bytes) (output : Bytes)
    → nals ≢ []
    → All (IsNal codec) nals
    → length (annex_b nals) ≤ size_max
    → normalize_annex_b codec (annex_b nals) output ≡ (true, annex_b nals)
unfolding normalize_annex_b
normalize_annex_b-annex_b codec [] output p vs h = absurd (p refl)
normalize_annex_b-annex_b codec (nal ∷ nals) output p vs h = ap run_out (
    loop_fixed nals (suc (length (annex_b (nal ∷ nals)))) codec nal [] vs.0 vs.1 (omega arith)
      (omega (arith, length-annex_b nals, length-append nal (annex_b nals))))

-- Normalising an accepted output that a size_t can count gives the same output again.
pub normalize_annex_b-normalize_annex_b :
    (codec : BitstreamCodec) (bytes output out other : Bytes)
    → normalize_annex_b codec bytes output ≡ (true, out)
    → length out ≤ size_max
    → normalize_annex_b codec out other ≡ (true, out)
normalize_annex_b-normalize_annex_b codec bytes output out other h room =
    let (nals, o, vs, st) = normalize_annex_b_sound codec bytes output out h in
    rw (← o) at
      (normalize_annex_b-annex_b codec nals other (Splits-ne-nil st.splits) vs (rw o at room))
