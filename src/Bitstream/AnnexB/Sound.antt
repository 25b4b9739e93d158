-- ===== src/Bitstream/AnnexB/Sound.antt =====
-- `NormalizeAnnexB` on any input: it ends, and what it accepts is a list of NAL units.
use hardware_floral_codec.Common.{
  ℕ, zero, suc, ◌+◌, ◌≤◌, ◌<◌, ◌≡◌, ◌≢◌, inl, inr, refl, sym, ap, ◌∙◌, Bool, true, false, Option,
  none, some, List, [], ◌∷◌, ◌++◌, length, take, drop, replicate, All, arith, Option-cases, ℕ-cases,
  take-length, length-drop, append_assoc, append-nil,
}
use hardware_floral_codec.Bitstream.Nal.{
  BitstreamCodec, Bytes, framed, annex_b, is_valid_nal_header, append_nal, append_nal_inv,
}
use hardware_floral_codec.Bitstream.AnnexB.{
  StartCode, find_start_code, trim_end, end_of, normalize_loop, run_out, normalize_annex_b,
}
use hardware_floral_codec.Bitstream.AnnexB.Scan.{
  EndsNonzero, code_bytes, find-take-none, find-take_before, find-split, trim_end-le, take-trim_end,
  trim_end-EndsNonzero,
}

-- A NAL unit as the output has it: a valid header, a last byte that is not zero, and no start
-- code inside.
abbrev pub IsNal : BitstreamCodec → Bytes → Type 0
IsNal codec nal =
    (is_valid_nal_header codec nal ≡ true) × EndsNonzero nal × (find_start_code nal ≡ none)

-- The bytes behind a start code, split into NAL units: zeros may follow each, and start codes of
-- either size stand between them.
pub data Splits : Bytes → List Bytes → Type 0 where
  last : {rest : Bytes} (nal : Bytes) (k : ℕ) → rest ≡ nal ++ replicate k 0 → Splits rest (nal ∷ [])
  next :
      {rest : Bytes} {nals : List Bytes} (nal more : Bytes) (k s : ℕ)
      → rest ≡ (nal ++ replicate k 0) ++ (code_bytes s ++ more)
      → Splits more nals
      → Splits rest (nal ∷ nals)

end_of-le : (rest : Bytes) → end_of rest (find_start_code rest) ≤ length rest
end_of-le rest = elim (Option-cases (find_start_code rest)) [
  | inl e ↦ rw e (omega arith)
  | inr (c, e) ↦ rw e (omega (arith, find-split rest c.offset c.size e))
]

-- The bytes of a round, up to its trimmed end, hold no start code.
find-take_end :
    (rest : Bytes) (k : ℕ)
    → k ≤ end_of rest (find_start_code rest)
    → find_start_code (take k rest) ≡ none
find-take_end rest k h = elim (Option-cases (find_start_code rest)) [
  | inl e ↦ find-take-none rest k e
  | inr (c, e) ↦ find-take_before rest c.offset c.size k e (rw e at h)
]

abbrev pub round_end : Bytes → ℕ
round_end rest = trim_end rest (end_of rest (find_start_code rest))

-- How one round of the loop goes.
pub data Round (fuel : ℕ) (codec : BitstreamCodec) (rest output : Bytes) : Type 0 where
  refused :
      normalize_loop (suc fuel) codec rest output ≡ some (false, []) → Round fuel codec rest output
  ended :
      (nal : Bytes) (k : ℕ)
      → IsNal codec nal
      → rest ≡ nal ++ replicate k 0
      → normalize_loop (suc fuel) codec rest output ≡ some (true, output ++ framed nal)
      → Round fuel codec rest output
  continued :
      (nal more : Bytes) (k s : ℕ)
      → IsNal codec nal
      → rest ≡ (nal ++ replicate k 0) ++ (code_bytes s ++ more)
      → length more < length rest
      → normalize_loop (suc fuel) codec rest output
        ≡ normalize_loop fuel codec more (output ++ framed nal)
      → Round fuel codec rest output

module _ (fuel : ℕ) (codec : BitstreamCodec) (rest output : Bytes) where
  empty_round : round_end rest ≡ 0 → normalize_loop (suc fuel) codec rest output ≡ some (false, [])
  unfolding normalize_loop
  empty_round e = rw (e, normalize_loop)

  module _ (m : ℕ) (e : round_end rest ≡ suc m) where
    bad_round :
        append_nal (take (round_end rest) rest) codec output ≡ none
        → normalize_loop (suc fuel) codec rest output ≡ some (false, [])
    unfolding normalize_loop
    bad_round a = ground arith

    pub last_round :
        (out : Bytes)
        → append_nal (take (round_end rest) rest) codec output ≡ some out
        → find_start_code rest ≡ none
        → normalize_loop (suc fuel) codec rest output ≡ some (true, out)
    unfolding normalize_loop
    last_round out a f = ground arith

    pub next_round :
        (out : Bytes) (c : StartCode)
        → append_nal (take (round_end rest) rest) codec output ≡ some out
        → find_start_code rest ≡ some c
        → normalize_loop (suc fuel) codec rest output
          ≡ normalize_loop fuel codec (drop (c.offset + c.size) rest) out
    unfolding normalize_loop
    next_round out c a f = ground arith

  round-IsNal :
      (out : Bytes) (m : ℕ)
      → round_end rest ≡ suc m
      → append_nal (take (round_end rest) rest) codec output ≡ some out
      → IsNal codec (take (round_end rest) rest)
  round-IsNal out m e a = (
    (append_nal_inv _ codec output out a).0,
    trim_end-EndsNonzero rest _ (end_of-le rest) (λ z. absurd (omega arith)),
    find-take_end rest (round_end rest) (trim_end-le rest _),
  )

  round : Round fuel codec rest output
  round = elim (ℕ-cases (round_end rest)) [
    | inl e ↦ refused (empty_round e)
    | inr (m, e) ↦ elim (Option-cases (append_nal (take (round_end rest) rest) codec output)) [
      | inl a ↦ refused (bad_round m e a)
      | inr (out, a) ↦
          let same = (append_nal_inv _ codec output out a).1 in
          let nal = round-IsNal out m e a in
          let (k, cut) = take-trim_end rest _ (end_of-le rest) in
          elim (Option-cases (find_start_code rest)) [
            | inl f ↦ ended _ k nal (whole k f cut) (rw (← same) (last_round m e out a f))
            | inr (c, f) ↦
                let (code, _, _, le) = find-split rest c.offset c.size f in
                continued _ (drop (c.offset + c.size) rest) k c.size nal
                  (code
                    ∙ ap (λ (l : Bytes). l ++ (code_bytes c.size ++ drop (c.offset + c.size) rest))
                        (front k c f cut))
                  (omega (
                    arith,
                    length-drop (c.offset + c.size) rest,
                    find-split rest c.offset c.size f,
                  ))
                  (rw (← same) (next_round m e out c a f))
          ]
    ]
  ]
    where
      whole :
          (k : ℕ)
          → find_start_code rest ≡ none
          → take (end_of rest (find_start_code rest)) rest
            ≡ take (round_end rest) rest ++ replicate k 0
          → rest ≡ take (round_end rest) rest ++ replicate k 0
      whole k f cut =
          sym (take-length rest)
          ∙ ap (λ (o : Option StartCode). take (end_of rest o) rest) (sym f)
          ∙ cut

      front :
          (k : ℕ) (c : StartCode)
          → find_start_code rest ≡ some c
          → take (end_of rest (find_start_code rest)) rest
            ≡ take (round_end rest) rest ++ replicate k 0
          → take c.offset rest ≡ take (round_end rest) rest ++ replicate k 0
      front k c f cut = ap (λ (o : Option StartCode). take (end_of rest o) rest) (sym f) ∙ cut

-- The loop ends: a fuel above the number of the bytes is enough.
pub normalize_loop-total :
    (fuel : ℕ) (codec : BitstreamCodec) (rest output : Bytes)
    → length rest < fuel
    → normalize_loop fuel codec rest output ≢ none
normalize_loop-total zero codec rest output h = absurd (omega arith)
normalize_loop-total (suc fuel) codec rest output h = elim (round fuel codec rest output) [
  | refused e ↦ λ p. cc
  | ended nal k v s e ↦ λ p. cc
  | continued nal more k s v split shorter e ↦
      λ p. normalize_loop-total fuel codec more (output ++ framed nal) (omega arith) (sym e ∙ p)
]

accepted_last :
    (output out nal : Bytes)
    → ◌≡◌ {A = Option (Bool × Bytes)} (some (true, output ++ framed nal)) (some (true, out))
    → out ≡ output ++ annex_b (nal ∷ [])
accepted_last output out nal e = rw append-nil (ground arith)

pub run_out-true :
    (r : Option (Bool × Bytes)) (out : Bytes) → run_out r ≡ (true, out) → r ≡ some (true, out)
run_out-true none out e = absurd (ground arith)
run_out-true (some r) out e = ap some e

-- What the loop accepts is a list of NAL units, which it appends in their order.
pub normalize_loop_sound :
    (fuel : ℕ) (codec : BitstreamCodec) (rest output out : Bytes)
    → normalize_loop fuel codec rest output ≡ some (true, out)
    → (nals : List Bytes) × (out ≡ output ++ annex_b nals)
      × All (IsNal codec) nals
      × Splits rest nals
normalize_loop_sound zero codec rest output out h = unfold normalize_loop in cc
normalize_loop_sound (suc fuel) codec rest output out h = elim (round fuel codec rest output) [
  | refused e ↦ absurd (ground arith)
  | ended nal k v s e ↦ (nal ∷ [], accepted_last output out nal (sym e ∙ h), (v, tt), last nal k s)
  | continued nal more k s v split shorter e ↦
      let (nals, o, a, sp) =
        normalize_loop_sound fuel codec more (output ++ framed nal) out (sym e ∙ h) in
      (
        nal ∷ nals,
        o ∙ append_assoc output (framed nal) (annex_b nals),
        (v, a),
        next nal more k s split sp,
      )
]

-- A stream as `NormalizeAnnexB` reads it: bytes before the first start code, and the NAL units.
pub record IsStream (bytes : Bytes) (nals : List Bytes) : Type 0 where
  pub before : Bytes
  pub rest : Bytes
  pub size : ℕ
  pub starts : bytes ≡ before ++ (code_bytes size ++ rest)
  pub first : find_start_code before ≡ none
  pub splits : Splits rest nals

-- A stream that NormalizeAnnexB accepts splits at its start codes into NAL units of valid headers,
-- with zeros behind each, and the output is those units, each behind 00 00 00 01.
pub normalize_annex_b_sound :
    (codec : BitstreamCodec) (bytes output out : Bytes)
    → normalize_annex_b codec bytes output ≡ (true, out)
    → (nals : List Bytes) × (out ≡ annex_b nals) × All (IsNal codec) nals × IsStream bytes nals
unfolding normalize_annex_b
normalize_annex_b_sound codec bytes output out h = elim (Option-cases (find_start_code bytes)) [
  | inl e ↦ absurd (ground arith)
  | inr (c, e) ↦
      let rest = drop (c.offset + c.size) bytes in
      let (nals, o, a, sp) =
        normalize_loop_sound (suc (length bytes)) codec rest [] out
          (run_out-true _ out (rw (e, normalize_annex_b) at h)) in
      (
        nals,
        o,
        a,
        record {
          before = take c.offset bytes;
          rest = rest;
          size = c.size;
          starts = (find-split bytes c.offset c.size e).0;
          first = find-take_before bytes c.offset c.size c.offset e (omega arith);
          splits = sp;
        },
      )
]

run_out-false :
    (r : Option (Bool × Bytes))
    → ((out : Bytes) → r ≡ some (false, out) → out ≡ [])
    → (run_out r).0 ≡ false
    → (run_out r).1 ≡ []
run_out-false none f h = refl
run_out-false (some (b, o)) f h = f o (ground arith)

normalize_loop_fails :
    (fuel : ℕ) (codec : BitstreamCodec) (rest output out : Bytes)
    → normalize_loop fuel codec rest output ≡ some (false, out)
    → out ≡ []
normalize_loop_fails zero codec rest output out h = unfold normalize_loop in cc
normalize_loop_fails (suc fuel) codec rest output out h = elim (round fuel codec rest output) [
  | refused e ↦ ground arith
  | ended nal k v s e ↦ absurd (ground arith)
  | continued nal more k s v split shorter e ↦
      normalize_loop_fails fuel codec more (output ++ framed nal) out (sym e ∙ h)
]

-- NormalizeAnnexB leaves the output empty where it returns false.
pub normalize_annex_b_fails :
    (codec : BitstreamCodec) (bytes output : Bytes)
    → (normalize_annex_b codec bytes output).0 ≡ false
    → (normalize_annex_b codec bytes output).1 ≡ []
unfolding normalize_annex_b
normalize_annex_b_fails codec bytes output h = elim (Option-cases (find_start_code bytes)) [
  | inl e ↦ rw (e, normalize_annex_b)
  | inr (c, e) ↦
      rw (e, normalize_annex_b)
        (run_out-false _
          (λ out.
            normalize_loop_fails (suc (length bytes)) codec (drop (c.offset + c.size) bytes) [] out)
          (rw (e, normalize_annex_b) at h))
]
