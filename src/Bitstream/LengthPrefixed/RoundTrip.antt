-- ===== src/Bitstream/LengthPrefixed/RoundTrip.antt =====
-- A list of NAL units, each behind its length, is converted to the Annex-B stream of the same
-- units; and only such bytes are converted.
use hardware_floral_codec.Common.{
  ℕ, zero, suc, ◌+◌, ◌/◌, ◌%◌, ◌^◌, ◌≤◌, ◌<◌, ◌≡◌, ◌≢◌, ◌⊎◌, inl, inr, refl, sym, ap, ◌∙◌, true,
  false, not, ◌||◌, none, some, List, [], ◌∷◌, ◌++◌, ltb, ◌==◌, length, is_empty, take, drop, All,
  arith, append_assoc, append-nil, take-length-append, drop-length-append, take-append-drop,
  length-append, length-drop, length-take, Bool-cases, Option-cases,
}
use hardware_floral_codec.Bitstream.Nal.{
  BitstreamCodec, Bytes, size_max, framed, annex_b, is_valid_nal_header, is_valid_nal_header-pos,
  append_nal, append_nal_ok, append_nal_inv,
}
use hardware_floral_codec.Bitstream.LengthPrefixed.{
  read_length, convert_loop, convert_length_prefixed,
}

-- The last n bytes of a number, the highest first.
unfoldable pub be_bytes : ℕ → ℕ → Bytes
be_bytes zero v = []
be_bytes (suc n) v = (v / 256 ^ n % 256) ∷ be_bytes n v

-- NAL units behind lengths of n bytes.
unfoldable pub length_prefixed : ℕ → List Bytes → Bytes
unfolding be_bytes
length_prefixed n [] = []
length_prefixed n (nal ∷ nals) = be_bytes n (length nal) ++ (nal ++ length_prefixed n nals)

length-be_bytes : (n v : ℕ) → length (be_bytes n v) ≡ n
unfolding be_bytes
length-be_bytes zero v = refl
length-be_bytes (suc n) v = ap suc (length-be_bytes n v)

pub read_length-be_bytes :
    (n v : ℕ) (t : Bytes) → n ≤ 4 → v < 256 ^ n → read_length n 0 (be_bytes n v ++ t) ≡ v
unfolding read_length be_bytes
read_length-be_bytes zero v t h lt = omega arith
read_length-be_bytes (suc zero) v t h lt = omega arith
read_length-be_bytes (suc (suc zero)) v t h lt = omega arith
read_length-be_bytes (suc (suc (suc zero))) v t h lt = omega arith
read_length-be_bytes (suc (suc (suc (suc zero)))) v t h lt = omega arith
read_length-be_bytes (suc (suc (suc (suc (suc n))))) v t h lt = absurd (omega arith)

-- A NAL unit that a length of n bytes can stand before.
abbrev pub Fits : BitstreamCodec → ℕ → Bytes → Type 0
Fits codec n nal = (is_valid_nal_header codec nal ≡ true) × (length nal < 256 ^ n)

abbrev size_of : ℕ → Bytes → ℕ
size_of n xs = read_length n 0 xs

-- A round whose tests pass.
convert_round :
    (fuel : ℕ) (codec : BitstreamCodec) (n : ℕ) (xs output out : Bytes)
    → 1 ≤ n
    → n ≤ length xs
    → size_of n xs ≢ 0
    → size_of n xs ≤ length (drop n xs)
    → append_nal (take (size_of n xs) (drop n xs)) codec output ≡ some out
    → convert_loop (suc fuel) codec n xs output
      ≡ convert_loop fuel codec n (drop (size_of n xs) (drop n xs)) out
unfolding convert_loop
convert_round fuel codec n [] output out lo len pos fits a = absurd (omega arith)
convert_round fuel codec n (b ∷ bs) output out lo len pos fits a = ground arith

-- What a round that goes on has found.
abbrev Passed : ℕ → BitstreamCodec → ℕ → Bytes → Bytes → Bytes → Type 0
Passed fuel codec n xs output out =
    (n ≤ length xs)
    × (size_of n xs ≢ 0)
    × (size_of n xs ≤ length (drop n xs))
    × (append_nal (take (size_of n xs) (drop n xs)) codec output ≡ some out)

convert_cases :
    (fuel : ℕ) (codec : BitstreamCodec) (n b : ℕ) (bs output : Bytes)
    → (convert_loop (suc fuel) codec n (b ∷ bs) output ≡ some (false, []))
      ⊎ ((out : Bytes) × Passed fuel codec n (b ∷ bs) output out)
unfolding convert_loop
convert_cases fuel codec n b bs output = elim (Bool-cases (ltb (length (b ∷ bs)) n)) [
  | inl short ↦ inl (ground arith)
  | inr long ↦
      elim (Bool-cases
        (size_of n (b ∷ bs) == 0 || ltb (length (drop n (b ∷ bs))) (size_of n (b ∷ bs)))) [
          | inl bad ↦ inl (ground arith)
          | inr good ↦
              elim (Option-cases
                (append_nal (take (size_of n (b ∷ bs)) (drop n (b ∷ bs))) codec output)) [
                  | inl none_left ↦ inl (ground arith)
                  | inr (out, a) ↦ inr (out, (ground arith, ground arith, ground arith, a))
                ]
        ]
]

-- One round on a unit behind its length.
convert_unit :
    (fuel : ℕ) (codec : BitstreamCodec) (n : ℕ) (nal t output : Bytes)
    → 1 ≤ n
    → n ≤ 4
    → Fits codec n nal
    → length output + 4 + length nal ≤ size_max
    → convert_loop (suc fuel) codec n (be_bytes n (length nal) ++ (nal ++ t)) output
      ≡ convert_loop fuel codec n t (output ++ framed nal)
convert_unit fuel codec n nal t output lo hi v room =
    convert_round fuel codec n whole output (output ++ framed nal) lo
      (omega
        (arith, length-append (be_bytes n (length nal)) (nal ++ t), length-be_bytes n (length nal)))
      (λ z. absurd (omega (arith, size, is_valid_nal_header-pos codec nal v.0)))
      (rw (size, rest) (omega (arith, length-append nal t)))
      (rw (size, rest, take-length-append) (append_nal_ok nal codec output v.0 room))
    ∙ ap (λ (l : Bytes). convert_loop fuel codec n l (output ++ framed nal))
        (rw (size, rest) (drop-length-append nal t))
  where
    whole : Bytes
    whole = be_bytes n (length nal) ++ (nal ++ t)

    size : size_of n whole ≡ length nal
    size = read_length-be_bytes n (length nal) (nal ++ t) hi v.1

    rest : drop n whole ≡ nal ++ t
    rest =
        rw (length-be_bytes n (length nal)) at
          (drop-length-append (be_bytes n (length nal)) (nal ++ t))

pub length_prefixed-cons :
    (n : ℕ) (nal : Bytes) (nals : List Bytes)
    → length_prefixed n (nal ∷ nals) ≡ be_bytes n (length nal) ++ (nal ++ length_prefixed n nals)
unfolding length_prefixed
length_prefixed-cons n nal nals = refl

length-length_prefixed :
    (n : ℕ) (nals : List Bytes) → 1 ≤ n → length nals ≤ length (length_prefixed n nals)
unfolding length_prefixed
length-length_prefixed n [] lo = omega arith
length-length_prefixed n (nal ∷ nals) lo = omega (
  arith,
  length-append (be_bytes n (length nal)) (nal ++ length_prefixed n nals),
  length-append nal (length_prefixed n nals),
  length-be_bytes n (length nal),
  length-length_prefixed n nals lo,
)

convert_units :
    (nals : List Bytes) (fuel : ℕ) (codec : BitstreamCodec) (n : ℕ) (output : Bytes)
    → 1 ≤ n
    → n ≤ 4
    → All (Fits codec n) nals
    → length output + length (annex_b nals) ≤ size_max
    → length nals ≤ fuel
    → convert_loop fuel codec n (length_prefixed n nals) output
      ≡ some (not (is_empty (output ++ annex_b nals)), output ++ annex_b nals)
convert_units [] fuel codec n output lo hi vs room f =
    rw append-nil (unfold length_prefixed convert_loop in refl)
convert_units (nal ∷ nals) zero codec n output lo hi vs room f = absurd (omega arith)
convert_units (nal ∷ nals) (suc fuel) codec n output lo hi vs room f =
    ap (λ (l : Bytes). convert_loop (suc fuel) codec n l output) (length_prefixed-cons n nal nals)
    ∙ convert_unit fuel codec n nal (length_prefixed n nals) output lo hi vs.0
        (omega (arith, length-append nal (annex_b nals)))
    ∙ convert_units nals fuel codec n (output ++ framed nal) lo hi vs.1
        (omega (arith, length-append output (framed nal), length-append nal (annex_b nals)))
        (omega arith)
    ∙ ap (λ (l : Bytes). some (not (is_empty l), l))
        (append_assoc output (framed nal) (annex_b nals))

-- At least one NAL unit, each with a valid header and written behind its big-endian length of one
-- to four bytes that can hold it, is converted to the Annex-B stream of the same units, if a
-- size_t can count that stream.
pub convert_length_prefixed-length_prefixed :
    (codec : BitstreamCodec) (n : ℕ) (nals : List Bytes) (output : Bytes)
    → 1 ≤ n
    → n ≤ 4
    → nals ≢ []
    → All (Fits codec n) nals
    → length (annex_b nals) ≤ size_max
    → convert_length_prefixed codec (length_prefixed n nals) n output ≡ (true, annex_b nals)
unfolding convert_length_prefixed
convert_length_prefixed-length_prefixed codec n [] output lo hi ne vs room = absurd (ne refl)
convert_length_prefixed-length_prefixed codec n (nal ∷ nals) output lo hi ne vs room = ground (
  arith,
  convert_units (nal ∷ nals) (length (length_prefixed n (nal ∷ nals))) codec n [] lo hi vs
      (omega arith) (length-length_prefixed n (nal ∷ nals) lo),
)

abbrev pub IsByte : ℕ → Type 0
IsByte b = b < 256

be_bytes-read_length :
    (n : ℕ) (xs : Bytes)
    → n ≤ 4
    → n ≤ length xs
    → All IsByte xs
    → (be_bytes n (read_length n 0 xs) ≡ take n xs) × (read_length n 0 xs < 256 ^ n)
unfolding be_bytes read_length
be_bytes-read_length zero xs hi len bs = (refl, omega arith)
be_bytes-read_length (suc n) [] hi len bs = absurd (omega arith)
be_bytes-read_length (suc zero) (a ∷ xs) hi len bs = (ground arith, omega arith)
be_bytes-read_length (suc (suc n)) (a ∷ []) hi len bs = absurd (omega arith)
be_bytes-read_length (suc (suc zero)) (a ∷ b ∷ xs) hi len bs = (ground arith, omega arith)
be_bytes-read_length (suc (suc (suc n))) (a ∷ b ∷ []) hi len bs = absurd (omega arith)
be_bytes-read_length (suc (suc (suc zero))) (a ∷ b ∷ c ∷ xs) hi len bs = (ground arith, omega arith)
be_bytes-read_length (suc (suc (suc (suc n)))) (a ∷ b ∷ c ∷ []) hi len bs = absurd (omega arith)
be_bytes-read_length (suc (suc (suc (suc zero)))) (a ∷ b ∷ c ∷ d ∷ xs) hi len bs =
    (ground arith, omega arith)
be_bytes-read_length (suc (suc (suc (suc (suc n))))) (a ∷ b ∷ c ∷ d ∷ xs) hi len bs =
    absurd (omega arith)

All-drop : (n : ℕ) (xs : Bytes) → All IsByte xs → All IsByte (drop n xs)
All-drop zero xs h = h
All-drop (suc n) [] h = h
All-drop (suc n) (x ∷ xs) h = All-drop n xs h.1

-- What a round has taken, put back together.
round_bytes :
    (n : ℕ) (xs tail : Bytes)
    → n ≤ 4
    → n ≤ length xs
    → All IsByte xs
    → size_of n xs ≤ length (drop n xs)
    → drop (size_of n xs) (drop n xs) ≡ tail
    → (xs
        ≡ be_bytes n (length (take (size_of n xs) (drop n xs)))
          ++ (take (size_of n xs) (drop n xs) ++ tail))
      × (length (take (size_of n xs) (drop n xs)) < 256 ^ n)
round_bytes n xs tail hi len bs fits e =
    let (back, lt) = be_bytes-read_length n xs hi len bs in
    let same : length (take (size_of n xs) (drop n xs)) ≡ size_of n xs =
      omega (arith, length-take (size_of n xs) (drop n xs)) in
    (
      rw (same, back, ← e, take-append-drop (size_of n xs) (drop n xs))
          (sym (take-append-drop n xs)),
      rw same lt,
    )

-- Only units behind their lengths are accepted, and each comes out behind a start code.
convert_loop_sound :
    (fuel : ℕ) (codec : BitstreamCodec) (n : ℕ) (xs output out : Bytes)
    → 1 ≤ n
    → n ≤ 4
    → All IsByte xs
    → convert_loop fuel codec n xs output ≡ some (true, out)
    → (nals : List Bytes) × (xs ≡ length_prefixed n nals)
      × (out ≡ output ++ annex_b nals)
      × All (Fits codec n) nals
convert_loop_sound fuel codec n [] output out lo hi bs h =
    ([], unfold length_prefixed in refl, rw append-nil (unfold convert_loop in ground arith), tt)
convert_loop_sound zero codec n (b ∷ xs) output out lo hi bs h = unfold convert_loop in cc
convert_loop_sound (suc fuel) codec n (b ∷ xs) output out lo hi bs h =
    elim (convert_cases fuel codec n b xs output) [
      | inl e ↦ absurd (ground arith)
      | inr (o, (len, pos, fits, a)) ↦
          let nal = take (size_of n (b ∷ xs)) (drop n (b ∷ xs)) in
          let more = drop (size_of n (b ∷ xs)) (drop n (b ∷ xs)) in
          let (v, same) = append_nal_inv nal codec output o a in
          let (nals, i, p, vs) =
            convert_loop_sound fuel codec n more o out lo hi
              (All-drop (size_of n (b ∷ xs)) (drop n (b ∷ xs)) (All-drop n (b ∷ xs) bs))
              (sym (convert_round fuel codec n (b ∷ xs) output o lo len pos fits a) ∙ h) in
          let (whole, short) = round_bytes n (b ∷ xs) (length_prefixed n nals) hi len bs fits i in
          (
            nal ∷ nals,
            whole ∙ sym (length_prefixed-cons n nal nals),
            p ∙ (rw same (append_assoc output (framed nal) (annex_b nals))),
            ((v, short), vs),
          )
    ]

-- The loop ends: a round takes at least the bytes of a length.
convert_loop-total :
    (fuel : ℕ) (codec : BitstreamCodec) (n : ℕ) (xs output : Bytes)
    → 1 ≤ n
    → length xs ≤ fuel
    → convert_loop fuel codec n xs output ≢ none
convert_loop-total fuel codec n [] output lo f = unfold convert_loop in λ p. cc
convert_loop-total zero codec n (b ∷ xs) output lo f = absurd (omega arith)
convert_loop-total (suc fuel) codec n (b ∷ xs) output lo f =
    elim (convert_cases fuel codec n b xs output) [
      | inl e ↦ λ p. cc
      | inr (o, (len, pos, fits, a)) ↦ λ p.
          convert_loop-total fuel codec n (drop (size_of n (b ∷ xs)) (drop n (b ∷ xs))) o lo
            (omega
              (arith, length-drop n (b ∷ xs), length-drop (size_of n (b ∷ xs)) (drop n (b ∷ xs))))
            (sym (convert_round fuel codec n (b ∷ xs) output o lo len pos fits a) ∙ p)
    ]

-- The fuel that ConvertLengthPrefixed has, one round for each byte, never runs out for a length
-- size of at least one.
pub convert_loop-ne-none :
    (codec : BitstreamCodec) (n : ℕ) (xs : Bytes)
    → 1 ≤ n
    → convert_loop (length xs) codec n xs [] ≢ none
convert_loop-ne-none codec n xs lo = convert_loop-total (length xs) codec n xs [] lo (omega arith)

-- Bytes below 256 that ConvertLengthPrefixed accepts are valid units behind their lengths, and the
-- output is the Annex-B stream of those units.
pub convert_length_prefixed_sound :
    (codec : BitstreamCodec) (bytes : Bytes) (n : ℕ) (output out : Bytes)
    → All IsByte bytes
    → convert_length_prefixed codec bytes n output ≡ (true, out)
    → (nals : List Bytes) × (bytes ≡ length_prefixed n nals)
      × (out ≡ annex_b nals)
      × All (Fits codec n) nals
unfolding convert_length_prefixed
convert_length_prefixed_sound codec bytes n output out bs h =
    elim (Bool-cases (ltb n 1 || ltb 4 n)) [
      | inl bad ↦ absurd (ground arith)
      | inr good ↦ elim (Option-cases (convert_loop (length bytes) codec n bytes [])) [
        | inl e ↦ absurd (ground arith)
        | inr ((b, o), e) ↦
            convert_loop_sound (length bytes) codec n bytes [] out (ground arith) (ground arith) bs
              (e ∙ ap some (ground arith))
      ]
    ]
