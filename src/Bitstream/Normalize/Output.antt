-- ===== src/Bitstream/Normalize/Output.antt =====
-- What `Normalize` writes, whichever way it goes.
use hardware_floral_codec.Common.{
  ℕ, zero, suc, ◌+◌, ◌*◌, ◌%◌, ◌^◌, ◌≡◌, ◌≢◌, ◌⊎◌, inl, inr, refl, sym, ap, ◌∙◌, subst, Bool, true,
  false, Option, none, some, List, [], ◌∷◌, ◌++◌, length, get_or, take, drop, All, All-append, any,
  arith, append_assoc, append-nil, Bool-cases, Option-cases, ◌==◌, ◌||◌, ◌&&◌, ltb, leb,
  if◌then◌else◌, is_empty, not, bit_and,
}
use hardware_floral_codec.Bitstream.Nal.{
  BitstreamCodec, avc, hevc, Bytes, framed, annex_b, is_valid_nal_header, append_nal,
  append_nal_inv,
}
use hardware_floral_codec.Bitstream.AnnexB.{normalize_annex_b}
use hardware_floral_codec.Bitstream.AnnexB.Sound.{
  IsNal, Splits, last, next, run_out-true, normalize_annex_b_sound,
}
use hardware_floral_codec.Bitstream.LengthPrefixed.{
  Converted, converted, read_length, convert_loop, convert_length_prefixed, preferred_length_size,
  try_candidates, try_length_sizes,
}
use hardware_floral_codec.Bitstream.ConfigRecord.{
  Units, short, bad, done, parse_units, parse_pps, parse_avcc, parse_arrays, parse_hvcc,
}
use hardware_floral_codec.Bitstream.Normalize.{
  normalize_raw_nal, normalize_rest, normalize_bytes, normalize_access_unit,
}

-- A unit whose header is valid, and a stream of such units.
abbrev pub HasHeader : BitstreamCodec → Bytes → Type 0
HasHeader codec nal = is_valid_nal_header codec nal ≡ true

pub record IsAnnexB (codec : BitstreamCodec) (output : Bytes) : Type 0 where
  pub nals : List Bytes
  pub written : output ≡ annex_b nals
  pub headers : All (HasHeader codec) nals

annex_b-snoc :
    (nals : List Bytes) (nal : Bytes) → annex_b (nals ++ nal ∷ []) ≡ annex_b nals ++ framed nal
annex_b-snoc [] nal = rw append-nil
annex_b-snoc (n ∷ nals) nal =
    rw (annex_b-snoc nals nal) (sym (append_assoc (framed n) (annex_b nals) (framed nal)))

empty-IsAnnexB : (codec : BitstreamCodec) → IsAnnexB codec []
empty-IsAnnexB codec = record { nals = []; written = refl; headers = tt }

-- `AppendNal` keeps the stream in form.
append_nal-IsAnnexB :
    (codec : BitstreamCodec) (nal output out : Bytes)
    → IsAnnexB codec output
    → append_nal nal codec output ≡ some out
    → IsAnnexB codec out
append_nal-IsAnnexB codec nal output out h e =
    let (v, same) = append_nal_inv nal codec output out e in
    record {
      nals = h.nals ++ nal ∷ [];
      written = same ∙ (rw (annex_b-snoc, h.written));
      headers = All-append (HasHeader codec) h.nals (nal ∷ []) h.headers (v, tt);
    }

parse_units-IsAnnexB :
    (count : ℕ) (codec : BitstreamCodec) (bytes output rest out : Bytes)
    → IsAnnexB codec output
    → parse_units count codec bytes output ≡ done rest out
    → IsAnnexB codec out
unfolding parse_units
parse_units-IsAnnexB zero codec bytes output rest out h e = subst (IsAnnexB codec) (ground arith) h
parse_units-IsAnnexB (suc count) codec [] output rest out h e = cc
parse_units-IsAnnexB (suc count) codec (a ∷ []) output rest out h e = cc
parse_units-IsAnnexB (suc count) codec (a ∷ b ∷ bytes) output rest out h e =
    let size = (a * 256 + b) % 2 ^ 16 in
    elim (Option-cases
      (if ltb (length bytes) size then none else append_nal (take size bytes) codec output)) [
        | inl q ↦ absurd (ground arith)
        | inr (o, q) ↦
            parse_units-IsAnnexB count codec (drop size bytes) o rest out
              (append_nal-IsAnnexB codec (take size bytes) output o h (ground arith)) (ground arith)
      ]

-- A loop over units gives up, or is done.
Units-cases :
    (u : Units)
    → ((u ≡ bad) ⊎ ((o : Bytes) × (u ≡ short o))) ⊎ ((r : Bytes) × (o : Bytes) × (u ≡ done r o))
Units-cases (short o) = inl (inr (o, refl))
Units-cases bad = inl (inl refl)
Units-cases (done r o) = inr (r, o, refl)

parse_arrays-IsAnnexB :
    (count : ℕ) (bytes output rest out : Bytes)
    → IsAnnexB hevc output
    → parse_arrays count bytes output ≡ done rest out
    → IsAnnexB hevc out
unfolding parse_arrays
parse_arrays-IsAnnexB zero bytes output rest out h e = subst (IsAnnexB hevc) (ground arith) h
parse_arrays-IsAnnexB (suc count) [] output rest out h e = cc
parse_arrays-IsAnnexB (suc count) (t ∷ []) output rest out h e = cc
parse_arrays-IsAnnexB (suc count) (t ∷ a ∷ []) output rest out h e = cc
parse_arrays-IsAnnexB (suc count) (t ∷ a ∷ b ∷ bytes) output rest out h e =
    elim (Units-cases (parse_units ((a * 256 + b) % 2 ^ 16) hevc bytes output)) [
      | inl (inl q) ↦ absurd (cc (rw (q, parse_arrays) at e))
      | inl (inr (o, q)) ↦ absurd (cc (rw (q, parse_arrays) at e))
      | inr (r, o, q) ↦
          parse_arrays-IsAnnexB count r o rest out
            (parse_units-IsAnnexB ((a * 256 + b) % 2 ^ 16) hevc bytes output r o h q)
            (rw (q, parse_arrays) at e)
    ]

convert_loop-IsAnnexB :
    (fuel : ℕ) (codec : BitstreamCodec) (n : ℕ) (bytes output out : Bytes)
    → IsAnnexB codec output
    → convert_loop fuel codec n bytes output ≡ some (true, out)
    → IsAnnexB codec out × (out ≢ [])
unfolding convert_loop
convert_loop-IsAnnexB fuel codec n [] output out h e =
    (subst (IsAnnexB codec) (ground arith) h, λ z. ground arith)
convert_loop-IsAnnexB zero codec n (b ∷ bytes) output out h e = cc
convert_loop-IsAnnexB (suc fuel) codec n (b ∷ bytes) output out h e =
    let size = read_length n 0 (b ∷ bytes) in
    let rest = drop n (b ∷ bytes) in
    elim (Bool-cases (ltb (length (b ∷ bytes)) n)) [
      | inl t ↦ absurd (ground arith)
      | inr f ↦
          elim (Option-cases (
            if size == 0 || ltb (length rest) size
            then none
            else append_nal (take size rest) codec output)) [
              | inl q ↦ absurd (ground arith)
              | inr (o, q) ↦
                  convert_loop-IsAnnexB fuel codec n (drop size rest) o out
                    (append_nal-IsAnnexB codec (take size rest) output o h (ground arith))
                    (ground arith)
            ]
    ]

abbrev Good : BitstreamCodec → Bytes → Type 0
Good codec out = IsAnnexB codec out × (out ≢ [])

convert_length_prefixed-IsAnnexB :
    (codec : BitstreamCodec) (bytes : Bytes) (n : ℕ) (output out : Bytes)
    → convert_length_prefixed codec bytes n output ≡ (true, out)
    → Good codec out
unfolding convert_length_prefixed
convert_length_prefixed-IsAnnexB codec bytes n output out e =
    elim (Bool-cases (ltb n 1 || ltb 4 n)) [
      | inl bad_size ↦ absurd (ground arith)
      | inr good ↦
          convert_loop-IsAnnexB (length bytes) codec n bytes [] out (empty-IsAnnexB codec)
            (run_out-true _ out (ground arith))
    ]

pair_of : {p : Bool × Bytes} → p.0 ≡ true → p ≡ (true, p.1)
pair_of e = ground arith

try_candidates-IsAnnexB :
    (codec : BitstreamCodec) (bytes : Bytes) (attempted candidates : List ℕ) (output : Bytes)
    (detected : Option ℕ)
    → (try_candidates codec bytes attempted candidates output detected).ok ≡ true
    → Good codec (try_candidates codec bytes attempted candidates output detected).output
unfolding try_candidates
try_candidates-IsAnnexB codec bytes attempted [] output detected e = cc
try_candidates-IsAnnexB codec bytes attempted (c ∷ cs) output detected e =
    elim (Bool-cases (c == 0 || any (λ a. a == c) attempted)) [
      | inl t ↦
          rw (t, try_candidates)
            (try_candidates-IsAnnexB codec bytes attempted cs output detected
              (rw (t, try_candidates) at e))
      | inr f ↦ elim (Bool-cases (convert_length_prefixed codec bytes c output).0) [
        | inl g ↦
            rw (f, g, try_candidates)
              (convert_length_prefixed-IsAnnexB codec bytes c output _ (pair_of g))
        | inr g ↦
            rw (f, g, try_candidates)
              (try_candidates-IsAnnexB codec bytes (c ∷ attempted) cs
                (convert_length_prefixed codec bytes c output).1 detected
                (rw (f, g, try_candidates) at e))
      ]
    ]

normalize_raw_nal-IsAnnexB :
    (codec : BitstreamCodec) (bytes output : Bytes)
    → (normalize_raw_nal codec bytes output).0 ≡ true
    → Good codec (normalize_raw_nal codec bytes output).1
unfolding normalize_raw_nal
normalize_raw_nal-IsAnnexB codec bytes output e = elim (Option-cases (append_nal bytes codec [])) [
  | inl q ↦ absurd (ground arith)
  | inr (o, q) ↦
      rw (q, normalize_raw_nal)
        (
          append_nal-IsAnnexB codec bytes [] o (empty-IsAnnexB codec) q,
          λ z. absurd (ground (arith, append_nal_inv bytes codec [] o q)),
        )
]

-- A loop over units that ends with an output, and the test for an empty one.
ended-Good :
    (codec : BitstreamCodec) (out : Bytes) (old new : Option ℕ) (r : Converted)
    → IsAnnexB codec out
    → (if is_empty out then converted false out old else converted true out new) ≡ r
    → r.ok ≡ true
    → Good codec r.output
ended-Good codec [] old new r h e t = absurd (ground arith)
ended-Good codec (x ∷ out) old new r h e t =
    (subst (IsAnnexB codec) (ap (λ (c : Converted). c.output) e) h, λ z. ground arith)

parse_pps-Good :
    (bytes output : Bytes) (size : ℕ) (detected : Option ℕ) (r : Converted)
    → IsAnnexB avc output
    → parse_pps bytes output size detected ≡ r
    → r.ok ≡ true
    → Good avc r.output
unfolding parse_pps
parse_pps-Good [] output size detected r h e t = absurd (ground arith)
parse_pps-Good (count ∷ bytes) output size detected r h e t =
    elim (Units-cases (parse_units count avc bytes output)) [
      | inl (inl q) ↦ absurd (ground arith)
      | inl (inr (o, q)) ↦ absurd (ground arith)
      | inr (rest, o, q) ↦
          ended-Good avc o detected (some size) r
            (parse_units-IsAnnexB count avc bytes output rest o h q) (rw (q, parse_pps) at e) t
    ]

parse_avcc-Good :
    (bytes output : Bytes) (detected : Option ℕ) (r : Converted)
    → parse_avcc bytes output detected ≡ r
    → r.ok ≡ true
    → Good avc r.output
unfolding parse_avcc
parse_avcc-Good bytes output none r e t = absurd (ground arith)
parse_avcc-Good bytes output (some old) r e t =
    elim (Bool-cases (
      ltb (length bytes) 7
      || (not (get_or bytes 0 0 == 1) || not (bit_and (get_or bytes 4 0) 0xfc == 0xfc)))) [
        | inl g ↦ absurd (ground arith)
        | inr g ↦
            elim (Units-cases
              (parse_units (bit_and (get_or bytes 5 0) 0x1f) avc (drop 6 bytes) [])) [
                | inl (inl q) ↦ absurd (ground arith)
                | inl (inr (o, q)) ↦ absurd (ground arith)
                | inr (rest, o, q) ↦
                    parse_pps-Good rest o (bit_and (get_or bytes 4 0) 3 + 1) (some old) r
                      (parse_units-IsAnnexB (bit_and (get_or bytes 5 0) 0x1f) avc (drop 6 bytes) []
                        rest o (empty-IsAnnexB avc) q)
                      (rw (g, q, parse_avcc) at e) t
              ]
      ]

parse_hvcc-Good :
    (bytes output : Bytes) (detected : Option ℕ) (r : Converted)
    → parse_hvcc bytes output detected ≡ r
    → r.ok ≡ true
    → Good hevc r.output
unfolding parse_hvcc
parse_hvcc-Good bytes output none r e t = absurd (ground arith)
parse_hvcc-Good bytes output (some old) r e t =
    elim (Bool-cases (ltb (length bytes) 23 || not (get_or bytes 0 0 == 1))) [
      | inl g ↦ absurd (ground arith)
      | inr g ↦ elim (Units-cases (parse_arrays (get_or bytes 22 0) (drop 23 bytes) [])) [
        | inl (inl q) ↦ absurd (ground arith)
        | inl (inr (o, q)) ↦ absurd (ground arith)
        | inr (rest, o, q) ↦
            ended-Good hevc o (some old) (some (bit_and (get_or bytes 21 0) 3 + 1)) r
              (parse_arrays-IsAnnexB (get_or bytes 22 0) (drop 23 bytes) [] rest o
                (empty-IsAnnexB hevc) q)
              (rw (g, q, parse_hvcc) at e) t
      ]
    ]

IsNal-HasHeader :
    (codec : BitstreamCodec) (nals : List Bytes)
    → All (IsNal codec) nals
    → All (HasHeader codec) nals
IsNal-HasHeader codec [] vs = tt
IsNal-HasHeader codec (nal ∷ nals) vs = (vs.0.0, IsNal-HasHeader codec nals vs.1)

annex_b_nonempty :
    {rest out : Bytes} {nals : List Bytes} → Splits rest nals → out ≡ annex_b nals → out ≢ []
annex_b_nonempty (last nal k e) p z = cc
annex_b_nonempty (next nal more k s e sp) p z = cc

normalize_annex_b-Good :
    (codec : BitstreamCodec) (bytes output : Bytes)
    → (normalize_annex_b codec bytes output).0 ≡ true
    → Good codec (normalize_annex_b codec bytes output).1
normalize_annex_b-Good codec bytes output e =
    let (nals, o, vs, st) = normalize_annex_b_sound codec bytes output _ (pair_of e) in
    (
      record { nals = nals; written = o; headers = IsNal-HasHeader codec nals vs },
      annex_b_nonempty st.splits o,
    )

-- The cases of a result, read off an equation for it.
Good-eq :
    (codec : BitstreamCodec) (p r : Converted) → p ≡ r → Good codec p.output → Good codec r.output
Good-eq codec p r e = subst (λ (c : Converted). Good codec c.output) e

normalize_rest-Good :
    (codec : BitstreamCodec) (bytes : Bytes) (preferred : ℕ) (output : Bytes) (detected : Option ℕ)
    (r : Converted)
    → normalize_rest codec bytes preferred output detected ≡ r
    → r.ok ≡ true
    → Good codec r.output
unfolding normalize_rest try_length_sizes
normalize_rest-Good codec bytes preferred output detected r e t =
    let tried = try_length_sizes codec bytes preferred output detected in
    elim (Bool-cases tried.ok) [
      | inl g ↦ Good-eq codec tried r (ground arith) (
          try_candidates-IsAnnexB codec bytes [] (preferred_length_size preferred ∷ 4 ∷ 2 ∷ 1 ∷ [])
            output detected g)
      | inr g ↦ elim (Bool-cases (normalize_raw_nal codec bytes tried.output).0) [
        | inl h ↦
            subst (Good codec) (ground arith)
              (normalize_raw_nal-IsAnnexB codec bytes tried.output h)
        | inr h ↦ absurd (ground arith)
      ]
    ]

normalize_bytes-Good :
    (codec : BitstreamCodec) (bytes : Bytes) (preferred : ℕ) (output : Bytes) (detected : Option ℕ)
    (config : Bool) (r : Converted)
    → normalize_bytes codec bytes preferred output detected config ≡ r
    → r.ok ≡ true
    → Good codec r.output
unfolding normalize_bytes
normalize_bytes-Good codec bytes preferred output detected false r e t =
    elim (Bool-cases (normalize_annex_b codec bytes output).0) [
      | inl g ↦ subst (Good codec) (ground arith) (normalize_annex_b-Good codec bytes output g)
      | inr g ↦
          normalize_rest-Good codec bytes preferred _ detected r (rw (g, normalize_bytes) at e) t
    ]
normalize_bytes-Good avc bytes preferred output detected true r e t =
    elim (Bool-cases (get_or bytes 0 0 == 1 && leb 7 (length bytes))) [
      | inl record_bytes ↦
          parse_avcc-Good bytes output detected r (rw (record_bytes, normalize_bytes) at e) t
      | inr other ↦ elim (Bool-cases (normalize_annex_b avc bytes output).0) [
        | inl g ↦ subst (Good avc) (ground arith) (normalize_annex_b-Good avc bytes output g)
        | inr g ↦
            normalize_rest-Good avc bytes preferred _ detected r
              (rw (other, g, normalize_bytes) at e) t
      ]
    ]
normalize_bytes-Good hevc bytes preferred output detected true r e t =
    elim (Bool-cases (get_or bytes 0 0 == 1 && leb 23 (length bytes))) [
      | inl record_bytes ↦
          parse_hvcc-Good bytes output detected r (rw (record_bytes, normalize_bytes) at e) t
      | inr other ↦ elim (Bool-cases (normalize_annex_b hevc bytes output).0) [
        | inl g ↦ subst (Good hevc) (ground arith) (normalize_annex_b-Good hevc bytes output g)
        | inr g ↦
            normalize_rest-Good hevc bytes preferred _ detected r
              (rw (other, g, normalize_bytes) at e) t
      ]
    ]

-- Whichever way Normalize goes, what it accepts comes out as an Annex-B stream of at least one NAL
-- unit, each with a valid header.
pub normalize_bytes-IsAnnexB :
    (codec : BitstreamCodec) (bytes : Bytes) (preferred : ℕ) (output : Bytes) (detected : Option ℕ)
    (config : Bool)
    → (normalize_bytes codec bytes preferred output detected config).ok ≡ true
    → IsAnnexB codec (normalize_bytes codec bytes preferred output detected config).output
      × ((normalize_bytes codec bytes preferred output detected config).output ≢ [])
normalize_bytes-IsAnnexB codec bytes preferred output detected config e =
    normalize_bytes-Good codec bytes preferred output detected config _ refl e

-- NormalizeAccessUnit on bytes leaves the output empty where it returns false.
pub normalize_access_unit_refused :
    (codec : BitstreamCodec) (b : ℕ) (bytes : Bytes) (preferred : ℕ) (output : Bytes)
    (detected : Option ℕ)
    → (normalize_access_unit codec (some (b ∷ bytes)) preferred (some output) detected).0 ≡ false
    → (normalize_access_unit codec (some (b ∷ bytes)) preferred (some output) detected).1 ≡ some []
unfolding normalize_access_unit normalize_raw_nal
normalize_access_unit_refused codec b bytes preferred output detected e = ground arith
