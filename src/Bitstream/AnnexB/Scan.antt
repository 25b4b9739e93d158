-- ===== src/Bitstream/AnnexB/Scan.antt =====
-- What `FindStartCode` and the trimming of zero bytes find, in terms of lists.
use hardware_floral_codec.Common.{
  ℕ, zero, suc, ◌+◌, ◌≤◌, ◌<◌, ◌≡◌, ◌≢◌, inl, inr, refl, sym, ap, ◌∙◌, Option, none, some, [], ◌∷◌,
  ◌++◌, ◌==◌, if◌then◌else◌, length, get_or, take, drop, replicate, arith, Bool-cases, ℕ-cases,
  ◌&&◌, subst, append-nil, append_assoc,
}
use Prim.Native.Nat.add
use hardware_floral_codec.Bitstream.Nal.{Bytes, framed}
use hardware_floral_codec.Bitstream.AnnexB.{
  StartCode, start_code_size, later, find_start_code, trim_end,
}

-- The last byte is not zero, and there is one.
abbrev pub EndsNonzero : Bytes → Type 0
EndsNonzero [] = ⊥
EndsNonzero (x ∷ []) = x ≢ 0
EndsNonzero (x ∷ y ∷ r) = EndsNonzero (y ∷ r)

-- A start code of the given size: 00 00 01 or 00 00 00 01.
abbrev pub code_bytes : ℕ → Bytes
code_bytes n = if n == 3 then 0 ∷ 0 ∷ 1 ∷ [] else 0 ∷ 0 ∷ 0 ∷ 1 ∷ []

start_code_size-take :
    (k : ℕ) (xs : Bytes) → start_code_size xs ≡ 0 → start_code_size (take k xs) ≡ 0
unfolding start_code_size
start_code_size-take zero xs h = refl
start_code_size-take (suc k) [] h = refl
start_code_size-take (suc zero) (a ∷ xs) h = refl
start_code_size-take (suc (suc k)) (a ∷ []) h = refl
start_code_size-take (suc (suc zero)) (a ∷ b ∷ xs) h = refl
start_code_size-take (suc (suc (suc k))) (a ∷ b ∷ []) h = refl
start_code_size-take (suc (suc (suc zero))) (a ∷ b ∷ c ∷ []) h = h
start_code_size-take (suc (suc (suc zero))) (a ∷ b ∷ c ∷ d ∷ xs) h = ground arith
start_code_size-take (suc (suc (suc (suc k)))) (a ∷ b ∷ c ∷ []) h = h
start_code_size-take (suc (suc (suc (suc k)))) (a ∷ b ∷ c ∷ d ∷ xs) h = h

find-cons_next :
    (a : ℕ) (xs : Bytes)
    → start_code_size (a ∷ xs) ≡ 0
    → find_start_code (a ∷ xs) ≡ later (find_start_code xs)
unfolding find_start_code
find-cons_next a xs e = rw (e, find_start_code)

find-cons_here :
    (a : ℕ) (xs : Bytes) (n : ℕ)
    → start_code_size (a ∷ xs) ≡ suc n
    → find_start_code (a ∷ xs) ≡ some (record { offset = 0; size = suc n })
unfolding find_start_code
find-cons_here a xs n e = rw (e, find_start_code)

later-none : (o : Option StartCode) → later o ≡ none → o ≡ none
later-none none e = refl
later-none (some c) e = cc

later-some-suc :
    (r : Option StartCode) (o s : ℕ)
    → later r ≡ some (record { offset = suc o; size = s })
    → r ≡ some (record { offset = o; size = s })
later-some-suc none o s e = cc
later-some-suc (some p) o s e = ground arith

later-some_zero : (r : Option StartCode) (s : ℕ) → later r ≢ some (record { offset = 0; size = s })
later-some_zero none s e = cc
later-some_zero (some p) s e = ground arith

pub find-cons_none :
    (a : ℕ) (xs : Bytes)
    → find_start_code (a ∷ xs) ≡ none
    → (start_code_size (a ∷ xs) ≡ 0) × (find_start_code xs ≡ none)
find-cons_none a xs e = elim (ℕ-cases (start_code_size (a ∷ xs))) [
  | inl z ↦ (z, later-none _ (sym (find-cons_next a xs z) ∙ e))
  | inr (n, z) ↦ cc (find-cons_here a xs n z, e)
]

-- Bytes without a start code have no prefix with one.
pub find-take-none :
    (xs : Bytes) (k : ℕ) → find_start_code xs ≡ none → find_start_code (take k xs) ≡ none
find-take-none xs zero e = unfold find_start_code in refl
find-take-none [] (suc k) e = e
find-take-none (a ∷ xs) (suc k) e = elim (ℕ-cases (start_code_size (a ∷ xs))) [
  | inl z ↦
      find-cons_next a (take k xs) (start_code_size-take (suc k) (a ∷ xs) z)
      ∙ ap later (find-take-none xs k (later-none _ (sym (find-cons_next a xs z) ∙ e)))
  | inr (n, z) ↦ cc (find-cons_here a xs n z, e)
]

-- No start code begins before the one that is found.
pub find-take_before :
    (xs : Bytes) (o s k : ℕ)
    → find_start_code xs ≡ some (record { offset = o; size = s })
    → k ≤ o
    → find_start_code (take k xs) ≡ none
find-take_before xs o s zero e h = unfold find_start_code in refl
find-take_before [] o s (suc k) e h = unfold find_start_code in refl
find-take_before (a ∷ xs) zero s (suc k) e h = absurd (omega arith)
find-take_before (a ∷ xs) (suc o) s (suc k) e h = elim (ℕ-cases (start_code_size (a ∷ xs))) [
  | inl z ↦
      find-cons_next a (take k xs) (start_code_size-take (suc k) (a ∷ xs) z)
      ∙ ap later (
          find-take_before xs o s k (later-some-suc _ o s (sym (find-cons_next a xs z) ∙ e))
            (omega arith))
  | inr (n, z) ↦ absurd (ground (arith, find-cons_here a xs n z))
]

pub add_suc_left : (m n : ℕ) → suc m + n ≡ suc (m + n)
add_suc_left m n = omega arith

-- A start code at the head, split off.
abbrev HeadCode : ℕ → Bytes → Type 0
HeadCode s xs = (xs ≡ code_bytes s ++ drop s xs) × (3 ≤ s) × (s ≤ 4) × (s ≤ length xs)

start_code_split : (xs : Bytes) (s : ℕ) → start_code_size xs ≡ s → 0 < s → HeadCode s xs
unfolding start_code_size
start_code_split [] s e h = absurd (omega arith)
start_code_split (a ∷ []) s e h = absurd (omega arith)
start_code_split (a ∷ b ∷ []) s e h = absurd (omega arith)
start_code_split (a ∷ b ∷ c ∷ []) s e h = elim (Bool-cases (a == 0 && (b == 0 && c == 1))) [
  | inl t ↦ subst (λ k. HeadCode k (a ∷ b ∷ c ∷ [])) (rw t at e) (ground arith)
  | inr f ↦ absurd (ground arith)
]
start_code_split (a ∷ b ∷ c ∷ d ∷ xs) s e h = elim (Bool-cases (a == 0 && b == 0)) [
  | inl t ↦ elim (Bool-cases (c == 1)) [
    | inl u ↦ subst (λ k. HeadCode k (a ∷ b ∷ c ∷ d ∷ xs)) (rw (t, u) at e) (ground arith)
    | inr v ↦ elim (Bool-cases (c == 0 && d == 1)) [
      | inl w ↦ subst (λ k. HeadCode k (a ∷ b ∷ c ∷ d ∷ xs)) (rw (t, v, w) at e) (ground arith)
      | inr w ↦ absurd (ground arith)
    ]
  ]
  | inr f ↦ absurd (ground arith)
]

-- What is found is a start code at that offset.
pub find-split :
    (xs : Bytes) (o s : ℕ)
    → find_start_code xs ≡ some (record { offset = o; size = s })
    → (xs ≡ take o xs ++ (code_bytes s ++ drop (o + s) xs))
      × (3 ≤ s)
      × (s ≤ 4)
      × (o + s ≤ length xs)
find-split [] o s e = unfold find_start_code in cc
find-split (a ∷ xs) zero s e = elim (ℕ-cases (start_code_size (a ∷ xs))) [
  | inl z ↦ absurd (later-some_zero _ s (sym (find-cons_next a xs z) ∙ e))
  | inr (n, z) ↦
      let same : suc n ≡ s = ground (arith, find-cons_here a xs n z) in
      let (e1, e2, e3, e4) = start_code_split (a ∷ xs) s (z ∙ same) (omega arith) in
      (rw (add.zero s) e1, e2, e3, omega arith)
]
find-split (a ∷ xs) (suc o) s e = elim (ℕ-cases (start_code_size (a ∷ xs))) [
  | inl z ↦
      let ih = find-split xs o s (later-some-suc _ o s (sym (find-cons_next a xs z) ∙ e)) in
      (rw add_suc_left (ap (◌∷◌ a) ih.0), ih.1, ih.2, omega arith)
  | inr (n, z) ↦ absurd (ground (arith, find-cons_here a xs n z))
]

trim_end-zero : (xs : Bytes) (n : ℕ) → get_or xs n 0 ≡ 0 → trim_end xs (suc n) ≡ trim_end xs n
unfolding trim_end
trim_end-zero xs n e = rw e

trim_end-keep : (xs : Bytes) (n m : ℕ) → get_or xs n 0 ≡ suc m → trim_end xs (suc n) ≡ suc n
unfolding trim_end
trim_end-keep xs n m e = ground arith

-- The trimmed end lies within, and the bytes behind it are zeros.
pub trim_end-le : (xs : Bytes) (n : ℕ) → trim_end xs n ≤ n
unfolding trim_end
trim_end-le xs zero = omega arith
trim_end-le xs (suc n) = ground (arith, trim_end-le xs n)

take-suc_zero :
    (xs : Bytes) (n : ℕ) → n < length xs → get_or xs n 0 ≡ 0 → take (suc n) xs ≡ take n xs ++ 0 ∷ []
take-suc_zero [] n h e = absurd (omega arith)
take-suc_zero (x ∷ xs) zero h e = rw e
take-suc_zero (x ∷ xs) (suc n) h e = ap (◌∷◌ x) (take-suc_zero xs n (omega arith) e)

replicate-snoc : (n : ℕ) → replicate n 0 ++ 0 ∷ [] ≡ replicate {A = ℕ} (suc n) 0
replicate-snoc zero = refl
replicate-snoc (suc n) = ap (◌∷◌ 0) (replicate-snoc n)

-- The bytes up to the end are those up to the trimmed end, and zeros.
pub take-trim_end :
    (xs : Bytes) (n : ℕ)
    → n ≤ length xs
    → (k : ℕ) × (take n xs ≡ take (trim_end xs n) xs ++ replicate k 0)
take-trim_end xs zero h = (0, unfold trim_end in refl)
take-trim_end xs (suc n) h = elim (ℕ-cases (get_or xs n 0)) [
  | inl e ↦
      let (k, ih) = take-trim_end xs n (omega arith) in
      (
        suc k,
        take-suc_zero xs n h e
            ∙ ap (λ (l : Bytes). l ++ 0 ∷ []) ih
            ∙ append_assoc (take (trim_end xs n) xs) (replicate k 0) (0 ∷ [])
            ∙ (rw (trim_end-zero xs n e, replicate-snoc k)),
      )
  | inr (m, e) ↦ (0, rw (trim_end-keep xs n m e) (sym (append-nil _)))
]

-- What the trimming leaves is empty or ends in a byte that is not zero.
EndsNonzero-take :
    (xs : Bytes) (n : ℕ) → n < length xs → get_or xs n 0 ≢ 0 → EndsNonzero (take (suc n) xs)
EndsNonzero-take [] n h e = absurd (omega arith)
EndsNonzero-take (x ∷ xs) zero h e = e
EndsNonzero-take (x ∷ []) (suc n) h e = absurd (omega arith)
EndsNonzero-take (x ∷ y ∷ xs) (suc n) h e = EndsNonzero-take (y ∷ xs) n (omega arith) e

pub trim_end-EndsNonzero :
    (xs : Bytes) (n : ℕ) → n ≤ length xs → trim_end xs n ≢ 0 → EndsNonzero (take (trim_end xs n) xs)
trim_end-EndsNonzero xs zero h p = absurd (p (unfold trim_end in refl))
trim_end-EndsNonzero xs (suc n) h p = elim (ℕ-cases (get_or xs n 0)) [
  | inl e ↦
      rw (trim_end-zero xs n e)
        (trim_end-EndsNonzero xs n (omega arith) (λ q. p (trim_end-zero xs n e ∙ q)))
  | inr (m, e) ↦ rw (trim_end-keep xs n m e) (EndsNonzero-take xs n h (omega arith))
]

-- Nothing is trimmed off bytes that end in one that is not zero.
get_or-EndsNonzero :
    (x : ℕ) (xs t : Bytes) → EndsNonzero (x ∷ xs) → get_or ((x ∷ xs) ++ t) (length xs) 0 ≢ 0
get_or-EndsNonzero x [] t h = h
get_or-EndsNonzero x (y ∷ ys) t h = get_or-EndsNonzero y ys t h

pub trim_end-length : (xs t : Bytes) → EndsNonzero xs → trim_end (xs ++ t) (length xs) ≡ length xs
unfolding trim_end
trim_end-length [] t h = refl
trim_end-length (x ∷ xs) t h = ground (arith, get_or-EndsNonzero x xs t h)

-- A start code behind bytes that have none and do not end in zero is the one that is found.
pub start_code_size-append :
    (xs t : Bytes) → EndsNonzero xs → start_code_size xs ≡ 0 → start_code_size (xs ++ framed t) ≡ 0
unfolding start_code_size
start_code_size-append [] t h e = absurd h
start_code_size-append (a ∷ []) t h e = ground arith
start_code_size-append (a ∷ b ∷ []) t h e = ground arith
start_code_size-append (a ∷ b ∷ c ∷ []) t h e = ground arith
start_code_size-append (a ∷ b ∷ c ∷ d ∷ xs) t h e = e

pub find-append :
    (xs t : Bytes)
    → EndsNonzero xs
    → find_start_code xs ≡ none
    → find_start_code (xs ++ framed t) ≡ some (record { offset = length xs; size = 4 })
find-append [] t h e = absurd h
find-append (a ∷ []) t h e = elim (ℕ-cases (start_code_size (a ∷ []))) [
  | inl z ↦
      find-cons_next a (framed t) (start_code_size-append (a ∷ []) t h z)
      ∙ (unfold find_start_code start_code_size in refl)
  | inr (n, z) ↦ cc (find-cons_here a [] n z, e)
]
find-append (a ∷ b ∷ xs) t h e = elim (ℕ-cases (start_code_size (a ∷ b ∷ xs))) [
  | inl z ↦
      find-cons_next a (b ∷ xs ++ framed t) (start_code_size-append (a ∷ b ∷ xs) t h z)
      ∙ ap later (find-append (b ∷ xs) t h (later-none _ (sym (find-cons_next a (b ∷ xs) z) ∙ e)))
  | inr (n, z) ↦ cc (find-cons_here a (b ∷ xs) n z, e)
]
