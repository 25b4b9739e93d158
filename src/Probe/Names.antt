-- ===== src/Probe/Names.antt =====
-- Which names of a directory are device nodes.
use hardware_floral_codec.Common.{
  ℕ, ◌≡◌, ◌≢◌, ◌↔◌, ◌≤◌, refl, true, Option, none, some, [], ◌∷◌, ◌++◌, All, arith, Bool-cases, inl,
  inr, ==_iff, ◌==◌,
}
use hardware_floral_codec.Probe.{Text, strip_prefix, are_digits, is_number, is_numbered_node}

abbrev pub IsDigit : ℕ → Type 0
IsDigit c = (48 ≤ c) × (c ≤ 57)

strip_prefix_sound : (p name rest : Text) → strip_prefix p name ≡ some rest → name ≡ p ++ rest
unfolding strip_prefix
strip_prefix_sound [] name rest h = cc
strip_prefix_sound (a ∷ p) [] rest h = cc
strip_prefix_sound (a ∷ p) (c ∷ name) rest h = elim (Bool-cases (a == c)) [
  | inl same ↦ cc ((==_iff a c).0 same, strip_prefix_sound p name rest (rw same at h))
  | inr other ↦ cc (rw other at h)
]

strip_prefix-append : (p rest : Text) → strip_prefix p (p ++ rest) ≡ some rest
unfolding strip_prefix
strip_prefix-append [] rest = refl
strip_prefix-append (a ∷ p) rest = rw ((==_iff a a).1 refl) (strip_prefix-append p rest)

are_digits_iff : (t : Text) → (are_digits t ≡ true) ↔ All IsDigit t
unfolding are_digits
are_digits_iff [] = (λ h. tt, λ h. refl)
are_digits_iff (c ∷ t) = (
  λ h. (ground arith, (are_digits_iff t).0 (ground arith)),
  λ h. ground (arith, (are_digits_iff t).1 h.1, h.0),
)

is_number_sound :
    (o : Option Text)
    → is_number o ≡ true
    → (digits : Text) × (digits ≢ []) × (are_digits digits ≡ true) × (o ≡ some digits)
is_number_sound none h = cc
is_number_sound (some []) h = cc
is_number_sound (some (c ∷ cs)) h = (c ∷ cs, λ e. cc, h, refl)

is_number-some :
    (digits : Text) → digits ≢ [] → are_digits digits ≡ true → is_number (some digits) ≡ true
is_number-some [] ne h = absurd (ne refl)
is_number-some (c ∷ cs) ne h = h

node_sound :
    (name p : Text)
    → is_numbered_node name p ≡ true
    → (digits : Text) × (digits ≢ []) × All IsDigit digits × (name ≡ p ++ digits)
unfolding is_numbered_node
node_sound name p h =
    let (digits, ne, ds, e) = is_number_sound (strip_prefix p name) h in
    (digits, ne, (are_digits_iff digits).0 ds, strip_prefix_sound p name digits e)

node_complete :
    (name p digits : Text)
    → digits ≢ []
    → All IsDigit digits
    → name ≡ p ++ digits
    → is_numbered_node name p ≡ true
unfolding is_numbered_node
node_complete name p digits ne ds e =
    rw (e, strip_prefix-append p digits) (is_number-some digits ne ((are_digits_iff digits).1 ds))

-- A name is a numbered node exactly if it is the prefix with at least one decimal digit behind it,
-- and nothing but digits.
pub is_numbered_node_iff :
    (name p : Text)
    → (is_numbered_node name p ≡ true)
      ↔ ((digits : Text) × (digits ≢ []) × All IsDigit digits × (name ≡ p ++ digits))
is_numbered_node_iff name p =
    (node_sound name p, λ (digits, ne, ds, e). node_complete name p digits ne ds e)
