-- ===== src/Common/Bits.antt =====
-- Masks of a byte: each is a remainder, or a constant, as a run over all bytes shows.
use Prim.Native.Nat.{ℕ, zero, suc, ◌+◌, ◌%◌, ◌<◌, bit_and}
use mathlib.Core.Path.{◌≡◌, refl}
use mathlib.Core.Logic.{inl, inr}
use mathlib.Core.Bool.{Bool, true, false}
use native.Mathlib.Omega.{arith}
use hardware_floral_codec.Common.Tests.{◌==◌, ==_iff, Bool-cases, if◌then◌else◌}

-- Two functions agree on the numbers below a bound.
unfoldable pub agree : (f g : ℕ → ℕ) → ℕ → Bool
agree f g zero = true
agree f g (suc bound) = let below = agree f g bound in if f bound == g bound then below else false

pub agree_lem : (f g : ℕ → ℕ) (bound : ℕ) → agree f g bound ≡ true → (x : ℕ) → x < bound → f x ≡ g x
unfolding agree
agree_lem f g zero run x h = absurd (omega arith)
agree_lem f g (suc bound) run x h = elim (Bool-cases (f bound == g bound)) [
  | inl same ↦ elim (Bool-cases (x == bound)) [
    | inl here ↦ rw ((==_iff x bound).0 here) ((==_iff (f bound) (g bound)).0 same)
    | inr below ↦ agree_lem f g bound (rw same at run) x (ground arith)
  ]
  | inr differ ↦ cc (rw differ at run)
]

low_two_run : agree (λ x. bit_and x 3) (λ x. x % 4) 256 ≡ true
unfolding agree
low_two_run = refl

-- The low two bits of a byte.
pub bit_and_three : (x : ℕ) → x < 256 → bit_and x 3 ≡ x % 4
bit_and_three = agree_lem (λ x. bit_and x 3) (λ x. x % 4) 256 low_two_run

low_five_run : agree (λ x. bit_and x 0x1f) (λ x. x % 32) 256 ≡ true
unfolding agree
low_five_run = refl

-- The low five bits of a byte.
pub bit_and_low_five : (x : ℕ) → x < 256 → bit_and x 0x1f ≡ x % 32
bit_and_low_five = agree_lem (λ x. bit_and x 0x1f) (λ x. x % 32) 256 low_five_run

high_six_run : agree (λ x. bit_and (252 + x) 0xfc) (λ x. 252) 4 ≡ true
unfolding agree
high_six_run = refl

-- Six set bits above any two.
pub bit_and_high_six : (x : ℕ) → x < 4 → bit_and (252 + x) 0xfc ≡ 252
bit_and_high_six = agree_lem (λ x. bit_and (252 + x) 0xfc) (λ x. 252) 4 high_six_run
