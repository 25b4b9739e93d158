-- ===== src/H264Level/Least.antt =====
-- The level that is found covers the stream, and none below it in the table does.
use hardware_floral_codec.Common.{
  ℕ, ◌+◌, ◌-◌, ◌*◌, ◌/◌, ◌%◌, ◌^◌, ◌≤◌, ◌<◌, ◌≡◌, inl, inr, subst, max, Bool, true, Option, none,
  some, List, [], ◌∷◌, All, arith, Bool-cases, leb, ◌&&◌,
}
use hardware_floral_codec.H264Level.{
  H264Profile, high, baseline, main, constrained_baseline, H264Level, level_value, LevelLimit,
  level_limits, bitrate_scale, macroblocks, within_limit, first_level, find_minimum_h264_level,
}
use native.Mathlib.Nat.{le_trans}

-- A picture side in macroblocks, rounded up.
abbrev pub blocks : ℕ → ℕ
blocks side = (side + 15) / 16

-- What a limit of the standard says of a stream, in unbounded numbers.
pub record Covers (width height frame_rate bitrate : ℕ) (profile : H264Profile) (l : LevelLimit)
    : Type 0 where
  pub rate : blocks width * blocks height * frame_rate ≤ l.macroblocks_per_second
  pub frame : blocks width * blocks height ≤ l.macroblocks_per_frame
  pub wide : blocks width ≤ l.maximum_dimension_in_macroblocks
  pub high_enough : blocks height ≤ l.maximum_dimension_in_macroblocks
  pub bits : bitrate ≤ l.baseline_bitrate_kbps * bitrate_scale profile

-- A limit of the table: it is one of those of the standard, far from the bounds of uint64_t.
abbrev IsSmall : LevelLimit → Type 0
IsSmall l = (l.macroblocks_per_second < 2 ^ 32) × (l.macroblocks_per_frame < 2 ^ 32)

kbps_of : ℕ → H264Profile → ℕ
kbps_of bitrate profile = (bitrate + bitrate_scale profile - 1) / bitrate_scale profile

kbps_le : (b k : ℕ) (p : H264Profile) → kbps_of b p ≤ k → b ≤ k * bitrate_scale p
unfolding kbps_of bitrate_scale
kbps_le b k high h = omega arith
kbps_le b k baseline h = omega arith
kbps_le b k constrained_baseline h = omega arith
kbps_le b k main h = omega arith

le_kbps : (b k : ℕ) (p : H264Profile) → b ≤ k * bitrate_scale p → kbps_of b p ≤ k
unfolding kbps_of bitrate_scale
le_kbps b k high h = omega arith
le_kbps b k baseline h = omega arith
le_kbps b k constrained_baseline h = omega arith
le_kbps b k main h = omega arith

-- The first entry of a table that covers the stream, or that there is none.
pub data Found (P : LevelLimit → Type 0) : List LevelLimit → Option H264Level → Type 0 where
  here : {l : LevelLimit} {ls : List LevelLimit} → P l → Found P (l ∷ ls) (some l.level)
  later :
      {l : LevelLimit} {ls : List LevelLimit} {r : Option H264Level}
      → ¬ P l
      → Found P ls r
      → Found P (l ∷ ls) r
  nowhere : Found P [] none

-- The test in unbounded numbers, over the picture in macroblocks.
abbrev Within : LevelLimit → ℕ → ℕ → ℕ → ℕ → Type 0
Within l w h f k =
    (w * h * f ≤ l.macroblocks_per_second)
    × (w * h ≤ l.macroblocks_per_frame)
    × (w ≤ l.maximum_dimension_in_macroblocks)
    × (h ≤ l.maximum_dimension_in_macroblocks)
    × (k ≤ l.baseline_bitrate_kbps)

small_product : (p q : ℕ) → p < 2 ^ 32 → q < 2 ^ 32 → p * q % 2 ^ 64 ≡ p * q
small_product p q hp hq = grind arith

module _ (l : LevelLimit) (w h f k : ℕ) (s : IsSmall l) (hw : w < 2 ^ 28) (hh : h < 2 ^ 28)
    (hf : f < 2 ^ 32) where
  product : w * h % 2 ^ 64 ≡ w * h
  product = grind arith

  rate_product : w * h < 2 ^ 32 → w * h * f % 2 ^ 64 ≡ w * h * f
  rate_product b = small_product (w * h) f b hf

  -- Where a frame fits the limit, nothing wraps.
  Within-sound : within_limit l w h f k ≡ true → Within l w h f k
  unfolding within_limit
  Within-sound t =
      let t' : (leb (w * h * f % 2 ^ 64) l.macroblocks_per_second
            && (leb (w * h) l.macroblocks_per_frame
                && (leb (max w h) l.maximum_dimension_in_macroblocks
                    && leb k l.baseline_bitrate_kbps)))
          ≡ true =
        rw product at t in
      (
        ground (arith, rate_product (ground arith)),
        ground arith,
        ground arith,
        ground arith,
        ground arith,
      )

  Within-complete : Within l w h f k → within_limit l w h f k ≡ true
  unfolding within_limit
  Within-complete c = rw product (rw (rate_product (omega arith)) (ground arith))

module _ (width height frame_rate bitrate : ℕ) (profile : H264Profile) (hw : width + 15 < 2 ^ 32)
    (hh : height + 15 < 2 ^ 32) (hf : frame_rate < 2 ^ 32) where
  abbrev test : LevelLimit → Bool
  test l =
      within_limit l (macroblocks width) (macroblocks height) frame_rate (kbps_of bitrate profile)

  wide_blocks : macroblocks width ≡ blocks width
  unfolding macroblocks
  wide_blocks = omega arith

  high_blocks : macroblocks height ≡ blocks height
  unfolding macroblocks
  high_blocks = omega arith

  test_sound :
      (l : LevelLimit)
      → IsSmall l
      → test l ≡ true
      → Covers width height frame_rate bitrate profile l
  test_sound l s t =
      let (r, f, w, h, k) =
        Within-sound l (blocks width) (blocks height) frame_rate (kbps_of bitrate profile) s
          (omega arith) (omega arith) hf (rw (wide_blocks, high_blocks) at t) in
      record { rate = r; frame = f; wide = w; high_enough = h; bits = kbps_le bitrate _ profile k }

  test_complete :
      (l : LevelLimit)
      → IsSmall l
      → Covers width height frame_rate bitrate profile l
      → test l ≡ true
  test_complete l s c =
      rw (wide_blocks, high_blocks)
        (Within-complete l (blocks width) (blocks height) frame_rate (kbps_of bitrate profile) s
          (omega arith) (omega arith) hf
          (c.rate, c.frame, c.wide, c.high_enough, le_kbps bitrate _ profile c.bits))

  -- A walk over a table: the entry that is found covers the stream, and none before it does.
  first_level_lem :
      (ls : List LevelLimit)
      → All IsSmall ls
      → Found (Covers width height frame_rate bitrate profile) ls (
          first_level ls
            (macroblocks width)
            (macroblocks height)
            frame_rate
            (kbps_of bitrate profile))
  unfolding first_level
  first_level_lem [] s = nowhere
  first_level_lem (l ∷ ls) s = elim (Bool-cases (test l)) [
    | inl t ↦ rw (t, first_level) (here (test_sound l s.0 t))
    | inr t ↦
        rw (t, first_level) (later (λ c. cc (test_complete l s.0 c, t)) (first_level_lem ls s.1))
  ]

level_limits-IsSmall : All IsSmall level_limits
unfolding level_limits
level_limits-IsSmall = omega arith

-- For a stream with no zero parameter, sides that stay below 2^32 with 15 added and a frame rate
-- below 2^32, the result is the first level of the table whose limits cover it in unbounded
-- numbers, and nothing where none does.
pub find_minimum_h264_level-Found :
    (width height frame_rate bitrate : ℕ) (profile : H264Profile)
    → 0 < width
    → 0 < height
    → 0 < frame_rate
    → 0 < bitrate
    → width + 15 < 2 ^ 32
    → height + 15 < 2 ^ 32
    → frame_rate < 2 ^ 32
    → Found
        (Covers width height frame_rate bitrate profile)
        level_limits
        (find_minimum_h264_level width height frame_rate bitrate profile)
unfolding find_minimum_h264_level kbps_of
find_minimum_h264_level-Found width height frame_rate bitrate profile pw ph pf pb hw hh hf =
    subst (Found (Covers width height frame_rate bitrate profile) level_limits) (ground arith) (
      first_level_lem width height frame_rate bitrate profile hw hh hf level_limits
        level_limits-IsSmall)

-- The table ascends.
abbrev Ascending : List LevelLimit → Type 0
Ascending [] = Unit {0}
Ascending (l ∷ ls) = All (λ m. level_value l.level ≤ level_value m.level) ls × Ascending ls

level_limits-Ascending : Ascending level_limits
unfolding level_limits level_value
level_limits-Ascending = omega arith

-- A level that is not above another, where there is another.
abbrev pub NotAbove : Option H264Level → Option H264Level → Type 0
NotAbove r none = Unit {0}
NotAbove none (some a) = ⊥
NotAbove (some b) (some a) = level_value b ≤ level_value a

module _ {P : LevelLimit → Type 0} where
  Found-above :
      {r : Option H264Level} (n : H264Level) (ls : List LevelLimit)
      → All (λ m. level_value n ≤ level_value m.level) ls
      → Found P ls r
      → NotAbove (some n) r
  Found-above n ls a nowhere = tt
  Found-above n ls a (here p) = a.0
  Found-above n ls a (later np f) = Found-above n _ a.1 f

module _ {P Q : LevelLimit → Type 0} where
  Found-NotAbove :
      {r s : Option H264Level} (ls : List LevelLimit)
      → Ascending ls
      → ((l : LevelLimit) → P l → Q l)
      → Found P ls r
      → Found Q ls s
      → NotAbove s r
  Found-NotAbove ls a imp nowhere g = tt
  Found-NotAbove ls a imp (here p) (here q) = omega arith
  Found-NotAbove ls a imp (here p) (later nq g) = absurd (nq (imp _ p))
  Found-NotAbove ls a imp (later np f) (here q) = Found-above _ _ a.0 f
  Found-NotAbove ls a imp (later np f) (later nq g) = Found-NotAbove _ a.1 imp f g

mul_mono : {a b c d : ℕ} → a ≤ b → c ≤ d → a * c ≤ b * d
mul_mono p q = grind arith

mul_mono_three : {a b c d e f : ℕ} → a ≤ b → c ≤ d → e ≤ f → a * c * e ≤ b * d * f
mul_mono_three {a} {b} {c} {d} p q r =
    mul_mono {a = a * c} {b = b * d} (mul_mono {a = a} {b = b} p q) r

-- Of two streams with no zero parameter, sides that stay below 2^32 with 15 added and frame rates
-- below 2^32, one that asks for no more in every respect never gets a higher level, and gets one
-- where the other does.
pub find_minimum_h264_level_mono :
    (w h f b w' h' f' b' : ℕ) (profile : H264Profile)
    → (0 < w') × (w' ≤ w) × (w + 15 < 2 ^ 32)
    → (0 < h') × (h' ≤ h) × (h + 15 < 2 ^ 32)
    → (0 < f') × (f' ≤ f) × (f < 2 ^ 32)
    → (0 < b') × (b' ≤ b)
    → NotAbove
        (find_minimum_h264_level w' h' f' b' profile)
        (find_minimum_h264_level w h f b profile)
find_minimum_h264_level_mono w h f b w' h' f' b' profile hw hh hf hb =
    Found-NotAbove level_limits level_limits-Ascending less
      (find_minimum_h264_level-Found w h f b profile (omega arith) (omega arith) (omega arith)
        (omega arith) (omega arith) (omega arith) (omega arith))
      (find_minimum_h264_level-Found w' h' f' b' profile (omega arith) (omega arith) (omega arith)
        (omega arith) (omega arith) (omega arith) (omega arith))
  where
    less : (l : LevelLimit) → Covers w h f b profile l → Covers w' h' f' b' profile l
    less l c = record {
      rate = le_trans (mul_mono_three (omega arith) (omega arith) (omega arith)) c.rate;
      frame = le_trans (mul_mono (omega arith) (omega arith)) c.frame;
      wide = omega arith;
      high_enough = omega arith;
      bits = omega arith;
    }
