-- ===== src/EncoderMetadata/Laws.antt =====
-- Which timestamps are accepted, and which frame a timestamp takes.
use hardware_floral_codec.Common.{
  ℕ, ◌+◌, ◌*◌, ◌/◌, ◌%◌, ◌^◌, ◌≤◌, ◌<◌, ◌≡◌, ◌≢◌, ◌↔◌, inl, inr, true, false, none, some, List, [],
  ◌∷◌, ◌++◌, All, arith, Bool-cases, Option-cases,
}
use hardware_floral_codec.Common.Int.{pos, eq_of_==ℤ, ==ℤ_refl}
use hardware_floral_codec.EncoderMetadata.{
  Timeval, timeval, FrameMetadata, metadata, int64_max, make_encoder_timestamp, same_timestamp,
  take_encoder_frame_index, frame_index_to_timestamp, timestamp_to_frame_index,
}

-- A timestamp in nanoseconds fits the signed 64 bits of the driver, and is the time in
-- microseconds that was given.
pub record IsExact (us : ℕ) (t : Timeval) : Type 0 where
  pub sec : ℕ
  pub usec : ℕ
  pub parts : t ≡ timeval (pos sec) (pos usec)
  pub value : sec * 1_000_000 + usec ≡ us
  pub below : usec < 1_000_000
  pub fits : sec * 1_000_000_000 + usec * 1_000 ≤ int64_max

-- An accepted time is split into seconds and microseconds with no loss, and its nanoseconds fit a
-- signed 64-bit integer.
pub make_encoder_timestamp-IsExact :
    (us : ℕ) (t : Timeval) → make_encoder_timestamp (pos us) ≡ some t → IsExact us t
unfolding make_encoder_timestamp
make_encoder_timestamp-IsExact us t h = record {
  sec = us / 1_000_000;
  usec = us % 1_000_000;
  parts = ground arith;
  value = omega arith;
  below = omega arith;
  fits = ground arith;
}

-- A time that is not negative is accepted exactly if its nanoseconds fit a signed 64-bit integer.
pub make_encoder_timestamp_iff :
    (us : ℕ) → (make_encoder_timestamp (pos us) ≢ none) ↔ (us * 1_000 ≤ int64_max)
unfolding make_encoder_timestamp
make_encoder_timestamp_iff us = (λ h. ground arith, λ h e. ground arith)

-- The frames before the one that is taken have other timestamps, and it is gone afterwards.
pub record Taken (frames : List FrameMetadata) (t : Timeval) (i : ℕ) (rest : List FrameMetadata)
    : Type 0 where
  pub before : List FrameMetadata
  pub after : List FrameMetadata
  pub frames_were : frames ≡ before ++ metadata t i ∷ after
  pub rest_is : rest ≡ before ++ after
  pub others : All (λ f. f.timestamp ≢ t) before

same_timestamp-eq : (a b : Timeval) → same_timestamp a b ≡ true → a ≡ b
unfolding same_timestamp
same_timestamp-eq a b h = ground (arith, eq_of_==ℤ a.tv_sec b.tv_sec, eq_of_==ℤ a.tv_usec b.tv_usec)

same_timestamp_refl : (a : Timeval) → same_timestamp a a ≡ true
unfolding same_timestamp
same_timestamp_refl a = rw (==ℤ_refl a.tv_sec, ==ℤ_refl a.tv_usec)

ne_of_same : (a b : Timeval) → same_timestamp a b ≡ false → a ≢ b
ne_of_same a b h e = cc (rw e at h, same_timestamp_refl b)

-- A timestamp takes the first frame queued under it, and the other frames stay in their order.
pub take_encoder_frame_index-Taken :
    (frames : List FrameMetadata) (t : Timeval) (i : ℕ) (rest : List FrameMetadata)
    → take_encoder_frame_index frames t ≡ some (i, rest)
    → Taken frames t i rest
unfolding take_encoder_frame_index
take_encoder_frame_index-Taken [] t i rest h = cc
take_encoder_frame_index-Taken (f ∷ frames) t i rest h =
    elim (Bool-cases (same_timestamp f.timestamp t)) [
      | inl s ↦ record {
        before = [];
        after = frames;
        frames_were = ground (arith, same_timestamp-eq f.timestamp t s);
        rest_is = ground arith;
        others = tt;
      }
      | inr s ↦ elim (Option-cases (take_encoder_frame_index frames t)) [
        | inl q ↦ absurd (ground arith)
        | inr ((j, r), q) ↦
            let ih = take_encoder_frame_index-Taken frames t j r q in
            record {
              before = f ∷ ih.before;
              after = ih.after;
              frames_were = ground (arith, ih.frames_were);
              rest_is = ground (arith, ih.rest_is);
              others = (ne_of_same f.timestamp t s, ih.others);
            }
      ]
    ]

-- Where no frame is taken, none of the frames has the timestamp.
pub take_encoder_frame_index-none :
    (frames : List FrameMetadata) (t : Timeval)
    → take_encoder_frame_index frames t ≡ none
    → All (λ f. f.timestamp ≢ t) frames
unfolding take_encoder_frame_index
take_encoder_frame_index-none [] t h = tt
take_encoder_frame_index-none (f ∷ frames) t h = elim (Bool-cases (same_timestamp f.timestamp t)) [
  | inl s ↦ absurd (ground arith)
  | inr s ↦ (ne_of_same f.timestamp t s, take_encoder_frame_index-none frames t (ground arith))
]

-- A frame index below 2^64 comes back from its timestamp unchanged.
pub timestamp_to_frame_index-frame_index_to_timestamp :
    (i : ℕ) → i < 2 ^ 64 → timestamp_to_frame_index (frame_index_to_timestamp i) ≡ i
unfolding timestamp_to_frame_index frame_index_to_timestamp
timestamp_to_frame_index-frame_index_to_timestamp i h = omega arith
