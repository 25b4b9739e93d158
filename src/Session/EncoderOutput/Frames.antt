-- ===== src/Session/EncoderOutput/Frames.antt =====
-- No encoded frame is lost, and none is read outside its capture buffer.
use hardware_floral_codec.Common.{
  ℕ, zero, suc, ◌+◌, ◌-◌, ◌≤◌, ◌<◌, ◌≡◌, ◌≢◌, ◌⊎◌, inl, inr, refl, subst, false, ◌||◌, Option, none,
  some, List, [], ◌∷◌, ◌++◌, All, arith, Bool-cases, ltb, leb, ◌==◌, if◌then◌else◌, length, get_or,
  take, drop,
}
use hardware_floral_codec.EncoderMetadata.{FrameMetadata, take_encoder_frame_index}
use hardware_floral_codec.Session.{C2Status, c2_ok, Buffer, Dequeued, dequeued, dequeue_failed}
use hardware_floral_codec.Session.EncoderOutput.{
  PendingEncoderFrame, EncoderOutput, Driver, Handled, corrupted, kept, requeued, mmap_of,
  pending_of, keep_taken, handle_buffer, Allocation, no_pool, refused, mapped, EncodedFrame, Filled,
  filled, not_filled, fill_block, pump_encoder_capture, hand_out, copy_encoder_frame,
}

-- A frame that waits lies within its capture buffer, and has bytes or ends the stream.
pub record IsSafe (mmaps : List (List ℕ)) (p : PendingEncoderFrame) : Type 0 where
  pub in_buffer :
      p.size ≢ 0
      → (p.capture_index < length mmaps)
        × (p.data_offset + p.size ≤ length (get_or mmaps p.capture_index []))
  pub has_use : p.end_of_stream ≡ false → p.size ≢ 0

abbrev pub AreSafe : EncoderOutput → Type 0
AreSafe o = All (IsSafe o.capture_mmaps) o.encoder_pending

AreSafeKept : EncoderOutput → Handled → Type 0
AreSafeKept o corrupted = Unit {0}
AreSafeKept o (kept o') = AreSafe o'
AreSafeKept o requeued = Unit {0}

snoc-IsSafe :
    (mmaps : List (List ℕ)) (ps : List PendingEncoderFrame) (p : PendingEncoderFrame)
    → All (IsSafe mmaps) ps
    → IsSafe mmaps p
    → All (IsSafe mmaps) (ps ++ (p ∷ []))
snoc-IsSafe mmaps [] p h q = (q, tt)
snoc-IsSafe mmaps (x ∷ ps) p h q = (h.0, snoc-IsSafe mmaps ps p h.1 q)

keep_taken-AreSafeKept :
    (b : Buffer) (o : EncoderOutput) (r : Option (ℕ × List FrameMetadata))
    → AreSafe o
    → ((i : ℕ) → IsSafe o.capture_mmaps (pending_of b i))
    → AreSafeKept o (keep_taken b o r)
unfolding AreSafeKept
keep_taken-AreSafeKept b o none h q = tt
keep_taken-AreSafeKept b o (some (i, rest)) h q =
    snoc-IsSafe o.capture_mmaps o.encoder_pending (pending_of b i) h (q i)

handle_buffer-AreSafeKept :
    (b : Buffer) (o : EncoderOutput) → AreSafe o → AreSafeKept o (handle_buffer b o)
unfolding handle_buffer AreSafeKept
handle_buffer-AreSafeKept b o h =
    elim (Bool-cases (
      leb (length o.capture_mmaps) b.index
      || (ltb (length (mmap_of o b.index)) b.bytesused || ltb b.bytesused b.data_offset))) [
        | inl bad ↦ rw bad tt
        | inr good ↦ elim (Bool-cases (b.bytesused - b.data_offset == 0)) [
          | inr bytes ↦
              rw (good, bytes)
                (keep_taken-AreSafeKept b o
                  (take_encoder_frame_index o.encoder_frame_metadata b.timestamp) h
                  (λ i. record {
                    in_buffer = λ ne. (ground arith, ground arith);
                    has_use = λ e. ground arith;
                  }))
          | inl empty ↦ elim (Bool-cases b.last) [
            | inr more ↦ rw (good, empty, more) tt
            | inl last ↦
                rw (good, empty, last)
                  (snoc-IsSafe o.capture_mmaps o.encoder_pending _ h
                    (record { in_buffer = λ ne. absurd (ground arith); has_use = λ e. cc }))
          ]
        ]
      ]

-- How copying a frame ends: nothing has changed, or the frame is handed out with its bytes and the
-- others wait.
pub data IsCopied {S : Type 0} (p : PendingEncoderFrame) (rest : List PendingEncoderFrame)
    (o : EncoderOutput) : S × EncoderOutput × C2Status × Option EncodedFrame → Type 0 where
  untouched : {s : S} {e : C2Status} → IsCopied p rest o (s, o, e, none)
  handed :
      {s : S} (block : Option (List ℕ))
      → block ≡ (
          if p.size == 0
          then none
          else some (take p.size (drop p.data_offset (mmap_of o p.capture_index))))
      → IsCopied p rest o (
        s,
        record o { encoder_pending = rest },
        c2_ok,
        some (record { frame = p; block = block }),
      )

filled-injective : {a b : Option (List ℕ)} → filled a ≡ filled b → b ≡ a
filled-injective e = cc

pub Dequeued-cases :
    (r : Dequeued) → ((e : ℕ) × (r ≡ dequeue_failed e)) ⊎ ((b : Buffer) × (r ≡ dequeued b))
Dequeued-cases (dequeue_failed e) = inl (e, refl)
Dequeued-cases (dequeued b) = inr (b, refl)

pub Handled-cases :
    (h : Handled) → (h ≡ corrupted) ⊎ (((o : EncoderOutput) × (h ≡ kept o)) ⊎ (h ≡ requeued))
Handled-cases corrupted = inl refl
Handled-cases (kept o) = inr (inl (o, refl))
Handled-cases requeued = inr (inr refl)

pub output_eq :
    {S : Type 0} {s s' : S} {o o' : EncoderOutput} {e e' : C2Status}
    → ◌≡◌ {A = Option (S × EncoderOutput × C2Status)} (some (s, o, e)) (some (s', o', e'))
    → o ≡ o'
output_eq h = cc

fill_block-payload :
    (o : EncoderOutput) (p : PendingEncoderFrame) (a : Allocation) (block : Option (List ℕ))
    → fill_block o p a ≡ filled block
    → block ≡ (
        if p.size == 0
        then none
        else some (take p.size (drop p.data_offset (mmap_of o p.capture_index))))
unfolding fill_block
fill_block-payload o p no_pool block h = elim (Bool-cases (p.size == 0)) [
  | inl z ↦ rw z (filled-injective (rw z at h))
  | inr n ↦ cc (rw n at h)
]
fill_block-payload o p (refused e) block h = elim (Bool-cases (p.size == 0)) [
  | inl z ↦ rw z (filled-injective (rw z at h))
  | inr n ↦ cc (rw n at h)
]
fill_block-payload o p (mapped capacity) block h = elim (Bool-cases (p.size == 0)) [
  | inl z ↦ rw z (filled-injective (rw z at h))
  | inr n ↦ elim (Bool-cases (ltb capacity p.size)) [
    | inl small ↦ cc (rw (n, small) at h)
    | inr fits ↦ rw n (filled-injective (rw (n, fits) at h))
  ]
]

module _ {S : Type 0} (d : Driver S) where
  hand_out-IsCopied :
      (p : PendingEncoderFrame) (rest : List PendingEncoderFrame) (f : Filled) (s : S)
      (o : EncoderOutput)
      → ((block : Option (List ℕ))
          → f ≡ filled block
          → block ≡ (
              if p.size == 0
              then none
              else some (take p.size (drop p.data_offset (mmap_of o p.capture_index)))))
      → IsCopied p rest o (hand_out d p rest f s o)
  unfolding hand_out
  hand_out-IsCopied p rest (not_filled e) s o h = untouched
  hand_out-IsCopied p rest (filled block) s o h = elim (Bool-cases p.end_of_stream) [
    | inl last ↦ rw last (handed block (h block refl))
    | inr more ↦ elim (Bool-cases (d.qbuf p.capture_index s).1) [
      | inl queued ↦ rw (more, queued) (handed block (h block refl))
      | inr failed ↦ rw (more, failed) untouched
    ]
  ]

  -- Where a frame waits, CopyEncoderFrame either leaves every encoded frame in place and hands
  -- nothing out, or it hands out the first one with its bytes from the capture buffer, and the
  -- others wait.
  pub copy_encoder_frame-IsCopied :
      (allocate : ℕ → Allocation) (p : PendingEncoderFrame) (rest : List PendingEncoderFrame)
      (s : S) (o : EncoderOutput)
      → IsCopied p rest o (copy_encoder_frame d allocate (p ∷ rest) s o)
  unfolding copy_encoder_frame
  copy_encoder_frame-IsCopied allocate p rest s o =
      hand_out-IsCopied p rest (fill_block o p (allocate p.size)) s o
        (fill_block-payload o p (allocate p.size))

  -- If each frame that waits lies within its capture buffer and has bytes or ends the stream, that
  -- is so after PumpEncoderCapture too, whatever the driver gives and however the loop ends.
  pub pump_encoder_capture-AreSafe :
      (fuel : ℕ) (s s' : S) (o o' : EncoderOutput) (e : C2Status)
      → AreSafe o
      → pump_encoder_capture d fuel s o ≡ some (s', o', e)
      → AreSafe o'
  unfolding pump_encoder_capture
  pump_encoder_capture-AreSafe zero s s' o o' e h q = cc
  pump_encoder_capture-AreSafe (suc fuel) s s' o o' e h q = elim (Dequeued-cases (d.dqbuf s).1) [
    | inl (n, r) ↦ subst AreSafe (output_eq (rw (r, pump_encoder_capture) at q)) h
    | inr (b, r) ↦ elim (Handled-cases (handle_buffer b o)) [
      | inl bad ↦ subst AreSafe (output_eq (rw (r, bad, pump_encoder_capture) at q)) h
      | inr (inl (o1, keeps)) ↦
          pump_encoder_capture-AreSafe fuel _ s' o1 o' e
            (unfold AreSafeKept in (subst (AreSafeKept o) keeps (handle_buffer-AreSafeKept b o h)))
            (rw (r, keeps, pump_encoder_capture) at q)
      | inr (inr again) ↦ elim (Bool-cases (d.qbuf b.index (d.dqbuf s).0).1) [
        | inl queued ↦
            pump_encoder_capture-AreSafe fuel _ s' o o' e h
              (rw (r, again, queued, pump_encoder_capture) at q)
        | inr failed ↦
            subst AreSafe (output_eq (rw (r, again, failed, pump_encoder_capture) at q)) h
      ]
    ]
  ]
