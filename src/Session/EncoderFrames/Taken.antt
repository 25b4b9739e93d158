-- ===== src/Session/EncoderFrames/Taken.antt =====
-- The frames of an encoder come in their order, and none is lost on the way.
use hardware_floral_codec.Common.{
  ◌≢◌, true, ℕ, zero, suc, ◌≡◌, refl, ap, subst, ◌∙◌, Bool, false, not, ◌&&◌, Option, none, some,
  List, [], ◌∷◌, ◌++◌, append-nil, All, if◌then◌else◌, if-cases, leb, ◌==◌, length, is_empty, take,
  drop,
}
use hardware_floral_codec.Session.{
  C2Status, c2_ok, c2_blocking, c2_bad_value, c2_bad_state, c2_not_found, c2_no_init, c2_no_memory,
  c2_corrupted, c2_omitted, c2_timed_out, c2_other, Dequeued, dequeued, dequeue_failed,
}
use hardware_floral_codec.Session.EncoderOutput.{
  PendingEncoderFrame, EncoderOutput, mmap_of, Allocation, EncodedFrame, copy_encoder_frame,
}
use hardware_floral_codec.Session.EncoderOutput.Frames.{
  IsSafe, AreSafe, IsCopied, untouched, handed, copy_encoder_frame-IsCopied,
  pump_encoder_capture-AreSafe,
}
use hardware_floral_codec.Session.DecoderCapture.Slots.{All-set}
use hardware_floral_codec.Session.EncoderFrames.{
  EncoderInputSlot, Driver, EncoderQueues, released, input_answered, dequeue_encoder_inputs,
  wait_for_device, Pumped, Frame, no_frame, and_ok, with_inputs, with_output, waited, copied,
  pump_encoder, copy_first, wait_and_copy, dequeue_encoder_frame,
}

empty-nil : {A : Type 0} (xs : List A) → not (is_empty xs) ≡ false → xs ≡ []
empty-nil [] h = refl
empty-nil (x ∷ xs) h = cc

module _ {B G : Type 0} where
  -- A slot that the driver does not hold keeps no image.
  abbrev pub IsReleased : EncoderInputSlot B G → Type 0
  IsReleased x = x.queued ≡ false → (x.owner ≡ none) × (x.converted_block ≡ none)

  pub record IsSound (m : EncoderQueues B G) : Type 0 where
    pub frames : AreSafe m.output
    pub slots : All IsReleased m.encoder_inputs

  -- What a call makes of the frames: more may come behind those that waited, and the first of them
  -- is handed out with its bytes, or none is.
  pub data IsTaken (m m' : EncoderQueues B G) : C2Status → Option EncodedFrame → Type 0 where
    kept :
        {e : C2Status} (more : List PendingEncoderFrame)
        → m.output.encoder_pending ++ more ≡ m'.output.encoder_pending
        → IsTaken m m' e none
    gave :
        (p : PendingEncoderFrame) (more : List PendingEncoderFrame) (block : Option (List ℕ))
        → m.output.encoder_pending ++ more ≡ p ∷ m'.output.encoder_pending
        → IsSafe m'.output.capture_mmaps p
        → block ≡ (
            if p.size == 0
            then none
            else some (take p.size (drop p.data_offset (mmap_of m'.output p.capture_index))))
        → IsTaken m m' c2_ok (some (record { frame = p; block = block }))

module _ {S B G : Type 0} where
  abbrev OnFrame : EncoderQueues B G → Frame S B G → Type 0
  OnFrame m none = Unit
  OnFrame m (some (s, m', e, f)) = IsSound m' × IsTaken m m' e f

  abbrev pub OnPumped : (EncoderQueues B G → Type 0) → Pumped S B G → Type 0
  OnPumped P none = Unit
  OnPumped P (some (s, m, e)) = P m

  pub and_ok-On :
      {X : Type 0} (Q : Option X → Type 0) (P : EncoderQueues B G → Type 0)
      (stop : S → EncoderQueues B G → C2Status → Option X) (r : Pumped S B G)
      (next : S → EncoderQueues B G → Option X)
      → Q none
      → OnPumped P r
      → ((s : S) (m : EncoderQueues B G) (e : C2Status) → P m → e ≢ c2_ok → Q (stop s m e))
      → ((s : S) (m : EncoderQueues B G) → P m → Q (next s m))
      → Q (and_ok stop r next)
  and_ok-On Q P stop none next n h f k = n
  and_ok-On Q P stop (some (s, m, c2_ok)) next n h f k = k s m h
  and_ok-On Q P stop (some (s, m, c2_blocking)) next n h f k = f s m c2_blocking h (λ q. cc)
  and_ok-On Q P stop (some (s, m, c2_bad_value)) next n h f k = f s m c2_bad_value h (λ q. cc)
  and_ok-On Q P stop (some (s, m, c2_bad_state)) next n h f k = f s m c2_bad_state h (λ q. cc)
  and_ok-On Q P stop (some (s, m, c2_not_found)) next n h f k = f s m c2_not_found h (λ q. cc)
  and_ok-On Q P stop (some (s, m, c2_no_init)) next n h f k = f s m c2_no_init h (λ q. cc)
  and_ok-On Q P stop (some (s, m, c2_no_memory)) next n h f k = f s m c2_no_memory h (λ q. cc)
  and_ok-On Q P stop (some (s, m, c2_corrupted)) next n h f k = f s m c2_corrupted h (λ q. cc)
  and_ok-On Q P stop (some (s, m, c2_omitted)) next n h f k = f s m c2_omitted h (λ q. cc)
  and_ok-On Q P stop (some (s, m, c2_timed_out)) next n h f k = f s m c2_timed_out h (λ q. cc)
  and_ok-On Q P stop (some (s, m, (c2_other i))) next n h f k = f s m (c2_other i) h (λ q. cc)

  copied-OnFrame :
      (m m1 : EncoderQueues B G) (more : List PendingEncoderFrame) (p : PendingEncoderFrame)
      (rest : List PendingEncoderFrame) (r : S × EncoderOutput × C2Status × Option EncodedFrame)
      → IsSound m1
      → m.output.encoder_pending ++ more ≡ m1.output.encoder_pending
      → m1.output.encoder_pending ≡ p ∷ rest
      → IsCopied p rest m1.output r
      → OnFrame m (copied m1 r)
  copied-OnFrame m m1 more p rest r h q e untouched = (h, kept more q)
  copied-OnFrame m m1 more p rest r h q e (handed block b) =
      let safe = subst (All (IsSafe m1.output.capture_mmaps)) e h.frames in
      (record { frames = safe.1; slots = h.slots }, gave p more block (q ∙ e) safe.0 b)

module _ {S B G : Type 0} (d : Driver S) (fuel : ℕ) where
  copy-OnFrame :
      (allocate : ℕ → Allocation) (s : S) (m m1 : EncoderQueues B G)
      (more ps : List PendingEncoderFrame)
      → IsSound m1
      → m.output.encoder_pending ++ more ≡ m1.output.encoder_pending
      → m1.output.encoder_pending ≡ ps
      → OnFrame m (copied m1 (copy_encoder_frame d.capture allocate ps s m1.output))
  unfolding copy_encoder_frame
  copy-OnFrame allocate s m m1 more [] h q e = (h, kept more q)
  copy-OnFrame allocate s m m1 more (p ∷ rest) h q e =
      copied-OnFrame m m1 more p rest _ h q e
        (copy_encoder_frame-IsCopied d.capture allocate p rest s m1.output)

  answered-OnPumped :
      (loop : S → List (EncoderInputSlot B G) → Option (S × List (EncoderInputSlot B G) × C2Status))
      (m : EncoderQueues B G) (slots : List (EncoderInputSlot B G)) (r : S × Dequeued)
      → AreSafe m.output
      → All IsReleased slots
      → ((s : S) (xs : List (EncoderInputSlot B G))
          → All IsReleased xs
          → OnPumped IsSound (with_inputs m (loop s xs)))
      → OnPumped IsSound (with_inputs m (input_answered loop slots r))
  answered-OnPumped loop m slots (s, dequeue_failed e) f h k = record { frames = f; slots = h }
  answered-OnPumped loop m slots (s, dequeued b) f h k =
      if-cases
        (λ (r : Option (S × List (EncoderInputSlot B G) × C2Status)).
          OnPumped IsSound (with_inputs m r))
        (leb (length slots) b.index) _ _ (λ out. record { frames = f; slots = h })
        (λ there. k s _ (All-set IsReleased slots b.index released h (λ q. (refl, refl))))

  inputs-OnPumped :
      (n : ℕ) (s : S) (m : EncoderQueues B G) (slots : List (EncoderInputSlot B G))
      → AreSafe m.output
      → All IsReleased slots
      → OnPumped IsSound (with_inputs m (dequeue_encoder_inputs d n s slots))
  unfolding dequeue_encoder_inputs
  inputs-OnPumped zero s m slots f h = tt
  inputs-OnPumped (suc n) s m slots f h =
      answered-OnPumped (dequeue_encoder_inputs d n) m slots (d.dqbuf_input s) f h
        (λ s' xs h'. inputs-OnPumped n s' m xs f h')

  output-OnPumped :
      (m : EncoderQueues B G) (r : Option (S × EncoderOutput × C2Status))
      → All IsReleased m.encoder_inputs
      → ((s' : S) (o' : EncoderOutput) (e : C2Status) → r ≡ some (s', o', e) → AreSafe o')
      → OnPumped IsSound (with_output m r)
  output-OnPumped m none h k = tt
  output-OnPumped m (some (s, o, e)) h k = record { frames = k s o e refl; slots = h }

  pub pump-OnPumped :
      (s : S) (m : EncoderQueues B G) → IsSound m → OnPumped IsSound (pump_encoder d fuel s m)
  unfolding pump_encoder
  pump-OnPumped s m h =
      and_ok-On (OnPumped IsSound) IsSound (λ s1 m1 e. some (s1, m1, e)) _ _ tt
        (inputs-OnPumped fuel s m m.encoder_inputs h.frames h.slots) (λ s1 m1 e h1 bad. h1)
        (λ s1 m1 h1. output-OnPumped m1 _ h1.slots (λ s2 o2 e q.
          pump_encoder_capture-AreSafe d.capture fuel s1 s2 m1.output o2 e h1.frames q))

  pub waited-OnPumped :
      (m : EncoderQueues B G) (r : Option (S × C2Status))
      → IsSound m
      → OnPumped IsSound (waited m r)
  waited-OnPumped m none h = tt
  waited-OnPumped m (some (s, e)) h = h

  -- Where no frame waited at first, those that wait now came later.
  module _ (allocate : ℕ → Allocation) (m : EncoderQueues B G)
      (none_waits : m.output.encoder_pending ≡ []) where
    came_later :
        (m1 : EncoderQueues B G)
        → m.output.encoder_pending ++ m1.output.encoder_pending ≡ m1.output.encoder_pending
    came_later m1 = ap (λ ps. ps ++ m1.output.encoder_pending) none_waits

    stop-OnFrame :
        (s : S) (m1 : EncoderQueues B G) (e : C2Status)
        → IsSound m1
        → e ≢ c2_ok
        → OnFrame m (no_frame s m1 e)
    stop-OnFrame s m1 e h bad = (h, kept m1.output.encoder_pending (came_later m1))

    copy_later-OnFrame :
        (s : S) (m1 : EncoderQueues B G) → IsSound m1 → OnFrame m (copy_first d fuel allocate s m1)
    copy_later-OnFrame s m1 h =
        copy-OnFrame allocate s m m1 m1.output.encoder_pending m1.output.encoder_pending h
          (came_later m1) refl

    wait-OnFrame :
        (s : S) (m1 : EncoderQueues B G)
        → IsSound m1
        → OnFrame m (wait_and_copy d fuel allocate s m1)
    unfolding wait_and_copy
    wait-OnFrame s m1 h =
        and_ok-On (OnFrame m) IsSound no_frame _ _ tt
          (waited-OnPumped m1 (wait_for_device d true 5_000 fuel s) h) stop-OnFrame
          (λ s2 m2 h2.
            and_ok-On (OnFrame m) IsSound no_frame (pump_encoder d fuel s2 m2) _ tt
              (pump-OnPumped s2 m2 h2) stop-OnFrame copy_later-OnFrame)

    pumped-OnFrame :
        (wait : Bool) (s : S)
        → IsSound m
        → OnFrame m (
            and_ok no_frame (pump_encoder d fuel s m) (λ s1 m1.
              if is_empty m1.output.encoder_pending && wait
              then wait_and_copy d fuel allocate s1 m1
              else copy_first d fuel allocate s1 m1))
    pumped-OnFrame wait s h =
        and_ok-On (OnFrame m) IsSound no_frame (pump_encoder d fuel s m) _ tt (pump-OnPumped s m h)
          stop-OnFrame
          (λ s1 m1 h1.
            if-cases (OnFrame m) (is_empty m1.output.encoder_pending && wait) _ _
              (λ w. wait-OnFrame s1 m1 h1) (λ w. copy_later-OnFrame s1 m1 h1))

  dequeue_encoder_frame-OnFrame :
      (monitor_error : ℕ) (allocate : ℕ → Allocation) (wait : Bool) (s : S) (m : EncoderQueues B G)
      → IsSound m
      → OnFrame m (dequeue_encoder_frame d fuel monitor_error allocate wait s m)
  unfolding dequeue_encoder_frame
  dequeue_encoder_frame-OnFrame monitor_error allocate wait s m h =
      let same = append-nil m.output.encoder_pending in
      if-cases (OnFrame m) (not (monitor_error == 0)) _ _ (λ failed. (h, kept [] same))
        (λ fine.
          if-cases (OnFrame m) (not (is_empty m.output.encoder_pending)) _ _
            (λ some_wait. copy-OnFrame allocate s m m [] m.output.encoder_pending h same refl)
            (λ none_wait.
              let none_waits = empty-nil m.output.encoder_pending none_wait in
              if-cases (OnFrame m) (not m.output.encoder_configured) _ _
                (λ not_configured. (h, kept [] same))
                (λ configured. pumped-OnFrame allocate m none_waits wait s h)))

  -- If each frame that waits lies within its capture buffer and has bytes or ends the stream, and
  -- no slot that the driver does not hold keeps an image, that is so after DequeueEncoderFrame
  -- too, however it ends. More frames may come behind those that waited; of all these it hands out
  -- the first, with the bytes that its capture buffer has and C2_OK, and the others wait, or it
  -- hands out none and all of them wait.
  pub dequeue_encoder_frame-IsTaken :
      (monitor_error : ℕ) (allocate : ℕ → Allocation) (wait : Bool) (s s' : S)
      (m m' : EncoderQueues B G) (e : C2Status) (f : Option EncodedFrame)
      → IsSound m
      → dequeue_encoder_frame d fuel monitor_error allocate wait s m ≡ some (s', m', e, f)
      → IsSound m' × IsTaken m m' e f
  dequeue_encoder_frame-IsTaken monitor_error allocate wait s s' m m' e f h q =
      subst (OnFrame m) q (dequeue_encoder_frame-OnFrame monitor_error allocate wait s m h)
