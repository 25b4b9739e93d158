-- ===== src/Session/EncoderFrames/Settled.antt =====
-- An encoder whose device has a bounded series of answers: its calls end.
use hardware_floral_codec.Common.{
  ℕ, zero, suc, ◌≤◌, ◌<◌, ◌≡◌, ◌≢◌, inl, inr, Bool, true, not, ◌&&◌, Option, none, some, List, leb,
  ◌==◌, length, arith, Bool-cases, if-cases, is_empty,
}
use hardware_floral_codec.Session.{
  C2Status, c2_ok, c2_blocking, c2_bad_value, c2_bad_state, c2_not_found, c2_no_init, c2_no_memory,
  c2_corrupted, c2_omitted, c2_timed_out, c2_other, Buffer, Dequeued, dequeued, dequeue_failed,
}
use hardware_floral_codec.Session.EncoderOutput.{
  EncoderOutput, handle_buffer, pump_encoder_capture, Allocation,
}
use hardware_floral_codec.Session.EncoderOutput.Frames.{Dequeued-cases, Handled-cases}
use hardware_floral_codec.Session.EncoderFrames.{
  EncoderInputSlot, Driver, Polled, nothing, ready, interrupted, poll_failed, EncoderQueues,
  input_answered, dequeue_encoder_inputs, polled, wait_for_device, and_ok, with_inputs, with_output,
  waited, pump_encoder, wait_and_copy, no_frame, dequeue_encoder_frame, Pumped, has_all_frames,
  is_full, no_room, find_room,
}

module _ {S : Type 0} (work : S → ℕ) where
  -- A buffer is one answer less; a failed call brings none.
  abbrev pub OnDequeued : ℕ → S × Dequeued → Type 0
  OnDequeued n (s, dequeued b) = work s < n
  OnDequeued n (s, dequeue_failed e) = work s ≤ n

  -- An interrupt is one answer less.
  abbrev pub OnPolled : ℕ → S × Polled → Type 0
  OnPolled n (s, interrupted) = work s < n
  OnPolled n (s, nothing) = work s ≤ n
  OnPolled n (s, ready) = work s ≤ n
  OnPolled n (s, poll_failed) = work s ≤ n

  -- `work` bounds the answers that a device still gives to an encoder that queues no more images.
  pub record Settles (d : Driver S) : Type 0 where
    pub dqbuf : (s : S) → OnDequeued (work s) (d.capture.dqbuf s)
    pub qbuf : (index : ℕ) (s : S) → work (d.capture.qbuf index s).0 ≤ work s
    pub dqbuf_input : (s : S) → OnDequeued (work s) (d.dqbuf_input s)
    pub poll : (out : Bool) (timeout : ℕ) (s : S) → OnPolled (work s) (d.poll out timeout s)

  -- A loop has ended, with no more than the given number of answers left.
  abbrev Within : {Y : Type 0} → ℕ → Option (S × Y × C2Status) → Type 0
  Within n none = ⊥
  Within n (some (s, y, e)) = work s ≤ n

  Within-mono :
      {Y : Type 0} (m n : ℕ) (r : Option (S × Y × C2Status)) → m ≤ n → Within m r → Within n r
  Within-mono m n none h w = w
  Within-mono m n (some (s, y, e)) h w = omega (arith, h, w)

  abbrev WithinWait : ℕ → Option (S × C2Status) → Type 0
  WithinWait n none = ⊥
  WithinWait n (some (s, e)) = work s ≤ n

  WithinWait-mono : (m n : ℕ) (r : Option (S × C2Status)) → m ≤ n → WithinWait m r → WithinWait n r
  WithinWait-mono m n none h w = w
  WithinWait-mono m n (some (s, e)) h w = omega (arith, h, w)

  -- An end, whatever it is.
  abbrev pub Returns : {X : Type 0} → Option X → Type 0
  Returns r = r ≢ none

  OnDequeued-failed :
      (n e : ℕ) (r : S × Dequeued) → r.1 ≡ dequeue_failed e → OnDequeued n r → work r.0 ≤ n
  OnDequeued-failed n e (s, dequeued b) q h = cc
  OnDequeued-failed n e (s, dequeue_failed e') q h = h

  OnDequeued-given :
      (n : ℕ) (b : Buffer) (r : S × Dequeued) → r.1 ≡ dequeued b → OnDequeued n r → work r.0 < n
  OnDequeued-given n b (s, dequeued b') q h = h
  OnDequeued-given n b (s, dequeue_failed e) q h = cc

  module _ (d : Driver S) (settles : Settles d) where
    input_answered-Within :
        {B G : Type 0} (n : ℕ)
        (loop : S
          → List (EncoderInputSlot B G)
          → Option (S × List (EncoderInputSlot B G) × C2Status))
        (slots : List (EncoderInputSlot B G)) (r : S × Dequeued)
        → OnDequeued n r
        → ((s : S) (slots : List (EncoderInputSlot B G)) → work s < n → Within n (loop s slots))
        → Within n (input_answered loop slots r)
    input_answered-Within n loop slots (s, dequeue_failed e) h k = h
    input_answered-Within n loop slots (s, dequeued b) h k =
        if-cases (Within n) (leb (length slots) b.index) _ _ (λ out. omega (arith, h))
          (λ in_range. k s _ h)

    dequeue_encoder_inputs-Within :
        {B G : Type 0} (fuel : ℕ) (s : S) (slots : List (EncoderInputSlot B G))
        → work s < fuel
        → Within (work s) (dequeue_encoder_inputs d fuel s slots)
    unfolding dequeue_encoder_inputs
    dequeue_encoder_inputs-Within zero s slots h = absurd (omega (arith, h))
    dequeue_encoder_inputs-Within (suc fuel) s slots h =
        input_answered-Within (work s) _ slots (d.dqbuf_input s) (settles.dqbuf_input s)
          (λ s1 slots1 less.
            Within-mono (work s1) (work s) _ (omega (arith, less))
              (dequeue_encoder_inputs-Within fuel s1 slots1 (omega (arith, less, h))))

    polled-Within :
        (n : ℕ) (again : S → Option (S × C2Status)) (r : S × Polled)
        → OnPolled n r
        → ((s : S) → work s < n → WithinWait n (again s))
        → WithinWait n (polled d again r)
    polled-Within n again (s, nothing) h k = h
    polled-Within n again (s, ready) h k = h
    polled-Within n again (s, interrupted) h k = k s h
    polled-Within n again (s, poll_failed) h k = h

    wait_for_device-Within :
        (out : Bool) (timeout fuel : ℕ) (s : S)
        → work s < fuel
        → WithinWait (work s) (wait_for_device d out timeout fuel s)
    unfolding wait_for_device
    wait_for_device-Within out timeout zero s h = absurd (omega (arith, h))
    wait_for_device-Within out timeout (suc fuel) s h =
        polled-Within (work s) _ _ (settles.poll out timeout s) (λ s1 less.
          WithinWait-mono (work s1) (work s) _ (omega (arith, less))
            (wait_for_device-Within out timeout fuel s1 (omega (arith, less, h))))

    pump_encoder_capture-Within :
        (fuel : ℕ) (s : S) (o : EncoderOutput)
        → work s < fuel
        → Within (work s) (pump_encoder_capture d.capture fuel s o)
    unfolding pump_encoder_capture
    pump_encoder_capture-Within zero s o h = absurd (omega (arith, h))
    pump_encoder_capture-Within (suc fuel) s o h = elim (Dequeued-cases (d.capture.dqbuf s).1) [
      | inl (n, r) ↦
          rw (r, pump_encoder_capture)
            (OnDequeued-failed (work s) n (d.capture.dqbuf s) r (settles.dqbuf s))
      | inr (b, r) ↦
          let less = OnDequeued-given (work s) b (d.capture.dqbuf s) r (settles.dqbuf s) in
          let back = settles.qbuf b.index (d.capture.dqbuf s).0 in
          elim (Handled-cases (handle_buffer b o)) [
            | inl bad ↦ rw (r, bad, pump_encoder_capture) (omega (arith, less))
            | inr (inl (o1, keeps)) ↦
                rw (r, keeps, pump_encoder_capture)
                  (Within-mono _ (work s) _ (omega (arith, less))
                    (pump_encoder_capture-Within fuel _ o1 (omega (arith, less, h))))
            | inr (inr again) ↦ elim (Bool-cases (d.capture.qbuf b.index (d.capture.dqbuf s).0).1) [
              | inl queued ↦
                  rw (r, again, queued, pump_encoder_capture)
                    (Within-mono _ (work s) _ (omega (arith, less, back))
                      (pump_encoder_capture-Within fuel _ o (omega (arith, less, back, h))))
              | inr failed ↦ rw (r, again, failed, pump_encoder_capture) (omega (arith, less, back))
            ]
          ]
    ]

    module _ {B G : Type 0} (fuel n : ℕ) (enough : n < fuel) where
      inputs-Within :
          (m : EncoderQueues B G) (r : Option (S × List (EncoderInputSlot B G) × C2Status))
          → Within n r
          → Within n (with_inputs m r)
      inputs-Within m none h = h
      inputs-Within m (some (s, slots, e)) h = h

      output-Within :
          (m : EncoderQueues B G) (r : Option (S × EncoderOutput × C2Status))
          → Within n r
          → Within n (with_output m r)
      output-Within m none h = h
      output-Within m (some (s, o, e)) h = h

      waited-Within :
          (m : EncoderQueues B G) (r : Option (S × C2Status))
          → WithinWait n r
          → Within n (waited m r)
      waited-Within m none h = h
      waited-Within m (some (s, e)) h = h

      and_ok-Within :
          {X : Type 0} (Q : Option X → Type 0) (stop : S → EncoderQueues B G → C2Status → Option X)
          (r : Pumped S B G) (next : S → EncoderQueues B G → Option X)
          → Within n r
          → ((s : S) (m : EncoderQueues B G) (e : C2Status) → work s ≤ n → Q (stop s m e))
          → ((s : S) (m : EncoderQueues B G) → work s ≤ n → Q (next s m))
          → Q (and_ok stop r next)
      and_ok-Within Q stop none next h f k = absurd h
      and_ok-Within Q stop (some (s, m, c2_ok)) next h f k = k s m h
      and_ok-Within Q stop (some (s, m, c2_blocking)) next h f k = f s m c2_blocking h
      and_ok-Within Q stop (some (s, m, c2_bad_value)) next h f k = f s m c2_bad_value h
      and_ok-Within Q stop (some (s, m, c2_bad_state)) next h f k = f s m c2_bad_state h
      and_ok-Within Q stop (some (s, m, c2_not_found)) next h f k = f s m c2_not_found h
      and_ok-Within Q stop (some (s, m, c2_no_init)) next h f k = f s m c2_no_init h
      and_ok-Within Q stop (some (s, m, c2_no_memory)) next h f k = f s m c2_no_memory h
      and_ok-Within Q stop (some (s, m, c2_corrupted)) next h f k = f s m c2_corrupted h
      and_ok-Within Q stop (some (s, m, c2_omitted)) next h f k = f s m c2_omitted h
      and_ok-Within Q stop (some (s, m, c2_timed_out)) next h f k = f s m c2_timed_out h
      and_ok-Within Q stop (some (s, m, (c2_other i))) next h f k = f s m (c2_other i) h

      pump_encoder-Within :
          (s : S) (m : EncoderQueues B G) → work s ≤ n → Within n (pump_encoder d fuel s m)
      unfolding pump_encoder
      pump_encoder-Within s m h =
          and_ok-Within (Within n) (λ s1 m1 e. some (s1, m1, e)) _ _
            (inputs-Within m _ (
              Within-mono (work s) n _ h
                (dequeue_encoder_inputs-Within fuel s m.encoder_inputs (omega (arith, h, enough)))))
            (λ s1 m1 e h1. h1)
            (λ s1 m1 h1. output-Within m1 _ (
              Within-mono (work s1) n _ h1
                (pump_encoder_capture-Within fuel s1 m1.output (omega (arith, h1, enough)))))

      wait-Within :
          (out : Bool) (timeout : ℕ) (s : S) (m : EncoderQueues B G)
          → work s ≤ n
          → Within n (waited m (wait_for_device d out timeout fuel s))
      wait-Within out timeout s m h = waited-Within m _ (
          WithinWait-mono (work s) n _ h
            (wait_for_device-Within out timeout fuel s (omega (arith, h, enough))))

      pub find_room-Returns :
          (s : S) (m : EncoderQueues B G) → work s ≤ n → Returns (find_room d fuel s m)
      unfolding find_room
      find_room-Returns s m h =
          and_ok-Within Returns (no_room d fuel) _ _ (pump_encoder-Within s m h)
            (λ s1 m1 e h1 q. cc)
            (λ s1 m1 h1.
              if-cases Returns (not (is_full m1)) _ _ (λ room q. cc)
                (λ full.
                  if-cases Returns (not (is_empty m1.output.encoder_pending)) _ _ (λ waits q. cc)
                    (λ none_waits.
                      and_ok-Within Returns (no_room d fuel) _ _
                        (wait-Within (not (has_all_frames m1)) 20 s1 m1 h1) (λ s2 m2 e h2 q. cc)
                        (λ s2 m2 h2.
                          and_ok-Within Returns (no_room d fuel) _ _ (pump_encoder-Within s2 m2 h2)
                            (λ s3 m3 e h3 q. cc)
                            (λ s3 m3 h3.
                              if-cases Returns (is_full m3) _ _ (λ full' q. cc) (λ room q. cc))))))

      wait_and_copy-Returns :
          (allocate : ℕ → Allocation) (s : S) (m : EncoderQueues B G)
          → work s ≤ n
          → Returns (wait_and_copy d fuel allocate s m)
      unfolding wait_and_copy
      wait_and_copy-Returns allocate s m h =
          and_ok-Within Returns no_frame _ _ (wait-Within true 5_000 s m h) (λ s1 m1 e h1 q. cc)
            (λ s1 m1 h1.
              and_ok-Within Returns no_frame _ _ (pump_encoder-Within s1 m1 h1) (λ s2 m2 e h2 q. cc)
                (λ s2 m2 h2 q. cc))

      dequeue-Returns :
          (monitor_error : ℕ) (allocate : ℕ → Allocation) (wait : Bool) (s : S)
          (m : EncoderQueues B G)
          → work s ≤ n
          → Returns (dequeue_encoder_frame d fuel monitor_error allocate wait s m)
      unfolding dequeue_encoder_frame
      dequeue-Returns monitor_error allocate wait s m h =
          if-cases Returns (not (monitor_error == 0)) _ _ (λ bad q. cc)
            (λ good.
              if-cases Returns (not (is_empty m.output.encoder_pending)) _ _ (λ waits q. cc)
                (λ none_waits.
                  if-cases Returns (not m.output.encoder_configured) _ _ (λ unset q. cc)
                    (λ set_up.
                      and_ok-Within Returns no_frame _ _ (pump_encoder-Within s m h)
                        (λ s1 m1 e h1 q. cc)
                        (λ s1 m1 h1.
                          if-cases Returns (is_empty m1.output.encoder_pending && wait) _ _
                            (λ again. wait_and_copy-Returns allocate s1 m1 h1) (λ done q. cc)))))

    -- DequeueEncoderFrame returns, with waits that are interrupted and buffers that go back on the
    -- way, where the device gives fewer answers than the fuel: each buffer and each interrupt is
    -- one answer less, and no other call brings one.
    pub dequeue_encoder_frame-Returns :
        {B G : Type 0} (fuel monitor_error : ℕ) (allocate : ℕ → Allocation) (wait : Bool) (s : S)
        (m : EncoderQueues B G)
        → work s < fuel
        → dequeue_encoder_frame d fuel monitor_error allocate wait s m ≢ none
    dequeue_encoder_frame-Returns fuel monitor_error allocate wait s m enough =
        dequeue-Returns fuel (work s) enough monitor_error allocate wait s m (omega arith)
