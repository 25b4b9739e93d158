-- ===== src/Session/EncoderFrames/Kept.antt =====
-- The search for a slot keeps the encoder configured.
use hardware_floral_codec.Common.{
  ℕ, zero, suc, ◌≡◌, inl, inr, refl, sym, ap, subst, ◌∙◌, Bool, not, Option, none, some, List,
  arith, Bool-cases, if-cases, is_empty,
}
use hardware_floral_codec.EncoderMetadata.{FrameMetadata, take_encoder_frame_index}
use hardware_floral_codec.Session.{C2Status, Buffer}
use hardware_floral_codec.Session.EncoderOutput.{
  EncoderOutput, Handled, corrupted, kept, requeued, keep_taken, handle_buffer,
  pump_encoder_capture,
}
use hardware_floral_codec.Session.EncoderOutput.{Driver as CaptureDriver}
use hardware_floral_codec.Session.EncoderOutput.Frames.{Dequeued-cases, Handled-cases, output_eq}
use hardware_floral_codec.Session.EncoderFrames.{
  EncoderInputSlot, Driver, EncoderQueues, wait_for_device, with_inputs, with_output, waited,
  pump_encoder, has_all_frames, is_full, Room, no_room, find_room,
}
use hardware_floral_codec.Session.EncoderFrames.Taken.{OnPumped, and_ok-On}

module _ (c : Bool) where
  -- The member behind a buffer; where the members stay as they are, it is the one given.
  abbrev config_of : Handled → Bool
  config_of corrupted = c
  config_of (kept o) = o.encoder_configured
  config_of requeued = c

  keep_taken-config :
      (b : Buffer) (o : EncoderOutput) (r : Option (ℕ × List FrameMetadata))
      → o.encoder_configured ≡ c
      → config_of (keep_taken b o r) ≡ c
  keep_taken-config b o none h = refl
  keep_taken-config b o (some (i, rest)) h = h

  handle_buffer-config :
      (b : Buffer) (o : EncoderOutput)
      → o.encoder_configured ≡ c
      → config_of (handle_buffer b o) ≡ c
  unfolding handle_buffer
  handle_buffer-config b o h =
      ground (
        arith,
        keep_taken-config b o (take_encoder_frame_index o.encoder_frame_metadata b.timestamp),
      )

module _ {S : Type 0} (d : CaptureDriver S) (c : Bool) where
  pump_encoder_capture-keeps :
      (fuel : ℕ) (s s' : S) (o o' : EncoderOutput) (e : C2Status)
      → o.encoder_configured ≡ c
      → pump_encoder_capture d fuel s o ≡ some (s', o', e)
      → o'.encoder_configured ≡ c
  unfolding pump_encoder_capture
  pump_encoder_capture-keeps zero s s' o o' e h q = cc
  pump_encoder_capture-keeps (suc fuel) s s' o o' e h q = elim (Dequeued-cases (d.dqbuf s).1) [
    | inl (n, r) ↦
        subst (λ o. o.encoder_configured ≡ c) (output_eq (rw (r, pump_encoder_capture) at q)) h
    | inr (b, r) ↦ elim (Handled-cases (handle_buffer b o)) [
      | inl bad ↦
          subst (λ o. o.encoder_configured ≡ c) (output_eq (rw (r, bad, pump_encoder_capture) at q))
            h
      | inr (inl (o1, keeps)) ↦
          pump_encoder_capture-keeps fuel _ s' o1 o' e
            (sym (ap (config_of c) keeps) ∙ handle_buffer-config c b o h)
            (rw (r, keeps, pump_encoder_capture) at q)
      | inr (inr again) ↦ elim (Bool-cases (d.qbuf b.index (d.dqbuf s).0).1) [
        | inl queued ↦
            pump_encoder_capture-keeps fuel _ s' o o' e h
              (rw (r, again, queued, pump_encoder_capture) at q)
        | inr failed ↦
            subst (λ o. o.encoder_configured ≡ c)
              (output_eq (rw (r, again, failed, pump_encoder_capture) at q)) h
      ]
    ]
  ]

module _ {S B G : Type 0} (d : Driver S) (fuel : ℕ) (c : Bool) where
  abbrev Keeps : EncoderQueues B G → Type 0
  Keeps m = m.output.encoder_configured ≡ c

  inputs-Keeps :
      (m : EncoderQueues B G) (r : Option (S × List (EncoderInputSlot B G) × C2Status))
      → Keeps m
      → OnPumped Keeps (with_inputs m r)
  inputs-Keeps m none h = tt
  inputs-Keeps m (some (s, slots, e)) h = h

  output-Keeps :
      (m : EncoderQueues B G) (r : Option (S × EncoderOutput × C2Status))
      → ((s' : S) (o' : EncoderOutput) (e : C2Status)
          → r ≡ some (s', o', e)
          → o'.encoder_configured ≡ c)
      → OnPumped Keeps (with_output m r)
  output-Keeps m none k = tt
  output-Keeps m (some (s, o, e)) k = k s o e refl

  waited-Keeps :
      (m : EncoderQueues B G) (r : Option (S × C2Status)) → Keeps m → OnPumped Keeps (waited m r)
  waited-Keeps m none h = tt
  waited-Keeps m (some (s, e)) h = h

  pump-Keeps : (s : S) (m : EncoderQueues B G) → Keeps m → OnPumped Keeps (pump_encoder d fuel s m)
  unfolding pump_encoder
  pump-Keeps s m h =
      and_ok-On (OnPumped Keeps) Keeps (λ s1 m1 e. some (s1, m1, e)) _ _ tt (inputs-Keeps m _ h)
        (λ s1 m1 e h1 bad. h1)
        (λ s1 m1 h1.
          output-Keeps m1 _
            (λ s2 o2 e q. pump_encoder_capture-keeps d.capture c fuel s1 s2 m1.output o2 e h1 q))

  abbrev OnRoom : Room S B G → Type 0
  OnRoom none = Unit
  OnRoom (some (s, m, e, i)) = Keeps m

  find_room-OnRoom : (s : S) (m : EncoderQueues B G) → Keeps m → OnRoom (find_room d fuel s m)
  unfolding find_room
  find_room-OnRoom s m h =
      and_ok-On OnRoom Keeps (no_room d fuel) (pump_encoder d fuel s m) _ tt (pump-Keeps s m h)
        (λ s1 m1 e h1 bad. h1)
        (λ s1 m1 h1.
          if-cases OnRoom (not (is_full m1)) _ _ (λ room. h1)
            (λ full.
              if-cases OnRoom (not (is_empty m1.output.encoder_pending)) _ _ (λ waits. h1)
                (λ none_waits.
                  and_ok-On OnRoom Keeps (no_room d fuel)
                    (waited m1 (wait_for_device d (not (has_all_frames m1)) 20 fuel s1)) _ tt
                    (waited-Keeps m1 _ h1) (λ s2 m2 e h2 bad. h2)
                    (λ s2 m2 h2.
                      and_ok-On OnRoom Keeps (no_room d fuel) (pump_encoder d fuel s2 m2) _ tt
                        (pump-Keeps s2 m2 h2) (λ s3 m3 e h3 bad. h3)
                        (λ s3 m3 h3.
                          if-cases OnRoom (is_full m3) _ _ (λ full'. h3) (λ room. h3))))))

  pub find_room-keeps :
      (s s' : S) (m m' : EncoderQueues B G) (e : C2Status) (index : Option ℕ)
      → m.output.encoder_configured ≡ c
      → find_room d fuel s m ≡ some (s', m', e, index)
      → m'.output.encoder_configured ≡ c
  find_room-keeps s s' m m' e index h q = subst OnRoom q (find_room-OnRoom s m h)
