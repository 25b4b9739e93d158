-- ===== src/Component/Drain/Delivered.antt =====
-- What the loop finishes: the frames that the session gives, in their order.
use hardware_floral_codec.Common.{
  ℕ, zero, suc, ◌≤◌, ◌≡◌, refl, sym, ap, ◌∙◌, subst, Bool, true, false, ◌&&◌, Option, none, some,
  List, [], ◌∷◌, arith, if◌then◌else◌,
}
use hardware_floral_codec.Session.{C2Status, c2_ok}
use hardware_floral_codec.Component.Work.{Works, finish_output, eos_flags, no_flags}
use hardware_floral_codec.Component.Drain.{
  frame, no_frame, PendingOutput, made, FrameSource, Drained, drained, is_drained, ended, next,
  finish_pending, end_loop, pending_of, keep_made, take_frame, answered, drain_loop, drain,
}

-- The outputs are finished in order; the last one alone can carry the end of the stream.
abbrev pub deliver : {B U : Type 0} → List (PendingOutput B U) → Bool → Works B U → Works B U
deliver [] eos ws = ws
deliver (p ∷ []) eos ws = finish_output p.frame_index p.buffer p.updates (eos_flags eos) ws
deliver (p ∷ q ∷ ps) eos ws =
    deliver (q ∷ ps) eos (finish_output p.frame_index p.buffer p.updates no_flags ws)

module _ {S F B U : Type 0} (src : FrameSource S F B U) (draining : Bool) where
  -- A session that gives frames until it has none or a last one came: the number of its answers,
  -- the outputs of the frames with data, whether the last frame came, and the state behind it.
  pub data Frames : ℕ → S → List (PendingOutput B U) → Bool → S → Type 0 where
    no_more :
        (s s' : S) (e : C2Status)
        → src.dequeue draining s ≡ (s', no_frame e)
        → is_drained e ≡ true
        → Frames 1 s [] false s'
    empty_last :
        (s s' : S) (f : F)
        → src.dequeue draining s ≡ (s', frame f)
        → src.end_of_stream f ≡ true
        → src.has_no_data f ≡ true
        → Frames 1 s [] true s'
    full_last :
        (s s' s'' : S) (f : F) (buffer : B) (updates : List U)
        → src.dequeue draining s ≡ (s', frame f)
        → src.end_of_stream f ≡ true
        → src.has_no_data f ≡ false
        → src.make_buffer f s' ≡ (s'', made buffer updates)
        → Frames 1 s (pending_of src f buffer updates ∷ []) true s''
    empty_frame :
        (n : ℕ) (s s' t : S) (f : F) (outs : List (PendingOutput B U)) (eos : Bool)
        → src.dequeue draining s ≡ (s', frame f)
        → src.end_of_stream f ≡ false
        → src.has_no_data f ≡ true
        → Frames n s' outs eos t
        → Frames (suc n) s outs eos t
    full_frame :
        (n : ℕ) (s s' s'' t : S) (f : F) (buffer : B) (updates : List U)
        (outs : List (PendingOutput B U)) (eos : Bool)
        → src.dequeue draining s ≡ (s', frame f)
        → src.end_of_stream f ≡ false
        → src.has_no_data f ≡ false
        → src.make_buffer f s' ≡ (s'', made buffer updates)
        → Frames n s'' outs eos t
        → Frames (suc n) s (pending_of src f buffer updates ∷ outs) eos t

  -- The output that is pending comes first.
  abbrev with_pending :
      Option (PendingOutput B U) → List (PendingOutput B U) → List (PendingOutput B U)
  with_pending none outs = outs
  with_pending (some p) outs = p ∷ outs

  deliver-finish_pending :
      (p : Option (PendingOutput B U)) (q : PendingOutput B U) (outs : List (PendingOutput B U))
      (eos : Bool) (ws : Works B U)
      → deliver (with_pending p (q ∷ outs)) eos ws
        ≡ deliver (q ∷ outs) eos (finish_pending false p ws)
  deliver-finish_pending none q outs eos ws = refl
  deliver-finish_pending (some p) q outs eos ws = refl

  deliver-end :
      (p : Option (PendingOutput B U)) (eos : Bool) (ws : Works B U)
      → deliver (with_pending p []) eos ws ≡ finish_pending eos p ws
  deliver-end none eos ws = refl
  deliver-end (some p) eos ws = refl

  draining-rest : draining && true ≡ draining
  draining-rest = ground arith

  round-none :
      (fuel : ℕ) (p : Option (PendingOutput B U)) (s s' : S) (ws : Works B U) (e : C2Status)
      → src.dequeue draining s ≡ (s', no_frame e)
      → is_drained e ≡ true
      → drain_loop src (suc fuel) draining false p s ws ≡ some (end_loop src false p s' ws)
  unfolding drain_loop
  round-none fuel p s s' ws e d q =
      let d' = subst (λ (b : Bool). src.dequeue b s ≡ (s', no_frame e)) (sym draining-rest) d in
      ap (answered src (drain_loop src fuel draining) false p ws) d' ∙ (rw q refl)

  round-last :
      (fuel : ℕ) (p : Option (PendingOutput B U)) (s s' : S) (ws : Works B U) (f : F)
      (r : Drained S B U)
      → src.dequeue draining s ≡ (s', frame f)
      → src.end_of_stream f ≡ true
      → take_frame src f true p s' ws ≡ ended r
      → drain_loop src (suc fuel) draining false p s ws ≡ some r
  unfolding drain_loop
  round-last fuel p s s' ws f r d l q =
      let d' = subst (λ (b : Bool). src.dequeue b s ≡ (s', frame f)) (sym draining-rest) d in
      ap (answered src (drain_loop src fuel draining) false p ws) d' ∙ (rw (l, q) refl)

  round-next :
      (fuel : ℕ) (p p' : Option (PendingOutput B U)) (s s' s'' : S) (ws ws' : Works B U) (f : F)
      → src.dequeue draining s ≡ (s', frame f)
      → src.end_of_stream f ≡ false
      → take_frame src f false p s' ws ≡ next s'' ws' p'
      → drain_loop src (suc fuel) draining false p s ws
        ≡ drain_loop src fuel draining false p' s'' ws'
  unfolding drain_loop
  round-next fuel p p' s s' s'' ws ws' f d l q =
      let d' = subst (λ (b : Bool). src.dequeue b s ≡ (s', frame f)) (sym draining-rest) d in
      ap (answered src (drain_loop src fuel draining) false p ws) d' ∙ (rw (l, q) refl)

  take-empty :
      (f : F) (saw : Bool) (p : Option (PendingOutput B U)) (s : S) (ws : Works B U)
      → src.has_no_data f ≡ true
      → take_frame src f saw p s ws ≡ (if saw then ended (end_loop src saw p s ws) else next s ws p)
  unfolding take_frame
  take-empty f saw p s ws q = rw q refl

  take-full :
      (f : F) (saw : Bool) (p : Option (PendingOutput B U)) (s s' : S) (ws : Works B U) (b : B)
      (us : List U)
      → src.has_no_data f ≡ false
      → src.make_buffer f s ≡ (s', made b us)
      → take_frame src f saw p s ws ≡ keep_made src f saw p ws (s', made b us)
  unfolding take_frame
  take-full f saw p s s' ws b us q m = rw (q, m) refl

  Frames-pos :
      {n : ℕ} {s t : S} {outs : List (PendingOutput B U)} {eos : Bool}
      → Frames n s outs eos t
      → 1 ≤ n
  Frames-pos (no_more s t e d q) = omega arith
  Frames-pos (empty_last s t f d l q) = omega arith
  Frames-pos (full_last s s' t f b us d l q m) = omega arith
  Frames-pos (empty_frame n s s' t f outs eos d l q h) = omega arith
  Frames-pos (full_frame n s s' s'' t f b us outs eos d l q m h) = omega arith

  drain_loop-Frames :
      (fuel n : ℕ) (p : Option (PendingOutput B U)) (s t : S) (outs : List (PendingOutput B U))
      (eos : Bool) (ws : Works B U)
      → Frames n s outs eos t
      → n ≤ fuel
      → drain_loop src fuel draining false p s ws
        ≡ some (drained t (deliver (with_pending p outs) eos ws) c2_ok eos)
  drain_loop-Frames zero n p s t outs eos ws h le = absurd (omega (arith, Frames-pos h, le))
  drain_loop-Frames (suc fuel) _ p _ _ _ _ ws (no_more s t e d q) le =
      round-none fuel p s t ws e d q ∙ (rw deliver-end refl)
  drain_loop-Frames (suc fuel) _ p _ _ _ _ ws (empty_last s t f d l q) le =
      round-last fuel p s t ws f _ d l (take-empty f true p t ws q) ∙ (rw deliver-end refl)
  drain_loop-Frames (suc fuel) _ p _ _ _ _ ws (full_last s s' t f b us d l q m) le =
      round-last fuel p s s' ws f _ d l (take-full f true p s' t ws b us q m)
      ∙ (rw (deliver-finish_pending p (pending_of src f b us) [] true ws) refl)
  drain_loop-Frames (suc fuel) _ p _ _ _ _ ws (empty_frame n s s' t f outs eos d l q h) le =
      round-next fuel p _ s s' _ ws _ f d l (take-empty f false p s' ws q)
      ∙ drain_loop-Frames fuel n p s' t outs eos ws h (omega (arith, le))
  drain_loop-Frames (suc fuel) _ p _ _ _ _ ws (full_frame n s s' s'' t f b us outs eos d l q m h)
        le =
      round-next fuel p _ s s' _ ws _ f d l (take-full f false p s' s'' ws b us q m)
      ∙ drain_loop-Frames fuel n (some (pending_of src f b us)) s'' t outs eos
          (finish_pending false p ws) h (omega (arith, le))
      ∙ (rw (deliver-finish_pending p (pending_of src f b us) outs eos ws) refl)

  -- Where the session gives a finite series of frames, and each with data has a buffer, a drain
  -- returns C2_OK with as much fuel as the session has answers: the outputs of the frames with
  -- data are finished in their order, the end of the stream is on the last output and on no other,
  -- and just where a last frame came.
  pub drain-delivers :
      (fuel n : ℕ) (s t : S) (outs : List (PendingOutput B U)) (eos : Bool) (ws : Works B U)
      → Frames n s outs eos t
      → n ≤ fuel
      → drain src fuel draining s ws ≡ some (drained t (deliver outs eos ws) c2_ok eos)
  drain-delivers fuel n s t outs eos ws h le = drain_loop-Frames fuel n none s t outs eos ws h le
