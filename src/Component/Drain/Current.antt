-- ===== src/Component/Drain/Current.antt =====
-- A drain keeps the current work.
use hardware_floral_codec.Common.{
  ℕ, zero, suc, ◌≡◌, refl, Bool, true, false, ◌||◌, Option, none, some, List, if◌then◌else◌,
  if-cases,
}
use hardware_floral_codec.Component.Work.{
  Flags, Work, Works, is_index, map_work, with_output, finish_output, eos_flags,
}
use hardware_floral_codec.Component.Drain.{
  Given, frame, no_frame, PendingOutput, Made, made, not_made, FrameSource, Drained, drained,
  is_drained, Round, ended, next, finish_pending, end_loop, pending_of, keep_made, take_frame,
  and_loop, answered, drain_loop,
}

module _ {B U : Type 0} where
  abbrev pub is_there : Option (Work B U) → Bool
  is_there none = false
  is_there (some w) = true

  pub map_work-is_there :
      (f : Work B U → Work B U) (w : Option (Work B U)) → is_there (map_work f w) ≡ is_there w
  map_work-is_there f none = refl
  map_work-is_there f (some w) = refl

  abbrev pub HasCurrent : Works B U → Type 0
  HasCurrent ws = is_there ws.current ≡ true

  map_work-there :
      (f : Work B U → Work B U) (w : Option (Work B U))
      → is_there w ≡ true
      → is_there (map_work f w) ≡ true
  map_work-there f (some w) h = refl
  map_work-there f none h = h

  finish_output-HasCurrent :
      (index : ℕ) (buffer : B) (updates : List U) (flags : Flags) (ws : Works B U)
      → HasCurrent ws
      → HasCurrent (finish_output index buffer updates flags ws)
  unfolding finish_output
  finish_output-HasCurrent index buffer updates flags ws h =
      if-cases HasCurrent (is_index index ws.current) _ _
        (λ here. map_work-there (with_output flags buffer updates) ws.current h) (λ other. h)

  finish_pending-HasCurrent :
      (eos : Bool) (p : Option (PendingOutput B U)) (ws : Works B U)
      → HasCurrent ws
      → HasCurrent (finish_pending eos p ws)
  finish_pending-HasCurrent eos none ws h = h
  finish_pending-HasCurrent eos (some p) ws h =
      finish_output-HasCurrent p.frame_index p.buffer p.updates (eos_flags eos) ws h

module _ {S F B U : Type 0} (src : FrameSource S F B U) where
  abbrev pub OnDrained : Option (Drained S B U) → Type 0
  OnDrained none = Unit
  OnDrained (some r) = HasCurrent r.works

  abbrev OnRound : Round S B U → Type 0
  OnRound (ended r) = HasCurrent r.works
  OnRound (next s ws p) = HasCurrent ws

  keep_made-OnRound :
      (f : F) (saw : Bool) (p : Option (PendingOutput B U)) (ws : Works B U) (r : S × Made B U)
      → HasCurrent ws
      → OnRound (keep_made src f saw p ws r)
  keep_made-OnRound f saw p ws (s, not_made e) h = h
  keep_made-OnRound f saw p ws (s, made b us) h =
      let kept = finish_pending-HasCurrent false p ws h in
      if-cases OnRound saw
        (ended (end_loop src saw (some (pending_of src f b us)) s (finish_pending false p ws)))
        (next s (finish_pending false p ws) (some (pending_of src f b us)))
        (λ last. finish_pending-HasCurrent saw (some (pending_of src f b us)) _ kept) (λ more. kept)

  take_frame-OnRound :
      (f : F) (saw : Bool) (p : Option (PendingOutput B U)) (s : S) (ws : Works B U)
      → HasCurrent ws
      → OnRound (take_frame src f saw p s ws)
  unfolding take_frame
  take_frame-OnRound f saw p s ws h =
      if-cases OnRound (src.has_no_data f)
        (if saw then ended (end_loop src saw p s ws) else next s ws p)
        (keep_made src f saw p ws (src.make_buffer f s))
        (λ empty.
          if-cases OnRound saw (ended (end_loop src saw p s ws)) (next s ws p)
            (λ last. finish_pending-HasCurrent saw p ws h) (λ more. h))
        (λ full. keep_made-OnRound f saw p ws (src.make_buffer f s) h)

  and_loop-OnDrained :
      (loop : Option (PendingOutput B U) → S → Works B U → Option (Drained S B U)) (r : Round S B U)
      → OnRound r
      → ((p : Option (PendingOutput B U)) (s : S) (ws : Works B U)
          → HasCurrent ws
          → OnDrained (loop p s ws))
      → OnDrained (and_loop src loop r)
  and_loop-OnDrained loop (ended r) h k = h
  and_loop-OnDrained loop (next s ws p) h k = k p s ws h

  answered-OnDrained :
      (loop : Bool → Option (PendingOutput B U) → S → Works B U → Option (Drained S B U))
      (saw : Bool) (p : Option (PendingOutput B U)) (ws : Works B U) (r : S × Given F)
      → HasCurrent ws
      → ((saw' : Bool) (p' : Option (PendingOutput B U)) (s' : S) (ws' : Works B U)
          → HasCurrent ws'
          → OnDrained (loop saw' p' s' ws'))
      → OnDrained (answered src loop saw p ws r)
  answered-OnDrained loop saw p ws (s, no_frame e) h k =
      if-cases (λ (r : Drained S B U). HasCurrent r.works) (is_drained e) (end_loop src saw p s ws)
        (drained s ws e saw) (λ done. finish_pending-HasCurrent saw p ws h) (λ failed. h)
  answered-OnDrained loop saw p ws (s, frame f) h k =
      and_loop-OnDrained (loop (saw || src.end_of_stream f)) _
        (take_frame-OnRound f (saw || src.end_of_stream f) p s ws h)
        (k (saw || src.end_of_stream f))

  pub drain_loop-OnDrained :
      (fuel : ℕ) (draining saw : Bool) (p : Option (PendingOutput B U)) (s : S) (ws : Works B U)
      → HasCurrent ws
      → OnDrained (drain_loop src fuel draining saw p s ws)
  unfolding drain_loop
  drain_loop-OnDrained zero draining saw p s ws h = tt
  drain_loop-OnDrained (suc fuel) draining saw p s ws h =
      answered-OnDrained (drain_loop src fuel draining) saw p ws _ h
        (drain_loop-OnDrained fuel draining)
