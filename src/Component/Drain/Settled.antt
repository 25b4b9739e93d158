-- ===== src/Component/Drain/Settled.antt =====
-- A drain comes to an end: every frame that it takes is one less to come.
use hardware_floral_codec.Common.{
  ℕ, zero, suc, subst, ◌≡◌, ◌<◌, ◌≤◌, refl, Bool, ◌&&◌, ◌||◌, not, Option, some, arith, if-cases,
}
use hardware_floral_codec.Component.Work.{Works}
use hardware_floral_codec.Component.Drain.{
  Given, frame, no_frame, PendingOutput, Made, made, not_made, FrameSource, Drained, Round, ended,
  next, is_drained, keep_made, take_frame, and_loop, answered, drain_loop,
}

module _ {S F B U : Type 0} (src : FrameSource S F B U) (frames : S → ℕ) (I : S → Type 0) where
  -- The frames to come get fewer with each that is given, and the calls keep a property of the
  -- session's state.
  pub record IsDraining : Type 0 where
    pub dequeue_keeps : (wait : Bool) (s : S) → I s → I (src.dequeue wait s).0
    pub dequeue_fewer :
        (wait : Bool) (s s' : S) (f : F) → src.dequeue wait s ≡ (s', frame f) → frames s' < frames s
    pub make_keeps : (f : F) (s : S) → I s → I (src.make_buffer f s).0
    pub make_same : (f : F) (s : S) → frames (src.make_buffer f s).0 ≤ frames s

  -- The loop ends, in a state with the property.
  abbrev pub Ends : Option (Drained S B U) → Type 0
  Ends r = (d : Drained S B U) × (r ≡ some d) × I d.state

  abbrev RoundKeeps : ℕ → Round S B U → Type 0
  RoundKeeps n (ended d) = I d.state
  RoundKeeps n (next s ws p) = I s × (frames s ≤ n)

  module _ (h : IsDraining) where
    keep_made-RoundKeeps :
        (n : ℕ) (f : F) (saw : Bool) (p : Option (PendingOutput B U)) (ws : Works B U)
        (r : S × Made B U)
        → I r.0
        → frames r.0 ≤ n
        → RoundKeeps n (keep_made src f saw p ws r)
    keep_made-RoundKeeps n f saw p ws (s, not_made e) i le = i
    keep_made-RoundKeeps n f saw p ws (s, made buffer updates) i le =
        if-cases (RoundKeeps n) saw _ _ (λ q. i) (λ q. (i, le))

    take_frame-RoundKeeps :
        (n : ℕ) (f : F) (saw : Bool) (p : Option (PendingOutput B U)) (s : S) (ws : Works B U)
        → I s
        → frames s ≤ n
        → RoundKeeps n (take_frame src f saw p s ws)
    unfolding take_frame
    take_frame-RoundKeeps n f saw p s ws i le =
        if-cases (RoundKeeps n) (src.has_no_data f) _ _
          (λ empty. if-cases (RoundKeeps n) saw _ _ (λ q. i) (λ q. (i, le)))
          (λ full.
            keep_made-RoundKeeps n f saw p ws (src.make_buffer f s) (h.make_keeps f s i)
              (let fewer = h.make_same f s in omega arith))

    and_loop-Ends :
        (n : ℕ) (loop : Option (PendingOutput B U) → S → Works B U → Option (Drained S B U))
        (r : Round S B U)
        → ((p : Option (PendingOutput B U)) (s : S) (ws : Works B U)
            → I s
            → frames s ≤ n
            → Ends (loop p s ws))
        → RoundKeeps n r
        → Ends (and_loop src loop r)
    and_loop-Ends n loop (ended d) k i = (d, refl, i)
    and_loop-Ends n loop (next s ws p) k i = k p s ws i.0 i.1

    dequeued-Ends :
        (fuel : ℕ) (draining saw : Bool) (p : Option (PendingOutput B U)) (s : S) (ws : Works B U)
        (r : S × Given F)
        → src.dequeue (draining && not saw) s ≡ r
        → I s
        → frames s < suc fuel
        → ((saw : Bool) (p : Option (PendingOutput B U)) (s : S) (ws : Works B U)
            → I s
            → frames s < fuel
            → Ends (drain_loop src fuel draining saw p s ws))
        → Ends (answered src (drain_loop src fuel draining) saw p ws r)
    dequeued-Ends fuel draining saw p s ws (s', no_frame e) q i enough k =
        let i' = subst (λ (x : S × Given F). I x.0) q (h.dequeue_keeps (draining && not saw) s i) in
        (
          _,
          refl,
          if-cases (λ (d : Drained S B U). I d.state) (is_drained e) _ _ (λ q. i') (λ q. i'),
        )
    dequeued-Ends fuel draining saw p s ws (s', frame f) q i enough k =
        let i' = subst (λ (x : S × Given F). I x.0) q (h.dequeue_keeps (draining && not saw) s i) in
        let fewer = h.dequeue_fewer (draining && not saw) s s' f q in
        and_loop-Ends (frames s') (drain_loop src fuel draining (saw || src.end_of_stream f)) _
          (λ p1 s1 ws1 i1 le. k (saw || src.end_of_stream f) p1 s1 ws1 i1 (omega arith))
          (take_frame-RoundKeeps (frames s') f (saw || src.end_of_stream f) p s' ws i'
            (omega arith))

    pub drain_loop-Ends :
        (fuel : ℕ) (draining saw : Bool) (p : Option (PendingOutput B U)) (s : S) (ws : Works B U)
        → I s
        → frames s < fuel
        → Ends (drain_loop src fuel draining saw p s ws)
    unfolding drain_loop
    drain_loop-Ends zero draining saw p s ws i enough = absurd (omega arith)
    drain_loop-Ends (suc fuel) draining saw p s ws i enough =
        dequeued-Ends fuel draining saw p s ws (src.dequeue (draining && not saw) s) refl i enough
          (drain_loop-Ends fuel draining)
