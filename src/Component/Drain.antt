-- ===== src/Component/Drain.antt =====
-- src/FloralCodecComponent.cpp: the loop that takes frames from the session and finishes works.
-- `DrainV4l2Encoder` and `DrainV4l2Decoder` write it twice, over frames of their own.
pub mod Delivered
pub mod Settled
pub mod Current
pub mod Encoder
pub mod Decoder
use hardware_floral_codec.Common.{
  ℕ, zero, suc, Bool, true, false, not, ◌&&◌, ◌||◌, Option, none, some, List, [], ◌∷◌,
  if◌then◌else◌,
}
use hardware_floral_codec.Session.{
  C2Status, c2_ok, c2_blocking, c2_bad_value, c2_bad_state, c2_not_found, c2_no_init, c2_no_memory,
  c2_corrupted, c2_omitted, c2_timed_out, c2_other,
}
use hardware_floral_codec.Component.Work.{Works, finish_output, eos_flags, no_flags}

-- What the session gives: a frame, or a status that is not C2_OK.
pub data Given (F : Type 0) : Type 0 where
  frame : F → Given F
  no_frame : C2Status → Given F

-- `PendingOutput`.
pub record PendingOutput (B U : Type 0) : Type 0 where
  pub frame_index : ℕ
  pub buffer : B
  pub updates : List U

-- The buffer of a frame and its updates, or why there is none.
pub data Made (B U : Type 0) : Type 0 where
  made : B → List U → Made B U
  not_made : C2Status → Made B U

-- The session's call for a frame, which may wait, and what the loop asks of a frame. The state is
-- that of the session and of what a buffer is made with.
pub record FrameSource (S F B U : Type 0) : Type 0 where
  pub dequeue : Bool → S → S × Given F
  pub end_of_stream : F → Bool
  pub has_no_data : F → Bool
  pub frame_index : F → ℕ
  pub make_buffer : F → S → S × Made B U

-- What the loop comes to: a status and whether the end of the stream was seen.
pub record Drained (S B U : Type 0) : Type 0 where
  pub state : S
  pub works : Works B U
  pub status : C2Status
  pub saw_eos : Bool

abbrev pub drained : {S B U : Type 0} → S → Works B U → C2Status → Bool → Drained S B U
drained s ws status saw = record { state = s; works = ws; status = status; saw_eos = saw }

-- One round: the loop ends, or goes on with the output that is pending.
pub data Round (S B U : Type 0) : Type 0 where
  ended : Drained S B U → Round S B U
  next : S → Works B U → Option (PendingOutput B U) → Round S B U

-- The statuses that end the loop without an error.
abbrev pub is_drained : C2Status → Bool
is_drained c2_ok = false
is_drained c2_blocking = true
is_drained c2_bad_value = false
is_drained c2_bad_state = false
is_drained c2_not_found = true
is_drained c2_no_init = false
is_drained c2_no_memory = false
is_drained c2_corrupted = false
is_drained c2_omitted = false
is_drained c2_timed_out = false
is_drained (c2_other n) = false

module _ {B U : Type 0} where
  -- The pending output, with the given end of stream; the code behind the loop does the same.
  abbrev pub finish_pending : Bool → Option (PendingOutput B U) → Works B U → Works B U
  finish_pending eos none ws = ws
  finish_pending eos (some p) ws = finish_output p.frame_index p.buffer p.updates (eos_flags eos) ws

module _ {S F B U : Type 0} (src : FrameSource S F B U) where
  abbrev pub end_loop : Bool → Option (PendingOutput B U) → S → Works B U → Drained S B U
  end_loop saw p s ws = drained s (finish_pending saw p ws) c2_ok saw

  abbrev pub pending_of : F → B → List U → PendingOutput B U
  pending_of f buffer updates = record {
    frame_index = src.frame_index f;
    buffer = buffer;
    updates = updates;
  }

  -- The round behind a frame with data.
  abbrev pub keep_made :
      F → Bool → Option (PendingOutput B U) → Works B U → S × Made B U → Round S B U
  keep_made f saw p ws (s, not_made e) = ended (drained s ws e saw)
  keep_made f saw p ws (s, made buffer updates) =
      if saw
      then ended (end_loop saw (some (pending_of f buffer updates)) s (finish_pending false p ws))
      else next s (finish_pending false p ws) (some (pending_of f buffer updates))

  unfoldable pub take_frame : F → Bool → Option (PendingOutput B U) → S → Works B U → Round S B U
  take_frame f saw p s ws =
      if src.has_no_data f
      then (if saw then ended (end_loop saw p s ws) else next s ws p)
      else keep_made f saw p ws (src.make_buffer f s)

  -- A round of the loop on an answer of the session; `loop` is the rounds behind it.
  abbrev pub and_loop :
      (Option (PendingOutput B U) → S → Works B U → Option (Drained S B U))
      → Round S B U
      → Option (Drained S B U)
  and_loop loop (ended r) = some r
  and_loop loop (next s ws p) = loop p s ws

  abbrev pub answered :
      (Bool → Option (PendingOutput B U) → S → Works B U → Option (Drained S B U))
      → Bool
      → Option (PendingOutput B U)
      → Works B U
      → S × Given F
      → Option (Drained S B U)
  answered loop saw p ws (s, no_frame e) =
      some (if is_drained e then end_loop saw p s ws else drained s ws e saw)
  answered loop saw p ws (s, frame f) =
      and_loop (loop (saw || src.end_of_stream f))
        (take_frame f (saw || src.end_of_stream f) p s ws)

  -- The loop; `none`: out of fuel.
  unfoldable pub drain_loop :
      ℕ → Bool → Bool → Option (PendingOutput B U) → S → Works B U → Option (Drained S B U)
  unfolding take_frame
  drain_loop zero draining saw p s ws = none
  drain_loop (suc fuel) draining saw p s ws =
      answered (drain_loop fuel draining) saw p ws (src.dequeue (draining && not saw) s)

  -- `DrainV4l2Encoder` and `DrainV4l2Decoder`.
  abbrev pub drain : ℕ → Bool → S → Works B U → Option (Drained S B U)
  drain fuel draining s ws = drain_loop fuel draining false none s ws
