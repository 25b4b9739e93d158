-- ===== src/Component/Work.antt =====
-- src/FloralCodecComponent.cpp: a work, its output, and the works that the component finishes.
use hardware_floral_codec.Common.{
  ℕ, Bool, true, false, Option, none, some, List, [], ◌∷◌, ◌++◌, ◌==◌, if◌then◌else◌,
}
use hardware_floral_codec.Session.{C2Status, c2_ok}

-- C2FrameData::flags_t as far as the code sets or reads it.
pub record Flags : Type 0 where
  pub end_of_stream : Bool
  pub codec_config : Bool

abbrev pub no_flags : Flags
no_flags = record { end_of_stream = false; codec_config = false }

abbrev pub eos_flags : Bool → Flags
eos_flags eos = record { end_of_stream = eos; codec_config = false }

-- `output` of a worklet: its flags, buffers (over a type of theirs), configuration updates (over a
-- type of theirs), and the index of its ordinal.
pub record Output (B U : Type 0) : Type 0 where
  pub flags : Flags
  pub buffers : List B
  pub config_update : List U
  pub ordinal : ℕ

-- `C2Work` as far as the code writes it; `frame_index` is that of its input ordinal.
pub record Work (B U : Type 0) : Type 0 where
  pub frame_index : ℕ
  pub output : Output B U
  pub worklets_processed : Bool
  pub result : C2Status

-- A work that is done: what the framework's `finish` gets for an index of a pending work.
pub record Finished (B U : Type 0) : Type 0 where
  pub frame_index : ℕ
  pub flags : Flags
  pub buffer : B
  pub updates : List U

-- The current work, if there is one, and the calls of `finish`, in their order.
pub record Works (B U : Type 0) : Type 0 where
  pub current : Option (Work B U)
  pub finished : List (Finished B U)

module _ {B U : Type 0} where
  abbrev pub is_index : ℕ → Option (Work B U) → Bool
  is_index frame_index none = false
  is_index frame_index (some w) = w.frame_index == frame_index

  abbrev pub with_output : Flags → B → List U → Work B U → Work B U
  with_output flags buffer updates w = record w {
    output = record {
      flags = flags;
      buffers = buffer ∷ [];
      config_update = updates;
      ordinal = w.frame_index;
    };
    worklets_processed = true;
  }

  abbrev pub map_work : (Work B U → Work B U) → Option (Work B U) → Option (Work B U)
  map_work f none = none
  map_work f (some w) = some (f w)

  -- `FinishOutput`.
  unfoldable pub finish_output : ℕ → B → List U → Flags → Works B U → Works B U
  finish_output frame_index buffer updates flags ws =
      if is_index frame_index ws.current
      then record ws { current = map_work (with_output flags buffer updates) ws.current }
      else record ws {
        finished =
            ws.finished
            ++ (record {
              frame_index = frame_index;
              flags = flags;
              buffer = buffer;
              updates = updates;
            }
                ∷ []);
      }

  -- `FinishEmptyWork` on a work.
  unfoldable pub finish_empty_work : Bool → Work B U → Work B U
  finish_empty_work eos w = if w.worklets_processed then w else record w {
    output = record w.output { flags = eos_flags eos; buffers = []; ordinal = w.frame_index };
    worklets_processed = true;
  }

  -- The current work behind the last drain.
  abbrev pub end_work : Work B U → Work B U
  end_work w =
      if w.worklets_processed
      then record w { output = record w.output { flags = eos_flags true } }
      else finish_empty_work true w

  -- The work as `process` begins with it.
  abbrev pub begin_work : Flags → Work B U → Work B U
  begin_work flags w = record w {
    output = record w.output { flags = flags; buffers = []; ordinal = w.frame_index };
    worklets_processed = false;
    result = c2_ok;
  }

  abbrev pub fail_work : C2Status → Work B U → Work B U
  fail_work e w = record w { worklets_processed = true; result = e }
