-- ===== src/Component/Examples.antt =====
-- A session with two frames, and runs of the component on it.
use hardware_floral_codec.Common.{
  ℕ, zero, suc, ap, ◌-◌, ◌<◌, ◌≤◌, ◌≡◌, ◌⊎◌, refl, Bool, true, false, ◌==◌, none, some, List, [],
  ◌∷◌, arith,
}
use hardware_floral_codec.Common.Int.{pos}
use hardware_floral_codec.Bitstream.Nal.{avc, Bytes, is_valid_nal_header, append_nal}
use hardware_floral_codec.Bitstream.AnnexB.{
  start_code_size, find_start_code, trim_end, normalize_loop, normalize_annex_b,
}
use hardware_floral_codec.Bitstream.LengthPrefixed.{preferred_length_size}
use hardware_floral_codec.Bitstream.Normalize.{
  normalize, normalize_bytes, normalize_codec_config, normalize_access_unit,
}
use hardware_floral_codec.Session.{c2_ok, c2_blocking, c2_bad_value, c2_not_found}
use hardware_floral_codec.Session.EncoderOutput.{EncodedFrame}
use hardware_floral_codec.Session.DecoderCapture.{DecodedFrame}
use hardware_floral_codec.Component.DecoderConfig.{
  DecoderConfig, cleared, keep_config, store_decoder_config, join_config, make_packet, after_packet,
  process_updates,
}
use hardware_floral_codec.Component.DecoderConfig.Calls.{
  Call, configures, sends, flushes, after_call, sent_by, run,
}
use hardware_floral_codec.Component.DecoderConfig.Refines.{Refines, run-Refines}
use hardware_floral_codec.Component.Work.{
  begin_work, fail_work, Work, Works, no_flags, eos_flags, finish_output, finish_empty_work,
}
use hardware_floral_codec.Component.Drain.{
  Given, frame, no_frame, PendingOutput, made, FrameSource, drained, drain, take_frame, drain_loop,
}
use hardware_floral_codec.Component.Drain.Delivered.{
  Frames, full_frame, full_last, deliver, drain-delivers,
}
use hardware_floral_codec.Component.Drain.Encoder.{Memory}
use hardware_floral_codec.Component.Drain.Decoder.{Share, PictureSize, make_decoded_buffer}
use hardware_floral_codec.Component.Process.{State, begin, process, finish_stream}
use hardware_floral_codec.Component.Process.Ends.{Ended}
use hardware_floral_codec.Component.Process.LastWork.{process-decoder-Ended}
use hardware_floral_codec.Component.Process.Calls.{update_calls}
use hardware_floral_codec.Component.Process.Config.{Makes, process_decoder-Makes}
use hardware_floral_codec.Component.Process.Refuses.{
  Job, process_all, AreRefused, failed, Untouched, process_all-refused,
}
use hardware_floral_codec.Component.Process.Bounds.{IsBounded}
use hardware_floral_codec.Component.Process.Decoder.{
  DecoderSession, no_buffer, not_linear, view, Input, DecoderState, ensure_decoder_session,
  conclude_unit, unit_work, process_decoder,
}
use hardware_floral_codec.Component.Process.Encoder.{EncoderSession, EncoderInput, EncoderState}

abbrev sps_stream : Bytes
sps_stream = 0 ∷ 0 ∷ 1 ∷ 0x67 ∷ 1 ∷ []

abbrev slice_stream : Bytes
slice_stream = 0 ∷ 0 ∷ 0 ∷ 1 ∷ 0x65 ∷ 0x88 ∷ []

abbrev with_sps : DecoderConfig
with_sps = record {
  decoder_config = 0 ∷ 0 ∷ 0 ∷ 1 ∷ 0x67 ∷ 1 ∷ [];
  decoder_config_pending = true;
  decoder_nal_length_size = 4;
}

abbrev first_packet : Bytes
first_packet = 0 ∷ 0 ∷ 0 ∷ 1 ∷ 0x67 ∷ 1 ∷ 0 ∷ 0 ∷ 0 ∷ 1 ∷ 0x65 ∷ 0x88 ∷ []

-- The sets, a packet, a flush, and one more packet.
abbrev some_calls : List Call
some_calls =
    sends slice_stream true ∷ flushes ∷ sends slice_stream true ∷ configures sps_stream ∷ []

sent_twice :
    run avc some_calls ≡ (after_packet (some avc) with_sps, first_packet ∷ first_packet ∷ [])
unfolding run after_call sent_by make_packet join_config store_decoder_config keep_config
    normalize_codec_config normalize_access_unit normalize normalize_bytes normalize_annex_b
    normalize_loop trim_end find_start_code start_code_size append_nal is_valid_nal_header
    preferred_length_size
sent_twice = refl

run-Refines_example : Refines avc some_calls (run avc some_calls)
run-Refines_example = run-Refines avc some_calls

-- The state is the number of the frames that are left; a frame is its number.
abbrev next_frame : Bool → ℕ → ℕ × Given ℕ
next_frame wait zero = (zero, no_frame c2_not_found)
next_frame wait (suc n) = (n, frame n)

abbrev numbers : FrameSource ℕ ℕ ℕ ℕ
numbers = record {
  dequeue = next_frame;
  end_of_stream = λ f. f == 0;
  has_no_data = λ f. false;
  frame_index = λ f. f;
  make_buffer = λ f s. (s, made f (7 ∷ []));
}

abbrev no_works : Works ℕ ℕ
no_works = record { current = none; finished = [] }

abbrev output_of : ℕ → PendingOutput ℕ ℕ
output_of n = record { frame_index = n; buffer = n; updates = 7 ∷ [] }

two_frames : Frames numbers true 2 2 (output_of 1 ∷ output_of 0 ∷ []) true 0
two_frames =
    full_frame 1 2 1 1 0 1 1 (7 ∷ []) (output_of 0 ∷ []) true refl refl refl refl
      (full_last 1 0 0 0 0 (7 ∷ []) refl refl refl refl)

drain-delivers_example :
    drain numbers 3 true 2 no_works
    ≡ some (drained 0 (deliver (output_of 1 ∷ output_of 0 ∷ []) true no_works) c2_ok true)
drain-delivers_example =
    drain-delivers numbers true 3 2 2 0 (output_of 1 ∷ output_of 0 ∷ []) true no_works two_frames
      (omega arith)

abbrev plain_memory : Memory
plain_memory = record { map_error = λ bytes. none; can_allocate = λ n. true }

abbrev key_frame : EncodedFrame
key_frame = record {
  frame = record {
    size = 6;
    frame_index = 3;
    key_frame = true;
    end_of_stream = true;
    capture_index = 0;
    data_offset = 0;
  };
  block = some slice_stream;
}

-- The state is the number of the frames that are left; the block of a frame is its number.
abbrev picture : ℕ → DecodedFrame ℕ
picture n = record {
  block = some n;
  frame_index = n;
  width = 64;
  height = 64;
  crop_left = 0;
  crop_top = 0;
  end_of_stream = n == 0;
}

abbrev next_picture : Bool → ℕ → ℕ × Given (DecodedFrame ℕ)
next_picture wait zero = (zero, no_frame c2_not_found)
next_picture wait (suc n) = (n, frame (picture n))

abbrev decoder : DecoderSession ℕ ℕ
decoder = record {
  open_session = λ s. (s, c2_ok);
  queue_packet = λ bytes index s. (s, c2_ok);
  remaining = λ s. (s, 5);
  wait_for_progress = λ left s. (s, c2_ok);
  dequeue_frame = next_picture;
  start_drain = λ s. (s, c2_ok);
  config = λ width height s. (s, c2_ok);
}

abbrev new_state : {S B U : Type 0} → S → State S B U
new_state s = record {
  session = s;
  config = cleared;
  decoder_session_pending = true;
  encoder_config_sent = false;
  signalled_error = false;
  signalled_eos = false;
  works = record { current = none; finished = [] };
}

abbrev new_work : {B U : Type 0} → ℕ → Work B U
new_work index = record {
  frame_index = index;
  output = record { flags = no_flags; buffers = []; config_update = []; ordinal = 0 };
  worklets_processed = false;
  result = c2_ok;
}

abbrev last_input : Input
last_input = record {
  flags = eos_flags true;
  frame_index = 0;
  config_update = [];
  buffer = no_buffer;
}

abbrev ended_state : DecoderState ℕ ℕ
ended_state = record (new_state 0) {
  decoder_session_pending = false;
  signalled_eos = true;
  works = record {
    current = some (record {
      frame_index = 0;
      output = record {
        flags = eos_flags true;
        buffers = record { shared_block = 0; left = 0; top = 0; width = 64; height = 64 } ∷ [];
        config_update = record { width = 64; height = 64 } ∷ [];
        ordinal = 0;
      };
      worklets_processed = true;
      result = c2_ok;
    });
    finished =
        record {
          frame_index = 1;
          flags = no_flags;
          buffer = record { shared_block = 1; left = 0; top = 0; width = 64; height = 64 };
          updates = record { width = 64; height = 64 } ∷ [];
        }
        ∷ [];
  };
}

last_run :
    process
      (process_decoder decoder 4 (some avc) last_input)
      (eos_flags true)
      (new_work 0)
      (new_state 2)
    ≡ some ended_state
unfolding process process_decoder ensure_decoder_session unit_work conclude_unit finish_stream
    drain_loop take_frame make_decoded_buffer finish_output finish_empty_work process_updates
last_run = refl

-- A session that is never ready for a packet; its state is the number of the frames that are left,
-- and that of the rounds until the deadline.
abbrev next_left : Bool → ℕ × ℕ → (ℕ × ℕ) × Given (DecodedFrame ℕ)
next_left wait (zero, left) = ((zero, left), no_frame c2_not_found)
next_left wait (suc n, left) = ((n, left), frame (picture n))

abbrev busy_decoder : DecoderSession (ℕ × ℕ) ℕ
busy_decoder = record {
  open_session = λ s. (s, c2_ok);
  queue_packet = λ bytes index s. (s, c2_blocking);
  remaining = λ s. (s, s.1);
  wait_for_progress = λ left s. ((s.0, s.1 - 1), c2_ok);
  dequeue_frame = next_left;
  start_drain = λ s. (s, c2_ok);
  config = λ width height s. (s, c2_ok);
}

next_left-down :
    (wait : Bool) (s : ℕ × ℕ) → ((next_left wait s).0.0 ≤ s.0) × ((next_left wait s).0.1 ≤ s.1)
next_left-down wait (zero, left) = (omega arith, omega arith)
next_left-down wait (suc n, left) = (omega arith, omega arith)

apart : {f : DecodedFrame ℕ} → no_frame c2_not_found ≡ frame f → ⊥
apart h = cc

next_left-fewer :
    (wait : Bool) (s s' : ℕ × ℕ) (f : DecodedFrame ℕ)
    → next_left wait s ≡ (s', frame f)
    → s'.0 < s.0
next_left-fewer wait (zero, left) s' f q = absurd (apart (ap (λ r. r.1) q))
next_left-fewer wait (suc n, left) s' f q = let same = ap (λ r. r.0.0) q in omega arith

busy_decoder-IsBounded : IsBounded busy_decoder (λ s. s.0) (λ s. s.1)
busy_decoder-IsBounded = record {
  opens = λ s. (omega arith, omega arith);
  queues = λ bytes index s. (omega arith, omega arith);
  asks = λ s. (omega arith, omega arith);
  waits = λ left s. (omega arith, omega arith);
  dequeues = next_left-down;
  drains = λ s. (omega arith, omega arith);
  configures = λ width height s. (omega arith, omega arith);
  fewer = next_left-fewer;
  sooner = λ s ne. omega arith;
}

abbrev last_unit : Input
last_unit = record last_input { buffer = view c2_ok slice_stream }

process-decoder-Ended_example :
    (st' : DecoderState (ℕ × ℕ) ℕ) × (process
        (process_decoder busy_decoder 4 (some avc) last_unit)
        (eos_flags true)
        (new_work 0)
        (new_state (2, 3))
      ≡ some st')
    × (Ended st' ⊎ (st'.signalled_error ≡ true))
process-decoder-Ended_example =
    process-decoder-Ended busy_decoder 4 (λ s. s.0) (λ s. s.1) (some avc) last_unit (new_work 0)
      (new_state (2, 3)) busy_decoder-IsBounded (omega arith) (omega arith) refl refl

-- A configuration in the updates, and an access unit.
abbrev unit_input : Input
unit_input = record last_input {
  config_update = some sps_stream ∷ [];
  buffer = view c2_ok slice_stream;
}

process_decoder-Makes_example :
    Makes avc
      (configures sps_stream ∷ sends slice_stream true ∷ [])
      cleared
      (process_decoder decoder 4 (some avc) unit_input (new_state 2))
unfolding update_calls
process_decoder-Makes_example = process_decoder-Makes decoder 4 avc unit_input (new_state 2)

abbrev late_job : Job ℕ (Share ℕ) PictureSize
late_job = record {
  act = process_decoder decoder 4 (some avc) last_input;
  flags = no_flags;
  work = new_work 5;
}

abbrev broken_job : Job ℕ (Share ℕ) PictureSize
broken_job = record late_job {
  act = process_decoder decoder 4 (some avc) (record last_input { buffer = not_linear });
}

abbrev broken_state : DecoderState ℕ ℕ
broken_state = record (new_state 2) {
  decoder_session_pending = false;
  signalled_error = true;
  works = record {
    current = some (fail_work c2_bad_value (begin_work no_flags (new_work 5)));
    finished = [];
  };
}

-- A work with a buffer that is not linear.
broken_act :
    broken_job.act (begin no_flags (new_work 5) (new_state 2))
    ≡ some (
      record (begin no_flags (new_work 5) (new_state 2)) { decoder_session_pending = false },
      c2_bad_value,
    )
unfolding process_decoder ensure_decoder_session unit_work process_updates
broken_act = refl

broken_run : process broken_job.act no_flags (new_work 5) (new_state 2) ≡ some broken_state
unfolding process process_decoder ensure_decoder_session unit_work process_updates
broken_run = refl

process_all-refused_example :
    (st' : DecoderState ℕ ℕ) × (ws : List (Work (Share ℕ) PictureSize)) × (process_all
        (late_job ∷ [])
        broken_state
      ≡ some (st', ws))
    × AreRefused (late_job ∷ []) ws
    × Untouched broken_state st'
process_all-refused_example = process_all-refused (late_job ∷ []) broken_state (
    failed broken_job (new_state 2)
      (record (begin no_flags (new_work 5) (new_state 2)) { decoder_session_pending = false })
      c2_bad_value broken_act (λ e. cc) broken_run)

-- An encoder whose state is whether its last frame is still there.
abbrev last_frame : Bool → Bool → Bool × Given EncodedFrame
last_frame wait true = (false, frame key_frame)
last_frame wait false = (false, no_frame c2_not_found)

abbrev encoder : EncoderSession Bool ℕ
encoder = record {
  get_settings = λ s. record { request_sync = false; bitrate = 1 };
  clear_sync_request = λ s. s;
  queue_frame = λ i index timestamp settings s. (true, c2_ok);
  start_monitor = λ s. (s, c2_ok);
  rearm_monitor = λ s. (s, c2_ok);
  dequeue_frame = last_frame;
  start_drain = λ s. (s, c2_ok);
  flush = λ s. (s, c2_ok);
}

abbrev frame_input : EncoderInput ℕ
frame_input = record { buffer = some 9; frame_index = 3; timestamp = pos 0; end_of_stream = true }

abbrev encoded_state : EncoderState Bool
encoded_state = record (new_state false) {
  encoder_config_sent = true;
  signalled_eos = true;
  works = record {
    current = some (record {
      frame_index = 3;
      output = record {
        flags = eos_flags true;
        buffers = record { bytes = slice_stream; sync_frame = true } ∷ [];
        config_update = [];
        ordinal = 3;
      };
      worklets_processed = true;
      result = c2_ok;
    });
    finished = [];
  };
}

abbrev sent_state : EncoderState Bool
sent_state = record (new_state false) { encoder_config_sent = true }
