-- ===== src/Session/DecoderInput.antt =====
-- src/V4l2CodecSession.cpp: packets, into the slots of the decoder's input queue.
pub mod Slots
use hardware_floral_codec.Common.{
  ℕ, zero, suc, ◌+◌, ◌-◌, Bool, true, false, not, ◌&&◌, ◌||◌, Option, none, some, List, [], ◌∷◌,
  ◌++◌, ltb, leb, ◌==◌, if◌then◌else◌, length, get_or, set, drop,
}
use hardware_floral_codec.EncoderMetadata.{Timeval, frame_index_to_timestamp}
use hardware_floral_codec.Session.{
  C2Status, c2_ok, c2_blocking, c2_bad_value, c2_corrupted, Buffer, Dequeued, dequeued,
  dequeue_failed, eagain,
}

-- The members of the session: the slots' `queued`, the bytes of the mapped buffers, the size of a
-- coded buffer, and whether a packet has come.
pub record DecoderInput : Type 0 where
  pub decoder_inputs : List Bool
  pub output_mmaps : List (List ℕ)
  pub coded_size : ℕ
  pub decoder_received_input : Bool

-- VIDIOC_DQBUF and VIDIOC_QBUF on the output queue; the latter gets the index, the bytes used and
-- the timestamp, and `false` is a call that fails.
pub record Driver (S : Type 0) : Type 0 where
  pub dqbuf : S → S × Dequeued
  pub qbuf : ℕ → ℕ → Timeval → S → S × Bool

-- `std::find_if` for a slot that is not queued: its index, or the number of slots.
unfoldable pub free_slot : List Bool → ℕ
free_slot [] = 0
free_slot (true ∷ slots) = suc (free_slot slots)
free_slot (false ∷ slots) = 0

module _ {S : Type 0} (d : Driver S) where
  -- The loop of `DequeueDecoderInputs`; `none`: out of fuel.
  unfoldable pub dequeue_decoder_inputs : ℕ → S → List Bool → Option (S × List Bool × C2Status)
  dequeue_decoder_inputs zero s slots = none
  dequeue_decoder_inputs (suc fuel) s slots =
      let (s', r) = d.dqbuf s in
      elim r [
        | dequeue_failed e ↦ some (s', slots, if e == eagain then c2_ok else c2_corrupted)
        | dequeued b ↦
            let rest = dequeue_decoder_inputs fuel s' (set slots b.index false) in
            if leb (length slots) b.index then some (s', slots, c2_corrupted) else rest
      ]

  -- The packet in the slot, and its VIDIOC_QBUF.
  unfoldable pub fill_slot : List ℕ → ℕ → ℕ → S → DecoderInput → S × DecoderInput × C2Status
  fill_slot packet frame_index index s m =
      let mmap = get_or m.output_mmaps index [] in
      let written = record m {
        output_mmaps = set m.output_mmaps index (packet ++ drop (length packet) mmap);
      } in
      let (s', queued) = d.qbuf index (length packet) (frame_index_to_timestamp frame_index) s in
      if ltb (length mmap) (length packet)
      then (s, m, c2_bad_value)
      else if queued
      then (
        s',
        record written {
          decoder_inputs = set m.decoder_inputs index true;
          decoder_received_input = true;
        },
        c2_ok,
      )
      else (s', written, c2_corrupted)

  unfoldable pub queue_in_slot :
      List ℕ → ℕ → S → DecoderInput → C2Status → S × DecoderInput × C2Status
  unfolding fill_slot
  queue_in_slot packet frame_index s m c2_ok =
      if leb (length m.decoder_inputs) (free_slot m.decoder_inputs)
      then (s, m, c2_blocking)
      else fill_slot packet frame_index (free_slot m.decoder_inputs) s m
  queue_in_slot packet frame_index s m other = (s, m, other)

  abbrev pub and_queue :
      List ℕ
      → ℕ
      → DecoderInput
      → Option (S × List Bool × C2Status)
      → Option (S × DecoderInput × C2Status)
  and_queue packet frame_index m none = none
  and_queue packet frame_index m (some (s, slots, status)) =
      some (queue_in_slot packet frame_index s (record m { decoder_inputs = slots }) status)

  -- `QueueDecoderPacket`; a null pointer has no bytes, and `none` is out of fuel.
  unfoldable pub queue_decoder_packet :
      ℕ → List ℕ → ℕ → S → DecoderInput → Option (S × DecoderInput × C2Status)
  unfolding dequeue_decoder_inputs queue_in_slot
  queue_decoder_packet fuel packet frame_index s m =
      let queued =
        and_queue packet frame_index m (dequeue_decoder_inputs fuel s m.decoder_inputs) in
      if length packet == 0 || ltb m.coded_size (length packet)
      then some (s, m, c2_bad_value)
      else queued
