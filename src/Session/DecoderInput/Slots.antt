-- ===== src/Session/DecoderInput/Slots.antt =====
-- A packet goes into a slot that the driver does not hold.
use hardware_floral_codec.Common.{
  ℕ, ◌≤◌, ◌<◌, ◌≡◌, inl, inr, refl, ap, subst, Bool, true, false, ◌||◌, Option, none, some, List,
  [], ◌∷◌, ◌++◌, arith, Bool-cases, ltb, leb, ◌==◌, length, get_or, set, drop,
}
use hardware_floral_codec.EncoderMetadata.{frame_index_to_timestamp}
use hardware_floral_codec.Session.{
  C2Status, c2_ok, c2_blocking, c2_bad_value, c2_bad_state, c2_not_found, c2_no_init, c2_no_memory,
  c2_corrupted, c2_omitted, c2_timed_out, c2_other,
}
use hardware_floral_codec.Session.DecoderInput.{
  DecoderInput, Driver, free_slot, dequeue_decoder_inputs, fill_slot, queue_in_slot, and_queue,
  queue_decoder_packet,
}

-- The packet stands at the start of the buffer of a slot that was free, within its bounds, and
-- the slot is queued now.
pub record IsQueued (packet : List ℕ) (slots : List Bool) (m m' : DecoderInput) : Type 0 where
  pub index : ℕ
  pub exists : index < length slots
  pub was_free : get_or slots index true ≡ false
  pub fits : length packet ≤ length (get_or m.output_mmaps index [])
  pub slots_now : m'.decoder_inputs ≡ set slots index true
  pub bytes_now :
      m'.output_mmaps
      ≡ set m.output_mmaps index (packet ++ drop (length packet) (get_or m.output_mmaps index []))
  pub received : m'.decoder_received_input ≡ true

free_slot-free :
    (slots : List Bool)
    → free_slot slots < length slots
    → get_or slots (free_slot slots) true ≡ false
unfolding free_slot
free_slot-free [] h = absurd (omega arith)
free_slot-free (true ∷ slots) h = free_slot-free slots (omega arith)
free_slot-free (false ∷ slots) h = refl

module _ {S : Type 0} (d : Driver S) where
  member_eq :
      {s s' : S} {m m' : DecoderInput} {e e' : C2Status}
      → ◌≡◌ {A = S × DecoderInput × C2Status} (s, m, e) (s', m', e')
      → m ≡ m'
  member_eq h = cc

  fill_slot-IsQueued :
      (packet : List ℕ) (frame_index : ℕ) (s s' : S) (m m' : DecoderInput)
      → free_slot m.decoder_inputs < length m.decoder_inputs
      → fill_slot d packet frame_index (free_slot m.decoder_inputs) s m ≡ (s', m', c2_ok)
      → IsQueued packet m.decoder_inputs m m'
  unfolding fill_slot
  fill_slot-IsQueued packet frame_index s s' m m' h q =
      elim (Bool-cases
        (ltb (length (get_or m.output_mmaps (free_slot m.decoder_inputs) [])) (length packet))) [
          | inl long ↦ cc (rw long at q)
          | inr short ↦
              elim (Bool-cases
                (d.qbuf (free_slot m.decoder_inputs) (length packet)
                  (frame_index_to_timestamp frame_index) s).1) [
                    | inr failed ↦ cc (rw (short, failed) at q)
                    | inl queued ↦
                        subst (IsQueued packet m.decoder_inputs m)
                          (member_eq (rw (short, queued) at q))
                          (record {
                            index = free_slot m.decoder_inputs;
                            exists = h;
                            was_free = free_slot-free m.decoder_inputs h;
                            fits = ground arith;
                            slots_now = refl;
                            bytes_now = refl;
                            received = refl;
                          })
                  ]
        ]

  queue_in_slot-IsQueued :
      (packet : List ℕ) (frame_index : ℕ) (s s' : S) (m m' : DecoderInput) (e : C2Status)
      → queue_in_slot d packet frame_index s m e ≡ (s', m', c2_ok)
      → (e ≡ c2_ok) × IsQueued packet m.decoder_inputs m m'
  unfolding queue_in_slot
  queue_in_slot-IsQueued packet frame_index s s' m m' c2_blocking q = cc
  queue_in_slot-IsQueued packet frame_index s s' m m' c2_bad_value q = cc
  queue_in_slot-IsQueued packet frame_index s s' m m' c2_not_found q = cc
  queue_in_slot-IsQueued packet frame_index s s' m m' c2_no_init q = cc
  queue_in_slot-IsQueued packet frame_index s s' m m' c2_corrupted q = cc
  queue_in_slot-IsQueued packet frame_index s s' m m' c2_bad_state q = cc
  queue_in_slot-IsQueued packet frame_index s s' m m' c2_no_memory q = cc
  queue_in_slot-IsQueued packet frame_index s s' m m' c2_omitted q = cc
  queue_in_slot-IsQueued packet frame_index s s' m m' c2_timed_out q = cc
  queue_in_slot-IsQueued packet frame_index s s' m m' (c2_other n) q = cc
  queue_in_slot-IsQueued packet frame_index s s' m m' c2_ok q =
      elim (Bool-cases (leb (length m.decoder_inputs) (free_slot m.decoder_inputs))) [
        | inl full ↦ cc (rw full at q)
        | inr room ↦
            (refl, fill_slot-IsQueued packet frame_index s s' m m' (ground arith) (rw room at q))
      ]

  and_queue_inv :
      (packet : List ℕ) (frame_index : ℕ) (m : DecoderInput) (r : Option (S × List Bool × C2Status))
      (s' : S) (m' : DecoderInput)
      → and_queue d packet frame_index m r ≡ some (s', m', c2_ok)
      → (s1 : S) × (slots : List Bool) × (r ≡ some (s1, slots, c2_ok)) × IsQueued packet slots m m'
  and_queue_inv packet frame_index m none s' m' h = cc
  and_queue_inv packet frame_index m (some (s1, slots, e)) s' m' h =
      let (ok, q) =
        queue_in_slot-IsQueued packet frame_index s1 s' (record m { decoder_inputs = slots }) m' e
          cc in
      (
        s1,
        slots,
        ap (λ (x : C2Status). some (s1, slots, x)) ok,
        record {
          index = q.index;
          exists = q.exists;
          was_free = q.was_free;
          fits = q.fits;
          slots_now = q.slots_now;
          bytes_now = q.bytes_now;
          received = q.received;
        },
      )

  -- If QueueDecoderPacket returns C2_OK, the packet has bytes and no more than a coded buffer, the
  -- dequeue before it went well, and the packet stands in the buffer of a slot that was free
  -- behind that dequeue, within its bounds, with the slot queued.
  pub queue_decoder_packet-IsQueued :
      (fuel : ℕ) (packet : List ℕ) (frame_index : ℕ) (s s' : S) (m m' : DecoderInput)
      → queue_decoder_packet d fuel packet frame_index s m ≡ some (s', m', c2_ok)
      → (0 < length packet)
        × (length packet ≤ m.coded_size)
        × (s1 : S) × (slots : List Bool) × (dequeue_decoder_inputs d fuel s m.decoder_inputs
            ≡ some (s1, slots, c2_ok))
        × IsQueued packet slots m m'
  unfolding queue_decoder_packet
  queue_decoder_packet-IsQueued fuel packet frame_index s s' m m' h =
      elim (Bool-cases (length packet == 0 || ltb m.coded_size (length packet))) [
        | inl bad ↦ cc (rw bad at h)
        | inr good ↦
            let (s1, slots, r, q) =
              and_queue_inv packet frame_index m (dequeue_decoder_inputs d fuel s m.decoder_inputs)
                s' m' (rw good at h) in
            (ground arith, ground arith, s1, slots, r, q)
      ]
