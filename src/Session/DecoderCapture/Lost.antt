-- ===== src/Session/DecoderCapture/Lost.antt =====
-- A slot without a block, once the capture queue is set up.
use hardware_floral_codec.Common.{ℕ, ◌≡◌, ◌≢◌, refl, ◌∙◌, subst, Bool, true, false, none, arith}
use hardware_floral_codec.Session.{c2_ok, Buffer}
use hardware_floral_codec.Session.DecoderCapture.{
  DecoderCapture, Driver, has_block, slot_at, empty_slot, progress_decoder_capture_setup,
}
use hardware_floral_codec.Session.DecoderCapture.Pump.{take_buffer, pump_decoder_capture}
use hardware_floral_codec.Session.DecoderCapture.Slots.{
  OnLoop, Stable, full_slot, get_or-set-other, pump_decoder_capture-OnLoop,
}

module _ {K : Type 0} where
  -- The slot has no block, and no setup waits to give it one.
  pub record IsLost (index : ℕ) (c : DecoderCapture K) : Type 0 where
    pub no_block : (slot_at c index).block ≡ none
    pub no_setup : c.decoder_capture_setup_pending ≡ false

  other_index :
      (b : Buffer) (index : ℕ) (c : DecoderCapture K)
      → (slot_at c index).block ≡ none
      → has_block (slot_at c b.index).block ≡ true
      → b.index ≢ index
  other_index b index c h full e =
      let there : has_block (slot_at c index).block ≡ true =
        subst (λ (i : ℕ). has_block (slot_at c i).block ≡ true) e full in
      cc (rw h at there)

  taken-lost :
      (b : Buffer) (index : ℕ) (c : DecoderCapture K)
      → (slot_at c index).block ≡ none
      → has_block (slot_at c b.index).block ≡ true
      → (slot_at (take_buffer b c) index).block ≡ none
  unfolding take_buffer
  taken-lost b index c h full =
      rw
        (get_or-set-other c.decoder_capture b.index index empty_slot empty_slot
          (other_index b index c h full))
        h

  taken-no_setup :
      (b : Buffer) (c : DecoderCapture K)
      → (take_buffer b c).decoder_capture_setup_pending ≡ c.decoder_capture_setup_pending
  unfolding take_buffer
  taken-no_setup b c = refl

  IsLost-Stable : (index : ℕ) → Stable (IsLost index)
  IsLost-Stable index = record {
    taken = λ b c h full. record {
      no_block = taken-lost b index c h.no_block full;
      no_setup = taken-no_setup b c ∙ h.no_setup;
    };
    refilled = λ b c block h full. record {
      no_block =
          rw
            (get_or-set-other (take_buffer b c).decoder_capture b.index index (full_slot block)
              empty_slot (other_index b index c h.no_block full))
            (taken-lost b index c h.no_block full);
      no_setup = taken-no_setup b c ∙ h.no_setup;
    };
  }

-- Once the capture queue is set up, a slot that has no block gets none: a setup does nothing, and
-- PumpDecoderCapture leaves the slot empty, however many buffers come back.
pub pump_decoder_capture-IsLost :
    {S K : Type 0} (d : Driver S K) (fuel index : ℕ) (pool : Bool) (s : S) (c : DecoderCapture K)
    → IsLost index c
    → (progress_decoder_capture_setup d pool s c ≡ (s, c, c2_ok))
      × OnLoop (IsLost index) (pump_decoder_capture d fuel s c)
unfolding progress_decoder_capture_setup
pump_decoder_capture-IsLost d fuel index pool s c h =
    (ground arith, pump_decoder_capture-OnLoop d (IsLost index) (IsLost-Stable index) fuel s c h)
