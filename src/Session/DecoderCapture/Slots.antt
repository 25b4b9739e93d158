-- ===== src/Session/DecoderCapture/Slots.antt =====
-- The slots of the capture queue and the frames that wait, across everything that a pump does.
use hardware_floral_codec.Common.{
  ℕ, zero, suc, ◌≡◌, ◌≢◌, refl, ap, Bool, true, false, not, ◌||◌, leb, Option, none, some, List, [],
  ◌∷◌, arith, if-cases, length, get_or, set, All,
}
use hardware_floral_codec.DmaBuf.{MinigbmDmaBuf}
use hardware_floral_codec.Session.{
  c2_ok, c2_blocking, c2_bad_value, c2_bad_state, c2_not_found, c2_no_init, c2_no_memory,
  c2_corrupted, c2_omitted, c2_timed_out, c2_other, Buffer, Dequeued, dequeued, dequeue_failed,
}
use hardware_floral_codec.Session.DecoderCapture.{
  CaptureSlot, DecoderCapture, Fetched, fetched, not_fetched, Driver, has_block, slot_at, with_slot,
  Step, ◌and_then◌, queue_dma_buf, queue_decoder_capture, queue_fetched, refill_decoder_capture,
  get_decoder_dma_buf,
}
use hardware_floral_codec.Session.DecoderCapture.Pump.{
  ◌and_loop◌, take_buffer, handle_decoded, buffer_answered, capture_loop, pump_decoder_capture,
}

pub get_or-set-other :
    {A : Type 0} (xs : List A) (i j : ℕ) (v d : A) → i ≢ j → get_or (set xs i v) j d ≡ get_or xs j d
get_or-set-other [] i j v d h = refl
get_or-set-other (x ∷ xs) zero zero v d h = absurd (h refl)
get_or-set-other (x ∷ xs) zero (suc j) v d h = refl
get_or-set-other (x ∷ xs) (suc i) zero v d h = refl
get_or-set-other (x ∷ xs) (suc i) (suc j) v d h = get_or-set-other xs i j v d (λ e. h (ap suc e))

pub All-set :
    {A : Type 0} (P : A → Type 0) (xs : List A) (i : ℕ) (v : A)
    → All P xs
    → P v
    → All P (set xs i v)
All-set P [] i v h p = tt
All-set P (x ∷ xs) zero v h p = (p, h.1)
All-set P (x ∷ xs) (suc i) v h p = (h.0, All-set P xs i v h.1 p)

module _ {S K : Type 0} where
  -- What holds of the capture side behind a call, whatever its status.
  abbrev pub OnStep : (DecoderCapture K → Type 0) → Step S K → Type 0
  OnStep P (s, c, e) = P c

  abbrev pub OnLoop : (DecoderCapture K → Type 0) → Option (Step S K) → Type 0
  OnLoop P none = Unit
  OnLoop P (some r) = OnStep P r

  pub and_then-OnStep :
      (P : DecoderCapture K → Type 0) (r : Step S K) (next : S → DecoderCapture K → Step S K)
      → OnStep P r
      → ((s : S) (c : DecoderCapture K) → P c → OnStep P (next s c))
      → OnStep P (r and_then next)
  and_then-OnStep P (s, c, c2_ok) next h k = k s c h
  and_then-OnStep P (s, c, c2_blocking) next h k = h
  and_then-OnStep P (s, c, c2_bad_value) next h k = h
  and_then-OnStep P (s, c, c2_bad_state) next h k = h
  and_then-OnStep P (s, c, c2_not_found) next h k = h
  and_then-OnStep P (s, c, c2_no_init) next h k = h
  and_then-OnStep P (s, c, c2_no_memory) next h k = h
  and_then-OnStep P (s, c, c2_corrupted) next h k = h
  and_then-OnStep P (s, c, c2_omitted) next h k = h
  and_then-OnStep P (s, c, c2_timed_out) next h k = h
  and_then-OnStep P (s, c, (c2_other n)) next h k = h

  pub and_loop-OnLoop :
      (P : DecoderCapture K → Type 0) (r : Step S K)
      (loop : S → DecoderCapture K → Option (Step S K))
      → OnStep P r
      → ((s : S) (c : DecoderCapture K) → P c → OnLoop P (loop s c))
      → OnLoop P (r and_loop loop)
  and_loop-OnLoop P (s, c, c2_ok) loop h k = k s c h
  and_loop-OnLoop P (s, c, c2_blocking) loop h k = h
  and_loop-OnLoop P (s, c, c2_bad_value) loop h k = h
  and_loop-OnLoop P (s, c, c2_bad_state) loop h k = h
  and_loop-OnLoop P (s, c, c2_not_found) loop h k = h
  and_loop-OnLoop P (s, c, c2_no_init) loop h k = h
  and_loop-OnLoop P (s, c, c2_no_memory) loop h k = h
  and_loop-OnLoop P (s, c, c2_corrupted) loop h k = h
  and_loop-OnLoop P (s, c, c2_omitted) loop h k = h
  and_loop-OnLoop P (s, c, c2_timed_out) loop h k = h
  and_loop-OnLoop P (s, c, (c2_other n)) loop h k = h

module _ {K : Type 0} where
  abbrev pub full_slot : K → CaptureSlot K
  full_slot block = record { block = some block; queued = true }

  -- A property that taking a buffer keeps, and refilling its slot behind that.
  pub record Stable (P : DecoderCapture K → Type 0) : Type 0 where
    pub taken :
        (b : Buffer) (c : DecoderCapture K)
        → P c
        → has_block (slot_at c b.index).block ≡ true
        → P (take_buffer b c)
    pub refilled :
        (b : Buffer) (c : DecoderCapture K) (block : K)
        → P c
        → has_block (slot_at c b.index).block ≡ true
        → P (with_slot (take_buffer b c) b.index (full_slot block))

has_block_of : (a b : Bool) → a || not b ≡ false → b ≡ true
has_block_of a b h = ground arith

module _ {S K : Type 0} (d : Driver S K) (P : DecoderCapture K → Type 0) where
  queue_dma_buf-OnStep :
      (index : ℕ) (block : K) (b : Option MinigbmDmaBuf) (s : S) (c : DecoderCapture K)
      → P c
      → P (with_slot c index (full_slot block))
      → OnStep P (queue_dma_buf d index block b s c)
  queue_dma_buf-OnStep index block none s c h f = h
  queue_dma_buf-OnStep index block (some b) s c h f = if-cases (OnStep P) _ _ _ (λ e. f) (λ e. h)

  queue_fetched-OnStep :
      (index : ℕ) (c : DecoderCapture K) (r : S × Fetched K)
      → P c
      → ((block : K) → P (with_slot c index (full_slot block)))
      → OnStep P (queue_fetched d index c r)
  unfolding queue_decoder_capture
  queue_fetched-OnStep index c (s, not_fetched e) h f = h
  queue_fetched-OnStep index c (s, fetched block) h f =
      queue_dma_buf-OnStep index block (get_decoder_dma_buf d c block) s c h (f block)

  pub refill-OnStep :
      (index : ℕ) (s : S) (c : DecoderCapture K)
      → P c
      → ((block : K) → P (with_slot c index (full_slot block)))
      → OnStep P (refill_decoder_capture d index s c)
  unfolding refill_decoder_capture
  refill-OnStep index s c h f = queue_fetched-OnStep index c _ h f

  module _ (stable : Stable P) where
    handle_decoded-OnStep :
        (b : Buffer) (s : S) (c : DecoderCapture K) → P c → OnStep P (handle_decoded d b s c)
    unfolding handle_decoded
    handle_decoded-OnStep b s c h =
        if-cases (OnStep P) _ _ _ (λ bad. h)
          (λ good.
            let full = has_block_of (leb (length c.decoder_capture) b.index) _ good in
            if-cases (OnStep P) b.last _ _ (λ last. stable.taken b c h full)
              (λ more.
                refill-OnStep b.index s (take_buffer b c) (stable.taken b c h full)
                  (λ block. stable.refilled b c block h full)))

    buffer_answered-OnLoop :
        (loop : S → DecoderCapture K → Option (Step S K)) (c : DecoderCapture K) (r : S × Dequeued)
        → P c
        → ((s : S) (c' : DecoderCapture K) → P c' → OnLoop P (loop s c'))
        → OnLoop P (buffer_answered d loop c r)
    buffer_answered-OnLoop loop c (s, dequeue_failed e) h k = h
    buffer_answered-OnLoop loop c (s, dequeued b) h k =
        and_loop-OnLoop P (handle_decoded d b s c) loop (handle_decoded-OnStep b s c h) k

    capture_loop-OnLoop :
        (fuel : ℕ) (s : S) (c : DecoderCapture K) → P c → OnLoop P (capture_loop d fuel s c)
    unfolding capture_loop
    capture_loop-OnLoop zero s c h = tt
    capture_loop-OnLoop (suc fuel) s c h =
        buffer_answered-OnLoop (capture_loop d fuel) c _ h (capture_loop-OnLoop fuel)

    pub pump_decoder_capture-OnLoop :
        (fuel : ℕ) (s : S) (c : DecoderCapture K) → P c → OnLoop P (pump_decoder_capture d fuel s c)
    unfolding pump_decoder_capture
    pump_decoder_capture-OnLoop fuel s c h =
        if-cases (OnLoop P) c.decoder_capture_configured _ _
          (λ configured. capture_loop-OnLoop fuel s c h) (λ other. h)
