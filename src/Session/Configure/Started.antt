-- ===== src/Session/Configure/Started.antt =====
-- The queues that ConfigureEncoder starts.
use hardware_floral_codec.Common.{ℕ, zero, suc, ◌≡◌, ◌≢◌, refl, Bool, true, List, [], arith, length}
use hardware_floral_codec.Session.Outcome.{
  Outcome, returns, fails, answered, after-Ensures, Ensures, bind-Ensures, then-Ensures,
  modify-Ensures, answered-Ensures,
}
use hardware_floral_codec.Session.Device.{
  output_queue, capture_queue, dmabuf_memory, mmap_memory, queue_buffer_count,
}
use hardware_floral_codec.Session.Device.Answers.{
  IsError, request_buffers-ne-zero, OnMapped, map_buffers-OnMapped, OnStarted, stream_on-OnStarted,
}
use hardware_floral_codec.Session.Configure.{
  Driver, Encoder, configured, put_mapped, put_capture_streaming, put_output_streaming,
  queue_captures, start_queues,
}
use hardware_floral_codec.Session.Configure.Level.{on_device-Ensures}
use hardware_floral_codec.Session.Configure.Formats.{
  AreFree, resize_inputs-AreFree, length-resize_inputs, IsUnset, NotReady,
}

module _ {S : Type 0} (d : Driver S) where
  queued-Ensures : (s : S) (b : Bool) → Ensures (λ u s'. Unit) IsError (s, answered b)
  queued-Ensures s b = answered-Ensures s b (λ h. tt) (λ q. cc)

  queue_captures-Ensures :
      (n index : ℕ) (s : S) → Ensures (λ u s'. Unit) IsError (queue_captures d n index s)
  unfolding queue_captures
  queue_captures-Ensures zero index s = record { holds = tt }
  queue_captures-Ensures (suc n) index s =
      after-Ensures (λ u s'. Unit) _ _ (queued-Ensures _ _)
        (λ u s' h. queue_captures-Ensures n (suc index) s')

module _ {S B G : Type 0} where
  -- What a start of the queues leaves as it was.
  abbrev pub Kept : Encoder S B G → Encoder S B G → Type 0
  Kept x0 x =
      (x.raw_stride ≡ x0.raw_stride)
      × (x.raw_size ≡ x0.raw_size)
      × (x.current_bitrate ≡ x0.current_bitrate)
      × (x.effective_bitrate ≡ x0.effective_bitrate)
      × (x.encoder_peak_bitrate ≡ x0.encoder_peak_bitrate)

  -- Both queues run, with free slots for images and with mapped buffers for frames.
  abbrev pub Runs : Encoder S B G → Type 0
  Runs x =
      (configured x ≡ true)
      × (x.capture_streaming ≡ true)
      × (x.output_streaming ≡ true)
      × (x.queues.output.encoder_pending ≡ [])
      × AreFree x.queues.encoder_inputs
      × (length x.queues.encoder_inputs ≢ 0)
      × (length x.queues.output.capture_mmaps ≢ 0)
      × (x.queues.output.encoder_frame_metadata ≡ [])

module _ {S B G : Type 0} (d : Driver S) where
  module _ (x0 : Encoder S B G) where
    abbrev Stage : (Encoder S B G → Type 0) → Encoder S B G → Type 0
    Stage P x = (IsUnset x × Kept x0 x) × P x

    put_mapped-Ensures :
        (x : Encoder S B G) (count : ℕ) (r : S × List (List ℕ) × Outcome (Unit {0}))
        → count ≢ 0
        → Stage (λ x. length x.queues.encoder_inputs ≢ 0) x
        → OnMapped d.device count r
        → Ensures
            (λ u. Stage (λ x.
              (length x.queues.encoder_inputs ≢ 0) × (length x.queues.output.capture_mmaps ≢ 0)))
            NotReady
            (put_mapped x r)
    put_mapped-Ensures x count (s, mmaps, returns u) ne h q = record {
      holds = (h.0, (h.1, rw q ne));
    }
    put_mapped-Ensures x count (s, mmaps, fails e) ne h q = record { holds = (q, h.0.0) }

    put_capture-Ensures :
        (P : Encoder S B G → Type 0) (x : Encoder S B G) (r : S × Bool × Outcome (Unit {0}))
        → IsUnset x
        → ((s : S) (b : Bool) → b ≡ true → P (record x { device = s; capture_streaming = b }))
        → OnStarted d.device r
        → Ensures (λ u. P) NotReady (put_capture_streaming x r)
    put_capture-Ensures P x (s, b, returns u) h k q = record { holds = k s b q }
    put_capture-Ensures P x (s, b, fails e) h k q = record { holds = (q, h) }

    put_output-Ensures :
        (P : Encoder S B G → Type 0) (x : Encoder S B G) (r : S × Bool × Outcome (Unit {0}))
        → IsUnset x
        → ((s : S) (b : Bool) → b ≡ true → P (record x { device = s; output_streaming = b }))
        → OnStarted d.device r
        → Ensures (λ u. P) NotReady (put_output_streaming x r)
    put_output-Ensures P x (s, b, returns u) h k q = record { holds = k s b q }
    put_output-Ensures P x (s, b, fails e) h k q = record { holds = (q, h) }

    pub start_queues-Runs :
        IsUnset x0 → Ensures (λ u x. Runs x × Kept x0 x) NotReady (start_queues d x0)
    unfolding start_queues
    start_queues-Runs h =
        bind-Ensures _ _ _ _
          (on_device-Ensures (λ x. IsUnset x × Kept x0 x) NotReady (λ x s k. k)
            (λ e x ne k. (ne, k.0)) _ _ x0 (h, (refl, refl, refl, refl, refl))
            (request_buffers-ne-zero d.device output_queue dmabuf_memory queue_buffer_count
              x0.device (omega arith)))
          (λ inputs x1 h1.
            then-Ensures (λ u. Stage (λ x. length x.queues.encoder_inputs ≢ 0)) _ _ _
              (modify-Ensures _ _ (
                (
                  (
                    h1.1.0.0,
                    h1.1.0.1,
                    resize_inputs-AreFree inputs x1.queues.encoder_inputs h1.1.0.2,
                    h1.1.0.3,
                  ),
                  h1.1.1,
                ),
                rw (length-resize_inputs inputs x1.queues.encoder_inputs) h1.0,
              ))
              (λ u x2 h2.
                bind-Ensures _ _ _ _
                  (on_device-Ensures (Stage (λ x. length x.queues.encoder_inputs ≢ 0)) NotReady
                    (λ x s k. k) (λ e x ne k. (ne, k.0.0)) _ _ x2 h2
                    (request_buffers-ne-zero d.device capture_queue mmap_memory queue_buffer_count
                      x2.device (omega arith)))
                  (λ captures x3 h3.
                    then-Ensures
                      (λ u. Stage (λ x.
                        (length x.queues.encoder_inputs ≢ 0)
                        × (length x.queues.output.capture_mmaps ≢ 0)))
                      _ _ _
                      (put_mapped-Ensures x3 captures _ h3.0 h3.1 (
                        map_buffers-OnMapped d.device capture_queue captures 0 captures [] x3.device
                          (omega arith)))
                      (λ u x4 h4.
                        then-Ensures _ _ _ _
                          (on_device-Ensures
                            (Stage (λ x.
                              (length x.queues.encoder_inputs ≢ 0)
                              × (length x.queues.output.capture_mmaps ≢ 0)))
                            NotReady (λ x s k. k) (λ e x ne k. (ne, k.0.0)) (λ u. Unit) _ x4 h4
                            (queue_captures-Ensures d captures 0 x4.device))
                          (λ u x5 h5.
                            then-Ensures
                              (λ u. Stage (λ x.
                                ((length x.queues.encoder_inputs ≢ 0)
                                  × (length x.queues.output.capture_mmaps ≢ 0))
                                × (x.capture_streaming ≡ true)))
                              _ _ _
                              (put_capture-Ensures _ x5 _ h5.1.0.0 (λ s b q. (h5.1.0, (h5.1.1, q)))
                                (stream_on-OnStarted d.device capture_queue x5.capture_streaming
                                  x5.device))
                              (λ u x6 h6.
                                then-Ensures
                                  (λ u. Stage (λ x.
                                    (((length x.queues.encoder_inputs ≢ 0)
                                        × (length x.queues.output.capture_mmaps ≢ 0))
                                      × (x.capture_streaming ≡ true))
                                    × (x.output_streaming ≡ true)))
                                  _ _ _
                                  (put_output-Ensures _ x6 _ h6.0.0 (λ s b q. (h6.0, (h6.1, q)))
                                    (stream_on-OnStarted d.device output_queue x6.output_streaming
                                      x6.device))
                                  (λ u x7 h7. modify-Ensures _ _ (
                                    (
                                      refl, h7.1.0.1, h7.1.1, h7.0.0.1, h7.0.0.2, h7.1.0.0.0,
                                      h7.1.0.0.1, h7.0.0.3,
                                    ),
                                    h7.0.1,
                                  ))))))))
