-- ===== src/Session/EncoderInput/Ended.antt =====
-- QueueEncoderFrame comes to an end.
use hardware_floral_codec.Common.{
  ℕ, ◌<◌, ◌≡◌, refl, Bool, Option, none, some, List, [], ◌∷◌, arith, if-cases,
}
use hardware_floral_codec.Common.Int.{ℤ}
use hardware_floral_codec.CodecSpec.{CodecType}
use hardware_floral_codec.EncoderMetadata.{Timeval, make_encoder_timestamp}
use hardware_floral_codec.Session.Outcome.{Outcome, Action}
use hardware_floral_codec.Session.EncoderFrames.{Room}
use hardware_floral_codec.Session.EncoderFrames.Settled.{Settles, Returns, find_room-Returns}
use hardware_floral_codec.Session.Configure.{EncoderSettings, Driver, Encoder, configured}
use hardware_floral_codec.Session.EncoderInput.{
  Images, graphic, put_room, choose_slot, then_queue, queue_graphic, queue_encoder_frame,
}
use hardware_floral_codec.Session.EncoderInput.Prepared.{PoolFails}
use hardware_floral_codec.Session.EncoderInput.Queued.{
  IsOpen, Ends, OnEnd, queue_encoder_frame-OnEnd,
}

module _ {S B K G : Type 0} (d : Driver S) (i : Images S K G) (work : S → ℕ)
    (settles : Settles work d.frames) (fuel : ℕ) where
  put_room-Returns :
      (x : Encoder S B G) (r : Room S B G) → Returns work r → Returns work (put_room d i x r)
  put_room-Returns x none h = absurd (h refl)
  put_room-Returns x (some (s, q, e, none)) h = λ q. cc
  put_room-Returns x (some (s, q, e, some index)) h = λ q. cc

  choose_slot-Returns :
      (x : Encoder S B G) → work x.device < fuel → Returns work (choose_slot d i fuel x)
  unfolding choose_slot
  choose_slot-Returns x enough =
      if-cases (Returns work) (configured x) _ _
        (λ ready. put_room-Returns x _ (
          find_room-Returns work d.frames settles fuel (work x.device) enough x.device x.queues
            (omega arith)))
        (λ first q. cc)

  then_queue-Returns :
      (f : ℕ → Action (Encoder S B G) (Unit {0})) (r : Option (Encoder S B G × Outcome ℕ))
      → Returns work r
      → Returns work (then_queue d i f r)
  then_queue-Returns f none h = absurd (h refl)
  then_queue-Returns f (some r) h = λ q. cc

  queue_graphic-Returns :
      (codec : CodecType) (pool : Bool) (owner : B) (blocks : List K) (frame_index : ℕ)
      (sync : Bool) (bitrate : ℕ) (x : Encoder S B G) (settings : Option EncoderSettings)
      (t : Option Timeval)
      → work x.device < fuel
      → Returns work
          (queue_graphic d i fuel codec pool owner blocks frame_index sync bitrate x settings t)
  queue_graphic-Returns codec pool owner blocks frame_index sync bitrate x none t h = λ q. cc
  queue_graphic-Returns codec pool owner blocks frame_index sync bitrate x (some settings) none h =
      λ q. cc
  queue_graphic-Returns codec pool owner [] frame_index sync bitrate x (some settings) (some t) h =
      λ q. cc
  queue_graphic-Returns codec pool owner (block ∷ blocks) frame_index sync bitrate x (some settings)
        (some t) h =
      then_queue-Returns _ _ (choose_slot-Returns x h)

  abbrev Result :
      (Encoder S B G × Outcome (Unit {0}) → Type 0)
      → Option (Encoder S B G × Outcome (Unit {0}))
      → Type 0
  Result P r = (ended : Encoder S B G × Outcome (Unit {0})) × (r ≡ some ended) × P ended

  result_of :
      (codec : CodecType) (pool : Bool) (owner : B) (blocks : List K) (frame_index : ℕ)
      (timestamp : ℤ) (bitrate : ℕ) (x : Encoder S B G)
      (r : Option (Encoder S B G × Outcome (Unit {0})))
      → OnEnd d i fuel codec pool owner blocks frame_index timestamp bitrate x r
      → Returns work r
      → Result (Ends d i fuel codec pool owner blocks frame_index timestamp bitrate x) r
  result_of codec pool owner blocks frame_index timestamp bitrate x none h k = absurd (k refl)
  result_of codec pool owner blocks frame_index timestamp bitrate x (some r) h k = (r, refl, h)

  module _ (fails_so : PoolFails d i) (codec : CodecType) (pool : Bool) (owner : B)
      (blocks : List K) (frame_index : ℕ) (timestamp : ℤ) (sync : Bool) (bitrate : ℕ)
      (x : Encoder S B G) where
    returned :
        work x.device < fuel
        → Returns work (
            queue_encoder_frame d i fuel codec pool
              (graphic owner blocks)
              frame_index
              timestamp
              sync
              bitrate
              x)
    unfolding queue_encoder_frame
    returned enough =
        queue_graphic-Returns codec pool owner blocks frame_index sync bitrate x x.encoder_settings
          (make_encoder_timestamp timestamp) enough

    -- QueueEncoderFrame on a graphic buffer, by an encoder that runs or is not configured yet,
    -- whose waiting frames lie within their capture buffers and whose free slots hold nothing,
    -- with a device that gives fewer answers than the fuel, and a pool that does not say C2_OK
    -- where it gives no block: it returns. With C2_OK, the encoder is configured and the requested
    -- bitrate is set; the image that prepare_image makes of the first block, which is linear NV12
    -- and fits the negotiated layout, was given to the driver by VIDIOC_QBUF, which the driver
    -- accepted and which is its last call, with the descriptor and the size of the image, the
    -- timestamp of the frame, and the index of the slot that choose_slot gave, or of the first one
    -- where this frame configured the encoder; that slot was free, and holds the image or the
    -- block that it was converted to; the timestamp and the index of the frame wait behind the
    -- earlier ones, and no more frames are on their way than there are slots. With an error, the
    -- queues stay as sound as they were.
    pub queue_encoder_frame-Ends :
        IsOpen d i x
        → work x.device < fuel
        → (r : Encoder S B G × Outcome (Unit {0})) × (queue_encoder_frame d i fuel codec pool
              (graphic owner blocks)
              frame_index
              timestamp
              sync
              bitrate
              x
            ≡ some r)
          × Ends d i fuel codec pool owner blocks frame_index timestamp bitrate x r
    queue_encoder_frame-Ends h enough =
        result_of codec pool owner blocks frame_index timestamp bitrate x _
          (queue_encoder_frame-OnEnd d i fails_so fuel codec pool owner frame_index timestamp sync
            bitrate blocks x h)
          (returned enough)
