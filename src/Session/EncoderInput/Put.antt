-- ===== src/Session/EncoderInput/Put.antt =====
-- The image that is in its slot.
use hardware_floral_codec.Common.{
  ℕ, zero, suc, ◌≤◌, ◌≡◌, refl, ap, Bool, true, Option, List, [], ◌∷◌, ◌++◌, arith, if-cases, ◌==◌,
  length, length-append, set, subst, ◌%◌, ◌^◌, get_or, false,
}
use hardware_floral_codec.DmaBuf.{MinigbmDmaBuf, no_plane}
use hardware_floral_codec.EncoderMetadata.{Timeval, metadata}
use hardware_floral_codec.Session.Outcome.{
  Action, Ensures, then-Ensures, mono-Ensures, pure-Ensures, modify-Ensures, demand-Ensures,
  answered,
}
use hardware_floral_codec.Session.Device.{is_linear_nv12}
use hardware_floral_codec.Session.DecoderCapture.Slots.{All-set}
use hardware_floral_codec.Session.EncoderFrames.{EncoderInputSlot, EncoderQueues, released}
use hardware_floral_codec.Session.EncoderFrames.Taken.{IsSound, IsReleased}
use hardware_floral_codec.Session.EncoderFrames.Room.{IsFree}
use hardware_floral_codec.Session.Configure.{Driver, Encoder, configured, put_device, on_device}
use hardware_floral_codec.Session.Configure.Level.{checked-Ensures}
use hardware_floral_codec.Session.Configure.Formats.{apply_bitrate-Ensures}
use hardware_floral_codec.Session.EncoderInput.{
  Images, stride_of, held, queue_call, put_image, change_bitrate, request_key_frame, queue_image,
}
use hardware_floral_codec.Session.EncoderInput.Prepared.{held-IsReleased, HasSlot, IsRefused}

length-set : {A : Type 0} (xs : List A) (index : ℕ) (v : A) → length (set xs index v) ≡ length xs
length-set [] index v = refl
length-set (x ∷ xs) zero v = refl
length-set (x ∷ xs) (suc index) v = ap suc (length-set xs index v)

module _ {S B K G : Type 0} (d : Driver S) (i : Images S K G) where
  -- `VIDIOC_QBUF` of an image, with the index of its slot and its timestamp.
  abbrev pub qbuf_of : MinigbmDmaBuf → ℕ → Timeval → Encoder S B G → S → S × Bool
  qbuf_of image index t x =
      i.qbuf index (get_or image.planes 0 no_plane).fd (image.total_size % 2 ^ 32) x.raw_size t

  -- The last call of the driver is that, and the driver accepts it.
  pub record IsTaken (image : MinigbmDmaBuf) (index : ℕ) (t : Timeval) (x : Encoder S B G)
      : Type 0 where
    pub at : S
    pub accepted : (qbuf_of image index t x at).1 ≡ true
    pub device_now : x.device ≡ (qbuf_of image index t x at).0

  -- The driver has the image: it is linear and fits the raw format, the slot, which was free in the
  -- queues before, holds it or what it was converted to, and its index waits behind those of
  -- earlier images, which are no more than there are slots.
  pub record IsQueued (owner : B) (frame_index bitrate : ℕ) (t : Timeval)
      (before : EncoderQueues B G) (index : ℕ) (image : MinigbmDmaBuf) (converted : Option G)
      (x : Encoder S B G) : Type 0 where
    pub is_configured : configured x ≡ true
    pub sound : IsSound x.queues
    pub free : (any : EncoderInputSlot B G) → IsFree before index any
    pub taken : IsTaken image index t x
    pub linear : is_linear_nv12 d.same_inode image ≡ true
    pub same_stride : stride_of image ≡ x.raw_stride
    pub fits : x.raw_size ≤ image.total_size
    pub slots_now : x.queues.encoder_inputs ≡ set before.encoder_inputs index (held owner converted)
    pub metadata_now :
        x.queues.output.encoder_frame_metadata
        ≡ before.output.encoder_frame_metadata ++ (metadata t frame_index ∷ [])
    pub bounded : length x.queues.output.encoder_frame_metadata ≤ length x.queues.encoder_inputs
    pub bitrate_now : x.current_bitrate ≡ bitrate

  module _ (owner : B) (frame_index bitrate : ℕ) (t : Timeval) (sync : Bool)
      (before : EncoderQueues B G) where
    abbrev IsFit : MinigbmDmaBuf → ℕ → Encoder S B G → Type 0
    IsFit image index x =
        HasSlot index x
        × ((stride_of image ≡ x.raw_stride) × (x.raw_size ≤ image.total_size))
        × (x.queues ≡ before)

    abbrev HasBitrate : MinigbmDmaBuf → ℕ → Encoder S B G → Type 0
    HasBitrate image index x = IsFit image index x × (x.current_bitrate ≡ bitrate)

    change_bitrate-HasBitrate :
        (image : MinigbmDmaBuf) (index : ℕ) (x : Encoder S B G)
        → IsFit image index x
        → Ensures (λ u. HasBitrate image index) IsRefused (change_bitrate d i bitrate x)
    change_bitrate-HasBitrate image index x h =
        if-cases
          (λ (m : Action (Encoder S B G) (Unit {0})).
            Ensures (λ u. HasBitrate image index) IsRefused (m x))
          (bitrate == x.current_bitrate) _ _ (λ same. pure-Ensures x tt (h, ground arith))
          (λ other.
            apply_bitrate-Ensures d (HasBitrate image index) IsRefused bitrate x
              (λ s e ne. (ne, h.0.0.1)) (λ s b a. (h, a.current)))

    request_key_frame-HasBitrate :
        (image : MinigbmDmaBuf) (index : ℕ) (x : Encoder S B G)
        → HasBitrate image index x
        → Ensures (λ u. HasBitrate image index) IsRefused (request_key_frame d i sync x)
    request_key_frame-HasBitrate image index x h =
        if-cases
          (λ (m : Action (Encoder S B G) (Unit {0})).
            Ensures (λ u. HasBitrate image index) IsRefused (m x))
          sync _ _
          (λ asked.
            mono-Ensures
              (checked-Ensures (HasBitrate image index) IsRefused (λ x s k. k)
                (λ e x ne k. (ne, k.0.0.0.1)) _ x h)
              (λ u x' k. k.1) (λ e x' k. k))
          (λ not_asked. pure-Ensures x tt h)

    put_image-IsQueued :
        (image : MinigbmDmaBuf) (converted : Option G) (index : ℕ) (x : Encoder S B G)
        → is_linear_nv12 d.same_inode image ≡ true
        → HasBitrate image index x
        → IsTaken image index t x
        → IsQueued owner frame_index bitrate t before index image converted
            (put_image d i owner converted index t frame_index x)
    put_image-IsQueued image converted index x linear h taken =
        let free = h.0.0.1 released in
        let place = free.has_place in
        record {
          is_configured = h.0.0.0.0;
          sound = record {
            frames = h.0.0.0.1.frames;
            slots =
                All-set IsReleased x.queues.encoder_inputs index (held owner converted)
                  h.0.0.0.1.slots (held-IsReleased owner converted);
          };
          free = λ any. subst (λ q. IsFree q index any) h.0.2 (h.0.0.1 any);
          taken = record {
            at = taken.at;
            accepted = taken.accepted;
            device_now = taken.device_now;
          };
          linear = linear;
          same_stride = h.0.1.0;
          fits = h.0.1.1;
          slots_now = ap (λ q. set q.encoder_inputs index (held owner converted)) h.0.2;
          metadata_now =
              ap (λ q. q.output.encoder_frame_metadata ++ (metadata t frame_index ∷ [])) h.0.2;
          bounded = omega (
            arith,
            length-set x.queues.encoder_inputs index (held owner converted),
            length-append x.queues.output.encoder_frame_metadata (metadata t frame_index ∷ []),
          );
          bitrate_now = h.1;
        }

    call_Ensures :
        (image : MinigbmDmaBuf) (index : ℕ) (x : Encoder S B G) (r : S × Bool)
        → qbuf_of image index t x x.device ≡ r
        → HasBitrate image index x
        → Ensures
            (λ u x'. HasBitrate image index x' × IsTaken image index t x')
            IsRefused
            (put_device x (r.0, answered r.1))
    call_Ensures image index x (s, true) q h = record {
      holds = (h, record { at = x.device; accepted = rw q refl; device_now = rw q refl });
    }
    call_Ensures image index x (s, false) q h = record { holds = ((λ q. cc), h.0.0.0.1) }

    queue_call-IsTaken :
        (image : MinigbmDmaBuf) (index : ℕ) (x : Encoder S B G)
        → HasBitrate image index x
        → Ensures
            (λ u x'. HasBitrate image index x' × IsTaken image index t x')
            IsRefused
            (on_device (queue_call i image index t x.raw_size) x)
    unfolding on_device
    queue_call-IsTaken image index x h = call_Ensures image index x _ refl h

    pub queue_image-IsQueued :
        (image : MinigbmDmaBuf × Option G) (index : ℕ) (x : Encoder S B G)
        → is_linear_nv12 d.same_inode image.0 ≡ true
        → HasSlot index x
        → x.queues ≡ before
        → Ensures
            (λ u. IsQueued owner frame_index bitrate t before index image.0 image.1)
            IsRefused
            (queue_image d i owner frame_index t sync bitrate image index x)
    unfolding queue_image
    queue_image-IsQueued image index x linear h same =
        then-Ensures (λ u. IsFit image.0 index) _ _ _
          (demand-Ensures _ _ _ (λ fit. (h, (ground arith, ground arith), same)) ((λ q. cc), h.0.1))
          (λ u x1 h1.
            then-Ensures (λ u. HasBitrate image.0 index) _ _ _
              (change_bitrate-HasBitrate image.0 index x1 h1)
              (λ u x2 h2.
                then-Ensures (λ u. HasBitrate image.0 index) _ _ _
                  (request_key_frame-HasBitrate image.0 index x2 h2)
                  (λ u x3 h3.
                    then-Ensures _ _ _ _ (queue_call-IsTaken image.0 index x3 h3) (λ u x4 h4.
                      modify-Ensures _ _
                        (put_image-IsQueued image.0 image.1 index x4 linear h4.0 h4.1)))))
