-- ===== src/Session/EncoderInput/Queued.antt =====
-- The image that QueueEncoderFrame hands to the driver.
use hardware_floral_codec.Common.{
  ℕ, ◌≡◌, ◌≢◌, ◌⊎◌, inl, inr, refl, Bool, true, false, Option, none, some, List, [], ◌∷◌, if-cases,
}
use hardware_floral_codec.Common.Int.{ℤ}
use hardware_floral_codec.CodecSpec.{CodecType}
use hardware_floral_codec.DmaBuf.{MinigbmDmaBuf}
use hardware_floral_codec.EncoderMetadata.{Timeval, make_encoder_timestamp}
use hardware_floral_codec.Session.{C2Status}
use hardware_floral_codec.Session.Outcome.{
  Outcome, returns, fails, Action, Ensures, bind-Ensures, then-Ensures, after-Ensures, mono-Ensures,
  pure-Ensures, modify-Ensures, traced-Ensures,
}
use hardware_floral_codec.Session.Device.{is_linear_nv12}
use hardware_floral_codec.Session.EncoderFrames.{EncoderQueues, Room}
use hardware_floral_codec.Session.EncoderFrames.Taken.{IsSound}
use hardware_floral_codec.Session.EncoderFrames.Room.{HasRoom, find_room-HasRoom}
use hardware_floral_codec.Session.EncoderFrames.Kept.{find_room-keeps}
use hardware_floral_codec.Session.Configure.{
  EncoderSettings, Driver, Encoder, configured, on_device,
}
use hardware_floral_codec.Session.Configure.Level.{on_device-Ensures}
use hardware_floral_codec.Session.Configure.Formats.{IsUnset}
use hardware_floral_codec.Session.Configure.Ready.{configure_encoder-Final}
use hardware_floral_codec.Session.EncoderInput.{
  Images, graphic, prepare_image, configure_first, queue_in_slot, put_room, choose_slot, then_queue,
  queue_graphic, queue_encoder_frame,
}
use hardware_floral_codec.Session.EncoderInput.Prepared.{
  IsUnset-IsSound, HasSlot, Runs-HasSlot, IsRefused, PoolFails, prepare_image-IsLinear,
}
use hardware_floral_codec.Session.EncoderInput.Put.{IsQueued, queue_image-IsQueued}

apart : (b : Bool) → b ≡ true → b ≢ false
apart b t f = cc

module _ {S B K G : Type 0} (d : Driver S) (i : Images S K G) where
  -- An encoder that is configured with a slot, or is not configured yet.
  abbrev IsStarted : ℕ → Encoder S B G → Type 0
  IsStarted index x = HasSlot index x ⊎ IsUnset x

  IsStarted-IsSound : (index : ℕ) (x : Encoder S B G) → IsStarted index x → IsSound x.queues
  IsStarted-IsSound index x (inl h) = h.0.1
  IsStarted-IsSound index x (inr h) = IsUnset-IsSound x h.1 h.2

  has_slot :
      (index : ℕ) (x : Encoder S B G) → IsStarted index x → configured x ≡ true → HasSlot index x
  has_slot index x (inl h) ready = h
  has_slot index x (inr h) ready = absurd (apart (configured x) ready h.0)

  is_unset : (index : ℕ) (x : Encoder S B G) → IsStarted index x → configured x ≡ false → IsUnset x
  is_unset index x (inl h) first = absurd (apart (configured x) h.0.0 first)
  is_unset index x (inr h) first = h

  moved :
      (index : ℕ) (x : Encoder S B G) (s : S)
      → IsStarted index x
      → IsStarted index (record x { device = s })
  moved index x s (inl h) = inl h
  moved index x s (inr h) = inr h

  configure_first-HasSlot :
      (codec : CodecType) (settings : EncoderSettings) (bitrate : ℕ) (image : MinigbmDmaBuf)
      (index : ℕ) (x : Encoder S B G)
      → IsStarted index x
      → Ensures HasSlot IsRefused (configure_first d i codec settings bitrate image index x)
  unfolding configure_first
  configure_first-HasSlot codec settings bitrate image index x started =
      if-cases (λ (m : Action (Encoder S B G) ℕ). Ensures HasSlot IsRefused (m x)) (configured x) _
        _ (λ ready. pure-Ensures x index (has_slot index x started ready))
        (λ first.
          then-Ensures (λ u. HasSlot 0) _ _ _
            (then-Ensures (λ u. IsUnset) _ _ _ (modify-Ensures _ _ (is_unset index x started first))
              (λ u x1 h1.
                mono-Ensures
                  (configure_encoder-Final d codec (record settings { bitrate = bitrate }) image x1
                    h1)
                  (λ u x2 h2. Runs-HasSlot x2 h2.2.runs)
                  (λ e x2 h2. (h2.0, IsUnset-IsSound x2 h2.1.1 h2.1.2))))
            (λ u x3 h3. pure-Ensures x3 0 h3))

  -- The image of a buffer is that of `prepare_image`, the slot that of `configure_first`, and the
  -- queues before it those of the encoder that this leaves.
  pub record IsPut (codec : CodecType) (settings : EncoderSettings) (pool : Bool) (owner : B)
      (block : K) (frame_index : ℕ) (t : Timeval) (bitrate index : ℕ) (start x : Encoder S B G)
      : Type 0 where
    pub image : MinigbmDmaBuf × Option G
    pub behind_image : Encoder S B G
    pub prepared :
        on_device (prepare_image d i settings pool block) start ≡ (behind_image, returns image)
    pub slot : ℕ
    pub behind_slot : Encoder S B G
    pub placed :
        configure_first d i codec settings bitrate image.0 index behind_image
        ≡ (behind_slot, returns slot)
    pub queued : IsQueued d i owner frame_index bitrate t behind_slot.queues slot image.0 image.1 x

  queue_in_slot-IsPut :
      (fails_so : PoolFails d i) (codec : CodecType) (settings : EncoderSettings) (pool : Bool)
      (owner : B) (block : K) (frame_index : ℕ) (t : Timeval) (sync : Bool) (bitrate index : ℕ)
      (x : Encoder S B G)
      → IsStarted index x
      → Ensures
          (λ u. IsPut codec settings pool owner block frame_index t bitrate index x)
          IsRefused
          (queue_in_slot d i codec settings pool owner block frame_index t sync bitrate index x)
  unfolding queue_in_slot
  queue_in_slot-IsPut fails_so codec settings pool owner block frame_index t sync bitrate index x
        h =
      bind-Ensures _ _ _ _
        (traced-Ensures (
          on_device-Ensures (IsStarted index) IsRefused (λ x s k. moved index x s k)
            (λ e x ne k. (ne, IsStarted-IsSound index x k))
            (λ image. is_linear_nv12 d.same_inode image.0 ≡ true) _ x h
            (prepare_image-IsLinear d i fails_so settings pool block x.device)))
        (λ image x1 h1.
          bind-Ensures _ _ _ _
            (traced-Ensures
              (configure_first-HasSlot codec settings bitrate image.0 index x1 h1.1.1))
            (λ slot x2 h2.
              mono-Ensures
                (queue_image-IsQueued d i owner frame_index bitrate t sync x2.queues image slot x2
                  h1.1.0 h2.1 refl)
                (λ u x3 h3. record {
                  image = image;
                  behind_image = x1;
                  prepared = h1.0;
                  slot = slot;
                  behind_slot = x2;
                  placed = h2.0;
                  queued = h3;
                })
                (λ e x3 h3. h3)))

  -- What QueueEncoderFrame begins with: an encoder that runs, or one that is not configured yet.
  abbrev pub IsOpen : Encoder S B G → Type 0
  IsOpen x = ((configured x ≡ true) × IsSound x.queues) ⊎ IsUnset x

  IsOpen-IsSound : (x : Encoder S B G) → IsOpen x → IsSound x.queues
  IsOpen-IsSound x (inl h) = h.1
  IsOpen-IsSound x (inr h) = IsUnset-IsSound x h.1 h.2

  abbrev OnChosen : Option (Encoder S B G × Outcome ℕ) → Type 0
  OnChosen none = Unit
  OnChosen (some (x, returns index)) = IsStarted index x
  OnChosen (some (x, fails e)) = IsRefused e x

  put_room-OnChosen :
      (x : Encoder S B G) (r : Room S B G)
      → ((s : S) (m : EncoderQueues B G) (e : C2Status) (index : Option ℕ)
          → r ≡ some (s, m, e, index)
          → (IsSound m × HasRoom m e index) × (m.output.encoder_configured ≡ true))
      → OnChosen (put_room d i x r)
  put_room-OnChosen x none k = tt
  put_room-OnChosen x (some (s, m, e, none)) k = let h = k s m e none refl in (h.0.1, h.0.0)
  put_room-OnChosen x (some (s, m, e, some index)) k =
      let h = k s m e (some index) refl in inl ((h.1, h.0.0), h.0.1.1)

  choose_slot-OnChosen :
      (fuel : ℕ) (x : Encoder S B G) → IsOpen x → OnChosen (choose_slot d i fuel x)
  unfolding choose_slot
  choose_slot-OnChosen fuel x (inl h) =
      if-cases OnChosen (configured x) _ _
        (λ ready. put_room-OnChosen x _ (λ s m e index q. (
          find_room-HasRoom d.frames fuel x.device s x.queues m e index h.1 q,
          find_room-keeps d.frames fuel true x.device s x.queues m e index h.0 q,
        )))
        (λ first. absurd (apart (configured x) h.0 first))
  choose_slot-OnChosen fuel x (inr h) =
      if-cases OnChosen (configured x) _ _ (λ ready. absurd (apart (configured x) ready h.0))
        (λ first. inr h)

  -- The image is put with the settings of the encoder, from the buffer's first block, under the
  -- timestamp of its number, in the slot that `choose_slot` gives.
  pub record IsDone (fuel : ℕ) (codec : CodecType) (pool : Bool) (owner : B) (blocks : List K)
      (frame_index : ℕ) (timestamp : ℤ) (bitrate : ℕ) (start x : Encoder S B G) : Type 0 where
    pub settings : EncoderSettings
    pub selected : start.encoder_settings ≡ some settings
    pub block : K
    pub others : List K
    pub same_blocks : blocks ≡ block ∷ others
    pub stamp : Timeval
    pub stamped : make_encoder_timestamp timestamp ≡ some stamp
    pub index : ℕ
    pub behind_choice : Encoder S B G
    pub chosen : choose_slot d i fuel start ≡ some (behind_choice, returns index)
    pub put : IsPut codec settings pool owner block frame_index stamp bitrate index behind_choice x

  module _ (fuel : ℕ) (codec : CodecType) (pool : Bool) (owner : B) (blocks : List K)
      (frame_index : ℕ) (timestamp : ℤ) (bitrate : ℕ) (start : Encoder S B G) where
    -- How QueueEncoderFrame ends: the image is queued, or an error leaves the queues sound.
    abbrev pub Ends : Encoder S B G × Outcome (Unit {0}) → Type 0
    Ends (x, returns u) = IsDone fuel codec pool owner blocks frame_index timestamp bitrate start x
    Ends (x, fails e) = IsRefused e x

    abbrev pub OnEnd : Option (Encoder S B G × Outcome (Unit {0})) → Type 0
    OnEnd none = Unit
    OnEnd (some r) = Ends r

    ended :
        (r : Encoder S B G × Outcome (Unit {0}))
        → Ensures
            (λ u. IsDone fuel codec pool owner blocks frame_index timestamp bitrate start)
            IsRefused
            r
        → Ends r
    ended (x, returns u) h = h.holds
    ended (x, fails c) h = h.holds

    then_queue-OnEnd :
        (f : ℕ → Action (Encoder S B G) (Unit {0})) (r : Option (Encoder S B G × Outcome ℕ))
        → choose_slot d i fuel start ≡ r
        → ((index : ℕ) (x : Encoder S B G)
            → choose_slot d i fuel start ≡ some (x, returns index)
            → IsStarted index x
            → Ensures
                (λ u. IsDone fuel codec pool owner blocks frame_index timestamp bitrate start)
                IsRefused
                (f index x))
        → OnChosen r
        → OnEnd (then_queue d i f r)
    then_queue-OnEnd f none q k h = tt
    then_queue-OnEnd f (some (x, returns index)) q k h = ended _ (
        after-Ensures
          (λ index x. (choose_slot d i fuel start ≡ some (x, returns index)) × IsStarted index x) f
          (x, returns index) (record { holds = (q, h) }) (λ index x k1. k index x k1.0 k1.1))
    then_queue-OnEnd f (some (x, fails c)) q k h = ended _ (
        after-Ensures
          (λ index x. (choose_slot d i fuel start ≡ some (x, returns index)) × IsStarted index x) f
          (x, fails c) (record { holds = h }) (λ index x k1. k index x k1.0 k1.1))

  module _ (fails_so : PoolFails d i) (fuel : ℕ) (codec : CodecType) (pool : Bool) (owner : B)
      (frame_index : ℕ) (timestamp : ℤ) (sync : Bool) (bitrate : ℕ) where
    queue_graphic-OnEnd :
        (x : Encoder S B G) (blocks : List K) (settings : Option EncoderSettings)
        (t : Option Timeval)
        → x.encoder_settings ≡ settings
        → make_encoder_timestamp timestamp ≡ t
        → IsOpen x
        → OnEnd fuel codec pool owner blocks frame_index timestamp bitrate x
            (queue_graphic d i fuel codec pool owner blocks frame_index sync bitrate x settings t)
    queue_graphic-OnEnd x blocks none t s e h = ((λ q. cc), IsOpen-IsSound x h)
    queue_graphic-OnEnd x blocks (some settings) none s e h = ((λ q. cc), IsOpen-IsSound x h)
    queue_graphic-OnEnd x [] (some settings) (some t) s e h = ((λ q. cc), IsOpen-IsSound x h)
    queue_graphic-OnEnd x (block ∷ blocks) (some settings) (some t) s e h =
        then_queue-OnEnd fuel codec pool owner (block ∷ blocks) frame_index timestamp bitrate x _ _
          refl
          (λ index x1 q h1.
            mono-Ensures
              (queue_in_slot-IsPut fails_so codec settings pool owner block frame_index t sync
                bitrate index x1 h1)
              (λ u x2 h2. record {
                settings = settings;
                selected = s;
                block = block;
                others = blocks;
                same_blocks = refl;
                stamp = t;
                stamped = e;
                index = index;
                behind_choice = x1;
                chosen = q;
                put = h2;
              })
              (λ c x2 h2. h2))
          (choose_slot-OnChosen fuel x h)

    pub queue_encoder_frame-OnEnd :
        (blocks : List K) (x : Encoder S B G)
        → IsOpen x
        → OnEnd fuel codec pool owner blocks frame_index timestamp bitrate x (
            queue_encoder_frame d i fuel codec pool
              (graphic owner blocks)
              frame_index
              timestamp
              sync
              bitrate
              x)
    unfolding queue_encoder_frame
    queue_encoder_frame-OnEnd blocks x h =
        queue_graphic-OnEnd x blocks x.encoder_settings (make_encoder_timestamp timestamp) refl refl
          h
