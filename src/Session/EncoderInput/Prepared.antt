-- ===== src/Session/EncoderInput/Prepared.antt =====
-- What QueueEncoderFrame has before it queues an image: the image as linear NV12, and a slot.
use hardware_floral_codec.Common.{
  ℕ, ◌≡◌, ◌≢◌, refl, sym, ap, subst, Bool, true, false, Option, none, some, List, [], ◌∷◌, All,
  arith, if-cases, length, get_or,
}
use hardware_floral_codec.DmaBuf.{MinigbmDmaBuf}
use hardware_floral_codec.Session.{C2Status, c2_ok, c2_omitted}
use hardware_floral_codec.Session.Outcome.{
  Action, Ensures, bind-Ensures, then-Ensures, pure-Ensures, demand-Ensures, status-Ensures,
  of_status,
}
use hardware_floral_codec.Session.Device.{is_linear_nv12}
use hardware_floral_codec.Session.Device.Answers.{IsError}
use hardware_floral_codec.Session.DecoderCapture.{Fetched, fetched, not_fetched}
use hardware_floral_codec.Session.EncoderFrames.{EncoderInputSlot}
use hardware_floral_codec.Session.EncoderFrames.Taken.{IsSound, IsReleased}
use hardware_floral_codec.Session.EncoderFrames.Room.{IsFree}
use hardware_floral_codec.Session.EncoderOutput.Frames.{IsSafe}
use hardware_floral_codec.Session.Configure.{EncoderSettings, Driver, Encoder, configured}
use hardware_floral_codec.Session.Configure.Formats.{AreFree}
use hardware_floral_codec.Session.Configure.Started.{Runs}
use hardware_floral_codec.Session.EncoderInput.{
  Images, found, fetched_block, held, dma_buf_of, convert_image, prepare_image,
}

module _ {B G : Type 0} where
  AreFree-IsReleased : (slots : List (EncoderInputSlot B G)) → AreFree slots → All IsReleased slots
  AreFree-IsReleased [] h = tt
  AreFree-IsReleased (slot ∷ slots) h = (
    (λ q. (
      ap (λ (y : EncoderInputSlot B G). y.owner) h.0,
      ap (λ (y : EncoderInputSlot B G). y.converted_block) h.0,
    )),
    AreFree-IsReleased slots h.1,
  )

  AreFree-first :
      (slots : List (EncoderInputSlot B G)) (any : EncoderInputSlot B G)
      → AreFree slots
      → length slots ≢ 0
      → (get_or slots 0 any).queued ≡ false
  AreFree-first [] any h ne = absurd (ne refl)
  AreFree-first (slot ∷ slots) any h ne = ap (λ (y : EncoderInputSlot B G). y.queued) h.0

  pub held-IsReleased : (owner : B) (g : Option G) → IsReleased (held owner g)
  held-IsReleased owner none q = cc
  held-IsReleased owner (some g) q = cc

module _ {S B G : Type 0} where
  pub IsUnset-IsSound :
      (x : Encoder S B G)
      → x.queues.output.encoder_pending ≡ []
      → AreFree x.queues.encoder_inputs
      → IsSound x.queues
  IsUnset-IsSound x none_waits free = record {
    frames = subst (All (IsSafe x.queues.output.capture_mmaps)) (sym none_waits) tt;
    slots = AreFree-IsReleased x.queues.encoder_inputs free;
  }

  -- A configured encoder with a slot for an image and a place for its index.
  abbrev pub HasSlot : ℕ → Encoder S B G → Type 0
  HasSlot index x =
      ((configured x ≡ true) × IsSound x.queues)
      × ((any : EncoderInputSlot B G) → IsFree x.queues index any)

  pub Runs-HasSlot : (x : Encoder S B G) → Runs x → HasSlot 0 x
  Runs-HasSlot x r = (
    (r.0, IsUnset-IsSound x r.3 r.4),
    λ any. record {
      exists = let ne = r.5 in ground arith;
      not_queued = AreFree-first x.queues.encoder_inputs any r.4 r.5;
      has_place =
          let ne = r.5 in
          let e : length x.queues.output.encoder_frame_metadata ≡ 0 = rw r.7 refl in ground arith;
    },
  )

  -- An error leaves the queues sound.
  abbrev pub IsRefused : C2Status → Encoder S B G → Type 0
  IsRefused e x = (e ≢ c2_ok) × IsSound x.queues

module _ {S K G : Type 0} (d : Driver S) (i : Images S K G) where
  -- A pool that gives no block has an error.
  abbrev pub PoolFails : Type 0
  PoolFails =
      (width height : ℕ) (s : S) (e : C2Status)
      → (i.fetch_block width height s).1 ≡ not_fetched e
      → e ≢ c2_ok

  abbrev pub IsLinear : {X : Type 0} → MinigbmDmaBuf × Option G → X → Type 0
  IsLinear image x = is_linear_nv12 d.same_inode image.0 ≡ true

  found-Ensures :
      {X A : Type 0} (r : Option A) (x : X) → Ensures (λ a x. Unit) IsError (found c2_omitted r x)
  found-Ensures none x = record { holds = λ q. cc }
  found-Ensures (some a) x = record { holds = tt }

  fetched-Ensures :
      (r : S × Fetched G)
      → ((e : C2Status) → r.1 ≡ not_fetched e → e ≢ c2_ok)
      → Ensures (λ g s. Unit) IsError (fetched_block r)
  fetched-Ensures (s, fetched g) h = record { holds = tt }
  fetched-Ensures (s, not_fetched e) h = record { holds = h e refl }

  call-IsError : (r : S × C2Status) → Ensures (λ u s. Unit) IsError (r.0, of_status r.1)
  call-IsError (s, e) = status-Ensures s e (λ ok. tt) (λ ne. ne)

  module _ (fails_so : PoolFails) (settings : EncoderSettings) (pool : Bool) (block : K) where
    convert_image-IsLinear :
        (source : MinigbmDmaBuf) (s : S)
        → Ensures IsLinear IsError (convert_image d i settings pool block source s)
    unfolding convert_image
    convert_image-IsLinear source s =
        then-Ensures (λ u s. Unit) _ _ _ (demand-Ensures _ _ _ (λ h. tt) (λ q. cc))
          (λ u s1 h1.
            then-Ensures (λ u s. Unit) _ _ _ (demand-Ensures _ _ _ (λ h. tt) (λ q. cc))
              (λ u s2 h2.
                bind-Ensures _ _ _ _
                  (fetched-Ensures (i.fetch_block settings.width settings.height s2)
                    (fails_so settings.width settings.height s2))
                  (λ g s3 h3.
                    bind-Ensures _ _ _ _
                      (found-Ensures (dma_buf_of d i settings (i.pool_handle_of g)) s3)
                      (λ converted s4 h4.
                        then-Ensures (λ u s. is_linear_nv12 d.same_inode converted ≡ true) _ _ _
                          (demand-Ensures _ _ _ (λ h. h) (λ q. cc))
                          (λ u s5 h5.
                            then-Ensures _ _ _ _ (call-IsError (i.convert source converted s5))
                              (λ u s6 h6. pure-Ensures _ _ h5))))))

    pub prepare_image-IsLinear :
        (s : S) → Ensures IsLinear IsError (prepare_image d i settings pool block s)
    unfolding prepare_image
    prepare_image-IsLinear s =
        then-Ensures _ _ _ _ (call-IsError (i.wait_fence block s)) (λ u s1 h1.
          bind-Ensures _ _ _ _ (found-Ensures (dma_buf_of d i settings (i.handle_of block)) s1)
            (λ source s2 h2.
              if-cases
                (λ (m : Action S (MinigbmDmaBuf × Option G)). Ensures IsLinear IsError (m s2))
                (is_linear_nv12 d.same_inode source) _ _ (λ linear. pure-Ensures _ _ linear)
                (λ other. convert_image-IsLinear source s2)))
