-- ===== src/Session/EncoderFrames/Room.antt =====
-- The slot of an encoder's input queue that a new image goes into.
use hardware_floral_codec.Common.{
  ℕ, suc, ◌<◌, ◌≡◌, ◌≢◌, refl, subst, Bool, true, false, not, Option, none, some, List, [], ◌∷◌,
  arith, if-cases, length, is_empty, get_or,
}
use hardware_floral_codec.Session.{C2Status, c2_ok}
use hardware_floral_codec.Session.EncoderFrames.{
  EncoderInputSlot, Driver, EncoderQueues, wait_for_device, waited, pump_encoder, free_input,
  has_all_frames, is_full, Room, no_room, free_room, find_room,
}
use hardware_floral_codec.Session.EncoderFrames.Taken.{
  IsSound, and_ok-On, pump-OnPumped, waited-OnPumped,
}

not_full : (b : Bool) → not b ≡ true → b ≡ false
not_full b h = ground arith

module _ {B G : Type 0} where
  -- A slot that the driver does not hold, and a place for the index of its frame.
  pub record IsFree (m : EncoderQueues B G) (index : ℕ) (any : EncoderInputSlot B G) : Type 0 where
    pub exists : index < length m.encoder_inputs
    pub not_queued : (get_or m.encoder_inputs index any).queued ≡ false
    pub has_place : length m.output.encoder_frame_metadata < length m.encoder_inputs

  -- C2_OK comes with a free slot, and no slot with an error.
  abbrev pub HasRoom : EncoderQueues B G → C2Status → Option ℕ → Type 0
  HasRoom m e none = e ≢ c2_ok
  HasRoom m e (some index) = (e ≡ c2_ok) × ((any : EncoderInputSlot B G) → IsFree m index any)

  free_input-free :
      (xs : List (EncoderInputSlot B G)) (any : EncoderInputSlot B G)
      → free_input xs < length xs
      → (get_or xs (free_input xs) any).queued ≡ false
  unfolding free_input
  free_input-free [] any h = absurd (omega arith)
  free_input-free (x ∷ xs) any h =
      if-cases (λ (n : ℕ). n < suc (length xs) → (get_or (x ∷ xs) n any).queued ≡ false) x.queued _
        _ (λ held h'. free_input-free xs any (omega arith)) (λ free h'. free) h

module _ {S B G : Type 0} where
  abbrev OnRoom : Room S B G → Type 0
  OnRoom none = Unit
  OnRoom (some (s, m, e, i)) = IsSound m × HasRoom m e i

module _ {S B G : Type 0} (d : Driver S) (fuel : ℕ) where
  no_room-OnRoom :
      (s : S) (m : EncoderQueues B G) (e : C2Status)
      → IsSound m
      → e ≢ c2_ok
      → OnRoom (no_room d fuel s m e)
  no_room-OnRoom s m e h bad = (h, bad)

  free_room-OnRoom :
      (s : S) (m : EncoderQueues B G)
      → IsSound m
      → is_full m ≡ false
      → OnRoom (free_room d fuel s m)
  free_room-OnRoom s m h room = (
    h,
    (
      refl,
      λ any. record {
        exists = ground arith;
        not_queued = free_input-free m.encoder_inputs any (ground arith);
        has_place = ground arith;
      },
    ),
  )

  find_room-OnRoom : (s : S) (m : EncoderQueues B G) → IsSound m → OnRoom (find_room d fuel s m)
  unfolding find_room
  find_room-OnRoom s m h =
      and_ok-On OnRoom IsSound (no_room d fuel) (pump_encoder d fuel s m) _ tt
        (pump-OnPumped d fuel s m h) no_room-OnRoom
        (λ s1 m1 h1.
          if-cases OnRoom (not (is_full m1)) _ _
            (λ room. free_room-OnRoom s1 m1 h1 (not_full (is_full m1) room))
            (λ full.
              if-cases OnRoom (not (is_empty m1.output.encoder_pending)) _ _
                (λ waits. (h1, λ q. cc))
                (λ none_waits.
                  and_ok-On OnRoom IsSound (no_room d fuel)
                    (waited m1 (wait_for_device d (not (has_all_frames m1)) 20 fuel s1)) _ tt
                    (waited-OnPumped d fuel m1 _ h1) no_room-OnRoom
                    (λ s2 m2 h2.
                      and_ok-On OnRoom IsSound (no_room d fuel) (pump_encoder d fuel s2 m2) _ tt
                        (pump-OnPumped d fuel s2 m2 h2) no_room-OnRoom
                        (λ s3 m3 h3.
                          if-cases OnRoom (is_full m3) _ _ (λ full. (h3, λ q. cc))
                            (free_room-OnRoom s3 m3 h3))))))

  -- If each encoded frame that waits lies within its capture buffer and has bytes or ends the
  -- stream, and no slot that the driver does not hold keeps an image, that is so too after
  -- QueueEncoderFrame on a configured encoder has looked for a slot. Where it goes on with C2_OK,
  -- the slot is one that the driver does not hold, and fewer frames are on their way than there
  -- are slots; where it does not, it returns an error.
  pub find_room-HasRoom :
      (s s' : S) (m m' : EncoderQueues B G) (e : C2Status) (index : Option ℕ)
      → IsSound m
      → find_room d fuel s m ≡ some (s', m', e, index)
      → IsSound m' × HasRoom m' e index
  find_room-HasRoom s s' m m' e index h q = subst OnRoom q (find_room-OnRoom s m h)
