-- ===== src/Component/Process/Bounds.antt =====
-- What a session has to do at most, and the time that it has.
use hardware_floral_codec.Common.{ℕ, ◌≡◌, ◌≢◌, ◌<◌, ◌≤◌, refl, Bool, Option, none, some}
use hardware_floral_codec.Bitstream.Nal.{Bytes}
use hardware_floral_codec.Session.{
  C2Status, c2_ok, c2_blocking, c2_bad_value, c2_bad_state, c2_not_found, c2_no_init, c2_no_memory,
  c2_corrupted, c2_omitted, c2_timed_out, c2_other,
}
use hardware_floral_codec.Session.DecoderCapture.{DecodedFrame}
use hardware_floral_codec.Component.Drain.{frame}
use hardware_floral_codec.Component.Drain.Decoder.{updated}
use hardware_floral_codec.Component.Process.Decoder.{DecoderSession}

module _ {S K : Type 0} where
  pub updated-same :
      (f : DecodedFrame K) (block : Option K) (r : S × C2Status) → (updated f block r).0 ≡ r.0
  updated-same f none (s, c2_ok) = refl
  updated-same f none (s, c2_blocking) = refl
  updated-same f none (s, c2_bad_value) = refl
  updated-same f none (s, c2_bad_state) = refl
  updated-same f none (s, c2_not_found) = refl
  updated-same f none (s, c2_no_init) = refl
  updated-same f none (s, c2_no_memory) = refl
  updated-same f none (s, c2_corrupted) = refl
  updated-same f none (s, c2_omitted) = refl
  updated-same f none (s, c2_timed_out) = refl
  updated-same f none (s, (c2_other n)) = refl
  updated-same f (some block) (s, c2_ok) = refl
  updated-same f (some block) (s, c2_blocking) = refl
  updated-same f (some block) (s, c2_bad_value) = refl
  updated-same f (some block) (s, c2_bad_state) = refl
  updated-same f (some block) (s, c2_not_found) = refl
  updated-same f (some block) (s, c2_no_init) = refl
  updated-same f (some block) (s, c2_no_memory) = refl
  updated-same f (some block) (s, c2_corrupted) = refl
  updated-same f (some block) (s, c2_omitted) = refl
  updated-same f (some block) (s, c2_timed_out) = refl
  updated-same f (some block) (s, (c2_other n)) = refl

-- Bounds of what a session has to do: `frames` are those that it will still give, and `ticks` are
-- those of the time that its deadline leaves. Each frame that it gives is one less to come, each
-- wait of a deadline that is not over takes a tick or more, and no call adds to them.
pub record IsBounded {S K : Type 0} (d : DecoderSession S K) (frames ticks : S → ℕ) : Type 0 where
  pub opens :
      (s : S) → (frames (d.open_session s).0 ≤ frames s) × (ticks (d.open_session s).0 ≤ ticks s)
  pub queues :
      (bytes : Bytes) (index : ℕ) (s : S)
      → (frames (d.queue_packet bytes index s).0 ≤ frames s)
        × (ticks (d.queue_packet bytes index s).0 ≤ ticks s)
  pub asks : (s : S) → (frames (d.remaining s).0 ≤ frames s) × (ticks (d.remaining s).0 ≤ ticks s)
  pub waits :
      (left : ℕ) (s : S)
      → (frames (d.wait_for_progress left s).0 ≤ frames s)
        × (ticks (d.wait_for_progress left s).0 ≤ ticks s)
  pub dequeues :
      (wait : Bool) (s : S)
      → (frames (d.dequeue_frame wait s).0 ≤ frames s)
        × (ticks (d.dequeue_frame wait s).0 ≤ ticks s)
  pub drains :
      (s : S) → (frames (d.start_drain s).0 ≤ frames s) × (ticks (d.start_drain s).0 ≤ ticks s)
  pub configures :
      (width height : ℕ) (s : S)
      → (frames (d.config width height s).0 ≤ frames s)
        × (ticks (d.config width height s).0 ≤ ticks s)
  pub fewer :
      (wait : Bool) (s s' : S) (f : DecodedFrame K)
      → d.dequeue_frame wait s ≡ (s', frame f)
      → frames s' < frames s
  pub sooner :
      (s : S)
      → (d.remaining s).1 ≢ 0
      → ticks (d.wait_for_progress (d.remaining s).1 (d.remaining s).0).0 < ticks s
