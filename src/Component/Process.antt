-- ===== src/Component/Process.antt =====
-- src/FloralCodecComponent.cpp: the life of the component, and what it does with a work.
pub mod Decoder
pub mod Encoder
pub mod Refuses
pub mod Rules
pub mod Ends
pub mod Bounds
pub mod Settled
pub mod LastWork
pub mod Keeps
pub mod There
pub mod Calls
pub mod Config
use hardware_floral_codec.Common.{
  ℕ, zero, suc, Bool, true, false, not, ◌&&◌, ◌||◌, Option, none, some, List, [], ◌∷◌,
  if◌then◌else◌,
}
use hardware_floral_codec.Bitstream.Nal.{Bytes}
use hardware_floral_codec.Session.{C2Status, c2_ok, c2_bad_value, c2_timed_out}
use hardware_floral_codec.Component.DecoderConfig.{DecoderConfig, cleared, after_flush}
use hardware_floral_codec.Component.Work.{
  Flags, eos_flags, Output, Work, Works, map_work, end_work, begin_work, fail_work,
}
use hardware_floral_codec.Component.Drain.{FrameSource, Drained, drain}

-- The members of the component, with the state of its session, and its works.
pub record State (S B U : Type 0) : Type 0 where
  pub session : S
  pub config : DecoderConfig
  pub decoder_session_pending : Bool
  pub encoder_config_sent : Bool
  pub signalled_error : Bool
  pub signalled_eos : Bool
  pub works : Works B U

-- What a function of the component comes to: `none` is out of fuel.
abbrev pub Result : Type 0 → Type 0 → Type 0 → Type 0
Result S B U = Option (State S B U × C2Status)

-- The part of the state that a drain works on: the session, or an encoder's with its flag.
pub record Part (S B U T : Type 0) : Type 0 where
  pub get : State S B U → T
  pub put : T → State S B U → State S B U

module _ {S B U : Type 0} where
  abbrev pub decoder_part : Part S B U S
  decoder_part = record { get = λ st. st.session; put = λ s st. record st { session = s } }

  abbrev pub encoder_part : Part S B U (S × Bool)
  encoder_part = record {
    get = λ st. (st.session, st.encoder_config_sent);
    put = λ s st. record st { session = s.0; encoder_config_sent = s.1 };
  }

  -- `if (result != C2_OK) return result`.
  infixl 5 ◌and_then◌
  abbrev pub ◌and_then◌ : Result S B U → (State S B U → Result S B U) → Result S B U
  none and_then next = none
  some (st, c2_ok) and_then next = next st
  some (st, e) and_then next = some (st, e)

  -- A call of the session.
  abbrev pub with_session : State S B U → S × C2Status → Result S B U
  with_session st (s, e) = some (record st { session = s }, e)

  abbrev pub with_current : (Work B U → Work B U) → State S B U → State S B U
  with_current f st = record st {
    works = record st.works { current = map_work f st.works.current };
  }

  -- The current work ends the stream, and `signalled_eos_` is set.
  abbrev pub end_stream : State S B U → State S B U
  end_stream st = record (with_current end_work st) { signalled_eos = true }

  -- What the status of the last drain and `sawEos` come to.
  abbrev pub conclude : State S B U → C2Status → Bool → Result S B U
  conclude st c2_ok true = some (end_stream st, c2_ok)
  conclude st c2_ok false = some (st, c2_timed_out)
  conclude st e saw = some (st, e)

module _ {S B U T F : Type 0} (part : Part S B U T) (src : FrameSource T F B U) where
  abbrev pub with_drained : State S B U → Drained T B U → State S B U
  with_drained st r = record (part.put r.state st) { works = r.works }

  abbrev pub after_drain :
      State S B U
      → (State S B U → C2Status → Bool → Result S B U)
      → Option (Drained T B U)
      → Result S B U
  after_drain st next none = none
  after_drain st next (some r) = next (with_drained st r) r.status r.saw_eos

  -- A drain whose `sawEos` is ignored.
  abbrev pub drain_some : ℕ → State S B U → Result S B U
  drain_some fuel st =
      after_drain st (λ st' e saw. some (st', e)) (drain src fuel false (part.get st) st.works)

  -- The end of `ProcessV4l2Encoder` and of `ProcessV4l2Decoder` on the last work, behind the
  -- session's own call for a drain.
  unfoldable pub finish_stream : ℕ → State S B U → Result S B U
  finish_stream fuel st = after_drain st conclude (drain src fuel true (part.get st) st.works)

module _ {S B U : Type 0} where
  abbrev pub begin : Flags → Work B U → State S B U → State S B U
  begin flags w st = record st { works = record st.works { current = some (begin_work flags w) } }

  abbrev pub signal_error : C2Status → State S B U → State S B U
  signal_error e st = record (with_current (fail_work e) st) { signalled_error = true }

  abbrev pub concluded : Result S B U → Option (State S B U)
  concluded none = none
  concluded (some (st, c2_ok)) = some st
  concluded (some (st, e)) = some (signal_error e st)

  -- `process`, on a work with the given flags; `act` is ProcessEncoder or ProcessDecoder on it.
  unfoldable pub process :
      (State S B U → Result S B U) → Flags → Work B U → State S B U → Option (State S B U)
  process act flags w st =
      if st.signalled_error || st.signalled_eos
      then some (with_current (fail_work c2_bad_value) (begin flags w st))
      else concluded (act (begin flags w st))

  -- `onStop`, and `onReset` with it; `onRelease` leaves the flags.
  unfoldable pub on_stop : (S → S) → State S B U → State S B U
  on_stop close st = record st {
    session = close st.session;
    config = cleared;
    signalled_error = false;
    signalled_eos = false;
  }

  unfoldable pub on_release : (S → S) → State S B U → State S B U
  on_release close st = record st { session = close st.session; config = cleared }

  abbrev pub flushed : State S B U → S × C2Status → State S B U × C2Status
  flushed st (s, c2_ok) = (
    record st {
      session = s;
      config = after_flush st.config;
      encoder_config_sent = false;
      signalled_error = false;
      signalled_eos = false;
    },
    c2_ok,
  )
  flushed st (s, e) = (record st { session = s }, e)

  -- `onFlush_sm`.
  unfoldable pub on_flush : (S → S × C2Status) → State S B U → State S B U × C2Status
  on_flush flush st = flushed st (flush st.session)

  -- The start of `onInit`, and its decoder's rest.
  unfoldable pub on_init_decoder : State S B U → State S B U × C2Status
  on_init_decoder st = (
    record st {
      config = cleared;
      decoder_session_pending = true;
      signalled_error = false;
      signalled_eos = false;
    },
    c2_ok,
  )
