-- ===== src/Component/Process/Ends.antt =====
-- The last work of a stream is finished with the end of the stream.
use hardware_floral_codec.Common.{
  ℕ, ◌≡◌, ◌⊎◌, refl, sym, ap, ◌∙◌, subst, Bool, true, false, ◌||◌, Option, none, some, arith,
  Bool-cases, inl, inr, if-cases,
}
use hardware_floral_codec.Session.{
  C2Status, c2_ok, c2_blocking, c2_bad_value, c2_bad_state, c2_not_found, c2_no_init, c2_no_memory,
  c2_corrupted, c2_omitted, c2_timed_out, c2_other,
}
use hardware_floral_codec.Component.Work.{
  map_work, Flags, Work, end_work, finish_empty_work, fail_work,
}
use hardware_floral_codec.Component.Drain.{FrameSource, Drained}
use hardware_floral_codec.Component.Drain.Current.{
  is_there, HasCurrent, OnDrained, drain_loop-OnDrained,
}
use hardware_floral_codec.Component.Process.{
  drain_some, State, Result, Part, with_current, end_stream, conclude, after_drain, with_drained,
  finish_stream, begin, concluded, process,
}
use hardware_floral_codec.Component.Process.Rules.{OnSuccess, Always}

pub some_inj : {A : Type 0} {a b : A} → some a ≡ some b → a ≡ b
some_inj e = cc

module _ {B U : Type 0} where
  -- The work is done, with the end of the stream on it.
  abbrev pub HasEnded : Option (Work B U) → Type 0
  HasEnded none = ◌≡◌ {A = Bool} false true
  HasEnded (some w) = (w.worklets_processed ≡ true) × (w.output.flags.end_of_stream ≡ true)

  end_work-ended :
      (w : Work B U)
      → ((end_work w).worklets_processed ≡ true) × ((end_work w).output.flags.end_of_stream ≡ true)
  unfolding finish_empty_work
  end_work-ended w = (ground arith, ground arith)

  abbrev pub IsNew : Option (Work B U) → Type 0
  IsNew none = ◌≡◌ {A = Bool} false true
  IsNew (some w) = w.worklets_processed ≡ false

  pub finish_new-ended :
      (w : Option (Work B U)) → IsNew w → HasEnded (map_work (finish_empty_work true) w)
  unfolding finish_empty_work
  finish_new-ended none h = h
  finish_new-ended (some w) h = (ground arith, ground arith)

  pub is_there-new : (w : Option (Work B U)) → IsNew w → is_there w ≡ true
  is_there-new none h = h
  is_there-new (some w) h = refl

  map_end_work-ended : (w : Option (Work B U)) → is_there w ≡ true → HasEnded (map_work end_work w)
  map_end_work-ended none h = h
  map_end_work-ended (some w) h = end_work-ended w

module _ {S B U : Type 0} where
  pub record Ended (st : State S B U) : Type 0 where
    pub signalled : st.signalled_eos ≡ true
    pub current_ended : HasEnded st.works.current

  -- There is a current work.
  abbrev pub IsThere : State S B U → Type 0
  IsThere st = HasCurrent st.works

  end_stream-Ended : (st : State S B U) → IsThere st → Ended (end_stream st)
  end_stream-Ended st h = record {
    signalled = refl;
    current_ended = map_end_work-ended st.works.current h;
  }

  pub conclude-Ended :
      (st : State S B U) (e : C2Status) (saw : Bool)
      → IsThere st
      → OnSuccess Ended (conclude st e saw)
  conclude-Ended st c2_ok true h = end_stream-Ended st h
  conclude-Ended st c2_ok false h = tt
  conclude-Ended st c2_blocking saw h = tt
  conclude-Ended st c2_bad_value saw h = tt
  conclude-Ended st c2_bad_state saw h = tt
  conclude-Ended st c2_not_found saw h = tt
  conclude-Ended st c2_no_init saw h = tt
  conclude-Ended st c2_no_memory saw h = tt
  conclude-Ended st c2_corrupted saw h = tt
  conclude-Ended st c2_omitted saw h = tt
  conclude-Ended st c2_timed_out saw h = tt
  conclude-Ended st (c2_other n) saw h = tt

module _ {S B U T F : Type 0} (part : Part S B U T) (src : FrameSource T F B U) where
  after_drain-Ended :
      (st : State S B U) (r : Option (Drained T B U))
      → OnDrained src r
      → OnSuccess Ended (after_drain part src st conclude r)
  after_drain-Ended st none h = tt
  after_drain-Ended st (some r) h = conclude-Ended (with_drained part src st r) r.status r.saw_eos h

  pub finish_stream-Ended :
      (fuel : ℕ) (st : State S B U) → IsThere st → OnSuccess Ended (finish_stream part src fuel st)
  unfolding finish_stream
  finish_stream-Ended fuel st h =
      after_drain-Ended st _
        (drain_loop-OnDrained src fuel true false none (part.get st) st.works h)

  after_drain-IsThere :
      (st : State S B U) (r : Option (Drained T B U))
      → OnDrained src r
      → Always IsThere (after_drain part src st (λ st' e saw. some (st', e)) r)
  after_drain-IsThere st none h = tt
  after_drain-IsThere st (some r) h = h

  pub drain_some-IsThere :
      (fuel : ℕ) (st : State S B U) → IsThere st → Always IsThere (drain_some part src fuel st)
  drain_some-IsThere fuel st h =
      after_drain-IsThere st _
        (drain_loop-OnDrained src fuel false false none (part.get st) st.works h)

module _ {S B U : Type 0} where
  -- The work is not done yet, as `process` begins with it.
  abbrev pub IsFresh : State S B U → Type 0
  IsFresh st = IsNew st.works.current

  concluded-or :
      (P : State S B U → Type 0) (r : Result S B U) (st' : State S B U)
      → OnSuccess P r
      → concluded r ≡ some st'
      → P st' ⊎ (st'.signalled_error ≡ true)
  concluded-or P none st' h e = cc
  concluded-or P (some (st, c2_ok)) st' h e = inl (subst P (some_inj e) h)
  concluded-or P (some (st, c2_blocking)) st' h e =
      inr (ap (λ (s : State S B U). s.signalled_error) (sym (some_inj e)))
  concluded-or P (some (st, c2_bad_value)) st' h e =
      inr (ap (λ (s : State S B U). s.signalled_error) (sym (some_inj e)))
  concluded-or P (some (st, c2_bad_state)) st' h e =
      inr (ap (λ (s : State S B U). s.signalled_error) (sym (some_inj e)))
  concluded-or P (some (st, c2_not_found)) st' h e =
      inr (ap (λ (s : State S B U). s.signalled_error) (sym (some_inj e)))
  concluded-or P (some (st, c2_no_init)) st' h e =
      inr (ap (λ (s : State S B U). s.signalled_error) (sym (some_inj e)))
  concluded-or P (some (st, c2_no_memory)) st' h e =
      inr (ap (λ (s : State S B U). s.signalled_error) (sym (some_inj e)))
  concluded-or P (some (st, c2_corrupted)) st' h e =
      inr (ap (λ (s : State S B U). s.signalled_error) (sym (some_inj e)))
  concluded-or P (some (st, c2_omitted)) st' h e =
      inr (ap (λ (s : State S B U). s.signalled_error) (sym (some_inj e)))
  concluded-or P (some (st, c2_timed_out)) st' h e =
      inr (ap (λ (s : State S B U). s.signalled_error) (sym (some_inj e)))
  concluded-or P (some (st, (c2_other n))) st' h e =
      inr (ap (λ (s : State S B U). s.signalled_error) (sym (some_inj e)))

  process-live :
      (act : State S B U → Result S B U) (flags : Flags) (w : Work B U) (st : State S B U)
      → st.signalled_error ≡ false
      → st.signalled_eos ≡ false
      → process act flags w st ≡ concluded (act (begin flags w st))
  unfolding process
  process-live act flags w st h n = ground arith

  pub process-halted :
      (act : State S B U → Result S B U) (flags : Flags) (w : Work B U) (st : State S B U)
      → st.signalled_error || st.signalled_eos ≡ true
      → process act flags w st ≡ some (with_current (fail_work c2_bad_value) (begin flags w st))
  unfolding process
  process-halted act flags w st h = rw h refl

  pub process-or :
      (P : State S B U → Type 0) (act : State S B U → Result S B U) (flags : Flags) (w : Work B U)
      (st st' : State S B U)
      → OnSuccess P (act (begin flags w st))
      → st.signalled_eos ≡ false
      → process act flags w st ≡ some st'
      → P st' ⊎ (st'.signalled_error ≡ true)
  unfolding process
  process-or P act flags w st st' h n e = elim (Bool-cases st.signalled_error) [
    | inl halted ↦ inr (
        ap (λ (s : State S B U). s.signalled_error)
          (sym (some_inj (sym (process-halted act flags w st (ground arith)) ∙ e)))
        ∙ halted)
    | inr live ↦
        concluded-or P (act (begin flags w st)) st' h (sym (process-live act flags w st live n) ∙ e)
  ]

  -- An action that gives a result.
  abbrev pub IsGiven : Result S B U → Type 0
  IsGiven r = (x : State S B U × C2Status) × (r ≡ some x)

  concluded-given :
      (st : State S B U) (e : C2Status)
      → (st' : State S B U) × (concluded (some (st, e)) ≡ some st')
  concluded-given st c2_ok = (_, refl)
  concluded-given st c2_blocking = (_, refl)
  concluded-given st c2_bad_value = (_, refl)
  concluded-given st c2_bad_state = (_, refl)
  concluded-given st c2_not_found = (_, refl)
  concluded-given st c2_no_init = (_, refl)
  concluded-given st c2_no_memory = (_, refl)
  concluded-given st c2_corrupted = (_, refl)
  concluded-given st c2_omitted = (_, refl)
  concluded-given st c2_timed_out = (_, refl)
  concluded-given st (c2_other n) = (_, refl)

  -- `process` gives a state where the action gives a result.
  pub process-given :
      (act : State S B U → Result S B U) (flags : Flags) (w : Work B U) (st : State S B U)
      → IsGiven (act (begin flags w st))
      → (st' : State S B U) × (process act flags w st ≡ some st')
  unfolding process
  process-given act flags w st given =
      if-cases (λ (r : Option (State S B U)). (st' : State S B U) × (r ≡ some st'))
        (st.signalled_error || st.signalled_eos) _ _ (λ halted. (_, refl))
        (λ live. rw given.1 (concluded-given given.0.0 given.0.1))
