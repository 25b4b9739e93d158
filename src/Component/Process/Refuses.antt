-- ===== src/Component/Process/Refuses.antt =====
-- What the component does with works behind an error, or behind the end of the stream.
use hardware_floral_codec.Common.{
  ◌≡◌, ◌≢◌, refl, sym, subst, ap, ◌∙◌, true, arith, Bool-cases, inl, inr, ◌||◌, Option, none, some,
  List, [], ◌∷◌,
}
use hardware_floral_codec.Session.{C2Status, c2_ok, c2_bad_value}
use hardware_floral_codec.Component.Work.{Flags, Work, begin_work, fail_work}
use hardware_floral_codec.Component.Process.{State, Result, with_current, begin, process}
use hardware_floral_codec.Component.Process.Ends.{some_inj, process-halted, process-or}
use hardware_floral_codec.Component.Process.Rules.{OnSuccess, error-OnSuccess}

-- A work, with its flags and with what ProcessEncoder or ProcessDecoder would do with it.
pub record Job (S B U : Type 0) : Type 0 where
  pub act : State S B U → Result S B U
  pub flags : Flags
  pub work : Work B U

module _ {S B U : Type 0} where
  -- The work as it comes back, and those behind it.
  abbrev pub collect :
      Option (Work B U)
      → Option (State S B U × List (Work B U))
      → Option (State S B U × List (Work B U))
  collect none r = r
  collect w none = none
  collect (some w) (some (st, ws)) = some (st, w ∷ ws)

  abbrev pub go_on :
      (State S B U → Option (State S B U × List (Work B U)))
      → Option (State S B U)
      → Option (State S B U × List (Work B U))
  go_on rest none = none
  go_on rest (some st) = collect st.works.current (rest st)

  -- Works one after the other.
  abbrev pub process_all : List (Job S B U) → State S B U → Option (State S B U × List (Work B U))
  process_all [] st = some (st, [])
  process_all (job ∷ jobs) st = go_on (process_all jobs) (process job.act job.flags job.work st)

  -- A work that comes back undone.
  pub record IsRefused (job : Job S B U) (w : Work B U) : Type 0 where
    pub same_index : w.frame_index ≡ job.work.frame_index
    pub processed : w.worklets_processed ≡ true
    pub bad_value : w.result ≡ c2_bad_value
    pub no_buffer : w.output.buffers ≡ []
    pub same_flags : w.output.flags ≡ job.flags
    pub same_ordinal : w.output.ordinal ≡ job.work.frame_index

  -- Each work comes back undone, in its turn.
  abbrev pub AreRefused : List (Job S B U) → List (Work B U) → Type 0
  AreRefused [] [] = Unit
  AreRefused [] (w ∷ ws) = ⊥
  AreRefused (job ∷ jobs) [] = ⊥
  AreRefused (job ∷ jobs) (w ∷ ws) = IsRefused job w × AreRefused jobs ws

  -- What the component is left in by a work that fails, or by the end of the stream.
  pub data IsHalted (st : State S B U) : Type 0 where
    flagged : st.signalled_error || st.signalled_eos ≡ true → IsHalted st
    failed :
        (job : Job S B U) (st0 st1 : State S B U) (e : C2Status)
        → job.act (begin job.flags job.work st0) ≡ some (st1, e)
        → e ≢ c2_ok
        → process job.act job.flags job.work st0 ≡ some st
        → IsHalted st

  -- Nothing but the current work has changed.
  pub record Untouched (st st' : State S B U) : Type 0 where
    pub same_session : st'.session ≡ st.session
    pub same_config : st'.config ≡ st.config
    pub same_finished : st'.works.finished ≡ st.works.finished
    pub still_halted : st'.signalled_error || st'.signalled_eos ≡ true

  IsHalted-flagged :
      (st : State S B U) → IsHalted st → st.signalled_error || st.signalled_eos ≡ true
  IsHalted-flagged st (flagged h) = h
  IsHalted-flagged st (failed job st0 st1 e q ne r) = elim (Bool-cases st0.signalled_eos) [
    | inl over ↦
        subst (λ (s : State S B U). s.signalled_error || s.signalled_eos ≡ true)
          (some_inj (sym (process-halted job.act job.flags job.work st0 (ground arith)) ∙ r))
          (ground arith)
    | inr live ↦
        elim (process-or (λ s. ⊥) job.act job.flags job.work st0 st
          (subst (OnSuccess (λ s. ⊥)) (sym q) (error-OnSuccess (λ s. ⊥) st1 e ne)) live r) [
            | inl never ↦ absurd never
            | inr signalled ↦ ground arith
          ]
  ]

  flagged-refused :
      (jobs : List (Job S B U)) (st : State S B U)
      → st.signalled_error || st.signalled_eos ≡ true
      → (st' : State S B U) × (ws : List (Work B U)) × (process_all jobs st ≡ some (st', ws))
        × AreRefused jobs ws
        × Untouched st st'
  flagged-refused [] st h = (
    st,
    [],
    refl,
    tt,
    record { same_session = refl; same_config = refl; same_finished = refl; still_halted = h },
  )
  flagged-refused (job ∷ jobs) st h =
      let st1 : State S B U = with_current (fail_work c2_bad_value) (begin job.flags job.work st) in
      let (st', ws, run, refused, same) = flagged-refused jobs st1 h in
      let w = fail_work c2_bad_value (begin_work job.flags job.work) in
      (
        st',
        w ∷ ws,
        ap (go_on (process_all jobs)) (process-halted job.act job.flags job.work st h)
            ∙ ap (collect (some w)) run,
        (
          record {
            same_index = refl;
            processed = refl;
            bad_value = refl;
            no_buffer = refl;
            same_flags = refl;
            same_ordinal = refl;
          },
          refused,
        ),
        record {
          same_session = same.same_session;
          same_config = same.same_config;
          same_finished = same.same_finished;
          still_halted = same.still_halted;
        },
      )

  -- Behind a work that fails, or once an error or the end of the stream is signalled, any series
  -- of works comes back, each processed, with C2_BAD_VALUE and no output buffer, with its own
  -- index and flags, and its index as ordinal, while the session, the parameter sets and the
  -- finished works stay.
  pub process_all-refused :
      (jobs : List (Job S B U)) (st : State S B U)
      → IsHalted st
      → (st' : State S B U) × (ws : List (Work B U)) × (process_all jobs st ≡ some (st', ws))
        × AreRefused jobs ws
        × Untouched st st'
  process_all-refused jobs st h = flagged-refused jobs st (IsHalted-flagged st h)
