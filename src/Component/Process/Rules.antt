-- ===== src/Component/Process/Rules.antt =====
-- What the functions of the component give, by the rule of their chains.
use hardware_floral_codec.Common.{◌≡◌, ◌≢◌, refl, none, some}
use hardware_floral_codec.Session.{
  C2Status, c2_ok, c2_blocking, c2_bad_value, c2_bad_state, c2_not_found, c2_no_init, c2_no_memory,
  c2_corrupted, c2_omitted, c2_timed_out, c2_other,
}
use hardware_floral_codec.Component.Process.{State, Result, ◌and_then◌}

-- What a result gives where its status is C2_OK.
abbrev pub OnSuccess : {S B U : Type 0} → (State S B U → Type 0) → Result S B U → Type 0
OnSuccess P none = Unit
OnSuccess P (some (st, c2_ok)) = P st
OnSuccess P (some (st, e)) = Unit

-- What a result gives whatever its status.
abbrev pub Always : {S B U : Type 0} → (State S B U → Type 0) → Result S B U → Type 0
Always P none = Unit
Always P (some (st, e)) = P st

module _ {S B U : Type 0} where
  pub and_then-OnSuccess :
      (P Q : State S B U → Type 0) (r : Result S B U) (next : State S B U → Result S B U)
      → OnSuccess Q r
      → ((st : State S B U) → Q st → OnSuccess P (next st))
      → OnSuccess P (r and_then next)
  and_then-OnSuccess P Q none next h k = tt
  and_then-OnSuccess P Q (some (st, c2_ok)) next h k = k st h
  and_then-OnSuccess P Q (some (st, c2_blocking)) next h k = tt
  and_then-OnSuccess P Q (some (st, c2_bad_value)) next h k = tt
  and_then-OnSuccess P Q (some (st, c2_bad_state)) next h k = tt
  and_then-OnSuccess P Q (some (st, c2_not_found)) next h k = tt
  and_then-OnSuccess P Q (some (st, c2_no_init)) next h k = tt
  and_then-OnSuccess P Q (some (st, c2_no_memory)) next h k = tt
  and_then-OnSuccess P Q (some (st, c2_corrupted)) next h k = tt
  and_then-OnSuccess P Q (some (st, c2_omitted)) next h k = tt
  and_then-OnSuccess P Q (some (st, c2_timed_out)) next h k = tt
  and_then-OnSuccess P Q (some (st, (c2_other n))) next h k = tt

  -- An error has nothing to give.
  pub error-OnSuccess :
      (P : State S B U → Type 0) (st : State S B U) (e : C2Status)
      → e ≢ c2_ok
      → OnSuccess P (some (st, e))
  error-OnSuccess P st c2_ok h = absurd (h refl)
  error-OnSuccess P st c2_blocking h = tt
  error-OnSuccess P st c2_bad_value h = tt
  error-OnSuccess P st c2_bad_state h = tt
  error-OnSuccess P st c2_not_found h = tt
  error-OnSuccess P st c2_no_init h = tt
  error-OnSuccess P st c2_no_memory h = tt
  error-OnSuccess P st c2_corrupted h = tt
  error-OnSuccess P st c2_omitted h = tt
  error-OnSuccess P st c2_timed_out h = tt
  error-OnSuccess P st (c2_other n) h = tt

  -- Whatever its status, a result whose state has the property.
  pub value-OnSuccess :
      (P : State S B U → Type 0) (st : State S B U) (e : C2Status)
      → P st
      → OnSuccess P (some (st, e))
  value-OnSuccess P st c2_ok h = h
  value-OnSuccess P st c2_blocking h = tt
  value-OnSuccess P st c2_bad_value h = tt
  value-OnSuccess P st c2_bad_state h = tt
  value-OnSuccess P st c2_not_found h = tt
  value-OnSuccess P st c2_no_init h = tt
  value-OnSuccess P st c2_no_memory h = tt
  value-OnSuccess P st c2_corrupted h = tt
  value-OnSuccess P st c2_omitted h = tt
  value-OnSuccess P st c2_timed_out h = tt
  value-OnSuccess P st (c2_other n) h = tt

  -- A result whose state has the property where its status is C2_OK.
  pub status-OnSuccess :
      (P : State S B U → Type 0) (st : State S B U) (e : C2Status)
      → (e ≡ c2_ok → P st)
      → OnSuccess P (some (st, e))
  status-OnSuccess P st c2_ok h = h refl
  status-OnSuccess P st c2_blocking h = tt
  status-OnSuccess P st c2_bad_value h = tt
  status-OnSuccess P st c2_bad_state h = tt
  status-OnSuccess P st c2_not_found h = tt
  status-OnSuccess P st c2_no_init h = tt
  status-OnSuccess P st c2_no_memory h = tt
  status-OnSuccess P st c2_corrupted h = tt
  status-OnSuccess P st c2_omitted h = tt
  status-OnSuccess P st c2_timed_out h = tt
  status-OnSuccess P st (c2_other n) h = tt

  pub and_then-Always :
      (P : State S B U → Type 0) (r : Result S B U) (next : State S B U → Result S B U)
      → Always P r
      → ((st : State S B U) → P st → Always P (next st))
      → Always P (r and_then next)
  and_then-Always P none next h k = tt
  and_then-Always P (some (st, c2_ok)) next h k = k st h
  and_then-Always P (some (st, c2_blocking)) next h k = h
  and_then-Always P (some (st, c2_bad_value)) next h k = h
  and_then-Always P (some (st, c2_bad_state)) next h k = h
  and_then-Always P (some (st, c2_not_found)) next h k = h
  and_then-Always P (some (st, c2_no_init)) next h k = h
  and_then-Always P (some (st, c2_no_memory)) next h k = h
  and_then-Always P (some (st, c2_corrupted)) next h k = h
  and_then-Always P (some (st, c2_omitted)) next h k = h
  and_then-Always P (some (st, c2_timed_out)) next h k = h
  and_then-Always P (some (st, (c2_other n))) next h k = h

  pub mono-Always :
      (P Q : State S B U → Type 0) (r : Result S B U)
      → ((st : State S B U) → P st → Q st)
      → Always P r
      → Always Q r
  mono-Always P Q none f h = tt
  mono-Always P Q (some (st, e)) f h = f st h

  pub mono-OnSuccess :
      (P Q : State S B U → Type 0) (r : Result S B U)
      → ((st : State S B U) → P st → Q st)
      → OnSuccess P r
      → OnSuccess Q r
  mono-OnSuccess P Q none f h = tt
  mono-OnSuccess P Q (some (st, c2_ok)) f h = f st h
  mono-OnSuccess P Q (some (st, c2_blocking)) f h = tt
  mono-OnSuccess P Q (some (st, c2_bad_value)) f h = tt
  mono-OnSuccess P Q (some (st, c2_bad_state)) f h = tt
  mono-OnSuccess P Q (some (st, c2_not_found)) f h = tt
  mono-OnSuccess P Q (some (st, c2_no_init)) f h = tt
  mono-OnSuccess P Q (some (st, c2_no_memory)) f h = tt
  mono-OnSuccess P Q (some (st, c2_corrupted)) f h = tt
  mono-OnSuccess P Q (some (st, c2_omitted)) f h = tt
  mono-OnSuccess P Q (some (st, c2_timed_out)) f h = tt
  mono-OnSuccess P Q (some (st, (c2_other n))) f h = tt

  pub success_of-Always : (P : State S B U → Type 0) (r : Result S B U) → Always P r → OnSuccess P r
  success_of-Always P none h = tt
  success_of-Always P (some (st, e)) h = value-OnSuccess P st e h

  -- A chain where the first part keeps one property and its success gives another.
  pub chain-Always :
      (P Q : State S B U → Type 0) (r : Result S B U) (next : State S B U → Result S B U)
      → Always P r
      → OnSuccess Q r
      → ((st : State S B U) → Q st → Always P (next st))
      → Always P (r and_then next)
  chain-Always P Q none next h q k = tt
  chain-Always P Q (some (st, c2_ok)) next h q k = k st q
  chain-Always P Q (some (st, c2_blocking)) next h q k = h
  chain-Always P Q (some (st, c2_bad_value)) next h q k = h
  chain-Always P Q (some (st, c2_bad_state)) next h q k = h
  chain-Always P Q (some (st, c2_not_found)) next h q k = h
  chain-Always P Q (some (st, c2_no_init)) next h q k = h
  chain-Always P Q (some (st, c2_no_memory)) next h q k = h
  chain-Always P Q (some (st, c2_corrupted)) next h q k = h
  chain-Always P Q (some (st, c2_omitted)) next h q k = h
  chain-Always P Q (some (st, c2_timed_out)) next h q k = h
  chain-Always P Q (some (st, (c2_other n))) next h q k = h
