-- ===== src/Session/Controls/Verified.antt =====
-- A control that SetAndVerifyControl has set.
use hardware_floral_codec.Common.{◌≡◌, ℕ, refl, true, Option, none, some, Bool-cases, inl, inr}
use hardware_floral_codec.Common.Int.{ℤ, eq_of_==ℤ, ◌==ℤ◌}
use hardware_floral_codec.Session.{
  C2Status, c2_ok, c2_blocking, c2_bad_value, c2_bad_state, c2_not_found, c2_no_init, c2_no_memory,
  c2_corrupted, c2_omitted, c2_timed_out, c2_other,
}
use hardware_floral_codec.Session.Controls.{
  Driver, compare_stored, verify, set_control, set_and_verify_control,
}

module _ {S : Type 0} (d : Driver S) where
  -- The device has the control, takes the value, and reads it back.
  pub record ControlStands (id : ℕ) (value : ℤ) (s : S) : Type 0 where
    pub supported : (d.queryctrl id s).1 ≡ true
    pub written : (d.s_ctrl id value (d.queryctrl id s).0).1 ≡ true
    pub read : (d.g_ctrl id (d.s_ctrl id value (d.queryctrl id s).0).0).1 ≡ some value

  compare_stored_inv :
      (value : ℤ) (r : S × Option ℤ) → (compare_stored d value r).1 ≡ c2_ok → r.1 ≡ some value
  compare_stored_inv value (s, none) h = cc
  compare_stored_inv value (s, some stored) h = elim (Bool-cases (stored ==ℤ value)) [
    | inl same ↦ cc (eq_of_==ℤ stored value same)
    | inr other ↦ cc (rw other at h)
  ]

  verify_inv :
      (id : ℕ) (value : ℤ) (r : S × C2Status)
      → (verify d id value r).1 ≡ c2_ok
      → (r.1 ≡ c2_ok) × ((d.g_ctrl id r.0).1 ≡ some value)
  verify_inv id value (s, c2_ok) h = (refl, compare_stored_inv value (d.g_ctrl id s) h)
  verify_inv id value (s, c2_blocking) h = cc
  verify_inv id value (s, c2_bad_value) h = cc
  verify_inv id value (s, c2_bad_state) h = cc
  verify_inv id value (s, c2_not_found) h = cc
  verify_inv id value (s, c2_no_init) h = cc
  verify_inv id value (s, c2_no_memory) h = cc
  verify_inv id value (s, c2_corrupted) h = cc
  verify_inv id value (s, c2_omitted) h = cc
  verify_inv id value (s, c2_timed_out) h = cc
  verify_inv id value (s, (c2_other n)) h = cc

  pub set_control_inv :
      (id : ℕ) (value : ℤ) (s : S)
      → (set_control d id value true s).1 ≡ c2_ok
      → ((d.queryctrl id s).1 ≡ true)
        × ((d.s_ctrl id value (d.queryctrl id s).0).1 ≡ true)
        × ((set_control d id value true s).0 ≡ (d.s_ctrl id value (d.queryctrl id s).0).0)
  unfolding set_control
  set_control_inv id value s h = elim (Bool-cases (d.queryctrl id s).1) [
    | inr missing ↦ cc (rw missing at h)
    | inl there ↦ elim (Bool-cases (d.s_ctrl id value (d.queryctrl id s).0).1) [
      | inl written ↦ (there, written, rw there refl)
      | inr failed ↦ cc (rw (there, failed) at h)
    ]
  ]

  pub set_and_verify_control-ControlStands :
      (id : ℕ) (value : ℤ) (s : S)
      → (set_and_verify_control d id value s).1 ≡ c2_ok
      → ControlStands id value s
  unfolding set_and_verify_control
  set_and_verify_control-ControlStands id value s h =
      let (ok, read) = verify_inv id value (set_control d id value true s) h in
      let (supported, written, same) = set_control_inv id value s ok in
      record { supported = supported; written = written; read = rw same at read }
