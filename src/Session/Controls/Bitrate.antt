-- ===== src/Session/Controls/Bitrate.antt =====
-- What SetEncoderBitrate leaves.
use hardware_floral_codec.Common.{
  ℕ, ◌≤◌, ◌≡◌, ◌≢◌, refl, true, false, not, ◌&&◌, ◌||◌, Option, none, some, arith, ltb, ◌==◌,
  if◌then◌else◌, if-cases,
}
use hardware_floral_codec.Common.Int.{ℤ, pos, negsuc}
use hardware_floral_codec.Session.{
  C2Status, c2_ok, c2_blocking, c2_bad_value, c2_bad_state, c2_not_found, c2_no_init, c2_no_memory,
  c2_corrupted, c2_omitted, c2_timed_out, c2_other,
}
use hardware_floral_codec.Session.Controls.Verified.{set_control_inv}
use hardware_floral_codec.Session.Controls.{
  set_control, Driver, EncoderBitrate, Applied, applied, not_applied, positive, cid_bitrate,
  cid_bitrate_peak, int32_max, read_bitrate, apply_bitrate_control, within_peak, target_bitrate,
  with_bitrate, with_peak, with_effective, with_target, set_encoder_bitrate,
}

module _ {S : Type 0} (d : Driver S) where
  -- The device has the control and takes the value, and then reads a positive number from it.
  pub record HoldsBitrate (id value : ℕ) (s s' : S) (stored : ℕ) : Type 0 where
    pub supported : (d.queryctrl id s).1 ≡ true
    pub written : (d.s_ctrl id (pos value) (d.queryctrl id s).0).1 ≡ true
    pub state_read : s' ≡ (d.g_ctrl id (d.s_ctrl id (pos value) (d.queryctrl id s).0).0).0
    pub read : (d.g_ctrl id (d.s_ctrl id (pos value) (d.queryctrl id s).0).0).1 ≡ some (pos stored)
    pub some_bits : stored ≢ 0

  -- The bitrate that is written: the request, or what the driver of a running Venus encoder makes of
  -- it, within the peak.
  pub data IsTarget (bitrate : ℕ) (m : EncoderBitrate) (s : S) : S → ℕ → Type 0 where
    as_requested : m.venus_encoder && m.encoder_configured ≡ false → IsTarget bitrate m s s bitrate
    normalised :
        (target : ℕ)
        → m.venus_encoder && m.encoder_configured ≡ true
        → (d.try_bitrate (pos bitrate) s).1 ≡ some (pos target)
        → target ≢ 0
        → target ≤ m.encoder_peak_bitrate
        → IsTarget bitrate m s (d.try_bitrate (pos bitrate) s).0 target

  -- The peak of a Venus encoder that is not configured is written too.
  pub data HasPeak (m m' : EncoderBitrate) (s : S) : S → Type 0 where
    same_peak :
        m.venus_encoder && not m.encoder_configured ≡ false
        → m'.encoder_peak_bitrate ≡ m.encoder_peak_bitrate
        → HasPeak m m' s s
    new_peak :
        (s' : S)
        → m.venus_encoder && not m.encoder_configured ≡ true
        → HoldsBitrate cid_bitrate_peak m'.effective_bitrate s s' m'.encoder_peak_bitrate
        → HasPeak m m' s s'

  -- The request is positive and stored, with what the device made of it and holds; on Venus that
  -- stays within the peak, and a peak that is fixed is kept.
  pub record IsApplied (bitrate : ℕ) (m : EncoderBitrate) (s s' : S) (m' : EncoderBitrate)
      : Type 0 where
    pub not_zero : bitrate ≢ 0
    pub in_range : bitrate ≤ int32_max
    pub current : m'.current_bitrate ≡ bitrate
    pub written_at : S
    pub target : ℕ
    pub is_target : IsTarget bitrate m s written_at target
    pub read_at : S
    pub stored : HoldsBitrate cid_bitrate target written_at read_at m'.effective_bitrate
    pub has_peak : HasPeak m m' read_at s'
    pub below_peak : m.venus_encoder ≡ true → m'.effective_bitrate ≤ m'.encoder_peak_bitrate
    pub fixed_peak : m.encoder_configured ≡ true → m'.encoder_peak_bitrate ≡ m.encoder_peak_bitrate

  pub data SetBitrate (bitrate : ℕ) (m : EncoderBitrate) (s : S)
      : S → EncoderBitrate → C2Status → Type 0 where
    rejected : (s' : S) (e : C2Status) → e ≢ c2_ok → SetBitrate bitrate m s s' m e
    accepted :
        (s' : S) (m' : EncoderBitrate)
        → IsApplied bitrate m s s' m'
        → SetBitrate bitrate m s s' m' c2_ok

  -- An error is one, and a value has what is asked of it.
  abbrev OnApplied : (S → ℕ → Type 0) → S × Applied → Type 0
  OnApplied Q (s, applied n) = Q s n
  OnApplied Q (s, not_applied e) = e ≢ c2_ok

  positive-OnApplied :
      (Q : S → ℕ → Type 0) (s : S) (r : Option ℤ)
      → ((n : ℕ) → r ≡ some (pos n) → n ≢ 0 → Q s n)
      → OnApplied Q (s, positive r)
  positive-OnApplied Q s none k = λ e. cc
  positive-OnApplied Q s (some (negsuc n)) k = λ e. cc
  positive-OnApplied Q s (some (pos n)) k =
      if-cases (λ (a : Applied). OnApplied Q (s, a)) (n == 0) (not_applied c2_corrupted) (applied n)
        (λ zero e. cc) (λ some_bits. k n refl (ground arith))

  within_peak-OnApplied :
      (Q : S → ℕ → Type 0) (s : S) (peak : ℕ) (r : Option ℤ)
      → ((n : ℕ) → r ≡ some (pos n) → n ≢ 0 → n ≤ peak → Q s n)
      → OnApplied Q (s, within_peak peak r)
  within_peak-OnApplied Q s peak none k = λ e. cc
  within_peak-OnApplied Q s peak (some (negsuc n)) k = λ e. cc
  within_peak-OnApplied Q s peak (some (pos n)) k =
      if-cases (λ (a : Applied). OnApplied Q (s, a)) (n == 0 || ltb peak n)
        (not_applied c2_bad_value) (applied n) (λ bad e. cc)
        (λ good. k n refl (ground arith) (ground arith))

  read_bitrate-OnApplied :
      (Q : S → ℕ → Type 0) (id : ℕ) (r : S × C2Status)
      → (r.1 ≡ c2_ok
          → (n : ℕ) → (d.g_ctrl id r.0).1 ≡ some (pos n)
          → n ≢ 0
          → Q (d.g_ctrl id r.0).0 n)
      → OnApplied Q (read_bitrate d id r)
  read_bitrate-OnApplied Q id (s, c2_ok) k =
      positive-OnApplied Q (d.g_ctrl id s).0 (d.g_ctrl id s).1 (k refl)
  read_bitrate-OnApplied Q id (s, c2_blocking) k = λ e. cc
  read_bitrate-OnApplied Q id (s, c2_bad_value) k = λ e. cc
  read_bitrate-OnApplied Q id (s, c2_bad_state) k = λ e. cc
  read_bitrate-OnApplied Q id (s, c2_not_found) k = λ e. cc
  read_bitrate-OnApplied Q id (s, c2_no_init) k = λ e. cc
  read_bitrate-OnApplied Q id (s, c2_no_memory) k = λ e. cc
  read_bitrate-OnApplied Q id (s, c2_corrupted) k = λ e. cc
  read_bitrate-OnApplied Q id (s, c2_omitted) k = λ e. cc
  read_bitrate-OnApplied Q id (s, c2_timed_out) k = λ e. cc
  read_bitrate-OnApplied Q id (s, (c2_other n)) k = λ e. cc

  apply_bitrate_control-HoldsBitrate :
      (id value : ℕ) (s : S)
      → OnApplied (HoldsBitrate id value s) (apply_bitrate_control d id value s)
  unfolding apply_bitrate_control
  apply_bitrate_control-HoldsBitrate id value s =
      read_bitrate-OnApplied (HoldsBitrate id value s) id (set_control d id (pos value) true s)
        (λ ok n read ne.
          let (supported, written, same) = set_control_inv d id (pos value) s ok in
          record {
            supported = supported;
            written = written;
            state_read = rw same refl;
            read = rw same at read;
            some_bits = ne;
          })

  module _ (bitrate : ℕ) (m : EncoderBitrate) (s : S) where
    -- What a result of SetEncoderBitrate comes to.
    abbrev OnSet : S × EncoderBitrate × C2Status → Type 0
    OnSet (s', m', e) = SetBitrate bitrate m s s' m' e

    module _ (ne : bitrate ≢ 0) (range : bitrate ≤ int32_max) (written_at : S) (target : ℕ)
        (is_target : IsTarget bitrate m s written_at target) where
      with_peak-OnSet :
          (read_at : S) (effective : ℕ) (r : S × Applied)
          → HoldsBitrate cid_bitrate target written_at read_at effective
          → m.venus_encoder && not m.encoder_configured ≡ true
          → OnApplied (HoldsBitrate cid_bitrate_peak effective read_at) r
          → OnSet (with_peak d bitrate effective m r)
      with_peak-OnSet read_at effective (s', not_applied e) stored new bad = rejected s' e bad
      with_peak-OnSet read_at effective (s', applied peak) stored new held =
          if-cases OnSet (ltb peak effective) (s', m, c2_bad_value)
            (s', with_bitrate bitrate effective (record m { encoder_peak_bitrate = peak }), c2_ok)
            (λ low. rejected s' c2_bad_value (λ e. cc))
            (λ enough. accepted s' _ (record {
              not_zero = ne;
              in_range = range;
              current = refl;
              written_at = written_at;
              target = target;
              is_target = is_target;
              read_at = read_at;
              stored = stored;
              has_peak = new_peak s' new held;
              below_peak = λ venus. ground arith;
              fixed_peak = λ configured. absurd (ground arith);
            }))

      with_effective-OnSet :
          (r : S × Applied)
          → OnApplied (HoldsBitrate cid_bitrate target written_at) r
          → OnSet (with_effective d bitrate m r)
      with_effective-OnSet (s', not_applied e) bad = rejected s' e bad
      with_effective-OnSet (s', applied effective) stored =
          if-cases OnSet
            (m.venus_encoder && (m.encoder_configured && ltb m.encoder_peak_bitrate effective))
            (s', m, c2_corrupted)
            (if m.venus_encoder && not m.encoder_configured
              then with_peak d bitrate effective m
                  (apply_bitrate_control d cid_bitrate_peak effective s')
              else (s', with_bitrate bitrate effective m, c2_ok))
            (λ above. rejected s' c2_corrupted (λ e. cc))
            (λ below.
              if-cases OnSet (m.venus_encoder && not m.encoder_configured)
                (with_peak d bitrate effective m
                  (apply_bitrate_control d cid_bitrate_peak effective s'))
                (s', with_bitrate bitrate effective m, c2_ok)
                (λ new.
                  with_peak-OnSet s' effective _ stored new
                    (apply_bitrate_control-HoldsBitrate cid_bitrate_peak effective s'))
                (λ running. accepted s' _ (record {
                  not_zero = ne;
                  in_range = range;
                  current = refl;
                  written_at = written_at;
                  target = target;
                  is_target = is_target;
                  read_at = s';
                  stored = stored;
                  has_peak = same_peak running refl;
                  below_peak = λ venus. ground arith;
                  fixed_peak = λ configured. refl;
                })))

    with_target-OnSet :
        (r : S × Applied)
        → bitrate ≢ 0
        → bitrate ≤ int32_max
        → OnApplied (IsTarget bitrate m s) r
        → OnSet (with_target d bitrate m r)
    with_target-OnSet (s', not_applied e) ne range bad = rejected s' e bad
    with_target-OnSet (s', applied target) ne range is_target =
        with_effective-OnSet ne range s' target is_target
          (apply_bitrate_control d cid_bitrate target s')
          (apply_bitrate_control-HoldsBitrate cid_bitrate target s')

    target_bitrate-IsTarget : OnApplied (IsTarget bitrate m s) (target_bitrate d bitrate m s)
    target_bitrate-IsTarget =
        if-cases (OnApplied (IsTarget bitrate m s)) (m.venus_encoder && m.encoder_configured) _ _
          (λ running.
            within_peak-OnApplied (IsTarget bitrate m s) (d.try_bitrate (pos bitrate) s).0
              m.encoder_peak_bitrate (d.try_bitrate (pos bitrate) s).1
              (λ n q some_bits within. normalised n running q some_bits within))
          (λ new. as_requested new)

  -- SetEncoderBitrate for any bitrate, driver and members: with C2_OK the bitrate is positive and
  -- an int32; the driver supports the control and accepts a write of it, or on a configured Venus
  -- encoder of what the driver makes of it, a positive number within the peak; the member is what
  -- the driver then reads, which is positive, and the requested bitrate is kept as the current
  -- one. On a Venus encoder that is not configured the peak is written and read the same way; a
  -- bitrate of a Venus encoder is not above its peak, and the peak of a configured encoder stays.
  -- With an error, the members stay.
  pub set_encoder_bitrate-SetBitrate :
      (bitrate : ℕ) (s : S) (m : EncoderBitrate)
      → SetBitrate bitrate m s
          (set_encoder_bitrate d bitrate s m).0
          (set_encoder_bitrate d bitrate s m).1
          (set_encoder_bitrate d bitrate s m).2
  unfolding set_encoder_bitrate
  set_encoder_bitrate-SetBitrate bitrate s m =
      if-cases (OnSet bitrate m s) (bitrate == 0 || ltb int32_max bitrate) (s, m, c2_bad_value)
        (with_target d bitrate m (target_bitrate d bitrate m s))
        (λ bad. rejected s c2_bad_value (λ e. cc))
        (λ good.
          with_target-OnSet bitrate m s (target_bitrate d bitrate m s) (ground arith) (ground arith)
            (target_bitrate-IsTarget bitrate m s))
