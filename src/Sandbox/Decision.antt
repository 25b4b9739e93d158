-- ===== src/Sandbox/Decision.antt =====
-- When the sandbox is left out, and what it takes for the service to start.
use text.Mathlib.Text.{◌==◌}
use text.Mathlib.TextEquality.{eq_iff}
use Prim.Native.String.{String}
use hardware_floral_codec.Common.{
  ℕ, ◌≡◌, ◌≢◌, ◌⊎◌, inl, inr, refl, Bool, true, false, Bool-cases, ap, ◌∙◌, ==_iff,
}
use hardware_floral_codec.Common.Int.{ℤ, pos, ◌==ℤ◌}
use hardware_floral_codec.Sandbox.{
  SandboxMode, disabled, enabled, invalid, SelinuxState, unknown, selinux_disabled, permissive,
  enforcing, ◌==ℕ◌, selinux_magic, StatFs, fs_type, stat_error, System, sysfs_magic, enoent,
  query_selinux_state, resolve_sandbox_mode, default_mode, requested_mode, state_without_selinuxfs,
  state_of_selinuxfs, state_of_enforce, Minijail, needed_status, mode_of, is_active, install_filter,
  set_up_in_mode, set_up_service_sandbox,
}

text_eq : (a b : String) → (a == b) ≡ true → a ≡ b
text_eq a b = (eq_iff a b).0

-- SELinux does not enforce, and the query says so.
pub data IsLax : SelinuxState → Type 0 where
  lax_disabled : IsLax selinux_disabled
  lax_permissive : IsLax permissive

default_mode-IsLax : (s : SelinuxState) → default_mode s ≡ disabled → IsLax s
unfolding default_mode
default_mode-IsLax enforcing h = cc
default_mode-IsLax selinux_disabled h = lax_disabled
default_mode-IsLax permissive h = lax_permissive
default_mode-IsLax unknown h = cc

default_mode_enabled : (s : SelinuxState) → default_mode s ≡ enabled → s ≡ enforcing
unfolding default_mode
default_mode_enabled enforcing h = refl
default_mode_enabled selinux_disabled h = cc
default_mode_enabled permissive h = cc
default_mode_enabled unknown h = cc

requested_mode-ne-disabled : (s : SelinuxState) → requested_mode s ≢ disabled
unfolding requested_mode
requested_mode-ne-disabled enforcing h = cc
requested_mode-ne-disabled selinux_disabled h = cc
requested_mode-ne-disabled permissive h = cc
requested_mode-ne-disabled unknown h = cc

requested_mode_enabled : (s : SelinuxState) → requested_mode s ≡ enabled → s ≡ enforcing
unfolding requested_mode
requested_mode_enabled enforcing h = refl
requested_mode_enabled selinux_disabled h = cc
requested_mode_enabled permissive h = cc
requested_mode_enabled unknown h = cc

-- The sandbox is disabled only for the value 0, or for no value where SELinux is known to be
-- disabled or permissive.
pub resolve_sandbox_mode_disabled :
    (value : String) (state : SelinuxState)
    → resolve_sandbox_mode value state ≡ disabled
    → (value ≡ "0") ⊎ ((value ≡ "") × IsLax state)
unfolding resolve_sandbox_mode
resolve_sandbox_mode_disabled value state h = elim (Bool-cases (value == "0")) [
  | inl zero ↦ inl (text_eq value "0" zero)
  | inr other ↦ elim (Bool-cases (value == "1")) [
    | inl one ↦ absurd (requested_mode-ne-disabled state (rw (other, one) at h))
    | inr more ↦ elim (Bool-cases (value == "")) [
      | inl empty ↦
          inr (text_eq value "" empty, default_mode-IsLax state (rw (other, more, empty) at h))
      | inr strange ↦ cc (rw (other, more, strange) at h)
    ]
  ]
]

-- The sandbox is enabled only where SELinux enforces, for the value 1 or for no value.
pub resolve_sandbox_mode_enabled :
    (value : String) (state : SelinuxState)
    → resolve_sandbox_mode value state ≡ enabled
    → (state ≡ enforcing) × ((value ≡ "1") ⊎ (value ≡ ""))
unfolding resolve_sandbox_mode
resolve_sandbox_mode_enabled value state h = elim (Bool-cases (value == "0")) [
  | inl zero ↦ cc (rw zero at h)
  | inr other ↦ elim (Bool-cases (value == "1")) [
    | inl one ↦ (requested_mode_enabled state (rw (other, one) at h), inl (text_eq value "1" one))
    | inr more ↦ elim (Bool-cases (value == "")) [
      | inl empty ↦
          (default_mode_enabled state (rw (other, more, empty) at h), inr (text_eq value "" empty))
      | inr strange ↦ cc (rw (other, more, strange) at h)
    ]
  ]
]

-- What shows that SELinux is disabled: a sysfs where its file system would be, or a sysfs above a
-- directory that does not exist.
pub data IsProved (system : System) : Type 0 where
  no_selinuxfs : system.statfs "/sys/fs/selinux" ≡ fs_type sysfs_magic → IsProved system
  no_directory :
      system.statfs "/sys/fs/selinux" ≡ stat_error enoent
      → system.statfs "/sys/fs" ≡ fs_type sysfs_magic
      → IsProved system

state_of_enforce-ne-disabled : (z : ℤ) (e : ℕ) → (state_of_enforce z e).state ≢ selinux_disabled
unfolding state_of_enforce
state_of_enforce-ne-disabled z e h = elim (Bool-cases (z ==ℤ pos 1)) [
  | inl one ↦ cc (rw one at h)
  | inr other ↦ elim (Bool-cases (z ==ℤ pos 0)) [
    | inl zero ↦ cc (rw (other, zero) at h)
    | inr more ↦ cc (rw (other, more) at h)
  ]
]

StatFs-cases : (f : StatFs) → ((t : ℕ) × (f ≡ fs_type t)) ⊎ ((e : ℕ) × (f ≡ stat_error e))
StatFs-cases (fs_type t) = inl (t, refl)
StatFs-cases (stat_error e) = inr (e, refl)

state_without_selinuxfs_disabled :
    (f : StatFs) → (state_without_selinuxfs f).state ≡ selinux_disabled → f ≡ fs_type sysfs_magic
unfolding state_without_selinuxfs
state_without_selinuxfs_disabled (stat_error e) h = cc
state_without_selinuxfs_disabled (fs_type t) h = elim (Bool-cases (t ==ℕ sysfs_magic)) [
  | inl same ↦ ap fs_type ((==_iff t sysfs_magic).0 same)
  | inr other ↦ cc (rw other at h)
]

module _ (system : System) where
  fs_type-IsProved :
      (t : ℕ)
      → system.statfs "/sys/fs/selinux" ≡ fs_type t
      → (state_of_selinuxfs system (fs_type t)).state ≡ selinux_disabled
      → IsProved system
  unfolding state_of_selinuxfs
  fs_type-IsProved t e h = elim (Bool-cases (t ==ℕ sysfs_magic)) [
    | inl same ↦ no_selinuxfs (e ∙ ap fs_type ((==_iff t sysfs_magic).0 same))
    | inr other ↦ elim (Bool-cases (t ==ℕ selinux_magic)) [
      | inl mounted ↦ absurd (
          state_of_enforce-ne-disabled system.getenforce.0 system.getenforce.1
            (rw (other, mounted) at h))
      | inr strange ↦ cc (rw (other, strange) at h)
    ]
  ]

  stat_error-IsProved :
      (e : ℕ)
      → system.statfs "/sys/fs/selinux" ≡ stat_error e
      → (state_of_selinuxfs system (stat_error e)).state ≡ selinux_disabled
      → IsProved system
  unfolding state_of_selinuxfs
  stat_error-IsProved e q h = elim (Bool-cases (e ==ℕ enoent)) [
    | inl same ↦
        no_directory (q ∙ ap stat_error ((==_iff e enoent).0 same))
          (state_without_selinuxfs_disabled (system.statfs "/sys/fs") (rw same at h))
    | inr other ↦ cc (rw other at h)
  ]

-- SELinux counts as disabled only where a sysfs stands in the place of its file system, or that
-- place does not exist below a sysfs.
pub query_selinux_state-IsProved :
    (system : System) → (query_selinux_state system).state ≡ selinux_disabled → IsProved system
unfolding query_selinux_state
query_selinux_state-IsProved system h = elim (StatFs-cases (system.statfs "/sys/fs/selinux")) [
  | inl (t, e) ↦ fs_type-IsProved system t e (rw e at h)
  | inr (n, e) ↦ stat_error-IsProved system n e (rw e at h)
]

needed_status-query :
    (system : System) → system.property ≡ "" → needed_status system ≡ query_selinux_state system
unfolding needed_status
needed_status-query system e = rw e refl

module _ {P : Type 0} (jail : Minijail P) where
  install_filter-is_active :
      (r : P × Bool)
      → (install_filter jail r).1 ≡ true
      → is_active jail (install_filter jail r).0 ≡ true
  unfolding install_filter
  install_filter-is_active (p, false) h = cc
  install_filter-is_active (p, true) h = h

  set_up_in_mode_started :
      (m : SandboxMode) (p : P)
      → (set_up_in_mode jail m p).1 ≡ true
      → (m ≡ disabled) ⊎ (is_active jail (set_up_in_mode jail m p).0 ≡ true)
  unfolding set_up_in_mode
  set_up_in_mode_started invalid p h = cc
  set_up_in_mode_started disabled p h = inl refl
  set_up_in_mode_started enabled p h = inr (install_filter-is_active (jail.new p) h)

  set_up_in_mode_untouched :
      (m : SandboxMode) (p : P) → m ≢ enabled → (set_up_in_mode jail m p).0 ≡ p
  unfolding set_up_in_mode
  set_up_in_mode_untouched invalid p h = refl
  set_up_in_mode_untouched disabled p h = refl
  set_up_in_mode_untouched enabled p h = absurd (h refl)

  -- If SetUpServiceSandbox returns true, the boot property is 0, or it is empty and the query says
  -- that SELinux is disabled or permissive, or the process that is left has no new privileges and
  -- runs under its seccomp filter.
  pub set_up_service_sandbox_started :
      (system : System) (p : P)
      → (set_up_service_sandbox jail system p).1 ≡ true
      → (system.property ≡ "0")
        ⊎ (((system.property ≡ "") × IsLax (query_selinux_state system).state)
            ⊎ (is_active jail (set_up_service_sandbox jail system p).0 ≡ true))
  unfolding set_up_service_sandbox
  set_up_service_sandbox_started system p h = elim (set_up_in_mode_started (mode_of system) p h) [
    | inr active ↦ inr (inr active)
    | inl off ↦
        elim (resolve_sandbox_mode_disabled system.property (needed_status system).state
          (unfold mode_of in off)) [
            | inl zero ↦ inl zero
            | inr (empty, lax) ↦ inr (inl (empty, rw (needed_status-query system empty) at lax))
          ]
  ]

  -- Where the mode is not enabled, the process is left as it was.
  pub set_up_service_sandbox_untouched :
      (system : System) (p : P)
      → mode_of system ≢ enabled
      → (set_up_service_sandbox jail system p).0 ≡ p
  unfolding set_up_service_sandbox
  set_up_service_sandbox_untouched system p h = set_up_in_mode_untouched (mode_of system) p h
