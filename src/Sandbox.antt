-- ===== src/Sandbox.antt =====
-- service/SandboxMode.h, service/SelinuxState.cpp and service/ServiceSandbox.cpp: whether the
-- service runs under its seccomp filter. The property, the calls of the kernel and libminijail
-- are parameters.
pub mod Decision
mod Examples
use text.Mathlib.Text.{◌==◌}
use Prim.Native.String.{String}
use hardware_floral_codec.Common.{ℕ, Bool, true, false, ◌&&◌, ◌||◌, if◌then◌else◌}
use hardware_floral_codec.Common.Int.{ℤ, pos, ◌==ℤ◌}

pub data SandboxMode : Type 0 where
  disabled enabled invalid : SandboxMode

pub data SelinuxState : Type 0 where
  unknown selinux_disabled permissive enforcing : SelinuxState

-- `SelinuxStatus`.
pub record SelinuxStatus : Type 0 where
  pub state : SelinuxState
  pub error : ℕ

abbrev pub status : SelinuxState → ℕ → SelinuxStatus
status state error = record { state = state; error = error }

-- What `statfs` gives: the type of the file system, or an errno.
pub data StatFs : Type 0 where
  fs_type : ℕ → StatFs
  stat_error : ℕ → StatFs

-- What the functions read of the system: the boot property, `statfs`, and `security_getenforce`
-- with the errno that it leaves.
pub record System : Type 0 where
  pub property : String
  pub statfs : String → StatFs
  pub getenforce : ℤ × ℕ

-- The constants of <linux/magic.h>, <cerrno> and <linux/seccomp.h>.
abbrev pub sysfs_magic : ℕ
sysfs_magic = 0x62656572

abbrev pub selinux_magic : ℕ
selinux_magic = 0xf97cff8c

abbrev pub enoent : ℕ
enoent = 2

abbrev eio : ℕ
eio = 5

abbrev pub einval : ℕ
einval = 22

abbrev pub seccomp_mode_filter : ℕ
seccomp_mode_filter = 2

infix 50 ◌==ℕ◌
abbrev pub ◌==ℕ◌ : ℕ → ℕ → Bool
a ==ℕ b = hardware_floral_codec.Common.◌==◌ a b

-- Where there is no /sys/fs/selinux: only a sysfs above it says that SELinux is disabled.
unfoldable pub state_without_selinuxfs : StatFs → SelinuxStatus
state_without_selinuxfs (stat_error e) = status unknown e
state_without_selinuxfs (fs_type t) =
    if t ==ℕ sysfs_magic then status selinux_disabled 0 else status unknown enoent

-- What `security_getenforce` says, with the errno of the call.
unfoldable pub state_of_enforce : ℤ → ℕ → SelinuxStatus
state_of_enforce enforce errno =
    if enforce ==ℤ pos 1
    then status enforcing 0
    else if enforce ==ℤ pos 0
    then status permissive 0
    else status unknown (if errno ==ℕ 0 then eio else errno)

unfoldable pub state_of_selinuxfs : System → StatFs → SelinuxStatus
unfolding state_without_selinuxfs state_of_enforce
state_of_selinuxfs system (stat_error e) =
    if e ==ℕ enoent then state_without_selinuxfs (system.statfs "/sys/fs") else status unknown e
state_of_selinuxfs system (fs_type t) =
    if t ==ℕ sysfs_magic
    then status selinux_disabled 0
    else if t ==ℕ selinux_magic
    then state_of_enforce system.getenforce.0 system.getenforce.1
    else status unknown einval

-- `QuerySelinuxState`.
unfoldable pub query_selinux_state : System → SelinuxStatus
unfolding state_of_selinuxfs
query_selinux_state system = state_of_selinuxfs system (system.statfs "/sys/fs/selinux")

-- The mode for an empty value.
unfoldable pub default_mode : SelinuxState → SandboxMode
default_mode enforcing = enabled
default_mode selinux_disabled = disabled
default_mode permissive = disabled
default_mode unknown = invalid

unfoldable pub requested_mode : SelinuxState → SandboxMode
requested_mode enforcing = enabled
requested_mode selinux_disabled = invalid
requested_mode permissive = invalid
requested_mode unknown = invalid

-- `ResolveSandboxMode`.
unfoldable pub resolve_sandbox_mode : String → SelinuxState → SandboxMode
unfolding default_mode requested_mode
resolve_sandbox_mode value state =
    if value == "0"
    then disabled
    else if value == "1"
    then requested_mode state
    else if value == ""
    then default_mode state
    else invalid

-- libminijail and `prctl`, over the state of the process: whether `minijail_new` gives a jail, the
-- settings, `minijail_enter`, and the two values that are read back.
pub record Minijail (P : Type 0) : Type 0 where
  pub new : P → P × Bool
  pub no_new_privs : P → P
  pub use_seccomp_filter : P → P
  pub set_seccomp_filter_tsync : P → P
  pub parse_seccomp_filters : String → P → P
  pub enter : P → P
  pub get_no_new_privs : P → ℤ
  pub get_seccomp : P → ℤ

-- The status that `SetUpServiceSandbox` resolves the value with.
unfoldable pub needed_status : System → SelinuxStatus
needed_status system =
    if system.property == "" || system.property == "1"
    then query_selinux_state system
    else status unknown 0

unfoldable pub mode_of : System → SandboxMode
unfolding needed_status
mode_of system = resolve_sandbox_mode system.property (needed_status system).state

module _ {P : Type 0} (jail : Minijail P) where
  abbrev pub is_active : P → Bool
  is_active p = jail.get_no_new_privs p ==ℤ pos 1 && jail.get_seccomp p ==ℤ pos seccomp_mode_filter

  abbrev enter_jail : P → P
  enter_jail p = jail.enter (
      jail.parse_seccomp_filters "/vendor/etc/seccomp_policy/floral-codec.policy"
        (jail.set_seccomp_filter_tsync (jail.use_seccomp_filter (jail.no_new_privs p))))

  -- The filter is installed, and read back.
  unfoldable pub install_filter : P × Bool → P × Bool
  install_filter (p, false) = (p, false)
  install_filter (p, true) = let p' = enter_jail p in (p', is_active p')

  unfoldable pub set_up_in_mode : SandboxMode → P → P × Bool
  unfolding install_filter
  set_up_in_mode invalid p = (p, false)
  set_up_in_mode disabled p = (p, true)
  set_up_in_mode enabled p = install_filter (jail.new p)

  -- `SetUpServiceSandbox`: the process afterwards and the return value.
  unfoldable pub set_up_service_sandbox : System → P → P × Bool
  unfolding set_up_in_mode mode_of
  set_up_service_sandbox system p = set_up_in_mode (mode_of system) p
