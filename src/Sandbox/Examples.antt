-- ===== src/Sandbox/Examples.antt =====
-- A device whose SELinux enforces, and one that has none.
use Prim.Native.String.{String}
use hardware_floral_codec.Common.{ℕ, suc, ◌≡◌, ◌≢◌, ◌⊎◌, refl, Bool, true, false}
use hardware_floral_codec.Common.Int.{pos}
use hardware_floral_codec.Sandbox.{
  enabled, selinux_disabled, enforcing, fs_type, System, sysfs_magic, selinux_magic,
  query_selinux_state, resolve_sandbox_mode, Minijail, mode_of, is_active, set_up_service_sandbox,
}
use hardware_floral_codec.Sandbox.Decision.{IsLax, set_up_service_sandbox_started}

abbrev asked : String
asked = "1"

on_run : resolve_sandbox_mode asked enforcing ≡ enabled
unfolding resolve_sandbox_mode
on_run = refl

abbrev without_selinux : System
without_selinux = record {
  property = "";
  statfs = λ path. fs_type sysfs_magic;
  getenforce = (pos 0, 0);
}

abbrev with_selinux : System
with_selinux = record {
  property = "";
  statfs = λ path. fs_type selinux_magic;
  getenforce = (pos 1, 0);
}

without_run : (query_selinux_state without_selinux).state ≡ selinux_disabled
unfolding query_selinux_state
without_run = refl

-- A process counts the calls, and its filter is active once it has entered the jail.
abbrev process_jail : Minijail (ℕ × Bool)
process_jail = record {
  new = λ p. (p, true);
  no_new_privs = λ p. (suc p.0, p.1);
  use_seccomp_filter = λ p. (suc p.0, p.1);
  set_seccomp_filter_tsync = λ p. (suc p.0, p.1);
  parse_seccomp_filters = λ path p. (suc p.0, p.1);
  enter = λ p. (suc p.0, true);
  get_no_new_privs = λ p. pos 1;
  get_seccomp = λ p. elim p.1 [ true ↦ pos 2 | false ↦ pos 0 ];
}

started_run : (set_up_service_sandbox process_jail with_selinux (0, false)).1 ≡ true
unfolding set_up_service_sandbox query_selinux_state resolve_sandbox_mode
started_run = refl

set_up_service_sandbox_started_example :
    (with_selinux.property ≡ "0")
    ⊎ (((with_selinux.property ≡ "") × IsLax (query_selinux_state with_selinux).state)
        ⊎ (is_active process_jail (set_up_service_sandbox process_jail with_selinux (0, false)).0
            ≡ true))
set_up_service_sandbox_started_example =
    set_up_service_sandbox_started process_jail with_selinux (0, false) started_run

without_mode : mode_of without_selinux ≢ enabled
unfolding mode_of query_selinux_state resolve_sandbox_mode
without_mode = λ e. cc
